-- ===== src/Calls/Verify.antt =====
-- The tests of a user's pointers in system/calls.c.
use tupix.Base.{arith, leb, ltb, sub32, true, ℕ, ◌%◌, ◌&&◌, ◌*◌, ◌+◌, ◌-◌, ◌<◌, ◌==◌, ◌^◌, ◌≡◌, ◌≤◌}
use tupix.Base.Result.{ok}
use tupix.Thread.{get_stack_pointer, get_max_stack_pointer, thread_stack_size}
use tupix.Scheduler.{get_cur_thread_index}
use tupix.Kernel.{Kernel, n_threads_per_process}
use tupix.Calls.{verify_pointer, verify_func_pointer, verify_args}

-- The bounds on the stack of each thread that a process can have.
pub get_stack_pointer_lem :
    (i : ℕ)
    → i ≤ n_threads_per_process
    → (get_stack_pointer i ≡ 0x0050_0000 + i * 0x2000 + 0x2400)
      × (get_max_stack_pointer i ≡ 0x0050_0000 + i * 0x2000 + 0x2000)
unfolding get_stack_pointer get_max_stack_pointer
get_stack_pointer_lem i h = ground arith

pub verify_pointer_lem :
    (k : Kernel) (p i : ℕ)
    → get_cur_thread_index k ≡ ok i
    → i ≤ n_threads_per_process
    → verify_pointer k p
      ≡ ok (
          (p % 4 == 0)
          && (ltb p (0x0050_0000 + i * 0x2000 + 0x2400)
              && leb (0x0050_0000 + i * 0x2000 + 0x2000) p))
unfolding verify_pointer
verify_pointer_lem k p i e h = rw (e, (get_stack_pointer_lem i h).0, (get_stack_pointer_lem i h).1)

-- A thread whose index is at most 4 and that asks for less than 2 ^ 31 bytes passes the tests of `fork`
-- and `create_thread` only with a size that is a multiple of 4 and at most the size of a stack. The
-- copy, `size` bytes below the stack pointer of the new thread at any index `j`, then stays on that
-- thread's stack.
pub verify_args_bounds :
    (k : Kernel) (i j : ℕ)
    → get_cur_thread_index k ≡ ok i
    → i ≤ n_threads_per_process
    → j ≤ n_threads_per_process
    → k.regs.gr.r1 < 2 ^ 32
    → k.regs.gr.r2 < 2 ^ 31
    → verify_args k ≡ ok true
    → (k.regs.gr.r2 % 4 ≡ 0)
      × (k.regs.gr.r2 ≤ thread_stack_size)
      × (get_max_stack_pointer j ≤ sub32 (get_stack_pointer j) k.regs.gr.r2)
      × (sub32 (get_stack_pointer j) k.regs.gr.r2 ≤ get_stack_pointer j)
unfolding verify_args verify_func_pointer
verify_args_bounds k i j e hi hj h1 h2 ok_args = ground (
  arith,
  verify_pointer_lem k k.regs.gr.r1 i e hi,
  verify_pointer_lem k (sub32 k.regs.gr.r1 (sub32 k.regs.gr.r2 4)) i e hi,
  get_stack_pointer_lem j hj,
)

-- The difference of the pointer and the size wraps: every multiple of 4 that is a small negative number as an
-- `int32` passes for a size, at a pointer to the bottom of the stack.
pub verify_args_wraps :
    (k : Kernel) (i : ℕ)
    → get_cur_thread_index k ≡ ok i
    → i ≤ n_threads_per_process
    → k.regs.gr.r0 % 4 ≡ 0
    → k.regs.gr.r1 ≡ get_max_stack_pointer i
    → k.regs.gr.r2 % 4 ≡ 0
    → 2 ^ 32 - thread_stack_size + 4 < k.regs.gr.r2
    → k.regs.gr.r2 < 2 ^ 32
    → verify_args k ≡ ok true
unfolding verify_args verify_func_pointer
verify_args_wraps k i e hi h0 h1 h2 h3 h4 = ground (
  arith,
  verify_pointer_lem k k.regs.gr.r1 i e hi,
  verify_pointer_lem k (sub32 k.regs.gr.r1 (sub32 k.regs.gr.r2 4)) i e hi,
  get_stack_pointer_lem i hi,
)

-- The tests look at the wrong end of the block: `memcpy` reads upwards from `args`, and a pointer to
-- the topmost word of the stack passes with every size up to that of the stack, although the block
-- that is read then ends above the stack.
pub verify_args_overrun :
    (k : Kernel) (i : ℕ)
    → get_cur_thread_index k ≡ ok i
    → i ≤ n_threads_per_process
    → k.regs.gr.r0 % 4 ≡ 0
    → k.regs.gr.r1 ≡ get_stack_pointer i - 4
    → k.regs.gr.r2 % 4 ≡ 0
    → 4 < k.regs.gr.r2
    → k.regs.gr.r2 ≤ thread_stack_size
    → (verify_args k ≡ ok true) × (get_stack_pointer i < k.regs.gr.r1 + k.regs.gr.r2)
unfolding verify_args verify_func_pointer
verify_args_overrun k i e hi h0 h1 h2 h3 h4 = ground (
  arith,
  verify_pointer_lem k k.regs.gr.r1 i e hi,
  verify_pointer_lem k (sub32 k.regs.gr.r1 (sub32 k.regs.gr.r2 4)) i e hi,
  get_stack_pointer_lem i hi,
)
