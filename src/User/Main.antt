-- ===== src/User/Main.antt =====
-- `main_thread` of user/src/sys/user_thread.c: a round of its loop once `getchar` has returned `c`.
pub mod Grow
pub mod Stored
use tupix.Base.{
  List, [], ◌∷◌, ◌/◌, ◌^◌, Bool, Bool-cases, inl, inr, ap, sym, some, ◌∙◌, arith, if◌then◌else◌,
  leb, refl, true, ℕ, ◌%◌, ◌&&◌, ◌<◌, ◌≡◌, ◌≤◌,
}
use tupix.Base.Result.{Result, from_option, ok, ◌>>=◌}
use tupix.Calls.Verify.{get_stack_pointer_lem, verify_pointer_lem}
use tupix.Calls.{
  SyscallId, create_thread, exec_syscall, exec_syscall_create_thread, exec_syscall_fork, fork,
  get_syscall_id, run_syscall, syscall_of, verify_args, verify_func_pointer,
}
use tupix.Isr.{software_interrupt_handler, user_interrupted}
use tupix.Isr.Dump.{Locals}
use tupix.Kernel.{Kernel, load_thread, n_threads_per_process}
use tupix.Memory.{copy_out}
use tupix.Process.{process_create, thread_create}
use tupix.Scheduler.{get_cur_process, get_cur_thread_index}
use tupix.Thread.{get_max_stack_pointer, get_stack_pointer}
use tupix.Timer.{disable_timer, enable_timer, reset_timer}

unfoldable pub is_capital : ℕ → Bool
is_capital c = leb b'A' c && leb c b'Z'

-- Where the linker and the stack put what the loop uses: the code of `user_thread`, the variable `c`,
-- and the addresses behind the `svc` of `create_thread` and of `fork`.
pub record Places : Type 0 where
  pub func : ℕ
  pub variable : ℕ
  pub behind_create_thread : ℕ
  pub behind_fork : ℕ

-- The frame of the call.
unfoldable pub request : Places → ℕ → Kernel → Kernel
request at c k = record k {
  regs = record (k.regs) {
    gr = record (k.regs.gr) {
      r0 = at.func;
      r1 = at.variable;
      r2 = 4;
      lr = if is_capital c then at.behind_create_thread else at.behind_fork;
    };
  };
}

-- The bytes of a word in memory, the lowest first.
abbrev pub word_bytes : ℕ → List ℕ
word_bytes c = c % 2 ^ 8 ∷ c / 2 ^ 8 % 2 ^ 8 ∷ c / 2 ^ 16 % 2 ^ 8 ∷ c / 2 ^ 24 % 2 ^ 8 ∷ []

-- The variable gets `c`, through the page table of the running process, and the call is made.
unfoldable pub main_round : Locals → (ℕ → ℕ) → Places → ℕ → Kernel → Result Kernel
main_round locals fetch at c k = do
  k ← copy_out k at.variable (word_bytes c)
  software_interrupt_handler locals fetch (request at c k)

-- The kernel while the call runs.
abbrev pub in_call : Places → ℕ → Kernel → Kernel
in_call at c k = record (request at c k) { timer = disable_timer k.timer }

-- The variable stands on the stack of the running thread, the thread `i` of its process, and the code
-- is that of the calls.
pub record CanAsk (fetch : ℕ → ℕ) (at : Places) (k : Kernel) (i : ℕ) : Type 0 where
  pub user : user_interrupted k.regs.spsr ≡ true
  pub runs : get_cur_thread_index k ≡ ok i
  pub index : i ≤ n_threads_per_process
  pub code_aligned : at.func % 4 ≡ 0
  pub aligned : at.variable % 4 ≡ 0
  pub below : at.variable < get_stack_pointer i
  pub above : get_max_stack_pointer i ≤ at.variable
  pub creates : get_syscall_id fetch at.behind_create_thread ≡ 6
  pub forks : get_syscall_id fetch at.behind_fork ≡ 5

pub request-verifies :
    (fetch : ℕ → ℕ) (at : Places) (c : ℕ) (k : Kernel) (i : ℕ)
    → CanAsk fetch at k i
    → verify_args (in_call at c k) ≡ ok true
unfolding verify_args verify_func_pointer request get_cur_thread_index load_thread
request-verifies fetch at c k i h =
    let runs : get_cur_thread_index (in_call at c k) ≡ ok i = h.runs in
    ground (
      arith,
      verify_pointer_lem (in_call at c k) at.variable i runs h.index,
      get_stack_pointer_lem i h.index,
      h.code_aligned,
      h.aligned,
      h.below,
      h.above,
    )

-- `thread_create` for the running process.
abbrev pub new_thread : Kernel → ℕ → ℕ → ℕ → Result Kernel
new_thread k func args args_size = do
  cur ← get_cur_process k
  slot ← from_option cur
  (thread, k) ← thread_create k slot func args args_size
  ok k

-- What a call of a known number does.
pub handler-runs :
    (locals : Locals) (fetch : ℕ → ℕ) (k : Kernel) (id : ℕ) (call : SyscallId)
    → user_interrupted k.regs.spsr ≡ true
    → get_syscall_id fetch k.regs.gr.lr ≡ id
    → syscall_of id ≡ some call
    → software_interrupt_handler locals fetch k ≡ (
        run_syscall locals (some call) (record k { timer = disable_timer k.timer }) >>= λ k'.
        ok (record k' { timer = enable_timer (reset_timer k'.timer) }))
unfolding software_interrupt_handler exec_syscall
handler-runs locals fetch k id call user number known = rw (user, number, known) refl

pub create_thread-runs :
    (locals : Locals) (k : Kernel)
    → verify_args k ≡ ok true
    → run_syscall locals (some create_thread) k
      ≡ new_thread k k.regs.gr.r0 k.regs.gr.r1 k.regs.gr.r2
unfolding run_syscall exec_syscall_create_thread
create_thread-runs locals k verified = rw verified refl

pub fork-runs :
    (locals : Locals) (k : Kernel)
    → verify_args k ≡ ok true
    → run_syscall locals (some fork) k ≡ process_create k k.regs.gr.r0 k.regs.gr.r1 k.regs.gr.r2
unfolding run_syscall exec_syscall_fork
fork-runs locals k verified = rw verified refl
