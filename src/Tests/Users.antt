-- ===== src/Tests/Users.antt =====
-- The tests of a user's pointers.
use tupix.Base.{arith, refl, sub32, true, ℕ, ◌%◌, ◌+◌, ◌<◌, ◌≡◌, ◌≤◌}
use tupix.Calls.Verify.{verify_args_wraps, verify_args_overrun, verify_args_bounds}
use tupix.Base.Result.{ok}
use tupix.Tests.Samples.{sample, zero_frame}
use tupix.Registers.{zero_registers}
use tupix.Thread.{get_stack_pointer, thread_stack_size, get_max_stack_pointer}
use tupix.Scheduler.{get_cur_thread_index}
use tupix.Calls.{verify_args, verify_pointer, verify_func_pointer}
use tupix.Kernel.{Kernel, load_thread}

-- Thread 1 of process 1 asks for a new thread with the argument pointer and size given.
abbrev asks : ℕ → ℕ → Kernel
asks args args_size = record sample {
  regs = record zero_frame {
    spsr = 0x10;
    gr = record zero_registers { r0 = 0x0040_0100; r1 = args; r2 = args_size };
  };
}

cur_index : (args args_size : ℕ) → get_cur_thread_index (asks args args_size) ≡ ok 1
unfolding get_cur_thread_index load_thread
cur_index args args_size = refl

accepted : verify_args (asks 0x0050_4100 4) ≡ ok true
unfolding verify_args verify_func_pointer verify_pointer get_cur_thread_index load_thread
    get_stack_pointer get_max_stack_pointer
accepted = refl

verify_args_bounds_example :
    ◌≡◌ {A = ℕ} (4 % 4) 0
    × (4 ≤ thread_stack_size)
    × (get_max_stack_pointer 2 ≤ sub32 (get_stack_pointer 2) 4)
    × (sub32 (get_stack_pointer 2) 4 ≤ get_stack_pointer 2)
verify_args_bounds_example =
    verify_args_bounds (asks 0x0050_4100 4) 1 2 (cur_index 0x0050_4100 4) (omega arith)
      (omega arith) (omega arith) (omega arith) accepted

verify_args_wraps_example : verify_args (asks 0x0050_4000 0xffff_fff0) ≡ ok true
unfolding get_max_stack_pointer get_stack_pointer
verify_args_wraps_example =
    verify_args_wraps (asks 0x0050_4000 0xffff_fff0) 1 (cur_index 0x0050_4000 0xffff_fff0)
      (omega arith) refl refl refl (omega arith) (omega arith)

verify_args_overrun_example :
    (verify_args (asks 0x0050_43fc 0x400) ≡ ok true) × (get_stack_pointer 1 < 0x0050_43fc + 0x400)
unfolding get_stack_pointer
verify_args_overrun_example =
    verify_args_overrun (asks 0x0050_43fc 0x400) 1 (cur_index 0x0050_43fc 0x400) (omega arith) refl
      refl refl (omega arith) (omega arith)
