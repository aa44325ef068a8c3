-- ===== src/Thread.antt =====
-- system/thread.c, less `thread_create`, which needs the scheduler.
pub mod Stacks
use tupix.Base.{if◌then◌else◌, ltb, some, sub32, u32, ℕ, ◌*◌, ◌+◌}
use tupix.Registers.{zero_registers, processor_mode_usr}
use tupix.Kernel.{Tcb, n_threads_per_process, ready, Kernel}

abbrev pub thread_stack_size : ℕ
thread_stack_size = 0x400

-- `_udata_begin` of kernel.lds
abbrev pub thread_stack_base : ℕ
thread_stack_base = 0x0050_0000

-- 0 is NULL. The assertion on `_ustacks_start` compares the address of an array with NULL.
unfoldable pub get_stack_pointer : ℕ → ℕ
get_stack_pointer index =
    if ltb n_threads_per_process index
    then 0
    else if ltb thread_stack_base (u32 (index * thread_stack_size))
    then 0
    else u32 (thread_stack_base + index * 0x2000 + 0x1000 + 0x1000 + thread_stack_size)

unfoldable pub get_max_stack_pointer : ℕ → ℕ
get_max_stack_pointer index = sub32 (get_stack_pointer index) thread_stack_size

-- The new thread, and the kernel with the counter gone up.
unfoldable pub init_thread : Kernel → ℕ → ℕ → Tcb × Kernel
init_thread k process func =
    let tid_counter = u32 (k.tid_counter + 1) in
    (
      record {
        tid = tid_counter;
        index = 0;
        process = some process;
        regs = record zero_registers { pc = func; lr = k.image.exit };
        cpsr = processor_mode_usr;
        waiting_duration = 0;
        state = ready;
      },
      record k { tid_counter = tid_counter },
    )
