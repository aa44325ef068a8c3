-- ===== src/Tests/Samples.antt =====
-- Kernels, threads and queues to run on.
use tupix.Base.{List, [], length, none, replicate, some, ℕ, ◌++◌, ◌-◌, ◌∷◌}
use tupix.Types.Refine.{contents}
use tupix.Uart.{
  uart_pop_char, uart_is_interrupting, uart_push_char, init_uart_queue, uart_peek_char,
  uart_queue_is_emtpy, UartQueue,
}
use tupix.Mmu.{
  build_l1_l2_pointer_entry, cleared, build_l2_4kb_page_entry, set_l1_access_permission,
  permission_bits, set_l2_access_permission, switch_entry, init_process_memory, update,
  set_l2_base_address_of_index, init_thread_memory, set_l1_base_address_of_index,
  build_l1_1mb_page_entry, set_page_entry_type,
}
use tupix.Registers.{ModeRegisters, processor_mode_usr, Registers, zero_registers}
use tupix.Thread.{get_stack_pointer, get_max_stack_pointer, init_thread}
use tupix.Start.{Board, init_devices, start_kernel}
use tupix.Devices.{init_uart}
use tupix.Memory.{copy_in, copy_out, switch_memory, translate}
use tupix.Scheduler.{
  scheduler_cycle, get_cur_process, release_thread, switch_to, kill_cur_thread,
  get_cur_thread_state, get_cur_thread_index,
}
use tupix.Types.{
  circle_forward, push_index, pop_index, IndexQueue, mark_all_free, mark_free_from, init_queue,
}
use tupix.Tables.{
  scheduler_register_process, scheduler_register_thread, init_scheduler, init_null_thread,
}
use tupix.Bits.{clear_bits, clear_bit, set_bit_to, set_bit, is_set}
use tupix.Calls.{
  run_syscall, exec_syscall_put_char, get_syscall_id, verify_args, is_ready, syscall_of,
  exec_syscall_create_thread, exec_syscall, exec_syscall_get_char, exec_syscall_wait, uart_put_char,
  set_syscall_return_value, exec_syscall_fork, verify_func_pointer, verify_pointer,
}
use tupix.Waiting.{
  push_waiting_thread, deliver_char, scheduler_on_char_received, scheduler_on_getchar,
  scheduler_on_sleep, push_waiting,
}
use tupix.Context.{
  save_old, switch_context, get_global_thread_index, load_new, load_context, save_context,
}
use tupix.Sleep.{wake, decrement_step, decrement_loop, decrement_waits}
use tupix.Process.{
  create_at, init_process, copy_args, process_create, new_process, thread_create, start_thread,
}
use tupix.Timer.{
  reset_timer, disable_timer, init_local_timer, l_timer_is_interrupting, enable_timer,
}
use tupix.Isr.Dump.{StatusStrings}
use tupix.Isr.{exception_handler, irq_handler, software_interrupt_handler, user_interrupted}
use tupix.Isr.Dump.{Locals}
use tupix.Kernel.{
  Kernel, Tcb, load_thread, load_process, n_threads, ready, deref_process, store_process,
  store_thread, Pcb,
}

abbrev pub array : List ℕ
array = replicate 25 0

abbrev pub arrays : StatusStrings
arrays = record {
  und_cpsr_str = array;
  und_spsr_str = array;
  svc_spsr_str = array;
  abt_spsr_str = array;
  fiq_spsr_str = array;
  irq_spsr_str = array;
}

-- What a handler finds on its stack.
abbrev pub locals : Locals
locals = record { arrays = arrays; stack = λ i. replicate 21 i }

abbrev pub no_mode : ModeRegisters
no_mode = record { lr = 0; sp = 0; spsr = 0 }

abbrev pub zero_frame : Registers
zero_frame = record {
  fiq = no_mode;
  irq = no_mode;
  abt = no_mode;
  und = no_mode;
  svc = no_mode;
  usr_lr = 0;
  usr_sp = 0;
  cpsr = 0;
  spsr = 0;
  gr = zero_registers;
}

-- The slots of the tables before anything is stored in them: static data is zero.
abbrev pub zero_tcb : Tcb
zero_tcb = record {
  tid = 0;
  index = 0;
  process = none;
  regs = zero_registers;
  cpsr = 0;
  waiting_duration = 0;
  state = ready;
}

abbrev pub zero_queue : IndexQueue
zero_queue = record { size = 0; count = 0; tail = 0; head = 0; indices = [] }

abbrev pub zero_pcb : Pcb
zero_pcb = record { pid = 0; index = 0; free_indices_q = zero_queue; l2_table = cleared }

-- A test names this to run the whole kernel.
unfoldable pub RunAll : Type 0
unfolding get_global_thread_index save_context load_context save_old load_new switch_context wake
    decrement_step decrement_loop decrement_waits init_null_thread init_scheduler
    scheduler_register_process scheduler_register_thread switch_to scheduler_cycle
    get_cur_thread_index get_cur_process get_cur_thread_state release_thread kill_cur_thread
    push_waiting push_waiting_thread scheduler_on_sleep scheduler_on_getchar deliver_char
    scheduler_on_char_received copy_args start_thread create_at thread_create new_process
    init_process process_create verify_pointer verify_func_pointer set_syscall_return_value is_ready
    exec_syscall_get_char uart_put_char exec_syscall_put_char exec_syscall_wait verify_args
    exec_syscall_fork exec_syscall_create_thread get_syscall_id syscall_of run_syscall exec_syscall
    user_interrupted exception_handler software_interrupt_handler irq_handler start_kernel
    init_devices init_uart translate switch_memory copy_in copy_out load_thread store_thread
    load_process deref_process store_process get_stack_pointer get_max_stack_pointer init_thread
    init_uart_queue uart_peek_char uart_pop_char uart_push_char uart_queue_is_emtpy
    uart_is_interrupting reset_timer l_timer_is_interrupting enable_timer disable_timer
    init_local_timer circle_forward init_queue push_index pop_index mark_free_from mark_all_free
    permission_bits set_page_entry_type set_l1_access_permission set_l1_base_address_of_index
    build_l1_1mb_page_entry build_l1_l2_pointer_entry set_l2_access_permission
    set_l2_base_address_of_index build_l2_4kb_page_entry update init_process_memory
    init_thread_memory switch_entry set_bit clear_bit clear_bits set_bit_to is_set contents
RunAll = Unit

-- A queue of the threads' table that holds the list.
abbrev pub queue_of : List ℕ → IndexQueue
queue_of l = record {
  size = n_threads;
  count = length l;
  tail = length l;
  head = 0;
  indices = l ++ replicate (n_threads - length l) 0;
}

-- The registers as another stage of the boot may leave them: everything enabled, with 7-bit words
-- and FIFOs.
abbrev pub board : Board
board = record {
  interrupts = record { enable_irq_h = 1; disable_irq_h = 0xffffffff };
  uart = record { lcrh = 0x50; cr = 0x301; imsc = 0x7f2 };
  mmu = record {
    dacr = 0x5555_5557;
    ttbcr = 1;
    ttbr0 = 0;
    sctlr = 0x00c5_0078;
    l1 = cleared;
    l1_udata_initialization = cleared;
  };
  l1_start = 0x0020_0000;
  l1_udata_initialization_l2_table = 0x0021_0000;
}

-- A thread with its local index, its process and a value in `r0`.
abbrev pub thread : ℕ → ℕ → ℕ → Tcb
thread i p v = record zero_tcb {
  index = i;
  process = some p;
  regs = record zero_registers { r0 = v };
  cpsr = processor_mode_usr;
}

abbrev pub process : ℕ → Pcb
process i = record zero_pcb {
  pid = i;
  index = i;
  free_indices_q = record { size = 4; count = 2; tail = 0; head = 2; indices = 1 ∷ 2 ∷ 3 ∷ 4 ∷ [] };
}

-- The threads 1 and 2 of process 1 stand in the slots 1 and 2, thread 1 of process 2 in slot 5.
abbrev pub some_threads : List Tcb
some_threads =
    record (thread 0 0 0) { state = ready }
    ∷ thread 1 1 100
    ∷ thread 2 1 200
    ∷ zero_tcb
    ∷ zero_tcb
    ∷ thread 1 2 500
    ∷ replicate 27 zero_tcb

abbrev pub empty_buffer : UartQueue
empty_buffer = record { size = 128; count = 0; head = 5; tail = 5; chars = replicate 128 0 }

-- Thread 1 of process 1 runs, and its sibling is ready.
abbrev pub sample : Kernel
sample = record {
  image = record {
    exit = 0x0040_0000;
    endless_loop = 0x0040_0010;
    main_thread = 0x0040_0020;
    udata = 7 ∷ 8 ∷ [];
  };
  free_process_indices_q = record {
    size = 8;
    count = 6;
    tail = 0;
    head = 2;
    indices = 1 ∷ 2 ∷ 3 ∷ 4 ∷ 5 ∷ 6 ∷ 7 ∷ 8 ∷ [];
  };
  thread_indices_q = queue_of (2 ∷ []);
  sleep_waiting_q = queue_of [];
  char_waiting_q = queue_of [];
  processes = record zero_pcb { index = 0 } ∷ process 1 ∷ process 2 ∷ replicate 6 zero_pcb;
  threads = some_threads;
  running_thread = 1;
  tid_counter = 3;
  pid_counter = 2;
  regs = record zero_frame { spsr = 0x10 };
  active = 1;
  memory = cleared;
  udata_cpy = 7 ∷ 8 ∷ [];
  queue = empty_buffer;
  transmitted = [];
  timer = record { routing = 0; ctrl_stat = 0; clear_reload = 0 };
}
