-- ===== src/Tables.antt =====
-- system/scheduler.c: setting the tables up, and registering processes and threads in them.
use tupix.Base.{Option, [], none, set, some, ℕ}
use tupix.Base.Int.{pos, negsuc}
use tupix.Base.Result.{◌>>=◌, ok, Result}
use tupix.Mmu.{init_thread_memory, cleared}
use tupix.Registers.{zero_registers, processor_mode_usr}
use tupix.Thread.{get_stack_pointer}
use tupix.Types.{pop_index, push_index, mark_all_free, init_queue}
use tupix.Context.{get_global_thread_index}
use tupix.Kernel.{
  Kernel, ready, Tcb, null_thread, n_processes, Pcb, store_process, n_threads, store_thread,
}

-- The processor's idle process and thread, in the slots 0 of the two tables.
unfoldable pub init_null_thread : Kernel → Kernel
init_null_thread k = record k {
  threads = set k.threads 0 (record {
    tid = 0;
    index = 0;
    process = some 0;
    regs = record zero_registers { pc = k.image.endless_loop; sp = get_stack_pointer 0 };
    cpsr = processor_mode_usr;
    waiting_duration = 0;
    state = ready;
  });
  processes = set k.processes 0 (record {
    pid = 0;
    index = 0;
    free_indices_q = record { size = 0; count = 0; tail = 0; head = 0; indices = [] };
    l2_table = init_thread_memory 0 0 cleared;
  });
}

unfoldable pub init_scheduler : Kernel → Kernel
init_scheduler k = record (init_null_thread k) {
  free_process_indices_q = mark_all_free (init_queue n_processes);
  thread_indices_q = init_queue n_threads;
  sleep_waiting_q = init_queue n_threads;
  char_waiting_q = init_queue n_threads;
  running_thread = null_thread;
}

-- The slot of the new process, or none for NULL.
unfoldable pub scheduler_register_process : Kernel → Pcb → Result (Option ℕ × Kernel)
scheduler_register_process k process =
    let (index, free) = pop_index k.free_process_indices_q in
    let k' = record k { free_process_indices_q = free } in
    elim index [
      | negsuc _ ↦ ok (none, k')
      | pos i ↦ store_process k' i (record process { index = i }) >>= λ stored. ok (some i, stored)
    ]

-- The slot of the new thread, or none for NULL.
unfoldable pub scheduler_register_thread : Kernel → Tcb → Result (Option ℕ × Kernel)
scheduler_register_thread k thread = do
  index ← get_global_thread_index k thread
  let (pushed, run) = push_index k.thread_indices_q index
  let k' = record k { thread_indices_q = run }
  elim pushed [
    | negsuc _ ↦ ok (none, k')
    | pos _ ↦ store_thread k' index thread >>= λ stored. ok (some index, stored)
  ]
