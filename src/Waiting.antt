-- ===== src/Waiting.antt =====
-- system/scheduler.c: threads that wait for time to pass or for a character.
pub mod Delivery
pub mod Park
use tupix.Base.{false, if◌then◌else◌, some, ℕ, ◌==◌}
use tupix.Base.Int.{pos, negsuc}
use tupix.Base.Result.{◌>>=◌, ok, Result, panicked}
use tupix.Uart.{uart_pop_char, uart_queue_is_emtpy}
use tupix.Scheduler.{scheduler_cycle}
use tupix.Kernel.{ready, load_thread, null_thread, Kernel, waiting, store_thread}
use tupix.Types.{pop_index, push_index}
use tupix.Context.{get_global_thread_index, switch_context}

-- The queue that a thread waits in; `push_waiting_thread` takes a pointer to it.
pub data WaitingQueue : Type 0 where
  sleep_waiting char_waiting : WaitingQueue

unfoldable pub push_waiting : WaitingQueue → Kernel → ℕ → Kernel
push_waiting sleep_waiting k index = record k {
  sleep_waiting_q = (push_index k.sleep_waiting_q index).1;
}
push_waiting char_waiting k index = record k {
  char_waiting_q = (push_index k.char_waiting_q index).1;
}

-- The slot of the thread that waits now, and the kernel with the next thread running.
unfoldable pub push_waiting_thread : WaitingQueue → Kernel → Result (ℕ × Kernel)
push_waiting_thread waiting_q k =
    let thread = k.running_thread in
    if thread == null_thread then panicked else (do
      t ← load_thread k thread
      index ← get_global_thread_index k t
      k ← switch_context (push_waiting waiting_q k index) (some thread) null_thread
      k ← scheduler_cycle (record k { running_thread = null_thread }) false
      ok (thread, k))

unfoldable pub scheduler_on_sleep : Kernel → ℕ → Result Kernel
scheduler_on_sleep k duration = if duration == 0 then ok k else (do
  (thread, k) ← push_waiting_thread sleep_waiting k
  t ← load_thread k thread
  store_thread k thread (record t { waiting_duration = duration }))

unfoldable pub scheduler_on_getchar : Kernel → Result Kernel
scheduler_on_getchar k = do
  (thread, k) ← push_waiting_thread char_waiting k
  t ← load_thread k thread
  store_thread k thread (record t { state = waiting })

-- The received character goes to the thread that has waited longest.
unfoldable pub deliver_char : Kernel → ℕ → Result Kernel
deliver_char k index = if uart_queue_is_emtpy k.queue then ok k else (do
  t ← load_thread k index
  let (c, queue) = uart_pop_char k.queue
  k ←
      store_thread (record k { queue = queue }) index
        (record t { regs = record (t.regs) { r0 = c }; state = ready })
  ok (record k { thread_indices_q = (push_index k.thread_indices_q index).1 }))

unfoldable pub scheduler_on_char_received : Kernel → Result Kernel
scheduler_on_char_received k =
    if k.char_waiting_q.count == 0
    then ok k
    else (let (index, waiting_q) = pop_index k.char_waiting_q in
        let k' = record k { char_waiting_q = waiting_q } in
        elim index [ negsuc _ ↦ ok k' | pos i ↦ deliver_char k' i ])
