-- ===== src/Invariant/Parking.antt =====
-- Threads that wait, and the delivery of characters to them.
use tupix.Base.{Bool-cases, arith, false, if◌then◌else◌, inl, inr, some, ℕ, ◌==◌, ◌≡◌}
use tupix.Invariant.Cycle.{scheduler_cycle-IsSound}
use tupix.Invariant.Switch.{switch_context-IsSound, store_thread-IsSound}
use tupix.Uart.Refine.{IsBuffer, uart_pop_char-IsBuffer}
use tupix.Base.Result.{Result}
use tupix.Uart.{uart_pop_char, uart_queue_is_emtpy}
use tupix.Scheduler.{scheduler_cycle}
use tupix.Kernel.{Kernel, null_thread, store_thread, load_thread, n_threads}
use tupix.Types.{pop_index}
use tupix.Invariant.{
  Ensures, pop_index-IsTable, Ensures-index, Ensures-any, IsSound, with_run, with_queue, with_char,
  Ensures-bind, with_running, push_index-IsTable, with_sleep, Ensures-if,
}
use tupix.Waiting.{
  scheduler_on_getchar, sleep_waiting, push_waiting, push_waiting_thread, deliver_char,
  scheduler_on_sleep, scheduler_on_char_received, char_waiting, WaitingQueue,
}
use tupix.Context.{get_global_thread_index, switch_context}

push_waiting-IsSound :
    (w : WaitingQueue) (k : Kernel) (index : ℕ) → IsSound k → IsSound (push_waiting w k index)
unfolding push_waiting
push_waiting-IsSound sleep_waiting k index h =
    with_sleep h _ (push_index-IsTable n_threads k.sleep_waiting_q index h.sleep_table)
push_waiting-IsSound char_waiting k index h =
    with_char h _ (push_index-IsTable n_threads k.char_waiting_q index h.char_table)

abbrev IsSoundWait : ℕ × Kernel → Type 0
IsSoundWait r = IsSound r.1

push_waiting_thread-IsSound :
    (w : WaitingQueue) (k : Kernel) → IsSound k → Ensures IsSoundWait (push_waiting_thread w k)
unfolding push_waiting_thread
push_waiting_thread-IsSound w k h =
    Ensures-if IsSoundWait (k.running_thread == null_thread) _ _ tt (
      Ensures-bind (λ t. Unit {0}) IsSoundWait (load_thread k k.running_thread) _ (Ensures-any _)
        (λ t _.
          Ensures-bind (λ t. Unit {0}) IsSoundWait (get_global_thread_index k t) _ (Ensures-any _)
            (λ index _.
              Ensures-bind IsSound IsSoundWait
                (switch_context _ (some k.running_thread) null_thread) _
                (switch_context-IsSound _ _ null_thread (push_waiting-IsSound w k index h))
                (λ k' h'.
                  Ensures-bind IsSound IsSoundWait (scheduler_cycle _ false) _
                    (scheduler_cycle-IsSound _ false (with_running h' null_thread (omega arith)))
                    (λ k'' h''. h'')))))

pub scheduler_on_sleep-IsSound :
    (k : Kernel) (duration : ℕ) → IsSound k → Ensures IsSound (scheduler_on_sleep k duration)
unfolding scheduler_on_sleep
scheduler_on_sleep-IsSound k duration h = Ensures-if IsSound (duration == 0) _ _ h (
    Ensures-bind IsSoundWait IsSound (push_waiting_thread sleep_waiting k) _
      (push_waiting_thread-IsSound sleep_waiting k h)
      (λ (thread, k') h'.
        Ensures-bind (λ t. Unit {0}) IsSound (load_thread k' thread) _ (Ensures-any _)
          (λ t _. store_thread-IsSound k' thread _ h')))

pub scheduler_on_getchar-IsSound :
    (k : Kernel) → IsSound k → Ensures IsSound (scheduler_on_getchar k)
unfolding scheduler_on_getchar
scheduler_on_getchar-IsSound k h =
    Ensures-bind IsSoundWait IsSound (push_waiting_thread char_waiting k) _
      (push_waiting_thread-IsSound char_waiting k h)
      (λ (thread, k') h'.
        Ensures-bind (λ t. Unit {0}) IsSound (load_thread k' thread) _ (Ensures-any _)
          (λ t _. store_thread-IsSound k' thread _ h'))

pub uart_pop_char_sound :
    (k : Kernel)
    → uart_queue_is_emtpy k.queue ≡ false
    → IsSound k
    → IsBuffer (uart_pop_char k.queue).1
unfolding uart_queue_is_emtpy
uart_pop_char_sound k e h = uart_pop_char-IsBuffer k.queue h.buffer (ground (arith, e))

-- `uart_pop_char` is reached with a character in the buffer only.
pub Ensures-buffered :
    (k : Kernel) (m n : Result Kernel)
    → Ensures IsSound m
    → (uart_queue_is_emtpy k.queue ≡ false → Ensures IsSound n)
    → Ensures IsSound (if uart_queue_is_emtpy k.queue then m else n)
Ensures-buffered k m n h g = elim (Bool-cases (uart_queue_is_emtpy k.queue)) [
  | inl empty ↦ rw empty h
  | inr some_left ↦ rw some_left (g some_left)
]

deliver_char-IsSound : (k : Kernel) (index : ℕ) → IsSound k → Ensures IsSound (deliver_char k index)
unfolding deliver_char
deliver_char-IsSound k index h = Ensures-buffered k _ _ h (λ some_left.
    Ensures-bind (λ t. Unit {0}) IsSound (load_thread k index) _ (Ensures-any _)
      (λ t _.
        Ensures-bind IsSound IsSound (store_thread _ index _) _
          (store_thread-IsSound _ index _ (with_queue h _ (uart_pop_char_sound k some_left h)))
          (λ k' h'.
            with_run h' _ (push_index-IsTable n_threads k'.thread_indices_q index h'.run_table))))

pub scheduler_on_char_received-IsSound :
    (k : Kernel) → IsSound k → Ensures IsSound (scheduler_on_char_received k)
unfolding scheduler_on_char_received
scheduler_on_char_received-IsSound k h =
    let popped = with_char h _ (pop_index-IsTable n_threads k.char_waiting_q h.char_table) in
    Ensures-if IsSound (k.char_waiting_q.count == 0) _ _ h (
      Ensures-index IsSound (pop_index k.char_waiting_q).0 _ _
        (λ i e. deliver_char-IsSound _ i popped) (λ x. popped))
