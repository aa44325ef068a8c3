-- ===== src/Sleep.antt =====
-- system/scheduler.c: the sleeping threads count down at each timer interrupt.
pub mod Ticks
pub mod Steps
pub mod Loop
pub mod Order
pub mod Ticked
use tupix.Base.{false, get_elem?, if◌then◌else◌, ltb, sub32, suc, true, zero, ℕ, ◌+◌, ◌==◌}
use tupix.Base.Int.{pos, negsuc}
use tupix.Base.Result.{◌>>=◌, ok, from_option, Result, timeout, panicked}
use tupix.Types.{pop_index, push_index, circle_forward}
use tupix.Kernel.{Kernel, load_thread, store_thread}

-- The wait of a thread is over: it must be the head of the queue, and becomes ready to run.
unfoldable pub wake : Kernel → ℕ → ℕ → ℕ → Result (Kernel × ℕ × ℕ)
wake k thread_idx i p =
    let (res, sleeping) = pop_index k.sleep_waiting_q in
    let woken = record k {
      sleep_waiting_q = sleeping;
      thread_indices_q = (push_index k.thread_indices_q thread_idx).1;
    } in
    elim res [
      | pos r ↦ if r == thread_idx then ok (woken, i, p) else panicked
      | negsuc _ ↦ panicked
    ]

-- One round of the loop of `decrement_waits`, at the counter `i` and the position `p`.
unfoldable pub decrement_step : Kernel → ℕ → ℕ → Result (Kernel × ℕ × ℕ)
decrement_step k i p = do
  thread_idx ← from_option (get_elem? k.sleep_waiting_q.indices p)
  t ← load_thread k thread_idx
  let duration = sub32 t.waiting_duration 1
  let p' = circle_forward p k.sleep_waiting_q.size
  k ← store_thread k thread_idx (record t { waiting_duration = duration })
  if duration == 0 then wake k thread_idx i p' else ok (k, i + 1, p')

-- The loop, with fuel.
unfoldable pub decrement_loop : ℕ → Kernel → ℕ → ℕ → Result (Kernel × ℕ)
decrement_loop zero k i p = timeout
decrement_loop (suc fuel) k i p = elim (ltb i k.sleep_waiting_q.count) [
  | true ↦ decrement_step k i p >>= λ (k', i', p'). decrement_loop fuel k' i' p'
  | false ↦ ok (k, p)
]

-- Each round raises the counter or lowers the count, so one more than the count is enough fuel.
unfoldable pub decrement_waits : Kernel → Result Kernel
decrement_waits k = do
  (k', p) ← decrement_loop (k.sleep_waiting_q.count + 1) k 0 k.sleep_waiting_q.head
  if p == k'.sleep_waiting_q.tail then ok k' else panicked
