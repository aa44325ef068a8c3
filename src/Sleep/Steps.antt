-- ===== src/Sleep/Steps.antt =====
-- `decrement_waits` of system/scheduler.c: one round of its loop, in the three ways it can go.
use tupix.Base.{arith, get_elem?, get_elem?-some-lt, some, ℕ, ◌+◌, ◌≡◌, ◌≢◌}
use tupix.Sleep.Ticks.{tick, Expires, tick_eq, Waits}
use tupix.Base.Int.{pos}
use tupix.Base.Result.{ok, panicked}
use tupix.Kernel.{Kernel, load_thread, store_thread}
use tupix.Types.{push_index, pop_index, circle_forward}
use tupix.Sleep.{wake, decrement_step}

-- A thread that waits on is counted down and passed.
pub decrement_step-passes :
    (k : Kernel) (i p b : ℕ)
    → get_elem? k.sleep_waiting_q.indices p ≡ some b
    → Waits k.threads b
    → decrement_step k i p
      ≡ ok (record k { threads = tick b k.threads }, i + 1, circle_forward p k.sleep_waiting_q.size)
unfolding decrement_step load_thread store_thread
decrement_step-passes k i p b at (t, found, word, more) =
    rw (tick_eq b k.threads t found) (ground (arith, get_elem?-some-lt k.threads b found))

-- A thread whose wait is over and that is not the head of the queue stops the kernel.
pub decrement_step-panics :
    (k : Kernel) (i p b a : ℕ)
    → get_elem? k.sleep_waiting_q.indices p ≡ some b
    → Expires k.threads b
    → (pop_index k.sleep_waiting_q).0 ≡ pos a
    → a ≢ b
    → decrement_step k i p ≡ panicked
unfolding decrement_step load_thread store_thread wake
decrement_step-panics k i p b a at (t, found, over) head ne =
    ground (arith, get_elem?-some-lt k.threads b found)

-- The head of the queue, its wait over, moves to the run queue.
abbrev pub woken : ℕ → Kernel → Kernel
woken b k = record k {
  threads = tick b k.threads;
  sleep_waiting_q = (pop_index k.sleep_waiting_q).1;
  thread_indices_q = (push_index k.thread_indices_q b).1;
}

pub decrement_step-wakes :
    (k : Kernel) (i p b : ℕ)
    → get_elem? k.sleep_waiting_q.indices p ≡ some b
    → Expires k.threads b
    → (pop_index k.sleep_waiting_q).0 ≡ pos b
    → decrement_step k i p ≡ ok (woken b k, i, circle_forward p k.sleep_waiting_q.size)
unfolding decrement_step load_thread store_thread wake
decrement_step-wakes k i p b at (t, found, over) head =
    rw (tick_eq b k.threads t found) (ground (arith, get_elem?-some-lt k.threads b found))
