-- ===== src/Invariant/Cycle.antt =====
-- The cycle of the scheduler, the countdown of the sleeping threads, and the end of a thread.
use tupix.Base.{
  Bool, Option, arith, get_elem?, if◌then◌else◌, leb, ltb, none, refl, some, sub32, suc, zero, ℕ,
  ◌+◌, ◌==◌, ◌≡◌, ◌≤◌,
}
use tupix.Base.Int.{ℤ, pos, negsuc}
use tupix.Context.{switch_context}
use tupix.Invariant.Switch.{store_thread-IsSound, switch_context-IsSound, store_process-IsSound}
use tupix.Base.Result.{ok, from_option}
use tupix.Scheduler.{scheduler_cycle, switch_to, release_thread, kill_cur_thread}
use tupix.Kernel.{
  Kernel, load_thread, null_thread, n_threads, store_thread, Tcb, load_process, store_process,
  n_processes,
}
use tupix.Types.{pop_index, push_index}
use tupix.Invariant.{
  Ensures-index, push_index-IsTable, with_run, pop_index-le, with_sleep, Ensures-any, Ensures-bind,
  with_running, IsSound, pop_index-IsTable, Ensures-if, Ensures, Ensures-elim, with_free,
}
use tupix.Sleep.{decrement_step, decrement_waits, decrement_loop, wake}

-- The rounds of `decrement_waits` carry a counter and a position.
abbrev IsSoundRound : Kernel × ℕ × ℕ → Type 0
IsSoundRound r = IsSound r.0

wake-IsSound : (k : Kernel) (t i p : ℕ) → IsSound k → Ensures IsSoundRound (wake k t i p)
unfolding wake
wake-IsSound k t i p h =
    let sleeping = pop_index-IsTable n_threads k.sleep_waiting_q h.sleep_table in
    let awake = push_index-IsTable n_threads k.thread_indices_q t h.run_table in
    Ensures-index IsSoundRound (pop_index k.sleep_waiting_q).0 _ _
      (λ x e. Ensures-if IsSoundRound (x == t) _ _ (with_run (with_sleep h _ sleeping) _ awake) tt)
      (λ x. tt)

decrement_step-IsSound :
    (k : Kernel) (i p : ℕ) → IsSound k → Ensures IsSoundRound (decrement_step k i p)
unfolding decrement_step
decrement_step-IsSound k i p h =
    Ensures-bind (λ t. Unit {0}) IsSoundRound (from_option (get_elem? k.sleep_waiting_q.indices p))
      _ (Ensures-any _)
      (λ idx _.
        Ensures-bind (λ t. Unit {0}) IsSoundRound (load_thread k idx) _ (Ensures-any _)
          (λ t _.
            Ensures-bind IsSound IsSoundRound
              (store_thread k idx (record t { waiting_duration = sub32 t.waiting_duration 1 })) _
              (store_thread-IsSound k idx _ h)
              (λ k' h'.
                Ensures-if IsSoundRound (sub32 t.waiting_duration 1 == 0) _ _
                  (wake-IsSound k' idx i _ h') h')))

decrement_loop-IsSound :
    (fuel : ℕ) (k : Kernel) (i p : ℕ)
    → IsSound k
    → Ensures (λ r. IsSound r.0) (decrement_loop fuel k i p)
unfolding decrement_loop
decrement_loop-IsSound zero k i p h = tt
decrement_loop-IsSound (suc fuel) k i p h =
    Ensures-elim (λ r. IsSound r.0) (ltb i k.sleep_waiting_q.count) _ _
      (Ensures-bind IsSoundRound (λ r. IsSound r.0) (decrement_step k i p) _
        (decrement_step-IsSound k i p h) (λ r h'. decrement_loop-IsSound fuel r.0 r.1 r.2 h'))
      h

decrement_waits-IsSound : (k : Kernel) → IsSound k → Ensures IsSound (decrement_waits k)
unfolding decrement_waits
decrement_waits-IsSound k h =
    Ensures-bind (λ r. IsSound r.0) IsSound
      (decrement_loop (k.sleep_waiting_q.count + 1) k 0 k.sleep_waiting_q.head) _
      (decrement_loop-IsSound _ k 0 _ h)
      (λ (k', p) h'. Ensures-if IsSound (p == k'.sleep_waiting_q.tail) _ _ h' tt)

switch_to-IsSound :
    (k : Kernel) (old index : ℕ)
    → index ≤ n_threads
    → IsSound k
    → Ensures IsSound (switch_to k old index)
unfolding switch_to
switch_to-IsSound k old index r h =
    let h' = with_running h index r in
    Ensures-if IsSound (old == null_thread) _ _
      (switch_context-IsSound (record k { running_thread = index }) none index h')
      (Ensures-bind (λ t. Unit {0}) IsSound (load_thread (record k { running_thread = index }) old)
        _ (Ensures-any _)
        (λ t _.
          let run = push_index-IsTable n_threads k.thread_indices_q t.index h.run_table in
          Ensures-index IsSound (push_index k.thread_indices_q t.index).0 _ _
            (λ x e. switch_context-IsSound _ (some old) index (with_run h' _ run))
            (λ x. with_run h' _ run)))

pub scheduler_cycle-IsSound :
    (k : Kernel) (decrement : Bool) → IsSound k → Ensures IsSound (scheduler_cycle k decrement)
unfolding scheduler_cycle
scheduler_cycle-IsSound k decrement h =
    Ensures-bind IsSound IsSound (if decrement then decrement_waits k else ok k) _
      (Ensures-if IsSound decrement _ _ (decrement_waits-IsSound k h) h)
      (λ k' h'.
        let run = pop_index-IsTable n_threads k'.thread_indices_q h'.run_table in
        Ensures-if IsSound (k'.thread_indices_q.count == 0) _ _ h' (
          Ensures-index IsSound (pop_index k'.thread_indices_q).0 _ _
            (λ x e.
              switch_to-IsSound _ k'.running_thread x (pop_index-le n_threads _ x h'.run_table e).1
                (with_run h' _ run))
            (λ x. with_run h' _ run)))

next_slot-le :
    (r : ℤ)
    → ((x : ℕ) → r ≡ pos x → x ≤ n_threads)
    → elim r [ negsuc _ ↦ null_thread | pos i ↦ i ] ≤ n_threads
next_slot-le (pos x) h = h x refl
next_slot-le (negsuc x) h = omega arith

release_thread-IsSound :
    (k : Kernel) (p : Option ℕ) (t : Tcb) → IsSound k → Ensures IsSound (release_thread k p t)
unfolding release_thread
release_thread-IsSound k p t h =
    Ensures-bind (λ t. Unit {0}) IsSound (from_option p) _ (Ensures-any _)
      (λ slot _.
        Ensures-bind (λ p. Unit {0}) IsSound (load_process k slot) _ (Ensures-any _)
          (λ pcb _.
            Ensures-bind IsSound IsSound (store_process k slot _) _
              (store_process-IsSound k slot _ h)
              (λ k' h'.
                Ensures-if IsSound
                  (leb (push_index pcb.free_indices_q t.index).1.size
                    (push_index pcb.free_indices_q t.index).1.count)
                  _ _
                  (with_free h' _ (
                    push_index-IsTable n_processes k'.free_process_indices_q pcb.index
                      h'.free_table))
                  h')))

pub kill_cur_thread-IsSound : (k : Kernel) → IsSound k → Ensures IsSound (kill_cur_thread k)
unfolding kill_cur_thread
kill_cur_thread-IsSound k h =
    Ensures-bind (λ t. Unit {0}) IsSound (load_thread k k.running_thread) _ (Ensures-any _)
      (λ t _.
        Ensures-bind IsSound IsSound (switch_context _ none _) _
          (switch_context-IsSound _ none _ (
            with_run
              (with_running h _ (
                next_slot-le (pop_index k.thread_indices_q).0
                  (λ x e. (pop_index-le n_threads k.thread_indices_q x h.run_table e).1)))
              _ (pop_index-IsTable n_threads k.thread_indices_q h.run_table)))
          (λ k' h'. release_thread-IsSound k' t.process t h'))
