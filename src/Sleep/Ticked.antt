-- ===== src/Sleep/Ticked.antt =====
-- `decrement_waits` of system/scheduler.c, as the change of the kernel that it makes.
use tupix.Base.{
  All, List, [], ap, get_elem?, length, refl, sym, ℕ, ◌++◌, ◌+◌, ◌∙◌, ◌∷◌, ◌≡◌, ◌≢◌, ◌≤◌,
}
use tupix.Base.Result.{ok}
use tupix.Kernel.{Kernel, Tcb}
use tupix.Sleep.Loop.{wake_all}
use tupix.Sleep.Order.{decrement_waits-ends}
use tupix.Sleep.Steps.{woken}
use tupix.Sleep.Ticks.{Distinct, Expires, Waits, get_elem?-tick_ne, tick, tick_all, tick_all-append}
use tupix.Sleep.{decrement_waits}
use tupix.Types.Inv.{size-push_index}
use tupix.Types.Refine.{HasIndices, InRange, contents, push_index-HasIndices}
use tupix.Types.{IndexQueue}

-- The kernel after the ticks: only the table and the two queues differ.
abbrev pub ticked : Kernel → List Tcb → IndexQueue → IndexQueue → Kernel
ticked k threads sleepers run = record k {
  threads = threads;
  sleep_waiting_q = sleepers;
  thread_indices_q = run;
}

wake_all-ticked :
    (l : List ℕ) (k : Kernel)
    → wake_all l k
      ≡ ticked k
          (wake_all l k).threads
          (wake_all l k).sleep_waiting_q
          (wake_all l k).thread_indices_q
unfolding wake_all
wake_all-ticked [] k = refl
wake_all-ticked (b ∷ l) k = wake_all-ticked l (woken b k)

wake_all-run :
    (l : List ℕ) (k : Kernel)
    → HasIndices k.thread_indices_q
    → HasIndices (wake_all l k).thread_indices_q
      × ((wake_all l k).thread_indices_q.size ≡ k.thread_indices_q.size)
unfolding wake_all
wake_all-run [] k h = (h, refl)
wake_all-run (b ∷ l) k h =
    let (valid, size) = wake_all-run l (woken b k) (push_index-HasIndices k.thread_indices_q b h) in
    (valid, size ∙ size-push_index k.thread_indices_q b)

-- The sleepers `expired` have their last tick to wait and stand before `kept`, which wait on.
pub record IsSleeping (k : Kernel) (expired kept : List ℕ) : Type 0 where
  pub sleepers : HasIndices k.sleep_waiting_q
  pub in_order : contents k.sleep_waiting_q ≡ expired ++ kept
  pub distinct : Distinct (expired ++ kept)
  pub over : All (Expires k.threads) expired
  pub waits : All (Waits k.threads) kept
  pub in_table : All (InRange k.thread_indices_q.size) expired
  pub room : length (contents k.thread_indices_q) + length expired ≤ k.thread_indices_q.size

-- The whole state after `decrement_waits`, for the callers.
pub decrement_waits-ticks :
    (k : Kernel) (expired kept : List ℕ)
    → IsSleeping k expired kept
    → HasIndices k.thread_indices_q
    → (sleepers : IndexQueue) × (run : IndexQueue) × (decrement_waits k
        ≡ ok (ticked k (tick_all (expired ++ kept) k.threads) sleepers run))
      × (contents sleepers ≡ kept)
      × (contents run ≡ contents k.thread_indices_q ++ expired)
      × HasIndices run
      × (run.size ≡ k.thread_indices_q.size)
decrement_waits-ticks k expired kept h run_ok =
    let wk : Kernel = wake_all expired k in
    let (returns, after) =
      decrement_waits-ends k expired kept h.sleepers run_ok.valid h.in_order h.distinct h.over
        h.waits h.in_table h.room in
    let (valid, size) = wake_all-run expired k run_ok in
    (
      wk.sleep_waiting_q,
      wk.thread_indices_q,
      returns
          ∙ ap (λ (m : Kernel). ok (record m { threads = tick_all kept wk.threads }))
              (wake_all-ticked expired k)
          ∙ ap (λ ts. ok (ticked k ts wk.sleep_waiting_q wk.thread_indices_q))
              (ap (tick_all kept) after.table ∙ sym (tick_all-append expired kept k.threads)),
      after.asleep,
      after.ready_to_run,
      valid,
      size,
    )

-- A thread that does not sleep stays as it is.
pub get_elem?-tick_all :
    (l : List ℕ) (c : ℕ) (ts : List Tcb)
    → All (λ b. b ≢ c) l
    → get_elem? (tick_all l ts) c ≡ get_elem? ts c
unfolding tick_all
get_elem?-tick_all [] c ts h = refl
get_elem?-tick_all (b ∷ l) c ts h =
    get_elem?-tick_all l c (tick b ts) h.1 ∙ get_elem?-tick_ne b c ts h.0
