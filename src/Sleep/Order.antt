-- ===== src/Sleep/Order.antt =====
-- `decrement_waits` of system/scheduler.c, by the order of the sleep queue.
use tupix.Base.{
  All, List, [], ap, append-nil, append_assoc, arith, length, length-append, refl, subst, suc, sym,
  ℕ, ◌++◌, ◌+◌, ◌∙◌, ◌∷◌, ◌≡◌, ◌≤◌,
}
use tupix.Types.Ring.{advance-After, advance, window}
use tupix.Types.Refine.{
  pop_index-head, pop_index-HasIndices, contents, push_index_fits, length-contents, InRange,
  HasIndices,
}
use tupix.Types.Inv.{size-push_index, IsValid, push_index-IsValid}
use tupix.Sleep.Steps.{woken, decrement_step-panics}
use tupix.Sleep.Loop.{
  loop-ends, wake_all, decrement_loop-passes, decrement_loop-wakes, Stretch-append, loop-panics,
  Stretch-cons,
}
use tupix.Sleep.Ticks.{
  Distinct, Expires, Waits, tick_all, Distinct-append, All-Waits-tick_all, tick_all-append,
  All-Expires-tick_all, Distinct-back, Distinct-first, Distinct-front,
}
use tupix.Base.Result.{ok, panicked}
use tupix.Kernel.{Kernel}
use tupix.Types.{IndexQueue}
use tupix.Sleep.{decrement_loop, decrement_waits}

-- The queues and the table after `wake_all`.
pub record Woken (k : Kernel) (l rest : List ℕ) (k' : Kernel) : Type 0 where
  pub asleep : contents k'.sleep_waiting_q ≡ rest
  pub asleep_ok : HasIndices k'.sleep_waiting_q
  pub ready_to_run : contents k'.thread_indices_q ≡ contents k.thread_indices_q ++ l
  pub table : k'.threads ≡ tick_all l k.threads

wake_all-Woken :
    (l rest : List ℕ) (k : Kernel)
    → HasIndices k.sleep_waiting_q
    → IsValid k.thread_indices_q
    → contents k.sleep_waiting_q ≡ l ++ rest
    → All (InRange k.thread_indices_q.size) l
    → length (contents k.thread_indices_q) + length l ≤ k.thread_indices_q.size
    → Woken k l rest (wake_all l k)
unfolding wake_all tick_all
wake_all-Woken [] rest k v run e r room = record {
  asleep = e;
  asleep_ok = v;
  ready_to_run = sym (append-nil (contents k.thread_indices_q));
  table = refl;
}
wake_all-Woken (b ∷ l) rest k v run e r room =
    let q : IndexQueue = k.thread_indices_q in
    let pushed = push_index_fits q b run r.0 (omega (arith, length-contents q)) in
    let ih =
      wake_all-Woken l rest (woken b k) (pop_index-HasIndices k.sleep_waiting_q v)
        (push_index-IsValid q b run) (pop_index-head k.sleep_waiting_q b (l ++ rest) v e).1
        (rw (size-push_index q b) r.1)
        (omega
          (arith, size-push_index q b, ap length pushed.1, length-append (contents q) (b ∷ []))) in
    record {
      asleep = ih.asleep;
      asleep_ok = ih.asleep_ok;
      ready_to_run =
          ih.ready_to_run ∙ ap (λ c. c ++ l) pushed.1 ∙ append_assoc (contents q) (b ∷ []) l;
      table = ih.table;
    }

-- The loop ends at the tail of the queue, past the threads that wait on.
loop-kept :
    (kept : List ℕ) (k : Kernel)
    → HasIndices k.sleep_waiting_q
    → contents k.sleep_waiting_q ≡ kept
    → All (Waits k.threads) kept
    → Distinct kept
    → decrement_loop (length kept + 1) k 0 k.sleep_waiting_q.head
      ≡ ok (record k { threads = tick_all kept k.threads }, k.sleep_waiting_q.tail)
loop-kept kept k v e w d =
    let q : IndexQueue = k.sleep_waiting_q in
    let full : length kept ≡ q.count = omega (arith, ap length e, length-contents q) in
    decrement_loop-passes kept 1 k 0 q.head v.valid
      (v.valid.head_in, rw full (unfold contents in e)) w d (omega arith)
    ∙ loop-ends 0 (record k { threads = tick_all kept k.threads }) (0 + length kept)
        (advance q.size (length kept) q.head) (omega arith)
    ∙ ap (λ p. ok (record k { threads = tick_all kept k.threads }, p))
        (ap (λ n. advance q.size n q.head) full
          ∙ advance-After q.size q.count q.head q.tail v.valid.small v.valid.head_in v.valid.tail_in
              v.valid.cycle)

pub decrement_waits-loop :
    (k k' : Kernel)
    → decrement_loop (k.sleep_waiting_q.count + 1) k 0 k.sleep_waiting_q.head
      ≡ ok (k', k'.sleep_waiting_q.tail)
    → decrement_waits k ≡ ok k'
unfolding decrement_waits
decrement_waits-loop k k' e = rw e (ground arith)

-- What `decrement_waits` returns then.
pub decrement_waits-ends :
    (k : Kernel) (expired kept : List ℕ)
    → HasIndices k.sleep_waiting_q
    → IsValid k.thread_indices_q
    → contents k.sleep_waiting_q ≡ expired ++ kept
    → Distinct (expired ++ kept)
    → All (Expires k.threads) expired
    → All (Waits k.threads) kept
    → All (InRange k.thread_indices_q.size) expired
    → length (contents k.thread_indices_q) + length expired ≤ k.thread_indices_q.size
    → (decrement_waits k
        ≡ ok (record (wake_all expired k) { threads = tick_all kept (wake_all expired k).threads }))
      × Woken k expired kept (wake_all expired k)
decrement_waits-ends k expired kept v run e d x w r room =
    let parts = Distinct-append expired kept d in
    let wk : Kernel = wake_all expired k in
    let after = wake_all-Woken expired kept k v run e r room in
    let rounds : k.sleep_waiting_q.count + 1 ≡ length expired + (length kept + 1) =
      omega (arith, ap length e, length-contents k.sleep_waiting_q, length-append expired kept) in
    let waits : All (Waits wk.threads) kept =
      rw after.table (All-Waits-tick_all expired kept k.threads parts.2 w) in
    (
      decrement_waits-loop k (record wk { threads = tick_all kept wk.threads })
          (ap (λ f. decrement_loop f k 0 k.sleep_waiting_q.head) rounds
            ∙ decrement_loop-wakes expired kept (length kept + 1) k v e x parts.0
            ∙ loop-kept kept wk after.asleep_ok after.asleep waits parts.1),
      after,
    )

-- If the sleeping threads whose wait ends with this tick stand before those that wait on, and no
-- thread sleeps twice, `decrement_waits` returns: every sleeper is counted down once, the first move
-- to the end of the run queue in their order, and the others sleep on in theirs. The run queue must
-- have room and the slots of its range.
pub decrement_waits_wakes :
    (k : Kernel) (expired kept : List ℕ)
    → HasIndices k.sleep_waiting_q
    → IsValid k.thread_indices_q
    → contents k.sleep_waiting_q ≡ expired ++ kept
    → Distinct (expired ++ kept)
    → All (Expires k.threads) expired
    → All (Waits k.threads) kept
    → All (InRange k.thread_indices_q.size) expired
    → length (contents k.thread_indices_q) + length expired ≤ k.thread_indices_q.size
    → (k' : Kernel) × (decrement_waits k ≡ ok k')
      × (contents k'.sleep_waiting_q ≡ kept)
      × (contents k'.thread_indices_q ≡ contents k.thread_indices_q ++ expired)
      × (k'.threads ≡ tick_all (expired ++ kept) k.threads)
decrement_waits_wakes k expired kept v run e d x w r room =
    let (returns, after) = decrement_waits-ends k expired kept v run e d x w r room in
    let wk : Kernel = wake_all expired k in
    (
      record wk { threads = tick_all kept wk.threads },
      returns,
      after.asleep,
      after.ready_to_run,
      ap (tick_all kept) after.table ∙ sym (tick_all-append expired kept k.threads),
    )

-- The loop from the start of a queue that begins with threads that wait on, of which `a` is the first,
-- followed by a thread `b` whose wait is over.
loop-stops :
    (k : Kernel) (mid post : List ℕ) (a b fuel : ℕ)
    → HasIndices k.sleep_waiting_q
    → contents k.sleep_waiting_q ≡ (a ∷ mid) ++ (b ∷ post)
    → Distinct ((a ∷ mid) ++ (b ∷ post))
    → All (Waits k.threads) (a ∷ mid)
    → Expires k.threads b
    → decrement_loop (length (a ∷ mid) + suc fuel) k 0 k.sleep_waiting_q.head ≡ panicked
loop-stops k mid post a b fuel v e d w x =
    let q : IndexQueue = k.sleep_waiting_q in
    let full : length ((a ∷ mid) ++ (b ∷ post)) ≡ q.count =
      omega (arith, ap length e, length-contents q) in
    let long = length-append (a ∷ mid) (b ∷ post) in
    let parts = Distinct-append (a ∷ mid) (b ∷ post) d in
    let whole : window q.indices q.size q.head (length ((a ∷ mid) ++ (b ∷ post)))
        ≡ (a ∷ mid) ++ (b ∷ post) =
      ap (λ n. window q.indices q.size q.head n) full ∙ unfold contents in e in
    let at = Stretch-append q (a ∷ mid) (b ∷ post) q.head v.valid (v.valid.head_in, whole) in
    let still : All (Expires (tick_all (a ∷ mid) k.threads)) (b ∷ []) =
      All-Expires-tick_all (a ∷ mid) (b ∷ []) k.threads (Distinct-first (a ∷ mid) b post parts.2)
        (x, tt) in
    decrement_loop-passes (a ∷ mid) (suc fuel) k 0 q.head v.valid at.0 w parts.0 (omega arith)
    ∙ loop-panics fuel (record k { threads = tick_all (a ∷ mid) k.threads }) (0 + length (a ∷ mid))
        (advance q.size (length (a ∷ mid)) q.head) (omega arith)
        (decrement_step-panics (record k { threads = tick_all (a ∷ mid) k.threads })
          (0 + length (a ∷ mid)) (advance q.size (length (a ∷ mid)) q.head) b a
          (Stretch-cons q (advance q.size (length (a ∷ mid)) q.head) b post v.valid at.1).0 still.0
          (pop_index-head q a (mid ++ (b ∷ post)) v e).0 parts.2.0.0)

decrement_waits-loop_panics :
    (k : Kernel)
    → decrement_loop (k.sleep_waiting_q.count + 1) k 0 k.sleep_waiting_q.head ≡ panicked
    → decrement_waits k ≡ panicked
unfolding decrement_waits
decrement_waits-loop_panics k e = rw e

-- If some thread's wait ends with this tick while a thread before it in the queue waits on, and no
-- thread sleeps twice, the assertion in `decrement_waits` fails and the kernel panics.
pub decrement_waits_panics :
    (k : Kernel) (expired mid post : List ℕ) (a b : ℕ)
    → HasIndices k.sleep_waiting_q
    → IsValid k.thread_indices_q
    → contents k.sleep_waiting_q ≡ expired ++ (a ∷ mid ++ (b ∷ post))
    → Distinct (expired ++ (a ∷ mid ++ (b ∷ post)))
    → All (Expires k.threads) expired
    → Waits k.threads a
    → All (Waits k.threads) mid
    → Expires k.threads b
    → All (InRange k.thread_indices_q.size) expired
    → length (contents k.thread_indices_q) + length expired ≤ k.thread_indices_q.size
    → decrement_waits k ≡ panicked
decrement_waits_panics k expired mid post a b v run e d x wa wm xb r room =
    let kept : List ℕ = (a ∷ mid) ++ (b ∷ post) in
    let parts = Distinct-append expired kept d in
    let wk : Kernel = wake_all expired k in
    let after = wake_all-Woken expired kept k v run e r room in
    let rounds : k.sleep_waiting_q.count + 1
        ≡ length expired + (length (a ∷ mid) + suc (length (b ∷ post))) =
      omega (
        arith,
        ap length e,
        length-contents k.sleep_waiting_q,
        length-append expired kept,
        length-append (a ∷ mid) (b ∷ post),
      ) in
    let waits : All (Waits wk.threads) (a ∷ mid) =
      subst (λ ts. All (Waits ts) (a ∷ mid)) (sym after.table)
        (All-Waits-tick_all expired (a ∷ mid) k.threads
          (Distinct-front expired (a ∷ mid) (b ∷ post) parts.2) (wa, wm)) in
    let expires : All (Expires wk.threads) (b ∷ []) = rw after.table (
      All-Expires-tick_all expired (b ∷ []) k.threads
        (Distinct-first expired b post (Distinct-back expired (a ∷ mid) (b ∷ post) parts.2))
        (xb, tt)) in
    decrement_waits-loop_panics k (
      ap (λ f. decrement_loop f k 0 k.sleep_waiting_q.head) rounds
      ∙ decrement_loop-wakes expired kept (length (a ∷ mid) + suc (length (b ∷ post))) k v e x
          parts.0
      ∙ loop-stops wk mid post a b (length (b ∷ post)) after.asleep_ok after.asleep parts.1 waits
          expires.0)
