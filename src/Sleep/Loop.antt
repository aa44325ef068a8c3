-- ===== src/Sleep/Loop.antt =====
-- `decrement_waits` of system/scheduler.c: its loop over a list of threads that all wait on, and
-- over one of threads whose wait is over.
use tupix.Base.{
  All, List, [], ap, ap₂, arith, get_elem?, get_elem?-eq-get_or, length, refl, some, suc, sym, ℕ,
  ◌++◌, ◌+◌, ◌<◌, ◌∙◌, ◌∷◌, ◌≡◌, ◌≤◌,
}
use tupix.Types.Refine.{
  HasIndices, contents, contents-head, pop_index-head, length-contents, pop_index-HasIndices,
}
use tupix.Sleep.Steps.{woken, decrement_step-passes, decrement_step-wakes}
use tupix.Base.Result.{panicked, ok}
use tupix.Types.Ring.{cons_injective, window, circle_forward-lt, advance}
use tupix.Types.Inv.{IsValid, head-pop_index}
use tupix.Sleep.Ticks.{Waits, tick_all, Distinct, tick, All-Waits-tick, Expires, All-Expires-tick}
use tupix.Kernel.{Kernel}
use tupix.Types.{IndexQueue, circle_forward}
use tupix.Sleep.{decrement_loop, decrement_step}

-- The entries of a queue from the position `p` on.
abbrev pub Stretch : IndexQueue → ℕ → List ℕ → Type 0
Stretch q p l = (p < q.size) × (window q.indices q.size p (length l) ≡ l)

pub Stretch-cons :
    (q : IndexQueue) (p b : ℕ) (l : List ℕ)
    → IsValid q
    → Stretch q p (b ∷ l)
    → (get_elem? q.indices p ≡ some b) × Stretch q (circle_forward p q.size) l
Stretch-cons q p b l v (lt, e) = (
  get_elem?-eq-get_or q.indices p 0 (omega (arith, v.storage)) ∙ ap some (cons_injective e).0,
  (circle_forward-lt p q.size (omega arith), (cons_injective e).1),
)

pub Stretch-append :
    (q : IndexQueue) (l m : List ℕ) (p : ℕ)
    → IsValid q
    → Stretch q p (l ++ m)
    → Stretch q p l × Stretch q (advance q.size (length l) p) m
unfolding advance
Stretch-append q [] m p v s = ((s.0, refl), s)
Stretch-append q (b ∷ l) m p v s =
    let at = Stretch-cons q p b (l ++ m) v s in
    let rest = Stretch-append q l m (circle_forward p q.size) v at.1 in
    ((s.0, ap₂ ◌∷◌ (cons_injective s.1).0 rest.0.1), rest.1)

loop-continues :
    (fuel : ℕ) (k k' : Kernel) (i p i' p' : ℕ)
    → i < k.sleep_waiting_q.count
    → decrement_step k i p ≡ ok (k', i', p')
    → decrement_loop (suc fuel) k i p ≡ decrement_loop fuel k' i' p'
unfolding decrement_loop
loop-continues fuel k k' i p i' p' lt e = ground arith

pub loop-panics :
    (fuel : ℕ) (k : Kernel) (i p : ℕ)
    → i < k.sleep_waiting_q.count
    → decrement_step k i p ≡ panicked
    → decrement_loop (suc fuel) k i p ≡ panicked
unfolding decrement_loop
loop-panics fuel k i p lt e = ground arith

pub loop-ends :
    (fuel : ℕ) (k : Kernel) (i p : ℕ)
    → k.sleep_waiting_q.count ≤ i
    → decrement_loop (suc fuel) k i p ≡ ok (k, p)
unfolding decrement_loop
loop-ends fuel k i p le = ground arith

-- Threads that wait on are counted down, and nothing else changes.
pub decrement_loop-passes :
    (l : List ℕ) (fuel : ℕ) (k : Kernel) (i p : ℕ)
    → IsValid k.sleep_waiting_q
    → Stretch k.sleep_waiting_q p l
    → All (Waits k.threads) l
    → Distinct l
    → i + length l ≤ k.sleep_waiting_q.count
    → decrement_loop (length l + fuel) k i p
      ≡ decrement_loop fuel
          (record k { threads = tick_all l k.threads })
          (i + length l)
          (advance k.sleep_waiting_q.size (length l) p)
unfolding tick_all advance
decrement_loop-passes [] fuel k i p v s w d h =
    ap₂ (λ f j. decrement_loop f k j p) (omega arith) (omega arith)
decrement_loop-passes (b ∷ l) fuel k i p v s w d h =
    let at = Stretch-cons k.sleep_waiting_q p b l v s in
    ap (λ f. decrement_loop f k i p) (omega arith)
    ∙ loop-continues (length l + fuel) k (record k { threads = tick b k.threads }) i p (i + 1)
        (circle_forward p k.sleep_waiting_q.size) (omega arith)
        (decrement_step-passes k i p b at.0 w.0)
    ∙ decrement_loop-passes l fuel (record k { threads = tick b k.threads }) (i + 1)
        (circle_forward p k.sleep_waiting_q.size) v at.1 (All-Waits-tick b l k.threads d.0 w.1) d.1
        (omega arith)
    ∙ ap
        (λ j.
          decrement_loop fuel (record k { threads = tick_all l (tick b k.threads) }) j
            (advance k.sleep_waiting_q.size (length l) (circle_forward p k.sleep_waiting_q.size)))
        (omega arith)

-- The kernel after the threads of the list were woken, one after the other.
unfoldable pub wake_all : List ℕ → Kernel → Kernel
wake_all [] k = k
wake_all (b ∷ l) k = wake_all l (woken b k)

-- While the waits at the head of the queue are over, the loop moves its threads to the run queue.
pub decrement_loop-wakes :
    (l rest : List ℕ) (fuel : ℕ) (k : Kernel)
    → HasIndices k.sleep_waiting_q
    → contents k.sleep_waiting_q ≡ l ++ rest
    → All (Expires k.threads) l
    → Distinct l
    → decrement_loop (length l + fuel) k 0 k.sleep_waiting_q.head
      ≡ decrement_loop fuel (wake_all l k) 0 (wake_all l k).sleep_waiting_q.head
unfolding wake_all
decrement_loop-wakes [] rest fuel k v e x d =
    ap (λ f. decrement_loop f k 0 k.sleep_waiting_q.head) (omega arith)
decrement_loop-wakes (b ∷ l) rest fuel k v e x d =
    let q : IndexQueue = k.sleep_waiting_q in
    let popped = pop_index-head q b (l ++ rest) v e in
    let some_left : 0 < q.count = omega (arith, ap length e, length-contents q) in
    ap (λ f. decrement_loop f k 0 q.head) {y = suc (length l + fuel)} (omega arith)
    ∙ loop-continues (length l + fuel) k (woken b k) 0 q.head 0 (circle_forward q.head q.size)
        some_left
        (decrement_step-wakes k 0 q.head b (contents-head q b (l ++ rest) v.valid e) x.0 popped.0)
    ∙ ap (λ p. decrement_loop (length l + fuel) (woken b k) 0 p)
        (sym (head-pop_index q (omega arith)))
    ∙ decrement_loop-wakes l rest fuel (woken b k) (pop_index-HasIndices q v) (popped.1)
        (All-Expires-tick b l k.threads d.0 x.1) d.1
