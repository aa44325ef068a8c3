-- ===== src/Types/Refine.antt =====
-- The operations of data/types.c, against a FIFO of the indices from 1 to the queue's size.
use tupix.Base.{
  All, All-append, Bool-cases, List, [], ap, append-nil, append_assoc, arith, get_elem?,
  get_elem?-eq-get_or, if◌then◌else◌, inl, inr, leb, length, ltb, refl, some, suc, sym, zero, ℕ,
  ◌++◌, ◌+◌, ◌<◌, ◌==◌, ◌^◌, ◌||◌, ◌∙◌, ◌∷◌, ◌≡◌, ◌≢◌, ◌≤◌,
}
use tupix.Types.{
  IndexQueue, push_index, pop_index, minus_one, mark_free_from, init_queue, mark_all_free,
}
use tupix.Types.Inv.{
  IsValid, pop_index-IsValid, push_index-IsValid, size-push_index, count-push_index, size-pop_index,
  init_queue-IsValid,
}
use tupix.Types.Ring.{window, length-window, window_of_ne_zero, window-set, cons_injective}
use tupix.Base.Int.{ℤ, pos}

-- The indices in the queue, the oldest first.
unfoldable pub contents : IndexQueue → List ℕ
contents q = window q.indices q.size q.head q.count

abbrev pub InRange : ℕ → ℕ → Type 0
InRange size x = (0 < x) × (x ≤ size)

-- A valid queue of indices that the table has.
pub record HasIndices (q : IndexQueue) : Type 0 where
  pub valid : IsValid q
  pub entries : All (InRange q.size) (contents q)

-- What a client sees: a FIFO that refuses 0, an index above its size, and a push when full.
unfoldable pub spec_push : ℕ → List ℕ → ℕ → ℤ × List ℕ
spec_push size l x =
    if x == 0 || ltb size x
    then (minus_one, l)
    else if leb size (length l)
    then (minus_one, l)
    else (pos x, l ++ (x ∷ []))

unfoldable pub spec_pop : List ℕ → ℤ × List ℕ
spec_pop [] = (minus_one, [])
spec_pop (x ∷ l) = (pos x, l)

pub length-contents : (q : IndexQueue) → length (contents q) ≡ q.count
unfolding contents
length-contents q = length-window q.indices q.size q.head q.count

-- On a valid queue `push_index` returns what the FIFO's push returns, and leaves its entries.
pub push_index_refines :
    (q : IndexQueue) (x : ℕ)
    → IsValid q
    → let (r, q') = push_index q x in (r, contents q') ≡ spec_push q.size (contents q) x
unfolding push_index spec_push contents
push_index_refines q x v =
    ground (arith, length-contents q, window-set q.indices q.size x q.count q.head q.tail)

-- On a valid queue whose entries are indices of the table, `pop_index` returns the oldest entry,
-- or -1 when there is none, and leaves the others.
pub pop_index_refines :
    (q : IndexQueue)
    → HasIndices q
    → let (r, q') = pop_index q in (r, contents q') ≡ spec_pop (contents q)
unfolding pop_index spec_pop contents
pop_index_refines q h =
    ground (arith, h.valid, h.entries, window_of_ne_zero q.indices q.size q.head q.count)

spec_push-range :
    (size : ℕ) (l : List ℕ) (x : ℕ)
    → All (InRange size) l
    → All (InRange size) (spec_push size l x).1
unfolding spec_push
spec_push-range size l x h = elim (Bool-cases (x == 0 || ltb size x)) [
  | inl bad ↦ rw bad h
  | inr good ↦ elim (Bool-cases (leb size (length l))) [
    | inl full ↦ rw (good, full) h
    | inr room ↦ rw (good, room) (All-append (InRange size) l (x ∷ []) h (ground arith))
  ]
]

spec_pop-range : (size : ℕ) (l : List ℕ) → All (InRange size) l → All (InRange size) (spec_pop l).1
unfolding spec_pop
spec_pop-range size [] h = h
spec_pop-range size (x ∷ l) h = h.1

-- `push_index` keeps the invariant and the range of the entries.
pub push_index-HasIndices : (q : IndexQueue) (x : ℕ) → HasIndices q → HasIndices (push_index q x).1
push_index-HasIndices q x h = record {
  valid = push_index-IsValid q x h.valid;
  entries =
      rw (size-push_index q x, ap (λ p. p.1) (push_index_refines q x h.valid))
        (spec_push-range q.size (contents q) x h.entries);
}

-- `pop_index` keeps the invariant and the range of the entries.
pub pop_index-HasIndices : (q : IndexQueue) → HasIndices q → HasIndices (pop_index q).1
pop_index-HasIndices q h = record {
  valid = pop_index-IsValid q h.valid;
  entries =
      rw (size-pop_index q, ap (λ p. p.1) (pop_index_refines q h))
        (spec_pop-range q.size (contents q) h.entries);
}

spec_push_fits :
    (size : ℕ) (l : List ℕ) (x : ℕ)
    → InRange size x
    → length l < size
    → spec_push size l x ≡ (pos x, l ++ (x ∷ []))
unfolding spec_push
spec_push_fits size l x h k = ground arith

-- With room in the queue, an index of the table is taken and stands last.
pub push_index_fits :
    (q : IndexQueue) (x : ℕ)
    → IsValid q
    → InRange q.size x
    → q.count < q.size
    → ((push_index q x).0 ≡ pos x) × (contents (push_index q x).1 ≡ contents q ++ (x ∷ []))
push_index_fits q x v h k =
    let e : spec_push q.size (contents q) x ≡ (pos x, contents q ++ (x ∷ [])) =
      spec_push_fits q.size (contents q) x h (rw (length-contents q) k) in
    (ap (λ p. p.0) (push_index_refines q x v ∙ e), ap (λ p. p.1) (push_index_refines q x v ∙ e))

-- What a pop does, for the functions that call it.
pub data Popped (q : IndexQueue) : Type 0 where
  nothing : q.count ≡ 0 → pop_index q ≡ (minus_one, q) → Popped q
  oldest :
      (x : ℕ)
      → InRange q.size x
      → (pop_index q).0 ≡ pos x
      → contents q ≡ x ∷ contents (pop_index q).1
      → Popped q

pub pop_index_empty : (q : IndexQueue) → q.count ≡ 0 → pop_index q ≡ (minus_one, q)
unfolding pop_index
pop_index_empty q e = ground arith

pub pop_index-Popped : (q : IndexQueue) → HasIndices q → Popped q
pop_index-Popped q h = by_contents (contents q) refl h.entries
  where
    by_contents : (l : List ℕ) → contents q ≡ l → All (InRange q.size) l → Popped q
    by_contents [] e r =
        let zero_count : q.count ≡ 0 = omega (arith, ap length e, length-contents q) in
        nothing zero_count (pop_index_empty q zero_count)
    by_contents (x ∷ l) e r =
        let both : ((pop_index q).0 ≡ pos x) × (contents (pop_index q).1 ≡ l) =
          unfold spec_pop in
          (
            ap (λ p. p.0) (pop_index_refines q h ∙ ap spec_pop e),
            ap (λ p. p.1) (pop_index_refines q h ∙ ap spec_pop e),
          ) in
        oldest x r.0 both.0 (e ∙ ap (λ t. x ∷ t) (sym both.1))

-- The same, for a queue whose entries are known.
pub pop_index-head :
    (q : IndexQueue) (x : ℕ) (l : List ℕ)
    → HasIndices q
    → contents q ≡ x ∷ l
    → ((pop_index q).0 ≡ pos x) × (contents (pop_index q).1 ≡ l)
unfolding spec_pop
pop_index-head q x l h e = (
  ap (λ p. p.0) (pop_index_refines q h ∙ ap spec_pop e),
  ap (λ p. p.1) (pop_index_refines q h ∙ ap spec_pop e),
)

pub contents-head :
    (q : IndexQueue) (x : ℕ) (l : List ℕ)
    → IsValid q
    → contents q ≡ x ∷ l
    → get_elem? q.indices q.head ≡ some x
unfolding contents
contents-head q x l v e =
    let some_left : q.count ≢ 0 =
      omega (arith, ap length e, length-window q.indices q.size q.head q.count) in
    get_elem?-eq-get_or q.indices q.head 0 (omega (arith, v.storage, v.head_in))
    ∙ ap some
        (cons_injective (sym (window_of_ne_zero q.indices q.size q.head q.count some_left) ∙ e)).0

-- The `left` numbers from `i` on.
abbrev pub count_up : ℕ → ℕ → List ℕ
count_up i zero = []
count_up i (suc left) = i ∷ count_up (i + 1) left

mark_free_from-contents :
    (left i : ℕ) (q : IndexQueue)
    → IsValid q
    → i + left ≤ q.size
    → q.count + left ≤ q.size
    → contents (mark_free_from left i q) ≡ contents q ++ count_up (i + 1) left
unfolding mark_free_from
mark_free_from-contents zero i q v h k = sym (append-nil (contents q))
mark_free_from-contents (suc left) i q v h k =
    mark_free_from-contents left (i + 1) (push_index q (i + 1)).1 (push_index-IsValid q (i + 1) v)
      (omega (arith, size-push_index q (i + 1)))
      (omega (arith, size-push_index q (i + 1), count-push_index q (i + 1)))
    ∙ ap (λ l. l ++ count_up (i + 1 + 1) left)
        (push_index_fits q (i + 1) v (omega arith) (omega arith)).1
    ∙ append_assoc (contents q) ((i + 1) ∷ []) (count_up (i + 1 + 1) left)

mark_free_from-IsValid :
    (left i : ℕ) (q : IndexQueue) → IsValid q → IsValid (mark_free_from left i q)
unfolding mark_free_from
mark_free_from-IsValid zero i q v = v
mark_free_from-IsValid (suc left) i q v =
    mark_free_from-IsValid left (i + 1) (push_index q (i + 1)).1 (push_index-IsValid q (i + 1) v)

-- A fresh queue of `n` entries, marked all free, is valid and holds the indices 1 to `n` in order,
-- for every `n` from 1 up to 2 ^ 31 - 1.
pub mark_all_free-init_queue :
    (n : ℕ)
    → 0 < n
    → n < 2 ^ 31
    → IsValid (mark_all_free (init_queue n))
      × (contents (mark_all_free (init_queue n)) ≡ count_up 1 n)
unfolding mark_all_free init_queue contents
mark_all_free-init_queue n p h = (
  mark_free_from-IsValid n 0 (init_queue n) (init_queue-IsValid n p h),
  mark_free_from-contents n 0 (init_queue n) (init_queue-IsValid n p h) (omega arith) (omega arith)
      ∙ ap (λ k. count_up k n) (omega arith),
)
