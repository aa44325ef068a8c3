-- ===== src/Types/Inv.antt =====
-- The representation invariant of the queues of data/types.c.
use tupix.Base.{arith, length, length-replicate, length-set, ℕ, ◌+◌, ◌<◌, ◌^◌, ◌≡◌, ◌≢◌, ◌≤◌, ◌⊎◌}
use tupix.Types.{IndexQueue, init_queue, push_index, pop_index, circle_forward}

-- The array holds `size` entries, both cursors lie in it, and the tail is `count` steps after the
-- head, going round. A size below 2 ^ 31 keeps every index a non-negative `ssize_t`.
pub record IsValid (q : IndexQueue) : Type 0 where
  pub small : q.size < 2 ^ 31
  pub storage : length q.indices ≡ q.size
  pub head_in : q.head < q.size
  pub tail_in : q.tail < q.size
  pub count_in : q.count ≤ q.size
  pub cycle : (q.tail + q.size ≡ q.head + q.count) ⊎ (q.tail ≡ q.head + q.count)

pub init_queue-IsValid : (n : ℕ) → 0 < n → n < 2 ^ 31 → IsValid (init_queue n)
unfolding init_queue
init_queue-IsValid n p h = ground (arith, length-replicate {A = ℕ} n 0)

pub push_index-IsValid : (q : IndexQueue) (index : ℕ) → IsValid q → IsValid (push_index q index).1
unfolding push_index circle_forward
push_index-IsValid q index v = ground (arith, length-set q.indices q.tail index)

pub pop_index-IsValid : (q : IndexQueue) → IsValid q → IsValid (pop_index q).1
unfolding pop_index circle_forward
pop_index-IsValid q v = ground arith

pub size-push_index : (q : IndexQueue) (index : ℕ) → (push_index q index).1.size ≡ q.size
unfolding push_index
size-push_index q index = ground arith

pub size-pop_index : (q : IndexQueue) → (pop_index q).1.size ≡ q.size
unfolding pop_index
size-pop_index q = ground arith

pub count-push_index :
    (q : IndexQueue) (index : ℕ) → q.size < 2 ^ 31 → (push_index q index).1.count ≤ q.count + 1
unfolding push_index
count-push_index q index h = ground arith

pub head-pop_index :
    (q : IndexQueue) → q.count ≢ 0 → (pop_index q).1.head ≡ circle_forward q.head q.size
unfolding pop_index
head-pop_index q ne = ground arith
