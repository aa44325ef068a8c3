-- ===== src/Types.antt =====
-- data/types.c and include/data/types.h: the ring of 1-based indices that every table of the
-- kernel uses for its free slots, its run queue and its waiting queues.
pub mod Inv
pub mod Ring
pub mod Refine
use tupix.Base.{
  List, get_or, if◌then◌else◌, leb, ltb, replicate, set, sub32, suc, u32, zero, ℕ, ◌+◌, ◌==◌, ◌||◌,
}
use tupix.Base.Int.{ℤ, negsuc, signed32}

-- `struct index_queue`. `indices` is the array that the pointer of that name designates.
pub record IndexQueue : Type 0 where
  pub size : ℕ
  pub count : ℕ
  pub tail : ℕ
  pub head : ℕ
  pub indices : List ℕ

-- The -1 of `push_index` and `pop_index`.
abbrev pub minus_one : ℤ
minus_one = negsuc 0

-- The macro `circle_forward`, as the new value of its variable.
unfoldable pub circle_forward : ℕ → ℕ → ℕ
circle_forward var size = if leb size (u32 (var + 1)) then 0 else u32 (var + 1)

-- The queue and its array of `n` entries, all zero but the size.
unfoldable pub init_queue : ℕ → IndexQueue
init_queue n = record { size = n; count = 0; tail = 0; head = 0; indices = replicate n 0 }

-- No caller passes NULL, so the test of the pointer has no counterpart. The array write is in
-- bounds by `Inv.in_bounds`.
unfoldable pub push_index : IndexQueue → ℕ → ℤ × IndexQueue
push_index q index =
    if index == 0 || ltb q.size index
    then (minus_one, q)
    else if leb q.size q.count
    then (minus_one, q)
    else (
      signed32 index,
      record q {
        indices = set q.indices q.tail index;
        tail = circle_forward q.tail q.size;
        count = u32 (q.count + 1);
      },
    )

unfoldable pub pop_index : IndexQueue → ℤ × IndexQueue
pop_index q = if q.count == 0 then (minus_one, q) else (
  signed32 (get_or q.indices q.head 0),
  record q { head = circle_forward q.head q.size; count = sub32 q.count 1 },
)

-- The loop of `MARK_ALL_FREE` from index `i` on, with `left` rounds to go.
unfoldable pub mark_free_from : ℕ → ℕ → IndexQueue → IndexQueue
mark_free_from zero i q = q
mark_free_from (suc left) i q = mark_free_from left (i + 1) (push_index q (i + 1)).1

-- `MARK_ALL_FREE(Q)`
unfoldable pub mark_all_free : IndexQueue → IndexQueue
mark_all_free q = mark_free_from q.size 0 q
