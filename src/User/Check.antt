-- ===== src/User/Check.antt =====
-- The check of formats and the field width of user/src/std/io.c, loop by loop as they stand there.
pub mod Agree
pub mod Width
use tupix.Base.{
  Bool, List, Option, [], drop, false, if◌then◌else◌, length, none, some, suc, true, u32, zero, ℕ,
  ◌*◌, ◌+◌, ◌-◌, ◌==◌, ◌||◌, ◌∷◌,
}
use tupix.Base.Result.{Result, faulted, ok, timeout, ◌>>=◌}
use tupix.Format.{FieldWidth, byte_at, is_digit}

-- The loop that passes digits: the pointer behind them.
unfoldable pub skip_digits : List ℕ → Result (List ℕ)
skip_digits [] = faulted
skip_digits (c ∷ str) = elim (is_digit c) [ true ↦ skip_digits str | false ↦ ok (c ∷ str) ]

-- The cases of the `switch` that leave the inner loop: none for `return false`, or the pointer.
unfoldable pub after_conversion : ℕ → Bool → List ℕ → Option (List ℕ)
after_conversion c repeat str =
    if c == b'c' || c == b'%'
    then (if repeat then none else some str)
    else if c == b'x' || c == b'd' || c == b'i' || c == b'u' || c == b'p' || c == b's'
    then some str
    else none

-- The inner loop, with fuel.
unfoldable pub scan_directive : ℕ → Bool → List ℕ → Result (Option (List ℕ))
scan_directive zero repeat str = timeout
scan_directive (suc fuel) repeat [] = faulted
scan_directive (suc fuel) repeat (c ∷ str) = elim (is_digit c) [
  | true ↦ skip_digits str >>= λ rest. scan_directive fuel true rest
  | false ↦ ok (after_conversion c repeat str)
]

-- The rest of the outer loop after the inner one.
unfoldable pub go_on : (List ℕ → Result Bool) → Option (List ℕ) → Result Bool
go_on check none = ok false
go_on check (some rest) = check rest

-- The outer loop, with fuel.
unfoldable pub check_format_loop : ℕ → List ℕ → Result Bool
check_format_loop zero str = timeout
check_format_loop (suc fuel) [] = faulted
check_format_loop (suc fuel) (c ∷ str) = elim (c == 0) [
  | true ↦ ok true
  | false ↦ elim (c == b'%') [
    | true ↦ scan_directive (suc (length str)) false str >>= go_on (check_format_loop fuel)
    | false ↦ check_format_loop fuel str
  ]
]

-- Each round passes a byte.
unfoldable pub check_format_str : List ℕ → Result Bool
check_format_str str = check_format_loop (suc (length str)) str

-- The walk to the end of the number: how far it goes.
unfoldable pub count_digits : List ℕ → Result ℕ
count_digits [] = faulted
count_digits (c ∷ str) = elim (is_digit c) [
  | true ↦ count_digits str >>= λ n. ok (suc n)
  | false ↦ ok 0
]

-- The walk back from `cur_char` to `beg`, with the distance of the two.
unfoldable pub walk_back : List ℕ → ℕ → ℕ → ℕ → Result ℕ
walk_back beg zero power field_width = ok field_width
walk_back beg (suc i) power field_width = byte_at (drop i beg) >>= λ c.
    walk_back beg i (u32 (power * 10)) (u32 (field_width + u32 (power * (c - b'0'))))

unfoldable pub width_at : List ℕ → ℕ → ℕ → Result FieldWidth
width_at beg padding skipped = do
  n ← count_digits beg
  field_width ← walk_back beg n 1 0
  ok (record { padding = padding; flag_len = skipped + n; field_width = field_width })

unfoldable pub calc_field_width : List ℕ → ℕ → Result FieldWidth
calc_field_width cur_char padding = do
  c ← byte_at cur_char
  if is_digit c
      then (if c == b'0' then width_at (drop 1 cur_char) b'0' 1 else width_at cur_char b' ' 0)
      else ok (record { padding = padding; flag_len = 0; field_width = 0 })
