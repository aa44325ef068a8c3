-- ===== src/Format/Width.antt =====
-- `calc_field_width` of lib/std/io.c, against reading its digits.
use tupix.Base.{
  ==_iff, All, All-append, Bool-cases, List, [], ap, arith, false, if◌then◌else◌, inl, inr, length,
  length-append, refl, suc, true, u32, ℕ, ◌*◌, ◌++◌, ◌+◌, ◌-◌, ◌<◌, ◌==◌, ◌^◌, ◌∙◌, ◌∷◌, ◌≡◌, ◌≤◌,
}
use mathlib.Core.List.{reverse}
use native.Mathlib.Nat.{pow-le-pow_right}
use mathlib.Core.List.{reverse-cons, reverse-reverse}
use native.Mathlib.Nat.{pow-suc, one-le-pow}
use tupix.Numbers.Digits.{read_from, digit_value, read_from-append}
use tupix.Base.Result.{ok}
use tupix.Format.Grammar.{IsDigit}
use tupix.Format.{is_digit, weigh, byte_at, FieldWidth, calc_field_width, digits_at, number_at}

-- What digits stand for, the least significant first.
little : List ℕ → ℕ
little [] = 0
little (c ∷ ds) = c - b'0' + 10 * little ds

pub digit_bound : (c : ℕ) → IsDigit c → c - b'0' ≤ 9
unfolding is_digit
digit_bound c h = ground (arith, h)

-- One digit, at the power `power`.
weigh_digit :
    (c power a v m : ℕ)
    → IsDigit c
    → a < power
    → power * 10 * m ≤ 10 ^ 9
    → 0 < m
    → (a + power * (c - b'0') < power * 10)
      × (power * 10 ≤ 10 ^ 9)
      × (power * (c - b'0') < 2 ^ 32)
      × (a + power * (c - b'0') + power * 10 * v ≡ a + power * (c - b'0' + 10 * v))
weigh_digit c power a v m d b p z = let nine = digit_bound c d in grind (arith, nine)

shift : (power x : ℕ) → power * 10 * x ≡ power * (x * 10)
shift power x = grind arith

weigh_lem :
    (ds : List ℕ) (power a : ℕ)
    → All IsDigit ds
    → a < power
    → power * 10 ^ length ds ≤ 10 ^ 9
    → weigh ds power a ≡ a + power * little ds
unfolding weigh little
weigh_lem [] power a h b p = omega arith
weigh_lem (c ∷ ds) power a (d, h) b p =
    let power' : power * 10 * 10 ^ length ds ≤ 10 ^ 9 =
      omega
        (arith, shift power (10 ^ length ds), ap (λ (t : ℕ). power * t) (pow-suc 10 (length ds))) in
    let (bound, below, small, sum) =
      weigh_digit c power a (little ds) (10 ^ length ds) d b power'
        (one-le-pow (length ds) 10 (omega arith)) in
    let next_power : u32 (power * 10) ≡ power * 10 = omega (arith, below) in
    let product : u32 (power * (c - b'0')) ≡ power * (c - b'0') = omega (arith, small) in
    let total : u32 (a + power * (c - b'0')) ≡ a + power * (c - b'0') =
      omega (arith, bound, below) in
    rw (next_power, product, total)
      (weigh_lem ds (power * 10) (a + power * (c - b'0')) h bound power' ∙ sum)

pub digit_value_lem : (c : ℕ) → IsDigit c → digit_value c ≡ c - b'0'
unfolding is_digit digit_value
digit_value_lem c h = ground (arith, h)

read_from-reverse : (ds : List ℕ) → All IsDigit ds → read_from 0 10 (reverse ds) ≡ little ds
unfolding read_from little
read_from-reverse [] h = refl
read_from-reverse (c ∷ ds) (d, h) =
    rw (reverse-cons c ds, read_from-append 0 10 (reverse ds) (c ∷ []), digit_value_lem c d)
      (omega (arith, read_from-reverse ds h))

All-reverse : (ds : List ℕ) → All IsDigit ds → All IsDigit (reverse ds)
All-reverse [] h = tt
All-reverse (c ∷ ds) (d, h) =
    rw (reverse-cons c ds) (All-append IsDigit (reverse ds) (c ∷ []) (All-reverse ds h) (d, tt))

pub length-reverse : (ds : List ℕ) → length (reverse ds) ≡ length ds
length-reverse [] = refl
length-reverse (c ∷ ds) =
    rw (reverse-cons c ds) (omega (arith, length-append (reverse ds) (c ∷ []), length-reverse ds))

-- Up to nine digits do not wrap.
weigh-reverse :
    (ds : List ℕ) → All IsDigit ds → length ds ≤ 9 → weigh (reverse ds) 1 0 ≡ read_from 0 10 ds
weigh-reverse ds h b =
    let small : 10 ^ length (reverse ds) ≤ 10 ^ 9 =
      pow-le-pow_right {n = 10} (omega arith) {i = length (reverse ds)} {j = 9}
        (omega (arith, length-reverse ds)) in
    let read = read_from-reverse (reverse ds) (All-reverse ds h) in
    omega (
      arith,
      weigh_lem (reverse ds) 1 0 (All-reverse ds h) (omega arith) (omega (arith, small)),
      read,
      ap (read_from 0 10) (reverse-reverse ds),
    )

digits_at_lem :
    (ds : List ℕ) (c : ℕ) (rest : List ℕ)
    → All IsDigit ds
    → is_digit c ≡ false
    → digits_at (ds ++ c ∷ rest) ≡ ok ds
unfolding digits_at
digits_at_lem [] c rest h e = ground (arith, e)
digits_at_lem (d ∷ ds) c rest (digit, h) e = ground (arith, digit, digits_at_lem ds c rest h e)

-- The padding, and the width, of the digits behind a `%`.
unfoldable pub pad_of : List ℕ → ℕ → ℕ
pad_of [] padding = padding
pad_of (d ∷ ds) padding = if d == b'0' then b'0' else b' '

unfoldable pub field_of : List ℕ → ℕ → FieldWidth
field_of ds padding = record {
  padding = pad_of ds padding;
  flag_len = length ds;
  field_width = read_from 0 10 ds;
}

number_at_lem :
    (ds : List ℕ) (c : ℕ) (rest : List ℕ) (padding skipped : ℕ)
    → All IsDigit ds
    → length ds ≤ 9
    → is_digit c ≡ false
    → number_at (ds ++ c ∷ rest) padding skipped
      ≡ ok (record {
        padding = padding;
        flag_len = skipped + length ds;
        field_width = read_from 0 10 ds;
      })
unfolding number_at
number_at_lem ds c rest padding skipped h b e =
    rw (digits_at_lem ds c rest h e, weigh-reverse ds h b) refl

leading_zero :
    (d : ℕ) (ds : List ℕ) → (d == b'0') ≡ true → read_from 0 10 (d ∷ ds) ≡ read_from 0 10 ds
unfolding read_from digit_value
leading_zero d ds e = let zero_digit : d ≡ b'0' = (==_iff d b'0').0 e in rw zero_digit refl

-- Of at most nine digits, a leading zero sets the padding, and all of them the width.
pub calc_field_width_lem :
    (ds : List ℕ) (c : ℕ) (rest : List ℕ) (padding : ℕ)
    → All IsDigit ds
    → length ds ≤ 9
    → is_digit c ≡ false
    → calc_field_width (ds ++ c ∷ rest) padding ≡ ok (field_of ds padding)
unfolding calc_field_width byte_at field_of pad_of
calc_field_width_lem [] c rest padding h b e = unfold read_from in rw e refl
calc_field_width_lem (d ∷ ds) c rest padding h b e = elim (Bool-cases (d == b'0')) [
  | inl zero_first ↦
      let length_sum : 1 + length ds ≡ suc (length ds) = omega arith in
      rw
        (
          h.0,
          zero_first,
          number_at_lem ds c rest b'0' 1 h.1 (omega arith) e,
          leading_zero d ds zero_first,
          length_sum,
        )
        refl
  | inr other ↦
      let length_sum : 0 + length (d ∷ ds) ≡ suc (length ds) = omega arith in
      rw (h.0, other) (number_at_lem (d ∷ ds) c rest b' ' 0 h b e ∙ rw length_sum refl)
]
