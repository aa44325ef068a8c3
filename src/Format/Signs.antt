-- ===== src/Format/Signs.antt =====
-- The directives of `kprintf` in lib/std/io.c that print a sign.
use tupix.Base.{
  All, Bool-cases, List, [], ap, arith, false, inl, inr, length, length-append, ltb, refl, sub32,
  subst, suc, true, ℕ, ◌%◌, ◌*◌, ◌++◌, ◌+◌, ◌-◌, ◌/◌, ◌<◌, ◌==◌, ◌^◌, ◌∷◌, ◌≡◌, ◌≤◌,
}
use tupix.Base.Result.{ok}
use tupix.Numbers.RoundTrip.{length-numeral}
use native.Mathlib.Nat.{pow-le-pow_right, pow-suc, le_refl}
use tupix.Numbers.{digit_char, kitostr}
use tupix.Numbers.Signed.{signed_numeral}
use tupix.Numbers.Digits.{IsDigitChar, numeral, read_from, digit_value, numeral-IsDigitChar, digits}
use tupix.Format.Grammar.{IsDigit}
use tupix.Format.Width.{field_of, digit_value_lem, digit_bound}
use tupix.Format.Convert.{
  in_field, IsNumStr, Yields, kitostr-IsWritten, signed_field, print_with_padding_lem, IsWritten,
  numeral-IsText,
}
use tupix.Format.{word, va_word, Argument, print_signed, byte_at, width_behind_sign}

widen : (a v x : ℕ) → v ≤ 9 → (a * 10 + v + 1) * x ≤ (a + 1) * (x * 10)
widen a v x h = grind arith

-- Up to nine digits stand for less than 2 ^ 31.
read_from-bound :
    (ds : List ℕ) (a : ℕ) → All IsDigit ds → read_from a 10 ds < (a + 1) * 10 ^ length ds
unfolding read_from
read_from-bound [] a h = omega arith
read_from-bound (d ∷ ds) a (digit, h) =
    let v : digit_value d ≤ 9 = omega (arith, digit_value_lem d digit, digit_bound d digit) in
    let rest = read_from-bound ds (a * 10 + digit_value d) h in
    omega (
      arith,
      rest,
      widen a (digit_value d) (10 ^ length ds) v,
      ap (λ (t : ℕ). (a + 1) * t) (pow-suc 10 (length ds)),
    )

width_bound : (ds : List ℕ) → All IsDigit ds → length ds ≤ 9 → read_from 0 10 ds < 2 ^ 31
width_bound ds h b = omega (
  arith,
  read_from-bound ds 0 h,
  pow-le-pow_right {n = 10} (omega arith) {i = length ds} {j = 9} b,
)

numeral-ne_nil : (base n : ℕ) → 0 < length (numeral base n)
unfolding numeral digits
numeral-ne_nil base n =
    ground (arith, length-append (digits 31 base (n / base)) (digit_char (n % base) ∷ []))

first_of :
    (s : List ℕ)
    → 0 < length s
    → All IsDigitChar s
    → (c : ℕ) × (t : List ℕ) × (s ≡ c ∷ t) × IsDigitChar c
first_of [] z h = absurd (omega arith)
first_of (c ∷ t) z h = (c, t, refl, h.0)

first_digit : (base n : ℕ) → (c : ℕ) × (s : List ℕ) × (numeral base n ≡ c ∷ s) × IsDigitChar c
first_digit base n = first_of (numeral base n) (numeral-ne_nil base n) (numeral-IsDigitChar base n)

print_positive :
    (ds : List ℕ) (n padding : ℕ) (args : List Argument) (buffer : List ℕ)
    → n < 2 ^ 32
    → ltb n (2 ^ 31) ≡ true
    → read_from 0 10 ds < 2 ^ 31
    → IsNumStr buffer
    → Yields (signed_field ds n) args (print_signed (field_of ds padding) (word n ∷ args) buffer)
unfolding print_signed va_word field_of signed_field in_field
print_positive ds n padding args buffer h plus small size =
    let same : signed_numeral 10 n ≡ numeral 10 n = unfold signed_numeral in rw plus refl in
    let (after, written, kept) =
      subst (λ t. IsWritten t (kitostr n 10 buffer)) same (kitostr-IsWritten n buffer h size) in
    let (c, t, e, digit) = first_digit 10 n in
    let byte : byte_at (numeral 10 n ++ 0 ∷ after) ≡ ok c = unfold byte_at in rw e refl in
    let no_sign : (c == b'-') ≡ false = ground (arith, digit) in
    let short = length-numeral 10 n (omega arith) h in
    let len : sub32 (length (numeral 10 n)) 0 ≡ length (numeral 10 n) = omega (arith, short.0) in
    let width : width_behind_sign (read_from 0 10 ds) 0 ≡ read_from 0 10 ds =
      unfold width_behind_sign in ground (arith, small) in
    (
      numeral 10 n ++ 0 ∷ after,
      rw
          (
            written,
            byte,
            no_sign,
            len,
            width,
            plus,
            print_with_padding_lem ds (numeral 10 n) after (read_from 0 10 ds) padding
                (numeral-IsText 10 n) (le_refl _),
          )
          refl,
      kept,
    )

print_negative :
    (ds : List ℕ) (n padding : ℕ) (args : List Argument) (buffer : List ℕ)
    → n < 2 ^ 32
    → ltb n (2 ^ 31) ≡ false
    → read_from 0 10 ds < 2 ^ 31
    → IsNumStr buffer
    → Yields (signed_field ds n) args (print_signed (field_of ds padding) (word n ∷ args) buffer)
unfolding print_signed va_word byte_at field_of signed_field width_behind_sign
print_negative ds n padding args buffer h minus small size =
    let m : List ℕ = numeral 10 (sub32 0 n) in
    let same : signed_numeral 10 n ≡ b'-' ∷ numeral 10 (sub32 0 n) =
      unfold signed_numeral in rw minus refl in
    let (after, written, kept) =
      subst (λ t. IsWritten t (kitostr n 10 buffer)) same (kitostr-IsWritten n buffer h size) in
    let short = length-numeral 10 (sub32 0 n) (omega arith) (omega arith) in
    let len : sub32 (suc (length (numeral 10 (sub32 0 n)))) 1 ≡ length (numeral 10 (sub32 0 n)) =
      omega (arith, short.0) in
    let width : width_behind_sign (read_from 0 10 ds) 1 ≡ read_from 0 10 ds - 1 =
      ground (arith, small) in
    (
      b'-' ∷ numeral 10 (sub32 0 n) ++ 0 ∷ after,
      rw
          (
            written,
            len,
            width,
            minus,
            print_with_padding_lem ds (numeral 10 (sub32 0 n)) after (read_from 0 10 ds - 1) padding
                (numeral-IsText 10 (sub32 0 n)) (omega arith),
          )
          refl,
      kept,
    )

-- `d` and `i`
pub print_signed-Yields :
    (ds : List ℕ) (n padding : ℕ) (args : List Argument) (buffer : List ℕ)
    → All IsDigit ds
    → length ds ≤ 9
    → n < 2 ^ 32
    → IsNumStr buffer
    → Yields (signed_field ds n) args (print_signed (field_of ds padding) (word n ∷ args) buffer)
print_signed-Yields ds n padding args buffer d b h size = elim (Bool-cases (ltb n (2 ^ 31))) [
  | inl plus ↦ print_positive ds n padding args buffer h plus (width_bound ds d b) size
  | inr minus ↦ print_negative ds n padding args buffer h minus (width_bound ds d b) size
]
