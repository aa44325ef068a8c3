-- ===== src/Numbers/Digits.antt =====
-- The digits of a number, as a specification of the loops of lib/std/util.c.
use tupix.Base.{
  All, All-append, Bool-cases, List, [], arith, if◌then◌else◌, inl, inr, leb, length, length-append,
  refl, suc, zero, ℕ, ◌%◌, ◌*◌, ◌++◌, ◌+◌, ◌-◌, ◌/◌, ◌<◌, ◌==◌, ◌^◌, ◌∷◌, ◌≡◌, ◌≤◌,
}
use native.Mathlib.Nat.{pow-zero, div-lt_iff_lt-mul, div-add-mod'}
use native.Mathlib.Nat.{pow-suc}
use tupix.Numbers.{digit_char}

-- The digits of `n`, the most significant first, when `n < 2 ^ fuel`; none for zero.
unfoldable pub digits : ℕ → ℕ → ℕ → List ℕ
digits zero base n = []
digits (suc fuel) base n =
    let more = digits fuel base (n / base) ++ digit_char (n % base) ∷ [] in
    if n == 0 then [] else more

-- The text of a number: at least one digit.
unfoldable pub numeral : ℕ → ℕ → List ℕ
numeral base n = if n == 0 then b'0' ∷ [] else digits 32 base n

-- The number that a byte stands for: a byte that is neither a digit nor a small letter counts as 0.
unfoldable pub digit_value : ℕ → ℕ
digit_value c = if leb b'a' c then c - b'a' + 10 else if leb c b'9' then c - b'0' else 0

-- What a text stands for, after the number `before` was read.
unfoldable pub read_from : ℕ → ℕ → List ℕ → ℕ
read_from before base [] = before
read_from before base (c ∷ s) = read_from (before * base + digit_value c) base s

pub quotient_bound : (fuel base n : ℕ) → 2 ≤ base → n < 2 ^ suc fuel → n / base < 2 ^ fuel
quotient_bound fuel base n b h =
    (div-lt_iff_lt-mul {k = base} {x = n} {y = 2 ^ fuel} (omega arith)).1
      (grind (arith, pow-suc 2 fuel))

pub read_from-append :
    (before base : ℕ) (s t : List ℕ)
    → read_from before base (s ++ t) ≡ read_from (read_from before base s) base t
unfolding read_from
read_from-append before base [] t = refl
read_from-append before base (c ∷ s) t = read_from-append (before * base + digit_value c) base s t

digit_value-digit_char : (d : ℕ) → digit_value (digit_char d) ≡ d
unfolding digit_value digit_char
digit_value-digit_char d = ground arith

pub read_from-digits :
    (fuel base n : ℕ) → 2 ≤ base → n < 2 ^ fuel → read_from 0 base (digits fuel base n) ≡ n
unfolding digits read_from
read_from-digits zero base n b h = omega arith
read_from-digits (suc fuel) base n b h = ground (
  arith,
  read_from-append 0 base (digits fuel base (n / base)) (digit_char (n % base) ∷ []),
  read_from-digits fuel base (n / base) b (quotient_bound fuel base n b h),
  digit_value-digit_char (n % base),
  div-add-mod' n base,
)

pub length-digits : (k fuel base n : ℕ) → 2 ≤ base → n < base ^ k → length (digits fuel base n) ≤ k
unfolding digits
length-digits k zero base n b h = omega arith
length-digits zero (suc fuel) base n b h =
    let none_left : n ≡ 0 = omega (arith, pow-zero base) in rw none_left (omega arith)
length-digits (suc k) (suc fuel) base n b h = ground (
  arith,
  length-append (digits fuel base (n / base)) (digit_char (n % base) ∷ []),
  length-digits k fuel base (n / base) b (
      (div-lt_iff_lt-mul {k = base} {x = n} {y = base ^ k} (omega arith)).1
        (omega (arith, pow-suc base k))),
)

-- A digit's character is neither NUL nor a sign.
abbrev pub IsDigitChar : ℕ → Type 0
IsDigitChar c = b'0' ≤ c

digit_char-IsDigitChar : (d : ℕ) → IsDigitChar (digit_char d)
unfolding digit_char
digit_char-IsDigitChar d = ground arith

digits-IsDigitChar : (fuel base n : ℕ) → All IsDigitChar (digits fuel base n)
unfolding digits
digits-IsDigitChar zero base n = tt
digits-IsDigitChar (suc fuel) base n = elim (Bool-cases (n == 0)) [
  | inl none_left ↦ rw none_left tt
  | inr more ↦ rw more (
      All-append IsDigitChar (digits fuel base (n / base)) (digit_char (n % base) ∷ [])
        (digits-IsDigitChar fuel base (n / base)) (digit_char-IsDigitChar (n % base), tt))
]

pub numeral-IsDigitChar : (base n : ℕ) → All IsDigitChar (numeral base n)
unfolding numeral
numeral-IsDigitChar base n = elim (Bool-cases (n == 0)) [
  | inl none_left ↦ rw none_left (omega arith)
  | inr more ↦ rw more (digits-IsDigitChar 32 base n)
]
