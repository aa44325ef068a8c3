-- ===== src/Numbers/RoundTrip.antt =====
-- `kutostr` and `kitostr` of lib/std/util.c, against reading the text back.
use tupix.Base.{
  Bool-cases, List, [], ap, arith, drop, false, if◌then◌else◌, inl, inr, length, le→ltb, refl, some,
  split_at, suc, zero, ℕ, ◌++◌, ◌<◌, ◌==◌, ◌^◌, ◌∙◌, ◌∷◌, ◌≡◌, ◌≤◌,
}
use native.Mathlib.Nat.{pow-le-pow_left}
use tupix.Numbers.Writing.{write_digits_lem, write-append, kcalc_digits_loop_lem}
use tupix.Numbers.Digits.{numeral, digits, digit_value, read_from-digits, read_from, length-digits}
use tupix.Base.Result.{ok}
use tupix.Numbers.{write_before, kutostr, kcalc_digits, write_digits, write}

digits_zero : (fuel base : ℕ) → digits fuel base 0 ≡ []
unfolding digits
digits_zero zero base = refl
digits_zero (suc fuel) base = refl

numeral_ne : (base n : ℕ) → (n == 0) ≡ false → numeral base n ≡ digits 32 base n
unfolding numeral
numeral_ne base n more = rw more refl

kcalc_digits_lem :
    (n base : ℕ) → 2 ≤ base → n < 2 ^ 32 → kcalc_digits n base ≡ ok (length (numeral base n))
unfolding kcalc_digits numeral
kcalc_digits_lem n base b h =
    ground
      (arith, kcalc_digits_loop_lem 32 n base (if n == 0 then 1 else 0) b h, digits_zero 32 base)

zero_written :
    (before after : List ℕ)
    → length before ≡ 1
    → write_before (before ++ after) (length before) b'0' ≡ ok (0, b'0' ∷ after)
unfolding write_before write
zero_written [] after l = absurd (omega arith)
zero_written (y ∷ []) after l = ground arith
zero_written (y ∷ z ∷ before) after l = absurd (omega arith)

-- What `kutostr` has written of the text when the NUL behind it stands.
digits_written :
    (n base : ℕ) (before after : List ℕ)
    → 2 ≤ base
    → n < 2 ^ 32
    → length before ≡ length (numeral base n)
    → (if n == 0
        then write_before (before ++ after) (length before) b'0'
        else write_digits 33 n base (length before) (before ++ after))
      ≡ ok (0, numeral base n ++ after)
digits_written n base before after b h l = elim (Bool-cases (n == 0)) [
  | inl none_left ↦
      let single : numeral base n ≡ b'0' ∷ [] = unfold numeral in rw none_left refl in
      rw (none_left, single) (zero_written before after (l ∙ ap length single))
  | inr more ↦
      rw (more, numeral_ne base n more)
        (write_digits_lem 32 n base before after b h (l ∙ ap length (numeral_ne base n more)))
]

pub kutostr_lem :
    (n base : ℕ) (before : List ℕ) (x : ℕ) (after : List ℕ)
    → n < 2 ^ 32
    → 2 ≤ base
    → base ≤ 36
    → length before ≡ length (numeral base n)
    → kutostr n base (before ++ x ∷ after)
      ≡ ok (record {
        start = 0;
        len = some (length (numeral base n));
        str = numeral base n ++ 0 ∷ after;
      })
unfolding kutostr
kutostr_lem n base before x after h b c l =
    rw
      (
        le→ltb base 2 b,
        le→ltb 36 base c,
        kcalc_digits_lem n base b h,
        ← l,
        write-append before x after 0,
        digits_written n base before (0 ∷ after) b h l,
      )
      refl

-- The longest text: 32 digits, and 10 from base 10 on.
pub length-numeral :
    (base n : ℕ)
    → 2 ≤ base
    → n < 2 ^ 32
    → (length (numeral base n) ≤ 32) × (10 ≤ base → length (numeral base n) ≤ 10)
unfolding numeral
length-numeral base n b h =
    let all : n < base ^ 32 = omega (arith, pow-le-pow_left {n = 2} {m = base} b 32) in
    let ten : 10 ≤ base → n < base ^ 10 =
      λ (t : 10 ≤ base). omega (arith, pow-le-pow_left {n = 10} {m = base} t 10) in
    (
      ground (arith, length-digits 32 32 base n b all),
      λ t. ground (arith, length-digits 10 32 base n b (ten t)),
    )

pub read_from-numeral : (base n : ℕ) → 2 ≤ base → n < 2 ^ 32 → read_from 0 base (numeral base n) ≡ n
unfolding numeral read_from digit_value
read_from-numeral base n b h = ground (arith, read_from-digits 32 base n b h)

-- For a number of 32 bits, a base from 2 to 36 and a buffer of at least 33 bytes, `kutostr` returns
-- the buffer's own address; the buffer then begins with a text, of the length that is written and
-- followed by NUL, that stands for the number in that base, and is unchanged after the NUL. The
-- text has 32 characters at most, and 10 at most from base 10 on.
pub kutostr_round_trip :
    (n base : ℕ) (buffer : List ℕ)
    → n < 2 ^ 32
    → 2 ≤ base
    → base ≤ 36
    → 33 ≤ length buffer
    → (text : List ℕ) × (kutostr n base buffer
        ≡ ok (record {
          start = 0;
          len = some (length text);
          str = text ++ 0 ∷ drop (suc (length text)) buffer;
        }))
      × (read_from 0 base text ≡ n)
      × (length text ≤ 32)
      × (10 ≤ base → length text ≤ 10)
kutostr_round_trip n base buffer h b c r =
    let (short, shorter) = length-numeral base n b h in
    let (before, x, e, l) = split_at (length (numeral base n)) buffer (omega (arith, short)) in
    let written =
      kutostr_lem n base before x (drop (suc (length (numeral base n))) buffer) h b c l in
    (numeral base n, ap (kutostr n base) e ∙ written, read_from-numeral base n b h, short, shorter)
