-- ===== src/Numbers/Signed.antt =====
-- `kitostr` of lib/std/util.c, against reading the text back.
use tupix.Base.{
  All, Bool-cases, List, [], ap, arith, drop, false, if◌then◌else◌, inl, inr, length, ltb, refl,
  some, split_at, sub32, suc, true, u32, ℕ, ◌++◌, ◌+◌, ◌-◌, ◌<◌, ◌==◌, ◌^◌, ◌∙◌, ◌∷◌, ◌≡◌, ◌≤◌,
}
use tupix.Numbers.RoundTrip.{read_from-numeral, length-numeral, kutostr_lem}
use tupix.Numbers.Digits.{read_from, numeral-IsDigitChar, IsDigitChar, numeral}
use tupix.Base.Int.{negsuc, pos, signed32, ℤ}
use tupix.Base.Result.{ok}
use tupix.Numbers.{raised, kitostr, kutostr}

-- The text of a pattern of `int32`.
unfoldable pub signed_numeral : ℕ → ℕ → List ℕ
signed_numeral base n = if ltb n (2 ^ 31) then numeral base n else b'-' ∷ numeral base (sub32 0 n)

abbrev negative : ℕ → ℤ
negative n = if n == 0 then pos 0 else negsuc (n - 1)

-- What a text with or without a sign stands for.
unfoldable pub read_signed : ℕ → List ℕ → ℤ
read_signed base [] = pos 0
read_signed base (c ∷ s) =
    if c == b'-' then negative (read_from 0 base s) else pos (read_from 0 base (c ∷ s))

read_signed-unsigned :
    (base : ℕ) (s : List ℕ) → All IsDigitChar s → read_signed base s ≡ pos (read_from 0 base s)
unfolding read_signed read_from
read_signed-unsigned base [] h = refl
read_signed-unsigned base (c ∷ s) h = ground (arith, h.0)

read_signed-signed_numeral :
    (base n : ℕ) → 2 ≤ base → n < 2 ^ 32 → read_signed base (signed_numeral base n) ≡ signed32 n
unfolding signed_numeral
read_signed-signed_numeral base n b h = elim (Bool-cases (ltb n (2 ^ 31))) [
  | inl plus ↦
      rw
        (
          plus,
          read_signed-unsigned base (numeral base n) (numeral-IsDigitChar base n),
          read_from-numeral base n b h,
        )
        refl
  | inr minus ↦
      unfold read_signed in
      rw (minus, read_from-numeral base (sub32 0 n) b (omega arith)) (ground (arith, minus))
]

kitostr_negative :
    (n base c x : ℕ) (before after : List ℕ)
    → n < 2 ^ 32
    → ltb n (2 ^ 31) ≡ false
    → 2 ≤ base
    → base ≤ 36
    → length before ≡ length (numeral base (sub32 0 n))
    → kitostr n base (c ∷ before ++ x ∷ after)
      ≡ ok (record {
        start = 0;
        len = some (length (b'-' ∷ numeral base (sub32 0 n)));
        str = b'-' ∷ numeral base (sub32 0 n) ++ 0 ∷ after;
      })
unfolding kitostr raised
kitostr_negative n base c x before after h minus b t l =
    let short = length-numeral base (sub32 0 n) b (omega arith) in
    let len : u32 (length (numeral base (sub32 0 n)) + 1)
        ≡ suc (length (numeral base (sub32 0 n))) =
      omega (arith, short.0) in
    rw (minus, kutostr_lem (sub32 0 n) base before x after (omega arith) b t l, len) refl

kitostr_positive :
    (n base : ℕ) (buffer : List ℕ)
    → ltb n (2 ^ 31) ≡ true
    → kitostr n base buffer ≡ kutostr n base buffer
unfolding kitostr
kitostr_positive n base [] plus = rw plus refl
kitostr_positive n base (c ∷ buffer) plus = rw plus refl

pub kitostr_lem :
    (n base : ℕ) (before : List ℕ) (x : ℕ) (after : List ℕ)
    → n < 2 ^ 32
    → 2 ≤ base
    → base ≤ 36
    → length before ≡ length (signed_numeral base n)
    → kitostr n base (before ++ x ∷ after)
      ≡ ok (record {
        start = 0;
        len = some (length (signed_numeral base n));
        str = signed_numeral base n ++ 0 ∷ after;
      })
kitostr_lem n base before x after h b t l = elim (Bool-cases (ltb n (2 ^ 31))) [
  | inl plus ↦
      let same : signed_numeral base n ≡ numeral base n = unfold signed_numeral in rw plus refl in
      rw (same, kitostr_positive n base (before ++ x ∷ after) plus)
        (kutostr_lem n base before x after h b t (l ∙ ap length same))
  | inr minus ↦
      let same : signed_numeral base n ≡ b'-' ∷ numeral base (sub32 0 n) =
        unfold signed_numeral in rw minus refl in
      rw same (by_parts before (l ∙ ap length same) minus)
]
  where
    by_parts :
        (before : List ℕ)
        → length before ≡ suc (length (numeral base (sub32 0 n)))
        → ltb n (2 ^ 31) ≡ false
        → kitostr n base (before ++ x ∷ after)
          ≡ ok (record {
            start = 0;
            len = some (length (b'-' ∷ numeral base (sub32 0 n)));
            str = b'-' ∷ numeral base (sub32 0 n) ++ 0 ∷ after;
          })
    by_parts [] e minus = absurd (omega arith)
    by_parts (c ∷ before) e minus =
        kitostr_negative n base c x before after h minus b t (omega arith)

pub length-signed_numeral :
    (base n : ℕ)
    → 2 ≤ base
    → n < 2 ^ 32
    → (length (signed_numeral base n) ≤ 33) × (10 ≤ base → length (signed_numeral base n) ≤ 11)
length-signed_numeral base n b h =
    let plus = length-numeral base n b h in
    let minus = length-numeral base (sub32 0 n) b (omega arith) in
    unfold signed_numeral in
    (ground (arith, plus.0, minus.0), λ t. ground (arith, plus.1 t, minus.1 t))

-- For every pattern of an `int32`, a base from 2 to 36 and a buffer of at least 34 bytes, `kitostr`
-- returns the buffer's own address; the buffer then begins with a text, of the length that is
-- written and followed by NUL, that stands for the signed number in that base, -2 ^ 31 included,
-- and is unchanged after the NUL. From base 10 on the text has 11 characters at most.
pub kitostr_round_trip :
    (n base : ℕ) (buffer : List ℕ)
    → n < 2 ^ 32
    → 2 ≤ base
    → base ≤ 36
    → 34 ≤ length buffer
    → (text : List ℕ) × (kitostr n base buffer
        ≡ ok (record {
          start = 0;
          len = some (length text);
          str = text ++ 0 ∷ drop (suc (length text)) buffer;
        }))
      × (read_signed base text ≡ signed32 n)
      × (10 ≤ base → length text ≤ 11)
kitostr_round_trip n base buffer h b c r =
    let (short, shorter) = length-signed_numeral base n b h in
    let (before, x, e, l) =
      split_at (length (signed_numeral base n)) buffer (omega (arith, short)) in
    let written =
      kitostr_lem n base before x (drop (suc (length (signed_numeral base n))) buffer) h b c l in
    (
      signed_numeral base n,
      ap (kitostr n base) e ∙ written,
      read_signed-signed_numeral base n b h,
      shorter,
    )
