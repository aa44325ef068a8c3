-- ===== src/Format/Convert.antt =====
-- One directive of `kprintf` in lib/std/io.c, against the text that it stands for.
use tupix.Base.{
  All, List, [], ap, arith, drop, if◌then◌else◌, length, length-append, ltb, max, refl, replicate,
  some, split_at, sub32, suc, ℕ, ◌%◌, ◌++◌, ◌-◌, ◌<◌, ◌^◌, ◌∙◌, ◌∷◌, ◌≡◌, ◌≤◌,
}
use native.Mathlib.Nat.{le_refl}
use tupix.Numbers.Signed.{kitostr_lem, length-signed_numeral, signed_numeral}
use tupix.Numbers.RoundTrip.{kutostr_lem, length-numeral}
use tupix.Numbers.Digits.{IsDigitChar, numeral-IsDigitChar, read_from, numeral}
use tupix.Format.Grammar.{Conversion}
use tupix.Format.Width.{pad_of, field_of}
use tupix.Strings.Laws.{IsText}
use tupix.Base.Result.{ok, Result}
use tupix.Format.{
  text, print_with_padding, word, kprint, Argument, print_unsigned, va_word, Converted,
}
use tupix.Numbers.{kutostr, kitostr, Text}

-- What the field of a text is: padded on the left to the width that the digits give.
unfoldable pub in_field : List ℕ → List ℕ → List ℕ
in_field ds t = replicate (read_from 0 10 ds - length t) (pad_of ds b' ') ++ t

-- A negative number has its sign before the padding.
unfoldable pub signed_field : List ℕ → ℕ → List ℕ
signed_field ds n =
    if ltb n (2 ^ 31)
    then in_field ds (numeral 10 n)
    else b'-' ∷ replicate (read_from 0 10 ds - 1 - length (numeral 10 (sub32 0 n))) (pad_of ds b' ')
      ++ numeral 10 (sub32 0 n)

-- The arguments that a directive takes, those that it leaves, and what it prints.
pub data Converts (ds : List ℕ) : Conversion → List Argument → List Argument → List ℕ → Type 0 where
  percent : {args : List Argument} → Converts ds Conversion.percent args args (b'%' ∷ [])
  character :
      {args : List Argument} (n : ℕ)
      → Converts ds Conversion.character (word n ∷ args) args (n % 2 ^ 8 ∷ [])
  string :
      {args : List Argument} (t after : List ℕ)
      → IsText t
      → length t < 2 ^ 32
      → Converts ds Conversion.string (text (t ++ 0 ∷ after) ∷ args) args (in_field ds t)
  hexadecimal :
      {args : List Argument} (n : ℕ)
      → n < 2 ^ 32
      → Converts ds Conversion.hexadecimal (word n ∷ args) args (in_field ds (numeral 16 n))
  decimal :
      {args : List Argument} (n : ℕ)
      → n < 2 ^ 32
      → Converts ds Conversion.decimal (word n ∷ args) args (signed_field ds n)
  integer :
      {args : List Argument} (n : ℕ)
      → n < 2 ^ 32
      → Converts ds Conversion.integer (word n ∷ args) args (signed_field ds n)
  unsigned :
      {args : List Argument} (n : ℕ)
      → n < 2 ^ 32
      → Converts ds Conversion.unsigned (word n ∷ args) args (in_field ds (numeral 10 n))
  pointer :
      {args : List Argument} (n : ℕ)
      → n < 2 ^ 32
      → Converts ds Conversion.pointer
          (word n ∷ args)
          args
          (b'0' ∷ b'x' ∷ in_field ds (numeral 16 n))

pub kprint_lem : (t after : List ℕ) → IsText t → kprint (t ++ 0 ∷ after) ≡ ok t
unfolding kprint
kprint_lem [] after h = refl
kprint_lem (c ∷ t) after h = ground (arith, h.0, kprint_lem t after h.1)

pads :
    (ds : List ℕ) (len width padding : ℕ)
    → width ≤ read_from 0 10 ds
    → replicate (max len width - len) (pad_of ds padding) ≡ replicate (width - len) (pad_of ds b' ')
unfolding pad_of
pads [] len width padding h =
    let none_left : width ≤ 0 = unfold read_from in h in
    let max_gone : max len width - len ≡ 0 = omega arith in
    let gone : width - len ≡ 0 = omega arith in rw (max_gone, gone) refl
pads (d ∷ ds) len width padding h =
    let same : max len width - len ≡ width - len = omega arith in rw same refl

-- A text in a field that is at most as wide as the digits say.
pub print_with_padding_lem :
    (ds t after : List ℕ) (width padding : ℕ)
    → IsText t
    → width ≤ read_from 0 10 ds
    → print_with_padding (t ++ 0 ∷ after) (length t) width (pad_of ds padding)
      ≡ ok (replicate (width - length t) (pad_of ds b' ') ++ t)
unfolding print_with_padding
print_with_padding_lem ds t after width padding h b =
    rw (kprint_lem t after h, pads ds (length t) width padding b) refl

pub numeral-IsText : (base n : ℕ) → IsText (numeral base n)
numeral-IsText base n = weaken (numeral base n) (numeral-IsDigitChar base n)
  where
    weaken : (s : List ℕ) → All IsDigitChar s → IsText s
    weaken [] h = tt
    weaken (c ∷ s) h = (ground (arith, h.0), weaken s h.1)

-- `num_str` has room for every number, and keeps its size.
abbrev pub IsNumStr : List ℕ → Type 0
IsNumStr buffer = length buffer ≡ 21

text-IsNumStr :
    (buffer before t : List ℕ) (x : ℕ)
    → IsNumStr buffer
    → buffer ≡ before ++ x ∷ drop (suc (length t)) buffer
    → length before ≡ length t
    → IsNumStr (t ++ 0 ∷ drop (suc (length t)) buffer)
text-IsNumStr buffer before t x size e l = omega (
  arith,
  ap length e,
  length-append before (x ∷ drop (suc (length t)) buffer),
  length-append t (0 ∷ drop (suc (length t)) buffer),
)

-- What `kutostr` and `kitostr` leave in `num_str`.
abbrev pub IsWritten : List ℕ → Result Text → Type 0
IsWritten t r =
    (after : List ℕ) × (r ≡ ok (record { start = 0; len = some (length t); str = t ++ 0 ∷ after }))
    × IsNumStr (t ++ 0 ∷ after)

kutostr-IsWritten :
    (n base : ℕ) (buffer : List ℕ)
    → n < 2 ^ 32
    → 10 ≤ base
    → base ≤ 36
    → IsNumStr buffer
    → IsWritten (numeral base n) (kutostr n base buffer)
kutostr-IsWritten n base buffer h b c size =
    let short = length-numeral base n (omega arith) h in
    let (before, x, e, l) = split_at (length (numeral base n)) buffer (omega (arith, short.1 b)) in
    (
      drop (suc (length (numeral base n))) buffer,
      ap (kutostr n base) e
          ∙ kutostr_lem n base before x (drop (suc (length (numeral base n))) buffer) h
              (omega arith) c l,
      text-IsNumStr buffer before (numeral base n) x size e l,
    )

pub kitostr-IsWritten :
    (n : ℕ) (buffer : List ℕ)
    → n < 2 ^ 32
    → IsNumStr buffer
    → IsWritten (signed_numeral 10 n) (kitostr n 10 buffer)
kitostr-IsWritten n buffer h size =
    let short = length-signed_numeral 10 n (omega arith) h in
    let (before, x, e, l) =
      split_at (length (signed_numeral 10 n)) buffer (omega (arith, short.1 (omega arith))) in
    (
      drop (suc (length (signed_numeral 10 n))) buffer,
      ap (kitostr n 10) e
          ∙ kitostr_lem n 10 before x (drop (suc (length (signed_numeral 10 n))) buffer) h
              (omega arith) (omega arith) l,
      text-IsNumStr buffer before (signed_numeral 10 n) x size e l,
    )

-- What a directive leaves: its text, the other arguments, and a buffer of the same size.
abbrev pub Yields : List ℕ → List Argument → Result Converted → Type 0
Yields t args r = (buffer : List ℕ) × (r ≡ ok (t, args, buffer)) × IsNumStr buffer

pub print_unsigned-Yields :
    (ds : List ℕ) (n base padding : ℕ) (args : List Argument) (buffer : List ℕ)
    → n < 2 ^ 32
    → 10 ≤ base
    → base ≤ 36
    → IsNumStr buffer
    → Yields
        (in_field ds (numeral base n))
        args
        (print_unsigned base (field_of ds padding) (word n ∷ args) buffer)
unfolding print_unsigned va_word field_of in_field
print_unsigned-Yields ds n base padding args buffer h b c size =
    let (after, written, kept) = kutostr-IsWritten n base buffer h b c size in
    (
      numeral base n ++ 0 ∷ after,
      rw
          (
            written,
            print_with_padding_lem ds (numeral base n) after (read_from 0 10 ds) padding
                (numeral-IsText base n) (le_refl _),
          )
          refl,
      kept,
    )
