-- ===== src/Format/Check.antt =====
-- `check_format_str` of lib/std/io.c, against the grammar of formats.
use tupix.Base.{
  All, Bool, List, [], ap, append_assoc, arith, false, if◌then◌else◌, refl, true, ℕ, ◌++◌, ◌==◌,
  ◌∙◌, ◌∷◌, ◌≡◌,
}
use tupix.Format.Grammar.{
  IsDigit, takes_flags, conversion_of-letter, letter, directive, literal, Piece,
  check_conversion-check_by, character, Conversion, render, IsPiece, check_by,
}
use tupix.Base.Result.{ok}
use tupix.Format.{check_flags, check_format_str, is_digit, check_conversion}

pub letter-ne_digit : (k : Conversion) → is_digit (letter k) ≡ false
unfolding is_digit letter
letter-ne_digit character = refl
letter-ne_digit _ = refl

pub flags_step :
    (repeat : Bool) (c : ℕ) (str : List ℕ)
    → check_flags repeat (c ∷ str) ≡ (
        if is_digit c
        then check_flags true str
        else check_conversion c repeat (check_format_str str))
unfolding check_flags
flags_step repeat c str = ground arith

pub scan_step :
    (c : ℕ) (str : List ℕ)
    → check_format_str (c ∷ str) ≡ (
        if c == 0
        then ok true
        else if c == b'%'
        then check_flags false str
        else check_format_str str)
unfolding check_format_str
scan_step c str = ground arith

check_letter :
    (k : Conversion) (repeat : Bool) (str : List ℕ)
    → (takes_flags k ≡ false → repeat ≡ false)
    → check_flags repeat (letter k ∷ str) ≡ check_format_str str
unfolding check_by
check_letter k repeat str h =
    rw
      (
        flags_step repeat (letter k) str,
        letter-ne_digit k,
        check_conversion-check_by (letter k) repeat (check_format_str str),
        conversion_of-letter k,
      )
      (ground (arith, h))

-- Digits make `repeat` true.
after_digits : Bool → List ℕ → Bool
after_digits repeat [] = repeat
after_digits repeat (d ∷ ds) = true

check_digits :
    (repeat : Bool) (ds str : List ℕ)
    → All IsDigit ds
    → check_flags repeat (ds ++ str) ≡ check_flags (after_digits repeat ds) str
unfolding after_digits
check_digits repeat [] str h = refl
check_digits repeat (d ∷ []) str h = rw (flags_step repeat d str, h.0) refl
check_digits repeat (d ∷ e ∷ ds) str h =
    rw (flags_step repeat d (e ∷ ds ++ str), h.0) (check_digits true (e ∷ ds) str h.1)

allowed_after :
    (k : Conversion) (ds : List ℕ)
    → (takes_flags k ≡ false → ds ≡ [])
    → takes_flags k ≡ false
    → after_digits false ds ≡ false
unfolding after_digits
allowed_after k ds h e = ap (after_digits false) (h e)

check_directive :
    (flags : List ℕ) (k : Conversion) (str : List ℕ)
    → IsPiece (directive flags k)
    → check_format_str (b'%' ∷ flags ++ letter k ∷ str) ≡ check_format_str str
check_directive flags k str h =
    rw (scan_step b'%' (flags ++ letter k ∷ str), check_digits false flags (letter k ∷ str) h.0)
      (check_letter k (after_digits false flags) str (allowed_after k flags h.1))

check_literal :
    (c : ℕ) (str : List ℕ) → IsPiece (literal c) → check_format_str (c ∷ str) ≡ check_format_str str
check_literal c str h = ground (arith, scan_step c str, h.0, h.1)

-- `check_format_str` accepts every format of the grammar.
pub check_format_str-render :
    (ps : List Piece) (after : List ℕ)
    → All IsPiece ps
    → check_format_str (render ps ++ 0 ∷ after) ≡ ok true
unfolding render
check_format_str-render [] after h = scan_step 0 after
check_format_str-render (literal c ∷ ps) after h =
    check_literal c (render ps ++ 0 ∷ after) h.0 ∙ check_format_str-render ps after h.1
check_format_str-render (directive flags k ∷ ps) after h =
    rw (append_assoc flags (letter k ∷ render ps) (0 ∷ after))
      (check_directive flags k (render ps ++ 0 ∷ after) h.0 ∙ check_format_str-render ps after h.1)
