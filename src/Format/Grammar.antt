-- ===== src/Format/Grammar.antt =====
-- The formats that `check_format_str` of lib/std/io.c accepts, as a grammar.
use tupix.Base.{
  All, Bool, List, Option, [], arith, false, if◌then◌else◌, none, refl, some, true, ℕ, ◌++◌, ◌==◌,
  ◌∷◌, ◌≡◌, ◌≢◌,
}
use tupix.Base.Result.{ok, Result}
use tupix.Format.{is_digit, check_conversion}

pub data Conversion : Type 0 where
  character percent string hexadecimal decimal integer unsigned pointer : Conversion

unfoldable pub letter : Conversion → ℕ
letter character = b'c'
letter percent = b'%'
letter string = b's'
letter hexadecimal = b'x'
letter decimal = b'd'
letter integer = b'i'
letter unsigned = b'u'
letter pointer = b'p'

-- Only these take a width.
unfoldable pub takes_flags : Conversion → Bool
takes_flags character = false
takes_flags percent = false
takes_flags _ = true

-- A format is a list of characters that stand for themselves and of directives.
pub data Piece : Type 0 where
  literal : ℕ → Piece
  directive : List ℕ → Conversion → Piece

abbrev pub IsDigit : ℕ → Type 0
IsDigit c = is_digit c ≡ true

abbrev pub IsPiece : Piece → Type 0
IsPiece (literal c) = (c ≢ 0) × (c ≢ b'%')
IsPiece (directive flags k) = All IsDigit flags × (takes_flags k ≡ false → flags ≡ [])

unfoldable pub render : List Piece → List ℕ
render [] = []
render (literal c ∷ ps) = c ∷ render ps
render (directive flags k ∷ ps) = b'%' ∷ flags ++ letter k ∷ render ps

-- The conversion of a letter.
unfoldable pub conversion_of : ℕ → Option Conversion
conversion_of c =
    if c == b'c'
    then some character
    else if c == b'%'
    then some percent
    else if c == b's'
    then some string
    else if c == b'x'
    then some hexadecimal
    else if c == b'd'
    then some decimal
    else if c == b'i'
    then some integer
    else if c == b'u'
    then some unsigned
    else if c == b'p'
    then some pointer
    else none

pub conversion_of-some : (c : ℕ) (k : Conversion) → conversion_of c ≡ some k → c ≡ letter k
unfolding conversion_of letter
conversion_of-some c k e = ground arith

pub conversion_of-letter : (k : Conversion) → conversion_of (letter k) ≡ some k
unfolding conversion_of letter
conversion_of-letter character = refl
conversion_of-letter _ = refl

-- The `switch`, by the conversion.
unfoldable pub check_by : Option Conversion → Bool → Result Bool → Result Bool
check_by none repeat scan = ok false
check_by (some k) repeat scan = if takes_flags k then scan else if repeat then ok false else scan

pub check_conversion-check_by :
    (c : ℕ) (repeat : Bool) (scan : Result Bool)
    → check_conversion c repeat scan ≡ check_by (conversion_of c) repeat scan
unfolding check_conversion check_by conversion_of takes_flags
check_conversion-check_by c repeat scan = ground arith
