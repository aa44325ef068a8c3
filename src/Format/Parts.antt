-- ===== src/Format/Parts.antt =====
-- `kprintf` of lib/std/io.c on formats of plain characters, `%08x` and `%s`, as one text.
use tupix.Base.{
  All, Bool, List, [], ap, arith, length, not, refl, subst, sym, true, ℕ, ◌&&◌, ◌++◌, ◌-◌, ◌<◌,
  ◌==◌, ◌^◌, ◌∙◌, ◌∷◌, ◌≡◌,
}
use tupix.Base.Result.{ok}
use tupix.Format.{Argument, is_digit, kprintf, text, word}
use tupix.Format.Convert.{Converts, IsNumStr, in_field}
use tupix.Format.Grammar.{Conversion, IsPiece, Piece, letter, render, takes_flags}
use tupix.Format.Loop.{Prints, kprintf-Prints}
use tupix.Numbers.Digits.{numeral, read_from}
use tupix.Strings.Laws.{IsText}

-- Characters that stand for themselves, a number in eight hexadecimal digits, and a string with what
-- lies behind its NUL.
pub data Part : Type 0 where
  plain : List ℕ → Part
  hex : ℕ → Part
  string : List ℕ → List ℕ → Part

abbrev eight : List ℕ
eight = b'0' ∷ b'8' ∷ []

abbrev pieces_of : List ℕ → List Piece → List Piece
pieces_of [] ps = ps
pieces_of (c ∷ cs) ps = Piece.literal c ∷ pieces_of cs ps

abbrev pieces : List Part → List Piece
pieces [] = []
pieces (plain cs ∷ parts) = pieces_of cs (pieces parts)
pieces (hex n ∷ parts) = Piece.directive eight Conversion.hexadecimal ∷ pieces parts
pieces (string t after ∷ parts) = Piece.directive [] Conversion.string ∷ pieces parts

abbrev pub part_args : List Part → List Argument
part_args [] = []
part_args (plain cs ∷ parts) = part_args parts
part_args (hex n ∷ parts) = word n ∷ part_args parts
part_args (string t after ∷ parts) = text (t ++ 0 ∷ after) ∷ part_args parts

abbrev pub part_format : List Part → List ℕ
part_format [] = []
part_format (plain cs ∷ parts) = cs ++ part_format parts
part_format (hex n ∷ parts) = b'%' ∷ b'0' ∷ b'8' ∷ b'x' ∷ part_format parts
part_format (string t after ∷ parts) = b'%' ∷ b's' ∷ part_format parts

-- The text of the parts.
abbrev pub part_text : List Part → List ℕ
part_text [] = []
part_text (plain cs ∷ parts) = cs ++ part_text parts
part_text (hex n ∷ parts) = in_field eight (numeral 16 n) ++ part_text parts
part_text (string t after ∷ parts) = t ++ part_text parts

-- No character ends the format or begins a directive.
abbrev pub is_plain : List ℕ → Bool
is_plain [] = true
is_plain (c ∷ cs) = not (c == 0) && (not (c == b'%') && is_plain cs)

abbrev pub IsPart : Part → Type 0
IsPart (plain cs) = is_plain cs ≡ true
IsPart (hex n) = n < 2 ^ 32
IsPart (string t after) = IsText t × (length t < 2 ^ 32)

Prints-plain :
    {ps : List Piece} {args : List Argument} {out : List ℕ} (cs : List ℕ)
    → is_plain cs ≡ true
    → Prints ps args out
    → Prints (pieces_of cs ps) args (cs ++ out)
Prints-plain [] h p = p
Prints-plain (c ∷ cs) h p =
    Prints.literal c (ground (arith, h), ground (arith, h)) (Prints-plain cs (ground (arith, h)) p)

eight-IsPiece : IsPiece (Piece.directive eight Conversion.hexadecimal)
unfolding is_digit takes_flags
eight-IsPiece = ((refl, (refl, tt)), λ e. absurd (cc))

in_field_unpadded : (t : List ℕ) → in_field [] t ≡ t
unfolding in_field read_from
in_field_unpadded t = let none_left : 0 - length t ≡ 0 = omega arith in rw none_left refl

Prints-parts :
    (parts : List Part)
    → All IsPart parts
    → Prints (pieces parts) (part_args parts) (part_text parts)
Prints-parts [] h = Prints.nothing
Prints-parts (plain cs ∷ parts) h = Prints-plain cs h.0 (Prints-parts parts h.1)
Prints-parts (hex n ∷ parts) h =
    Prints.directive eight Conversion.hexadecimal eight-IsPiece (omega arith)
      (Converts.hexadecimal n h.0) (Prints-parts parts h.1)
Prints-parts (string t after ∷ parts) h =
    subst
      (λ u.
        Prints (pieces (string t after ∷ parts)) (part_args (string t after ∷ parts))
          (u ++ part_text parts))
      (in_field_unpadded t)
      (Prints.directive [] Conversion.string (tt, λ e. refl) (omega arith)
        (Converts.string t after h.0.0 h.0.1) (Prints-parts parts h.1))

render-plain : (cs : List ℕ) (ps : List Piece) → render (pieces_of cs ps) ≡ cs ++ render ps
unfolding render
render-plain [] ps = refl
render-plain (c ∷ cs) ps = ap (λ t. c ∷ t) (render-plain cs ps)

render-pieces : (parts : List Part) → render (pieces parts) ≡ part_format parts
unfolding render letter
render-pieces [] = refl
render-pieces (plain cs ∷ parts) =
    render-plain cs (pieces parts) ∙ ap (λ t. cs ++ t) (render-pieces parts)
render-pieces (hex n ∷ parts) = ap (λ t. b'%' ∷ b'0' ∷ b'8' ∷ b'x' ∷ t) (render-pieces parts)
render-pieces (string t after ∷ parts) = ap (λ u. b'%' ∷ b's' ∷ u) (render-pieces parts)

-- Formats of such parts print their texts, whatever the buffer holds before.
pub kprintf-parts :
    (parts : List Part) (buffer : List ℕ)
    → All IsPart parts
    → IsNumStr buffer
    → kprintf (part_format parts ++ 0 ∷ []) (part_args parts) buffer ≡ ok (part_text parts)
kprintf-parts parts buffer h size =
    ap (λ f. kprintf (f ++ 0 ∷ []) (part_args parts) buffer) (sym (render-pieces parts))
    ∙ kprintf-Prints [] buffer (Prints-parts parts h) size
