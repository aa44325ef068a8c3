-- ===== src/Format/Loop.antt =====
-- `kprintf` of lib/std/io.c, over whole formats.
use tupix.Base.{
  All, List, [], ap, append_assoc, arith, drop, drop-append, length, length-append, refl, suc, sym,
  zero, ℕ, ◌++◌, ◌+◌, ◌<◌, ◌∙◌, ◌∷◌, ◌≡◌, ◌≤◌,
}
use tupix.Format.Print.{convert-Yields}
use tupix.Format.Grammar.{letter, IsPiece, Conversion, Piece, render}
use tupix.Format.Width.{field_of, calc_field_width_lem, pad_of}
use tupix.Format.Check.{letter-ne_digit, check_format_str-render}
use tupix.Format.Convert.{Converts, IsNumStr}
use tupix.Base.Result.{ok, ◌>>=◌, Result}
use tupix.Format.{kprintf_loop, Argument, byte_at, convert, kprintf}

-- What a format prints for arguments that fit it, with at most nine digits in a directive.
pub data Prints : List Piece → List Argument → List ℕ → Type 0 where
  nothing : {args : List Argument} → Prints [] args []
  literal :
      {ps : List Piece} {args : List Argument} {out : List ℕ} (c : ℕ)
      → IsPiece (Piece.literal c)
      → Prints ps args out
      → Prints (Piece.literal c ∷ ps) args (c ∷ out)
  directive :
      {ps : List Piece} {args args' : List Argument} {out rest : List ℕ} (ds : List ℕ)
      (k : Conversion)
      → IsPiece (Piece.directive ds k)
      → length ds ≤ 9
      → Converts ds k args args' out
      → Prints ps args' rest
      → Prints (Piece.directive ds k ∷ ps) args (out ++ rest)

pub Prints-IsPiece :
    {ps : List Piece} {args : List Argument} {out : List ℕ} → Prints ps args out → All IsPiece ps
Prints-IsPiece nothing = tt
Prints-IsPiece (literal c h p) = (h, Prints-IsPiece p)
Prints-IsPiece (directive ds k h b v p) = (h, Prints-IsPiece p)

literal_round :
    (fuel c padding : ℕ) (str buffer out : List ℕ) (args : List Argument)
    → IsPiece (Piece.literal c)
    → kprintf_loop fuel str padding args buffer ≡ ok out
    → kprintf_loop (suc fuel) (c ∷ str) padding args buffer ≡ ok (c ∷ out)
unfolding kprintf_loop
literal_round fuel c padding str buffer out args h rest = ground (arith, h, rest)

directive_round :
    (fuel padding : ℕ) (ds str buffer : List ℕ) (k : Conversion) (args : List Argument)
    → IsPiece (Piece.directive ds k)
    → length ds ≤ 9
    → kprintf_loop (suc fuel) (b'%' ∷ ds ++ letter k ∷ str) padding args buffer ≡ (
        convert (letter k) (field_of ds padding) args buffer >>= λ r.
        kprintf_loop fuel str (pad_of ds padding) r.1 r.2 >>= λ rest. ok (r.0 ++ rest))
unfolding kprintf_loop byte_at
directive_round fuel padding ds str buffer k args h b =
    let next : length ds + 1 ≡ length (ds ++ letter k ∷ []) =
      omega (arith, length-append ds (letter k ∷ [])) in
    let after : drop (length ds + 1) (ds ++ letter k ∷ str) ≡ str =
      ap (λ n. drop n (ds ++ letter k ∷ str)) next
      ∙ ap (drop (length (ds ++ letter k ∷ []))) (sym (append_assoc ds (letter k ∷ []) str))
      ∙ drop-append (ds ++ letter k ∷ []) str in
    rw (calc_field_width_lem ds (letter k) str padding h.0 b (letter-ne_digit k))
      (unfold field_of in rw (drop-append ds (letter k ∷ str), after) refl)

after_bind :
    (r : Result (List ℕ)) (out rest : List ℕ)
    → r ≡ ok rest
    → (r >>= λ more. ok (out ++ more)) ≡ ok (out ++ rest)
after_bind r out rest e = rw e refl

kprintf_loop_lem :
    {ps : List Piece} {args : List Argument} {out : List ℕ} (fuel padding : ℕ)
    (after buffer : List ℕ)
    → Prints ps args out
    → length (render ps) < fuel
    → IsNumStr buffer
    → kprintf_loop fuel (render ps ++ 0 ∷ after) padding args buffer ≡ ok out
unfolding render
kprintf_loop_lem zero padding after buffer p b size = absurd (omega arith)
kprintf_loop_lem (suc fuel) padding after buffer nothing b size = unfold kprintf_loop in refl
kprintf_loop_lem (suc fuel) padding after buffer (literal {ps} {args} {out} c h p) b size =
    literal_round fuel c padding (render ps ++ 0 ∷ after) buffer out args h
      (kprintf_loop_lem fuel padding after buffer p (omega arith) size)
kprintf_loop_lem (suc fuel) padding after buffer
      (directive {ps} {args} {args'} {out} {rest} ds k h d v p) b size =
    let (buffer', converted, kept) = convert-Yields padding buffer v h.0 d size in
    let shorter : length (render ps) < fuel =
      omega (arith, length-append ds (letter k ∷ render ps)) in
    ap (λ s. kprintf_loop (suc fuel) (b'%' ∷ s) padding args buffer)
      (append_assoc ds (letter k ∷ render ps) (0 ∷ after))
    ∙ directive_round fuel padding ds (render ps ++ 0 ∷ after) buffer k args h d
    ∙ ap
        (λ r. r >>= λ r.
          kprintf_loop fuel (render ps ++ 0 ∷ after) (pad_of ds padding) r.1 r.2 >>= λ rest.
          ok (r.0 ++ rest))
        converted
    ∙ after_bind (kprintf_loop fuel (render ps ++ 0 ∷ after) (pad_of ds padding) args' buffer') out
        rest (kprintf_loop_lem fuel (pad_of ds padding) after buffer' p shorter kept)

-- For every format of the grammar and arguments that fit it, with at most nine digits in a
-- directive, `kprintf` returns, whatever its buffer holds before, and prints the pieces in order:
-- characters as they are, and each directive as the text of its argument, in hexadecimal, decimal
-- or signed decimal, filled up on the left to the width of its digits, by `0` when they begin with
-- it and by spaces otherwise, and behind the sign of a negative number.
pub kprintf-Prints :
    {ps : List Piece} {args : List Argument} {out : List ℕ} (after buffer : List ℕ)
    → Prints ps args out
    → IsNumStr buffer
    → kprintf (render ps ++ 0 ∷ after) args buffer ≡ ok out
unfolding kprintf
kprintf-Prints {ps} {args} after buffer p size =
    let enough : length (render ps) < suc (length (render ps ++ 0 ∷ after)) =
      omega (arith, length-append (render ps) (0 ∷ after)) in
    rw (check_format_str-render ps after (Prints-IsPiece p))
      (kprintf_loop_lem (suc (length (render ps ++ 0 ∷ after))) b' ' after buffer p enough size)
