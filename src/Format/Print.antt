-- ===== src/Format/Print.antt =====
-- `kprintf` of lib/std/io.c, against the grammar of formats and the texts of the directives.
use tupix.Base.{All, List, arith, length, refl, ℕ, ◌++◌, ◌<◌, ◌^◌, ◌∷◌, ◌≤◌}
use native.Mathlib.Nat.{le_refl}
use tupix.Numbers.Digits.{numeral, read_from}
use tupix.Format.Signs.{print_signed-Yields}
use tupix.Format.Grammar.{Conversion, letter, IsDigit}
use tupix.Format.Width.{field_of}
use tupix.Format.Convert.{
  in_field, print_with_padding_lem, Yields, print_unsigned-Yields, Converts, IsNumStr,
}
use tupix.Strings.Laws.{kstrlen_lem, IsText}
use tupix.Format.{text, convert, print_text, word, va_text, Argument, va_word}

print_text-Yields :
    (ds t after : List ℕ) (padding : ℕ) (args : List Argument) (buffer : List ℕ)
    → IsText t
    → length t < 2 ^ 32
    → IsNumStr buffer
    → Yields
        (in_field ds t)
        args
        (print_text (field_of ds padding) (text (t ++ 0 ∷ after) ∷ args) buffer)
unfolding print_text va_text field_of in_field
print_text-Yields ds t after padding args buffer h b size = (
  buffer,
  rw
      (
        kstrlen_lem t after h b,
        print_with_padding_lem ds t after (read_from 0 10 ds) padding h (le_refl _),
      )
      refl,
  size,
)

print_pointer-Yields :
    (ds : List ℕ) (n padding : ℕ) (args : List Argument) (buffer : List ℕ)
    → n < 2 ^ 32
    → IsNumStr buffer
    → Yields
        (b'0' ∷ b'x' ∷ in_field ds (numeral 16 n))
        args
        (convert b'p' (field_of ds padding) (word n ∷ args) buffer)
unfolding convert
print_pointer-Yields ds n padding args buffer h size =
    let (buffer', printed, kept) =
      print_unsigned-Yields ds n 16 padding args buffer h (omega arith) (omega arith) size in
    (buffer', rw printed refl, kept)

pub convert-Yields :
    {ds : List ℕ} {k : Conversion} {args args' : List Argument} {out : List ℕ} (padding : ℕ)
    (buffer : List ℕ)
    → Converts ds k args args' out
    → All IsDigit ds
    → length ds ≤ 9
    → IsNumStr buffer
    → Yields out args' (convert (letter k) (field_of ds padding) args buffer)
unfolding convert letter va_word
convert-Yields padding buffer Converts.percent d b size = (buffer, refl, size)
convert-Yields padding buffer (Converts.character n) d b size = (buffer, refl, size)
convert-Yields {ds} padding buffer (Converts.string t after h l) d b size =
    print_text-Yields ds t after padding _ buffer h l size
convert-Yields {ds} padding buffer (Converts.hexadecimal n h) d b size =
    print_unsigned-Yields ds n 16 padding _ buffer h (omega arith) (omega arith) size
convert-Yields {ds} padding buffer (Converts.decimal n h) d b size =
    print_signed-Yields ds n padding _ buffer d b h size
convert-Yields {ds} padding buffer (Converts.integer n h) d b size =
    print_signed-Yields ds n padding _ buffer d b h size
convert-Yields {ds} padding buffer (Converts.unsigned n h) d b size =
    print_unsigned-Yields ds n 10 padding _ buffer h (omega arith) (omega arith) size
convert-Yields {ds} padding buffer (Converts.pointer n h) d b size =
    print_pointer-Yields ds n padding _ buffer h size
