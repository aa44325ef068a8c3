-- ===== src/Tests/Printing.antt =====
-- Numbers, strings and formats at concrete inputs.
use tupix.Base.{
  List, [], arith, drop, false, length, refl, replicate, some, suc, true, ℕ, ◌++◌, ◌-◌, ◌^◌, ◌↔◌,
  ◌∷◌, ◌≡◌, ◌≢◌, ◌≤◌,
}
use tupix.Base.Int.{signed32}
use tupix.Base.Result.{ok, timeout}
use tupix.Numbers.{digit_char, kitostr, kutostr}
use tupix.Numbers.Digits.{digit_value, digits, numeral, read_from}
use tupix.Numbers.RoundTrip.{kutostr_round_trip}
use tupix.Numbers.Signed.{kitostr_round_trip, read_signed}
use tupix.Strings.{kstrncpy}
use tupix.Strings.Laws.{kstrncpy_lem, padded}
use tupix.Format.{check_format_str, is_digit, kprintf, text, word}
use tupix.Format.Total.{kprintf-Ends}
use tupix.Format.Grammar.{Conversion, Piece, directive, literal, render, takes_flags}
use tupix.Format.Accept.{Accepted, check_format_str_iff}
use tupix.Format.Convert.{Converts, signed_field}
use tupix.Format.Width.{pad_of}
use tupix.Format.Loop.{Prints, kprintf-Prints}

abbrev pub blank : ℕ → List ℕ
blank n = replicate n 0

kutostr_round_trip_example :
    (text : List ℕ) × (kutostr 0xbeef 16 (blank 33)
      ≡ ok (record {
        start = 0;
        len = some (length text);
        str = text ++ 0 ∷ drop (suc (length text)) (blank 33);
      }))
    × (read_from 0 16 text ≡ 0xbeef)
    × (length text ≤ 32)
    × (10 ≤ 16 → length text ≤ 10)
kutostr_round_trip_example =
    kutostr_round_trip 0xbeef 16 (blank 33) (omega arith) (omega arith) (omega arith) (omega arith)

least_int_written :
    (text : List ℕ) × (kitostr (2 ^ 31) 10 (blank 34)
      ≡ ok (record {
        start = 0;
        len = some (length text);
        str = text ++ 0 ∷ drop (suc (length text)) (blank 34);
      }))
    × (read_signed 10 text ≡ signed32 (2 ^ 31))
    × (10 ≤ 10 → length text ≤ 11)
least_int_written =
    kitostr_round_trip (2 ^ 31) 10 (blank 34) (omega arith) (omega arith) (omega arith)
      (omega arith)

copied :
    kstrncpy (9 ∷ 9 ∷ 9 ∷ 9 ∷ 9 ∷ []) (b'I' ∷ b'R' ∷ 0 ∷ 7 ∷ []) 4
    ≡ ok (padded 4 (b'I' ∷ b'R' ∷ []) ++ 9 ∷ [])
copied = kstrncpy_lem (9 ∷ 9 ∷ 9 ∷ 9 ∷ []) (9 ∷ []) (b'I' ∷ b'R' ∷ []) (7 ∷ []) (omega arith)

-- "a%04d"
abbrev pub a_format : List Piece
a_format = literal b'a' ∷ directive (b'0' ∷ b'4' ∷ []) Conversion.decimal ∷ []

check_format_str_iff_example :
    (check_format_str (b'%' ∷ b'7' ∷ b'x' ∷ 0 ∷ []) ≡ ok true)
    ↔ Accepted (b'%' ∷ b'7' ∷ b'x' ∷ 0 ∷ [])
check_format_str_iff_example = check_format_str_iff (b'%' ∷ b'7' ∷ b'x' ∷ 0 ∷ [])

no_flags : takes_flags Conversion.decimal ≡ false → ⊥
unfolding takes_flags
no_flags e = ground (arith, e)

pub a_format-Prints :
    Prints a_format
      (word (2 ^ 32 - 5) ∷ [])
      (b'a' ∷ signed_field (b'0' ∷ b'4' ∷ []) (2 ^ 32 - 5) ++ [])
unfolding is_digit
a_format-Prints = Prints.literal b'a' (omega arith) (
    Prints.directive (b'0' ∷ b'4' ∷ []) Conversion.decimal
      ((refl, (refl, tt)), λ e. absurd (no_flags e)) (omega arith)
      (Converts.decimal (2 ^ 32 - 5) (omega arith)) Prints.nothing)

kprintf-Prints_example :
    kprintf (render a_format ++ 0 ∷ []) (word (2 ^ 32 - 5) ∷ []) (blank 21)
    ≡ ok (b'a' ∷ signed_field (b'0' ∷ b'4' ∷ []) (2 ^ 32 - 5) ++ [])
kprintf-Prints_example = kprintf-Prints [] (blank 21) a_format-Prints refl

-- The padding stands behind the sign: "a-0005".
printed : signed_field (b'0' ∷ b'4' ∷ []) (2 ^ 32 - 5) ≡ b'-' ∷ b'0' ∷ b'0' ∷ b'5' ∷ []
unfolding signed_field read_from numeral digits digit_value pad_of digit_char
printed = refl

-- A word and a string for `%d%d`, and a buffer of no bytes.
kprintf-Ends_example :
    kprintf (b'%' ∷ b'd' ∷ b'%' ∷ b'd' ∷ 0 ∷ []) (word 7 ∷ text (0 ∷ []) ∷ []) [] ≢ timeout
kprintf-Ends_example =
    kprintf-Ends (b'%' ∷ b'd' ∷ b'%' ∷ b'd' ∷ 0 ∷ []) (word 7 ∷ text (0 ∷ []) ∷ []) []
      (omega arith, (tt, tt))
