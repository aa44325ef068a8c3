-- ===== src/Format.antt =====
-- lib/std/io.c: formatted output. A format is the list of its bytes up to and with the NUL; the
-- bytes that go to the UART are the result.
pub mod Grammar
pub mod Check
pub mod Accept
pub mod Width
pub mod Convert
pub mod Signs
pub mod Print
pub mod Loop
pub mod Parts
pub mod Ends
pub mod Total
use tupix.Base.{
  Bool, List, [], drop, false, if◌then◌else◌, leb, length, ltb, max, replicate, sub32, suc, true,
  u32, zero, ℕ, ◌%◌, ◌&&◌, ◌*◌, ◌++◌, ◌+◌, ◌-◌, ◌==◌, ◌^◌, ◌||◌, ◌∷◌,
}
use tupix.Strings.{kstrlen}
use tupix.Numbers.{kutostr, kitostr}
use mathlib.Core.List.{reverse}
use tupix.Base.Result.{ok, Result, faulted, ◌>>=◌, timeout, from_option}

-- What `...` holds: words, and pointers to characters.
pub data Argument : Type 0 where
  word : ℕ → Argument
  text : List ℕ → Argument

-- A read of the byte under a pointer.
unfoldable pub byte_at : List ℕ → Result ℕ
byte_at [] = faulted
byte_at (c ∷ str) = ok c

unfoldable pub is_digit : ℕ → Bool
is_digit c = leb b'0' c && leb c b'9'

-- `kprint`: the bytes up to the NUL.
unfoldable pub kprint : List ℕ → Result (List ℕ)
kprint [] = faulted
kprint (c ∷ s) = let rest = kprint s >>= λ out. ok (c ∷ out) in if c == 0 then ok [] else rest

-- The characters of padding, then the text.
unfoldable pub print_with_padding : List ℕ → ℕ → ℕ → ℕ → Result (List ℕ)
print_with_padding num_str len field_width padding =
    kprint num_str >>= λ out. ok (replicate (max len field_width - len) padding ++ out)

-- The branches of the `switch` in `check_format_str` for a character that is no digit; `scan` is
-- the check of what follows.
unfoldable pub check_conversion : ℕ → Bool → Result Bool → Result Bool
check_conversion c repeat scan =
    if c == b'c' || c == b'%'
    then (if repeat then ok false else scan)
    else if c == b'x' || c == b'd' || c == b'i' || c == b'u' || c == b'p' || c == b's'
    then scan
    else ok false

-- The outer loop of `check_format_str`, and the inner one behind a `%`. A digit makes `repeat` true
-- and the other digits are passed, so the inner loop is in the same state after each of them.
unfoldable mutual
  pub check_format_str : List ℕ → Result Bool
  check_format_str [] = faulted
  check_format_str (c ∷ str) = elim (c == 0) [
    | true ↦ ok true
    | false ↦ elim (c == b'%') [ true ↦ check_flags false str | false ↦ check_format_str str ]
  ]

  pub check_flags : Bool → List ℕ → Result Bool
  check_flags repeat [] = faulted
  check_flags repeat (c ∷ str) = elim (is_digit c) [
    | true ↦ check_flags true str
    | false ↦ check_conversion c repeat (check_format_str str)
  ]

-- What `calc_field_width` returns through its result and its pointers.
pub record FieldWidth : Type 0 where
  pub padding : ℕ
  pub flag_len : ℕ
  pub field_width : ℕ

-- The digits up to the first other character.
unfoldable pub digits_at : List ℕ → Result (List ℕ)
digits_at [] = faulted
digits_at (c ∷ str) = elim (is_digit c) [
  | true ↦ digits_at str >>= λ ds. ok (c ∷ ds)
  | false ↦ ok []
]

-- The walk back over the digits, in `uint32`.
unfoldable pub weigh : List ℕ → ℕ → ℕ → ℕ
weigh [] power field_width = field_width
weigh (c ∷ ds) power field_width =
    weigh ds (u32 (power * 10)) (u32 (field_width + u32 (power * (c - b'0'))))

unfoldable pub number_at : List ℕ → ℕ → ℕ → Result FieldWidth
number_at str padding skipped = do
  ds ← digits_at str
  ok (record {
    padding = padding;
    flag_len = skipped + length ds;
    field_width = weigh (reverse ds) 1 0;
  })

unfoldable pub calc_field_width : List ℕ → ℕ → Result FieldWidth
calc_field_width str padding = do
  c ← byte_at str
  if is_digit c
      then (if c == b'0' then number_at (drop 1 str) b'0' 1 else number_at str b' ' 0)
      else ok (record { padding = padding; flag_len = 0; field_width = 0 })

-- `va_arg` for a word and for a pointer to characters.
unfoldable pub va_word : List Argument → Result (ℕ × List Argument)
va_word (word w ∷ args) = ok (w, args)
va_word _ = faulted

unfoldable pub va_text : List Argument → Result (List ℕ × List Argument)
va_text (text s ∷ args) = ok (s, args)
va_text _ = faulted

-- What a conversion prints, the arguments that are left, and `num_str`.
abbrev pub Converted : Type 0
Converted = List ℕ × List Argument × List ℕ

-- The cases of `x`, `u` and `p`.
unfoldable pub print_unsigned : ℕ → FieldWidth → List Argument → List ℕ → Result Converted
print_unsigned base w args num_str = do
  (n, args) ← va_word args
  t ← kutostr n base num_str
  len ← from_option t.len
  out ← print_with_padding t.str len w.field_width w.padding
  ok (out, args, t.str)

-- `max((int32)(field_width - offset), 0)`
unfoldable pub width_behind_sign : ℕ → ℕ → ℕ
width_behind_sign field_width offset =
    let left = sub32 field_width offset in if ltb left (2 ^ 31) then left else 0

-- The case of `d` and `i`: the sign goes out first.
unfoldable pub print_signed : FieldWidth → List Argument → List ℕ → Result Converted
print_signed w args num_str = do
  (n, args) ← va_word args
  t ← kitostr n 10 num_str
  len ← from_option t.len
  first ← byte_at t.str
  let offset : ℕ = if first == b'-' then 1 else 0
  out ←
      print_with_padding (drop offset t.str) (sub32 len offset)
        (width_behind_sign w.field_width offset) w.padding
  ok ((if first == b'-' then b'-' ∷ out else out), args, t.str)

unfoldable pub print_text : FieldWidth → List Argument → List ℕ → Result Converted
print_text w args num_str = do
  (s, args) ← va_text args
  len ← kstrlen s
  out ← print_with_padding s len w.field_width w.padding
  ok (out, args, num_str)

-- The `switch` of `kprintf`. A character that is none of these prints nothing.
unfoldable pub convert : ℕ → FieldWidth → List Argument → List ℕ → Result Converted
convert c w args num_str =
    if c == b'c'
    then (do (n, args) ← va_word args; ok (n % 2 ^ 8 ∷ [], args, num_str))
    else if c == b's'
    then print_text w args num_str
    else if c == b'x'
    then print_unsigned 16 w args num_str
    else if c == b'd' || c == b'i'
    then print_signed w args num_str
    else if c == b'u'
    then print_unsigned 10 w args num_str
    else if c == b'p'
    then (do
      (out, args, num_str) ← print_unsigned 16 w args num_str
      ok (b'0' ∷ b'x' ∷ out, args, num_str))
    else if c == b'%'
    then ok (b'%' ∷ [], args, num_str)
    else ok ([], args, num_str)

-- The loop of `kprintf`, with fuel.
unfoldable pub kprintf_loop : ℕ → List ℕ → ℕ → List Argument → List ℕ → Result (List ℕ)
kprintf_loop zero str padding args num_str = timeout
kprintf_loop (suc fuel) [] padding args num_str = faulted
kprintf_loop (suc fuel) (c ∷ str) padding args num_str = elim (c == 0) [
  | true ↦ ok []
  | false ↦ elim (c == b'%') [
    | true ↦ calc_field_width str padding >>= λ w. byte_at (drop w.flag_len str) >>= λ conversion.
        convert conversion w args num_str >>= λ (out, args', num_str').
        kprintf_loop fuel (drop (w.flag_len + 1) str) w.padding args' num_str' >>= λ rest.
        ok (out ++ rest)
    | false ↦ kprintf_loop fuel str padding args num_str >>= λ rest. ok (c ∷ rest)
  ]
]

-- `num_str` is what the buffer on the stack holds before: MAX_NUM_LEN + 1 bytes. Each round passes a
-- byte of the format.
unfoldable pub kprintf : List ℕ → List Argument → List ℕ → Result (List ℕ)
kprintf format args num_str = do
  good ← check_format_str format
  if good then kprintf_loop (suc (length format)) format b' ' args num_str else ok []
