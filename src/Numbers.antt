-- ===== src/Numbers.antt =====
-- lib/std/util.c: numbers as text. A buffer is the list of the bytes that its pointer designates, and
-- a pointer into it is an offset.
pub mod Digits
pub mod Writing
pub mod RoundTrip
pub mod Signed
use tupix.Base.{
  List, Option, [], if◌then◌else◌, leb, length, ltb, none, set, some, sub32, suc, u32, zero, ℕ, ◌%◌,
  ◌+◌, ◌-◌, ◌/◌, ◌==◌, ◌^◌, ◌||◌, ◌∷◌,
}
use tupix.Base.Result.{timeout, ok, Result, ◌>>=◌, faulted}

-- The loop of `kcalc_digits`, with fuel.
unfoldable pub kcalc_digits_loop : ℕ → ℕ → ℕ → ℕ → Result ℕ
kcalc_digits_loop zero n base num = timeout
kcalc_digits_loop (suc fuel) n base num =
    let rest = kcalc_digits_loop fuel (n / base) base (u32 (num + 1)) in
    if n == 0 then ok num else rest

-- For bases from 2 on, which `kutostr` sees to; each round halves `n` at least.
unfoldable pub kcalc_digits : ℕ → ℕ → Result ℕ
kcalc_digits n base = kcalc_digits_loop 33 n base (if n == 0 then 1 else 0)

-- `*str = c` at an offset.
unfoldable pub write : List ℕ → ℕ → ℕ → Result (List ℕ)
write str i c = if ltb i (length str) then ok (set str i c) else faulted

-- `*(--str) = c`: the new offset and the new bytes.
unfoldable pub write_before : List ℕ → ℕ → ℕ → Result (ℕ × List ℕ)
write_before str zero c = faulted
write_before str (suc i) c = write str i c >>= λ written. ok (i, written)

-- The character of a digit.
unfoldable pub digit_char : ℕ → ℕ
digit_char cur_digit = if leb 0xa cur_digit then cur_digit - 0xa + b'a' else cur_digit + b'0'

-- The loop of `kutostr` that writes the digits, with fuel.
unfoldable pub write_digits : ℕ → ℕ → ℕ → ℕ → List ℕ → Result (ℕ × List ℕ)
write_digits zero n base i str = timeout
write_digits (suc fuel) n base i str =
    let rest = write_before str i (digit_char (n % base)) >>= λ (i', str').
    write_digits fuel (n / base) base i' str' in
    if n == 0 then ok (i, str) else rest

-- What the functions return: the offset of the first character, `*len`, and the bytes. No length
-- is written for a base that is refused.
pub record Text : Type 0 where
  pub start : ℕ
  pub len : Option ℕ
  pub str : List ℕ

unfoldable pub kutostr : ℕ → ℕ → List ℕ → Result Text
kutostr n base str =
    if ltb base 2 || ltb 36 base then ok (record { start = 0; len = none; str = str }) else (do
      len ← kcalc_digits n base
      str ← write str len 0
      (start, str) ← if n == 0 then write_before str len b'0' else write_digits 33 n base len str
      ok (record { start = start; len = some len; str = str }))

-- `*len += 1`
unfoldable pub raised : Option ℕ → Option ℕ
raised none = none
raised (some len) = some (u32 (len + 1))

-- The pattern of an `int32` is given; for a negative one the digits go behind the sign.
unfoldable pub kitostr : ℕ → ℕ → List ℕ → Result Text
kitostr n base [] = if ltb n (2 ^ 31) then kutostr n base [] else faulted
kitostr n base (c ∷ str) = if ltb n (2 ^ 31) then kutostr n base (c ∷ str) else (do
  t ← kutostr (sub32 0 n) base str
  ok (record { start = t.start; len = raised t.len; str = b'-' ∷ t.str }))
