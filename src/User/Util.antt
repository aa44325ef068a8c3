-- ===== src/User/Util.antt =====
-- user/src/std/util.c, user/src/std/strings.c and user/src/std/mem.c: the user library's own copies
-- of the functions of lib/std.
pub mod Agree
use tupix.Base.{
  Bool, List, Option, [], if◌then◌else◌, leb, ltb, none, some, sub32, suc, u32, zero, ℕ, ◌%◌, ◌+◌,
  ◌-◌, ◌/◌, ◌==◌, ◌^◌, ◌||◌, ◌∷◌, false, true,
}
use tupix.Base.Result.{Result, faulted, ok, timeout, ◌>>=◌}
use tupix.Numbers.{Text, raised, write, write_before}

-- The loop of `calc_digits`, with fuel.
unfoldable pub calc_digits_loop : ℕ → ℕ → ℕ → ℕ → Result ℕ
calc_digits_loop zero n base num = timeout
calc_digits_loop (suc fuel) n base num =
    let rest = calc_digits_loop fuel (n / base) base (u32 (num + 1)) in
    if n == 0 then ok num else rest

unfoldable pub calc_digits : ℕ → ℕ → Result ℕ
calc_digits n base = calc_digits_loop 33 n base (if n == 0 then 1 else 0)

-- `cur_digit + ascii_offset`, both of which the test sets.
unfoldable pub ascii_of : ℕ → ℕ
ascii_of cur_digit =
    (if leb 0xa cur_digit then cur_digit - 0xa else cur_digit)
    + (if leb 0xa cur_digit then b'a' else b'0')

-- The loop of `utostr` that writes the digits, with fuel.
unfoldable pub put_digits : ℕ → ℕ → ℕ → ℕ → List ℕ → Result (ℕ × List ℕ)
put_digits zero n base i str = timeout
put_digits (suc fuel) n base i str =
    let rest = write_before str i (ascii_of (n % base)) >>= λ (i', str').
    put_digits fuel (n / base) base i' str' in
    if n == 0 then ok (i, str) else rest

unfoldable pub utostr : ℕ → ℕ → List ℕ → Result Text
utostr n base str =
    if ltb base 2 || ltb 36 base then ok (record { start = 0; len = none; str = str }) else (do
      len ← calc_digits n base
      str ← write str len 0
      (start, str) ← if n == 0 then write_before str len b'0' else put_digits 33 n base len str
      ok (record { start = start; len = some len; str = str }))

-- The pattern of an `int32` is given.
unfoldable pub itostr : ℕ → ℕ → List ℕ → Result Text
itostr n base [] = if ltb n (2 ^ 31) then utostr n base [] else faulted
itostr n base (c ∷ str) = if ltb n (2 ^ 31) then utostr n base (c ∷ str) else (do
  t ← utostr (sub32 0 n) base str
  ok (record { start = t.start; len = raised t.len; str = b'-' ∷ t.str }))

-- The loop of `strlen`, with the length so far.
unfoldable pub strlen_from : ℕ → List ℕ → Result ℕ
strlen_from len [] = faulted
strlen_from len (c ∷ str) =
    let rest = strlen_from (u32 (len + 1)) str in if c == 0 then ok len else rest

unfoldable pub strlen : List ℕ → Result ℕ
strlen str = strlen_from 0 str

-- The second loop of `strncpy`, with `n` bytes left.
unfoldable pub zero_rest : List ℕ → ℕ → Result (List ℕ)
zero_rest dest zero = ok dest
zero_rest [] (suc n) = faulted
zero_rest (d ∷ dest) (suc n) = zero_rest dest n >>= λ rest. ok (0 ∷ rest)

-- `strncpy`, from its first loop on, as what `dest` holds then.
unfoldable pub strncpy : List ℕ → List ℕ → ℕ → Result (List ℕ)
strncpy dest src zero = ok dest
strncpy dest [] (suc n) = faulted
strncpy [] (c ∷ src) (suc n) = faulted
strncpy (d ∷ dest) (c ∷ src) (suc n) =
    let rest = strncpy dest src n >>= λ copied. ok (c ∷ copied) in
    if c == 0 then zero_rest (d ∷ dest) (suc n) else rest

-- The loop of `umemcpy`, with `n` bytes left.
unfoldable pub umemcpy : List ℕ → List ℕ → ℕ → Result (List ℕ)
umemcpy dest src zero = ok dest
umemcpy dest [] (suc n) = faulted
umemcpy [] (c ∷ src) (suc n) = faulted
umemcpy (d ∷ dest) (c ∷ src) (suc n) = umemcpy dest src n >>= λ copied. ok (c ∷ copied)

-- The loop of `umemset`, with `n` bytes left.
unfoldable pub umemset : List ℕ → ℕ → ℕ → Result (List ℕ)
umemset mem val zero = ok mem
umemset [] val (suc n) = faulted
umemset (m ∷ mem) val (suc n) = umemset mem val n >>= λ rest. ok (val ∷ rest)
