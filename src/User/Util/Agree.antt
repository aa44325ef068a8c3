-- ===== src/User/Util/Agree.antt =====
-- The user library's copies of the number and string functions do what the kernel's do.
use tupix.Memory.Bytes.{memset}
use tupix.Base.{
  ◌++◌, length, List, [], ap, arith, if◌then◌else◌, ltb, none, refl, some, suc, sub32, u32, zero, ℕ,
  ◌%◌, ◌+◌, ◌/◌, ◌==◌, ◌||◌, ◌∙◌, ◌∷◌, ◌≡◌,
}
use tupix.Base.Chains.{bind_each}
use tupix.Base.Result.{Result, ok, ◌>>=◌}
use tupix.Numbers.{
  Text, digit_char, kcalc_digits, kcalc_digits_loop, kitostr, kutostr, write, write_before,
  write_digits,
}
use tupix.Strings.{fill_zeros, kstrlen, kstrlen_from, kstrncpy}
use tupix.User.Util.{
  umemcpy, umemset, ascii_of, calc_digits, calc_digits_loop, itostr, put_digits, strlen,
  strlen_from, strncpy, zero_rest, utostr,
}

calc_digits_loop-agrees :
    (fuel n base num : ℕ) → calc_digits_loop fuel n base num ≡ kcalc_digits_loop fuel n base num
unfolding calc_digits_loop kcalc_digits_loop
calc_digits_loop-agrees zero n base num = refl
calc_digits_loop-agrees (suc fuel) n base num =
    ap (λ (r : Result ℕ). if n == 0 then ok num else r)
      (calc_digits_loop-agrees fuel (n / base) base (u32 (num + 1)))

calc_digits-agrees : (n base : ℕ) → calc_digits n base ≡ kcalc_digits n base
unfolding calc_digits kcalc_digits
calc_digits-agrees n base = calc_digits_loop-agrees 33 n base (if n == 0 then 1 else 0)

ascii_of-agrees : (d : ℕ) → ascii_of d ≡ digit_char d
unfolding ascii_of digit_char
ascii_of-agrees d = ground arith

put_digits-agrees :
    (fuel n base i : ℕ) (str : List ℕ)
    → put_digits fuel n base i str ≡ write_digits fuel n base i str
unfolding put_digits write_digits
put_digits-agrees zero n base i str = refl
put_digits-agrees (suc fuel) n base i str =
    ap (λ (r : Result (ℕ × List ℕ)). if n == 0 then ok (i, str) else r)
      (ap (λ c. write_before str i c >>= λ (i', str'). put_digits fuel (n / base) base i' str')
          (ascii_of-agrees (n % base))
        ∙ bind_each (write_before str i (digit_char (n % base))) _ _
            (λ r. put_digits-agrees fuel (n / base) base r.0 r.1))

pub utostr-agrees : (n base : ℕ) (str : List ℕ) → utostr n base str ≡ kutostr n base str
unfolding utostr kutostr
utostr-agrees n base str = rw (calc_digits-agrees n base) (
    ap
      (λ (r : Result Text).
        if ltb base 2 || ltb 36 base then ok (record { start = 0; len = none; str = str }) else r)
      (bind_each (kcalc_digits n base) _ _ (λ len. bind_each (write str len 0) _ _ (λ str'.
        ap
          (λ (r : Result (ℕ × List ℕ)).
            (if n == 0 then write_before str' len b'0' else r) >>= λ (start, str'').
            ok (record { start = start; len = some len; str = str'' }))
          (put_digits-agrees 33 n base len str')))))

pub itostr-agrees : (n base : ℕ) (str : List ℕ) → itostr n base str ≡ kitostr n base str
unfolding itostr kitostr
itostr-agrees n base [] = rw (utostr-agrees n base [])
itostr-agrees n base (c ∷ str) =
    rw (utostr-agrees n base (c ∷ str), utostr-agrees (sub32 0 n) base str)

strlen_from-agrees : (len : ℕ) (str : List ℕ) → strlen_from len str ≡ kstrlen_from len str
unfolding strlen_from kstrlen_from
strlen_from-agrees len [] = refl
strlen_from-agrees len (c ∷ str) =
    ap (λ (r : Result ℕ). if c == 0 then ok len else r) (strlen_from-agrees (u32 (len + 1)) str)

pub strlen-agrees : (str : List ℕ) → strlen str ≡ kstrlen str
unfolding strlen kstrlen
strlen-agrees str = strlen_from-agrees 0 str

zero_rest-agrees : (dest : List ℕ) (n : ℕ) → zero_rest dest n ≡ fill_zeros dest n
unfolding zero_rest fill_zeros
zero_rest-agrees dest zero = refl
zero_rest-agrees [] (suc n) = refl
zero_rest-agrees (d ∷ dest) (suc n) =
    ap (λ (r : Result (List ℕ)). r >>= λ rest. ok (0 ∷ rest)) (zero_rest-agrees dest n)

pub strncpy-agrees : (dest src : List ℕ) (n : ℕ) → strncpy dest src n ≡ kstrncpy dest src n
unfolding strncpy kstrncpy
strncpy-agrees dest src zero = refl
strncpy-agrees dest [] (suc n) = refl
strncpy-agrees [] (c ∷ src) (suc n) = refl
strncpy-agrees (d ∷ dest) (c ∷ src) (suc n) = rw (zero_rest-agrees (d ∷ dest) (suc n)) (
    ap
      (λ (r : Result (List ℕ)).
        if c == 0 then fill_zeros (d ∷ dest) (suc n) else r >>= λ copied. ok (c ∷ copied))
      (strncpy-agrees dest src n))

-- Bytes of one block in place of as many of another.
pub umemcpy_lem :
    (before block after more : List ℕ)
    → length block ≡ length before
    → umemcpy (before ++ after) (block ++ more) (length block) ≡ ok (block ++ after)
unfolding umemcpy
umemcpy_lem [] [] after more h = refl
umemcpy_lem [] (c ∷ block) after more h = absurd (omega arith)
umemcpy_lem (b ∷ before) [] after more h = absurd (omega arith)
umemcpy_lem (b ∷ before) (c ∷ block) after more h =
    ap (λ (r : Result (List ℕ)). r >>= λ copied. ok (c ∷ copied))
      (umemcpy_lem before block after more (omega arith))

pub umemset-agrees : (mem : List ℕ) (val n : ℕ) → umemset mem val n ≡ memset mem val n
unfolding umemset memset
umemset-agrees mem val zero = refl
umemset-agrees [] val (suc n) = refl
umemset-agrees (m ∷ mem) val (suc n) =
    ap (λ (r : Result (List ℕ)). r >>= λ rest. ok (val ∷ rest)) (umemset-agrees mem val n)
