-- ===== src/Format/Ends.antt =====
-- The functions under `kprintf` never run out of fuel.
use tupix.Base.{
  Bool, Option, none, some, u32, List, [], arith, drop, if◌then◌else◌, length, ltb, true, false,
  suc, zero, ℕ, ◌%◌, ◌+◌, ◌/◌, ◌<◌, ◌==◌, ◌^◌, ◌||◌, ◌∷◌, ◌≡◌, ◌≢◌, ◌≤◌, refl, sub32, sym, subst,
}
use tupix.Base.Result.{Result, from_option, ok, panicked, halted, faulted, timeout, ◌>>=◌}
use tupix.Format.{
  byte_at, calc_field_width, check_flags, check_conversion, check_format_str, digits_at, is_digit,
  kprint, number_at, print_with_padding,
}
use tupix.Numbers.Digits.{quotient_bound}
use tupix.Numbers.Writing.{kcalc_digits_loop_lem}
use tupix.Numbers.{kcalc_digits, kitostr, kutostr, write, write_before, write_digits, digit_char}
use tupix.Strings.{kstrlen_from}

-- Not out of fuel.
abbrev pub Ends {ℓ} : {A : Type ℓ} → Result A → Type ℓ
Ends r = r ≢ timeout

pub ok-Ends {ℓ} : {A : Type ℓ} (a : A) → Ends (ok a)
ok-Ends a e = cc e

pub faulted-Ends {ℓ} : {A : Type ℓ} → Ends {A = A} faulted
faulted-Ends e = cc e

pub bind-Ends {ℓ κ} :
    {A : Type ℓ} {B : Type κ} (r : Result A) (f : A → Result B)
    → Ends r
    → ((a : A) → r ≡ ok a → Ends (f a))
    → Ends (r >>= f)
bind-Ends (ok a) f h g e = g a refl e
bind-Ends panicked f h g e = cc e
bind-Ends halted f h g e = cc e
bind-Ends faulted f h g e = cc e
bind-Ends timeout f h g e = h refl

pub if-Ends {ℓ} :
    {A : Type ℓ} (b : Bool) (r r' : Result A) → Ends r → Ends r' → Ends (if b then r else r')
if-Ends true r r' h h' = h
if-Ends false r r' h h' = h'

pub choice-Ends {ℓ} :
    {A : Type ℓ} (b : Bool) (r r' : Result A)
    → Ends r
    → Ends r'
    → Ends (elim b [ true ↦ r | false ↦ r' ])
choice-Ends true r r' h h' = h
choice-Ends false r r' h h' = h'

write-Ends : (str : List ℕ) (i c : ℕ) → Ends (write str i c)
unfolding write
write-Ends str i c = if-Ends (ltb i (length str)) _ _ (ok-Ends _) faulted-Ends

write_before-Ends : (str : List ℕ) (i c : ℕ) → Ends (write_before str i c)
unfolding write_before
write_before-Ends str zero c = faulted-Ends
write_before-Ends str (suc i) c =
    bind-Ends (write str i c) _ (write-Ends str i c) (λ w e. ok-Ends (i, w))

write_digits-Ends :
    (fuel n base i : ℕ) (str : List ℕ)
    → 2 ≤ base
    → n < 2 ^ fuel
    → Ends (write_digits (suc fuel) n base i str)
unfolding write_digits
write_digits-Ends zero n base i str b h = ground arith
write_digits-Ends (suc fuel) n base i str b h = if-Ends (n == 0) _ _ (ok-Ends _) (
    bind-Ends (write_before str i (digit_char (n % base))) _
      (write_before-Ends str i (digit_char (n % base)))
      (λ r e. write_digits-Ends fuel (n / base) base r.0 r.1 b (quotient_bound fuel base n b h)))

kcalc_digits-Ends : (n base : ℕ) → 2 ≤ base → n < 2 ^ 32 → Ends (kcalc_digits n base)
unfolding kcalc_digits
kcalc_digits-Ends n base b h =
    subst Ends (sym (kcalc_digits_loop_lem 32 n base (if n == 0 then 1 else 0) b h (ground arith)))
      (ok-Ends _)

pub kutostr-Ends : (n base : ℕ) (str : List ℕ) → n < 2 ^ 32 → 2 ≤ base → Ends (kutostr n base str)
unfolding kutostr
kutostr-Ends n base str h b = if-Ends (ltb base 2 || ltb 36 base) _ _ (ok-Ends _) (
    bind-Ends (kcalc_digits n base) _ (kcalc_digits-Ends n base b h) (λ len e.
      bind-Ends (write str len 0) _ (write-Ends str len 0) (λ str e.
        bind-Ends (if n == 0 then write_before str len b'0' else write_digits 33 n base len str) _
          (if-Ends (n == 0) _ _ (write_before-Ends str len b'0')
            (write_digits-Ends 32 n base len str b h))
          (λ r e. ok-Ends _))))

pub kitostr-Ends : (n : ℕ) (str : List ℕ) → n < 2 ^ 32 → Ends (kitostr n 10 str)
unfolding kitostr
kitostr-Ends n [] h =
    if-Ends (ltb n (2 ^ 31)) _ _ (kutostr-Ends n 10 [] h (omega arith)) faulted-Ends
kitostr-Ends n (c ∷ str) h =
    if-Ends (ltb n (2 ^ 31)) _ _ (kutostr-Ends n 10 (c ∷ str) h (omega arith)) (
      bind-Ends (kutostr (sub32 0 n) 10 str) _
        (kutostr-Ends (sub32 0 n) 10 str (omega arith) (omega arith)) (λ t e. ok-Ends _))

pub kstrlen_from-Ends : (len : ℕ) (str : List ℕ) → Ends (kstrlen_from len str)
unfolding kstrlen_from
kstrlen_from-Ends len [] = faulted-Ends
kstrlen_from-Ends len (c ∷ str) =
    if-Ends (c == 0) _ _ (ok-Ends _) (kstrlen_from-Ends (u32 (len + 1)) str)

kprint-Ends : (str : List ℕ) → Ends (kprint str)
unfolding kprint
kprint-Ends [] = faulted-Ends
kprint-Ends (c ∷ str) =
    if-Ends (c == 0) _ _ (ok-Ends _)
      (bind-Ends (kprint str) _ (kprint-Ends str) (λ out e. ok-Ends _))

pub print_with_padding-Ends :
    (str : List ℕ) (len width padding : ℕ) → Ends (print_with_padding str len width padding)
unfolding print_with_padding
print_with_padding-Ends str len width padding =
    bind-Ends (kprint str) _ (kprint-Ends str) (λ out e. ok-Ends _)

pub from_option-Ends {ℓ} : {A : Type ℓ} (o : Option A) → Ends (from_option o)
from_option-Ends none = faulted-Ends
from_option-Ends (some a) = ok-Ends a

pub byte_at-Ends : (str : List ℕ) → Ends (byte_at str)
unfolding byte_at
byte_at-Ends [] = faulted-Ends
byte_at-Ends (c ∷ str) = ok-Ends c

digits_at-Ends : (str : List ℕ) → Ends (digits_at str)
unfolding digits_at
digits_at-Ends [] = faulted-Ends
digits_at-Ends (c ∷ str) =
    choice-Ends (is_digit c) _ _
      (bind-Ends (digits_at str) _ (digits_at-Ends str) (λ ds e. ok-Ends _)) (ok-Ends _)

number_at-Ends : (str : List ℕ) (padding skipped : ℕ) → Ends (number_at str padding skipped)
unfolding number_at
number_at-Ends str padding skipped =
    bind-Ends (digits_at str) _ (digits_at-Ends str) (λ ds e. ok-Ends _)

pub calc_field_width-Ends : (str : List ℕ) (padding : ℕ) → Ends (calc_field_width str padding)
unfolding calc_field_width
calc_field_width-Ends str padding = bind-Ends (byte_at str) _ (byte_at-Ends str) (λ c e.
    if-Ends (is_digit c) _ _
      (if-Ends (c == b'0') _ _ (number_at-Ends (drop 1 str) b'0' 1) (number_at-Ends str b' ' 0))
      (ok-Ends _))

check_conversion-Ends :
    (c : ℕ) (repeat : Bool) (scan : Result Bool) → Ends scan → Ends (check_conversion c repeat scan)
unfolding check_conversion
check_conversion-Ends c repeat scan h =
    if-Ends (c == b'c' || c == b'%') _ _ (if-Ends repeat _ _ (ok-Ends _) h) (
      if-Ends (c == b'x' || c == b'd' || c == b'i' || c == b'u' || c == b'p' || c == b's') _ _ h
        (ok-Ends _))

pub check_format_str-Ends :
    (str : List ℕ) → Ends (check_format_str str) × ((repeat : Bool) → Ends (check_flags repeat str))
unfolding check_format_str
check_format_str-Ends [] = (faulted-Ends, λ repeat. faulted-Ends)
check_format_str-Ends (c ∷ str) =
    let (scan, flags) = check_format_str-Ends str in
    (
      choice-Ends (c == 0) _ _ (ok-Ends _) (choice-Ends (c == b'%') _ _ (flags false) scan),
      λ repeat.
          choice-Ends (is_digit c) _ _ (flags true)
            (check_conversion-Ends c repeat (check_format_str str) scan),
    )
