-- ===== src/Format/Total.antt =====
-- `kprintf` never runs out of fuel.
use tupix.Base.{
  All, Bool, List, [], arith, drop, if◌then◌else◌, length, suc, zero, ℕ, ◌+◌, ◌<◌, ◌==◌, ◌^◌, ◌||◌,
  ◌∷◌, ◌≢◌, ◌≤◌, true, false, length-drop, refl, sub32,
}
use tupix.Base.Result.{Result, faulted, from_option, halted, ok, panicked, timeout, ◌>>=◌}
use tupix.Format.Ends.{
  Ends, bind-Ends, byte_at-Ends, calc_field_width-Ends, check_format_str-Ends, choice-Ends,
  faulted-Ends, from_option-Ends, kitostr-Ends, kstrlen_from-Ends, kutostr-Ends, ok-Ends,
  print_with_padding-Ends, if-Ends,
}
use tupix.Format.{
  Argument, Converted, FieldWidth, byte_at, calc_field_width, check_format_str, convert, kprintf,
  kprintf_loop, print_signed, print_text, print_unsigned, print_with_padding, text, va_text,
  va_word, width_behind_sign, word,
}
use tupix.Numbers.{kitostr, kutostr}
use tupix.Strings.{kstrlen}

-- An argument that is a word is one of 32 bits.
abbrev pub IsArgument : Argument → Type 0
IsArgument (word n) = n < 2 ^ 32
IsArgument (text s) = Unit

-- The run is not out of fuel, and `P` holds of the value when there is one.
abbrev Leads {ℓ} : {A : Type ℓ} → (A → Type 0) → Result A → Type 0
Leads P (ok a) = P a
Leads P panicked = Unit
Leads P halted = Unit
Leads P faulted = Unit
Leads P timeout = ⊥

bind-Leads {ℓ κ} :
    {A : Type ℓ} {B : Type κ} (P : A → Type 0) (Q : B → Type 0) (r : Result A) (f : A → Result B)
    → Leads P r
    → ((a : A) → P a → Leads Q (f a))
    → Leads Q (r >>= f)
bind-Leads P Q (ok a) f h g = g a h
bind-Leads P Q panicked f h g = tt
bind-Leads P Q halted f h g = tt
bind-Leads P Q faulted f h g = tt
bind-Leads P Q timeout f h g = absurd h

-- A step that ends, about whose value nothing is needed.
step-Leads {ℓ κ} :
    {A : Type ℓ} {B : Type κ} (Q : B → Type 0) (r : Result A) (f : A → Result B)
    → Ends r
    → ((a : A) → Leads Q (f a))
    → Leads Q (r >>= f)
step-Leads Q (ok a) f h g = g a
step-Leads Q panicked f h g = tt
step-Leads Q halted f h g = tt
step-Leads Q faulted f h g = tt
step-Leads Q timeout f h g = absurd (h refl)

Leads-Ends {ℓ κ} :
    {A : Type ℓ} {B : Type κ} (P : A → Type 0) (r : Result A) (f : A → Result B)
    → Leads P r
    → ((a : A) → P a → Ends (f a))
    → Ends (r >>= f)
Leads-Ends P (ok a) f h g = g a h
Leads-Ends P panicked f h g = λ e. cc e
Leads-Ends P halted f h g = λ e. cc e
Leads-Ends P faulted f h g = λ e. cc e
Leads-Ends P timeout f h g = absurd h

if-Leads {ℓ} :
    {A : Type ℓ} (P : A → Type 0) (b : Bool) (r r' : Result A)
    → Leads P r
    → Leads P r'
    → Leads P (if b then r else r')
if-Leads P true r r' h h' = h
if-Leads P false r r' h h' = h'

-- The arguments that are left are words of 32 bits still.
abbrev KeepsWords : Converted → Type 0
KeepsWords (out, args, num_str) = All IsArgument args

abbrev TakesWord : ℕ × List Argument → Type 0
TakesWord (n, args) = (n < 2 ^ 32) × All IsArgument args

va_word-Leads : (args : List Argument) → All IsArgument args → Leads TakesWord (va_word args)
unfolding va_word
va_word-Leads [] h = tt
va_word-Leads (word n ∷ args) h = h
va_word-Leads (text s ∷ args) h = tt

va_text-Leads :
    (args : List Argument)
    → All IsArgument args
    → Leads (λ (r : List ℕ × List Argument). All IsArgument r.1) (va_text args)
unfolding va_text
va_text-Leads [] h = tt
va_text-Leads (word n ∷ args) h = tt
va_text-Leads (text s ∷ args) h = h.1

print_unsigned-Leads :
    (base : ℕ) (w : FieldWidth) (args : List Argument) (num_str : List ℕ)
    → 2 ≤ base
    → All IsArgument args
    → Leads KeepsWords (print_unsigned base w args num_str)
unfolding print_unsigned
print_unsigned-Leads base w args num_str b h =
    bind-Leads TakesWord KeepsWords (va_word args) _ (va_word-Leads args h) (λ r (small, kept).
      step-Leads KeepsWords (kutostr r.0 base num_str) _ (kutostr-Ends r.0 base num_str small b)
        (λ t. step-Leads KeepsWords (from_option t.len) _ (from_option-Ends t.len) (λ len.
          step-Leads KeepsWords (print_with_padding t.str len w.field_width w.padding) _
            (print_with_padding-Ends t.str len w.field_width w.padding) (λ out. kept))))

print_text-Leads :
    (w : FieldWidth) (args : List Argument) (num_str : List ℕ)
    → All IsArgument args
    → Leads KeepsWords (print_text w args num_str)
unfolding print_text kstrlen
print_text-Leads w args num_str h =
    bind-Leads (λ (r : List ℕ × List Argument). All IsArgument r.1) KeepsWords (va_text args) _
      (va_text-Leads args h)
      (λ r kept. step-Leads KeepsWords (kstrlen r.0) _ (kstrlen_from-Ends 0 r.0) (λ len.
        step-Leads KeepsWords (print_with_padding r.0 len w.field_width w.padding) _
          (print_with_padding-Ends r.0 len w.field_width w.padding) (λ out. kept)))

print_signed-Leads :
    (w : FieldWidth) (args : List Argument) (num_str : List ℕ)
    → All IsArgument args
    → Leads KeepsWords (print_signed w args num_str)
unfolding print_signed
print_signed-Leads w args num_str h =
    bind-Leads TakesWord KeepsWords (va_word args) _ (va_word-Leads args h) (λ r (small, kept).
      step-Leads KeepsWords (kitostr r.0 10 num_str) _ (kitostr-Ends r.0 num_str small) (λ t.
        step-Leads KeepsWords (from_option t.len) _ (from_option-Ends t.len) (λ len.
          step-Leads KeepsWords (byte_at t.str) _ (byte_at-Ends t.str) (λ first.
            let offset : ℕ = if first == b'-' then 1 else 0 in
            let width = width_behind_sign w.field_width offset in
            step-Leads KeepsWords
              (print_with_padding (drop offset t.str) (sub32 len offset) width w.padding) _
              (print_with_padding-Ends (drop offset t.str) (sub32 len offset) width w.padding)
              (λ out. kept)))))

convert-Leads :
    (c : ℕ) (w : FieldWidth) (args : List Argument) (num_str : List ℕ)
    → All IsArgument args
    → Leads KeepsWords (convert c w args num_str)
unfolding convert
convert-Leads c w args num_str h =
    let unsigned = print_unsigned-Leads 16 w args num_str (omega arith) h in
    if-Leads KeepsWords (c == b'c') _ _
      (bind-Leads TakesWord KeepsWords (va_word args) _ (va_word-Leads args h) (λ r k. k.1))
      (if-Leads KeepsWords (c == b's') _ _ (print_text-Leads w args num_str h) (
        if-Leads KeepsWords (c == b'x') _ _ unsigned (
          if-Leads KeepsWords (c == b'd' || c == b'i') _ _ (print_signed-Leads w args num_str h) (
            if-Leads KeepsWords (c == b'u') _ _
              (print_unsigned-Leads 10 w args num_str (omega arith) h)
              (if-Leads KeepsWords (c == b'p') _ _
                (bind-Leads KeepsWords KeepsWords (print_unsigned 16 w args num_str) _ unsigned
                  (λ r k. k))
                (if-Leads KeepsWords (c == b'%') _ _ h h))))))

kprintf_loop-Ends :
    (fuel : ℕ) (str : List ℕ) (padding : ℕ) (args : List Argument) (num_str : List ℕ)
    → length str < fuel
    → All IsArgument args
    → Ends (kprintf_loop fuel str padding args num_str)
unfolding kprintf_loop
kprintf_loop-Ends zero str padding args num_str f h = absurd (omega arith)
kprintf_loop-Ends (suc fuel) [] padding args num_str f h = faulted-Ends
kprintf_loop-Ends (suc fuel) (c ∷ str) padding args num_str f h =
    choice-Ends (c == 0) _ _ (ok-Ends []) (
      choice-Ends (c == b'%') _ _
        (bind-Ends (calc_field_width str padding) _ (calc_field_width-Ends str padding) (λ w e.
          bind-Ends (byte_at (drop w.flag_len str)) _ (byte_at-Ends (drop w.flag_len str))
            (λ conversion e.
              Leads-Ends KeepsWords (convert conversion w args num_str) _
                (convert-Leads conversion w args num_str h)
                (λ r kept.
                  bind-Ends (kprintf_loop fuel (drop (w.flag_len + 1) str) w.padding r.1 r.2) _
                    (kprintf_loop-Ends fuel (drop (w.flag_len + 1) str) w.padding r.1 r.2
                      (omega (arith, length-drop (w.flag_len + 1) str)) kept)
                    (λ rest e. ok-Ends _)))))
        (bind-Ends (kprintf_loop fuel str padding args num_str) _
          (kprintf_loop-Ends fuel str padding args num_str (omega arith) h) (λ rest e. ok-Ends _)))

-- For every format, fitting or not, and for arguments of 32 bits, `kprintf` does not run out of fuel,
-- whatever its buffer of numbers holds: its loops end.
pub kprintf-Ends :
    (format : List ℕ) (args : List Argument) (num_str : List ℕ)
    → All IsArgument args
    → kprintf format args num_str ≢ timeout
unfolding kprintf
kprintf-Ends format args num_str h =
    bind-Ends (check_format_str format) _ (check_format_str-Ends format).0 (λ good e.
      if-Ends good _ _
        (kprintf_loop-Ends (suc (length format)) format b' ' args num_str (omega arith) h)
        (ok-Ends []))
