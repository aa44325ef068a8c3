-- ===== src/User/Check/Agree.antt =====
-- `check_format_str` of the user library, against the kernel's.
use tupix.Base.Chains.{bind_agrees, ok_injective, regroup, split_bind}
use tupix.Base.Result.{Result, ok, ◌>>=◌}
use tupix.Base.{
  Bool, Bool-cases, List, Option, [], ap, ap₂, arith, false, inl, inr, length, none, refl, some,
  suc, sym, true, zero, ℕ, ◌<◌, ◌==◌, ◌∙◌, ◌∷◌, ◌≡◌, ◌≤◌,
}
use tupix.Format
use tupix.Format.{FieldWidth, check_conversion, check_flags, is_digit}
use tupix.User.Check.{
  after_conversion, check_format_loop, check_format_str, go_on, scan_directive, skip_digits,
}

module _ (c : ℕ) (str : List ℕ) where
  check_flags-digit :
      (repeat : Bool) → is_digit c ≡ true → check_flags repeat (c ∷ str) ≡ check_flags true str
  unfolding check_flags
  check_flags-digit repeat h = rw (h, check_flags) refl

  check_flags-other :
      (repeat : Bool)
      → is_digit c ≡ false
      → check_flags repeat (c ∷ str) ≡ check_conversion c repeat (Format.check_format_str str)
  unfolding check_flags
  check_flags-other repeat h = rw (h, check_flags) refl

  skip_digits-digit : is_digit c ≡ true → skip_digits (c ∷ str) ≡ skip_digits str
  unfolding skip_digits
  skip_digits-digit h = rw (h, skip_digits) refl

  skip_digits-other : is_digit c ≡ false → skip_digits (c ∷ str) ≡ ok (c ∷ str)
  unfolding skip_digits
  skip_digits-other h = rw (h, skip_digits) refl

  scan_directive-digit :
      (fuel : ℕ) (repeat : Bool)
      → is_digit c ≡ true
      → scan_directive (suc fuel) repeat (c ∷ str)
        ≡ (skip_digits str >>= λ rest. scan_directive fuel true rest)
  unfolding scan_directive
  scan_directive-digit fuel repeat h = rw (h, scan_directive) refl

  scan_directive-other :
      (fuel : ℕ) (repeat : Bool)
      → is_digit c ≡ false
      → scan_directive (suc fuel) repeat (c ∷ str) ≡ ok (after_conversion c repeat str)
  unfolding scan_directive
  scan_directive-other fuel repeat h = rw (h, scan_directive) refl

skip_digits-flags :
    (str : List ℕ) → check_flags true str ≡ (skip_digits str >>= λ rest. check_flags true rest)
skip_digits-flags [] = unfold check_flags skip_digits in refl
skip_digits-flags (c ∷ str) = elim (Bool-cases (is_digit c)) [
  | inl digit ↦
      check_flags-digit c str true digit
      ∙ skip_digits-flags str
      ∙ ap (λ r. r >>= λ rest. check_flags true rest) (sym (skip_digits-digit c str digit))
  | inr other ↦ ap (λ r. r >>= λ rest. check_flags true rest) (sym (skip_digits-other c str other))
]

skip_digits-shorter : (str rest : List ℕ) → skip_digits str ≡ ok rest → length rest ≤ length str
skip_digits-shorter [] rest h = absurd (unfold skip_digits in cc h)
skip_digits-shorter (c ∷ str) rest h = elim (Bool-cases (is_digit c)) [
  | inl digit ↦
      omega (arith, skip_digits-shorter str rest (sym (skip_digits-digit c str digit) ∙ h))
  | inr other ↦ omega (arith, ap length (ok_injective (sym (skip_digits-other c str other) ∙ h)))
]

conversion-agrees :
    (c : ℕ) (repeat : Bool) (str : List ℕ) (check : List ℕ → Result Bool)
    → check_conversion c repeat (check str) ≡ go_on check (after_conversion c repeat str)
unfolding check_conversion after_conversion go_on
conversion-agrees c repeat str check = ground arith

after_conversion-eq :
    (c : ℕ) (repeat : Bool) (str rest : List ℕ)
    → after_conversion c repeat str ≡ some rest
    → rest ≡ str
unfolding after_conversion
after_conversion-eq c repeat str rest h = ground arith

scan_directive-agrees :
    (fuel : ℕ) (repeat : Bool) (str : List ℕ)
    → length str < fuel
    → check_flags repeat str ≡ (scan_directive fuel repeat str >>= go_on Format.check_format_str)
scan_directive-agrees zero repeat str h = absurd (omega arith)
scan_directive-agrees (suc fuel) repeat [] h = unfold check_flags scan_directive in refl
scan_directive-agrees (suc fuel) repeat (c ∷ str) h = elim (Bool-cases (is_digit c)) [
  | inl digit ↦
      check_flags-digit c str repeat digit
      ∙ skip_digits-flags str
      ∙ bind_agrees (skip_digits str) _ _ (λ rest found.
        scan_directive-agrees fuel true rest (omega (arith, skip_digits-shorter str rest found)))
      ∙ sym (regroup (skip_digits str) (scan_directive fuel true) (go_on Format.check_format_str))
      ∙ ap (λ r. r >>= go_on Format.check_format_str)
          (sym (scan_directive-digit c str fuel repeat digit))
  | inr other ↦
      check_flags-other c str repeat other
      ∙ conversion-agrees c repeat str Format.check_format_str
      ∙ ap (λ r. r >>= go_on Format.check_format_str)
          (sym (scan_directive-other c str fuel repeat other))
]

scan_directive-shorter :
    (fuel : ℕ) (repeat : Bool) (str rest : List ℕ)
    → scan_directive fuel repeat str ≡ ok (some rest)
    → length rest ≤ length str
scan_directive-shorter zero repeat str rest h = absurd (unfold scan_directive in cc h)
scan_directive-shorter (suc fuel) repeat [] rest h = absurd (unfold scan_directive in cc h)
scan_directive-shorter (suc fuel) repeat (c ∷ str) rest h = elim (Bool-cases (is_digit c)) [
  | inl digit ↦
      let (behind, skips, on) =
        split_bind (skip_digits str) (scan_directive fuel true) (some rest)
          (sym (scan_directive-digit c str fuel repeat digit) ∙ h) in
      omega (
        arith,
        skip_digits-shorter str behind skips,
        scan_directive-shorter fuel true behind rest on,
      )
  | inr other ↦ omega (
    arith,
    ap length (
        after_conversion-eq c repeat str rest
          (ok_injective (sym (scan_directive-other c str fuel repeat other) ∙ h))),
  )
]

go_on-agrees :
    (loop check : List ℕ → Result Bool) (o : Option (List ℕ))
    → ((rest : List ℕ) → o ≡ some rest → loop rest ≡ check rest)
    → go_on loop o ≡ go_on check o
unfolding go_on
go_on-agrees loop check none h = refl
go_on-agrees loop check (some rest) h = h rest refl

abbrev round : ℕ → Result Bool → Result Bool → Result Bool
round c directive literal = elim (c == 0) [
  | true ↦ ok true
  | false ↦ elim (c == b'%') [ true ↦ directive | false ↦ literal ]
]

check_format_loop-agrees :
    (fuel : ℕ) (str : List ℕ)
    → length str < fuel
    → check_format_loop fuel str ≡ Format.check_format_str str
unfolding check_format_loop Format.check_format_str
check_format_loop-agrees zero str h = absurd (omega arith)
check_format_loop-agrees (suc fuel) [] h = refl
check_format_loop-agrees (suc fuel) (c ∷ str) h =
    ap₂ (round c)
      (bind_agrees (scan_directive (suc (length str)) false str) _ _ (λ o found.
          go_on-agrees (check_format_loop fuel) Format.check_format_str o (λ rest e.
            check_format_loop-agrees fuel rest (
              omega (
                arith,
                scan_directive-shorter (suc (length str)) false str rest (found ∙ ap ok e),
              ))))
        ∙ sym (scan_directive-agrees (suc (length str)) false str (omega arith)))
      (check_format_loop-agrees fuel str (omega arith))

pub check_format_str-agrees : (str : List ℕ) → check_format_str str ≡ Format.check_format_str str
unfolding check_format_str
check_format_str-agrees str = check_format_loop-agrees (suc (length str)) str (omega arith)
