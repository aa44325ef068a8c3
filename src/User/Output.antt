-- ===== src/User/Output.antt =====
-- The calls of `putchar` that `print` and `print_with_padding` of the user library make.
use tupix.Base.{
  List, [], replicate, ℕ, ◌++◌, ◌∷◌, ◌≡◌, suc, zero, ap, refl, sym, ◌∙◌, ◌==◌, inl, inr, Bool-cases,
  max, ◌-◌,
}
use tupix.Base.Result.{Result, ok, ◌>>=◌}
use tupix.Format.{kprint, print_with_padding}
use tupix.User.{pad, print, print_padded}
use tupix.Base.Chains.{bind_each, ok_injective, regroup, split_bind}

module _ {S : Type 0} (putchar : ℕ → S → Result S) where
  -- The calls for the bytes of a list, one after the other.
  unfoldable pub emit : List ℕ → S → Result S
  emit [] s = ok s
  emit (c ∷ out) s = putchar c s >>= λ s'. emit out s'

  pub emit-append :
      (out more : List ℕ) (s : S) → emit (out ++ more) s ≡ (emit out s >>= λ s'. emit more s')
  unfolding emit
  emit-append [] more s = refl
  emit-append (c ∷ out) more s =
      bind_each (putchar c s) _ _ (λ s'. emit-append out more s')
      ∙ sym (regroup (putchar c s) (emit out) (emit more))

  pub print-emit :
      (str out : List ℕ) (s : S) → kprint str ≡ ok out → print putchar str s ≡ emit out s
  unfolding emit print kprint
  print-emit [] out s h = absurd (cc h)
  print-emit (c ∷ str) out s h = elim (Bool-cases (c == 0)) [
    | inl last ↦
        let ends : kprint (c ∷ str) ≡ ok [] = rw last refl in
        rw (last, print) (ap (λ (t : List ℕ). emit t s) (ok_injective (sym ends ∙ h)))
    | inr more ↦
        let goes_on : kprint (c ∷ str) ≡ (kprint str >>= λ t. ok (c ∷ t)) = rw more refl in
        let (t, prints, all) = split_bind (kprint str) (λ t. ok (c ∷ t)) out (sym goes_on ∙ h) in
        rw (more, print)
          (bind_each (putchar c s) _ _ (λ s'. print-emit str t s' prints)
            ∙ ap (λ (t : List ℕ). emit t s) (ok_injective all))
  ]

  pad-emit : (n padding : ℕ) (s : S) → pad putchar padding n s ≡ emit (replicate n padding) s
  unfolding emit pad
  pad-emit zero padding s = refl
  pad-emit (suc n) padding s = bind_each (putchar padding s) _ _ (λ s'. pad-emit n padding s')

  pub print_padded-emit :
      (str : List ℕ) (len width padding : ℕ) (out : List ℕ) (s : S)
      → print_with_padding str len width padding ≡ ok out
      → print_padded putchar str len width padding s ≡ emit out s
  unfolding print_padded print_with_padding
  print_padded-emit str len width padding out s h =
      let (text, prints, all) = split_bind (kprint str) _ out h in
      bind_each (pad putchar padding (max len width - len) s) _ _
        (λ s'. print-emit str text s' prints)
      ∙ ap (λ (r : Result S). r >>= λ s'. emit text s') (pad-emit (max len width - len) padding s)
      ∙ sym (emit-append (replicate (max len width - len) padding) text s)
      ∙ ap (λ (t : List ℕ). emit t s) (ok_injective all)
