-- ===== src/User/Loop.antt =====
-- `printf` of the user library, against `kprintf`.
use tupix.Base.{
  Bool, List, [], drop, if◌then◌else◌, length, ◌+◌, ℕ, ◌++◌, ◌∷◌, ◌≡◌, suc, zero, ap, sym, ◌∙◌,
  ◌==◌, true, false,
}
use tupix.Base.Result.{Result, ok, ◌>>=◌}
use tupix.Format.{
  Argument, Converted, convert, kprintf, kprintf_loop, byte_at, calc_field_width, check_format_str,
}
use tupix.User.{printf, printf_loop, put_argument}
use tupix.Base.Chains.{regroup, bind_each, ok_injective, split_bind}
use tupix.User.Output.{emit, emit-append}
use tupix.User.Check.Agree.{check_format_str-agrees}
use tupix.User.Check.Width.{calc_field_width-agrees}
use tupix.User.Arguments.{Follows, put_argument-Follows}

module _ {S : Type 0} (putchar : ℕ → S → Result S) where
  -- When `r` returns bytes, `g` passes them to `putchar`.
  abbrev Emits : Result (List ℕ) → (S → Result S) → Type 0
  Emits r g = (out : List ℕ) (s : S) → r ≡ ok out → g s ≡ emit putchar out s

  bind-Emits :
      {A : Type 0} (m : Result A) (f : A → Result (List ℕ)) (g : A → S → Result S)
      → ((a : A) → Emits (f a) (g a))
      → Emits (m >>= f) (λ s. m >>= λ a. g a s)
  bind-Emits m f g h out s e =
      let (a, first, then_f) = split_bind m f out e in
      ap (λ r. r >>= λ a. g a s) first ∙ h a out s then_f

  -- The same where `g` takes a step that agrees with the one of `r`.
  copy-Emits :
      {A : Type 0} (m m' : Result A) (f : A → Result (List ℕ)) (g : A → S → Result S)
      → m' ≡ m
      → ((a : A) → Emits (f a) (g a))
      → Emits (m >>= f) (λ s. m' >>= λ a. g a s)
  copy-Emits m m' f g same h out s e = ap (λ r. r >>= λ a. g a s) same ∙ bind-Emits m f g h out s e

  choice-Emits :
      (b : Bool) (r r' : Result (List ℕ)) (g g' : S → Result S)
      → Emits r g
      → Emits r' g'
      → Emits (elim b [ true ↦ r | false ↦ r' ]) (λ s. elim b [ true ↦ g s | false ↦ g' s ])
  choice-Emits true r r' g g' h h' out s e = h out s e
  choice-Emits false r r' g g' h h' out s e = h' out s e

  literal-Emits :
      (c : ℕ) (r : Result (List ℕ)) (g : S → Result S)
      → Emits r g
      → Emits (r >>= λ rest. ok (c ∷ rest)) (λ s. putchar c s >>= g)
  unfolding emit
  literal-Emits c r g h out s e =
      let (rest, prints, all) = split_bind r _ out e in
      bind_each (putchar c s) g (emit putchar rest) (λ s'. h rest s' prints)
      ∙ ap (λ (t : List ℕ). emit putchar t s) (ok_injective all)

  directive-Emits :
      (r : Result Converted) (g : S → Result (S × List Argument × List ℕ))
      (k : List Argument → List ℕ → Result (List ℕ)) (l : List Argument → List ℕ → S → Result S)
      → Follows putchar r g
      → ((args : List Argument) (num_str : List ℕ) → Emits (k args num_str) (l args num_str))
      → Emits
          (r >>= λ (out, args, num_str). k args num_str >>= λ rest. ok (out ++ rest))
          (λ s. g s >>= λ (s', args, num_str). l args num_str s')
  directive-Emits r g k l h h' out s e =
      let (u, first, then_k) = split_bind r _ out e in
      let (rest, prints, all) = split_bind (k u.1 u.2) _ out then_k in
      ap (λ t. t >>= λ (s', args, num_str). l args num_str s') (h u s first)
      ∙ regroup (emit putchar u.0 s) _ _
      ∙ bind_each (emit putchar u.0 s) _ _ (λ s'. h' u.1 u.2 rest s' prints)
      ∙ sym (emit-append putchar u.0 rest s)
      ∙ ap (λ (t : List ℕ). emit putchar t s) (ok_injective all)

  printf_loop-Emits :
      (fuel : ℕ) (str : List ℕ) (padding : ℕ) (args : List Argument) (num_str : List ℕ)
      → Emits
          (kprintf_loop fuel str padding args num_str)
          (printf_loop putchar fuel str padding args num_str)
  unfolding kprintf_loop printf_loop emit
  printf_loop-Emits zero str padding args num_str out s h = absurd (cc h)
  printf_loop-Emits (suc fuel) [] padding args num_str out s h = absurd (cc h)
  printf_loop-Emits (suc fuel) (c ∷ str) padding args num_str out s h =
      choice-Emits (c == 0) _ _ _ _
        (λ out s e. ap (λ (t : List ℕ). emit putchar t s) (ok_injective e))
        (choice-Emits (c == b'%') _ _ _ _
          (copy-Emits (calc_field_width str padding) _ _ _ (calc_field_width-agrees str padding)
            (λ w. bind-Emits (byte_at (drop w.flag_len str)) _ _ (λ conversion.
              directive-Emits (convert conversion w args num_str)
                (put_argument putchar conversion w args num_str) _ _
                (put_argument-Follows putchar conversion w args num_str)
                (λ args' num_str'.
                  printf_loop-Emits fuel (drop (w.flag_len + 1) str) w.padding args' num_str'))))
          (literal-Emits c (kprintf_loop fuel str padding args num_str)
            (printf_loop putchar fuel str padding args num_str)
            (printf_loop-Emits fuel str padding args num_str)))
        out s h

  accepted-Emits :
      (good : Bool) (r : Result (List ℕ)) (g : S → Result S)
      → Emits r g
      → Emits (if good then r else ok []) (λ s. if good then g s else ok s)
  unfolding emit
  accepted-Emits true r g h out s e = h out s e
  accepted-Emits false r g h out s e = ap (λ (t : List ℕ). emit putchar t s) (ok_injective e)

  -- When the kernel's `kprintf` prints `out` for a format, arguments and what the buffer of numbers
  -- holds, `printf` of the user library makes exactly the calls of `putchar` for the bytes of `out`,
  -- in their order, whatever `putchar` does: it ends as these calls end.
  pub printf-emit :
      (format : List ℕ) (args : List Argument) (num_str out : List ℕ) (s : S)
      → kprintf format args num_str ≡ ok out
      → printf putchar format args num_str s ≡ emit putchar out s
  unfolding kprintf printf emit
  printf-emit format args num_str =
      copy-Emits (check_format_str format) _ _ _ (check_format_str-agrees format) (λ good.
        accepted-Emits good _ _ (printf_loop-Emits (suc (length format)) format b' ' args num_str))
