-- ===== src/User/Arguments.antt =====
-- The `switch` of `printf` of the user library, against the one of `kprintf`.
use tupix.Base.{
  Bool, ◌%◌, ◌^◌, ◌||◌, List, [], drop, sub32, if◌then◌else◌, ℕ, ◌++◌, ◌∷◌, ◌≡◌, ap, refl, sym, ◌∙◌,
  ◌==◌, true, false,
}
use tupix.Base.Result.{Result, from_option, ok, ◌>>=◌, panicked, halted, faulted, timeout}
use tupix.Format.{
  Argument, Converted, FieldWidth, convert, kprint, print_with_padding, print_unsigned, print_text,
  print_signed, byte_at, va_word, va_text, width_behind_sign,
}
use tupix.Numbers.{kitostr, kutostr}
use tupix.Strings.{codes, kstrlen}
use tupix.User.Util.Agree.{itostr-agrees, strlen-agrees, utostr-agrees}
use tupix.User.{print, print_padded, put_argument, put_signed, put_text, put_unsigned}
use tupix.Base.Chains.{regroup, bind_each, ok_injective, split_bind}
use tupix.User.Output.{emit, emit-append, print-emit, print_padded-emit}

module _ {S : Type 0} (putchar : ℕ → S → Result S) where
  -- When `r` returns bytes, `g` passes them to `putchar` and returns with the same rest.
  abbrev pub Follows : Result Converted → (S → Result (S × List Argument × List ℕ)) → Type 0
  Follows r g =
      (v : Converted) (s : S) → r ≡ ok v → g s ≡ (emit putchar v.0 s >>= λ s'. ok (s', v.1, v.2))

  bind-Follows :
      {A : Type 0} (m : Result A) (f : A → Result Converted)
      (g : A → S → Result (S × List Argument × List ℕ))
      → ((a : A) → Follows (f a) (g a))
      → Follows (m >>= f) (λ s. m >>= λ a. g a s)
  bind-Follows (ok a) f g h v s e = h a v s e
  bind-Follows panicked f g h v s e = absurd (cc e)
  bind-Follows halted f g h v s e = absurd (cc e)
  bind-Follows faulted f g h v s e = absurd (cc e)
  bind-Follows timeout f g h v s e = absurd (cc e)

  -- The same where `g` takes a step that agrees with the one of `r`.
  copy-Follows :
      {A : Type 0} (m m' : Result A) (f : A → Result Converted)
      (g : A → S → Result (S × List Argument × List ℕ))
      → m' ≡ m
      → ((a : A) → Follows (f a) (g a))
      → Follows (m >>= f) (λ s. m' >>= λ a. g a s)
  copy-Follows m m' f g same h v s e = ap (λ r. r >>= λ a. g a s) same ∙ bind-Follows m f g h v s e

  print_padded-Follows :
      (str : List ℕ) (len width padding : ℕ) (args : List Argument) (num_str : List ℕ)
      → Follows
          (print_with_padding str len width padding >>= λ out. ok (out, args, num_str))
          (λ s. print_padded putchar str len width padding s >>= λ s'. ok (s', args, num_str))
  print_padded-Follows str len width padding args num_str v s e =
      let (out, prints, all) = split_bind (print_with_padding str len width padding) _ v e in
      ap (λ (r : Result S). r >>= λ s'. ok (s', args, num_str))
        (print_padded-emit putchar str len width padding out s prints)
      ∙ ap (λ w. emit putchar w.0 s >>= λ s'. ok (s', w.1, w.2)) (ok_injective all)

  put_unsigned-Follows :
      (base : ℕ) (w : FieldWidth) (args : List Argument) (num_str : List ℕ)
      → Follows (print_unsigned base w args num_str) (put_unsigned putchar base w args num_str)
  unfolding print_unsigned put_unsigned
  put_unsigned-Follows base w args num_str = bind-Follows (va_word args) _ _ (λ r.
      copy-Follows (kutostr r.0 base num_str) _ _ _ (utostr-agrees r.0 base num_str) (λ t.
        bind-Follows (from_option t.len) _ _
          (λ len. print_padded-Follows t.str len w.field_width w.padding r.1 t.str)))

  put_text-Follows :
      (w : FieldWidth) (args : List Argument) (num_str : List ℕ)
      → Follows (print_text w args num_str) (put_text putchar w args num_str)
  unfolding print_text put_text
  put_text-Follows w args num_str = bind-Follows (va_text args) _ _ (λ r.
      copy-Follows (kstrlen r.0) _ _ _ (strlen-agrees r.0)
        (λ len. print_padded-Follows r.0 len w.field_width w.padding r.1 num_str))

  sign-Follows :
      (negative : Bool) (str : List ℕ) (len width padding : ℕ) (args : List Argument)
      (num_str : List ℕ)
      → Follows
          (print_with_padding str len width padding >>= λ out.
            ok (if negative then b'-' ∷ out else out, args, num_str))
          (λ s. (if negative then putchar b'-' s else ok s) >>= λ s'.
            print_padded putchar str len width padding s' >>= λ s''. ok (s'', args, num_str))
  unfolding emit
  sign-Follows false str len width padding args num_str v s e =
      print_padded-Follows str len width padding args num_str v s e
  sign-Follows true str len width padding args num_str v s e =
      let (out, prints, all) = split_bind (print_with_padding str len width padding) _ v e in
      bind_each (putchar b'-' s) _ _ (λ s'.
        print_padded-Follows str len width padding args num_str (out, args, num_str) s'
          (ap (λ r. r >>= λ o. ok (o, args, num_str)) prints))
      ∙ sym (regroup (putchar b'-' s) (emit putchar out) (λ s'. ok (s', args, num_str)))
      ∙ ap (λ (w : Converted). emit putchar w.0 s >>= λ s'. ok (s', w.1, w.2)) (ok_injective all)

  put_signed-Follows :
      (w : FieldWidth) (args : List Argument) (num_str : List ℕ)
      → Follows (print_signed w args num_str) (put_signed putchar w args num_str)
  unfolding print_signed put_signed
  put_signed-Follows w args num_str = bind-Follows (va_word args) _ _ (λ r.
      copy-Follows (kitostr r.0 10 num_str) _ _ _ (itostr-agrees r.0 10 num_str) (λ t.
        bind-Follows (from_option t.len) _ _ (λ len. bind-Follows (byte_at t.str) _ _ (λ first.
          let offset : ℕ = if first == b'-' then 1 else 0 in
          sign-Follows (first == b'-') (drop offset t.str) (sub32 len offset)
            (width_behind_sign w.field_width offset) w.padding r.1 t.str))))

  if-Follows :
      (b : Bool) (r r' : Result Converted) (g g' : S → Result (S × List Argument × List ℕ))
      → Follows r g
      → Follows r' g'
      → Follows (if b then r else r') (λ s. if b then g s else g' s)
  if-Follows true r r' g g' h h' v s e = h v s e
  if-Follows false r r' g g' h h' v s e = h' v s e

  byte-Follows :
      (c : ℕ) (args : List Argument) (num_str : List ℕ)
      → Follows (ok (c ∷ [], args, num_str)) (λ s. putchar c s >>= λ s'. ok (s', args, num_str))
  unfolding emit
  byte-Follows c args num_str v s e =
      sym (regroup (putchar c s) ok (λ s'. ok (s', args, num_str)))
      ∙ ap (λ (w : Converted). emit putchar w.0 s >>= λ s'. ok (s', w.1, w.2)) (ok_injective e)

  pointer-Follows :
      (w : FieldWidth) (args : List Argument) (num_str : List ℕ)
      → Follows
          (print_unsigned 16 w args num_str >>= λ (out, args, num_str).
            ok (b'0' ∷ b'x' ∷ out, args, num_str))
          (λ s. print putchar (codes "0x" ++ 0 ∷ []) s >>= put_unsigned putchar 16 w args num_str)
  unfolding kprint
  pointer-Follows w args num_str v s e =
      let (u, prints, all) = split_bind (print_unsigned 16 w args num_str) _ v e in
      let prefix : List ℕ = b'0' ∷ b'x' ∷ [] in
      ap (λ (r : Result S). r >>= put_unsigned putchar 16 w args num_str)
        (print-emit putchar (codes "0x" ++ 0 ∷ []) prefix s refl)
      ∙ bind_each (emit putchar prefix s) _ _
          (λ s'. put_unsigned-Follows 16 w args num_str u s' prints)
      ∙ sym (regroup (emit putchar prefix s) (emit putchar u.0) (λ s'. ok (s', u.1, u.2)))
      ∙ ap (λ (r : Result S). r >>= λ s'. ok (s', u.1, u.2))
          (sym (emit-append putchar prefix u.0 s))
      ∙ ap (λ (w : Converted). emit putchar w.0 s >>= λ s'. ok (s', w.1, w.2)) (ok_injective all)

  pub put_argument-Follows :
      (c : ℕ) (w : FieldWidth) (args : List Argument) (num_str : List ℕ)
      → Follows (convert c w args num_str) (put_argument putchar c w args num_str)
  unfolding convert put_argument emit
  put_argument-Follows c w args num_str =
      if-Follows (c == b'c') _ _ _ _
        (bind-Follows (va_word args) _ _ (λ r. byte-Follows (r.0 % 2 ^ 8) r.1 num_str))
        (if-Follows (c == b's') _ _ _ _ (put_text-Follows w args num_str) (
          if-Follows (c == b'x') _ _ _ _ (put_unsigned-Follows 16 w args num_str) (
            if-Follows (c == b'd' || c == b'i') _ _ _ _ (put_signed-Follows w args num_str) (
              if-Follows (c == b'u') _ _ _ _ (put_unsigned-Follows 10 w args num_str) (
                if-Follows (c == b'p') _ _ _ _ (pointer-Follows w args num_str) (
                  if-Follows (c == b'%') _ _ _ _ (byte-Follows b'%' args num_str) (λ v s e.
                    ap (λ (w : Converted). emit putchar w.0 s >>= λ s'. ok (s', w.1, w.2))
                      (ok_injective e))))))))
