-- ===== src/User/Check/Width.antt =====
-- `calc_field_width` of the user library, against the kernel's.
use tupix.Base.Chains.{bind_agrees, ok_injective, regroup, split_bind}
use tupix.Base.Result.{Result, ok, ◌>>=◌}
use tupix.Base.{
  List, [], ap, append_assoc, drop, drop-append, length, refl, suc, sym, u32, ℕ, ◌*◌, ◌++◌, ◌+◌,
  ◌-◌, ◌∙◌, ◌∷◌, ◌≡◌, Bool, true, false,
}
use tupix.Format
use tupix.Format.Width.{length-reverse}
use tupix.Format.{FieldWidth, byte_at, digits_at, is_digit, number_at, weigh}
use tupix.User.Check.{calc_field_width, count_digits, walk_back, width_at}
use mathlib.Core.List.{reverse, reverse-cons, reverse-reverse}

walk_back-weigh :
    (ds rest : List ℕ) (power width : ℕ)
    → walk_back (reverse ds ++ rest) (length ds) power width ≡ ok (weigh ds power width)
unfolding walk_back weigh byte_at
walk_back-weigh [] rest power width = refl
walk_back-weigh (c ∷ ds) rest power width =
    let here : reverse (c ∷ ds) ++ rest ≡ reverse ds ++ c ∷ rest =
      ap (λ l. l ++ rest) (reverse-cons c ds) ∙ append_assoc (reverse ds) (c ∷ []) rest in
    let found : drop (length ds) (reverse ds ++ c ∷ rest) ≡ c ∷ rest =
      ap (λ n. drop n (reverse ds ++ c ∷ rest)) (sym (length-reverse ds))
      ∙ drop-append (reverse ds) (c ∷ rest) in
    ap (λ l. walk_back l (suc (length ds)) power width) here
    ∙ ap
        (λ l. byte_at l >>= λ c'.
          walk_back (reverse ds ++ c ∷ rest) (length ds) (u32 (power * 10))
            (u32 (width + u32 (power * (c' - b'0')))))
        found
    ∙ walk_back-weigh ds (c ∷ rest) (u32 (power * 10)) (u32 (width + u32 (power * (c - b'0'))))

count_round :
    (digit : Bool) (c : ℕ) (counted : Result ℕ) (digits : Result (List ℕ))
    → counted ≡ (digits >>= λ ds. ok (length ds))
    → (elim digit [ true ↦ counted >>= λ n. ok (suc n) | false ↦ ok 0 ]) ≡ (
        (elim digit [ true ↦ digits >>= λ ds. ok (c ∷ ds) | false ↦ ok [] ]) >>= λ ds.
        ok (length ds))
count_round true c counted digits h =
    ap (λ r. r >>= λ n. ok (suc n)) h
    ∙ regroup digits (λ ds. ok (length ds)) (λ n. ok (suc n))
    ∙ sym (regroup digits (λ ds. ok (c ∷ ds)) (λ ds. ok (length ds)))
count_round false c counted digits h = refl

count_digits-length : (str : List ℕ) → count_digits str ≡ (digits_at str >>= λ ds. ok (length ds))
unfolding count_digits digits_at
count_digits-length [] = refl
count_digits-length (c ∷ str) =
    count_round (is_digit c) c (count_digits str) (digits_at str) (count_digits-length str)

prefix_round :
    (digit : Bool) (c : ℕ) (str ds : List ℕ) (digits : Result (List ℕ))
    → ((ds : List ℕ) → digits ≡ ok ds → (rest : List ℕ) × (str ≡ ds ++ rest))
    → (elim digit [ true ↦ digits >>= λ ds. ok (c ∷ ds) | false ↦ ok [] ]) ≡ ok ds
    → (rest : List ℕ) × (c ∷ str ≡ ds ++ rest)
prefix_round true c str ds digits h e =
    let (ds', found, all) = split_bind digits (λ ds. ok (c ∷ ds)) ds e in
    let (rest, parts) = h ds' found in
    (rest, ap (λ l. c ∷ l) parts ∙ ap (λ l. l ++ rest) (ok_injective all))
prefix_round false c str ds digits h e = (c ∷ str, ap (λ l. l ++ c ∷ str) (ok_injective e))

digits_at_prefix : (str ds : List ℕ) → digits_at str ≡ ok ds → (rest : List ℕ) × (str ≡ ds ++ rest)
unfolding digits_at
digits_at_prefix [] ds h = absurd (cc h)
digits_at_prefix (c ∷ str) ds h =
    prefix_round (is_digit c) c str ds (digits_at str) (digits_at_prefix str) h

-- The walk back over the digits weighs them in the order of `weigh`.
walk_back-digits :
    (beg ds : List ℕ)
    → digits_at beg ≡ ok ds
    → walk_back beg (length ds) 1 0 ≡ ok (weigh (reverse ds) 1 0)
walk_back-digits beg ds h =
    let (rest, parts) = digits_at_prefix beg ds h in
    ap (λ l. walk_back l (length ds) 1 0) (parts ∙ ap (λ l. l ++ rest) (sym (reverse-reverse ds)))
    ∙ ap (λ n. walk_back (reverse (reverse ds) ++ rest) n 1 0) (sym (length-reverse ds))
    ∙ walk_back-weigh (reverse ds) rest 1 0

width_at-agrees :
    (beg : List ℕ) (padding skipped : ℕ)
    → width_at beg padding skipped ≡ number_at beg padding skipped
unfolding width_at number_at
width_at-agrees beg padding skipped =
    let field : ℕ → ℕ → FieldWidth =
      λ n w. record { padding = padding; flag_len = skipped + n; field_width = w } in
    ap (λ r. r >>= λ n. walk_back beg n 1 0 >>= λ w. ok (field n w)) (count_digits-length beg)
    ∙ regroup (digits_at beg) (λ ds. ok (length ds))
        (λ n. walk_back beg n 1 0 >>= λ w. ok (field n w))
    ∙ bind_agrees (digits_at beg) _ _
        (λ ds found. ap (λ r. r >>= λ w. ok (field (length ds) w)) (walk_back-digits beg ds found))

pub calc_field_width-agrees :
    (str : List ℕ) (padding : ℕ)
    → calc_field_width str padding ≡ Format.calc_field_width str padding
unfolding calc_field_width Format.calc_field_width
calc_field_width-agrees str padding =
    rw (width_at-agrees (drop 1 str) b'0' 1, width_at-agrees str b' ' 0) refl
