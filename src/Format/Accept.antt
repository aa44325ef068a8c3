-- ===== src/Format/Accept.antt =====
-- What `check_format_str` of lib/std/io.c accepts is a format of the grammar.
use tupix.Base.{
  ==_iff, All, Bool, Bool-cases, List, Option, [], ap, append_assoc, arith, false, inl, inr, none,
  refl, some, subst, sym, true, ℕ, ◌++◌, ◌==◌, ◌↔◌, ◌∙◌, ◌∷◌, ◌≡◌,
}
use tupix.Format.Check.{scan_step, check_format_str-render, flags_step}
use tupix.Format.Grammar.{
  directive, IsPiece, Piece, letter, check_by, conversion_of, check_conversion-check_by,
  conversion_of-some, takes_flags, Conversion, render, IsDigit, literal,
}
use tupix.Base.Result.{ok, Result}
use tupix.Format.{check_conversion, check_format_str, is_digit, check_flags}

-- A string that is a format, and what lies behind its NUL.
pub record Accepted (str : List ℕ) : Type 0 where
  pub pieces : List Piece
  pub after : List ℕ
  pub pieces_good : All IsPiece pieces
  pub form : str ≡ render pieces ++ 0 ∷ after

-- The same behind a `%`.
record AcceptedFlags (repeat : Bool) (str : List ℕ) : Type 0 where
  flags : List ℕ
  conversion : Conversion
  rest : List ℕ
  flags_good : All IsDigit flags
  allowed : takes_flags conversion ≡ false → (repeat ≡ false) × (flags ≡ [])
  accepted : Accepted rest
  form : str ≡ flags ++ letter conversion ∷ rest

-- A character that the `switch` lets pass.
record Passes (c : ℕ) (repeat : Bool) (scan : Result Bool) : Type 0 where
  conversion : Conversion
  is_letter : c ≡ letter conversion
  allowed : takes_flags conversion ≡ false → repeat ≡ false
  scanned : scan ≡ ok true

check_by-Passes :
    (c : ℕ) (k : Option Conversion) (repeat : Bool) (scan : Result Bool)
    → conversion_of c ≡ k
    → check_by k repeat scan ≡ ok true
    → Passes c repeat scan
unfolding check_by
check_by-Passes c none repeat scan e h = absurd (cc)
check_by-Passes c (some k) repeat scan e h = record {
  conversion = k;
  is_letter = conversion_of-some c k e;
  allowed = λ t. ground (arith, h, t);
  scanned = ground (arith, h);
}

check_conversion-Passes :
    (c : ℕ) (repeat : Bool) (scan : Result Bool)
    → check_conversion c repeat scan ≡ ok true
    → Passes c repeat scan
check_conversion-Passes c repeat scan h =
    check_by-Passes c (conversion_of c) repeat scan refl
      (sym (check_conversion-check_by c repeat scan) ∙ h)

directive-Accepted : (str : List ℕ) → AcceptedFlags false str → Accepted (b'%' ∷ str)
unfolding render
directive-Accepted str f = record {
  pieces = directive f.flags f.conversion ∷ f.accepted.pieces;
  after = f.accepted.after;
  pieces_good = ((f.flags_good, λ t. (f.allowed t).1), f.accepted.pieces_good);
  form =
      ap (λ t. b'%' ∷ t)
        (f.form
          ∙ ap (λ t. f.flags ++ letter f.conversion ∷ t) f.accepted.form
          ∙ sym (
              append_assoc f.flags (letter f.conversion ∷ render f.accepted.pieces)
                (0 ∷ f.accepted.after)));
}

literal-Accepted :
    (c : ℕ) (str : List ℕ)
    → (c == 0) ≡ false
    → (c == b'%') ≡ false
    → Accepted str
    → Accepted (c ∷ str)
unfolding render
literal-Accepted c str zero_test percent_test a = record {
  pieces = literal c ∷ a.pieces;
  after = a.after;
  pieces_good = ((ground (arith, zero_test), ground (arith, percent_test)), a.pieces_good);
  form = ap (λ t. c ∷ t) a.form;
}

end-Accepted : (c : ℕ) (str : List ℕ) → (c == 0) ≡ true → Accepted (c ∷ str)
unfolding render
end-Accepted c str e = record {
  pieces = [];
  after = str;
  pieces_good = tt;
  form = ap (λ t. t ∷ str) ((==_iff c 0).0 e);
}

digit-AcceptedFlags :
    (repeat : Bool) (c : ℕ) (str : List ℕ)
    → is_digit c ≡ true
    → AcceptedFlags true str
    → AcceptedFlags repeat (c ∷ str)
digit-AcceptedFlags repeat c str d f = record {
  flags = c ∷ f.flags;
  conversion = f.conversion;
  rest = f.rest;
  flags_good = (d, f.flags_good);
  allowed = λ t. absurd (cc ((f.allowed t).0));
  accepted = f.accepted;
  form = ap (λ t. c ∷ t) f.form;
}

letter-AcceptedFlags :
    (repeat : Bool) (c : ℕ) (str : List ℕ) (scan : Result Bool)
    → Passes c repeat scan
    → Accepted str
    → AcceptedFlags repeat (c ∷ str)
letter-AcceptedFlags repeat c str scan p a = record {
  flags = [];
  conversion = p.conversion;
  rest = str;
  flags_good = tt;
  allowed = λ t. (p.allowed t, refl);
  accepted = a;
  form = ap (λ t. t ∷ str) p.is_letter;
}

mutual
  unfolding check_format_str check_flags

  scan_accepts : (str : List ℕ) → check_format_str str ≡ ok true → Accepted str
  scan_accepts [] h = absurd (cc)
  scan_accepts (c ∷ str) h = elim (Bool-cases (c == 0)) [
    | inl e ↦ end-Accepted c str e
    | inr ne ↦ elim (Bool-cases (c == b'%')) [
      | inl e ↦
          let same : c ≡ b'%' = (==_iff c b'%').0 e in
          subst (λ x. Accepted (x ∷ str)) (sym same)
            (directive-Accepted str
              (flags_accept false str (ground (arith, scan_step c str, h, ne, e))))
      | inr ne' ↦
          literal-Accepted c str ne ne'
            (scan_accepts str (ground (arith, scan_step c str, h, ne, ne')))
    ]
  ]

  flags_accept :
      (repeat : Bool) (str : List ℕ) → check_flags repeat str ≡ ok true → AcceptedFlags repeat str
  flags_accept repeat [] h = absurd (cc)
  flags_accept repeat (c ∷ str) h = elim (Bool-cases (is_digit c)) [
    | inl d ↦
        digit-AcceptedFlags repeat c str d
          (flags_accept true str (ground (arith, flags_step repeat c str, h, d)))
    | inr nd ↦
        let p =
          check_conversion-Passes c repeat (check_format_str str)
            (ground (arith, flags_step repeat c str, h, nd)) in
        letter-AcceptedFlags repeat c str (check_format_str str) p (scan_accepts str p.scanned)
  ]

-- A string is accepted exactly when it is a format of the grammar: characters other than `%` that
-- stand for themselves, and directives of digits and a letter, without digits before `c` and `%`;
-- then a NUL.
pub check_format_str_iff : (str : List ℕ) → (check_format_str str ≡ ok true) ↔ Accepted str
check_format_str_iff str = (
  λ h. scan_accepts str h,
  λ a. ap check_format_str a.form ∙ check_format_str-render a.pieces a.after a.pieces_good,
)
