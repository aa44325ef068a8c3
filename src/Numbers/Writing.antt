-- ===== src/Numbers/Writing.antt =====
-- The loops of lib/std/util.c, against the digits of a number.
use tupix.Base.{
  ==_iff, Bool-cases, List, [], ap, append_assoc, arith, false, inl, inr, length, length-append,
  refl, set-append, split_last, suc, zero, ℕ, ◌%◌, ◌++◌, ◌+◌, ◌/◌, ◌<◌, ◌==◌, ◌^◌, ◌∙◌, ◌∷◌, ◌≡◌,
  ◌≤◌,
}
use tupix.Numbers.Digits.{digits, quotient_bound}
use tupix.Base.Result.{ok, ◌>>=◌}
use tupix.Numbers.{write_digits, digit_char, kcalc_digits_loop, write, write_before}

pub kcalc_digits_loop_lem :
    (fuel n base num : ℕ)
    → 2 ≤ base
    → n < 2 ^ fuel
    → num + fuel < 2 ^ 32
    → kcalc_digits_loop (suc fuel) n base num ≡ ok (num + length (digits fuel base n))
unfolding kcalc_digits_loop digits
kcalc_digits_loop_lem zero n base num b h r = ground arith
kcalc_digits_loop_lem (suc fuel) n base num b h r = ground (
  arith,
  kcalc_digits_loop_lem fuel (n / base) base (num + 1) b (quotient_bound fuel base n b h),
  length-append (digits fuel base (n / base)) (digit_char (n % base) ∷ []),
)

-- A write in the middle of a buffer.
pub write-append :
    (before : List ℕ) (x : ℕ) (after : List ℕ) (c : ℕ)
    → write (before ++ x ∷ after) (length before) c ≡ ok (before ++ c ∷ after)
unfolding write
write-append before x after c =
    ground (arith, length-append before (x ∷ after), set-append before x after c)

write_before_last :
    (before : List ℕ) (x : ℕ) (after : List ℕ) (c : ℕ)
    → write_before ((before ++ x ∷ []) ++ after) (length (before ++ x ∷ [])) c
      ≡ ok (length before, before ++ c ∷ after)
unfolding write_before
write_before_last before x after c =
    let long : length (before ++ x ∷ []) ≡ suc (length before) =
      omega (arith, length-append before (x ∷ [])) in
    rw (long, append_assoc before (x ∷ []) after, write-append before x after c) refl

-- No digit is left.
write_digits_none :
    (fuel n base : ℕ) (before after : List ℕ)
    → n ≡ 0
    → length before ≡ 0
    → write_digits (suc fuel) n base (length before) (before ++ after) ≡ ok (0, after)
unfolding write_digits
write_digits_none fuel n base [] after z l = ground arith
write_digits_none fuel n base (x ∷ before) after z l = absurd (omega arith)

digits_step :
    (fuel base n : ℕ)
    → (n == 0) ≡ false
    → digits (suc fuel) base n ≡ digits fuel base (n / base) ++ digit_char (n % base) ∷ []
unfolding digits
digits_step fuel base n more = rw more refl

write_digits_step :
    (fuel n base i : ℕ) (str : List ℕ)
    → (n == 0) ≡ false
    → write_digits (suc fuel) n base i str ≡ (
        write_before str i (digit_char (n % base)) >>= λ r.
        write_digits fuel (n / base) base r.0 r.1)
unfolding write_digits
write_digits_step fuel n base i str more = rw more refl

-- One round: the buffer up to the offset ends with the place of the last digit.
write_digits_round :
    (fuel n base x : ℕ) (before front after ds : List ℕ)
    → (n == 0) ≡ false
    → before ≡ front ++ x ∷ []
    → write_digits fuel (n / base) base (length front) (front ++ digit_char (n % base) ∷ after)
      ≡ ok (0, ds ++ digit_char (n % base) ∷ after)
    → write_digits (suc fuel) n base (length before) (before ++ after)
      ≡ ok (0, (ds ++ digit_char (n % base) ∷ []) ++ after)
write_digits_round fuel n base x before front after ds more e rest =
    rw
      (
        e,
        write_digits_step fuel n base (length (front ++ x ∷ [])) ((front ++ x ∷ []) ++ after) more,
        write_before_last front x after (digit_char (n % base)),
        append_assoc ds (digit_char (n % base) ∷ []) after,
      )
      rest

pub write_digits_lem :
    (fuel n base : ℕ) (before after : List ℕ)
    → 2 ≤ base
    → n < 2 ^ fuel
    → length before ≡ length (digits fuel base n)
    → write_digits (suc fuel) n base (length before) (before ++ after)
      ≡ ok (0, digits fuel base n ++ after)
write_digits_lem zero n base before after b h l =
    unfold digits in write_digits_none zero n base before after (omega arith) l
write_digits_lem (suc fuel) n base before after b h l = elim (Bool-cases (n == 0)) [
  | inl none_left ↦
      let gone : digits (suc fuel) base n ≡ [] = unfold digits in rw none_left refl in
      rw gone (
        write_digits_none (suc fuel) n base before after ((==_iff n 0).0 none_left)
          (l ∙ ap length gone))
  | inr more ↦
      let last_digit = digits_step fuel base n more in
      let (front, x, e, front_length) = split_last (length (digits fuel base (n / base))) before (
        omega (
          arith,
          l,
          ap length last_digit,
          length-append (digits fuel base (n / base)) (digit_char (n % base) ∷ []),
        )) in
      rw last_digit (
        write_digits_round (suc fuel) n base x before front after (digits fuel base (n / base)) more
          e
          (write_digits_lem fuel (n / base) base front (digit_char (n % base) ∷ after) b
            (quotient_bound fuel base n b h) front_length))
]
