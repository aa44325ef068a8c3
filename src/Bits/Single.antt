-- ===== src/Bits/Single.antt =====
-- The macros of include/std/bits.h, bit by bit.
use tupix.Base.{
  ap, arith, bit_and, bit_or, if◌then◌else◌, max, min, refl, suc, sym, zero, ℕ, ◌%◌, ◌-◌, ◌/◌, ◌<◌,
  ◌==◌, ◌^◌, ◌∙◌, ◌≡◌,
}
use tupix.Bits.Laws.{bit_or_halves, bit_and_halves}
use tupix.Bits.Low.{clear_bit_lem}
use tupix.Bits.{set_bit, clear_bit}
use native.Mathlib.Nat.{
  pow-le-pow_right, div-eq_of_lt, div-div-eq-div-mul, pow-succ', pow-suc, one-le-pow,
}

-- Bit `i` of a word.
abbrev pub bit_at : ℕ → ℕ → ℕ
bit_at word i = word / 2 ^ i % 2

pub bit_suc : (word i : ℕ) → bit_at word (suc i) ≡ bit_at (word / 2) i
bit_suc word i =
    ap (λ (t : ℕ). t % 2)
      (sym (div-div-eq-div-mul word 2 (2 ^ i) ∙ ap (λ (t : ℕ). word / t) (sym (pow-succ' 2 i))))

pub bit_or-bit : (i a b : ℕ) → bit_at (bit_or a b) i ≡ max (bit_at a i) (bit_at b i)
bit_or-bit zero a b = omega (arith, bit_or_halves a b)
bit_or-bit (suc i) a b =
    let half : bit_or a b / 2 ≡ bit_or (a / 2) (b / 2) = omega (arith, bit_or_halves a b) in
    rw (bit_suc (bit_or a b) i, bit_suc a i, bit_suc b i, half) (bit_or-bit i (a / 2) (b / 2))

pub bit_and-bit : (i a b : ℕ) → bit_at (bit_and a b) i ≡ min (bit_at a i) (bit_at b i)
bit_and-bit zero a b = omega (arith, bit_and_halves a b)
bit_and-bit (suc i) a b =
    let half : bit_and a b / 2 ≡ bit_and (a / 2) (b / 2) = omega (arith, bit_and_halves a b) in
    rw (bit_suc (bit_and a b) i, bit_suc a i, bit_suc b i, half) (bit_and-bit i (a / 2) (b / 2))

pub power_bit : (b i : ℕ) → bit_at (2 ^ b) i ≡ (if b == i then 1 else 0)
power_bit zero zero = refl
power_bit zero (suc i) =
    let gone : 1 / 2 ^ suc i ≡ 0 =
      div-eq_of_lt {n = 1} {m = 2 ^ suc i} (omega (arith, pow-suc 2 i, one-le-pow i 2)) in
    rw gone (ground arith)
power_bit (suc b) zero = let first : 2 ^ 0 ≡ 1 = refl in grind (arith, pow-suc 2 b)
power_bit (suc b) (suc i) =
    let half : 2 ^ suc b / 2 ≡ 2 ^ b = omega (arith, pow-suc 2 b) in
    rw (bit_suc (2 ^ suc b) i, half) (ground (arith, power_bit b i))

complement_bit :
    (k i word : ℕ) → i < k → word < 2 ^ k → bit_at (2 ^ k - 1 - word) i ≡ 1 - bit_at word i
complement_bit zero i word h b = absurd (omega arith)
complement_bit (suc k) zero word h b = omega (arith, pow-suc 2 k)
complement_bit (suc k) (suc i) word h b =
    let half : (2 ^ suc k - 1 - word) / 2 ≡ 2 ^ k - 1 - word / 2 = omega (arith, pow-suc 2 k) in
    rw (bit_suc (2 ^ suc k - 1 - word) i, bit_suc word i, half)
      (complement_bit k i (word / 2) (omega arith) (omega (arith, pow-suc 2 k)))

pub set_bit-bit :
    (word b i : ℕ) → b < 32 → bit_at (set_bit word b) i ≡ (if b == i then 1 else bit_at word i)
unfolding set_bit
set_bit-bit word b i h = ground (arith, bit_or-bit i word (2 ^ b), power_bit b i)

pub clear_bit-bit :
    (word b i : ℕ)
    → b < 32
    → i < 32
    → bit_at (clear_bit word b) i ≡ (if b == i then 0 else bit_at word i)
clear_bit-bit word b i h l =
    let small : 2 ^ b < 2 ^ 32 = omega (
      arith,
      pow-le-pow_right {n = 2} (omega arith) {i = suc b} {j = 32} h,
      pow-suc 2 b,
      one-le-pow b 2,
    ) in
    rw (clear_bit_lem word b h) (
      ground (
        arith,
        bit_and-bit i word (2 ^ 32 - 1 - 2 ^ b),
        complement_bit 32 i (2 ^ b) l small,
        power_bit b i,
      ))
