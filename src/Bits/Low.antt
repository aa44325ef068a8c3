-- ===== src/Bits/Low.antt =====
-- The macros of include/std/bits.h on a word that is cut above `k` bits: on the low bits they keep
-- the high part.
use tupix.Base.{
  ap, arith, bit_and, bit_or, refl, suc, zero, ℕ, ◌*◌, ◌+◌, ◌-◌, ◌/◌, ◌<◌, ◌^◌, ◌≡◌, ◌≤◌,
}
use native.Mathlib.Nat.{pow-le-pow_right, le_refl}
use Prim.Native.Nat.{bit_and-bitwise, bit_or-bitwise}
use native.Mathlib.Nat.{pow-suc, one-le-pow}
use tupix.Bits.Laws.{bit_and_halves, bit_and_parts, bit_and-ones, bit_or_parts, bit_or-zero}
use tupix.Bits.{clear_bit, clear_bits, set_bit, set_bit_to}

-- `&` of two low parts stays low.
pub bit_and-bound : (n a b : ℕ) → a ≤ n → bit_and a b ≤ a
bit_and-bound zero (suc a) b h = elim h [ ]
bit_and-bound n zero b h = simp bit_and-bitwise (omega arith)
bit_and-bound (suc n) (suc a) b h =
    omega (arith, bit_and_halves (suc a) b, bit_and-bound n (suc a / 2) (b / 2) (omega arith))

bit_and-zero : (b : ℕ) → bit_and 0 b ≡ 0
bit_and-zero b = omega (arith, bit_and-bound 0 0 b (omega arith))

pub bit_and-zero_right : (n a : ℕ) → a ≤ n → bit_and a 0 ≡ 0
bit_and-zero_right zero (suc a) h = elim h [ ]
bit_and-zero_right n zero h = bit_and-zero 0
bit_and-zero_right (suc n) (suc a) h =
    omega (arith, bit_and_halves (suc a) 0, bit_and-zero_right n (suc a / 2) (omega arith))

pub zero-bit_or : (b : ℕ) → bit_or 0 b ≡ b
zero-bit_or b = simp bit_or-bitwise refl

pub clear_bit_lem :
    (word bit : ℕ) → bit < 32 → clear_bit word bit ≡ bit_and word (2 ^ 32 - 1 - 2 ^ bit)
unfolding clear_bit
clear_bit_lem word bit b = ground arith

-- A word's high part is a number of 32 - `k` bits.
module _ (k : ℕ) (full : (2 ^ (32 - k) - 1) * 2 ^ k + 2 ^ k ≡ 2 ^ 32) (cut : k ≤ 32) where
  mask_split :
      (bit : ℕ)
      → bit < k
      → 2 ^ 32 - 1 - 2 ^ bit ≡ (2 ^ (32 - k) - 1) * 2 ^ k + (2 ^ k - 1 - 2 ^ bit)
  mask_split bit b = omega (
    arith,
    full,
    pow-le-pow_right {n = 2} (omega arith) {i = suc bit} {j = k} b,
    pow-suc 2 bit,
    one-le-pow bit 2,
  )

  no_high : (n : ℕ) → 0 * 2 ^ k + n ≡ n
  no_high n = omega arith

  low_masked : (low c d : ℕ) → low < 2 ^ k → d < 2 ^ k → bit_and low (c * 2 ^ k + d) ≡ bit_and low d
  low_masked low c d l b = omega (
    arith,
    bit_and_parts k 0 low c d l b,
    ap (λ (t : ℕ). bit_and t (c * 2 ^ k + d)) (no_high low),
    ap (λ (t : ℕ). t * 2 ^ k) (bit_and-zero c),
  )

  pub clear_bit-low :
      (high low bit : ℕ)
      → high < 2 ^ (32 - k)
      → low < 2 ^ k
      → bit < k
      → clear_bit (high * 2 ^ k + low) bit ≡ high * 2 ^ k + clear_bit low bit
  clear_bit-low high low bit h l b =
      let within : 2 ^ k - 1 - 2 ^ bit < 2 ^ k = omega (arith, one-le-pow k 2) in
      rw
        (
          clear_bit_lem (high * 2 ^ k + low) bit (omega arith),
          clear_bit_lem low bit (omega arith),
          mask_split bit b,
        )
        (omega (
          arith,
          bit_and_parts k high low (2 ^ (32 - k) - 1) (2 ^ k - 1 - 2 ^ bit) l within,
          low_masked low (2 ^ (32 - k) - 1) (2 ^ k - 1 - 2 ^ bit) l within,
          ap (λ (t : ℕ). t * 2 ^ k) (bit_and-ones (32 - k) high h),
        ))

  cleared_bound : (low bit : ℕ) → low < 2 ^ k → bit < 32 → clear_bit low bit < 2 ^ k
  cleared_bound low bit l b =
      rw (clear_bit_lem low bit b)
        (omega (arith, bit_and-bound low low (2 ^ 32 - 1 - 2 ^ bit) (le_refl _)))

  pub clear_bits-low :
      (left bit high low : ℕ)
      → high < 2 ^ (32 - k)
      → low < 2 ^ k
      → bit + left ≤ k
      → (clear_bits left bit (high * 2 ^ k + low) ≡ high * 2 ^ k + clear_bits left bit low)
        × (clear_bits left bit low < 2 ^ k)
  unfolding clear_bits
  clear_bits-low zero bit high low h l b = (refl, l)
  clear_bits-low (suc left) bit high low h l b = rw (clear_bit-low high low bit h l (omega arith)) (
      clear_bits-low left (bit + 1) high (clear_bit low bit) h
        (cleared_bound low bit l (omega arith)) (omega arith))

  bit_or-low :
      (high low value : ℕ)
      → low < 2 ^ k
      → value < 2 ^ k
      → bit_or (high * 2 ^ k + low) value ≡ high * 2 ^ k + bit_or low value
  bit_or-low high low value l v = omega (
    arith,
    bit_or_parts k high low 0 value l v,
    ap (λ (t : ℕ). bit_or (high * 2 ^ k + low) t) (no_high value),
    ap (λ (t : ℕ). t * 2 ^ k) (bit_or-zero high high (le_refl _)),
  )

  pub set_bit-low :
      (high low bit : ℕ)
      → low < 2 ^ k
      → bit < k
      → set_bit (high * 2 ^ k + low) bit ≡ high * 2 ^ k + set_bit low bit
  unfolding set_bit
  set_bit-low high low bit l b = ground (
    arith,
    bit_or-low high low (2 ^ bit) l (
        omega (
          arith,
          pow-le-pow_right {n = 2} (omega arith) {i = suc bit} {j = k} b,
          pow-suc 2 bit,
          one-le-pow bit 2,
        )),
  )

  -- The value's bits end below `k`.
  pub set_bit_to-low :
      (high low bit value len : ℕ)
      → high < 2 ^ (32 - k)
      → low < 2 ^ k
      → bit < k
      → bit + len ≤ k
      → bit_and value (2 ^ len - 1) * 2 ^ bit < 2 ^ k
      → set_bit_to (high * 2 ^ k + low) bit value len ≡ high * 2 ^ k + set_bit_to low bit value len
  unfolding set_bit_to
  set_bit_to-low high low bit value len h l b e v =
      let (same, bound) = clear_bits-low len bit high low h l e in
      let fits : 2 ^ k ≤ 2 ^ 32 = omega (arith, full) in
      ground (
        arith,
        same,
        bit_or-low high (clear_bits len bit low) (bit_and value (2 ^ len - 1) * 2 ^ bit) bound v,
      )
