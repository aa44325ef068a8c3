-- ===== src/Bits/Laws.antt =====
-- `&` and `|` on words that are cut into a high and a low part.
use tupix.Base.{
  ap, arith, bit_and, bit_or, max, min, refl, suc, zero, ℕ, ◌%◌, ◌*◌, ◌+◌, ◌-◌, ◌/◌, ◌<◌, ◌^◌, ◌≡◌,
  ◌≤◌,
}
use Prim.Native.Nat.{bitwise, digits, bit_and-bitwise, bit_or-bitwise}
use native.Mathlib.Nat.{le_refl, pow-suc, one-le-pow}

-- The native operations mean a recursion on binary digits with fuel; here the fuel is dropped.
module _ (z : ℕ → ℕ) (f : ℕ → ℕ → ℕ) where
  digits-fuel :
      (a b : ℕ) (spare enough : ℕ)
      → a ≤ enough
      → a ≤ spare
      → digits z f spare a b ≡ digits z f enough a b
  digits-fuel zero b zero zero h g = refl
  digits-fuel zero b zero (suc enough) h g = refl
  digits-fuel zero b (suc spare) zero h g = refl
  digits-fuel zero b (suc spare) (suc enough) h g = refl
  digits-fuel (suc a) b zero enough h g = absurd (omega arith)
  digits-fuel (suc a) b (suc spare) zero h g = absurd (omega arith)
  digits-fuel (suc a) b (suc spare) (suc enough) h g =
      ap (λ t. t * 2 + f (suc a % 2) (b % 2))
        (digits-fuel (suc a / 2) (b / 2) spare enough (omega arith) (omega arith))

  bitwise_halves :
      (a b : ℕ)
      → bitwise z f (suc a) b ≡ bitwise z f (suc a / 2) (b / 2) * 2 + f (suc a % 2) (b % 2)
  bitwise_halves a b =
      omega (arith, digits-fuel (suc a / 2) (b / 2) a (suc a / 2) (le_refl _) (omega arith))

pub bit_or_halves : (a b : ℕ) → bit_or a b ≡ bit_or (a / 2) (b / 2) * 2 + max (a % 2) (b % 2)
bit_or_halves zero b = simp bit_or-bitwise (omega arith)
bit_or_halves (suc a) b = simp bit_or-bitwise (bitwise_halves (λ y. y) max a b)

pub bit_and_halves : (a b : ℕ) → bit_and a b ≡ bit_and (a / 2) (b / 2) * 2 + min (a % 2) (b % 2)
bit_and_halves zero b = simp bit_and-bitwise (omega arith)
bit_and_halves (suc a) b = simp bit_and-bitwise (bitwise_halves (λ y. 0) min a b)

double_shift : (q k : ℕ) → q * 2 ^ suc k ≡ 2 * (q * 2 ^ k)
double_shift q k = omega (arith, ap (λ (t : ℕ). q * t) (pow-suc 2 k))

-- Words of a high part and `k` low bits are joined part by part.
pub bit_or_parts :
    (k a b c d : ℕ)
    → b < 2 ^ k
    → d < 2 ^ k
    → bit_or (a * 2 ^ k + b) (c * 2 ^ k + d) ≡ bit_or a c * 2 ^ k + bit_or b d
bit_or_parts zero a b c d hb hd =
    let none_left : (b ≡ 0) × (d ≡ 0) = omega arith in rw (none_left.0, none_left.1) (ground arith)
bit_or_parts (suc k) a b c d hb hd = ground (
  arith,
  bit_or_halves (a * 2 ^ suc k + b) (c * 2 ^ suc k + d),
  bit_or_halves b d,
  double_shift a k,
  double_shift c k,
  double_shift (bit_or a c) k,
  pow-suc 2 k,
  bit_or_parts k a (b / 2) c (d / 2) (omega arith) (omega arith),
)

pub bit_and_parts :
    (k a b c d : ℕ)
    → b < 2 ^ k
    → d < 2 ^ k
    → bit_and (a * 2 ^ k + b) (c * 2 ^ k + d) ≡ bit_and a c * 2 ^ k + bit_and b d
bit_and_parts zero a b c d hb hd =
    let none_left : (b ≡ 0) × (d ≡ 0) = omega arith in rw (none_left.0, none_left.1) (ground arith)
bit_and_parts (suc k) a b c d hb hd = ground (
  arith,
  bit_and_halves (a * 2 ^ suc k + b) (c * 2 ^ suc k + d),
  bit_and_halves b d,
  double_shift a k,
  double_shift c k,
  double_shift (bit_and a c) k,
  pow-suc 2 k,
  bit_and_parts k a (b / 2) c (d / 2) (omega arith) (omega arith),
)

-- `|` with zero, and `&` with ones, keep a word.
pub bit_or-zero : (n a : ℕ) → a ≤ n → bit_or a 0 ≡ a
bit_or-zero zero a h = let e : a ≡ 0 = omega arith in rw e refl
bit_or-zero (suc n) zero h = refl
bit_or-zero (suc n) (suc a) h =
    omega (arith, bit_or_halves (suc a) 0, bit_or-zero n (suc a / 2) (omega arith))

pub bit_and-ones : (k a : ℕ) → a < 2 ^ k → bit_and a (2 ^ k - 1) ≡ a
bit_and-ones zero a h = let e : a ≡ 0 = omega arith in rw e refl
bit_and-ones (suc k) a h = ground (
  arith,
  bit_and_halves a (2 ^ suc k - 1),
  pow-suc 2 k,
  one-le-pow k 2,
  bit_and-ones k (a / 2) (omega (arith, pow-suc 2 k)),
)
