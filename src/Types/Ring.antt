-- ===== src/Types/Ring.antt =====
-- A stretch of the ring of data/types.c: walks by `circle_forward`, and writes at its end.
use tupix.Base.{
  List, [], ap, ap₂, arith, get_or, get_or-set_ne, get_or-set_self, length, refl, set, suc, zero, ℕ,
  ◌++◌, ◌+◌, ◌-◌, ◌<◌, ◌^◌, ◌∷◌, ◌≡◌, ◌≢◌, ◌≤◌, ◌⊎◌,
}
use tupix.Types.{circle_forward}

module _ (buf : List ℕ) (size : ℕ) where
  -- The `n` entries from index `h` on, going round at `size`.
  abbrev pub window : ℕ → ℕ → List ℕ
  window h zero = []
  window h (suc n) = get_or buf h 0 ∷ window (circle_forward h size) n

  pub length-window : (h n : ℕ) → length (window h n) ≡ n
  length-window h zero = refl
  length-window h (suc n) = ap suc (length-window (circle_forward h size) n)

  -- `window` matches on `suc`, and the code tests `count` against 0.
  pub window_of_ne_zero :
      (h n : ℕ) → n ≢ 0 → window h n ≡ get_or buf h 0 ∷ window (circle_forward h size) (n - 1)
  window_of_ne_zero h zero p = absurd (p refl)
  window_of_ne_zero h (suc n) p = ap (λ k. window h (suc k)) (omega arith)

-- `i` is `n` steps after `h` in a ring of `size` entries.
abbrev pub After : ℕ → ℕ → ℕ → ℕ → Type 0
After size h n i = (i + size ≡ h + n) ⊎ (i ≡ h + n)

After-ne : (size h n i : ℕ) → suc n < size → After size h (suc n) i → i ≢ h
After-ne size h n i k a = omega arith

After-circle_forward :
    (size h n i : ℕ)
    → size < 2 ^ 31
    → h < size
    → i < size
    → After size h (suc n) i
    → After size (circle_forward h size) n i
unfolding circle_forward
After-circle_forward size h n i s hh hi a = ground arith

pub circle_forward-lt : (h size : ℕ) → 0 < size → circle_forward h size < size
unfolding circle_forward
circle_forward-lt h size p = ground arith

-- Writing just past a window extends it by what is written.
pub window-set :
    (buf : List ℕ) (size x n h i : ℕ)
    → size < 2 ^ 31
    → size ≤ length buf
    → h < size
    → i < size
    → n < size
    → After size h n i
    → window (set buf i x) size h (suc n) ≡ window buf size h n ++ (x ∷ [])
window-set buf size x zero h i s st hh hi hn a =
    let same : i ≡ h = omega arith in rw (same, get_or-set_self buf h x 0 (omega arith))
window-set buf size x (suc n) h i s st hh hi hn a =
    ap₂ ◌∷◌ (get_or-set_ne buf i h x 0 (After-ne size h n i hn a)) (
      window-set buf size x n (circle_forward h size) i s st
        (circle_forward-lt h size (omega arith)) hi (omega arith)
        (After-circle_forward size h n i s hh hi a))

pub cons_injective {ℓ} :
    {A : Type ℓ} {x y : A} {xs ys : List A} → x ∷ xs ≡ y ∷ ys → (x ≡ y) × (xs ≡ ys)
cons_injective h = (cc, cc)

-- `n` steps round the ring.
unfoldable pub advance : ℕ → ℕ → ℕ → ℕ
advance size zero p = p
advance size (suc n) p = advance size n (circle_forward p size)

pub advance-After :
    (size n h i : ℕ) → size < 2 ^ 31 → h < size → i < size → After size h n i → advance size n h ≡ i
unfolding advance
advance-After size zero h i s hh hi a = omega arith
advance-After size (suc n) h i s hh hi a =
    advance-After size n (circle_forward h size) i s (circle_forward-lt h size (omega arith)) hi
      (After-circle_forward size h n i s hh hi a)
