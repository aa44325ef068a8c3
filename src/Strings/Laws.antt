-- ===== src/Strings/Laws.antt =====
-- The functions of lib/std/strings.c on strings that end.
use tupix.Base.{
  All, List, [], arith, length, refl, suc, zero, ℕ, ◌++◌, ◌+◌, ◌<◌, ◌^◌, ◌∷◌, ◌≡◌, ◌≢◌,
}
use tupix.Base.Result.{ok}
use tupix.Strings.{kstrlen, fill_zeros, kstrncpy, kstrlen_from}

-- The bytes of a string have no NUL among them.
abbrev pub IsText : List ℕ → Type 0
IsText = All (λ c. c ≢ 0)

kstrlen_from_lem :
    (len : ℕ) (s after : List ℕ)
    → IsText s
    → len + length s < 2 ^ 32
    → kstrlen_from len (s ++ 0 ∷ after) ≡ ok (len + length s)
unfolding kstrlen_from
kstrlen_from_lem len [] after h b = ground arith
kstrlen_from_lem len (c ∷ s) after h b = ground (arith, h.0, kstrlen_from_lem (len + 1) s after h.1)

-- `kstrlen` counts the bytes before the NUL, when there are less than 2 ^ 32.
pub kstrlen_lem :
    (s after : List ℕ) → IsText s → length s < 2 ^ 32 → kstrlen (s ++ 0 ∷ after) ≡ ok (length s)
unfolding kstrlen
kstrlen_lem s after h b = ground (arith, kstrlen_from_lem 0 s after h)

-- The first `n` bytes of a string, with NULs behind it.
unfoldable pub padded : ℕ → List ℕ → List ℕ
padded zero s = []
padded (suc n) [] = 0 ∷ padded n []
padded (suc n) (c ∷ s) = c ∷ padded n s

fill_zeros_lem :
    (dest after : List ℕ)
    → fill_zeros (dest ++ after) (length dest) ≡ ok (padded (length dest) [] ++ after)
unfolding fill_zeros padded
fill_zeros_lem [] after = refl
fill_zeros_lem (d ∷ dest) after = rw (fill_zeros_lem dest after) refl

-- `kstrncpy` writes the string's first bytes, `n` at most, and NULs up to `n`, and leaves the bytes
-- after them; `dest` holds the first `n` bytes of the destination.
pub kstrncpy_lem :
    (dest after s rest : List ℕ)
    → IsText s
    → kstrncpy (dest ++ after) (s ++ 0 ∷ rest) (length dest) ≡ ok (padded (length dest) s ++ after)
unfolding kstrncpy fill_zeros padded
kstrncpy_lem [] after s rest h = refl
kstrncpy_lem (d ∷ dest) after [] rest h = fill_zeros_lem (d ∷ dest) after
kstrncpy_lem (d ∷ dest) after (c ∷ s) rest h =
    ground (arith, h.0, kstrncpy_lem dest after s rest h.1)
