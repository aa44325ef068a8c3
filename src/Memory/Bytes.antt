-- ===== src/Memory/Bytes.antt =====
-- lib/std/mem.c on the bytes that a pointer designates.
use tupix.Base.{List, [], length, refl, replicate, suc, zero, ℕ, ◌++◌, ◌∷◌, ◌≡◌, ap}
use tupix.Base.Result.{Result, faulted, ok, ◌>>=◌}

-- The loop of `memset`, with `n` bytes left.
unfoldable pub memset : List ℕ → ℕ → ℕ → Result (List ℕ)
memset mem val zero = ok mem
memset [] val (suc n) = faulted
memset (m ∷ mem) val (suc n) = memset mem val n >>= λ rest. ok (val ∷ rest)

-- It sets the first bytes and leaves those behind them.
memset_lem :
    (before after : List ℕ) (val : ℕ)
    → memset (before ++ after) val (length before) ≡ ok (replicate (length before) val ++ after)
unfolding memset
memset_lem [] after val = refl
memset_lem (m ∷ before) after val =
    ap (λ (r : Result (List ℕ)). r >>= λ rest. ok (val ∷ rest)) (memset_lem before after val)
