-- ===== src/Strings.antt =====
-- lib/std/strings.c. A pointer to characters is the list of the bytes from there on; an access past
-- its end faults.
pub mod Laws
use tupix.Base.{List, [], if◌then◌else◌, suc, u32, zero, ℕ, ◌+◌, ◌==◌, ◌∷◌}
use tupix.Base.Result.{ok, Result, ◌>>=◌, faulted}
use Prim.Native.Char.{code}
use Prim.Native.String.{String}

-- The bytes of a literal, less the NUL behind it.
abbrev pub codes : String → List ℕ
codes String.[] = []
codes (String.◌∷◌ c s) = code c ∷ codes s

-- The loop of `kstrlen`, with the length so far.
unfoldable pub kstrlen_from : ℕ → List ℕ → Result ℕ
kstrlen_from len [] = faulted
kstrlen_from len (c ∷ str) =
    let rest = kstrlen_from (u32 (len + 1)) str in if c == 0 then ok len else rest

unfoldable pub kstrlen : List ℕ → Result ℕ
kstrlen str = kstrlen_from 0 str

-- The second loop of `kstrncpy`, with `n` bytes left.
unfoldable pub fill_zeros : List ℕ → ℕ → Result (List ℕ)
fill_zeros dest zero = ok dest
fill_zeros [] (suc n) = faulted
fill_zeros (d ∷ dest) (suc n) = fill_zeros dest n >>= λ rest. ok (0 ∷ rest)

-- `kstrncpy`, from its first loop on. The result is what `dest` holds then.
unfoldable pub kstrncpy : List ℕ → List ℕ → ℕ → Result (List ℕ)
kstrncpy dest src zero = ok dest
kstrncpy dest [] (suc n) = faulted
kstrncpy [] (c ∷ src) (suc n) = faulted
kstrncpy (d ∷ dest) (c ∷ src) (suc n) =
    let rest = kstrncpy dest src n >>= λ copied. ok (c ∷ copied) in
    if c == 0 then fill_zeros (d ∷ dest) (suc n) else rest
