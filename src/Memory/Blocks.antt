-- ===== src/Memory/Blocks.antt =====
-- `memcpy` of lib/std/mem.c on a block of user memory whose addresses follow each other in the
-- physical memory too.
use tupix.Base.{
  List, [], ap, arith, get_or, length, refl, suc, u32, zero, ℕ, ◌+◌, ◌<◌, ◌^◌, ◌∙◌, ◌∷◌, ◌≡◌, ◌≤◌,
  ◌⊎◌, sym,
}
use tupix.Base.Chains.{ok_injective, split_bind}
use tupix.Base.Result.{ok}
use tupix.Kernel.{Kernel, load_process}
use tupix.Memory.{copy_in, copy_out, translate}
use tupix.Mmu.{Table, update}

-- A block of bytes from the address `a` on.
unfoldable pub write_block : Table → ℕ → List ℕ → Table
write_block memory a [] = memory
write_block memory a (b ∷ bytes) = write_block (update memory a b) (a + 1) bytes

pub write_block-outside :
    (memory : Table) (a : ℕ) (bytes : List ℕ) (x : ℕ)
    → (x < a) ⊎ (a + length bytes ≤ x)
    → write_block memory a bytes x ≡ memory x
unfolding write_block update
write_block-outside memory a [] x h = refl
write_block-outside memory a (b ∷ bytes) x h =
    write_block-outside (update memory a b) (a + 1) bytes x (omega arith) ∙ ground arith

pub write_block-inside :
    (memory : Table) (a : ℕ) (bytes : List ℕ) (j : ℕ)
    → j < length bytes
    → write_block memory a bytes (a + j) ≡ get_or bytes j 0
unfolding write_block update
write_block-inside memory a [] j h = absurd (omega arith)
write_block-inside memory a (b ∷ bytes) zero h =
    write_block-outside (update memory a b) (a + 1) bytes (a + 0) (omega arith) ∙ ground arith
write_block-inside memory a (b ∷ bytes) (suc j) h =
    ap (write_block (update memory a b) (a + 1) bytes) (omega arith)
    ∙ write_block-inside (update memory a b) (a + 1) bytes j (omega arith)

-- The addresses from `dest` on reach the physical ones from `a` on.
abbrev pub Reaches : Kernel → ℕ → ℕ → ℕ → Type 0
Reaches k dest a n = (j : ℕ) → j < n → translate k (dest + j) ≡ ok (a + j)

translate-memory :
    (k : Kernel) (memory : Table) (x : ℕ)
    → translate (record k { memory = memory }) x ≡ translate k x
unfolding translate load_process
translate-memory k memory x = refl

pub copy_out_block :
    (k : Kernel) (dest a : ℕ) (bytes : List ℕ)
    → Reaches k dest a (length bytes)
    → dest + length bytes < 2 ^ 32
    → copy_out k dest bytes ≡ ok (record k { memory = write_block k.memory a bytes })
unfolding copy_out write_block
copy_out_block k dest a [] r h = refl
copy_out_block k dest a (b ∷ bytes) r h =
    let next : u32 (dest + 1) ≡ dest + 1 = omega arith in
    let first : translate k dest ≡ ok a =
      ap (translate k) (omega arith) ∙ r 0 (omega arith) ∙ ap ok (omega arith) in
    let k' : Kernel = record k { memory = update k.memory a b } in
    let others : Reaches k' (dest + 1) (a + 1) (length bytes) = λ j p.
      translate-memory k (update k.memory a b) (dest + 1 + j)
      ∙ ap (translate k) (omega arith)
      ∙ r (suc j) (omega arith)
      ∙ ap ok (omega arith) in
    rw (first, next) (copy_out_block k' (dest + 1) (a + 1) bytes others (omega arith))

pub length-copy_in :
    (k : Kernel) (src n : ℕ) (bytes : List ℕ) → copy_in k src n ≡ ok bytes → length bytes ≡ n
unfolding copy_in
length-copy_in k src zero bytes h = ap length (sym (ok_injective h))
length-copy_in k src (suc n) bytes h =
    let (a, _, h₁) = split_bind (translate k src) _ bytes h in
    let (rest, read, h₂) = split_bind (copy_in k (u32 (src + 1)) n) _ bytes h₁ in
    ap length (sym (ok_injective h₂)) ∙ ap suc (length-copy_in k (u32 (src + 1)) n rest read)

-- Reading a block that the memory holds.
pub copy_in_block :
    (k : Kernel) (src a : ℕ) (bytes : List ℕ)
    → Reaches k src a (length bytes)
    → ((j : ℕ) → j < length bytes → k.memory (a + j) ≡ get_or bytes j 0)
    → src + length bytes < 2 ^ 32
    → copy_in k src (length bytes) ≡ ok bytes
unfolding copy_in
copy_in_block k src a [] r held h = refl
copy_in_block k src a (b ∷ bytes) r held h =
    let next : u32 (src + 1) ≡ src + 1 = omega arith in
    let first : translate k src ≡ ok a =
      ap (translate k) (omega arith) ∙ r 0 (omega arith) ∙ ap ok (omega arith) in
    let byte : k.memory a ≡ b = ap k.memory (omega arith) ∙ held 0 (omega arith) in
    let rest : copy_in k (src + 1) (length bytes) ≡ ok bytes =
      copy_in_block k (src + 1) (a + 1) bytes
        (λ j p. ap (translate k) (omega arith) ∙ r (suc j) (omega arith) ∙ ap ok (omega arith))
        (λ j p. ap k.memory (omega arith) ∙ held (suc j) (omega arith)) (omega arith) in
    rw (first, next, byte, rest) refl
