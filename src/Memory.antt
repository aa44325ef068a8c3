-- ===== src/Memory.antt =====
-- The user memory as the processor reaches it: through the page table that L1 points to for the
-- user megabyte, and one to one elsewhere. lib/std/mem.c copies bytes through it.
pub mod Bytes
pub mod Blocks
use tupix.Base.{List, [], if◌then◌else◌, suc, u32, zero, ℕ, ◌%◌, ◌*◌, ◌+◌, ◌/◌, ◌==◌, ◌^◌, ◌∷◌}
use tupix.Base.Result.{Result, faulted, ok, ◌>>=◌}
use tupix.Mmu.{udata_ustack_phys_base_mb, update}
use tupix.Kernel.{load_process, Kernel}

-- The physical address of a virtual one. An entry whose bit 1 is clear maps no page.
unfoldable pub translate : Kernel → ℕ → Result ℕ
translate k address =
    if address / 2 ^ 20 == udata_ustack_phys_base_mb
    then (do
      p ← load_process k k.active
      let entry = p.l2_table (address / 2 ^ 12 % 256)
      if entry / 2 % 2 == 1 then ok (entry / 2 ^ 12 * 2 ^ 12 + address % 2 ^ 12) else faulted)
    else ok address

-- `switch_memory`, for the table of the process in a slot.
unfoldable pub switch_memory : Kernel → ℕ → Kernel
switch_memory k slot = record k { active = slot }

-- The loop of `memcpy` from user memory into a buffer.
unfoldable pub copy_in : Kernel → ℕ → ℕ → Result (List ℕ)
copy_in k src zero = ok []
copy_in k src (suc n) = do
  a ← translate k src
  rest ← copy_in k (u32 (src + 1)) n
  ok (k.memory a ∷ rest)

-- The loop of `memcpy` from a buffer into user memory.
unfoldable pub copy_out : Kernel → ℕ → List ℕ → Result Kernel
copy_out k dest [] = ok k
copy_out k dest (b ∷ bytes) = do
  a ← translate k dest
  copy_out (record k { memory = update k.memory a b }) (u32 (dest + 1)) bytes
