-- ===== src/User/Main/Grow.antt =====
-- What a round of `main_thread` makes: a thread or a process that has the character.
use tupix.Base.{List, [], get_elem?, some, u32, ℕ, ◌++◌, ◌+◌, ◌<◌, ◌^◌, ◌∷◌, ◌≡◌, ◌≢◌, ◌≤◌, ◌⊎◌}
use tupix.Base.Result.{ok}
use tupix.Kernel.{Kernel, Pcb, Tcb}
use tupix.Memory.{copy_in, switch_memory}
use tupix.Mmu.{udata_ustack_phys_base_mb}
use tupix.Process.Created.{CanCreate, slot_of}
use tupix.Process.Spawned.{CanSpawn}
use tupix.Types.Refine.{contents}
use tupix.User.Main.{Places, word_bytes}

-- What the character asks for, in the process and the slot that the new thread gets: a thread of the
-- same process for a capital letter, and a process for every other character.
pub data Grows (k : Kernel) (c p : ℕ) (process : Pcb) (i : ℕ) : ℕ → ℕ → Type 0 where
  new_one :
      (j : ℕ) (rest : List ℕ)
      → (b'A' ≤ c) × (c ≤ b'Z')
      → CanCreate k p process j rest
      → j ≢ i
      → Grows k c p process i p (slot_of process.index j)
  new_space :
      (s : ℕ) (rest : List ℕ)
      → (c < b'A') ⊎ (b'Z' < c)
      → CanSpawn k s p rest
      → s ≢ p
      → udata_ustack_phys_base_mb + u32 (k.pid_counter + 1) < 2 ^ 12
      → Grows k c p process i s (slot_of s 1)

-- The new thread stands ready in its slot, runs the function, and finds the bytes of the character
-- through the table of its process where its argument points to. The caller runs on.
pub record HasCharacter (k : Kernel) (at : Places) (c owner slot : ℕ) (k' : Kernel) : Type 0 where
  pub ready_last : contents k'.thread_indices_q ≡ contents k.thread_indices_q ++ slot ∷ []
  pub made : Tcb
  pub there : get_elem? k'.threads slot ≡ some made
  pub runs : made.regs.pc ≡ at.func
  pub in_process : made.process ≡ some owner
  pub runs_on : k'.running_thread ≡ k.running_thread
  pub reads : copy_in (switch_memory k' owner) made.regs.r0 4 ≡ ok (word_bytes c)
