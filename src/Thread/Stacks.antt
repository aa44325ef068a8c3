-- ===== src/Thread/Stacks.antt =====
-- The pages of the stacks of a process: driver/mmu.c and system/thread.c against the walk of the
-- page table.
use tupix.Base.{
  All, All-middle, Bool-cases, List, [], arith, false, if◌then◌else◌, inl, inr, refl, sub32, u32, ℕ,
  ◌%◌, ◌*◌, ◌++◌, ◌+◌, ◌/◌, ◌<◌, ◌==◌, ◌^◌, ◌∷◌, ◌≡◌, ◌≤◌,
}
use tupix.Mmu.Entry.{build_l2_4kb_page_entry_fields}
use tupix.Base.Result.{ok, faulted}
use tupix.Thread.{get_max_stack_pointer, get_stack_pointer}
use tupix.Memory.{translate}
use tupix.Kernel.{n_threads_per_process, load_process, Kernel, Pcb}
use tupix.Mmu.{
  init_thread_memory, init_process_memory, Table, sys_user_full, update, build_l2_4kb_page_entry,
  udata_ustack_phys_base_mb, permission_bits,
}

-- The table of a process after `init_process_memory` and the `init_thread_memory` of some threads,
-- the last one first.
unfoldable pub process_table : ℕ → ℕ → List ℕ → Table
process_table process_index pid [] = init_process_memory process_index
process_table process_index pid (index ∷ indices) =
    init_thread_memory pid index (process_table process_index pid indices)

-- The threads of a process have the indices 0 to `N_THREADS_PER_PROCESS`.
abbrev pub IsThreadIndex : ℕ → Type 0
IsThreadIndex index = index ≤ n_threads_per_process

-- The entry of a thread's stack stays what `init_thread_memory` made it.
stack_entry :
    (process_index pid i : ℕ) (later earlier : List ℕ)
    → IsThreadIndex i
    → All IsThreadIndex later
    → process_table process_index pid (later ++ i ∷ earlier) (i * 2 + 2)
      ≡ build_l2_4kb_page_entry (u32 (udata_ustack_phys_base_mb + pid)) (i + 1) sys_user_full false
unfolding process_table init_thread_memory update
stack_entry process_index pid i [] earlier hi hl =
    let table_index : u32 (i * 2 + 1 + 1) ≡ i * 2 + 2 = omega arith in
    let page : u32 (i + 1) ≡ i + 1 = omega arith in rw page (ground (arith, table_index))
stack_entry process_index pid i (j ∷ later) earlier hi (hj, hl) =
    elim (Bool-cases (u32 (j * 2 + 1 + 1) == i * 2 + 2)) [
      | inl e ↦ let same : u32 (j + 1) ≡ i + 1 = ground (arith, e) in rw (e, same) refl
      | inr e ↦ rw e (stack_entry process_index pid i later earlier hi hl)
    ]

guard_entry :
    (process_index pid i : ℕ) (indices : List ℕ)
    → IsThreadIndex i
    → All IsThreadIndex indices
    → process_table process_index pid indices (i * 2 + 1) ≡ 0
unfolding process_table init_thread_memory init_process_memory update
guard_entry process_index pid i [] hi hl = ground arith
guard_entry process_index pid i (j ∷ indices) hi (hj, hl) =
    ground (arith, guard_entry process_index pid i indices hi hl)

max_stack_pointer_lem :
    (i : ℕ) → IsThreadIndex i → get_max_stack_pointer i ≡ 5 * 2 ^ 20 + (i * 2 + 2) * 2 ^ 12
unfolding get_max_stack_pointer get_stack_pointer
max_stack_pointer_lem i hi = ground arith

-- The walk of the table, on a page of the user megabyte.
translate_page :
    (k : Kernel) (process : Pcb) (page offset : ℕ)
    → load_process k k.active ≡ ok process
    → page < 256
    → offset < 2 ^ 12
    → translate k (5 * 2 ^ 20 + page * 2 ^ 12 + offset) ≡ (
        if process.l2_table page / 2 % 2 == 1
        then ok (process.l2_table page / 2 ^ 12 * 2 ^ 12 + offset)
        else faulted)
unfolding translate
translate_page k process page offset e p o =
    let megabyte : (5 * 2 ^ 20 + page * 2 ^ 12 + offset) / 2 ^ 20 ≡ 5 = omega arith in
    let index : (5 * 2 ^ 20 + page * 2 ^ 12 + offset) / 2 ^ 12 % 256 ≡ page = omega arith in
    let low : (5 * 2 ^ 20 + page * 2 ^ 12 + offset) % 2 ^ 12 ≡ offset = omega arith in
    rw (megabyte, e, index, low) refl

-- A page that the table of the running process maps to the page `index` of the megabyte `mb`.
pub mapped_page_reaches :
    (k : Kernel) (process : Pcb) (page mb index offset : ℕ)
    → load_process k k.active ≡ ok process
    → process.l2_table page ≡ build_l2_4kb_page_entry (u32 mb) index sys_user_full false
    → page < 256
    → mb < 2 ^ 12
    → index < 256
    → offset < 2 ^ 12
    → translate k (5 * 2 ^ 20 + page * 2 ^ 12 + offset) ≡ ok (mb * 2 ^ 20 + index * 2 ^ 12 + offset)
unfolding permission_bits
mapped_page_reaches k process page mb index offset e entry p m i o =
    let megabyte : u32 mb ≡ mb = omega arith in
    rw
      (
        translate_page k process page offset e p o,
        entry,
        megabyte,
        build_l2_4kb_page_entry_fields mb index sys_user_full false m i,
      )
      (ground arith)

-- The process runs with the table that `process_create` and `thread_create` made for some threads.
pub record HasStacks (k : Kernel) (process_index pid : ℕ) (indices : List ℕ) : Type 0 where
  pub process : Pcb
  pub active : load_process k k.active ≡ ok process
  pub table : process.l2_table ≡ process_table process_index pid indices
  pub thread_indices : All IsThreadIndex indices
  pub megabyte : udata_ustack_phys_base_mb + pid < 2 ^ 12

-- In a process whose table was made for the threads `later ++ i ∷ earlier`, with indices up to 4 and
-- a process id below 4091, every address of the 4 KB from `get_max_stack_pointer i` on translates to
-- the page i + 1 of the physical megabyte 5 + pid, whatever threads were made after. The process's
-- data lies in the megabyte 5 + index, which is another one where the id differs from the index.
pub thread_stack_reaches_page :
    (k : Kernel) (process_index pid i : ℕ) (later earlier : List ℕ) (offset : ℕ)
    → HasStacks k process_index pid (later ++ i ∷ earlier)
    → offset < 2 ^ 12
    → translate k (get_max_stack_pointer i + offset)
      ≡ ok ((udata_ustack_phys_base_mb + pid) * 2 ^ 20 + (i + 1) * 2 ^ 12 + offset)
thread_stack_reaches_page k process_index pid i later earlier offset h o =
    let (all_later, hi) = All-middle IsThreadIndex later i earlier h.thread_indices in
    let entry : h.process.l2_table (i * 2 + 2)
        ≡ build_l2_4kb_page_entry (u32 (udata_ustack_phys_base_mb + pid)) (i + 1) sys_user_full
            false =
      rw h.table (stack_entry process_index pid i later earlier hi all_later) in
    rw (max_stack_pointer_lem i hi) (
      mapped_page_reaches k h.process (i * 2 + 2) (udata_ustack_phys_base_mb + pid) (i + 1) offset
        h.active entry (omega (arith, hi)) h.megabyte (omega (arith, hi)) o)

-- In a process whose table was made for some threads with indices up to 4, every address of the 4 KB
-- below the page of the stack of any index up to 4 faults.
pub thread_stack_guard_faults :
    (k : Kernel) (process_index pid i : ℕ) (indices : List ℕ) (offset : ℕ)
    → HasStacks k process_index pid indices
    → IsThreadIndex i
    → offset < 2 ^ 12
    → translate k (sub32 (get_max_stack_pointer i) (2 ^ 12) + offset) ≡ faulted
thread_stack_guard_faults k process_index pid i indices offset h hi o =
    let below : sub32 (5 * 2 ^ 20 + (i * 2 + 2) * 2 ^ 12) (2 ^ 12)
        ≡ 5 * 2 ^ 20 + (i * 2 + 1) * 2 ^ 12 =
      omega arith in
    rw
      (
        max_stack_pointer_lem i hi,
        below,
        translate_page k h.process (i * 2 + 1) offset h.active (omega arith) o,
        h.table,
        guard_entry process_index pid i indices hi h.thread_indices,
      )
      refl

-- The physical addresses of stacks tell the process, the thread and the place: addresses of the
-- stacks' pages that translate alike, under the tables of two processes or of one, have the same
-- process id, thread index and offset, for thread indices up to 4 and process ids that leave their
-- megabyte below 4096.
pub thread_stacks_disjoint :
    (k₁ k₂ : Kernel) (process_index₁ process_index₂ pid₁ pid₂ i₁ i₂ : ℕ)
    (later₁ earlier₁ later₂ earlier₂ : List ℕ) (offset₁ offset₂ : ℕ)
    → HasStacks k₁ process_index₁ pid₁ (later₁ ++ i₁ ∷ earlier₁)
    → HasStacks k₂ process_index₂ pid₂ (later₂ ++ i₂ ∷ earlier₂)
    → offset₁ < 2 ^ 12
    → offset₂ < 2 ^ 12
    → translate k₁ (get_max_stack_pointer i₁ + offset₁)
      ≡ translate k₂ (get_max_stack_pointer i₂ + offset₂)
    → (pid₁ ≡ pid₂) × (i₁ ≡ i₂) × (offset₁ ≡ offset₂)
thread_stacks_disjoint k₁ k₂ process_index₁ process_index₂ pid₁ pid₂ i₁ i₂ later₁ earlier₁ later₂
      earlier₂ offset₁ offset₂ h₁ h₂ o₁ o₂ alike =
    let bound₁ : i₁ ≤ 4 = (All-middle IsThreadIndex later₁ i₁ earlier₁ h₁.thread_indices).1 in
    let bound₂ : i₂ ≤ 4 = (All-middle IsThreadIndex later₂ i₂ earlier₂ h₂.thread_indices).1 in
    let reach₁ =
      thread_stack_reaches_page k₁ process_index₁ pid₁ i₁ later₁ earlier₁ offset₁ h₁ o₁ in
    let reach₂ =
      thread_stack_reaches_page k₂ process_index₂ pid₂ i₂ later₂ earlier₂ offset₂ h₂ o₂ in
    let same : (5 + pid₁) * 2 ^ 20 + (i₁ + 1) * 2 ^ 12 + offset₁
        ≡ (5 + pid₂) * 2 ^ 20 + (i₂ + 1) * 2 ^ 12 + offset₂ =
      cc in
    omega arith
