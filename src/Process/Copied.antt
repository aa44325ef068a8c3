-- ===== src/Process/Copied.antt =====
-- `copy_args`, the copying of the arguments in `thread_create` of system/thread.c.
use tupix.Base.{
  set, get_elem?-set_self, get_elem?-some-lt, ◌⊎◌, List, [], arith, false, get_elem?, length, refl,
  some, sub32, u32, ℕ, ◌*◌, ◌++◌, ◌+◌, ◌-◌, ◌<◌, ◌==◌, ◌^◌, ◌∙◌, ◌∷◌, ◌≡◌, ◌≢◌, ◌≤◌, ◌||◌, ap,
}
use tupix.Base.Result.{ok, from_option}
use tupix.Kernel.{Kernel, Pcb, load_process, load_thread, n_threads_per_process}
use tupix.Memory.{copy_in, switch_memory}
use tupix.Memory.Blocks.{
  Reaches, copy_out_block, length-copy_in, write_block, copy_in_block, write_block-inside,
  write_block-outside,
}
use tupix.Mmu.{
  build_l2_4kb_page_entry, init_thread_memory, sys_user_full, udata_ustack_phys_base_mb, update,
  Table,
}
use tupix.Process.Created.{
  CanCreate, HasRoom, new_tcb, next_index, prepared, prepared-HasRoom, register_thread_appends,
  registered, slot_of, stack_pointer_lem, thread_create-starts, with_thread,
}
use tupix.Process.{copy_args, start_thread, thread_create}
use tupix.Scheduler.{get_cur_process}
use tupix.Thread.Stacks.{mapped_page_reaches}
use tupix.Thread.{get_stack_pointer}
use tupix.Types.Refine.{contents, pop_index-head}

own_entry :
    (pid i : ℕ) (table : Table)
    → i ≤ n_threads_per_process
    → init_thread_memory pid i table (i * 2 + 2)
      ≡ build_l2_4kb_page_entry (u32 (udata_ustack_phys_base_mb + pid)) (i + 1) sys_user_full false
unfolding init_thread_memory update
own_entry pid i table h =
    let here : u32 (i * 2 + 1 + 1) ≡ i * 2 + 2 = omega arith in
    let page : u32 (i + 1) ≡ i + 1 = omega arith in rw page (ground (arith, here))

-- The physical address of the new thread's copy of `n` bytes: below the top of its stack.
abbrev pub args_at : ℕ → ℕ → ℕ → ℕ
args_at pid i n = (udata_ustack_phys_base_mb + pid) * 2 ^ 20 + (i + 1) * 2 ^ 12 + (0x400 - n)

stack-Reaches :
    (k : Kernel) (pid i n : ℕ) (process : Pcb) (table : Table)
    → load_process k k.active ≡ ok process
    → process.l2_table ≡ init_thread_memory pid i table
    → i ≤ n_threads_per_process
    → udata_ustack_phys_base_mb + pid < 2 ^ 12
    → n ≤ 0x400
    → Reaches k (sub32 (get_stack_pointer i) n) (args_at pid i n) n
stack-Reaches k pid i n process table e tabled hi m hn = λ j p.
    let below : sub32 (5 * 2 ^ 20 + i * 2 ^ 13 + 0x2400) n + j
        ≡ 5 * 2 ^ 20 + (i * 2 + 2) * 2 ^ 12 + (0x400 - n + j) =
      omega arith in
    let entry : process.l2_table (i * 2 + 2)
        ≡ build_l2_4kb_page_entry (u32 (udata_ustack_phys_base_mb + pid)) (i + 1) sys_user_full
            false =
      rw tabled (own_entry pid i table hi) in
    rw (stack_pointer_lem i hi, below)
      (mapped_page_reaches k process (i * 2 + 2) (udata_ustack_phys_base_mb + pid) (i + 1)
          (0x400 - n + j) e entry (omega arith) m (omega arith) (omega arith)
        ∙ ap ok (omega arith))

-- The kernel when the arguments are copied.
abbrev pub copied : Kernel → ℕ → ℕ → List ℕ → Kernel
copied k a cur bytes = record k { memory = write_block k.memory a bytes; active = cur }

copy_args-copies :
    (k : Kernel) (p pid i args size cur : ℕ) (process : Pcb) (table : Table) (bytes : List ℕ)
    → get_elem? k.processes p ≡ some process
    → process.l2_table ≡ init_thread_memory pid i table
    → i ≤ n_threads_per_process
    → udata_ustack_phys_base_mb + pid < 2 ^ 12
    → size ≤ 0x400
    → copy_in k args size ≡ ok bytes
    → get_cur_process k ≡ ok (some cur)
    → copy_args k p args size (get_stack_pointer i) ≡ ok (copied k (args_at pid i size) cur bytes)
unfolding copy_args switch_memory get_cur_process load_thread load_process
copy_args-copies k p pid i args size cur process table bytes found tabled hi m hn read running =
    let n : length bytes ≡ size = length-copy_in k args size bytes read in
    let below : sub32 (get_stack_pointer i) size + length bytes < 2 ^ 32 =
      rw (stack_pointer_lem i hi) (omega (arith, n)) in
    let out =
      copy_out_block (record k { active = p }) (sub32 (get_stack_pointer i) size)
        (args_at pid i size) bytes
        (λ j q.
          stack-Reaches (record k { active = p }) pid i size process table (ap from_option found)
            tabled hi m hn j (omega (arith, n, q)))
        below in
    rw (read, out, running) refl

-- The state that `thread_create` leaves for a thread with arguments.
abbrev pub with_arguments : Kernel → ℕ → Pcb → ℕ → ℕ → ℕ → List ℕ → Kernel
with_arguments k p process i func cur bytes =
    let size = length bytes in
    let sp = sub32 (get_stack_pointer i) size in
    registered (copied (prepared k p process i) (args_at process.pid i size) cur bytes)
      (slot_of process.index i) (new_tcb k p i func sp sp)

copy_in-with_arguments :
    (k : Kernel) (p i func cur : ℕ) (process : Pcb) (bytes : List ℕ)
    → get_elem? k.processes p ≡ some process
    → i ≤ n_threads_per_process
    → udata_ustack_phys_base_mb + process.pid < 2 ^ 12
    → length bytes ≤ 0x400
    → copy_in
        (switch_memory (with_arguments k p process i func cur bytes) p)
        (sub32 (get_stack_pointer i) (length bytes))
        (length bytes)
      ≡ ok bytes
unfolding switch_memory load_process
copy_in-with_arguments k p i func cur process bytes found hi m hn =
    let mapped : get_elem? (set k.processes p (with_thread process i)) p
        ≡ some (with_thread process i) =
      get_elem?-set_self k.processes p _ (get_elem?-some-lt k.processes p found) in
    let below : sub32 (get_stack_pointer i) (length bytes) + length bytes < 2 ^ 32 =
      rw (stack_pointer_lem i hi) (omega arith) in
    copy_in_block _ _ (args_at process.pid i (length bytes)) bytes
      (stack-Reaches _ process.pid i (length bytes) (with_thread process i) process.l2_table
        (ap from_option mapped) refl hi m hn)
      (write_block-inside k.memory (args_at process.pid i (length bytes)) bytes) below

-- A registered process with a free index `i` and a pid that leaves its megabyte below 4096, a run
-- queue with room, and arguments of up to 1 KB that the caller can read once the new page is mapped:
-- `thread_create` registers the thread as it does one without arguments, except that the stack
-- pointer lies below a copy of them and is the thread's argument. Through the table of the process
-- the new thread reads there just what the caller read, the memory outside the copy is unchanged,
-- and the memory of the running process is the active one again.
pub thread_create_copies :
    (k : Kernel) (p func args cur : ℕ) (process : Pcb) (i : ℕ) (rest bytes : List ℕ)
    → CanCreate k p process i rest
    → udata_ustack_phys_base_mb + process.pid < 2 ^ 12
    → args ≢ 0
    → (0 < length bytes) × (length bytes ≤ 0x400)
    → copy_in (prepared k p process i) args (length bytes) ≡ ok bytes
    → get_cur_process k ≡ ok (some cur)
    → let k' = with_arguments k p process i func cur bytes in
      (thread_create k p func args (length bytes) ≡ ok (some (slot_of process.index i), k'))
      × (contents k'.thread_indices_q ≡ contents k.thread_indices_q ++ slot_of process.index i ∷ [])
      × (contents (with_thread process i).free_indices_q ≡ rest)
      × (copy_in (switch_memory k' p) (sub32 (get_stack_pointer i) (length bytes)) (length bytes)
          ≡ ok bytes)
      × ((x : ℕ)
          → (x < args_at process.pid i (length bytes))
            ⊎ (args_at process.pid i (length bytes) + length bytes ≤ x)
          → k'.memory x ≡ k.memory x)
unfolding start_thread get_cur_process load_thread
thread_create_copies k p func args cur process i rest bytes h m some_args (n, hn) read running =
    let (popped, left) = pop_index-head process.free_indices_q i rest h.free.indices h.next in
    let room : HasRoom (prepared k p process i) p (with_thread process i) =
      prepared-HasRoom i h.has_room in
    let sp : ℕ = sub32 (get_stack_pointer i) (length bytes) in
    let (appended, last) =
      register_thread_appends
        (copied (prepared k p process i) (args_at process.pid i (length bytes)) cur bytes) p
        (with_thread process i) (new_tcb k p i func sp sp)
        (record {
          found = room.found;
          placed = room.placed;
          run = room.run;
          thread_slots = room.thread_slots;
          room = room.room;
        })
        refl (next_index h) in
    let given : (args == 0 || length bytes == 0) ≡ false = ground arith in
    let copies =
      copy_args-copies (prepared k p process i) p process.pid i args (length bytes) cur
        (with_thread process i) process.l2_table bytes room.found refl (next_index h).1 m hn read
        running in
    (
      thread_create-starts k p func args (length bytes) process i h.has_room.found popped
            (next_index h).1
          ∙ rw (given, copies) appended,
      last,
      left,
      copy_in-with_arguments k p i func cur process bytes h.has_room.found (next_index h).1 m hn,
      write_block-outside k.memory (args_at process.pid i (length bytes)) bytes,
    )
