-- ===== src/Process/Spawned.antt =====
-- `process_create` of system/process.c.
use tupix.Base.{
  All, subst, Option, List, [], arith, false, get_elem?, get_elem?-set_self, get_elem?-some-lt,
  length, refl, set, some, u32, ℕ, ◌*◌, ◌++◌, ◌+◌, ◌<◌, ◌^◌, ◌∙◌, ◌∷◌, ◌≡◌, ◌≤◌, ap, set-set, ltb,
  true, length-set, ◌⊎◌,
}
use tupix.Base.Int.{pos}
use tupix.Base.Result.{Result, ok, ◌>>=◌, from_option}
use tupix.Invariant.{elim_pos, IsSound}
use tupix.Invariant.Create.{all_free-IsTable_process}
use tupix.Kernel.{
  Kernel, Pcb, load_process, load_thread, n_processes, n_threads, n_threads_per_process,
  store_process,
}
use tupix.Memory.{copy_in, switch_memory, translate}
use tupix.Memory.Blocks.{Reaches, copy_in_block, copy_out_block, write_block, write_block-inside}
use tupix.Mmu.{
  build_l2_4kb_page_entry, init_process_memory, init_thread_memory, sys_user_full,
  udata_ustack_phys_base_mb, update,
}
use tupix.Process.Created.{
  CanCreate, new_tcb, prepared, registered, slot_of, thread_create_registers, with_thread,
}
use tupix.Process.{init_process, new_process, process_create, thread_create}
use tupix.Scheduler.{get_cur_process}
use tupix.Tables.{scheduler_register_process}
use tupix.Thread.Stacks.{mapped_page_reaches}
use tupix.Thread.{get_stack_pointer, thread_stack_base}
use tupix.Types.{pop_index}
use tupix.Types.Refine.{InRange, contents, pop_index-head, mark_all_free-init_queue}

-- The new process in its slot, before it has a thread.
abbrev pub process_of : Kernel → ℕ → Pcb
process_of k s = record (new_process (u32 (k.pid_counter + 1))) {
  index = s;
  l2_table = init_process_memory s;
}

-- The kernel then: the slot is taken, and the process has its copy of the user data.
abbrev pub process_made : Kernel → ℕ → ℕ → Kernel
process_made k s cur = record k {
  pid_counter = u32 (k.pid_counter + 1);
  free_process_indices_q = (pop_index k.free_process_indices_q).1;
  processes = set k.processes s (process_of k s);
  memory = write_block k.memory ((udata_ustack_phys_base_mb + s) * 2 ^ 20) k.udata_cpy;
  active = cur;
}

-- The first page of the process, under a table that maps it.
pub data-Reaches :
    (k : Kernel) (process : Pcb) (s n : ℕ)
    → load_process k k.active ≡ ok process
    → process.l2_table 0
      ≡ build_l2_4kb_page_entry (u32 (udata_ustack_phys_base_mb + s)) 0 sys_user_full false
    → s ≤ n_processes
    → n ≤ 2 ^ 12
    → Reaches k thread_stack_base ((udata_ustack_phys_base_mb + s) * 2 ^ 20) n
data-Reaches k process s n e entry hs hn = λ j p.
    ap (translate k) (omega arith)
    ∙ mapped_page_reaches k process 0 (udata_ustack_phys_base_mb + s) 0 j e entry (omega arith)
        (omega arith) (omega arith) (omega arith)
    ∙ ap ok (omega arith)

pub data_entry :
    (s : ℕ)
    → init_process_memory s 0
      ≡ build_l2_4kb_page_entry (u32 (udata_ustack_phys_base_mb + s)) 0 sys_user_full false
unfolding init_process_memory update
data_entry s = refl

init_process-copies :
    (k : Kernel) (s cur : ℕ) (p : Pcb)
    → get_elem? k.processes s ≡ some (record p { index = s })
    → s ≤ n_processes
    → length k.udata_cpy ≤ 2 ^ 12
    → get_cur_process k ≡ ok (some cur)
    → init_process k s
      ≡ ok (record k {
        processes = set k.processes s (record p { index = s; l2_table = init_process_memory s });
        memory = write_block k.memory ((udata_ustack_phys_base_mb + s) * 2 ^ 20) k.udata_cpy;
        active = cur;
      })
unfolding init_process switch_memory get_cur_process load_thread load_process store_process
init_process-copies k s cur p found hs hn running =
    let made : Pcb = record p { index = s; l2_table = init_process_memory s } in
    let there : s < length k.processes = get_elem?-some-lt k.processes s found in
    let within : ltb s (length k.processes) ≡ true = ground arith in
    let out =
      copy_out_block (record k { processes = set k.processes s made; active = s }) thread_stack_base
        ((udata_ustack_phys_base_mb + s) * 2 ^ 20) k.udata_cpy
        (data-Reaches _ made s (length k.udata_cpy)
          (ap from_option (get_elem?-set_self k.processes s made there)) (data_entry s) hs hn)
        (omega arith) in
    rw (found, within, out, running) refl

pub process_create-makes :
    (k : Kernel) (func args size s cur : ℕ)
    → (pop_index k.free_process_indices_q).0 ≡ pos s
    → s ≤ n_processes
    → length k.processes ≡ n_processes + 1
    → length k.udata_cpy ≤ 2 ^ 12
    → get_cur_process k ≡ ok (some cur)
    → process_create k func args size
      ≡ (thread_create (process_made k s cur) s func args size >>= λ (thread, k'). ok k')
unfolding process_create scheduler_register_process store_process get_cur_process load_thread
process_create-makes k func args size s cur popped hs slots hn running =
    let within : ltb s (length k.processes) ≡ true = ground arith in
    let p : Pcb = record (new_process (u32 (k.pid_counter + 1))) { index = s } in
    let stored : Kernel = record k {
      pid_counter = u32 (k.pid_counter + 1);
      free_process_indices_q = (pop_index k.free_process_indices_q).1;
      processes = set k.processes s p;
    } in
    let registers : scheduler_register_process (record k { pid_counter = u32 (k.pid_counter + 1) })
          (new_process (u32 (k.pid_counter + 1)))
        ≡ ok (some s, stored) =
      elim_pos (pop_index k.free_process_indices_q).0 s _ _ popped ∙ rw within refl in
    let initialised =
      init_process-copies stored s cur p
        (get_elem?-set_self k.processes s p (omega (arith, slots, hs))) hs hn running in
    rw (registers, initialised, set-set k.processes s p (process_of k s)) refl

-- The kernel may get one more process: `s` is the next free slot, the run queue has room, and the
-- running thread has a process, in the slot `cur`.
pub record CanSpawn (k : Kernel) (s cur : ℕ) (rest : List ℕ) : Type 0 where
  pub sound : IsSound k
  pub next : contents k.free_process_indices_q ≡ s ∷ rest
  pub room : k.thread_indices_q.count < n_threads
  pub data_fits : length k.udata_cpy ≤ 2 ^ 12
  pub running : get_cur_process k ≡ ok (some cur)

-- What `process_create` makes of the kernel: the first thread of the process has the index 1.
abbrev pub spawned : Kernel → ℕ → ℕ → ℕ → Kernel
spawned k func s cur =
    registered (prepared (process_made k s cur) s (process_of k s) 1) (slot_of s 1)
      (new_tcb k s 1 func (get_stack_pointer 1) 0)

pub next_slot_range :
    {k : Kernel} {s cur : ℕ} {rest : List ℕ} → CanSpawn k s cur rest → (0 < s) × (s ≤ n_processes)
next_slot_range {k} {s} {cur} {rest} h =
    let size : k.free_process_indices_q.size ≡ n_processes = h.sound.free_table.size in
    let entries : All (InRange k.free_process_indices_q.size) (s ∷ rest) =
      subst (All (InRange k.free_process_indices_q.size)) h.next
        h.sound.free_table.indices.entries in
    omega (arith, size, entries.0)

pub first_thread :
    {k : Kernel} {s cur : ℕ} {rest : List ℕ}
    → CanSpawn k s cur rest
    → CanCreate (process_made k s cur) s (process_of k s) 1 (2 ∷ 3 ∷ 4 ∷ [])
unfolding new_process
first_thread {k} {s} {cur} h =
    let slots : length k.processes ≡ n_processes + 1 = h.sound.process_slots in
    record {
      has_room = record {
        found =
            get_elem?-set_self k.processes s (process_of k s)
              (omega (arith, slots, next_slot_range h));
        placed = next_slot_range h;
        run = h.sound.run_table;
        thread_slots = h.sound.thread_slots;
        room = h.room;
      };
      free = all_free-IsTable_process;
      next = (mark_all_free-init_queue n_threads_per_process (omega arith) (omega arith)).1;
    }

copy_in-spawned :
    (k : Kernel) (func s cur : ℕ)
    → s < length k.processes
    → s ≤ n_processes
    → length k.udata_cpy ≤ 2 ^ 12
    → copy_in (switch_memory (spawned k func s cur) s) thread_stack_base (length k.udata_cpy)
      ≡ ok k.udata_cpy
unfolding switch_memory load_process init_thread_memory update
copy_in-spawned k func s cur there hs hn =
    let made : List Pcb = set k.processes s (process_of k s) in
    copy_in_block _ thread_stack_base ((udata_ustack_phys_base_mb + s) * 2 ^ 20) k.udata_cpy
      (data-Reaches _ (with_thread (process_of k s) 1) s (length k.udata_cpy)
        (ap from_option
          (get_elem?-set_self made s _ (rw (length-set k.processes s (process_of k s)) there)))
        (data_entry s) hs hn)
      (write_block-inside k.memory ((udata_ustack_phys_base_mb + s) * 2 ^ 20) k.udata_cpy)
      (omega arith)

-- In a well-formed kernel with a free process slot, room in the run queue, a running thread with a
-- process, and user data of up to 4 KB, `process_create` without arguments succeeds: the next free
-- slot is no longer free and holds a process with the next pid, whose thread 1 runs the function on
-- its own stack and is the last of the run queue; the process may still get the threads 2 to 4, and
-- reads the user data at its start through its own table. Nothing else of the kernel changes.
pub process_create_spawns :
    (k : Kernel) (func args size s cur : ℕ) (rest : List ℕ)
    → CanSpawn k s cur rest
    → (args ≡ 0) ⊎ (size ≡ 0)
    → let k' = spawned k func s cur in
      (process_create k func args size ≡ ok k')
      × (contents k'.free_process_indices_q ≡ rest)
      × (contents k'.thread_indices_q ≡ contents k.thread_indices_q ++ slot_of s 1 ∷ [])
      × (contents (with_thread (process_of k s) 1).free_indices_q ≡ 2 ∷ 3 ∷ 4 ∷ [])
      × (copy_in (switch_memory k' s) thread_stack_base (length k.udata_cpy) ≡ ok k.udata_cpy)
process_create_spawns k func args size s cur rest h none_given =
    let slots : length k.processes ≡ n_processes + 1 = h.sound.process_slots in
    let (popped, left) =
      pop_index-head k.free_process_indices_q s rest h.sound.free_table.indices h.next in
    let (created, last, free) =
      thread_create_registers (process_made k s cur) s func args size (process_of k s) 1
        (2 ∷ 3 ∷ 4 ∷ []) (first_thread h) none_given in
    (
      process_create-makes k func args size s cur popped (next_slot_range h).1 slots h.data_fits
            h.running
          ∙ ap (λ (r : Result (Option ℕ × Kernel)). r >>= λ (thread, k'). ok k') created,
      left,
      last,
      free,
      copy_in-spawned k func s cur (omega (arith, slots, next_slot_range h)) (next_slot_range h).1
          h.data_fits,
    )
