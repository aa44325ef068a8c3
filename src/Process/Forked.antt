-- ===== src/Process/Forked.antt =====
-- `process_create` of system/process.c with arguments, as the system call fork uses it.
use tupix.Base.{
  List, ap, arith, get_elem?-set_self, set, length, length-set, sub32, u32, ℕ, ◌++◌, ◌+◌, ◌<◌, ◌≤◌,
  ◌^◌, ◌*◌, ◌∙◌, ◌∷◌, ◌≡◌, ◌≢◌, [], Option,
}
use tupix.Base.Result.{Result, from_option, ok, ◌>>=◌}
use tupix.Kernel.{Kernel, load_process, load_thread, n_processes}
use tupix.Memory.Blocks.{copy_in_block, write_block, write_block-inside, write_block-outside}
use tupix.Memory.{copy_in, switch_memory}
use tupix.Mmu.{init_thread_memory, udata_ustack_phys_base_mb, update}
use tupix.Process.Copied.{args_at, thread_create_copies, with_arguments}
use tupix.Process.Created.{prepared, slot_of, with_thread}
use tupix.Process.Spawned.{
  CanSpawn, data-Reaches, data_entry, first_thread, next_slot_range, process_create-makes,
  process_made, process_of,
}
use tupix.Process.{new_process, process_create}
use tupix.Scheduler.{get_cur_process}
use tupix.Thread.{get_stack_pointer, thread_stack_base}
use tupix.Types.Refine.{contents, pop_index-head}

-- What `process_create` makes of the kernel for these arguments.
abbrev pub forked : Kernel → ℕ → ℕ → ℕ → List ℕ → Kernel
forked k func s cur bytes =
    with_arguments (process_made k s cur) s (process_of k s) 1 func cur bytes

-- The copy of the arguments spares the first page of every megabyte.
copy_in-forked :
    (k : Kernel) (func s cur : ℕ) (bytes : List ℕ)
    → s < length k.processes
    → s ≤ n_processes
    → length k.udata_cpy ≤ 2 ^ 12
    → length bytes ≤ 0x400
    → copy_in (switch_memory (forked k func s cur bytes) s) thread_stack_base (length k.udata_cpy)
      ≡ ok k.udata_cpy
unfolding switch_memory load_process init_thread_memory update new_process
copy_in-forked k func s cur bytes there hs hn hb =
    let page : ℕ = (udata_ustack_phys_base_mb + s) * 2 ^ 20 in
    let args : ℕ = args_at (u32 (k.pid_counter + 1)) 1 (length bytes) in
    copy_in_block _ thread_stack_base page k.udata_cpy
      (data-Reaches _ (with_thread (process_of k s) 1) s (length k.udata_cpy)
        (ap from_option (
          get_elem?-set_self (set k.processes s (process_of k s)) s _
            (rw (length-set k.processes s (process_of k s)) there)))
        (data_entry s) hs hn)
      (λ j p.
        write_block-outside (write_block k.memory page k.udata_cpy) args bytes (page + j)
          (omega arith)
        ∙ write_block-inside k.memory page k.udata_cpy j p)
      (omega arith)

-- In a kernel that may get one more process, with a next pid that leaves its megabyte below 4096 and
-- arguments of up to 1 KB that the caller can read once the tables of the process are made:
-- `process_create` succeeds and takes the next free slot; the thread 1 of the process is the last of
-- the run queue; the process reads, through its own table, at the stack pointer of that thread just
-- the bytes that the caller read, and at its start the user data.
pub process_create_copies :
    (k : Kernel) (func args s cur : ℕ) (rest bytes : List ℕ)
    → CanSpawn k s cur rest
    → udata_ustack_phys_base_mb + u32 (k.pid_counter + 1) < 2 ^ 12
    → args ≢ 0
    → (0 < length bytes) × (length bytes ≤ 0x400)
    → copy_in (prepared (process_made k s cur) s (process_of k s) 1) args (length bytes) ≡ ok bytes
    → let k' = forked k func s cur bytes in
      (process_create k func args (length bytes) ≡ ok k')
      × (contents k'.free_process_indices_q ≡ rest)
      × (contents k'.thread_indices_q ≡ contents k.thread_indices_q ++ slot_of s 1 ∷ [])
      × (copy_in (switch_memory k' s) (sub32 (get_stack_pointer 1) (length bytes)) (length bytes)
          ≡ ok bytes)
      × (copy_in (switch_memory k' s) thread_stack_base (length k.udata_cpy) ≡ ok k.udata_cpy)
unfolding get_cur_process load_thread new_process
process_create_copies k func args s cur rest bytes h m given n read =
    let slots : length k.processes ≡ n_processes + 1 = h.sound.process_slots in
    let (popped, left) =
      pop_index-head k.free_process_indices_q s rest h.sound.free_table.indices h.next in
    let (created, last, free, reads, outside) =
      thread_create_copies (process_made k s cur) s func args cur (process_of k s) 1
        (2 ∷ 3 ∷ 4 ∷ []) bytes (first_thread h) m given n read h.running in
    (
      process_create-makes k func args (length bytes) s cur popped (next_slot_range h).1 slots
            h.data_fits h.running
          ∙ ap (λ (r : Result (Option ℕ × Kernel)). r >>= λ (thread, k'). ok k') created,
      left,
      last,
      reads,
      copy_in-forked k func s cur bytes (omega (arith, slots, next_slot_range h))
          (next_slot_range h).1 h.data_fits n.1,
    )
