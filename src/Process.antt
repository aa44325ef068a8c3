-- ===== src/Process.antt =====
-- system/process.c, and `thread_create` of system/thread.c, which needs the scheduler.
pub mod Created
pub mod Copied
pub mod Spawned
pub mod Forked
use tupix.Base.{Option, if◌then◌else◌, none, some, sub32, u32, ℕ, ◌+◌, ◌==◌, ◌||◌}
use tupix.Base.Int.{negsuc, pos}
use tupix.Base.Result.{◌>>=◌, from_option, ok, Result}
use tupix.Mmu.{init_thread_memory, init_process_memory, cleared}
use tupix.Thread.{init_thread, thread_stack_base, get_stack_pointer}
use tupix.Memory.{copy_out, copy_in, switch_memory}
use tupix.Scheduler.{get_cur_process}
use tupix.Kernel.{store_process, Pcb, n_threads_per_process, load_process, Kernel, Tcb}
use tupix.Types.{mark_all_free, init_queue, pop_index}
use tupix.Tables.{scheduler_register_thread, scheduler_register_process}

-- The stack of the new thread gets a copy of the arguments: out of the caller's memory, through a
-- buffer, into the new thread's.
unfoldable pub copy_args : Kernel → ℕ → ℕ → ℕ → ℕ → Result Kernel
copy_args k process args args_size thread_sp = do
  args_buffer ← copy_in k args args_size
  k ← copy_out (switch_memory k process) (sub32 thread_sp args_size) args_buffer
  cur ← get_cur_process k
  slot ← from_option cur
  ok (switch_memory k slot)

-- The part of `thread_create` once the stack pointer is known.
unfoldable pub start_thread : Kernel → ℕ → Tcb → ℕ → ℕ → ℕ → Result (Option ℕ × Kernel)
start_thread k p new_thread thread_sp args args_size =
    if args == 0 || args_size == 0
    then scheduler_register_thread k
        (record new_thread { regs = record (new_thread.regs) { sp = thread_sp; r0 = 0 } })
    else (do
      k ← copy_args k p args args_size thread_sp
      let sp = sub32 thread_sp args_size
      scheduler_register_thread k
          (record new_thread { regs = record (new_thread.regs) { sp = sp; r0 = sp } }))

-- The part of `thread_create` once the thread has its index in the process.
unfoldable pub create_at : Kernel → ℕ → Pcb → Tcb → ℕ → ℕ → ℕ → Result (Option ℕ × Kernel)
create_at k p process new_thread index args args_size = do
  k ←
      store_process k p
        (record process { l2_table = init_thread_memory process.pid index process.l2_table })
  let thread_sp = get_stack_pointer index
  if thread_sp == 0
      then ok (none, k)
      else start_thread k p (record new_thread { index = index }) thread_sp args args_size

-- The slot of the new thread, or none for NULL. `p` is the slot of its process.
unfoldable pub thread_create : Kernel → ℕ → ℕ → ℕ → ℕ → Result (Option ℕ × Kernel)
thread_create k p func args args_size = do
  let (new_thread, k) = init_thread k p func
  process ← load_process k p
  let (index, free) = pop_index process.free_indices_q
  elim index [
    | negsuc _ ↦ ok (none, k)
    | pos i ↦ create_at k p (record process { free_indices_q = free }) new_thread i args args_size
  ]

-- The `struct pcb p` that `process_create` builds on its stack.
unfoldable pub new_process : ℕ → Pcb
new_process pid = record {
  pid = pid;
  index = 0;
  free_indices_q = mark_all_free (init_queue n_threads_per_process);
  l2_table = cleared;
}

-- The memory of a process that is registered in a slot: its page table, and its copy of the user
-- data.
unfoldable pub init_process : Kernel → ℕ → Result Kernel
init_process k slot = do
  p ← load_process k slot
  k ← store_process k slot (record p { l2_table = init_process_memory p.index })
  k ← copy_out (switch_memory k slot) thread_stack_base k.udata_cpy
  cur ← get_cur_process k
  cur_slot ← from_option cur
  ok (switch_memory k cur_slot)

unfoldable pub process_create : Kernel → ℕ → ℕ → ℕ → Result Kernel
process_create k func args args_size = do
  let pid = u32 (k.pid_counter + 1)
  (process, k) ← scheduler_register_process (record k { pid_counter = pid }) (new_process pid)
  elim process [
    | none ↦ ok k
    | some slot ↦ init_process k slot >>= λ k'.
        thread_create k' slot func args args_size >>= λ (thread, k''). ok k''
  ]
