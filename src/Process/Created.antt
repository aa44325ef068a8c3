-- ===== src/Process/Created.antt =====
-- `scheduler_register_thread` of system/scheduler.c and `thread_create` of system/thread.c: the slot,
-- the place in the run queue and the record of a new thread.
use tupix.Base.{
  List, get_elem?-set_self, All, subst, ◌⊎◌, ◌||◌, [], arith, false, get_elem?, length, refl, set,
  some, u32, ℕ, ◌*◌, ◌++◌, ◌+◌, ◌-◌, ◌^◌, ◌<◌, ◌==◌, ◌∙◌, ◌∷◌, ◌≡◌, ◌≤◌, true, get_elem?-some-lt,
  ltb,
}
use tupix.Base.Int.{pos}
use tupix.Base.Result.{ok}
use tupix.Context.{get_global_thread_index}
use tupix.Invariant.{IsTable, elim_pos}
use tupix.Kernel.{
  Kernel, Pcb, Tcb, deref_process, load_process, n_processes, n_threads, n_threads_per_process,
  ready, store_process, store_thread,
}
use tupix.Mmu.{init_thread_memory}
use tupix.Process.{create_at, start_thread, thread_create}
use tupix.Registers.{processor_mode_usr, zero_registers}
use tupix.Tables.{scheduler_register_thread}
use tupix.Thread.{get_stack_pointer, init_thread}
use tupix.Types.{pop_index, push_index}
use tupix.Types.Refine.{contents, InRange, pop_index-head, push_index_fits}

-- The slot of the thread `index` of the process with the index `process_index`.
abbrev pub slot_of : ℕ → ℕ → ℕ
slot_of process_index index = (process_index - 1) * n_threads_per_process + index

-- What `scheduler_register_thread` makes of the kernel.
abbrev pub registered : Kernel → ℕ → Tcb → Kernel
registered k slot t = record k {
  thread_indices_q = (push_index k.thread_indices_q slot).1;
  threads = set k.threads slot t;
}

-- The process may get one more thread: it is registered, and the run queue has room.
pub record HasRoom (k : Kernel) (p : ℕ) (process : Pcb) : Type 0 where
  pub found : get_elem? k.processes p ≡ some process
  pub placed : (0 < process.index) × (process.index ≤ n_processes)
  pub run : IsTable n_threads k.thread_indices_q
  pub thread_slots : length k.threads ≡ n_threads + 1
  pub room : k.thread_indices_q.count < n_threads

register_at :
    (k : Kernel) (t : Tcb) (slot : ℕ)
    → get_global_thread_index k t ≡ ok slot
    → (push_index k.thread_indices_q slot).0 ≡ pos slot
    → slot < length k.threads
    → scheduler_register_thread k t ≡ ok (some slot, registered k slot t)
unfolding scheduler_register_thread store_thread
register_at k t slot at pushed fits =
    let within : ltb slot (length k.threads) ≡ true = ground arith in
    rw at (elim_pos (push_index k.thread_indices_q slot).0 slot _ _ pushed ∙ rw within refl)

global_thread_index_lem :
    (k : Kernel) (p : ℕ) (process : Pcb) (t : Tcb)
    → get_elem? k.processes p ≡ some process
    → t.process ≡ some p
    → (0 < process.index) × (process.index ≤ n_processes)
    → (0 < t.index) × (t.index ≤ n_threads_per_process)
    → get_global_thread_index k t ≡ ok (slot_of process.index t.index)
unfolding get_global_thread_index deref_process load_process
global_thread_index_lem k p process t found e placed r = rw (e, found) (ground arith)

pub register_thread_appends :
    (k : Kernel) (p : ℕ) (process : Pcb) (t : Tcb)
    → HasRoom k p process
    → t.process ≡ some p
    → (0 < t.index) × (t.index ≤ n_threads_per_process)
    → (scheduler_register_thread k t
        ≡ ok (some (slot_of process.index t.index), registered k (slot_of process.index t.index) t))
      × (contents (registered k (slot_of process.index t.index) t).thread_indices_q
          ≡ contents k.thread_indices_q ++ slot_of process.index t.index ∷ [])
register_thread_appends k p process t h e r =
    let slot : ℕ = slot_of process.index t.index in
    let size : k.thread_indices_q.size ≡ n_threads = h.run.size in
    let slots : length k.threads ≡ n_threads + 1 = h.thread_slots in
    let placed : (0 < process.index) × (process.index ≤ n_processes) = h.placed in
    let room : k.thread_indices_q.count < n_threads = h.room in
    let (pushed, last) =
      push_index_fits k.thread_indices_q slot h.run.indices.valid (omega (arith, placed, r, size))
        (omega (arith, room, size)) in
    (
      register_at k t slot (global_thread_index_lem k p process t h.found e placed r) pushed
          (omega (arith, placed, r, slots)),
      last,
    )

-- The process once a thread has got the index `i`.
abbrev pub with_thread : Pcb → ℕ → Pcb
with_thread process i = record process {
  free_indices_q = (pop_index process.free_indices_q).1;
  l2_table = init_thread_memory process.pid i process.l2_table;
}

-- The kernel when the new thread's page is mapped.
abbrev pub prepared : Kernel → ℕ → Pcb → ℕ → Kernel
prepared k p process i = record k {
  tid_counter = u32 (k.tid_counter + 1);
  processes = set k.processes p (with_thread process i);
}

-- The record of the new thread, but its registers `sp` and `r0`.
abbrev pub new_tcb : Kernel → ℕ → ℕ → ℕ → ℕ → ℕ → Tcb
new_tcb k p i func sp r0 = record {
  tid = u32 (k.tid_counter + 1);
  index = i;
  process = some p;
  regs = record zero_registers { pc = func; lr = k.image.exit; sp = sp; r0 = r0 };
  cpsr = processor_mode_usr;
  waiting_duration = 0;
  state = ready;
}

pub stack_pointer_lem :
    (i : ℕ) → i ≤ n_threads_per_process → get_stack_pointer i ≡ 5 * 2 ^ 20 + i * 2 ^ 13 + 0x2400
unfolding get_stack_pointer
stack_pointer_lem i h = ground arith

pub thread_create-starts :
    (k : Kernel) (p func args size : ℕ) (process : Pcb) (i : ℕ)
    → get_elem? k.processes p ≡ some process
    → (pop_index process.free_indices_q).0 ≡ pos i
    → i ≤ n_threads_per_process
    → thread_create k p func args size
      ≡ start_thread
          (prepared k p process i)
          p
          (new_tcb k p i func 0 0)
          (get_stack_pointer i)
          args
          size
unfolding thread_create create_at init_thread load_process store_process
thread_create-starts k p func args size process i found popped h =
    let within : ltb p (length k.processes) ≡ true =
      ground (arith, get_elem?-some-lt k.processes p found) in
    let stack : (get_stack_pointer i == 0) ≡ false = rw (stack_pointer_lem i h) (ground arith) in
    rw found (elim_pos (pop_index process.free_indices_q).0 i _ _ popped ∙ rw (within, stack) refl)

-- The process has room for a thread, and `i` is the next of its free indices.
pub record CanCreate (k : Kernel) (p : ℕ) (process : Pcb) (i : ℕ) (rest : List ℕ) : Type 0 where
  pub has_room : HasRoom k p process
  pub free : IsTable n_threads_per_process process.free_indices_q
  pub next : contents process.free_indices_q ≡ i ∷ rest

pub next_index :
    {k : Kernel} {p : ℕ} {process : Pcb} {i : ℕ} {rest : List ℕ}
    → CanCreate k p process i rest
    → (0 < i) × (i ≤ n_threads_per_process)
next_index {process = process} {i = i} {rest = rest} h =
    let size : process.free_indices_q.size ≡ n_threads_per_process = h.free.size in
    let entries : All (InRange process.free_indices_q.size) (i ∷ rest) =
      subst (All (InRange process.free_indices_q.size)) h.next h.free.indices.entries in
    omega (arith, size, entries.0)

pub prepared-HasRoom :
    {k : Kernel} {p : ℕ} {process : Pcb} (i : ℕ)
    → HasRoom k p process
    → HasRoom (prepared k p process i) p (with_thread process i)
prepared-HasRoom {k} {p} {process} i h = record {
  found =
      get_elem?-set_self k.processes p (with_thread process i)
        (get_elem?-some-lt k.processes p h.found);
  placed = h.placed;
  run = h.run;
  thread_slots = h.thread_slots;
  room = h.room;
}

-- A registered process with a free index `i`, no arguments, a run queue with room: `thread_create`
-- returns the slot of the process and the index, in which it puts the new thread with the next tid,
-- the function to run, `exit` to return to, the stack of the index and 0 as its argument; the slot
-- becomes the last of the run queue, the index is no longer free, and the page of its stack is the
-- only change of the process's table. Nothing else of the kernel changes.
pub thread_create_registers :
    (k : Kernel) (p func args size : ℕ) (process : Pcb) (i : ℕ) (rest : List ℕ)
    → CanCreate k p process i rest
    → (args ≡ 0) ⊎ (size ≡ 0)
    → (thread_create k p func args size
        ≡ ok (
          some (slot_of process.index i),
          registered
              (prepared k p process i)
              (slot_of process.index i)
              (new_tcb k p i func (get_stack_pointer i) 0),
        ))
      × (contents (push_index k.thread_indices_q (slot_of process.index i)).1
          ≡ contents k.thread_indices_q ++ slot_of process.index i ∷ [])
      × (contents (with_thread process i).free_indices_q ≡ rest)
unfolding start_thread
thread_create_registers k p func args size process i rest h none_given =
    let (popped, left) = pop_index-head process.free_indices_q i rest h.free.indices h.next in
    let (appended, last) =
      register_thread_appends (prepared k p process i) p (with_thread process i)
        (new_tcb k p i func (get_stack_pointer i) 0) (prepared-HasRoom i h.has_room) refl
        (next_index h) in
    let no_args : (args == 0 || size == 0) ≡ true = ground arith in
    (
      thread_create-starts k p func args size process i h.has_room.found popped (next_index h).1
          ∙ rw no_args appended,
      last,
      left,
    )
