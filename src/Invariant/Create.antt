-- ===== src/Invariant/Create.antt =====
-- The tables at boot, and the creation of processes and threads.
use tupix.Base.{List, Option, [], arith, none, refl, some, u32, ℕ, ◌+◌, ◌<◌, ◌==◌, ◌^◌, ◌||◌, ◌∷◌}
use tupix.Thread.{init_thread, thread_stack_base, get_stack_pointer}
use tupix.Types.Refine.{mark_all_free-init_queue, contents}
use tupix.Types.Inv.{init_queue-IsValid}
use tupix.Invariant.Switch.{store_process-IsSound, store_thread-IsSound}
use tupix.Base.Result.{from_option, ok, ◌>>=◌}
use tupix.Mmu.{update}
use tupix.Memory.{copy_in, switch_memory, copy_out, translate}
use tupix.Scheduler.{get_cur_process}
use tupix.Kernel.{
  n_processes, Pcb, Kernel, store_process, store_thread, n_threads_per_process, n_threads, Tcb,
  load_process,
}
use tupix.Types.{mark_free_from, mark_all_free, circle_forward, init_queue, pop_index, push_index}
use tupix.Tables.{scheduler_register_thread, scheduler_register_process}
use tupix.Invariant.{
  Ensures, pop_index-IsTable, IsSound, Ensures-index, IsTable, Ensures-bind, push_index-IsTable,
  with_free, Ensures-any, with_run, Ensures-if,
}
use tupix.Context.{get_global_thread_index}
use tupix.Process.{
  copy_args, start_thread, new_process, create_at, init_process, process_create, thread_create,
}

pub init_queue-IsTable : (n : ℕ) → 0 < n → n < 2 ^ 31 → IsTable n (init_queue n)
unfolding init_queue contents
init_queue-IsTable n p h = record {
  indices = record { valid = init_queue-IsValid n p h; entries = tt };
  size = refl;
}

pub all_free-IsTable_process :
    IsTable n_threads_per_process (mark_all_free (init_queue n_threads_per_process))
unfolding mark_all_free mark_free_from init_queue push_index circle_forward
all_free-IsTable_process =
    let (valid, entries) =
      mark_all_free-init_queue n_threads_per_process (omega arith) (omega arith) in
    record { indices = record { valid = valid; entries = rw entries (omega arith) }; size = refl }

pub all_free-IsTable_scheduler : IsTable n_processes (mark_all_free (init_queue n_processes))
unfolding mark_all_free mark_free_from init_queue push_index circle_forward
all_free-IsTable_scheduler =
    let (valid, entries) = mark_all_free-init_queue n_processes (omega arith) (omega arith) in
    record { indices = record { valid = valid; entries = rw entries (omega arith) }; size = refl }

-- What the creating functions return: a slot or NULL, and the kernel.
abbrev pub IsSoundPair : Option ℕ × Kernel → Type 0
IsSoundPair r = IsSound r.1

register_process-IsSound :
    (k : Kernel) (p : Pcb) → IsSound k → Ensures IsSoundPair (scheduler_register_process k p)
unfolding scheduler_register_process
register_process-IsSound k p h =
    let free =
      with_free h _ (pop_index-IsTable n_processes k.free_process_indices_q h.free_table) in
    Ensures-index IsSoundPair (pop_index k.free_process_indices_q).0 _ _
      (λ i e.
        Ensures-bind IsSound IsSoundPair (store_process _ i (record p { index = i })) _
          (store_process-IsSound _ i (record p { index = i }) free) (λ k' h'. h'))
      (λ x. free)

register_thread-IsSound :
    (k : Kernel) (t : Tcb) → IsSound k → Ensures IsSoundPair (scheduler_register_thread k t)
unfolding scheduler_register_thread
register_thread-IsSound k t h =
    Ensures-bind (λ i. Unit {0}) IsSoundPair (get_global_thread_index k t) _ (Ensures-any _)
      (λ i _.
        let run = with_run h _ (push_index-IsTable n_threads k.thread_indices_q i h.run_table) in
        Ensures-index IsSoundPair (push_index k.thread_indices_q i).0 _ _
          (λ x e.
            Ensures-bind IsSound IsSoundPair (store_thread _ i t) _ (store_thread-IsSound _ i t run)
              (λ k' h'. h'))
          (λ x. run))

copy_out-IsSound :
    (k : Kernel) (dest : ℕ) (bytes : List ℕ) → IsSound k → Ensures IsSound (copy_out k dest bytes)
unfolding copy_out
copy_out-IsSound k dest [] h = h
copy_out-IsSound k dest (b ∷ bytes) h =
    Ensures-bind (λ a. Unit {0}) IsSound (translate k dest) _ (Ensures-any _)
      (λ a _. copy_out-IsSound (record k { memory = update k.memory a b }) (u32 (dest + 1)) bytes h)

-- The end of both copies: back to the memory of the running process.
switch_back-IsSound :
    (k : Kernel)
    → IsSound k
    → Ensures IsSound
        (get_cur_process k >>= λ cur. from_option cur >>= λ slot. ok (switch_memory k slot))
unfolding switch_memory
switch_back-IsSound k h =
    Ensures-bind (λ c. Unit {0}) IsSound (get_cur_process k) _ (Ensures-any _)
      (λ cur _.
        Ensures-bind (λ c. Unit {0}) IsSound (from_option cur) _ (Ensures-any _) (λ slot _. h))

copy_args-IsSound :
    (k : Kernel) (p args size sp : ℕ) → IsSound k → Ensures IsSound (copy_args k p args size sp)
unfolding copy_args switch_memory
copy_args-IsSound k p args size sp h =
    Ensures-bind (λ b. Unit {0}) IsSound (copy_in k args size) _ (Ensures-any _)
      (λ buffer _.
        Ensures-bind IsSound IsSound (copy_out _ _ buffer) _ (copy_out-IsSound _ _ buffer h)
          (λ k' h'. switch_back-IsSound k' h'))

start_thread-IsSound :
    (k : Kernel) (p : ℕ) (t : Tcb) (sp args size : ℕ)
    → IsSound k
    → Ensures IsSoundPair (start_thread k p t sp args size)
unfolding start_thread
start_thread-IsSound k p t sp args size h =
    Ensures-if IsSoundPair (args == 0 || size == 0) _ _ (register_thread-IsSound k _ h) (
      Ensures-bind IsSound IsSoundPair (copy_args k p args size sp) _
        (copy_args-IsSound k p args size sp h) (λ k' h'. register_thread-IsSound k' _ h'))

create_at-IsSound :
    (k : Kernel) (p : ℕ) (process : Pcb) (t : Tcb) (index args size : ℕ)
    → IsSound k
    → Ensures IsSoundPair (create_at k p process t index args size)
unfolding create_at
create_at-IsSound k p process t index args size h =
    Ensures-bind IsSound IsSoundPair (store_process k p _) _ (store_process-IsSound k p _ h)
      (λ k' h'.
        Ensures-if IsSoundPair (get_stack_pointer index == 0) _ _ h'
          (start_thread-IsSound k' p _ (get_stack_pointer index) args size h'))

pub thread_create-IsSound :
    (k : Kernel) (p func args size : ℕ)
    → IsSound k
    → Ensures IsSoundPair (thread_create k p func args size)
unfolding thread_create init_thread
thread_create-IsSound k p func args size h =
    Ensures-bind (λ p. Unit {0}) IsSoundPair (load_process _ p) _ (Ensures-any _)
      (λ process _.
        Ensures-index IsSoundPair (pop_index process.free_indices_q).0 _ _
          (λ i e. create_at-IsSound _ p _ _ i args size h) (λ x. h))

init_process-IsSound : (k : Kernel) (slot : ℕ) → IsSound k → Ensures IsSound (init_process k slot)
unfolding init_process switch_memory
init_process-IsSound k slot h =
    Ensures-bind (λ p. Unit {0}) IsSound (load_process k slot) _ (Ensures-any _)
      (λ p _.
        Ensures-bind IsSound IsSound (store_process k slot _) _ (store_process-IsSound k slot _ h)
          (λ k' h'.
            Ensures-bind IsSound IsSound (copy_out _ thread_stack_base k'.udata_cpy) _
              (copy_out-IsSound _ _ _ h') (λ k'' h''. switch_back-IsSound k'' h'')))

pub process_create-IsSound :
    (k : Kernel) (func args size : ℕ)
    → IsSound k
    → Ensures IsSound (process_create k func args size)
unfolding process_create new_process
process_create-IsSound k func args size h =
    Ensures-bind IsSoundPair IsSound (scheduler_register_process _ (new_process _)) _
      (register_process-IsSound _ (new_process _) h) (λ (slot, k') h'. created slot k' h')
  where
    created :
        (slot : Option ℕ) (k' : Kernel)
        → IsSound k'
        → Ensures IsSound (elim slot [
          | none ↦ ok k'
          | some slot ↦ init_process k' slot >>= λ k''.
              thread_create k'' slot func args size >>= λ (thread, k'''). ok k'''
        ])
    created none k' h' = h'
    created (some slot) k' h' =
        Ensures-bind IsSound IsSound (init_process k' slot) _ (init_process-IsSound k' slot h')
          (λ k'' h''.
            Ensures-bind IsSoundPair IsSound (thread_create k'' slot func args size) _
              (thread_create-IsSound k'' slot func args size h'') (λ (t, k''') h'''. h'''))
