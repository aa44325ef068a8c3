-- ===== src/Scheduler/Kill.antt =====
-- `kill_cur_thread` of system/scheduler.c.
use tupix.Base.{
  length, length-append, Bool-cases, inl, inr, ◌++◌, ◌+◌, ◌<◌, ◌==◌, List, [], ap, arith, get_elem?,
  get_elem?-set_self, get_elem?-some-lt, if◌then◌else◌, leb, refl, set, some, ℕ, ◌∙◌, ◌∷◌, ◌≡◌,
}
use tupix.Context.Switch.{switch_context-none, user_view, user_view-loads}
use tupix.Base.Int.{negsuc, pos, ℤ}
use tupix.Types.Refine.{
  InRange, length-contents, push_index_fits, contents, HasIndices, spec_pop, pop_index_refines,
}
use tupix.Types.Inv.{size-push_index}
use tupix.Base.Result.{ok}
use tupix.Scheduler.{release_thread, kill_cur_thread}
use tupix.Kernel.{
  n_processes, n_threads_per_process, store_process, Tcb, Pcb, load_process, Kernel, null_thread,
  load_thread,
}
use tupix.Types.{IndexQueue, push_index, pop_index}
use tupix.Context.{load_context}

-- The slot that runs after the queue `l` is popped, and what is left of the queue.
abbrev pub head_or_null : List ℕ → ℕ
head_or_null [] = null_thread
head_or_null (x ∷ l) = x

abbrev pub drop_first : List ℕ → List ℕ
drop_first [] = []
drop_first (x ∷ l) = l

-- The queue of the free indices of the process still takes the index of its thread, and the queue of
-- the free processes takes that of the process. The first has its array in a dead frame of
-- `process_create`, so that nothing in the code keeps it valid.
pub record CanRelease (k : Kernel) (cur : Tcb) (p : Pcb) : Type 0 where
  pub threads : HasIndices p.free_indices_q
  pub threads_size : p.free_indices_q.size ≡ n_threads_per_process
  pub thread_index : InRange n_threads_per_process cur.index
  pub thread_room : p.free_indices_q.count < n_threads_per_process
  pub processes : HasIndices k.free_process_indices_q
  pub processes_size : k.free_process_indices_q.size ≡ n_processes
  pub process_index : InRange n_processes p.index
  pub process_room : k.free_process_indices_q.count < n_processes

-- What killing the running thread leaves: the next thread runs on its registers, the killed thread's
-- index in its process can be given again, and the process can be too when it has no other thread.
-- Beside log lines nothing is printed.
pub record Killed (k : Kernel) (owner : ℕ) (l : List ℕ) (cur new : Tcb) (p : Pcb) (k' : Kernel)
    : Type 0 where
  pub runs : k'.running_thread ≡ head_or_null l
  pub run_queue : contents k'.thread_indices_q ≡ drop_first l
  pub user : user_view k'.regs ≡ (new.regs, new.cpsr)
  pub process_after :
      (p' : Pcb) × (get_elem? k'.processes owner ≡ some p')
      × (contents p'.free_indices_q ≡ contents p.free_indices_q ++ cur.index ∷ [])
      × (p'.pid ≡ p.pid)
      × (p'.index ≡ p.index)
      × (p'.l2_table ≡ p.l2_table)
  pub free_processes : contents k'.free_process_indices_q ≡ (
      if length (contents p.free_indices_q) + 1 == n_threads_per_process
      then contents k.free_process_indices_q ++ p.index ∷ []
      else contents k.free_process_indices_q)
  pub silent : k'.transmitted ≡ k.transmitted

-- The queue of the free processes after the end of a thread.
abbrev free_after : Kernel → Tcb → Pcb → IndexQueue
free_after k cur p =
    if leb p.free_indices_q.size (push_index p.free_indices_q cur.index).1.count
    then (push_index k.free_process_indices_q p.index).1
    else k.free_process_indices_q

thread_freed :
    (k : Kernel) (cur : Tcb) (p : Pcb)
    → CanRelease k cur p
    → contents (push_index p.free_indices_q cur.index).1
      ≡ contents p.free_indices_q ++ cur.index ∷ []
thread_freed k cur p h =
    let size : p.free_indices_q.size ≡ n_threads_per_process = h.threads_size in
    (push_index_fits p.free_indices_q cur.index h.threads.valid
      (omega (arith, size, h.thread_index)) (omega (arith, size, h.thread_room))).1

processes_freed :
    (k : Kernel) (cur : Tcb) (p : Pcb)
    → CanRelease k cur p
    → contents (free_after k cur p) ≡ (
        if length (contents p.free_indices_q) + 1 == n_threads_per_process
        then contents k.free_process_indices_q ++ p.index ∷ []
        else contents k.free_process_indices_q)
processes_freed k cur p h =
    let size : p.free_indices_q.size ≡ n_threads_per_process = h.threads_size in
    let room : p.free_indices_q.count < n_threads_per_process = h.thread_room in
    let after = (push_index p.free_indices_q cur.index).1 in
    let counted : after.count ≡ length (contents p.free_indices_q) + 1 = omega (
      arith,
      length-contents after,
      ap length (thread_freed k cur p h),
      length-append (contents p.free_indices_q) (cur.index ∷ []),
    ) in
    let same : leb p.free_indices_q.size after.count
        ≡ (length (contents p.free_indices_q) + 1 == n_threads_per_process) =
      ground (arith, counted, size, room, length-contents p.free_indices_q) in
    let taken =
      (push_index_fits k.free_process_indices_q p.index h.processes.valid
        (omega (arith, h.processes_size, h.process_index))
        (omega (arith, h.processes_size, h.process_room))).1 in
    elim (Bool-cases (length (contents p.free_indices_q) + 1 == n_threads_per_process)) [
      | inl last ↦ rw (same, last) taken
      | inr others ↦ rw (same, others) refl
    ]

release_thread-releases :
    (k : Kernel) (owner : ℕ) (cur : Tcb) (p : Pcb)
    → get_elem? k.processes owner ≡ some p
    → release_thread k (some owner) cur
      ≡ ok (record k {
        processes =
            set k.processes owner
              (record p { free_indices_q = (push_index p.free_indices_q cur.index).1 });
        free_process_indices_q =
            if leb p.free_indices_q.size (push_index p.free_indices_q cur.index).1.count
            then (push_index k.free_process_indices_q p.index).1
            else k.free_process_indices_q;
      })
unfolding release_thread load_process store_process
release_thread-releases k owner cur p found =
    ground
      (arith, get_elem?-some-lt k.processes owner found, size-push_index p.free_indices_q cur.index)

-- The slot that runs after a pop.
unfoldable pub next_slot : ℤ → ℕ
next_slot (negsuc _) = null_thread
next_slot (pos i) = i

kill_cur_thread-switches :
    (k : Kernel) (x slot owner : ℕ) (cur new : Tcb)
    → get_elem? k.threads k.running_thread ≡ some cur
    → cur.process ≡ some owner
    → next_slot (pop_index k.thread_indices_q).0 ≡ x
    → get_elem? k.threads x ≡ some new
    → new.process ≡ some slot
    → kill_cur_thread k
      ≡ release_thread
          (record k {
            thread_indices_q = (pop_index k.thread_indices_q).1;
            running_thread = x;
            regs = load_context k.regs new;
            active = slot;
          })
          (some owner)
          cur
unfolding kill_cur_thread load_thread next_slot
kill_cur_thread-switches k x slot owner cur new found process next at at' =
    rw
      (
        found,
        process,
        next,
        switch_context-none
            (record k { thread_indices_q = (pop_index k.thread_indices_q).1; running_thread = x }) x
            slot new at at',
      )
      refl

next_slot-spec_pop : (l : List ℕ) → next_slot (spec_pop l).0 ≡ head_or_null l
unfolding spec_pop next_slot
next_slot-spec_pop [] = refl
next_slot-spec_pop (x ∷ l) = refl

rest-spec_pop : (l : List ℕ) → (spec_pop l).1 ≡ drop_first l
unfolding spec_pop
rest-spec_pop [] = refl
rest-spec_pop (x ∷ l) = refl

-- The running thread ends, while its process can take its index back and the queue of free processes
-- the process: the head of the run queue runs next, or the null thread when the queue is empty, on its
-- saved registers; the index of the ended thread stands last among the free indices of its process,
-- and that of the process last among the free processes just when all its threads are free.
pub kill_cur_thread_frees :
    (k : Kernel) (slot owner : ℕ) (l : List ℕ) (cur new : Tcb) (p : Pcb)
    → HasIndices k.thread_indices_q
    → contents k.thread_indices_q ≡ l
    → get_elem? k.threads k.running_thread ≡ some cur
    → cur.process ≡ some owner
    → get_elem? k.processes owner ≡ some p
    → get_elem? k.threads (head_or_null l) ≡ some new
    → new.process ≡ some slot
    → CanRelease k cur p
    → (k' : Kernel) × (kill_cur_thread k ≡ ok k') × Killed k owner l cur new p k'
kill_cur_thread_frees k slot owner l cur new p h e found process owned at at' r =
    let x : ℕ = head_or_null l in
    let popped = pop_index_refines k.thread_indices_q h ∙ ap spec_pop e in
    let switched : Kernel = record k {
      thread_indices_q = (pop_index k.thread_indices_q).1;
      running_thread = x;
      regs = load_context k.regs new;
      active = slot;
    } in
    let p' : Pcb = record p { free_indices_q = (push_index p.free_indices_q cur.index).1 } in
    (
      record switched {
        processes = set k.processes owner p';
        free_process_indices_q = free_after k cur p;
      },
      kill_cur_thread-switches k x slot owner cur new found process
            (ap (λ r. next_slot r.0) popped ∙ next_slot-spec_pop l) at at'
          ∙ release_thread-releases switched owner cur p owned,
      record {
        runs = refl;
        run_queue = ap (λ r. r.1) popped ∙ rest-spec_pop l;
        user = user_view-loads k.regs new;
        process_after = (
          p',
          get_elem?-set_self k.processes owner p' (get_elem?-some-lt k.processes owner owned),
          thread_freed k cur p r,
          refl,
          refl,
          refl,
        );
        free_processes = processes_freed k cur p r;
        silent = refl;
      },
    )
