-- ===== src/Scheduler/Cycle.antt =====
-- `scheduler_cycle` of system/scheduler.c, by what it does to the run queue.
use tupix.Base.{
  List, [], ap, arith, false, get_elem?, length, none, refl, set, some, ℕ, ◌*◌, ◌++◌, ◌+◌, ◌-◌, ◌<◌,
  ◌∙◌, ◌∷◌, ◌≡◌, ◌≢◌, ◌≤◌,
}
use tupix.Types.Inv.{size-pop_index, size-push_index}
use tupix.Context.Switch.{switch_context-switches, switch_context-none}
use tupix.Base.Int.{pos}
use tupix.Types.{IndexQueue, push_index, pop_index}
use tupix.Types.Refine.{
  HasIndices, contents, InRange, pop_index-head, pop_index-HasIndices, push_index_fits,
  push_index-HasIndices, length-contents,
}
use tupix.Base.Result.{ok}
use tupix.Scheduler.{scheduler_cycle, switch_to}
use tupix.Kernel.{
  null_thread, Kernel, Tcb, load_thread, n_threads, n_processes, n_threads_per_process, Pcb,
  deref_process,
}
use tupix.Context.{save_context, load_context, switch_context, get_global_thread_index}

-- What `scheduler_cycle` leaves when it takes `x` from the head of the run queue and `old` was
-- running: the *local* index of `old` goes to the end of the queue.
pub record Switched (k : Kernel) (x : ℕ) (rest : List ℕ) (old new : Tcb) (k' : Kernel)
    : Type 0 where
  pub running : k'.running_thread ≡ x
  pub run_queue : contents k'.thread_indices_q ≡ rest ++ (old.index ∷ [])
  pub valid : HasIndices k'.thread_indices_q
  pub saved : k'.threads ≡ set k.threads k.running_thread (save_context k.regs old)
  pub frame : k'.regs ≡ load_context k.regs new
  pub size : k'.thread_indices_q.size ≡ k.thread_indices_q.size
  pub asleep : k'.sleep_waiting_q ≡ k.sleep_waiting_q

-- The head of the queue is popped and switched to.
pub scheduler_cycle-pops :
    (k : Kernel) (x : ℕ)
    → (pop_index k.thread_indices_q).0 ≡ pos x
    → k.thread_indices_q.count ≢ 0
    → scheduler_cycle k false
      ≡ switch_to
          (record k { thread_indices_q = (pop_index k.thread_indices_q).1 })
          k.running_thread
          x
unfolding scheduler_cycle
scheduler_cycle-pops k x e ne = ground arith

switch_to-pushes :
    (k : Kernel) (old_thread x i : ℕ) (old : Tcb)
    → old_thread ≢ null_thread
    → get_elem? k.threads old_thread ≡ some old
    → (push_index k.thread_indices_q old.index).0 ≡ pos i
    → switch_to k old_thread x
      ≡ switch_context
          (record k {
            running_thread = x;
            thread_indices_q = (push_index k.thread_indices_q old.index).1;
          })
          (some old_thread)
          x
unfolding switch_to load_thread
switch_to-pushes k old_thread x i old ne at e = ground arith

pub scheduler_cycle-Switched :
    (k : Kernel) (x slot : ℕ) (rest : List ℕ) (old new : Tcb)
    → HasIndices k.thread_indices_q
    → contents k.thread_indices_q ≡ x ∷ rest
    → k.running_thread ≢ null_thread
    → k.running_thread ≢ x
    → get_elem? k.threads k.running_thread ≡ some old
    → InRange k.thread_indices_q.size old.index
    → get_elem? k.threads x ≡ some new
    → new.process ≡ some slot
    → (k' : Kernel) × (scheduler_cycle k false ≡ ok k') × Switched k x rest old new k'
scheduler_cycle-Switched k x slot rest old new h e ne ne' at r at' p =
    let popped = pop_index-head k.thread_indices_q x rest h e in
    let run : IndexQueue = (pop_index k.thread_indices_q).1 in
    let run_ok : HasIndices run = pop_index-HasIndices k.thread_indices_q h in
    let same : run.size ≡ k.thread_indices_q.size = size-pop_index k.thread_indices_q in
    let counts : (run.count < k.thread_indices_q.count) × (k.thread_indices_q.count ≤ run.size) =
      omega (
        arith,
        same,
        h.valid.count_in,
        length-contents run,
        length-contents k.thread_indices_q,
        ap length e,
        ap length popped.1,
      ) in
    let pushed = push_index_fits run old.index run_ok.valid (rw same r) (omega arith) in
    let k1 : Kernel = record k { thread_indices_q = run } in
    let k2 : Kernel = record k1 {
      running_thread = x;
      thread_indices_q = (push_index run old.index).1;
    } in
    (
      record k2 {
        threads = set k.threads k.running_thread (save_context k.regs old);
        regs = load_context k.regs new;
        active = slot;
      },
      scheduler_cycle-pops k x popped.0 (omega arith)
          ∙ switch_to-pushes k1 k.running_thread x old.index old ne at pushed.0
          ∙ switch_context-switches k2 k.running_thread x slot old new ne ne' at at' p,
      record {
        running = refl;
        run_queue = pushed.1 ∙ ap (λ l. l ++ (old.index ∷ [])) popped.1;
        valid = push_index-HasIndices run old.index run_ok;
        saved = refl;
        frame = refl;
        size = size-push_index run old.index ∙ same;
        asleep = refl;
      },
    )

-- Where a thread of the process `p` stands: what registering it computed.
pub record IsPlaced (k : Kernel) (slot : ℕ) (t : Tcb) (p : Pcb) : Type 0 where
  pub found : get_elem? k.threads slot ≡ some t
  pub owner : deref_process k t.process ≡ ok p
  pub process_index : (0 < p.index) × (p.index ≤ n_processes)
  pub thread_index : (0 < t.index) × (t.index ≤ n_threads_per_process)
  pub placed : get_global_thread_index k t ≡ ok slot

-- A slot is the thread's local index just in the first process.
pub IsPlaced-slot :
    {k : Kernel} {slot : ℕ} {t : Tcb} {p : Pcb}
    → IsPlaced k slot t p
    → slot ≡ (p.index - 1) * n_threads_per_process + t.index
unfolding get_global_thread_index
IsPlaced-slot h = ground (arith, h.owner, h.placed, h.process_index, h.thread_index)

pub IsPlaced-InRange :
    {k : Kernel} {slot : ℕ} {t : Tcb} {p : Pcb} → IsPlaced k slot t p → InRange n_threads slot
IsPlaced-InRange h = omega (arith, IsPlaced-slot h, h.process_index, h.thread_index)

switch_to-null :
    (k : Kernel) (x : ℕ)
    → switch_to k null_thread x ≡ switch_context (record k { running_thread = x }) none x
unfolding switch_to
switch_to-null k x = refl

-- From the null thread, whose registers are never saved, the head of the run queue is switched to.
pub scheduler_cycle-from_null :
    (k : Kernel) (x slot : ℕ) (rest : List ℕ) (new : Tcb)
    → k.running_thread ≡ null_thread
    → HasIndices k.thread_indices_q
    → contents k.thread_indices_q ≡ x ∷ rest
    → get_elem? k.threads x ≡ some new
    → new.process ≡ some slot
    → scheduler_cycle k false
      ≡ ok (record k {
        thread_indices_q = (pop_index k.thread_indices_q).1;
        running_thread = x;
        regs = load_context k.regs new;
        active = slot;
      })
scheduler_cycle-from_null k x slot rest new idle h e at process =
    let run : IndexQueue = (pop_index k.thread_indices_q).1 in
    scheduler_cycle-pops k x (pop_index-head k.thread_indices_q x rest h e).0
      (omega (arith, ap length e, length-contents k.thread_indices_q))
    ∙ ap (λ r. switch_to (record k { thread_indices_q = run }) r x) idle
    ∙ switch_to-null (record k { thread_indices_q = run }) x
    ∙ switch_context-none (record k { thread_indices_q = run; running_thread = x }) x slot new at
        process
