-- ===== src/Waiting/Park.antt =====
-- `push_waiting_thread`, `scheduler_on_sleep` and `scheduler_on_getchar` of system/scheduler.c.
use tupix.Base.{
  ap, sym, ◌⊎◌, ==_iff, Bool-cases, List, [], false, get_elem?, get_elem?-set_ne,
  get_elem?-set_self, get_elem?-some-lt, inl, inr, length, length-set, lt→ltb, refl, set, some, ℕ,
  ◌++◌, ◌<◌, ◌==◌, ◌∙◌, ◌∷◌, ◌≡◌, ◌≢◌,
}
use tupix.Types.Inv.{IsValid}
use tupix.Types.Refine.{
  HasIndices, contents, length-contents, push_index_fits, pop_index-head, pop_index_empty,
}
use tupix.Base.Int.{ℤ}
use tupix.Context.Switch.{switch_context-switches, user_view, user_view-loads}
use tupix.Scheduler.Cycle.{IsPlaced, scheduler_cycle-from_null, IsPlaced-InRange}
use tupix.Base.Result.{ok}
use tupix.Scheduler.{scheduler_cycle}
use tupix.Kernel.{load_thread, Tcb, Kernel, null_thread, Pcb, n_threads, store_thread, waiting}
use tupix.Types.{pop_index, IndexQueue}
use tupix.Waiting.{
  WaitingQueue, sleep_waiting, char_waiting, push_waiting, push_waiting_thread, scheduler_on_sleep,
  scheduler_on_getchar,
}
use tupix.Context.{switch_context, load_context, save_context}

unfoldable pub waiting_queue : WaitingQueue → Kernel → IndexQueue
waiting_queue sleep_waiting k = k.sleep_waiting_q
waiting_queue char_waiting k = k.char_waiting_q

some_same : {A : Type 0} {a b : A} → some a ≡ some b → a ≡ b
some_same h = cc h

-- A queue of threads that can take one more.
abbrev pub HasRoom : IndexQueue → Type 0
HasRoom q = IsValid q × (q.size ≡ n_threads) × (q.count < q.size)

-- The slot that runs next out of the run queue `l`, and what is left of it: with an empty one the
-- null thread runs.
abbrev pub IsNext : ℕ → List ℕ → List ℕ → Type 0
IsNext x rest l = (l ≡ x ∷ rest) ⊎ ((l ≡ []) × (x ≡ null_thread) × (rest ≡ []))

module _ (k : Kernel) (x slot null_slot : ℕ) (rest : List ℕ) (t new null : Tcb) (p : Pcb) where
  -- The thread `t` runs and has its place in the table, and `x` runs next.
  pub record CanPark : Type 0 where
    pub running : k.running_thread ≢ null_thread
    pub placed : IsPlaced k k.running_thread t p
    pub run_queue : HasIndices k.thread_indices_q
    pub next : IsNext x rest (contents k.thread_indices_q)
    pub other : k.running_thread ≢ x
    pub next_thread : get_elem? k.threads x ≡ some new
    pub next_process : new.process ≡ some slot
    pub idle_thread : get_elem? k.threads null_thread ≡ some null
    pub idle_process : null.process ≡ some null_slot

  -- The kernel when `x` runs and the old thread waits.
  abbrev pub parked : WaitingQueue → Kernel
  parked w = record (push_waiting w k k.running_thread) {
    threads = set k.threads k.running_thread (save_context k.regs t);
    regs = load_context (load_context k.regs null) new;
    active = slot;
    running_thread = x;
    thread_indices_q = (pop_index k.thread_indices_q).1;
  }

  abbrev idle : WaitingQueue → Kernel
  idle w = record (push_waiting w k k.running_thread) {
    threads = set k.threads k.running_thread (save_context k.regs t);
    regs = load_context k.regs null;
    active = null_slot;
  }

  -- The switch to the null thread.
  switches_to_idle :
      CanPark
      → (w : WaitingQueue)
      → switch_context (push_waiting w k k.running_thread) (some k.running_thread) null_thread
        ≡ ok (idle w)
  unfolding push_waiting
  switches_to_idle h sleep_waiting =
      switch_context-switches (push_waiting sleep_waiting k k.running_thread) k.running_thread
        null_thread null_slot t null h.running h.running h.placed.found h.idle_thread h.idle_process
  switches_to_idle h char_waiting =
      switch_context-switches (push_waiting char_waiting k k.running_thread) k.running_thread
        null_thread null_slot t null h.running h.running h.placed.found h.idle_thread h.idle_process

  -- The kernel when another thread than the null thread runs after all.
  abbrev going_on : WaitingQueue → ℕ → ℕ → Tcb → IndexQueue → Kernel
  going_on w next next_slot thread run = record (push_waiting w k k.running_thread) {
    threads = set k.threads k.running_thread (save_context k.regs t);
    regs = load_context (load_context k.regs null) thread;
    active = next_slot;
    running_thread = next;
    thread_indices_q = run;
  }

  -- With an empty run queue the null thread stays.
  stays_idle :
      CanPark
      → (w : WaitingQueue) → contents k.thread_indices_q ≡ []
      → x ≡ null_thread
      → going_on w null_thread null_slot null k.thread_indices_q ≡ parked w
  stays_idle h w none_left at_null =
      let found : get_elem? k.threads null_thread ≡ some new =
        ap (get_elem? k.threads) (sym at_null) ∙ h.next_thread in
      let same : null ≡ new = some_same (sym h.idle_thread ∙ found) in
      let slots : null_slot ≡ slot =
        some_same (sym h.idle_process ∙ ap (λ (n : Tcb). n.process) same ∙ h.next_process) in
      let empty : k.thread_indices_q.count ≡ 0 =
        sym (length-contents k.thread_indices_q) ∙ ap length none_left in
      ap (λ r. going_on w r null_slot null k.thread_indices_q) (sym at_null)
      ∙ ap (λ s. going_on w x s null k.thread_indices_q) slots
      ∙ ap (λ n. going_on w x slot n k.thread_indices_q) same
      ∙ ap (λ q. going_on w x slot new q)
          (sym (ap (λ (r : ℤ × IndexQueue). r.1) (pop_index_empty k.thread_indices_q empty)))

  cycle_idle : (m : Kernel) → contents m.thread_indices_q ≡ [] → scheduler_cycle m false ≡ ok m
  unfolding scheduler_cycle
  cycle_idle m e =
      let empty : m.thread_indices_q.count ≡ 0 =
        sym (length-contents m.thread_indices_q) ∙ ap length e in
      rw empty refl

  -- The cycle from the null thread to `x`.
  cycles_to_next :
      CanPark
      → (w : WaitingQueue)
      → scheduler_cycle (record (idle w) { running_thread = null_thread }) false ≡ ok (parked w)
  unfolding push_waiting load_context
  cycles_to_next h sleep_waiting = elim h.next [
    | inl head ↦
        scheduler_cycle-from_null (record (idle sleep_waiting) { running_thread = null_thread }) x
          slot rest new refl h.run_queue head
          (get_elem?-set_ne k.threads k.running_thread x _ h.other ∙ h.next_thread) h.next_process
    | inr (none_left, at_null, _) ↦
        cycle_idle (record (idle sleep_waiting) { running_thread = null_thread }) none_left
        ∙ ap ok (stays_idle h sleep_waiting none_left at_null)
  ]
  cycles_to_next h char_waiting = elim h.next [
    | inl head ↦
        scheduler_cycle-from_null (record (idle char_waiting) { running_thread = null_thread }) x
          slot rest new refl h.run_queue head
          (get_elem?-set_ne k.threads k.running_thread x _ h.other ∙ h.next_thread) h.next_process
    | inr (none_left, at_null, _) ↦
        cycle_idle (record (idle char_waiting) { running_thread = null_thread }) none_left
        ∙ ap ok (stays_idle h char_waiting none_left at_null)
  ]

  pop_leaves_rest : CanPark → contents (pop_index k.thread_indices_q).1 ≡ rest
  pop_leaves_rest h = elim h.next [
    | inl head ↦ (pop_index-head k.thread_indices_q x rest h.run_queue head).1
    | inr (none_left, _, no_rest) ↦
        ap (λ (r : ℤ × IndexQueue). contents r.1)
          (pop_index_empty k.thread_indices_q
            (sym (length-contents k.thread_indices_q) ∙ ap length none_left))
        ∙ none_left
        ∙ sym no_rest
  ]

  -- The thread is parked in the queue under its own slot.
  pub push_waiting_thread-parks :
      CanPark → (w : WaitingQueue) → push_waiting_thread w k ≡ ok (k.running_thread, parked w)
  unfolding push_waiting_thread load_thread
  push_waiting_thread-parks h w = elim (Bool-cases (k.running_thread == null_thread)) [
    | inl e ↦ absurd (h.running ((==_iff _ _).0 e))
    | inr e ↦ rw (e, h.placed.found, h.placed.placed, switches_to_idle h w, cycles_to_next h w) refl
  ]

  -- What waiting leaves: `x` runs on its registers, and the old thread stands last in its queue with
  -- the registers that it had.
  pub record Parked (w : WaitingQueue) (saved : Tcb) (k' : Kernel) : Type 0 where
    pub runs : k'.running_thread ≡ x
    pub rest_runs : contents k'.thread_indices_q ≡ rest
    pub waits :
        contents (waiting_queue w k') ≡ contents (waiting_queue w k) ++ (k.running_thread ∷ [])
    pub parked_thread : get_elem? k'.threads k.running_thread ≡ some saved
    pub user : user_view k'.regs ≡ (new.regs, new.cpsr)

  slot_in_threads : CanPark → k.running_thread < length k.threads
  slot_in_threads h = get_elem?-some-lt k.threads k.running_thread h.placed.found

  -- The thread's entry in the table, updated after it was parked.
  store_parked :
      CanPark
      → (w : WaitingQueue) (saved : Tcb)
      → store_thread (parked w) k.running_thread saved
        ≡ ok (record (parked w) { threads = set (parked w).threads k.running_thread saved })
  unfolding store_thread
  store_parked h w saved = rw (
      lt→ltb k.running_thread (length (set k.threads k.running_thread (save_context k.regs t)))
        (rw (length-set k.threads k.running_thread (save_context k.regs t)) (slot_in_threads h)))

  waits_in :
      CanPark
      → (w : WaitingQueue) → HasRoom (waiting_queue w k)
      → contents (waiting_queue w (parked w))
        ≡ contents (waiting_queue w k) ++ (k.running_thread ∷ [])
  unfolding waiting_queue push_waiting
  waits_in h sleep_waiting room =
      (push_index_fits k.sleep_waiting_q k.running_thread room.0
        (rw room.1 (IsPlaced-InRange h.placed)) room.2).1
  waits_in h char_waiting room =
      (push_index_fits k.char_waiting_q k.running_thread room.0
        (rw room.1 (IsPlaced-InRange h.placed)) room.2).1

  parked-Parked :
      CanPark
      → (w : WaitingQueue) (saved : Tcb) → HasRoom (waiting_queue w k)
      → Parked w saved
          (record (parked w) { threads = set (parked w).threads k.running_thread saved })
  parked-Parked h w saved room = record {
    runs = refl;
    rest_runs = pop_leaves_rest h;
    waits = waits_stay w (waits_in h w room);
    parked_thread =
        get_elem?-set_self (set k.threads k.running_thread (save_context k.regs t)) k.running_thread
          saved
          (rw (length-set k.threads k.running_thread (save_context k.regs t)) (slot_in_threads h));
    user = user_view-loads (load_context k.regs null) new;
  }
    where
      waits_stay :
          (w : WaitingQueue)
          → contents (waiting_queue w (parked w))
            ≡ contents (waiting_queue w k) ++ (k.running_thread ∷ [])
          → contents (
              waiting_queue w
                (record (parked w) { threads = set (parked w).threads k.running_thread saved }))
            ≡ contents (waiting_queue w k) ++ (k.running_thread ∷ [])
      waits_stay sleep_waiting e = unfold waiting_queue in e
      waits_stay char_waiting e = unfold waiting_queue in e

  -- `scheduler_on_sleep` with a duration, called by the running thread `t` while the sleep queue has
  -- room, returns: the head of the run queue, or the null thread when it is empty, runs on its own
  -- registers, `t` stands last among
  -- the sleepers with its registers saved and the duration to wait, and the rest of the run queue
  -- is as it was.
  pub scheduler_on_sleep_parks :
      (duration : ℕ)
      → CanPark
      → HasRoom k.sleep_waiting_q
      → duration ≢ 0
      → (k' : Kernel) × (scheduler_on_sleep k duration ≡ ok k')
        × Parked sleep_waiting (record (save_context k.regs t) { waiting_duration = duration }) k'
  unfolding scheduler_on_sleep load_thread
  scheduler_on_sleep_parks duration h room ne =
      let saved : Tcb = record (save_context k.regs t) { waiting_duration = duration } in
      (
        record (parked sleep_waiting) {
          threads = set (parked sleep_waiting).threads k.running_thread saved;
        },
        elim (Bool-cases (duration == 0)) [
          | inl e ↦ absurd (ne ((==_iff _ _).0 e))
          | inr e ↦
              rw
                (
                  e,
                  push_waiting_thread-parks h sleep_waiting,
                  get_elem?-set_self k.threads k.running_thread (save_context k.regs t)
                      (slot_in_threads h),
                )
                (store_parked h sleep_waiting saved)
        ],
        parked-Parked h sleep_waiting saved (unfold waiting_queue in room),
      )

  -- `scheduler_on_getchar` does the same with the queue of the threads that wait for a character,
  -- and marks the thread as waiting.
  pub scheduler_on_getchar-parks :
      CanPark
      → HasRoom k.char_waiting_q
      → (k' : Kernel) × (scheduler_on_getchar k ≡ ok k')
        × Parked char_waiting (record (save_context k.regs t) { state = waiting }) k'
        × (k'.threads
            ≡ set
                (set k.threads k.running_thread (save_context k.regs t))
                k.running_thread
                (record (save_context k.regs t) { state = waiting }))
  unfolding scheduler_on_getchar load_thread
  scheduler_on_getchar-parks h room =
      let saved : Tcb = record (save_context k.regs t) { state = waiting } in
      (
        record (parked char_waiting) {
          threads = set (parked char_waiting).threads k.running_thread saved;
        },
        rw
            (
              push_waiting_thread-parks h char_waiting,
              get_elem?-set_self k.threads k.running_thread (save_context k.regs t)
                  (slot_in_threads h),
            )
            (store_parked h char_waiting saved),
        parked-Parked h char_waiting saved (unfold waiting_queue in room),
        refl,
      )
