-- ===== src/Scheduler/Slice.antt =====
-- `scheduler_cycle` of system/scheduler.c as the interrupt of the timer calls it: at the end of the
-- time slice of a thread of a process.
use tupix.Base.{
  All, All-append, List, [], ap, arith, get_elem?, refl, set, sym, true, false, ℕ, ◌++◌, ◌<◌, ◌∙◌,
  ◌∷◌, ◌≡◌, ◌≢◌, some,
}
use tupix.Base.Result.{ok}
use tupix.Context.Switch.{load_context-save_context, user_view, user_view-loads}
use tupix.Context.{load_context, save_context}
use tupix.Kernel.{Kernel, Pcb, Tcb, n_threads}
use tupix.Registers.{Registers}
use tupix.Scheduler.Cycle.{IsPlaced, IsPlaced-slot, scheduler_cycle-Switched}
use tupix.Scheduler.{scheduler_cycle}
use tupix.Sleep.Ticked.{IsSleeping, decrement_waits-ticks, get_elem?-tick_all, ticked}
use tupix.Sleep.Ticks.{tick_all}
use tupix.Sleep.{decrement_waits}
use tupix.Types.Refine.{HasIndices, contents}

-- The table when every sleeper has waited one tick more.
abbrev pub table_after : Kernel → List ℕ → List Tcb
table_after k sleepers = tick_all sleepers k.threads

-- The running thread `old` of `p` has its place and does not sleep; `expired ++ kept` sleep, those whose
-- wait ends now first; with these behind it, the run queue begins with `x`, which is not the
-- running thread and has a process, and goes on with `rest`.
pub record IsSliceEnd (k : Kernel) (expired kept : List ℕ) (x slot : ℕ) (rest : List ℕ)
    (old new : Tcb) (p : Pcb) : Type 0 where
  pub run_queue : HasIndices k.thread_indices_q
  pub size : k.thread_indices_q.size ≡ n_threads
  pub asleep : IsSleeping k expired kept
  pub entries : contents k.thread_indices_q ++ expired ≡ x ∷ rest
  pub placed : IsPlaced k k.running_thread old p
  pub other : k.running_thread ≢ x
  pub awake : All (λ b. b ≢ k.running_thread) (expired ++ kept)
  pub next_thread : get_elem? (table_after k (expired ++ kept)) x ≡ some new
  pub next_process : new.process ≡ some slot

-- What the cycle leaves: `x` runs on its saved registers, all sleepers have waited one tick more, and
-- the slot of `old` holds what gives its user registers and status word back whenever it is loaded.
pub record IsCycled (k : Kernel) (expired kept : List ℕ) (x : ℕ) (old new : Tcb) (k' : Kernel)
    : Type 0 where
  pub runs : k'.running_thread ≡ x
  pub sleepers : contents k'.sleep_waiting_q ≡ kept
  pub user : user_view k'.regs ≡ (new.regs, new.cpsr)
  pub table :
      k'.threads ≡ set (table_after k (expired ++ kept)) k.running_thread (save_context k.regs old)
  pub saved :
      (later : Registers)
      → user_view (load_context later (save_context k.regs old)) ≡ user_view k.regs

scheduler_cycle-decrements :
    (k k₁ : Kernel) → decrement_waits k ≡ ok k₁ → scheduler_cycle k true ≡ scheduler_cycle k₁ false
unfolding scheduler_cycle
scheduler_cycle-decrements k k₁ e = rw e refl

scheduler_cycle-IsCycled :
    (k : Kernel) (expired kept : List ℕ) (x slot : ℕ) (rest : List ℕ) (old new : Tcb) (p : Pcb)
    → IsSliceEnd k expired kept x slot rest old new p
    → (k' : Kernel) × (scheduler_cycle k true ≡ ok k')
      × IsCycled k expired kept x old new k'
      × (contents k'.thread_indices_q ≡ rest ++ (old.index ∷ []))
scheduler_cycle-IsCycled k expired kept x slot rest old new p h =
    let (sleepers, run, ticks, asleep, queued, run_ok, size) =
      decrement_waits-ticks k expired kept h.asleep h.run_queue in
    let k₁ : Kernel = ticked k (table_after k (expired ++ kept)) sleepers run in
    let at : get_elem? k₁.threads k.running_thread ≡ some old =
      get_elem?-tick_all (expired ++ kept) k.running_thread k.threads h.awake ∙ h.placed.found in
    let (k', runs, s) =
      scheduler_cycle-Switched k₁ x slot rest old new run_ok (queued ∙ h.entries)
        (omega (arith, IsPlaced-slot h.placed, h.placed.thread_index)) h.other at
        (omega (arith, size, h.size, h.placed.thread_index)) h.next_thread h.next_process in
    (
      k',
      scheduler_cycle-decrements k k₁ ticks ∙ runs,
      record {
        runs = s.running;
        sleepers = ap contents s.asleep ∙ asleep;
        user = ap user_view s.frame ∙ user_view-loads k.regs new;
        table = s.saved;
        saved = λ later. load_context-save_context k.regs later old;
      },
      s.run_queue,
    )

-- The end of the time slice of a thread of the first process, as `IsSliceEnd` says, is round robin:
-- the cycle of the timer returns, the sleepers have waited one tick more and those whose wait is over
-- are ready behind the others, the head of the run queue runs on its saved registers, and the
-- interrupted thread goes to the end of the queue, with what it needs to go on in its slot.
pub scheduler_cycle_round_robin :
    (k : Kernel) (expired kept : List ℕ) (x slot : ℕ) (rest : List ℕ) (old new : Tcb) (p : Pcb)
    → IsSliceEnd k expired kept x slot rest old new p
    → p.index ≡ 1
    → (k' : Kernel) × (scheduler_cycle k true ≡ ok k')
      × IsCycled k expired kept x old new k'
      × (contents k'.thread_indices_q ≡ rest ++ (k.running_thread ∷ []))
scheduler_cycle_round_robin k expired kept x slot rest old new p h first =
    let same : k.running_thread ≡ old.index = omega (arith, IsPlaced-slot h.placed) in
    let (k', runs, cycled, queue) =
      scheduler_cycle-IsCycled k expired kept x slot rest old new p h in
    (k', runs, cycled, queue ∙ ap (λ i. rest ++ (i ∷ [])) (sym same))

-- The end of the time slice of a thread of any other process loses that thread, when it stood in no
-- queue: the cycle of the timer returns, and then it neither runs nor is it in the run queue; its local
-- index, which is the slot of a thread of the first process, goes there instead.
pub scheduler_cycle_loses :
    (k : Kernel) (expired kept : List ℕ) (x slot : ℕ) (rest : List ℕ) (old new : Tcb) (p : Pcb)
    → IsSliceEnd k expired kept x slot rest old new p
    → 1 < p.index
    → All (λ c. c ≢ k.running_thread) rest
    → (k' : Kernel) × (scheduler_cycle k true ≡ ok k')
      × (k'.running_thread ≢ k.running_thread)
      × (contents k'.thread_indices_q ≡ rest ++ (old.index ∷ []))
      × All (λ c. c ≢ k.running_thread) (contents k'.thread_indices_q)
scheduler_cycle_loses k expired kept x slot rest old new p h other absent =
    let moved : old.index ≢ k.running_thread =
      omega (arith, IsPlaced-slot h.placed, h.placed.thread_index) in
    let (k', runs, cycled, queue) =
      scheduler_cycle-IsCycled k expired kept x slot rest old new p h in
    (
      k',
      runs,
      rw cycled.runs (λ same. h.other (sym same)),
      queue,
      rw queue (All-append (λ c. c ≢ k.running_thread) rest (old.index ∷ []) absent (moved, tt)),
    )
