-- ===== src/Scheduler/Fair.antt =====
-- `scheduler_cycle` of system/scheduler.c, over many time slices of the threads of one process.
use tupix.Base.{
  ==_iff, All, All-append, Bool, Bool-cases, List, [], ap, append_assoc, arith, false, get_elem?,
  get_elem?-set_ne, get_elem?-set_self, get_elem?-some-lt, inl, inr, length, refl, set, some, subst,
  suc, sym, true, zero, ℕ, ◌++◌, ◌+◌, ◌==◌, ◌∙◌, ◌∷◌, ◌≡◌, ◌≢◌,
}
use tupix.Base.Result.{Result, ok, ◌>>=◌}
use tupix.Context.{save_context}
use tupix.Kernel.{Kernel, Tcb, n_threads}
use tupix.Registers.{Registers}
use tupix.Scheduler.{scheduler_cycle}
use tupix.Scheduler.Cycle.{scheduler_cycle-Switched}
use tupix.Sleep.{decrement_loop, decrement_waits}
use tupix.Sleep.Loop.{loop-ends}
use tupix.Sleep.Order.{decrement_waits-loop}
use tupix.Sleep.Ticks.{Distinct}
use tupix.Types.Inv.{IsValid}
use tupix.Types.Refine.{HasIndices, InRange, contents}

-- The slot holds a thread of a process, and is the thread's index in it, as in the first process.
abbrev pub IsRunnable : List Tcb → ℕ → Type 0
IsRunnable ts i =
    (t : Tcb) × (slot : ℕ) × (get_elem? ts i ≡ some t)
    × (t.process ≡ some slot)
    × (t.index ≡ i)
    × InRange n_threads i

-- The threads `l` are in the run queue, all different and different from the running one, and none
-- sleeps.
pub record IsRotating (k : Kernel) (l : List ℕ) : Type 0 where
  pub queue : HasIndices k.thread_indices_q
  pub size : k.thread_indices_q.size ≡ n_threads
  pub entries : contents k.thread_indices_q ≡ l
  pub distinct : Distinct (k.running_thread ∷ l)
  pub runnable : All (IsRunnable k.threads) (k.running_thread ∷ l)
  pub sleepers : IsValid k.sleep_waiting_q
  pub awake : k.sleep_waiting_q.count ≡ 0

decrement_waits_idle :
    (k : Kernel)
    → IsValid k.sleep_waiting_q
    → k.sleep_waiting_q.count ≡ 0
    → decrement_waits k ≡ ok k
decrement_waits_idle k v e =
    let at_tail : k.sleep_waiting_q.head ≡ k.sleep_waiting_q.tail = omega (arith, v.cycle) in
    decrement_waits-loop k k (
      ap (λ f. decrement_loop f k 0 k.sleep_waiting_q.head) (omega arith)
      ∙ loop-ends 0 k 0 k.sleep_waiting_q.head (omega arith)
      ∙ ap (λ p. ok (k, p)) at_tail)

-- With no thread asleep, the countdown before a cycle does nothing.
scheduler_cycle_idle :
    (k : Kernel) (decrement : Bool)
    → IsValid k.sleep_waiting_q
    → k.sleep_waiting_q.count ≡ 0
    → scheduler_cycle k decrement ≡ scheduler_cycle k false
unfolding scheduler_cycle
scheduler_cycle_idle k true v e = rw (decrement_waits_idle k v e) refl
scheduler_cycle_idle k false v e = refl

-- A saved thread is as runnable as before.
IsRunnable-saved :
    (ts : List Tcb) (regs : Registers) (r i : ℕ) (old : Tcb)
    → get_elem? ts r ≡ some old
    → IsRunnable ts i
    → IsRunnable (set ts r (save_context regs old)) i
unfolding save_context
IsRunnable-saved ts regs r i old found (t, slot, at, p, n, range) = elim (Bool-cases (r == i)) [
  | inl e ↦
      let same : r ≡ i = (==_iff r i).0 e in
      let alike : old ≡ t = cc in
      (
        save_context regs old,
        slot,
        ap (get_elem? (set ts r (save_context regs old))) (sym same)
            ∙ get_elem?-set_self ts r _ (get_elem?-some-lt ts r found),
        ap (λ o. o.process) alike ∙ p,
        ap (λ o. o.index) alike ∙ n,
        range,
      )
  | inr other ↦ (t, slot, get_elem?-set_ne ts r i _ (ground (arith, other)) ∙ at, p, n, range)
]

All-Runnable-saved :
    (ts : List Tcb) (regs : Registers) (r : ℕ) (old : Tcb) (l : List ℕ)
    → get_elem? ts r ≡ some old
    → All (IsRunnable ts) l
    → All (IsRunnable (set ts r (save_context regs old))) l
All-Runnable-saved ts regs r old [] found h = tt
All-Runnable-saved ts regs r old (i ∷ l) found h =
    (IsRunnable-saved ts regs r i old found h.0, All-Runnable-saved ts regs r old l found h.1)

-- The first of different threads may stand last.
Distinct-last : (l : List ℕ) (r : ℕ) → All (λ c. r ≢ c) l → Distinct l → Distinct (l ++ (r ∷ []))
Distinct-last [] r h d = (tt, tt)
Distinct-last (b ∷ l) r h d =
    (All-append (λ c. b ≢ c) l (r ∷ []) d.0 ((λ e. h.0 (sym e)), tt), Distinct-last l r h.1 d.1)

-- One cycle: the head of the queue runs, and the interrupted thread stands last.
scheduler_cycle-IsRotating :
    (k : Kernel) (decrement : Bool) (x : ℕ) (rest : List ℕ)
    → IsRotating k (x ∷ rest)
    → (k' : Kernel) × (scheduler_cycle k decrement ≡ ok k')
      × (k'.running_thread ≡ x)
      × IsRotating k' (rest ++ (k.running_thread ∷ []))
scheduler_cycle-IsRotating k decrement x rest h =
    let (old, old_slot, at, owner, local, range) = h.runnable.0 in
    let (new, slot, at', process, local', range') = h.runnable.1.0 in
    let r : ℕ = k.running_thread in
    let (k', runs, s) =
      scheduler_cycle-Switched k x slot rest old new h.queue h.entries (omega (arith, range))
        h.distinct.0.0 at (rw (local, h.size) range) at' process in
    let last : rest ++ (old.index ∷ []) ≡ rest ++ (r ∷ []) = ap (λ i. rest ++ (i ∷ [])) local in
    let ready_next : All (IsRunnable k'.threads) (x ∷ (rest ++ (r ∷ []))) =
      subst (λ ts. All (IsRunnable ts) (x ∷ (rest ++ (r ∷ [])))) (sym s.saved)
        (All-Runnable-saved k.threads k.regs r old (x ∷ (rest ++ (r ∷ []))) at (
          h.runnable.1.0,
          All-append (IsRunnable k.threads) rest (r ∷ []) h.runnable.1.1 (h.runnable.0, tt),
        )) in
    let apart : Distinct (x ∷ (rest ++ (r ∷ []))) = (
      All-append (λ c. x ≢ c) rest (r ∷ []) h.distinct.1.0 ((λ e. h.distinct.0.0 (sym e)), tt),
      Distinct-last rest r h.distinct.0.1 h.distinct.1.1,
    ) in
    (
      k',
      scheduler_cycle_idle k decrement h.sleepers h.awake ∙ runs,
      s.running,
      record {
        queue = s.valid;
        size = s.size ∙ h.size;
        entries = s.run_queue ∙ last;
        distinct = rw s.running apart;
        runnable = rw s.running ready_next;
        sleepers = rw s.asleep h.sleepers;
        awake = ap (λ q. q.count) s.asleep ∙ h.awake;
      },
    )

-- `n` time slices that end one after the other.
unfoldable pub cycles : ℕ → Bool → Kernel → Result Kernel
cycles zero decrement k = ok k
cycles (suc n) decrement k = scheduler_cycle k decrement >>= λ k'. cycles n decrement k'

cycles-suc :
    (n : ℕ) (decrement : Bool) (k k' : Kernel)
    → scheduler_cycle k decrement ≡ ok k'
    → cycles (suc n) decrement k ≡ cycles n decrement k'
unfolding cycles
cycles-suc n decrement k k' e = rw e refl

-- Threads of the first process take turns. When the running thread and those in the run queue are
-- all different, each in the slot of its own local index and with a process, and no thread sleeps,
-- then a thread `x` behind `before` in the queue runs after one cycle more than there are threads in
-- `before`: every one of these cycles returns, and afterwards the queue holds the threads that stood
-- behind `x`, then the one that ran at first, then `before`.
pub scheduler_cycle_fair :
    (before : List ℕ) (x : ℕ) (after : List ℕ) (k : Kernel) (decrement : Bool)
    → IsRotating k (before ++ x ∷ after)
    → (k' : Kernel) × (cycles (length before + 1) decrement k ≡ ok k')
      × (k'.running_thread ≡ x)
      × (contents k'.thread_indices_q ≡ after ++ k.running_thread ∷ before)
scheduler_cycle_fair [] x after k decrement h =
    let (k', runs, now, r) = scheduler_cycle-IsRotating k decrement x after h in
    (
      k',
      ap (λ n. cycles n decrement k) (omega arith)
          ∙ cycles-suc 0 decrement k k' runs
          ∙ unfold cycles in refl,
      now,
      r.entries,
    )
scheduler_cycle_fair (b ∷ before) x after k decrement h =
    let (k1, runs, now, r) = scheduler_cycle-IsRotating k decrement b (before ++ x ∷ after) h in
    let r' : IsRotating k1 (before ++ (x ∷ (after ++ (k.running_thread ∷ [])))) =
      subst (IsRotating k1) (append_assoc before (x ∷ after) (k.running_thread ∷ [])) r in
    let (k', more, runs_x, entries) =
      scheduler_cycle_fair before x (after ++ (k.running_thread ∷ [])) k1 decrement r' in
    (
      k',
      ap (λ n. cycles n decrement k) {y = suc (length before + 1)} (omega arith)
          ∙ cycles-suc (length before + 1) decrement k k1 runs
          ∙ more,
      runs_x,
      entries
          ∙ ap (λ c. (after ++ (k.running_thread ∷ [])) ++ c ∷ before) now
          ∙ append_assoc after (k.running_thread ∷ []) (b ∷ before),
    )
