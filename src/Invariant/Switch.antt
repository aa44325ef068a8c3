-- ===== src/Invariant/Switch.antt =====
-- Context switches, the cycle of the scheduler and the countdown of the sleeping threads.
use tupix.Base.{Option, length, length-set, ltb, none, set, some, ℕ, ◌==◌, ◌∙◌}
use tupix.Base.Result.{from_option}
use tupix.Memory.{switch_memory}
use tupix.Kernel.{Tcb, load_thread, store_thread, null_thread, Kernel, Pcb, store_process}
use tupix.Invariant.{
  IsSound, Ensures-any, Ensures-if, with_threads, Ensures, Ensures-bind, with_processes,
}
use tupix.Context.{save_old, load_new, save_context, switch_context}

pub store_thread-IsSound :
    (k : Kernel) (i : ℕ) (t : Tcb) → IsSound k → Ensures IsSound (store_thread k i t)
unfolding store_thread
store_thread-IsSound k i t h =
    Ensures-if IsSound (ltb i (length k.threads)) _ _
      (with_threads h (set k.threads i t) (length-set k.threads i t ∙ h.thread_slots)) tt

pub store_process-IsSound :
    (k : Kernel) (i : ℕ) (p : Pcb) → IsSound k → Ensures IsSound (store_process k i p)
unfolding store_process
store_process-IsSound k i p h =
    Ensures-if IsSound (ltb i (length k.processes)) _ _
      (with_processes h (set k.processes i p) (length-set k.processes i p ∙ h.process_slots)) tt

save_old-IsSound : (k : Kernel) (old : Option ℕ) → IsSound k → Ensures IsSound (save_old k old)
unfolding save_old
save_old-IsSound k none h = h
save_old-IsSound k (some old) h = Ensures-if IsSound (old == null_thread) _ _ h (
    Ensures-bind (λ t. Unit {0}) IsSound (load_thread k old) _ (Ensures-any _)
      (λ t _. store_thread-IsSound k old (save_context k.regs t) h))

load_new-IsSound : (k : Kernel) (new : ℕ) → IsSound k → Ensures IsSound (load_new k new)
unfolding load_new switch_memory
load_new-IsSound k new h =
    Ensures-bind (λ t. Unit {0}) IsSound (load_thread k new) _ (Ensures-any _)
      (λ t _.
        Ensures-bind (λ s. Unit {0}) IsSound (from_option t.process) _ (Ensures-any _)
          (λ slot _. h))

pub switch_context-IsSound :
    (k : Kernel) (old : Option ℕ) (new : ℕ) → IsSound k → Ensures IsSound (switch_context k old new)
unfolding switch_context
switch_context-IsSound k old new h =
    Ensures-bind IsSound IsSound (save_old k old) _ (save_old-IsSound k old h)
      (λ saved g. load_new-IsSound saved new g)
