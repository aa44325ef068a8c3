-- ===== src/Invariant/Reach.antt =====
-- Every state that the kernel reaches from system/start.c by the handlers of system/isr.c.
use tupix.Base.{All, List, [], arith, length, length-set, subst, ℕ, ◌+◌, ◌∙◌, ◌∷◌, ◌≡◌}
use tupix.Invariant.Create.{init_queue-IsTable, all_free-IsTable_scheduler}
use tupix.Uart.Refine.{IsBuffer}
use tupix.Base.Result.{Result, ok}
use tupix.Mmu.{Table}
use tupix.Registers.{Registers}
use tupix.Start.{Board, start_kernel}
use tupix.Kernel.{n_processes, n_threads, Kernel, Pcb}
use tupix.Tables.{init_null_thread, init_scheduler}
use tupix.Invariant.{IsSound, Ensures}
use tupix.Timer.{LocalInterrupt}
use tupix.Isr.{
  Lines, data_abort_handler, irq_handler, prefetch_abort_handler, software_interrupt_handler,
  undefined_instruction_handler,
}
use tupix.Isr.Dump.{Locals}

-- Static data before the kernel runs: the tables have their size, and every queue in them is empty.
pub record IsPoweredOn (k : Kernel) : Type 0 where
  pub process_slots : length k.processes ≡ n_processes + 1
  pub thread_slots : length k.threads ≡ n_threads + 1
  pub zeroed : All (λ p. (p.free_indices_q.size ≡ 0) × (p.free_indices_q.count ≡ 0)) k.processes

-- The processes with other bytes in the arrays of their free indices.
unfoldable pub with_arrays : List (List ℕ) → List Pcb → List Pcb
with_arrays [] ps = ps
with_arrays (indices ∷ arrays) [] = []
with_arrays (indices ∷ arrays) (p ∷ ps) =
    record p { free_indices_q = record (p.free_indices_q) { indices = indices } }
    ∷ with_arrays arrays ps

-- What happens to the kernel: the programs of the users change the registers, the memory and the
-- timer's state, the kernel's stack is used for something else where the free indices of the
-- processes lie, and exceptions enter a handler.
pub data Step (k : Kernel) : Kernel → Type 0 where
  user :
      (regs : Registers) (memory : Table) (timer : LocalInterrupt)
      → Step k (record k { regs = regs; memory = memory; timer = timer })
  stack :
      (arrays : List (List ℕ)) → Step k (record k { processes = with_arrays arrays k.processes })
  undefined_instruction :
      {k' : Kernel} (locals : Locals) → undefined_instruction_handler locals k ≡ ok k' → Step k k'
  prefetch_abort :
      {k' : Kernel} (locals : Locals) → prefetch_abort_handler locals k ≡ ok k' → Step k k'
  data_abort : {k' : Kernel} (locals : Locals) → data_abort_handler locals k ≡ ok k' → Step k k'
  software_interrupt :
      {k' : Kernel} (locals : Locals) (fetch : ℕ → ℕ)
      → software_interrupt_handler locals fetch k ≡ ok k'
      → Step k k'
  irq :
      {k' : Kernel} (locals : Locals) (lines : Lines)
      → irq_handler locals lines k ≡ ok k'
      → Step k k'

-- The states reached from power on, on a board with any registers.
pub data Reach (off : Kernel) : Kernel → Type 0 where
  started :
      {k : Kernel} (board board' : Board) → start_kernel board off ≡ ok (board', k) → Reach off k
  next : {k k' : Kernel} → Reach off k → Step k k' → Reach off k'

pub Ensures-ok {ℓ κ} :
    {A : Type ℓ} (P : A → Type κ) (m : Result A) {a : A} → Ensures P m → m ≡ ok a → P a
Ensures-ok P m h e = subst (Ensures P) e h

pub init_scheduler-IsSound :
    (k : Kernel) → IsPoweredOn k → IsBuffer k.queue → IsSound (init_scheduler k)
unfolding init_scheduler init_null_thread
init_scheduler-IsSound k h b = record {
  run_table = init_queue-IsTable n_threads (omega arith) (omega arith);
  sleep_table = init_queue-IsTable n_threads (omega arith) (omega arith);
  char_table = init_queue-IsTable n_threads (omega arith) (omega arith);
  free_table = all_free-IsTable_scheduler;
  process_slots = length-set k.processes 0 _ ∙ h.process_slots;
  thread_slots = length-set k.threads 0 _ ∙ h.thread_slots;
  running_slot = omega arith;
  buffer = b;
}
