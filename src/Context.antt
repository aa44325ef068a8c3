-- ===== src/Context.antt =====
-- system/scheduler.c: where a thread stands in the table, and the context switch.
pub mod Switch
pub mod Slots
use tupix.Base.{Option, if◌then◌else◌, none, some, sub32, u32, ℕ, ◌*◌, ◌+◌, ◌==◌}
use tupix.Base.Result.{◌>>=◌, ok, from_option, Result}
use tupix.Registers.{Registers}
use tupix.Memory.{switch_memory}
use tupix.Kernel.{
  Kernel, Tcb, load_thread, deref_process, null_thread, n_threads_per_process, store_thread,
}

unfoldable pub get_global_thread_index : Kernel → Tcb → Result ℕ
get_global_thread_index k t = do
  p ← deref_process k t.process
  if p.index == 0 then ok 0 else ok (u32 (u32 (sub32 p.index 1 * n_threads_per_process) + t.index))

-- What `switch_context` saves of the frame into the old thread.
unfoldable pub save_context : Registers → Tcb → Tcb
save_context regs old = record old {
  regs = record (regs.gr) { lr = regs.usr_lr; sp = regs.usr_sp; pc = regs.gr.lr };
  cpsr = regs.spsr;
}

-- What it loads of the new thread into the frame.
unfoldable pub load_context : Registers → Tcb → Registers
load_context regs new = record regs {
  gr = record (new.regs) { lr = new.regs.pc };
  usr_lr = new.regs.lr;
  usr_sp = new.regs.sp;
  spsr = new.cpsr;
}

-- The first half: never change the null thread's registers. `old` is none for NULL.
unfoldable pub save_old : Kernel → Option ℕ → Result Kernel
save_old k none = ok k
save_old k (some old) =
    if old == null_thread
    then ok k
    else (do t ← load_thread k old; store_thread k old (save_context k.regs t))

-- The second half: the frame and the memory of the new thread.
unfoldable pub load_new : Kernel → ℕ → Result Kernel
load_new k new = do
  t ← load_thread k new
  slot ← from_option t.process
  ok (switch_memory (record k { regs = load_context k.regs t }) slot)

-- The frame is never NULL: each entry in system/ivt.S passes one. No caller passes NULL for the
-- new thread, through which the last line reads.
unfoldable pub switch_context : Kernel → Option ℕ → ℕ → Result Kernel
switch_context k old new = save_old k old >>= λ saved. load_new saved new
