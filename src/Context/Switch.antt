-- ===== src/Context/Switch.antt =====
-- `switch_context` of system/scheduler.c.
use tupix.Base.{
  ap, arith, get_elem?, get_elem?-set_ne, get_elem?-set_self, get_elem?-some-lt, none, refl, set,
  some, ℕ, ◌∙◌, ◌≡◌, ◌≢◌,
}
use tupix.Memory.{switch_memory}
use tupix.Base.Result.{ok}
use tupix.Registers.{Registers, GeneralRegisters}
use tupix.Kernel.{Kernel, Tcb, load_thread, store_thread, null_thread}
use tupix.Context.{load_context, save_context, save_old, load_new, switch_context}

-- The registers that a user program sees: those that switching saves, under their user names.
unfoldable pub user_view : Registers → GeneralRegisters × ℕ
user_view regs =
    (record (regs.gr) { lr = regs.usr_lr; pc = regs.gr.lr; sp = regs.usr_sp }, regs.spsr)

pub load_context-save_context :
    (regs other : Registers) (t : Tcb)
    → user_view (load_context other (save_context regs t)) ≡ user_view regs
unfolding user_view load_context save_context
load_context-save_context regs other t = refl

pub user_view-loads :
    (regs : Registers) (t : Tcb) → user_view (load_context regs t) ≡ (t.regs, t.cpsr)
unfolding user_view load_context
user_view-loads regs t = refl

pub save_old-stores :
    (k : Kernel) (old : ℕ) (t : Tcb)
    → old ≢ null_thread
    → get_elem? k.threads old ≡ some t
    → save_old k (some old) ≡ ok (record k { threads = set k.threads old (save_context k.regs t) })
unfolding save_old load_thread store_thread
save_old-stores k old t ne at = ground (arith, get_elem?-some-lt k.threads old at)

pub load_new-loads :
    (k : Kernel) (new slot : ℕ) (t : Tcb)
    → get_elem? k.threads new ≡ some t
    → t.process ≡ some slot
    → load_new k new ≡ ok (switch_memory (record k { regs = load_context k.regs t }) slot)
unfolding load_new load_thread
load_new-loads k new slot t at p = ground arith

pub load_new-threads :
    (k : Kernel) (new : ℕ) {k' : Kernel} → load_new k new ≡ ok k' → k'.threads ≡ k.threads
unfolding load_new load_thread switch_memory
load_new-threads k new h = ground arith

-- Both halves, for two different threads of the table.
pub switch_context-switches :
    (k : Kernel) (old new slot : ℕ) (t u : Tcb)
    → old ≢ null_thread
    → old ≢ new
    → get_elem? k.threads old ≡ some t
    → get_elem? k.threads new ≡ some u
    → u.process ≡ some slot
    → switch_context k (some old) new
      ≡ ok (record k {
        threads = set k.threads old (save_context k.regs t);
        regs = load_context k.regs u;
        active = slot;
      })
unfolding switch_context switch_memory
switch_context-switches k old new slot t u ne ne' at at' p = rw (save_old-stores k old t ne at) (
    load_new-loads (record k { threads = set k.threads old (save_context k.regs t) }) new slot u
      (get_elem?-set_ne k.threads old new (save_context k.regs t) ne' ∙ at') p)

-- With no old thread only the frame and the memory change.
pub switch_context-none :
    (k : Kernel) (new slot : ℕ) (u : Tcb)
    → get_elem? k.threads new ≡ some u
    → u.process ≡ some slot
    → switch_context k none new ≡ ok (record k { regs = load_context k.regs u; active = slot })
unfolding switch_context save_old switch_memory
switch_context-none k new slot u at p = load_new-loads k new slot u at p

-- The running thread `old` is switched out for `new`, and some time later, with its slot as the
-- switch left it and any frame, it is switched in again: then the frame has the user's registers and
-- status word as they were, and the memory is that of the thread's process.
pub switch_context_restores :
    (k k' later : Kernel) (old new slot : ℕ) (t : Tcb)
    → old ≢ null_thread
    → get_elem? k.threads old ≡ some t
    → t.process ≡ some slot
    → switch_context k (some old) new ≡ ok k'
    → get_elem? later.threads old ≡ get_elem? k'.threads old
    → (back : Kernel) × (switch_context later none old ≡ ok back)
      × (user_view back.regs ≡ user_view k.regs)
      × (back.active ≡ slot)
unfolding switch_context save_old load_new switch_memory load_context
switch_context_restores k k' later old new slot t ne at p there kept =
    let saved : Tcb = save_context k.regs t in
    let stored : Kernel = record k { threads = set k.threads old saved } in
    let loads : load_new stored new ≡ ok k' = rw (save_old-stores k old t ne at) at there in
    let found : get_elem? later.threads old ≡ some saved =
      kept
      ∙ ap (λ ts. get_elem? ts old) (load_new-threads stored new loads)
      ∙ get_elem?-set_self k.threads old saved (get_elem?-some-lt k.threads old at) in
    (
      switch_memory (record later { regs = load_context later.regs saved }) slot,
      load_new-loads later old slot saved found (unfold save_context in p),
      load_context-save_context k.regs later.regs t,
      unfold switch_memory in refl,
    )
