-- ===== src/User/Main/Stored.antt =====
-- The store of the character and the call, in a round of `main_thread`.
use tupix.Base.{
  List, ap, arith, false, get_elem?, get_or, refl, some, suc, true, u32, zero, ℕ, ◌*◌, ◌+◌, ◌-◌,
  ◌<◌, ◌^◌, ◌∙◌, ◌∷◌, ◌≡◌, ◌≢◌, ◌≤◌,
}
use tupix.Base.Result.{Result, from_option, ok, ◌>>=◌}
use tupix.Calls.Verify.{get_stack_pointer_lem}
use tupix.Calls.{SyscallId, get_syscall_id, run_syscall, verify_args, syscall_of}
use tupix.Isr.Dump.{Locals}
use tupix.Kernel.{load_thread, Kernel, Pcb, load_process, n_threads_per_process}
use tupix.Memory.Blocks.{Reaches, copy_in_block, copy_out_block, write_block}
use tupix.Memory.{copy_in, copy_out, translate}
use tupix.Mmu.{
  build_l2_4kb_page_entry, init_thread_memory, sys_user_full, udata_ustack_phys_base_mb, update,
  Table,
}
use tupix.Scheduler.{get_cur_process, get_cur_thread_index}
use tupix.Thread.Stacks.{mapped_page_reaches}
use tupix.Timer.{LocalInterrupt, enable_timer, reset_timer}
use tupix.User.Main.{
  CanAsk, Places, handler-runs, in_call, main_round, request, request-verifies, word_bytes,
}

-- The running thread `i` stands in the process in the slot `p`, whose table is in use and maps the page
-- of the thread's stack.
pub record IsCaller (fetch : ℕ → ℕ) (at : Places) (k : Kernel) (p : ℕ) (process : Pcb) (i : ℕ)
    : Type 0 where
  pub asks : CanAsk fetch at k i
  pub owner : get_cur_process k ≡ ok (some p)
  pub in_use : k.active ≡ p
  pub found : get_elem? k.processes p ≡ some process
  pub mapped :
      process.l2_table (i * 2 + 2)
      ≡ build_l2_4kb_page_entry
          (u32 (udata_ustack_phys_base_mb + process.pid))
          (i + 1)
          sys_user_full
          false
  pub megabyte : udata_ustack_phys_base_mb + process.pid < 2 ^ 12

pub other_entry :
    (pid i j : ℕ) (table : Table)
    → i ≤ n_threads_per_process
    → j ≤ n_threads_per_process
    → j ≢ i
    → init_thread_memory pid j table (i * 2 + 2) ≡ table (i * 2 + 2)
unfolding init_thread_memory update
other_entry pid i j table hi hj apart = ground arith

pub copy_in-timer :
    (k : Kernel) (timer : LocalInterrupt) (src n : ℕ)
    → copy_in (record k { timer = timer }) src n ≡ copy_in k src n
unfolding copy_in translate load_process
copy_in-timer k timer src zero = refl
copy_in-timer k timer src (suc n) =
    ap (λ (r : Result (List ℕ)). translate k src >>= λ a. r >>= λ rest. ok (k.memory a ∷ rest))
      (copy_in-timer k timer (u32 (src + 1)) n)

module _ (fetch : ℕ → ℕ) (at : Places) (c : ℕ) (k : Kernel) (p : ℕ) (process : Pcb) (i : ℕ)
    (h : IsCaller fetch at k p process i) where
  -- The physical address of the variable.
  abbrev pub variable_at : ℕ
  variable_at =
      (udata_ustack_phys_base_mb + process.pid) * 2 ^ 20
      + (i + 1) * 2 ^ 12
      + (at.variable - (0x0050_0000 + i * 0x2000 + 0x2000))

  pub place :
      (at.variable < 0x0050_0000 + i * 0x2000 + 0x2400)
      × (0x0050_0000 + i * 0x2000 + 0x2000 ≤ at.variable)
      × (i ≤ n_threads_per_process)
      × (at.variable + 3 < 0x0050_0000 + i * 0x2000 + 0x2400)
  place =
      let stack = get_stack_pointer_lem i h.asks.index in
      omega (arith, stack, h.asks.below, h.asks.above, h.asks.aligned, h.asks.index)

  -- Under every table that maps the page of the stack as the caller's does.
  variable-Reaches :
      (m : Kernel) (q : Pcb)
      → load_process m m.active ≡ ok q
      → q.l2_table (i * 2 + 2) ≡ process.l2_table (i * 2 + 2)
      → Reaches m at.variable variable_at 4
  variable-Reaches m q loads alike = λ j r.
      let at_page : at.variable + j
          ≡ 5 * 2 ^ 20
            + (i * 2 + 2) * 2 ^ 12
            + (at.variable - (0x0050_0000 + i * 0x2000 + 0x2000) + j) =
        omega (arith, place) in
      ap (translate m) at_page
      ∙ mapped_page_reaches m q (i * 2 + 2) (udata_ustack_phys_base_mb + process.pid) (i + 1)
          (at.variable - (0x0050_0000 + i * 0x2000 + 0x2000) + j) loads (alike ∙ h.mapped)
          (omega (arith, place)) h.megabyte (omega (arith, place)) (omega (arith, place))
      ∙ ap ok (omega arith)

  -- The kernel once the variable is stored.
  abbrev pub stored : Kernel
  stored = record k { memory = write_block k.memory variable_at (word_bytes c) }

  stores : copy_out k at.variable (word_bytes c) ≡ ok stored
  unfolding load_process
  stores =
      copy_out_block k at.variable variable_at (word_bytes c)
        (variable-Reaches k process
          (ap (λ a. from_option (get_elem? k.processes a)) h.in_use ∙ ap from_option h.found) refl)
        (omega (arith, place))

  -- The kernel while the call runs.
  abbrev pub asking : Kernel
  asking = in_call at c stored

  -- What the handler leaves of the result of the call.
  abbrev pub restarted : Kernel → Kernel
  restarted k' = record k' { timer = enable_timer (reset_timer k'.timer) }

  pub still_asks : CanAsk fetch at stored i
  unfolding get_cur_thread_index load_thread
  still_asks = record {
    user = h.asks.user;
    runs = h.asks.runs;
    index = h.asks.index;
    code_aligned = h.asks.code_aligned;
    aligned = h.asks.aligned;
    below = h.asks.below;
    above = h.asks.above;
    creates = h.asks.creates;
    forks = h.asks.forks;
  }

  pub verified : verify_args asking ≡ ok true
  verified = request-verifies fetch at c stored i still_asks

  -- A round is the call with the variable stored.
  pub round-calls :
      (locals : Locals) (id : ℕ) (call : SyscallId) (k' : Kernel)
      → get_syscall_id fetch (request at c stored).regs.gr.lr ≡ id
      → syscall_of id ≡ some call
      → run_syscall locals (some call) asking ≡ ok k'
      → main_round locals fetch at c k ≡ ok (restarted k')
  unfolding main_round request
  round-calls locals id call k' number known runs = rw stores (
      handler-runs locals fetch (request at c stored) id call h.asks.user number known
      ∙ ap (λ (r : Result Kernel). r >>= λ m. ok (restarted m)) runs)

  pub reads_word :
      (m : Kernel) (q : Pcb)
      → load_process m m.active ≡ ok q
      → q.l2_table (i * 2 + 2) ≡ process.l2_table (i * 2 + 2)
      → ((j : ℕ) → j < 4 → m.memory (variable_at + j) ≡ get_or (word_bytes c) j 0)
      → copy_in m at.variable 4 ≡ ok (word_bytes c)
  reads_word m q loads alike held =
      copy_in_block m at.variable variable_at (word_bytes c) (variable-Reaches m q loads alike) held
        (omega (arith, place))
