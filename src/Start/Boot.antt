-- ===== src/Start/Boot.antt =====
-- What `start_kernel` of system/start.c leaves.
use tupix.Base.{
  length-set, [], ap, arith, get_elem?-set_self, length, ltb, refl, true, ◌%◌, ◌+◌, ◌/◌, ◌<◌, ◌^◌,
  ◌∷◌, ◌≡◌, inl,
}
use tupix.Base.Result.{from_option, ok}
use tupix.Invariant.Reach.{IsPoweredOn, init_scheduler-IsSound}
use tupix.Kernel.{Kernel, load_thread, n_processes, n_threads}
use tupix.Memory.{copy_in, switch_memory}
use tupix.Bits.Laws.{bit_or_halves}
use tupix.Process.Created.{new_tcb}
use tupix.Thread.{get_stack_pointer}
use tupix.Mmu.{get_ttbcr_init_val, dacr_domain_client_access, init_l1, init_mmu, MmuState}
use tupix.Mmu.Domains.{get_dacr_init_val_keeps}
use tupix.Process.Spawned.{CanSpawn, process_create_spawns, spawned}
use tupix.Scheduler.{get_cur_process}
use tupix.Start.{Board, init_devices, start_kernel}
use tupix.Tables.{init_null_thread, init_scheduler}
use tupix.Thread.{thread_stack_base}
use tupix.Types.{init_queue}
use tupix.Types.Refine.{contents, count_up, mark_all_free-init_queue}
use tupix.Uart.{init_uart_queue}
use tupix.Uart.Refine.{init_uart_queue-IsBuffer}
use tupix.Devices.{init_uart}
use tupix.Timer.{init_local_timer}

-- The MMU is on, walks the tables of `init_l1`, and checks the access to domain 0.
pub record IsMapped (board : Board) (mmu : MmuState) : Type 0 where
  pub enabled : mmu.sctlr % 2 ≡ 1
  pub walked : mmu.ttbr0 ≡ board.l1_start
  pub one_table : mmu.ttbcr ≡ 0
  pub tables :
      (mmu.l1, mmu.l1_udata_initialization) ≡ init_l1 board.l1_udata_initialization_l2_table
  pub client : mmu.dacr % 4 ≡ dacr_domain_client_access
  pub other_domains : mmu.dacr / 4 ≡ board.mmu.dacr / 4

-- The kernel before `init_scheduler`, and before its first process.
abbrev pub set_up : Kernel → Kernel
set_up k = record k {
  queue = init_uart_queue;
  timer = init_local_timer k.timer;
  udata_cpy = k.image.udata;
}

abbrev pub scheduled : Kernel → Kernel
scheduled k = init_scheduler (set_up k)

init_mmu-IsMapped :
    (board : Board)
    → board.mmu.dacr < 2 ^ 32
    → IsMapped board (init_mmu board.l1_start board.l1_udata_initialization_l2_table board.mmu)
unfolding init_mmu get_ttbcr_init_val
init_mmu-IsMapped board h =
    let (client, others) = get_dacr_init_val_keeps board.mmu.dacr h in
    record {
      enabled = omega (arith, bit_or_halves board.mmu.sctlr 1);
      walked = refl;
      one_table = refl;
      tables = refl;
      client = client;
      other_domains = others;
    }

scheduled-CanSpawn :
    (k : Kernel)
    → IsPoweredOn k
    → length k.image.udata < 0x1000
    → CanSpawn (scheduled k) 1 0 (count_up 2 7)
unfolding init_scheduler init_null_thread get_cur_process load_thread init_queue
scheduled-CanSpawn k p h =
    let slots : length k.threads ≡ n_threads + 1 = p.thread_slots in
    record {
      sound =
          init_scheduler-IsSound (set_up k)
            (record {
              process_slots = p.process_slots;
              thread_slots = p.thread_slots;
              zeroed = p.zeroed;
            })
            init_uart_queue-IsBuffer.0;
      next = (mark_all_free-init_queue n_processes (omega arith) (omega arith)).1;
      room = omega arith;
      data_fits = omega arith;
      running = rw (get_elem?-set_self k.threads 0 _ (omega (arith, slots))) refl;
    }

-- From power on, where static data is zero and the tables have their size, with user data of less
-- than 4 KB and a word in DACR: `start_kernel` returns. Then the main thread is the thread 1 of process 1, on its own
-- stack, and the only one that is ready; seven process slots are free; process 1 reads the user
-- data through its own table; and the MMU is on, with the tables of `init_l1` and domain 0 checked.
pub start_kernel_boots :
    (board : Board) (k : Kernel)
    → IsPoweredOn k
    → length k.image.udata < 0x1000
    → board.mmu.dacr < 2 ^ 32
    → let board' = (init_devices board k).0 in
      let k' = spawned (scheduled k) k.image.main_thread 1 0 in
      (start_kernel board k ≡ ok (board', k'))
      × (contents k'.thread_indices_q ≡ 1 ∷ [])
      × (load_thread k' 1
          ≡ ok (new_tcb (scheduled k) 1 1 k.image.main_thread (get_stack_pointer 1) 0))
      × (contents k'.free_process_indices_q ≡ count_up 2 7)
      × (copy_in (switch_memory k' 1) thread_stack_base (length k.image.udata) ≡ ok k.image.udata)
      × IsMapped board board'.mmu
unfolding start_kernel init_devices init_uart load_thread init_scheduler init_null_thread contents
    init_queue
start_kernel_boots board k p h m =
    let (created, free, last, _, reads) =
      process_create_spawns (scheduled k) k.image.main_thread 0 0 1 0 (count_up 2 7)
        (scheduled-CanSpawn k p h) (inl refl) in
    let slots : length k.threads ≡ n_threads + 1 = p.thread_slots in
    let within : ltb (length k.image.udata) 0x1000 ≡ true = ground arith in
    (
      rw (within, created) refl,
      last,
      ap from_option
          (get_elem?-set_self _ 1 _ (rw (length-set k.threads 0 _) (omega (arith, slots)))),
      free,
      reads,
      init_mmu-IsMapped board m,
    )
