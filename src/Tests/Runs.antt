-- ===== src/Tests/Runs.antt =====
-- From power-on to the first user thread.
use tupix.Base.{List, [], arith, refl, replicate, true, ℕ, ◌+◌, ◌^◌, ◌∷◌, ◌≡◌}
use tupix.Invariant.Reach.{IsPoweredOn, Reach}
use tupix.Timer.{LocalInterrupt}
use tupix.Isr.{Lines, irq_handler}
use tupix.Types.Refine.{contents, count_up}
use tupix.Base.Result.{ok, ◌>>=◌, Result}
use tupix.Tests.Samples.{board, locals, zero_tcb, zero_queue, RunAll, zero_frame, zero_pcb}
use tupix.Mmu.{cleared}
use tupix.Start.{Board, init_devices, start_kernel}
use tupix.Start.Boot.{IsMapped, scheduled, start_kernel_boots}
use tupix.Process.Spawned.{spawned}
use tupix.Process.Created.{new_tcb}
use tupix.Memory.{copy_in, switch_memory}
use tupix.Thread.{get_stack_pointer, thread_stack_base}
use tupix.Scheduler.{scheduler_cycle}
use tupix.Kernel.{Kernel, load_thread, n_threads, n_processes}

abbrev power_on : Kernel
power_on = record {
  image = record {
    exit = 0x0040_0000;
    endless_loop = 0x0040_0010;
    main_thread = 0x0040_0020;
    udata = 7 ∷ 8 ∷ [];
  };
  free_process_indices_q = zero_queue;
  thread_indices_q = zero_queue;
  sleep_waiting_q = zero_queue;
  char_waiting_q = zero_queue;
  processes = replicate (n_processes + 1) zero_pcb;
  threads = replicate (n_threads + 1) zero_tcb;
  running_thread = 0;
  tid_counter = 0;
  pid_counter = 0;
  regs = zero_frame;
  active = 0;
  memory = cleared;
  udata_cpy = [];
  queue = record { size = 0; count = 0; head = 0; tail = 0; chars = [] };
  transmitted = [];
  timer = record { routing = 0; ctrl_stat = 0; clear_reload = 0 };
}

observe : Result Kernel → Result (ℕ × List ℕ × ℕ × ℕ)
observe r = r >>= λ k.
    ok (k.running_thread, contents k.thread_indices_q, k.regs.gr.lr, k.memory 0x0060_0001)

booted : Result Kernel
booted = start_kernel board power_on >>= λ (board', k). ok k

first_cycle : Result Kernel
first_cycle = booted >>= λ k. scheduler_cycle k true

boots : observe first_cycle ≡ ok (1, [], 0x0040_0020, 8)
unfolding RunAll observe first_cycle booted
boots = refl

or_else {ℓ} : {A : Type ℓ} → A → Result A → A
or_else k (ok k') = k'
or_else k _ = k

started : Board × Kernel
started = or_else (board, power_on) (start_kernel board power_on)

-- The kernel once it runs, and after the first timer interrupt.
abbrev running : Kernel
running = started.1

tick : Lines
tick = record { mis = 0; fr = 0; dr = 0 }

due : LocalInterrupt
due = record (running.timer) { ctrl_stat = 2 ^ 31 }

cycled : Kernel
cycled = or_else running (irq_handler locals tick (record running { timer = due }))

power_on-IsPoweredOn : IsPoweredOn power_on
power_on-IsPoweredOn = record { process_slots = refl; thread_slots = refl; zeroed = omega arith }

start_kernel_boots_example :
    (start_kernel board power_on
      ≡ ok ((init_devices board power_on).0, spawned (scheduled power_on) 0x0040_0020 1 0))
    × (contents (spawned (scheduled power_on) 0x0040_0020 1 0).thread_indices_q ≡ 1 ∷ [])
    × (load_thread (spawned (scheduled power_on) 0x0040_0020 1 0) 1
        ≡ ok (new_tcb (scheduled power_on) 1 1 0x0040_0020 (get_stack_pointer 1) 0))
    × (contents (spawned (scheduled power_on) 0x0040_0020 1 0).free_process_indices_q
        ≡ count_up 2 7)
    × (copy_in (switch_memory (spawned (scheduled power_on) 0x0040_0020 1 0) 1) thread_stack_base 2
        ≡ ok (7 ∷ 8 ∷ []))
    × IsMapped board (init_devices board power_on).0.mmu
start_kernel_boots_example =
    start_kernel_boots board power_on power_on-IsPoweredOn (omega arith) (omega arith)
