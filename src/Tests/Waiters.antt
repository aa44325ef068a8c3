-- ===== src/Tests/Waiters.antt =====
-- Threads that sleep or wait for a character.
use tupix.Base.{inl, inr, [], arith, get_elem?, refl, some, ℕ, ◌++◌, ◌∷◌, ◌≡◌}
use tupix.Types.Refine.{contents, HasIndices}
use tupix.Sleep.Order.{decrement_waits_panics, decrement_waits_wakes}
use tupix.Sleep.Ticks.{tick_all}
use tupix.Calls.GetChar.{exec_syscall_get_char_waits, exec_syscall_get_char-buffered}
use tupix.Isr.Irq.{irq_handler_wakes_reader}
use tupix.Uart.Refine.{buffered}
use tupix.Base.Result.{panicked, ok}
use tupix.Tests.Samples.{locals, queue_of, process, thread, zero_tcb, sample}
use tupix.Waiting.Park.{Parked, HasRoom, CanPark, scheduler_on_sleep_parks}
use tupix.Uart.{uart_is_interrupting}
use tupix.Registers.{zero_registers}
use tupix.Types.{circle_forward}
use tupix.Bits.{is_set}
use tupix.Calls.{exec_syscall_get_char}
use tupix.Waiting.{sleep_waiting, char_waiting, scheduler_on_sleep}
use tupix.Context.{get_global_thread_index, save_context}
use tupix.Sleep.{decrement_waits}
use tupix.Timer.{l_timer_is_interrupting}
use tupix.Isr.{irq_handler}
use tupix.Kernel.{Kernel, load_process, deref_process, waiting, ready}

run_HasIndices : HasIndices sample.thread_indices_q
unfolding contents circle_forward
run_HasIndices = record { valid = omega arith; entries = omega arith }

-- Thread 1 sleeps for one tick, and thread 2 behind it for three.
abbrev sleeps : ℕ → ℕ → Kernel
sleeps one two = record sample {
  sleep_waiting_q = queue_of (1 ∷ 2 ∷ []);
  thread_indices_q = queue_of (5 ∷ []);
  threads =
      thread 0 0 0
      ∷ record (thread 1 1 100) { waiting_duration = one }
      ∷ record (thread 2 1 200) { waiting_duration = two }
      ∷ zero_tcb
      ∷ zero_tcb
      ∷ thread 1 2 500
      ∷ [];
}

asleep_HasIndices : HasIndices (queue_of (1 ∷ 2 ∷ []))
unfolding contents circle_forward
asleep_HasIndices = record { valid = omega arith; entries = omega arith }

asleep_contents : contents (queue_of (1 ∷ 2 ∷ [])) ≡ 1 ∷ 2 ∷ []
unfolding contents circle_forward
asleep_contents = refl

ready_contents : contents (queue_of (5 ∷ [])) ≡ 5 ∷ []
unfolding contents
ready_contents = refl

decrement_waits_wakes_example :
    (k' : Kernel) × (decrement_waits (sleeps 1 3) ≡ ok k')
    × (contents k'.sleep_waiting_q ≡ 2 ∷ [])
    × (contents k'.thread_indices_q ≡ contents (queue_of (5 ∷ [])) ++ (1 ∷ []))
    × (k'.threads ≡ tick_all (1 ∷ 2 ∷ []) (sleeps 1 3).threads)
unfolding contents
decrement_waits_wakes_example =
    decrement_waits_wakes (sleeps 1 3) (1 ∷ []) (2 ∷ []) asleep_HasIndices (omega arith)
      asleep_contents (omega arith)
      ((record (thread 1 1 100) { waiting_duration = 1 }, refl, refl), tt)
      ((record (thread 2 1 200) { waiting_duration = 3 }, refl, omega arith, omega arith), tt)
      (omega arith) (omega arith)

decrement_waits_panics_example : decrement_waits (sleeps 3 1) ≡ panicked
unfolding contents
decrement_waits_panics_example =
    decrement_waits_panics (sleeps 3 1) [] [] [] 1 2 asleep_HasIndices (omega arith) asleep_contents
      (omega arith) tt
      (record (thread 1 1 100) { waiting_duration = 3 }, refl, omega arith, omega arith) tt
      (record (thread 2 1 200) { waiting_duration = 1 }, refl, refl) tt (omega arith)

sample-CanPark :
    CanPark sample 2 1 0 [] (thread 1 1 100) (thread 2 1 200) (thread 0 0 0) (process 1)
unfolding deref_process load_process get_global_thread_index contents
sample-CanPark = record {
  running = omega arith;
  placed = record {
    found = refl;
    owner = refl;
    process_index = omega arith;
    thread_index = omega arith;
    placed = refl;
  };
  run_queue = run_HasIndices;
  next = inl refl;
  other = omega arith;
  next_thread = refl;
  next_process = refl;
  idle_thread = refl;
  idle_process = refl;
}

empty_HasRoom : HasRoom (queue_of [])
empty_HasRoom = omega arith

scheduler_on_sleep_parks_example :
    (k' : Kernel) × (scheduler_on_sleep sample 7 ≡ ok k')
    × Parked sample 2 1 0 []
        (thread 1 1 100)
        (thread 2 1 200)
        (thread 0 0 0)
        (process 1)
        sleep_waiting
        (record (save_context sample.regs (thread 1 1 100)) { waiting_duration = 7 })
        k'
scheduler_on_sleep_parks_example =
    scheduler_on_sleep_parks sample 2 1 0 [] (thread 1 1 100) (thread 2 1 200) (thread 0 0 0)
      (process 1) 7 sample-CanPark empty_HasRoom (omega arith)

-- No other thread is ready.
abbrev alone : Kernel
alone = record sample { thread_indices_q = queue_of [] }

alone-CanPark : CanPark alone 0 0 0 [] (thread 1 1 100) (thread 0 0 0) (thread 0 0 0) (process 1)
unfolding deref_process load_process get_global_thread_index contents
alone-CanPark = record {
  running = omega arith;
  placed = record {
    found = refl;
    owner = refl;
    process_index = omega arith;
    thread_index = omega arith;
    placed = refl;
  };
  run_queue = record { valid = omega arith; entries = tt };
  next = inr (refl, refl, refl);
  other = omega arith;
  next_thread = refl;
  next_process = refl;
  idle_thread = refl;
  idle_process = refl;
}

exec_syscall_get_char_waits_example :
    (k' : Kernel) × (exec_syscall_get_char alone ≡ ok k')
    × Parked alone 0 0 0 []
        (thread 1 1 100)
        (thread 0 0 0)
        (thread 0 0 0)
        (process 1)
        char_waiting
        (record (save_context alone.regs (thread 1 1 100)) { state = waiting })
        k'
exec_syscall_get_char_waits_example =
    exec_syscall_get_char_waits alone 0 0 0 [] (thread 1 1 100) (thread 0 0 0) (thread 0 0 0)
      (process 1) alone-CanPark empty_HasRoom refl

-- Two characters are buffered.
abbrev typed : Kernel
typed = record sample {
  queue = record { size = 4; count = 2; head = 3; tail = 1; chars = 66 ∷ 0 ∷ 0 ∷ 65 ∷ [] };
}

typed-buffered : buffered typed.queue ≡ 65 ∷ 66 ∷ []
unfolding buffered circle_forward
typed-buffered = refl

exec_syscall_get_char-buffered_example :
    (k' : Kernel) × (exec_syscall_get_char typed ≡ ok k')
    × (k'.regs.gr.r0 ≡ 65)
    × (buffered k'.queue ≡ 66 ∷ [])
    × (k'.running_thread ≡ 1)
    × (k'.threads ≡ typed.threads)
exec_syscall_get_char-buffered_example =
    exec_syscall_get_char-buffered typed 65 (66 ∷ []) (omega arith) typed-buffered

-- Thread 5 waits for a character, and thread 2 behind it.
abbrev reads : Kernel
reads = record sample { char_waiting_q = queue_of (5 ∷ 2 ∷ []); thread_indices_q = queue_of [] }

readers_HasIndices : HasIndices (queue_of (5 ∷ 2 ∷ []))
unfolding contents circle_forward
readers_HasIndices = record { valid = omega arith; entries = omega arith }

readers_contents : contents (queue_of (5 ∷ 2 ∷ [])) ≡ 5 ∷ 2 ∷ []
unfolding contents circle_forward
readers_contents = refl

irq_handler_wakes_reader_example :
    (k' : Kernel) × (irq_handler locals (record { mis = 16; fr = 0; dr = 0x41 }) reads ≡ ok k')
    × (contents k'.char_waiting_q ≡ 2 ∷ [])
    × (get_elem? k'.threads 5
        ≡ some
            (record (thread 1 2 500) { regs = record zero_registers { r0 = 0x41 }; state = ready }))
    × (contents k'.thread_indices_q ≡ contents (queue_of []) ++ (5 ∷ []))
    × (buffered k'.queue ≡ [])
    × (k'.running_thread ≡ 1)
unfolding l_timer_is_interrupting uart_is_interrupting is_set
irq_handler_wakes_reader_example =
    irq_handler_wakes_reader locals (record { mis = 16; fr = 0; dr = 0x41 }) reads 5 (2 ∷ [])
      (thread 1 2 500) refl refl refl readers_HasIndices readers_contents refl (omega arith)
      (omega arith) (omega arith) (omega arith) refl
