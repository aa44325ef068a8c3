-- ===== src/Tests/Switching.antt =====
-- The context switch, the cycle of the scheduler and the end of a thread.
use tupix.Base.{
  All, [], arith, length, none, refl, replicate, set, some, true, ℕ, ◌++◌, ◌+◌, ◌∷◌, ◌≡◌, ◌≢◌,
}
use tupix.Types.Refine.{contents, HasIndices}
use tupix.Context.Slots.{get_global_thread_index_injective}
use tupix.Context.Switch.{switch_context_restores, user_view}
use tupix.Scheduler.Slice.{IsCycled, IsSliceEnd, scheduler_cycle_loses, scheduler_cycle_round_robin}
use tupix.Sleep.Ticks.{tick, tick_all}
use tupix.Scheduler.Kill.{CanRelease, kill_cur_thread_frees, Killed}
use tupix.Base.Result.{ok}
use tupix.Tests.Samples.{thread, sample, process, queue_of}
use tupix.Scheduler.Fair.{IsRotating, cycles, scheduler_cycle_fair}
use tupix.Memory.{switch_memory}
use tupix.Scheduler.{kill_cur_thread, scheduler_cycle}
use tupix.Types.{circle_forward}
use tupix.Context.{
  save_old, save_context, load_context, switch_context, get_global_thread_index, load_new,
}
use tupix.Kernel.{Kernel, Tcb, load_process, store_thread, deref_process, load_thread}

pub run_HasIndices : HasIndices sample.thread_indices_q
unfolding contents circle_forward
run_HasIndices = record { valid = omega arith; entries = omega arith }

pub run_contents : contents sample.thread_indices_q ≡ 2 ∷ []
unfolding contents
run_contents = refl

-- Thread 2 of process 1 sleeps for one tick, and the thread in another slot behind it for three.
abbrev one_tick : Tcb
one_tick = record (thread 2 1 200) { waiting_duration = 1 }

abbrev slice : ℕ → ℕ → Tcb → Kernel
slice running behind t = record sample {
  running_thread = running;
  thread_indices_q = queue_of [];
  sleep_waiting_q = queue_of (2 ∷ behind ∷ []);
  threads = set (set sample.threads 2 one_tick) behind (record t { waiting_duration = 3 });
}

first-IsSliceEnd :
    IsSliceEnd
      (slice 1 5 (thread 1 2 500))
      (2 ∷ [])
      (5 ∷ [])
      2
      1
      []
      (thread 1 1 100)
      (thread 2 1 200)
      (process 1)
unfolding deref_process load_process get_global_thread_index contents circle_forward tick_all tick
first-IsSliceEnd = record {
  run_queue = record { valid = omega arith; entries = tt };
  size = refl;
  asleep = record {
    sleepers = record { valid = omega arith; entries = omega arith };
    in_order = refl;
    distinct = omega arith;
    over = ((one_tick, refl, refl), tt);
    waits =
        ((record (thread 1 2 500) { waiting_duration = 3 }, refl, omega arith, omega arith), tt);
    in_table = omega arith;
    room = omega arith;
  };
  entries = refl;
  placed = record {
    found = refl;
    owner = refl;
    process_index = omega arith;
    thread_index = omega arith;
    placed = refl;
  };
  other = omega arith;
  awake = omega arith;
  next_thread = refl;
  next_process = refl;
}

scheduler_cycle_round_robin_example :
    (k' : Kernel) × (scheduler_cycle (slice 1 5 (thread 1 2 500)) true ≡ ok k')
    × IsCycled (slice 1 5 (thread 1 2 500)) (2 ∷ []) (5 ∷ []) 2 (thread 1 1 100) (thread 2 1 200) k'
    × (contents k'.thread_indices_q ≡ 1 ∷ [])
scheduler_cycle_round_robin_example =
    scheduler_cycle_round_robin (slice 1 5 (thread 1 2 500)) (2 ∷ []) (5 ∷ []) 2 1 []
      (thread 1 1 100) (thread 2 1 200) (process 1) first-IsSliceEnd refl

-- The thread of the second process runs.
second-IsSliceEnd :
    IsSliceEnd
      (slice 5 1 (thread 1 1 100))
      (2 ∷ [])
      (1 ∷ [])
      2
      1
      []
      (thread 1 2 500)
      (thread 2 1 200)
      (process 2)
unfolding deref_process load_process get_global_thread_index contents circle_forward tick_all tick
second-IsSliceEnd = record {
  run_queue = record { valid = omega arith; entries = tt };
  size = refl;
  asleep = record {
    sleepers = record { valid = omega arith; entries = omega arith };
    in_order = refl;
    distinct = omega arith;
    over = ((one_tick, refl, refl), tt);
    waits =
        ((record (thread 1 1 100) { waiting_duration = 3 }, refl, omega arith, omega arith), tt);
    in_table = omega arith;
    room = omega arith;
  };
  entries = refl;
  placed = record {
    found = refl;
    owner = refl;
    process_index = omega arith;
    thread_index = omega arith;
    placed = refl;
  };
  other = omega arith;
  awake = omega arith;
  next_thread = refl;
  next_process = refl;
}

scheduler_cycle_loses_example :
    (k' : Kernel) × (scheduler_cycle (slice 5 1 (thread 1 1 100)) true ≡ ok k')
    × (k'.running_thread ≢ 5)
    × (contents k'.thread_indices_q ≡ 1 ∷ [])
    × All (λ c. c ≢ 5) (contents k'.thread_indices_q)
scheduler_cycle_loses_example =
    scheduler_cycle_loses (slice 5 1 (thread 1 1 100)) (2 ∷ []) (1 ∷ []) 2 1 [] (thread 1 2 500)
      (thread 2 1 200) (process 2) second-IsSliceEnd (omega arith) tt

-- Thread 1 was switched out for thread 2.
abbrev switched : Kernel
switched = record sample {
  threads = set sample.threads 1 (save_context sample.regs (thread 1 1 100));
  regs = load_context sample.regs (thread 2 1 200);
  active = 1;
}

switched-runs : switch_context sample (some 1) 2 ≡ ok switched
unfolding switch_context save_old load_new load_thread store_thread switch_memory
switched-runs = refl

switch_context_restores_example :
    (back : Kernel) × (switch_context switched none 1 ≡ ok back)
    × (user_view back.regs ≡ user_view sample.regs)
    × (back.active ≡ 1)
switch_context_restores_example =
    switch_context_restores sample switched switched 1 2 1 (thread 1 1 100) (omega arith) refl refl
      switched-runs refl

get_global_thread_index_injective_example : ◌≡◌ {A = ℕ} 1 1 × ◌≡◌ {A = ℕ} 2 2
unfolding deref_process load_process get_global_thread_index
get_global_thread_index_injective_example =
    get_global_thread_index_injective sample (thread 2 1 200) (thread 2 1 200) (process 1)
      (process 1) refl refl (omega arith) (omega arith) (omega arith) (omega arith) refl

pub sample-CanRelease : CanRelease sample (thread 1 1 100) (process 1)
unfolding contents circle_forward
sample-CanRelease = record {
  threads = record { valid = omega arith; entries = omega arith };
  threads_size = refl;
  thread_index = omega arith;
  thread_room = omega arith;
  processes = record { valid = omega arith; entries = omega arith };
  processes_size = refl;
  process_index = omega arith;
  process_room = omega arith;
}

kill_cur_thread_frees_example :
    (k' : Kernel) × (kill_cur_thread sample ≡ ok k')
    × Killed sample 1 (2 ∷ []) (thread 1 1 100) (thread 2 1 200) (process 1) k'
kill_cur_thread_frees_example =
    kill_cur_thread_frees sample 1 1 (2 ∷ []) (thread 1 1 100) (thread 2 1 200) (process 1)
      run_HasIndices run_contents refl refl refl refl refl sample-CanRelease

-- Three threads of process 1: thread 1 runs, and the others are ready.
abbrev turns : Kernel
turns = record sample {
  thread_indices_q = queue_of (2 ∷ 3 ∷ []);
  threads =
      thread 0 0 0 ∷ thread 1 1 100 ∷ thread 2 1 200 ∷ thread 3 1 300 ∷ replicate 29 (thread 0 0 0);
}

turns-IsRotating : IsRotating turns (2 ∷ 3 ∷ [])
unfolding contents circle_forward
turns-IsRotating = record {
  queue = record { valid = omega arith; entries = omega arith };
  size = refl;
  entries = refl;
  distinct = omega arith;
  runnable = (
    (thread 1 1 100, 1, refl, refl, refl, omega arith),
    (
      (thread 2 1 200, 1, refl, refl, refl, omega arith),
      ((thread 3 1 300, 1, refl, refl, refl, omega arith), tt),
    ),
  );
  sleepers = omega arith;
  awake = refl;
}

scheduler_cycle_fair_example :
    (k' : Kernel) × (cycles (length {A = ℕ} (2 ∷ []) + 1) true turns ≡ ok k')
    × (k'.running_thread ≡ 3)
    × (contents k'.thread_indices_q ≡ [] ++ 1 ∷ 2 ∷ [])
scheduler_cycle_fair_example = scheduler_cycle_fair (2 ∷ []) 3 [] turns true turns-IsRotating
