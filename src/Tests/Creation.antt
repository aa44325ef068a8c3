-- ===== src/Tests/Creation.antt =====
-- New threads and processes, and the boot, at concrete inputs.
use tupix.Base.{
  if◌then◌else◌, ◌==◌, set, ◌%◌, List, [], arith, inl, refl, ℕ, ◌+◌, ◌∷◌, ◌≡◌, ◌≤◌, ◌<◌, ◌++◌, some,
  sub32, ◌⊎◌,
}
use tupix.Base.Result.{ok}
use tupix.Invariant.{IsTable}
use tupix.Kernel.{Kernel, Pcb, n_threads, n_threads_per_process}
use tupix.Memory.{copy_in, switch_memory}
use tupix.Process.Spawned.{process_made, CanSpawn, process_create_spawns, spawned, process_of}
use tupix.Thread.Stacks.{process_table}
use tupix.Process.Forked.{forked, process_create_copies}
use tupix.Memory.Blocks.{write_block}
use tupix.Process.Copied.{args_at, thread_create_copies, with_arguments}
use tupix.Process.Created.{CanCreate, prepared, with_thread}
use tupix.Process.{process_create, thread_create}
use tupix.User.Main.{Places}
use tupix.Tests.Samples.{RunAll, process, sample}
use tupix.Scheduler.{get_cur_process}
use tupix.Thread.{get_stack_pointer, thread_stack_base}
use tupix.Types.{circle_forward}
use tupix.Types.Refine.{contents}

-- The process 1 with the stacks of its threads 1 and 2, in a memory whose bytes count up.
abbrev caller : Pcb
caller = record (process 1) { l2_table = process_table 1 1 (2 ∷ 1 ∷ []) }

abbrev calling : Kernel
calling = record sample { processes = set sample.processes 1 caller; memory = λ a. a % 256 }

run_queue-IsTable : IsTable n_threads sample.thread_indices_q
unfolding contents
run_queue-IsTable = record {
  indices = record { valid = ground arith; entries = omega arith };
  size = refl;
}

free-IsTable : (i : ℕ) → IsTable n_threads_per_process (process i).free_indices_q
unfolding contents circle_forward
free-IsTable i = record {
  indices = record { valid = ground arith; entries = omega arith };
  size = refl;
}

calling-CanCreate : CanCreate calling 1 caller 3 (4 ∷ [])
unfolding RunAll
calling-CanCreate = record {
  has_room = record {
    found = refl;
    placed = omega arith;
    run = run_queue-IsTable;
    thread_slots = refl;
    room = omega arith;
  };
  free = free-IsTable 1;
  next = refl;
}

-- Five bytes on the stack of the thread 1.
abbrev letter : List ℕ
letter = 1 ∷ 2 ∷ 3 ∷ 4 ∷ 5 ∷ []

reads_letter : copy_in (prepared calling 1 caller 3) 0x0050_4101 5 ≡ ok letter
unfolding RunAll process_table
reads_letter = refl

runs_in_1 : get_cur_process calling ≡ ok (some 1)
unfolding RunAll
runs_in_1 = refl

thread_create_copies_example :
    (thread_create calling 1 0x0040_0300 0x0050_4101 5
      ≡ ok (some 3, with_arguments calling 1 caller 3 0x0040_0300 1 letter))
    × (contents (with_arguments calling 1 caller 3 0x0040_0300 1 letter).thread_indices_q
        ≡ contents calling.thread_indices_q ++ 3 ∷ [])
    × (contents (with_thread caller 3).free_indices_q ≡ 4 ∷ [])
    × (copy_in
          (switch_memory (with_arguments calling 1 caller 3 0x0040_0300 1 letter) 1)
          (sub32 (get_stack_pointer 3) 5)
          5
        ≡ ok letter)
    × ((x : ℕ)
        → (x < args_at 1 3 5) ⊎ (args_at 1 3 5 + 5 ≤ x)
        → (with_arguments calling 1 caller 3 0x0040_0300 1 letter).memory x ≡ x % 256)
thread_create_copies_example =
    thread_create_copies calling 1 0x0040_0300 0x0050_4101 1 caller 3 (4 ∷ []) letter
      calling-CanCreate (omega arith) (omega arith) (omega arith) reads_letter runs_in_1

calling-CanSpawn : CanSpawn calling 3 1 (4 ∷ 5 ∷ 6 ∷ 7 ∷ 8 ∷ [])
unfolding RunAll
calling-CanSpawn = record {
  sound = record {
    run_table = run_queue-IsTable;
    sleep_table = record { indices = record { valid = ground arith; entries = tt }; size = refl };
    char_table = record { indices = record { valid = ground arith; entries = tt }; size = refl };
    free_table = record {
      indices = record { valid = ground arith; entries = omega arith };
      size = refl;
    };
    process_slots = refl;
    thread_slots = refl;
    running_slot = omega arith;
    buffer = omega arith;
  };
  next = refl;
  room = omega arith;
  data_fits = omega arith;
  running = refl;
}

process_create_spawns_example :
    (process_create calling 0x0040_0300 0 0 ≡ ok (spawned calling 0x0040_0300 3 1))
    × (contents (spawned calling 0x0040_0300 3 1).free_process_indices_q ≡ 4 ∷ 5 ∷ 6 ∷ 7 ∷ 8 ∷ [])
    × (contents (spawned calling 0x0040_0300 3 1).thread_indices_q
        ≡ contents calling.thread_indices_q ++ 9 ∷ [])
    × (contents (with_thread (process_of calling 3) 1).free_indices_q ≡ 2 ∷ 3 ∷ 4 ∷ [])
    × (copy_in (switch_memory (spawned calling 0x0040_0300 3 1) 3) thread_stack_base 2
        ≡ ok (7 ∷ 8 ∷ []))
process_create_spawns_example =
    process_create_spawns calling 0x0040_0300 0 0 3 1 (4 ∷ 5 ∷ 6 ∷ 7 ∷ 8 ∷ []) calling-CanSpawn
      (inl refl)

reads_for_new :
    copy_in (prepared (process_made calling 3 1) 3 (process_of calling 3) 1) 0x0050_4101 5
    ≡ ok letter
unfolding RunAll process_table write_block
reads_for_new = refl

process_create_copies_example :
    (process_create calling 0x0040_0300 0x0050_4101 5 ≡ ok (forked calling 0x0040_0300 3 1 letter))
    × (contents (forked calling 0x0040_0300 3 1 letter).free_process_indices_q
        ≡ 4 ∷ 5 ∷ 6 ∷ 7 ∷ 8 ∷ [])
    × (contents (forked calling 0x0040_0300 3 1 letter).thread_indices_q
        ≡ contents calling.thread_indices_q ++ 9 ∷ [])
    × (copy_in
          (switch_memory (forked calling 0x0040_0300 3 1 letter) 3)
          (sub32 (get_stack_pointer 1) 5)
          5
        ≡ ok letter)
    × (copy_in (switch_memory (forked calling 0x0040_0300 3 1 letter) 3) thread_stack_base 2
        ≡ ok (7 ∷ 8 ∷ []))
process_create_copies_example =
    process_create_copies calling 0x0040_0300 0x0050_4101 3 1 (4 ∷ 5 ∷ 6 ∷ 7 ∷ 8 ∷ []) letter
      calling-CanSpawn (omega arith) (omega arith) (omega arith) reads_for_new

-- `svc #6` under one address, `svc #5` elsewhere; `c` stands on the stack of thread 1.
abbrev calls_of : ℕ → ℕ
calls_of address = if address == 0x0040_0118 then 0xef00_0006 else 0xef00_0005

abbrev places : Places
places = record {
  func = 0x0040_0200;
  variable = 0x0050_4100;
  behind_create_thread = 0x0040_011c;
  behind_fork = 0x0040_0114;
}
