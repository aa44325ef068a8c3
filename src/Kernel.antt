-- ===== src/Kernel.antt =====
-- The state that the files under system/ share: the process and thread tables of
-- system/scheduler.c, its queues, the register frame of the current exception, and the memory.
-- A pointer to a `struct tcb` or a `struct pcb` is the index of its slot in the table.
use tupix.Base.{List, Option, get_elem?, if◌then◌else◌, length, ltb, none, set, some, ℕ, ◌*◌}
use tupix.Base.Result.{Result, faulted, ok, from_option}
use tupix.Uart.{UartQueue}
use tupix.Mmu.{Table}
use tupix.Registers.{Registers, GeneralRegisters}
use tupix.Timer.{LocalInterrupt}
use tupix.Types.{IndexQueue}

-- `enum thread_state` of include/system/thread.h
pub data ThreadState : Type 0 where
  ready waiting done : ThreadState

-- `struct tcb`; none is a NULL pointer to its process.
pub record Tcb : Type 0 where
  pub tid : ℕ
  pub index : ℕ
  pub process : Option ℕ
  pub regs : GeneralRegisters
  pub cpsr : ℕ
  pub waiting_duration : ℕ
  pub state : ThreadState

-- `struct pcb` of include/system/process.h
pub record Pcb : Type 0 where
  pub pid : ℕ
  pub index : ℕ
  pub free_indices_q : IndexQueue
  pub l2_table : Table

-- What the linker fixes: addresses of code, and the initial bytes of the user data.
pub record Image : Type 0 where
  pub exit : ℕ
  pub endless_loop : ℕ
  pub main_thread : ℕ
  pub udata : List ℕ

pub record Kernel : Type 0 where
  pub image : Image
  pub free_process_indices_q : IndexQueue
  pub thread_indices_q : IndexQueue
  pub sleep_waiting_q : IndexQueue
  pub char_waiting_q : IndexQueue
  pub processes : List Pcb
  pub threads : List Tcb
  pub running_thread : ℕ
  pub tid_counter : ℕ
  pub pid_counter : ℕ
  pub regs : Registers
  pub active : ℕ
  pub memory : Table
  pub udata_cpy : List ℕ
  pub queue : UartQueue
  pub transmitted : List ℕ
  pub timer : LocalInterrupt

-- `N_PROCESSES`, `N_THREADS_PER_PROCESS` and `N_THREADS` of include/config.h
abbrev pub n_processes : ℕ
n_processes = 8

abbrev pub n_threads_per_process : ℕ
n_threads_per_process = 4

abbrev pub n_threads : ℕ
n_threads = n_processes * n_threads_per_process

-- The slot of `null_thread`.
abbrev pub null_thread : ℕ
null_thread = 0

-- `threads[index]` and `processes[index]`, read and written.
unfoldable pub load_thread : Kernel → ℕ → Result Tcb
load_thread k index = from_option (get_elem? k.threads index)

unfoldable pub store_thread : Kernel → ℕ → Tcb → Result Kernel
store_thread k index t =
    if ltb index (length k.threads)
    then ok (record k { threads = set k.threads index t })
    else faulted

unfoldable pub load_process : Kernel → ℕ → Result Pcb
load_process k index = from_option (get_elem? k.processes index)

-- What a pointer to a process designates; NULL designates nothing.
unfoldable pub deref_process : Kernel → Option ℕ → Result Pcb
unfolding load_process
deref_process k none = faulted
deref_process k (some slot) = load_process k slot

unfoldable pub store_process : Kernel → ℕ → Pcb → Result Kernel
store_process k index p =
    if ltb index (length k.processes)
    then ok (record k { processes = set k.processes index p })
    else faulted
