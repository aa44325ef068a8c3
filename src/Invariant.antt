-- ===== src/Invariant.antt =====
-- The state of the kernel between two exceptions, over all the handlers of system/isr.c: which
-- queues, tables and indices it keeps well formed.
pub mod Switch
pub mod Cycle
pub mod Create
pub mod Parking
pub mod Handlers
pub mod Reach
use tupix.Base.{
  All, Bool, List, ap, arith, false, if◌then◌else◌, length, refl, true, ℕ, ◌+◌, ◌∙◌, ◌≡◌, ◌≤◌, ◌⊎◌,
}
use tupix.Types.Refine.{
  HasIndices, push_index-HasIndices, InRange, pop_index-HasIndices, pop_index-Popped, nothing,
  oldest,
}
use tupix.Types.Inv.{size-pop_index, size-push_index}
use tupix.Uart.Refine.{IsBuffer}
use tupix.Base.Int.{pos, negsuc, ℤ}
use tupix.Base.Result.{faulted, Result, panicked, timeout, ◌>>=◌, halted, ok}
use tupix.Uart.{UartQueue}
use tupix.Kernel.{n_threads_per_process, Pcb, Tcb, n_threads, Kernel, n_processes}
use tupix.Types.{pop_index, push_index, IndexQueue}

-- A queue of `n` entries at most that holds indices from 1 to `n`.
pub record IsTable (n : ℕ) (q : IndexQueue) : Type 0 where
  pub indices : HasIndices q
  pub size : q.size ≡ n

-- The parts of the state, so that a change of another part keeps it.
pub record Sound (run sleep char free : IndexQueue) (processes : List Pcb) (threads : List Tcb)
    (running : ℕ) (queue : UartQueue) : Type 0 where
  pub run_table : IsTable n_threads run
  pub sleep_table : IsTable n_threads sleep
  pub char_table : IsTable n_threads char
  pub free_table : IsTable n_processes free
  pub process_slots : length processes ≡ n_processes + 1
  pub thread_slots : length threads ≡ n_threads + 1
  pub running_slot : running ≤ n_threads
  pub buffer : IsBuffer queue

-- Every queue of the scheduler is valid and holds indices of its table, the tables have their size,
-- the running thread has a slot, and the buffer of received characters is valid. Of the queues of
-- the free indices of the processes nothing is said: their arrays lie in dead frames of the stack.
abbrev pub IsSound : Kernel → Type 0
IsSound k =
    Sound k.thread_indices_q k.sleep_waiting_q k.char_waiting_q k.free_process_indices_q k.processes
      k.threads k.running_thread k.queue

-- If the function returns, its result satisfies `P`.
abbrev pub Ensures {ℓ κ} : {A : Type ℓ} → (A → Type κ) → Result A → Type κ
Ensures P (ok a) = P a
Ensures P panicked = Unit
Ensures P halted = Unit
Ensures P faulted = Unit
Ensures P timeout = Unit

module _ {ℓ κ ι υ} {A : Type ℓ} {B : Type κ} where
  pub Ensures-bind :
      (P : A → Type ι) (Q : B → Type υ) (m : Result A) (f : A → Result B)
      → Ensures P m
      → ((a : A) → P a → Ensures Q (f a))
      → Ensures Q (m >>= f)
  Ensures-bind P Q (ok a) f h then_ = then_ a h
  Ensures-bind P Q panicked f h then_ = tt
  Ensures-bind P Q halted f h then_ = tt
  Ensures-bind P Q faulted f h then_ = tt
  Ensures-bind P Q timeout f h then_ = tt

pub Ensures-any {ℓ} : {A : Type ℓ} (m : Result A) → Ensures (λ a. Unit {0}) m
Ensures-any (ok a) = tt
Ensures-any panicked = tt
Ensures-any halted = tt
Ensures-any faulted = tt
Ensures-any timeout = tt

pub Ensures-if {ℓ κ} :
    {A : Type ℓ} (P : A → Type κ) (b : Bool) (m n : Result A)
    → Ensures P m
    → Ensures P n
    → Ensures P (if b then m else n)
Ensures-if P true m n h g = h
Ensures-if P false m n h g = g

pub Ensures-elim {ℓ κ} :
    {A : Type ℓ} (P : A → Type κ) (b : Bool) (m n : Result A)
    → Ensures P m
    → Ensures P n
    → Ensures P (elim b [ true ↦ m | false ↦ n ])
Ensures-elim P true m n h g = h
Ensures-elim P false m n h g = g

-- For the results of `push_index` and `pop_index`.
pub Ensures-index {ℓ κ} :
    {A : Type ℓ} (P : A → Type κ) (r : ℤ) (f g : ℕ → Result A)
    → ((x : ℕ) → r ≡ pos x → Ensures P (f x))
    → ((x : ℕ) → Ensures P (g x))
    → Ensures P (elim r [ pos x ↦ f x | negsuc x ↦ g x ])
Ensures-index P (pos x) f g h k = h x refl
Ensures-index P (negsuc x) f g h k = k x

-- What a function goes on with when they return an index.
pub elim_pos {ℓ} :
    {A : Type ℓ} (r : ℤ) (x : ℕ) (f g : ℕ → A)
    → r ≡ pos x
    → elim r [ pos y ↦ f y | negsuc y ↦ g y ] ≡ f x
elim_pos {A = A} r x f g e = ap (λ (s : ℤ). elim s as (λ _. A) [ pos y ↦ f y | negsuc y ↦ g y ]) e

-- What pushes and pops leave of a queue.
pub push_index-IsTable :
    (n : ℕ) (q : IndexQueue) (x : ℕ) → IsTable n q → IsTable n (push_index q x).1
push_index-IsTable n q x h = record {
  indices = push_index-HasIndices q x h.indices;
  size = size-push_index q x ∙ h.size;
}

pub pop_index-IsTable : (n : ℕ) (q : IndexQueue) → IsTable n q → IsTable n (pop_index q).1
pop_index-IsTable n q h = record {
  indices = pop_index-HasIndices q h.indices;
  size = size-pop_index q ∙ h.size;
}

-- A popped index is in the range of the table.
pub pop_index-le :
    (n : ℕ) (q : IndexQueue) (x : ℕ) → IsTable n q → (pop_index q).0 ≡ pos x → InRange n x
pop_index-le n q x h e = elim (pop_index-Popped q h.indices) [
  | nothing _ none_left ↦ absurd (cc (ap (λ p. p.0) none_left))
  | oldest y range head _ ↦
      let same : x ≡ y = cc in let sized : q.size ≡ n = h.size in omega (arith, range)
]

-- A change of one part that is sound.
module _ {run sleep char free : IndexQueue} {processes : List Pcb} {threads : List Tcb}
    {running : ℕ} {queue : UartQueue}
    (h : Sound run sleep char free processes threads running queue) where
  pub with_run :
      (q : IndexQueue)
      → IsTable n_threads q
      → Sound q sleep char free processes threads running queue
  with_run q v = ground arith

  pub with_sleep :
      (q : IndexQueue) → IsTable n_threads q → Sound run q char free processes threads running queue
  with_sleep q v = ground arith

  pub with_char :
      (q : IndexQueue)
      → IsTable n_threads q
      → Sound run sleep q free processes threads running queue
  with_char q v = ground arith

  pub with_free :
      (q : IndexQueue)
      → IsTable n_processes q
      → Sound run sleep char q processes threads running queue
  with_free q v = ground arith

  pub with_processes :
      (ps : List Pcb)
      → length ps ≡ n_processes + 1
      → Sound run sleep char free ps threads running queue
  with_processes ps v = ground arith

  pub with_threads :
      (ts : List Tcb)
      → length ts ≡ n_threads + 1
      → Sound run sleep char free processes ts running queue
  with_threads ts v = ground arith

  pub with_running : (r : ℕ) → r ≤ n_threads → Sound run sleep char free processes threads r queue
  with_running r v = ground arith

  pub with_queue :
      (b : UartQueue) → IsBuffer b → Sound run sleep char free processes threads running b
  with_queue b v = ground arith
