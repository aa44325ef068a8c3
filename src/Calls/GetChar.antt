-- ===== src/Calls/GetChar.antt =====
-- `exec_syscall_get_char` of system/calls.c.
use tupix.Base.{
  List, ap, arith, get_elem?, get_elem?-set_ne, length, refl, set, some, sym, ℕ, ◌∙◌, ◌∷◌, ◌≡◌, ◌≢◌,
}
use tupix.Scheduler.{get_cur_thread_state}
use tupix.Types.Ring.{cons_injective}
use tupix.Uart.Refine.{buffered, length-buffered, uart_pop_char_refines, IsBuffer}
use tupix.Base.Result.{ok, panicked}
use tupix.Waiting.Park.{scheduler_on_getchar-parks, HasRoom, CanPark, Parked}
use tupix.Uart.{uart_pop_char, uart_queue_is_emtpy}
use tupix.Kernel.{Kernel, ThreadState, done, ready, Tcb, waiting, Pcb, load_thread}
use tupix.Calls.{set_syscall_return_value, exec_syscall_get_char, is_ready}
use tupix.Waiting.{char_waiting, scheduler_on_getchar}
use tupix.Context.{save_context}

-- With characters in the buffer the caller goes on with the oldest one in `r0`; the thread tables and
-- the queues of the scheduler do not change.
pub exec_syscall_get_char-buffered :
    (k : Kernel) (c : ℕ) (l : List ℕ)
    → IsBuffer k.queue
    → buffered k.queue ≡ c ∷ l
    → (k' : Kernel) × (exec_syscall_get_char k ≡ ok k')
      × (k'.regs.gr.r0 ≡ c)
      × (buffered k'.queue ≡ l)
      × (k'.running_thread ≡ k.running_thread)
      × (k'.threads ≡ k.threads)
unfolding exec_syscall_get_char uart_queue_is_emtpy set_syscall_return_value
exec_syscall_get_char-buffered k c l v e =
    let some_left : k.queue.count ≢ 0 = omega (arith, ap length e, length-buffered k.queue) in
    let popped = cons_injective (sym e ∙ uart_pop_char_refines k.queue v some_left) in
    (
      set_syscall_return_value (record k { queue = (uart_pop_char k.queue).1 })
          (uart_pop_char k.queue).0,
      ground arith,
      sym popped.0,
      sym popped.1,
      refl,
      refl,
    )

get_cur_thread_state_of :
    (k : Kernel) (x : ℕ) (t : Tcb)
    → k.running_thread ≡ x
    → get_elem? k.threads x ≡ some t
    → get_cur_thread_state k ≡ ok t.state
unfolding get_cur_thread_state load_thread
get_cur_thread_state_of k x t e found = rw (e, found)

get_char-asserts :
    (k k' : Kernel) (state : ThreadState)
    → k.queue.count ≡ 0
    → scheduler_on_getchar k ≡ ok k'
    → get_cur_thread_state k' ≡ ok state
    → exec_syscall_get_char k ≡ elim state [ ready ↦ ok k' | waiting ↦ panicked | done ↦ panicked ]
unfolding exec_syscall_get_char uart_queue_is_emtpy is_ready
get_char-asserts k k' ready empty calls state = ground arith
get_char-asserts k k' waiting empty calls state = ground arith
get_char-asserts k k' done empty calls state = ground arith

-- With an empty buffer and room in the queue for characters the caller is parked there as the last
-- one, in the state `waiting`, and the head of the run queue runs, or the null thread when it is
-- empty. The call returns when that thread is ready, and panics on its assertion in every other
-- state.
pub exec_syscall_get_char_waits :
    (k : Kernel) (x slot null_slot : ℕ) (rest : List ℕ) (t new null : Tcb) (p : Pcb)
    → CanPark k x slot null_slot rest t new null p
    → HasRoom k.char_waiting_q
    → k.queue.count ≡ 0
    → (k' : Kernel) × (exec_syscall_get_char k
        ≡ elim new.state [ ready ↦ ok k' | waiting ↦ panicked | done ↦ panicked ])
      × Parked k x slot null_slot rest t new null p char_waiting
          (record (save_context k.regs t) { state = waiting })
          k'
exec_syscall_get_char_waits k x slot null_slot rest t new null p h room empty =
    let (k', calls, left, table) =
      scheduler_on_getchar-parks k x slot null_slot rest t new null p h room in
    let old : Tcb = save_context k.regs t in
    let still : get_elem? k'.threads x ≡ some new =
      ap (λ ts. get_elem? ts x) table
      ∙ get_elem?-set_ne (set k.threads k.running_thread old) k.running_thread x _ h.other
      ∙ get_elem?-set_ne k.threads k.running_thread x old h.other
      ∙ h.next_thread in
    (
      k',
      get_char-asserts k k' new.state empty calls
          (get_cur_thread_state_of k' x new left.runs still),
      left,
    )
