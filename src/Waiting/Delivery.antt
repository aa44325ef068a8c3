-- ===== src/Waiting/Delivery.antt =====
-- `scheduler_on_char_received` of system/scheduler.c.
use tupix.Base.{
  List, [], ap, arith, get_elem?, get_elem?-set_ne, get_elem?-set_self, get_elem?-some-lt, length,
  refl, set, some, ℕ, ◌++◌, ◌<◌, ◌∷◌, ◌≡◌, ◌≢◌,
}
use tupix.Types.Inv.{IsValid}
use tupix.Types.Refine.{
  HasIndices, pop_index-head, contents, push_index_fits, InRange, length-contents,
}
use tupix.Uart.Refine.{uart_pop_char_refines, buffered, IsBuffer}
use tupix.Base.Int.{pos}
use tupix.Base.Result.{ok}
use tupix.Uart.{uart_queue_is_emtpy, uart_pop_char}
use tupix.Kernel.{ready, load_thread, store_thread, Kernel, Tcb}
use tupix.Types.{pop_index, push_index}
use tupix.Waiting.{deliver_char, scheduler_on_char_received}

module _ (k : Kernel) (x : ℕ) (rest : List ℕ) (t : Tcb) where
  -- What `scheduler_on_char_received` leaves when `x` was first in the waiting queue.
  pub record Delivered (c : ℕ) (k' : Kernel) : Type 0 where
    pub waiting_queue : contents k'.char_waiting_q ≡ rest
    pub woken_thread :
        get_elem? k'.threads x
        ≡ some (record t { regs = record (t.regs) { r0 = c }; state = ready })
    pub run_queue : contents k'.thread_indices_q ≡ contents k.thread_indices_q ++ (x ∷ [])
    pub others : (j : ℕ) → x ≢ j → get_elem? k'.threads j ≡ get_elem? k.threads j
    pub buffer : buffered k.queue ≡ c ∷ buffered k'.queue
    pub running : k'.running_thread ≡ k.running_thread

  abbrev delivered : Kernel
  delivered = record k {
    char_waiting_q = (pop_index k.char_waiting_q).1;
    queue = (uart_pop_char k.queue).1;
    threads =
        set k.threads x
          (record t { regs = record (t.regs) { r0 = (uart_pop_char k.queue).0 }; state = ready });
    thread_indices_q = (push_index k.thread_indices_q x).1;
  }

  on_char_received-runs :
      (pop_index k.char_waiting_q).0 ≡ pos x
      → k.char_waiting_q.count ≢ 0
      → k.queue.count ≢ 0
      → get_elem? k.threads x ≡ some t
      → scheduler_on_char_received k ≡ ok delivered
  unfolding scheduler_on_char_received deliver_char uart_queue_is_emtpy load_thread store_thread
  on_char_received-runs e ne ne' found = ground (arith, get_elem?-some-lt k.threads x found)

  -- With a character in the buffer and room in the run queue, `scheduler_on_char_received` returns: the
  -- thread that has waited longest has the oldest character in `r0`, is ready, and stands last in
  -- the run queue; the other waiters keep their order, and no other thread changes.
  pub scheduler_on_char_received_delivers :
      HasIndices k.char_waiting_q
      → contents k.char_waiting_q ≡ x ∷ rest
      → get_elem? k.threads x ≡ some t
      → IsValid k.thread_indices_q
      → InRange k.thread_indices_q.size x
      → k.thread_indices_q.count < k.thread_indices_q.size
      → IsBuffer k.queue
      → k.queue.count ≢ 0
      → (k' : Kernel) × (scheduler_on_char_received k ≡ ok k')
        × Delivered (uart_pop_char k.queue).0 k'
  scheduler_on_char_received_delivers h e found run r room v ne =
      let popped = pop_index-head k.char_waiting_q x rest h e in
      (
        delivered,
        on_char_received-runs popped.0
            (omega (arith, ap length e, length-contents k.char_waiting_q)) ne found,
        record {
          waiting_queue = popped.1;
          woken_thread = get_elem?-set_self k.threads x _ (get_elem?-some-lt k.threads x found);
          run_queue = (push_index_fits k.thread_indices_q x run r room).1;
          others = λ j ne'. get_elem?-set_ne k.threads x j _ ne';
          buffer = uart_pop_char_refines k.queue v ne;
          running = refl;
        },
      )
