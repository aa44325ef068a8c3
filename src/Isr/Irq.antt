-- ===== src/Isr/Irq.antt =====
-- `irq_handler` of system/isr.c.
use tupix.Base.{
  List, [], ap, arith, bit_and, false, get_elem?, length, some, sym, true, ℕ, ◌++◌, ◌<◌, ◌∙◌, ◌∷◌,
  ◌≡◌,
}
use tupix.Types.Ring.{cons_injective}
use tupix.Waiting.Delivery.{scheduler_on_char_received_delivers}
use tupix.Waiting.{scheduler_on_char_received}
use tupix.Types.Refine.{contents, InRange, HasIndices}
use tupix.Types.Inv.{IsValid}
use tupix.Uart.Refine.{
  buffered, spec_receive, IsBuffer, length-buffered, uart_push_char_refines,
  uart_push_char-IsBuffer,
}
use tupix.Base.Result.{ok}
use tupix.Uart.{uart_is_interrupting, UartQueue, uart_push_char}
use tupix.Kernel.{Tcb, ready, Kernel}
use tupix.Bits.{is_set}
use tupix.Timer.{l_timer_is_interrupting}
use tupix.Isr.{irq_handler, Lines}
use tupix.Isr.Dump.{Locals}

spec_into_empty :
    (size : ℕ) (l : List ℕ) (c : ℕ)
    → length l ≡ 0
    → 0 < size
    → spec_receive false size l c ≡ (true, c ∷ [])
unfolding spec_receive
spec_into_empty size [] c e h = ground arith
spec_into_empty size (x ∷ l) c e h = absurd (omega arith)

pushes_into_empty :
    (fr dr : ℕ) (q : UartQueue)
    → IsBuffer q
    → q.count ≡ 0
    → is_set fr 4 ≡ false
    → ((uart_push_char fr dr q).0 ≡ true)
      × (buffered (uart_push_char fr dr q).1 ≡ bit_and dr 0xff ∷ [])
pushes_into_empty fr dr q v empty ready_to_read =
    let short : length (buffered q) ≡ 0 = omega (arith, length-buffered q) in
    let outcome =
      spec_into_empty q.size (buffered q) (bit_and dr 0xff) short (omega (arith, v.head_in)) in
    let pushed : ((uart_push_char fr dr q).0, buffered (uart_push_char fr dr q).1)
        ≡ (true, bit_and dr 0xff ∷ []) =
      uart_push_char_refines fr dr q v
      ∙ ap (λ b. spec_receive b q.size (buffered q) (bit_and dr 0xff)) ready_to_read
      ∙ outcome in
    (ap (λ r. r.0) pushed, ap (λ r. r.1) pushed)

irq_handler-notifies :
    (locals : Locals) (lines : Lines) (k : Kernel)
    → l_timer_is_interrupting k.timer ≡ false
    → uart_is_interrupting lines.mis ≡ true
    → (uart_push_char lines.fr lines.dr k.queue).0 ≡ true
    → irq_handler locals lines k
      ≡ scheduler_on_char_received
          (record k { queue = (uart_push_char lines.fr lines.dr k.queue).1 })
unfolding irq_handler
irq_handler-notifies locals lines k no_timer uart pushed = ground arith

-- The interrupt of a received character, while no character is buffered and `x` has waited longest:
-- `x` gets the low byte of the data register in `r0` and stands last in the run queue, ready; the
-- buffer is empty again, and the interrupted thread runs on.
pub irq_handler_wakes_reader :
    (locals : Locals) (lines : Lines) (k : Kernel) (x : ℕ) (rest : List ℕ) (t : Tcb)
    → l_timer_is_interrupting k.timer ≡ false
    → uart_is_interrupting lines.mis ≡ true
    → is_set lines.fr 4 ≡ false
    → HasIndices k.char_waiting_q
    → contents k.char_waiting_q ≡ x ∷ rest
    → get_elem? k.threads x ≡ some t
    → IsValid k.thread_indices_q
    → InRange k.thread_indices_q.size x
    → k.thread_indices_q.count < k.thread_indices_q.size
    → IsBuffer k.queue
    → k.queue.count ≡ 0
    → (k' : Kernel) × (irq_handler locals lines k ≡ ok k')
      × (contents k'.char_waiting_q ≡ rest)
      × (get_elem? k'.threads x
          ≡ some
              (record t { regs = record (t.regs) { r0 = bit_and lines.dr 0xff }; state = ready }))
      × (contents k'.thread_indices_q ≡ contents k.thread_indices_q ++ (x ∷ []))
      × (buffered k'.queue ≡ [])
      × (k'.running_thread ≡ k.running_thread)
irq_handler_wakes_reader locals lines k x rest t no_timer uart fifo h e found run r room v empty =
    let pushed = pushes_into_empty lines.fr lines.dr k.queue v empty fifo in
    let q : UartQueue = (uart_push_char lines.fr lines.dr k.queue).1 in
    let (k', delivers, d) =
      scheduler_on_char_received_delivers (record k { queue = q }) x rest t h e found run r room
        (uart_push_char-IsBuffer lines.fr lines.dr k.queue v)
        (omega (arith, ap length pushed.1, length-buffered q)) in
    let read = cons_injective (sym d.buffer ∙ pushed.1) in
    (
      k',
      irq_handler-notifies locals lines k no_timer uart pushed.0 ∙ delivers,
      d.waiting_queue,
      d.woken_thread
          ∙ ap (λ c. some (record t { regs = record (t.regs) { r0 = c }; state = ready })) read.0,
      d.run_queue,
      read.1,
      d.running,
    )
