-- ===== src/Tests/Queues.antt =====
-- The queues of indices and of characters.
use tupix.Base.{[], arith, bit_and, ◌∷◌, ◌≡◌}
use tupix.Types.Refine.{
  spec_push, HasIndices, mark_all_free-init_queue, contents, count_up, push_index_refines,
  pop_index_refines, spec_pop,
}
use tupix.Types.Inv.{IsValid}
use tupix.Uart.Refine.{
  uart_pop_char_refines, spec_receive, IsBuffer, uart_push_char_refines, buffered,
}
use tupix.Uart.{uart_pop_char, uart_push_char, UartQueue}
use tupix.Types.{circle_forward, push_index, pop_index, IndexQueue, mark_all_free, init_queue}
use tupix.Bits.{is_set}

abbrev ring : IndexQueue
ring = record { size = 3; count = 2; tail = 1; head = 2; indices = 1 ∷ 9 ∷ 3 ∷ [] }

ring-IsValid : IsValid ring
ring-IsValid = omega arith

ring-HasIndices : HasIndices ring
unfolding contents circle_forward
ring-HasIndices = record { valid = ring-IsValid; entries = omega arith }

push_index_refines_example :
    let (r, q') = push_index ring 2 in (r, contents q') ≡ spec_push 3 (contents ring) 2
push_index_refines_example = push_index_refines ring 2 ring-IsValid

pop_index_refines_example :
    let (r, q') = pop_index ring in (r, contents q') ≡ spec_pop (contents ring)
pop_index_refines_example = pop_index_refines ring ring-HasIndices

all_eight_free :
    IsValid (mark_all_free (init_queue 8))
    × (contents (mark_all_free (init_queue 8)) ≡ count_up 1 8)
all_eight_free = mark_all_free-init_queue 8 (omega arith) (omega arith)

abbrev chars : UartQueue
chars = record { size = 2; count = 1; head = 1; tail = 0; chars = 0 ∷ 65 ∷ [] }

chars-IsBuffer : IsBuffer chars
chars-IsBuffer = omega arith

uart_push_char_refines_example :
    let (pushed, q') = uart_push_char 0 0x0142 chars in
    (pushed, buffered q') ≡ spec_receive (is_set 0 4) 2 (buffered chars) (bit_and 0x0142 0xff)
uart_push_char_refines_example = uart_push_char_refines 0 0x0142 chars chars-IsBuffer

uart_pop_char_refines_example :
    let (c, q') = uart_pop_char chars in buffered chars ≡ c ∷ buffered q'
uart_pop_char_refines_example = uart_pop_char_refines chars chars-IsBuffer (omega arith)
