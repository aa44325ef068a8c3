-- ===== src/Uart.antt =====
-- driver/uart.c: the ring of received characters. The device's registers are arguments.
pub mod Refine
use tupix.Base.{
  Bool, List, bit_and, false, get_or, if◌then◌else◌, leb, replicate, set, sub32, true, u32, ℕ, ◌+◌,
  ◌==◌,
}
use tupix.Types.{circle_forward}
use tupix.Bits.{is_set}

-- `struct uart_queue`; `uart_input_buffer_size` is the UART_INPUT_BUFFER_SIZE of include/config.h.
pub record UartQueue : Type 0 where
  pub size : ℕ
  pub count : ℕ
  pub head : ℕ
  pub tail : ℕ
  pub chars : List ℕ

abbrev pub uart_input_buffer_size : ℕ
uart_input_buffer_size = 128

-- The part of `init_uart` that sets up the ring.
unfoldable pub init_uart_queue : UartQueue
init_uart_queue = record {
  size = uart_input_buffer_size;
  count = 0;
  head = 0;
  tail = 0;
  chars = replicate uart_input_buffer_size 0;
}

unfoldable pub uart_peek_char : UartQueue → ℕ
uart_peek_char queue = get_or queue.chars queue.head 0

-- It does not look at the count: the callers do.
unfoldable pub uart_pop_char : UartQueue → ℕ × UartQueue
unfolding uart_peek_char circle_forward
uart_pop_char queue = (
  uart_peek_char queue,
  record queue { head = circle_forward queue.head queue.size; count = sub32 queue.count 1 },
)

-- `fr` and `dr` are what the flag register and the data register read.
unfoldable pub uart_push_char : ℕ → ℕ → UartQueue → Bool × UartQueue
unfolding is_set circle_forward
uart_push_char fr dr queue =
    if is_set fr 4 then (false, queue) else if leb queue.size queue.count then (false, queue) else (
      true,
      record queue {
        chars = set queue.chars queue.tail (bit_and dr 0xff);
        tail = circle_forward queue.tail queue.size;
        count = u32 (queue.count + 1);
      },
    )

unfoldable pub uart_queue_is_emtpy : UartQueue → Bool
uart_queue_is_emtpy queue = queue.count == 0

-- `mis` is what the masked interrupt status register reads.
unfoldable pub uart_is_interrupting : ℕ → Bool
unfolding is_set
uart_is_interrupting mis = is_set mis 4
