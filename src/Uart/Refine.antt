-- ===== src/Uart/Refine.antt =====
-- The ring of driver/uart.c, against a FIFO of bytes.
use tupix.Base.{
  Bool, List, [], arith, bit_and, false, if◌then◌else◌, leb, length, length-set, refl, true, ℕ,
  ◌++◌, ◌<◌, ◌^◌, ◌||◌, ◌∷◌, ◌≡◌, ◌≢◌, ◌≤◌,
}
use tupix.Types.Ring.{After, window-set, window, window_of_ne_zero, length-window}
use tupix.Uart.{UartQueue, uart_pop_char, uart_push_char, uart_peek_char, init_uart_queue}
use tupix.Types.{circle_forward}
use tupix.Bits.{is_set}

pub record IsBuffer (q : UartQueue) : Type 0 where
  pub small : q.size < 2 ^ 31
  pub storage : length q.chars ≡ q.size
  pub head_in : q.head < q.size
  pub tail_in : q.tail < q.size
  pub count_in : q.count ≤ q.size
  pub cycle : After q.size q.head q.count q.tail

-- The characters in the buffer, the oldest first.
unfoldable pub buffered : UartQueue → List ℕ
buffered q = window q.chars q.size q.head q.count

pub length-buffered : (q : UartQueue) → length (buffered q) ≡ q.count
unfolding buffered
length-buffered q = length-window q.chars q.size q.head q.count

pub init_uart_queue-IsBuffer : IsBuffer init_uart_queue × (buffered init_uart_queue ≡ [])
unfolding init_uart_queue buffered
init_uart_queue-IsBuffer = (omega arith, refl)

-- A FIFO of at most `size` characters. The first argument says that the device has none to read.
unfoldable pub spec_receive : Bool → ℕ → List ℕ → ℕ → Bool × List ℕ
spec_receive fifo_empty size l c =
    if fifo_empty || leb size (length l) then (false, l) else (true, l ++ (c ∷ []))

-- `uart_push_char` on a valid buffer: it refuses when the receive FIFO is empty or the buffer is full,
-- and otherwise appends the low byte of the data register.
pub uart_push_char_refines :
    (fr dr : ℕ) (q : UartQueue)
    → IsBuffer q
    → let (pushed, q') = uart_push_char fr dr q in
      (pushed, buffered q') ≡ spec_receive (is_set fr 4) q.size (buffered q) (bit_and dr 0xff)
unfolding uart_push_char spec_receive buffered
uart_push_char_refines fr dr q v = ground (
  arith,
  length-window q.chars q.size q.head q.count,
  window-set q.chars q.size (bit_and dr 0xff) q.count q.head q.tail,
)

-- `uart_pop_char` on a valid buffer that is not empty takes the oldest character.
pub uart_pop_char_refines :
    (q : UartQueue)
    → IsBuffer q
    → q.count ≢ 0
    → let (c, q') = uart_pop_char q in buffered q ≡ c ∷ buffered q'
unfolding uart_pop_char uart_peek_char buffered
uart_pop_char_refines q v ne = ground (arith, window_of_ne_zero q.chars q.size q.head q.count)

pub uart_push_char-IsBuffer :
    (fr dr : ℕ) (q : UartQueue) → IsBuffer q → IsBuffer (uart_push_char fr dr q).1
unfolding uart_push_char circle_forward
uart_push_char-IsBuffer fr dr q v = ground (arith, length-set q.chars q.tail (bit_and dr 0xff))

pub uart_pop_char-IsBuffer :
    (q : UartQueue) → IsBuffer q → q.count ≢ 0 → IsBuffer (uart_pop_char q).1
unfolding uart_pop_char circle_forward
uart_pop_char-IsBuffer q v ne = ground arith
