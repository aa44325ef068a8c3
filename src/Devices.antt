-- ===== src/Devices.antt =====
-- The registers of the devices that the kernel sets up at boot and writes to afterwards:
-- driver/interrupt_controller.c, and the control registers of driver/uart.c, which read back what was
-- written to them. Registers that the device changes by itself are arguments.
pub mod Receive
use tupix.Base.{ℕ, ◌-◌}
use tupix.Bits.{clear_bit, set_bit, set_bit_to}
use tupix.Uart.{UartQueue, init_uart_queue}

-- The registers of `struct interrupt_register` that the kernel uses: as an argument the words that it
-- reads from them, which the device chooses, and as a result those that it writes.
pub record InterruptRegister : Type 0 where
  pub enable_irq_h : ℕ
  pub disable_irq_h : ℕ

-- `IRQ_UART_INT`
abbrev pub irq_uart_int : ℕ
irq_uart_int = 57

unfoldable pub init_interrupt_controller : InterruptRegister → InterruptRegister
init_interrupt_controller ir = record ir {
  disable_irq_h = clear_bit ir.disable_irq_h (irq_uart_int - 32);
  enable_irq_h = set_bit ir.enable_irq_h (irq_uart_int - 32);
}

-- The registers of `struct uart` that `init_uart` writes.
pub record Uart : Type 0 where
  pub lcrh : ℕ
  pub cr : ℕ
  pub imsc : ℕ

-- The bits of `enum cr_bit_field`, `enum lcrh_bit_field` and `enum imsc_bit_field`.
abbrev pub cr_uarten : ℕ
cr_uarten = 0

abbrev pub cr_txe : ℕ
cr_txe = 8

abbrev pub cr_rxe : ℕ
cr_rxe = 9

abbrev pub lcrh_fen : ℕ
lcrh_fen = 4

abbrev pub lcrh_wlen : ℕ
lcrh_wlen = 5

abbrev pub imsc_rxim : ℕ
imsc_rxim = 4

-- The word length of 8 bits: LCRH_WLEN_8, of LCRH_WLEN_VAL_LEN bits.
abbrev pub lcrh_wlen_8 : ℕ
lcrh_wlen_8 = 0b11

abbrev pub lcrh_wlen_val_len : ℕ
lcrh_wlen_val_len = 2

-- The registers after `init_uart`, which writes them in this order, and the ring.
unfoldable pub init_uart : Uart → UartQueue × Uart
init_uart uart =
    let cr = clear_bit uart.cr cr_uarten in
    let lcrh = clear_bit uart.lcrh lcrh_fen in
    let cr = set_bit cr cr_rxe in
    let cr = set_bit cr cr_txe in
    let lcrh = set_bit_to lcrh lcrh_wlen lcrh_wlen_8 lcrh_wlen_val_len in
    let lcrh = clear_bit lcrh lcrh_fen in
    let imsc = set_bit 0 imsc_rxim in
    let cr = set_bit cr cr_uarten in (init_uart_queue, record { lcrh = lcrh; cr = cr; imsc = imsc })
