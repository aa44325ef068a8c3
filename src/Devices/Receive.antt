-- ===== src/Devices/Receive.antt =====
-- What the devices are set up to do, bit by bit.
use tupix.Base.{arith, if◌then◌else◌, suc, zero, ◌∙◌, ℕ, ◌<◌, ◌==◌, ◌^◌, ◌||◌, ◌≡◌, refl, bit_or}
use tupix.Bits.{clear_bit, clear_bits, set_bit, set_bit_to}
use tupix.Bits.Single.{bit_at, bit_or-bit, bit_suc, clear_bit-bit, power_bit, set_bit-bit}
use tupix.Devices.{InterruptRegister, Uart, init_interrupt_controller, init_uart}

-- `SET_BIT_TO` of the word length.
word_length-bit :
    (lcrh i : ℕ)
    → i < 32
    → bit_at (set_bit_to lcrh 5 3 2) i ≡ (if i == 5 || i == 6 then 1 else bit_at lcrh i)
word_length-bit lcrh i h =
    let split : set_bit_to lcrh 5 3 2
        ≡ bit_or (clear_bit (clear_bit lcrh 5) 6) (bit_or (2 ^ 5) (2 ^ 6)) =
      unfold set_bit_to clear_bits in refl in
    rw split (
      ground (
        arith,
        bit_or-bit i (clear_bit (clear_bit lcrh 5) 6) (bit_or (2 ^ 5) (2 ^ 6)),
        bit_or-bit i (2 ^ 5) (2 ^ 6),
        power_bit 5 i,
        power_bit 6 i,
        clear_bit-bit (clear_bit lcrh 5) 6 i (omega arith) h,
        clear_bit-bit lcrh 5 i (omega arith) h,
      ))

no_bit : (i : ℕ) → bit_at 0 i ≡ 0
no_bit zero = refl
no_bit (suc i) = bit_suc 0 i ∙ no_bit i

-- `init_uart` sets the bits 0, 8 and 9 of cr (the UART is enabled, to send and to receive), clears bit 4
-- of lcrh and sets its bits 5 and 6 (no FIFOs, 8 bits), and keeps the other bits of both; of imsc it
-- leaves just bit 4 set, the interrupt of received characters. `init_interrupt_controller` writes to
-- enable_irq_h the word that it read there with bit 25 set, and to disable_irq_h the word that it
-- read there with bit 25 cleared.
pub devices_receive :
    (uart : Uart) (ir : InterruptRegister) (i : ℕ)
    → i < 32
    → (bit_at (init_uart uart).1.cr i
        ≡ (if i == 0 || i == 8 || i == 9 then 1 else bit_at uart.cr i))
      × (bit_at (init_uart uart).1.lcrh i
          ≡ (if i == 4 then 0 else if i == 5 || i == 6 then 1 else bit_at uart.lcrh i))
      × (bit_at (init_uart uart).1.imsc i ≡ (if i == 4 then 1 else 0))
      × (bit_at (init_interrupt_controller ir).enable_irq_h i
          ≡ (if i == 25 then 1 else bit_at ir.enable_irq_h i))
      × (bit_at (init_interrupt_controller ir).disable_irq_h i
          ≡ (if i == 25 then 0 else bit_at ir.disable_irq_h i))
unfolding init_uart init_interrupt_controller
devices_receive uart ir i h =
    let started = clear_bit uart.cr 0 in
    let receiving = set_bit started 9 in
    let word = set_bit_to (clear_bit uart.lcrh 4) 5 3 2 in
    (
      ground (
        arith,
        clear_bit-bit uart.cr 0 i (omega arith) h,
        set_bit-bit started 9 i (omega arith),
        set_bit-bit receiving 8 i (omega arith),
        set_bit-bit (set_bit receiving 8) 0 i (omega arith),
      ),
      ground (
        arith,
        clear_bit-bit uart.lcrh 4 i (omega arith) h,
        word_length-bit (clear_bit uart.lcrh 4) i h,
        clear_bit-bit word 4 i (omega arith) h,
      ),
      ground (arith, set_bit-bit 0 4 i (omega arith), no_bit i),
      ground (arith, set_bit-bit ir.enable_irq_h 25 i (omega arith)),
      ground (arith, clear_bit-bit ir.disable_irq_h 25 i (omega arith) h),
    )
