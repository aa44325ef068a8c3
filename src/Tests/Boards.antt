-- ===== src/Tests/Boards.antt =====
-- The registers of the devices at boot.
use tupix.Base.{arith, ◌≡◌}
use tupix.Bits.Single.{bit_at}
use tupix.Devices.Receive.{devices_receive}
use tupix.Devices.{init_interrupt_controller, init_uart}
use tupix.Tests.Samples.{board}

devices_receive_example :
    (bit_at (init_uart board.uart).1.cr 9 ≡ 1)
    × (bit_at (init_uart board.uart).1.lcrh 9 ≡ 0)
    × (bit_at (init_uart board.uart).1.imsc 9 ≡ 0)
    × (bit_at (init_interrupt_controller board.interrupts).enable_irq_h 9 ≡ 0)
    × (bit_at (init_interrupt_controller board.interrupts).disable_irq_h 9 ≡ 1)
devices_receive_example = devices_receive board.uart board.interrupts 9 (omega arith)
