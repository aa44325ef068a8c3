-- ===== src/Start.antt =====
-- system/start.c: what the kernel does before the first user thread runs.
pub mod Boot
use tupix.Base.{if◌then◌else◌, length, ltb, ℕ}
use tupix.Base.Result.{Result, ok, panicked, ◌>>=◌}
use tupix.Devices.{InterruptRegister, Uart, init_interrupt_controller, init_uart}
use tupix.Kernel.{Kernel}
use tupix.Mmu.{MmuState, init_mmu}
use tupix.Process.{process_create}
use tupix.Tables.{init_scheduler}
use tupix.Timer.{init_local_timer}

-- The devices but the timer, which is a part of the kernel's state, and the addresses that the
-- linker gives to the tables of `init_l1`.
pub record Board : Type 0 where
  pub interrupts : InterruptRegister
  pub uart : Uart
  pub mmu : MmuState
  pub l1_start : ℕ
  pub l1_udata_initialization_l2_table : ℕ

-- The kernel when the devices are set up.
unfoldable pub init_devices : Board → Kernel → Board × Kernel
init_devices board k =
    let (queue, uart) = init_uart board.uart in
    (
      record board {
        interrupts = init_interrupt_controller board.interrupts;
        uart = uart;
        mmu = init_mmu board.l1_start board.l1_udata_initialization_l2_table board.mmu;
      },
      record k { queue = queue; timer = init_local_timer k.timer },
    )

unfoldable pub start_kernel : Board → Kernel → Result (Board × Kernel)
start_kernel board k =
    let (board', k') = init_devices board k in
    if ltb (length k.image.udata) 0x1000
    then (do
      k'' ←
          process_create (init_scheduler (record k' { udata_cpy = k.image.udata }))
            k.image.main_thread 0 0
      ok (board', k''))
    else panicked
