-- ===== src/Isr.antt =====
-- system/isr.c: the exception handlers.
pub mod Irq
pub mod Status
pub mod Dump
pub mod Reports
use tupix.Base.{Bool, List, [], bit_and, if◌then◌else◌, true, ℕ, ◌++◌, ◌==◌, ◌∷◌}
use tupix.Base.Result.{halted, ◌>>=◌, ok, Result}
use tupix.Uart.{uart_push_char, uart_is_interrupting}
use tupix.Registers.{psr_bitmask_processor_mode, processor_mode_usr}
use tupix.Scheduler.{kill_cur_thread, scheduler_cycle}
use tupix.Kernel.{Kernel}
use tupix.Calls.{exec_syscall, get_syscall_id}
use tupix.Isr.Dump.{Locals, report_to_uart}
use tupix.Strings.{codes}
use mathlib.Core.List.{reverse}
use Prim.Native.String.{String}
use tupix.Waiting.{scheduler_on_char_received}
use tupix.Timer.{reset_timer, disable_timer, enable_timer, l_timer_is_interrupting}

unfoldable pub user_interrupted : ℕ → Bool
user_interrupted spsr = bit_and spsr psr_bitmask_processor_mode == processor_mode_usr

-- `HANDLER_FUNCTION`
unfoldable pub exception_handler : String → Locals → Kernel → Result Kernel
exception_handler exc_name_print locals k =
    if user_interrupted k.regs.spsr
    then (do k ← report_to_uart locals exc_name_print "Killing thread." k; kill_cur_thread k)
    else (do k ← report_to_uart locals exc_name_print "System halted." k; halted)

unfoldable pub undefined_instruction_handler : Locals → Kernel → Result Kernel
undefined_instruction_handler = exception_handler "Undefined Instruction"

unfoldable pub prefetch_abort_handler : Locals → Kernel → Result Kernel
prefetch_abort_handler = exception_handler "Prefetch Abort"

unfoldable pub data_abort_handler : Locals → Kernel → Result Kernel
data_abort_handler = exception_handler "Data Abort"

unfoldable pub software_interrupt_handler : Locals → (ℕ → ℕ) → Kernel → Result Kernel
software_interrupt_handler locals fetch k =
    if user_interrupted k.regs.spsr
    then (do
      let id = get_syscall_id fetch k.regs.gr.lr
      k ← exec_syscall locals id (record k { timer = disable_timer k.timer })
      ok (record k { timer = enable_timer (reset_timer k.timer) }))
    else (do k ← report_to_uart locals "Software Interrupt" "System halted." k; halted)

-- What the registers of the UART read during an interrupt request.
pub record Lines : Type 0 where
  pub mis : ℕ
  pub fr : ℕ
  pub dr : ℕ

unfoldable pub irq_handler : Locals → Lines → Kernel → Result Kernel
irq_handler locals lines k =
    if l_timer_is_interrupting k.timer
    then (do k ← scheduler_cycle k true; ok (record k { timer = reset_timer k.timer }))
    else if uart_is_interrupting lines.mis
    then (let (pushed, queue) = uart_push_char lines.fr lines.dr k.queue in
        let k' = record k { queue = queue } in
        if pushed then scheduler_on_char_received k' else ok k')
    else report_to_uart locals "Unknown Interrupt Request (IRQ)" "Continuing." k
