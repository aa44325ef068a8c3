-- ===== src/Invariant/Handlers.antt =====
-- The system calls and the handlers of system/isr.c.
use tupix.Base.{Option, none, some, true, ℕ}
use tupix.Invariant.Parking.{
  Ensures-buffered, scheduler_on_getchar-IsSound, scheduler_on_sleep-IsSound, uart_pop_char_sound,
  scheduler_on_char_received-IsSound,
}
use tupix.Invariant.Cycle.{kill_cur_thread-IsSound, scheduler_cycle-IsSound}
use tupix.Invariant.Create.{process_create-IsSound, IsSoundPair, thread_create-IsSound}
use tupix.Uart.Refine.{uart_push_char-IsBuffer}
use tupix.Base.Result.{from_option, halted, ◌>>=◌}
use tupix.Uart.{uart_is_interrupting, uart_push_char}
use tupix.Scheduler.{get_cur_thread_state, get_cur_process, scheduler_cycle}
use tupix.Kernel.{Kernel}
use tupix.Invariant.{with_queue, Ensures-any, IsSound, Ensures-if, Ensures, Ensures-bind}
use tupix.Calls.{
  set_syscall_return_value, verify_args, uart_put_char, exec_syscall_create_thread, exec_syscall,
  syscall_of, SyscallId, get_char, fork, is_ready, exec_syscall_get_char, exec_syscall_wait,
  put_char, wait, exec_syscall_put_char, get_syscall_id, exec_syscall_fork, create_thread,
  run_syscall,
}
use tupix.Waiting.{scheduler_on_getchar}
use tupix.Process.{thread_create}
use tupix.Timer.{l_timer_is_interrupting}
use tupix.Isr.{irq_handler, software_interrupt_handler, Lines, exception_handler, user_interrupted}
use tupix.Isr.Dump.{Locals, print_registers, report_to_uart}
use Prim.Native.String.{String}

exec_syscall_get_char-IsSound : (k : Kernel) → IsSound k → Ensures IsSound (exec_syscall_get_char k)
unfolding exec_syscall_get_char set_syscall_return_value
exec_syscall_get_char-IsSound k h =
    Ensures-buffered k _ _
      (Ensures-bind IsSound IsSound (scheduler_on_getchar k) _ (scheduler_on_getchar-IsSound k h)
        (λ k' h'.
          Ensures-bind (λ s. Unit {0}) IsSound (get_cur_thread_state k') _ (Ensures-any _)
            (λ s _. Ensures-if IsSound (is_ready s) _ _ h' tt)))
      (λ some_left. with_queue h _ (uart_pop_char_sound k some_left h))

exec_syscall_fork-IsSound : (k : Kernel) → IsSound k → Ensures IsSound (exec_syscall_fork k)
unfolding exec_syscall_fork
exec_syscall_fork-IsSound k h =
    Ensures-bind (λ b. Unit {0}) IsSound (verify_args k) _ (Ensures-any _)
      (λ good _.
        Ensures-if IsSound good _ _ (process_create-IsSound k _ _ _ h)
          (kill_cur_thread-IsSound k h))

exec_syscall_create_thread-IsSound :
    (k : Kernel) → IsSound k → Ensures IsSound (exec_syscall_create_thread k)
unfolding exec_syscall_create_thread
exec_syscall_create_thread-IsSound k h =
    Ensures-bind (λ b. Unit {0}) IsSound (verify_args k) _ (Ensures-any _)
      (λ good _.
        Ensures-if IsSound good _ _
          (Ensures-bind (λ c. Unit {0}) IsSound (get_cur_process k) _ (Ensures-any _)
            (λ cur _.
              Ensures-bind (λ c. Unit {0}) IsSound (from_option cur) _ (Ensures-any _)
                (λ slot _.
                  Ensures-bind IsSoundPair IsSound (thread_create k slot _ _ _) _
                    (thread_create-IsSound k slot _ _ _ h) (λ (t, k') h'. h'))))
          (kill_cur_thread-IsSound k h))

report_to_uart-IsSound :
    (locals : Locals) (exc info : String) (k : Kernel)
    → IsSound k
    → Ensures IsSound (report_to_uart locals exc info k)
unfolding report_to_uart
report_to_uart-IsSound locals exc info k h =
    Ensures-bind (λ out. Unit {0}) IsSound (print_registers k.regs _ _ _ locals.arrays locals.stack)
      _ (Ensures-any _) (λ out _. h)

run_syscall-IsSound :
    (locals : Locals) (call : Option SyscallId) (k : Kernel)
    → IsSound k
    → Ensures IsSound (run_syscall locals call k)
unfolding run_syscall exec_syscall_put_char uart_put_char exec_syscall_wait
run_syscall-IsSound locals (some SyscallId.exit) k h = kill_cur_thread-IsSound k h
run_syscall-IsSound locals (some get_char) k h = exec_syscall_get_char-IsSound k h
run_syscall-IsSound locals (some put_char) k h = h
run_syscall-IsSound locals (some wait) k h = scheduler_on_sleep-IsSound k k.regs.gr.r0 h
run_syscall-IsSound locals (some fork) k h = exec_syscall_fork-IsSound k h
run_syscall-IsSound locals (some create_thread) k h = exec_syscall_create_thread-IsSound k h
run_syscall-IsSound locals none k h =
    Ensures-bind IsSound IsSound (report_to_uart locals "Software Interrupt" "Killing thread." k) _
      (report_to_uart-IsSound locals "Software Interrupt" "Killing thread." k h)
      (λ k' h'. kill_cur_thread-IsSound k' h')

report-halts :
    (locals : Locals) (exc info : String) (k : Kernel)
    → IsSound k
    → Ensures IsSound (report_to_uart locals exc info k >>= λ k'. halted)
report-halts locals exc info k h =
    Ensures-bind IsSound IsSound (report_to_uart locals exc info k) _
      (report_to_uart-IsSound locals exc info k h) (λ k' h'. tt)

pub software_interrupt_handler-IsSound :
    (locals : Locals) (fetch : ℕ → ℕ) (k : Kernel)
    → IsSound k
    → Ensures IsSound (software_interrupt_handler locals fetch k)
unfolding software_interrupt_handler exec_syscall
software_interrupt_handler-IsSound locals fetch k h =
    Ensures-if IsSound (user_interrupted k.regs.spsr) _ _
      (Ensures-bind IsSound IsSound
        (run_syscall locals (syscall_of (get_syscall_id fetch k.regs.gr.lr)) _) _
        (run_syscall-IsSound locals (syscall_of (get_syscall_id fetch k.regs.gr.lr)) _ h)
        (λ k' h'. h'))
      (report-halts locals "Software Interrupt" "System halted." k h)

pub exception_handler-IsSound :
    (exc : String) (locals : Locals) (k : Kernel)
    → IsSound k
    → Ensures IsSound (exception_handler exc locals k)
unfolding exception_handler
exception_handler-IsSound exc locals k h =
    Ensures-if IsSound (user_interrupted k.regs.spsr) _ _
      (Ensures-bind IsSound IsSound (report_to_uart locals exc "Killing thread." k) _
        (report_to_uart-IsSound locals exc "Killing thread." k h)
        (λ k' h'. kill_cur_thread-IsSound k' h'))
      (report-halts locals exc "System halted." k h)

pub irq_handler-IsSound :
    (locals : Locals) (lines : Lines) (k : Kernel)
    → IsSound k
    → Ensures IsSound (irq_handler locals lines k)
unfolding irq_handler
irq_handler-IsSound locals lines k h =
    let pushed = with_queue h _ (uart_push_char-IsBuffer lines.fr lines.dr k.queue h.buffer) in
    Ensures-if IsSound (l_timer_is_interrupting k.timer) _ _
      (Ensures-bind IsSound IsSound (scheduler_cycle k true) _ (scheduler_cycle-IsSound k true h)
        (λ k' h'. h'))
      (Ensures-if IsSound (uart_is_interrupting lines.mis) _ _
        (Ensures-if IsSound (uart_push_char lines.fr lines.dr k.queue).0 _ _
          (scheduler_on_char_received-IsSound _ pushed) pushed)
        (report_to_uart-IsSound locals "Unknown Interrupt Request (IRQ)" "Continuing." k h))
