-- ===== src/Isr/Reports.antt =====
-- The handlers of system/isr.c with the reports that they print.
use tupix.Base.{List, [], ap, arith, false, get_elem?, some, true, ℕ, ◌++◌, ◌∙◌, ◌≡◌}
use tupix.Base.Result.{halted, ok, ◌>>=◌}
use tupix.Format.Convert.{IsNumStr}
use tupix.Isr.Dump.Report.{CString, IsFrame, IsShown, all_text, report}
use tupix.Isr.Dump.Snapshot.{HaveRoom, print_registers_reports, statuses}
use tupix.Isr.{Lines, exception_handler, irq_handler, user_interrupted}
use tupix.Isr.Dump.{Locals, report_to_uart}
use tupix.Kernel.{Kernel, Pcb, Tcb}
use tupix.Scheduler.Kill.{CanRelease, Killed, head_or_null, kill_cur_thread_frees}
use tupix.Scheduler.{kill_cur_thread}
use tupix.Strings.{codes}
use tupix.Timer.{l_timer_is_interrupting}
use tupix.Types.Refine.{HasIndices, contents}
use tupix.Uart.{uart_is_interrupting}
use mathlib.Core.List.{reverse}
use Prim.Native.String.{String}

-- A literal of the program.
abbrev pub literal : String → CString
literal s = record { chars = codes s; behind = [] }

-- The frame holds words, and the stack has the arrays and buffers of the code's sizes.
pub record CanReport (locals : Locals) (k : Kernel) : Type 0 where
  pub frame : IsFrame k.regs
  pub room : HaveRoom locals.arrays
  pub buffers : (i : ℕ) → IsNumStr (locals.stack i)

-- The report of an exception, as text.
abbrev pub report_text : Locals → String → String → Kernel → List ℕ
report_text locals exc info k =
    all_text
      (report k.regs (literal exc) (literal info) (literal "") (statuses k.regs locals.arrays))

-- The kernel after a report: the latest byte stands first.
abbrev pub reported : Locals → String → String → Kernel → Kernel
reported locals exc info k = record k {
  transmitted = reverse (report_text locals exc info k) ++ k.transmitted;
}

report_to_uart-reports :
    (locals : Locals) (exc info : String) (k : Kernel)
    → CanReport locals k
    → IsShown (literal exc)
    → IsShown (literal info)
    → report_to_uart locals exc info k ≡ ok (reported locals exc info k)
unfolding report_to_uart
report_to_uart-reports locals exc info k h e i =
    ap (λ r. r >>= λ out. ok (record k { transmitted = reverse out ++ k.transmitted }))
      (print_registers_reports k.regs (literal exc) (literal info) (literal "") locals.arrays
        locals.stack h.frame e i (omega arith) h.room h.buffers)

-- An exception of a user thread, under any name that is a string: with a frame of words, arrays and
-- buffers of the code's sizes, a valid run queue, processes of the running thread and of the one to
-- run next, and queues of free indices that can take the thread's and the process's back, the handler
-- returns. It prints the report of the frame, ends the thread as `kill_cur_thread` does, and the head
-- of the run queue runs next, or the null thread.
pub exception_handler_kills :
    (locals : Locals) (exc : String) (k : Kernel) (slot owner : ℕ) (l : List ℕ) (cur new : Tcb)
    (p : Pcb)
    → CanReport locals k
    → IsShown (literal exc)
    → user_interrupted k.regs.spsr ≡ true
    → HasIndices k.thread_indices_q
    → contents k.thread_indices_q ≡ l
    → get_elem? k.threads k.running_thread ≡ some cur
    → cur.process ≡ some owner
    → get_elem? k.processes owner ≡ some p
    → get_elem? k.threads (head_or_null l) ≡ some new
    → new.process ≡ some slot
    → CanRelease k cur p
    → (k' : Kernel) × (exception_handler exc locals k ≡ ok k')
      × Killed (reported locals exc "Killing thread." k) owner l cur new p k'
      × (k'.transmitted ≡ reverse (report_text locals exc "Killing thread." k) ++ k.transmitted)
unfolding exception_handler
exception_handler_kills locals exc k slot owner l cur new p r e user h e' found process owned at at'
      room =
    let k₁ = reported locals exc "Killing thread." k in
    let (k', kills, d) =
      kill_cur_thread_frees k₁ slot owner l cur new p h e' found process owned at at' (record {
        threads = room.threads;
        threads_size = room.threads_size;
        thread_index = room.thread_index;
        thread_room = room.thread_room;
        processes = room.processes;
        processes_size = room.processes_size;
        process_index = room.process_index;
        process_room = room.process_room;
      }) in
    (
      k',
      rw user (
          ap (λ t. t >>= kill_cur_thread)
            (report_to_uart-reports locals exc "Killing thread." k r e (omega arith))
          ∙ kills),
      d,
      d.silent,
    )

-- An exception of the kernel itself stops the machine.
exception_handler_halts :
    (locals : Locals) (exc : String) (k : Kernel)
    → CanReport locals k
    → IsShown (literal exc)
    → user_interrupted k.regs.spsr ≡ false
    → exception_handler exc locals k ≡ halted
unfolding exception_handler
exception_handler_halts locals exc k r e kernel = rw kernel (
    ap (λ t. t >>= λ k'. halted)
      (report_to_uart-reports locals exc "System halted." k r e (omega arith)))

-- An interrupt request of neither the timer nor the UART is reported, and the thread runs on.
pub irq_handler_continues :
    (locals : Locals) (lines : Lines) (k : Kernel)
    → CanReport locals k
    → l_timer_is_interrupting k.timer ≡ false
    → uart_is_interrupting lines.mis ≡ false
    → irq_handler locals lines k
      ≡ ok (reported locals "Unknown Interrupt Request (IRQ)" "Continuing." k)
unfolding irq_handler
irq_handler_continues locals lines k r no_timer no_uart =
    rw (no_timer, no_uart)
      (report_to_uart-reports locals "Unknown Interrupt Request (IRQ)" "Continuing." k r
        (omega arith) (omega arith))
