-- ===== src/Tests/Dumps.antt =====
-- The text of a status word, and a register snapshot.
use tupix.Base.{true, List, [], arith, drop, length, refl, replicate, suc, ℕ, ◌++◌, ◌∷◌, ◌≡◌, ◌≤◌}
use tupix.Base.Result.{ok}
use tupix.Isr.Dump.{print_registers}
use tupix.Isr.Dump.Report.{CString, IsFrame, all_text, bytes, report}
use tupix.Isr.Dump.Snapshot.{HaveRoom, print_registers_reports, statuses}
use tupix.Isr.Status.{psr_flags_str}
use tupix.Strings.{codes}
use tupix.Isr.Status.Text.{mark, mode_text, psr_flags_str_writes, status_text}
use tupix.Registers.{Registers}
use tupix.Isr.Reports.{CanReport, exception_handler_kills, report_text, reported}
use tupix.Isr.{exception_handler, user_interrupted}
use tupix.Kernel.{Kernel}
use tupix.Scheduler.Kill.{Killed}
use tupix.Tests.Switching.{sample-CanRelease, run_HasIndices, run_contents}
use mathlib.Core.List.{reverse}
use tupix.Tests.Samples.{array, arrays, locals, process, sample, thread, zero_frame}

status_writes :
    (psr_flags_str 0x6000_0010 array
      ≡ ok (status_text 0x6000_0010 ++ 0 ∷ drop (suc (length (status_text 0x6000_0010))) array))
    × (length (status_text 0x6000_0010) ≤ 24)
status_writes = psr_flags_str_writes 0x6000_0010 array (omega arith)

status_reads : status_text 0x6000_0010 ≡ codes "_ZC_ _ ___ User"
unfolding status_text mark mode_text
status_reads = refl

abbrev aborted : Registers
aborted = record zero_frame { cpsr = 0x8000_0017; spsr = 0x10; usr_lr = 0x0040_0100 }

aborted-IsFrame : IsFrame aborted
aborted-IsFrame = omega arith

arrays-HaveRoom : HaveRoom arrays
arrays-HaveRoom = omega arith

abbrev text_of : List ℕ → CString
text_of s = record { chars = s; behind = [] }

print_registers_reports_example :
    print_registers aborted
      (bytes (text_of (codes "Data Abort")))
      (bytes (text_of (codes "Killing thread.")))
      (bytes (text_of []))
      arrays
      (λ i. replicate 21 i)
    ≡ ok (
        all_text (
          report aborted
            (text_of (codes "Data Abort"))
            (text_of (codes "Killing thread."))
            (text_of [])
            (statuses aborted arrays)))
print_registers_reports_example =
    print_registers_reports aborted (text_of (codes "Data Abort"))
      (text_of (codes "Killing thread.")) (text_of []) arrays (λ i. replicate 21 i) aborted-IsFrame
      (omega arith) (omega arith) (omega arith) arrays-HaveRoom (λ i. refl)

sample-CanReport : CanReport locals sample
sample-CanReport = record { frame = omega arith; room = arrays-HaveRoom; buffers = λ i. refl }

in_user_mode : user_interrupted sample.regs.spsr ≡ true
unfolding user_interrupted
in_user_mode = refl

exception_handler_kills_example :
    (k' : Kernel) × (exception_handler "Data Abort" locals sample ≡ ok k')
    × Killed
        (reported locals "Data Abort" "Killing thread." sample)
        1
        (2 ∷ [])
        (thread 1 1 100)
        (thread 2 1 200)
        (process 1)
        k'
    × (k'.transmitted ≡ reverse (report_text locals "Data Abort" "Killing thread." sample) ++ [])
exception_handler_kills_example =
    exception_handler_kills locals "Data Abort" sample 1 1 (2 ∷ []) (thread 1 1 100)
      (thread 2 1 200) (process 1) sample-CanReport (omega arith) in_user_mode run_HasIndices
      run_contents refl refl refl refl refl sample-CanRelease
