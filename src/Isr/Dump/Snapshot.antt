-- ===== src/Isr/Dump/Snapshot.antt =====
-- `print_registers` of system/isr.c, against the report that it prints.
use tupix.Base.{
  List, ap, arith, drop, length, length-append, length-drop, refl, suc, ℕ, ◌∙◌, ◌∷◌, ◌≡◌, ◌≤◌,
}
use tupix.Base.Result.{ok}
use tupix.Format.Convert.{IsNumStr}
use tupix.Isr.Dump.{StatusStrings, print_calls, print_registers, write_status_strings}
use tupix.Isr.Dump.Report.{
  AreShown, CString, IsFrame, IsShown, Statuses, all_text, bytes, dump_calls-report,
  print_calls-lines, report, report-IsPart, strings_of,
}
use tupix.Isr.Status.Text.{psr_flags_str_writes, status_text, status_text-IsText}
use tupix.Registers.{Registers}

pub record HaveRoom (a : StatusStrings) : Type 0 where
  pub und_cpsr : 25 ≤ length a.und_cpsr_str
  pub und_spsr : 25 ≤ length a.und_spsr_str
  pub svc : 25 ≤ length a.svc_spsr_str
  pub abt : 25 ≤ length a.abt_spsr_str
  pub fiq : 25 ≤ length a.fiq_spsr_str
  pub irq : 25 ≤ length a.irq_spsr_str

-- The text of a status word in an array.
abbrev written : ℕ → List ℕ → CString
written flags buffer = record {
  chars = status_text flags;
  behind = drop (suc (length (status_text flags))) buffer;
}

-- The array for the SPSR of the current mode is written twice: it holds that of the undefined mode.
abbrev pub statuses : Registers → StatusStrings → Statuses
statuses regs a = record {
  cpsr = written regs.cpsr a.und_cpsr_str;
  spsr = written regs.und.spsr (bytes (written regs.spsr a.und_spsr_str));
  svc = written regs.svc.spsr a.svc_spsr_str;
  abt = written regs.abt.spsr a.abt_spsr_str;
  fiq = written regs.fiq.spsr a.fiq_spsr_str;
  irq = written regs.irq.spsr a.irq_spsr_str;
}

written-room :
    (flags : ℕ) (buffer : List ℕ) → 25 ≤ length buffer → 25 ≤ length (bytes (written flags buffer))
written-room flags buffer room = omega (
  arith,
  (psr_flags_str_writes flags buffer room).1,
  length-append (status_text flags) (0 ∷ drop (suc (length (status_text flags))) buffer),
  length-drop (suc (length (status_text flags))) buffer,
)

write_status_strings_lem :
    (regs : Registers) (a : StatusStrings)
    → HaveRoom a
    → write_status_strings regs a ≡ ok (strings_of (statuses regs a))
unfolding write_status_strings
write_status_strings_lem regs a h =
    rw
      (
        (psr_flags_str_writes regs.cpsr a.und_cpsr_str h.und_cpsr).0,
        (psr_flags_str_writes regs.spsr a.und_spsr_str h.und_spsr).0,
        (psr_flags_str_writes regs.svc.spsr a.svc_spsr_str h.svc).0,
        (psr_flags_str_writes regs.abt.spsr a.abt_spsr_str h.abt).0,
        (psr_flags_str_writes regs.fiq.spsr a.fiq_spsr_str h.fiq).0,
        (psr_flags_str_writes regs.irq.spsr a.irq_spsr_str h.irq).0,
        (psr_flags_str_writes regs.und.spsr (bytes (written regs.spsr a.und_spsr_str))
            (written-room regs.spsr a.und_spsr_str h.und_spsr)).0,
      )
      refl

written-IsShown :
    (flags : ℕ) (buffer : List ℕ) → 25 ≤ length buffer → IsShown (written flags buffer)
written-IsShown flags buffer room =
    (status_text-IsText flags, omega (arith, (psr_flags_str_writes flags buffer room).1))

statuses-AreShown : (regs : Registers) (a : StatusStrings) → HaveRoom a → AreShown (statuses regs a)
statuses-AreShown regs a h = record {
  cpsr = written-IsShown regs.cpsr a.und_cpsr_str h.und_cpsr;
  spsr =
      written-IsShown regs.und.spsr (bytes (written regs.spsr a.und_spsr_str))
        (written-room regs.spsr a.und_spsr_str h.und_spsr);
  svc = written-IsShown regs.svc.spsr a.svc_spsr_str h.svc;
  abt = written-IsShown regs.abt.spsr a.abt_spsr_str h.abt;
  fiq = written-IsShown regs.fiq.spsr a.fiq_spsr_str h.fiq;
  irq = written-IsShown regs.irq.spsr a.irq_spsr_str h.irq;
}

-- For a frame of words, strings that end, arrays of at least 25 bytes, and whatever the buffers of
-- `kprintf` hold before, `print_registers` returns and prints the report: every register as a
-- hexadecimal number with zeros in a field of eight, and each status word with its text. The line `SPSR` has the word of the
-- current mode beside the text of the undefined mode's, and the line `User/System` the stack pointer
-- of the undefined mode.
pub print_registers_reports :
    (regs : Registers) (exc info extra : CString) (arrays : StatusStrings) (stack : ℕ → List ℕ)
    → IsFrame regs
    → IsShown exc
    → IsShown info
    → IsShown extra
    → HaveRoom arrays
    → ((i : ℕ) → IsNumStr (stack i))
    → print_registers regs (bytes exc) (bytes info) (bytes extra) arrays stack
      ≡ ok (all_text (report regs exc info extra (statuses regs arrays)))
unfolding print_registers
print_registers_reports regs exc info extra arrays stack frame e i x room size =
    let s : Statuses = statuses regs arrays in
    rw (write_status_strings_lem regs arrays room) (
      ap (print_calls stack 0) (dump_calls-report regs exc info extra s)
      ∙ print_calls-lines (report regs exc info extra s) stack 0
          (report-IsPart regs exc info extra s frame e i x (statuses-AreShown regs arrays room))
          size)
