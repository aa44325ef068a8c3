-- ===== src/Isr/Dump/Report.antt =====
-- The calls of `kprintf` in `print_registers` of system/isr.c, as the lines of a report.
use tupix.Base.{All, List, [], length, map, refl, suc, ℕ, ◌++◌, ◌<◌, ◌^◌, ◌∷◌, ◌≡◌}
use tupix.Base.Result.{ok}
use tupix.Format.Convert.{IsNumStr}
use tupix.Format.Parts.{
  IsPart, Part, hex, kprintf-parts, part_args, part_format, part_text, plain, string,
}
use tupix.Isr.Dump.{Call, StatusStrings, dump_calls, print_calls}
use tupix.Strings.{codes}
use tupix.Registers.{GeneralRegisters, ModeRegisters, Registers}
use tupix.Strings.Laws.{IsText}
use Prim.Native.String.{String}

-- A string of C, and what lies behind its NUL.
pub record CString : Type 0 where
  pub chars : List ℕ
  pub behind : List ℕ

abbrev pub bytes : CString → List ℕ
bytes s = s.chars ++ 0 ∷ s.behind

abbrev pub shown : CString → Part
shown s = string s.chars s.behind

abbrev pub IsShown : CString → Type 0
IsShown s = IsText s.chars × (length s.chars < 2 ^ 32)

abbrev pair_line : String → ℕ → String → ℕ → List Part
pair_line a n b m = plain (codes a) ∷ hex n ∷ plain (codes b) ∷ hex m ∷ plain (codes "\n") ∷ []

abbrev text_line : String → List Part
text_line a = plain (codes a) ∷ []

abbrev string_line : CString → List Part
string_line s = shown s ∷ plain (codes "\n") ∷ []

abbrev status_line : String → CString → ℕ → List Part
status_line a s n =
    plain (codes a) ∷ shown s ∷ plain (codes "\t(0x") ∷ hex n ∷ plain (codes ")\n") ∷ []

abbrev mode_line : String → ModeRegisters → CString → List Part
mode_line a m s =
    plain (codes a)
    ∷ hex m.lr
    ∷ plain (codes " 0x")
    ∷ hex m.sp
    ∷ plain (codes " ")
    ∷ shown s
    ∷ plain (codes "\t(0x")
    ∷ hex m.spsr
    ∷ plain (codes ")\n")
    ∷ []

-- The texts of the status words in the report.
pub record Statuses : Type 0 where
  pub cpsr : CString
  pub spsr : CString
  pub svc : CString
  pub abt : CString
  pub fiq : CString
  pub irq : CString

-- The lines of the report.
unfoldable pub report : Registers → CString → CString → CString → Statuses → List (List Part)
report regs exc info extra s =
    text_line "################################################################################\n"
    ∷ (shown exc ∷ plain (codes " at address 0x") ∷ hex regs.gr.lr ∷ plain (codes "\n") ∷ [])
    ∷ string_line extra
    ∷ text_line ">>> register snapshot (current mode) <<<\n"
    ∷ pair_line "R0: 0x" regs.gr.r0 "\tR8:  0x" regs.gr.r8
    ∷ pair_line "R1: 0x" regs.gr.r1 "\tR9:  0x" regs.gr.r9
    ∷ pair_line "R2: 0x" regs.gr.r2 "\tR10: 0x" regs.gr.r10
    ∷ pair_line "R3: 0x" regs.gr.r3 "\tR11: 0x" regs.gr.r11
    ∷ pair_line "R4: 0x" regs.gr.r4 "\tR12: 0x" regs.gr.r12
    ∷ pair_line "R5: 0x" regs.gr.r5 "\tSP:  0x" regs.gr.sp
    ∷ pair_line "R6: 0x" regs.gr.r6 "\tLR:  0x" regs.gr.lr
    ∷ pair_line "R7: 0x" regs.gr.r7 "\tPC:  0x" regs.gr.pc
    ∷ text_line "\n"
    ∷ text_line ">>> status-register (current mode) <<<\n"
    ∷ status_line "CPSR: " s.cpsr regs.cpsr
    ∷ status_line "SPSR: " s.spsr regs.spsr
    ∷ text_line "\n"
    ∷ text_line ">>> registers (mode-specific) <<<\n"
    ∷ text_line "             LR         SP         SPSR\n"
    ∷ pair_line "User/System: 0x" regs.usr_lr " 0x" regs.und.sp
    ∷ mode_line "Supervisor:  0x" regs.svc s.svc
    ∷ mode_line "Abort:       0x" regs.abt s.abt
    ∷ mode_line "FIQ:         0x" regs.fiq s.fiq
    ∷ mode_line "IRQ:         0x" regs.irq s.irq
    ∷ mode_line "Undefined:   0x" regs.und s.spsr
    ∷ text_line "\n"
    ∷ string_line info
    ∷ []

-- The call that prints a line.
abbrev call_of : List Part → Call
call_of parts = (part_format parts ++ 0 ∷ [], part_args parts)

abbrev pub all_text : List (List Part) → List ℕ
all_text [] = []
all_text (parts ∷ lines) = part_text parts ++ all_text lines

pub print_calls-lines :
    (lines : List (List Part)) (stack : ℕ → List ℕ) (i : ℕ)
    → All (All IsPart) lines
    → ((j : ℕ) → IsNumStr (stack j))
    → print_calls stack i (map call_of lines) ≡ ok (all_text lines)
unfolding print_calls
print_calls-lines [] stack i h size = refl
print_calls-lines (parts ∷ lines) stack i h size =
    rw (kprintf-parts parts (stack i) h.0 (size i), print_calls-lines lines stack (suc i) h.1 size)
      refl

abbrev pub strings_of : Statuses → StatusStrings
strings_of s = record {
  und_cpsr_str = bytes s.cpsr;
  und_spsr_str = bytes s.spsr;
  svc_spsr_str = bytes s.svc;
  abt_spsr_str = bytes s.abt;
  fiq_spsr_str = bytes s.fiq;
  irq_spsr_str = bytes s.irq;
}

pub dump_calls-report :
    (regs : Registers) (exc info extra : CString) (s : Statuses)
    → dump_calls regs (bytes exc) (bytes info) (bytes extra) (strings_of s)
      ≡ map call_of (report regs exc info extra s)
unfolding dump_calls report
dump_calls-report regs exc info extra s = refl

-- Every register of the frame holds a word.
abbrev pub IsWord : ℕ → Type 0
IsWord n = n < 2 ^ 32

abbrev pub general_words : GeneralRegisters → List ℕ
general_words g =
    g.r0 ∷ g.r1 ∷ g.r2 ∷ g.r3 ∷ g.r4 ∷ g.r5 ∷ g.r6 ∷ g.r7 ∷ g.r8 ∷ g.r9 ∷ g.r10 ∷ g.r11 ∷ g.r12
    ∷ g.lr ∷ g.pc ∷ g.sp ∷ []

abbrev pub mode_words : ModeRegisters → List ℕ
mode_words m = m.lr ∷ m.sp ∷ m.spsr ∷ []

pub record IsFrame (regs : Registers) : Type 0 where
  pub general : All IsWord (general_words regs.gr)
  pub fiq : All IsWord (mode_words regs.fiq)
  pub irq : All IsWord (mode_words regs.irq)
  pub abt : All IsWord (mode_words regs.abt)
  pub und : All IsWord (mode_words regs.und)
  pub svc : All IsWord (mode_words regs.svc)
  pub user : All IsWord (regs.usr_lr ∷ regs.cpsr ∷ regs.spsr ∷ [])

pub record AreShown (s : Statuses) : Type 0 where
  pub cpsr : IsShown s.cpsr
  pub spsr : IsShown s.spsr
  pub svc : IsShown s.svc
  pub abt : IsShown s.abt
  pub fiq : IsShown s.fiq
  pub irq : IsShown s.irq

pub report-IsPart :
    (regs : Registers) (exc info extra : CString) (s : Statuses)
    → IsFrame regs
    → IsShown exc
    → IsShown info
    → IsShown extra
    → AreShown s
    → All (All IsPart) (report regs exc info extra s)
unfolding report
report-IsPart regs exc info extra s h e i x v = assumption (refl, tt)
