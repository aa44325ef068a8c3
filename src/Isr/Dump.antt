-- ===== src/Isr/Dump.antt =====
-- `print_registers` of system/isr.c: the register snapshot that the handlers print.
pub mod Report
pub mod Snapshot
use tupix.Base.{List, [], suc, ℕ, ◌++◌, ◌∷◌}
use tupix.Base.Result.{Result, ok, ◌>>=◌}
use tupix.Format.{Argument, kprintf, text, word}
use tupix.Isr.Status.{psr_flags_str}
use tupix.Kernel.{Kernel}
use mathlib.Core.List.{reverse}
use Prim.Native.String.{String}
use tupix.Strings.{codes}
use tupix.Registers.{ModeRegisters, Registers}

-- The arrays of `print_registers`, each of PSR_STR_LEN bytes.
pub record StatusStrings : Type 0 where
  pub und_cpsr_str : List ℕ
  pub und_spsr_str : List ℕ
  pub svc_spsr_str : List ℕ
  pub abt_spsr_str : List ℕ
  pub fiq_spsr_str : List ℕ
  pub irq_spsr_str : List ℕ

-- The calls of `psr_flags_str`, in their order.
unfoldable pub write_status_strings : Registers → StatusStrings → Result StatusStrings
write_status_strings regs s = do
  und_cpsr_str ← psr_flags_str regs.cpsr s.und_cpsr_str
  und_spsr_str ← psr_flags_str regs.spsr s.und_spsr_str
  svc_spsr_str ← psr_flags_str regs.svc.spsr s.svc_spsr_str
  abt_spsr_str ← psr_flags_str regs.abt.spsr s.abt_spsr_str
  fiq_spsr_str ← psr_flags_str regs.fiq.spsr s.fiq_spsr_str
  irq_spsr_str ← psr_flags_str regs.irq.spsr s.irq_spsr_str
  und_spsr_str ← psr_flags_str regs.und.spsr und_spsr_str
  ok (record {
    und_cpsr_str = und_cpsr_str;
    und_spsr_str = und_spsr_str;
    svc_spsr_str = svc_spsr_str;
    abt_spsr_str = abt_spsr_str;
    fiq_spsr_str = fiq_spsr_str;
    irq_spsr_str = irq_spsr_str;
  })

-- A call of `kprintf`: its format, which ends with a NUL, and its arguments.
abbrev pub Call : Type 0
Call = List ℕ × List Argument

-- Calls one after the other; `stack i` is what the buffer of the call `i` holds before.
unfoldable pub print_calls : (ℕ → List ℕ) → ℕ → List Call → Result (List ℕ)
print_calls stack i [] = ok []
print_calls stack i ((format, args) ∷ calls) = do
  out ← kprintf format args (stack i)
  rest ← print_calls stack (suc i) calls
  ok (out ++ rest)

abbrev two_words : ℕ → ℕ → List Argument
two_words a b = word a ∷ word b ∷ []

-- The arguments of the lines for a mode.
abbrev mode_line : ModeRegisters → List ℕ → List Argument
mode_line m spsr_str = word m.lr ∷ word m.sp ∷ text spsr_str ∷ word m.spsr ∷ []

unfoldable pub register_calls : Registers → List Call
register_calls regs =
    (codes "R0: 0x%08x\tR8:  0x%08x\n" ++ 0 ∷ [], two_words regs.gr.r0 regs.gr.r8)
    ∷ (codes "R1: 0x%08x\tR9:  0x%08x\n" ++ 0 ∷ [], two_words regs.gr.r1 regs.gr.r9)
    ∷ (codes "R2: 0x%08x\tR10: 0x%08x\n" ++ 0 ∷ [], two_words regs.gr.r2 regs.gr.r10)
    ∷ (codes "R3: 0x%08x\tR11: 0x%08x\n" ++ 0 ∷ [], two_words regs.gr.r3 regs.gr.r11)
    ∷ (codes "R4: 0x%08x\tR12: 0x%08x\n" ++ 0 ∷ [], two_words regs.gr.r4 regs.gr.r12)
    ∷ (codes "R5: 0x%08x\tSP:  0x%08x\n" ++ 0 ∷ [], two_words regs.gr.r5 regs.gr.sp)
    ∷ (codes "R6: 0x%08x\tLR:  0x%08x\n" ++ 0 ∷ [], two_words regs.gr.r6 regs.gr.lr)
    ∷ (codes "R7: 0x%08x\tPC:  0x%08x\n" ++ 0 ∷ [], two_words regs.gr.r7 regs.gr.pc)
    ∷ []

unfoldable pub status_calls : Registers → StatusStrings → List Call
status_calls regs s =
    (codes "\n" ++ 0 ∷ [], [])
    ∷ (codes ">>> status-register (current mode) <<<\n" ++ 0 ∷ [], [])
    ∷ (codes "CPSR: %s\t(0x%08x)\n" ++ 0 ∷ [], text s.und_cpsr_str ∷ word regs.cpsr ∷ [])
    ∷ (codes "SPSR: %s\t(0x%08x)\n" ++ 0 ∷ [], text s.und_spsr_str ∷ word regs.spsr ∷ [])
    ∷ (codes "\n" ++ 0 ∷ [], [])
    ∷ []

unfoldable pub mode_calls : Registers → StatusStrings → List Call
mode_calls regs s =
    (codes ">>> registers (mode-specific) <<<\n" ++ 0 ∷ [], [])
    ∷ (codes "             LR         SP         SPSR\n" ++ 0 ∷ [], [])
    ∷ (codes "User/System: 0x%08x 0x%08x\n" ++ 0 ∷ [], two_words regs.usr_lr regs.und.sp)
    ∷ (
      codes "Supervisor:  0x%08x 0x%08x %s\t(0x%08x)\n" ++ 0 ∷ [],
      mode_line regs.svc s.svc_spsr_str,
    )
    ∷ (
      codes "Abort:       0x%08x 0x%08x %s\t(0x%08x)\n" ++ 0 ∷ [],
      mode_line regs.abt s.abt_spsr_str,
    )
    ∷ (
      codes "FIQ:         0x%08x 0x%08x %s\t(0x%08x)\n" ++ 0 ∷ [],
      mode_line regs.fiq s.fiq_spsr_str,
    )
    ∷ (
      codes "IRQ:         0x%08x 0x%08x %s\t(0x%08x)\n" ++ 0 ∷ [],
      mode_line regs.irq s.irq_spsr_str,
    )
    ∷ (
      codes "Undefined:   0x%08x 0x%08x %s\t(0x%08x)\n" ++ 0 ∷ [],
      mode_line regs.und s.und_spsr_str,
    )
    ∷ (codes "\n" ++ 0 ∷ [], [])
    ∷ []

-- The calls of `kprintf` in `print_registers`, in their order.
unfoldable pub dump_calls : Registers → List ℕ → List ℕ → List ℕ → StatusStrings → List Call
unfolding register_calls status_calls mode_calls
dump_calls regs exc_str exc_system_info_str exc_extra_info_str s =
    (
      codes "################################################################################\n"
          ++ 0 ∷ [],
      [],
    )
    ∷ (codes "%s at address 0x%08x\n" ++ 0 ∷ [], text exc_str ∷ word regs.gr.lr ∷ [])
    ∷ (codes "%s\n" ++ 0 ∷ [], text exc_extra_info_str ∷ [])
    ∷ (codes ">>> register snapshot (current mode) <<<\n" ++ 0 ∷ [], [])
    ∷ (register_calls regs
        ++ (status_calls regs s
            ++ (mode_calls regs s
                ++ ((codes "%s\n" ++ 0 ∷ [], text exc_system_info_str ∷ []) ∷ []))))

unfoldable pub print_registers :
    Registers → List ℕ → List ℕ → List ℕ → StatusStrings → (ℕ → List ℕ) → Result (List ℕ)
print_registers regs exc_str exc_system_info_str exc_extra_info_str arrays stack = do
  s ← write_status_strings regs arrays
  print_calls stack 0 (dump_calls regs exc_str exc_system_info_str exc_extra_info_str s)

-- What the stack of a handler holds before: the arrays of `print_registers`, and the buffer of its call
-- `i` of `kprintf`.
pub record Locals : Type 0 where
  pub arrays : StatusStrings
  pub stack : ℕ → List ℕ

-- A call of `print_registers` with an empty third text; the bytes go to the UART.
unfoldable pub report_to_uart : Locals → String → String → Kernel → Result Kernel
report_to_uart locals exc_str exc_system_info_str k = do
  out ←
      print_registers k.regs (codes exc_str ++ 0 ∷ []) (codes exc_system_info_str ++ 0 ∷ [])
        (0 ∷ []) locals.arrays locals.stack
  ok (record k { transmitted = reverse out ++ k.transmitted })
