-- ===== src/Registers.antt =====
-- include/arch/armv7/registers.h: the register frame that the exception entry builds on the stack
-- and hands to every handler, and the processor's modes.
use tupix.Base.{ℕ}

pub record GeneralRegisters : Type 0 where
  pub r0 : ℕ
  pub r1 : ℕ
  pub r2 : ℕ
  pub r3 : ℕ
  pub r4 : ℕ
  pub r5 : ℕ
  pub r6 : ℕ
  pub r7 : ℕ
  pub r8 : ℕ
  pub r9 : ℕ
  pub r10 : ℕ
  pub r11 : ℕ
  pub r12 : ℕ
  pub lr : ℕ
  pub pc : ℕ
  pub sp : ℕ

pub record ModeRegisters : Type 0 where
  pub lr : ℕ
  pub sp : ℕ
  pub spsr : ℕ

pub record Registers : Type 0 where
  pub fiq : ModeRegisters
  pub irq : ModeRegisters
  pub abt : ModeRegisters
  pub und : ModeRegisters
  pub svc : ModeRegisters
  pub usr_lr : ℕ
  pub usr_sp : ℕ
  pub cpsr : ℕ
  pub spsr : ℕ
  pub gr : GeneralRegisters

-- `PROCESSOR_MODE_USR` and `PSR_BITMASK_PROCESSOR_MODE`
abbrev pub processor_mode_usr : ℕ
processor_mode_usr = 0x10

abbrev pub psr_bitmask_processor_mode : ℕ
psr_bitmask_processor_mode = 0x1f

-- `struct general_registers gr = { 0 }`
abbrev pub zero_registers : GeneralRegisters
zero_registers = record {
  r0 = 0;
  r1 = 0;
  r2 = 0;
  r3 = 0;
  r4 = 0;
  r5 = 0;
  r6 = 0;
  r7 = 0;
  r8 = 0;
  r9 = 0;
  r10 = 0;
  r11 = 0;
  r12 = 0;
  lr = 0;
  pc = 0;
  sp = 0;
}
