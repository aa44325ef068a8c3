-- ===== src/Mmu/Pointer.antt =====
-- The first-level word of driver/mmu.c that points to a process's table.
use tupix.Base.{
  Bool, arith, bit_and, false, if◌then◌else◌, refl, true, ℕ, ◌*◌, ◌+◌, ◌-◌, ◌<◌, ◌^◌, ◌≡◌,
}
use native.Mathlib.Nat.{le_refl}
use tupix.Bits.Laws.{bit_and_parts, bit_and-ones, bit_or_parts}
use tupix.Bits.Low.{set_bit-low, set_bit_to-low, bit_and-zero_right, zero-bit_or}
use tupix.Mmu.{
  set_page_entry_type, build_l1_l2_pointer_entry, l1_entry_type_l2_pointer, switch_entry,
}
use tupix.Bits.{set_bit_to}

full_10 : (2 ^ (32 - 10) - 1) * 2 ^ 10 + 2 ^ 10 ≡ 2 ^ 32
full_10 = refl

type_bits : (high : ℕ) → high < 2 ^ 22 → set_bit_to (high * 2 ^ 10 + 0) 0 1 2 ≡ high * 2 ^ 10 + 1
unfolding set_bit_to
type_bits high h =
    set_bit_to-low 10 full_10 (omega arith) high 0 0 1 2 h (omega arith) (omega arith) (omega arith)
      (omega arith)

no_low : (high : ℕ) → high * 2 ^ 10 ≡ high * 2 ^ 10 + 0
no_low high = omega arith

-- For a table at a multiple of 1 KB, the words of `build_l1_l2_pointer_entry` are the descriptors of
-- the architecture for tables: the address from bit 10 on, the type of a pointer, and bit 2 set
-- where privileged execution is not allowed.
pub build_l1_l2_pointer_entry_fields :
    (high : ℕ) (allow_privileged_execute : Bool)
    → high < 2 ^ 22
    → build_l1_l2_pointer_entry (high * 2 ^ 10) allow_privileged_execute
      ≡ high * 2 ^ 10 + l1_entry_type_l2_pointer + (if allow_privileged_execute then 0 else 2 ^ 2)
unfolding build_l1_l2_pointer_entry set_page_entry_type
build_l1_l2_pointer_entry_fields high true h = rw (no_low high, type_bits high h) (omega arith)
build_l1_l2_pointer_entry_fields high false h =
    rw
      (
        no_low high,
        type_bits high h,
        set_bit-low 10 full_10 (omega arith) high 1 2 (omega arith) (omega arith),
      )
      (omega arith)

old_low : (old : ℕ) → bit_and (old * 2 ^ 10 + 1 + 2 ^ 2) 0x000000ff ≡ 5
old_low old =
    let cut : old * 2 ^ 10 + 1 + 2 ^ 2 ≡ old * 4 * 2 ^ 8 + 5 = omega arith in
    rw cut (
      omega (
        arith,
        bit_and_parts 8 (old * 4) 5 0 255 (omega arith) (omega arith),
        bit_and-zero_right (old * 4) (old * 4) (le_refl _),
      ))

new_high : (new : ℕ) → new < 2 ^ 22 → bit_and (new * 2 ^ 10) 0xffffff00 ≡ new * 4 * 2 ^ 8 + 0
new_high new n =
    let cut : new * 2 ^ 10 ≡ new * 4 * 2 ^ 8 + 0 = omega arith in
    rw cut (
      omega (
        arith,
        bit_and_parts 8 (new * 4) 0 (2 ^ 24 - 1) 0 (omega arith) (omega arith),
        bit_and-ones 24 (new * 4) (omega arith),
      ))

-- For tables aligned to 1 KB, `switch_memory` turns the word that `build_l1_l2_pointer_entry` made
-- for one table, without privileged execution, into the word that it makes for the other.
pub switch_entry_retargets :
    (old new : ℕ)
    → old < 2 ^ 22
    → new < 2 ^ 22
    → switch_entry (build_l1_l2_pointer_entry (old * 2 ^ 10) false) (new * 2 ^ 10)
      ≡ build_l1_l2_pointer_entry (new * 2 ^ 10) false
unfolding switch_entry
switch_entry_retargets old new o n =
    rw
      (
        build_l1_l2_pointer_entry_fields old false o,
        build_l1_l2_pointer_entry_fields new false n,
        old_low old,
        new_high new n,
      )
      (omega
        (arith, bit_or_parts 8 0 5 (new * 4) 0 (omega arith) (omega arith), zero-bit_or (new * 4)))
