-- ===== src/Mmu/Megabyte.antt =====
-- The first-level words of driver/mmu.c for megabytes, field by field.
use tupix.Base.{
  Bool, arith, bit_and, false, if◌then◌else◌, refl, true, ℕ, ◌%◌, ◌*◌, ◌+◌, ◌-◌, ◌/◌, ◌<◌, ◌^◌, ◌≡◌,
}
use native.Mathlib.Nat.{le_refl}
use tupix.Bits.Laws.{bit_and-ones, bit_or-zero, bit_or_parts}
use tupix.Bits.Low.{set_bit-low, set_bit_to-low, zero-bit_or}
use tupix.Mmu.{
  set_page_entry_type, set_l1_access_permission, sys_user_full, permission_bits,
  PageAccessPermission, sys_user_read_only, set_l1_base_address_of_index, sys_only_full,
  sys_full_user_read_only, no_access, l1_entry_type_1mb_page, sys_only_read_only,
  build_l1_1mb_page_entry,
}
use tupix.Bits.{set_bit, set_bit_to}

-- The entry of a megabyte has its base address above bit 20.
full_20 : (2 ^ (32 - 20) - 1) * 2 ^ 20 + 2 ^ 20 ≡ 2 ^ 32
full_20 = refl

set_l1_base_address_of_index_low :
    (index low : ℕ)
    → index < 2 ^ 12
    → low < 2 ^ 20
    → set_l1_base_address_of_index low index ≡ index * 2 ^ 20 + low
unfolding set_l1_base_address_of_index
set_l1_base_address_of_index_low index low i l = rw (bit_and-ones 20 low l) (
    grind (
      arith,
      bit_or_parts 20 0 low index 0 l (omega arith),
      zero-bit_or index,
      bit_or-zero low low (le_refl _),
    ))

-- Both fields of the permission, on a megabyte's entry, keep the address.
l1_permission_bits :
    (high value : ℕ)
    → high < 2 ^ 12
    → set_bit_to 2 10 value 2 < 2 ^ 20
    → bit_and value (2 ^ 2 - 1) * 2 ^ 10 < 2 ^ 20
    → bit_and (value / 4) (2 ^ 1 - 1) * 2 ^ 15 < 2 ^ 20
    → set_bit_to (set_bit_to (high * 2 ^ 20 + 2) 10 value 2) 15 (value / 4) 1
      ≡ high * 2 ^ 20 + set_bit_to (set_bit_to 2 10 value 2) 15 (value / 4) 1
l1_permission_bits high value h middle first second =
    rw
      (set_bit_to-low 20 full_20 (omega arith) high 2 10 value 2 h (omega arith) (omega arith)
        (omega arith) first)
      (set_bit_to-low 20 full_20 (omega arith) high (set_bit_to 2 10 value 2) 15 (value / 4) 1 h
        middle (omega arith) (omega arith) second)

-- The low bits of a megabyte's entry before the bits against execution.
abbrev megabyte_bits : PageAccessPermission → ℕ
megabyte_bits permission =
    permission_bits permission / 4 * 2 ^ 15
    + permission_bits permission % 4 * 2 ^ 10
    + l1_entry_type_1mb_page

set_l1_access_permission_low :
    (high : ℕ) (permission : PageAccessPermission)
    → high < 2 ^ 12
    → set_l1_access_permission (high * 2 ^ 20 + 2) permission
      ≡ high * 2 ^ 20 + megabyte_bits permission
unfolding set_l1_access_permission
set_l1_access_permission_low high sys_user_full h =
    l1_permission_bits high 3 h (omega arith) (omega arith) (omega arith)
set_l1_access_permission_low high sys_full_user_read_only h =
    l1_permission_bits high 2 h (omega arith) (omega arith) (omega arith)
set_l1_access_permission_low high sys_user_read_only h =
    l1_permission_bits high 7 h (omega arith) (omega arith) (omega arith)
set_l1_access_permission_low high sys_only_read_only h =
    l1_permission_bits high 5 h (omega arith) (omega arith) (omega arith)
set_l1_access_permission_low high sys_only_full h =
    l1_permission_bits high 1 h (omega arith) (omega arith) (omega arith)
set_l1_access_permission_low high no_access h =
    l1_permission_bits high 0 h (omega arith) (omega arith) (omega arith)

megabyte_bits_free :
    (permission : PageAccessPermission)
    → (megabyte_bits permission + 2 ^ 4 < 2 ^ 20)
      × (set_bit (megabyte_bits permission) 4 ≡ megabyte_bits permission + 2 ^ 4)
      × (set_bit (megabyte_bits permission) 0 ≡ megabyte_bits permission + 1)
      × (set_bit (megabyte_bits permission + 2 ^ 4) 0 ≡ megabyte_bits permission + 2 ^ 4 + 1)
unfolding set_bit permission_bits
megabyte_bits_free sys_user_full = (omega arith, refl, refl, refl)
megabyte_bits_free sys_full_user_read_only = (omega arith, refl, refl, refl)
megabyte_bits_free sys_user_read_only = (omega arith, refl, refl, refl)
megabyte_bits_free sys_only_read_only = (omega arith, refl, refl, refl)
megabyte_bits_free sys_only_full = (omega arith, refl, refl, refl)
megabyte_bits_free no_access = (omega arith, refl, refl, refl)

-- For a physical megabyte, the words of `build_l1_1MB_page_entry` are the descriptors of the
-- architecture for megabytes: the base address from bit 20 on, the third bit of the permission at
-- bit 15 and the two others at bit 10, the type of a megabyte, bit 4 set where execution is not
-- allowed and bit 0 set where privileged execution is not.
pub build_l1_1mb_page_entry_fields :
    (index : ℕ) (permission : PageAccessPermission) (allow_execute allow_privileged_execute : Bool)
    → index < 2 ^ 12
    → build_l1_1mb_page_entry index permission allow_execute allow_privileged_execute
      ≡ index * 2 ^ 20
        + permission_bits permission / 4 * 2 ^ 15
        + permission_bits permission % 4 * 2 ^ 10
        + l1_entry_type_1mb_page
        + (if allow_execute then 0 else 2 ^ 4)
        + (if allow_privileged_execute then 0 else 1)
unfolding build_l1_1mb_page_entry set_page_entry_type
build_l1_1mb_page_entry_fields index permission true true i =
    let (bound, set_4, set_0, set_both) = megabyte_bits_free permission in
    rw
      (
        set_l1_base_address_of_index_low index 2 i (omega arith),
        set_l1_access_permission_low index permission i,
      )
      (omega arith)
build_l1_1mb_page_entry_fields index permission true false i =
    let (bound, set_4, set_0, set_both) = megabyte_bits_free permission in
    rw
      (
        set_l1_base_address_of_index_low index 2 i (omega arith),
        set_l1_access_permission_low index permission i,
        set_bit-low 20 full_20 (omega arith) index (megabyte_bits permission) 0
            (omega (arith, bound)) (omega arith),
        set_0,
      )
      (omega arith)
build_l1_1mb_page_entry_fields index permission false true i =
    let (bound, set_4, set_0, set_both) = megabyte_bits_free permission in
    rw
      (
        set_l1_base_address_of_index_low index 2 i (omega arith),
        set_l1_access_permission_low index permission i,
        set_bit-low 20 full_20 (omega arith) index (megabyte_bits permission) 4
            (omega (arith, bound)) (omega arith),
        set_4,
      )
      (omega arith)
build_l1_1mb_page_entry_fields index permission false false i =
    let (bound, set_4, set_0, set_both) = megabyte_bits_free permission in
    rw
      (
        set_l1_base_address_of_index_low index 2 i (omega arith),
        set_l1_access_permission_low index permission i,
        set_bit-low 20 full_20 (omega arith) index (megabyte_bits permission) 4
            (omega (arith, bound)) (omega arith),
        set_4,
        set_bit-low 20 full_20 (omega arith) index (megabyte_bits permission + 2 ^ 4) 0
            (omega (arith, bound)) (omega arith),
        set_both,
      )
      (omega arith)
