-- ===== src/Mmu/Entry.antt =====
-- The second-level words of driver/mmu.c, field by field.
use tupix.Base.{
  Bool, arith, bit_and, false, if◌then◌else◌, refl, true, ℕ, ◌%◌, ◌*◌, ◌+◌, ◌-◌, ◌/◌, ◌<◌, ◌^◌, ◌≡◌,
}
use tupix.Bits.{set_bit_to, set_bit}
use native.Mathlib.Nat.{le_refl}
use tupix.Bits.Laws.{bit_or_parts, bit_and-ones, bit_or-zero}
use tupix.Bits.Low.{zero-bit_or, set_bit_to-low, set_bit-low}
use tupix.Mmu.{
  set_l2_access_permission, PageAccessPermission, set_l2_base_address_of_index, sys_only_full,
  sys_user_full, sys_user_read_only, permission_bits, sys_full_user_read_only, no_access,
  sys_only_read_only, build_l2_4kb_page_entry, set_page_entry_type, l2_entry_type_small_page,
}

-- A small page's entry has its base address above bit 12.
full_12 : (2 ^ (32 - 12) - 1) * 2 ^ 12 + 2 ^ 12 ≡ 2 ^ 32
full_12 = refl

-- `entry` has low bits only.
set_l2_base_address_of_index_low :
    (mb index low : ℕ)
    → mb < 2 ^ 12
    → index < 2 ^ 8
    → low < 2 ^ 12
    → set_l2_base_address_of_index mb index low ≡ (mb * 2 ^ 8 + index) * 2 ^ 12 + low
unfolding set_l2_base_address_of_index
set_l2_base_address_of_index_low mb index low m i l = rw (bit_and-ones 12 low l) (
    grind (
      arith,
      bit_or_parts 12 0 low index 0 l (omega arith),
      zero-bit_or index,
      bit_or-zero low low (le_refl _),
      bit_or_parts 12 index low (mb * 2 ^ 8) 0 l (omega arith),
      bit_or_parts 8 0 index mb 0 i (omega arith),
      zero-bit_or mb,
      bit_or-zero index index (le_refl _),
    ))

-- Both fields of the permission, on a small page's entry, keep the address.
l2_permission_bits :
    (high value : ℕ)
    → high < 2 ^ 20
    → set_bit_to 2 4 value 2 < 2 ^ 12
    → bit_and value (2 ^ 2 - 1) * 2 ^ 4 < 2 ^ 12
    → bit_and (value / 4) (2 ^ 1 - 1) * 2 ^ 10 < 2 ^ 12
    → set_bit_to (set_bit_to (high * 2 ^ 12 + 2) 4 value 2) 10 (value / 4) 1
      ≡ high * 2 ^ 12 + set_bit_to (set_bit_to 2 4 value 2) 10 (value / 4) 1
l2_permission_bits high value h middle first second =
    rw
      (set_bit_to-low 12 full_12 (omega arith) high 2 4 value 2 h (omega arith) (omega arith)
        (omega arith) first)
      (set_bit_to-low 12 full_12 (omega arith) high (set_bit_to 2 4 value 2) 10 (value / 4) 1 h
        middle (omega arith) (omega arith) second)

-- The low bits of a small page's entry before the bit against execution.
abbrev small_page_bits : PageAccessPermission → ℕ
small_page_bits permission =
    permission_bits permission / 4 * 2 ^ 10
    + permission_bits permission % 4 * 2 ^ 4
    + l2_entry_type_small_page

set_l2_access_permission_low :
    (high : ℕ) (permission : PageAccessPermission)
    → high < 2 ^ 20
    → set_l2_access_permission (high * 2 ^ 12 + 2) permission
      ≡ high * 2 ^ 12 + small_page_bits permission
unfolding set_l2_access_permission
set_l2_access_permission_low high sys_user_full h =
    l2_permission_bits high 3 h (omega arith) (omega arith) (omega arith)
set_l2_access_permission_low high sys_full_user_read_only h =
    l2_permission_bits high 2 h (omega arith) (omega arith) (omega arith)
set_l2_access_permission_low high sys_user_read_only h =
    l2_permission_bits high 7 h (omega arith) (omega arith) (omega arith)
set_l2_access_permission_low high sys_only_read_only h =
    l2_permission_bits high 5 h (omega arith) (omega arith) (omega arith)
set_l2_access_permission_low high sys_only_full h =
    l2_permission_bits high 1 h (omega arith) (omega arith) (omega arith)
set_l2_access_permission_low high no_access h =
    l2_permission_bits high 0 h (omega arith) (omega arith) (omega arith)

small_page_bits_free :
    (permission : PageAccessPermission)
    → (small_page_bits permission < 2 ^ 12)
      × (set_bit (small_page_bits permission) 0 ≡ small_page_bits permission + 1)
unfolding set_bit permission_bits
small_page_bits_free sys_user_full = (omega arith, refl)
small_page_bits_free sys_full_user_read_only = (omega arith, refl)
small_page_bits_free sys_user_read_only = (omega arith, refl)
small_page_bits_free sys_only_read_only = (omega arith, refl)
small_page_bits_free sys_only_full = (omega arith, refl)
small_page_bits_free no_access = (omega arith, refl)

-- For a physical megabyte and a page inside it, the words of `build_l2_4KB_page_entry` are the
-- descriptors of the architecture for small pages: the megabyte from bit 20 on, the page from bit
-- 12 on, the third bit of the permission at bit 10 and the two others at bit 4, the type of a small
-- page, and bit 0 set where execution is not allowed.
pub build_l2_4kb_page_entry_fields :
    (mb index : ℕ) (permission : PageAccessPermission) (allow_execute : Bool)
    → mb < 2 ^ 12
    → index < 2 ^ 8
    → build_l2_4kb_page_entry mb index permission allow_execute
      ≡ mb * 2 ^ 20
        + index * 2 ^ 12
        + permission_bits permission / 4 * 2 ^ 10
        + permission_bits permission % 4 * 2 ^ 4
        + l2_entry_type_small_page
        + (if allow_execute then 0 else 1)
unfolding build_l2_4kb_page_entry set_page_entry_type
build_l2_4kb_page_entry_fields mb index permission true m i =
    rw
      (
        set_l2_base_address_of_index_low mb index 2 m i (omega arith),
        set_l2_access_permission_low (mb * 2 ^ 8 + index) permission (omega arith),
      )
      (omega arith)
build_l2_4kb_page_entry_fields mb index permission false m i =
    let (bound, set_0) = small_page_bits_free permission in
    rw
      (
        set_l2_base_address_of_index_low mb index 2 m i (omega arith),
        set_l2_access_permission_low (mb * 2 ^ 8 + index) permission (omega arith),
        set_bit-low 12 full_12 (omega arith) (mb * 2 ^ 8 + index) (small_page_bits permission) 0
            bound (omega arith),
        set_0,
      )
      (omega arith)
