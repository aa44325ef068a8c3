-- ===== src/Mmu/Initial.antt =====
-- The tables of `init_l1` in driver/mmu.c.
use tupix.Base.{arith, false, ℕ, ◌%◌, ◌*◌, ◌/◌, ◌<◌, ◌^◌, ◌≡◌}
use tupix.Mmu.Pointer.{build_l1_l2_pointer_entry_fields}
use tupix.Mmu.{
  build_l1_1mb_page_entry, update, init_l1, set_l1_access_permission, permission_bits,
  set_l1_base_address_of_index, set_page_entry_type,
}
use tupix.Bits.{set_bit, set_bit_to}

-- An entry of the first level maps a megabyte when its bit 1 is set.
abbrev pub IsMegabyte : ℕ → Type 0
IsMegabyte entry = entry / 2 % 2 ≡ 1

-- User mode has access to a megabyte when the second bit of its permission is set, and write access
-- when the third one is not.
abbrev pub IsUserAccessible : ℕ → Type 0
IsUserAccessible entry = IsMegabyte entry × (entry / 2 ^ 11 % 2 ≡ 1)

-- Of the megabytes that the table of `init_l1` maps without a second level, user mode has access to
-- the code of the programs alone, which it cannot write and the kernel cannot execute: entry 4 maps
-- megabyte 4 to itself, with the third bit of the permission set and execution by the kernel off.
pub init_l1_user_access :
    (high index : ℕ)
    → high < 2 ^ 22
    → IsUserAccessible ((init_l1 (high * 2 ^ 10)).0 index)
    → (index ≡ 4)
      × ((init_l1 (high * 2 ^ 10)).0 index / 2 ^ 20 ≡ 4)
      × ((init_l1 (high * 2 ^ 10)).0 index / 2 ^ 15 % 2 ≡ 1)
      × ((init_l1 (high * 2 ^ 10)).0 index % 2 ≡ 1)
unfolding init_l1 update permission_bits set_l1_access_permission set_bit set_bit_to
    set_page_entry_type set_l1_base_address_of_index build_l1_1mb_page_entry
init_l1_user_access high index h access =
    ground (arith, access, build_l1_l2_pointer_entry_fields high false h)
