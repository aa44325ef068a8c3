-- ===== src/Mmu.antt =====
-- driver/mmu.c: the words of the two-level page tables, and the tables that the kernel builds.
pub mod Entry
pub mod Megabyte
pub mod Pointer
pub mod Initial
pub mod Domains
use tupix.Base.{
  Bool, bit_and, bit_or, false, if◌then◌else◌, true, u32, ℕ, ◌*◌, ◌+◌, ◌/◌, ◌==◌, ◌^◌, ◌||◌,
}
use tupix.Bits.{set_bit, set_bit_to}

-- The physical and virtual megabyte of the user data and stacks, `_udata_begin >> 20` in kernel.lds.
abbrev pub udata_ustack_phys_base_mb : ℕ
udata_ustack_phys_base_mb = 5

-- `enum page_access_permission`
pub data PageAccessPermission : Type 0 where
  sys_user_full : PageAccessPermission
  sys_full_user_read_only : PageAccessPermission
  sys_user_read_only : PageAccessPermission
  sys_only_read_only : PageAccessPermission
  sys_only_full : PageAccessPermission
  no_access : PageAccessPermission

unfoldable pub permission_bits : PageAccessPermission → ℕ
permission_bits sys_user_full = 0b011
permission_bits sys_full_user_read_only = 0b010
permission_bits sys_user_read_only = 0b111
permission_bits sys_only_read_only = 0b101
permission_bits sys_only_full = 0b001
permission_bits no_access = 0b000

-- `enum page_entry_type`, where two names share each of the values 1 and 2.
abbrev pub l1_entry_type_l2_pointer : ℕ
l1_entry_type_l2_pointer = 0b01

abbrev pub l1_entry_type_1mb_page : ℕ
l1_entry_type_1mb_page = 0b10

abbrev pub l2_entry_type_small_page : ℕ
l2_entry_type_small_page = 0b10

unfoldable pub set_page_entry_type : ℕ → ℕ → ℕ
unfolding set_bit set_bit_to
set_page_entry_type entry entry_type =
    if entry_type == l1_entry_type_1mb_page || entry_type == l2_entry_type_small_page
    then set_bit entry 1
    else set_bit_to entry 0 entry_type 2

unfoldable pub set_l1_access_permission : ℕ → PageAccessPermission → ℕ
unfolding set_bit_to permission_bits
set_l1_access_permission entry permission =
    set_bit_to (set_bit_to entry 10 (permission_bits permission) 2) 15
      (permission_bits permission / 4) 1

unfoldable pub set_l1_base_address_of_index : ℕ → ℕ → ℕ
set_l1_base_address_of_index entry index = bit_or (bit_and entry 0x000fffff) (u32 (index * 2 ^ 20))

unfoldable pub build_l1_1mb_page_entry : ℕ → PageAccessPermission → Bool → Bool → ℕ
unfolding set_page_entry_type set_l1_base_address_of_index set_l1_access_permission set_bit
build_l1_1mb_page_entry index permission allow_execute allow_privileged_execute =
    let typed = set_page_entry_type 0 l1_entry_type_1mb_page in
    let placed = set_l1_base_address_of_index typed index in
    let entry = set_l1_access_permission placed permission in
    let entry' = if allow_execute then entry else set_bit entry 4 in
    if allow_privileged_execute then entry' else set_bit entry' 0

unfoldable pub build_l1_l2_pointer_entry : ℕ → Bool → ℕ
unfolding set_page_entry_type set_bit
build_l1_l2_pointer_entry l2_table allow_privileged_execute =
    let entry = set_page_entry_type l2_table l1_entry_type_l2_pointer in
    if allow_privileged_execute then entry else set_bit entry 2

unfoldable pub set_l2_access_permission : ℕ → PageAccessPermission → ℕ
unfolding set_bit_to permission_bits
set_l2_access_permission entry permission =
    set_bit_to (set_bit_to entry 4 (permission_bits permission) 2) 10
      (permission_bits permission / 4) 1

unfoldable pub set_l2_base_address_of_index : ℕ → ℕ → ℕ → ℕ
set_l2_base_address_of_index mb index entry =
    bit_or (bit_or (bit_and entry 0x00000fff) (u32 (index * 2 ^ 12))) (u32 (mb * 2 ^ 20))

unfoldable pub build_l2_4kb_page_entry : ℕ → ℕ → PageAccessPermission → Bool → ℕ
unfolding set_page_entry_type set_l2_base_address_of_index set_l2_access_permission set_bit
build_l2_4kb_page_entry mb index permission allow_execute =
    let typed = set_page_entry_type 0 l2_entry_type_small_page in
    let placed = set_l2_base_address_of_index mb index typed in
    let entry = set_l2_access_permission placed permission in
    if allow_execute then entry else set_bit entry 0

-- A page table in memory, by index. An entry of zero faults.
abbrev pub Table : Type 0
Table = ℕ → ℕ

unfoldable pub update : Table → ℕ → ℕ → Table
update t i v j = if i == j then v else t j

-- The `memset` that clears a table.
abbrev pub cleared : Table
cleared i = 0

-- The first page of a process holds its data.
unfoldable pub init_process_memory : ℕ → Table
unfolding update build_l2_4kb_page_entry
init_process_memory process_index = update cleared 0 (
    build_l2_4kb_page_entry (u32 (udata_ustack_phys_base_mb + process_index)) 0 sys_user_full false)

-- The page of a thread's stack; the page below it stays unmapped and guards it.
unfoldable pub init_thread_memory : ℕ → ℕ → Table → Table
unfolding update build_l2_4kb_page_entry
init_thread_memory process_index thread_index l2_table =
    update l2_table (u32 (thread_index * 2 + 1 + 1)) (
      build_l2_4kb_page_entry (u32 (udata_ustack_phys_base_mb + process_index))
        (u32 (thread_index + 1)) sys_user_full false)

-- Every domain has two bits of the register.
unfoldable pub set_dacr_domain_access : ℕ → ℕ → ℕ → ℕ
set_dacr_domain_access dacr domain access = set_bit_to dacr (u32 (domain * 2)) access 2

abbrev pub dacr_domain_client_access : ℕ
dacr_domain_client_access = 0b01

unfoldable pub get_dacr_init_val : ℕ → ℕ
get_dacr_init_val dacr = set_dacr_domain_access dacr 0 dacr_domain_client_access

unfoldable pub get_ttbcr_init_val : ℕ → ℕ
get_ttbcr_init_val ttbcr = 0

-- The first-level table that `init_l1` leaves, and the initial table of the user megabyte, which
-- lies at the address `l1_udata_initialization_l2_table`.
unfoldable pub init_l1 : ℕ → Table × Table
init_l1 l1_udata_initialization_l2_table =
    let l1 = update cleared 0 (build_l1_1mb_page_entry 0 sys_only_read_only true true) in
    let l1 = update l1 1 (build_l1_1mb_page_entry 1 sys_only_read_only true true) in
    let l1 = update l1 2 (build_l1_1mb_page_entry 2 sys_only_full false false) in
    let l1 = update l1 3 (build_l1_1mb_page_entry 3 sys_only_full false false) in
    let l1 = update l1 4 (build_l1_1mb_page_entry 4 sys_user_read_only true false) in
    let l2 =
      update cleared 0 (build_l2_4kb_page_entry udata_ustack_phys_base_mb 0 sys_user_full false) in
    let l1 =
      update l1 udata_ustack_phys_base_mb
        (build_l1_l2_pointer_entry l1_udata_initialization_l2_table false) in
    let l1 = update l1 0x3f0 (build_l1_1mb_page_entry 0x3f0 sys_only_full false false) in
    let l1 = update l1 0x3f2 (build_l1_1mb_page_entry 0x3f2 sys_only_full false false) in
    let l1 = update l1 0x400 (build_l1_1mb_page_entry 0x400 sys_only_full false false) in (l1, l2)

-- The registers of the MMU, and the tables of `init_l1`.
pub record MmuState : Type 0 where
  pub dacr : ℕ
  pub ttbcr : ℕ
  pub ttbr0 : ℕ
  pub sctlr : ℕ
  pub l1 : Table
  pub l1_udata_initialization : Table

-- `init_mmu` of driver/mmuasm.S, with the addresses of the two tables.
unfoldable pub init_mmu : ℕ → ℕ → MmuState → MmuState
init_mmu l1_start l1_udata_initialization_l2_table mmu =
    let (l1, l2) = init_l1 l1_udata_initialization_l2_table in
    record {
      dacr = get_dacr_init_val mmu.dacr;
      ttbcr = get_ttbcr_init_val mmu.ttbcr;
      ttbr0 = l1_start;
      sctlr = bit_or mmu.sctlr 1;
      l1 = l1;
      l1_udata_initialization = l2;
    }

-- The entry of L1 that `switch_memory` leaves for the user megabyte.
unfoldable pub switch_entry : ℕ → ℕ → ℕ
switch_entry entry l2_table = bit_or (bit_and entry 0x000000ff) (bit_and l2_table 0xffffff00)
