-- ===== src/Tests/Pages.antt =====
-- The page tables of driver/mmu.c at concrete inputs.
use tupix.Base.{
  [], arith, false, if◌then◌else◌, refl, sub32, true, ℕ, ◌%◌, ◌*◌, ◌+◌, ◌/◌, ◌^◌, ◌∷◌, ◌≡◌,
}
use tupix.Mmu.Domains.{get_dacr_init_val_keeps}
use tupix.Thread.Stacks.{
  thread_stacks_disjoint, HasStacks, process_table, thread_stack_reaches_page,
  thread_stack_guard_faults,
}
use tupix.Mmu.Entry.{build_l2_4kb_page_entry_fields}
use tupix.Mmu.Pointer.{switch_entry_retargets, build_l1_l2_pointer_entry_fields}
use tupix.Mmu.Megabyte.{build_l1_1mb_page_entry_fields}
use tupix.Mmu.Initial.{IsUserAccessible, init_l1_user_access}
use tupix.Base.Result.{ok, faulted}
use tupix.Tests.Samples.{sample, process}
use tupix.Mmu.{
  set_l1_base_address_of_index, switch_entry, l1_entry_type_1mb_page, udata_ustack_phys_base_mb,
  l2_entry_type_small_page, build_l1_l2_pointer_entry, init_l1, sys_user_full, permission_bits,
  sys_only_full, set_page_entry_type, l1_entry_type_l2_pointer, build_l2_4kb_page_entry, update,
  build_l1_1mb_page_entry, set_l1_access_permission, dacr_domain_client_access, get_dacr_init_val,
}
use tupix.Thread.{get_max_stack_pointer}
use tupix.Memory.{translate}
use tupix.Kernel.{load_process, Kernel}
use tupix.Bits.{set_bit, set_bit_to}

build_l2_4kb_page_entry_fields_example :
    build_l2_4kb_page_entry 6 2 sys_user_full false
    ≡ 6 * 2 ^ 20
      + 2 * 2 ^ 12
      + permission_bits sys_user_full / 4 * 2 ^ 10
      + permission_bits sys_user_full % 4 * 2 ^ 4
      + l2_entry_type_small_page
      + (if false then 0 else 1)
build_l2_4kb_page_entry_fields_example =
    build_l2_4kb_page_entry_fields 6 2 sys_user_full false (omega arith) (omega arith)

kernel_data_megabyte :
    build_l1_1mb_page_entry 0x3f2 sys_only_full false true
    ≡ 0x3f2 * 2 ^ 20
      + permission_bits sys_only_full / 4 * 2 ^ 15
      + permission_bits sys_only_full % 4 * 2 ^ 10
      + l1_entry_type_1mb_page
      + (if false then 0 else 2 ^ 4)
      + (if true then 0 else 1)
kernel_data_megabyte = build_l1_1mb_page_entry_fields 0x3f2 sys_only_full false true (omega arith)

user_table_pointer :
    build_l1_l2_pointer_entry (0x840 * 2 ^ 10) false
    ≡ 0x840 * 2 ^ 10 + l1_entry_type_l2_pointer + (if false then 0 else 2 ^ 2)
user_table_pointer = build_l1_l2_pointer_entry_fields 0x840 false (omega arith)

switch_entry_retargets_example :
    switch_entry (build_l1_l2_pointer_entry (0x840 * 2 ^ 10) false) (0x9c1 * 2 ^ 10)
    ≡ build_l1_l2_pointer_entry (0x9c1 * 2 ^ 10) false
switch_entry_retargets_example = switch_entry_retargets 0x840 0x9c1 (omega arith) (omega arith)

abbrev user_code : ℕ
user_code = 4

user_code-IsUserAccessible : IsUserAccessible ((init_l1 (0x840 * 2 ^ 10)).0 4)
unfolding init_l1 update permission_bits set_l1_access_permission set_bit set_bit_to
    set_page_entry_type set_l1_base_address_of_index build_l1_1mb_page_entry
user_code-IsUserAccessible = (refl, refl)

init_l1_user_access_example :
    (user_code ≡ 4)
    × ((init_l1 (0x840 * 2 ^ 10)).0 user_code / 2 ^ 20 ≡ 4)
    × ((init_l1 (0x840 * 2 ^ 10)).0 user_code / 2 ^ 15 % 2 ≡ 1)
    × ((init_l1 (0x840 * 2 ^ 10)).0 user_code % 2 ≡ 1)
init_l1_user_access_example =
    init_l1_user_access 0x840 user_code (omega arith) user_code-IsUserAccessible

-- A process with the threads 1 and 2, and thread 2 made last.
abbrev two_stacks : Kernel
two_stacks = record sample {
  active = 0;
  processes = (record (process 1) { l2_table = process_table 1 1 (2 ∷ 1 ∷ []) }) ∷ [];
}

two_stacks-HasStacks : HasStacks two_stacks 1 1 (2 ∷ 1 ∷ [])
unfolding load_process
two_stacks-HasStacks = record {
  process = record (process 1) { l2_table = process_table 1 1 (2 ∷ 1 ∷ []) };
  active = refl;
  table = refl;
  thread_indices = (omega arith, (omega arith, tt));
  megabyte = omega arith;
}

thread_stack_reaches_page_example :
    translate two_stacks (get_max_stack_pointer 1 + 0x3fc)
    ≡ ok ((udata_ustack_phys_base_mb + 1) * 2 ^ 20 + (1 + 1) * 2 ^ 12 + 0x3fc)
thread_stack_reaches_page_example =
    thread_stack_reaches_page two_stacks 1 1 1 (2 ∷ []) [] 0x3fc two_stacks-HasStacks (omega arith)

thread_stack_guard_faults_example :
    translate two_stacks (sub32 (get_max_stack_pointer 2) (2 ^ 12) + 0xffc) ≡ faulted
thread_stack_guard_faults_example =
    thread_stack_guard_faults two_stacks 1 1 2 (2 ∷ 1 ∷ []) 0xffc two_stacks-HasStacks (omega arith)
      (omega arith)

abbrev a_pid : ℕ
a_pid = 1

abbrev a_thread : ℕ
a_thread = 2

abbrev an_offset : ℕ
an_offset = 8

thread_stacks_disjoint_example : (a_pid ≡ a_pid) × (a_thread ≡ a_thread) × (an_offset ≡ an_offset)
thread_stacks_disjoint_example =
    thread_stacks_disjoint two_stacks two_stacks 1 1 a_pid a_pid a_thread a_thread [] (1 ∷ []) []
      (1 ∷ []) an_offset an_offset two_stacks-HasStacks two_stacks-HasStacks (omega arith)
      (omega arith) refl

domain_0_checked :
    (get_dacr_init_val 0x5555_5557 % 4 ≡ dacr_domain_client_access)
    × (get_dacr_init_val 0x5555_5557 / 4 ≡ 0x5555_5557 / 4)
domain_0_checked = get_dacr_init_val_keeps 0x5555_5557 (omega arith)
