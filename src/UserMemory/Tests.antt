-- ===== src/UserMemory/Tests.antt =====
-- The memory of a process of kernel/syscall.c, with one page and on an empty root.
use ore_os.Base.{true, ℕ, ◌+◌, ◌<◌, ◌↔◌, ◌≡◌, ◌≤◌}
use ore_os.Process.{Process, user_alloc_base, user_base, user_limit, zero_process}
use ore_os.Vmm.{Vmm, entry_for, is_present}
use ore_os.Vmm.Mapped.{one_page, one_page_IsTree, one_page_entries, one_page_places}
use ore_os.Vmm.Sample.{root_page}
use ore_os.UserMemory.{record_alloc, user_range_ok}
use ore_os.UserMemory.Range.{HasNoZeroFrame, user_range_ok_lem}

abbrev first_process : Process
first_process = record zero_process {
  address_space = record { pml4_phys = root_page; user_base = user_base; user_limit = user_limit };
  user_alloc_next = user_alloc_base;
}

no_zero_frame : HasNoZeroFrame root_page one_page
no_zero_frame v lo hi p = one_page_entries v p

user_range_ok_lem_example : (user_range_ok root_page one_page 0x8000000000 10 ≡ true) ↔ (
    (user_base ≤ 0x8000000000)
    × (0x8000000000 < user_limit)
    × (0x8000000000 + 10 ≤ user_limit)
    × ((i : ℕ) → i < 10 → is_present (entry_for root_page (0x8000000000 + i) one_page) ≡ true))
user_range_ok_lem_example =
    user_range_ok_lem one_page_places root_page one_page one_page_IsTree no_zero_frame 0x8000000000
      10

-- The first slot holds two pages.
abbrev holding_process : Process
holding_process = record_alloc 0 user_alloc_base 0x101000 2 first_process
