-- ===== src/UserMemory.antt =====
-- The memory of a process in kernel/syscall.c: the test of its addresses, and the pages it asks for.
-- A process that is not there, or is the kernel's, is `none`.
pub mod Range
pub mod Bytes
pub mod Pages
pub mod Release
mod Tests
use ore_os.Base.{
  Bool, Option, add64, false, if◌then◌else◌, leb, ltb, mem_zero, none, not, some, sub64, suc, true,
  u32_mod, update, zero, ℕ, ◌%◌, ◌&&◌, ◌*◌, ◌+◌, ◌-◌, ◌/◌, ◌==◌, ◌||◌,
}
use ore_os.Pmm.{Pmm, alloc_pages, free_pages}
use ore_os.Vmm.{
  Vmm, align_page_up, map_in_root, unmap_in_root, vmm_nx, vmm_user, vmm_virt_to_phys_in, vmm_write,
}
use ore_os.Process.{Process, UserAllocation, user_alloc_base}

abbrev pub user_base : ℕ
user_base = 0x0000008000000000

abbrev pub user_limit : ℕ
user_limit = 0x0000800000000000

abbrev pub user_alloc_limit : ℕ
user_alloc_limit = user_alloc_base + 4 * 1024 * 1024

abbrev pub einval : ℕ
einval = 22

abbrev pub enomem : ℕ
enomem = 12

-- What a system call returns: the negative of an error number, or a value.
pub data SysResult : Type 0 where
  failed : (errno : ℕ) → SysResult
  value : (v : ℕ) → SysResult

-- The loop of user_range_ok over `rounds` pages from `ptr` on.
unfoldable pub pages_ok : (root : ℕ) → Vmm → (rounds ptr : ℕ) → Bool
pages_ok root s zero ptr = true
pages_ok root s (suc n) ptr =
    let rest = pages_ok root s n (ptr + 4096) in
    if vmm_virt_to_phys_in root ptr s == 0 then false else rest

-- user_range_ok, where `root` is in CR3.
unfoldable pub user_range_ok : (root : ℕ) → Vmm → (ptr len : ℕ) → Bool
user_range_ok root s ptr len =
    if ptr == 0 || ltb ptr user_base || leb user_limit ptr
    then false
    else if ltb (user_limit - ptr) len
    then false
    else if not (pages_ok root s ((len + 4095) / 4096) ptr)
    then false
    else not (not (len == 0) && vmm_virt_to_phys_in root (ptr + len - 1) s == 0)

-- `for (i = 0; i < ORE_MAX_USER_ALLOCS; ++i)` up to the first slot that is free.
pub free_slot : (ℕ → UserAllocation) → (rounds i : ℕ) → Option ℕ
free_slot allocs zero i = none
free_slot allocs (suc n) i =
    let rest = free_slot allocs n (i + 1) in if not ((allocs i).used) then some i else rest

abbrev pub max_user_allocs : ℕ
max_user_allocs = 64

abbrev pub alloc_flags : ℕ
alloc_flags = vmm_user + vmm_write + vmm_nx

-- The address for the next pages.
pub alloc_address : Process → ℕ
alloc_address p =
    let va = align_page_up p.user_alloc_next in
    if ltb va user_alloc_base then user_alloc_base else va

abbrev pub record_alloc : (index va phys count : ℕ) → Process → Process
record_alloc index va phys count p = record p {
  user_allocs =
      update p.user_allocs index (record { virt = va; phys = phys; pages = count; used = true });
  user_alloc_pages_total = add64 p.user_alloc_pages_total count;
  user_alloc_next = va + count * 4096;
}

-- user_alloc_pages_sys after the call of pmm_alloc_pages, which gave `phys` and the state `pmm`.
pub give_pages :
    (index va count phys : ℕ) → Pmm → Process → Vmm → Option (SysResult × (Option Process × Vmm))
give_pages index va count phys pmm p s =
    let cleared = record pmm { memory = mem_zero phys (count * 4096) pmm.memory } in
    if phys == 0
    then some (failed enomem, (some p, record s { pmm = pmm }))
    else elim (map_in_root p.address_space.pml4_phys va phys (count * 4096) alloc_flags
        (record s { pmm = cleared })) [
          | none ↦ none
          | some (ok, t) ↦
              if ok
              then some (value va, (some (record_alloc index va phys count p), t))
              else some (failed einval, (some p, record t { pmm = free_pages phys count t.pmm }))
        ]

-- user_alloc_pages_sys; `none` is a panic.
pub user_alloc_pages_sys :
    Option Process → (count : ℕ) → Vmm → Option (SysResult × (Option Process × Vmm))
user_alloc_pages_sys none count s = some (failed einval, (none, s))
user_alloc_pages_sys (some p) count s =
    let va = alloc_address p in
    let fails : ℕ → Option (SysResult × (Option Process × Vmm)) =
      λ errno. some (failed errno, (some p, s)) in
    if count == 0 || ltb 1024 count
    then fails einval
    else if ltb 1024 (add64 p.user_alloc_pages_total count)
    then fails enomem
    else elim (free_slot p.user_allocs max_user_allocs 0) [
      | none ↦ fails enomem
      | some index ↦
          if ltb (add64 va (count * 4096)) va || ltb user_alloc_limit (add64 va (count * 4096))
          then fails enomem
          else (let (phys, pmm) = alloc_pages count s.pmm in give_pages index va count phys pmm p s)
    ]

-- The loop of user_free_pages_sys: the slot of the pages.
pub find_alloc : (ℕ → UserAllocation) → (ptr count rounds i : ℕ) → Option ℕ
find_alloc allocs ptr count zero i = none
find_alloc allocs ptr count (suc n) i =
    let rest = find_alloc allocs ptr count n (i + 1) in
    let alloc = allocs i in
    if alloc.used && (alloc.virt == ptr && alloc.pages == count % u32_mod) then some i else rest

abbrev pub forget_alloc : (index : ℕ) → Process → Process
forget_alloc index p = record p {
  user_alloc_pages_total = sub64 p.user_alloc_pages_total ((p.user_allocs index).pages);
  user_allocs = update p.user_allocs index (record { virt = 0; phys = 0; pages = 0; used = false });
}

-- user_free_pages_sys
pub user_free_pages_sys :
    Option Process → (ptr count : ℕ) → Vmm → Option (SysResult × (Option Process × Vmm))
user_free_pages_sys none ptr count s = some (failed einval, (none, s))
user_free_pages_sys (some p) ptr count s =
    if ptr == 0 || count == 0
    then some (failed einval, (some p, s))
    else elim (find_alloc p.user_allocs ptr count max_user_allocs 0) [
      | none ↦ some (failed einval, (some p, s))
      | some index ↦
          let alloc = p.user_allocs index in
          elim (unmap_in_root p.address_space.pml4_phys alloc.virt (alloc.pages * 4096) s) [
            | none ↦ none
            | some t ↦
                let freed = record t { pmm = free_pages alloc.phys alloc.pages t.pmm } in
                some (value 0, (some (forget_alloc index p), freed))
          ]
    ]
