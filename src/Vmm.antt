-- ===== src/Vmm.antt =====
-- kernel/vmm.c: page tables of four levels in physical memory. A table is its physical address, and an
-- entry of it is a word of 8 bytes.
pub mod Entry
pub mod Tree
pub mod Walk
pub mod Fresh
pub mod Grow
pub mod Next
pub mod Leaf
pub mod Prepare
pub mod Map
pub mod Pages
pub mod Change
pub mod Protect
pub mod Translate
pub mod Share
pub mod User
pub mod Init
pub mod Sample
pub mod Mapped
mod Tests
use ore_os.Base.{
  Bool, List, Option, [], add64, bit_or, false, if◌then◌else◌, none, not, some, suc, true, update,
  zero, ℕ, ◌%◌, ◌*◌, ◌+◌, ◌-◌, ◌/◌, ◌==◌, ◌^◌, ◌||◌, ◌∷◌,
}
use ore_os.Pmm.{Pmm, alloc_page}

abbrev pub vmm_present : ℕ
vmm_present = 1

abbrev pub vmm_write : ℕ
vmm_write = 2

abbrev pub vmm_user : ℕ
vmm_user = 4

abbrev pub vmm_nx : ℕ
vmm_nx = 2 ^ 63

-- The page allocator, and the words of the memory that it hands out as page tables.
pub record Vmm : Type 0 where
  pub pmm : Pmm
  pub words : ℕ → ℕ

-- `value & PAGE_MASK`, and `value & PTE_ADDR_MASK`, the bits 12 to 51.
unfoldable pub page_of : ℕ → ℕ
page_of value = value / 4096 * 4096

unfoldable pub align_page_up : ℕ → ℕ
unfolding page_of
align_page_up value = page_of (add64 value 4095)

pub addr_of : ℕ → ℕ
addr_of entry = entry / 4096 % 2 ^ 40 * 4096

pub is_present : ℕ → Bool
is_present entry = entry % 2 == 1

-- The address of the entry `index` of a table.
abbrev pub slot : (table index : ℕ) → ℕ
slot table index = table + 8 * index

-- `mem_zero_local(table, PAGE_SIZE)`, in words.
pub zero_words : (table n : ℕ) → (ℕ → ℕ) → ℕ → ℕ
zero_words table zero m = m
zero_words table (suc n) m = update (zero_words table n m) (slot table n) 0

-- new_table; `none` is the panic.
pub new_table : Vmm → Option (ℕ × Vmm)
unfolding zero_words
new_table s =
    let (table, p) = alloc_page s.pmm in
    if table == 0
    then none
    else some (table, record { pmm = p; words = zero_words table 512 s.words })

-- The entry that next_table writes for a new table.
pub table_entry : (child create_flags : ℕ) → ℕ
unfolding addr_of
table_entry child create_flags =
    bit_or (bit_or (bit_or (addr_of child) vmm_present) vmm_write) create_flags

-- next_table: the table and the state, the table 0 is NULL, and `none` the panic of new_table.
pub next_table : (table index : ℕ) → (create : Bool) → (create_flags : ℕ) → Vmm → Option (ℕ × Vmm)
unfolding is_present table_entry addr_of
next_table table index create create_flags s =
    let entry = s.words (slot table index) in
    if is_present entry
    then some (addr_of entry, s)
    else if not create
    then some (0, s)
    else elim (new_table s) [
      | none ↦ none
      | some (child, t) ↦
          let t' = record t {
            words = update t.words (slot table index) (table_entry child create_flags);
          } in
          some (addr_of (t'.words (slot table index)), t')
    ]

-- The calls of next_table in pte_for_root, one for each index.
pub descend : List ℕ → (table : ℕ) → (create : Bool) → (create_flags : ℕ) → Vmm → Option (ℕ × Vmm)
descend [] table create create_flags s = some (table, s)
descend (index ∷ indices) table create create_flags s =
    elim (next_table table index create create_flags s) [
      | none ↦ none
      | some (child, t) ↦
          let below = descend indices child create create_flags t in
          if child == 0 then some (0, t) else below
    ]

-- The indices of an address: `(virt >> 39) & 0x1ff` and so on.
pub pml4_i : ℕ → ℕ
pml4_i virt = virt / 2 ^ 39 % 512

pub pdpt_i : ℕ → ℕ
pdpt_i virt = virt / 2 ^ 30 % 512

pub pd_i : ℕ → ℕ
pd_i virt = virt / 2 ^ 21 % 512

pub pt_i : ℕ → ℕ
pt_i virt = virt / 2 ^ 12 % 512

abbrev pub indices_of : ℕ → List ℕ
indices_of virt = pml4_i virt ∷ pdpt_i virt ∷ pd_i virt ∷ []

-- pte_for_root: the address of the entry for the page, 0 is NULL.
pub pte_for_root : (root virt : ℕ) → (create : Bool) → (create_flags : ℕ) → Vmm → Option (ℕ × Vmm)
unfolding descend
pte_for_root root virt create create_flags s =
    elim (descend (indices_of virt) root create create_flags s) [
      | none ↦ none
      | some (pt, t) ↦ some (if pt == 0 then 0 else slot pt (pt_i virt), t)
    ]

-- `(phys & PTE_ADDR_MASK) | (flags & ~VMM_NX) | VMM_PRESENT | (flags & VMM_NX)`
pub page_entry : (phys flags : ℕ) → ℕ
unfolding addr_of
page_entry phys flags =
    bit_or (bit_or (bit_or (addr_of phys) (flags % vmm_nx)) vmm_present) (flags / vmm_nx * vmm_nx)

abbrev pub write_word : (at value : ℕ) → Vmm → Vmm
write_word at value s = record s { words = update s.words at value }

-- The loop of map_in_root over `pages` pages. `none` is the panic, and the result of the code the flag.
pub map_pages : (root pages addr phys flags : ℕ) → Vmm → Option (Bool × Vmm)
unfolding pte_for_root page_entry
map_pages root zero addr phys flags s = some (true, s)
map_pages root (suc n) addr phys flags s =
    elim (pte_for_root root addr true (flags / 4 % 2 * 4) s) [
      | none ↦ none
      | some (pte, t) ↦
          let rest =
            map_pages root n (addr + 4096) (add64 phys 4096) flags
              (write_word pte (page_entry phys flags) t) in
          if pte == 0 then some (false, t) else rest
    ]

-- `for (addr = start; addr < end; addr += PAGE_SIZE)`
unfoldable pub page_rounds : (virt size : ℕ) → ℕ
unfolding page_of align_page_up
page_rounds virt size = (align_page_up (add64 virt size) - page_of virt) / 4096

-- map_in_root
pub map_in_root : (root virt phys size flags : ℕ) → Vmm → Option (Bool × Vmm)
unfolding map_pages page_rounds page_of
map_in_root root virt phys size flags s =
    map_pages root (page_rounds virt size) (page_of virt) (page_of phys) flags s

-- The loop of protect_in_root; no table is made, and so there is no panic.
pub protect_pages : (root pages addr flags : ℕ) → Vmm → Option (Bool × Vmm)
unfolding pte_for_root page_entry is_present
protect_pages root zero addr flags s = some (true, s)
protect_pages root (suc n) addr flags s = elim (pte_for_root root addr false 0 s) [
  | none ↦ none
  | some (pte, t) ↦
      let rest =
        protect_pages root n (addr + 4096) flags
          (write_word pte (page_entry (t.words pte) flags) t) in
      if pte == 0 || not (is_present (t.words pte)) then some (false, t) else rest
]

pub protect_in_root : (root virt size flags : ℕ) → Vmm → Option (Bool × Vmm)
unfolding protect_pages page_rounds page_of
protect_in_root root virt size flags s =
    protect_pages root (page_rounds virt size) (page_of virt) flags s

-- The loop of unmap_in_root.
pub unmap_pages : (root pages addr : ℕ) → Vmm → Option Vmm
unfolding pte_for_root
unmap_pages root zero addr s = some s
unmap_pages root (suc n) addr s = elim (pte_for_root root addr false 0 s) [
  | none ↦ none
  | some (pte, t) ↦ unmap_pages root n (addr + 4096) (if pte == 0 then t else write_word pte 0 t)
]

pub unmap_in_root : (root virt size : ℕ) → Vmm → Option Vmm
unfolding unmap_pages page_rounds page_of
unmap_in_root root virt size s = unmap_pages root (page_rounds virt size) (page_of virt) s

-- The entry of a page, 0 if a table is missing.
pub entry_for : (root virt : ℕ) → Vmm → ℕ
unfolding pte_for_root
entry_for root virt s = elim (pte_for_root root virt false 0 s) [
  | none ↦ 0
  | some (pte, t) ↦ if pte == 0 then 0 else t.words pte
]

-- vmm_virt_to_phys_in
pub vmm_virt_to_phys_in : (root virt : ℕ) → Vmm → ℕ
unfolding entry_for is_present addr_of
vmm_virt_to_phys_in root virt s =
    let entry = entry_for root virt s in
    if is_present entry then bit_or (addr_of entry) (virt % 4096) else 0

-- vmm_flags of the page table root `root`: `entry & ~PTE_ADDR_MASK`.
pub vmm_flags : (root virt : ℕ) → Vmm → ℕ
unfolding entry_for is_present
vmm_flags root virt s =
    let entry = entry_for root virt s in
    if is_present entry then entry / 2 ^ 52 * 2 ^ 52 + entry % 4096 else 0

-- The two loops of vmm_create_user_pml4.
pub copy_words : (from to n : ℕ) → (ℕ → ℕ) → ℕ → ℕ
copy_words from to zero m = m
copy_words from to (suc n) m =
    let done = copy_words from to n m in update done (slot to n) (done (slot from n))

pub vmm_create_user_pml4 : (kernel_pml4 : ℕ) → Vmm → Option (ℕ × Vmm)
unfolding new_table copy_words zero_words
vmm_create_user_pml4 kernel_pml4 s = elim (new_table s) [
  | none ↦ none
  | some (root, t) ↦ some (
    root,
    record t { words = zero_words (slot root 1) 255 (copy_words kernel_pml4 root 512 t.words) },
  )
]
