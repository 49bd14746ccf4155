-- ===== src/Vmm/Init/SelfTest.antt =====
-- vmm_self_test of kernel/vmm.c, run on the page tables that vmm_init made.
use ore_os.Acpi.{Acpi}
use ore_os.Boot.{BootInfo}
use ore_os.Vmm.Fresh.{alloc_page_lem}
use ore_os.Vmm.Change.{unmap_in_root_lem}
use ore_os.Vmm.Translate.{translate_absent, translate_present}
use ore_os.Vmm.Init.{fb_size, map_or_panic, panic_unless, start_paging, vmm_self_test}
use ore_os.Vmm.Init.Identity.{Online, Stage, Stage-map, identity_entry, map_or_panic_lem, tables_of}
use ore_os.Vmm.Init.Whole.{Online-translate, Stage-bind, init_pages, vmm_init_lem, write_nx}
use ore_os.Vmm.Leaf.{page_number}
use ore_os.Vmm.Map.{Changed, frames_from}
use ore_os.Base.{
  Option, ap, arith, inl, inr, none, refl, some, sym, true, ℕ, ◌%◌, ◌*◌, ◌+◌, ◌-◌, ◌<◌, ◌==◌, ◌>>=◌,
  ◌^◌, ◌∙◌, ◌≡◌, ◌≤◌, ◌⊎◌,
}
use ore_os.Pmm.{Pmm, free_page, low_reserved_pages}
use ore_os.Pmm.Invariant.{IsValid}
use ore_os.Pmm.Alloc.{Taken}
use ore_os.Vmm.{
  Vmm, addr_of, align_page_up, entry_for, is_present, page_of, page_rounds, unmap_in_root, vmm_nx,
  vmm_virt_to_phys_in, vmm_write,
}
use ore_os.Vmm.Pages.{alloc-IsTree, entry_for-pmm}
use ore_os.Vmm.Tree.{Places}

one_page : (addr : ℕ) → addr % 4096 ≡ 0 → addr + 4096 ≤ 2 ^ 48 - 4096 → page_rounds addr 4096 ≡ 1
unfolding page_rounds page_of align_page_up
one_page addr a h = omega arith

-- The second half of the self test.
remap : (root addr : ℕ) → Vmm → Option Vmm
remap root addr s = map_or_panic root addr 4096 (vmm_write + vmm_nx) s >>= λ s.
    panic_unless (vmm_virt_to_phys_in root addr s == addr) s >>= λ s.
    unmap_in_root root addr 4096 s >>= λ s.
    panic_unless (vmm_virt_to_phys_in root addr s == 0) s >>= λ s.
    map_or_panic root addr 4096 (vmm_write + vmm_nx) s

-- The second half of the self test: the page is mapped, unmapped and mapped again.
module _ (at : Places) (root total addr : ℕ) (s : Vmm) (on : Online at root total s)
    (bound : total * 4096 ≤ 2 ^ 48 - 8192) (inside : addr < total * 4096)
    (aligned : addr % 4096 ≡ 0) where
  remap_lem :
      (t u : Vmm)
      → Changed root s t (page_number addr) 1 (λ k. 0)
      → Changed root t u (page_number addr) 1 (frames_from (page_of addr) (vmm_write + vmm_nx))
      → (v : ℕ) → page_number v < total
      → (is_present (entry_for root v u) ≡ true)
        × (addr_of (entry_for root v u) ≡ page_number v * 4096)
  remap_lem t u gone again v b =
      identity_entry root addr 1 (vmm_write + vmm_nx) v t u (omega arith) write_nx again (λ o.
        let same : entry_for root v t ≡ entry_for root v s = ground (arith, gone v) in
        rw same (on.identity v b))

-- After the page is unmapped it translates to 0, and the second map gives every page of memory its own address again.
unmap_remap :
    (at : Places) (root total addr : ℕ) (s : Vmm)
    → Online at root total s
    → total * 4096 ≤ 2 ^ 48 - 8192
    → addr < total * 4096
    → addr % 4096 ≡ 0
    → Stage root total s
        (unmap_in_root root addr 4096 s >>= λ s.
          panic_unless (vmm_virt_to_phys_in root addr s == 0) s >>= λ s.
          map_or_panic root addr 4096 (vmm_write + vmm_nx) s)
        (tables_of addr 4096)
unfolding Stage
unmap_remap at root total addr s on bound inside aligned =
    let one = one_page addr aligned (omega arith) in
    let (t, e, tree, gone, kept) = unmap_in_root_lem at root addr 4096 s on.tree (omega arith) in
    let gone' : Changed root s t (page_number addr) 1 (λ k. 0) = rw one at gone in
    let absent : entry_for root addr t ≡ 0 = ground (arith, gone' addr) in
    let zero = translate_absent root addr t absent in
    elim (map_or_panic_lem at root addr 4096 (vmm_write + vmm_nx) t tree (omega arith)) [
      | inl (e', full) ↦
          inl (ground (arith, e, zero, e'), rw (ap (λ (p : Pmm). p.free_page_count) kept) at full)
      | inr (u, at', e', tree', again, free, total') ↦ inr (
        u,
        at',
        ground (arith, e, zero, e'),
        record {
          tree = tree';
          identity =
              remap_lem at root total addr s on bound inside aligned t u gone' (rw one at again);
        },
        rw (ap (λ (p : Pmm). p.free_page_count) kept) at free,
        total' ∙ ap (λ (p : Pmm). p.total_page_count) kept,
      )
    ]

remap-Stage :
    (at : Places) (root total addr : ℕ) (s : Vmm)
    → Online at root total s
    → total * 4096 ≤ 2 ^ 48 - 8192
    → addr < total * 4096
    → addr % 4096 ≡ 0
    → Stage root total s (remap root addr s) (tables_of addr 4096 + tables_of addr 4096)
unfolding remap
remap-Stage at root total addr s on bound inside aligned =
    Stage-bind root total s (map_or_panic root addr 4096 (vmm_write + vmm_nx) s) _
      (tables_of addr 4096) (tables_of addr 4096)
      (Stage-map at root total addr 4096 (vmm_write + vmm_nx) s on (omega arith) write_nx)
      (λ t at' on'.
        let same = Online-translate at' root total t addr on' (omega arith) inside in
        let check : (vmm_virt_to_phys_in root addr t == addr) ≡ true = ground (arith, same) in
        rw check (unmap_remap at' root total addr t on' bound inside aligned))

small_tables : (addr : ℕ) → addr % 4096 ≡ 0 → addr + 4096 ≤ 2 ^ 48 - 4096 → tables_of addr 4096 ≤ 6
unfolding tables_of
small_tables addr a h = omega (arith, one_page addr a h)

rest_translate :
    (at : Places) (root total : ℕ) (s : Vmm) (p : Pmm) (v : ℕ)
    → Online at root total s
    → total * 4096 ≤ 2 ^ 48
    → v < total * 4096
    → vmm_virt_to_phys_in root v (record s { pmm = p }) ≡ v
rest_translate at root total s p v on bound b =
    let (present, address) = on.identity v (omega arith) in
    translate_present root v (record s { pmm = p }) (entry_for root v s)
      (entry_for-pmm at root v s p on.tree) present
    ∙ omega (arith, address)

-- The self test after the allocation.
self_test_rest :
    (at : Places) (root addr : ℕ) (s : Vmm) (p : Pmm)
    → let total = s.pmm.total_page_count in
      Online at root total s
      → total * 4096 ≤ 2 ^ 48 - 8192
      → Taken s.pmm p 1 addr
      → IsValid p
      → let result = remap root addr (record s { pmm = p }) >>= λ s.
          some (record s { pmm = free_page addr s.pmm }) in
        (result ≡ none) × (s.pmm.free_page_count ≤ low_reserved_pages + 13)
        ⊎ (t : Vmm) × (result ≡ some t)
          × ((v : ℕ) → v < total * 4096 → vmm_virt_to_phys_in root v t ≡ v)
unfolding Stage tables_of
self_test_rest at root addr s p on bound taken valid =
    let total = s.pmm.total_page_count in
    let s1 : Vmm = record s { pmm = p } in
    let tree = alloc-IsTree at root 1 addr s p on.tree taken valid in
    let on1 : Online at root total s1 = record {
      tree = tree;
      identity = λ u b. rw (entry_for-pmm at root u s p on.tree) (on.identity u b);
    } in
    let aligned : addr % 4096 ≡ 0 = omega (arith, taken.aligned) in
    let inside : addr < total * 4096 = omega (arith, taken.aligned, taken.run) in
    let small : tables_of addr 4096 ≤ 6 = small_tables addr aligned (omega arith) in
    elim (remap-Stage at root total addr s1 on1 bound inside aligned) [
      | inl (e, full) ↦ inl (rw e refl, omega (arith, full, taken.free, small))
      | inr (t, at', e, on', free, total') ↦ inr (
        record t { pmm = free_page addr t.pmm },
        rw e refl,
        λ v b. rest_translate at' root total t (free_page addr t.pmm) v on' (omega arith) b,
      )
    ]

-- Page tables in which every page of memory has its own address, when the kernel lies in memory: the
-- self test panics, and then at most the pages of the low megabyte, one page and the tables for two
-- maps of a page are free, or it returns, and every address of memory still translates to itself.
pub vmm_self_test_lem :
    (boot_info : BootInfo) (at : Places) (root : ℕ) (s : Vmm)
    → let total = s.pmm.total_page_count in
      Online at root total s
      → total * 4096 ≤ 2 ^ 48 - 8192
      → boot_info.kernel_base < total * 4096
      → (vmm_self_test boot_info root s ≡ none) × (s.pmm.free_page_count ≤ low_reserved_pages + 13)
        ⊎ (t : Vmm) × (vmm_self_test boot_info root s ≡ some t)
          × ((v : ℕ) → v < total * 4096 → vmm_virt_to_phys_in root v t ≡ v)
unfolding vmm_self_test remap
vmm_self_test_lem boot_info at root s on bound kernel =
    let total = s.pmm.total_page_count in
    let start = Online-translate at root total s boot_info.kernel_base on (omega arith) kernel in
    elim (alloc_page_lem s.pmm on.tree.valid) [
      | inr (null, full) ↦ inl (ground (arith, start), omega arith)
      | inl (ne, taken, valid) ↦ elim (self_test_rest at root _ s _ on bound taken valid) [
        | inl (e, full) ↦ inl (ground (arith, start, e), full)
        | inr (t, e, same) ↦ inr (t, ground (arith, start, e), same)
      ]
    ]

Online-count :
    (at : Places) (root m n : ℕ) (s : Vmm) → m ≡ n → Online at root m s → Online at root n s
Online-count at root m n s e on = rw e at on

-- vmm_init and then vmm_self_test, as kernel_main calls them: for memory, a frame buffer and a local
-- APIC below 2^48 by two pages, and a kernel in memory, it panics, and then at most the pages of the low
-- megabyte, the root, the tables that vmm_init may need and 13 more are free, or both return, and every
-- address of memory translates to itself.
pub start_paging_lem :
    (boot_info : BootInfo) (acpi : Acpi) (s : Vmm)
    → IsValid s.pmm
    → let total = s.pmm.total_page_count in
      let started = start_paging boot_info acpi s in
      total * 4096 ≤ 2 ^ 48 - 8192
      → boot_info.framebuffer.base + fb_size boot_info.framebuffer ≤ 2 ^ 48 - 4096
      → acpi.lapic_base_value + 4096 ≤ 2 ^ 48 - 4096
      → boot_info.kernel_base < total * 4096
      → (started ≡ none)
          × (s.pmm.free_page_count ≤ low_reserved_pages + init_pages boot_info acpi total + 13)
        ⊎ (root : ℕ) × (t : Vmm) × (started ≡ some (root, t))
          × ((v : ℕ) → v < total * 4096 → vmm_virt_to_phys_in root v t ≡ v)
unfolding start_paging
start_paging_lem boot_info acpi s valid total fb lapic kernel =
    elim (vmm_init_lem boot_info acpi s valid (omega arith) fb lapic) [
      | inl (e, full) ↦ inl (rw e refl, omega arith)
      | inr (root, t, at, e, on, free, same) ↦
          elim (vmm_self_test_lem boot_info at root t
            (Online-count at root s.pmm.total_page_count t.pmm.total_page_count t (sym same) on)
            (omega (arith, same)) (omega (arith, same))) [
              | inl (e', full) ↦ inl (rw (e, e') refl, omega arith)
              | inr (u, e', identity) ↦
                  inr (root, u, rw (e, e') refl, λ v b. identity v (omega (arith, same)))
            ]
    ]
