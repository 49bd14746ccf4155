-- ===== src/Vmm/Tests.antt =====
-- The page tables of kernel/vmm.c at a memory of 260 pages, whose first free page is the root.
use ore_os.Vmm.Sample.{root_page, root_places, rooted_IsTree, rooted_with, small_with}
use ore_os.Vmm.Init.SelfTest.{start_paging_lem}
use ore_os.Vmm.Init.{fb_size, start_paging}
use ore_os.Vmm.Init.Whole.{init_pages}
use ore_os.Vmm.Leaf.{page_number}
use ore_os.Vmm.Protect.{protect_in_root_lem}
use ore_os.Vmm.Translate.{translate-map, translate-unmap}
use ore_os.Vmm.User.{vmm_create_user_pml4_lem}
use ore_os.Boot.{BootInfo, Framebuffer}
use ore_os.Acpi.{Acpi}
use ore_os.Vmm.Map.{Changed, frames_from, map_in_root_lem, regions}
use ore_os.Base.{
  [], arith, false, if◌then◌else◌, in_range, none, refl, some, true, ℕ, ◌*◌, ◌+◌, ◌-◌, ◌<◌, ◌==◌,
  ◌≡◌, ◌≤◌, ◌⊎◌,
}
use ore_os.Pmm.{bitmap_test, low_reserved_pages}
use ore_os.Pmm.Count.{clear_below}
use ore_os.Pmm.Invariant.{IsValid}
use ore_os.Vmm.{
  Vmm, align_page_up, entry_for, is_present, map_in_root, page_entry, page_of, page_rounds, pml4_i,
  protect_in_root, unmap_in_root, vmm_create_user_pml4, vmm_flags, vmm_virt_to_phys_in,
}
use ore_os.Vmm.Tree.{IsTree, Places}

free_IsValid : IsValid (small_with 0xf0 4 0)
unfolding clear_below bitmap_test
free_IsValid = record {
  bytes = λ i. ground arith;
  counted = refl;
  summed = refl;
  small = omega arith;
}

abbrev no_frame : Framebuffer
no_frame = record { base = 0; width = 0; height = 0; pixels_per_scanline = 0; pixel_format = 0 }

abbrev small_boot : BootInfo
small_boot = record {
  magic = 0;
  rsdp = 0;
  kernel_base = 0x8000;
  kernel_size = 4096;
  initramfs_base = 0;
  initramfs_size = 0;
  framebuffer = no_frame;
  memory_map_descriptor_size = 40;
  memory_map = [];
  cmdline = [];
}

abbrev no_acpi : Acpi
no_acpi = record { cpu_apic_ids = []; lapic_base_value = 0 }

map_in_root_lem_example :
    let tables = 3 * regions 512 2 in
    (map_in_root root_page 0x200000 0x5000 0x1800 6 rooted_with ≡ none)
      × (3 ≤ low_reserved_pages + tables)
    ⊎ (t : Vmm) × (at' : Places) × (map_in_root root_page 0x200000 0x5000 0x1800 6 rooted_with
        ≡ some (true, t))
      × IsTree at' root_page t
      × Changed root_page rooted_with t 512 2 (frames_from 0x5000 6)
      × (3 ≤ t.pmm.free_page_count + tables)
      × (t.pmm.total_page_count ≡ 260)
unfolding page_rounds page_of align_page_up
map_in_root_lem_example =
    map_in_root_lem root_places root_page 0x200000 0x5000 0x1800 6 rooted_with rooted_IsTree
      (omega arith) (omega arith)

translate-map_example :
    (map_in_root root_page 0x200000 0x5000 0x1800 6 rooted_with ≡ none)
      × (3 ≤ low_reserved_pages + 3 * regions 512 (page_rounds 0x200000 0x1800))
    ⊎ (t : Vmm) × (map_in_root root_page 0x200000 0x5000 0x1800 6 rooted_with ≡ some (true, t))
      × ((v : ℕ)
          → 0x200000 ≤ v
          → v < 0x201800
          → vmm_virt_to_phys_in root_page v t ≡ page_of 0x5000 + (v - page_of 0x200000))
translate-map_example =
    translate-map root_places root_page 0x200000 0x5000 0x1800 6 rooted_with rooted_IsTree
      (omega arith) (omega arith) (record { low = omega arith; word = omega arith })

translate-unmap_example :
    (t : Vmm) × (unmap_in_root root_page 0x200000 0x1800 rooted_with ≡ some t)
    × ((v : ℕ)
        → let inside = in_range 512 (page_rounds 0x200000 0x1800) (page_number v) in
          (vmm_virt_to_phys_in root_page v t
            ≡ (if inside then 0 else vmm_virt_to_phys_in root_page v rooted_with))
          × (vmm_flags root_page v t ≡ (if inside then 0 else vmm_flags root_page v rooted_with)))
translate-unmap_example =
    translate-unmap root_places root_page 0x200000 0x1800 rooted_with rooted_IsTree (omega arith)

protect_in_root_lem_example :
    let n = page_rounds 0x200000 0x1800 in
    let entry = λ (k : ℕ). entry_for root_page (page_of 0x200000 + 4096 * k) rooted_with in
    (count : ℕ) × (t : Vmm) × (count ≤ n)
    × (protect_in_root root_page 0x200000 0x1800 4 rooted_with ≡ some (count == n, t))
    × IsTree root_places root_page t
    × ((k : ℕ) → k < count → is_present (entry k) ≡ true)
    × (count < n → is_present (entry count) ≡ false)
    × Changed root_page rooted_with t 512 count (λ k. page_entry (entry k) 4)
protect_in_root_lem_example =
    protect_in_root_lem root_places root_page 0x200000 0x1800 4 rooted_with rooted_IsTree
      (omega arith)

vmm_create_user_pml4_lem_example :
    (vmm_create_user_pml4 root_page rooted_with ≡ none) × (3 ≤ low_reserved_pages)
    ⊎ (root : ℕ) × (t : Vmm) × (at' : Places) × (vmm_create_user_pml4 root_page rooted_with
        ≡ some (root, t))
      × IsTree at' root t
      × IsTree root_places root_page t
      × ((u : ℕ) → entry_for root_page u t ≡ entry_for root_page u rooted_with)
      × ((u : ℕ)
          → entry_for root u t
            ≡ (if in_range 1 255 (pml4_i u) then 0 else entry_for root_page u rooted_with))
vmm_create_user_pml4_lem_example =
    vmm_create_user_pml4_lem root_places root_page rooted_with rooted_IsTree

abbrev free_memory : Vmm
free_memory = record { pmm = small_with 0xf0 4 0; words = λ m. 0 }

start_paging_lem_example :
    let started = start_paging small_boot no_acpi free_memory in
    (started ≡ none) × (4 ≤ low_reserved_pages + init_pages small_boot no_acpi 260 + 13)
    ⊎ (root : ℕ) × (t : Vmm) × (started ≡ some (root, t))
      × ((v : ℕ) → v < 260 * 4096 → vmm_virt_to_phys_in root v t ≡ v)
unfolding fb_size
start_paging_lem_example =
    start_paging_lem small_boot no_acpi free_memory free_IsValid (omega arith) (omega arith)
      (omega arith) (omega arith)
