-- ===== src/Pmm/Init.antt =====
-- pmm_init of kernel/pmm.c: from the memory map of the loader to the bitmap and the counters. A panic
-- is `none`. `x & ~(align - 1)` is written as a division and a product.
pub mod Reserve
pub mod Release
pub mod Storage
pub mod Established
pub mod Booted
pub mod Main
mod Tests
use ore_os.Base.{
  Bool, List, Memory, Option, [], add64, if◌then◌else◌, leb, ltb, mul64, none, some, sub64, suc,
  update, zero, ℕ, ◌&&◌, ◌*◌, ◌+◌, ◌-◌, ◌/◌, ◌==◌, ◌||◌, ◌∷◌,
}
use ore_os.Boot.{BootInfo, MemoryDescriptor, boot_info_size}
use ore_os.Pmm.{Pmm, bitmap_clear, bitmap_set, bitmap_test, low_reserved_end, page_size}

pub align_up : ℕ → ℕ
align_up value = add64 value (page_size - 1) / page_size * page_size

pub align_down : ℕ → ℕ
align_down value = value / page_size * page_size

pub ranges_overlap : (a_start a_end b_start b_end : ℕ) → Bool
ranges_overlap a_start a_end b_start b_end = ltb a_start b_end && ltb b_start a_end

pub usable_descriptor : MemoryDescriptor → Bool
usable_descriptor d = d.kind == 7

-- `d->physical_start + d->number_of_pages * PAGE_SIZE`
pub descriptor_end : MemoryDescriptor → ℕ
descriptor_end d = add64 d.physical_start (mul64 d.number_of_pages page_size)

pub max_end : List MemoryDescriptor → ℕ → ℕ
unfolding usable_descriptor descriptor_end
max_end [] best = best
max_end (d ∷ ds) best =
    max_end ds
      (if usable_descriptor d && ltb best (descriptor_end d) then descriptor_end d else best)

-- One page of `reserve_range`.
pub reserve_one : ℕ → Pmm → Pmm
reserve_one page s =
    if bitmap_test s page
    then s
    else (let marked = bitmap_set page s in
        record marked {
          free_page_count = if marked.free_page_count == 0 then 0 else marked.free_page_count - 1;
          reserved_page_count = add64 marked.reserved_page_count 1;
        })

-- The loop of `reserve_range`, on as many rounds of fuel as memory has pages.
pub reserve_loop : (fuel addr end : ℕ) → Pmm → Pmm
unfolding reserve_one
reserve_loop zero addr end s = s
reserve_loop (suc fuel) addr end s =
    let rest = reserve_loop fuel (add64 addr page_size) end (reserve_one (addr / page_size) s) in
    if ltb addr end && ltb addr s.max_phys then rest else s

pub reserve_range : (start end : ℕ) → Pmm → Pmm
unfolding reserve_loop align_up align_down
reserve_range start end s =
    reserve_loop (s.total_page_count + 1) (align_down start) (align_up end) s

-- The inner loop of `find_bitmap_storage`: the first page-aligned place in [addr, end) for `pages`
-- pages that does not meet the kernel.
pub find_in : BootInfo → (fuel addr end pages : ℕ) → Option ℕ
unfolding ranges_overlap
find_in boot zero addr end pages = none
find_in boot (suc fuel) addr end pages =
    let rest = find_in boot fuel (add64 addr page_size) end pages in
    if leb (add64 addr (mul64 pages page_size)) end
    then (if ranges_overlap addr (add64 addr (mul64 pages page_size)) boot.kernel_base
          (add64 boot.kernel_base boot.kernel_size)
        then rest
        else some addr)
    else none

pub usable_start : MemoryDescriptor → ℕ
unfolding align_up
usable_start d = align_up d.physical_start

pub usable_end : MemoryDescriptor → ℕ
unfolding align_down descriptor_end
usable_end d = align_down (descriptor_end d)

pub find_bitmap_storage : BootInfo → List MemoryDescriptor → ℕ → Option ℕ
unfolding find_in usable_start usable_end usable_descriptor align_up
find_bitmap_storage boot [] bytes = none
find_bitmap_storage boot (d ∷ ds) bytes =
    let rest = find_bitmap_storage boot ds bytes in
    let start =
      if ltb (usable_start d) low_reserved_end then low_reserved_end else usable_start d in
    if usable_descriptor d
    then elim (find_in boot (usable_end d / page_size + 1) start (usable_end d)
        (align_up bytes / page_size)) [ some addr ↦ some addr | none ↦ rest ]
    else rest

-- One page of usable memory.
pub release_one : ℕ → Pmm → Pmm
release_one page s =
    let cleared = bitmap_clear page s in
    record cleared {
      free_page_count = add64 cleared.free_page_count 1;
      reserved_page_count = sub64 cleared.reserved_page_count 1;
    }

pub release_loop : (fuel addr end : ℕ) → Pmm → Pmm
unfolding release_one
release_loop zero addr end s = s
release_loop (suc fuel) addr end s =
    let rest = release_loop fuel (add64 addr page_size) end (release_one (addr / page_size) s) in
    if leb (add64 addr page_size) end then rest else s

pub release_all : List MemoryDescriptor → Pmm → Pmm
unfolding release_loop usable_start usable_end usable_descriptor
release_all [] s = s
release_all (d ∷ ds) s = release_all ds (
    if usable_descriptor d
    then release_loop (usable_end d / page_size + 1) (usable_start d) (usable_end d) s
    else s)

-- `for (i = 0; i < bitmap_bytes; ++i) bitmap[i] = 0xff`
pub fill_bitmap : ℕ → (ℕ → ℕ) → ℕ → ℕ
fill_bitmap zero m = m
fill_bitmap (suc n) m = update (fill_bitmap n m) n 0xff

-- The state before the first page is released.
pub all_reserved : (max_phys : ℕ) → (old : ℕ → ℕ) → Memory → Pmm
unfolding align_up fill_bitmap
all_reserved top old memory =
    let total = align_up top / page_size in
    let bytes = align_up ((total + 7) / 8) in
    record {
      bitmap = fill_bitmap bytes old;
      bitmap_bytes = bytes;
      max_phys = top;
      total_page_count = total;
      free_page_count = 0;
      reserved_page_count = total;
      used_page_count = 0;
      memory = memory;
    }

-- The reservations, in the order of the code; `self` is the address of the boot information.
pub reserve_all : BootInfo → (self bitmap_addr : ℕ) → Pmm → Pmm
unfolding reserve_range
reserve_all boot self bitmap_addr s =
    let s1 = reserve_range 0 low_reserved_end s in
    let s2 = reserve_range 0x7000 0x9000 s1 in
    let s3 = reserve_range bitmap_addr (add64 bitmap_addr s.bitmap_bytes) s2 in
    let s4 = reserve_range boot.kernel_base (add64 boot.kernel_base boot.kernel_size) s3 in
    let s5 =
      if boot.initramfs_base == 0 || boot.initramfs_size == 0
      then s4
      else reserve_range boot.initramfs_base (add64 boot.initramfs_base boot.initramfs_size) s4 in
    reserve_range self (add64 self boot_info_size) s5

pub pmm_init : BootInfo → (self : ℕ) → (old : ℕ → ℕ) → Memory → Option Pmm
unfolding max_end all_reserved find_bitmap_storage release_all reserve_all
pmm_init boot self old memory =
    let top = max_end boot.memory_map 0 in
    let s = all_reserved top old memory in
    if top == 0 then none else elim (find_bitmap_storage boot boot.memory_map s.bitmap_bytes) [
      | none ↦ none
      | some addr ↦ some (reserve_all boot self addr (release_all boot.memory_map s))
    ]
