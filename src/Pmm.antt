-- ===== src/Pmm.antt =====
-- kernel/pmm.c: the physical page allocator. A set bit of the bitmap is a page that is not free.
pub mod Bitmap
pub mod Count
pub mod Invariant
pub mod Scan
pub mod Alloc
pub mod Free
pub mod Init
mod Tests
use ore_os.Base.{
  Bool, Memory, Option, add64, bit_and, bit_clear_mask, bit_is_set, bit_mask, bit_or, if◌then◌else◌,
  ltb, mem_zero, none, some, sub64, suc, update, zero, ℕ, ◌%◌, ◌&&◌, ◌*◌, ◌+◌, ◌-◌, ◌/◌, ◌==◌, ◌||◌,
}

abbrev pub page_size : ℕ
page_size = 4096

abbrev pub low_reserved_end : ℕ
low_reserved_end = 0x100000

abbrev pub low_reserved_pages : ℕ
low_reserved_pages = 256

-- The static variables of pmm.c, and the memory whose pages it hands out. The bitmap is an array of
-- bytes of its own.
pub record Pmm : Type 0 where
  pub bitmap : ℕ → ℕ
  pub bitmap_bytes : ℕ
  pub max_phys : ℕ
  pub total_page_count : ℕ
  pub free_page_count : ℕ
  pub reserved_page_count : ℕ
  pub used_page_count : ℕ
  pub memory : Memory

pub bitmap_set : ℕ → Pmm → Pmm
bitmap_set page s = record s {
  bitmap = update s.bitmap (page / 8) (bit_or (s.bitmap (page / 8)) (bit_mask (page % 8)));
}

pub bitmap_clear : ℕ → Pmm → Pmm
bitmap_clear page s = record s {
  bitmap = update s.bitmap (page / 8) (bit_and (s.bitmap (page / 8)) (bit_clear_mask (page % 8)));
}

unfoldable pub bitmap_test : Pmm → ℕ → Bool
bitmap_test s page = bit_is_set (s.bitmap (page / 8)) (page % 8)

-- `for (i = 0; i < count; ++i) bitmap_set(start_page + i)`
pub set_run : ℕ → ℕ → Pmm → Pmm
set_run start zero s = s
set_run start (suc n) s = set_run (start + 1) n (bitmap_set start s)

-- The scan of `pmm_alloc_pages`: `rounds` pages are left from `page` on.
pub scan : Pmm → ℕ → (rounds page run start_page : ℕ) → Option ℕ
scan s count zero page run start_page = none
scan s count (suc rounds) page run start_page =
    let busy = scan s count rounds (page + 1) 0 start_page in
    let first = if run == 0 then page else start_page in
    let more = scan s count rounds (page + 1) (run + 1) first in
    if bitmap_test s page then busy else if run + 1 == count then some first else more

-- The state after the run of `count` pages at `start_page` is taken.
pub take_run : ℕ → ℕ → Pmm → Pmm
take_run start_page count s =
    let marked = set_run start_page count s in
    record marked {
      free_page_count = sub64 marked.free_page_count count;
      used_page_count = add64 marked.used_page_count count;
      memory = mem_zero (start_page * page_size) (count * page_size) marked.memory;
    }

-- NULL is 0.
pub alloc_pages : ℕ → Pmm → ℕ × Pmm
alloc_pages count s =
    if count == 0
    then (0, s)
    else elim (scan s count (s.total_page_count - low_reserved_pages) low_reserved_pages 0 0) [
      | none ↦ (0, s)
      | some start_page ↦ (start_page * page_size, take_run start_page count s)
    ]

pub free_one : ℕ → Pmm → Pmm
free_one page s =
    if ltb page s.total_page_count && bitmap_test s page
    then (let cleared = bitmap_clear page s in
        record cleared {
          free_page_count = add64 cleared.free_page_count 1;
          used_page_count = if cleared.used_page_count == 0 then 0 else cleared.used_page_count - 1;
        })
    else s

pub free_loop : ℕ → ℕ → Pmm → Pmm
unfolding free_one
free_loop page zero s = s
free_loop page (suc n) s = free_loop (page + 1) n (free_one page s)

pub free_pages : ℕ → ℕ → Pmm → Pmm
free_pages ptr count s = if ptr == 0 || count == 0 then s else free_loop (ptr / page_size) count s

-- `pmm_alloc_page` and `pmm_free_page`
pub alloc_page : Pmm → ℕ × Pmm
alloc_page = alloc_pages 1

pub free_page : ℕ → Pmm → Pmm
free_page page = free_pages page 1
