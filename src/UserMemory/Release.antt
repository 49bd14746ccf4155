-- ===== src/UserMemory/Release.antt =====
-- user_free_pages_sys of kernel/syscall.c: the pages that a process gives back.
use ore_os.Base.{
  Bool, false, sub64, true, u32_mod, ℕ, ◌%◌, ◌&&◌, ◌*◌, ◌+◌, ◌-◌, ◌==◌, ◌^◌, ◌≡◌, ◌≢◌, ◌≤◌,
}
use ore_os.Pmm.{Pmm}
use ore_os.Process.{Process, UserAllocation}
use ore_os.Vmm.{Vmm}

-- The slot is in use for the pages.
unfoldable pub holds : (ℕ → UserAllocation) → (ptr count i : ℕ) → Bool
holds allocs ptr count i =
    let alloc = allocs i in alloc.used && (alloc.virt == ptr && alloc.pages == count % u32_mod)

-- The pages of a slot in use lie below 2^48 by a page, from a page's start on.
abbrev pub SlotsAligned : Process → Type 0
SlotsAligned p =
    (k : ℕ)
    → (p.user_allocs k).used ≡ true
    → ((p.user_allocs k).virt % 4096 ≡ 0)
      × ((p.user_allocs k).virt + (p.user_allocs k).pages * 4096 ≤ 2 ^ 48 - 4096)

-- The process `q` after the slot `index` of `p`, with so many pages, was emptied.
pub record Emptied (p q : Process) (index pages : ℕ) : Type 0 where
  pub slot : q.user_allocs index ≡ record { virt = 0; phys = 0; pages = 0; used = false }
  pub others : (k : ℕ) → k ≢ index → q.user_allocs k ≡ p.user_allocs k
  pub counted : q.user_alloc_pages_total ≡ sub64 p.user_alloc_pages_total pages
  pub rest :
      q
      ≡ record p { user_allocs = q.user_allocs; user_alloc_pages_total = q.user_alloc_pages_total }
