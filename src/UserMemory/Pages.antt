-- ===== src/UserMemory/Pages.antt =====
-- user_alloc_pages_sys of kernel/syscall.c: the pages that a process gets.
use ore_os.Vmm.Entry.{IsFlags}
use ore_os.Base.{
  Memory, Option, arith, false, none, some, true, ℕ, ◌%◌, ◌*◌, ◌+◌, ◌/◌, ◌<◌, ◌^◌, ◌≡◌, ◌≢◌, ◌≤◌,
  ◌⊎◌,
}
use ore_os.Pmm.{Pmm, bitmap_test, low_reserved_pages}
use ore_os.Process.{Process, user_alloc_base}
use ore_os.Vmm.{Vmm, align_page_up, page_of, page_rounds, vmm_nx, vmm_user, vmm_write}
use ore_os.Vmm.Tree.{IsTree, Places}
use ore_os.Vmm.Leaf.{page_number}
use ore_os.Vmm.Map.{Changed, frames_from, regions}
use ore_os.UserMemory.{
  SysResult, alloc_flags, einval, enomem, failed, max_user_allocs, user_alloc_limit, value,
}

-- The next place in the window of the process: a page's start, at or up to a page behind what the
-- process has had, and at the start of the window if it has had nothing.
pub record IsPlace (p : Process) (va : ℕ) : Type 0 where
  pub aligned : va % 4096 ≡ 0
  pub first : p.user_alloc_next ≤ user_alloc_base → va ≡ user_alloc_base
  pub later :
      user_alloc_base ≤ p.user_alloc_next
      → (p.user_alloc_next ≤ va) × (va < p.user_alloc_next + 4096)

-- Why user_alloc_pages_sys returns an error.
pub Refused : Process → Vmm → (count va errno : ℕ) → Type 0
Refused p s count va errno =
    (errno ≡ einval) × ((count ≡ 0) ⊎ (1024 < count))
    ⊎ (errno ≡ enomem)
      × ((1024 < p.user_alloc_pages_total + count)
          ⊎ ((k : ℕ) → k < max_user_allocs → (p.user_allocs k).used ≡ true)
          ⊎ (user_alloc_limit < va + count * 4096)
          ⊎ ((start : ℕ)
              → low_reserved_pages ≤ start
              → start + count ≤ s.pmm.total_page_count
              → (q : ℕ) × (start ≤ q) × (q < start + count) × (bitmap_test s.pmm q ≡ true)))

-- The process `q` and the page tables `t` after `count` pages from `phys` on were given at `va`.
pub record Given (p q : Process) (s t : Vmm) (count va : ℕ) : Type 0 where
  pub index : ℕ
  pub phys : ℕ
  pub at : Places
  pub free : (index < max_user_allocs) × ((p.user_allocs index).used ≡ false)
  pub slot : q.user_allocs index ≡ record { virt = va; phys = phys; pages = count; used = true }
  pub others : (k : ℕ) → k ≢ index → q.user_allocs k ≡ p.user_allocs k
  pub counted : q.user_alloc_pages_total ≡ p.user_alloc_pages_total + count
  pub next : q.user_alloc_next ≡ va + count * 4096
  pub rest : q ≡ record p {
    user_allocs = q.user_allocs;
    user_alloc_pages_total = q.user_alloc_pages_total;
    user_alloc_next = q.user_alloc_next;
  }
  pub aligned : va % 4096 ≡ 0
  pub within : (user_alloc_base ≤ va) × (va + count * 4096 ≤ user_alloc_limit)
  pub total : p.user_alloc_pages_total + count ≤ 1024
  pub frames : (q : ℕ) → phys / 4096 ≤ q → q < phys / 4096 + count → bitmap_test s.pmm q ≡ false
  pub tree : IsTree at p.address_space.pml4_phys t
  pub mapped :
      Changed p.address_space.pml4_phys s t
        (page_number va)
        count
        (frames_from phys (vmm_user + vmm_write + vmm_nx))

pub exact_rounds :
    (va count : ℕ)
    → va % 4096 ≡ 0
    → va + count * 4096 ≤ 2 ^ 48
    → page_rounds va (count * 4096) ≡ count
unfolding page_rounds page_of align_page_up
exact_rounds va count a h = omega arith

exact-IsFlags : IsFlags alloc_flags
exact-IsFlags = record { low = omega arith; word = omega arith }

pub memory_tree :
    (at : Places) (root : ℕ) (s : Vmm) (pmm : Pmm) (memory : Memory)
    → IsTree at root (record s { pmm = pmm })
    → IsTree at root (record s { pmm = record pmm { memory = memory } })
unfolding bitmap_test
memory_tree at root s pmm memory tree = record {
  rooted = tree.rooted;
  leads = tree.leads;
  frames = tree.frames;
  taken = tree.taken;
  valid = record {
    bytes = tree.valid.bytes;
    counted = tree.valid.counted;
    summed = tree.valid.summed;
    small = tree.valid.small;
  };
  physical = tree.physical;
}

-- The result of the system call.
pub Outcome : Process → Vmm → (count : ℕ) → Option (SysResult × (Option Process × Vmm)) → Type 0
Outcome p s count result =
    (va : ℕ) × IsPlace p va
    × (((errno : ℕ) × (result ≡ some (failed errno, (some p, s))) × Refused p s count va errno)
        ⊎ (result ≡ none)
          × (s.pmm.free_page_count ≤ low_reserved_pages + count + 3 * regions (va / 4096) count)
        ⊎ (q : Process) × (t : Vmm) × (result ≡ some (value va, (some q, t)))
          × Given p q s t count va)
