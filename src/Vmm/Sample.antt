-- ===== src/Vmm/Sample.antt =====
-- Page tables in a memory of 260 pages, whose first free page is an empty root, for tests.
use ore_os.Base.{arith, if◌then◌else◌, ltb, refl, ℕ, ◌*◌, ◌==◌, ◌∙◌, ◌≡◌}
use ore_os.Pmm.{Pmm, bitmap_test}
use ore_os.Pmm.Count.{clear_below}
use ore_os.Pmm.Invariant.{IsValid}
use ore_os.Vmm.{Vmm, entry_for, indices_of, is_present, pt_i}
use ore_os.Vmm.Leaf.{entry_for-entry_at}
use ore_os.Vmm.Tree.{IsTree, Places, entry_at}

-- The low megabyte is marked, and `marks` are the bits of the four pages above it.
abbrev pub small_with : (marks free used : ℕ) → Pmm
small_with marks free used = record {
  bitmap = λ i. if ltb i 32 then 255 else if i == 32 then marks else 255;
  bitmap_bytes = 4096;
  max_phys = 260 * 4096;
  total_page_count = 260;
  free_page_count = free;
  reserved_page_count = 256;
  used_page_count = used;
  memory = λ a. 7;
}

abbrev pub root_page : ℕ
root_page = 0x100000

-- The root is empty.
abbrev pub rooted_with : Vmm
rooted_with = record { pmm = small_with 0xf1 3 1; words = λ m. 0 }

abbrev pub root_places : Places
root_places x = if root_page == x then 1 else 0

taken_IsValid : IsValid (small_with 0xf1 3 1)
unfolding clear_below bitmap_test
taken_IsValid = record {
  bytes = λ i. ground arith;
  counted = refl;
  summed = refl;
  small = omega arith;
}

pub rooted_IsTree : IsTree root_places root_page rooted_with
unfolding bitmap_test is_present
rooted_IsTree = record {
  rooted = refl;
  leads = λ x j h l b p. absurd (ground arith);
  frames =
      λ x h. let e : x ≡ root_page = ground arith in rw e (omega arith, (omega arith, omega arith));
  taken = λ x h. let e : x ≡ root_page = ground arith in rw e refl;
  valid = taken_IsValid;
  physical = omega arith;
}

empty_walk : (v : ℕ) → entry_at (indices_of v) (pt_i v) root_page rooted_with.words ≡ 0
unfolding entry_at is_present
empty_walk v = refl

-- The root has no entry.
pub rooted_absent : (v : ℕ) → entry_for root_page v rooted_with ≡ 0
rooted_absent v =
    entry_for-entry_at root_places root_page rooted_with v rooted_IsTree ∙ empty_walk v
