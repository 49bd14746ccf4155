-- ===== src/Vmm/Mapped.antt =====
-- Page tables with one page, which starts with the characters "hi", for tests.
use ore_os.Base.{
  arith, if◌then◌else◌, inl, inr, refl, true, ℕ, ◌+◌, ◌/◌, ◌<◌, ◌==◌, ◌∙◌, ◌≡◌, ◌≢◌, ◌⊎◌,
}
use ore_os.Pmm.{bitmap_test}
use ore_os.Pmm.Count.{clear_below}
use ore_os.Pmm.Invariant.{IsValid}
use ore_os.Vmm.Entry.{IsFrame}
use ore_os.Vmm.Leaf.{entry_for-entry_at, same_entry}
use ore_os.Vmm.Translate.{translate_present}
use ore_os.Vmm.{
  Vmm, addr_of, entry_for, is_present, pd_i, pdpt_i, pml4_i, pt_i, slot, vmm_virt_to_phys_in,
}
use ore_os.Vmm.Sample.{root_page, small_with}
use ore_os.Vmm.Tree.{IsTree, Places, below, entry_at, last_places}

-- The tables are the pages 0x100 to 0x103, and the page is mapped to 0x5000.
abbrev pub one_page : Vmm
one_page = record {
  pmm = record (small_with 0xff 0 4) {
    memory = λ a. if a == 0x5000 then 104 else if a == 0x5001 then 105 else 0;
  };
  words = λ m.
      if m == 0x100008
      then 0x101007
      else if m == 0x101000
      then 0x102007
      else if m == 0x102000
      then 0x103007
      else if m == 0x103000
      then 0x5007
      else 0;
}

abbrev pub one_page_places : Places
one_page_places x =
    if x == 0x100000
    then 1
    else if x == 0x101000
    then below 1 1
    else if x == 0x102000
    then below (below 1 1) 0
    else if x == 0x103000
    then below (below (below 1 1) 0) 0
    else 0

one_page_IsValid : IsValid (one_page.pmm)
unfolding clear_below bitmap_test
one_page_IsValid = record {
  bytes = λ i. ground arith;
  counted = refl;
  summed = refl;
  small = omega arith;
}

one_page_table :
    (x : ℕ)
    → one_page_places x ≢ 0
    → (x ≡ 0x100000) ⊎ (x ≡ 0x101000) ⊎ (x ≡ 0x102000) ⊎ (x ≡ 0x103000)
one_page_table x h = ground arith

one_page_leads :
    (x j : ℕ)
    → (x ≡ 0x100000) ⊎ (x ≡ 0x101000) ⊎ (x ≡ 0x102000) ⊎ (x ≡ 0x103000)
    → one_page_places x < last_places
    → j < 512
    → is_present (one_page.words (slot x j)) ≡ true
    → one_page_places (addr_of (one_page.words (slot x j))) ≡ below (one_page_places x) j
unfolding is_present addr_of
one_page_leads x j (inl e) l b p = let one : j ≡ 1 = ground (arith, e, p) in rw (e, one) refl
one_page_leads x j (inr (inl e)) l b p =
    let first : j ≡ 0 = ground (arith, e, p) in rw (e, first) refl
one_page_leads x j (inr (inr (inl e))) l b p =
    let first : j ≡ 0 = ground (arith, e, p) in rw (e, first) refl
one_page_leads x j (inr (inr (inr e))) l b p = absurd (ground (arith, e, l))

-- What holds of the four tables holds of each.
one_page_all :
    (P : ℕ → Type 0)
    → P 0x100000
    → P 0x101000
    → P 0x102000
    → P 0x103000
    → (x : ℕ) → one_page_places x ≢ 0
    → P x
one_page_all P a b c d x h = elim (one_page_table x h) [
  | inl e ↦ rw e a
  | inr (inl e) ↦ rw e b
  | inr (inr (inl e)) ↦ rw e c
  | inr (inr (inr e)) ↦ rw e d
]

pub one_page_IsTree : IsTree one_page_places root_page one_page
unfolding bitmap_test
one_page_IsTree = record {
  rooted = refl;
  leads = λ x j h l b p. one_page_leads x j (one_page_table x h) l b p;
  frames =
      one_page_all (λ x. (x ≢ 0) × IsFrame x) (omega arith, (omega arith, omega arith))
        (omega arith, (omega arith, omega arith)) (omega arith, (omega arith, omega arith))
        (omega arith, (omega arith, omega arith));
  taken = one_page_all (λ x. bitmap_test one_page.pmm (x / 4096) ≡ true) refl refl refl refl;
  valid = one_page_IsValid;
  physical = omega arith;
}

-- The page at 0x8000000000 is the frame at 0x5000.
one_page_entry : (i : ℕ) → i < 4096 → entry_for root_page (0x8000000000 + i) one_page ≡ 0x5007
unfolding entry_at is_present pml4_i addr_of pdpt_i pd_i pt_i
one_page_entry i b =
    same_entry one_page_places root_page one_page (0x8000000000 + i) 0x8000000000 one_page_IsTree
      (omega arith)
    ∙ entry_for-entry_at one_page_places root_page one_page 0x8000000000 one_page_IsTree
    ∙ refl

pub one_page_translation :
    (i : ℕ) → i < 4096 → vmm_virt_to_phys_in root_page (0x8000000000 + i) one_page ≡ 0x5000 + i
unfolding is_present addr_of
one_page_translation i b =
    translate_present root_page (0x8000000000 + i) one_page 0x5007 (one_page_entry i b) refl
    ∙ omega arith

-- Every page that is present is the frame at 0x5000.
pub one_page_entries :
    (v : ℕ)
    → is_present (entry_for root_page v one_page) ≡ true
    → addr_of (entry_for root_page v one_page) ≢ 0
unfolding entry_at is_present addr_of
one_page_entries v p =
    let e = entry_for-entry_at one_page_places root_page one_page v one_page_IsTree in
    ground (arith, e)
