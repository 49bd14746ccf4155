-- ===== src/Vmm/Change.antt =====
-- unmap_in_root of kernel/vmm.c, as a change of the map from pages to entries.
use ore_os.Base.{
  Bool-cases, arith, false, if◌then◌else◌, inl, inr, refl, some, suc, zero, ℕ, ◌*◌, ◌+◌, ◌-◌, ◌<◌,
  ◌==◌, ◌^◌, ◌∙◌, ◌≡◌, ◌≢◌, ◌≤◌, ◌⊎◌,
}
use ore_os.Vmm.{
  Vmm, entry_for, indices_of, page_of, page_rounds, pt_i, pte_for_root, slot, unmap_in_root,
  unmap_pages, write_word,
}
use ore_os.Vmm.Tree.{IsTree, Places, last_places, place_after, walk}
use ore_os.Vmm.Walk.{descend_read, entry_at-walk, walk_place}
use ore_os.Vmm.Leaf.{
  deep_enough, entry_for-entry_at, indices-IsWalk, page_number, pt_i-lt, root_nonzero, same_entry,
  written_page, written-IsTree,
}
use ore_os.Vmm.Map.{Changed, Changed-step, page_number-page_of, page_rounds_end}

-- A call of pte_for_root that makes no table gives the place `pte` of the page's entry.
pub record Found (at : Places) (root : ℕ) (s : Vmm) (virt pte : ℕ) : Type 0 where
  pub entry : s.words pte ≡ entry_for root virt s
  pub tree : (value : ℕ) → IsTree at root (write_word pte value s)
  pub change :
      (value u : ℕ)
      → entry_for root u (write_word pte value s)
        ≡ (if page_number u == page_number virt then value else entry_for root u s)

pub find_entry :
    (at : Places) (root : ℕ) (s : Vmm) (virt : ℕ)
    → IsTree at root s
    → (pte_for_root root virt false 0 s ≡ some (0, s)) × (entry_for root virt s ≡ 0)
      ⊎ (pte : ℕ) × (pte ≢ 0)
        × (pte_for_root root virt false 0 s ≡ some (pte, s))
        × Found at root s virt pte
unfolding pte_for_root
find_entry at root s virt tree =
    let placed = root_nonzero at root s tree in
    let walked = indices-IsWalk at root s virt tree in
    let down = descend_read at root s tree (indices_of virt) root 0 placed walked in
    let read =
      entry_for-entry_at at root s virt tree
      ∙ entry_at-walk at root s tree (indices_of virt) (pt_i virt) root placed walked in
    let pt = walk (indices_of virt) root s.words in
    elim (Bool-cases (pt == 0)) [
      | inl z ↦ inl (ground (arith, down), ground (arith, read))
      | inr n ↦
          let place =
            walk_place at root s tree (indices_of virt) root placed walked (ground arith) in
          let deep : at pt ≡ place_after (indices_of virt) 1 = rw tree.rooted at place in
          let last : last_places ≤ at pt = deep_enough virt (at pt) deep in
          inr (
            slot pt (pt_i virt),
            ground arith,
            ground (arith, down),
            record {
              entry = ground (arith, read);
              tree =
                  λ value. written-IsTree at root s pt (pt_i virt) value tree last (pt_i-lt virt);
              change = λ value u.
                  written_page at root s pt (pt_i virt) value tree last (pt_i-lt virt) virt u refl
                    refl;
            },
          )
    ]

-- Where the page has no entry, its entry is already 0.
already_zero :
    (at : Places) (root addr : ℕ) (s : Vmm)
    → IsTree at root s
    → entry_for root addr s ≡ 0
    → (u : ℕ)
    → entry_for root u s ≡ (if page_number u == page_number addr then 0 else entry_for root u s)
already_zero at root addr s tree absent u = elim (Bool-cases (page_number u == page_number addr)) [
  | inl e ↦ rw e (same_entry at root s u addr tree (ground arith) ∙ absent)
  | inr n ↦ rw n refl
]

unmap_pages_lem :
    (at : Places) (root n addr : ℕ) (s : Vmm)
    → IsTree at root s
    → addr + 4096 * n < 2 ^ 48
    → (t : Vmm) × (unmap_pages root n addr s ≡ some t)
      × IsTree at root t
      × Changed root s t (page_number addr) n (λ k. 0)
      × (t.pmm ≡ s.pmm)
unfolding unmap_pages
unmap_pages_lem at root zero addr s tree hi = (s, refl, tree, λ u. ground arith, refl)
unmap_pages_lem at root (suc n) addr s tree hi = elim (find_entry at root s addr tree) [
  | inl (e, absent) ↦
      let (t, e', tree', changed, kept) =
        unmap_pages_lem at root n (addr + 4096) s tree (omega arith) in
      (
        t,
        ground (arith, e, e'),
        tree',
        Changed-step root addr n s s t (λ k. 0) (λ k. 0) hi changed
            (already_zero at root addr s tree absent) (λ k b. refl),
        kept,
      )
  | inr (pte, nonzero, e, found) ↦
      let s' = write_word pte 0 s in
      let (t, e', tree', changed, kept) =
        unmap_pages_lem at root n (addr + 4096) s' (found.tree 0) (omega arith) in
      (
        t,
        ground (arith, e, e', nonzero),
        tree',
        Changed-step root addr n s s' t (λ k. 0) (λ k. 0) hi changed (found.change 0) (λ k b. refl),
        kept,
      )
]

-- In a tree of page tables, for a range of addresses that ends below 2^48 by at least a page,
-- unmap_in_root returns, keeps the tree and the page allocator, clears the entries of the pages of the range, also where a
-- table is missing, and leaves the entry of every other page as it was.
pub unmap_in_root_lem :
    (at : Places) (root virt size : ℕ) (s : Vmm)
    → IsTree at root s
    → virt + size ≤ 2 ^ 48 - 4096
    → (t : Vmm) × (unmap_in_root root virt size s ≡ some t)
      × IsTree at root t
      × Changed root s t (page_number virt) (page_rounds virt size) (λ k. 0)
      × (t.pmm ≡ s.pmm)
unfolding unmap_in_root
unmap_in_root_lem at root virt size s tree h = rw (page_number-page_of virt) at (
    unmap_pages_lem at root (page_rounds virt size) (page_of virt) s tree
      (page_rounds_end virt size h))
