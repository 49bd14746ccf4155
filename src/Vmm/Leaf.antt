-- ===== src/Vmm/Leaf.antt =====
-- Entries of the last level of kernel/vmm.c: where the page of an address has its entry, and a write
-- to it.
use ore_os.Base.{
  Bool-cases, List, [], ap, arith, if◌then◌else◌, inl, inr, refl, sym, update, ℕ, ◌%◌, ◌&&◌, ◌/◌,
  ◌<◌, ◌==◌, ◌^◌, ◌∙◌, ◌∷◌, ◌≡◌, ◌≢◌, ◌≤◌,
}
use ore_os.Vmm.{
  Vmm, addr_of, entry_for, indices_of, is_present, pd_i, pdpt_i, pml4_i, pt_i, pte_for_root, slot,
  write_word,
}
use ore_os.Vmm.Tree.{IsTree, IsWalk, Places, entry_at, last_places, place_after, walk}
use ore_os.Vmm.Walk.{descend_read, entry_at-walk, walk_place}

-- The number of the page of an address, of 36 bits.
abbrev pub page_number : ℕ → ℕ
page_number virt = virt / 4096 % 2 ^ 36

pub indices-IsWalk :
    (at : Places) (root : ℕ) (s : Vmm) (virt : ℕ)
    → IsTree at root s
    → IsWalk (indices_of virt) (at root)
unfolding pml4_i pdpt_i pd_i
indices-IsWalk at root s virt tree = rw tree.rooted (omega arith)

pub deep_enough : (virt place : ℕ) → place ≡ place_after (indices_of virt) 1 → last_places ≤ place
unfolding pml4_i pdpt_i pd_i
deep_enough virt place e = omega arith

pub pt_i-lt : (virt : ℕ) → pt_i virt < 512
unfolding pt_i
pt_i-lt virt = omega arith

pub root_nonzero : (at : Places) (root : ℕ) (s : Vmm) → IsTree at root s → at root ≢ 0
root_nonzero at root s tree = omega (arith, tree.rooted)

-- The last table and the index in it determine the page.
same_page :
    (u v : ℕ)
    → place_after (indices_of u) 1 ≡ place_after (indices_of v) 1
    → pt_i u ≡ pt_i v
    → page_number u ≡ page_number v
unfolding pml4_i pdpt_i pd_i pt_i
same_page u v e i = omega arith

same_indices :
    (u v : ℕ) → page_number u ≡ page_number v → (indices_of u ≡ indices_of v) × (pt_i u ≡ pt_i v)
unfolding pml4_i pdpt_i pd_i pt_i
same_indices u v e =
    let a : u / 2 ^ 39 % 512 ≡ v / 2 ^ 39 % 512 = omega arith in
    let b : u / 2 ^ 30 % 512 ≡ v / 2 ^ 30 % 512 = omega arith in
    let c : u / 2 ^ 21 % 512 ≡ v / 2 ^ 21 % 512 = omega arith in (cc, omega arith)

pub entry_for-entry_at :
    (at : Places) (root : ℕ) (s : Vmm) (virt : ℕ)
    → IsTree at root s
    → entry_for root virt s ≡ entry_at (indices_of virt) (pt_i virt) root s.words
unfolding entry_for pte_for_root
entry_for-entry_at at root s virt tree =
    let walked = indices-IsWalk at root s virt tree in
    let placed = root_nonzero at root s tree in
    ground (
      arith,
      descend_read at root s tree (indices_of virt) root 0 placed walked,
      entry_at-walk at root s tree (indices_of virt) (pt_i virt) root placed walked,
    )

-- Addresses of one page have one entry.
pub same_entry :
    (at : Places) (root : ℕ) (s : Vmm) (u v : ℕ)
    → IsTree at root s
    → page_number u ≡ page_number v
    → entry_for root u s ≡ entry_for root v s
same_entry at root s u v tree e =
    let (indices, index) = same_indices u v e in
    entry_for-entry_at at root s u tree
    ∙ ap (λ is. entry_at is (pt_i u) root s.words) indices
    ∙ ap (λ i. entry_at (indices_of v) i root s.words) index
    ∙ sym (entry_for-entry_at at root s v tree)

module _ (at : Places) (root : ℕ) (s : Vmm) (pt k entry : ℕ) (tree : IsTree at root s)
    (last : last_places ≤ at pt) (bound : k < 512) where
  written : Vmm
  written = write_word (slot pt k) entry s

  word_elsewhere :
      (x j : ℕ)
      → at x ≢ 0
      → j < 512
      → written.words (slot x j) ≡ (if x == pt && j == k then entry else s.words (slot x j))
  unfolding written
  word_elsewhere x j h b =
      let (_, fx) = tree.frames x h in let (_, fp) = tree.frames pt (omega arith) in ground arith

  upper_same :
      (x j : ℕ)
      → at x ≢ 0
      → at x < last_places
      → j < 512
      → written.words (slot x j) ≡ s.words (slot x j)
  upper_same x j h l b =
      let differs : x ≢ pt = λ e. absurd (omega (arith, ap at e)) in
      ground (arith, word_elsewhere x j h b)

  pub written-IsTree : IsTree at root (write_word (slot pt k) entry s)
  unfolding written
  written-IsTree = record {
    rooted = tree.rooted;
    leads = λ x j h l b p.
        let same = upper_same x j h l b in rw same (tree.leads x j h l b (rw (sym same) p));
    frames = tree.frames;
    taken = tree.taken;
    valid = tree.valid;
    physical = tree.physical;
  }

  pub written_entry :
      (is : List ℕ) (j x : ℕ)
      → at x ≢ 0
      → IsWalk is (at x)
      → j < 512
      → entry_at is j x (update s.words (slot pt k) entry)
        ≡ (if walk is x s.words == pt && j == k then entry else entry_at is j x s.words)
  unfolding written entry_at walk
  written_entry [] j x h w b = word_elsewhere x j h b
  written_entry (i ∷ is) j x h (bi, l, w) b =
      rw (upper_same x i h l bi) (elim (Bool-cases (is_present (s.words (slot x i)))) [
        | inl p ↦
            let leads_on = tree.leads x i h l bi p in
            let placed_below : at (addr_of (s.words (slot x i))) ≢ 0 = omega (arith, leads_on) in
            rw p (written_entry is j (addr_of (s.words (slot x i))) placed_below (rw leads_on w) b)
        | inr a ↦ let (nonzero, _) = tree.frames pt (omega arith) in rw a (ground arith)
      ])

  pub written_walk :
      (is : List ℕ) (x : ℕ)
      → at x ≢ 0
      → IsWalk is (at x)
      → walk is x (update s.words (slot pt k) entry) ≡ walk is x s.words
  unfolding written walk
  written_walk [] x h w = refl
  written_walk (i ∷ is) x h (bi, l, w) =
      rw (upper_same x i h l bi) (elim (Bool-cases (is_present (s.words (slot x i)))) [
        | inl p ↦
            let leads_on = tree.leads x i h l bi p in
            let placed_below : at (addr_of (s.words (slot x i))) ≢ 0 = omega (arith, leads_on) in
            rw p (written_walk is (addr_of (s.words (slot x i))) placed_below (rw leads_on w))
        | inr a ↦ rw a refl
      ])

  page_of_place :
      (virt u : ℕ)
      → pt ≡ walk (indices_of virt) root s.words
      → walk (indices_of u) root s.words ≡ pt
      → pt_i u ≡ pt_i virt
      → page_number u ≡ page_number virt
  page_of_place virt u reached there index =
      let placed = root_nonzero at root s tree in
      let (nonzero, _) = tree.frames pt (omega arith) in
      let here =
        walk_place at root s tree (indices_of u) root placed (indices-IsWalk at root s u tree)
          (omega (arith, nonzero, there)) in
      let goal =
        walk_place at root s tree (indices_of virt) root placed (indices-IsWalk at root s virt tree)
          (omega (arith, nonzero, reached)) in
      same_page u virt (rw tree.rooted at (sym here ∙ ap at (there ∙ reached) ∙ goal)) index

  same_test :
      (virt u : ℕ)
      → pt ≡ walk (indices_of virt) root s.words
      → k ≡ pt_i virt
      → (walk (indices_of u) root s.words == pt && pt_i u == k)
        ≡ (page_number u == page_number virt)
  same_test virt u reached index = elim (Bool-cases (page_number u == page_number virt)) [
    | inl e ↦
        let (indices, final) = same_indices u virt (ground arith) in
        let there : walk (indices_of u) root s.words ≡ pt =
          ap (λ is. walk is root s.words) indices ∙ sym reached in
        ground arith
    | inr e ↦ elim (Bool-cases (walk (indices_of u) root s.words == pt && pt_i u == k)) [
      | inl both ↦
          let there : walk (indices_of u) root s.words ≡ pt = ground arith in
          absurd (ground (arith, page_of_place virt u reached there (ground arith)))
      | inr n ↦ ground arith
    ]
  ]

  -- A write to the entry of the page of `virt` changes the entry of this page only.
  pub written_page :
      (virt u : ℕ)
      → pt ≡ walk (indices_of virt) root s.words
      → k ≡ pt_i virt
      → entry_for root u (write_word (slot pt k) entry s)
        ≡ (if page_number u == page_number virt then entry else entry_for root u s)
  written_page virt u reached index =
      let walked = indices-IsWalk at root s u tree in
      let placed = root_nonzero at root s tree in
      let before = entry_for-entry_at at root s u tree in
      let after = entry_for-entry_at at root (write_word (slot pt k) entry s) u written-IsTree in
      let change = written_entry (indices_of u) (pt_i u) root placed walked (pt_i-lt u) in
      ground (arith, same_test virt u reached index)
