-- ===== src/Vmm/Prepare.antt =====
-- pte_for_root of kernel/vmm.c where it may make tables: it prepares the entry of a page.
use ore_os.Base.{
  Bool-cases, arith, if◌then◌else◌, inl, inr, none, refl, some, sym, true, ℕ, ◌%◌, ◌*◌, ◌+◌, ◌/◌,
  ◌==◌, ◌∙◌, ◌≡◌, ◌≢◌, ◌≤◌, ◌⊎◌,
}
use ore_os.Pmm.{low_reserved_pages}
use ore_os.Vmm.{Vmm, entry_for, indices_of, pt_i, pte_for_root, slot, write_word}
use ore_os.Vmm.Tree.{IsTree, Places, last_places, place_after, walk}
use ore_os.Vmm.Walk.{descend_found, walk_place}
use ore_os.Vmm.Next.{Descended, descend_create}
use ore_os.Vmm.Leaf.{
  deep_enough, entry_for-entry_at, indices-IsWalk, page_number, pt_i-lt, root_nonzero, written_page,
  written-IsTree, written_walk,
}

-- Three tables are spared where the last table of the page is there.
abbrev pub spared : (root virt : ℕ) → Vmm → ℕ
spared root virt s = if walk (indices_of virt) root s.words == 0 then 0 else 3

-- A call of pte_for_root that may make tables gives the place of the page's entry, and changes no page.
pub record Prepared (at : Places) (root : ℕ) (s : Vmm) (virt pte : ℕ) (at' : Places) (t : Vmm)
    : Type 0 where
  pub nonzero : pte ≢ 0
  pub tree : (entry : ℕ) → IsTree at' root (write_word pte entry t)
  pub free : s.pmm.free_page_count + spared root virt s ≤ t.pmm.free_page_count + 3
  pub total : t.pmm.total_page_count ≡ s.pmm.total_page_count
  pub reached :
      (entry u : ℕ)
      → indices_of u ≡ indices_of virt
      → walk (indices_of u) root (write_word pte entry t).words ≢ 0
  pub change :
      (entry u : ℕ)
      → entry_for root u (write_word pte entry t)
        ≡ (if page_number u == page_number virt then entry else entry_for root u s)

Prepared-of :
    (at : Places) (root : ℕ) (s : Vmm) (virt pt : ℕ) (at' : Places) (t : Vmm)
    → IsTree at root s
    → Descended at root s (indices_of virt) root pt at' t
    → s.pmm.free_page_count + spared root virt s ≤ t.pmm.free_page_count + 3
    → Prepared at root s virt (slot pt (pt_i virt)) at' t
Prepared-of at root s virt pt at' t tree down free =
    let placed = root_nonzero at root s tree in
    let placed' = root_nonzero at' root t down.tree in
    let deep : at' pt ≡ place_after (indices_of virt) 1 = rw tree.rooted at down.place in
    let last : last_places ≤ at' pt = deep_enough virt (at' pt) deep in
    let (nonzero, _) = down.tree.frames pt (omega (arith, last)) in
    record {
      nonzero = omega arith;
      tree = λ entry. written-IsTree at' root t pt (pt_i virt) entry down.tree last (pt_i-lt virt);
      free = free;
      total = down.grown.total;
      reached = λ entry u e.
          let same =
            written_walk at' root t pt (pt_i virt) entry down.tree last (pt_i-lt virt)
              (indices_of virt) root placed' (indices-IsWalk at' root t virt down.tree) in
          rw (e, same, down.reached) nonzero;
      change = λ entry u.
          let same : entry_for root u t ≡ entry_for root u s =
            entry_for-entry_at at' root t u down.tree
            ∙ down.grown.entries (indices_of u) (pt_i u) root placed
                (indices-IsWalk at root s u tree) (pt_i-lt u)
            ∙ sym (entry_for-entry_at at root s u tree) in
          rw (sym same) (
            written_page at' root t pt (pt_i virt) entry down.tree last (pt_i-lt virt) virt u
              (sym down.reached) refl);
    }

-- Where the last table of the page is there, the walk makes none.
stay_there :
    (at : Places) (root : ℕ) (s : Vmm) (virt : ℕ)
    → IsTree at root s
    → walk (indices_of virt) root s.words ≢ 0
    → Descended at root s (indices_of virt) root (walk (indices_of virt) root s.words) at s
stay_there at root s virt tree n = record {
  tree = tree;
  grown = record {
    same = λ x h. refl;
    stay = λ x j h b p. refl;
    entries = λ is j x h w b. refl;
    free = omega arith;
    total = refl;
  };
  place =
      walk_place at root s tree (indices_of virt) root (root_nonzero at root s tree)
        (indices-IsWalk at root s virt tree) n;
  reached = refl;
}

down_nonzero :
    (at : Places) (root : ℕ) (s : Vmm) (virt pt : ℕ) (at' : Places) (t : Vmm)
    → IsTree at root s
    → Descended at root s (indices_of virt) root pt at' t
    → pt ≢ 0
down_nonzero at root s virt pt at' t tree down =
    let deep : at' pt ≡ place_after (indices_of virt) 1 = rw tree.rooted at down.place in
    let (nonzero, _) = down.tree.frames pt (omega (arith, deep_enough virt (at' pt) deep)) in
    nonzero

pub prepare :
    (at : Places) (root : ℕ) (s : Vmm) (virt flags : ℕ)
    → IsTree at root s
    → (pte_for_root root virt true (flags / 4 % 2 * 4) s ≡ none)
        × (s.pmm.free_page_count + spared root virt s ≤ low_reserved_pages + 3)
      ⊎ (pte : ℕ) × (t : Vmm) × (at' : Places) × (pte_for_root root virt true (flags / 4 % 2 * 4) s
          ≡ some (pte, t))
        × Prepared at root s virt pte at' t
unfolding pte_for_root
prepare at root s virt flags tree =
    let placed = root_nonzero at root s tree in
    let walked = indices-IsWalk at root s virt tree in
    let pt = walk (indices_of virt) root s.words in
    elim (Bool-cases (pt == 0)) [
      | inl z ↦ elim (descend_create at root s (indices_of virt) root flags tree placed walked) [
        | inl (e, full) ↦ inl (ground (arith, e), ground arith)
        | inr (last, t, at', e, down) ↦
            let nonzero = down_nonzero at root s virt last at' t tree down in
            inr (
              slot last (pt_i virt),
              t,
              at',
              ground (arith, e, nonzero),
              Prepared-of at root s virt last at' t tree down (ground (arith, down.grown.free)),
            )
      ]
      | inr n ↦
          let e =
            descend_found at root s tree (indices_of virt) root (flags / 4 % 2 * 4) placed walked
              (ground arith) in
          inr (
            slot pt (pt_i virt),
            s,
            at,
            ground (arith, e),
            Prepared-of at root s virt pt at s tree (stay_there at root s virt tree (ground arith))
                (ground arith),
          )
    ]
