-- ===== src/Vmm/Protect.antt =====
-- protect_in_root of kernel/vmm.c, as a change of the map from pages to entries.
use ore_os.Vmm.Entry.{zero_absent}
use ore_os.Base.{
  Bool-cases, ap, arith, false, if◌then◌else◌, inl, inr, refl, some, suc, sym, true, zero, ℕ, ◌*◌,
  ◌+◌, ◌-◌, ◌<◌, ◌==◌, ◌^◌, ◌∙◌, ◌≡◌, ◌≤◌,
}
use ore_os.Vmm.{
  Vmm, entry_for, is_present, page_entry, page_of, page_rounds, protect_in_root, protect_pages,
  write_word,
}
use ore_os.Vmm.Tree.{IsTree, Places}
use ore_os.Vmm.Leaf.{page_number}
use ore_os.Vmm.Map.{Changed, Changed-step, page_number-page_of, page_rounds_end}
use ore_os.Vmm.Change.{Found, find_entry}

-- The entries that protect_in_root gives the pages from `addr` on.
pub protected_from : (root : ℕ) → Vmm → (addr flags index : ℕ) → ℕ
unfolding page_entry
protected_from root s addr flags index = page_entry (entry_for root (addr + 4096 * index) s) flags

-- `count` pages from the page of `addr` on got the new flags; the loop over `n` pages ended there.
pub record Protected (at : Places) (root n addr flags : ℕ) (s t : Vmm) (count : ℕ) : Type 0 where
  pub within : count ≤ n
  pub result : protect_pages root n addr flags s ≡ some (count == n, t)
  pub tree : IsTree at root t
  pub present : (k : ℕ) → k < count → is_present (entry_for root (addr + 4096 * k) s) ≡ true
  pub stopped : count < n → is_present (entry_for root (addr + 4096 * count) s) ≡ false
  pub changed : Changed root s t (page_number addr) count (protected_from root s addr flags)

at_zero : (addr : ℕ) → addr + 4096 * 0 ≡ addr
at_zero addr = omega arith

-- A page below the next ones that the loop visits keeps its entry under the write for the page of
-- `addr`.
later_same :
    (root addr n k : ℕ) (s t : Vmm) (value : ℕ)
    → addr + 4096 * suc n < 2 ^ 48
    → k < n
    → ((u : ℕ)
        → entry_for root u t
          ≡ (if page_number u == page_number addr then value else entry_for root u s))
    → entry_for root (addr + 4096 + 4096 * k) t ≡ entry_for root (addr + 4096 * suc k) s
later_same root addr n k s t value hi b change =
    let next : addr + 4096 + 4096 * k ≡ addr + 4096 * suc k = omega arith in
    rw next (ground (arith, change (addr + 4096 * suc k)))

-- A predicate at 0 and at the numbers after it.
below_suc :
    (P : ℕ → Type 0) (n : ℕ) → P 0 → ((k : ℕ) → k < n → P (suc k)) → (k : ℕ) → k < suc n → P k
below_suc P n first later zero b = first
below_suc P n first later (suc k) b = later k (omega arith)

protect_stop :
    (at : Places) (root n addr flags : ℕ) (s : Vmm)
    → IsTree at root s
    → is_present (entry_for root addr s) ≡ false
    → protect_pages root (suc n) addr flags s ≡ some (false, s)
    → Protected at root (suc n) addr flags s s 0
protect_stop at root n addr flags s tree absent e = record {
  within = omega arith;
  result = ground (arith, e);
  tree = tree;
  present = λ k b. absurd (omega arith);
  stopped = λ b. rw (at_zero addr) absent;
  changed = λ u. ground arith;
}

protected_first :
    (at : Places) (root addr flags pte : ℕ) (s : Vmm)
    → Found at root s addr pte
    → (u : ℕ)
    → entry_for root u (write_word pte (page_entry (s.words pte) flags) s) ≡ (
        if page_number u == page_number addr
        then protected_from root s addr flags 0
        else entry_for root u s)
unfolding protected_from
protected_first at root addr flags pte s found u =
    rw (at_zero addr, sym found.entry) (found.change (page_entry (s.words pte) flags) u)

protected_later :
    (root addr flags k : ℕ) (s t : Vmm)
    → entry_for root (addr + 4096 + 4096 * k) t ≡ entry_for root (addr + 4096 * suc k) s
    → protected_from root t (addr + 4096) flags k ≡ protected_from root s addr flags (suc k)
unfolding protected_from
protected_later root addr flags k s t e = ap (λ entry. page_entry entry flags) e

protect_pages_lem :
    (at : Places) (root n addr flags : ℕ) (s : Vmm)
    → IsTree at root s
    → addr + 4096 * n < 2 ^ 48
    → (count : ℕ) × (t : Vmm) × Protected at root n addr flags s t count
unfolding protect_pages
protect_pages_lem at root zero addr flags s tree hi = (
  0,
  s,
  record {
    within = omega arith;
    result = refl;
    tree = tree;
    present = λ k b. absurd (omega arith);
    stopped = λ b. absurd (omega arith);
    changed = λ u. ground arith;
  },
)
protect_pages_lem at root (suc n) addr flags s tree hi = elim (find_entry at root s addr tree) [
  | inl (e, absent) ↦ (
    0,
    s,
    protect_stop at root n addr flags s tree (ap is_present absent ∙ zero_absent)
        (ground (arith, e)),
  )
  | inr (pte, nonzero, e, found) ↦ elim (Bool-cases (is_present (s.words pte))) [
    | inr a ↦ (
      0,
      s,
      protect_stop at root n addr flags s tree (rw found.entry at a) (ground (arith, e, a)),
    )
    | inl p ↦
        let s' = write_word pte (page_entry (s.words pte) flags) s in
        let (count, t, rest) =
          protect_pages_lem at root n (addr + 4096) flags s'
            (found.tree (page_entry (s.words pte) flags)) (omega arith) in
        let kept = λ (k : ℕ) (b : k < n).
          later_same root addr n k s s' (page_entry (s.words pte) flags) hi b
            (found.change (page_entry (s.words pte) flags)) in
        (
          suc count,
          t,
          record {
            within = omega (arith, rest.within);
            result = ground (arith, e, p, nonzero, rest.result);
            tree = rest.tree;
            present =
                below_suc (λ k. is_present (entry_for root (addr + 4096 * k) s) ≡ true) count
                  (rw (at_zero addr, sym found.entry) p)
                  (λ k b. rw (kept k (omega (arith, rest.within))) at (rest.present k b));
            stopped = λ b. rw (kept count (omega arith)) at (rest.stopped (omega arith));
            changed =
                Changed-step root addr count s s' t (protected_from root s addr flags)
                  (protected_from root s' (addr + 4096) flags) (omega (arith, rest.within))
                  rest.changed (protected_first at root addr flags pte s found)
                  (λ k b.
                    protected_later root addr flags k s s' (kept k (omega (arith, rest.within))));
          },
        )
  ]
]

-- In a tree of page tables, for a range of addresses that ends below 2^48 by at least a page,
-- protect_in_root returns, keeps the tree, and gives new flags to the pages of the range up to the
-- first one that is not present: it returns 0 when all are present, and -1 otherwise, and then the
-- pages before that one have changed. Every other page keeps its entry.
pub protect_in_root_lem :
    (at : Places) (root virt size flags : ℕ) (s : Vmm)
    → IsTree at root s
    → virt + size ≤ 2 ^ 48 - 4096
    → let n = page_rounds virt size in
      let entry = λ (k : ℕ). entry_for root (page_of virt + 4096 * k) s in
      (count : ℕ) × (t : Vmm) × (count ≤ n)
      × (protect_in_root root virt size flags s ≡ some (count == n, t))
      × IsTree at root t
      × ((k : ℕ) → k < count → is_present (entry k) ≡ true)
      × (count < n → is_present (entry count) ≡ false)
      × Changed root s t (page_number virt) count (λ k. page_entry (entry k) flags)
unfolding protect_in_root protected_from
protect_in_root_lem at root virt size flags s tree h =
    let n = page_rounds virt size in
    let (count, t, p) =
      protect_pages_lem at root n (page_of virt) flags s tree (page_rounds_end virt size h) in
    (
      count,
      t,
      p.within,
      p.result,
      p.tree,
      p.present,
      p.stopped,
      rw (page_number-page_of virt) at p.changed,
    )
