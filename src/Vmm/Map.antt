-- ===== src/Vmm/Map.antt =====
-- map_in_root of kernel/vmm.c, as a change of the map from pages to entries.
use ore_os.Base.{
  Bool-cases, add64, ap, arith, if◌then◌else◌, in_range, inl, inr, none, refl, some, suc, true,
  zero, ℕ, ◌%◌, ◌*◌, ◌+◌, ◌-◌, ◌/◌, ◌<◌, ◌==◌, ◌^◌, ◌∙◌, ◌≡◌, ◌≢◌, ◌≤◌, ◌⊎◌,
}
use ore_os.Pmm.{low_reserved_pages}
use ore_os.Vmm.{
  Vmm, align_page_up, entry_for, indices_of, map_in_root, map_pages, page_entry, page_of,
  page_rounds, pd_i, pdpt_i, pml4_i, write_word,
}
use ore_os.Vmm.Tree.{IsTree, Places}
use ore_os.Vmm.Prepare.{prepare, spared}
use ore_os.Vmm.Leaf.{page_number}

-- The `n` pages from the page `first` on have the entries `value 0`, `value 1` and so on, and every
-- other page has the entry that it had.
abbrev pub Changed : (root : ℕ) → (s t : Vmm) → (first n : ℕ) → (value : ℕ → ℕ) → Type 0
Changed root s t first n value =
    (u : ℕ)
    → entry_for root u t ≡ (
        if in_range first n (page_number u)
        then value (page_number u - first)
        else entry_for root u s)

-- The pages from `addr` on are mapped to the frames from `phys` on.
abbrev pub frames_from : (phys flags index : ℕ) → ℕ
frames_from phys flags index = page_entry (add64 phys (4096 * index)) flags

frames_from_zero :
    (phys flags : ℕ) → phys < 2 ^ 64 → frames_from phys flags 0 ≡ page_entry phys flags
frames_from_zero phys flags p = ap (λ a. page_entry a flags) (omega arith)

frames_from-suc :
    (phys flags k : ℕ) → frames_from (add64 phys 4096) flags k ≡ frames_from phys flags (suc k)
frames_from-suc phys flags k = ap (λ a. page_entry a flags) (omega arith)

page_number-suc :
    (addr n : ℕ) → addr + 4096 * suc n < 2 ^ 48 → page_number (addr + 4096) ≡ page_number addr + 1
page_number-suc addr n hi = omega arith

-- The change of one page, then that of the `n` pages after it.
changed_cons :
    (p first n after between before : ℕ) (value value' : ℕ → ℕ)
    → after ≡ (if in_range (first + 1) n p then value' (p - (first + 1)) else between)
    → between ≡ (if p == first then value 0 else before)
    → ((k : ℕ) → k < n → value' k ≡ value (suc k))
    → after ≡ (if in_range first (suc n) p then value (p - first) else before)
changed_cons p first n after between before value value' ea eb ev =
    elim (Bool-cases (in_range (first + 1) n p)) [
      | inl i ↦
          let next : p - first ≡ suc (p - (first + 1)) = ground arith in
          ground (arith, ev (p - (first + 1)) (ground arith), ap value next)
      | inr o ↦ elim (Bool-cases (p == first)) [
        | inl here ↦ let start : p - first ≡ 0 = ground arith in ground (arith, ap value start)
        | inr other ↦ ground arith
      ]
    ]

pub Changed-step :
    (root addr n : ℕ) (s t v : Vmm) (value value' : ℕ → ℕ)
    → addr + 4096 * suc n < 2 ^ 48
    → Changed root t v (page_number (addr + 4096)) n value'
    → ((u : ℕ)
        → entry_for root u t
          ≡ (if page_number u == page_number addr then value 0 else entry_for root u s))
    → ((k : ℕ) → k < n → value' k ≡ value (suc k))
    → Changed root s v (page_number addr) (suc n) value
Changed-step root addr n s t v value value' hi changed here shifted u =
    changed_cons (page_number u) (page_number addr) n (entry_for root u v) (entry_for root u t)
      (entry_for root u s) value value' (rw (page_number-suc addr n hi) at (changed u)) (here u)
      shifted

-- The regions of 512 pages, each below one last table, from that of the page `page` to that of the page
-- `n` pages after it.
abbrev pub regions : (page n : ℕ) → ℕ
regions page n = (page + n) / 512 - page / 512 + 1

indices_next :
    (addr : ℕ)
    → addr + 4096 < 2 ^ 48
    → (addr / 4096 + 1) / 512 ≡ addr / 4096 / 512
    → indices_of (addr + 4096) ≡ indices_of addr
unfolding pml4_i pdpt_i pd_i
indices_next addr hi same =
    let a : (addr + 4096) / 2 ^ 39 % 512 ≡ addr / 2 ^ 39 % 512 = omega arith in
    let b : (addr + 4096) / 2 ^ 30 % 512 ≡ addr / 2 ^ 30 % 512 = omega arith in
    let c : (addr + 4096) / 2 ^ 21 % 512 ≡ addr / 2 ^ 21 % 512 = omega arith in cc

-- The pages that the allocator had before one page, from those that it had after it: `first` and
-- `next` are what is spared at the page and at the next one.
rooms :
    (addr n before after first next rest : ℕ)
    → before + first ≤ after + 3
    → after + next ≤ rest + 3 * regions ((addr + 4096) / 4096) n
    → ((addr / 4096 + 1) / 512 ≡ addr / 4096 / 512 → next ≡ 3)
    → before + first ≤ rest + 3 * regions (addr / 4096) (suc n)
rooms addr n before after first next rest one later same =
    elim (Bool-cases ((addr / 4096 + 1) / 512 == addr / 4096 / 512)) [
      | inl e ↦ let three = same (ground arith) in omega arith
      | inr ne ↦
          let step : (addr / 4096 + 1) / 512 ≢ addr / 4096 / 512 = ground arith in omega arith
    ]

pub map_pages_lem :
    (at : Places) (root n addr phys flags : ℕ) (s : Vmm)
    → IsTree at root s
    → addr + 4096 * n < 2 ^ 48
    → phys < 2 ^ 64
    → let tables = 3 * regions (addr / 4096) n in
      (map_pages root n addr phys flags s ≡ none)
        × (s.pmm.free_page_count + spared root addr s ≤ low_reserved_pages + tables)
      ⊎ (t : Vmm) × (at' : Places) × (map_pages root n addr phys flags s ≡ some (true, t))
        × IsTree at' root t
        × Changed root s t (page_number addr) n (frames_from phys flags)
        × (s.pmm.free_page_count + spared root addr s ≤ t.pmm.free_page_count + tables)
        × (t.pmm.total_page_count ≡ s.pmm.total_page_count)
unfolding map_pages
map_pages_lem at root zero addr phys flags s tree hi p =
    inr (s, at, refl, tree, λ u. ground arith, ground arith, refl)
map_pages_lem at root (suc n) addr phys flags s tree hi p =
    elim (prepare at root s addr flags tree) [
      | inl (e, full) ↦ inl (ground (arith, e), omega (arith, full))
      | inr (pte, t, at', e, ready) ↦
          let t' = write_word pte (page_entry phys flags) t in
          let next : (addr / 4096 + 1) / 512 ≡ addr / 4096 / 512
              → spared root (addr + 4096) t' ≡ 3 =
            λ same.
              let kept =
                ready.reached (page_entry phys flags) (addr + 4096)
                  (indices_next addr (omega arith) same) in
              ground arith in
          elim (map_pages_lem at' root n (addr + 4096) (add64 phys 4096) flags t'
            (ready.tree (page_entry phys flags)) (omega arith) (omega arith)) [
              | inl (e', full) ↦ inl (
                ground (arith, e, e', ready.nonzero),
                rooms addr n _ _ _ _ _ ready.free full next,
              )
              | inr (v, at'', e', tree', changed, free, total) ↦ inr (
                v,
                at'',
                ground (arith, e, e', ready.nonzero),
                tree',
                Changed-step root addr n s t' v (frames_from phys flags)
                    (frames_from (add64 phys 4096) flags) hi changed
                    (λ u.
                      rw (frames_from_zero phys flags p) (ready.change (page_entry phys flags) u))
                    (λ k b. frames_from-suc phys flags k),
                rooms addr n _ _ _ _ _ ready.free free next,
                total ∙ ready.total,
              )
            ]
    ]

pub page_number-page_of : (virt : ℕ) → page_number (page_of virt) ≡ page_number virt
unfolding page_of
page_number-page_of virt = omega arith

page_of_page : (virt : ℕ) → page_of virt / 4096 ≡ virt / 4096
unfolding page_of
page_of_page virt = omega arith

page_of_word : (phys : ℕ) → phys < 2 ^ 64 → page_of phys < 2 ^ 64
unfolding page_of
page_of_word phys p = omega arith

pub page_rounds_end :
    (virt size : ℕ)
    → virt + size ≤ 2 ^ 48 - 4096
    → page_of virt + 4096 * page_rounds virt size < 2 ^ 48
unfolding page_rounds page_of align_page_up
page_rounds_end virt size h = omega arith

-- In a tree of page tables, for a range of addresses that ends below 2^48 by at least a page,
-- map_in_root either panics, and then at most the pages of the low megabyte and three for each region of
-- 512 pages up to the end of the range are free, or it returns 0, keeps the tree, gives the pages of the
-- range the entries of the frames from the page of `phys` on, leaves the entry of every other page as it
-- was, and takes at most three pages for each region.
pub map_in_root_lem :
    (at : Places) (root virt phys size flags : ℕ) (s : Vmm)
    → IsTree at root s
    → virt + size ≤ 2 ^ 48 - 4096
    → phys < 2 ^ 64
    → let tables = 3 * regions (virt / 4096) (page_rounds virt size) in
      (map_in_root root virt phys size flags s ≡ none)
        × (s.pmm.free_page_count ≤ low_reserved_pages + tables)
      ⊎ (t : Vmm) × (at' : Places) × (map_in_root root virt phys size flags s ≡ some (true, t))
        × IsTree at' root t
        × Changed root s t
            (page_number virt)
            (page_rounds virt size)
            (frames_from (page_of phys) flags)
        × (s.pmm.free_page_count ≤ t.pmm.free_page_count + tables)
        × (t.pmm.total_page_count ≡ s.pmm.total_page_count)
unfolding map_in_root
map_in_root_lem at root virt phys size flags s tree h p =
    let same : page_number (page_of virt) ≡ page_number virt = page_number-page_of virt in
    elim (map_pages_lem at root (page_rounds virt size) (page_of virt) (page_of phys) flags s tree
      (page_rounds_end virt size h) (page_of_word phys p)) [
        | inl (e, full) ↦ inl (e, omega (arith, full, page_of_page virt))
        | inr (t, at', e, tree', changed, free, total) ↦
            inr
              (t, at', e, tree', rw same at changed, omega (arith, free, page_of_page virt), total)
      ]
