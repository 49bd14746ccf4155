-- ===== src/Vmm/Grow.antt =====
-- next_table of kernel/vmm.c where it may make a table: the tree grows and no page changes.
use ore_os.Base.{
  Bool-cases, List, [], ap, arith, false, inl, inr, refl, sym, true, update, ℕ, ◌&&◌, ◌+◌, ◌/◌, ◌<◌,
  ◌==◌, ◌∙◌, ◌∷◌, ◌≡◌, ◌≢◌, ◌≤◌, ◌⊎◌,
}
use ore_os.Vmm.{Vmm, addr_of, is_present, slot}
use ore_os.Vmm.Tree.{IsTree, IsWalk, Places, below, entry_at, last_places}
use ore_os.Vmm.Fresh.{Fresh}

-- The tree `at'` in the state `t` has the tables of `at` in `s`, with their entries that are present,
-- maps every page as before, and took at most `count` pages from the allocator.
pub record Grown (at : Places) (s : Vmm) (at' : Places) (t : Vmm) (count : ℕ) : Type 0 where
  pub same : (x : ℕ) → at x ≢ 0 → at' x ≡ at x
  pub stay :
      (x j : ℕ)
      → at x ≢ 0
      → j < 512
      → is_present (s.words (slot x j)) ≡ true
      → t.words (slot x j) ≡ s.words (slot x j)
  pub entries :
      (is : List ℕ) (j x : ℕ)
      → at x ≢ 0
      → IsWalk is (at x)
      → j < 512
      → entry_at is j x t.words ≡ entry_at is j x s.words
  pub free : s.pmm.free_page_count ≤ t.pmm.free_page_count + count
  pub total : t.pmm.total_page_count ≡ s.pmm.total_page_count

pub Grown-refl : (at : Places) (s : Vmm) → Grown at s at s 0
Grown-refl at s = record {
  same = λ x h. refl;
  stay = λ x j h b p. refl;
  entries = λ is j x h w b. refl;
  free = omega arith;
  total = refl;
}

pub Grown-trans :
    {at at' at'' : Places} {s t u : Vmm} {m n k : ℕ}
    → Grown at s at' t m
    → Grown at' t at'' u n
    → k ≡ m + n
    → Grown at s at'' u k
Grown-trans g h sum = record {
  same = λ x p. h.same x (rw (g.same x p) p) ∙ g.same x p;
  stay = λ x j p b q. h.stay x j (rw (g.same x p) p) b (rw (g.stay x j p b q) q) ∙ g.stay x j p b q;
  entries = λ is j x p w b.
      h.entries is j x (rw (g.same x p) p) (rw (g.same x p) w) b ∙ g.entries is j x p w b;
  free = omega (arith, g.free, h.free, sum);
  total = h.total ∙ g.total;
}

-- What a call of next_table does that gives the table `child`.
pub record Stepped (at : Places) (root : ℕ) (s : Vmm) (table index child : ℕ) (at' : Places)
    (t : Vmm) : Type 0 where
  pub tree : IsTree at' root t
  pub grown : Grown at s at' t 1
  pub place : at' child ≡ below (at table) index
  pub present : is_present (t.words (slot table index)) ≡ true
  pub leads : addr_of (t.words (slot table index)) ≡ child

-- The new table `child` under the entry `index` of `table`.
module _ (at : Places) (root : ℕ) (s : Vmm) (table index child : ℕ) (t : Vmm) (entry : ℕ)
    (tree : IsTree at root s) (placed : at table ≢ 0) (upper : at table < last_places)
    (bound : index < 512) (absent : is_present (s.words (slot table index)) ≡ false)
    (fresh : Fresh s child t) (present : is_present entry ≡ true)
    (leads : addr_of entry ≡ child) where
  at' : Places
  at' = update at child (below (at table) index)

  t' : Vmm
  t' = record t { words = update t.words (slot table index) entry }

  child_new : at child ≡ 0
  child_new = elim (Bool-cases (at child == 0)) [
    | inl z ↦ ground arith
    | inr n ↦ absurd (ground (arith, tree.taken child (ground arith), fresh.was_free))
  ]

  at'-old : (x : ℕ) → at x ≢ 0 → at' x ≡ at x
  unfolding at'
  at'-old x h = let differs : child ≢ x = λ e. h (sym (ap at e) ∙ child_new) in ground arith

  at'-child : at' child ≡ below (at table) index
  unfolding at'
  at'-child = ground arith

  at'-cases : (x : ℕ) → at' x ≢ 0 → (x ≡ child) ⊎ (at x ≢ 0)
  unfolding at'
  at'-cases x h = elim (Bool-cases (child == x)) [
    | inl e ↦ inl (ground arith)
    | inr e ↦ inr (ground arith)
  ]

  word_other :
      (x j : ℕ)
      → at x ≢ 0
      → j < 512
      → (x == table && j == index) ≡ false
      → t'.words (slot x j) ≡ s.words (slot x j)
  unfolding t'
  word_other x j h b ne =
      let (_, fx) = tree.frames x h in
      let (_, ft) = tree.frames table placed in
      let differs : x ≢ child = λ e. h (ap at e ∙ child_new) in
      ground (arith, fresh.others x j (omega arith) differs b)

  word_here : t'.words (slot table index) ≡ entry
  unfolding t'
  word_here = ground arith

  word_child : (j : ℕ) → j < 512 → t'.words (slot child j) ≡ 0
  unfolding t'
  word_child j b =
      let (_, ft) = tree.frames table placed in
      let differs : table ≢ child = λ e. placed (ap at e ∙ child_new) in
      let fc = fresh.frame in ground (arith, fresh.empty j b)

  empty_absent : (x j : ℕ) → x ≡ child → j < 512 → is_present (t'.words (slot x j)) ≢ true
  unfolding is_present
  empty_absent x j e b p = ground (arith, word_child j b)

  new_leads :
      (x j : ℕ)
      → at' x ≢ 0
      → at' x < last_places
      → j < 512
      → is_present (t'.words (slot x j)) ≡ true
      → at' (addr_of (t'.words (slot x j))) ≡ below (at' x) j
  new_leads x j h l b p = elim (at'-cases x h) [
    | inl e ↦ absurd (empty_absent x j e b p)
    | inr old ↦ elim (Bool-cases (x == table && j == index)) [
      | inl here ↦
          let ex : x ≡ table = ground arith in
          let ej : j ≡ index = ground arith in
          rw (ex, ej, word_here, leads, at'-child, at'-old table placed) refl
      | inr other ↦
          let same = word_other x j old b other in
          let before = tree.leads x j old (rw (sym (at'-old x old)) l) b (rw (sym same) p) in
          let placed_below : at (addr_of (s.words (slot x j))) ≢ 0 = omega (arith, before) in
          rw (same, at'-old x old) (at'-old (addr_of (s.words (slot x j))) placed_below ∙ before)
    ]
  ]

  new-IsTree : IsTree at' root t'
  unfolding at' t'
  new-IsTree = record {
    rooted = at'-old root (omega (arith, tree.rooted)) ∙ tree.rooted;
    leads = new_leads;
    frames = λ x h. elim (at'-cases x h) [
      | inl e ↦ rw e (fresh.nonzero, fresh.frame)
      | inr old ↦ tree.frames x old
    ];
    taken = λ x h. elim (at'-cases x h) [
      | inl e ↦ rw e fresh.now_taken
      | inr old ↦ fresh.still_taken (x / 4096) (tree.taken x old)
    ];
    valid = fresh.valid;
    physical = omega (arith, fresh.total, tree.physical);
  }

  empty_entry :
      (is : List ℕ) (j : ℕ) → IsWalk is (at' child) → j < 512 → entry_at is j child t'.words ≡ 0
  unfolding entry_at is_present
  empty_entry [] j w b = word_child j b
  empty_entry (i ∷ is) j (bi, l, w) b = ground (arith, word_child i bi)

  new_entries :
      (is : List ℕ) (j x : ℕ)
      → at x ≢ 0
      → IsWalk is (at x)
      → j < 512
      → entry_at is j x t'.words ≡ entry_at is j x s.words
  unfolding entry_at
  new_entries [] j x h w b = word_other x j h b (ground arith)
  new_entries (i ∷ is) j x h (bi, l, w) b = elim (Bool-cases (x == table && i == index)) [
    | inl here ↦
        let ex : x ≡ table = ground arith in
        let ei : i ≡ index = ground arith in
        let wc : IsWalk is (at' child) = rw (at'-child) (rw (ex, ei) at w) in
        rw (ex, ei, word_here, present, absent, leads) (empty_entry is j wc b)
    | inr other ↦
        let same = word_other x i h bi other in
        rw same (elim (Bool-cases (is_present (s.words (slot x i)))) [
          | inl p ↦
              let leads_on = tree.leads x i h l bi p in
              let placed_below : at (addr_of (s.words (slot x i))) ≢ 0 = omega (arith, leads_on) in
              rw p (new_entries is j (addr_of (s.words (slot x i))) placed_below (rw leads_on w) b)
          | inr a ↦ rw a refl
        ])
  ]

  not_here : (x j : ℕ) → is_present (s.words (slot x j)) ≡ true → (x == table && j == index) ≡ false
  not_here x j p = elim (Bool-cases (x == table && j == index)) [
    | inl here ↦
        let ex : x ≡ table = ground arith in
        let ej : j ≡ index = ground arith in
        let q : is_present (s.words (slot table index)) ≡ true = (rw (ex, ej) at p) in
        absurd (ground (arith, absent))
    | inr other ↦ other
  ]

  new-Grown : Grown at s at' t' 1
  unfolding at' t'
  new-Grown = record {
    same = at'-old;
    stay = λ x j h b p. word_other x j h b (not_here x j p);
    entries = new_entries;
    free = omega (arith, fresh.free);
    total = fresh.total;
  }

  pub new-Stepped :
      Stepped at root s table index child
        (update at child (below (at table) index))
        (record t { words = update t.words (slot table index) entry })
  unfolding at' t'
  new-Stepped = record {
    tree = new-IsTree;
    grown = new-Grown;
    place = at'-child;
    present = rw word_here present;
    leads = rw word_here leads;
  }
