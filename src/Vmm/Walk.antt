-- ===== src/Vmm/Walk.antt =====
-- The walk of kernel/vmm.c that makes no table, in a tree of tables.
use ore_os.Base.{
  Bool-cases, List, [], arith, false, if◌then◌else◌, inl, inr, refl, some, true, ℕ, ◌<◌, ◌==◌, ◌∷◌,
  ◌≡◌, ◌≢◌,
}
use ore_os.Vmm.{Vmm, addr_of, descend, is_present, next_table, slot}
use ore_os.Vmm.Tree.{IsTree, IsWalk, Places, entry_at, last_places, place_after, walk}

module _ (at : Places) (root : ℕ) (s : Vmm) (tree : IsTree at root s) where
  -- The table that a present entry leads to.
  pub child_lem :
      (table i : ℕ)
      → at table ≢ 0
      → at table < last_places
      → i < 512
      → is_present (s.words (slot table i)) ≡ true
      → (at (addr_of (s.words (slot table i))) ≢ 0) × (addr_of (s.words (slot table i)) ≢ 0)
  child_lem table i h l b p =
      let here = tree.leads table i h l b p in
      let placed : at (addr_of (s.words (slot table i))) ≢ 0 = omega (arith, here) in
      let (nonzero, _) = tree.frames _ placed in (placed, nonzero)

  pub descend_read :
      (is : List ℕ) (table flags : ℕ)
      → at table ≢ 0
      → IsWalk is (at table)
      → descend is table false flags s ≡ some (walk is table s.words, s)
  unfolding descend next_table walk
  descend_read [] table flags h w = refl
  descend_read (i ∷ is) table flags h (b, l, w) =
      elim (Bool-cases (is_present (s.words (slot table i)))) [
        | inl p ↦
            let (placed, nonzero) = child_lem table i h l b p in
            let ih =
              descend_read is (addr_of (s.words (slot table i))) flags placed
                (rw (tree.leads table i h l b p) w) in
            ground (arith, ih)
        | inr p ↦ ground arith
      ]

  pub walk_place :
      (is : List ℕ) (table : ℕ)
      → at table ≢ 0
      → IsWalk is (at table)
      → walk is table s.words ≢ 0
      → at (walk is table s.words) ≡ place_after is (at table)
  unfolding walk
  walk_place [] table h w n = refl
  walk_place (i ∷ is) table h (b, l, w) n =
      elim (Bool-cases (is_present (s.words (slot table i)))) [
        | inl p ↦
            let (placed, nonzero) = child_lem table i h l b p in
            let leads = tree.leads table i h l b p in
            let ih = walk_place is (addr_of (s.words (slot table i))) placed (rw leads w) in
            ground (arith, ih, leads)
        | inr p ↦ absurd (ground arith)
      ]

  pub entry_at-walk :
      (is : List ℕ) (j table : ℕ)
      → at table ≢ 0
      → IsWalk is (at table)
      → entry_at is j table s.words
        ≡ (if walk is table s.words == 0 then 0 else s.words (slot (walk is table s.words) j))
  unfolding walk entry_at
  entry_at-walk [] j table h w = let (nonzero, _) = tree.frames table h in ground arith
  entry_at-walk (i ∷ is) j table h (b, l, w) =
      elim (Bool-cases (is_present (s.words (slot table i)))) [
        | inl p ↦
            let (placed, nonzero) = child_lem table i h l b p in
            let leads = tree.leads table i h l b p in
            let ih = entry_at-walk is j (addr_of (s.words (slot table i))) placed (rw leads w) in
            ground (arith, ih)
        | inr p ↦ ground arith
      ]

  -- Where no table is missing, the walk that may make tables makes none.
  pub descend_found :
      (is : List ℕ) (table flags : ℕ)
      → at table ≢ 0
      → IsWalk is (at table)
      → walk is table s.words ≢ 0
      → descend is table true flags s ≡ some (walk is table s.words, s)
  unfolding descend next_table walk
  descend_found [] table flags h w n = refl
  descend_found (i ∷ is) table flags h (b, l, w) n =
      elim (Bool-cases (is_present (s.words (slot table i)))) [
        | inl p ↦
            let (placed, nonzero) = child_lem table i h l b p in
            let ih =
              descend_found is (addr_of (s.words (slot table i))) flags placed
                (rw (tree.leads table i h l b p) w) in
            ground (arith, ih)
        | inr p ↦ absurd (ground arith)
      ]
