-- ===== src/Vmm/Tree.antt =====
-- Page tables of kernel/vmm.c as a tree: which table stands where, and what a walk down reads.
use ore_os.Base.{List, [], if◌then◌else◌, true, ℕ, ◌*◌, ◌+◌, ◌/◌, ◌<◌, ◌^◌, ◌∷◌, ◌≡◌, ◌≢◌, ◌≤◌}
use ore_os.Pmm.{bitmap_test}
use ore_os.Pmm.Invariant.{IsValid}
use ore_os.Vmm.{Vmm, addr_of, is_present, slot}
use ore_os.Vmm.Entry.{IsFrame}

-- Where a table stands: the root at 1, the table that entry `i` of the table at `c` leads to at
-- `c * 512 + i`, and 0 for an address that holds no table of this tree.
abbrev pub Places : Type 0
Places = ℕ → ℕ

abbrev pub below : ℕ → ℕ → ℕ
below place index = place * 512 + index

-- The place after the walk down through some indices.
abbrev pub place_after : List ℕ → ℕ → ℕ
place_after [] place = place
place_after (i ∷ is) place = place_after is (below place i)

-- A place of the last level.
abbrev pub last_places : ℕ
last_places = 2 ^ 27

-- The tables of one tree in memory: every entry of a table above the last level that is present leads
-- to the table that stands there, and the tables are pages that the page allocator does not have.
pub record IsTree (at : Places) (root : ℕ) (s : Vmm) : Type 0 where
  pub rooted : at root ≡ 1
  pub leads :
      (table index : ℕ)
      → at table ≢ 0
      → at table < last_places
      → index < 512
      → is_present (s.words (slot table index)) ≡ true
      → at (addr_of (s.words (slot table index))) ≡ below (at table) index
  pub frames : (table : ℕ) → at table ≢ 0 → (table ≢ 0) × IsFrame table
  pub taken : (table : ℕ) → at table ≢ 0 → bitmap_test s.pmm (table / 4096) ≡ true
  pub valid : IsValid s.pmm
  pub physical : s.pmm.total_page_count ≤ 2 ^ 40

-- What the walk of pte_for_root reads when it makes no table: the last table, 0 if one is missing.
unfoldable pub walk : List ℕ → (table : ℕ) → (ℕ → ℕ) → ℕ
walk [] table words = table
walk (i ∷ is) table words =
    let rest = walk is (addr_of (words (slot table i))) words in
    if is_present (words (slot table i)) then rest else 0

-- The entry that the walk leads to, 0 if a table is missing.
unfoldable pub entry_at : List ℕ → (index table : ℕ) → (ℕ → ℕ) → ℕ
entry_at [] index table words = words (slot table index)
entry_at (i ∷ is) index table words =
    let rest = entry_at is index (addr_of (words (slot table i))) words in
    if is_present (words (slot table i)) then rest else 0

-- The walk leads from the place `place` to one of the last level, by indices of tables.
abbrev pub IsWalk : List ℕ → ℕ → Type 0
IsWalk [] place = (last_places ≤ place) × (place < 2 * last_places)
IsWalk (i ∷ is) place = (i < 512) × (place < last_places) × IsWalk is (below place i)
