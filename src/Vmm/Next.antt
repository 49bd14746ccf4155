-- ===== src/Vmm/Next.antt =====
-- Calls of next_table and of pte_for_root of kernel/vmm.c that may make tables.
use ore_os.Base.{
  Bool-cases, List, [], ap, arith, inl, inr, length, none, refl, some, true, ℕ, ◌%◌, ◌*◌, ◌+◌, ◌/◌,
  ◌<◌, ◌∙◌, ◌∷◌, ◌≡◌, ◌≢◌, ◌≤◌, ◌⊎◌,
}
use ore_os.Pmm.{low_reserved_pages}
use ore_os.Vmm.{Vmm, addr_of, descend, is_present, next_table, slot, table_entry}
use ore_os.Vmm.Entry.{table_entry_lem}
use ore_os.Vmm.Tree.{IsTree, IsWalk, Places, last_places, place_after, walk}
use ore_os.Vmm.Fresh.{new_table_lem}
use ore_os.Vmm.Grow.{Grown, Stepped, Grown-refl, Grown-trans, new-Stepped}

-- A call of next_table for a table above the last level gives the table that stands below, or it
-- panics, and then at most the pages of the low megabyte are free.
next_table_create :
    (at : Places) (root : ℕ) (s : Vmm) (table index flags : ℕ)
    → IsTree at root s
    → at table ≢ 0
    → at table < last_places
    → index < 512
    → (next_table table index true (flags / 4 % 2 * 4) s ≡ none)
        × (s.pmm.free_page_count ≤ low_reserved_pages)
      ⊎ (child : ℕ) × (t : Vmm) × (at' : Places) × (next_table table index true
            (flags / 4 % 2 * 4)
            s
          ≡ some (child, t))
        × Stepped at root s table index child at' t
unfolding next_table
next_table_create at root s table index flags tree h l b =
    elim (Bool-cases (is_present (s.words (slot table index)))) [
      | inl p ↦ inr (
        addr_of (s.words (slot table index)),
        s,
        at,
        ground arith,
        record {
          tree = tree;
          grown = record {
            same = λ x n. refl;
            stay = λ x j n c q. refl;
            entries = λ is j x n w c. refl;
            free = omega arith;
            total = refl;
          };
          place = tree.leads table index h l b p;
          present = p;
          leads = refl;
        },
      )
      | inr absent ↦ elim (new_table_lem s tree.valid tree.physical) [
        | inl (e, full) ↦ inl (ground arith, full)
        | inr (child, t, e, fresh) ↦
            let entry = table_entry child (flags / 4 % 2 * 4) in
            let (present, leads) = table_entry_lem child flags fresh.frame in
            let whole =
              new-Stepped at root s table index child t entry tree h l b absent fresh present
                leads in
            inr (child, _, _, ground (arith, whole.leads), whole)
      ]
    ]

-- The walk down from `table` that may make tables has reached `last`.
pub record Descended (at : Places) (root : ℕ) (s : Vmm) (is : List ℕ) (table last : ℕ)
    (at' : Places) (t : Vmm) : Type 0 where
  pub tree : IsTree at' root t
  pub grown : Grown at s at' t (length is)
  pub place : at' last ≡ place_after is (at table)
  pub reached : walk is table t.words ≡ last

walk_through :
    (i : ℕ) (is : List ℕ) (table child last : ℕ) (words : ℕ → ℕ)
    → is_present (words (slot table i)) ≡ true
    → addr_of (words (slot table i)) ≡ child
    → walk is child words ≡ last
    → walk (i ∷ is) table words ≡ last
unfolding walk
walk_through i is table child last words p l e = rw (p, l) e

pub descend_create :
    (at : Places) (root : ℕ) (s : Vmm) (is : List ℕ) (table flags : ℕ)
    → IsTree at root s
    → at table ≢ 0
    → IsWalk is (at table)
    → (descend is table true (flags / 4 % 2 * 4) s ≡ none)
        × (s.pmm.free_page_count ≤ low_reserved_pages + length is)
      ⊎ (last : ℕ) × (t : Vmm) × (at' : Places) × (descend is table true (flags / 4 % 2 * 4) s
          ≡ some (last, t))
        × Descended at root s is table last at' t
unfolding descend walk
descend_create at root s [] table flags tree h w = inr (
  table,
  s,
  at,
  refl,
  record { tree = tree; grown = Grown-refl at s; place = refl; reached = refl },
)
descend_create at root s (i ∷ is) table flags tree h (b, l, w) =
    elim (next_table_create at root s table i flags tree h l b) [
      | inl (e, full) ↦ inl (ground (arith, e), omega arith)
      | inr (child, t, at', e, step) ↦
          let placed : at' child ≢ 0 = omega (arith, step.place) in
          let (nonzero, _) = step.tree.frames child placed in
          elim (descend_create at' root t is child flags step.tree placed (rw step.place w)) [
            | inl (e', full) ↦ inl (ground (arith, e, e'), omega (arith, step.grown.free))
            | inr (last, u, at'', e', down) ↦
                let kept : u.words (slot table i) ≡ t.words (slot table i) =
                  down.grown.stay table i (rw (step.grown.same table h) h) b step.present in
                inr (
                  last,
                  u,
                  at'',
                  ground (arith, e, e'),
                  record {
                    tree = down.tree;
                    grown = Grown-trans step.grown down.grown (omega arith);
                    place = down.place ∙ ap (place_after is) step.place;
                    reached =
                        walk_through i is table child last u.words (rw kept step.present)
                          (rw kept step.leads) down.reached;
                  },
                )
          ]
    ]
