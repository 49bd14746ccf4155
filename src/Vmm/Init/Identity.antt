-- ===== src/Vmm/Init/Identity.antt =====
-- vmm_init of kernel/vmm.c: the identity map.
use ore_os.Base.{
  Bool, Bool-cases, Option, add64, arith, false, if◌then◌else◌, in_range, inl, inr, mul64, none,
  refl, some, true, ℕ, ◌*◌, ◌+◌, ◌-◌, ◌/◌, ◌<◌, ◌^◌, ◌∙◌, ◌≡◌, ◌≤◌, ◌⊎◌,
}
use ore_os.Pmm.{low_reserved_pages}
use ore_os.Vmm.{Vmm, addr_of, align_page_up, entry_for, is_present, page_of, page_rounds, vmm_write}
use ore_os.Vmm.Init.{map_or_panic}
use ore_os.Vmm.Entry.{IsFlags, page_entry_lem}
use ore_os.Vmm.Tree.{IsTree, Places}
use ore_os.Vmm.Leaf.{page_number}
use ore_os.Vmm.Map.{Changed, frames_from, map_in_root_lem, regions}

-- Every page below `n` has a present entry with its own address.
pub record Online (at : Places) (root n : ℕ) (s : Vmm) : Type 0 where
  pub tree : IsTree at root s
  pub identity :
      (u : ℕ)
      → page_number u < n
      → (is_present (entry_for root u s) ≡ true)
        × (addr_of (entry_for root u s) ≡ page_number u * 4096)

-- A part of vmm_init: it panics where the allocator has too few pages, or keeps the identity.
unfoldable pub Stage : (root n : ℕ) (s : Vmm) → Option Vmm → ℕ → Type 0
Stage root n s result count =
    (result ≡ none) × (s.pmm.free_page_count ≤ low_reserved_pages + count)
    ⊎ (t : Vmm) × (at : Places) × (result ≡ some t)
      × Online at root n t
      × (s.pmm.free_page_count ≤ t.pmm.free_page_count + count)
      × (t.pmm.total_page_count ≡ s.pmm.total_page_count)

unfoldable pub tables_of : (base size : ℕ) → ℕ
unfolding page_rounds
tables_of base size = 3 * regions (base / 4096) (page_rounds base size)

same_frame :
    (base u : ℕ)
    → base < 2 ^ 48
    → page_number base ≤ page_number u
    → addr_of (add64 (page_of base) (4096 * (page_number u - page_number base)))
      ≡ page_number u * 4096
unfolding addr_of page_of
same_frame base u small le = omega arith

-- An identity map of a range gives a page its own address where the page is in the range or had it.
pub identity_entry :
    (root base k flags u : ℕ) (s t : Vmm)
    → base < 2 ^ 48
    → IsFlags flags
    → Changed root s t (page_number base) k (frames_from (page_of base) flags)
    → (in_range (page_number base) k (page_number u) ≡ false
        → (is_present (entry_for root u s) ≡ true)
          × (addr_of (entry_for root u s) ≡ page_number u * 4096))
    → (is_present (entry_for root u t) ≡ true)
      × (addr_of (entry_for root u t) ≡ page_number u * 4096)
identity_entry root base k flags u s t small f changed before =
    elim (Bool-cases (in_range (page_number base) k (page_number u))) [
      | inl i ↦
          let i' : page_number base ≤ page_number u = ground arith in
          let entry : entry_for root u t
              ≡ frames_from (page_of base) flags (page_number u - page_number base) =
            ground (arith, changed u) in
          let (present, address) =
            page_entry_lem (add64 (page_of base) (4096 * (page_number u - page_number base))) flags
              f in
          rw entry (present, address ∙ same_frame base u small i')
      | inr o ↦
          let entry : entry_for root u t ≡ entry_for root u s = ground (arith, changed u) in
          rw entry (before o)
    ]

pub map_or_panic_lem :
    (at : Places) (root base size flags : ℕ) (s : Vmm)
    → IsTree at root s
    → base + size ≤ 2 ^ 48 - 4096
    → (map_or_panic root base size flags s ≡ none)
        × (s.pmm.free_page_count ≤ low_reserved_pages + tables_of base size)
      ⊎ (t : Vmm) × (at' : Places) × (map_or_panic root base size flags s ≡ some t)
        × IsTree at' root t
        × Changed root s t
            (page_number base)
            (page_rounds base size)
            (frames_from (page_of base) flags)
        × (s.pmm.free_page_count ≤ t.pmm.free_page_count + tables_of base size)
        × (t.pmm.total_page_count ≡ s.pmm.total_page_count)
unfolding map_or_panic tables_of
map_or_panic_lem at root base size flags s tree h =
    elim (map_in_root_lem at root base base size flags s tree h (omega arith)) [
      | inl (e, full) ↦ inl (ground (arith, e), full)
      | inr (t, at', e, tree', changed, free, total) ↦
          inr (t, at', ground (arith, e), tree', changed, free, total)
    ]

pub Stage-map :
    (at : Places) (root n base size flags : ℕ) (s : Vmm)
    → Online at root n s
    → base + size ≤ 2 ^ 48 - 4096
    → IsFlags flags
    → Stage root n s (map_or_panic root base size flags s) (tables_of base size)
unfolding Stage
Stage-map at root n base size flags s on h f =
    elim (map_or_panic_lem at root base size flags s on.tree h) [
      | inl stop ↦ inl stop
      | inr (t, at', e, tree', changed, free, total) ↦ inr (
        t,
        at',
        e,
        record {
          tree = tree';
          identity = λ u b.
              identity_entry root base (page_rounds base size) flags u s t (omega arith) f changed
                (λ o. on.identity u b);
        },
        free,
        total,
      )
    ]

pub Stage-optional :
    (at : Places) (root n base size flags : ℕ) (skip : Bool) (s : Vmm)
    → Online at root n s
    → base + size ≤ 2 ^ 48 - 4096
    → IsFlags flags
    → Stage root n s
        (if skip then some s else map_or_panic root base size flags s)
        (tables_of base size)
unfolding Stage
Stage-optional at root n base size flags true s on h f = inr (s, at, refl, on, omega arith, refl)
Stage-optional at root n base size flags false s on h f =
    Stage-map at root n base size flags s on h f

all_pages :
    (n u : ℕ)
    → n * 4096 ≤ 2 ^ 48 - 4096
    → page_number u < n
    → in_range (page_number 0) (page_rounds 0 (n * 4096)) (page_number u) ≡ true
unfolding page_rounds page_of align_page_up
all_pages n u h b = ground arith

-- The first stage maps the pages below the end of memory.
pub identity_map :
    (at : Places) (root n : ℕ) (s : Vmm)
    → IsTree at root s
    → n * 4096 ≤ 2 ^ 48 - 4096
    → Stage root n s (map_or_panic root 0 (mul64 n 4096) vmm_write s) (tables_of 0 (n * 4096))
unfolding Stage
identity_map at root n s tree h =
    let whole : mul64 n 4096 ≡ n * 4096 = omega arith in
    rw whole (elim (map_or_panic_lem at root 0 (n * 4096) vmm_write s tree (omega arith)) [
      | inl stop ↦ inl stop
      | inr (t, at', e, tree', changed, free, total) ↦ inr (
        t,
        at',
        e,
        record {
          tree = tree';
          identity = λ u b.
              identity_entry root 0 (page_rounds 0 (n * 4096)) vmm_write u s t (omega arith)
                (record { low = omega arith; word = omega arith }) changed
                (λ o. absurd (ground (arith, all_pages n u h b)));
        },
        free,
        total,
      )
    ])
