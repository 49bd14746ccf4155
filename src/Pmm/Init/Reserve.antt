-- ===== src/Pmm/Init/Reserve.antt =====
-- What pmm_init of kernel/pmm.c establishes: the loops that release and reserve pages.
use ore_os.Base.{
  Bool-cases, add64, ap, arith, false, if◌then◌else◌, inl, inr, ltb, refl, suc, sym, true, zero, ℕ,
  ◌&&◌, ◌*◌, ◌+◌, ◌-◌, ◌/◌, ◌<◌, ◌==◌, ◌^◌, ◌∙◌, ◌≡◌, ◌≢◌, ◌≤◌,
}
use mathlib.Core.Path.{subst}
use ore_os.Pmm.{Pmm, bitmap_set, bitmap_test, page_size}
use ore_os.Pmm.Bitmap.{IsBytes, bitmap_set-IsBytes, bitmap_test-set}
use ore_os.Pmm.Count.{clear_below, clear_below-same}
use ore_os.Pmm.Invariant.{IsValid, clear_below-set}
use ore_os.Pmm.Init.{align_down, align_up, reserve_loop, reserve_one, reserve_range}

-- The end of memory lies in the last page.
abbrev pub IsCovered : Pmm → Type 0
IsCovered s = (s.max_phys ≤ s.total_page_count * page_size) × (s.total_page_count ≤ 2 ^ 40)

-- Reserving one page.
pub record Reserved (s t : Pmm) : Type 0 where
  pub total : t.total_page_count ≡ s.total_page_count
  pub max : t.max_phys ≡ s.max_phys
  pub used : t.used_page_count ≡ s.used_page_count
  pub memory : t.memory ≡ s.memory
  pub width : t.bitmap_bytes ≡ s.bitmap_bytes

reserve_one-Reserved : (page : ℕ) (s : Pmm) → Reserved s (reserve_one page s)
unfolding reserve_one bitmap_set
reserve_one-Reserved page s = ground arith

reserve_one-set :
    (page : ℕ) (s : Pmm) (q : ℕ)
    → IsBytes s
    → bitmap_test s page ≡ false
    → bitmap_test (reserve_one page s) q ≡ bitmap_test (bitmap_set page s) q
unfolding bitmap_test
reserve_one-set page s q h free = unfold reserve_one in ground arith

reserve_one-eq : (page : ℕ) (s : Pmm) → bitmap_test s page ≡ true → reserve_one page s ≡ s
unfolding reserve_one
reserve_one-eq page s busy = ground arith

bitmap_test-reserve_one :
    (page : ℕ) (s : Pmm) (q : ℕ)
    → IsBytes s
    → bitmap_test (reserve_one page s) q ≡ (if page == q then true else bitmap_test s q)
bitmap_test-reserve_one page s q h = elim (Bool-cases (bitmap_test s page)) [
  | inl busy ↦ rw (reserve_one-eq page s busy) (elim (Bool-cases (page == q)) [
    | inl e ↦ let here : page ≡ q = ground arith in rw (e, ← here) busy
    | inr e ↦ rw e refl
  ])
  | inr free ↦ reserve_one-set page s q h free ∙ bitmap_test-set page q s h
]

record OneReserved (s t : Pmm) : Type 0 where
  free : t.free_page_count ≡ s.free_page_count - 1
  reserved : t.reserved_page_count ≡ add64 s.reserved_page_count 1

reserve_one_counters :
    (page : ℕ) (s : Pmm) → bitmap_test s page ≡ false → OneReserved s (reserve_one page s)
unfolding reserve_one bitmap_set
reserve_one_counters page s free = ground arith

reserve_one-IsBytes : (page : ℕ) (s : Pmm) → IsBytes s → IsBytes (reserve_one page s)
unfolding reserve_one
reserve_one-IsBytes page s h i = ground (arith, bitmap_set-IsBytes page s h i, h i)

reserve_one-IsValid :
    (page : ℕ) (s : Pmm) → IsValid s → page < s.total_page_count → IsValid (reserve_one page s)
reserve_one-IsValid page s v lt = elim (Bool-cases (bitmap_test s page)) [
  | inl busy ↦ subst IsValid (sym (reserve_one-eq page s busy)) v
  | inr free ↦
      let n = reserve_one_counters page s free in
      let same = reserve_one-Reserved page s in
      let counts = clear_below-set page s.total_page_count s v.bytes lt free in
      let moved =
        clear_below-same (bitmap_test (reserve_one page s)) (bitmap_test (bitmap_set page s))
          s.total_page_count (λ q hq. reserve_one-set page s q v.bytes free) in
      record {
        bytes = reserve_one-IsBytes page s v.bytes;
        counted =
            ap (clear_below (bitmap_test (reserve_one page s))) same.total
            ∙ omega (arith, n, v, counts, moved);
        summed = omega (arith, n, v, same, counts);
        small = omega (arith, same.total, v.small);
      }
]

-- What a run of `reserve_range` gives.
pub record RangeReserved (s t : Pmm) (start end : ℕ) : Type 0 where
  pub same : Reserved s t
  pub valid : IsValid t
  pub covered :
      (q : ℕ)
      → start ≤ q * page_size
      → q * page_size < end
      → q * page_size < s.max_phys
      → bitmap_test t q ≡ true
  pub kept : (q : ℕ) → bitmap_test s q ≡ true → bitmap_test t q ≡ true

pub reserve_loop-RangeReserved :
    (fuel addr end : ℕ) (s : Pmm)
    → IsValid s
    → IsCovered s
    → addr ≡ addr / page_size * page_size
    → s.total_page_count < fuel + addr / page_size
    → RangeReserved s (reserve_loop fuel addr end s) addr end
unfolding reserve_loop
reserve_loop-RangeReserved zero addr end s v c aligned enough = record {
  same = ground arith;
  valid = v;
  covered = λ q a b m. absurd (omega arith);
  kept = λ q h. h;
}
reserve_loop-RangeReserved (suc fuel) addr end s v c aligned enough =
    elim (Bool-cases (ltb addr end && ltb addr s.max_phys)) [
      | inr stop ↦ rw stop (record {
        same = ground arith;
        valid = v;
        covered = λ q a b m. absurd (ground arith);
        kept = λ q h. h;
      })
      | inl go ↦
          let page = addr / page_size in
          let in_memory : addr < s.max_phys = ground arith in
          let s' = reserve_one page s in
          let one = reserve_one-Reserved page s in
          let no_wrap : add64 addr page_size ≡ addr + page_size = omega arith in
          let rest =
            reserve_loop-RangeReserved fuel (add64 addr page_size) end s'
              (reserve_one-IsValid page s v (omega arith)) (omega (arith, one.total, one.max, c))
              (omega arith) (omega (arith, one.total)) in
          rw go (record {
            same = record {
              total = rest.same.total ∙ one.total;
              max = rest.same.max ∙ one.max;
              used = rest.same.used ∙ one.used;
              memory = rest.same.memory ∙ one.memory;
              width = rest.same.width ∙ one.width;
            };
            valid = rest.valid;
            covered = λ q a b m. elim (Bool-cases (page == q)) [
              | inl e ↦ rest.kept q (rw (bitmap_test-reserve_one page s q v.bytes, e) refl)
              | inr e ↦
                  let ne : page ≢ q = ground arith in
                  rest.covered q (omega arith) b (omega (arith, one.max))
            ];
            kept = λ q h.
                rest.kept q (rw (bitmap_test-reserve_one page s q v.bytes, h) (ground arith));
          })
    ]

-- The pages that meet the `size` bytes from `base` on, below the end of memory, are all marked.
abbrev pub IsMarked : Pmm → (base size : ℕ) → Type 0
IsMarked s base size =
    (q : ℕ)
    → base < q * page_size + page_size
    → q * page_size < base + size
    → q * page_size < s.max_phys
    → bitmap_test s q ≡ true

pub record RegionReserved (s t : Pmm) (base size : ℕ) : Type 0 where
  pub same : Reserved s t
  pub valid : IsValid t
  pub marked : IsMarked t base size
  pub kept : (q : ℕ) → bitmap_test s q ≡ true → bitmap_test t q ≡ true

-- `reserve_range` of a region below 2^60 marks every page that meets it, releases none, and keeps the
-- invariant.
pub reserve_range-RegionReserved :
    (base size : ℕ) (s : Pmm)
    → IsValid s
    → IsCovered s
    → base + size < 2 ^ 60
    → RegionReserved s (reserve_range base (base + size) s) base size
unfolding reserve_range align_up align_down
reserve_range-RegionReserved base size s v c small =
    let r =
      reserve_loop-RangeReserved (s.total_page_count + 1) (align_down base) (align_up (base + size))
        s v c (omega arith) (omega arith) in
    record {
      same = r.same;
      valid = r.valid;
      marked = λ q a b m. r.covered q (omega arith) (omega arith) (omega (arith, r.same.max));
      kept = r.kept;
    }
