-- ===== src/Pmm/Init/Release.antt =====
-- The loops of pmm_init (kernel/pmm.c) that mark all pages and release the usable ones.

use ore_os.Base.{
  Bool-cases, add64, and-false, ap, arith, false, if◌then◌else◌, inl, inr, leb, leb→gt, leb→le,
  refl, sub64, suc, true, zero, ℕ, ◌&&◌, ◌*◌, ◌+◌, ◌/◌, ◌<◌, ◌^◌, ◌∙◌, ◌≡◌, ◌≤◌,
}
use ore_os.Pmm.{Pmm, bitmap_clear, bitmap_test, page_size}
use ore_os.Pmm.Bitmap.{IsBytes, bitmap_clear-IsBytes, bitmap_test-clear}
use ore_os.Pmm.Count.{clear_below, clear_below-le, clear_below-same}
use ore_os.Pmm.Invariant.{IsValid, clear_below-clear}
use ore_os.Pmm.Init.{release_loop, release_one}
use ore_os.Pmm.Init.Reserve.{IsCovered, Reserved}

record OneReleased (s t : Pmm) : Type 0 where
  same : Reserved s t
  free : t.free_page_count ≡ add64 s.free_page_count 1
  reserved : t.reserved_page_count ≡ sub64 s.reserved_page_count 1

release_one_counters : (page : ℕ) (s : Pmm) → OneReleased s (release_one page s)
unfolding release_one bitmap_clear
release_one_counters page s = record { same = ground arith; free = refl; reserved = refl }

release_one-clear :
    (page : ℕ) (s : Pmm) (q : ℕ)
    → bitmap_test (release_one page s) q ≡ bitmap_test (bitmap_clear page s) q
unfolding bitmap_test release_one
release_one-clear page s q = refl

release_one-IsBytes : (page : ℕ) (s : Pmm) → IsBytes s → IsBytes (release_one page s)
unfolding release_one
release_one-IsBytes page s h = bitmap_clear-IsBytes page s h

release_one-IsValid :
    (page : ℕ) (s : Pmm)
    → IsValid s
    → page < s.total_page_count
    → bitmap_test s page ≡ true
    → s.used_page_count ≡ 0
    → IsValid (release_one page s)
release_one-IsValid page s v lt busy unused =
    let n = release_one_counters page s in
    let counts = clear_below-clear page s.total_page_count s v.bytes lt busy in
    let moved =
      clear_below-same (bitmap_test (release_one page s)) (bitmap_test (bitmap_clear page s))
        s.total_page_count (λ q hq. release_one-clear page s q) in
    let bound = clear_below-le (bitmap_test (bitmap_clear page s)) s.total_page_count in
    record {
      bytes = release_one-IsBytes page s v.bytes;
      counted =
          ap (clear_below (bitmap_test (release_one page s))) n.same.total
          ∙ omega (arith, n, v, counts, moved);
      summed = omega (arith, n, v, counts, bound);
      small = omega (arith, n.same.total, v.small);
    }

-- What the loop over the pages of one descriptor gives.
pub record RangeReleased (s t : Pmm) (start end : ℕ) : Type 0 where
  pub same : Reserved s t
  pub valid : IsValid t
  pub bits :
      (q : ℕ)
      → bitmap_test t q ≡ (
          if leb start (q * page_size) && leb (q * page_size + page_size) end
          then false
          else bitmap_test s q)

-- The pages between two addresses are all marked.
abbrev pub AllMarked : Pmm → (start end : ℕ) → Type 0
AllMarked s start end =
    (q : ℕ) → start ≤ q * page_size → q * page_size + page_size ≤ end → bitmap_test s q ≡ true

pub release_loop-RangeReleased :
    (fuel addr end : ℕ) (s : Pmm)
    → IsValid s
    → IsCovered s
    → s.used_page_count ≡ 0
    → addr ≡ addr / page_size * page_size
    → end ≤ s.max_phys
    → addr < 2 ^ 60
    → end / page_size < fuel + addr / page_size
    → AllMarked s addr end
    → RangeReleased s (release_loop fuel addr end s) addr end
unfolding release_loop
release_loop-RangeReleased zero addr end s v c unused aligned inside small enough marked = record {
  same = ground arith;
  valid = v;
  bits = λ q.
      rw
        (and-false (leb addr (q * page_size)) (leb (q * page_size + page_size) end)
          λ a b. omega (arith, leb→le _ _ a, leb→le _ _ b))
        refl;
}
release_loop-RangeReleased (suc fuel) addr end s v c unused aligned inside small enough marked =
    let no_wrap : add64 addr page_size ≡ addr + page_size = omega arith in
    elim (Bool-cases (leb (add64 addr page_size) end)) [
      | inr stop ↦ rw stop (record {
        same = ground arith;
        valid = v;
        bits = λ q.
            rw
              (and-false (leb addr (q * page_size)) (leb (q * page_size + page_size) end)
                λ a b. absurd (past stop no_wrap q (leb→le _ _ a) (leb→le _ _ b)))
              refl;
      })
      | inl go ↦
          let page = addr / page_size in
          let fits : addr + page_size ≤ end =
            rw no_wrap at (leb→le (add64 addr page_size) end go) in
          let busy = marked page (omega arith) (omega arith) in
          let one = release_one_counters page s in
          let rest =
            release_loop-RangeReleased fuel (add64 addr page_size) end (release_one page s)
              (release_one-IsValid page s v (omega arith) busy unused) (omega (arith, one.same, c))
              (omega (arith, one.same)) (omega arith) (omega (arith, one.same)) (omega arith)
              (omega arith)
              (λ q a b.
                rw (release_one-clear page s q, bitmap_test-clear page q s v.bytes)
                  (ground (arith, marked q (omega arith) b))) in
          rw go (record {
            same = record {
              total = rest.same.total ∙ one.same.total;
              max = rest.same.max ∙ one.same.max;
              used = rest.same.used ∙ one.same.used;
              memory = rest.same.memory ∙ one.same.memory;
              width = rest.same.width ∙ one.same.width;
            };
            valid = rest.valid;
            bits = λ q. ground (
              arith,
              rest.bits q,
              release_one-clear page s q,
              bitmap_test-clear page q s v.bytes,
            );
          })
    ]
  where
    past :
        leb (add64 addr page_size) end ≡ false
        → add64 addr page_size ≡ addr + page_size
        → (q : ℕ) → addr ≤ q * page_size
        → q * page_size + page_size ≤ end
        → ⊥
    past stop e q a b = omega (arith, leb→gt (add64 addr page_size) end stop)
