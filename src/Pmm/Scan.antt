-- ===== src/Pmm/Scan.antt =====
-- The search of pmm_alloc_pages for a run of free pages (kernel/pmm.c).
use ore_os.Base.{
  Bool-cases, arith, false, if◌then◌else◌, inl, inr, leb, none, refl, some, suc, true, zero, ℕ, ◌+◌,
  ◌-◌, ◌<◌, ◌==◌, ◌≡◌, ◌≢◌, ◌≤◌,
}
use ore_os.Pmm.{Pmm, bitmap_test, low_reserved_pages, scan}

-- The `count` pages from `start` on are free and lie in [lo, hi).
pub record IsFreeRun (s : Pmm) (lo hi count start : ℕ) : Type 0 where
  pub above : lo ≤ start
  pub below : start + count ≤ hi
  pub clear : (q : ℕ) → start ≤ q → q < start + count → bitmap_test s q ≡ false

-- What the loop keeps: the last `run` pages are free, and `start_page` is the first of them.
record Running (s : Pmm) (lo page run start_page : ℕ) : Type 0 where
  above : lo + run ≤ page
  first : run ≢ 0 → start_page + run ≡ page
  clear : (q : ℕ) → page ≤ q + run → q < page → bitmap_test s q ≡ false

Running-busy :
    {s : Pmm} {lo page run st : ℕ} → Running s lo page run st → Running s lo (page + 1) 0 st
Running-busy r = record {
  above = omega (arith, r.above);
  first = λ ne. absurd (ne refl);
  clear = λ q a b. absurd (omega arith);
}

Running-more :
    {s : Pmm} {lo page run st : ℕ}
    → Running s lo page run st
    → bitmap_test s page ≡ false
    → Running s lo (page + 1) (run + 1) (if run == 0 then page else st)
Running-more {s} {lo} {page} {run} {st} r free = record {
  above = omega (arith, r.above);
  first = λ ne. ground (arith, r.first);
  clear = λ q a b. elim (Bool-cases (q == page)) [
    | inl e ↦ let here : q ≡ page = ground arith in rw here free
    | inr e ↦ r.clear q (omega arith) (ground arith)
  ];
}

scan-IsFreeRun :
    (s : Pmm) (count lo rounds page run st : ℕ) {found : ℕ}
    → Running s lo page run st
    → scan s count rounds page run st ≡ some found
    → IsFreeRun s lo (page + rounds) count found
unfolding scan
scan-IsFreeRun s count lo zero page run st r e = cc
scan-IsFreeRun s count lo (suc rounds) page run st {found} r e =
    elim (Bool-cases (bitmap_test s page)) [
      | inl busy ↦
          let next =
            scan-IsFreeRun s count lo rounds (page + 1) 0 st {found = found} (Running-busy r)
              (ground arith) in
          record { above = next.above; below = omega (arith, next.below); clear = next.clear }
      | inr free ↦ elim (Bool-cases (run + 1 == count)) [
        | inl done ↦
            let last = Running-more r free in
            let start : found + (run + 1) ≡ page + 1 = ground (arith, last.first) in
            let size : run + 1 ≡ count = ground arith in
            record {
              above = omega (arith, r.above);
              below = omega arith;
              clear = λ q a b. last.clear q (omega arith) (omega arith);
            }
        | inr short ↦
            let next =
              scan-IsFreeRun s count lo rounds (page + 1) (run + 1) (if run == 0 then page else st)
                {found = found} (Running-more r free) (ground arith) in
            record { above = next.above; below = omega (arith, next.below); clear = next.clear }
      ]
    ]

-- If the loop finds nothing, every window of `count` pages holds a page that is not free.
pub scan-none :
    (s : Pmm) (count rounds page run st start : ℕ)
    → scan s count rounds page run st ≡ none
    → run < count
    → page ≤ start + run
    → start + count ≤ page + rounds
    → (q : ℕ) × (start ≤ q) × (q < start + count) × (bitmap_test s q ≡ true)
unfolding scan
scan-none s count zero page run st start e small lo hi = absurd (omega arith)
scan-none s count (suc rounds) page run st start e small lo hi =
    elim (Bool-cases (bitmap_test s page)) [
      | inl busy ↦ elim (Bool-cases (leb start page)) [
        | inl before ↦ (page, ground arith, omega arith, busy)
        | inr after ↦
            scan-none s count rounds (page + 1) 0 st start (ground arith) (omega arith)
              (ground arith) (omega arith)
      ]
      | inr free ↦
          let short : run + 1 ≢ count = λ h. ground arith in
          scan-none s count rounds (page + 1) (run + 1) (if run == 0 then page else st) start
            (ground arith) (omega arith) (omega arith) (omega arith)
    ]

-- The loop as it is started.
pub scan_start :
    (s : Pmm) (count : ℕ) {found : ℕ}
    → low_reserved_pages ≤ s.total_page_count
    → scan s count (s.total_page_count - low_reserved_pages) low_reserved_pages 0 0 ≡ some found
    → IsFreeRun s low_reserved_pages s.total_page_count count found
scan_start s count {found} big e =
    let run =
      scan-IsFreeRun s count low_reserved_pages (s.total_page_count - low_reserved_pages)
        low_reserved_pages 0 0 {found = found}
        (record {
          above = omega arith;
          first = λ ne. absurd (ne refl);
          clear = λ q a b. absurd (omega arith);
        })
        e in
    record { above = run.above; below = omega (arith, run.below); clear = run.clear }
