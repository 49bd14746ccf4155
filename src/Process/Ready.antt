-- ===== src/Process/Ready.antt =====
-- The round-robin search of next_ready_process (kernel/process.c, kernel/syscall.c).
use mathlib.Core.Path.{subst}
use ore_os.Base.{
  Bool-cases, Option-cases, arith, false, if◌then◌else◌, inl, inr, leb, leb→gt, leb→le, ltb, none,
  refl, some, some_injective, suc, sym, true, true-false, zero, ℕ, ◌+◌, ◌-◌, ◌<◌, ◌==◌, ◌^◌, ◌∙◌,
  ◌≡◌, ◌≢◌, ◌≤◌, ◌⊎◌,
}
use ore_os.Process.{
  Procs, eligible, is_ready, next_ready_process, ready_scan, scan_index, scan_start,
}

-- How many places behind `start` the scan reaches the index `i`.
pub rank : (start count i : ℕ) → ℕ
rank start count i = if leb start i then i - start else i + count - 1 - start

-- The scan found the eligible process that comes first from `start` on, going round at the end.
pub record IsNext (s : Procs) (start exclude_pid i : ℕ) : Type 0 where
  pub positive : 1 ≤ i
  pub in_table : i < s.count
  pub fits : eligible exclude_pid (s.table i) ≡ true
  pub first :
      (j : ℕ)
      → 1 ≤ j
      → j < s.count
      → eligible exclude_pid (s.table j) ≡ true
      → rank start s.count i ≤ rank start s.count j

scan_index_bounds :
    (start count scanned : ℕ)
    → 1 ≤ start
    → start < count
    → 1 ≤ scanned
    → scanned < count
    → (1 ≤ scan_index start count scanned)
      × (scan_index start count scanned < count)
      × (rank start count (scan_index start count scanned) ≡ scanned - 1)
unfolding scan_index rank
scan_index_bounds start count scanned a b c d = ground arith

scan_index-rank :
    (start count j : ℕ)
    → 1 ≤ start
    → start < count
    → 1 ≤ j
    → j < count
    → (scan_index start count (rank start count j + 1) ≡ j) × (rank start count j + 1 < count)
unfolding scan_index rank
scan_index-rank start count j a b c d = ground arith

ready_scan-IsNext :
    (rounds scanned start exclude_pid : ℕ) (s : Procs) {i : ℕ}
    → 1 ≤ start
    → start < s.count
    → 1 ≤ scanned
    → scanned + rounds ≡ s.count
    → ((j : ℕ)
        → 1 ≤ j
        → j < s.count
        → rank start s.count j + 1 < scanned
        → eligible exclude_pid (s.table j) ≡ false)
    → ready_scan rounds scanned start exclude_pid s ≡ some i
    → IsNext s start exclude_pid i
unfolding ready_scan
ready_scan-IsNext zero scanned start exclude_pid s a b c d before e = cc
ready_scan-IsNext (suc rounds) scanned start exclude_pid s {i} a b c d before e =
    let k = scan_index start s.count scanned in
    let at = scan_index_bounds start s.count scanned a b c (omega arith) in
    elim (Bool-cases (eligible exclude_pid (s.table k))) [
      | inl yes_here ↦
          let here : k ≡ i = some_injective (rw yes_here at e) in
          subst (IsNext s start exclude_pid) here (record {
            positive = at.0;
            in_table = at.1;
            fits = yes_here;
            first = λ j lo hi el.
                elim (Bool-cases (leb (rank start s.count k) (rank start s.count j))) [
                  | inl le ↦ leb→le _ _ le
                  | inr gt ↦ absurd (
                      true-false (
                        sym el
                        ∙ before j lo hi (
                            omega (
                              arith,
                              leb→gt (rank start s.count k) (rank start s.count j) gt,
                              at.2,
                            ))))
                ];
          })
      | inr not_here ↦
          ready_scan-IsNext rounds (scanned + 1) start exclude_pid s {i = i} a b (omega arith)
            (omega arith)
            (λ j lo hi near. elim (Bool-cases (rank start s.count j + 1 == scanned)) [
              | inl same ↦
                  let this : k ≡ j =
                    let e' : rank start s.count j + 1 ≡ scanned = ground arith in
                    rw (← e') (scan_index-rank start s.count j a b lo hi).0 in
                  rw (← this) not_here
              | inr other ↦ before j lo hi (ground arith)
            ])
            (rw not_here at e)
    ]

ready_scan-none :
    (rounds scanned start exclude_pid : ℕ) (s : Procs)
    → 1 ≤ start
    → start < s.count
    → 1 ≤ scanned
    → scanned + rounds ≡ s.count
    → ready_scan rounds scanned start exclude_pid s ≡ none
    → (j : ℕ) → 1 ≤ j
    → j < s.count
    → scanned ≤ rank start s.count j + 1
    → eligible exclude_pid (s.table j) ≡ false
unfolding ready_scan
ready_scan-none zero scanned start exclude_pid s a b c d e j lo hi near =
    absurd (omega (arith, scan_index-rank start s.count j a b lo hi))
ready_scan-none (suc rounds) scanned start exclude_pid s a b c d e j lo hi near =
    let k = scan_index start s.count scanned in
    elim (Bool-cases (eligible exclude_pid (s.table k))) [
      | inl yes_here ↦ let e' = rw yes_here at e in cc
      | inr not_here ↦ elim (Bool-cases (rank start s.count j + 1 == scanned)) [
        | inl same ↦
            let this : k ≡ j =
              let e' : rank start s.count j + 1 ≡ scanned = ground arith in
              rw (← e') (scan_index-rank start s.count j a b lo hi).0 in
            rw (← this) not_here
        | inr other ↦
            ready_scan-none rounds (scanned + 1) start exclude_pid s a b (omega arith) (omega arith)
              (rw not_here at e) j lo hi (ground arith)
      ]
    ]

scan_start_bounds :
    (exclude_pid count : ℕ)
    → 1 < count
    → (1 ≤ scan_start exclude_pid count) × (scan_start exclude_pid count < count)
unfolding scan_start
scan_start_bounds exclude_pid count h = ground arith

-- The search from the place where it starts.
pub next_ready_process-IsNext :
    (exclude_pid : ℕ) (s : Procs)
    → ((i : ℕ) × (next_ready_process exclude_pid s ≡ some i)
        × IsNext s (scan_start exclude_pid s.count) exclude_pid i)
      ⊎ (next_ready_process exclude_pid s ≡ none)
        × ((j : ℕ) → 1 ≤ j → j < s.count → eligible exclude_pid (s.table j) ≡ false)
unfolding next_ready_process
next_ready_process-IsNext exclude_pid s = elim (Bool-cases (leb s.count 1)) [
  | inl alone ↦ inr (rw alone refl, λ j lo hi. absurd (omega (arith, leb→le s.count 1 alone)))
  | inr others ↦
      let start = scan_start exclude_pid s.count in
      let b = scan_start_bounds exclude_pid s.count (leb→gt s.count 1 others) in
      elim (Option-cases (ready_scan (s.count - 1) 1 start exclude_pid s)) [
        | inl nothing ↦ inr (
          rw others nothing,
          λ j lo hi.
              ready_scan-none (s.count - 1) 1 start exclude_pid s b.0 b.1 (omega arith)
                (omega arith) nothing j lo hi (omega arith),
        )
        | inr (i, found) ↦ inl (
          i,
          rw others found,
          ready_scan-IsNext (s.count - 1) 1 start exclude_pid s b.0 b.1 (omega arith) (omega arith)
              (λ j lo hi near. absurd (omega arith)) found,
        )
      ]
]

-- The process at the index `i` can run and is not the one with the pid.
abbrev pub IsOther : Procs → (exclude_pid i : ℕ) → Type 0
IsOther s exclude_pid i =
    (1 ≤ i) × (i < s.count) × (is_ready (s.table i).state ≡ true) × ((s.table i).pid ≢ exclude_pid)

-- For a pid and a table of fewer than 2^32 processes: next_ready_process finds the process that is ready
-- and has another pid, among the processes other than the kernel's, that comes first in the round from
-- the index `exclude_pid + 1` on, or from 1 on if the table ends before that; and it finds none only if
-- there is no such process.
pub next_ready_process_lem :
    (exclude_pid : ℕ) (s : Procs)
    → exclude_pid < 2 ^ 32
    → s.count < 2 ^ 32
    → let start = if ltb (exclude_pid + 1) s.count then exclude_pid + 1 else 1 in
      ((i : ℕ) × (next_ready_process exclude_pid s ≡ some i)
        × IsOther s exclude_pid i
        × ((j : ℕ) → IsOther s exclude_pid j → rank start s.count i ≤ rank start s.count j))
      ⊎ (next_ready_process exclude_pid s ≡ none) × ((j : ℕ) → ¬ IsOther s exclude_pid j)
unfolding scan_start eligible
next_ready_process_lem exclude_pid s pid count =
    let start : scan_start exclude_pid s.count
        ≡ (if ltb (exclude_pid + 1) s.count then exclude_pid + 1 else 1) =
      ground arith in
    elim (next_ready_process-IsNext exclude_pid s) [
      | inl (i, found, is) ↦
          let fits = is.fits in
          inl (
            i,
            found,
            (is.positive, is.in_table, ground arith, ground arith),
            λ j (lo, hi, can_run, other). rw (← start) (is.first j lo hi (ground arith)),
          )
      | inr (nobody, all) ↦ inr (nobody, λ j (lo, hi, can_run, other). ground (arith, all j lo hi))
    ]
