-- ===== src/Process/Invariant.antt =====
-- The invariant of the process table (kernel/process.c).
use mathlib.Core.Path.{subst}
use ore_os.Base.{
  Bool-cases, List, Option, arith, false, inl, inr, leb, refl, some, some_injective, sym, true,
  true-false, ℕ, ◌+◌, ◌<◌, ◌==◌, ◌∙◌, ◌≡◌, ◌≤◌,
}
use ore_os.Process.{
  Process, Procs, is_ready, is_running, max_processes, next_ready_process, process_create_kernel,
  process_create_user, process_schedule_user_tick, suspend,
}
use ore_os.Process.Ready.{next_ready_process-IsNext}
use ore_os.Process.Frame.{InterruptFrame}
use ore_os.Process.Switch.{Switched, process_schedule_user_tick_lem}

-- Each process carries its index as pid, the current process is in the table, and no other process
-- than it, and the kernel's, is marked as running.
pub record IsValid (s : Procs) : Type 0 where
  pub pids : (i : ℕ) → i < s.count → (s.table i).pid ≡ i
  pub room : s.count ≤ max_processes
  pub current_in : s.current < s.count
  pub one_runs : (i : ℕ) → 1 ≤ i → i < s.count → is_running (s.table i).state ≡ true → i ≡ s.current

suspend_facts :
    (frame : InterruptFrame) (p : Process)
    → ((suspend frame p).pid ≡ p.pid) × (is_running (suspend frame p).state ≡ false)
unfolding suspend
suspend_facts frame p = (refl, refl)

Switched-IsValid :
    {frame frame' : InterruptFrame} {s t : Procs} {next : ℕ}
    → IsValid s
    → next < s.count
    → Switched frame s next frame' t
    → IsValid t
unfolding suspend
Switched-IsValid {frame} {frame'} {s} {t} {next} v lt sw = record {
  pids = λ i h. elim (Bool-cases (i == next)) [
    | inl here ↦ let e : i ≡ next = ground arith in rw (e, sw.entered) (v.pids next lt)
    | inr nh ↦ elim (Bool-cases (i == s.current)) [
      | inl cur ↦
          let e : i ≡ s.current = ground arith in
          rw (e, sw.left)
            ((suspend_facts frame (s.table s.current)).0 ∙ v.pids s.current v.current_in)
      | inr nc ↦ rw (sw.rest i (ground arith) (ground arith)) (v.pids i (omega (arith, sw.count)))
    ]
  ];
  room = omega (arith, sw.count, v.room);
  current_in = omega (arith, sw.now, sw.count);
  one_runs = λ i lo hi r. elim (Bool-cases (i == next)) [
    | inl here ↦ let e : i ≡ next = ground arith in e ∙ sym sw.now
    | inr nh ↦ elim (Bool-cases (i == s.current)) [
      | inl cur ↦
          let e : i ≡ s.current = ground arith in
          let r' = rw (e, sw.left) at r in
          absurd (true-false (sym r' ∙ (suspend_facts frame (s.table s.current)).1))
      | inr nc ↦
          let same = sw.rest i (ground arith) (ground arith) in
          absurd (clash i nc (v.one_runs i lo (omega (arith, sw.count)) (rw same at r)))
    ]
  ];
}
  where
    clash : (i : ℕ) → (i == s.current) ≡ false → i ≡ s.current → ⊥
    clash i nc e = ground arith

-- A timer tick keeps the invariant of the process table.
pub process_schedule_user_tick-IsValid :
    (frame : InterruptFrame) (s : Procs)
    → IsValid s
    → IsValid (process_schedule_user_tick frame s).2
process_schedule_user_tick-IsValid frame s v = elim (process_schedule_user_tick_lem frame s) [
  | inl (no_switch, same, same', why) ↦ rw same' v
  | inr (yes_switch, cs, run, pid, (next, found, sw)) ↦
      Switched-IsValid v (found_in frame s next found) sw
]
  where
    found_in :
        (f : InterruptFrame) (a : Procs) (next : ℕ)
        → next_ready_process (a.table a.current).pid a ≡ some next
        → next < a.count
    found_in f a next e = elim (next_ready_process-IsNext (a.table a.current).pid a) [
      | inl (i, e', is) ↦
          let here : i ≡ next = some_injective (sym e' ∙ e) in omega (arith, is.in_table)
      | inr (e', none_there) ↦ let e'' = sym e' ∙ e in cc
    ]

-- A new process has the next free pid, and the invariant holds with it; there is none if the table of
-- 32 processes is full.
pub process_create_user-IsValid :
    (pml4 : ℕ) (name : Option (List ℕ)) (s : Procs) {i : ℕ} {t : Procs}
    → IsValid s
    → process_create_user pml4 name s ≡ some (i, t)
    → IsValid t × (i ≡ s.count) × (t.count ≡ s.count + 1) × (is_ready (t.table i).state ≡ true)
unfolding process_create_user process_create_kernel
process_create_user-IsValid pml4 name s {i} {t} v e =
    elim (Bool-cases (leb max_processes s.count)) [
      | inl full ↦ let e' = rw (process_create_user, full) at e in cc
      | inr free ↦
          subst
            (λ (r : ℕ × Procs).
              IsValid r.1
              × (r.0 ≡ s.count)
              × (r.1.count ≡ s.count + 1)
              × (is_ready (r.1.table r.0).state ≡ true))
            (some_injective (rw (process_create_user, free) at e))
            (
              record {
                pids = λ j h. ground (arith, v.pids j);
                room = ground (arith, v.room);
                current_in = ground (arith, v.current_in);
                one_runs = λ j lo hi r. ground (arith, v.one_runs j);
              },
              refl,
              refl,
              ground arith,
            )
    ]
