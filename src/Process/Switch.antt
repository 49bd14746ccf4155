-- ===== src/Process/Switch.antt =====
-- What the switch on a timer tick does (process_schedule_user_tick, kernel/process.c).
use ore_os.Base.{
  Bool-cases, arith, false, if◌then◌else◌, inl, inr, none, not, refl, some, true, ℕ, ◌%◌, ◌==◌,
  ◌||◌, ◌≡◌, ◌≢◌, ◌⊎◌,
}
use ore_os.Process.{
  Process, Procs, eligible, is_running, next_ready_process, process_schedule_user_tick,
  process_set_current, ready, resume, running, suspend, switch_to,
}
use ore_os.Process.Ready.{next_ready_process-IsNext}
use ore_os.Process.Frame.{InterruptFrame, fresh_frame}

-- The registers with which a process goes on: the ones that were saved, or fresh ones at the place where
-- it left the processor by a system call, or at its entry point.
abbrev pub goes_on_with : Process → InterruptFrame
goes_on_with p =
    if p.has_user_frame
    then p.user_frame
    else fresh_frame (if p.saved_user_rip == 0 then p.user_entry else p.saved_user_rip)
        (if p.saved_user_rsp == 0 then p.user_stack else p.saved_user_rsp)

-- The state after a tick that switched from the current process to `next`.
pub record Switched (frame : InterruptFrame) (s : Procs) (next : ℕ) (frame' : InterruptFrame)
    (t : Procs) : Type 0 where
  pub other : next ≢ s.current
  pub now : t.current ≡ next
  pub count : t.count ≡ s.count
  pub root : t.cr3 ≡ (s.table next).address_space.pml4_phys
  pub left : t.table s.current ≡ record (s.table s.current) {
    user_frame = frame;
    has_user_frame = true;
    saved_user_rip = frame.rip;
    saved_user_rsp = frame.rsp;
    state = ready;
  }
  pub entered :
      t.table next
      ≡ record (s.table next) { user_frame = frame'; has_user_frame = true; state = running }
  pub returns : frame' ≡ goes_on_with (s.table next)
  pub rest : (i : ℕ) → i ≢ s.current → i ≢ next → t.table i ≡ s.table i

switch_to-Switched :
    (next : ℕ) (frame : InterruptFrame) (s : Procs)
    → next ≢ s.current
    → Switched frame s next (switch_to next frame s).0 (switch_to next frame s).1
unfolding switch_to process_set_current resume suspend
switch_to-Switched next frame s ne =
    let e : (next == s.current) ≡ false = ground arith in
    let e' : (s.current == next) ≡ false = ground arith in
    record {
      other = ne;
      now = refl;
      count = refl;
      root = ground arith;
      left = ground arith;
      entered = ground arith;
      returns = ground arith;
      rest = λ i a b. ground arith;
    }

why_stay :
    (frame : InterruptFrame) (current : Process) (nobody : Type 0)
    → (not (frame.cs % 4 == 3) || not (is_running current.state) || current.pid == 1) ≡ true
    → (frame.cs % 4 ≢ 3) ⊎ (is_running current.state ≡ false) ⊎ (current.pid ≡ 1) ⊎ nobody
why_stay frame current nobody stay = elim (Bool-cases (frame.cs % 4 == 3)) [
  | inr kernel ↦ inl (ground arith)
  | inl user ↦ elim (Bool-cases (is_running current.state)) [
    | inr idle ↦ inr (inl idle)
    | inl runs ↦ inr (inr (inl (ground arith)))
  ]
]

-- A tick that comes from user code, while the current process runs and has another pid than 1, switches
-- if next_ready_process finds a process. Otherwise it changes nothing, and then the tick comes from the
-- kernel, the current process does not run or has the pid 1, or next_ready_process finds none.
pub process_schedule_user_tick_lem :
    (frame : InterruptFrame) (s : Procs)
    → let (switched, frame', t) = process_schedule_user_tick frame s in
      (switched ≡ false)
        × (frame' ≡ frame)
        × (t ≡ s)
        × ((frame.cs % 4 ≢ 3)
            ⊎ (is_running (s.table s.current).state ≡ false)
            ⊎ ((s.table s.current).pid ≡ 1)
            ⊎ (next_ready_process (s.table s.current).pid s ≡ none))
      ⊎ (switched ≡ true)
        × (frame.cs % 4 ≡ 3)
        × (is_running (s.table s.current).state ≡ true)
        × ((s.table s.current).pid ≢ 1)
        × ((next : ℕ) × (next_ready_process (s.table s.current).pid s ≡ some next)
            × Switched frame s next frame' t)
unfolding process_schedule_user_tick
process_schedule_user_tick_lem frame s =
    let current = s.table s.current in
    let stop = not (frame.cs % 4 == 3) || not (is_running current.state) || current.pid == 1 in
    elim (Bool-cases stop) [
      | inl stay ↦ rw stay (inl (refl, refl, refl, why_stay frame current _ stay))
      | inr go ↦ elim (next_ready_process-IsNext current.pid s) [
        | inr (nothing, all) ↦ rw (go, nothing) (inl (refl, refl, refl, inr (inr (inr refl))))
        | inl (next, found, is) ↦
            let ne : next ≢ s.current =
              λ e. let f = rw e at is.fits in unfold eligible in ground arith in
            rw (go, found)
              (inr (
                refl,
                ground arith,
                ground arith,
                ground arith,
                (next, refl, switch_to-Switched next frame s ne),
              ))
      ]
    ]
