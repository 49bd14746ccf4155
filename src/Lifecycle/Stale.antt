-- ===== src/Lifecycle/Stale.antt =====
-- A process that gives the processor away by ORE_SYS_YIELD (kernel/syscall.c) and gets it back on a
-- timer tick (kernel/process.c).
use ore_os.Base.{Bool-cases, ap, arith, false, inl, inr, some, sym, true, ℕ, ◌==◌, ◌∙◌, ◌≡◌}
use ore_os.Process.{
  Process, Procs, eligible, is_running, next_ready_process, process_schedule_user_tick,
  process_set_current, ready,
}
use ore_os.Process.Frame.{InterruptFrame}
use ore_os.Process.Switch.{goes_on_with}
use ore_os.Process.Resume.{eligible_self, goes_on_with_framed, to_case_of_switch}
use ore_os.Lifecycle.{
  Trap, current_process, enter_process_from_syscall, schedule_next_from_syscall, yield_from,
}
use ore_os.Lifecycle.Keep.{next_in_table}

-- The entry of the caller after a yield that switched.
yield_left :
    (t : Trap) {next : ℕ}
    → next_ready_process (current_process t).pid t.procs ≡ some next
    → is_running (current_process t).state ≡ true
    → (schedule_next_from_syscall t).procs.table t.procs.current ≡ record (current_process t) {
      saved_user_rip = t.user_rip;
      saved_user_rsp = t.user_rsp;
      state = ready;
    }
unfolding schedule_next_from_syscall yield_from enter_process_from_syscall process_set_current
yield_left t {next} found run =
    let fits = (next_in_table (current_process t).pid t.procs found).2 in
    let ne : (next == t.procs.current) ≡ false = apart t next fits in
    rw (schedule_next_from_syscall, found) (ground arith)
  where
    apart :
        (t : Trap) (next : ℕ)
        → eligible (current_process t).pid (t.procs.table next) ≡ true
        → (next == t.procs.current) ≡ false
    apart t next fits = elim (Bool-cases (next == t.procs.current)) [
      | inr ne ↦ ne
      | inl same ↦
          let e : next ≡ t.procs.current = ground arith in
          absurd (eligible_self (current_process t) (rw e at fits))
    ]

-- If a process with a saved interrupt frame yields, and later a tick switches back to it, it returns
-- with that old frame, not to the place that it yielded at.
pub yield_then_tick :
    (t : Trap) (u v : Procs) (later back : InterruptFrame) {next : ℕ}
    → (current_process t).has_user_frame ≡ true
    → is_running (current_process t).state ≡ true
    → next_ready_process (current_process t).pid t.procs ≡ some next
    → u.table t.procs.current ≡ (schedule_next_from_syscall t).procs.table t.procs.current
    → process_schedule_user_tick later u ≡ (true, back, v)
    → v.current ≡ t.procs.current
    → back ≡ (current_process t).user_frame
yield_then_tick t u v later back framed run found kept e home =
    let second = to_case_of_switch later u e in
    let at : second.0 ≡ t.procs.current = sym (second.1.now) ∙ home in
    second.1.returns
    ∙ ap (λ (i : ℕ). goes_on_with (u.table i)) at
    ∙ ap (λ (p : Process). goes_on_with p) (kept ∙ yield_left t found run)
    ∙ goes_on_with_framed
        (record (current_process t) {
          saved_user_rip = t.user_rip;
          saved_user_rsp = t.user_rsp;
          state = ready;
        })
        framed
