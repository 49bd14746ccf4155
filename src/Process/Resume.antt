-- ===== src/Process/Resume.antt =====
-- A process that a timer tick suspends goes on where it was (kernel/process.c).
use mathlib.Core.Path.{subst}
use ore_os.Base.{Bool, ap, arith, inl, inr, refl, sym, true, true-false, ℕ, ◌∙◌, ◌≡◌}
use ore_os.Process.{Process, Procs, eligible, process_schedule_user_tick, suspend}
use ore_os.Process.Frame.{InterruptFrame}
use ore_os.Process.Switch.{Switched, goes_on_with, process_schedule_user_tick_lem}

goes_on_with-suspend :
    (frame : InterruptFrame) (p : Process) → goes_on_with (suspend frame p) ≡ frame
unfolding suspend
goes_on_with-suspend frame p = refl

-- A tick that switched.
pub to_case_of_switch :
    (f : InterruptFrame) (a : Procs) {f' : InterruptFrame} {b : Procs}
    → process_schedule_user_tick f a ≡ (true, f', b)
    → (next : ℕ) × Switched f a next f' b
to_case_of_switch f a {f'} {b} e = elim (process_schedule_user_tick_lem f a) [
  | inl (no_switch, same, same', why) ↦
      absurd (true-false (sym (ap (λ (r : Bool × InterruptFrame × Procs). r.0) e) ∙ no_switch))
  | inr (yes_switch, cs, running', pid, (next, found, sw)) ↦
      (next, subst (λ (r : Bool × InterruptFrame × Procs). Switched f a next r.1 r.2) e sw)
]

-- A process with a saved frame returns with it.
pub goes_on_with_framed : (p : Process) → p.has_user_frame ≡ true → goes_on_with p ≡ p.user_frame
goes_on_with_framed p h = rw h refl

pub eligible_self : (p : Process) → eligible p.pid p ≡ true → ⊥
unfolding eligible
eligible_self p h = ground arith

-- If a tick switches away from a process, and a later tick switches back to it while its entry of the
-- table is as the first tick left it, the second tick returns with exactly the registers of the first
-- interrupt.
pub tick_resumes :
    (frame frame' later back : InterruptFrame) (s t u v : Procs)
    → process_schedule_user_tick frame s ≡ (true, frame', t)
    → u.table s.current ≡ t.table s.current
    → process_schedule_user_tick later u ≡ (true, back, v)
    → v.current ≡ s.current
    → back ≡ frame
unfolding suspend
tick_resumes frame frame' later back s t u v e kept e' home =
    let first = to_case_of_switch frame s e in
    let second = to_case_of_switch later u e' in
    let at : second.0 ≡ s.current = sym (second.1.now) ∙ home in
    second.1.returns
    ∙ ap (λ (i : ℕ). goes_on_with (u.table i)) at
    ∙ ap (λ (p : Process). goes_on_with p) (kept ∙ first.1.left)
    ∙ goes_on_with-suspend frame (s.table s.current)
