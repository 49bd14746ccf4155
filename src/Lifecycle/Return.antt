-- ===== src/Lifecycle/Return.antt =====
-- ORE_SYS_WAIT of a parent and the ORE_SYS_EXIT of the child that it brings about (kernel/syscall.c).
use ore_os.Base.{ap, arith, inl, inr, some, sym, true, u32_mod, ℕ, ◌%◌, ◌<◌, ◌∙◌, ◌≡◌, ◌≢◌}
use ore_os.Process.{Process, is_running, process_find}
use ore_os.Process.Find.{process_find_self}
use ore_os.Process.Invariant.{IsValid}
use ore_os.Lifecycle.{Trap, can_return, current_process, exit_with, sys_exit, sys_wait}
use ore_os.Lifecycle.Wait.{Waiting, after_exit, sys_exit_returns, sys_wait_lem}

-- A wait that goes on in another process has entered a child.
wait_entered :
    (pid : ℕ) (t : Trap)
    → IsValid t.procs
    → (sys_wait pid t).1.procs.current ≢ t.procs.current
    → (child : ℕ) × Waiting t child (sys_wait pid t).1
wait_entered pid t v moved = elim (sys_wait_lem pid t v) [
  | inl (e, same, why) ↦ absurd (moved (ap (λ (x : Trap). x.procs.current) same))
  | inr (child, found, ne, parent, inl (can_run, e, w)) ↦ (child, w)
  | inr (child, found, ne, parent, inr (nr, e, same)) ↦
      absurd (moved (ap (λ (x : Trap). x.procs.current) same))
]

-- The mark of the exit keeps every pid.
pids_after_exit :
    (code : ℕ) (u : Trap)
    → IsValid u.procs
    → (k : ℕ) → k < u.procs.count
    → ((after_exit code u).procs.table k).pid ≡ k
unfolding after_exit exit_with
pids_after_exit code u v k lt = ground (arith, v.pids k lt)

-- A process, not the kernel's, waits, and the wait enters a child. Later, in a state in which the
-- waiting process is as the wait left it, a child of it exits. Then the waiting process runs again, on
-- its own page tables, behind its call of wait and with the stack that it had there, and the result of
-- that call is the exit code.
pub wait_then_exit :
    (pid code : ℕ) (t u : Trap)
    → IsValid t.procs
    → IsValid u.procs
    → (sys_wait pid t).1.procs.current ≢ t.procs.current
    → t.procs.current ≢ 0
    → t.user_rip ≢ 0
    → t.user_rsp ≢ 0
    → u.procs.table t.procs.current ≡ (sys_wait pid t).1.procs.table t.procs.current
    → t.procs.current < u.procs.count
    → u.procs.current ≢ t.procs.current
    → (current_process u).parent_pid ≡ t.procs.current
    → let (result, v) = sys_exit code u in
      (result ≡ some (code % u32_mod))
      × (v.procs.current ≡ t.procs.current)
      × (is_running (v.procs.table t.procs.current).state ≡ true)
      × (v.procs.cr3 ≡ (current_process t).address_space.pml4_phys)
      × (v.sysret_override ≡ true)
      × (v.sysret_rip ≡ t.user_rip)
      × (v.sysret_rsp ≡ t.user_rsp)
unfolding after_exit
wait_then_exit pid code t u tv uv moved user rip rsp kept lt other child_of =
    let parent = t.procs.current in
    let (child, waits) = wait_entered pid t tv moved in
    let left = kept ∙ waits.waits in
    let found : process_find parent (after_exit code u).procs ≡ some parent =
      process_find_self parent (after_exit code u).procs (pids_after_exit code u uv) lt in
    let same : (after_exit code u).procs.table parent ≡ u.procs.table parent = ground arith in
    let waiting = same ∙ left in
    let can : can_return (u.procs.table parent) ≡ true = rw left (ground arith) in
    let (result, back) =
      sys_exit_returns code parent u (λ z. user (sym child_of ∙ z))
        (ap (λ (q : ℕ). process_find q (after_exit code u).procs) child_of ∙ found)
        (λ e. other (sym e)) can in
    (
      result,
      back.now,
      back.runs,
      back.root ∙ ap (λ (p : Process). p.address_space.pml4_phys) waiting,
      back.overrides,
      back.goes_to ∙ ap (λ (p : Process). p.wait_return_rip) waiting,
      back.with_stack ∙ ap (λ (p : Process). p.wait_return_rsp) waiting,
    )
