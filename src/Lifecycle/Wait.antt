-- ===== src/Lifecycle/Wait.antt =====
-- A parent that waits, and what brings it back (ORE_SYS_WAIT and ORE_SYS_EXIT, kernel/syscall.c).
use ore_os.Lifecycle.Keep.{block_and_enter-IsValid}
use ore_os.Process.Find.{process_find_lem}
use ore_os.Base.{
  Bool-cases, Option-cases, arith, false, inl, inr, none, not, refl, some, sym, true, u32_mod, ℕ,
  ◌%◌, ◌==◌, ◌||◌, ◌≡◌, ◌≢◌, ◌⊎◌,
}
use ore_os.Process.{
  blocked, is_ready, is_running, process_find, process_set_current, resume_rip, resume_rsp, running,
}
use ore_os.Process.Invariant.{IsValid}
use ore_os.Lifecycle.{
  Trap, block_and_enter, can_return, current_process, einval, err, exit_with, return_to_parent,
  sign_extend_32, store, sys_exit, sys_wait,
}

-- What ORE_SYS_WAIT on a child that is ready leaves.
pub record Waiting (t : Trap) (child : ℕ) (u : Trap) : Type 0 where
  pub now : u.procs.current ≡ child
  pub count : u.procs.count ≡ t.procs.count
  pub runs : u.procs.table child ≡ record (t.procs.table child) { state = running }
  pub waits : u.procs.table t.procs.current ≡ record (current_process t) {
    wait_return_rip = t.user_rip;
    wait_return_rsp = t.user_rsp;
    waiting_for_pid = (t.procs.table child).pid;
    state = blocked;
  }
  pub goes_to : u.sysret_rip ≡ resume_rip (t.procs.table child)
  pub with_stack : u.sysret_rsp ≡ resume_rsp (t.procs.table child)
  pub overrides : u.sysret_override ≡ true
  pub root : u.procs.cr3 ≡ (t.procs.table child).address_space.pml4_phys

block_and_enter-Waiting :
    (child : ℕ) (t : Trap) → t.procs.current ≢ child → Waiting t child (block_and_enter child t)
unfolding block_and_enter process_set_current
block_and_enter-Waiting child t ne =
    let e : (t.procs.current == child) ≡ false = ground arith in
    let e' : (child == t.procs.current) ≡ false = ground arith in
    record {
      now = refl;
      count = refl;
      runs = ground arith;
      waits = ground arith;
      goes_to = ground arith;
      with_stack = ground arith;
      overrides = refl;
      root = ground arith;
    }

-- ORE_SYS_WAIT, in all cases: without such a process, for the caller itself and for a process that is
-- not its child it is EINVAL and changes nothing; a child that is ready is entered, and the caller is
-- blocked with its return address; for any other child the exit code that stands in the table is
-- returned and nothing changes.
pub sys_wait_lem :
    (pid : ℕ) (t : Trap)
    → IsValid t.procs
    → let (r, u) = sys_wait pid t in
      (r ≡ err einval)
        × (u ≡ t)
        × (process_find (pid % u32_mod) t.procs ≡ none
            ⊎ (child : ℕ) × (process_find (pid % u32_mod) t.procs ≡ some child)
              × ((child ≡ t.procs.current) ⊎ ((t.procs.table child).parent_pid ≢ t.procs.current)))
      ⊎ ((child : ℕ) × (process_find (pid % u32_mod) t.procs ≡ some child)
          × (child ≢ t.procs.current)
          × ((t.procs.table child).parent_pid ≡ t.procs.current)
          × ((is_ready (t.procs.table child).state ≡ true) × (r ≡ 0) × Waiting t child u
              ⊎ (is_ready (t.procs.table child).state ≡ false)
                × (r ≡ sign_extend_32 (t.procs.table child).exit_code)
                × (u ≡ t)))
unfolding sys_wait
sys_wait_lem pid t v = elim (Option-cases (process_find (pid % u32_mod) t.procs)) [
  | inl nobody ↦ rw (sys_wait, nobody) (inl (refl, refl, inl refl))
  | inr (child, found) ↦
      let c = t.procs.table child in
      let me = current_process t in
      let lt = (process_find_lem (pid % u32_mod) t.procs found).0 in
      let cp = v.pids child lt in
      let mp = v.pids t.procs.current v.current_in in
      elim (Bool-cases (c.pid == me.pid || not (c.parent_pid == me.pid))) [
        | inl refused ↦
            rw (sys_wait, found, refused)
              (inl (
                refl,
                refl,
                inr (
                  child,
                  refl,
                  elim (Bool-cases (c.pid == me.pid)) [
                    | inl self ↦ inl (ground arith)
                    | inr other ↦ inr (ground arith)
                  ],
                ),
              ))
        | inr child_of ↦
            let ne : child ≢ t.procs.current = λ e. ground arith in
            let parent : c.parent_pid ≡ t.procs.current = ground arith in
            elim (Bool-cases (is_ready c.state)) [
              | inl r ↦
                  rw (sys_wait, found, child_of, r)
                    (inr (
                      child,
                      refl,
                      ne,
                      parent,
                      inl (r, refl, block_and_enter-Waiting child t (λ e. ne (sym e))),
                    ))
              | inr nr ↦
                  rw (sys_wait, found, child_of, nr)
                    (inr (child, refl, ne, parent, inr (nr, refl, refl)))
            ]
      ]
]

-- What the exit of a child leaves, if it brings back its parent: the state `t1` is the one in which the
-- child is marked as exited.
pub record Returned (t1 : Trap) (parent : ℕ) (u : Trap) : Type 0 where
  pub now : u.procs.current ≡ parent
  pub goes_to : u.sysret_rip ≡ (t1.procs.table parent).wait_return_rip
  pub with_stack : u.sysret_rsp ≡ (t1.procs.table parent).wait_return_rsp
  pub overrides : u.sysret_override ≡ true
  pub runs : is_running (u.procs.table parent).state ≡ true
  pub cleared : (u.procs.table parent).wait_return_rip ≡ 0
  pub root : u.procs.cr3 ≡ (t1.procs.table parent).address_space.pml4_phys
  pub rest : (i : ℕ) → i ≢ parent → u.procs.table i ≡ t1.procs.table i

return_to_parent-Returned :
    (parent : ℕ) (t1 : Trap) → Returned t1 parent (return_to_parent parent t1)
unfolding return_to_parent process_set_current
return_to_parent-Returned parent t1 = record {
  now = refl;
  goes_to = ground arith;
  with_stack = ground arith;
  overrides = refl;
  runs = ground arith;
  cleared = ground arith;
  root = ground arith;
  rest = λ i ne. ground arith;
}

-- The state in which the current process is marked as exited.
unfoldable pub after_exit : ℕ → Trap → Trap
unfolding exit_with
after_exit code t = store t.procs.current (exit_with code (current_process t)) t

-- When the current process exits and its parent, another process of the table, has a place to return
-- to, the parent goes on there with the exit code of this process, whichever process it waits for.
pub sys_exit_returns :
    (code parent : ℕ) (t : Trap)
    → (current_process t).parent_pid ≢ 0
    → process_find (current_process t).parent_pid (after_exit code t).procs ≡ some parent
    → parent ≢ t.procs.current
    → can_return (t.procs.table parent) ≡ true
    → ((sys_exit code t).0 ≡ some (code % u32_mod))
      × Returned (after_exit code t) parent (sys_exit code t).1
unfolding sys_exit after_exit exit_with
sys_exit_returns code parent t has found ne back =
    let p = exit_with code (current_process t) in
    let orphan : (p.parent_pid == 0) ≡ false = ground arith in
    let t1 = store t.procs.current p t in
    let back' : can_return (t1.procs.table parent) ≡ true = ground arith in
    rw (sys_exit, orphan, found, back') (refl, return_to_parent-Returned parent t1)

-- ORE_SYS_WAIT keeps the invariant of the process table.
pub sys_wait-IsValid : (pid : ℕ) (t : Trap) → IsValid t.procs → IsValid (sys_wait pid t).1.procs
unfolding sys_wait
sys_wait-IsValid pid t v = elim (Option-cases (process_find (pid % u32_mod) t.procs)) [
  | inl nobody ↦ rw (sys_wait, nobody) v
  | inr (child, found) ↦
      let c = t.procs.table child in
      let me = current_process t in
      elim (Bool-cases (c.pid == me.pid || not (c.parent_pid == me.pid))) [
        | inl refused ↦ rw (sys_wait, found, refused) v
        | inr child_of ↦ elim (Bool-cases (is_ready c.state)) [
          | inr nr ↦ rw (sys_wait, found, child_of, nr) v
          | inl r ↦
              rw (sys_wait, found, child_of, r)
                (block_and_enter-IsValid child t v
                  (process_find_lem (pid % u32_mod) t.procs found).0)
        ]
      ]
]
