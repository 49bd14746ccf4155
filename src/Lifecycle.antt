-- ===== src/Lifecycle.antt =====
-- The calls of kernel/syscall.c that move the processor between processes: exit, yield, wait and the
-- common part of the calls that enter a child. The result of a call is a uint64_t; an error is the
-- two's complement of its number.
pub mod Keep
pub mod Wait
pub mod Return
pub mod Stale
mod Tests
use ore_os.Base.{
  Bool, Option, false, if◌then◌else◌, ltb, none, not, some, true, u32_mod, u64_mod, ℕ, ◌%◌, ◌&&◌,
  ◌+◌, ◌-◌, ◌==◌, ◌^◌, ◌||◌,
}
use ore_os.Process.{
  ProcState, Process, Procs, blocked, exited, is_ready, is_running, next_ready_process,
  process_find, process_set_current, put, ready, resume_rip, resume_rsp,
}

abbrev pub einval : ℕ
einval = 22

-- `(uint64_t)-e`
abbrev pub err : ℕ → ℕ
err e = u64_mod - e

-- The process table with what the system call entry saved of the caller, and what the return path
-- reads: g_syscall_user_rip, g_syscall_user_rsp, g_sysret_override, g_sysret_rip and g_sysret_rsp.
pub record Trap : Type 0 where
  pub procs : Procs
  pub user_rip : ℕ
  pub user_rsp : ℕ
  pub sysret_override : Bool
  pub sysret_rip : ℕ
  pub sysret_rsp : ℕ

abbrev pub current_process : Trap → Process
current_process t = t.procs.table t.procs.current

-- `*process = p` for the process with the index `i`.
abbrev pub store : ℕ → Process → Trap → Trap
store i p t = record t { procs = put i p t.procs }

pub syscall_override_return : (rip rsp : ℕ) → Trap → Trap
syscall_override_return rip rsp t = record t {
  sysret_override = true;
  sysret_rip = rip;
  sysret_rsp = rsp;
}

abbrev pub write_cr3 : ℕ → Trap → Trap
write_cr3 root t = record t { procs = record t.procs { cr3 = root } }

abbrev pub set_current : ℕ → Trap → Trap
set_current i t = record t { procs = process_set_current i t.procs }

pub enter_process_from_syscall : ℕ → Trap → Trap
unfolding syscall_override_return
enter_process_from_syscall next t =
    let t1 = set_current next t in
    let p = t1.procs.table next in
    let t2 = write_cr3 p.address_space.pml4_phys t1 in
    syscall_override_return (resume_rip p) (resume_rsp p) t2

-- The caller of a yield that still runs.
pub yield_from : Trap → Process → Process
yield_from t p =
    if is_running p.state
    then record p { saved_user_rip = t.user_rip; saved_user_rsp = t.user_rsp; state = ready }
    else p

-- schedule_next_from_syscall, the whole of ORE_SYS_YIELD; the call returns 0.
pub schedule_next_from_syscall : Trap → Trap
unfolding yield_from enter_process_from_syscall
schedule_next_from_syscall t = elim (next_ready_process (current_process t).pid t.procs) [
  | none ↦ t
  | some next ↦
      enter_process_from_syscall next (store t.procs.current (yield_from t (current_process t)) t)
]

-- The process that exits; the exit code is an int32_t, here its 32 bits.
pub exit_with : (code : ℕ) → Process → Process
exit_with code p = record p {
  exited = true;
  exit_code = code % u32_mod;
  state = exited;
  saved_user_rip = 0;
  saved_user_rsp = 0;
}

-- The parent goes on behind its call of wait.
pub return_to_parent : (parent : ℕ) → Trap → Trap
unfolding syscall_override_return
return_to_parent parent t =
    let t1 = set_current parent t in
    let p = t1.procs.table parent in
    let t2 =
      syscall_override_return p.wait_return_rip p.wait_return_rsp
        (write_cr3 p.address_space.pml4_phys t1) in
    store parent (record p { wait_return_rip = 0; wait_return_rsp = 0; waiting_for_pid = 0 }) t2

abbrev pub is_blocked : ProcState → Bool
is_blocked blocked = true
is_blocked _ = false

-- A parent that waits for the process `pid` without a place to return to becomes ready.
pub wake_parent : (parent pid : ℕ) → Trap → Trap
wake_parent parent pid t =
    let p = t.procs.table parent in
    if is_blocked p.state && p.waiting_for_pid == pid
    then store parent (record p { waiting_for_pid = 0; state = ready }) t
    else t

-- The end of ORE_SYS_EXIT: the next process, or the processor halts for good (`none`).
pub exit_to_next : (pid : ℕ) → Trap → Option ℕ × Trap
unfolding enter_process_from_syscall
exit_to_next pid t = elim (next_ready_process pid t.procs) [
  | some next ↦ (some 0, enter_process_from_syscall next t)
  | none ↦ (none, t)
]

-- Whether the parent has a place to return to.
abbrev pub can_return : Process → Bool
can_return p = not (p.wait_return_rip == 0) && not (p.wait_return_rsp == 0)

-- ORE_SYS_EXIT
pub sys_exit : (code : ℕ) → Trap → Option ℕ × Trap
unfolding exit_with return_to_parent wake_parent exit_to_next
sys_exit code t =
    let me = t.procs.current in
    let p = exit_with code (current_process t) in
    let t1 = store me p t in
    let alone = exit_to_next p.pid t1 in
    if p.parent_pid == 0 then alone else elim (process_find p.parent_pid t1.procs) [
      | none ↦ alone
      | some parent ↦
          if can_return (t1.procs.table parent)
          then (some p.exit_code, return_to_parent parent t1)
          else exit_to_next p.pid (wake_parent parent p.pid t1)
    ]

-- The current process waits for the child `pid` and the child is entered.
pub block_and_enter : (child : ℕ) → Trap → Trap
unfolding enter_process_from_syscall
block_and_enter child t =
    let me = current_process t in
    enter_process_from_syscall child (
      store t.procs.current
        (record me {
          wait_return_rip = t.user_rip;
          wait_return_rsp = t.user_rsp;
          waiting_for_pid = (t.procs.table child).pid;
          state = blocked;
        })
        t)

-- `(uint64_t)code` for an int32_t.
pub sign_extend_32 : ℕ → ℕ
sign_extend_32 code = if ltb code (2 ^ 31) then code else code + (u64_mod - u32_mod)

-- ORE_SYS_WAIT, behind the count of the calls of the process.
pub sys_wait : (pid : ℕ) → Trap → ℕ × Trap
unfolding block_and_enter sign_extend_32
sys_wait pid t = elim (process_find (pid % u32_mod) t.procs) [
  | none ↦ (err einval, t)
  | some child ↦
      let c = t.procs.table child in
      let me = current_process t in
      if c.pid == me.pid || not (c.parent_pid == me.pid)
      then (err einval, t)
      else if is_ready c.state
      then (0, block_and_enter child t)
      else (sign_extend_32 c.exit_code, t)
]
