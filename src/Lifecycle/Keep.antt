-- ===== src/Lifecycle/Keep.antt =====
-- The calls of kernel/syscall.c that switch processes keep the invariant of the process table.
use ore_os.Process.Ready.{next_ready_process-IsNext}
use ore_os.Lifecycle.{
  Trap, block_and_enter, can_return, current_process, enter_process_from_syscall, exit_to_next,
  exit_with, is_blocked, return_to_parent, schedule_next_from_syscall, store, sys_exit,
  syscall_override_return, wake_parent, yield_from,
}
use ore_os.Base.{
  Bool-cases, Option-cases, arith, false, inl, inr, refl, some, some_injective, sym, true,
  true-false, u32_mod, ℕ, ◌%◌, ◌&&◌, ◌<◌, ◌==◌, ◌∙◌, ◌≡◌, ◌≤◌,
}
use ore_os.Process.Find.{process_find_lem}
use ore_os.Process.{
  Process, Procs, blocked, eligible, is_running, next_ready_process, process_find,
  process_set_current, put, ready,
}
use ore_os.Process.Invariant.{IsValid}

-- The current process, unless it is the kernel's, does not run.
abbrev pub AtRest : Procs → Type 0
AtRest s = 1 ≤ s.current → is_running (s.table s.current).state ≡ false

pub put-IsValid :
    (i : ℕ) (p : Process) (s : Procs)
    → IsValid s
    → i < s.count
    → p.pid ≡ i
    → (1 ≤ i → is_running p.state ≡ true → is_running (s.table i).state ≡ true)
    → IsValid (put i p s)
put-IsValid i p s v lt pid quiet = record {
  pids = λ j h. ground (arith, v.pids j h, pid);
  room = v.room;
  current_in = v.current_in;
  one_runs = λ j lo hi r. ground (arith, v.one_runs j lo hi, quiet);
}

pub set_current-IsValid :
    (i : ℕ) (s : Procs) → IsValid s → i < s.count → AtRest s → IsValid (process_set_current i s)
unfolding process_set_current
set_current-IsValid i s v lt rest = record {
  pids = λ j h. ground (arith, v.pids j h, v.pids i lt);
  room = v.room;
  current_in = lt;
  one_runs = λ j lo hi r. elim (Bool-cases (i == j)) [
    | inl here ↦ ground arith
    | inr nh ↦
        let r' : is_running (s.table j).state ≡ true = ground arith in
        let e = v.one_runs j lo hi r' in absurd (true-false (sym r' ∙ (rw (sym e) at rest) lo))
  ];
}

enter-IsValid :
    (next : ℕ) (t : Trap)
    → IsValid t.procs
    → next < t.procs.count
    → AtRest t.procs
    → IsValid (enter_process_from_syscall next t).procs
unfolding enter_process_from_syscall syscall_override_return
enter-IsValid next t v lt rest =
    let w = set_current-IsValid next t.procs v lt rest in
    record { pids = w.pids; room = w.room; current_in = w.current_in; one_runs = w.one_runs }

pub next_in_table :
    (pid : ℕ) (s : Procs) {i : ℕ}
    → next_ready_process pid s ≡ some i
    → (1 ≤ i) × (i < s.count) × (eligible pid (s.table i) ≡ true)
next_in_table pid s {i} e = elim (next_ready_process-IsNext pid s) [
  | inl (j, e', is) ↦
      let here : j ≡ i = some_injective (sym e' ∙ e) in
      rw (← here) (is.positive, is.in_table, is.fits)
  | inr (e', none_there) ↦ let e'' = sym e' ∙ e in cc
]

yield_from_facts :
    (t : Trap) (p : Process)
    → ((yield_from t p).pid ≡ p.pid) × (is_running (yield_from t p).state ≡ false)
unfolding yield_from
yield_from_facts t p = ground arith

-- ORE_SYS_YIELD keeps the invariant of the process table.
pub schedule_next_from_syscall-IsValid :
    (t : Trap) → IsValid t.procs → IsValid (schedule_next_from_syscall t).procs
unfolding schedule_next_from_syscall
schedule_next_from_syscall-IsValid t v =
    let me = t.procs.current in
    let p = current_process t in
    let facts = yield_from_facts t p in
    elim (Option-cases (next_ready_process p.pid t.procs)) [
      | inl nothing ↦ rw (schedule_next_from_syscall, nothing) v
      | inr (next, found) ↦
          let w =
            put-IsValid me (yield_from t p) t.procs v v.current_in
              (facts.0 ∙ v.pids me v.current_in) (λ lo r. absurd (true-false (sym r ∙ facts.1))) in
          rw (schedule_next_from_syscall, found)
            (enter-IsValid next (store me (yield_from t p) t) w
              (next_in_table p.pid t.procs found).1 (λ lo. ground (arith, facts.1)))
    ]

exit_with_facts :
    (code : ℕ) (p : Process)
    → ((exit_with code p).pid ≡ p.pid)
      × (is_running (exit_with code p).state ≡ false)
      × ((exit_with code p).parent_pid ≡ p.parent_pid)
      × ((exit_with code p).exit_code ≡ code % u32_mod)
unfolding exit_with
exit_with_facts code p = (refl, refl, refl, refl)

return_to_parent-IsValid :
    (parent : ℕ) (t : Trap)
    → IsValid t.procs
    → parent < t.procs.count
    → AtRest t.procs
    → IsValid (return_to_parent parent t).procs
unfolding return_to_parent syscall_override_return
return_to_parent-IsValid parent t v lt rest =
    let w = set_current-IsValid parent t.procs v lt rest in
    let s = process_set_current parent t.procs in
    let p = s.table parent in
    let q : Process = record p { wait_return_rip = 0; wait_return_rsp = 0; waiting_for_pid = 0 } in
    let count : s.count ≡ t.procs.count = unfold process_set_current in refl in
    let x = put-IsValid parent q s w (omega arith) (w.pids parent (omega arith)) (λ lo r. r) in
    record { pids = x.pids; room = x.room; current_in = x.current_in; one_runs = x.one_runs }

wake_parent-IsValid :
    (parent pid : ℕ) (t : Trap)
    → IsValid t.procs
    → parent < t.procs.count
    → IsValid (wake_parent parent pid t).procs
unfolding wake_parent
wake_parent-IsValid parent pid t v lt =
    let p = t.procs.table parent in
    let q : Process = record p { waiting_for_pid = 0; state = ready } in
    elim (Bool-cases (is_blocked p.state && p.waiting_for_pid == pid)) [
      | inl wake ↦ rw wake (
          put-IsValid parent q t.procs v lt (v.pids parent lt)
            (λ lo r. absurd (true-false (sym r))))
      | inr leave ↦ rw leave v
    ]

wake_parent-AtRest :
    (parent pid : ℕ) (t : Trap) → AtRest t.procs → AtRest (wake_parent parent pid t).procs
unfolding wake_parent
wake_parent-AtRest parent pid t rest lo = ground (arith, rest)

wake_parent_same :
    (parent pid : ℕ) (t : Trap)
    → ((wake_parent parent pid t).procs.count ≡ t.procs.count)
      × ((wake_parent parent pid t).procs.current ≡ t.procs.current)
unfolding wake_parent
wake_parent_same parent pid t = ground arith

exit_to_next-IsValid :
    (pid : ℕ) (t : Trap) → IsValid t.procs → AtRest t.procs → IsValid (exit_to_next pid t).1.procs
unfolding exit_to_next
exit_to_next-IsValid pid t v rest = elim (Option-cases (next_ready_process pid t.procs)) [
  | inl nothing ↦ rw (exit_to_next, nothing) v
  | inr (next, found) ↦
      rw (exit_to_next, found) (enter-IsValid next t v (next_in_table pid t.procs found).1 rest)
]

-- ORE_SYS_EXIT keeps the invariant of the process table.
pub sys_exit-IsValid : (code : ℕ) (t : Trap) → IsValid t.procs → IsValid (sys_exit code t).1.procs
unfolding sys_exit
sys_exit-IsValid code t v =
    let me = t.procs.current in
    let p = exit_with code (current_process t) in
    let f = exit_with_facts code (current_process t) in
    let t1 = store me p t in
    let w =
      put-IsValid me p t.procs v v.current_in (f.0 ∙ v.pids me v.current_in)
        (λ lo r. absurd (true-false (sym r ∙ f.1))) in
    let rest : AtRest t1.procs = λ lo. ground (arith, f.1) in
    elim (Bool-cases (p.parent_pid == 0)) [
      | inl orphan ↦ rw orphan (exit_to_next-IsValid p.pid t1 w rest)
      | inr has_parent ↦ elim (Option-cases (process_find p.parent_pid t1.procs)) [
        | inl nobody ↦ rw (sys_exit, has_parent, nobody) (exit_to_next-IsValid p.pid t1 w rest)
        | inr (parent, found) ↦
            let lt = (process_find_lem p.parent_pid t1.procs found).0 in
            elim (Bool-cases (can_return (t1.procs.table parent))) [
              | inl back ↦
                  rw (sys_exit, has_parent, found, back)
                    (return_to_parent-IsValid parent t1 w lt rest)
              | inr no_place ↦
                  rw (sys_exit, has_parent, found, no_place)
                    (exit_to_next-IsValid p.pid (wake_parent parent p.pid t1)
                      (wake_parent-IsValid parent p.pid t1 w lt)
                      (wake_parent-AtRest parent p.pid t1 rest))
            ]
      ]
    ]

-- The caller is blocked and the child is entered.
pub block_and_enter-IsValid :
    (child : ℕ) (t : Trap)
    → IsValid t.procs
    → child < t.procs.count
    → IsValid (block_and_enter child t).procs
unfolding block_and_enter
block_and_enter-IsValid child t v lt =
    let me = t.procs.current in
    let p : Process = record (current_process t) {
      wait_return_rip = t.user_rip;
      wait_return_rsp = t.user_rsp;
      waiting_for_pid = (t.procs.table child).pid;
      state = blocked;
    } in
    enter-IsValid child (store me p t)
      (put-IsValid me p t.procs v v.current_in (v.pids me v.current_in)
        (λ lo r. absurd (true-false (sym r))))
      lt (λ lo. ground arith)
