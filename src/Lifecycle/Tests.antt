-- ===== src/Lifecycle/Tests.antt =====
-- Calls of kernel/syscall.c that switch processes, on a table with a parent (pid 2) and two children.
use ore_os.Base.{Bool, arith, false, if◌then◌else◌, none, refl, some, true, ℕ, ◌==◌, ◌≡◌, ◌≢◌, ◌⊎◌}
use ore_os.Process.{
  ProcState, Process, Procs, blocked, is_ready, is_running, next_ready_process, process_find,
  process_schedule_user_tick, process_set_current, ready, running, zero_process,
}
use ore_os.Process.Frame.{InterruptFrame, fresh_frame}
use ore_os.Process.Invariant.{IsValid}
use ore_os.Lifecycle.{
  Trap, einval, err, schedule_next_from_syscall, sign_extend_32, sys_exit, sys_wait,
}
use ore_os.Lifecycle.Keep.{schedule_next_from_syscall-IsValid, sys_exit-IsValid}
use ore_os.Lifecycle.Wait.{
  Returned, Waiting, after_exit, sys_exit_returns, sys_wait-IsValid, sys_wait_lem,
}
use ore_os.Lifecycle.Return.{wait_then_exit}
use ore_os.Lifecycle.Stale.{yield_then_tick}

abbrev process : ℕ → ℕ → ProcState → Process
process i parent state = record zero_process {
  pid = i;
  parent_pid = parent;
  state = state;
  user_entry = 0x8000000000;
  user_stack = 0x9000000000;
}

abbrev before_wait : ℕ → Process
before_wait i =
    if i == 0
    then process 0 0 running
    else if i == 1
    then process 1 0 blocked
    else if i == 2
    then process 2 1 running
    else process i 2 ready

abbrev trap : (ℕ → Process) → ℕ → Trap
trap table current = record {
  procs = record { table = table; count = 5; current = current; cr3 = 0 };
  user_rip = 0x8000000100;
  user_rsp = 0x8fffffff00;
  sysret_override = false;
  sysret_rip = 0;
  sysret_rsp = 0;
}

abbrev start : Trap
start = trap before_wait 2

start-IsValid : IsValid start.procs
start-IsValid = record {
  pids = λ i h. ground arith;
  room = omega arith;
  current_in = omega arith;
  one_runs = λ i lo hi r. ground arith;
}

schedule_next_from_syscall-IsValid_test : IsValid (schedule_next_from_syscall start).procs
schedule_next_from_syscall-IsValid_test = schedule_next_from_syscall-IsValid start start-IsValid

sys_exit-IsValid_test : IsValid (sys_exit 3 start).1.procs
sys_exit-IsValid_test = sys_exit-IsValid 3 start start-IsValid

wait_for_three : (sys_wait 3 start).0 ≡ 0
unfolding sys_wait process_find
wait_for_three = refl

sys_wait-IsValid_test : IsValid (sys_wait 3 start).1.procs
sys_wait-IsValid_test = sys_wait-IsValid 3 start start-IsValid

-- The parent waits for 3, and its other child 4 runs and exits.
abbrev waiting : ℕ → Process
waiting i =
    if i == 2
    then record (process 2 1 blocked) {
      wait_return_rip = 0x8000000100;
      wait_return_rsp = 0x8fffffff00;
      waiting_for_pid = 3;
    }
    else if i == 4
    then process 4 2 running
    else before_wait i

abbrev other_child : Trap
other_child = trap waiting 4

sys_exit_returns_test :
    ((sys_exit 77 other_child).0 ≡ some 77)
    × Returned (after_exit 77 other_child) 2 (sys_exit 77 other_child).1
unfolding process_find after_exit
sys_exit_returns_test = sys_exit_returns 77 2 other_child (omega arith) refl (omega arith) refl

-- The process 2 has a frame of an earlier tick, and yields to 3.
abbrev old_frame : InterruptFrame
old_frame = record (fresh_frame 0x8000000050 0x8fffffff80) { rax = 9 }

abbrev framed : ℕ → Process
framed i =
    if i == 2
    then record (process 2 1 running) { has_user_frame = true; user_frame = old_frame }
    else if i == 3
    then process 3 2 ready
    else process i 0 blocked

abbrev yields : Trap
yields = trap framed 2

abbrev yielded : Procs
yielded = (schedule_next_from_syscall yields).procs

abbrev back : Bool × InterruptFrame × Procs
back = process_schedule_user_tick (fresh_frame 0x8000000000 0x9000000000) yielded

yield_then_tick_example : back.1 ≡ old_frame
unfolding process_schedule_user_tick next_ready_process schedule_next_from_syscall
    process_set_current
yield_then_tick_example =
    yield_then_tick yields yielded back.2 (fresh_frame 0x8000000000 0x9000000000) back.1 {next = 3}
      refl refl refl refl refl refl

sys_wait_lem_example :
    let (r, u) = sys_wait 3 start in
    (r ≡ err einval)
      × (u ≡ start)
      × (process_find 3 start.procs ≡ none
          ⊎ (child : ℕ) × (process_find 3 start.procs ≡ some child)
            × ((child ≡ 2) ⊎ ((start.procs.table child).parent_pid ≢ 2)))
    ⊎ ((child : ℕ) × (process_find 3 start.procs ≡ some child)
        × (child ≢ 2)
        × ((start.procs.table child).parent_pid ≡ 2)
        × ((is_ready (start.procs.table child).state ≡ true) × (r ≡ 0) × Waiting start child u
            ⊎ (is_ready (start.procs.table child).state ≡ false)
              × (r ≡ sign_extend_32 (start.procs.table child).exit_code)
              × (u ≡ start)))
sys_wait_lem_example = sys_wait_lem 3 start start-IsValid

-- The child 3 that the wait has entered.
abbrev waited : Trap
waited = (sys_wait 3 start).1

wait_then_exit_example :
    let (result, v) = sys_exit 77 waited in
    (result ≡ some 77)
    × (v.procs.current ≡ 2)
    × (is_running (v.procs.table 2).state ≡ true)
    × (v.procs.cr3 ≡ (before_wait 2).address_space.pml4_phys)
    × (v.sysret_override ≡ true)
    × (v.sysret_rip ≡ 0x8000000100)
    × (v.sysret_rsp ≡ 0x8fffffff00)
unfolding sys_wait process_find process_set_current
wait_then_exit_example =
    wait_then_exit 3 77 start waited start-IsValid (sys_wait-IsValid 3 start start-IsValid)
      (omega arith) (omega arith) (omega arith) (omega arith) refl (omega arith) (omega arith) refl
