-- ===== src/Process/Tests.antt =====
-- The process table of kernel/process.c with a kernel, a first process, and two processes that take
-- turns.
use ore_os.Process.Ready.{IsOther, next_ready_process_lem, rank}
use ore_os.Process.Switch.{Switched, process_schedule_user_tick_lem}
use ore_os.Base.{
  Option, arith, codes, false, if◌then◌else◌, none, refl, some, true, ℕ, ◌%◌, ◌==◌, ◌≡◌, ◌≢◌, ◌≤◌,
  ◌⊎◌,
}
use ore_os.Process.{
  ProcState, Process, Procs, blocked, eligible, is_ready, is_running, next_ready_process,
  process_create_user, process_schedule_user_tick, ready, running, scan_index, zero_process,
}
use ore_os.Process.Frame.{InterruptFrame, fresh_frame}
use ore_os.Process.Resume.{tick_resumes}
use ore_os.Process.Invariant.{
  IsValid, process_create_user-IsValid, process_schedule_user_tick-IsValid,
}

abbrev process : ℕ → ProcState → Process
process i state = record zero_process {
  pid = i;
  state = state;
  user_entry = 0x8000000000;
  user_stack = 0x9000000000;
}

abbrev four : ℕ → Process
four i =
    if i == 0
    then process 0 running
    else if i == 1
    then process 1 blocked
    else if i == 2
    then process 2 running
    else process i ready

abbrev procs : Procs
procs = record { table = four; count = 4; current = 2; cr3 = 0 }

-- An interrupt of user code.
abbrev interrupted : InterruptFrame
interrupted = record (fresh_frame 0x8000000123 0x8fffffff00) { rax = 42 }

abbrev later : InterruptFrame
later = record (fresh_frame 0x8000000777 0x8fffffff00) { rbx = 5 }

procs-IsValid : IsValid procs
procs-IsValid = record {
  pids = λ i h. ground arith;
  room = omega arith;
  current_in = omega arith;
  one_runs = λ i lo hi r. ground arith;
}

abbrev after : Procs
after = (process_schedule_user_tick interrupted procs).2

abbrev after_two : Procs
after_two = (process_schedule_user_tick later after).2

tick_switches : (process_schedule_user_tick interrupted procs).0 ≡ true
unfolding process_schedule_user_tick eligible scan_index
tick_switches = refl

next_is_three : after.current ≡ 3
unfolding process_schedule_user_tick eligible scan_index
next_is_three = refl

process_schedule_user_tick-IsValid_example : IsValid after
process_schedule_user_tick-IsValid_example =
    process_schedule_user_tick-IsValid interrupted procs procs-IsValid

tick_resumes_example : (process_schedule_user_tick later after).1 ≡ interrupted
unfolding process_schedule_user_tick eligible scan_index
tick_resumes_example =
    tick_resumes interrupted (fresh_frame 0x8000000000 0x9000000000) later
      (process_schedule_user_tick later after).1 procs after after after_two refl refl refl refl

abbrev get : Option (ℕ × Procs) → Procs
get none = procs
get (some (i, t)) = t

abbrev created : Procs
created = get (process_create_user 0x5000 (some (codes "/bin/ls")) procs)

process_create_user-IsValid_test :
    let t = created in
    IsValid t × (4 ≡ procs.count) × (t.count ≡ 5) × (is_ready (t.table 4).state ≡ true)
unfolding process_create_user
process_create_user-IsValid_test =
    process_create_user-IsValid 0x5000 (some (codes "/bin/ls")) procs {t = created} procs-IsValid
      refl

next_ready_process_lem_example :
    ((i : ℕ) × (next_ready_process 2 procs ≡ some i)
      × IsOther procs 2 i
      × ((j : ℕ) → IsOther procs 2 j → rank 3 procs.count i ≤ rank 3 procs.count j))
    ⊎ (next_ready_process 2 procs ≡ none) × ((j : ℕ) → ¬ IsOther procs 2 j)
next_ready_process_lem_example = next_ready_process_lem 2 procs (omega arith) (omega arith)

process_schedule_user_tick_lem_example :
    let (switched, frame', t) = process_schedule_user_tick interrupted procs in
    (switched ≡ false)
      × (frame' ≡ interrupted)
      × (t ≡ procs)
      × ((interrupted.cs % 4 ≢ 3)
          ⊎ (is_running (procs.table procs.current).state ≡ false)
          ⊎ ((procs.table procs.current).pid ≡ 1)
          ⊎ (next_ready_process (procs.table procs.current).pid procs ≡ none))
    ⊎ (switched ≡ true)
      × (interrupted.cs % 4 ≡ 3)
      × (is_running (procs.table procs.current).state ≡ true)
      × ((procs.table procs.current).pid ≢ 1)
      × ((next : ℕ) × (next_ready_process (procs.table procs.current).pid procs ≡ some next)
          × Switched interrupted procs next frame' t)
process_schedule_user_tick_lem_example = process_schedule_user_tick_lem interrupted procs
