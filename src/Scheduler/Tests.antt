-- ===== src/Scheduler/Tests.antt =====
-- kernel/scheduler.c with four threads: 2 runs, 0 and 3 wait in this order, 1 sleeps until tick 5.
use ore_os.Base.{
  List, Option, [], arith, if◌then◌else◌, none, refl, some, true, ℕ, ◌++◌, ◌+◌, ◌<◌, ◌==◌, ◌∷◌, ◌≡◌,
  ◌≤◌, ◌⊎◌,
}
use ore_os.Scheduler.{
  Sched, Thread, ThreadState, build_initial_stack, dead, enqueue_thread, max_threads, runnable,
  running, scheduler_tick, sleeping, thread_create, thread_sleep, thread_unblock, timer_interrupt,
  wakes,
}
use ore_os.Scheduler.Queue.{IsQueue, enqueue_thread-IsQueue}
use ore_os.Scheduler.Invariant.{IsValid}
use ore_os.Scheduler.Tick.{SwitchedTo, ready_list, scheduler_tick_lem}
use ore_os.Scheduler.Fair.{after_ticks, no_starvation}
use ore_os.Scheduler.Sleep.{
  thread_create_lem, thread_sleep_returns, thread_sleep_switches, thread_unblock-IsValid,
}
use ore_os.Scheduler.Frame.{build_initial_stack_lem, read_frame, start_frame}

abbrev thread : ℕ → ThreadState → Option ℕ → Thread
thread i state next = record {
  id = i + 1;
  state = state;
  cpu_id = 0;
  saved_sp = 0x200000 + i;
  stack_base = 0x1fc000;
  stack_top = 0x200000;
  switches = 0;
  entry = 0x100000;
  arg = 0;
  name = none;
  wake_tick = 5;
  next = next;
}

abbrev table : ℕ → Thread
table i =
    if i == 0
    then thread 0 runnable (some 3)
    else if i == 1
    then thread 1 sleeping none
    else if i == 2
    then thread 2 running none
    else if i == 3
    then thread 3 runnable none
    else thread i dead none

abbrev sched_of : (ℕ → Thread) → Option ℕ → Sched
sched_of threads queue = record {
  cpus = λ c. record { current = some 2; run_queue = queue; switches = 7; started = true };
  threads = threads;
  thread_count = 4;
  ticks = λ c. 4;
  words = λ a. 0;
}

abbrev start : Sched
start = sched_of table (some 0)

start-IsQueue : IsQueue start 0 (0 ∷ (3 ∷ []))
start-IsQueue = record { chain = (refl, (refl, refl)); once = refl; known = refl }

start-IsValid : IsValid start (0 ∷ (3 ∷ []))
start-IsValid = record {
  queue = start-IsQueue;
  members = record {
    few = omega arith;
    ids = λ i lt. ground arith;
    listed = λ i h. ground arith;
    complete = λ i lt ci r. ground arith;
    known = λ c h. ground arith;
    one_runs = λ i lt ci r. ground arith;
  };
}

-- Only 2 is left.
abbrev lone_table : ℕ → Thread
lone_table i = if i == 2 then thread 2 running none else thread i dead none

abbrev lone : Sched
lone = sched_of lone_table none

lone-IsValid : IsValid lone []
lone-IsValid = record {
  queue = record { chain = refl; once = refl; known = refl };
  members = record {
    few = omega arith;
    ids = λ i lt. ground arith;
    listed = λ i h. ground arith;
    complete = λ i lt ci r. ground arith;
    known = λ c h. ground arith;
    one_runs = λ i lt ci r. ground arith;
  };
}

enqueue_thread-IsQueue_example : IsQueue (enqueue_thread 0 1 start) 0 (0 ∷ (3 ∷ (1 ∷ [])))
enqueue_thread-IsQueue_example =
    enqueue_thread-IsQueue start 0 1 (0 ∷ (3 ∷ [])) start-IsQueue refl (omega arith)

scheduler_tick_lem_example :
    let (sp', s') = scheduler_tick 0 0x1ff000 start in
    (ready_list start (0 ∷ (3 ∷ [])) ≡ [])
      × (sp' ≡ 0)
      × IsValid s' []
      × ((s'.cpus 0).current ≡ some 2)
    ⊎ ((x : ℕ) × (rest : List ℕ) × (ready_list start (0 ∷ (3 ∷ [])) ≡ x ∷ rest)
        × SwitchedTo start 0x1ff000 x rest sp' s')
scheduler_tick_lem_example = scheduler_tick_lem 0x1ff000 start (0 ∷ (3 ∷ [])) start-IsValid refl

-- The switch goes to 0, and the tick at which 1 wakes puts it behind 3.
tick_current : ((timer_interrupt 0 0x1ff000 start).1.cpus 0).current ≡ some 0
unfolding timer_interrupt wakes
tick_current = refl

no_starvation_example : ((after_ticks 2 (λ n. 0x1ff000 + n) start).cpus 0).current ≡ some 3
no_starvation_example = no_starvation (λ n. 0x1ff000 + n) (0 ∷ []) start 3 [] start-IsValid refl

thread_unblock-IsValid_test : IsValid (thread_unblock 1 start) (0 ∷ (3 ∷ (1 ∷ [])))
thread_unblock-IsValid_test =
    thread_unblock-IsValid 1 start (0 ∷ (3 ∷ [])) start-IsValid (omega arith) refl

abbrev stack : ℕ
stack = 0x300000

abbrev fn : ℕ
fn = 0x102000

thread_create_lem_test :
    let (r, s') = thread_create stack 0x101000 (λ i. 0x110000 + i) fn 9 0 none start in
    ((fn ≡ 0) ⊎ (max_threads ≤ 4) ⊎ (stack ≡ 0)) × (r ≡ none) × (s' ≡ start)
    ⊎ (r ≡ some 5)
      × (s'.thread_count ≡ 5)
      × ((s'.threads 4).entry ≡ fn)
      × ((s'.threads 4).arg ≡ 9)
      × IsValid s' (0 ∷ (3 ∷ (4 ∷ [])))
thread_create_lem_test =
    thread_create_lem stack 0x101000 (λ i. 0x110000 + i) fn 9 none start (0 ∷ (3 ∷ []))
      start-IsValid

thread_sleep_switches_test :
    let s' = (thread_sleep 0 10 0x1ff000 start).1 in
    ((s'.cpus 0).current ≡ some 0) × ((woken : List ℕ) × IsValid s' (3 ∷ [] ++ woken))
thread_sleep_switches_test =
    thread_sleep_switches 10 0x1ff000 start 2 0 (3 ∷ []) start-IsValid refl refl refl
      (λ e. omega arith)

thread_sleep_returns_test :
    let (sp', s') = thread_sleep 0 10 0x1ff000 lone in (sp' ≡ 0) × ((s'.cpus 0).current ≡ some 2)
thread_sleep_returns_test =
    thread_sleep_returns 10 0x1ff000 lone 2 lone-IsValid refl refl refl (λ e. omega arith)
      (λ j. ground arith) (omega arith) (omega arith)

build_initial_stack_lem_test :
    let (sp, m') = build_initial_stack 0x110000 0x101000 0x304000 (λ a. 0) in
    (sp ≡ 0x303f50)
    × (read_frame m' 0x303f50 ≡ start_frame 0x110000 0x101000 0x304000)
    × ((a : ℕ) → (a < 0x303f50) ⊎ (0x304000 ≤ a) → m' a ≡ 0)
build_initial_stack_lem_test =
    build_initial_stack_lem 0x110000 0x101000 0x304000 (λ a. 0) (omega arith) (omega arith)
