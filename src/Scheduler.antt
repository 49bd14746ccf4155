-- ===== src/Scheduler.antt =====
-- kernel/scheduler.c: the kernel threads, the run queue of each processor, and the switch on a timer
-- interrupt. A pointer to a thread is a number: below 32 the index in `threads`, and 32 + c for
-- `bootstrap_threads[c]`. The run queue is linked by the fields `next`, as in the code.
pub mod Queue
pub mod Frame
pub mod Invariant
pub mod Wake
pub mod Leave
pub mod Tick
pub mod Fair
pub mod Sleep
mod Tests
use ore_os.Base.{
  Bool, List, Option, add64, codes, false, if◌then◌else◌, leb, ltb, none, not, some, sub64, suc,
  true, update, zero, ℕ, ◌&&◌, ◌+◌, ◌==◌, ◌||◌,
}

abbrev pub max_threads : ℕ
max_threads = 32

abbrev pub max_cpus : ℕ
max_cpus = 64

-- Rounds for a walk along a queue: there are no more threads than these.
abbrev pub queue_fuel : ℕ
queue_fuel = 96

pub data ThreadState : Type 0 where
  runnable running blocked sleeping dead : ThreadState

pub record Thread : Type 0 where
  pub id : ℕ
  pub state : ThreadState
  pub cpu_id : ℕ
  pub saved_sp : ℕ
  pub stack_base : ℕ
  pub stack_top : ℕ
  pub switches : ℕ
  pub entry : ℕ
  pub arg : ℕ
  pub name : Option (List ℕ)
  pub wake_tick : ℕ
  pub next : Option ℕ

pub record SchedulerCpu : Type 0 where
  pub current : Option ℕ
  pub run_queue : Option ℕ
  pub switches : ℕ
  pub started : Bool

-- The static variables of scheduler.c, the counters of timer ticks, and the memory of the stacks in
-- words of 8 bytes.
pub record Sched : Type 0 where
  pub cpus : ℕ → SchedulerCpu
  pub threads : ℕ → Thread
  pub thread_count : ℕ
  pub ticks : ℕ → ℕ
  pub words : ℕ → ℕ

abbrev pub is_runnable : ThreadState → Bool
is_runnable runnable = true
is_runnable _ = false

abbrev pub is_running : ThreadState → Bool
is_running running = true
is_running _ = false

abbrev pub is_sleeping : ThreadState → Bool
is_sleeping sleeping = true
is_sleeping _ = false

abbrev pub store_thread : ℕ → Thread → Sched → Sched
store_thread t th s = record s { threads = update s.threads t th }

abbrev pub set_next : ℕ → Option ℕ → Sched → Sched
set_next t v s = store_thread t (record (s.threads t) { next = v }) s

abbrev pub set_queue : ℕ → Option ℕ → Sched → Sched
set_queue cpu v s = record s { cpus = update s.cpus cpu (record (s.cpus cpu) { run_queue = v }) }

-- `while (tail->next) tail = tail->next`
pub tail_of : (rounds : ℕ) → (ℕ → Thread) → ℕ → ℕ
tail_of zero threads t = t
tail_of (suc n) threads t = elim (threads t).next [ none ↦ t | some u ↦ tail_of n threads u ]

pub enqueue_thread : (cpu t : ℕ) → Sched → Sched
unfolding tail_of
enqueue_thread cpu t s =
    let s1 = set_next t none s in
    elim (s1.cpus cpu).run_queue [
      | none ↦ set_queue cpu (some t) s1
      | some head ↦ set_next (tail_of queue_fuel s1.threads head) (some t) s1
    ]

pub dequeue_thread : (cpu : ℕ) → Sched → Option ℕ × Sched
dequeue_thread cpu s = elim (s.cpus cpu).run_queue [
  | none ↦ (none, s)
  | some t ↦ (some t, set_next t none (set_queue cpu (s.threads t).next s))
]

-- The test of wake_sleepers.
unfoldable pub wakes : (cpu now : ℕ) → Thread → Bool
wakes cpu now th = th.cpu_id == cpu && (is_sleeping th.state && leb th.wake_tick now)

pub wake_one : (cpu now i : ℕ) → Sched → Sched
unfolding wakes enqueue_thread
wake_one cpu now i s =
    let th = s.threads i in
    if wakes cpu now th
    then enqueue_thread cpu i (store_thread i (record th { state = runnable }) s)
    else s

pub wake_from : (rounds i cpu now : ℕ) → Sched → Sched
unfolding wake_one
wake_from zero i cpu now s = s
wake_from (suc n) i cpu now s = wake_from n (i + 1) cpu now (wake_one cpu now i s)

pub wake_sleepers : (cpu : ℕ) → Sched → Sched
unfolding wake_from
wake_sleepers cpu s = wake_from s.thread_count 0 cpu (s.ticks cpu) s

-- scheduler_init
pub scheduler_init : Sched → Sched
scheduler_init s = record s {
  thread_count = 0;
  cpus = λ i.
      if ltb i max_cpus
      then record { current = none; run_queue = none; switches = 0; started = false }
      else s.cpus i;
}

-- `*--sp = value`
abbrev pub push : ℕ → ℕ × (ℕ → ℕ) → ℕ × (ℕ → ℕ)
push value (sp, m) = (sub64 sp 8, update m (sub64 sp 8) value)

-- build_initial_stack: `thread` is the address of the thread, `start` that of thread_entry_asm.
pub build_initial_stack : (thread start stack_top : ℕ) → (ℕ → ℕ) → ℕ × (ℕ → ℕ)
build_initial_stack thread start stack_top m =
    let above = push 0x08 (push 0x202 (push (sub64 stack_top 8) (push 0x10 (stack_top, m)))) in
    let code = push 32 (push 0 (push start above)) in
    let abcd = push 0 (push 0 (push 0 (push 0 code))) in
    let si_di = push thread (push 0 (push 0 abcd)) in
    push 0 (push 0 (push 0 (push 0 (push 0 (push 0 (push 0 (push 0 si_di)))))))

-- thread_create on a processor; `stack` is what pmm_alloc_pages(4) returns, `address` the address of
-- an entry of `threads`, `start` that of thread_entry_asm. The result is the id, or `none` for -1.
pub thread_create :
    (stack start : ℕ) (address : ℕ → ℕ) (fn arg cpu : ℕ)
    → Option (List ℕ)
    → Sched
    → Option ℕ × Sched
unfolding build_initial_stack enqueue_thread
thread_create stack start address fn arg cpu name s =
    let t = s.thread_count in
    let top = add64 stack 16384 in
    let (sp, m) = build_initial_stack (address t) start top s.words in
    let th : Thread = record {
      id = t + 1;
      state = runnable;
      cpu_id = cpu;
      saved_sp = sp;
      stack_base = stack;
      stack_top = top;
      switches = 0;
      entry = fn;
      arg = arg;
      name = name;
      wake_tick = 0;
      next = (s.threads t).next;
    } in
    if fn == 0 || (leb max_cpus cpu || (leb max_threads t || stack == 0)) then (none, s) else (
      some (t + 1),
      enqueue_thread cpu t (record (store_thread t th s) { thread_count = t + 1; words = m }),
    )

-- scheduler_start_current_cpu on the processor `cpu`.
pub scheduler_start_current_cpu : (cpu : ℕ) → Sched → Sched
scheduler_start_current_cpu cpu s =
    let b = max_threads + cpu in
    record (store_thread b
      (record (s.threads b) {
        id = 0;
        state = running;
        cpu_id = cpu;
        name = some (codes "bootstrap");
      })
      s) { cpus = update s.cpus cpu (record (s.cpus cpu) { current = some b; started = cpu == 0 }) }

-- What scheduler_tick does to the thread that is interrupted.
pub leave : Option ℕ → (cpu sp : ℕ) → Sched → Sched
unfolding enqueue_thread
leave none cpu sp s = s
leave (some c) cpu sp s =
    let th = s.threads c in
    if is_running th.state && not (th.id == 0)
    then enqueue_thread cpu c (store_thread c (record th { saved_sp = sp; state = runnable }) s)
    else if not (th.id == 0)
    then store_thread c (record th { saved_sp = sp }) s
    else s

-- And to the thread that goes on.
pub enter : (cpu n : ℕ) → Sched → Sched
enter cpu n s =
    record (store_thread n
      (record (s.threads n) { state = running; switches = add64 (s.threads n).switches 1 }) s) {
        cpus =
            update s.cpus cpu
              (record (s.cpus cpu) { current = some n; switches = add64 (s.cpus cpu).switches 1 });
      }

-- scheduler_tick: the stack pointer to go on with, 0 for the one that was interrupted.
pub scheduler_tick : (cpu sp : ℕ) → Sched → ℕ × Sched
unfolding wake_sleepers dequeue_thread leave enter
scheduler_tick cpu sp s =
    if not (cpu == 0) || not (s.cpus cpu).started
    then (0, s)
    else (let s1 = wake_sleepers cpu s in
        let (next, s2) = dequeue_thread cpu s1 in
        elim next [
          | none ↦ (0, s2)
          | some n ↦
              let s3 = enter cpu n (leave (s1.cpus cpu).current cpu sp s2) in
              ((s3.threads n).saved_sp, s3)
        ])

-- isr_dispatch of kernel/idt.c for the interrupt 32 in kernel code: it counts a tick, and since
-- process_schedule_user_tick does nothing to such a frame, it goes on to scheduler_tick.
pub timer_interrupt : (cpu sp : ℕ) → Sched → ℕ × Sched
unfolding scheduler_tick
timer_interrupt cpu sp s =
    scheduler_tick cpu sp (record s { ticks = update s.ticks cpu (add64 (s.ticks cpu) 1) })

-- thread_yield is `int $32`.
pub thread_yield : (cpu sp : ℕ) → Sched → ℕ × Sched
thread_yield = timer_interrupt

-- thread_sleep of the current thread of `cpu`, up to its return or the switch to another thread.
pub thread_sleep : (cpu ticks sp : ℕ) → Sched → ℕ × Sched
unfolding thread_yield
thread_sleep cpu ticks sp s = elim (s.cpus cpu).current [
  | none ↦ (0, s)
  | some c ↦
      let th = s.threads c in
      let asleep =
        store_thread c (record th { wake_tick = add64 (s.ticks cpu) ticks; state = sleeping }) s in
      if not (cpu == 0) || th.id == 0 then (0, s) else thread_yield cpu sp asleep
]

-- thread_block on a wait queue with the head `head`: the new head, and as in thread_sleep.
pub thread_block : (cpu sp : ℕ) → (head : Option ℕ) → Sched → Option ℕ × ℕ × Sched
unfolding thread_yield
thread_block cpu sp head s = elim (s.cpus cpu).current [
  | none ↦ (head, 0, s)
  | some c ↦
      let th = s.threads c in
      let waits = store_thread c (record th { state = blocked; next = head }) s in
      let (sp', s') = thread_yield cpu sp waits in
      if th.id == 0 then (head, 0, s) else (some c, sp', s')
]

pub thread_unblock : ℕ → Sched → Sched
unfolding enqueue_thread
thread_unblock t s =
    let th = s.threads t in
    if is_runnable th.state || is_running th.state
    then s
    else enqueue_thread th.cpu_id t (store_thread t (record th { state = runnable }) s)
