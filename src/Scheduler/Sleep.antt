-- ===== src/Scheduler/Sleep.antt =====
-- Threads that are created, wait and are woken (kernel/scheduler.c).
use ore_os.Scheduler.Leave.{behind, requeues}
use ore_os.Scheduler.Tick.{scheduler_tick_lem}
use ore_os.Scheduler.Fair.{interrupt_step, not_nil, tick_counted, tick_counted-IsValid}
use ore_os.Scheduler.Wake.{due, due-none}
use ore_os.Scheduler.Queue.{enqueue_thread-IsQueue, enqueue_thread-SameButLinks}
use mathlib.Core.Path.{subst}
use ore_os.Base.{
  Bool-cases, List, Option, [], add64, ap, arith, false, if◌then◌else◌, inl, inr, is_in,
  is_in-append, leb, none, refl, some, sym, true, u64_mod, ℕ, ◌++◌, ◌+◌, ◌<◌, ◌==◌, ◌||◌, ◌∙◌, ◌∷◌,
  ◌≡◌, ◌≢◌, ◌≤◌, ◌⊎◌,
}
use ore_os.Scheduler.{
  Sched, Thread, build_initial_stack, enqueue_thread, is_runnable, is_running, is_sleeping,
  max_cpus, max_threads, runnable, sleeping, store_thread, thread_create, thread_sleep,
  thread_unblock, thread_yield, timer_interrupt, wakes,
}
use ore_os.Scheduler.Invariant.{
  IsValid, Members, Members-SameButLinks, enqueue_thread-IsValid, not_listed, store_thread-IsQueue,
}

-- thread_unblock of a thread of the table that belongs to the processor 0 keeps the state valid; a
-- thread that can run or runs stays as it is, any other goes to the end of the queue.
pub thread_unblock-IsValid :
    (t : ℕ) (s : Sched) (xs : List ℕ)
    → IsValid s xs
    → t < s.thread_count
    → (s.threads t).cpu_id ≡ 0
    → let active = is_runnable (s.threads t).state || is_running (s.threads t).state in
      IsValid (thread_unblock t s) (if active then xs else xs ++ t ∷ [])
unfolding thread_unblock
thread_unblock-IsValid t s xs v lt cpu =
    let th = s.threads t in
    elim (Bool-cases (is_runnable th.state || is_running th.state)) [
      | inl active ↦ rw (thread_unblock, active) v
      | inr waits ↦
          let woken : Thread = record th { state = runnable } in
          rw (thread_unblock, waits)
            (subst (λ z. IsValid (enqueue_thread z t (store_thread t woken s)) (xs ++ t ∷ []))
              (sym cpu)
              (enqueue_thread-IsValid s xs t woken v lt cpu (ground arith) cpu refl refl refl))
    ]

create-Members :
    (s : Sched) (xs : List ℕ) (th : Thread) (m : ℕ → ℕ)
    → Members s xs
    → s.thread_count < max_threads
    → th.id ≡ s.thread_count + 1
    → th.cpu_id ≡ 0
    → is_runnable th.state ≡ true
    → is_running th.state ≡ false
    → Members
        (record (store_thread s.thread_count th s) { thread_count = s.thread_count + 1; words = m })
        (xs ++ s.thread_count ∷ [])
create-Members s xs th m k room id cpu r nr = record {
  few = omega arith;
  ids = λ i lt. ground (arith, k.ids i);
  listed = λ i h. ground (arith, is_in-append i xs (s.thread_count ∷ []), k.listed i);
  complete = λ i lt ci ri. ground (arith, is_in-append i xs (s.thread_count ∷ []), k.complete i);
  known = λ c h. ground (arith, k.known c);
  one_runs = λ i lt ci ri. ground (arith, k.one_runs i);
}

-- A new thread at the end of the table and of the queue.
create-IsValid :
    (s : Sched) (xs : List ℕ) (th : Thread) (m : ℕ → ℕ)
    → IsValid s xs
    → s.thread_count < max_threads
    → th.id ≡ s.thread_count + 1
    → th.cpu_id ≡ 0
    → is_runnable th.state ≡ true
    → is_running th.state ≡ false
    → let s1 = record (store_thread s.thread_count th s) {
      thread_count = s.thread_count + 1;
      words = m;
    } in
      IsValid (enqueue_thread 0 s.thread_count s1) (xs ++ s.thread_count ∷ [])
create-IsValid s xs th m v room id cpu r nr =
    let t = s.thread_count in
    let s1 = record (store_thread t th s) { thread_count = t + 1; words = m } in
    let out : is_in t xs ≡ false = elim (Bool-cases (is_in t xs)) [
      | inl here ↦ absurd (omega (arith, (v.members.listed t here).0))
      | inr away ↦ away
    ] in
    let q = store_thread-IsQueue s xs t th out v.queue in
    record {
      queue =
          enqueue_thread-IsQueue s1 0 t xs
            (record { chain = q.chain; once = q.once; known = q.known }) out (omega arith);
      members =
          Members-SameButLinks (enqueue_thread-SameButLinks 0 t s1)
            (create-Members s xs th m v.members room id cpu r nr);
    }

-- thread_create on the processor 0: without a function, room in the table or a stack it changes
-- nothing; else the new thread has the next id and goes to the end of the queue, and the state stays
-- valid.
pub thread_create_lem :
    (stack start : ℕ) (address : ℕ → ℕ) (fn arg : ℕ) (name : Option (List ℕ)) (s : Sched)
    (xs : List ℕ)
    → IsValid s xs
    → let (r, s') = thread_create stack start address fn arg 0 name s in
      ((fn ≡ 0) ⊎ (max_threads ≤ s.thread_count) ⊎ (stack ≡ 0)) × (r ≡ none) × (s' ≡ s)
      ⊎ (r ≡ some (s.thread_count + 1))
        × (s'.thread_count ≡ s.thread_count + 1)
        × ((s'.threads s.thread_count).entry ≡ fn)
        × ((s'.threads s.thread_count).arg ≡ arg)
        × IsValid s' (xs ++ s.thread_count ∷ [])
unfolding thread_create
thread_create_lem stack start address fn arg name s xs v =
    let t = s.thread_count in
    let refuse = fn == 0 || (leb max_cpus 0 || (leb max_threads t || stack == 0)) in
    elim (Bool-cases refuse) [
      | inl refused ↦ rw refused (inl (ground arith, refl, refl))
      | inr accepted ↦
          let room : t < max_threads = ground arith in
          let th : Thread = record {
            id = t + 1;
            state = runnable;
            cpu_id = 0;
            saved_sp = (build_initial_stack (address t) start (add64 stack 16384) s.words).0;
            stack_base = stack;
            stack_top = add64 stack 16384;
            switches = 0;
            entry = fn;
            arg = arg;
            name = name;
            wake_tick = 0;
            next = (s.threads t).next;
          } in
          let m = (build_initial_stack (address t) start (add64 stack 16384) s.words).1 in
          let s1 : Sched = record (store_thread t th s) { thread_count = t + 1; words = m } in
          let same = enqueue_thread-SameButLinks 0 t s1 in
          rw accepted (
            inr (
              refl,
              same.count,
              ap (λ (x : Thread). x.entry) (same.threads t) ∙ ground arith,
              ap (λ (x : Thread). x.arg) (same.threads t) ∙ ground arith,
              create-IsValid s xs th m v room refl refl refl refl,
            ))
    ]

-- The current thread stops running for some reason.
stop-IsValid :
    (s : Sched) (xs : List ℕ) (c : ℕ) (th : Thread)
    → IsValid s xs
    → is_running (s.threads c).state ≡ true
    → th.id ≡ (s.threads c).id
    → th.cpu_id ≡ (s.threads c).cpu_id
    → is_runnable th.state ≡ false
    → is_running th.state ≡ false
    → IsValid (store_thread c th s) xs
stop-IsValid s xs c th v run id cpu nr nr' =
    let k = v.members in
    let out = not_listed s xs c k (ground arith) in
    record {
      queue = store_thread-IsQueue s xs c th out v.queue;
      members = record {
        few = k.few;
        ids = λ i lt. ground (arith, k.ids i lt);
        listed = λ i h. ground (arith, k.listed i);
        complete = λ i lt ci r. ground (arith, k.complete i);
        known = λ d h. ground (arith, k.known d);
        one_runs = λ i lt ci r. ground (arith, k.one_runs i);
      };
    }

-- The thread that calls thread_sleep, in the state before its yield.
abbrev pub sleeper : (cpu ticks : ℕ) → Sched → ℕ → Thread
sleeper cpu ticks s c = record (s.threads c) {
  wake_tick = add64 (s.ticks cpu) ticks;
  state = sleeping;
}

-- thread_sleep of a thread that runs, with `x` first in the run queue: the processor goes to `x`, and
-- the new run queue holds the other threads that waited and those that wake at this tick.
pub thread_sleep_switches :
    (ticks sp : ℕ) (s : Sched) (c x : ℕ) (xs : List ℕ)
    → IsValid s (x ∷ xs)
    → (s.cpus 0).started ≡ true
    → (s.cpus 0).current ≡ some c
    → is_running (s.threads c).state ≡ true
    → (s.threads c).id ≢ 0
    → let s' = (thread_sleep 0 ticks sp s).1 in
      ((s'.cpus 0).current ≡ some x) × ((woken : List ℕ) × IsValid s' (xs ++ woken))
unfolding thread_sleep thread_yield timer_interrupt
thread_sleep_switches ticks sp s c x xs v on cur run id =
    let asleep = store_thread c (sleeper 0 ticks s c) s in
    let v1 = stop-IsValid s (x ∷ xs) c (sleeper 0 ticks s c) v run refl refl refl refl in
    let e : ((s.threads c).id == 0) ≡ false = ground arith in
    let step = interrupt_step sp asleep x xs v1 on in
    let stays : behind (s.cpus 0).current asleep.threads (xs ++ step.2.0) ≡ xs ++ step.2.0 =
      unfold behind requeues in rw cur (ground arith) in
    rw (thread_sleep, cur, e) (step.0, (step.2.0, subst (IsValid _) stays step.2.1))

-- thread_sleep for two ticks or more, of a thread that runs while no other thread can run and none
-- sleeps: it returns at once, and the thread goes on.
pub thread_sleep_returns :
    (ticks sp : ℕ) (s : Sched) (c : ℕ)
    → IsValid s []
    → (s.cpus 0).started ≡ true
    → (s.cpus 0).current ≡ some c
    → is_running (s.threads c).state ≡ true
    → (s.threads c).id ≢ 0
    → ((j : ℕ) → is_sleeping (s.threads j).state ≡ false)
    → 2 ≤ ticks
    → s.ticks 0 + ticks < u64_mod
    → let (sp', s') = thread_sleep 0 ticks sp s in (sp' ≡ 0) × ((s'.cpus 0).current ≡ some c)
unfolding thread_sleep thread_yield timer_interrupt
thread_sleep_returns ticks sp s c v on cur run id alone two fits =
    let asleep = store_thread c (sleeper 0 ticks s c) s in
    let v1 = stop-IsValid s [] c (sleeper 0 ticks s c) v run refl refl refl refl in
    let e : ((s.threads c).id == 0) ≡ false = ground arith in
    let awake : due s.thread_count 0 ((tick_counted asleep).ticks 0) asleep.threads ≡ [] =
      due-none s.thread_count 0 ((tick_counted asleep).ticks 0) asleep.threads
        (λ j lt. unfold wakes in ground (arith, alone j)) in
    elim (scheduler_tick_lem sp (tick_counted asleep) [] (tick_counted-IsValid asleep [] v1) on) [
      | inl (empty, nul, valid, same) ↦ rw (thread_sleep, cur, e) (nul, same ∙ cur)
      | inr (x, rest, some_ready, sw) ↦ absurd (not_nil (sym some_ready ∙ awake))
    ]
