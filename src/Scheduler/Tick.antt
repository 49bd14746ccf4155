-- ===== src/Scheduler/Tick.antt =====
-- scheduler_tick of kernel/scheduler.c: the switch to the thread that waits longest.
use ore_os.Scheduler.Wake.{LaterValid, due, wake_sleepers-LaterValid}
use mathlib.Core.Path.{subst}
use ore_os.Base.{
  List, Option, [], ap, arith, inl, inr, none, refl, some, some_injective, true, ℕ, ◌++◌, ◌∙◌, ◌∷◌,
  ◌≡◌, ◌≢◌, ◌⊎◌,
}
use ore_os.Scheduler.{
  Sched, Thread, dequeue_thread, enter, is_running, leave, scheduler_tick, wake_sleepers,
}
use ore_os.Scheduler.Queue.{dequeue_thread-IsQueue, dequeue_thread-empty}
use ore_os.Scheduler.Invariant.{IsValid}
use ore_os.Scheduler.Leave.{
  behind, dequeue_thread-Taken, enter-IsValid, leave-Left, left_sp, requeues, resume_sp,
}

behind-agree :
    (current : Option ℕ) (threads threads' : ℕ → Thread) (xs : List ℕ)
    → ((j : ℕ) → is_running (threads' j).state ≡ is_running (threads j).state)
    → ((j : ℕ) → (threads' j).id ≡ (threads j).id)
    → behind current threads' xs ≡ behind current threads xs
unfolding behind requeues
behind-agree none threads threads' xs runs ids = refl
behind-agree (some c) threads threads' xs runs ids = rw (runs c, ids c) refl

resume_sp-agree :
    (current : Option ℕ) (sp : ℕ) (threads threads' : ℕ → Thread) (x : ℕ)
    → (threads' x).saved_sp ≡ (threads x).saved_sp
    → resume_sp current sp threads' x ≡ resume_sp current sp threads x
unfolding resume_sp
resume_sp-agree none sp threads threads' x e = e
resume_sp-agree (some c) sp threads threads' x e = rw e refl

left_sp-agree :
    (current : Option ℕ) (sp : ℕ) (threads threads' : ℕ → Thread) (i : ℕ)
    → ((j : ℕ) → (threads' j).saved_sp ≡ (threads j).saved_sp)
    → ((j : ℕ) → (threads' j).id ≡ (threads j).id)
    → left_sp current sp threads' i ≡ left_sp current sp threads i
left_sp-agree none sp threads threads' i stacks ids = stacks i
left_sp-agree (some c) sp threads threads' i stacks ids = rw (stacks i, ids c) refl

own_sp :
    (current : Option ℕ) (sp : ℕ) (threads : ℕ → Thread) (c : ℕ)
    → current ≡ some c
    → (threads c).id ≢ 0
    → left_sp current sp threads c ≡ sp
own_sp none sp threads c cur thread = absurd (cc)
own_sp (some d) sp threads c cur thread =
    let same : d ≡ c = some_injective cur in rw same (ground arith)

other_sp :
    (current : Option ℕ) (sp : ℕ) (threads : ℕ → Thread) (i : ℕ)
    → current ≢ some i
    → left_sp current sp threads i ≡ (threads i).saved_sp
other_sp none sp threads i away = refl
other_sp (some d) sp threads i away = let ne : d ≢ i = λ e. away (ap some e) in ground arith

-- The switch to the first thread of the queue.
pub record SwitchedTo (s : Sched) (sp x : ℕ) (rest : List ℕ) (sp' : ℕ) (s' : Sched) : Type 0 where
  pub now : (s'.cpus 0).current ≡ some x
  pub runs : is_running (s'.threads x).state ≡ true
  pub started : (s'.cpus 0).started ≡ (s.cpus 0).started
  pub goes_on : sp' ≡ resume_sp (s.cpus 0).current sp s.threads x
  pub saved :
      (c : ℕ) → (s.cpus 0).current ≡ some c → (s.threads c).id ≢ 0 → (s'.threads c).saved_sp ≡ sp
  pub kept :
      (i : ℕ) → (s.cpus 0).current ≢ some i → (s'.threads i).saved_sp ≡ (s.threads i).saved_sp
  pub valid : IsValid s' (behind (s.cpus 0).current s.threads rest)

switch-SwitchedTo :
    (s s1 : Sched) (sp x : ℕ) (rest : List ℕ)
    → LaterValid s (x ∷ rest) s1
    → let s3 = enter 0 x (leave (s1.cpus 0).current 0 sp (dequeue_thread 0 s1).1) in
      SwitchedTo s sp x rest (s3.threads x).saved_sp s3
unfolding enter
switch-SwitchedTo s s1 sp x rest later =
    let s2 = (dequeue_thread 0 s1).1 in
    let (got, q, same) = dequeue_thread-IsQueue 0 s1 x rest later.valid.queue in
    let taken = dequeue_thread-Taken s1 x rest later.valid in
    let left = leave-Left (s1.cpus 0).current s2 x rest sp (same.current 0) taken in
    let s3 = leave (s1.cpus 0).current 0 sp s2 in
    let list : behind (s1.cpus 0).current s2.threads rest
        ≡ behind (s.cpus 0).current s.threads rest =
      behind-agree (s1.cpus 0).current s.threads s2.threads rest
        (λ j. ap (λ (t : Thread). is_running t.state) (same.threads j) ∙ later.runs j)
        (λ j. ap (λ (t : Thread). t.id) (same.threads j) ∙ later.ids j)
      ∙ ap (λ cur. behind cur s.threads rest) later.current in
    let stack : (i : ℕ)
        → ((enter 0 x s3).threads i).saved_sp ≡ left_sp (s.cpus 0).current sp s.threads i =
      λ i.
        ground arith
        ∙ left.stacks i
        ∙ left_sp-agree (s1.cpus 0).current sp s.threads s2.threads i
            (λ j. ap (λ (t : Thread). t.saved_sp) (same.threads j) ∙ later.stacks j)
            (λ j. ap (λ (t : Thread). t.id) (same.threads j) ∙ later.ids j)
        ∙ ap (λ cur. left_sp cur sp s.threads i) later.current in
    record {
      now = refl;
      runs = ground arith;
      started = left.started ∙ same.started 0 ∙ later.started;
      goes_on =
          ground arith
          ∙ left.resumes
          ∙ resume_sp-agree (s1.cpus 0).current sp s.threads s2.threads x
              (ap (λ (t : Thread). t.saved_sp) (same.threads x) ∙ later.stacks x)
          ∙ ap (λ cur. resume_sp cur sp s.threads x) later.current;
      saved = λ c cur thread. stack c ∙ own_sp (s.cpus 0).current sp s.threads c cur thread;
      kept = λ i away. stack i ∙ other_sp (s.cpus 0).current sp s.threads i away;
      valid = subst (IsValid (enter 0 x s3)) list (enter-IsValid s3 x _ left.taken left.idle);
    }

List-cases : (xs : List ℕ) → (xs ≡ []) ⊎ ((x : ℕ) × (rest : List ℕ) × (xs ≡ x ∷ rest))
List-cases [] = inl refl
List-cases (x ∷ rest) = inr (x, rest, refl)

-- The threads that wait for the processor when the interrupt comes, and behind them the sleepers whose
-- time has come, in the order of the table.
abbrev pub ready_list : Sched → List ℕ → List ℕ
ready_list s xs = xs ++ due s.thread_count 0 (s.ticks 0) s.threads

-- scheduler_tick on the processor 0, started, in a valid state with the run queue `xs`: if no thread
-- waits for the processor and no sleeper's time has come, it returns 0 and the current thread goes on;
-- else it switches to the first thread of the queue with the sleepers behind it, at the stack pointer
-- that this thread had when it was left. The thread that is left goes to the end of the queue if it
-- was running and is no bootstrap thread, and the new state is valid with exactly this queue. If it is
-- no bootstrap thread, its stack pointer becomes the one of the interrupt; all others are kept.
pub scheduler_tick_lem :
    (sp : ℕ) (s : Sched) (xs : List ℕ)
    → IsValid s xs
    → (s.cpus 0).started ≡ true
    → let (sp', s') = scheduler_tick 0 sp s in
      (ready_list s xs ≡ [])
        × (sp' ≡ 0)
        × IsValid s' []
        × ((s'.cpus 0).current ≡ (s.cpus 0).current)
      ⊎ ((x : ℕ) × (rest : List ℕ) × (ready_list s xs ≡ x ∷ rest) × SwitchedTo s sp x rest sp' s')
unfolding scheduler_tick
scheduler_tick_lem sp s xs v on =
    let s1 = wake_sleepers 0 s in
    let later = wake_sleepers-LaterValid s xs v in
    elim (List-cases (ready_list s xs)) [
      | inl empty ↦
          let v1 = subst (IsValid s1) empty later.valid in
          let nobody = dequeue_thread-empty 0 s1 v1.queue in
          rw
            (
              scheduler_tick,
              on,
              ap (λ (r : Option ℕ × Sched). r.0) nobody,
              ap (λ (r : Option ℕ × Sched). r.1) nobody,
            )
            (inl (empty, refl, v1, later.current))
      | inr (x, rest, some_ready) ↦
          let later' = subst (λ ys. LaterValid s ys s1) some_ready later in
          rw (scheduler_tick, on, (dequeue_thread-IsQueue 0 s1 x rest later'.valid.queue).0)
            (inr (x, rest, some_ready, switch-SwitchedTo s s1 sp x rest later'))
    ]
