-- ===== src/Scheduler/Wake.antt =====
-- wake_sleepers of kernel/scheduler.c.
use mathlib.Core.Path.{subst}
use ore_os.Base.{
  Bool-cases, List, [], ap, append-nil, append_assoc, arith, false, if◌then◌else◌, inl, inr, refl,
  suc, sym, true, zero, ℕ, ◌++◌, ◌+◌, ◌<◌, ◌∙◌, ◌∷◌, ◌≡◌, ◌≤◌,
}
use ore_os.Scheduler.{
  Sched, Thread, is_runnable, is_running, runnable, store_thread, wake_from, wake_one,
  wake_sleepers, wakes,
}
use ore_os.Scheduler.Queue.{enqueue_thread-SameButLinks, unlinked}
use ore_os.Scheduler.Invariant.{IsValid, enqueue_thread-IsValid}

-- The threads from `i` on, `rounds` of them, that sleep on the processor and whose time has come.
pub due : (rounds i now : ℕ) → (ℕ → Thread) → List ℕ
due zero i now threads = []
due (suc n) i now threads =
    let rest = due n (i + 1) now threads in if wakes 0 now (threads i) then i ∷ rest else rest

pub due-none :
    (rounds i now : ℕ) (threads : ℕ → Thread)
    → ((j : ℕ) → j < i + rounds → wakes 0 now (threads j) ≡ false)
    → due rounds i now threads ≡ []
unfolding due
due-none zero i now threads h = refl
due-none (suc n) i now threads h =
    rw (h i (omega arith)) (due-none n (i + 1) now threads (λ j lt. h j (omega arith)))

-- Two tables agree from `i` on, but for the links.
abbrev AgreeFrom : (i : ℕ) → Sched → Sched → Type 0
AgreeFrom i s s' = (j : ℕ) → i ≤ j → unlinked (s'.threads j) ≡ unlinked (s.threads j)

due-agree :
    (rounds i now : ℕ) (s s' : Sched)
    → AgreeFrom i s s'
    → due rounds i now s'.threads ≡ due rounds i now s.threads
unfolding due wakes
due-agree zero i now s s' a = refl
due-agree (suc n) i now s s' a =
    let ih = due-agree n (i + 1) now s s' (λ j le. a j (omega arith)) in
    let here : wakes 0 now (s'.threads i) ≡ wakes 0 now (s.threads i) =
      ap (wakes 0 now) (a i (omega arith)) in
    rw (here, ih) refl

wakes_facts :
    (now : ℕ) (th : Thread)
    → wakes 0 now th ≡ true
    → (th.cpu_id ≡ 0) × (is_runnable th.state ≡ false) × (is_running th.state ≡ false)
unfolding wakes
wakes_facts now th w = ground arith

-- A later state, valid with the queue `ys`.
pub record LaterValid (s : Sched) (ys : List ℕ) (s' : Sched) : Type 0 where
  pub valid : IsValid s' ys
  pub count : s'.thread_count ≡ s.thread_count
  pub current : (s'.cpus 0).current ≡ (s.cpus 0).current
  pub started : (s'.cpus 0).started ≡ (s.cpus 0).started
  pub ids : (j : ℕ) → (s'.threads j).id ≡ (s.threads j).id
  pub runs : (j : ℕ) → is_running (s'.threads j).state ≡ is_running (s.threads j).state
  pub stacks : (j : ℕ) → (s'.threads j).saved_sp ≡ (s.threads j).saved_sp

LaterValid-later :
    {s s1 s2 : Sched} {ys zs : List ℕ}
    → LaterValid s ys s1
    → LaterValid s1 zs s2
    → LaterValid s zs s2
LaterValid-later a b = record {
  valid = b.valid;
  count = b.count ∙ a.count;
  current = b.current ∙ a.current;
  started = b.started ∙ a.started;
  ids = λ j. b.ids j ∙ a.ids j;
  runs = λ j. b.runs j ∙ a.runs j;
  stacks = λ j. b.stacks j ∙ a.stacks j;
}

-- One thread that wakes.
wake_one-LaterValid :
    (i now : ℕ) (s : Sched) (xs : List ℕ)
    → IsValid s xs
    → i < s.thread_count
    → wakes 0 now (s.threads i) ≡ true
    → LaterValid s (xs ++ i ∷ []) (wake_one 0 now i s) × AgreeFrom (i + 1) s (wake_one 0 now i s)
unfolding wake_one
wake_one-LaterValid i now s xs v lt w =
    let woken : Thread = record (s.threads i) { state = runnable } in
    let (c, nr, not_running) = wakes_facts now (s.threads i) w in
    let same = enqueue_thread-SameButLinks 0 i (store_thread i woken s) in
    rw (wake_one, w)
      (
        record {
          valid = enqueue_thread-IsValid s xs i woken v lt c nr c refl refl refl;
          count = same.count;
          current = same.current 0;
          started = same.started 0;
          ids = λ j. ap (λ (th : Thread). th.id) (same.threads j) ∙ ground arith;
          runs = λ j. ap (λ (th : Thread). is_running th.state) (same.threads j) ∙ ground arith;
          stacks = λ j. ap (λ (th : Thread). th.saved_sp) (same.threads j) ∙ ground arith;
        },
        λ j le. same.threads j ∙ ground arith,
      )

due_first :
    (n i now : ℕ) (threads : ℕ → Thread)
    → wakes 0 now (threads i) ≡ true
    → due (suc n) i now threads ≡ i ∷ due n (i + 1) now threads
unfolding due
due_first n i now threads w = rw w refl

pub wake_from-LaterValid :
    (rounds i now : ℕ) (s : Sched) (xs : List ℕ)
    → IsValid s xs
    → i + rounds ≤ s.thread_count
    → LaterValid s (xs ++ due rounds i now s.threads) (wake_from rounds i 0 now s)
unfolding wake_from due
wake_from-LaterValid zero i now s xs v le = record {
  valid = subst (IsValid s) (sym (append-nil xs)) v;
  count = refl;
  current = refl;
  started = refl;
  ids = λ j. refl;
  runs = λ j. refl;
  stacks = λ j. refl;
}
wake_from-LaterValid (suc n) i now s xs v le = elim (Bool-cases (wakes 0 now (s.threads i))) [
  | inr asleep ↦ rw asleep (wake_from-LaterValid n (i + 1) now s xs v (omega arith))
  | inl due_now ↦
      let s1 = wake_one 0 now i s in
      let (one, agree) = wake_one-LaterValid i now s xs v (omega arith) due_now in
      let room : i + 1 + n ≤ s1.thread_count = rw (one.count) (omega arith) in
      let ih = wake_from-LaterValid n (i + 1) now s1 (xs ++ i ∷ []) one.valid room in
      let list : xs ++ i ∷ [] ++ due n (i + 1) now s1.threads ≡ xs ++ due (suc n) i now s.threads =
        append_assoc xs (i ∷ []) (due n (i + 1) now s1.threads)
        ∙ ap (λ (ys : List ℕ). xs ++ i ∷ ys) (due-agree n (i + 1) now s s1 agree)
        ∙ ap (λ (ys : List ℕ). xs ++ ys) (sym (due_first n i now s.threads due_now)) in
      subst (λ ys. LaterValid s ys (wake_from n (i + 1) 0 now s1)) list (LaterValid-later one ih)
]

-- wake_sleepers puts the threads whose time has come behind those that wait for the processor, in the
-- order of the table.
pub wake_sleepers-LaterValid :
    (s : Sched) (xs : List ℕ)
    → IsValid s xs
    → LaterValid s (xs ++ due s.thread_count 0 (s.ticks 0) s.threads) (wake_sleepers 0 s)
unfolding wake_sleepers
wake_sleepers-LaterValid s xs v =
    wake_from-LaterValid s.thread_count 0 (s.ticks 0) s xs v (omega arith)
