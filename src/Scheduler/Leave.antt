-- ===== src/Scheduler/Leave.antt =====
-- How scheduler_tick of kernel/scheduler.c leaves one thread and enters another.
use mathlib.Core.Path.{subst}
use ore_os.Base.{
  Bool, Bool-cases, List, Option, [], ap, arith, false, if◌then◌else◌, inl, inr, is_in,
  is_in-append, none, not, refl, some, some_injective, sym, true, true-false, ℕ, ◌&&◌, ◌++◌, ◌<◌,
  ◌==◌, ◌∙◌, ◌∷◌, ◌≡◌, ◌≢◌,
}
use ore_os.Scheduler.{
  Sched, Thread, dequeue_thread, enqueue_thread, enter, is_runnable, is_running, leave, runnable,
  store_thread,
}
use ore_os.Scheduler.Queue.{
  Chain-agree, IsQueue, dequeue_thread-IsQueue, enqueue_thread-IsQueue, enqueue_thread-SameButLinks,
  links,
}
use ore_os.Scheduler.Invariant.{
  IsValid, Members, Members-SameButLinks, not_listed, store_thread-IsQueue, store_thread-Members,
}

-- The thread goes back to the end of the queue when it is left.
unfoldable pub requeues : Thread → Bool
requeues th = is_running th.state && not (th.id == 0)

-- The queue without its first thread, and the thread that is left behind it, if it goes back.
unfoldable pub behind : Option ℕ → (ℕ → Thread) → List ℕ → List ℕ
behind none threads xs = xs
behind (some c) threads xs = if requeues (threads c) then xs ++ c ∷ [] else xs

-- The thread `x` is out of the queue and about to be entered: all the threads that can run, but for it,
-- are in the list.
pub record Taken (s : Sched) (x : ℕ) (xs : List ℕ) : Type 0 where
  pub queue : IsQueue s 0 xs
  pub members : Members s (x ∷ xs)
  pub once : is_in x xs ≡ false

pub dequeue_thread-Taken :
    (s : Sched) (x : ℕ) (xs : List ℕ) → IsValid s (x ∷ xs) → Taken (dequeue_thread 0 s).1 x xs
dequeue_thread-Taken s x xs v =
    let (got, q, same) = dequeue_thread-IsQueue 0 s x xs v.queue in
    record {
      queue = q;
      members = Members-SameButLinks same v.members;
      once = let d = v.queue.once in ground arith;
    }

-- A change of a thread's stack pointer.
store_sp-Taken :
    (s : Sched) (x : ℕ) (xs : List ℕ) (c sp : ℕ)
    → Taken s x xs
    → Taken (store_thread c (record (s.threads c) { saved_sp = sp }) s) x xs
store_sp-Taken s x xs c sp k = record {
  queue = record {
    chain =
        Chain-agree (links s) (links (store_thread c (record (s.threads c) { saved_sp = sp }) s))
          (s.cpus 0).run_queue xs (λ y i. ground arith) k.queue.chain;
    once = k.queue.once;
    known = k.queue.known;
  };
  members = record {
    few = k.members.few;
    ids = λ i lt. ground (arith, k.members.ids i lt);
    listed = λ i h. ground (arith, k.members.listed i);
    complete = λ i lt ci r. ground (arith, k.members.complete i);
    known = λ d h. ground (arith, k.members.known d);
    one_runs = λ i lt ci r. ground (arith, k.members.one_runs i);
  };
  once = k.once;
}

requeue-Taken :
    (s : Sched) (x : ℕ) (xs : List ℕ) (c : ℕ) (th : Thread)
    → Taken s x xs
    → c < s.thread_count
    → (s.threads c).cpu_id ≡ 0
    → is_runnable (s.threads c).state ≡ false
    → th.cpu_id ≡ 0
    → th.id ≡ (s.threads c).id
    → is_runnable th.state ≡ true
    → is_running th.state ≡ false
    → Taken (enqueue_thread 0 c (store_thread c th s)) x (xs ++ c ∷ [])
requeue-Taken s x xs c th k lt cpu nr cpu' same_id r nr' =
    let out = not_listed s (x ∷ xs) c k.members nr in
    let out' : is_in c xs ≡ false = ground arith in
    let few = k.members.few in
    record {
      queue =
          enqueue_thread-IsQueue (store_thread c th s) 0 c xs
            (store_thread-IsQueue s xs c th out' k.queue) out' (omega arith);
      members =
          Members-SameButLinks (enqueue_thread-SameButLinks 0 c (store_thread c th s))
            (store_thread-Members s (x ∷ xs) c th k.members lt cpu cpu' same_id r nr');
      once = let o = k.once in ground (arith, is_in-append x xs (c ∷ []));
    }

-- No thread of the table runs on the processor.
abbrev pub Idle : Sched → Type 0
Idle s =
    (i : ℕ) → i < s.thread_count → (s.threads i).cpu_id ≡ 0 → is_running (s.threads i).state ≡ false

pub enter-IsValid :
    (s : Sched) (x : ℕ) (xs : List ℕ) → Taken s x xs → Idle s → IsValid (enter 0 x s) xs
unfolding enter
enter-IsValid s x xs k idle =
    let (lt, run, cpu) = k.members.listed x (ground arith) in
    let o = k.once in
    record {
      queue = record {
        chain =
            Chain-agree (links s) (links (enter 0 x s)) (s.cpus 0).run_queue xs
              (λ y i. ground arith) k.queue.chain;
        once = k.queue.once;
        known = k.queue.known;
      };
      members = record {
        few = k.members.few;
        ids = λ i l. ground (arith, k.members.ids i l);
        listed = λ i h.
            let ne : i ≢ x = λ e. true-false (sym h ∙ ap (λ z. is_in z xs) e ∙ o) in
            ground (arith, k.members.listed i);
        complete = λ i l ci r. ground (arith, k.members.complete i);
        known = λ d h. let same : x ≡ d = some_injective h in ground arith;
        one_runs = λ i l ci r. ground (arith, idle i);
      };
    }

-- The stack pointer at which the thread `x` goes on when the current thread is left at `sp`.
unfoldable pub resume_sp : Option ℕ → (sp : ℕ) → (ℕ → Thread) → ℕ → ℕ
resume_sp none sp threads x = (threads x).saved_sp
resume_sp (some c) sp threads x = if c == x then sp else (threads x).saved_sp

-- The stack pointers when the current thread is left at `sp`: its own is `sp`, unless it is a bootstrap
-- thread, whose pid is 0.
abbrev pub left_sp : Option ℕ → (sp : ℕ) → (ℕ → Thread) → ℕ → ℕ
left_sp none sp threads i = (threads i).saved_sp
left_sp (some c) sp threads i =
    if c == i && not ((threads c).id == 0) then sp else (threads i).saved_sp

-- The state when the current thread is left.
pub record Left (current : Option ℕ) (s : Sched) (x : ℕ) (xs : List ℕ) (sp : ℕ) (s' : Sched)
    : Type 0 where
  pub taken : Taken s' x (behind current s.threads xs)
  pub idle : Idle s'
  pub started : (s'.cpus 0).started ≡ (s.cpus 0).started
  pub resumes : (s'.threads x).saved_sp ≡ resume_sp current sp s.threads x
  pub stacks : (i : ℕ) → (s'.threads i).saved_sp ≡ left_sp current sp s.threads i

pub leave-Left :
    (current : Option ℕ) (s : Sched) (x : ℕ) (xs : List ℕ) (sp : ℕ)
    → (s.cpus 0).current ≡ current
    → Taken s x xs
    → Left current s x xs sp (leave current 0 sp s)
unfolding leave behind resume_sp requeues
leave-Left none s x xs sp cur k = record {
  taken = k;
  idle = λ i lt ci. elim (Bool-cases (is_running (s.threads i).state)) [
    | inl r ↦ let e = k.members.one_runs i lt ci r in cc
    | inr nr ↦ nr
  ];
  started = refl;
  resumes = refl;
  stacks = λ i. refl;
}
leave-Left (some c) s x xs sp cur k =
    let th = s.threads c in
    let (ltx, rx, cx) = k.members.listed x (ground arith) in
    let idx = k.members.ids x ltx in
    let run_here : (i : ℕ)
        → i < s.thread_count
        → (s.threads i).cpu_id ≡ 0
        → is_running (s.threads i).state ≡ true
        → c ≡ i =
      λ i lt ci r. some_injective (sym cur ∙ k.members.one_runs i lt ci r) in
    elim (Bool-cases (requeues th)) [
      | inl back ↦
          let th' : Thread = record th { saved_sp = sp; state = runnable } in
          let own : (c < s.thread_count) × (th.cpu_id ≡ 0) =
            let kn = k.members.known c cur in ground arith in
          let same = enqueue_thread-SameButLinks 0 c (store_thread c th' s) in
          rw (leave, back)
            (record {
              taken =
                  subst (λ ys. Taken (enqueue_thread 0 c (store_thread c th' s)) x ys)
                    (rw back refl)
                    (requeue-Taken s x xs c th' k own.0 own.1 (ground arith) own.1 refl refl refl);
              idle = λ i lt ci.
                  let lt' : i < s.thread_count = rw (← same.count) lt in
                  let ci' = sym (ap (λ (t : Thread). t.cpu_id) (same.threads i)) ∙ ci in
                  ap (λ (t : Thread). is_running t.state) (same.threads i)
                  ∙ ground (arith, run_here i lt');
              started = same.started 0;
              resumes = ap (λ (t : Thread). t.saved_sp) (same.threads x) ∙ ground arith;
              stacks = λ i. ap (λ (t : Thread). t.saved_sp) (same.threads i) ∙ ground arith;
            })
      | inr stays ↦ elim (Bool-cases (th.id == 0)) [
        | inl boot ↦
            rw (leave, stays, boot)
              (record {
                taken = rw stays k;
                idle = λ i lt ci. ground (arith, run_here i lt, k.members.ids i lt);
                started = refl;
                resumes = ground arith;
                stacks = λ i. ground arith;
              })
        | inr thread ↦
            rw (leave, stays, thread)
              (record {
                taken = rw stays (store_sp-Taken s x xs c sp k);
                idle = λ i lt ci. ground (arith, run_here i lt, k.members.ids i lt);
                started = refl;
                resumes = ground arith;
                stacks = λ i. ground arith;
              })
      ]
    ]
