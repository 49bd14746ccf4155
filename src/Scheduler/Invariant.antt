-- ===== src/Scheduler/Invariant.antt =====
-- The threads of the processor 0 and its run queue.

use ore_os.Base.{
  Bool-cases, List, [], ap, arith, false, inl, inr, is_in, is_in-append, some, sym, true,
  true-false, ℕ, ◌++◌, ◌<◌, ◌∙◌, ◌∷◌, ◌≡◌, ◌≢◌, ◌≤◌, ◌⊎◌,
}
use ore_os.Scheduler.{
  Sched, Thread, enqueue_thread, is_runnable, is_running, max_threads, store_thread,
}
use ore_os.Scheduler.Queue.{
  Chain-agree, IsQueue, SameButLinks, enqueue_thread-IsQueue, enqueue_thread-SameButLinks, links,
}

-- The list holds exactly the threads of the table that belong to the processor and can run; a thread
-- that runs is the current one.
pub record Members (s : Sched) (xs : List ℕ) : Type 0 where
  pub few : s.thread_count ≤ max_threads
  pub ids : (i : ℕ) → i < s.thread_count → (s.threads i).id ≢ 0
  pub listed :
      (i : ℕ)
      → is_in i xs ≡ true
      → (i < s.thread_count) × (is_runnable (s.threads i).state ≡ true) × ((s.threads i).cpu_id ≡ 0)
  pub complete :
      (i : ℕ)
      → i < s.thread_count
      → (s.threads i).cpu_id ≡ 0
      → is_runnable (s.threads i).state ≡ true
      → is_in i xs ≡ true
  pub known :
      (c : ℕ)
      → (s.cpus 0).current ≡ some c
      → ((s.threads c).id ≡ 0) ⊎ (c < s.thread_count) × ((s.threads c).cpu_id ≡ 0)
  pub one_runs :
      (i : ℕ)
      → i < s.thread_count
      → (s.threads i).cpu_id ≡ 0
      → is_running (s.threads i).state ≡ true
      → (s.cpus 0).current ≡ some i

-- The run queue of the processor 0 is the list `xs`, of exactly the threads that can run.
pub record IsValid (s : Sched) (xs : List ℕ) : Type 0 where
  pub queue : IsQueue s 0 xs
  pub members : Members s xs

pub Members-SameButLinks :
    {s s' : Sched} {xs : List ℕ} → SameButLinks s s' → Members s xs → Members s' xs
Members-SameButLinks {s} {s'} {xs} same m =
    let state : (i : ℕ) → (s'.threads i).state ≡ (s.threads i).state =
      λ i. ap (λ (th : Thread). th.state) (same.threads i) in
    let cpu : (i : ℕ) → (s'.threads i).cpu_id ≡ (s.threads i).cpu_id =
      λ i. ap (λ (th : Thread). th.cpu_id) (same.threads i) in
    let id : (i : ℕ) → (s'.threads i).id ≡ (s.threads i).id =
      λ i. ap (λ (th : Thread). th.id) (same.threads i) in
    record {
      few = rw (same.count) m.few;
      ids = λ i lt e. m.ids i (rw (← same.count) lt) (sym (id i) ∙ e);
      listed = λ i h. rw (same.count, state i, cpu i) (m.listed i h);
      complete = λ i lt c r.
          m.complete i (rw (← same.count) lt) (sym (cpu i) ∙ c)
            (ap is_runnable (sym (state i)) ∙ r);
      known = λ c h. rw (same.count, id c, cpu c) (m.known c (sym (same.current 0) ∙ h));
      one_runs = λ i lt c r.
          same.current 0
          ∙ m.one_runs i (rw (← same.count) lt) (sym (cpu i) ∙ c)
              (ap is_running (sym (state i)) ∙ r);
    }

pub store_thread-Members :
    (s : Sched) (xs : List ℕ) (t : ℕ) (th : Thread)
    → Members s xs
    → t < s.thread_count
    → (s.threads t).cpu_id ≡ 0
    → th.cpu_id ≡ 0
    → th.id ≡ (s.threads t).id
    → is_runnable th.state ≡ true
    → is_running th.state ≡ false
    → Members (store_thread t th s) (xs ++ t ∷ [])
store_thread-Members s xs t th m lt c c' same_id r nr = record {
  few = m.few;
  ids = λ i lt'. ground (arith, m.ids i lt');
  listed = λ i h. ground (arith, is_in-append i xs (t ∷ []), m.listed i);
  complete = λ i lt' ci ri. ground (arith, is_in-append i xs (t ∷ []), m.complete i);
  known = λ k h. ground (arith, m.known k);
  one_runs = λ i lt' ci ri. ground (arith, m.one_runs i);
}

pub store_thread-IsQueue :
    (s : Sched) (xs : List ℕ) (t : ℕ) (th : Thread)
    → is_in t xs ≡ false
    → IsQueue s 0 xs
    → IsQueue (store_thread t th s) 0 xs
store_thread-IsQueue s xs t th n q = record {
  chain =
      Chain-agree (links s) (links (store_thread t th s)) (s.cpus 0).run_queue xs
        (λ y i.
          let ne : t ≢ y = λ f. true-false (sym i ∙ ap (λ z. is_in z xs) (sym f) ∙ n) in
          ground arith)
        q.chain;
  once = q.once;
  known = q.known;
}

pub not_listed :
    (s : Sched) (xs : List ℕ) (t : ℕ)
    → Members s xs
    → is_runnable (s.threads t).state ≡ false
    → is_in t xs ≡ false
not_listed s xs t m nr = elim (Bool-cases (is_in t xs)) [
  | inl here ↦ absurd (true-false (sym (m.listed t here).1 ∙ nr))
  | inr out ↦ out
]

-- A thread that could not run is made runnable and put at the end of the queue.
pub enqueue_thread-IsValid :
    (s : Sched) (xs : List ℕ) (t : ℕ) (th : Thread)
    → IsValid s xs
    → t < s.thread_count
    → (s.threads t).cpu_id ≡ 0
    → is_runnable (s.threads t).state ≡ false
    → th.cpu_id ≡ 0
    → th.id ≡ (s.threads t).id
    → is_runnable th.state ≡ true
    → is_running th.state ≡ false
    → IsValid (enqueue_thread 0 t (store_thread t th s)) (xs ++ t ∷ [])
enqueue_thread-IsValid s xs t th v lt c nr c' same_id r nr' =
    let out = not_listed s xs t v.members nr in
    let few = v.members.few in
    record {
      queue =
          enqueue_thread-IsQueue (store_thread t th s) 0 t xs
            (store_thread-IsQueue s xs t th out v.queue) out (omega arith);
      members =
          Members-SameButLinks (enqueue_thread-SameButLinks 0 t (store_thread t th s))
            (store_thread-Members s xs t th v.members lt c c' same_id r nr');
    }
