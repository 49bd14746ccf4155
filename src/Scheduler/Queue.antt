-- ===== src/Scheduler/Queue.antt =====
-- The run queue as a list: enqueue_thread puts a thread at its end, dequeue_thread takes the first.
use mathlib.Core.Path.{subst}
use ore_os.Base.{
  List, Option, Option-cases, [], all_below, all_below-snoc, ap, arith, distinct, distinct-snoc,
  false, inl, inr, is_in, length, length-all_below, none, or-true, refl, some, suc, sym, true,
  true-false, zero, ℕ, ◌++◌, ◌<◌, ◌∙◌, ◌∷◌, ◌≡◌, ◌≢◌, ◌≤◌,
}
use ore_os.Scheduler.{
  Sched, Thread, dequeue_thread, enqueue_thread, queue_fuel, set_next, set_queue, tail_of,
}

-- The chain that begins with `head` runs through exactly the threads of the list.
abbrev pub Chain : (ℕ → Option ℕ) → Option ℕ → List ℕ → Type 0
Chain next head [] = head ≡ none
Chain next head (x ∷ xs) = (head ≡ some x) × Chain next (next x) xs

pub Chain-agree :
    (next next' : ℕ → Option ℕ) (head : Option ℕ) (xs : List ℕ)
    → ((x : ℕ) → is_in x xs ≡ true → next' x ≡ next x)
    → Chain next head xs
    → Chain next' head xs
Chain-agree next next' head [] same c = c
Chain-agree next next' head (x ∷ xs) same (e, c) =
    let here : next' x ≡ next x = same x (ground arith) in
    (
      e,
      subst (λ (h : Option ℕ). Chain next' h xs) (sym here)
          (Chain-agree next next' (next x) xs (λ y i. same y (ground arith)) c),
    )

abbrev pub links : Sched → ℕ → Option ℕ
links s t = (s.threads t).next

tail_of_end :
    (rounds : ℕ) (threads : ℕ → Thread) (x : ℕ)
    → (threads x).next ≡ none
    → tail_of rounds threads x ≡ x
unfolding tail_of
tail_of_end zero threads x e = refl
tail_of_end (suc rounds) threads x e = rw (tail_of, e) refl

-- The walk ends at a thread of the chain, and the chain goes on if a thread is linked behind it.
tail_of-Chain :
    (rounds : ℕ) (threads : ℕ → Thread) (t x : ℕ) (xs : List ℕ)
    → length xs ≤ rounds
    → distinct (x ∷ xs) ≡ true
    → Chain (λ y. (threads y).next) (threads x).next xs
    → let last = tail_of rounds threads x in
      (is_in last (x ∷ xs) ≡ true)
      × ((next' : ℕ → Option ℕ)
          → next' last ≡ some t
          → next' t ≡ none
          → ((y : ℕ) → is_in y (x ∷ xs) ≡ true → y ≢ last → next' y ≡ (threads y).next)
          → Chain next' (next' x) (xs ++ t ∷ []))
unfolding tail_of
tail_of-Chain rounds threads t x [] le d c =
    let at = tail_of_end rounds threads x c in
    (ground (arith, at), λ next' at_last at_t same. (ap next' (sym at) ∙ at_last, at_t))
tail_of-Chain zero threads t x (y ∷ xs) le d c = absurd (omega arith)
tail_of-Chain (suc rounds) threads t x (y ∷ xs) le d (e, c) =
    let ih = tail_of-Chain rounds threads t y xs (omega arith) (ground arith) c in
    let on : tail_of (suc rounds) threads x ≡ tail_of rounds threads y = rw (tail_of, e) refl in
    let other : x ≢ tail_of rounds threads y = λ f. let i = ih.0 in ground arith in
    (
      subst (λ z. is_in z (x ∷ (y ∷ xs)) ≡ true) (sym on) (or-true _ _ (inr ih.0)),
      λ next' at_last at_t same. (
        same x (ground arith) (λ f. other (f ∙ on)) ∙ e,
        ih.1 next' (ap next' (sym on) ∙ at_last) at_t
            (λ z i ne. same z (ground arith) (λ f. ne (f ∙ on))),
      ),
    )

-- The run queue of `cpu` is the list, and no thread is in it twice.
pub record IsQueue (s : Sched) (cpu : ℕ) (xs : List ℕ) : Type 0 where
  pub chain : Chain (links s) (s.cpus cpu).run_queue xs
  pub once : distinct xs ≡ true
  pub known : all_below queue_fuel xs ≡ true

-- enqueue_thread puts a thread that is in no queue at the end of the run queue.
pub enqueue_thread-IsQueue :
    (s : Sched) (cpu t : ℕ) (xs : List ℕ)
    → IsQueue s cpu xs
    → is_in t xs ≡ false
    → t < queue_fuel
    → IsQueue (enqueue_thread cpu t s) cpu (xs ++ t ∷ [])
unfolding enqueue_thread
enqueue_thread-IsQueue s cpu t [] q n lt =
    rw (enqueue_thread, q.chain)
      (record { chain = (ground arith, ground arith); once = refl; known = ground arith })
enqueue_thread-IsQueue s cpu t (x ∷ xs) q n lt =
    let s1 = set_next t none s in
    let c1 =
      (Chain-agree (links s) (links s1) (s.cpus cpu).run_queue (x ∷ xs)
        (λ y i.
          let ne : t ≢ y = λ f. true-false (sym i ∙ ap (λ z. is_in z (x ∷ xs)) (sym f) ∙ n) in
          ground arith)
        q.chain).1 in
    let walk =
      tail_of-Chain queue_fuel s1.threads t x xs
        (omega (arith, length-all_below queue_fuel (x ∷ xs) q.once q.known)) q.once c1 in
    let last = tail_of queue_fuel s1.threads x in
    let apart : t ≢ last = λ f. true-false (sym walk.0 ∙ ap (λ z. is_in z (x ∷ xs)) (sym f) ∙ n) in
    let e = q.chain.0 in
    rw (enqueue_thread, e)
      (record {
        chain = (
          e,
          walk.1 (links (set_next last (some t) s1)) (ground arith) (ground arith)
              (λ y i ne. ground arith),
        );
        once = distinct-snoc (x ∷ xs) t q.once n;
        known = all_below-snoc queue_fuel (x ∷ xs) t q.known lt;
      })

-- A thread without its link.
abbrev pub unlinked : Thread → Thread
unlinked th = record th { next = none }

-- What enqueue_thread leaves as it was: all but the links and the queue of the processor.
pub record SameButLinks (s s' : Sched) : Type 0 where
  pub threads : (i : ℕ) → unlinked (s'.threads i) ≡ unlinked (s.threads i)
  pub count : s'.thread_count ≡ s.thread_count
  pub ticks : s'.ticks ≡ s.ticks
  pub current : (c : ℕ) → (s'.cpus c).current ≡ (s.cpus c).current
  pub started : (c : ℕ) → (s'.cpus c).started ≡ (s.cpus c).started

unlinked-set_next :
    (a : ℕ) (v : Option ℕ) (s : Sched) (i : ℕ)
    → unlinked ((set_next a v s).threads i) ≡ unlinked (s.threads i)
unlinked-set_next a v s i = ground arith

pub enqueue_thread-SameButLinks : (cpu t : ℕ) (s : Sched) → SameButLinks s (enqueue_thread cpu t s)
unfolding enqueue_thread
enqueue_thread-SameButLinks cpu t s = elim (Option-cases (s.cpus cpu).run_queue) [
  | inl empty ↦
      rw (enqueue_thread, empty)
        (record {
          threads = λ i. ground arith;
          count = refl;
          ticks = refl;
          current = λ c. ground arith;
          started = λ c. ground arith;
        })
  | inr (head, at) ↦
      rw (enqueue_thread, at)
        (record {
          threads = λ i.
              unlinked-set_next (tail_of queue_fuel (set_next t none s).threads head) (some t)
                (set_next t none s) i
              ∙ unlinked-set_next t none s i;
          count = refl;
          ticks = refl;
          current = λ c. refl;
          started = λ c. refl;
        })
]

-- dequeue_thread of an empty queue, and of one with a first thread.
pub dequeue_thread-empty :
    (cpu : ℕ) (s : Sched) → IsQueue s cpu [] → dequeue_thread cpu s ≡ (none, s)
unfolding dequeue_thread
dequeue_thread-empty cpu s q = rw (dequeue_thread, q.chain) refl

pub dequeue_thread-IsQueue :
    (cpu : ℕ) (s : Sched) (x : ℕ) (xs : List ℕ)
    → IsQueue s cpu (x ∷ xs)
    → ((dequeue_thread cpu s).0 ≡ some x)
      × IsQueue (dequeue_thread cpu s).1 cpu xs
      × SameButLinks s (dequeue_thread cpu s).1
unfolding dequeue_thread
dequeue_thread-IsQueue cpu s x xs q =
    let (e, c) = q.chain in
    let s' = set_next x none (set_queue cpu (links s x) s) in
    rw (dequeue_thread, e)
      (
        refl,
        record {
          chain =
              subst (λ (h : Option ℕ). Chain (links s') h xs) (ground arith)
                (Chain-agree (links s) (links s') (links s x) xs
                  (λ y i.
                    let ne : x ≢ y =
                      λ f. let twice = subst (λ z. is_in z xs ≡ true) (sym f) i in ground arith in
                    ground arith)
                  c);
          once = ground arith;
          known = ground arith;
        },
        record {
          threads = λ i. ground arith;
          count = refl;
          ticks = refl;
          current = λ c. ground arith;
          started = λ c. ground arith;
        },
      )
