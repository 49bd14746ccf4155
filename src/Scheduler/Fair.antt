-- ===== src/Scheduler/Fair.antt =====
-- No thread that can run waits for ever (kernel/scheduler.c).
use ore_os.Scheduler.Wake.{due}
use mathlib.Core.Path.{subst}
use ore_os.Base.{
  Bool-cases, List, Option, [], add64, ap, append_assoc, inl, inr, length, none, refl, some, suc,
  sym, true, update, zero, ℕ, ◌++◌, ◌∙◌, ◌∷◌, ◌≡◌,
}
use ore_os.Scheduler.{Sched, Thread, scheduler_tick, timer_interrupt}
use ore_os.Scheduler.Invariant.{IsValid}
use ore_os.Scheduler.Leave.{behind, requeues}
use ore_os.Scheduler.Tick.{scheduler_tick_lem}

-- The state after `n` timer interrupts of kernel code on the processor 0.
pub after_ticks : (n : ℕ) → (ℕ → ℕ) → Sched → Sched
after_ticks zero sps s = s
after_ticks (suc n) sps s = after_ticks n sps (timer_interrupt 0 (sps n) s).1

abbrev pub tick_counted : Sched → Sched
tick_counted s = record s { ticks = update s.ticks 0 (add64 (s.ticks 0) 1) }

pub tick_counted-IsValid : (s : Sched) (xs : List ℕ) → IsValid s xs → IsValid (tick_counted s) xs
tick_counted-IsValid s xs v = record {
  queue = record { chain = v.queue.chain; once = v.queue.once; known = v.queue.known };
  members = record {
    few = v.members.few;
    ids = v.members.ids;
    listed = v.members.listed;
    complete = v.members.complete;
    known = v.members.known;
    one_runs = v.members.one_runs;
  };
}

behind-append :
    (current : Option ℕ) (threads : ℕ → Thread) (pre post : List ℕ)
    → behind current threads (pre ++ post) ≡ pre ++ behind current threads post
unfolding behind
behind-append none threads pre post = refl
behind-append (some c) threads pre post = elim (Bool-cases (requeues (threads c))) [
  | inl back ↦ rw back (append_assoc pre post (c ∷ []))
  | inr stays ↦ rw stays refl
]

pub not_nil : {x : ℕ} {xs : List ℕ} → x ∷ xs ≡ [] → ⊥
not_nil e = cc

same_cons : {x y : ℕ} {xs ys : List ℕ} → x ∷ xs ≡ y ∷ ys → (x ≡ y) × (xs ≡ ys)
same_cons e = (cc, cc)

-- One interrupt with `x` at the head of the queue.
pub interrupt_step :
    (sp : ℕ) (s : Sched) (x : ℕ) (xs : List ℕ)
    → IsValid s (x ∷ xs)
    → (s.cpus 0).started ≡ true
    → let s' = (timer_interrupt 0 sp s).1 in
      ((s'.cpus 0).current ≡ some x)
      × ((s'.cpus 0).started ≡ true)
      × ((woken : List ℕ) × IsValid s' (behind (s.cpus 0).current s.threads (xs ++ woken)))
unfolding timer_interrupt
interrupt_step sp s x xs v on =
    elim (scheduler_tick_lem sp (tick_counted s) (x ∷ xs) (tick_counted-IsValid s (x ∷ xs) v) on) [
      | inl (empty, nul, more, cur) ↦ absurd (not_nil empty)
      | inr (y, rest, same, sw) ↦
          let (hd, tl) = same_cons same in
          (
            sw.now ∙ ap some (sym hd),
            sw.started ∙ on,
            (
              due s.thread_count 0 ((tick_counted s).ticks 0) s.threads,
              subst
                  (λ ys.
                    IsValid (scheduler_tick 0 sp (tick_counted s)).1
                      (behind (s.cpus 0).current s.threads ys))
                  (sym tl) sw.valid,
            ),
          )
    ]

-- A thread that can run and has `length pre` threads before it in the queue is the current one after
-- `length pre + 1` timer interrupts of kernel code, if nothing else acts on the scheduler in between.
pub no_starvation :
    (sps : ℕ → ℕ) (pre : List ℕ) (s : Sched) (t : ℕ) (post : List ℕ)
    → IsValid s (pre ++ t ∷ post)
    → (s.cpus 0).started ≡ true
    → ((after_ticks (suc (length pre)) sps s).cpus 0).current ≡ some t
unfolding after_ticks
no_starvation sps [] s t post v on = (interrupt_step (sps 0) s t post v on).0
no_starvation sps (p ∷ pre) s t post v on =
    let (now, on', later) = interrupt_step (sps (suc (length pre))) s p (pre ++ t ∷ post) v on in
    let (woken, v') = later in
    let s' = (timer_interrupt 0 (sps (suc (length pre))) s).1 in
    let shape : behind (s.cpus 0).current s.threads (pre ++ t ∷ post ++ woken)
        ≡ pre ++ t ∷ behind (s.cpus 0).current s.threads (post ++ woken) =
      ap (behind (s.cpus 0).current s.threads) (append_assoc pre (t ∷ post) woken)
      ∙ behind-append (s.cpus 0).current s.threads pre (t ∷ post ++ woken)
      ∙ ap (λ (ys : List ℕ). pre ++ ys)
          (behind-append (s.cpus 0).current s.threads (t ∷ []) (post ++ woken)) in
    no_starvation sps pre s' t _ (subst (IsValid s') shape v') on'
