-- ===== src/Scheduler/Frame.antt =====
-- The first stack of a thread (build_initial_stack, kernel/scheduler.c) as an InterruptFrame.
use mathlib.Core.Path.{subst}
use ore_os.Base.{
  List, [], ap, arith, get_or, inr, length, refl, replicate, sub64, suc, u64_mod, update, zero, ℕ,
  ◌*◌, ◌+◌, ◌-◌, ◌<◌, ◌∙◌, ◌∷◌, ◌≡◌, ◌≤◌, ◌⊎◌,
}
use ore_os.Scheduler.{build_initial_stack, push}
use ore_os.Process.Frame.{InterruptFrame, fresh_frame}

push_all : List ℕ → ℕ × (ℕ → ℕ) → ℕ × (ℕ → ℕ)
push_all [] st = st
push_all (v ∷ vs) st = push_all vs (push v st)

-- The words are at and below the top, the first one highest, and nothing else is written.
record Pushed (vs : List ℕ) (t : ℕ) (m : ℕ → ℕ) (st : ℕ × (ℕ → ℕ)) : Type 0 where
  sp : st.0 ≡ t - 8 * length vs
  at : (i : ℕ) → i < length vs → st.1 (t - 8 * (i + 1)) ≡ get_or vs i 0
  rest : (a : ℕ) → (a < t - 8 * length vs) ⊎ (t ≤ a) → st.1 a ≡ m a

Pushed-cons :
    (v : ℕ) (vs : List ℕ) (t : ℕ) (m : ℕ → ℕ) (st : ℕ × (ℕ → ℕ))
    → 8 * length (v ∷ vs) ≤ t
    → Pushed vs (t - 8) (update m (t - 8) v) st
    → Pushed (v ∷ vs) t m st
Pushed-cons v vs t m st lo k = record {
  sp = omega (arith, k.sp);
  at = at_index;
  rest = λ a out. k.rest a (ground arith) ∙ ground arith;
}
  where
    at_index : (i : ℕ) → i < length (v ∷ vs) → st.1 (t - 8 * (i + 1)) ≡ get_or (v ∷ vs) i 0
    at_index zero lt = ap st.1 (omega arith) ∙ k.rest (t - 8) (inr (omega arith)) ∙ ground arith
    at_index (suc i) lt = ap st.1 (omega arith) ∙ k.at i (omega arith)

push_all_lem :
    (vs : List ℕ) (t : ℕ) (m : ℕ → ℕ)
    → 8 * length vs ≤ t
    → t < u64_mod
    → Pushed vs t m (push_all vs (t, m))
unfolding push_all
push_all_lem [] t m lo hi = record {
  sp = omega arith;
  at = λ i lt. absurd (omega arith);
  rest = λ a out. refl;
}
push_all_lem (v ∷ vs) t m lo hi =
    let below : t - 8 ≡ sub64 t 8 = omega arith in
    subst (λ r. Pushed (v ∷ vs) t m (push_all vs (r, update m r v))) below
      (Pushed-cons v vs t m _ lo
        (push_all_lem vs (t - 8) (update m (t - 8) v) (omega arith) (omega arith)))

-- The InterruptFrame at the address `a`, in the order of its fields.
pub read_frame : (ℕ → ℕ) → ℕ → InterruptFrame
read_frame m a = record {
  r15 = m a;
  r14 = m (a + 8);
  r13 = m (a + 16);
  r12 = m (a + 24);
  r11 = m (a + 32);
  r10 = m (a + 40);
  r9 = m (a + 48);
  r8 = m (a + 56);
  rdi = m (a + 64);
  rsi = m (a + 72);
  rbp = m (a + 80);
  rdx = m (a + 88);
  rcx = m (a + 96);
  rbx = m (a + 104);
  rax = m (a + 112);
  vector = m (a + 120);
  error_code = m (a + 128);
  rip = m (a + 136);
  cs = m (a + 144);
  rflags = m (a + 152);
  rsp = m (a + 160);
  ss = m (a + 168);
}

-- The frame that starts thread_entry_asm with the address of the thread as its argument.
abbrev pub start_frame : (thread start stack_top : ℕ) → InterruptFrame
start_frame thread start stack_top = record (fresh_frame start (stack_top - 8)) {
  rdi = thread;
  cs = 0x08;
  ss = 0x10;
}

-- The words that build_initial_stack pushes, in this order.
abbrev stack_words : (thread start top : ℕ) → List ℕ
stack_words thread start top =
    0x10
    ∷ (sub64 top 8
        ∷ (0x202
            ∷ (0x08
                ∷ (start
                    ∷ (0 ∷ (32 ∷ (0 ∷ (0 ∷ (0 ∷ (0 ∷ (0 ∷ (0 ∷ (thread ∷ replicate 8 0)))))))))))))

module _ (thread start top : ℕ) (m' : ℕ → ℕ) (lo : 176 ≤ top) (hi : top < u64_mod)
    (h : (i : ℕ)
      → i < 22
      → m' (top - 8 * (i + 1)) ≡ get_or (stack_words thread start top) i 0) where
  word :
      (i : ℕ) {a : ℕ}
      → i < 22
      → a ≡ top - 8 * (i + 1)
      → m' a ≡ get_or (stack_words thread start top) i 0
  word i lt e = ap m' e ∙ h i lt

  frame_of_words : read_frame m' (top - 176) ≡ start_frame thread start top
  unfolding read_frame
  frame_of_words =
      let below : sub64 top 8 ≡ top - 8 = omega arith in
      rw
        (
          word 21 {a = top - 176} (omega arith) (omega arith),
          word 20 {a = top - 176 + 8} (omega arith) (omega arith),
          word 19 {a = top - 176 + 16} (omega arith) (omega arith),
          word 18 {a = top - 176 + 24} (omega arith) (omega arith),
          word 17 {a = top - 176 + 32} (omega arith) (omega arith),
          word 16 {a = top - 176 + 40} (omega arith) (omega arith),
          word 15 {a = top - 176 + 48} (omega arith) (omega arith),
          word 14 {a = top - 176 + 56} (omega arith) (omega arith),
          word 13 {a = top - 176 + 64} (omega arith) (omega arith),
          word 12 {a = top - 176 + 72} (omega arith) (omega arith),
          word 11 {a = top - 176 + 80} (omega arith) (omega arith),
          word 10 {a = top - 176 + 88} (omega arith) (omega arith),
          word 9 {a = top - 176 + 96} (omega arith) (omega arith),
          word 8 {a = top - 176 + 104} (omega arith) (omega arith),
          word 7 {a = top - 176 + 112} (omega arith) (omega arith),
          word 6 {a = top - 176 + 120} (omega arith) (omega arith),
          word 5 {a = top - 176 + 128} (omega arith) (omega arith),
          word 4 {a = top - 176 + 136} (omega arith) (omega arith),
          word 3 {a = top - 176 + 144} (omega arith) (omega arith),
          word 2 {a = top - 176 + 152} (omega arith) (omega arith),
          word 1 {a = top - 176 + 160} (omega arith) (omega arith),
          word 0 {a = top - 176 + 168} (omega arith) (omega arith),
          below,
        )
        refl

-- build_initial_stack leaves at the stack pointer that it returns, 176 bytes below the top of the
-- stack, the InterruptFrame with which the interrupt returns to thread_entry_asm in kernel mode, with
-- the thread as the first argument and interrupts on; it writes nothing outside these bytes.
pub build_initial_stack_lem :
    (thread start top : ℕ) (m : ℕ → ℕ)
    → 176 ≤ top
    → top < u64_mod
    → let (sp, m') = build_initial_stack thread start top m in
      (sp ≡ top - 176)
      × (read_frame m' (top - 176) ≡ start_frame thread start top)
      × ((a : ℕ) → (a < top - 176) ⊎ (top ≤ a) → m' a ≡ m a)
unfolding build_initial_stack push_all
build_initial_stack_lem thread start top m lo hi =
    let p : Pushed (stack_words thread start top) top m (build_initial_stack thread start top m) =
      push_all_lem (stack_words thread start top) top m lo hi in
    (p.sp, frame_of_words thread start top _ lo hi p.at, p.rest)
