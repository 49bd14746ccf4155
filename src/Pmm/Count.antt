-- ===== src/Pmm/Count.antt =====
-- Counting the pages that the bitmap of kernel/pmm.c leaves free.
use ore_os.Base.{
  Bool, Bool-cases, arith, false, if◌then◌else◌, inl, inr, ltb, refl, suc, true, zero, ℕ, ◌+◌, ◌<◌,
  ◌==◌, ◌≡◌, ◌≢◌, ◌≤◌,
}

-- How many of the first `n` places of `f` are clear.
unfoldable pub clear_below : (ℕ → Bool) → ℕ → ℕ
clear_below f zero = 0
clear_below f (suc n) = clear_below f n + (if f n then 0 else 1)

pub clear_below-same :
    (f g : ℕ → Bool) (n : ℕ) → ((q : ℕ) → q < n → f q ≡ g q) → clear_below f n ≡ clear_below g n
unfolding clear_below
clear_below-same f g zero h = refl
clear_below-same f g (suc n) h =
    ground (arith, clear_below-same f g n (λ q hq. h q (omega arith)), h n (omega arith))

-- One place that turns from clear to set lowers the count by one.
pub clear_below-flip :
    (f g : ℕ → Bool) (p n : ℕ)
    → p < n
    → f p ≡ false
    → g p ≡ true
    → ((q : ℕ) → q ≢ p → f q ≡ g q)
    → clear_below g n + 1 ≡ clear_below f n
unfolding clear_below
clear_below-flip f g p zero hp ef eg h = absurd (omega arith)
clear_below-flip f g p (suc n) hp ef eg h = elim (Bool-cases (n == p)) [
  | inl e ↦
      let here : n ≡ p = ground arith in
      rw here (ground (arith, clear_below-same f g p (λ q hq. h q (omega arith))))
  | inr e ↦ ground (arith, h n, clear_below-flip f g p n (ground arith) ef eg h)
]

pub clear_below-le : (f : ℕ → Bool) (n : ℕ) → clear_below f n ≤ n
unfolding clear_below
clear_below-le f zero = omega arith
clear_below-le f (suc n) = ground (arith, clear_below-le f n)

pub clear_below-full : (f : ℕ → Bool) (n : ℕ) → ((q : ℕ) → q < n → f q ≡ true) → clear_below f n ≡ 0
unfolding clear_below
clear_below-full f zero h = refl
clear_below-full f (suc n) h =
    ground (arith, clear_below-full f n (λ q lt. h q (omega arith)), h n (omega arith))

-- Where every place from `k` on is set, at most `k` places are clear.
pub clear_below-tail :
    (f : ℕ → Bool) (k n : ℕ) → ((q : ℕ) → k ≤ q → q < n → f q ≡ true) → clear_below f n ≤ k
unfolding clear_below
clear_below-tail f k zero h = omega arith
clear_below-tail f k (suc n) h = elim (Bool-cases (ltb n k)) [
  | inl e ↦ ground (arith, clear_below-le f n)
  | inr e ↦ ground (arith, clear_below-tail f k n (λ q lo hi. h q lo (omega arith)), h n)
]
