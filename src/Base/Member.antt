-- ===== src/Base/Member.antt =====
-- Membership in a list of numbers, and lists without repetition.
use Prim.Native.Nat.{ℕ, zero, suc, ◌≤◌, ◌<◌}
use mathlib.Core.Path.{◌≡◌, refl}
use mathlib.Core.Bool.{Bool, true, false, ◌&&◌, ◌||◌, not}
use mathlib.Core.List.{List, [], ◌∷◌, ◌++◌}
use native.Mathlib.Omega.{arith}
use ore_os.Base.Tests.{if◌then◌else◌, ltb, ◌==◌}
use ore_os.Base.Lists.{length}

abbrev pub is_in : ℕ → List ℕ → Bool
is_in x [] = false
is_in x (y ∷ ys) = x == y || is_in x ys

abbrev pub distinct : List ℕ → Bool
distinct [] = true
distinct (x ∷ xs) = not (is_in x xs) && distinct xs

abbrev pub all_below : ℕ → List ℕ → Bool
all_below n [] = true
all_below n (x ∷ xs) = ltb x n && all_below n xs

pub is_in-append : (x : ℕ) (xs ys : List ℕ) → is_in x (xs ++ ys) ≡ (is_in x xs || is_in x ys)
is_in-append x [] ys = refl
is_in-append x (z ∷ xs) ys = ground (arith, is_in-append x xs ys)

pub distinct-snoc :
    (xs : List ℕ) (x : ℕ) → distinct xs ≡ true → is_in x xs ≡ false → distinct (xs ++ x ∷ []) ≡ true
distinct-snoc [] x d n = refl
distinct-snoc (y ∷ xs) x d n = ground (arith, distinct-snoc xs x, is_in-append y xs (x ∷ []))

pub all_below-snoc :
    (n : ℕ) (xs : List ℕ) (x : ℕ)
    → all_below n xs ≡ true
    → x < n
    → all_below n (xs ++ x ∷ []) ≡ true
all_below-snoc n [] x a lt = ground arith
all_below-snoc n (y ∷ xs) x a lt = ground (arith, all_below-snoc n xs x)

-- The list without the number `k`.
pub without : ℕ → List ℕ → List ℕ
without k [] = []
without k (x ∷ xs) = let rest = without k xs in if x == k then rest else x ∷ rest

is_in-without : (k x : ℕ) (xs : List ℕ) → is_in x xs ≡ false → is_in x (without k xs) ≡ false
unfolding without
is_in-without k x [] n = refl
is_in-without k x (y ∷ xs) n = ground (arith, is_in-without k x xs)

without_fresh : (k : ℕ) (xs : List ℕ) → is_in k xs ≡ false → length xs ≤ length (without k xs)
unfolding without
without_fresh k [] n = omega arith
without_fresh k (x ∷ xs) n = ground (arith, without_fresh k xs)

length-without :
    (k : ℕ) (xs : List ℕ) → distinct xs ≡ true → length xs ≤ suc (length (without k xs))
unfolding without
length-without k [] d = omega arith
length-without k (x ∷ xs) d = ground (arith, length-without k xs, without_fresh k xs)

distinct-without : (k : ℕ) (xs : List ℕ) → distinct xs ≡ true → distinct (without k xs) ≡ true
unfolding without
distinct-without k [] d = refl
distinct-without k (x ∷ xs) d = ground (arith, distinct-without k xs, is_in-without k x xs)

all_below-without :
    (n : ℕ) (xs : List ℕ) → all_below (suc n) xs ≡ true → all_below n (without n xs) ≡ true
unfolding without
all_below-without n [] a = refl
all_below-without n (x ∷ xs) a = ground (arith, all_below-without n xs)

-- Different numbers below `n` are at most `n`.
pub length-all_below :
    (n : ℕ) (xs : List ℕ) → distinct xs ≡ true → all_below n xs ≡ true → length xs ≤ n
length-all_below zero [] d a = omega arith
length-all_below zero (x ∷ xs) d a = ground arith
length-all_below (suc n) xs d a = omega (
  arith,
  length-without n xs d,
  length-all_below n (without n xs) (distinct-without n xs d) (all_below-without n xs a),
)

pub is_in_below : (n x : ℕ) (xs : List ℕ) → all_below n xs ≡ true → is_in x xs ≡ true → x < n
is_in_below n x [] a i = absurd (ground arith)
is_in_below n x (y ∷ xs) a i = ground (arith, is_in_below n x xs)
