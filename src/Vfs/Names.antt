-- ===== src/Vfs/Names.antt =====
-- The comparisons of names in kernel/vfs.c.
use ore_os.Base.{List, [], arith, refl, true, ℕ, ◌∷◌, ◌≡◌}
use ore_os.Vfs.{str_eq_local}

pub str_eq_local→eq : (a b : List ℕ) → str_eq_local a b ≡ true → a ≡ b
unfolding str_eq_local
str_eq_local→eq [] [] h = refl
str_eq_local→eq [] (y ∷ ys) h = absurd (ground arith)
str_eq_local→eq (x ∷ xs) [] h = absurd (ground arith)
str_eq_local→eq (x ∷ xs) (y ∷ ys) h = ground (arith, str_eq_local→eq xs ys)

pub str_eq_local_refl : (a : List ℕ) → str_eq_local a a ≡ true
unfolding str_eq_local
str_eq_local_refl [] = refl
str_eq_local_refl (x ∷ xs) = ground (arith, str_eq_local_refl xs)

pub str_eq_local_comm : (a b : List ℕ) → str_eq_local a b ≡ str_eq_local b a
unfolding str_eq_local
str_eq_local_comm [] [] = refl
str_eq_local_comm [] (y ∷ ys) = refl
str_eq_local_comm (x ∷ xs) [] = refl
str_eq_local_comm (x ∷ xs) (y ∷ ys) = ground (arith, str_eq_local_comm xs ys)
