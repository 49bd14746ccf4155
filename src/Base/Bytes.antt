-- ===== src/Base/Bytes.antt =====
-- Byte memory, the loops that clear and fill it, and the arithmetic of uint64_t.
use Prim.Native.Nat.{ℕ, zero, suc, ◌+◌, ◌-◌, ◌*◌, ◌%◌, ◌^◌}
use mathlib.Core.Path.{◌≡◌}
use mathlib.Core.Bool.{Bool, ◌&&◌}
use native.Mathlib.Omega.{arith}
use ore_os.Base.Tests.{if◌then◌else◌, leb, ltb, ◌==◌}

abbrev pub Memory : Type 0
Memory = ℕ → ℕ

-- One write, `p[a] = v`.
abbrev pub update {ℓ} : {A : Type ℓ} → (ℕ → A) → ℕ → A → ℕ → A
update m a v b = if a == b then v else m b

abbrev pub u64_mod : ℕ
u64_mod = 2 ^ 64

abbrev pub u32_mod : ℕ
u32_mod = 2 ^ 32

abbrev pub add64 : ℕ → ℕ → ℕ
add64 a b = (a + b) % u64_mod

abbrev pub sub64 : ℕ → ℕ → ℕ
sub64 a b = (a + u64_mod - b) % u64_mod

abbrev pub mul64 : ℕ → ℕ → ℕ
mul64 a b = a * b % u64_mod

-- The bytes from `a` on, `n` of them.
abbrev pub in_range : ℕ → ℕ → ℕ → Bool
in_range a n b = leb a b && ltb b (a + n)

-- `for (i = 0; i < size; ++i) p[i] = 0`, from the last byte to the first.
unfoldable pub mem_zero : ℕ → ℕ → Memory → Memory
mem_zero p zero m = m
mem_zero p (suc n) m = update (mem_zero p n m) (p + n) 0

pub mem_zero_lem :
    (p n : ℕ) (m : Memory) (b : ℕ) → mem_zero p n m b ≡ (if in_range p n b then 0 else m b)
unfolding mem_zero
mem_zero_lem p zero m b = ground arith
mem_zero_lem p (suc n) m b = ground (arith, mem_zero_lem p n m b)
