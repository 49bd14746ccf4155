-- ===== src/Base/Bits.antt =====
-- Facts about bits of a byte, each checked at every value.
use Prim.Native.Nat.{ℕ, zero, suc, ◌-◌, ◌%◌, ◌^◌, ◌<◌, bit_and, bit_or}
use mathlib.Core.Path.{◌≡◌, refl}
use mathlib.Core.Bool.{Bool, true, false, ◌&&◌, not}
use native.Mathlib.Omega.{arith}
use ore_os.Base.Tests.{if◌then◌else◌, ltb, ltb→lt, ◌==◌}

-- `test` holds at every number below `n`.
holds_below : (test : ℕ → Bool) → ℕ → Bool
holds_below test (suc n) = holds_below test n && test n
holds_below test zero = true

holds_below_at :
    (test : ℕ → Bool) {n : ℕ} (k : ℕ) → holds_below test n ≡ true → k < n → test k ≡ true
unfolding holds_below
holds_below_at test {n = suc n} k all small = ground (arith, holds_below_at test {n = n} k)
holds_below_at test {n = zero} k all small = absurd (omega arith)

-- `(uint8_t)(1u << k)`, and its complement as a byte.
abbrev pub bit_mask : ℕ → ℕ
bit_mask k = 2 ^ k % 256

abbrev pub bit_clear_mask : ℕ → ℕ
bit_clear_mask k = (2 ^ 32 - 1 - 2 ^ k) % 256

-- `(byte & (1u << k)) != 0`
abbrev pub bit_is_set : ℕ → ℕ → Bool
bit_is_set byte k = not (bit_and byte (bit_mask k) == 0)

bool_eq : Bool → Bool → Bool
bool_eq true b = b
bool_eq false b = not b

bool_eq_sound : (a b : Bool) → bool_eq a b ≡ true → a ≡ b
unfolding bool_eq
bool_eq_sound a b h = ground arith

set_ok : ℕ → ℕ → ℕ → Bool
unfolding bool_eq
set_ok x i j =
    bool_eq (bit_is_set (bit_or x (bit_mask i)) j) (if i == j then true else bit_is_set x j)

clear_ok : ℕ → ℕ → ℕ → Bool
unfolding bool_eq
clear_ok x i j =
    bool_eq (bit_is_set (bit_and x (bit_clear_mask i)) j) (if i == j then false else bit_is_set x j)

set_table : holds_below (λ x. holds_below (λ i. holds_below (set_ok x i) 8) 8) 256 ≡ true
unfolding holds_below set_ok
set_table = refl

clear_table : holds_below (λ x. holds_below (λ i. holds_below (clear_ok x i) 8) 8) 256 ≡ true
unfolding holds_below clear_ok
clear_table = refl

set_byte_table : holds_below (λ x. holds_below (λ i. ltb (bit_or x (bit_mask i)) 256) 8) 256 ≡ true
unfolding holds_below
set_byte_table = refl

clear_byte_table :
    holds_below (λ x. holds_below (λ i. ltb (bit_and x (bit_clear_mask i)) 256) 8) 256 ≡ true
unfolding holds_below
clear_byte_table = refl

module _ (x i : ℕ) (hx : x < 256) (hi : i < 8) where
  pub bit_is_set-or :
      (j : ℕ)
      → j < 8
      → bit_is_set (bit_or x (bit_mask i)) j ≡ (if i == j then true else bit_is_set x j)
  unfolding set_ok
  bit_is_set-or j hj = bool_eq_sound _ _ (
      holds_below_at _ {n = 8} j
        (holds_below_at _ {n = 8} i (holds_below_at _ {n = 256} x set_table hx) hi) hj)

  pub bit_is_set-clear :
      (j : ℕ)
      → j < 8
      → bit_is_set (bit_and x (bit_clear_mask i)) j ≡ (if i == j then false else bit_is_set x j)
  unfolding clear_ok
  bit_is_set-clear j hj = bool_eq_sound _ _ (
      holds_below_at _ {n = 8} j
        (holds_below_at _ {n = 8} i (holds_below_at _ {n = 256} x clear_table hx) hi) hj)

  pub bit_or-byte : bit_or x (bit_mask i) < 256
  bit_or-byte =
      ltb→lt _ _ (holds_below_at _ {n = 8} i (holds_below_at _ {n = 256} x set_byte_table hx) hi)

  pub bit_clear-byte : bit_and x (bit_clear_mask i) < 256
  bit_clear-byte =
      ltb→lt _ _ (holds_below_at _ {n = 8} i (holds_below_at _ {n = 256} x clear_byte_table hx) hi)
