-- ===== src/Pmm/Bitmap.antt =====
-- The bitmap of kernel/pmm.c as a set of pages.
use ore_os.Base.{
  arith, bit_clear-byte, bit_is_set-clear, bit_is_set-or, bit_or-byte, false, if◌then◌else◌, true,
  ℕ, ◌%◌, ◌/◌, ◌<◌, ◌==◌, ◌≡◌,
}
use ore_os.Pmm.{Pmm, bitmap_clear, bitmap_set, bitmap_test}

-- Every entry of the bitmap is a byte.
abbrev pub IsBytes : Pmm → Type 0
IsBytes s = (i : ℕ) → s.bitmap i < 256

pub bitmap_test-set :
    (p q : ℕ) (s : Pmm)
    → IsBytes s
    → bitmap_test (bitmap_set p s) q ≡ (if p == q then true else bitmap_test s q)
unfolding bitmap_test bitmap_set
bitmap_test-set p q s h = ground (
  arith,
  bit_is_set-or (s.bitmap (p / 8)) (p % 8) (h (p / 8)) (omega arith) (q % 8) (omega arith),
)

pub bitmap_test-clear :
    (p q : ℕ) (s : Pmm)
    → IsBytes s
    → bitmap_test (bitmap_clear p s) q ≡ (if p == q then false else bitmap_test s q)
unfolding bitmap_test bitmap_clear
bitmap_test-clear p q s h = ground (
  arith,
  bit_is_set-clear (s.bitmap (p / 8)) (p % 8) (h (p / 8)) (omega arith) (q % 8) (omega arith),
)

pub bitmap_set-IsBytes : (p : ℕ) (s : Pmm) → IsBytes s → IsBytes (bitmap_set p s)
unfolding bitmap_set
bitmap_set-IsBytes p s h i =
    ground (arith, h i, bit_or-byte (s.bitmap (p / 8)) (p % 8) (h (p / 8)) (omega arith))

pub bitmap_clear-IsBytes : (p : ℕ) (s : Pmm) → IsBytes s → IsBytes (bitmap_clear p s)
unfolding bitmap_clear
bitmap_clear-IsBytes p s h i =
    ground (arith, h i, bit_clear-byte (s.bitmap (p / 8)) (p % 8) (h (p / 8)) (omega arith))
