-- ===== src/Base/Words.antt =====
-- Little-endian words in byte memory.
use Prim.Native.Nat.{ℕ, zero, suc, ◌+◌, ◌*◌}
use ore_os.Base.Bytes.{Memory}

-- The word of `n` bytes at the address `a`.
unfoldable pub read_le : ℕ → Memory → ℕ → ℕ
read_le zero m a = 0
read_le (suc n) m a = m a + 256 * read_le n m (a + 1)

abbrev pub read16 : Memory → ℕ → ℕ
read16 = read_le 2

abbrev pub read32 : Memory → ℕ → ℕ
read32 = read_le 4

abbrev pub read64 : Memory → ℕ → ℕ
read64 = read_le 8
