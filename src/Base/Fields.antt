-- ===== src/Base/Fields.antt =====
-- Fields of several bytes in memory, low byte first.
use Prim.Native.Nat.{ℕ, ◌+◌, ◌*◌, ◌^◌}

unfoldable pub load16 : (ℕ → ℕ) → (a : ℕ) → ℕ
load16 m a = m a + m (a + 1) * 2 ^ 8

unfoldable pub load32 : (ℕ → ℕ) → (a : ℕ) → ℕ
load32 m a = m a + m (a + 1) * 2 ^ 8 + m (a + 2) * 2 ^ 16 + m (a + 3) * 2 ^ 24

unfoldable pub load64 : (ℕ → ℕ) → (a : ℕ) → ℕ
load64 m a = load32 m a + load32 m (a + 4) * 2 ^ 32
