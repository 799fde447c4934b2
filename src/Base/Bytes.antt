-- ===== src/Base/Bytes.antt =====
-- Facts about the bits of a byte, found by checking every value.
use Prim.Native.Nat.{ℕ, zero, suc, ◌<◌}
use mathlib.Core.Path.{◌≡◌}
use mathlib.Core.Bool.{Bool, true, false, not, ◌&&◌}
use native.Mathlib.Omega.{arith}

unfoldable pub every : (test : ℕ → Bool) → (count : ℕ) → Bool
every test zero = true
every test (suc top) = every test top && test top

pub every-holds :
    (test : ℕ → Bool) (count value : ℕ)
    → value < count
    → every test count ≡ true
    → test value ≡ true
unfolding every
every-holds test zero value less checked = absurd (omega (arith, less))
every-holds test (suc top) value less checked =
    ground (arith, less, checked, every-holds test top value)

abbrev pub bool_eq : Bool → Bool → Bool
bool_eq true b = b
bool_eq false b = not b

pub bool_eq→≡ : (a b : Bool) → bool_eq a b ≡ true → a ≡ b
bool_eq→≡ a b h = ground arith
