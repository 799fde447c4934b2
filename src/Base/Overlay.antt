-- ===== src/Base/Overlay.antt =====
-- `memcpy` into a memory of bytes.
use Prim.Native.Nat.{ℕ, ◌+◌, ◌-◌, ◌≤◌, ◌<◌}
use mathlib.Core.Path.{◌≡◌, refl}
use mathlib.Core.Logic.{◌⊎◌}
use mathlib.Core.Bool.{true, false, ◌&&◌}
use native.Mathlib.Omega.{arith}
use kernel_old.Base.Tests.{ltb, leb, if◌then◌else◌}

-- `size` bytes of `src` put over `buf` from `at` on.
unfoldable pub overlay : (buf src : ℕ → ℕ) → (at size : ℕ) → ℕ → ℕ
overlay buf src at size j = if leb at j && ltb j (at + size) then src (j - at) else buf j

pub overlay-inside :
    (buf src : ℕ → ℕ) (at size n : ℕ) → n < size → overlay buf src at size (at + n) ≡ src n
unfolding overlay
overlay-inside buf src at size n lt =
    let inside : leb at (at + n) && ltb (at + n) (at + size) ≡ true = ground (arith, lt) in
    let offset : at + n - at ≡ n = omega arith in rw (inside, offset) refl

pub overlay-within :
    (buf src : ℕ → ℕ) (at size j : ℕ)
    → at ≤ j
    → j < at + size
    → overlay buf src at size j ≡ src (j - at)
unfolding overlay
overlay-within buf src at size j lo hi =
    let inside : leb at j && ltb j (at + size) ≡ true = ground (arith, lo, hi) in rw (inside) refl

pub overlay-outside :
    (buf src : ℕ → ℕ) (at size j : ℕ) → j < at ⊎ at + size ≤ j → overlay buf src at size j ≡ buf j
unfolding overlay
overlay-outside buf src at size j out =
    let outside : leb at j && ltb j (at + size) ≡ false = ground (arith, out) in rw (outside) refl
