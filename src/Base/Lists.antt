-- ===== src/Base/Lists.antt =====
-- Lists with native indices, and stores that are functions from addresses.
use Prim.Native.Nat.{ℕ, zero, suc, ◌+◌}
use mathlib.Core.Path.{◌≡◌}
use mathlib.Core.Logic.{◌≢◌}
use mathlib.Core.List.{List, [], ◌∷◌, ◌++◌}
use mathlib.Core.Option.{Option, none, some}
use native.Mathlib.Omega.{arith}
use kernel_old.Base.Tests.{◌==◌, if◌then◌else◌, ==_refl, ==_false}

module _ {ℓ} {A : Type ℓ} where
  abbrev pub length : List A → ℕ
  length [] = 0
  length (_ ∷ xs) = suc (length xs)

  abbrev pub get_elem? : List A → ℕ → Option A
  get_elem? [] _ = none
  get_elem? (x ∷ _) zero = some x
  get_elem? (_ ∷ xs) (suc i) = get_elem? xs i

  -- A write out of range changes nothing.
  abbrev pub set : List A → ℕ → A → List A
  set [] _ _ = []
  set (_ ∷ xs) zero v = v ∷ xs
  set (x ∷ xs) (suc i) v = x ∷ set xs i v

  pub length-append : (xs ys : List A) → length (xs ++ ys) ≡ length xs + length ys
  length-append [] ys = omega arith
  length-append (x ∷ xs) ys = omega (arith, length-append xs ys)

  -- A store after one write.
  abbrev pub update : (ℕ → A) → ℕ → A → ℕ → A
  update s p v q = if q == p then v else s q

  pub update_self : (s : ℕ → A) (p : ℕ) (v : A) → update s p v p ≡ v
  update_self s p v = rw ==_refl

  pub update_ne : (s : ℕ → A) (p q : ℕ) (v : A) → q ≢ p → update s p v q ≡ s q
  update_ne s p q v n = rw (==_false q p n)
