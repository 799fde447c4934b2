-- ===== src/Base/Masks.antt =====
-- `bit_or` of two numbers that share no bit.
use Prim.Native.Nat.{
  ℕ, zero, suc, ◌+◌, ◌*◌, ◌/◌, ◌%◌, ◌≤◌, ◌<◌, max, digits, bit_or, bit_or-bitwise,
}
use mathlib.Core.Path.{◌≡◌, refl, sym, ap, ◌∙◌}
use mathlib.Core.Logic.{◌⊎◌, inl, inr}
use native.Mathlib.Omega.{arith}

-- More rounds than the first number has digits make no difference.
digits-more :
    (z : ℕ → ℕ) (f : ℕ → ℕ → ℕ) (n n' a b : ℕ)
    → a ≤ n
    → a ≤ n'
    → digits z f n a b ≡ digits z f n' a b
digits-more z f zero zero a b le le' = refl
digits-more z f zero (suc n') zero b le le' = refl
digits-more z f zero (suc n') (suc a) b le le' = absurd (omega (arith, le))
digits-more z f (suc n) zero zero b le le' = refl
digits-more z f (suc n) zero (suc a) b le le' = absurd (omega (arith, le'))
digits-more z f (suc n) (suc n') zero b le le' = refl
digits-more z f (suc n) (suc n') (suc a) b le le' =
    ap (λ d. d * 2 + f (suc a % 2) (b % 2))
      (digits-more z f n n' (suc a / 2) (b / 2) (omega (arith, le)) (omega (arith, le')))

bit_or-halves : (a b : ℕ) → bit_or a b ≡ bit_or (a / 2) (b / 2) * 2 + max (a % 2) (b % 2)
bit_or-halves zero b = omega (arith, bit_or-bitwise 0 b, bit_or-bitwise 0 (b / 2))
bit_or-halves (suc a) b =
    let e : digits (λ b. b) max a (suc a / 2) (b / 2) ≡ bit_or (suc a / 2) (b / 2) =
      digits-more (λ b. b) max a (suc a / 2) (suc a / 2) (b / 2) (omega arith) (omega arith)
      ∙ sym (bit_or-bitwise (suc a / 2) (b / 2)) in
    bit_or-bitwise (suc a) b ∙ ap (λ d. d * 2 + max (suc a % 2) (b % 2)) e

bit_or-none : (n a : ℕ) → a ≤ n → bit_or a 0 ≡ a
bit_or-none zero zero le = bit_or-bitwise 0 0
bit_or-none zero (suc a) le = absurd (omega (arith, le))
bit_or-none (suc n) a le = elim (lt_or_eq a) [
  | inl e ↦ omega (arith, bit_or-bitwise 0 0, e, ap (λ x. bit_or x 0) e)
  | inr pos ↦
      let half = bit_or-none n (a / 2) (omega (arith, le, pos)) in
      omega (arith, bit_or-halves a 0, half)
]
  where
    lt_or_eq : (a : ℕ) → a ≡ 0 ⊎ 0 < a
    lt_or_eq zero = inl refl
    lt_or_eq (suc a) = inr (omega arith)

-- `a << k`
abbrev pub shift_left : (a k : ℕ) → ℕ
shift_left a zero = a
shift_left a (suc k) = shift_left a k * 2

-- Or of a shifted number and one below the shift adds them.
pub bit_or-shift_left :
    (k a r : ℕ) → r < shift_left 1 k → bit_or (shift_left a k) r ≡ shift_left a k + r
bit_or-shift_left zero a r lt =
    let e : r ≡ 0 = omega (arith, lt) in
    ap (bit_or a) e ∙ bit_or-none a a (omega arith) ∙ omega (arith, e)
bit_or-shift_left (suc k) a r lt =
    let rest = bit_or-shift_left k a (r / 2) (omega (arith, lt)) in
    let e = ap (λ x. bit_or x (r / 2)) (half (shift_left a k)) in
    omega (arith, bit_or-halves (shift_left a k * 2) r, rest, e)
  where
    half : (x : ℕ) → x * 2 / 2 ≡ x
    half x = omega arith

pub bit_or-shift_right :
    (k a r : ℕ) → r < shift_left 1 k → bit_or r (shift_left a k) ≡ shift_left a k + r
bit_or-shift_right zero a r lt =
    let e : r ≡ 0 = omega (arith, lt) in
    ap (λ x. bit_or x a) e ∙ bit_or-bitwise 0 a ∙ omega (arith, e)
bit_or-shift_right (suc k) a r lt =
    let rest = bit_or-shift_right k a (r / 2) (omega (arith, lt)) in
    let e = ap (bit_or (r / 2)) (half (shift_left a k)) in
    omega (arith, bit_or-halves r (shift_left a k * 2), rest, e)
  where
    half : (x : ℕ) → x * 2 / 2 ≡ x
    half x = omega arith
