-- ===== src/Stdlib/Numerals.antt =====
-- ultoa of util/stdlib.c: the digits spell the number.
use kernel_old.Base.{
  ==_false, ℕ, zero, suc, ◌+◌, ◌-◌, ◌*◌, ◌/◌, ◌%◌, ◌^◌, ◌≤◌, ◌<◌, ◌≡◌, ◌≢◌, refl, sym, subst, ◌∙◌,
  ◌⊎◌, inl, inr, false, some, ◌==◌, Bool-cases, Option-cases, List, [], ◌∷◌, arith, ltb, leb,
  if◌then◌else◌,
}
use mathlib.Core.List.{reverse, reverse-reverse}
use native.Mathlib.Nat.{pow-suc}
use kernel_old.Stdlib.{digit, digits_loop, or_zero, ultoa}

-- The value of a character that `digit` writes.
abbrev pub digit_value : ℕ → ℕ
digit_value c = if leb 65 c then c - 65 + 10 else c - 48

digit_value-digit : (r : ℕ) → r < 32 → digit_value (digit r) ≡ r
digit_value-digit r h = ground arith

-- The number that a list of digits stands for, the lowest first.
unfoldable pub number : ℕ → List ℕ → ℕ
number base [] = 0
number base (c ∷ cs) = digit_value c + base * number base cs

half_power : (n base fuel : ℕ) → 2 ≤ base → n < 2 ^ suc fuel → n / base < 2 ^ fuel
half_power n base fuel lo h =
    let e : 2 ^ suc fuel ≡ 2 ^ fuel * 2 = rw pow-suc refl in omega (arith, e, half_le n base lo)
  where
    half_le : (n base : ℕ) → 2 ≤ base → n / base * 2 ≤ n
    half_le n base lo = grind arith

division : (n base : ℕ) → 0 < base → n % base + base * (n / base) ≡ n
division n base h = grind arith

-- On one more round of fuel than the number has bits, the digits that are written stand for it.
pub digits_loop-number :
    (fuel n base : ℕ)
    → 2 ≤ base
    → base ≤ 32
    → n < 2 ^ fuel
    → (ds : List ℕ) × (digits_loop (suc fuel) n base ≡ some ds) × (number base ds ≡ n)
unfolding digits_loop number
digits_loop-number fuel zero base lo hi h = ([], refl, refl)
digits_loop-number zero (suc n) base lo hi h = absurd (omega arith)
digits_loop-number (suc fuel) (suc n) base lo hi h =
    let (ds, e, v) =
      digits_loop-number fuel (suc n / base) base lo hi (half_power (suc n) base fuel lo h) in
    (
      digit (suc n % base) ∷ ds,
      rw (e, ==_false (suc n) 0 (omega arith)),
      rw (v, digit_value-digit (suc n % base) (omega arith)) (division (suc n) base (omega arith)),
    )

pub number-or_zero : (base : ℕ) (ds : List ℕ) → number base (or_zero ds) ≡ number base ds
unfolding number
number-or_zero base [] = omega arith
number-or_zero base (d ∷ ds) = refl

-- A character that is a digit of the base.
unfoldable pub IsDigit : (base c : ℕ) → Type 0
IsDigit base c = (b'0' ≤ c) × (c ≤ b'9') × (c < b'0' + base) ⊎ (b'A' ≤ c) × (c + 10 < b'A' + base)

unfoldable pub Digits : (base : ℕ) → List ℕ → Type 0
Digits base [] = Unit
Digits base (c ∷ cs) = IsDigit base c × Digits base cs

-- One digit or more, the lowest first, which stand for `n`.
unfoldable pub Spelled : (base n : ℕ) → List ℕ → Type 0
Spelled base n ds = (ds ≢ []) × Digits base ds × (number base ds ≡ n)

digit-IsDigit : (base r : ℕ) → r < base → IsDigit base (digit r)
unfolding IsDigit
digit-IsDigit base r lt = elim (Bool-cases (leb 10 r)) [
  | inl e ↦ inr (ground (arith, e), ground (arith, e))
  | inr e ↦ inl (ground (arith, e), ground (arith, e), ground (arith, e))
]

digits_loop-Digits :
    (fuel n base : ℕ) (ds : List ℕ) → 2 ≤ base → digits_loop fuel n base ≡ some ds → Digits base ds
unfolding digits_loop Digits
digits_loop-Digits zero n base ds lo e = cc
digits_loop-Digits (suc fuel) n base ds lo e = elim (Bool-cases (n == 0)) [
  | inl z ↦ let nil : [] ≡ ds = cc (rw (z, digits_loop) at e) in subst (Digits base) nil tt
  | inr nz ↦ elim (Option-cases (digits_loop fuel (n / base) base)) [
    | inl out ↦ cc (rw (nz, out, digits_loop) at e)
    | inr (rest, found) ↦
        let whole : digit (n % base) ∷ rest ≡ ds = cc (rw (nz, found, digits_loop) at e) in
        subst (Digits base) whole (
          digit-IsDigit base (n % base) (omega arith),
          digits_loop-Digits fuel (n / base) base rest lo found,
        )
  ]
]

pub or_zero-Spelled :
    (fuel base n : ℕ) (ds : List ℕ)
    → 2 ≤ base
    → base ≤ 32
    → digits_loop (suc fuel) n base ≡ some ds
    → number base ds ≡ n
    → Spelled base n (or_zero ds)
unfolding Spelled Digits IsDigit
or_zero-Spelled fuel base n [] lo hi e value =
    (λ nil. cc, (inl (omega arith, omega arith, omega arith), tt), number-or_zero base [] ∙ value)
or_zero-Spelled fuel base n (d ∷ ds) lo hi e value =
    (λ nil. cc, digits_loop-Digits (suc fuel) n base (d ∷ ds) lo e, value)

-- For a base from 2 to 32 and a number below `2 ^ fuel`, `ultoa` on one more round of fuel returns a
-- text of digits which spells the number in that base.
pub ultoa-Spelled :
    (fuel n base : ℕ)
    → 2 ≤ base
    → base ≤ 32
    → n < 2 ^ fuel
    → (text : List ℕ) × (ultoa (suc fuel) n base ≡ some (some text)) × Spelled base n (reverse text)
unfolding ultoa
ultoa-Spelled fuel n base lo hi h =
    let (ds, e, v) = digits_loop-number fuel n base lo hi h in
    let small : ltb base 2 ≡ false = ground arith in
    let large : ltb 32 base ≡ false = ground arith in
    (
      reverse (or_zero ds),
      rw (small, large, e),
      subst (Spelled base n) (sym (reverse-reverse (or_zero ds)))
          (or_zero-Spelled fuel base n ds lo hi e v),
    )
