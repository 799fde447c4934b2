-- ===== src/Exec/Prepared.antt =====
-- The writes of sched/sched.c `prepstack` to the stack, and what reads them back.
use kernel_old.Base.{
  ℕ, ◌+◌, ◌*◌, ◌/◌, ◌%◌, ◌^◌, ◌≤◌, ◌<◌, ◌≡◌, refl, ap, ◌∙◌, ◌⊎◌, inl, inr, List, [], ◌∷◌, arith,
  length, update_self, update, overlay-inside, overlay-outside, load32, load64,
}
use kernel_old.Vfs.{Text}
use kernel_old.Exec.{store64, store_text}

-- The text `t` and its NUL lie at `a`.
unfoldable pub TextAt : (ℕ → ℕ) → (a : ℕ) → Text → Type 0
TextAt m a [] = m a ≡ 0
TextAt m a (c ∷ cs) = (m a ≡ c) × TextAt m (a + 1) cs

-- Both memories have the same bytes from `a` on.
abbrev pub Above : (m m' : ℕ → ℕ) → (a : ℕ) → Type 0
Above m m' a = (x : ℕ) → a ≤ x → m' x ≡ m x

pub TextAt-Above :
    (m m' : ℕ → ℕ) (a b : ℕ) (t : Text) → Above m m' a → a ≤ b → TextAt m b t → TextAt m' b t
unfolding TextAt
TextAt-Above m m' a b [] same le h = same b le ∙ h
TextAt-Above m m' a b (c ∷ cs) same le (first, rest) =
    (same b le ∙ first, TextAt-Above m m' a (b + 1) cs same (omega (arith, le)) rest)

pub store_text-other :
    (m : ℕ → ℕ) (a : ℕ) (t : Text) (x : ℕ) → x < a ⊎ a + length t < x → store_text m a t x ≡ m x
unfolding store_text
store_text-other m a [] x out = ground (arith, out)
store_text-other m a (c ∷ cs) x out =
    store_text-other (update m a c) (a + 1) cs x
      (elim out [ inl lt ↦ inl (omega (arith, lt)) | inr gt ↦ inr (omega (arith, gt)) ])
    ∙ ground (arith, out)

pub TextAt-store_text : (m : ℕ → ℕ) (a : ℕ) (t : Text) → TextAt (store_text m a t) a t
unfolding TextAt store_text
TextAt-store_text m a [] = update_self m a 0
TextAt-store_text m a (c ∷ cs) = (
  store_text-other (update m a c) (a + 1) cs a (inl (omega arith)) ∙ update_self m a c,
  TextAt-store_text (update m a c) (a + 1) cs,
)

byte_back :
    (m : ℕ → ℕ) (a v x j : ℕ) → x ≡ a + j → j < 8 → store64 m a v x ≡ v / 2 ^ (8 * j) % 2 ^ 8
unfolding store64
byte_back m a v x j at lt =
    ap (store64 m a v) at ∙ overlay-inside m (λ j. v / 2 ^ (8 * j) % 2 ^ 8) a 8 j lt

load32-store64 :
    (m : ℕ → ℕ) (a v x i : ℕ)
    → x ≡ a + i
    → i + 3 < 8
    → load32 (store64 m a v) x
      ≡ v / 2 ^ (8 * i) % 2 ^ 8
        + v / 2 ^ (8 * (i + 1)) % 2 ^ 8 * 2 ^ 8
        + v / 2 ^ (8 * (i + 2)) % 2 ^ 8 * 2 ^ 16
        + v / 2 ^ (8 * (i + 3)) % 2 ^ 8 * 2 ^ 24
unfolding load32
load32-store64 m a v x i at lt =
    rw
      (
        byte_back m a v x i at (omega (arith, lt)),
        byte_back m a v (x + 1) (i + 1) (omega (arith, at)) (omega (arith, lt)),
        byte_back m a v (x + 2) (i + 2) (omega (arith, at)) (omega (arith, lt)),
        byte_back m a v (x + 3) (i + 3) (omega (arith, at)) lt,
      )
      refl

pub load64-store64 : (m : ℕ → ℕ) (a v : ℕ) → v < 2 ^ 64 → load64 (store64 m a v) a ≡ v
unfolding load64
load64-store64 m a v lt =
    let low = load32-store64 m a v a 0 (omega arith) (omega arith) in
    let high = load32-store64 m a v (a + 4) 4 refl (omega arith) in omega (arith, low, high, lt)

pub store64-other : (m : ℕ → ℕ) (a v x : ℕ) → x < a ⊎ a + 8 ≤ x → store64 m a v x ≡ m x
unfolding store64
store64-other m a v x out = overlay-outside m (λ j. v / 2 ^ (8 * j) % 2 ^ 8) a 8 x out

pub load64-Above : (m m' : ℕ → ℕ) (a b : ℕ) → Above m m' a → a ≤ b → load64 m' b ≡ load64 m b
unfolding load64 load32
load64-Above m m' a b same le =
    let at : (j : ℕ) → m' (b + j) ≡ m (b + j) = λ j. same (b + j) (omega (arith, le)) in
    rw
      (
        same b le,
        at 1,
        at 2,
        at 3,
        at 4,
        same (b + 4 + 1) (omega (arith, le)),
        same (b + 4 + 2) (omega (arith, le)),
        same (b + 4 + 3) (omega (arith, le)),
      )
      refl

-- The texts lie at the addresses of the list, none below `a`.
unfoldable pub TextsAt : (ℕ → ℕ) → (a : ℕ) → List ℕ → List Text → Type 0
TextsAt m a [] [] = Unit
TextsAt m a [] (t ∷ ts) = ⊥
TextsAt m a (p ∷ ps) [] = ⊥
TextsAt m a (p ∷ ps) (t ∷ ts) = (a ≤ p) × (p < 2 ^ 64) × TextAt m p t × TextsAt m a ps ts

pub TextsAt-Above :
    (m m' : ℕ → ℕ) (a b : ℕ) (ps : List ℕ) (ts : List Text)
    → Above m m' a
    → b ≤ a
    → TextsAt m a ps ts
    → TextsAt m' b ps ts
unfolding TextsAt
TextsAt-Above m m' a b [] [] same le h = h
TextsAt-Above m m' a b [] (t ∷ ts) same le h = h
TextsAt-Above m m' a b (p ∷ ps) [] same le h = h
TextsAt-Above m m' a b (p ∷ ps) (t ∷ ts) same le (lo, hi, text, rest) = (
  omega (arith, lo, le),
  hi,
  TextAt-Above m m' a p t same lo text,
  TextsAt-Above m m' a b ps ts same le rest,
)
