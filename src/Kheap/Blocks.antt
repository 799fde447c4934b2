-- ===== src/Kheap/Blocks.antt =====
-- What the blocks of mem/kheap.c stand for: the allocations in use, in address order.
use kernel_old.Base.{
  ℕ, ◌+◌, ◌≤◌, ◌≡◌, refl, subst, inl, inr, Bool, true, false, List, [], ◌∷◌, arith, if◌then◌else◌,
  Bool-cases,
}
use kernel_old.Kheap.{Block, header, payload, heap_combine_forward}

-- The address and the length of each block in use.
abbrev pub used : List Block → List (ℕ × ℕ)
used [] = []
used (b ∷ bs) = if b.free then used bs else (payload b, b.len) ∷ used bs

-- Each block starts where the one before it ends, from `start` on.
abbrev pub Contiguous : (start : ℕ) → List Block → Type 0
Contiguous start [] = Unit
Contiguous start (b ∷ bs) = (b.addr ≡ start) × Contiguous (start + header + b.len) bs

-- `ys` is `xs` with `x` at one place.
pub data Inserted {ℓ} {A : Type ℓ} (x : A) : List A → List A → Type ℓ where
  here : (xs : List A) → Inserted x xs (x ∷ xs)
  there : (y : A) {xs ys : List A} → Inserted x xs ys → Inserted x (y ∷ xs) (y ∷ ys)

-- Allocations from `lo` on that do not overlap, in order.
abbrev pub Ascending : (lo : ℕ) → List (ℕ × ℕ) → Type 0
Ascending lo [] = Unit
Ascending lo ((p, l) ∷ xs) = (lo ≤ p) × Ascending (p + l) xs

pub Ascending-le : (lo lo' : ℕ) (xs : List (ℕ × ℕ)) → lo ≤ lo' → Ascending lo' xs → Ascending lo xs
Ascending-le lo lo' [] le a = tt
Ascending-le lo lo' ((p, l) ∷ xs) le (a, s) = (omega (arith, le, a), s)

used_step :
    (start : ℕ) (b : Block) (xs : List (ℕ × ℕ)) (free : Bool)
    → b.addr ≡ start
    → Ascending (start + header + b.len + header) xs
    → Ascending (start + header) (if free then xs else (payload b, b.len) ∷ xs)
used_step start b xs true e later = Ascending-le (start + header) _ xs (omega arith) later
used_step start b xs false e later =
    (omega (arith, e), Ascending-le (payload b + b.len) _ xs (omega (arith, e)) later)

-- The allocations of a heap do not overlap.
pub used-Ascending :
    (start : ℕ) (h : List Block) → Contiguous start h → Ascending (start + header) (used h)
used-Ascending start [] c = tt
used-Ascending start (b ∷ bs) (e, c) =
    used_step start b (used bs) b.free e (used-Ascending (start + header + b.len) bs c)

pub Inserted-le :
    (p l lo : ℕ) (xs ys : List (ℕ × ℕ)) → Inserted (p, l) xs ys → Ascending lo ys → lo ≤ p
Inserted-le p l lo _ _ (here xs) (a, s) = a
Inserted-le p l lo _ _ (there (q, k) i) (a, s) = omega (arith, a, Inserted-le p l (q + k) _ _ i s)

pub Contiguous-at : (s t : ℕ) (h : List Block) → s ≡ t → Contiguous s h → Contiguous t h
Contiguous-at s t h e c = subst (λ u. Contiguous u h) e c

-- Taking in the next block keeps the rest of the heap in place.
pub combine-Contiguous :
    (start : ℕ) (b : Block) (bs : List Block)
    → Contiguous start (b ∷ bs)
    → Contiguous start (heap_combine_forward b bs)
unfolding heap_combine_forward
combine-Contiguous start b [] c = c
combine-Contiguous start b (n ∷ rest) (e, (f, c)) = go n.free
  where
    go :
        (free : Bool)
        → Contiguous start
            (if free then record b { len = b.len + (n.len + header) } ∷ rest else b ∷ n ∷ rest)
    go true = (e, Contiguous-at _ _ rest (omega arith) c)
    go false = (e, (f, c))

pub combine-used :
    (b : Block) (bs : List Block) → b.free ≡ true → used (heap_combine_forward b bs) ≡ used bs
unfolding heap_combine_forward
combine-used b [] e = rw e refl
combine-used b (n ∷ rest) e = elim (Bool-cases n.free) [
  | inl f ↦ rw (f, e, heap_combine_forward) refl
  | inr f ↦ rw (f, e, heap_combine_forward) refl
]
