-- ===== src/Kheap/Free.antt =====
-- `kfree` of mem/kheap.c takes out one allocation.
use kernel_old.Base.{
  ℕ, ◌+◌, ◌≡◌, refl, sym, ap, subst, ◌∙◌, ◌≢◌, inl, inr, Bool, true, false, ◌&&◌, Option, none,
  some, List, [], ◌∷◌, arith, ◌==◌, if◌then◌else◌, ==_iff, Bool-cases,
}
use kernel_old.Kheap.{Block, header, payload, is_at, kfree, heap_combine_forward}
use kernel_old.Kheap.Blocks.{
  used, Contiguous, Inserted, here, there, Inserted-le, Ascending, Ascending-le, used-Ascending,
  combine-Contiguous, combine-used,
}

-- The blocks after `kfree`: one allocation less, and still in a row.
pub record Freed (start : ℕ) (rest : List (ℕ × ℕ)) (h' : List Block) : Type 0 where
  pub contiguous : Contiguous start h'
  pub remaining : used h' ≡ rest

unfoldable pub FreeOf : (start : ℕ) (rest : List (ℕ × ℕ)) → Option (List Block) → Type 0
FreeOf start rest none = ⊥
FreeOf start rest (some h') = Freed start rest h'

-- The block at the address is in use, and its allocation is the first.
first_of :
    (p l a k : ℕ) (rest xs : List (ℕ × ℕ)) (free : Bool)
    → Inserted (p, l) rest (if free then xs else (a, k) ∷ xs)
    → Ascending (p + 1) xs
    → rest ≡ xs
first_of p l a k rest xs true i asc = absurd (omega (arith, Inserted-le p l (p + 1) rest xs i asc))
first_of p l a k _ xs false (here _) asc = refl
first_of p l a k _ xs false (there _ {xs = zs} i) asc =
    absurd (omega (arith, Inserted-le p l (p + 1) zs xs i asc))

-- Another block: its own allocation stays in front.
data Behind (p l a k : ℕ) (rest xs : List (ℕ × ℕ)) (free : Bool) : Type 0 where
  over_free : free ≡ true → Inserted (p, l) rest xs → Behind p l a k rest xs free
  over_used :
      (zs : List (ℕ × ℕ))
      → free ≡ false
      → rest ≡ (a, k) ∷ zs
      → Inserted (p, l) zs xs
      → Behind p l a k rest xs free

behind :
    (p l a k : ℕ) (rest xs : List (ℕ × ℕ)) (free : Bool)
    → Inserted (p, l) rest (if free then xs else (a, k) ∷ xs)
    → a ≢ p
    → Behind p l a k rest xs free
behind p l a k rest xs true i ne = over_free refl i
behind p l a k _ xs false (here _) ne = absurd (ne refl)
behind p l a k _ xs false (there _ {xs = zs} i) ne = over_used zs refl refl i

Freed-here :
    (start p l : ℕ) (rest : List (ℕ × ℕ)) (b : Block) (bs : List Block)
    → Contiguous start (b ∷ bs)
    → Inserted (p, l) rest (used (b ∷ bs))
    → payload b ≡ p
    → Freed start rest (heap_combine_forward (record b { free = true }) bs)
Freed-here start p l rest b bs (e, c) i at = record {
  contiguous = combine-Contiguous start (record b { free = true }) bs (e, c);
  remaining =
      combine-used (record b { free = true }) bs refl
      ∙ sym (
          first_of p l (payload b) b.len rest (used bs) b.free i (
            Ascending-le (p + 1) (start + header + b.len + header) (used bs) (omega (arith, e, at))
              (used-Ascending (start + header + b.len) bs c)));
}

both_false : (a b : Bool) → b ≡ false → (a && b) ≡ true → ⊥
both_false true b e t = cc
both_false false b e t = cc

-- `kfree` past a block, from its result on the blocks behind it.
abbrev past : Block → (joins : Bool) → Option (List Block) → Option (List Block)
past b joins o = elim o [
  | none ↦ none
  | some bs' ↦ some (if joins && b.free then heap_combine_forward b bs' else b ∷ bs')
]

past-free :
    (start : ℕ) (rest : List (ℕ × ℕ)) (b : Block) (joins : Bool) (o : Option (List Block))
    → b.addr ≡ start
    → b.free ≡ true
    → FreeOf (start + header + b.len) rest o
    → FreeOf start rest (past b joins o)
unfolding FreeOf
past-free start rest b joins none e free f = f
past-free start rest b true (some bs') e free f = simp free (record {
  contiguous = combine-Contiguous start b bs' (e, f.contiguous);
  remaining = combine-used b bs' free ∙ f.remaining;
})
past-free start rest b false (some bs') e free f = record {
  contiguous = (e, f.contiguous);
  remaining =
      ap (λ (t : Bool). if t then used bs' else (payload b, b.len) ∷ used bs') free ∙ f.remaining;
}

past-used :
    (start : ℕ) (zs : List (ℕ × ℕ)) (b : Block) (joins : Bool) (o : Option (List Block))
    → b.addr ≡ start
    → b.free ≡ false
    → FreeOf (start + header + b.len) zs o
    → FreeOf start ((payload b, b.len) ∷ zs) (past b joins o)
unfolding FreeOf
past-used start zs b joins none e in_use f = f
past-used start zs b joins (some bs') e in_use f = elim (Bool-cases (joins && b.free)) [
  | inl t ↦ absurd (both_false joins b.free in_use t)
  | inr t ↦ rw t (record {
    contiguous = (e, f.contiguous);
    remaining =
        ap (λ (t : Bool). if t then used bs' else (payload b, b.len) ∷ used bs') in_use
        ∙ ap (λ xs. (payload b, b.len) ∷ xs) f.remaining;
  })
]

freed-Behind :
    (start p l : ℕ) (rest : List (ℕ × ℕ)) (b : Block) (bs : List Block) (joins : Bool)
    → b.addr ≡ start
    → ((zs : List (ℕ × ℕ))
        → Inserted (p, l) zs (used bs)
        → FreeOf (start + header + b.len) zs (kfree p bs))
    → Behind p l (payload b) b.len rest (used bs) b.free
    → FreeOf start rest (past b joins (kfree p bs))
freed-Behind start p l rest b bs joins e ih (over_free free i) =
    past-free start rest b joins (kfree p bs) e free (ih rest i)
freed-Behind start p l rest b bs joins e ih (over_used zs in_use e' i) =
    subst (λ r. FreeOf start r (past b joins (kfree p bs))) (sym e')
      (past-used start zs b joins (kfree p bs) e in_use (ih zs i))

no_allocation : (p l : ℕ) (rest : List (ℕ × ℕ)) → Inserted (p, l) rest [] → ⊥
no_allocation p l rest i = elim i [ ]

different : (a b : ℕ) → (a == b) ≡ false → a ≢ b
different a b e = ground (arith, e)

-- Freeing an allocation of a heap whose blocks follow each other returns, leaves every other
-- allocation as it was, and the blocks, merged with their free neighbours, still follow each other.
pub kfree-FreeOf :
    (start p l : ℕ) (rest : List (ℕ × ℕ)) (h : List Block)
    → Contiguous start h
    → Inserted (p, l) rest (used h)
    → FreeOf start rest (kfree p h)
unfolding kfree FreeOf
kfree-FreeOf start p l rest [] c i = no_allocation p l rest i
kfree-FreeOf start p l rest (b ∷ bs) (e, c) i = elim (Bool-cases (payload b == p)) [
  | inl at ↦ rw (at, kfree) (Freed-here start p l rest b bs (e, c) i ((==_iff (payload b) p).0 at))
  | inr other ↦
      rw (other, kfree)
        (freed-Behind start p l rest b bs (is_at p bs) e
          (λ zs j. kfree-FreeOf (start + header + b.len) p l zs bs c j)
          (behind p l (payload b) b.len rest (used bs) b.free i (different (payload b) p other)))
]
