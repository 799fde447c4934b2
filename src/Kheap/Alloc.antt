-- ===== src/Kheap/Alloc.antt =====
-- `kmalloc` of mem/kheap.c serves every request, after at most two expansions.
use kernel_old.Base.{
  ℕ, suc, ◌+◌, ◌*◌, ◌^◌, ◌≤◌, ◌<◌, ◌≡◌, sym, ap, subst, inl, inr, Option, none, some, List, ◌∷◌,
  arith, Option-cases,
}
use kernel_old.Kheap.{Block, header, scan, kheap_expand, round_up, kmalloc}
use kernel_old.Kheap.Blocks.{used, Contiguous, Inserted}
use kernel_old.Kheap.Search.{Served, Scanned, scan-Scanned}
use kernel_old.Kheap.Growth.{
  Fits, GrowingLast, Fits-scan, grow-Fits, grow-either, grow-Contiguous, grow-used, grow, grow-end,
  heap_end, expand-grow,
}

-- The walk after an expansion serves the heap before it as well.
Served-grow :
    (start n : ℕ) (h : List Block) (p : ℕ) (h' : List Block)
    → Served start n (grow n h) p h'
    → Served start n h p h'
Served-grow start n h p h' s = record {
  len = s.len;
  enough = s.enough;
  contiguous = s.contiguous;
  inserted = subst (λ xs. Inserted (p, s.len) xs (used h')) (grow-used n h) s.inserted;
}

round_up_lem :
    (n : ℕ)
    → n + 64 < 2 ^ 64
    → (n ≤ round_up n) × (round_up n < n + 16) × (round_up (round_up n) ≡ round_up n)
unfolding round_up
round_up_lem n small = (ground (arith, small), ground (arith, small), ground (arith, small))

-- A result of `kmalloc` that is right.
unfoldable pub Allocated : (start n : ℕ) → List Block → Option (ℕ × List Block) → Type 0
Allocated start n h none = ⊥
Allocated start n h (some (p, h')) = Served start n h p h'

Allocated-scan :
    (start n : ℕ) (h : List Block) (o : Option (ℕ × List Block)) (r : ℕ × List Block)
    → o ≡ some r
    → Scanned start n h o
    → Allocated start n h (some r)
unfolding Scanned Allocated
Allocated-scan start n h o (p, h') e s = subst (λ q. Scanned start n h q) e s

Allocated-grow :
    (start n : ℕ) (h : List Block) (o : Option (ℕ × List Block))
    → Allocated start n (grow n h) o
    → Allocated start n h o
unfolding Allocated
Allocated-grow start n h none a = a
Allocated-grow start n h (some (p, h')) a = Served-grow start n h p h' a

Allocated-le :
    (start m n : ℕ) (h : List Block) (o : Option (ℕ × List Block))
    → n ≤ m
    → Allocated start m h o
    → Allocated start n h o
unfolding Allocated
Allocated-le start m n h none le a = a
Allocated-le start m n h (some (p, h')) le a = record {
  len = a.len;
  enough = omega (arith, le, a.enough);
  contiguous = a.contiguous;
  inserted = a.inserted;
}

-- One call of `kmalloc` at a size that is rounded up.
serve : (fuel m : ℕ) → List Block → Option (ℕ × List Block)
serve fuel m h = elim (scan m h) [ some r ↦ some r | none ↦ kmalloc fuel m (kheap_expand m h) ]

kmalloc-serve :
    (fuel m : ℕ) (h : List Block) → round_up m ≡ m → kmalloc (suc fuel) m h ≡ serve fuel m h
unfolding kmalloc serve
kmalloc-serve fuel m h e = ap (λ k. serve fuel k h) e

module _ (start m : ℕ) (small : m + header < 2 ^ 64) (rounded : round_up m ≡ m) where
  -- A walk that finds nothing goes on with the heap as it grows.
  serve_or :
      (fuel : ℕ) (h : List Block)
      → Contiguous start h
      → heap_end start h + header + m < 2 ^ 64
      → Allocated start m (grow m h) (kmalloc fuel m (grow m h))
      → Allocated start m h (serve fuel m h)
  unfolding serve
  serve_or fuel h c room next = elim (Option-cases (scan m h)) [
    | inl nothing ↦
        rw (nothing, serve, expand-grow start m h c room) (Allocated-grow start m h _ next)
    | inr (r, e) ↦
        rw (e, serve) (Allocated-scan start m h (scan m h) r e (scan-Scanned start m h small c))
  ]

  serve-Fits :
      (fuel : ℕ) (h : List Block)
      → Contiguous start h
      → Fits m h
      → Allocated start m h (serve fuel m h)
  unfolding serve
  serve-Fits fuel h c f =
      let (r, e) = Fits-scan m h small f in
      rw (e, serve) (Allocated-scan start m h (scan m h) r e (scan-Scanned start m h small c))

  again :
      (fuel : ℕ) (h : List Block)
      → Allocated start m h (serve fuel m h)
      → Allocated start m h (kmalloc (suc fuel) m h)
  again fuel h a = subst (λ o. Allocated start m h o) (sym (kmalloc-serve fuel m h rounded)) a

  serve-GrowingLast :
      (h : List Block)
      → Contiguous start h
      → heap_end start h + header + m < 2 ^ 64
      → GrowingLast h
      → Allocated start m h (serve 1 m h)
  serve-GrowingLast h c room g =
      serve_or 1 h c room (
        again 0 (grow m h)
          (serve-Fits 0 (grow m h) (grow-Contiguous start m h c) (grow-Fits m h g)))

  serve-Allocated :
      (b : Block) (bs : List Block)
      → Contiguous start (b ∷ bs)
      → heap_end start (b ∷ bs) + 2 * (header + m) < 2 ^ 64
      → Allocated start m (b ∷ bs) (serve 2 m (b ∷ bs))
  serve-Allocated b bs c room =
      let grown : Contiguous start (grow m (b ∷ bs)) = grow-Contiguous start m (b ∷ bs) c in
      serve_or 2 (b ∷ bs) c (omega (arith, room)) (
        again 1 (grow m (b ∷ bs)) (elim (grow-either m b bs) [
          | inl f ↦ serve-Fits 1 (grow m (b ∷ bs)) grown f
          | inr g ↦
              serve-GrowingLast (grow m (b ∷ bs)) grown (omega (arith, room, grow-end start m b bs))
                g
        ]))

-- On a heap whose blocks follow each other, and which ends, with two more blocks of the size, below
-- `2 ^ 64`, so that no address and no length wraps, `kmalloc` returns after at most two expansions:
-- it hands out a block of at least the size asked for, which was not in use, all other allocations
-- stay as they were, and the blocks still follow each other.
pub kmalloc-Allocated :
    (start n : ℕ) (b : Block) (bs : List Block)
    → heap_end start (b ∷ bs) + 2 * (n + 64) < 2 ^ 64
    → Contiguous start (b ∷ bs)
    → Allocated start n (b ∷ bs) (kmalloc 3 n (b ∷ bs))
unfolding kmalloc serve
kmalloc-Allocated start n b bs room c =
    let (le, lt, rounded) = round_up_lem n (omega (arith, room)) in
    Allocated-le start (round_up n) n (b ∷ bs) (serve 2 (round_up n) (b ∷ bs)) le (
      serve-Allocated start (round_up n) (omega (arith, room, lt)) rounded b bs c
        (omega (arith, room, lt)))
