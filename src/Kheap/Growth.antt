-- ===== src/Kheap/Growth.antt =====
-- What an expansion of the heap in mem/kheap.c `kheap_expand` leaves to the walk of `kmalloc`.
use kernel_old.Base.{
  ℕ, ◌+◌, ◌%◌, ◌^◌, ◌<◌, ◌≡◌, refl, ap, ◌⊎◌, inl, inr, Bool, true, false, ◌&&◌, Option, some, List,
  [], ◌∷◌, ◌++◌, arith, ltb, ◌==◌, if◌then◌else◌, Bool-cases,
}
use kernel_old.Kheap.{
  Block, header, payload, take_first, heap_split_block, scan, after, kheap_expand,
  heap_combine_forward,
}
use kernel_old.Kheap.Blocks.{used, Contiguous}

-- A free block that the walk takes.
pub data Fits (n : ℕ) : List Block → Type 0 where
  fits :
      (b : Block) (bs : List Block)
      → b.free ≡ true
      → ((n + header < b.len) ⊎ (b.len ≡ n))
      → Fits n (b ∷ bs)
  behind : (b : Block) {bs : List Block} → Fits n bs → Fits n (b ∷ bs)

-- The last block is free and not empty.
pub data GrowingLast : List Block → Type 0 where
  last : (b : Block) → b.free ≡ true → 0 < b.len → GrowingLast (b ∷ [])
  before : (b : Block) {bs : List Block} → GrowingLast bs → GrowingLast (b ∷ bs)

after-some :
    (b : Block) (o : Option (ℕ × List Block)) (r : ℕ × List Block)
    → o ≡ some r
    → (r' : ℕ × List Block) × (after b o ≡ some r')
after-some b o (p, h') e = ((p, b ∷ h'), rw e refl)

scan_split :
    (n : ℕ) (b : Block) (bs : List Block) (rest : Option (ℕ × List Block)) (s t : Bool)
    (x y : ℕ × List Block)
    → ((s ≡ true) ⊎ (t ≡ true)) ⊎ ((r : ℕ × List Block) × (rest ≡ some r))
    → (r : ℕ × List Block) × ((if s then some x else if t then some y else rest) ≡ some r)
scan_split n b bs rest true t x y d = (x, refl)
scan_split n b bs rest false true x y d = (y, refl)
scan_split n b bs rest false false x y (inl (inl e)) = absurd (cc)
scan_split n b bs rest false false x y (inl (inr e)) = absurd (cc)
scan_split n b bs rest false false x y (inr r) = r

fit_tests :
    (n len : ℕ) (free : Bool)
    → n + header < 2 ^ 64
    → free ≡ true
    → ((n + header < len) ⊎ (len ≡ n))
    → ((free && ltb ((n + header) % 2 ^ 64) len) ≡ true) ⊎ ((free && (len == n)) ≡ true)
fit_tests n len free small e (inl lt) = inl (ground (arith, e, lt, small))
fit_tests n len free small e (inr same) = inr (ground (arith, e, same))

pub Fits-scan :
    (n : ℕ) (h : List Block)
    → n + header < 2 ^ 64
    → Fits n h
    → (r : ℕ × List Block) × (scan n h ≡ some r)
unfolding scan
Fits-scan n _ small (fits b bs free d) =
    scan_split n b bs (after b (scan n bs)) (b.free && ltb ((n + header) % 2 ^ 64) b.len)
      (b.free && (b.len == n)) (payload b, take_first (heap_split_block b n) ++ bs)
      (payload b, record b { free = false } ∷ bs) (inl (fit_tests n b.len b.free small free d))
Fits-scan n _ small (behind b {bs} f) =
    let (r, e) = Fits-scan n bs small f in
    scan_split n b bs (after b (scan n bs)) (b.free && ltb ((n + header) % 2 ^ 64) b.len)
      (b.free && (b.len == n)) (payload b, take_first (heap_split_block b n) ++ bs)
      (payload b, record b { free = false } ∷ bs) (inr (after-some b (scan n bs) r e))

-- An expansion of a heap that leaves room for it.
unfoldable pub grow : (n : ℕ) → List Block → List Block
grow n [] = []
grow n (b ∷ []) =
    let new : Block = record { addr = b.addr + b.len + header; len = n; free = true } in
    if b.free then heap_combine_forward b (new ∷ []) else b ∷ new ∷ []
grow n (b ∷ c ∷ bs) = b ∷ grow n (c ∷ bs)

-- The address behind the last block.
unfoldable pub heap_end : (start : ℕ) → List Block → ℕ
heap_end start [] = start
heap_end start (b ∷ bs) = heap_end (start + header + b.len) bs

pub grow-end :
    (start n : ℕ) (b : Block) (bs : List Block)
    → heap_end start (grow n (b ∷ bs)) ≡ heap_end start (b ∷ bs) + header + n
unfolding heap_end grow heap_combine_forward
grow-end start n b [] = elim (Bool-cases b.free) [
  | inl free ↦ rw (free, heap_end, grow, heap_combine_forward) (omega arith)
  | inr in_use ↦ rw (in_use, heap_end, grow) (omega arith)
]
grow-end start n b (c ∷ bs) = grow-end (start + header + b.len) n c bs

-- Where the heap with the new block ends below `2 ^ 64`, no address and no length wraps.
pub expand-grow :
    (start n : ℕ) (h : List Block)
    → Contiguous start h
    → heap_end start h + header + n < 2 ^ 64
    → kheap_expand n h ≡ grow n h
unfolding heap_end kheap_expand grow heap_combine_forward
expand-grow start n [] c lt = refl
expand-grow start n (b ∷ []) (e, _) lt =
    let place : b.addr % 2 ^ 64 ≡ b.addr = omega (arith, e, lt) in
    let behind_last : (b.addr + b.len + header) % 2 ^ 64 ≡ b.addr + b.len + header =
      omega (arith, e, lt) in
    let size : n % 2 ^ 64 ≡ n = omega (arith, lt) in
    let sum : (b.len + (n + header)) % 2 ^ 64 ≡ b.len + (n + header) = omega (arith, lt) in
    elim (Bool-cases b.free) [
      | inl free ↦ rw (free, kheap_expand, grow, heap_combine_forward, place, sum) refl
      | inr in_use ↦ rw (in_use, kheap_expand, grow, behind_last, size) refl
    ]
expand-grow start n (b ∷ c ∷ bs) (e, rest) lt =
    ap (λ xs. b ∷ xs) (expand-grow (start + header + b.len) n (c ∷ bs) rest lt)

pub grow-Fits : (n : ℕ) (h : List Block) → GrowingLast h → Fits n (grow n h)
unfolding grow heap_combine_forward
grow-Fits n _ (last b free some_len) =
    rw (free, grow, heap_combine_forward)
      (fits (record { addr = b.addr; len = b.len + (n + header); free = true }) [] refl
        (inl (omega (arith, some_len))))
grow-Fits n _ (before b (last c free some_len)) =
    behind b (grow-Fits n (c ∷ []) (last c free some_len))
grow-Fits n _ (before b (before c {bs} g)) = behind b (grow-Fits n (c ∷ bs) (before c g))

-- One expansion leaves a block that fits, or a last block that the next expansion makes large enough.
pub grow-either :
    (n : ℕ) (b : Block) (bs : List Block) → Fits n (grow n (b ∷ bs)) ⊎ GrowingLast (grow n (b ∷ bs))
unfolding grow heap_combine_forward
grow-either n b [] = elim (Bool-cases b.free) [
  | inl free ↦ inr (
      rw (free, grow, heap_combine_forward)
        (last (record { addr = b.addr; len = b.len + (n + header); free = true }) refl
          (omega arith)))
  | inr in_use ↦ inl (
      rw (in_use, grow)
        (behind (record b { free = false })
          (fits (record { addr = b.addr + b.len + header; len = n; free = true }) [] refl
            (inr refl))))
]
grow-either n b (c ∷ bs) = elim (grow-either n c bs) [
  | inl f ↦ inl (behind b f)
  | inr g ↦ inr (before b g)
]

pub grow-Contiguous :
    (start n : ℕ) (h : List Block) → Contiguous start h → Contiguous start (grow n h)
unfolding grow heap_combine_forward
grow-Contiguous start n [] c = c
grow-Contiguous start n (b ∷ []) (e, _) = elim (Bool-cases b.free) [
  | inl free ↦ rw (free, grow, heap_combine_forward) (e, tt)
  | inr in_use ↦ rw (in_use, grow) (e, (omega (arith, e), tt))
]
grow-Contiguous start n (b ∷ c ∷ bs) (e, rest) =
    (e, grow-Contiguous (start + header + b.len) n (c ∷ bs) rest)

pub grow-used : (n : ℕ) (h : List Block) → used (grow n h) ≡ used h
unfolding grow heap_combine_forward
grow-used n [] = refl
grow-used n (b ∷ []) = elim (Bool-cases b.free) [
  | inl free ↦ rw (free, grow, heap_combine_forward) refl
  | inr in_use ↦ rw (in_use, grow) refl
]
grow-used n (b ∷ c ∷ bs) =
    ap (λ xs. if b.free then xs else (payload b, b.len) ∷ xs) (grow-used n (c ∷ bs))
