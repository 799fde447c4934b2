-- ===== src/Kheap/Search.antt =====
-- The walk and the growth of the heap in mem/kheap.c `kmalloc`.
use kernel_old.Base.{
  ℕ, ◌+◌, ◌-◌, ◌%◌, ◌^◌, ◌≤◌, ◌<◌, ◌≡◌, inl, inr, Bool, true, false, ◌&&◌, ◌||◌, Option, none, some,
  List, [], ◌∷◌, ◌++◌, arith, ltb, leb, ◌==◌, if◌then◌else◌, Bool-cases,
}
use kernel_old.Kheap.{Block, header, payload, heap_split_block, take_first, scan, after}
use kernel_old.Kheap.Blocks.{used, Contiguous, Inserted, here, there, Contiguous-at}

-- A block of at least `n` bytes, which was not in use, is handed out; the others are as before.
pub record Served (start n : ℕ) (h : List Block) (p : ℕ) (h' : List Block) : Type 0 where
  pub len : ℕ
  pub enough : n ≤ len
  pub contiguous : Contiguous start h'
  pub inserted : Inserted (p, len) (used h) (used h')

split_lem :
    (start n : ℕ) (b : Block) (bs : List Block)
    → b.free ≡ true
    → n ≤ b.len
    → Contiguous start (b ∷ bs)
    → Served start n (b ∷ bs) (payload b) (take_first (heap_split_block b n) ++ bs)
unfolding heap_split_block take_first
split_lem start n b bs free le (e, rest) =
    elim (Bool-cases
      (ltb n 16 || ltb b.len (n + header + 16) || leb (2 ^ 63) (b.len - n - header))) [
        | inl whole ↦
            rw (whole, heap_split_block)
              (record {
                len = b.len;
                enough = le;
                contiguous = (e, rest);
                inserted = rw free (here (used bs));
              })
        | inr parts ↦
            rw (parts, heap_split_block)
              (record {
                len = n;
                enough = omega arith;
                contiguous =
                    (e, (omega (arith, e), Contiguous-at _ _ bs (ground (arith, parts)) rest));
                inserted = rw free (here (used bs));
              })
      ]

after_lem :
    (start n : ℕ) (b : Block) (bs : List Block) (p : ℕ) (h' : List Block)
    → b.addr ≡ start
    → Served (start + header + b.len) n bs p h'
    → Served start n (b ∷ bs) p (b ∷ h')
after_lem start n b bs p h' e s = record {
  len = s.len;
  enough = s.enough;
  contiguous = (e, s.contiguous);
  inserted = go b.free;
}
  where
    go :
        (free : Bool)
        → Inserted
            (p, s.len)
            (if free then used bs else (payload b, b.len) ∷ used bs)
            (if free then used h' else (payload b, b.len) ∷ used h')
    go true = s.inserted
    go false = there (payload b, b.len) s.inserted

-- What the walk gives.
unfoldable pub Scanned : (start n : ℕ) → List Block → Option (ℕ × List Block) → Type 0
Scanned start n h none = Unit
Scanned start n h (some (p, h')) = Served start n h p h'

after-Scanned :
    (start n : ℕ) (b : Block) (bs : List Block)
    → b.addr ≡ start
    → (o : Option (ℕ × List Block)) → Scanned (start + header + b.len) n bs o
    → Scanned start n (b ∷ bs) (after b o)
unfolding Scanned
after-Scanned start n b bs e none s = tt
after-Scanned start n b bs e (some (p, h')) s = after_lem start n b bs p h' e s

fits_free : (a b : Bool) → (a && b) ≡ true → a ≡ true
fits_free a b e = ground (arith, e)

room :
    (n len : ℕ) (free : Bool)
    → n + header < 2 ^ 64
    → (free && ltb ((n + header) % 2 ^ 64) len) ≡ true
    → n ≤ len
room n len free small e = ground (arith, small, e)

pub scan-Scanned :
    (start n : ℕ) (h : List Block)
    → n + header < 2 ^ 64
    → Contiguous start h
    → Scanned start n h (scan n h)
unfolding scan Scanned
scan-Scanned start n [] small c = tt
scan-Scanned start n (b ∷ bs) small (e, c) =
    elim (Bool-cases (b.free && ltb ((n + header) % 2 ^ 64) b.len)) [
      | inl fits ↦
          rw (fits, scan)
            (split_lem start n b bs (fits_free b.free _ fits) (room n b.len b.free small fits)
              (e, c))
      | inr small_block ↦ elim (Bool-cases (b.free && (b.len == n))) [
        | inl exact ↦
            rw (small_block, exact, scan)
              (record {
                len = b.len;
                enough = ground (arith, exact);
                contiguous = (e, c);
                inserted = rw (fits_free b.free _ exact) (here (used bs));
              })
        | inr other ↦
            rw (small_block, other, scan)
              (after-Scanned start n b bs e (scan n bs)
                (scan-Scanned (start + header + b.len) n bs small c))
      ]
    ]
