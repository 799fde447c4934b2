-- ===== src/Kheap.antt =====
-- The kernel heap of mem/kheap.c, as its blocks in the order of the links. `next` and `prev` are the
-- neighbours in the list, `last_block` is its last element, and `heap_start` its first one. The
-- header of a block takes 32 bytes. Block addresses and lengths are within the address space; the
-- arithmetic on the requested size wraps at 2 ^ 64. One CPU holds `kheap_lock` throughout.
pub mod Blocks
pub mod Search
pub mod Growth
pub mod Alloc
pub mod Free
pub mod Cycle
mod Tests
use kernel_old.Base.{
  ℕ, zero, suc, ◌+◌, ◌-◌, ◌*◌, ◌/◌, ◌%◌, ◌^◌, ◌≤◌, ◌<◌, min, bit_and, bit_or, bit_xor, ◌≡◌, refl,
  sym, ap, ap₂, subst, ◌∙◌, ◌≢◌, ◌↔◌, ◌⊎◌, inl, inr, Bool, true, false, not, ◌&&◌, ◌||◌, Option,
  none, some, List, [], ◌∷◌, ◌++◌, map, arith, ltb, leb, ◌==◌, if◌then◌else◌, ltb→lt, lt→ltb,
  leb→le, ==_iff, ==_refl, Bool-cases, Option-cases, length, get_elem?, set, length-append,
  append_assoc, update_self, update, every, every-holds,
}

pub record Block : Type 0 where
  pub addr : ℕ
  pub len : ℕ
  pub free : Bool

abbrev pub header : ℕ
header = 32

-- What the caller gets for a block.
abbrev pub payload : Block → ℕ
payload b = b.addr + header

-- `kheap_init`: one free block, whose length is set to 0, at the start of the pages reserved.
unfoldable pub kheap_init : (heap_start : ℕ) → List Block
kheap_init start = record { addr = start; len = 0; free = true } ∷ []

-- A block with what follows it; a free block that follows is taken in. Blocks that follow each other
-- below `2 ^ 64` have lengths whose sums do not wrap.
unfoldable pub heap_combine_forward : Block → List Block → List Block
heap_combine_forward b [] = b ∷ []
heap_combine_forward b (n ∷ rest) =
    if n.free then record b { len = b.len + (n.len + header) } ∷ rest else b ∷ n ∷ rest

-- The block at the requested length, and the rest of it where that is 16 bytes or more as an
-- `int64_t`.
unfoldable pub heap_split_block : Block → (len : ℕ) → List Block
heap_split_block b len =
    if ltb len 16 || ltb b.len (len + header + 16) || leb (2 ^ 63) (b.len - len - header)
    then b ∷ []
    else record b { len = len }
      ∷ record { addr = b.addr + len + header; len = b.len - len - header; free = b.free }
      ∷ []

-- `curr->free = false` on the first of the blocks.
unfoldable pub take_first : List Block → List Block
take_first [] = []
take_first (b ∷ bs) = record b { free = false } ∷ bs

abbrev pub after : Block → Option (ℕ × List Block) → Option (ℕ × List Block)
after b none = none
after b (some (p, bs)) = some (p, b ∷ bs)

-- The walk of `kmalloc`, for a size that is a multiple of 16: the first block that fits.
unfoldable pub scan : (n : ℕ) → List Block → Option (ℕ × List Block)
scan n [] = none
scan n (b ∷ bs) =
    let rest = after b (scan n bs) in
    if b.free && ltb ((n + header) % 2 ^ 64) b.len
    then some (payload b, take_first (heap_split_block b n) ++ bs)
    else if b.free && (b.len == n)
    then some (payload b, record b { free = false } ∷ bs)
    else rest

abbrev pub on_64_bits : Block → Block
on_64_bits b = record { addr = b.addr % 2 ^ 64; len = b.len % 2 ^ 64; free = b.free }

-- The new block behind the last one, taken in by it where that is free, on 64 bits.
unfoldable pub kheap_expand : (n : ℕ) → List Block → List Block
kheap_expand n [] = []
kheap_expand n (b ∷ []) =
    let new : Block = record { addr = b.addr + b.len + header; len = n; free = true } in
    if b.free then map on_64_bits (heap_combine_forward b (new ∷ [])) else b ∷ on_64_bits new ∷ []
kheap_expand n (b ∷ c ∷ bs) = b ∷ kheap_expand n (c ∷ bs)

unfoldable pub round_up : ℕ → ℕ
round_up n = if n % 16 == 0 then n else (n - n % 16 + 16) % 2 ^ 64

-- `kmalloc` calls itself after each expansion.
unfoldable pub kmalloc : (fuel n : ℕ) → List Block → Option (ℕ × List Block)
kmalloc zero n h = none
kmalloc (suc fuel) n h = elim (scan (round_up n) h) [
  | some r ↦ some r
  | none ↦ kmalloc fuel (round_up n) (kheap_expand (round_up n) h)
]

abbrev pub is_at : (ptr : ℕ) → List Block → Bool
is_at ptr [] = false
is_at ptr (b ∷ _) = payload b == ptr

-- `kfree`: the block is freed and takes in the one behind it; then the one before it, where that is
-- free, takes it in. `none`: no block has this address.
unfoldable pub kfree : (ptr : ℕ) → List Block → Option (List Block)
kfree ptr [] = none
kfree ptr (b ∷ bs) =
    let rest : Option (List Block) = elim (kfree ptr bs) [
      | none ↦ none
      | some bs' ↦ some (if is_at ptr bs && b.free then heap_combine_forward b bs' else b ∷ bs')
    ] in
    if payload b == ptr then some (heap_combine_forward (record b { free = true }) bs) else rest

unfoldable pub block_len : (ptr : ℕ) → List Block → Option ℕ
block_len ptr [] = none
block_len ptr (b ∷ bs) =
    let rest = block_len ptr bs in if payload b == ptr then some b.len else rest

-- The blocks after `krealloc`, and the address that it returns.
unfoldable pub krealloc : (fuel ptr size : ℕ) → List Block → Option (ℕ × List Block)
krealloc fuel ptr size h = elim (block_len ptr h) [
  | none ↦ none
  | some block_sz ↦ if ltb block_sz size then some (ptr, h) else elim (kmalloc fuel size h) [
    | none ↦ none
    | some (new, h') ↦ elim (kfree ptr h') [ none ↦ none | some h'' ↦ some (new, h'') ]
  ]
]
