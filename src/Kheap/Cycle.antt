-- ===== src/Kheap/Cycle.antt =====
-- `kmalloc` and `kfree` of mem/kheap.c together.
use kernel_old.Base.{ℕ, ◌+◌, ◌*◌, ◌^◌, ◌<◌, Option, none, some, List, ◌∷◌}
use kernel_old.Kheap.{Block, kmalloc, kfree}
use kernel_old.Kheap.Blocks.{used, Contiguous}
use kernel_old.Kheap.Growth.{heap_end}
use kernel_old.Kheap.Alloc.{Allocated, kmalloc-Allocated}
use kernel_old.Kheap.Free.{FreeOf, kfree-FreeOf}

-- Freeing what was allocated, right after.
unfoldable pub cycle : (n : ℕ) → List Block → Option (List Block)
cycle n h = elim (kmalloc 3 n h) [ none ↦ none | some (p, h') ↦ kfree p h' ]

cycle_of :
    (start n : ℕ) (h : List Block) (o : Option (ℕ × List Block))
    → Allocated start n h o
    → FreeOf start (used h) (elim o [ none ↦ none | some (p, h') ↦ kfree p h' ])
unfolding Allocated FreeOf
cycle_of start n h none a = a
cycle_of start n h (some (p, h')) a = kfree-FreeOf start p a.len (used h) h' a.contiguous a.inserted

-- On a heap whose blocks follow each other, and which ends, with two more blocks of the size, below
-- `2 ^ 64`, `kmalloc` of the size, and then `kfree` of what it returns, both return and leave the
-- allocations that there were before.
pub kfree-kmalloc :
    (start n : ℕ) (b : Block) (bs : List Block)
    → heap_end start (b ∷ bs) + 2 * (n + 64) < 2 ^ 64
    → Contiguous start (b ∷ bs)
    → FreeOf start (used (b ∷ bs)) (cycle n (b ∷ bs))
unfolding cycle
kfree-kmalloc start n b bs room c =
    cycle_of start n (b ∷ bs) (kmalloc 3 n (b ∷ bs)) (kmalloc-Allocated start n b bs room c)
