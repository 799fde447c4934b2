-- ===== src/Kheap/Tests.antt =====
-- Runs of the kernel heap, and its theorems at concrete inputs.
use kernel_old.Base.{◌≡◌, refl, true, false, some, List, [], ◌∷◌, arith}
use kernel_old.Kheap.{
  Block, kheap_init, kmalloc, kfree, krealloc, block_len, scan, heap_split_block,
  heap_combine_forward, take_first, kheap_expand, round_up,
}
use kernel_old.Kheap.Blocks.{Contiguous, here}
use kernel_old.Kheap.Growth.{heap_end}
use kernel_old.Kheap.Alloc.{Allocated, kmalloc-Allocated}
use kernel_old.Kheap.Free.{FreeOf, kfree-FreeOf}
use kernel_old.Kheap.Cycle.{cycle, kfree-kmalloc}

abbrev fresh : List Block
fresh = kheap_init 4096

-- The first request on the empty heap takes two expansions.
first_request :
    kmalloc 3 20 fresh
    ≡ some (
      4128,
      record { addr = 4096; len = 32; free = false }
          ∷ record { addr = 4160; len = 64; free = true }
          ∷ [],
    )
unfolding kheap_init kmalloc scan heap_split_block heap_combine_forward take_first kheap_expand
    round_up
first_request = refl

-- One block in use, and a free one behind it.
abbrev heap : List Block
heap =
    record { addr = 4096; len = 32; free = false }
    ∷ record { addr = 4160; len = 64; free = true }
    ∷ []

heap-Contiguous : Contiguous 4096 heap
heap-Contiguous = (refl, (refl, tt))

-- A request for more than the block has returns the same block.
grows-nothing : krealloc 3 4128 1000 heap ≡ some (4128, heap)
unfolding krealloc block_len
grows-nothing = refl

kmalloc-Allocated_example : Allocated 4096 24 heap (kmalloc 3 24 heap)
unfolding heap_end
kmalloc-Allocated_example =
    kmalloc-Allocated 4096 24 (record { addr = 4096; len = 32; free = false })
      (record { addr = 4160; len = 64; free = true } ∷ []) (omega arith) heap-Contiguous

kfree-FreeOf_example : FreeOf 4096 [] (kfree 4128 heap)
kfree-FreeOf_example = kfree-FreeOf 4096 4128 32 [] heap heap-Contiguous (here [])

kfree-kmalloc_example : FreeOf 4096 ((4128, 32) ∷ []) (cycle 24 heap)
unfolding heap_end
kfree-kmalloc_example =
    kfree-kmalloc 4096 24 (record { addr = 4096; len = 32; free = false })
      (record { addr = 4160; len = 64; free = true } ∷ []) (omega arith) heap-Contiguous
