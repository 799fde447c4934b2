-- ===== src/Paging/Tests.antt =====
-- The theorems on mem/paging.c at concrete tables.
use kernel_old.Base.{
  update, none, Option, Option, ℕ, ◌+◌, ◌*◌, ◌≤◌, ◌≡◌, refl, some, [], ◌∷◌, arith, ◌==◌,
  if◌then◌else◌,
}
use kernel_old.Pmm.{pmm_request, request_loop, bitmap_get, test_bit}
use kernel_old.Paging.{
  Kernel, set_page_frame, scan_table, scan_dirs, mark_run, heap_address, page_kernel_alloc4k,
}
use kernel_old.Paging.Regions.{
  RegionList, region, past, alloc_loop, space_alloc_region, Apart, space_alloc_region-Apart,
}
use kernel_old.Paging.HeapRoom.{page_kernel_alloc4k-room}
use kernel_old.Paging.KernelAlloc.{Allocated, page_kernel_alloc4k-Allocated}
use kernel_old.Paging.TableApart.{Sound}
use kernel_old.Paging.Runs.{Mapped, page_map_memory-Mapped}
use kernel_old.Paging.UserMap.{
  page_mk_table, PageMap, IsMap, set_entry, ensure_table, page_map_memory,
}

-- One region, from 4096 to 8192.
abbrev one_region : RegionList
one_region = record { items = region 4096 8192 ∷ []; cnt = 1 }

space_alloc_region-Apart_example : (4096 ≤ 8192) × Apart 8192 (8192 + 4096) (region 4096 8192 ∷ [])
unfolding space_alloc_region alloc_loop past
space_alloc_region-Apart_example =
    space_alloc_region-Apart 4096 8192 8192 one_region
      (record { items = region 4096 8192 ∷ region 8192 12288 ∷ []; cnt = 2 }) (omega arith)
      (omega arith) refl (ground arith)

-- Directory 0 is in use, and its first page is taken.
abbrev kernel : Kernel
kernel = record {
  kheapdir = λ i. if i == 0 then 3 else 0;
  kheap_tables = λ i j. if i * 512 + j == 0 then 3 else 0;
  pmm = record { bitmapsize = 2; mapbuffer = update (λ _. 0) 0 128 };
  tables = λ _ _. 0;
}

abbrev after_alloc : Kernel
after_alloc = record kernel { kheap_tables = mark_run 2 0 1 kernel.kheap_tables }

kernel_run : page_kernel_alloc4k (λ i. i * 4096) 2 kernel ≡ some (heap_address 0 1, after_alloc)
unfolding page_kernel_alloc4k scan_dirs scan_table
kernel_run = refl

page_kernel_alloc4k-Allocated_example :
    (pdoff offset : ℕ) × (heap_address 0 1 ≡ heap_address pdoff offset)
    × Allocated (λ i. i * 4096) 2 kernel (pdoff * 512 + offset) after_alloc
page_kernel_alloc4k-Allocated_example =
    page_kernel_alloc4k-Allocated (λ i. i * 4096) 2 (heap_address 0 1) kernel after_alloc
      (omega arith) kernel_run

page_kernel_alloc4k-room_example :
    (addr : ℕ) × ((k' : Kernel) × (page_kernel_alloc4k (λ i. i * 4096) 300 kernel
        ≡ some (addr, k')))
page_kernel_alloc4k-room_example =
    page_kernel_alloc4k-room (λ i. i * 4096) 300 7 kernel (omega arith) (omega arith) refl

-- A map with one table, at address 4096, for the first 2 MiB.
abbrev user_map : PageMap
user_map = record {
  page_dirs = λ i j. if i * 512 + j == 0 then 7 else 0;
  page_tables = λ i j. if i * 512 + j == 0 then 4096 else 0;
}

user_map-IsMap : IsMap user_map
user_map-IsMap = record { backed = λ i j p. ground arith }

map_run :
    page_map_memory (λ i. i * 4096) 0x3000 0x7000 1 (user_map, kernel)
    ≡ some (set_entry 0x3000 0x7000 (user_map, kernel))
unfolding page_map_memory ensure_table
map_run = refl

-- An empty map, and what mapping two pages into it gives.
abbrev no_map : PageMap
no_map = record { page_dirs = λ _ _. 0; page_tables = λ _ _. 0 }

no_map-Sound : Sound no_map kernel
no_map-Sound = record {
  place = λ i j h. absurd (ground (arith, h));
  apart = λ i j i' j' h h' e. absurd (ground (arith, h));
}

abbrev or_empty : Option (PageMap × Kernel) → PageMap × Kernel
or_empty none = (no_map, kernel)
or_empty (some s) = s

abbrev two_pages : Option (PageMap × Kernel)
two_pages = page_map_memory (λ i. i * 4096) 0x3000 0x7000 2 (no_map, kernel)

two_pages_run : two_pages ≡ some (or_empty two_pages)
unfolding page_map_memory ensure_table page_mk_table page_kernel_alloc4k scan_dirs scan_table
    set_page_frame pmm_request request_loop bitmap_get test_bit
two_pages_run = refl

page_map_memory-Mapped_example :
    Mapped (λ i. i * 4096) 0x3000 0x7000 2 (no_map, kernel) (or_empty two_pages)
    × Sound (or_empty two_pages).0 (or_empty two_pages).1
page_map_memory-Mapped_example =
    page_map_memory-Mapped (λ i. i * 4096) 2 0x3000 0x7000 no_map kernel (or_empty two_pages)
      (omega arith) (omega arith) no_map-Sound two_pages_run
