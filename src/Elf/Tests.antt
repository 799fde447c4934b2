-- ===== src/Elf/Tests.antt =====
-- Loading a segment of two pages, and the theorem at that segment.
use kernel_old.Base.{
  ℕ, ◌+◌, ◌*◌, ◌%◌, ◌≡◌, refl, Bool, true, false, not, none, [], arith, update, overlay,
}
use kernel_old.Pmm.{
  Pmm, bitmap_get, test_bit, write_bit, bitmap_set, pmm_alloc, request_loop, pmm_request,
}
use kernel_old.Pmm.Bitmap.{IsValid}
use kernel_old.Paging.{
  set_page_frame, page_kernel_alloc4k, page_kernel_map_memory, page_kernel_free4k, scan_dirs,
  scan_table, scan_unused, mark_run, mark_unused, heap_address,
}
use kernel_old.Paging.Regions.{space_alloc_region_at, alloc_at_loop}
use kernel_old.Paging.UserMap.{page_getphys, page_map_memory, page_mk_table, ensure_table}
use kernel_old.Paging.TableApart.{Sound}
use kernel_old.Elf.{
  Phdr, Space, Loading, no_fuel, no_region, no_page, loaded, whole_pages, fill_page, load_pages,
  load_segment, check_elf_hdr, elf_load,
}
use kernel_old.Elf.Pages.{user_byte}
use kernel_old.Elf.Segment.{SegmentGives, load_segment-SegmentGives}

abbrev frames_free : Pmm
frames_free = record { bitmapsize = 2; mapbuffer = update (λ _. 0) 0 128 }

abbrev empty : Space
empty = record {
  regions = record { items = []; cnt = 0 };
  map = record { page_dirs = λ _ _. 0; page_tables = λ _ _. 0 };
  kernel = record {
    kheapdir = λ _. 0;
    kheap_tables = λ _ _. 0;
    pmm = frames_free;
    tables = λ _ _. 0;
  };
  frames = λ _. 0;
}

empty-Sound : Sound empty.map empty.kernel
empty-Sound = record {
  place = λ i j h. absurd (ground (arith, h));
  apart = λ i j i' j' h h' e. absurd (ground (arith, h));
}

frames-IsValid : IsValid frames_free
frames-IsValid = record { size = omega arith; byte = λ i. ground arith }

abbrev text : Phdr
text = record { type = 1; offset = 4096; vaddr = 0x400000; mem_sz = 5000 }

load_segment-SegmentGives_example :
    SegmentGives (λ i. i % 251) text (load_segment (λ i. i * 4096) 3 (λ i. i % 251) text empty)
unfolding whole_pages
load_segment-SegmentGives_example =
    load_segment-SegmentGives (λ i. i * 4096) 3 (λ i. i % 251) text empty empty-Sound frames-IsValid
      (omega arith) (omega arith) (omega arith) (omega arith)

-- Whether loading succeeded with frame 15 left, and the byte at address `v`.
abbrev read_at : ℕ → Loading → Bool × ℕ
read_at v no_fuel = (false, 0)
read_at v no_region = (false, 0)
read_at v no_page = (false, 0)
read_at v (loaded s) = (not (bitmap_get s.kernel.pmm 15), user_byte s v)

second_page :
    read_at (0x400000 + 4500) (load_segment (λ i. i * 4096) 3 (λ i. i % 251) text empty)
    ≡ (true, (4096 + 4500) % 251)
unfolding load_segment whole_pages load_pages fill_page space_alloc_region_at alloc_at_loop
    page_kernel_alloc4k scan_dirs scan_table scan_unused mark_run mark_unused heap_address
    page_kernel_map_memory page_kernel_free4k set_page_frame page_map_memory ensure_table
    page_mk_table page_getphys pmm_request request_loop pmm_alloc bitmap_set bitmap_get test_bit
    write_bit overlay
second_page = refl

-- A file without the mark of an ELF file is not loaded.
not_elf : elf_load (λ i. i * 4096) 3 (λ _. 0) empty ≡ none
unfolding elf_load check_elf_hdr
not_elf = refl
