-- ===== src/Elf/Segment.antt =====
-- What util/elf.c `elf_load` gives for a program header.
use kernel_old.Base.{
  ℕ, ◌+◌, ◌*◌, ◌/◌, ◌%◌, ◌^◌, ◌≤◌, ◌<◌, ◌≡◌, refl, sym, subst, ◌∙◌, inl, inr, some, arith,
  Option-cases,
}
use kernel_old.Pmm.Bitmap.{IsValid}
use kernel_old.Paging.{Kernel, page_size_4k, page_kernel_alloc4k}
use kernel_old.Paging.Regions.{RegionList, space_alloc_region_at}
use kernel_old.Paging.KernelAlloc.{Allocated, page_kernel_alloc4k-Allocated}
use kernel_old.Paging.UserMap.{page_getphys}
use kernel_old.Paging.TableApart.{heap_page, Sound, still_used, heap_address-heap_page}
use kernel_old.Elf.{
  Phdr, whole_pages, without_tmp, load_segment, Space, Loading, no_fuel, no_region, no_page, loaded,
  load_pages,
}
use kernel_old.Elf.Requests.{Room, pmm_kept}
use kernel_old.Elf.Pages.{PagesLoaded, user_byte}
use kernel_old.Elf.PageLoop.{load_pages-ends, load_pages-PagesLoaded}

-- What loading a program header comes to. Where it succeeds and a frame is left, the process reads
-- the bytes of the file in all pages of the segment.
unfoldable pub SegmentGives : (image : ℕ → ℕ) → (phdr : Phdr) → Loading → Type 0
SegmentGives image phdr no_fuel = ⊥
SegmentGives image phdr no_region = Unit
SegmentGives image phdr no_page = Unit
SegmentGives image phdr (loaded s) =
    Room s.kernel.pmm
    → (a : ℕ) → a < whole_pages phdr.mem_sz
    → user_byte s (phdr.vaddr + a) ≡ image (phdr.offset + a)

module _ (table_phys : ℕ → ℕ) (fuel : ℕ) (image : ℕ → ℕ) (phdr : Phdr) where
  without_tmp-SegmentGives :
      (tmp : ℕ) (o : Loading)
      → SegmentGives image phdr o
      → SegmentGives image phdr (without_tmp table_phys tmp o)
  unfolding SegmentGives page_getphys
  without_tmp-SegmentGives tmp no_fuel h = h
  without_tmp-SegmentGives tmp no_region h = h
  without_tmp-SegmentGives tmp no_page h = h
  without_tmp-SegmentGives tmp (loaded s) h = h

  whole_pages-whole : (size : ℕ) → whole_pages size % page_size_4k ≡ 0
  unfolding whole_pages
  whole_pages-whole size = ground arith

  module _ (s : Space) (sound : Sound s.map s.kernel) (valid : IsValid s.kernel.pmm)
      (aligned : phdr.vaddr % page_size_4k ≡ 0)
      (low : phdr.vaddr + whole_pages phdr.mem_sz ≤ 2 ^ 39)
      (small : whole_pages phdr.mem_sz < 2 ^ 32)
      (enough : whole_pages phdr.mem_sz / page_size_4k < fuel) where
    -- The space before the first page, with the page `t` of the heap for `tmp`.
    before_pages :
        (regions : RegionList) (t addr : ℕ) (k : Kernel)
        → page_kernel_alloc4k table_phys 1 s.kernel ≡ some (addr, k)
        → Allocated table_phys 1 s.kernel t k
        → PagesLoaded table_phys image phdr.offset phdr.vaddr aligned 0
            (record s { regions = regions; kernel = k })
    before_pages regions t addr k hit a = record {
      sound = record {
        place = λ i j h.
            let (p, lt, at, used) = sound.place i j h in
            (p, lt, at, still_used table_phys s.kernel k t p a used);
        apart = sound.apart;
      };
      valid = subst IsValid (sym (pmm_kept table_phys 1 addr s.kernel k hit)) valid;
      used = λ a lt. absurd (omega (arith, lt));
      bytes = λ a lt. absurd (omega (arith, lt));
    }

    pages_give :
        (t : ℕ) (s0 : Space) (o : Loading)
        → t < 512 * 512
        → PagesLoaded table_phys image phdr.offset phdr.vaddr aligned 0 s0
        → load_pages table_phys fuel image
            (heap_page t)
            phdr.offset
            phdr.vaddr
            (whole_pages phdr.mem_sz)
            0
            s0
          ≡ o
        → SegmentGives image phdr o
    unfolding SegmentGives
    pages_give t s0 no_fuel lt w e =
        load_pages-ends table_phys image (heap_page t) phdr.offset phdr.vaddr
          (whole_pages phdr.mem_sz) fuel 0 s0 (whole_pages-whole phdr.mem_sz) refl (omega arith)
          small (omega (arith, enough)) e
    pages_give t s0 no_region lt w e = tt
    pages_give t s0 no_page lt w e = tt
    pages_give t s0 (loaded s') lt w e = λ room a less.
        let all =
          load_pages-PagesLoaded table_phys image t phdr.offset phdr.vaddr (whole_pages phdr.mem_sz)
            lt aligned low (whole_pages-whole phdr.mem_sz) small fuel 0 s0 s' (omega arith) w e
            room in
        let whole = whole_pages-whole phdr.mem_sz in all.bytes a (omega (arith, less, whole))

    -- Loading a segment that begins at a page below `2 ^ 39`, has fewer than `2 ^ 32` bytes in whole
    -- pages and lies below `2 ^ 39`, into a map where each present directory entry has a table of its
    -- own, comes to an end with fuel for its pages. Where it succeeds and a frame is left, the
    -- process reads at each address of the segment's pages the byte of the file at that offset.
    pub load_segment-SegmentGives :
        SegmentGives image phdr (load_segment table_phys fuel image phdr s)
    unfolding load_segment SegmentGives
    load_segment-SegmentGives =
        elim (Option-cases (space_alloc_region_at phdr.vaddr (whole_pages phdr.mem_sz) s.regions)) [
          | inl full ↦ rw (full, load_segment) tt
          | inr (regions, room) ↦ elim (Option-cases (page_kernel_alloc4k table_phys 1 s.kernel)) [
            | inl full ↦ rw (room, full, load_segment) tt
            | inr ((addr, k), hit) ↦
                let (pd, off, at, a) =
                  page_kernel_alloc4k-Allocated table_phys 1 addr s.kernel k (omega arith) hit in
                let t : ℕ = pd * 512 + off in
                let s0 : Space = record s { regions = regions; kernel = k } in
                let page : addr ≡ heap_page t = at ∙ heap_address-heap_page pd off in
                rw (room, hit, page, load_segment)
                  (without_tmp-SegmentGives (heap_page t)
                    (load_pages table_phys fuel image (heap_page t) phdr.offset phdr.vaddr
                      (whole_pages phdr.mem_sz) 0 s0)
                    (pages_give t s0
                      (load_pages table_phys fuel image (heap_page t) phdr.offset phdr.vaddr
                        (whole_pages phdr.mem_sz) 0 s0)
                      (omega (arith, a.inside)) (before_pages regions t addr k hit a) refl))
          ]
        ]
