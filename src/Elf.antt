-- ===== src/Elf.antt =====
-- Loading a program: util/elf.c `elf_load`, and sched/sched.c `check_elf_hdr`. A file, `data` in the source, is the bytes `image`.
-- `frames` are the bytes of physical memory, without those of the page tables, which are kept in
-- the kernel's part.
pub mod Requests
pub mod Pages
pub mod PageLoop
pub mod Segment
mod Tests
use kernel_old.Base.{
  ℕ, zero, suc, ◌+◌, ◌-◌, ◌*◌, ◌/◌, ◌%◌, ◌^◌, ◌≤◌, ◌<◌, min, bit_and, bit_or, bit_xor, ◌≡◌, refl,
  sym, ap, ap₂, subst, ◌∙◌, ◌≢◌, ◌↔◌, ◌⊎◌, inl, inr, Bool, true, false, not, ◌&&◌, ◌||◌, Option,
  none, some, List, [], ◌∷◌, ◌++◌, map, arith, ltb, leb, ◌==◌, if◌then◌else◌, ltb→lt, lt→ltb,
  leb→le, ==_iff, ==_refl, Bool-cases, Option-cases, length, get_elem?, set, length-append,
  append_assoc, update_self, update, every, every-holds, ==_false, update_ne, bool_eq, bool_eq→≡,
  overlay, overlay-inside, overlay-within, overlay-outside, load16, load32, load64,
}
use kernel_old.Pmm.{Pmm, pmm_request}
use kernel_old.Paging.{
  Kernel, page_size_4k, frame_of, page_kernel_map_memory, page_kernel_alloc4k, page_kernel_free4k,
}
use kernel_old.Paging.Regions.{RegionList, space_alloc_region_at}
use kernel_old.Paging.UserMap.{PageMap, page_map_memory}

-- `ELFMAG0` to `ELFMAG3` and `ELFCLASS64`
unfoldable pub check_elf_hdr : (image : ℕ → ℕ) → Bool
check_elf_hdr image =
    if not (image 0 == 0x7f)
      || not (image 1 == b'E')
      || not (image 2 == b'L')
      || not (image 3 == b'F')
    then false
    else image 4 == 2

-- `elf64_phdr_t` with the fields that are read.
pub record Phdr : Type 0 where
  pub type : ℕ
  pub offset : ℕ
  pub vaddr : ℕ
  pub mem_sz : ℕ

unfoldable pub phdr_at : (image : ℕ → ℕ) → (at : ℕ) → Phdr
phdr_at image at = record {
  type = load32 image at;
  offset = load64 image (at + 8);
  vaddr = load64 image (at + 16);
  mem_sz = load64 image (at + 40);
}

-- The parts of a process and of the kernel that loading changes.
pub record Space : Type 0 where
  pub regions : RegionList
  pub map : PageMap
  pub kernel : Kernel
  pub frames : ℕ → ℕ

-- What loading comes to: the fuel is used up, a region cannot be entered, no page of the kernel heap
-- is left, or the space afterwards.
pub data Loading : Type 0 where
  no_fuel : Loading
  no_region : Loading
  no_page : Loading
  loaded : Space → Loading

-- `size`, rounded up to whole pages.
unfoldable pub whole_pages : ℕ → ℕ
whole_pages size =
    if not (size % page_size_4k == 0)
    then (size - size % page_size_4k + page_size_4k) % 2 ^ 64
    else size

-- The frame of the next page, mapped at `tmp` and filled from the file.
unfoldable pub fill_page : (image : ℕ → ℕ) → (tmp from : ℕ) → Space → ℕ × Space
fill_page image tmp from s =
    let (phys, pmm) = pmm_request s.kernel.pmm in
    (
      phys,
      record s {
        kernel = record (s.kernel) {
          pmm = pmm;
          kheap_tables = page_kernel_map_memory tmp phys 1 s.kernel.kheap_tables;
        };
        frames = overlay s.frames (λ j. image (from + j)) (frame_of phys) page_size_4k;
      },
    )

abbrev pub with_map : Space → PageMap × Kernel → Space
with_map s (m, k) = record s { map = m; kernel = k }

module _ (table_phys : ℕ → ℕ) where
  -- The loop over the pages of a segment, on fuel, with its 32-bit counter `i`.
  unfoldable pub load_pages :
      (fuel : ℕ) → (image : ℕ → ℕ) → (tmp offset vaddr size i : ℕ) → Space → Loading
  load_pages zero image tmp offset vaddr size i s = no_fuel
  load_pages (suc fuel) image tmp offset vaddr size i s =
      if ltb i size
      then (let (phys, s') = fill_page image tmp (offset + i) s in
          elim (page_map_memory table_phys ((vaddr + i) % 2 ^ 64) phys 1 (s'.map, s'.kernel)) [
            | none ↦ no_page
            | some mk ↦
                load_pages fuel image tmp offset vaddr size ((i + page_size_4k) % 2 ^ 32)
                  (with_map s' mk)
          ])
      else loaded s

  abbrev pub without_tmp : (tmp : ℕ) → Loading → Loading
  without_tmp tmp no_fuel = no_fuel
  without_tmp tmp no_region = no_region
  without_tmp tmp no_page = no_page
  without_tmp tmp (loaded s) = loaded (record s {
    kernel = record (s.kernel) { kheap_tables = page_kernel_free4k tmp 1 s.kernel.kheap_tables };
  })

  -- One `PT_LOAD` entry.
  unfoldable pub load_segment : (fuel : ℕ) → (image : ℕ → ℕ) → Phdr → Space → Loading
  load_segment fuel image phdr s =
      let size : ℕ = whole_pages phdr.mem_sz in
      elim (space_alloc_region_at phdr.vaddr size s.regions) [
        | none ↦ no_region
        | some regions ↦ elim (page_kernel_alloc4k table_phys 1 s.kernel) [
          | none ↦ no_page
          | some (tmp, k) ↦ without_tmp tmp (
              load_pages fuel image tmp phdr.offset phdr.vaddr size 0
                (record s { regions = regions; kernel = k }))
        ]
      ]

  -- The loop over the program headers left.
  unfoldable pub load_phdrs : (fuel : ℕ) → (image : ℕ → ℕ) → (i rounds : ℕ) → Space → Loading
  load_phdrs fuel image i zero s = loaded s
  load_phdrs fuel image i (suc n) s =
      let phdr : Phdr = phdr_at image (load64 image 32 + load16 image 54 * i) in
      elim (if phdr.type == 1 then load_segment fuel image phdr s else loaded s) [
        | no_fuel ↦ no_fuel
        | no_region ↦ no_region
        | no_page ↦ no_page
        | loaded s' ↦ load_phdrs fuel image (i + 1) n s'
      ]

  -- `none` is the 1 returned for another file; else the space and `info->entry`.
  unfoldable pub elf_load : (fuel : ℕ) → (image : ℕ → ℕ) → Space → Option (Loading × ℕ)
  elf_load fuel image s =
      if not (check_elf_hdr image)
      then none
      else some (load_phdrs fuel image 0 (load16 image 56) s, load64 image 24)
