-- ===== src/Elf/PageLoop.antt =====
-- The loop of util/elf.c `elf_load` over the pages of a segment.
use kernel_old.Base.{
  ℕ, zero, suc, ◌+◌, ◌*◌, ◌/◌, ◌%◌, ◌^◌, ◌≤◌, ◌<◌, ◌≡◌, ap, subst, ◌≢◌, inl, inr, some, arith, ltb,
  ltb→lt, Bool-cases, Option-cases,
}
use kernel_old.Pmm.Bitmap.{IsValid}
use kernel_old.Paging.{Kernel, page_size_4k}
use kernel_old.Paging.UserMap.{PageMap, page_map_memory}
use kernel_old.Paging.TableApart.{heap_page}
use kernel_old.Elf.{Space, no_fuel, no_region, no_page, loaded, fill_page, with_map, load_pages}
use kernel_old.Elf.Requests.{
  Keeps, Keeps-refl, Keeps-trans, Room, Room-Keeps, pmm_request-Keeps, pmm_request-Taken,
  page_map_memory-Keeps,
}
use kernel_old.Elf.Pages.{PagesLoaded, PagesLoaded-next, filled}

same_space : (s s' : Space) → loaded s ≡ loaded s' → s ≡ s'
same_space s s' e = ap (λ o. elim o [ loaded x ↦ x | no_fuel ↦ s | no_region ↦ s | no_page ↦ s ]) e

module _ (table_phys : ℕ → ℕ) (image : ℕ → ℕ) (tmp offset vaddr size : ℕ) where
  -- The loop takes frames, and gives none back.
  load_pages-Keeps :
      (fuel i : ℕ) (s s' : Space)
      → IsValid s.kernel.pmm
      → load_pages table_phys fuel image tmp offset vaddr size i s ≡ loaded s'
      → Keeps s.kernel.pmm s'.kernel.pmm
  unfolding load_pages fill_page
  load_pages-Keeps zero i s s' w e = cc
  load_pages-Keeps (suc fuel) i s s' w e = elim (Bool-cases (ltb i size)) [
    | inr done ↦
        subst (λ x. Keeps s.kernel.pmm x.kernel.pmm) (same_space s s' (rw (done, load_pages) at e))
          (Keeps-refl s.kernel.pmm w)
    | inl more ↦
        let phys : ℕ = (fill_page image tmp (offset + i) s).0 in
        let s1 : Space = (fill_page image tmp (offset + i) s).1 in
        let first : Keeps s.kernel.pmm s1.kernel.pmm = pmm_request-Keeps s.kernel.pmm w in
        elim (Option-cases
          (page_map_memory table_phys ((vaddr + i) % 2 ^ 64) phys 1 (s1.map, s1.kernel))) [
            | inl full ↦ cc (rw (more, full, load_pages) at e)
            | inr ((m, k), mapped) ↦
                let second : Keeps s1.kernel.pmm k.pmm =
                  page_map_memory-Keeps table_phys ((vaddr + i) % 2 ^ 64) phys s1.map s1.kernel
                    (m, k) first.valid mapped in
                Keeps-trans s.kernel.pmm k.pmm s'.kernel.pmm
                  (Keeps-trans s.kernel.pmm s1.kernel.pmm k.pmm first second)
                  (load_pages-Keeps fuel ((i + page_size_4k) % 2 ^ 32) (with_map s1 (m, k)) s'
                    second.valid (rw (more, mapped, load_pages) at e))
          ]
  ]

  -- With as much fuel as there are pages left, the loop comes to an end.
  pub load_pages-ends :
      (fuel i : ℕ) (s : Space)
      → size % page_size_4k ≡ 0
      → i % page_size_4k ≡ 0
      → i ≤ size
      → size < 2 ^ 32
      → size / page_size_4k < fuel + i / page_size_4k
      → load_pages table_phys fuel image tmp offset vaddr size i s ≢ no_fuel
  unfolding load_pages fill_page
  load_pages-ends zero i s whole at le small enough e = absurd (omega (arith, le, enough))
  load_pages-ends (suc fuel) i s whole at le small enough e = elim (Bool-cases (ltb i size)) [
    | inr done ↦ cc (rw (done, load_pages) at e)
    | inl more ↦
        let phys : ℕ = (fill_page image tmp (offset + i) s).0 in
        let s1 : Space = (fill_page image tmp (offset + i) s).1 in
        elim (Option-cases
          (page_map_memory table_phys ((vaddr + i) % 2 ^ 64) phys 1 (s1.map, s1.kernel))) [
            | inl full ↦ cc (rw (more, full, load_pages) at e)
            | inr (mk, mapped) ↦
                load_pages-ends fuel ((i + page_size_4k) % 2 ^ 32) (with_map s1 mk) whole
                  (omega (arith, at)) (ground (arith, whole, at, small, more)) small
                  (ground (arith, whole, at, small, enough, more))
                  (rw (more, mapped, load_pages) at e)
          ]
  ]

module _ (table_phys : ℕ → ℕ) (image : ℕ → ℕ) (t offset vaddr size : ℕ) (in_heap : t < 512 * 512)
    (aligned : vaddr % page_size_4k ≡ 0) (low : vaddr + size ≤ 2 ^ 39)
    (whole : size % page_size_4k ≡ 0) (small : size < 2 ^ 32) where
  -- One round, where a frame is left after it.
  round_loaded :
      (n : ℕ) (s : Space) (m : PageMap) (k : Kernel)
      → n * page_size_4k < size
      → PagesLoaded table_phys image offset vaddr aligned n s
      → page_map_memory table_phys
          ((vaddr + n * page_size_4k) % 2 ^ 64)
          (fill_page image (heap_page t) (offset + n * page_size_4k) s).0
          1
          (
            (fill_page image (heap_page t) (offset + n * page_size_4k) s).1.map,
            (fill_page image (heap_page t) (offset + n * page_size_4k) s).1.kernel,
          )
        ≡ some (m, k)
      → Room k.pmm
      → PagesLoaded table_phys image offset vaddr aligned
          (n + 1)
          (with_map (fill_page image (heap_page t) (offset + n * page_size_4k) s).1 (m, k))
  unfolding filled fill_page
  round_loaded n s m k lt w mapped room =
      let (phys, s1) = fill_page image (heap_page t) (offset + n * page_size_4k) s in
      let first : Keeps s.kernel.pmm s1.kernel.pmm = pmm_request-Keeps s.kernel.pmm w.valid in
      let second : Keeps s1.kernel.pmm k.pmm =
        page_map_memory-Keeps table_phys ((vaddr + n * page_size_4k) % 2 ^ 64) phys s1.map s1.kernel
          (m, k) first.valid mapped in
      let before : Room s.kernel.pmm =
        Room-Keeps s.kernel.pmm s1.kernel.pmm first (Room-Keeps s1.kernel.pmm k.pmm second room) in
      let (f, taken) = pmm_request-Taken s.kernel.pmm w.valid before in
      PagesLoaded-next table_phys image offset vaddr aligned n t f s in_heap w taken m k mapped
        (omega (arith, low, lt, whole))

  pub load_pages-PagesLoaded :
      (fuel n : ℕ) (s s' : Space)
      → n * page_size_4k ≤ size
      → PagesLoaded table_phys image offset vaddr aligned n s
      → load_pages table_phys fuel image (heap_page t) offset vaddr size (n * page_size_4k) s
        ≡ loaded s'
      → Room s'.kernel.pmm
      → PagesLoaded table_phys image offset vaddr aligned (size / page_size_4k) s'
  unfolding load_pages fill_page
  load_pages-PagesLoaded zero n s s' le w e room = cc
  load_pages-PagesLoaded (suc fuel) n s s' le w e room =
      elim (Bool-cases (ltb (n * page_size_4k) size)) [
        | inr done ↦
            let all : n ≡ size / page_size_4k = ground (arith, done, le, whole) in
            subst (λ x. PagesLoaded table_phys image offset vaddr aligned (size / page_size_4k) x)
              (same_space s s' (rw (done, load_pages) at e))
              (subst (λ x. PagesLoaded table_phys image offset vaddr aligned x s) all w)
        | inl more ↦
            let (phys, s1) = fill_page image (heap_page t) (offset + n * page_size_4k) s in
            let lt : n * page_size_4k < size = ltb→lt (n * page_size_4k) size more in
            elim (Option-cases (
              page_map_memory table_phys ((vaddr + n * page_size_4k) % 2 ^ 64) phys 1
                (s1.map, s1.kernel))) [
                  | inl full ↦ cc (rw (more, full, load_pages) at e)
                  | inr ((m, k), mapped) ↦
                      let next : (n * page_size_4k + page_size_4k) % 2 ^ 32
                          ≡ (n + 1) * page_size_4k =
                        omega (arith, lt, whole, small) in
                      let e' = rw (more, mapped, next, load_pages) at e in
                      let valid =
                        (page_map_memory-Keeps table_phys ((vaddr + n * page_size_4k) % 2 ^ 64) phys
                          s1.map s1.kernel (m, k) (pmm_request-Keeps s.kernel.pmm w.valid).valid
                          mapped).valid in
                      let kept : Keeps k.pmm s'.kernel.pmm =
                        load_pages-Keeps table_phys image (heap_page t) offset vaddr size fuel
                          ((n + 1) * page_size_4k) (with_map s1 (m, k)) s' valid e' in
                      load_pages-PagesLoaded fuel (n + 1) (with_map s1 (m, k)) s'
                        (omega (arith, lt, whole))
                        (round_loaded n s m k lt w mapped
                          (Room-Keeps k.pmm s'.kernel.pmm kept room))
                        e' room
                ]
      ]
