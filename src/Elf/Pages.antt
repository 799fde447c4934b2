-- ===== src/Elf/Pages.antt =====
-- The pages of a segment that util/elf.c `elf_load` has loaded, and the step that loads the next one.
use kernel_old.Base.{
  sym, false, subst, ◌∙◌, ◌^◌, ◌≤◌, some, ℕ, ◌+◌, ◌*◌, ◌/◌, ◌%◌, ◌<◌, ◌≡◌, refl, ap, ◌≢◌, inl, inr,
  true, arith, ltb, ◌==◌, ltb→lt, Bool-cases, overlay-inside, overlay-outside,
}
use kernel_old.Pmm.{bitmap_get, pmm_request}
use kernel_old.Pmm.Bitmap.{IsValid}
use kernel_old.Paging.{page_size_4k, pml4_idx, frame_of}
use kernel_old.Paging.UserMap.{PageMap, page_getphys, page_map_memory}
use kernel_old.Paging.Runs.{Mapped, page_map_memory-Mapped}
use kernel_old.Paging.TableApart.{Sound, heap_page, in_use-heap_map}
use kernel_old.Elf.{Kernel, Space, fill_page, with_map}
use kernel_old.Elf.Requests.{Keeps, Taken, pmm_request-Keeps, page_map_memory-Keeps}

-- The byte that a process reads at `v`.
abbrev pub frame_at : Space → (v : ℕ) → ℕ
frame_at s v = page_getphys v (s.map, s.kernel)

abbrev pub user_byte : Space → (v : ℕ) → ℕ
user_byte s v = s.frames (frame_at s v + v % page_size_4k)

frame_at-aligned : (s : Space) (v : ℕ) → frame_at s v % page_size_4k ≡ 0
unfolding page_getphys
frame_at-aligned s v = elim (Bool-cases (pml4_idx v == 0)) [
  | inl low ↦ ground (arith, low)
  | inr high ↦ rw high refl
]

module _ (table_phys : ℕ → ℕ) (image : ℕ → ℕ) (offset vaddr : ℕ)
    (aligned : vaddr % page_size_4k ≡ 0) where
  -- The first `n` pages of the segment: their frames are in use, and hold the bytes of the file.
  pub record PagesLoaded (n : ℕ) (s : Space) : Type 0 where
    pub sound : Sound s.map s.kernel
    pub valid : IsValid s.kernel.pmm
    pub used :
        (a : ℕ)
        → a < n * page_size_4k
        → bitmap_get s.kernel.pmm (frame_at s (vaddr + a) / page_size_4k) ≡ true
    pub bytes : (a : ℕ) → a < n * page_size_4k → user_byte s (vaddr + a) ≡ image (offset + a)

  module _ (n t f : ℕ) (s : Space) (in_heap : t < 512 * 512) (w : PagesLoaded n s)
      (taken : Taken s.kernel.pmm (pmm_request s.kernel.pmm) f) where
    -- The space after the frame `f` has been filled.
    unfoldable pub filled : Space
    filled = (fill_page image (heap_page t) (offset + n * page_size_4k) s).1

    pub phys_lem : (pmm_request s.kernel.pmm).0 ≡ f * page_size_4k
    phys_lem = taken.result

    pub filled-Sound : Sound filled.map filled.kernel
    unfolding filled fill_page
    filled-Sound = record {
      place = λ i j h.
          let (p, lt, at, used) = w.sound.place i j h in
          (
            p,
            lt,
            at,
            in_use-heap_map table_phys s.kernel t (pmm_request s.kernel.pmm).0 p in_heap used,
          );
      apart = w.sound.apart;
    }

    filled-frame : frame_of (f * page_size_4k) ≡ f * page_size_4k
    filled-frame = omega (arith, taken.small)

    -- The bytes of other frames are kept.
    filled-other : (x : ℕ) → x / page_size_4k ≢ f → filled.frames x ≡ s.frames x
    unfolding filled fill_page
    filled-other x ne =
        rw (phys_lem, filled-frame)
          (overlay-outside s.frames (λ j. image (offset + n * page_size_4k + j)) (f * page_size_4k)
            page_size_4k x
            (elim (Bool-cases (ltb x (f * page_size_4k))) [
              | inl below ↦ inl (ltb→lt x (f * page_size_4k) below)
              | inr above ↦ inr (ground (arith, above, ne))
            ]))

    filled-here :
        (j : ℕ)
        → j < page_size_4k
        → filled.frames (f * page_size_4k + j) ≡ image (offset + n * page_size_4k + j)
    unfolding filled fill_page
    filled-here j lt =
        rw (phys_lem, filled-frame)
          (overlay-inside s.frames (λ j. image (offset + n * page_size_4k + j)) (f * page_size_4k)
            page_size_4k j lt)

    module _ (m : PageMap) (k : Kernel)
        (mapped : page_map_memory table_phys
            ((vaddr + n * page_size_4k) % 2 ^ 64)
            (pmm_request s.kernel.pmm).0
            1
            (filled.map, filled.kernel)
          ≡ some (m, k))
        (low : vaddr + (n + 1) * page_size_4k ≤ 2 ^ 39) where
      abbrev pub next_space : Space
      next_space = with_map filled (m, k)

      mapped_frame :
          page_map_memory table_phys
            (vaddr + n * page_size_4k)
            (f * page_size_4k)
            1
            (filled.map, filled.kernel)
          ≡ some (m, k)
      mapped_frame =
          let wrap : (vaddr + n * page_size_4k) % 2 ^ 64 ≡ vaddr + n * page_size_4k =
            omega (arith, low) in
          rw (wrap, phys_lem) at mapped

      run :
          Mapped table_phys
            (vaddr + n * page_size_4k)
            (f * page_size_4k)
            1
            (filled.map, filled.kernel)
            (m, k)
          × Sound m k
      run =
          page_map_memory-Mapped table_phys 1 (vaddr + n * page_size_4k) (f * page_size_4k)
            filled.map filled.kernel (m, k) (omega (arith, low)) (omega (arith, taken.small))
            filled-Sound mapped_frame

      after_request : Keeps s.kernel.pmm filled.kernel.pmm
      unfolding filled fill_page
      after_request = pmm_request-Keeps s.kernel.pmm w.valid

      new_used : bitmap_get filled.kernel.pmm f ≡ true
      unfolding filled fill_page
      new_used = taken.used

      after_map : Keeps filled.kernel.pmm k.pmm
      after_map =
          page_map_memory-Keeps table_phys (vaddr + n * page_size_4k) (f * page_size_4k) filled.map
            filled.kernel (m, k) after_request.valid mapped_frame

      -- A page loaded before is found where it was.
      earlier :
          (a : ℕ) → a < n * page_size_4k → frame_at next_space (vaddr + a) ≡ frame_at s (vaddr + a)
      unfolding filled fill_page page_getphys Mapped
      earlier a lt =
          (run.0 (vaddr + a) (omega (arith, lt, low))).1 (inl (omega (arith, lt, aligned)))

      now :
          (a : ℕ)
          → n * page_size_4k ≤ a
          → a < (n + 1) * page_size_4k
          → frame_at next_space (vaddr + a) ≡ f * page_size_4k
      unfolding Mapped
      now a le lt =
          (run.0 (vaddr + a) (omega (arith, lt, low))).0 0 (omega arith)
            (omega (arith, le, lt, aligned))
          ∙ omega (arith, filled-frame)

      still_used :
          (a : ℕ)
          → a < n * page_size_4k
          → bitmap_get k.pmm (frame_at next_space (vaddr + a) / page_size_4k) ≡ true
      still_used a lt =
          subst (λ x. bitmap_get k.pmm (x / page_size_4k) ≡ true) (sym (earlier a lt))
            (after_map.used (frame_at s (vaddr + a) / page_size_4k)
              (after_request.used (frame_at s (vaddr + a) / page_size_4k) (w.used a lt)))

      -- The frame of a page loaded before is not the new one.
      other_frame : (a : ℕ) → a < n * page_size_4k → frame_at s (vaddr + a) / page_size_4k ≢ f
      other_frame a lt e =
          let free : bitmap_get s.kernel.pmm f ≡ false = taken.free in
          let used : bitmap_get s.kernel.pmm (frame_at s (vaddr + a) / page_size_4k) ≡ true =
            w.used a lt in
          cc

      still_there :
          (a : ℕ) → a < n * page_size_4k → user_byte next_space (vaddr + a) ≡ image (offset + a)
      still_there a lt =
          let x : ℕ = frame_at s (vaddr + a) in
          let low_bits : x % page_size_4k ≡ 0 = frame_at-aligned s (vaddr + a) in
          let same : (x + (vaddr + a) % page_size_4k) / page_size_4k ≡ x / page_size_4k =
            omega (arith, low_bits) in
          ap (λ y. filled.frames (y + (vaddr + a) % page_size_4k)) (earlier a lt)
          ∙ filled-other (x + (vaddr + a) % page_size_4k) (λ e. other_frame a lt (sym same ∙ e))
          ∙ w.bytes a lt

      -- The next page is loaded as well.
      pub PagesLoaded-next : PagesLoaded (n + 1) next_space
      PagesLoaded-next = record {
        sound = run.1;
        valid = after_map.valid;
        used = λ a lt. elim (Bool-cases (ltb a (n * page_size_4k))) [
          | inl before ↦ still_used a (ltb→lt a (n * page_size_4k) before)
          | inr here ↦
              let at = now a (ground (arith, here)) lt in
              subst (λ x. bitmap_get k.pmm (x / page_size_4k) ≡ true) (sym at)
                (subst (λ x. bitmap_get k.pmm x ≡ true) (omega arith) (after_map.used f new_used))
        ];
        bytes = λ a lt. elim (Bool-cases (ltb a (n * page_size_4k))) [
          | inl before ↦ still_there a (ltb→lt a (n * page_size_4k) before)
          | inr here ↦
              let le : n * page_size_4k ≤ a = ground (arith, here) in
              ap (λ x. filled.frames (x + (vaddr + a) % page_size_4k)) (now a le lt)
              ∙ filled-here ((vaddr + a) % page_size_4k) (omega arith)
              ∙ ap image (omega (arith, le, lt, aligned))
        ];
      }
