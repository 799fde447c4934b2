-- ===== src/Paging/Runs.antt =====
-- The pages of a run that mem/paging.c `page_map_memory` maps, and every other page of the map.
use kernel_old.Base.{
  ℕ, zero, suc, ◌+◌, ◌-◌, ◌*◌, ◌/◌, ◌%◌, ◌^◌, ◌≤◌, ◌<◌, ◌≡◌, refl, sym, ap, subst, ◌∙◌, ◌≢◌, ◌⊎◌,
  inl, inr, true, some, arith, ◌==◌, Bool-cases, Option-cases,
}
use kernel_old.Paging.{
  Kernel, page_size_4k, pml4_idx, pdp_idx, pd_idx, pt_idx, frame_of, is_present,
}
use kernel_old.Paging.UserMap.{
  PageMap, page_getphys, ensure_table, set_entry, page_map_memory, same_states, getphys-set_entry,
  page_getphys-set_entry_ne,
}
use kernel_old.Paging.TableApart.{Sound, Sound-IsMap}
use kernel_old.Paging.Isolation.{absent_page, Ensured, ensured}

-- Addresses in one page have the same frame.
same_page :
    (v v' : ℕ) (s : PageMap × Kernel)
    → v / 2 ^ 12 ≡ v' / 2 ^ 12
    → page_getphys v s ≡ page_getphys v' s
unfolding page_getphys
same_page v v' (m, k) e =
    let a : pml4_idx v ≡ pml4_idx v' = omega (arith, e) in
    let b : pdp_idx v ≡ pdp_idx v' = omega (arith, e) in
    let c : pd_idx v ≡ pd_idx v' = omega (arith, e) in
    let d : pt_idx v ≡ pt_idx v' = omega (arith, e) in rw (a, b, c, d) refl

set_entry-Sound :
    (virt phys : ℕ) (m : PageMap) (k : Kernel) → Sound m k → Sound m (set_entry virt phys (m, k)).1
set_entry-Sound virt phys m k w = record { place = w.place; apart = w.apart }

set_entry-others :
    (virt phys v : ℕ) (m : PageMap) (k : Kernel)
    → virt < 2 ^ 39
    → v < 2 ^ 39
    → Sound m k
    → is_present (m.page_dirs (pdp_idx virt) (pd_idx virt)) ≡ true
    → virt / 2 ^ 12 ≢ v / 2 ^ 12
    → page_getphys v (set_entry virt phys (m, k)) ≡ page_getphys v (m, k)
set_entry-others virt phys v m k lt lt' w here d =
    elim (Bool-cases (is_present (m.page_dirs (pdp_idx v) (pd_idx v)))) [
      | inl h ↦
          page_getphys-set_entry_ne virt v phys m k lt lt' d
            (w.apart (pdp_idx virt) (pd_idx virt) (pdp_idx v) (pd_idx v) here h)
      | inr h ↦ absent_page v m (set_entry virt phys (m, k)).1 h ∙ sym (absent_page v m k h)
    ]

module _ (table_phys : ℕ → ℕ) where
  -- What mapping `cnt` pages from `virt` on to the frames from `phys` on does to a map: each page of
  -- the run has its frame, and each other page below `2 ^ 39` has what it had.
  unfoldable pub Mapped : (virt phys cnt : ℕ) (s s' : PageMap × Kernel) → Type 0
  Mapped virt phys cnt s s' =
      (v : ℕ)
      → v < 2 ^ 39
      → ((i : ℕ)
          → i < cnt
          → v / 2 ^ 12 ≡ virt / 2 ^ 12 + i
          → page_getphys v s' ≡ frame_of (phys + i * page_size_4k))
        × (v / 2 ^ 12 < virt / 2 ^ 12 ⊎ virt / 2 ^ 12 + cnt ≤ v / 2 ^ 12
            → page_getphys v s' ≡ page_getphys v s)

  -- One page, and the run behind it.
  mapped_next :
      (virt phys cnt : ℕ) (s s1 s' : PageMap × Kernel)
      → ((v : ℕ) → v / 2 ^ 12 ≡ virt / 2 ^ 12 → v < 2 ^ 39 → page_getphys v s1 ≡ frame_of phys)
      → ((v : ℕ) → v < 2 ^ 39 → virt / 2 ^ 12 ≢ v / 2 ^ 12 → page_getphys v s1 ≡ page_getphys v s)
      → Mapped (virt + page_size_4k) (phys + page_size_4k) cnt s1 s'
      → Mapped virt phys (suc cnt) s s'
  unfolding Mapped
  mapped_next virt phys cnt s s1 s' here others rest v lt = (
    λ i less at. elim (Bool-cases (i == 0)) [
      | inl e ↦
          (rest v lt).1 (inl (ground (arith, e, at)))
          ∙ here v (ground (arith, e, at)) lt
          ∙ ap frame_of (ground (arith, e))
      | inr e ↦
          (rest v lt).0 (i - 1) (ground (arith, e, less)) (ground (arith, e, at))
          ∙ ap frame_of (ground (arith, e))
    ],
    λ out.
        (rest v lt).1 (elim out [
          | inl below ↦ inl (omega (arith, below))
          | inr above ↦ inr (omega (arith, above))
        ])
        ∙ others v lt (λ e. elim out [
          | inl below ↦ omega (arith, below, e)
          | inr above ↦ omega (arith, above, e)
        ]),
  )

  -- In a map where each present directory entry has a table of its own that is in use, mapping a run
  -- of pages below `2 ^ 39` to frames below `2 ^ 64`, where that succeeds because a page of the kernel
  -- heap and a frame are left for each table that it makes: each page of the run is found at its
  -- frame, every other page below `2 ^ 39` is found where it was, and each present directory entry
  -- still has a table of its own.
  pub page_map_memory-Mapped :
      (cnt virt phys : ℕ) (m : PageMap) (k : Kernel) (s' : PageMap × Kernel)
      → virt + cnt * page_size_4k ≤ 2 ^ 39
      → phys + cnt * page_size_4k < 2 ^ 64
      → Sound m k
      → page_map_memory table_phys virt phys cnt (m, k) ≡ some s'
      → Mapped virt phys cnt (m, k) s' × Sound s'.0 s'.1
  unfolding page_map_memory Mapped
  page_map_memory-Mapped zero virt phys m k s' lt lt' w e =
      let same : (m, k) ≡ s' = same_states (m, k) s' e in
      (
        λ v h. (λ i less. absurd (omega (arith, less)), λ out. ap (page_getphys v) (sym same)),
        subst (λ (s : PageMap × Kernel). Sound s.0 s.1) same w,
      )
  page_map_memory-Mapped (suc cnt) virt phys m k s' lt lt' w e =
      elim (Option-cases (ensure_table table_phys (pdp_idx virt) (pd_idx virt) (m, k))) [
        | inl full ↦ cc (rw (full, page_map_memory) at e)
        | inr ((m1, k1), made) ↦
            let h : Ensured table_phys m k (pdp_idx virt) (pd_idx virt) (m1, k1) =
              ensured table_phys (pdp_idx virt) (pd_idx virt) m k (m1, k1) w made in
            let k2 : Kernel = (set_entry virt phys (m1, k1)).1 in
            let low : virt < 2 ^ 39 = omega (arith, lt) in
            let wrap : (virt + page_size_4k) % 2 ^ 64 ≡ virt + page_size_4k = omega (arith, lt) in
            let wrap' : (phys + page_size_4k) % 2 ^ 64 ≡ phys + page_size_4k = omega (arith, lt') in
            let (rest, sound) =
              page_map_memory-Mapped cnt (virt + page_size_4k) (phys + page_size_4k) m1 k2 s'
                (omega (arith, lt)) (omega (arith, lt')) (set_entry-Sound virt phys m1 k1 h.sound)
                (rw (made, wrap, wrap', page_map_memory) at e) in
            (
              mapped_next virt phys cnt (m, k) (m1, k2) s'
                  (λ v same below.
                    same_page v virt (m1, k2) same
                    ∙ getphys-set_entry virt phys m1 k1 low (Sound-IsMap m1 k1 h.sound) h.here)
                  (λ v below d.
                    set_entry-others virt phys v m1 k1 low below h.sound h.here d ∙ h.same v)
                  rest,
              sound,
            )
      ]
