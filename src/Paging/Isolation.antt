-- ===== src/Paging/Isolation.antt =====
-- Where mem/paging.c `page_getphys` finds the pages of a run after `page_map_memory`, and every other
-- page of the map.
use kernel_old.Base.{
  ◌==◌, ℕ, ◌+◌, ◌*◌, ◌≡◌, refl, sym, subst, ◌∙◌, ◌≢◌, inl, inr, true, false, some, arith,
  Bool-cases, Option-cases, update_self, update, ==_false,
}
use kernel_old.Pmm.{pmm_request}
use kernel_old.Paging.{Kernel, pdp_idx, pd_idx, is_present, page_kernel_alloc4k}
use kernel_old.Paging.KernelAlloc.{Allocated, page_kernel_alloc4k-Allocated}
use kernel_old.Paging.UserMap.{
  PageMap, page_getphys, page_mk_table, ensure_table, with_table, same_states, entry_present,
}
use kernel_old.Paging.TableApart.{
  Sound, heap_page, heap_address-heap_page, tables_kept, with_page, new_map, table_before,
  table_now, same_place, other_table, Sound-new_map,
}

-- A page whose directory entry is not present has no frame.
pub absent_page :
    (v : ℕ) (m : PageMap) (k : Kernel)
    → is_present (m.page_dirs (pdp_idx v) (pd_idx v)) ≡ false
    → page_getphys v (m, k) ≡ 0
unfolding page_getphys
absent_page v m k h = rw h (ground arith)

cleared_ne : (t : ℕ → ℕ → ℕ) (n n' : ℕ) → n' ≢ n → update t n (λ _. 0) n' ≡ t n'
cleared_ne t n n' ne = rw (==_false n' n ne) refl

module _ (table_phys : ℕ → ℕ) where
  module _ (m : PageMap) (k k1 : Kernel) (i j s phys : ℕ) (w : Sound m k)
      (absent : is_present (m.page_dirs i j) ≡ false) (a : Allocated table_phys 1 k s k1)
      (kept : k1.tables ≡ k.tables) where
    unfoldable new_state : PageMap × Kernel
    new_state = (new_map table_phys m k k1 i j s phys w absent a, with_page table_phys k1 s phys)

    dir_before : (i' j' : ℕ) → (i' ≡ i → j' ≢ j) → new_state.0.page_dirs i' j' ≡ m.page_dirs i' j'
    unfolding new_state new_map with_table
    dir_before i' j' ne = ground (arith, ne)

    zero_page : (v : ℕ) → pdp_idx v ≡ i → pd_idx v ≡ j → page_getphys v new_state ≡ 0
    unfolding page_getphys new_state
    zero_page v e e' =
        let table = table_now table_phys m k k1 i j s phys w absent a (pdp_idx v) (pd_idx v) e e' in
        rw (table, update_self k1.tables (heap_page s)) (ground arith)

    other_page_kept :
        (v : ℕ)
        → (pdp_idx v ≡ i → pd_idx v ≢ j)
        → is_present (m.page_dirs (pdp_idx v) (pd_idx v)) ≡ true
        → page_getphys v new_state ≡ page_getphys v (m, k)
    unfolding page_getphys new_state
    other_page_kept v ne h =
        let dir = dir_before (pdp_idx v) (pd_idx v) ne in
        let table =
          table_before table_phys m k k1 i j s phys w absent a (pdp_idx v) (pd_idx v) ne in
        let apart : m.page_tables (pdp_idx v) (pd_idx v) ≢ heap_page s =
          other_table table_phys m k k1 i j s phys w absent a (pdp_idx v) (pd_idx v) h in
        let entries =
          cleared_ne k1.tables (heap_page s) (m.page_tables (pdp_idx v) (pd_idx v)) apart in
        rw (dir, table, entries, kept) refl

    -- Making a table changes no address.
    getphys-new_state : (v : ℕ) → page_getphys v new_state ≡ page_getphys v (m, k)
    unfolding new_state
    getphys-new_state v =
        elim (same_place table_phys m k k1 i j s phys w absent a (pdp_idx v) (pd_idx v)) [
          | inl (e, e') ↦
              zero_page v e e'
              ∙ sym (
                  absent_page v m k (
                    subst (λ b. is_present (m.page_dirs (pdp_idx v) b) ≡ false) (sym e')
                      (subst (λ b. is_present (m.page_dirs b j) ≡ false) (sym e) absent)))
          | inr ne ↦ elim (Bool-cases (is_present (m.page_dirs (pdp_idx v) (pd_idx v)))) [
            | inl h ↦ other_page_kept v ne h
            | inr h ↦
                absent_page v new_state.0 new_state.1
                  (subst (λ d. is_present d ≡ false) (sym (dir_before (pdp_idx v) (pd_idx v) ne)) h)
                ∙ sym (absent_page v m k h)
          ]
        ]

  -- What `ensure_table` gives.
  pub record Ensured (m : PageMap) (k : Kernel) (i j : ℕ) (s : PageMap × Kernel) : Type 0 where
    pub sound : Sound s.0 s.1
    pub here : is_present (s.0.page_dirs i j) ≡ true
    pub same : (v : ℕ) → page_getphys v s ≡ page_getphys v (m, k)

  made :
      (m : PageMap) (k k1 : Kernel) (i j pd off addr : ℕ)
      → Sound m k
      → is_present (m.page_dirs i j) ≡ false
      → addr ≡ heap_page (pd * 512 + off)
      → Allocated table_phys 1 k (pd * 512 + off) k1
      → k1.tables ≡ k.tables
      → (s : PageMap × Kernel) × ((page_kernel_alloc4k table_phys 1 k ≡ some (addr, k1)
            → ((pmm_request k1.pmm).0 == 0) ≡ false
            → page_mk_table table_phys i j (m, k) ≡ some s)
          × Ensured m k i j s)
  unfolding page_mk_table new_state new_map with_table
  made m k k1 i j pd off addr w absent at a kept =
      let s : ℕ = pd * 512 + off in
      let phys : ℕ = (pmm_request k1.pmm).0 in
      (
        new_state m k k1 i j s phys w absent a kept,
        (
          λ e frame. rw (e, page_mk_table, at, frame) refl,
          record {
            sound = Sound-new_map table_phys m k k1 i j s phys w absent a;
            here =
                rw (update_self m.page_dirs i, update_self (m.page_dirs i) j)
                  (entry_present (m.page_dirs i j) phys);
            same = getphys-new_state m k k1 i j s phys w absent a kept;
          },
        ),
      )

  pub ensured :
      (i j : ℕ) (m : PageMap) (k : Kernel) (s : PageMap × Kernel)
      → Sound m k
      → ensure_table table_phys i j (m, k) ≡ some s
      → Ensured m k i j s
  unfolding ensure_table page_mk_table
  ensured i j m k s w e = elim (Bool-cases (is_present (m.page_dirs i j))) [
    | inl p ↦
        subst (Ensured m k i j) (same_states (m, k) s (rw (p, ensure_table) at e))
          (record { sound = w; here = p; same = λ v. refl })
    | inr absent ↦ elim (Option-cases (page_kernel_alloc4k table_phys 1 k)) [
      | inl full ↦ cc (rw (absent, ensure_table, page_mk_table, full) at e)
      | inr ((addr, k1), hit) ↦
          let (pd, off, at, a) =
            page_kernel_alloc4k-Allocated table_phys 1 addr k k1 (omega arith) hit in
          let (s1, (gives, h)) =
            made m k k1 i j pd off addr w absent (at ∙ heap_address-heap_page pd off) a
              (tables_kept table_phys 1 addr k k1 hit) in
          elim (Bool-cases ((pmm_request k1.pmm).0 == 0)) [
            | inl null ↦ cc (rw (absent, ensure_table, page_mk_table, hit, null) at e)
            | inr frame ↦
                subst (Ensured m k i j)
                  (same_states s1 s (sym (gives hit frame) ∙ rw (absent, ensure_table) at e)) h
          ]
    ]
  ]
