-- ===== src/Paging/TableApart.antt =====
-- The tables that mem/paging.c `page_mk_table` makes are apart from each other: what it gives of the
-- kernel's heap, and of the other addresses of a page map.
use kernel_old.Base.{
  ℕ, ◌+◌, ◌*◌, ◌/◌, ◌%◌, ◌<◌, ◌≡◌, refl, sym, ◌∙◌, ◌≢◌, ◌⊎◌, inl, inr, Bool, true, false, ◌&&◌,
  some, arith, ◌==◌, ==_iff, Bool-cases, Option-cases, update_self, update,
}
use kernel_old.Pmm.{pmm_request}
use kernel_old.Paging.{
  Kernel, pd_idx, pt_idx, is_present, set_page_frame, or_writable, heap_address,
  page_kernel_alloc4k, page_kernel_map_memory, scan_dirs, scan_unused,
}
use kernel_old.Paging.KernelAlloc.{Allocated}
use kernel_old.Paging.UserMap.{PageMap, IsMap, with_table}

-- Page `p` of the kernel heap: its address, and whether it is in use.
unfoldable pub heap_page : ℕ → ℕ
heap_page p = heap_address (p / 512) (p % 512)

abbrev pub in_use : Kernel → ℕ → Bool
in_use k p = is_present (k.kheapdir (p / 512)) && is_present (k.kheap_tables (p / 512) (p % 512))

pub heap_address-heap_page : (pd off : ℕ) → heap_address pd off ≡ heap_page (pd * 512 + off)
unfolding heap_page heap_address
heap_address-heap_page pd off = omega arith

heap_page-injective : (p q : ℕ) → p < 512 * 512 → q < 512 * 512 → heap_page p ≡ heap_page q → p ≡ q
unfolding heap_page heap_address
heap_page-injective p q h h' e = omega (arith, e, h, h')

pub heap_page_ne_zero : (p : ℕ) → heap_page p ≢ 0
unfolding heap_page heap_address
heap_page_ne_zero p = λ e. omega (arith, e)

heap_page-idx :
    (p : ℕ) → p < 512 * 512 → (pd_idx (heap_page p) ≡ p / 512) × (pt_idx (heap_page p) ≡ p % 512)
unfolding heap_page heap_address
heap_page-idx p h = (omega (arith, h), omega (arith, h))

-- Each present directory entry has a table of its own, which is a page of the kernel heap in use.
pub record Sound (m : PageMap) (k : Kernel) : Type 0 where
  pub place :
      (i j : ℕ)
      → is_present (m.page_dirs i j) ≡ true
      → (p : ℕ) × (p < 512 * 512) × (m.page_tables i j ≡ heap_page p) × (in_use k p ≡ true)
  pub apart :
      (i j i' j' : ℕ)
      → is_present (m.page_dirs i j) ≡ true
      → is_present (m.page_dirs i' j') ≡ true
      → m.page_tables i j ≡ m.page_tables i' j'
      → (i ≡ i') × (j ≡ j')

pub Sound-IsMap : (m : PageMap) (k : Kernel) → Sound m k → IsMap m
Sound-IsMap m k w = record {
  backed = λ i j h. let (p, lt, at, used) = w.place i j h in λ e. heap_page_ne_zero p (sym at ∙ e);
}

module _ (table_phys : ℕ → ℕ) where
  pub tables_kept :
      (cnt addr : ℕ) (k k' : Kernel)
      → page_kernel_alloc4k table_phys cnt k ≡ some (addr, k')
      → k'.tables ≡ k.tables
  unfolding page_kernel_alloc4k
  tables_kept cnt addr k k' e =
      elim (Option-cases (
        scan_dirs k.kheapdir k.kheap_tables cnt 0 512
          (record { pdoff = 0; offset = 0; counter = 0 }))) [
            | inl nothing ↦ elim (Option-cases (scan_unused k.kheapdir cnt 0 512 0 0)) [
              | inl full ↦ cc (rw (nothing, page_kernel_alloc4k, full) at e)
              | inr (pd, hit) ↦ cc (rw (nothing, page_kernel_alloc4k, hit) at e)
            ]
            | inr (r, hit) ↦ cc (rw (hit, page_kernel_alloc4k) at e)
          ]

  -- The kernel after the page `s` has been handed out and mapped.
  abbrev pub with_page : Kernel → (s phys : ℕ) → Kernel
  with_page k s phys = record k {
    pmm = (pmm_request k.pmm).1;
    kheap_tables = page_kernel_map_memory (heap_page s) phys 1 k.kheap_tables;
    tables = update k.tables (heap_page s) (λ _. 0);
  }

  same_entry :
      (k1 : Kernel) (s phys p : ℕ)
      → s < 512 * 512
      → p ≡ s
      → is_present ((with_page k1 s phys).kheap_tables (p / 512) (p % 512)) ≡ true
  unfolding page_kernel_map_memory
  same_entry k1 s phys p lt e =
      let (dir, page) = heap_page-idx s lt in
      let entry : ℕ = or_writable (set_page_frame (k1.kheap_tables (s / 512) (s % 512)) phys) in
      rw
        (
          e,
          dir,
          page,
          update_self k1.kheap_tables (s / 512),
          update_self (k1.kheap_tables (s / 512)) (s % 512),
        )
        ((==_iff (entry % 2) 1).1 (omega arith))

  other_entry :
      (k1 : Kernel) (s phys p : ℕ)
      → s < 512 * 512
      → p ≢ s
      → (with_page k1 s phys).kheap_tables (p / 512) (p % 512) ≡ k1.kheap_tables (p / 512) (p % 512)
  unfolding page_kernel_map_memory
  other_entry k1 s phys p lt ne =
      let (dir, page) = heap_page-idx s lt in rw (dir, page) (ground (arith, ne))

  -- Mapping a page of the heap leaves every page in use.
  pub in_use-heap_map :
      (k : Kernel) (s phys p : ℕ)
      → s < 512 * 512
      → in_use k p ≡ true
      → in_use (with_page k s phys) p ≡ true
  in_use-heap_map k s phys p lt used = elim (Bool-cases (p == s)) [
    | inl e ↦ let entry = same_entry k s phys p lt ((==_iff p s).0 e) in ground (arith, used, entry)
    | inr e ↦
        let entry = other_entry k s phys p lt (λ same. ground (arith, e, same)) in
        ground (arith, used, entry)
  ]

  -- A page in use before stays so.
  pub still_used :
      (k k1 : Kernel) (s p : ℕ)
      → Allocated table_phys 1 k s k1
      → in_use k p ≡ true
      → in_use k1 p ≡ true
  still_used k k1 s p a used =
      let dir : is_present (k1.kheapdir (p / 512)) ≡ true =
        a.dirs (p / 512) (ground (arith, used)) in
      let entry = a.tables (p / 512) (p % 512) (omega arith) in ground (arith, dir, entry, used)

  not_handed_out :
      (k k1 : Kernel) (s p : ℕ) → Allocated table_phys 1 k s k1 → in_use k p ≡ true → p ≢ s
  not_handed_out k k1 s p a used e =
      let free : in_use k p ≡ false = a.unused p (omega (arith, e)) (omega (arith, e)) in cc

  used_before :
      (k k1 : Kernel) (s phys p : ℕ)
      → Allocated table_phys 1 k s k1
      → in_use k p ≡ true
      → in_use (with_page k1 s phys) p ≡ true
  used_before k k1 s phys p a used =
      in_use-heap_map k1 s phys p (omega (arith, a.inside)) (still_used k k1 s p a used)

  used_now :
      (k k1 : Kernel) (s phys : ℕ)
      → Allocated table_phys 1 k s k1
      → in_use (with_page k1 s phys) s ≡ true
  used_now k k1 s phys a =
      let dir : is_present (k1.kheapdir (s / 512)) ≡ true =
        a.present s (omega arith) (omega arith) in
      let entry = same_entry k1 s phys s (omega (arith, a.inside)) refl in
      ground (arith, dir, entry)

  module _ (m : PageMap) (k k1 : Kernel) (i j s phys : ℕ) (w : Sound m k)
      (absent : is_present (m.page_dirs i j) ≡ false) (a : Allocated table_phys 1 k s k1) where
    unfoldable pub new_map : PageMap
    new_map = with_table table_phys m i j phys (heap_page s)

    pub present_before :
        (i' j' : ℕ)
        → (i' ≡ i → j' ≢ j)
        → is_present (new_map.page_dirs i' j') ≡ true
        → is_present (m.page_dirs i' j') ≡ true
    unfolding new_map with_table
    present_before i' j' ne h = ground (arith, ne, h)

    pub table_before :
        (i' j' : ℕ) → (i' ≡ i → j' ≢ j) → new_map.page_tables i' j' ≡ m.page_tables i' j'
    unfolding new_map with_table
    table_before i' j' ne = ground (arith, ne)

    pub table_now : (i' j' : ℕ) → i' ≡ i → j' ≡ j → new_map.page_tables i' j' ≡ heap_page s
    unfolding new_map with_table
    table_now i' j' e e' = ground (arith, e, e')

    pub same_place : (i' j' : ℕ) → ((i' ≡ i) × (j' ≡ j)) ⊎ (i' ≡ i → j' ≢ j)
    same_place i' j' = elim (Bool-cases ((i' == i) && (j' == j))) [
      | inl e ↦ inl (ground (arith, e), ground (arith, e))
      | inr e ↦ inr (λ same same'. ground (arith, e, same, same'))
    ]

    -- The table of another entry is not the new one.
    pub other_table :
        (i' j' : ℕ) → is_present (m.page_dirs i' j') ≡ true → m.page_tables i' j' ≢ heap_page s
    other_table i' j' h e =
        let (p, lt, at, used) = w.place i' j' h in
        not_handed_out k k1 s p a used
          (heap_page-injective p s lt (omega (arith, a.inside)) (sym at ∙ e))

    pub Sound-new_map : Sound new_map (with_page k1 s phys)
    Sound-new_map = record {
      place = λ i' j' h. elim (same_place i' j') [
        | inl (e, e') ↦ (s, omega (arith, a.inside), table_now i' j' e e', used_now k k1 s phys a)
        | inr ne ↦
            let (p, lt, at, used) = w.place i' j' (present_before i' j' ne h) in
            (p, lt, table_before i' j' ne ∙ at, used_before k k1 s phys p a used)
      ];
      apart = λ i' j' i'' j'' h h' e. elim (same_place i' j') [
        | inl (e1, e2) ↦ elim (same_place i'' j'') [
          | inl (e3, e4) ↦ (e1 ∙ sym e3, e2 ∙ sym e4)
          | inr ne ↦ absurd (
              other_table i'' j'' (present_before i'' j'' ne h')
                (sym (table_before i'' j'' ne) ∙ sym e ∙ table_now i' j' e1 e2))
        ]
        | inr ne ↦ elim (same_place i'' j'') [
          | inl (e3, e4) ↦ absurd (
              other_table i' j' (present_before i' j' ne h)
                (sym (table_before i' j' ne) ∙ e ∙ table_now i'' j'' e3 e4))
          | inr ne' ↦
              w.apart i' j' i'' j'' (present_before i' j' ne h) (present_before i'' j'' ne' h')
                (sym (table_before i' j' ne) ∙ e ∙ table_before i'' j'' ne')
        ]
      ];
    }
