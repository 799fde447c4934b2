-- ===== src/Paging/UserMap.antt =====
-- The user half of a page map in mem/paging.c: page_mk_table, page_map_memory and page_getphys.
use kernel_old.Base.{
  subst, ==_false, update_self, ℕ, zero, suc, ◌+◌, ◌/◌, ◌%◌, ◌^◌, ◌<◌, ◌≡◌, refl, sym, ap, ◌∙◌, ◌≢◌,
  inl, inr, true, false, not, ◌||◌, Option, none, some, arith, ◌==◌, if◌then◌else◌, ==_iff,
  Bool-cases, update,
}
use kernel_old.Pmm.{pmm_request}
use kernel_old.Paging.{
  Kernel, page_size_4k, pml4_idx, pdp_idx, pd_idx, pt_idx, frame_of, is_present, set_page_frame,
  or_user, update₂, heap_address, page_kernel_alloc4k, page_kernel_map_memory,
}
use kernel_old.Paging.KernelAlloc.{page_kernel_alloc4k-Allocated}

-- The fields of `page_map_t` that these functions use: the directories, and the kernel addresses of
-- the page tables, 0 where there is none.
pub record PageMap : Type 0 where
  pub page_dirs : ℕ → ℕ → ℕ
  pub page_tables : ℕ → ℕ → ℕ

-- A page table is in use for each present directory entry.
pub record IsMap (m : PageMap) : Type 0 where
  pub backed : (i j : ℕ) → is_present (m.page_dirs i j) ≡ true → m.page_tables i j ≢ 0

update₂_ne : (t : ℕ → ℕ → ℕ) (i j v i' j' : ℕ) → (i ≡ i' → j ≢ j') → update₂ t i j v i' j' ≡ t i' j'
update₂_ne t i j v i' j' d = ground arith

-- Two pages in one table have different entries.
pub other_page :
    (virt virt' : ℕ)
    → virt < 2 ^ 39
    → virt' < 2 ^ 39
    → virt / 2 ^ 12 ≢ virt' / 2 ^ 12
    → (t t' : ℕ) → (t ≡ t' → (pdp_idx virt ≡ pdp_idx virt') × (pd_idx virt ≡ pd_idx virt'))
    → t ≡ t'
    → pt_idx virt ≢ pt_idx virt'
other_page virt virt' h h' d t t' distinct e e' =
    let (a, b) = distinct e in absurd (d (omega arith))

pub same_states : (s s' : PageMap × Kernel) → some s ≡ some s' → s ≡ s'
same_states (m, k) (m', k') e = cc

-- `|= PAGE_PRESENT | PAGE_WRITABLE | PAGE_USER` on the entry whose frame has been set.
abbrev pub set_entry : ℕ → ℕ → PageMap × Kernel → PageMap × Kernel
set_entry virt phys (m, k) =
    let table : ℕ = m.page_tables (pdp_idx virt) (pd_idx virt) in
    (
      m,
      record k {
        tables =
            update₂ k.tables table (pt_idx virt)
              (or_user (set_page_frame (k.tables table (pt_idx virt)) phys));
      },
    )

-- An address of the kernel's half has no entry here, and reads as 0.
unfoldable pub page_getphys : ℕ → PageMap × Kernel → ℕ
page_getphys virt (m, k) =
    if pml4_idx virt == 0
    then (if not (is_present (m.page_dirs (pdp_idx virt) (pd_idx virt)))
          || (m.page_tables (pdp_idx virt) (pd_idx virt) == 0)
        then 0
        else frame_of (k.tables (m.page_tables (pdp_idx virt) (pd_idx virt)) (pt_idx virt)))
    else 0

entry_frame : (page addr : ℕ) → frame_of (or_user (set_page_frame page addr)) ≡ frame_of addr
unfolding set_page_frame
entry_frame page addr = omega arith

pub entry_present : (page addr : ℕ) → is_present (or_user (set_page_frame page addr)) ≡ true
entry_present page addr = (==_iff _ 1).1 (omega arith)

pub getphys-set_entry :
    (virt phys : ℕ) (m : PageMap) (k : Kernel)
    → virt < 2 ^ 39
    → IsMap m
    → is_present (m.page_dirs (pdp_idx virt) (pd_idx virt)) ≡ true
    → page_getphys virt (set_entry virt phys (m, k)) ≡ frame_of phys
unfolding page_getphys
getphys-set_entry virt phys m k h w p =
    let t : ℕ = m.page_tables (pdp_idx virt) (pd_idx virt) in
    let z : (t == 0) ≡ false = ==_false t 0 (w.backed (pdp_idx virt) (pd_idx virt) p) in
    let u : (pml4_idx virt == 0) ≡ true = (==_iff (pml4_idx virt) 0).1 (omega arith) in
    rw (u, p, z, update_self k.tables t, update_self (k.tables t) (pt_idx virt))
      (entry_frame (k.tables t (pt_idx virt)) phys)

-- Setting the entry of one user page leaves the lookup of every other user page as it was, where
-- different entries have different tables.
pub page_getphys-set_entry_ne :
    (virt virt' phys : ℕ) (m : PageMap) (k : Kernel)
    → virt < 2 ^ 39
    → virt' < 2 ^ 39
    → virt / 2 ^ 12 ≢ virt' / 2 ^ 12
    → (m.page_tables (pdp_idx virt) (pd_idx virt) ≡ m.page_tables (pdp_idx virt') (pd_idx virt')
        → (pdp_idx virt ≡ pdp_idx virt') × (pd_idx virt ≡ pd_idx virt'))
    → page_getphys virt' (set_entry virt phys (m, k)) ≡ page_getphys virt' (m, k)
unfolding page_getphys
page_getphys-set_entry_ne virt virt' phys m k h h' d distinct =
    let t : ℕ = m.page_tables (pdp_idx virt) (pd_idx virt) in
    let t' : ℕ = m.page_tables (pdp_idx virt') (pd_idx virt') in
    let v : ℕ = or_user (set_page_frame (k.tables t (pt_idx virt)) phys) in
    ap
      (λ x.
        if pml4_idx virt' == 0
        then (if not (is_present (m.page_dirs (pdp_idx virt') (pd_idx virt'))) || (t' == 0)
            then 0
            else frame_of x)
        else 0)
      (update₂_ne k.tables t (pt_idx virt) v t' (pt_idx virt')
        (other_page virt virt' h h' d t t' distinct))

module _ (table_phys : ℕ → ℕ) where
  -- `none`: the kernel heap has no page left, and `page_kernel_alloc4k` returns no value; or
  -- `pmm_request` returns NULL, and the table would share frame 0 with others.
  unfoldable pub page_mk_table : ℕ → ℕ → PageMap × Kernel → Option (PageMap × Kernel)
  page_mk_table pdpidx pdidx (m, k) = elim (page_kernel_alloc4k table_phys 1 k) [
    | none ↦ none
    | some (table, k') ↦
        let (phys, pmm) = pmm_request k'.pmm in
        if phys == 0
        then none
        else some (
          record {
            page_dirs =
                update₂ m.page_dirs pdpidx pdidx
                  (or_user (set_page_frame (m.page_dirs pdpidx pdidx) phys));
            page_tables = update₂ m.page_tables pdpidx pdidx table;
          },
          record k' {
            pmm = pmm;
            kheap_tables = page_kernel_map_memory table phys 1 k'.kheap_tables;
            tables = update k'.tables table (λ _. 0);
          },
        )
  ]

  unfoldable pub ensure_table : ℕ → ℕ → PageMap × Kernel → Option (PageMap × Kernel)
  ensure_table pdpidx pdidx (m, k) =
      if is_present (m.page_dirs pdpidx pdidx)
      then some (m, k)
      else page_mk_table pdpidx pdidx (m, k)

  unfoldable pub page_map_memory :
      (virt phys cnt : ℕ) → PageMap × Kernel → Option (PageMap × Kernel)
  page_map_memory virt phys zero s = some s
  page_map_memory virt phys (suc cnt) s = elim (ensure_table (pdp_idx virt) (pd_idx virt) s) [
    | none ↦ none
    | some s' ↦
        page_map_memory ((virt + page_size_4k) % 2 ^ 64) ((phys + page_size_4k) % 2 ^ 64) cnt
          (set_entry virt phys s')
  ]

  heap_address_ne_zero : (i j : ℕ) → heap_address i j ≢ 0
  unfolding heap_address
  heap_address_ne_zero i j = omega arith

  unfoldable pub with_table : PageMap → ℕ → ℕ → ℕ → ℕ → PageMap
  with_table m i j phys table = record {
    page_dirs = update₂ m.page_dirs i j (or_user (set_page_frame (m.page_dirs i j) phys));
    page_tables = update₂ m.page_tables i j table;
  }

  with_table_lem :
      (m : PageMap) (i j phys table : ℕ)
      → table ≢ 0
      → IsMap m
      → IsMap (with_table m i j phys table)
        × (is_present ((with_table m i j phys table).page_dirs i j) ≡ true)
  unfolding with_table
  with_table_lem m i j phys table ne w = (
    record {
      backed = λ i' j' p. ground (arith, w.backed i' j', entry_present (m.page_dirs i j) phys);
    },
    rw (update_self m.page_dirs i, update_self (m.page_dirs i) j)
        (entry_present (m.page_dirs i j) phys),
  )

  same_state : (s s' : PageMap × Kernel) → some s ≡ some s' → s.0 ≡ s'.0
  same_state (m, k) (m', k') e = cc

  -- What a table that has been made or found gives: its entry is present, and a table backs each
  -- present entry.
  mk_table_lem :
      (i j : ℕ) (m m' : PageMap) (k k' : Kernel)
      → IsMap m
      → page_mk_table i j (m, k) ≡ some (m', k')
      → IsMap m' × (is_present (m'.page_dirs i j) ≡ true)
  unfolding page_mk_table with_table
  mk_table_lem i j m m' k k' w e = go (page_kernel_alloc4k table_phys 1 k) refl
    where
      go :
          (o : Option (ℕ × Kernel))
          → page_kernel_alloc4k table_phys 1 k ≡ o
          → IsMap m' × (is_present (m'.page_dirs i j) ≡ true)
      go none e' = cc (rw (e', page_mk_table) at e)
      go (some (t, k1)) e' =
          let (pd, off, at, _) =
            page_kernel_alloc4k-Allocated table_phys 1 t k k1 (omega arith) e' in
          let phys : ℕ = (pmm_request k1.pmm).0 in
          elim (Bool-cases (phys == 0)) [
            | inl null ↦ cc (rw (e', page_mk_table, null) at e)
            | inr frame ↦
                subst (λ n. IsMap n × (is_present (n.page_dirs i j) ≡ true))
                  (same_state (with_table m i j phys t, _) (m', k')
                    (rw (e', page_mk_table, frame) at e))
                  (with_table_lem m i j phys t (λ z. heap_address_ne_zero pd off (sym at ∙ z)) w)
          ]

  ensured :
      (i j : ℕ) (m m' : PageMap) (k k' : Kernel)
      → IsMap m
      → ensure_table i j (m, k) ≡ some (m', k')
      → IsMap m' × (is_present (m'.page_dirs i j) ≡ true)
  unfolding ensure_table
  ensured i j m m' k k' w e = elim (Bool-cases (is_present (m.page_dirs i j))) [
    | inl p ↦
        subst (λ n. IsMap n × (is_present (n.page_dirs i j) ≡ true))
          (same_state (m, k) (m', k') (rw (p, ensure_table) at e)) (w, p)
    | inr n ↦ mk_table_lem i j m m' k k' w (rw (n, ensure_table) at e)
  ]

  -- In a map where a table backs each present entry, mapping one page below `2 ^ 39`, where that
  -- succeeds, and looking it up returns the frame mapped, whether the table was there or had to be
  -- made, and the map still has a table behind each present entry.
  pub page_getphys-page_map_memory :
      (virt phys : ℕ) (m m' : PageMap) (k k' : Kernel)
      → virt < 2 ^ 39
      → IsMap m
      → page_map_memory virt phys 1 (m, k) ≡ some (m', k')
      → (page_getphys virt (m', k') ≡ frame_of phys) × IsMap m'
  unfolding page_map_memory
  page_getphys-page_map_memory virt phys m m' k k' h w e =
      go (ensure_table (pdp_idx virt) (pd_idx virt) (m, k)) refl
    where
      go :
          (o : Option (PageMap × Kernel))
          → ensure_table (pdp_idx virt) (pd_idx virt) (m, k) ≡ o
          → (page_getphys virt (m', k') ≡ frame_of phys) × IsMap m'
      go none e' = cc (rw (e', page_map_memory) at e)
      go (some (m1, k1)) e' =
          let (w', p) = ensured (pdp_idx virt) (pd_idx virt) m m1 k k1 w e' in
          subst (λ (s : PageMap × Kernel). (page_getphys virt s ≡ frame_of phys) × IsMap s.0)
            (same_states (set_entry virt phys (m1, k1)) (m', k') (rw (e', page_map_memory) at e))
            (getphys-set_entry virt phys m1 k1 h w' p, w')
