-- ===== src/Paging/KernelAlloc.antt =====
-- page_kernel_alloc4k of mem/paging.c: its second search, over unused directories, and the whole.
use kernel_old.Base.{
  subst, ==_false, ℕ, zero, suc, ◌+◌, ◌*◌, ◌/◌, ◌%◌, ◌≤◌, ◌<◌, ◌≡◌, refl, sym, ap, ◌∙◌, ◌≢◌, ◌⊎◌,
  inl, inr, true, false, ◌&&◌, Option, none, some, arith, leb, ◌==◌, if◌then◌else◌, leb→le, ==_iff,
  Bool-cases,
}
use kernel_old.Paging.{
  Run, Kernel, is_present, scan_dirs, scan_unused, mark_run, mark_unused, use_dir, heap_address,
  page_kernel_alloc4k, update₂,
}
use kernel_old.Paging.KernelPages.{Found, Counted, scan_dirs-Found, in_run, mark_run_lem}

same_pair :
    (a b : ℕ) (k k' : Kernel)
    → ◌≡◌ {A = Option (ℕ × Kernel)} (some (a, k)) (some (b, k'))
    → (a ≡ b) × (k ≡ k')
same_pair a b k k' e = (cc, cc)

same_dir : (a b : ℕ) → some a ≡ some b → a ≡ b
same_dir a b e = cc

module _ (dir : ℕ → ℕ) where
  -- The directories from `pd` on that `cnt` pages reach are below 512 and unused.
  abbrev Unused : ℕ → ℕ → Type 0
  Unused cnt pd =
      (pd * 512 + cnt ≤ 512 * 512)
      × ((d : ℕ) → pd ≤ d → d * 512 < pd * 512 + cnt → is_present (dir d) ≡ false)

  scan_unused-Unused :
      (cnt i rounds pd counter pd' : ℕ)
      → i + rounds ≡ 512
      → pd * 512 + counter ≡ i * 512
      → ((d : ℕ) → pd ≤ d → d < i → is_present (dir d) ≡ false)
      → scan_unused dir cnt i rounds pd counter ≡ some pd'
      → Unused cnt pd'
  unfolding scan_unused
  scan_unused-Unused cnt i zero pd counter pd' h c u e = cc
  scan_unused-Unused cnt i (suc n) pd counter pd' h c u e = elim (Bool-cases (is_present (dir i))) [
    | inl used ↦
        scan_unused-Unused cnt (i + 1) n (i + 1) 0 pd' (omega arith) (omega arith)
          (λ d lo hi. absurd (omega arith)) (rw used at e)
    | inr unused ↦
        let u' : (d : ℕ) → pd ≤ d → d < i + 1 → is_present (dir d) ≡ false = λ d lo hi.
          elim (Bool-cases (d == i)) [
            | inl same ↦ rw ((==_iff d i).0 same) unused
            | inr other ↦ u d lo (ground arith)
          ] in
        elim (Bool-cases (leb cnt (counter + 512))) [
          | inl enough ↦
              let same : pd ≡ pd' = same_dir pd pd' (rw (unused, enough) at e) in
              let le : cnt ≤ counter + 512 = leb→le cnt (counter + 512) enough in
              rw (← same) (omega arith, λ d lo hi. u' d lo (omega arith))
          | inr more ↦
              scan_unused-Unused cnt (i + 1) n pd (counter + 512) pd' (omega arith) (omega arith) u'
                (rw (unused, more) at e)
        ]
  ]

-- After the second loop: the tables are marked as by the first, each directory that the run enters
-- is present, those that were present are, and no other changes.
record Entered (n pd off : ℕ) (dir : ℕ → ℕ) (kt : ℕ → ℕ → ℕ) (out : (ℕ → ℕ) × (ℕ → ℕ → ℕ))
    : Type 0 where
  marked : out.1 ≡ mark_run n pd off kt
  kept : (d : ℕ) → is_present (dir d) ≡ true → is_present (out.0 d) ≡ true
  entered : (d : ℕ) → pd < d → d * 512 < pd * 512 + off + n → is_present (out.0 d) ≡ true
  others : (d : ℕ) → d ≤ pd → out.0 d ≡ dir d
  beyond : (d : ℕ) → pd * 512 + off + n ≤ d * 512 → out.0 d ≡ dir d

module _ (table_phys : ℕ → ℕ) where
  use_dir_present :
      (dir : ℕ → ℕ) (i d : ℕ)
      → (is_present (dir d) ≡ true) ⊎ (d ≡ i)
      → is_present (use_dir table_phys dir i d) ≡ true
  use_dir_present dir i d h = elim (Bool-cases (d == i)) [
    | inl same ↦ rw same ((==_iff _ 1).1 (omega arith))
    | inr other ↦ rw other (ground arith)
  ]

  use_dir_other : (dir : ℕ → ℕ) (i d : ℕ) → d ≢ i → use_dir table_phys dir i d ≡ dir d
  use_dir_other dir i d h = rw (==_false d i h)

  mark_unused-Entered :
      (n pd off : ℕ) (dir : ℕ → ℕ) (kt : ℕ → ℕ → ℕ)
      → off ≤ 512
      → Entered n pd off dir kt (mark_unused table_phys n pd off dir kt)
  unfolding mark_unused mark_run
  mark_unused-Entered zero pd off dir kt h = record {
    marked = refl;
    kept = λ d p. p;
    entered = λ d lo hi. absurd (omega arith);
    others = λ d le. refl;
    beyond = λ d le. refl;
  }
  mark_unused-Entered (suc n) pd off dir kt h = elim (Bool-cases (leb 512 off)) [
    | inl full ↦
        let rest =
          mark_unused-Entered n (pd + 1) 1 (use_dir table_phys dir (pd + 1))
            (update₂ kt (pd + 1) 0 3) (omega arith) in
        let le : 512 ≤ off = leb→le 512 off full in
        rw full (record {
          marked = rw full rest.marked;
          kept = λ d p. rest.kept d (use_dir_present dir (pd + 1) d (inl p));
          entered = λ d lo hi. elim (Bool-cases (d == pd + 1)) [
            | inl same ↦
                rest.kept d (use_dir_present dir (pd + 1) d (inr ((==_iff d (pd + 1)).0 same)))
            | inr other ↦ rest.entered d (ground arith) (omega arith)
          ];
          others =
              λ d le'. rest.others d (omega arith) ∙ use_dir_other dir (pd + 1) d (omega arith);
          beyond =
              λ d le'. rest.beyond d (omega arith) ∙ use_dir_other dir (pd + 1) d (omega arith);
        })
    | inr room ↦
        let rest = mark_unused-Entered n pd (off + 1) dir (update₂ kt pd off 3) (ground arith) in
        rw room (record {
          marked = rw room rest.marked;
          kept = rest.kept;
          entered = λ d lo hi. rest.entered d lo (omega arith);
          others = rest.others;
          beyond = λ d le'. rest.beyond d (omega arith);
        })
  ]

  -- What a successful call hands out: `cnt` pages from page `s` that were not in use, now marked, in
  -- directories that are now present; no other page changes, and directories in use stay so.
  pub record Allocated (cnt : ℕ) (k : Kernel) (s : ℕ) (k' : Kernel) : Type 0 where
    pub inside : s + cnt ≤ 512 * 512
    pub unused :
        (p : ℕ)
        → s ≤ p
        → p < s + cnt
        → (is_present (k.kheapdir (p / 512)) && is_present (k.kheap_tables (p / 512) (p % 512)))
          ≡ false
    pub present : (p : ℕ) → s ≤ p → p < s + cnt → is_present (k'.kheapdir (p / 512)) ≡ true
    pub tables :
        (i j : ℕ)
        → j < 512
        → k'.kheap_tables i j ≡ (if in_run s cnt (i * 512 + j) then 3 else k.kheap_tables i j)
    pub dirs : (d : ℕ) → is_present (k.kheapdir d) ≡ true → is_present (k'.kheapdir d) ≡ true

  Allocated-first :
      (cnt : ℕ) (k : Kernel) (r : Run)
      → Found k.kheapdir k.kheap_tables cnt r
      → Allocated cnt k
          (r.pdoff * 512 + r.offset)
          (record k { kheap_tables = mark_run r.counter r.pdoff r.offset k.kheap_tables })
  Allocated-first cnt k r (n, room, off, free) = record {
    inside = room;
    unused = λ p lo hi. let (_, _, f) = free p lo hi in ground arith;
    present = λ p lo hi. (free p lo hi).0;
    tables = λ i j h. rw n (mark_run_lem cnt r.pdoff r.offset k.kheap_tables i j off h);
    dirs = λ d p. p;
  }

  Allocated-second :
      (cnt : ℕ) (k : Kernel) (pd : ℕ) (out : (ℕ → ℕ) × (ℕ → ℕ → ℕ))
      → Unused k.kheapdir cnt pd
      → Entered cnt pd 0 (use_dir table_phys k.kheapdir pd) k.kheap_tables out
      → Allocated cnt k (pd * 512 + 0) (record k { kheapdir = out.0; kheap_tables = out.1 })
  Allocated-second cnt k pd out (room, free) e = record {
    inside = omega arith;
    unused = λ p lo hi. let f = free (p / 512) (omega arith) (omega arith) in ground arith;
    present = λ p lo hi. elim (Bool-cases (p / 512 == pd)) [
      | inl same ↦
          let here : p / 512 ≡ pd = (==_iff (p / 512) pd).0 same in
          rw (e.others (p / 512) (omega arith)) (use_dir_present k.kheapdir pd (p / 512) (inr here))
      | inr other ↦ e.entered (p / 512) (ground arith) (omega arith)
    ];
    tables = λ i j h.
        ap (λ (t : ℕ → ℕ → ℕ). t i j) e.marked
        ∙ mark_run_lem cnt pd 0 k.kheap_tables i j (omega arith) h;
    dirs = λ d p. e.kept d (use_dir_present k.kheapdir pd d (inl p));
  }

  abbrev no_run : Run
  no_run = record { pdoff = 0; offset = 0; counter = 0 }

  no_run-Counted : (dir : ℕ → ℕ) (kt : ℕ → ℕ → ℕ) → Counted dir kt (0 * 512) no_run
  no_run-Counted dir kt = record {
    ends = omega arith;
    offset = omega arith;
    free = λ k lo hi. absurd (omega arith);
  }

  -- A call of `page_kernel_alloc4k` for one page or more that succeeds, by either of its searches,
  -- returns the heap address of the first of that many pages in a row: they lie in the heap, none of
  -- them was in use, they are now present and writable in directories that are now present; no other
  -- page changes, and no directory that was present is lost.
  pub page_kernel_alloc4k-Allocated :
      (cnt addr : ℕ) (k k' : Kernel)
      → 0 < cnt
      → page_kernel_alloc4k table_phys cnt k ≡ some (addr, k')
      → (pdoff offset : ℕ) × (addr ≡ heap_address pdoff offset)
        × Allocated cnt k (pdoff * 512 + offset) k'
  unfolding page_kernel_alloc4k
  page_kernel_alloc4k-Allocated cnt addr k k' pos e =
      go (scan_dirs k.kheapdir k.kheap_tables cnt 0 512 no_run) refl
    where
      second :
          (o : Option ℕ)
          → scan_unused k.kheapdir cnt 0 512 0 0 ≡ o
          → scan_dirs k.kheapdir k.kheap_tables cnt 0 512 no_run ≡ none
          → (pdoff offset : ℕ) × (addr ≡ heap_address pdoff offset)
            × Allocated cnt k (pdoff * 512 + offset) k'
      second none e'' e' = cc (rw (e', page_kernel_alloc4k, e'') at e)
      second (some pd) e'' e' =
          let out =
            mark_unused table_phys cnt pd 0 (use_dir table_phys k.kheapdir pd) k.kheap_tables in
          let (same, same') =
            same_pair (heap_address pd 0) addr _ k' (rw (e', page_kernel_alloc4k, e'') at e) in
          (
            pd,
            0,
            sym same,
            subst (Allocated cnt k (pd * 512 + 0)) same' (
                Allocated-second cnt k pd out
                  (scan_unused-Unused k.kheapdir cnt 0 512 0 0 pd (omega arith) (omega arith)
                    (λ d lo hi. absurd (omega arith)) e'')
                  (mark_unused-Entered cnt pd 0 (use_dir table_phys k.kheapdir pd) k.kheap_tables
                    (omega arith))),
          )

      go :
          (o : Option Run)
          → scan_dirs k.kheapdir k.kheap_tables cnt 0 512 no_run ≡ o
          → (pdoff offset : ℕ) × (addr ≡ heap_address pdoff offset)
            × Allocated cnt k (pdoff * 512 + offset) k'
      go none e' = second (scan_unused k.kheapdir cnt 0 512 0 0) refl e'
      go (some r) e' =
          let (same, same') =
            same_pair (heap_address r.pdoff r.offset) addr _ k'
              (rw (e', page_kernel_alloc4k) at e) in
          (
            r.pdoff,
            r.offset,
            sym same,
            subst (Allocated cnt k (r.pdoff * 512 + r.offset)) same' (
                Allocated-first cnt k r (
                  scan_dirs-Found k.kheapdir k.kheap_tables cnt 0 512 no_run r pos (omega arith)
                    (no_run-Counted k.kheapdir k.kheap_tables) pos e')),
          )
