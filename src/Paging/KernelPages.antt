-- ===== src/Paging/KernelPages.antt =====
-- page_kernel_alloc4k of mem/paging.c: its first search, over the tables already in use. Page `k` of
-- the kernel heap is entry `k % 512` of table `k / 512`.
use kernel_old.Base.{
  subst, ℕ, zero, suc, ◌+◌, ◌*◌, ◌/◌, ◌%◌, ◌≤◌, ◌<◌, ◌≡◌, refl, inl, inr, Bool, true, false, not,
  ◌&&◌, ◌||◌, some, arith, ltb, leb, ◌==◌, if◌then◌else◌, leb→le, ==_iff, Bool-cases,
}
use kernel_old.Paging.{
  Run, Scan, found, going, is_present, is_2m, scan_table, scan_dirs, mark_run, update₂,
}

same_run : (a b : Run) → some a ≡ some b → a ≡ b
same_run a b e = cc

module _ (dir : ℕ → ℕ) (kt : ℕ → ℕ → ℕ) where
  -- Page `k` can be handed out: its directory is in use for a table, and its entry is not present.
  abbrev pub Free : ℕ → Type 0
  Free k =
      (is_present (dir (k / 512)) ≡ true)
      × (is_2m (dir (k / 512)) ≡ false)
      × (is_present (kt (k / 512) (k % 512)) ≡ false)

  abbrev pub start : Run → ℕ
  start r = r.pdoff * 512 + r.offset

  -- The run counted so far ends just before page `n`, and its pages are free.
  pub record Counted (n : ℕ) (r : Run) : Type 0 where
    pub ends : start r + r.counter ≡ n
    pub offset : r.offset ≤ 512
    pub free : (k : ℕ) → start r ≤ k → k < n → Free k

  -- The run found: `cnt` free pages of the 2 ^ 18 there are.
  abbrev pub Found : ℕ → Run → Type 0
  Found cnt r =
      (r.counter ≡ cnt)
      × (start r + cnt ≤ 512 * 512)
      × (r.offset ≤ 512)
      × ((k : ℕ) → start r ≤ k → k < start r + cnt → Free k)

  abbrev pub ScanOk : ℕ → ℕ → Scan → Type 0
  ScanOk cnt n (found r) = Found cnt r
  ScanOk cnt n (going r) = Counted n r × (r.counter < cnt)

  module _ (cnt i : ℕ) (pos : 0 < cnt) (small : i < 512) (here : is_present (dir i) ≡ true)
      (table : is_2m (dir i) ≡ false) where
    Free-page : (j : ℕ) → j < 512 → is_present (kt i j) ≡ false → Free (i * 512 + j)
    Free-page j h e =
        let q : (i * 512 + j) / 512 ≡ i = omega arith in
        let m : (i * 512 + j) % 512 ≡ j = omega arith in rw (q, m) (here, table, e)

    Counted-next :
        (j : ℕ) (r : Run)
        → j < 512
        → is_present (kt i j) ≡ false
        → Counted (i * 512 + j) r
        → Counted (i * 512 + (j + 1)) (record r { counter = r.counter + 1 })
    Counted-next j r h e c = record {
      ends = omega (arith, c.ends);
      offset = c.offset;
      free = λ k lo hi. elim (Bool-cases (k == i * 512 + j)) [
        | inl same ↦ rw ((==_iff k (i * 512 + j)).0 same) (Free-page j h e)
        | inr other ↦ c.free k lo (ground arith)
      ];
    }

    scan_table-ScanOk :
        (j rounds : ℕ) (r : Run)
        → j + rounds ≡ 512
        → Counted (i * 512 + j) r
        → r.counter < cnt
        → ScanOk cnt (i * 512 + 512) (scan_table kt cnt i j rounds r)
    unfolding scan_table
    scan_table-ScanOk j zero r h c le = (subst (λ t. Counted (i * 512 + t) r) (omega arith) c, le)
    scan_table-ScanOk j (suc n) r h c le = elim (Bool-cases (is_present (kt i j))) [
      | inl used ↦ rw used (
          scan_table-ScanOk (j + 1) n (record { pdoff = i; offset = j + 1; counter = 0 })
            (omega arith)
            (record {
              ends = omega arith;
              offset = omega arith;
              free = λ k lo hi. absurd (omega arith);
            })
            pos)
      | inr unused ↦
          let c' = Counted-next j r (omega arith) unused c in
          rw unused (elim (Bool-cases (leb cnt (r.counter + 1))) [
            | inl enough ↦ rw enough (
                let le' : cnt ≤ r.counter + 1 = leb→le cnt (r.counter + 1) enough in
                (
                  omega arith,
                  omega (arith, c'.ends),
                  c.offset,
                  λ k lo hi. c'.free k lo (omega (arith, c'.ends)),
                ))
            | inr more ↦ rw more (
                scan_table-ScanOk (j + 1) n (record r { counter = r.counter + 1 }) (omega arith) c'
                  (ground arith))
          ])
    ]

  pub scan_dirs-Found :
      (cnt i rounds : ℕ) (r r' : Run)
      → 0 < cnt
      → i + rounds ≡ 512
      → Counted (i * 512) r
      → r.counter < cnt
      → scan_dirs dir kt cnt i rounds r ≡ some r'
      → Found cnt r'
  unfolding scan_dirs
  scan_dirs-Found cnt i zero r r' pos h c le e = cc
  scan_dirs-Found cnt i (suc n) r r' pos h c le e =
      let fresh : Run = record { pdoff = i + 1; offset = 0; counter = 0 } in
      let fresh-Counted : Counted ((i + 1) * 512) fresh = record {
        ends = omega arith;
        offset = omega arith;
        free = λ k lo hi. absurd (omega arith);
      } in
      elim (Bool-cases (not (is_present (dir i)) || is_2m (dir i))) [
        | inl no_table ↦
            scan_dirs-Found cnt (i + 1) n fresh r' pos (omega arith) fresh-Counted pos
              (rw no_table at e)
        | inr table ↦
            after (scan_table kt cnt i 0 512 r)
              (scan_table-ScanOk cnt i pos (omega arith) (ground arith) (ground arith) 0 512 r refl
                (subst (λ t. Counted t r) (omega arith) c) le)
              (λ q c' le'.
                scan_dirs-Found cnt (i + 1) n q r' pos (omega arith)
                  (subst (λ t. Counted t q) (omega arith) c') le')
              (rw table at e)
      ]
    where
      after :
          (s : Scan)
          → ScanOk cnt (i * 512 + 512) s
          → ((q : Run)
              → Counted (i * 512 + 512) q
              → q.counter < cnt
              → scan_dirs dir kt cnt (i + 1) n q ≡ some r'
              → Found cnt r')
          → (elim s [ found q ↦ some q | going q ↦ scan_dirs dir kt cnt (i + 1) n q ]) ≡ some r'
          → Found cnt r'
      after (found q) ok next e = subst (Found cnt) (same_run q r' e) ok
      after (going q) ok next e = next q ok.0 ok.1 e

-- Is page `k` one of the `n` from page `s`?
abbrev pub in_run : (s n k : ℕ) → Bool
in_run s n k = leb s k && ltb k (s + n)

pub mark_run_lem :
    (n pd off : ℕ) (kt : ℕ → ℕ → ℕ) (i j : ℕ)
    → off ≤ 512
    → j < 512
    → mark_run n pd off kt i j ≡ (if in_run (pd * 512 + off) n (i * 512 + j) then 3 else kt i j)
unfolding mark_run
mark_run_lem zero pd off kt i j h hj = ground arith
mark_run_lem (suc n) pd off kt i j h hj = elim (Bool-cases (leb 512 off)) [
  | inl full ↦
      rw full
        (ground (arith, mark_run_lem n (pd + 1) 1 (update₂ kt (pd + 1) 0 3) i j (omega arith) hj))
  | inr room ↦ rw room (ground (arith, mark_run_lem n pd (off + 1) (update₂ kt pd off 3) i j))
]
