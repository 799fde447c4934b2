-- ===== src/Paging/HeapRoom.antt =====
-- When the kernel heap has pages left: the second search of mem/paging.c `page_kernel_alloc4k`.
use kernel_old.Base.{
  ℕ, zero, suc, ◌+◌, ◌≤◌, ◌<◌, ◌≡◌, refl, sym, subst, ◌∙◌, ◌≢◌, inl, inr, true, false, some, arith,
  leb, ◌==◌, ==_iff, Bool-cases, Option-cases,
}
use kernel_old.Paging.{Kernel, is_present, scan_dirs, scan_unused, page_kernel_alloc4k}

true_ne_false : true ≢ false
true_ne_false e = cc

past_used :
    (dir : ℕ → ℕ) (i d : ℕ)
    → i ≤ d
    → is_present (dir i) ≡ true
    → is_present (dir d) ≡ false
    → i + 1 ≤ d
past_used dir i d le used free = elim (Bool-cases (i == d)) [
  | inl same ↦
      let used' : is_present (dir d) ≡ true =
        subst (λ j. is_present (dir j) ≡ true) ((==_iff i d).0 same) used in
      absurd (true_ne_false (sym used' ∙ free))
  | inr other ↦ ground (arith, le, other)
]

few_enough : (cnt counter : ℕ) → cnt ≤ 512 → leb cnt (counter + 512) ≡ true
few_enough cnt counter few = ground (arith, few)

-- A directory that is not in use has room for 512 pages.
scan_unused-room :
    (dir : ℕ → ℕ) (cnt i rounds pdoff counter d : ℕ)
    → cnt ≤ 512
    → i ≤ d
    → d < i + rounds
    → is_present (dir d) ≡ false
    → (pd : ℕ) × (scan_unused dir cnt i rounds pdoff counter ≡ some pd)
unfolding scan_unused
scan_unused-room dir cnt i zero pdoff counter d few lo hi free = absurd (omega (arith, lo, hi))
scan_unused-room dir cnt i (suc n) pdoff counter d few lo hi free =
    elim (Bool-cases (is_present (dir i))) [
      | inl used ↦
          rw (used, scan_unused)
            (scan_unused-room dir cnt (i + 1) n (i + 1) 0 d few (past_used dir i d lo used free)
              (omega (arith, hi)) free)
      | inr unused ↦ rw (unused, few_enough cnt counter few, scan_unused) (pdoff, refl)
    ]

module _ (table_phys : ℕ → ℕ) where
  -- While a directory of the kernel heap is not in use, `page_kernel_alloc4k` succeeds for up to 512
  -- pages.
  pub page_kernel_alloc4k-room :
      (cnt d : ℕ) (k : Kernel)
      → cnt ≤ 512
      → d < 512
      → is_present (k.kheapdir d) ≡ false
      → (addr : ℕ) × ((k' : Kernel) × (page_kernel_alloc4k table_phys cnt k ≡ some (addr, k')))
  unfolding page_kernel_alloc4k
  page_kernel_alloc4k-room cnt d k few lt free =
      let (pd, room) =
        scan_unused-room k.kheapdir cnt 0 512 0 0 d few (omega arith) (omega (arith, lt)) free in
      elim (Option-cases (
        scan_dirs k.kheapdir k.kheap_tables cnt 0 512
          (record { pdoff = 0; offset = 0; counter = 0 }))) [
            | inl nothing ↦ rw (nothing, page_kernel_alloc4k, room) (_, (_, refl))
            | inr (r, hit) ↦ rw (hit, page_kernel_alloc4k) (_, (_, refl))
          ]
