-- ===== src/Elf/Requests.antt =====
-- The frames that loading takes: what mem/pmm.c `pmm_request` and mem/paging.c `page_map_memory` do
-- to the frames that are in use.
use kernel_old.Base.{
  ℕ, zero, suc, ◌+◌, ◌*◌, ◌/◌, ◌%◌, ◌^◌, ◌<◌, ◌≡◌, refl, sym, subst, ◌∙◌, inl, inr, true, false,
  ◌==◌, some, arith, Bool-cases, Option-cases,
}
use kernel_old.Pmm.{
  Pmm, buffer_size, page_size_4k, bitmap_get, request_loop, pmm_alloc, pmm_request,
}
use kernel_old.Pmm.Bitmap.{IsValid, bitmap_set_size}
use kernel_old.Pmm.Request.{Requested, request-Requested}
use kernel_old.Paging.{
  Kernel, pdp_idx, pd_idx, is_present, page_kernel_alloc4k, scan_dirs, scan_unused,
}
use kernel_old.Paging.UserMap.{
  PageMap, page_mk_table, ensure_table, set_entry, page_map_memory, same_states,
}

-- Frames in use stay so, and the bitmap stays valid.
pub record Keeps (p p' : Pmm) : Type 0 where
  pub valid : IsValid p'
  pub size : p'.bitmapsize ≡ p.bitmapsize
  pub used : (j : ℕ) → bitmap_get p j ≡ true → bitmap_get p' j ≡ true

pub Keeps-refl : (p : Pmm) → IsValid p → Keeps p p
Keeps-refl p w = record { valid = w; size = refl; used = λ j h. h }

pub Keeps-trans : (p q r : Pmm) → Keeps p q → Keeps q r → Keeps p r
Keeps-trans p q r a b = record {
  valid = b.valid;
  size = b.size ∙ a.size;
  used = λ j h. b.used j (a.used j h);
}

-- A frame of the bitmap is free.
pub Room : Pmm → Type 0
Room p = (j : ℕ) × (j < p.bitmapsize * 8) × (bitmap_get p j ≡ false)

pub Room-Keeps : (p q : Pmm) → Keeps p q → Room q → Room p
unfolding Room
Room-Keeps p q a (j, lt, free) = (
  j,
  omega (arith, lt, a.size),
  elim (Bool-cases (bitmap_get p j)) [
    | inl h ↦ let used : bitmap_get q j ≡ true = a.used j h in cc
    | inr h ↦ h
  ],
)

request_loop-size : (p : Pmm) (i rounds : ℕ) → (request_loop p i rounds).1.bitmapsize ≡ p.bitmapsize
unfolding request_loop pmm_alloc
request_loop-size p i zero = refl
request_loop-size p i (suc n) = elim (Bool-cases (bitmap_get p i)) [
  | inl h ↦ rw (h, request_loop) (request_loop-size p (i + 1) n)
  | inr h ↦ rw (h, request_loop) (bitmap_set_size p (i * page_size_4k % 2 ^ 64 / page_size_4k) true)
]

-- The frame `f` has been taken.
pub record Taken (p : Pmm) (r : ℕ × Pmm) (f : ℕ) : Type 0 where
  pub result : r.0 ≡ f * page_size_4k
  pub small : f < buffer_size * 8
  pub free : bitmap_get p f ≡ false
  pub used : bitmap_get r.1 f ≡ true

Requested-Keeps :
    (p : Pmm) (hi : ℕ) (r : ℕ × Pmm)
    → IsValid p
    → r.1.bitmapsize ≡ p.bitmapsize
    → Requested p 0 hi r
    → Keeps p r.1
Requested-Keeps p hi (a, p') w size (inl (null, same, _)) =
    subst (Keeps p) (sym same) (Keeps-refl p w)
Requested-Keeps p hi (a, p') w size (inr (f, at, lo, up, free, before, after, w')) = record {
  valid = w';
  size = size;
  used = λ j h. after j ∙ ground (arith, h);
}

Requested-Taken :
    (p : Pmm) (r : ℕ × Pmm)
    → IsValid p
    → Requested p 0 (p.bitmapsize * 8) r
    → Room p
    → (f : ℕ) × Taken p r f
unfolding Room
Requested-Taken p (a, p') w (inl (null, same, full)) (j, lt, free) =
    let used : bitmap_get p j ≡ true = full j (omega arith) lt in cc
Requested-Taken p (a, p') w (inr (f, at, lo, up, free, before, after, w')) room = (
  f,
  record {
    result = at;
    small = omega (arith, up, w.size);
    free = free;
    used = after f ∙ ground arith;
  },
)

pub pmm_request-Keeps : (p : Pmm) → IsValid p → Keeps p (pmm_request p).1
unfolding pmm_request
pmm_request-Keeps p w =
    Requested-Keeps p (p.bitmapsize * 8) (pmm_request p) w
      (request_loop-size p 0 (p.bitmapsize * 8)) (request-Requested w)

pub pmm_request-Taken : (p : Pmm) → IsValid p → Room p → (f : ℕ) × Taken p (pmm_request p) f
pmm_request-Taken p w room = Requested-Taken p (pmm_request p) w (request-Requested w) room

module _ (table_phys : ℕ → ℕ) where
  pub pmm_kept :
      (cnt addr : ℕ) (k k' : Kernel)
      → page_kernel_alloc4k table_phys cnt k ≡ some (addr, k')
      → k'.pmm ≡ k.pmm
  unfolding page_kernel_alloc4k
  pmm_kept cnt addr k k' e =
      elim (Option-cases (
        scan_dirs k.kheapdir k.kheap_tables cnt 0 512
          (record { pdoff = 0; offset = 0; counter = 0 }))) [
            | inl nothing ↦ elim (Option-cases (scan_unused k.kheapdir cnt 0 512 0 0)) [
              | inl full ↦ cc (rw (nothing, page_kernel_alloc4k, full) at e)
              | inr (pd, hit) ↦ cc (rw (nothing, page_kernel_alloc4k, hit) at e)
            ]
            | inr (r, hit) ↦ cc (rw (hit, page_kernel_alloc4k) at e)
          ]

  ensure_table-Keeps :
      (i j : ℕ) (m : PageMap) (k : Kernel) (s : PageMap × Kernel)
      → IsValid k.pmm
      → ensure_table table_phys i j (m, k) ≡ some s
      → Keeps k.pmm s.1.pmm
  unfolding ensure_table page_mk_table
  ensure_table-Keeps i j m k s w e = elim (Bool-cases (is_present (m.page_dirs i j))) [
    | inl p ↦
        subst (λ (s : PageMap × Kernel). Keeps k.pmm s.1.pmm)
          (same_states (m, k) s (rw (p, ensure_table) at e)) (Keeps-refl k.pmm w)
    | inr absent ↦ elim (Option-cases (page_kernel_alloc4k table_phys 1 k)) [
      | inl full ↦ cc (rw (absent, ensure_table, page_mk_table, full) at e)
      | inr ((addr, k1), hit) ↦
          let same : k1.pmm ≡ k.pmm = pmm_kept 1 addr k k1 hit in
          elim (Bool-cases ((pmm_request k1.pmm).0 == 0)) [
            | inl null ↦ cc (rw (absent, ensure_table, page_mk_table, hit, null) at e)
            | inr frame ↦
                subst (λ (s : PageMap × Kernel). Keeps k.pmm s.1.pmm)
                  (same_states _ s (rw (absent, ensure_table, page_mk_table, hit, frame) at e))
                  (subst (λ p. Keeps k.pmm (pmm_request p).1) (sym same)
                    (pmm_request-Keeps k.pmm w))
          ]
    ]
  ]

  pub page_map_memory-Keeps :
      (virt phys : ℕ) (m : PageMap) (k : Kernel) (s : PageMap × Kernel)
      → IsValid k.pmm
      → page_map_memory table_phys virt phys 1 (m, k) ≡ some s
      → Keeps k.pmm s.1.pmm
  unfolding page_map_memory
  page_map_memory-Keeps virt phys m k s w e =
      elim (Option-cases (ensure_table table_phys (pdp_idx virt) (pd_idx virt) (m, k))) [
        | inl full ↦ cc (rw (full, page_map_memory) at e)
        | inr ((m1, k1), made) ↦
            subst (λ (s : PageMap × Kernel). Keeps k.pmm s.1.pmm)
              (same_states (set_entry virt phys (m1, k1)) s (rw (made, page_map_memory) at e))
              (ensure_table-Keeps (pdp_idx virt) (pd_idx virt) m k (m1, k1) w made)
      ]
