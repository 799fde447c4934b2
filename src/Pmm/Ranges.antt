-- ===== src/Pmm/Ranges.antt =====
-- pmm_alloc_m, pmm_free_m, pmm_reserve_m and pmm_release_m of mem/pmm.c: runs of frames.
use kernel_old.Base.{
  ℕ, zero, suc, ◌+◌, ◌*◌, ◌/◌, ◌%◌, ◌^◌, ◌≤◌, ◌≡◌, refl, ◌∙◌, Bool, true, false, ◌&&◌, arith, ltb,
  leb, if◌then◌else◌,
}
use kernel_old.Pmm.{
  Pmm, page_size_4k, bitmap_get, bitmap_set, for_pages, pmm_alloc, pmm_free, pmm_reserve,
  pmm_release, pmm_alloc_m, pmm_free_m, pmm_reserve_m, pmm_release_m,
}
use kernel_old.Pmm.Bitmap.{IsValid, bitmap_set-IsValid, bitmap_set_size, bitmap_get-bitmap_set}

-- Is frame `j` one of the `cnt` frames from the one that holds `addr`?
abbrev pub in_pages : ℕ → ℕ → ℕ → Bool
in_pages addr cnt j = leb (addr / page_size_4k) j && ltb j (addr / page_size_4k + cnt)

abbrev pub set_page : Bool → Pmm → ℕ → Pmm
set_page v p addr = bitmap_set p (addr / page_size_4k) v

pub for_pages-IsValid :
    (v : Bool) (p : Pmm) (addr i rounds : ℕ)
    → IsValid p
    → IsValid (for_pages (set_page v) p addr i rounds)
unfolding for_pages
for_pages-IsValid v p addr i zero w = w
for_pages-IsValid v p addr i (suc n) w =
    let idx : ℕ = (addr + i * page_size_4k) % 2 ^ 64 / page_size_4k in
    for_pages-IsValid v (bitmap_set p idx v) addr (i + 1) n (bitmap_set-IsValid idx v w)

pub for_pages_size :
    (v : Bool) (p : Pmm) (addr i rounds : ℕ)
    → (for_pages (set_page v) p addr i rounds).bitmapsize ≡ p.bitmapsize
unfolding for_pages
for_pages_size v p addr i zero = refl
for_pages_size v p addr i (suc n) =
    let idx : ℕ = (addr + i * page_size_4k) % 2 ^ 64 / page_size_4k in
    for_pages_size v (bitmap_set p idx v) addr (i + 1) n ∙ bitmap_set_size p idx v

bitmap_get-for_pages :
    (v : Bool) (p : Pmm) (addr i rounds j : ℕ)
    → IsValid p
    → addr + (i + rounds) * page_size_4k ≤ 2 ^ 64
    → bitmap_get (for_pages (set_page v) p addr i rounds) j ≡ (
        if leb (addr / page_size_4k + i) j && ltb j (addr / page_size_4k + i + rounds)
        then v
        else bitmap_get p j)
unfolding for_pages
bitmap_get-for_pages v p addr i zero j w h = ground arith
bitmap_get-for_pages v p addr i (suc n) j w h =
    let idx : ℕ = (addr + i * page_size_4k) % 2 ^ 64 / page_size_4k in
    ground (
      arith,
      bitmap_get-for_pages v (bitmap_set p idx v) addr (i + 1) n j (bitmap_set-IsValid idx v w),
      bitmap_get-bitmap_set idx j v w,
    )

-- A run of `cnt` frames that does not pass the end of the address space: allocating or reserving it
-- marks exactly its frames as in use, freeing or releasing it marks exactly its frames as free, and
-- no other frame changes.
pub pages_lem :
    {p : Pmm} (addr cnt j : ℕ)
    → IsValid p
    → addr + cnt * page_size_4k ≤ 2 ^ 64
    → (bitmap_get (pmm_alloc_m p addr cnt) j
        ≡ (if in_pages addr cnt j then true else bitmap_get p j))
      × (bitmap_get (pmm_reserve_m p addr cnt) j
          ≡ (if in_pages addr cnt j then true else bitmap_get p j))
      × (bitmap_get (pmm_free_m p addr cnt) j
          ≡ (if in_pages addr cnt j then false else bitmap_get p j))
      × (bitmap_get (pmm_release_m p addr cnt) j
          ≡ (if in_pages addr cnt j then false else bitmap_get p j))
unfolding pmm_alloc_m pmm_reserve_m pmm_free_m pmm_release_m pmm_alloc pmm_reserve pmm_free
    pmm_release
pages_lem {p} addr cnt j w h = (
  ground (arith, bitmap_get-for_pages true p addr 0 cnt j w),
  ground (arith, bitmap_get-for_pages true p addr 0 cnt j w),
  ground (arith, bitmap_get-for_pages false p addr 0 cnt j w),
  ground (arith, bitmap_get-for_pages false p addr 0 cnt j w),
)

-- Freeing a run of frames that were all free, after allocating it, restores every bit.
pub pmm_free_m-pmm_alloc_m :
    {p : Pmm} (addr cnt : ℕ)
    → IsValid p
    → addr + cnt * page_size_4k ≤ 2 ^ 64
    → ((j : ℕ) → in_pages addr cnt j ≡ true → bitmap_get p j ≡ false)
    → (j : ℕ) → bitmap_get (pmm_free_m (pmm_alloc_m p addr cnt) addr cnt) j ≡ bitmap_get p j
unfolding pmm_alloc_m pmm_free_m pmm_alloc pmm_free
pmm_free_m-pmm_alloc_m {p} addr cnt w h free j = ground (
  arith,
  free j,
  bitmap_get-for_pages false (for_pages (set_page true) p addr 0 cnt) addr 0 cnt j
      (for_pages-IsValid true p addr 0 cnt w),
  bitmap_get-for_pages true p addr 0 cnt j w,
)
