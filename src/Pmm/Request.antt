-- ===== src/Pmm/Request.antt =====
-- pmm_request of mem/pmm.c: first fit over the bitmap.
use kernel_old.Base.{
  ℕ, zero, suc, ◌+◌, ◌*◌, ◌%◌, ◌^◌, ◌≤◌, ◌<◌, ◌≡◌, refl, sym, ap, subst, ◌≢◌, ◌⊎◌, inl, inr, true,
  false, arith, ◌==◌, if◌then◌else◌, Bool-cases,
}
use kernel_old.Pmm.{
  Pmm, page_size_4k, buffer_size, bitmap_get, bitmap_set, request_loop, pmm_alloc, pmm_request,
}
use kernel_old.Pmm.Bitmap.{IsValid, bitmap_set-IsValid, bitmap_get-bitmap_set}

-- What a search of the frames from `lo` up to `hi` returns: NULL, and then every one is in use and
-- nothing has changed, or the first free one, now in use.
abbrev pub Requested : Pmm → ℕ → ℕ → ℕ × Pmm → Type 0
Requested p lo hi (addr, p') =
    ((addr ≡ 0) × (p' ≡ p) × ((j : ℕ) → lo ≤ j → j < hi → bitmap_get p j ≡ true))
    ⊎ ((f : ℕ) × (addr ≡ f * page_size_4k)
        × (lo ≤ f)
        × (f < hi)
        × (bitmap_get p f ≡ false)
        × ((j : ℕ) → lo ≤ j → j < f → bitmap_get p j ≡ true)
        × ((j : ℕ) → bitmap_get p' j ≡ (if j == f then true else bitmap_get p j))
        × IsValid p')

request_frame : (i : ℕ) → i < buffer_size * 8 → i * page_size_4k % 2 ^ 64 ≡ i * page_size_4k
request_frame i h = omega arith

pmm_alloc-frame : (p : Pmm) (i : ℕ) → pmm_alloc p (i * page_size_4k) ≡ bitmap_set p i true
unfolding pmm_alloc
pmm_alloc-frame p i = ap (λ k. bitmap_set p k true) (omega arith)

Requested-skip :
    (p : Pmm) (i hi : ℕ) (r : ℕ × Pmm)
    → bitmap_get p i ≡ true
    → Requested p (i + 1) hi r
    → Requested p i hi r
Requested-skip p i hi (a, p') used (inl (z, e, h)) = inl (z, e, λ j lo up. ground (arith, h j))
Requested-skip p i hi (a, p') used (inr (f, e, lo, up, free, before, after, w)) =
    inr (f, e, omega arith, up, free, (λ j l u. ground (arith, before j)), after, w)

request_loop-Requested :
    {p : Pmm} (i rounds : ℕ)
    → IsValid p
    → i + rounds ≤ buffer_size * 8
    → Requested p i (i + rounds) (request_loop p i rounds)
unfolding request_loop
request_loop-Requested i zero w h = inl (refl, refl, λ j lo up. absurd (omega arith))
request_loop-Requested {p} i (suc n) w h = elim (Bool-cases (bitmap_get p i)) [
  | inl used ↦ rw used (
      Requested-skip p i (i + suc n) (request_loop p (i + 1) n) used (
        let e : i + 1 + n ≡ i + suc n = omega arith in
        rw e at (request_loop-Requested (i + 1) n w (omega arith))))
  | inr free ↦
      rw (free, request_frame i (omega arith), pmm_alloc-frame p i)
        (inr (
          i,
          refl,
          omega arith,
          omega arith,
          free,
          (λ j lo up. absurd (omega arith)),
          (λ j. bitmap_get-bitmap_set i j true w),
          bitmap_set-IsValid i true w,
        ))
]

pub request-Requested : {p : Pmm} → IsValid p → Requested p 0 (p.bitmapsize * 8) (pmm_request p)
unfolding pmm_request
request-Requested {p} w =
    let e : 0 + p.bitmapsize * 8 ≡ p.bitmapsize * 8 = omega arith in
    rw e at (request_loop-Requested 0 (p.bitmapsize * 8) w (omega (arith, w.size)))

-- On a valid bitmap whose frame 0 is in use, as `pmm_init` reserves it, a request either returns
-- NULL, and then each frame of the bitmap is in use and nothing has changed, or it returns the
-- address of the lowest frame that is free, which is not NULL, and marks that frame alone as in use.
pub pmm_request-Requested :
    {p : Pmm}
    → IsValid p
    → bitmap_get p 0 ≡ true
    → let r : ℕ × Pmm = pmm_request p in
      ((r.0 ≡ 0) × (r.1 ≡ p) × ((j : ℕ) → j < p.bitmapsize * 8 → bitmap_get p j ≡ true))
      ⊎ ((r.0 ≢ 0)
          × (f : ℕ) × (r.0 ≡ f * page_size_4k)
          × (f < p.bitmapsize * 8)
          × (bitmap_get p f ≡ false)
          × ((j : ℕ) → j < f → bitmap_get p j ≡ true)
          × ((j : ℕ) → bitmap_get r.1 j ≡ (if j == f then true else bitmap_get p j))
          × IsValid r.1)
pmm_request-Requested {p} w reserved = elim (request-Requested w) [
  | inl (null, same, full) ↦ inl (null, same, λ j lt. full j (omega arith) lt)
  | inr (f, e, lo, up, free, before, after, w') ↦ inr (
    λ null.
        (let first : f ≡ 0 = omega (arith, e, null) in
          let used : bitmap_get p f ≡ true =
            subst (λ x. bitmap_get p x ≡ true) (sym first) reserved in
          cc),
    f,
    e,
    up,
    free,
    (λ j lt. before j (omega arith) lt),
    after,
    w',
  )
]
