-- ===== src/Pmm/Tests.antt =====
-- The theorems on mem/pmm.c at concrete bitmaps.
use kernel_old.Base.{
  ℕ, ◌*◌, ◌<◌, ◌≢◌, ◌⊎◌, ◌==◌, if◌then◌else◌, zero, suc, ◌≡◌, refl, true, false, arith, update,
}
use kernel_old.Pmm.{Pmm, bitmap_get, pmm_request, test_bit}
use kernel_old.Pmm.Bitmap.{IsValid}
use kernel_old.Pmm.Ranges.{in_pages}
use kernel_old.Pmm.Request.{pmm_request-Requested}

-- Frames 0 and 1 are in use.
abbrev small : Pmm
small = record { bitmapsize = 2; mapbuffer = update (λ _. 0) 0 192 }

small-IsValid : IsValid small
small-IsValid = record { size = omega arith; byte = λ i. ground arith }

small_free : (j : ℕ) → in_pages 8192 3 j ≡ true → bitmap_get small j ≡ false
unfolding bitmap_get test_bit
small_free zero h = cc
small_free (suc zero) h = cc
small_free (suc (suc zero)) h = refl
small_free (suc (suc (suc zero))) h = refl
small_free (suc (suc (suc (suc zero)))) h = refl
small_free (suc (suc (suc (suc (suc j))))) h = ground arith

small_reserved : bitmap_get small 0 ≡ true
unfolding bitmap_get test_bit
small_reserved = refl

pmm_request-Requested_example :
    let r : ℕ × Pmm = pmm_request small in
    ((r.0 ≡ 0) × (r.1 ≡ small) × ((j : ℕ) → j < 16 → bitmap_get small j ≡ true))
    ⊎ ((r.0 ≢ 0)
        × (f : ℕ) × (r.0 ≡ f * 4096)
        × (f < 16)
        × (bitmap_get small f ≡ false)
        × ((j : ℕ) → j < f → bitmap_get small j ≡ true)
        × ((j : ℕ) → bitmap_get r.1 j ≡ (if j == f then true else bitmap_get small j))
        × IsValid r.1)
pmm_request-Requested_example = pmm_request-Requested small-IsValid small_reserved
