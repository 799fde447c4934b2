-- ===== src/Pmm/Init.antt =====
-- pmm_init of mem/pmm.c: what is reserved before the loader's memory map is read.
use kernel_old.Base.{ℕ, ◌/◌, bit_and, ◌≡◌, true, false, arith, ltb}
use Prim.Native.Nat.{bit_and-bitwise}
use kernel_old.Pmm.{Pmm, buffer_size, bitmap_get, test_bit, pmm_reserve, pmm_reserve_m, pmm_init}
use kernel_old.Pmm.Bitmap.{IsValid}
use kernel_old.Pmm.Ranges.{for_pages-IsValid, for_pages_size, pages_lem}

abbrev zeroed : Pmm
zeroed = record { bitmapsize = buffer_size; mapbuffer = λ _. 0 }

zeroed-IsValid : IsValid zeroed
zeroed-IsValid = record { size = omega arith; byte = λ i. omega arith }

zero-bit_and : (b : ℕ) → bit_and 0 b ≡ 0
zero-bit_and b = bit_and-bitwise 0 b

bitmap_get-zeroed : (j : ℕ) → bitmap_get zeroed j ≡ false
unfolding bitmap_get test_bit
bitmap_get-zeroed j = rw zero-bit_and

-- After `pmm_init`, whatever memory size it is passed, the bitmap is valid and has its full size,
-- the frames in use are those numbered below `BUFFER_SIZE / 8`, and all others are free.
pub pmm_init_lem :
    (memsz j : ℕ)
    → IsValid (pmm_init memsz)
      × ((pmm_init memsz).bitmapsize ≡ buffer_size)
      × (bitmap_get (pmm_init memsz) j ≡ ltb j (buffer_size / 8))
unfolding pmm_init pmm_reserve_m pmm_reserve
pmm_init_lem memsz j =
    let w : IsValid zeroed = zeroed-IsValid in
    (
      for_pages-IsValid true zeroed 0 0 (buffer_size / 8) w,
      for_pages_size true zeroed 0 0 (buffer_size / 8),
      ground (arith, pages_lem 0 (buffer_size / 8) j w, bitmap_get-zeroed j),
    )
