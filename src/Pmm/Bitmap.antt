-- ===== src/Pmm/Bitmap.antt =====
-- The bitmap of mem/pmm.c as a set of frame numbers.
use kernel_old.Base.{ℕ, ◌/◌, ◌<◌, ◌≡◌, ◌≤◌, Bool, arith, ◌==◌, if◌then◌else◌}
use kernel_old.Pmm.{Pmm, buffer_size, bitmap_get, bitmap_set}
use kernel_old.Pmm.Bits.{write_bit-lt, test_bit-write_bit}

-- Every cell of `mapbuffer` is a byte, and `bitmapsize` does not pass the array.
pub record IsValid (p : Pmm) : Type 0 where
  pub size : p.bitmapsize ≤ buffer_size
  pub byte : (i : ℕ) → p.mapbuffer i < 256

pub bitmap_set-IsValid : {p : Pmm} (idx : ℕ) (v : Bool) → IsValid p → IsValid (bitmap_set p idx v)
unfolding bitmap_set
bitmap_set-IsValid {p} idx v w = record {
  size = w.size;
  byte =
      λ i. ground (arith, w.byte i, write_bit-lt (p.mapbuffer (idx / 8)) idx v (w.byte (idx / 8)));
}

-- Writing the bit of one frame number changes what is read at that number, and at no other.
pub bitmap_get-bitmap_set :
    {p : Pmm} (idx j : ℕ) (v : Bool)
    → IsValid p
    → bitmap_get (bitmap_set p idx v) j ≡ (if j == idx then v else bitmap_get p j)
unfolding bitmap_get bitmap_set
bitmap_get-bitmap_set {p} idx j v w =
    ground (arith, test_bit-write_bit (p.mapbuffer (idx / 8)) idx j v (w.byte (idx / 8)))

pub bitmap_set_size :
    (p : Pmm) (idx : ℕ) (v : Bool) → (bitmap_set p idx v).bitmapsize ≡ p.bitmapsize
unfolding bitmap_set
bitmap_set_size p idx v = ground arith
