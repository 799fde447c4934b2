-- ===== src/Pmm.antt =====
-- mem/pmm.c: the physical page allocator, a bitmap of one bit for each 4 KiB frame.
-- `mapbuffer` is a function from byte index to byte; the source's array has `buffer_size` bytes,
-- and the theorems keep every index below it. An address is its number, and `+` on addresses wraps
-- at 2 ^ 64.
pub mod Bits
pub mod Bitmap
pub mod Ranges
pub mod Request
pub mod Init
mod Tests
use kernel_old.Base.{
  ℕ, zero, suc, ◌+◌, ◌-◌, ◌*◌, ◌/◌, ◌%◌, ◌^◌, Bool, true, false, not, Option, none, some, bit_and,
  bit_or, ◌==◌, ltb, if◌then◌else◌, update,
}

abbrev pub page_size_4k : ℕ
page_size_4k = 4096

abbrev pub buffer_size : ℕ
buffer_size = 2097952

pub record Pmm : Type 0 where
  pub bitmapsize : ℕ
  pub mapbuffer : ℕ → ℕ

-- `0b10000000 >> (idx % 8)`
abbrev pub bits : ℕ → ℕ
bits idx = 128 / 2 ^ (idx % 8)

-- `byte & bits`, as a truth value
unfoldable pub test_bit : ℕ → ℕ → Bool
test_bit byte idx = not (bit_and byte (bits idx) == 0)

-- `byte &= ~bits; if (v) byte |= bits;`, where `~bits` keeps the low eight bits that `&=` stores
unfoldable pub write_bit : ℕ → ℕ → Bool → ℕ
write_bit byte idx v =
    let cleared = bit_and byte (255 - bits idx) in if v then bit_or cleared (bits idx) else cleared

unfoldable pub bitmap_get : Pmm → ℕ → Bool
bitmap_get p idx = test_bit (p.mapbuffer (idx / 8)) idx

unfoldable pub bitmap_set : Pmm → ℕ → Bool → Pmm
bitmap_set p idx v = record p {
  mapbuffer = update p.mapbuffer (idx / 8) (write_bit (p.mapbuffer (idx / 8)) idx v);
}

unfoldable pub pmm_alloc : Pmm → ℕ → Pmm
pmm_alloc p addr = bitmap_set p (addr / page_size_4k) true

unfoldable pub pmm_free : Pmm → ℕ → Pmm
pmm_free p addr = bitmap_set p (addr / page_size_4k) false

unfoldable pub pmm_reserve : Pmm → ℕ → Pmm
pmm_reserve p addr = bitmap_set p (addr / page_size_4k) true

unfoldable pub pmm_release : Pmm → ℕ → Pmm
pmm_release p addr = bitmap_set p (addr / page_size_4k) false

-- `for (i = i; i < cnt; i++) op(addr + i * PAGE_SIZE_4K)`, over the rounds left
unfoldable pub for_pages : (Pmm → ℕ → Pmm) → Pmm → ℕ → ℕ → ℕ → Pmm
for_pages op p addr i zero = p
for_pages op p addr i (suc rounds) =
    for_pages op (op p ((addr + i * page_size_4k) % 2 ^ 64)) addr (i + 1) rounds

unfoldable pub pmm_alloc_m : Pmm → ℕ → ℕ → Pmm
pmm_alloc_m p addr cnt = for_pages pmm_alloc p addr 0 cnt

unfoldable pub pmm_free_m : Pmm → ℕ → ℕ → Pmm
pmm_free_m p addr cnt = for_pages pmm_free p addr 0 cnt

unfoldable pub pmm_reserve_m : Pmm → ℕ → ℕ → Pmm
pmm_reserve_m p addr cnt = for_pages pmm_reserve p addr 0 cnt

unfoldable pub pmm_release_m : Pmm → ℕ → ℕ → Pmm
pmm_release_m p addr cnt = for_pages pmm_release p addr 0 cnt

-- The size of memory that `pmm_init` is passed is not read.
unfoldable pub pmm_init : ℕ → Pmm
pmm_init memsz =
    pmm_reserve_m (record { bitmapsize = buffer_size; mapbuffer = λ _. 0 }) 0 (buffer_size / 8)

-- The loop of `pmm_request` from index `i`, over the indices left. The NULL after
-- the loop is the address 0, which frame 0 has too.
unfoldable pub request_loop : Pmm → ℕ → ℕ → ℕ × Pmm
request_loop p i zero = (0, p)
request_loop p i (suc rounds) =
    let next = request_loop p (i + 1) rounds in
    if bitmap_get p i
    then next
    else (i * page_size_4k % 2 ^ 64, pmm_alloc p (i * page_size_4k % 2 ^ 64))

unfoldable pub pmm_request : Pmm → ℕ × Pmm
pmm_request p = request_loop p 0 (p.bitmapsize * 8)
