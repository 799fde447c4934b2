-- ===== src/Paging/Frames.antt =====
-- Indices and entries of mem/paging.h.
use kernel_old.Base.{ℕ, ◌+◌, ◌*◌, ◌/◌, ◌%◌, ◌^◌, ◌<◌, ◌≡◌, true, arith, ==_iff}
use kernel_old.Paging.{
  pml4_idx, pdp_idx, pd_idx, pt_idx, frame_of, is_present, set_page_frame, or_user,
}

-- The four indices and the offset in the page make up the low 48 bits of an address.
pub indices_lem :
    (v : ℕ)
    → pml4_idx v * 2 ^ 39 + pdp_idx v * 2 ^ 30 + pd_idx v * 2 ^ 21 + pt_idx v * 2 ^ 12 + v % 2 ^ 12
      ≡ v % 2 ^ 48
indices_lem v = omega arith

-- Setting the frame of an entry of 64 bits and its user flags: the frame reads back, the entry is present, the
-- flags from bit 3 to bit 11 and those from bit 52 on are kept, and the entry still fits 64 bits.
pub set_page_frame_lem :
    (page addr : ℕ)
    → page < 2 ^ 64
    → (frame_of (or_user (set_page_frame page addr)) ≡ frame_of addr)
      × (is_present (or_user (set_page_frame page addr)) ≡ true)
      × (or_user (set_page_frame page addr) % 2 ^ 12 / 8 ≡ page % 2 ^ 12 / 8)
      × (or_user (set_page_frame page addr) / 2 ^ 52 ≡ page / 2 ^ 52)
      × (or_user (set_page_frame page addr) < 2 ^ 64)
unfolding set_page_frame
set_page_frame_lem page addr h =
    (omega arith, (==_iff _ 1).1 (omega arith), omega arith, omega arith, omega arith)
