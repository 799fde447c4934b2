-- ===== src/Pmm/Bits.antt =====
-- The bits of one byte of the bitmap of mem/pmm.c: reading a bit after writing one.
use kernel_old.Base.{
  ℕ, ◌/◌, ◌%◌, ◌^◌, ◌<◌, ◌≡◌, refl, Bool, true, false, not, ◌&&◌, arith, ◌==◌, ltb, if◌then◌else◌,
  ltb→lt, every, every-holds, bool_eq, bool_eq→≡, ap, bit_and, bit_or, ◌-◌,
}
use kernel_old.Pmm.{bits, test_bit, write_bit}

-- One byte, one bit that is written, one bit that is read.
read_back : Bool → ℕ → ℕ → ℕ → Bool
read_back v b k j = bool_eq (test_bit (write_bit b k v) j) (if j == k then v else test_bit b j)

cell : Bool → ℕ → ℕ → Bool
cell v b k = ltb (write_bit b k v) 256 && every (read_back v b k) 8

table : (v : Bool) → every (λ b. every (cell v b) 8) 256 ≡ true
unfolding every test_bit write_bit cell read_back
table true = refl
table false = refl

cell-true : (b k : ℕ) (v : Bool) → b < 256 → k < 8 → cell v b k ≡ true
cell-true b k v hb hk =
    every-holds (cell v b) 8 k hk (every-holds (λ b. every (cell v b) 8) 256 b hb (table v))

and-left : (a b : Bool) → (a && b) ≡ true → a ≡ true
and-left a b h = ground arith

and-right : (a b : Bool) → (a && b) ≡ true → b ≡ true
and-right a b h = ground arith

write_bit-lt_small : (b k : ℕ) (v : Bool) → b < 256 → k < 8 → write_bit b k v < 256
unfolding cell
write_bit-lt_small b k v hb hk = ltb→lt _ _ (and-left _ _ (cell-true b k v hb hk))

test_bit-write_bit_small :
    (b k j : ℕ) (v : Bool)
    → b < 256
    → k < 8
    → j < 8
    → test_bit (write_bit b k v) j ≡ (if j == k then v else test_bit b j)
unfolding cell read_back
test_bit-write_bit_small b k j v hb hk hj =
    bool_eq→≡ _ _ (every-holds (read_back v b k) 8 j hj (and-right _ _ (cell-true b k v hb hk)))

bits-mod : (idx : ℕ) → bits idx ≡ bits (idx % 8)
bits-mod idx = ap (λ k. 128 / 2 ^ k) (omega arith)

test_bit-mod : (b idx : ℕ) → test_bit b idx ≡ test_bit b (idx % 8)
unfolding test_bit
test_bit-mod b idx = ap (λ m. not (bit_and b m == 0)) (bits-mod idx)

write_bit-mod : (b idx : ℕ) (v : Bool) → write_bit b idx v ≡ write_bit b (idx % 8) v
unfolding write_bit
write_bit-mod b idx v =
    ap (λ m. if v then bit_or (bit_and b (255 - m)) m else bit_and b (255 - m)) (bits-mod idx)

pub write_bit-lt : (b idx : ℕ) (v : Bool) → b < 256 → write_bit b idx v < 256
write_bit-lt b idx v hb =
    rw (write_bit-mod b idx v) (write_bit-lt_small b (idx % 8) v hb (omega arith))

-- In a byte, the bit of `j` after the bit of `k` is written.
pub test_bit-write_bit :
    (b k j : ℕ) (v : Bool)
    → b < 256
    → test_bit (write_bit b k v) j ≡ (if j % 8 == k % 8 then v else test_bit b j)
test_bit-write_bit b k j v hb =
    rw (write_bit-mod b k v, test_bit-mod (write_bit b (k % 8) v) j, test_bit-mod b j)
      (test_bit-write_bit_small b (k % 8) (j % 8) v hb (omega arith) (omega arith))
