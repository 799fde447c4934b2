-- ===== src/Ext2/Writing.antt =====
-- The file that fs/ext2/file.c `ext2_write` leaves on the device, for files of direct blocks.
use kernel_old.Base.{
  ℕ, zero, suc, ◌+◌, ◌-◌, ◌*◌, ◌/◌, ◌%◌, ◌^◌, ◌≤◌, ◌<◌, ◌≡◌, refl, sym, subst, ◌∙◌, ◌⊎◌, inl, inr,
  true, false, arith, ltb, ◌==◌, ==_false, ltb→lt, lt→ltb, ==_iff, ==_refl, Bool-cases, update,
}
use kernel_old.Ext2.{Vol, Inode, ext2_get_inode_blk, fill_block, write_loop, write_blocks}
use kernel_old.Ext2.Filling.{Apart, Written, at-Written, append-Written, block-Written, next_start}
use native.Mathlib.Nat.{mod-lt, div-add-mod', suc-mul, add-mul, le-div_iff_mul-le, mod-eq_of_lt}

module _ (vol : Vol) (ino : Inode) where
  pub ext2_get_inode_blk-direct :
      (disk : ℕ → ℕ → ℕ) (i : ℕ)
      → i < 12
      → ext2_get_inode_blk (record vol { disk = disk }) i ino ≡ ino.blocks i
  unfolding ext2_get_inode_blk
  ext2_get_inode_blk-direct disk i lt = rw (ext2_get_inode_blk, lt→ltb i 12 lt) refl

  module _ (pos : 0 < vol.blk_sz) (apart : Apart vol.blk_sz ino.blocks) where
    rest-Written :
        (startblk endblk modoff modend : ℕ)
        → modend < vol.blk_sz
        → endblk < 12
        → (n i ptr : ℕ) (mem : ℕ → ℕ) (disk : ℕ → ℕ → ℕ) → startblk < i
        → i + n ≡ endblk
        → Written vol.blk_sz ino.blocks
            (write_loop vol ino startblk endblk modoff modend i (suc n) ptr mem disk)
            disk
            mem
            ptr
            (i * vol.blk_sz)
            (n * vol.blk_sz + modend)
    unfolding write_loop
    rest-Written startblk endblk modoff modend small low zero i ptr mem disk lt e =
        let first : (i == startblk) ≡ false = ==_false i startblk (omega (arith, lt)) in
        let last : (i == endblk) ≡ true = (==_iff i endblk).1 (omega (arith, e)) in
        let blk : ext2_get_inode_blk (record vol { disk = disk }) i ino ≡ ino.blocks i =
          ext2_get_inode_blk-direct disk i (omega (arith, e, low)) in
        rw (first, last, blk, write_loop)
          (at-Written vol.blk_sz ino.blocks _ disk mem ptr (omega arith) (omega arith) (
            block-Written vol.blk_sz ino.blocks disk mem i ptr 0 modend pos apart
              (omega (arith, e, low)) (omega (arith, small))))
    rest-Written startblk endblk modoff modend small low (suc n) i ptr mem disk lt e =
        let first : (i == startblk) ≡ false = ==_false i startblk (omega (arith, lt)) in
        let last : (i == endblk) ≡ false = ==_false i endblk (omega (arith, e)) in
        let blk : ext2_get_inode_blk (record vol { disk = disk }) i ino ≡ ino.blocks i =
          ext2_get_inode_blk-direct disk i (omega (arith, e, low)) in
        let disk' : ℕ → ℕ → ℕ =
          update disk (ino.blocks i) (fill_block mem (disk (ino.blocks i)) ptr 0 vol.blk_sz) in
        rw (first, last, blk, write_loop)
          (at-Written vol.blk_sz ino.blocks _ disk mem ptr refl
            (omega (arith, suc-mul n vol.blk_sz))
            (append-Written vol.blk_sz ino.blocks _ disk' disk mem ptr (i * vol.blk_sz) vol.blk_sz
              (n * vol.blk_sz + modend)
              (at-Written vol.blk_sz ino.blocks disk' disk mem ptr (omega arith) refl (
                block-Written vol.blk_sz ino.blocks disk mem i ptr 0 vol.blk_sz pos apart
                  (omega (arith, e, low)) (omega arith)))
              (at-Written vol.blk_sz ino.blocks _ disk' mem (ptr + vol.blk_sz)
                (next_start vol.blk_sz ino.blocks i) refl
                (rest-Written startblk endblk modoff modend small low n (i + 1) (ptr + vol.blk_sz)
                  mem disk' (omega (arith, lt)) (omega (arith, e))))))

    -- The first block and the others.
    loop-Written :
        (s n m d ptr : ℕ) (mem : ℕ → ℕ) (disk : ℕ → ℕ → ℕ)
        → m < vol.blk_sz
        → d < vol.blk_sz
        → s + suc n < 12
        → Written vol.blk_sz ino.blocks
            (write_loop vol ino s (s + suc n) m d s (suc (suc n)) ptr mem disk)
            disk
            mem
            ptr
            (s * vol.blk_sz + m)
            (vol.blk_sz - m + (n * vol.blk_sz + d))
    unfolding write_loop
    loop-Written s n m d ptr mem disk lt lt' low =
        let first : (s == s) ≡ true = ==_refl s in
        let last : (s == s + suc n) ≡ false = ==_false s (s + suc n) (omega arith) in
        let blk : ext2_get_inode_blk (record vol { disk = disk }) s ino ≡ ino.blocks s =
          ext2_get_inode_blk-direct disk s (omega (arith, low)) in
        let disk' : ℕ → ℕ → ℕ =
          update disk (ino.blocks s)
            (fill_block mem (disk (ino.blocks s)) ptr m (vol.blk_sz - m)) in
        rw (first, last, blk, write_loop)
          (append-Written vol.blk_sz ino.blocks _ disk' disk mem ptr (s * vol.blk_sz + m)
            (vol.blk_sz - m) (n * vol.blk_sz + d)
            (block-Written vol.blk_sz ino.blocks disk mem s ptr m (vol.blk_sz - m) pos apart
              (omega (arith, low)) (omega (arith, lt)))
            (at-Written vol.blk_sz ino.blocks _ disk' mem (ptr + (vol.blk_sz - m))
              (omega (arith, next_start vol.blk_sz ino.blocks s, lt)) refl
              (rest-Written s (s + suc n) m d lt' low n (s + 1) (ptr + (vol.blk_sz - m)) mem disk'
                (omega arith) (omega arith))))

    one-Written :
        (s d ptr : ℕ) (mem : ℕ → ℕ) (disk : ℕ → ℕ → ℕ)
        → d < vol.blk_sz
        → s < 12
        → Written vol.blk_sz ino.blocks
            (write_loop vol ino s s 0 d s 1 ptr mem disk)
            disk
            mem
            ptr
            (s * vol.blk_sz)
            d
    unfolding write_loop
    one-Written s d ptr mem disk lt low =
        let first : (s == s) ≡ true = ==_refl s in
        let blk : ext2_get_inode_blk (record vol { disk = disk }) s ino ≡ ino.blocks s =
          ext2_get_inode_blk-direct disk s low in
        rw (first, blk, write_loop)
          (at-Written vol.blk_sz ino.blocks _ disk mem ptr (omega arith) refl (
            block-Written vol.blk_sz ino.blocks disk mem s ptr 0 d pos apart low
              (omega (arith, lt))))

    written_blocks :
        (ptr off size s k : ℕ) (mem : ℕ → ℕ)
        → off / vol.blk_sz ≡ s
        → (size + off) / vol.blk_sz ≡ s + k
        → s + k < 12
        → (write_blocks vol ino ptr off size mem).disk
          ≡ write_loop vol ino s
              (s + k)
              (off % vol.blk_sz)
              ((size + off) % vol.blk_sz)
              s
              (suc k)
              ptr
              mem
              vol.disk
    unfolding write_blocks
    written_blocks ptr off size s k mem e e' small =
        let h : s % 2 ^ 32 ≡ s = mod-eq_of_lt (omega (arith, small)) in
        let h' : (s + k) % 2 ^ 32 ≡ s + k = mod-eq_of_lt (omega (arith, small)) in
        let rounds : s + k + 1 - s ≡ suc k = omega arith in
        rw (write_blocks, e, e', h, h', rounds) refl

    several-Written :
        (ptr off size s n : ℕ) (mem : ℕ → ℕ)
        → off / vol.blk_sz ≡ s
        → (size + off) / vol.blk_sz ≡ s + suc n
        → s + suc n < 12
        → Written vol.blk_sz ino.blocks
            (write_blocks vol ino ptr off size mem).disk
            vol.disk
            mem
            ptr
            off
            size
    several-Written ptr off size s n mem e e' small =
        let b : ℕ = vol.blk_sz in
        let low : s * b + off % b ≡ off =
          subst (λ x. x * b + off % b ≡ off) e (div-add-mod' off b) in
        let high : (s + suc n) * b + (size + off) % b ≡ size + off =
          subst (λ x. x * b + (size + off) % b ≡ size + off) e' (div-add-mod' (size + off) b) in
        let lt : off % b < b = mod-lt off pos in
        subst (λ d. Written b ino.blocks d vol.disk mem ptr off size)
          (sym (written_blocks ptr off size s (suc n) mem e e' small))
          (at-Written b ino.blocks _ vol.disk mem ptr low
            (omega (arith, low, high, lt, add-mul s (suc n) b, suc-mul n b))
            (loop-Written s n (off % b) ((size + off) % b) ptr mem vol.disk lt
              (mod-lt (size + off) pos) small))

    single-Written :
        (ptr off size s : ℕ) (mem : ℕ → ℕ)
        → off / vol.blk_sz ≡ s
        → off % vol.blk_sz ≡ 0
        → (size + off) / vol.blk_sz ≡ s
        → s < 12
        → Written vol.blk_sz ino.blocks
            (write_blocks vol ino ptr off size mem).disk
            vol.disk
            mem
            ptr
            off
            size
    single-Written ptr off size s mem e aligned e' small =
        let b : ℕ = vol.blk_sz in
        let low : s * b + off % b ≡ off =
          subst (λ x. x * b + off % b ≡ off) e (div-add-mod' off b) in
        let high : s * b + (size + off) % b ≡ size + off =
          subst (λ x. x * b + (size + off) % b ≡ size + off) e' (div-add-mod' (size + off) b) in
        let plain : s + 0 ≡ s = omega arith in
        subst (λ d. Written b ino.blocks d vol.disk mem ptr off size)
          (sym (written_blocks ptr off size s 0 mem e (e' ∙ omega arith) (omega (arith, small))))
          (at-Written b ino.blocks _ vol.disk mem ptr {from = s * b} {len = (size + off) % b}
            (omega (arith, low, aligned)) (omega (arith, low, high, aligned))
            (rw (aligned, plain)
              (one-Written s ((size + off) % b) ptr mem vol.disk (mod-lt (size + off) pos) small)))

    -- The blocks that `ext2_write` writes, for a file whose first 12 blocks are distinct and a write
    -- that ends in one of them, and that starts at a block's first byte or ends in another block
    -- than it starts in: the bytes of the file from `off` on are those of memory from `ptr` on,
    -- `size` of them, and its other bytes are kept.
    pub write_blocks-Written :
        (ptr off size : ℕ) (mem : ℕ → ℕ)
        → (size + off) / vol.blk_sz < 12
        → (off % vol.blk_sz ≡ 0) ⊎ (off / vol.blk_sz < (size + off) / vol.blk_sz)
        → Written vol.blk_sz ino.blocks
            (write_blocks vol ino ptr off size mem).disk
            vol.disk
            mem
            ptr
            off
            size
    write_blocks-Written ptr off size mem small way =
        elim (Bool-cases (ltb (off / vol.blk_sz) ((size + off) / vol.blk_sz))) [
          | inl lt ↦
              let far : off / vol.blk_sz < (size + off) / vol.blk_sz = ltb→lt _ _ lt in
              several-Written ptr off size (off / vol.blk_sz)
                ((size + off) / vol.blk_sz - off / vol.blk_sz - 1) mem refl (omega (arith, far))
                (omega (arith, far, small))
          | inr ge ↦
              let low : off / vol.blk_sz ≤ (size + off) / vol.blk_sz =
                (le-div_iff_mul-le pos).1 (omega (arith, div-add-mod' off vol.blk_sz)) in
              let same : (size + off) / vol.blk_sz ≡ off / vol.blk_sz = ground (arith, ge, low) in
              single-Written ptr off size (off / vol.blk_sz) mem refl
                (elim way [ inl aligned ↦ aligned | inr lt ↦ absurd (omega (arith, lt, same)) ])
                same (omega (arith, same, small))
        ]
