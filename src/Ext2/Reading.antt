-- ===== src/Ext2/Reading.antt =====
-- The bytes that fs/ext2/file.c `ext2_read` leaves in memory.
use kernel_old.Base.{
  ==_false, ℕ, zero, suc, ◌+◌, ◌-◌, ◌*◌, ◌/◌, ◌%◌, ◌^◌, ◌≤◌, ◌<◌, ◌≡◌, refl, sym, subst, ◌∙◌, ◌⊎◌,
  inl, inr, true, false, arith, ltb, ◌==◌, ltb→lt, ==_iff, ==_refl, Bool-cases,
}
use kernel_old.Ext2.{Vol, Inode, ext2_get_inode_blk, copy_block, read_loop, ext2_read}
use native.Mathlib.Nat.{mod-eq_of_lt, mod-lt, div-add-mod', suc-mul, add-mul, le-div_iff_mul-le}
use kernel_old.Ext2.Copying.{Copied, at-Copied, append-Copied, block-Copied, next_block}

module _ (vol : Vol) (ino : Inode) where
  -- The blocks after the first one, up to the last.
  rest-Copied :
      (startblk endblk modoff modend : ℕ)
      → modend < vol.blk_sz
      → (n i ptr : ℕ) (mem : ℕ → ℕ) → startblk < i
      → i + n ≡ endblk
      → Copied vol ino
          (read_loop vol ino startblk endblk modoff modend i (suc n) ptr mem)
          mem
          ptr
          (i * vol.blk_sz)
          (n * vol.blk_sz + modend)
  unfolding read_loop
  rest-Copied startblk endblk modoff modend small zero i ptr mem lt e =
      let first : (i == startblk) ≡ false = ==_false i startblk (omega (arith, lt)) in
      let last : (i == endblk) ≡ true = (==_iff i endblk).1 (omega (arith, e)) in
      rw (first, last, read_loop)
        (at-Copied vol ino _ mem ptr (omega arith) (omega arith)
          (block-Copied vol ino mem i ptr 0 modend (omega (arith, small))))
  rest-Copied startblk endblk modoff modend small (suc n) i ptr mem lt e =
      let first : (i == startblk) ≡ false = ==_false i startblk (omega (arith, lt)) in
      let last : (i == endblk) ≡ false = ==_false i endblk (omega (arith, e)) in
      let mem' : ℕ → ℕ =
        copy_block mem (vol.disk (ext2_get_inode_blk vol i ino)) ptr 0 vol.blk_sz in
      rw (first, last, read_loop)
        (at-Copied vol ino _ mem ptr refl (omega (arith, suc-mul n vol.blk_sz)) (
          append-Copied vol ino _ mem' mem ptr (i * vol.blk_sz) vol.blk_sz (n * vol.blk_sz + modend)
            (at-Copied vol ino mem' mem ptr (omega arith) refl
              (block-Copied vol ino mem i ptr 0 vol.blk_sz (omega arith)))
            (at-Copied vol ino _ mem' (ptr + vol.blk_sz) (next_block vol ino i) refl (
              rest-Copied startblk endblk modoff modend small n (i + 1) (ptr + vol.blk_sz) mem'
                (omega (arith, lt)) (omega (arith, e))))))

  -- The first block and the others.
  loop-Copied :
      (s n m d ptr : ℕ) (mem : ℕ → ℕ)
      → m < vol.blk_sz
      → d < vol.blk_sz
      → Copied vol ino
          (read_loop vol ino s (s + suc n) m d s (suc (suc n)) ptr mem)
          mem
          ptr
          (s * vol.blk_sz + m)
          (vol.blk_sz - m + (n * vol.blk_sz + d))
  unfolding read_loop
  loop-Copied s n m d ptr mem lt lt' =
      let first : (s == s) ≡ true = ==_refl s in
      let last : (s == s + suc n) ≡ false = ==_false s (s + suc n) (omega arith) in
      let mem' : ℕ → ℕ =
        copy_block mem (vol.disk (ext2_get_inode_blk vol s ino)) ptr m (vol.blk_sz - m) in
      rw (first, last, read_loop)
        (append-Copied vol ino _ mem' mem ptr (s * vol.blk_sz + m) (vol.blk_sz - m)
          (n * vol.blk_sz + d)
          (block-Copied vol ino mem s ptr m (vol.blk_sz - m) (omega (arith, lt)))
          (at-Copied vol ino _ mem' (ptr + (vol.blk_sz - m))
            (omega (arith, next_block vol ino s, lt)) refl
            (rest-Copied s (s + suc n) m d lt' n (s + 1) (ptr + (vol.blk_sz - m)) mem' (omega arith)
              (omega arith))))

  one-Copied :
      (s d ptr : ℕ) (mem : ℕ → ℕ)
      → d < vol.blk_sz
      → Copied vol ino (read_loop vol ino s s 0 d s 1 ptr mem) mem ptr (s * vol.blk_sz) d
  unfolding read_loop
  one-Copied s d ptr mem lt =
      let first : (s == s) ≡ true = ==_refl s in
      rw (first, read_loop)
        (at-Copied vol ino _ mem ptr (omega arith) refl
          (block-Copied vol ino mem s ptr 0 d (omega (arith, lt))))

  read_blocks :
      (ptr off size s k : ℕ) (mem : ℕ → ℕ)
      → off / vol.blk_sz ≡ s
      → (size + off) / vol.blk_sz ≡ s + k
      → s + k < 2 ^ 32
      → ext2_read vol ino ptr off size mem
        ≡ read_loop vol ino s
            (s + k)
            (off % vol.blk_sz)
            ((size + off) % vol.blk_sz)
            s
            (suc k)
            ptr
            mem
  unfolding ext2_read
  read_blocks ptr off size s k mem e e' small =
      let h : s % 2 ^ 32 ≡ s = mod-eq_of_lt (omega (arith, small)) in
      let h' : (s + k) % 2 ^ 32 ≡ s + k = mod-eq_of_lt small in
      let rounds : s + k + 1 - s ≡ suc k = omega arith in rw (ext2_read, e, e', h, h', rounds) refl

  several-Copied :
      (ptr off size s n : ℕ) (mem : ℕ → ℕ)
      → 0 < vol.blk_sz
      → off / vol.blk_sz ≡ s
      → (size + off) / vol.blk_sz ≡ s + suc n
      → s + suc n < 2 ^ 32
      → Copied vol ino (ext2_read vol ino ptr off size mem) mem ptr off size
  several-Copied ptr off size s n mem pos e e' small =
      let b : ℕ = vol.blk_sz in
      let low : s * b + off % b ≡ off = subst (λ x. x * b + off % b ≡ off) e (div-add-mod' off b) in
      let high : (s + suc n) * b + (size + off) % b ≡ size + off =
        subst (λ x. x * b + (size + off) % b ≡ size + off) e' (div-add-mod' (size + off) b) in
      let lt : off % b < b = mod-lt off pos in
      subst (λ f. Copied vol ino f mem ptr off size)
        (sym (read_blocks ptr off size s (suc n) mem e e' small))
        (at-Copied vol ino _ mem ptr low
          (omega (arith, low, high, lt, add-mul s (suc n) b, suc-mul n b))
          (loop-Copied s n (off % b) ((size + off) % b) ptr mem lt (mod-lt (size + off) pos)))

  single-Copied :
      (ptr off size s : ℕ) (mem : ℕ → ℕ)
      → 0 < vol.blk_sz
      → off / vol.blk_sz ≡ s
      → off % vol.blk_sz ≡ 0
      → (size + off) / vol.blk_sz ≡ s
      → s < 2 ^ 32
      → Copied vol ino (ext2_read vol ino ptr off size mem) mem ptr off size
  single-Copied ptr off size s mem pos e aligned e' small =
      let b : ℕ = vol.blk_sz in
      let low : s * b + off % b ≡ off = subst (λ x. x * b + off % b ≡ off) e (div-add-mod' off b) in
      let high : s * b + (size + off) % b ≡ size + off =
        subst (λ x. x * b + (size + off) % b ≡ size + off) e' (div-add-mod' (size + off) b) in
      let plain : s + 0 ≡ s = omega arith in
      subst (λ f. Copied vol ino f mem ptr off size)
        (sym (read_blocks ptr off size s 0 mem e (e' ∙ omega arith) (omega (arith, small))))
        (at-Copied vol ino _ mem ptr {from = s * b} {len = (size + off) % b}
          (omega (arith, low, aligned)) (omega (arith, low, high, aligned))
          (rw (aligned, plain) (one-Copied s ((size + off) % b) ptr mem (mod-lt (size + off) pos))))

  -- A read that starts at a block's first byte or ends in another block than it starts in puts the
  -- file's bytes from `off` on at `ptr`, `size` of them, and keeps all other memory.
  pub ext2_read-Copied :
      (ptr off size : ℕ) (mem : ℕ → ℕ)
      → 0 < vol.blk_sz
      → (size + off) / vol.blk_sz < 2 ^ 32 - 1
      → (off % vol.blk_sz ≡ 0) ⊎ (off / vol.blk_sz < (size + off) / vol.blk_sz)
      → Copied vol ino (ext2_read vol ino ptr off size mem) mem ptr off size
  ext2_read-Copied ptr off size mem pos small way =
      elim (Bool-cases (ltb (off / vol.blk_sz) ((size + off) / vol.blk_sz))) [
        | inl lt ↦
            let far : off / vol.blk_sz < (size + off) / vol.blk_sz = ltb→lt _ _ lt in
            several-Copied ptr off size (off / vol.blk_sz)
              ((size + off) / vol.blk_sz - off / vol.blk_sz - 1) mem pos refl (omega (arith, far))
              (omega (arith, far, small))
        | inr ge ↦
            let low : off / vol.blk_sz ≤ (size + off) / vol.blk_sz =
              (le-div_iff_mul-le pos).1 (omega (arith, div-add-mod' off vol.blk_sz)) in
            let same : (size + off) / vol.blk_sz ≡ off / vol.blk_sz = ground (arith, ge, low) in
            single-Copied ptr off size (off / vol.blk_sz) mem pos refl
              (elim way [ inl aligned ↦ aligned | inr lt ↦ absurd (omega (arith, lt, same)) ]) same
              (omega (arith, same, small))
      ]
