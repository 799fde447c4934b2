-- ===== src/Ext2/Copying.antt =====
-- A part of a file copied into memory, and fs/ext2/file.c's copy of one block.
use kernel_old.Base.{
  ℕ, ◌+◌, ◌-◌, ◌*◌, ◌≤◌, ◌<◌, ◌≡◌, refl, sym, ap, ap₂, subst, ◌∙◌, ◌⊎◌, inl, inr, true, false, ◌&&◌,
  arith, ltb, leb, ltb→lt, Bool-cases,
}
use kernel_old.Ext2.{Vol, Inode, ext2_get_inode_blk, file_byte, copy_block}
use native.Mathlib.Nat.{div-eq_of_lt-le, mul-add-mod_self_right, mod-eq_of_lt, suc-mul}

module _ (vol : Vol) (ino : Inode) where
  -- The `len` bytes from `ptr` on are those of the file from `from` on, and all others are kept.
  unfoldable pub Copied : (after before : ℕ → ℕ) (ptr from len : ℕ) → Type 0
  Copied after before ptr from len =
      (a : ℕ)
      → (ptr ≤ a → a < ptr + len → after a ≡ file_byte vol ino (from + (a - ptr)))
        × (a < ptr ⊎ ptr + len ≤ a → after a ≡ before a)

  pub at-Copied :
      (after before : ℕ → ℕ) (ptr : ℕ) {from to len size : ℕ}
      → from ≡ to
      → len ≡ size
      → Copied after before ptr from len
      → Copied after before ptr to size
  at-Copied after before ptr {from = from} {size = size} e e' h =
      subst (λ n. Copied after before ptr n size) e
        (subst (λ n. Copied after before ptr from n) e' h)

  pub append-Copied :
      (after middle before : ℕ → ℕ) (ptr from first second : ℕ)
      → Copied middle before ptr from first
      → Copied after middle (ptr + first) (from + first) second
      → Copied after before ptr from (first + second)
  unfolding Copied
  append-Copied after middle before ptr from first second one two a = (
    λ lo hi. elim (Bool-cases (ltb a (ptr + first))) [
      | inl near ↦
          (two a).1 (inl (ltb→lt a (ptr + first) near)) ∙ (one a).0 lo (ltb→lt a (ptr + first) near)
      | inr far ↦
          (two a).0 (ground (arith, far)) (omega (arith, hi))
          ∙ ap (file_byte vol ino) (offset (ground (arith, far)))
    ],
    outside,
  )
    where
      offset : ptr + first ≤ a → from + first + (a - (ptr + first)) ≡ from + (a - ptr)
      offset le = omega (arith, le)

      outside : a < ptr ⊎ ptr + (first + second) ≤ a → after a ≡ before a
      outside (inl lt) = (two a).1 (inl (omega (arith, lt))) ∙ (one a).1 (inl lt)
      outside (inr le) = (two a).1 (inr (omega (arith, le))) ∙ (one a).1 (inr (omega (arith, le)))

  pub next_block : (i : ℕ) → (i + 1) * vol.blk_sz ≡ i * vol.blk_sz + vol.blk_sz
  next_block i =
      subst (λ n. n * vol.blk_sz ≡ i * vol.blk_sz + vol.blk_sz) (omega arith) (suc-mul i vol.blk_sz)

  -- A byte of the block that holds it.
  file_byte_at :
      (i k : ℕ)
      → k < vol.blk_sz
      → file_byte vol ino (i * vol.blk_sz + k) ≡ vol.disk (ext2_get_inode_blk vol i ino) k
  unfolding file_byte
  file_byte_at i k lt =
      ap₂ (λ (x y : ℕ). vol.disk (ext2_get_inode_blk vol x ino) y)
        (div-eq_of_lt-le {k = i} vol.blk_sz (omega arith)
          (subst (λ z. i * vol.blk_sz + k < z) (sym (next_block i)) (omega (arith, lt))))
        (mul-add-mod_self_right i vol.blk_sz k ∙ mod-eq_of_lt lt)

  copy_block-inside :
      (mem buf : ℕ → ℕ) (ptr start n a : ℕ)
      → ptr ≤ a
      → a < ptr + n
      → copy_block mem buf ptr start n a ≡ buf (start + (a - ptr))
  copy_block-inside mem buf ptr start n a lo hi =
      let e : leb ptr a && ltb a (ptr + n) ≡ true = ground (arith, lo, hi) in
      rw (e, copy_block) refl

  copy_block-outside :
      (mem buf : ℕ → ℕ) (ptr start n a : ℕ)
      → a < ptr ⊎ ptr + n ≤ a
      → copy_block mem buf ptr start n a ≡ mem a
  copy_block-outside mem buf ptr start n a out =
      let e : leb ptr a && ltb a (ptr + n) ≡ false = ground (arith, out) in rw (e, copy_block) refl

  pub block-Copied :
      (mem : ℕ → ℕ) (i ptr start n : ℕ)
      → start + n ≤ vol.blk_sz
      → Copied
          (copy_block mem (vol.disk (ext2_get_inode_blk vol i ino)) ptr start n)
          mem
          ptr
          (i * vol.blk_sz + start)
          n
  unfolding Copied
  block-Copied mem i ptr start n le a =
      let buf : ℕ → ℕ = vol.disk (ext2_get_inode_blk vol i ino) in
      (
        λ lo hi.
            copy_block-inside mem buf ptr start n a lo hi
            ∙ sym (file_byte_at i (start + (a - ptr)) (omega (arith, lo, hi, le)))
            ∙ ap (file_byte vol ino) (omega (arith, lo)),
        copy_block-outside mem buf ptr start n a,
      )
