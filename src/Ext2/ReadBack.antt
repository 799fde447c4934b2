-- ===== src/Ext2/ReadBack.antt =====
-- Reading with fs/ext2/file.c `ext2_read` what `ext2_write` has written.
use kernel_old.Base.{ℕ, ◌+◌, ◌*◌, ◌/◌, ◌%◌, ◌<◌, ◌≡◌, ap, ◌∙◌, ◌⊎◌, arith}
use kernel_old.Ext2.{Vol, Inode, file_byte, write_blocks, ext2_read}
use kernel_old.Ext2.Copying.{Copied}
use kernel_old.Ext2.Reading.{ext2_read-Copied}
use kernel_old.Ext2.Filling.{byte_at, Apart, Written}
use kernel_old.Ext2.Writing.{ext2_get_inode_blk-direct, write_blocks-Written}
use native.Mathlib.Nat.{div-lt_iff_lt-mul}

module _ (vol : Vol) (ino : Inode) where
  module _ (pos : 0 < vol.blk_sz) (apart : Apart vol.blk_sz ino.blocks) where
    -- The byte of a file in its direct blocks.
    file_byte-byte_at :
        (disk : ℕ → ℕ → ℕ) (n : ℕ)
        → n < 12 * vol.blk_sz
        → file_byte (record vol { disk = disk }) ino n ≡ byte_at vol.blk_sz ino.blocks disk n
    unfolding file_byte byte_at
    file_byte-byte_at disk n lt =
        ap (λ (blk : ℕ). disk blk (n % vol.blk_sz))
          (ext2_get_inode_blk-direct vol ino disk (n / vol.blk_sz) ((div-lt_iff_lt-mul pos).1 lt))

    -- `ext2_read` of the bytes that `ext2_write` has written, under the conditions of
    -- `write_blocks-Written`, puts the same bytes at `into`.
    pub ext2_read-write_blocks :
        (ptr off size into : ℕ) (mem after : ℕ → ℕ)
        → (size + off) / vol.blk_sz < 12
        → (off % vol.blk_sz ≡ 0) ⊎ (off / vol.blk_sz < (size + off) / vol.blk_sz)
        → (a : ℕ) → a < size
        → ext2_read (write_blocks vol ino ptr off size mem) ino into off size after (into + a)
          ≡ mem (ptr + a)
    unfolding write_blocks Copied Written
    ext2_read-write_blocks ptr off size into mem after small way a lt =
        let written : Vol = write_blocks vol ino ptr off size mem in
        let in_file : off + a < 12 * vol.blk_sz =
          omega (arith, (div-lt_iff_lt-mul pos).0 small, lt) in
        (ext2_read-Copied written ino into off size after pos (omega (arith, small)) way
            (into + a)).0
          (omega arith) (omega (arith, lt))
        ∙ ap (file_byte written ino) (omega arith)
        ∙ file_byte-byte_at written.disk (off + a) in_file
        ∙ (write_blocks-Written vol ino pos apart ptr off size mem small way (off + a) in_file).0
            (omega arith) (omega (arith, lt))
        ∙ ap mem (omega arith)
