-- ===== src/Ext2/Directory/Layout.antt =====
-- How the entries of an ext2 directory lie in its blocks, and the order in which the loops of
-- fs/ext2/dir.c come to them.
use kernel_old.Base.{
  ℕ, zero, suc, ◌+◌, ◌*◌, ◌%◌, ◌^◌, ◌≤◌, ◌<◌, ◌≡◌, refl, true, false, List, [], ◌∷◌, ◌++◌, arith,
  leb,
}
use native.Mathlib.Nat.{suc-mul}
use kernel_old.Ext2.{Vol, Inode}
use kernel_old.Ext2.Directory.{
  ext2_read_inode_blk, Dirent, dirent_at, next_idx, next_off, in_directory,
}

-- Entries that fill a block from the byte `o` to its end.
pub data Tiles (blk_sz : ℕ) (buf : ℕ → ℕ) : ℕ → List Dirent → Type 0 where
  last_entry :
      (o : ℕ) → o + (dirent_at buf o).size ≡ blk_sz → Tiles blk_sz buf o (dirent_at buf o ∷ [])
  more :
      (o : ℕ) (es : List Dirent)
      → o + (dirent_at buf o).size < blk_sz
      → Tiles blk_sz buf (o + (dirent_at buf o).size) es
      → Tiles blk_sz buf o (dirent_at buf o ∷ es)

-- The entries of a directory's blocks from the block `b` on; the directory ends with a whole block.
pub data Entries (vol : Vol) (ino : Inode) : ℕ → List Dirent → Type 0 where
  no_block : (b : ℕ) → b * vol.blk_sz ≡ ino.size → Entries vol ino b []
  block :
      (b : ℕ) (es es' : List Dirent)
      → b * vol.blk_sz < ino.size
      → Tiles vol.blk_sz (ext2_read_inode_blk vol b ino) 0 es
      → Entries vol ino (b + 1) es'
      → Entries vol ino b (es ++ es')

-- The entries that the loops come to, from the block `b` and the offset `o` on.
pub data Walk (vol : Vol) (ino : Inode) : ℕ → ℕ → List Dirent → Type 0 where
  stop : (b o : ℕ) → in_directory vol ino b ≡ false → Walk vol ino b o []
  step :
      (b o : ℕ) (es : List Dirent)
      → in_directory vol ino b ≡ true
      → Walk vol ino
          (next_idx vol b ((o + (dirent_at (ext2_read_inode_blk vol b ino) o).size) % 2 ^ 32))
          (next_off vol ((o + (dirent_at (ext2_read_inode_blk vol b ino) o).size) % 2 ^ 32))
          es
      → Walk vol ino b o (dirent_at (ext2_read_inode_blk vol b ino) o ∷ es)

module _ (vol : Vol) (ino : Inode) (positive : 0 < vol.blk_sz) (small_blocks : vol.blk_sz < 2 ^ 32)
    (small_file : ino.size < 2 ^ 32) where
  few_blocks : (b : ℕ) → b ≤ b * vol.blk_sz
  few_blocks zero = omega arith
  few_blocks (suc b) =
      let le : b ≤ b * vol.blk_sz = few_blocks b in
      omega (arith, le, positive, suc-mul b vol.blk_sz)

  walk_on :
      (b o o' : ℕ) (es : List Dirent)
      → o + (dirent_at (ext2_read_inode_blk vol b ino) o).size ≡ o'
      → o' < vol.blk_sz
      → in_directory vol ino b ≡ true
      → Walk vol ino b o' es
      → Walk vol ino b o (dirent_at (ext2_read_inode_blk vol b ino) o ∷ es)
  unfolding next_idx next_off
  walk_on b o o' es e lt inside w =
      let off : o' % 2 ^ 32 ≡ o' = omega (arith, lt, small_blocks) in
      let more_left : leb vol.blk_sz o' ≡ false = ground (arith, lt) in
      step b o es inside (rw (e, off, more_left) w)

  walk_over :
      (b o : ℕ) (es : List Dirent)
      → o + (dirent_at (ext2_read_inode_blk vol b ino) o).size ≡ vol.blk_sz
      → b + 1 < 2 ^ 32
      → in_directory vol ino b ≡ true
      → Walk vol ino (b + 1) 0 es
      → Walk vol ino b o (dirent_at (ext2_read_inode_blk vol b ino) o ∷ es)
  unfolding next_idx next_off
  walk_over b o es e few inside w =
      let off : vol.blk_sz % 2 ^ 32 ≡ vol.blk_sz = omega (arith, small_blocks) in
      let none_left : leb vol.blk_sz vol.blk_sz ≡ true = ground arith in
      let idx : (b + 1) % 2 ^ 32 ≡ b + 1 = omega (arith, few) in
      step b o es inside (rw (e, off, none_left, idx) w)

  Tiles-Walk :
      (b o : ℕ) (es es' : List Dirent)
      → b + 1 < 2 ^ 32
      → in_directory vol ino b ≡ true
      → Tiles vol.blk_sz (ext2_read_inode_blk vol b ino) o es
      → Walk vol ino (b + 1) 0 es'
      → Walk vol ino b o (es ++ es')
  Tiles-Walk b o es es' few inside (last_entry _ e) w = walk_over b o es' e few inside w
  Tiles-Walk b o es es' few inside (more _ ds lt t) w =
      walk_on b o (o + (dirent_at (ext2_read_inode_blk vol b ino) o).size) (ds ++ es') refl lt
        inside
        (Tiles-Walk b (o + (dirent_at (ext2_read_inode_blk vol b ino) o).size) ds es' few inside t
          w)

  -- The loops come to the entries of a directory in order.
  pub Entries-Walk : (b : ℕ) (es : List Dirent) → Entries vol ino b es → Walk vol ino b 0 es
  Entries-Walk b es (no_block _ e) = stop b 0 (ground (arith, e, small_file))
  Entries-Walk b es (block _ ds es' lt t h) =
      Tiles-Walk b 0 ds es' (omega (arith, few_blocks b, lt, small_file))
        (ground (arith, lt, small_file)) t (Entries-Walk (b + 1) es' h)
