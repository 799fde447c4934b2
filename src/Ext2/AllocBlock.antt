-- ===== src/Ext2/AllocBlock.antt =====
-- fs/ext2/super.c `ext2_alloc_block` and fs/ext2/inode.c `ext2_alloc_inode`: which bit is taken, and
-- what the volume is afterwards.
use kernel_old.Base.{
  load32, ℕ, zero, suc, ◌+◌, ◌*◌, ◌≤◌, ◌<◌, refl, subst, ◌≢◌, inl, inr, Bool, false, arith, ◌==◌,
  Bool-cases,
}
use kernel_old.Ext2.{
  Vol, bgd_size, block_bitmap_addr, inode_bitmap_addr, free_blocks_at, free_inodes_at, find_byte,
  alloc_block_loop, ext2_alloc_block, alloc_inode_loop, ext2_alloc_inode,
}
use kernel_old.Ext2.Bitmap.{find_byte-FirstFree}
use kernel_old.Ext2.Taking.{Full, Outcome, onward, here-skip, group-Outcome}

-- The block bitmaps of the groups from `i` up to `hi`, all of which are searched.
pub BlockOutcome : (vol : Vol) (i hi : ℕ) → ℕ × Vol → Type 0
BlockOutcome vol = Outcome vol (block_bitmap_addr vol) free_blocks_at vol.blks_per_grp (λ _. false)

alloc_block_loop-Outcome :
    (vol : Vol) (i n : ℕ)
    → ((b j : ℕ) → vol.disk b j < 256)
    → ((g : ℕ) → g < vol.blk_grp_cnt → block_bitmap_addr vol g ≢ 2)
    → i + n ≤ vol.blk_grp_cnt
    → BlockOutcome vol i (i + n) (alloc_block_loop vol i n)
unfolding alloc_block_loop BlockOutcome Outcome Full
alloc_block_loop-Outcome vol i zero bytes apart le =
    inl (refl, λ f m lo lt. absurd (omega (arith, lo, lt)))
alloc_block_loop-Outcome vol i (suc n) bytes apart le =
    group-Outcome vol (block_bitmap_addr vol) free_blocks_at vol.blks_per_grp (λ _. false) bytes
      apart i (i + suc n) (find_byte (vol.disk (block_bitmap_addr vol i)) 0 vol.blk_sz)
      (alloc_block_loop vol (i + 1) n) (omega arith) le refl
      (find_byte-FirstFree (vol.disk (block_bitmap_addr vol i)) 0 vol.blk_sz)
      (subst (λ hi. BlockOutcome vol (i + 1) hi (alloc_block_loop vol (i + 1) n)) (omega arith)
        (alloc_block_loop-Outcome vol (i + 1) n bytes apart (omega (arith, le))))

-- `ext2_alloc_block`, on a volume whose group descriptors fit in a block and have no block bitmap in
-- block 2, either finds every bitmap full, returns 0 and keeps the volume, or takes the lowest clear
-- bit of the first group that has one: it returns the number of bits before it, with `blks_per_grp`
-- to a group, that bit alone is set in the bitmap, and the group counts one free block less.
pub ext2_alloc_block-Outcome :
    (vol : Vol)
    → ((b j : ℕ) → vol.disk b j < 256)
    → ((g : ℕ) → g < vol.blk_grp_cnt → block_bitmap_addr vol g ≢ 2)
    → vol.blk_grp_cnt * bgd_size ≤ vol.blk_sz
    → BlockOutcome vol 0 vol.blk_grp_cnt (ext2_alloc_block vol)
unfolding ext2_alloc_block
ext2_alloc_block-Outcome vol bytes apart fits =
    subst (λ n. BlockOutcome vol 0 n (alloc_block_loop vol 0 vol.blk_grp_cnt)) (omega arith)
      (alloc_block_loop-Outcome vol 0 vol.blk_grp_cnt bytes apart (omega arith))

-- A group that counts no free inode is passed over.
abbrev no_inode : Vol → ℕ → Bool
no_inode vol g = load32 vol.blk_grps (free_inodes_at g) == 0

pub InodeOutcome : (vol : Vol) (i hi : ℕ) → ℕ × Vol → Type 0
InodeOutcome vol =
    Outcome vol (inode_bitmap_addr vol) free_inodes_at vol.inodes_per_grp (no_inode vol)

alloc_inode_loop-Outcome :
    (vol : Vol) (i n : ℕ)
    → ((b j : ℕ) → vol.disk b j < 256)
    → ((g : ℕ) → g < vol.blk_grp_cnt → inode_bitmap_addr vol g ≢ 2)
    → i + n ≤ vol.blk_grp_cnt
    → InodeOutcome vol i (i + n) (alloc_inode_loop vol i n)
unfolding alloc_inode_loop InodeOutcome Outcome Full
alloc_inode_loop-Outcome vol i zero bytes apart le =
    inl (refl, λ f m lo lt. absurd (omega (arith, lo, lt)))
alloc_inode_loop-Outcome vol i (suc n) bytes apart le =
    let next : ℕ × Vol = alloc_inode_loop vol (i + 1) n in
    let later : InodeOutcome vol (i + 1) (i + suc n) next =
      subst (λ hi. InodeOutcome vol (i + 1) hi next) (omega arith)
        (alloc_inode_loop-Outcome vol (i + 1) n bytes apart (omega (arith, le))) in
    elim (Bool-cases (no_inode vol i)) [
      | inl e ↦
          rw (e, alloc_inode_loop)
            (onward vol (inode_bitmap_addr vol) free_inodes_at vol.inodes_per_grp (no_inode vol) i
              (i + suc n) next
              (here-skip vol (inode_bitmap_addr vol) free_inodes_at vol.inodes_per_grp
                (no_inode vol) bytes apart i e)
              later)
      | inr e ↦
          rw (e, alloc_inode_loop)
            (group-Outcome vol (inode_bitmap_addr vol) free_inodes_at vol.inodes_per_grp
              (no_inode vol) bytes apart i (i + suc n)
              (find_byte (vol.disk (inode_bitmap_addr vol i)) 0 vol.blk_sz) next (omega arith) le e
              (find_byte-FirstFree (vol.disk (inode_bitmap_addr vol i)) 0 vol.blk_sz) later)
    ]

-- `ext2_alloc_inode`, when no inode bitmap lies in block 2, passes over the groups that count no
-- free inode. Of the others it either finds every bitmap full, returns 0 and keeps the volume, or
-- takes the lowest clear bit of the first that has one, and returns the bit's position without the
-- 1 that inode numbers start at.
pub ext2_alloc_inode-Outcome :
    (vol : Vol)
    → ((b j : ℕ) → vol.disk b j < 256)
    → ((g : ℕ) → g < vol.blk_grp_cnt → inode_bitmap_addr vol g ≢ 2)
    → InodeOutcome vol 0 vol.blk_grp_cnt (ext2_alloc_inode vol)
unfolding ext2_alloc_inode
ext2_alloc_inode-Outcome vol bytes apart =
    subst (λ n. InodeOutcome vol 0 n (alloc_inode_loop vol 0 vol.blk_grp_cnt)) (omega arith)
      (alloc_inode_loop-Outcome vol 0 vol.blk_grp_cnt bytes apart (omega arith))
