-- ===== src/Ext2/Tests.antt =====
-- Runs on a small ext2 volume, and the theorems at concrete inputs.
use kernel_old.Base.{
  load16, load32, [], Option, ◌∷◌, some, ℕ, ◌+◌, ◌*◌, ◌%◌, ◌<◌, ◌≡◌, refl, subst, ◌≢◌, inl, inr,
  arith, ◌==◌, Bool-cases, update,
}
use kernel_old.Ext2.{
  ext2_get_inode_blk, Vol, Inode, ext2_alloc_block, ext2_read, write_blocks, block_bitmap_addr,
  inode_bitmap_addr, bgds_lba, rewrite_lba, write_inode_at, read_inode_at, ext2_loc_to_blk,
  ext2_blk_to_lba, ext2_inode_lba, ext2_inode_bg, ext2_inode_bg_idx,
}
use kernel_old.Ext2.Directory.{
  ext2_read_inode, bytes_at, Dirent, dirent_at, DirNode, ext2_dirent_to_node, ext2_finddir,
  ext2_listdir,
}
use kernel_old.Ext2.Directory.Layout.{last_entry, more, no_block, block, Entries}
use kernel_old.Ext2.Directory.Lookup.{IsText, Finds, ext2_finddir-Finds, ext2_listdir-Entries}
use kernel_old.Ext2.AllocBlock.{BlockOutcome, ext2_alloc_block-Outcome}
use kernel_old.Ext2.Copying.{Copied}
use kernel_old.Ext2.Reading.{ext2_read-Copied}
use kernel_old.Ext2.Filling.{Apart}
use kernel_old.Ext2.ReadBack.{ext2_read-write_blocks}
use kernel_old.Ext2.InodePlace.{write_inode_at-read_inode_at}

-- One group, with its bitmaps in the blocks 3 and 4 and its inode table from block 5 on.
abbrev descriptors : ℕ → ℕ
descriptors = update (update (update (update (λ _. 0) 0 3) 4 4) 8 5) 16 7

-- The first 11 blocks are taken, and all inodes are free, and a byte of another block is
-- the block's number.
abbrev bytes : ℕ → ℕ → ℕ
bytes = update (update (λ b _. b % 256) 3 (update (update (λ _. 0) 0 255) 1 7)) 4 (λ _. 0)

abbrev vol : Vol
vol = record {
  blk_sz = 1024;
  log_block_sz = 0;
  blk_grp_cnt = 1;
  blks_per_grp = 8192;
  inodes_per_grp = 64;
  inode_sz = 128;
  blk_grps = descriptors;
  disk = bytes;
}

-- A file whose blocks are 20, 21 and so on.
abbrev file : Inode
file = record {
  mode = 0;
  size = 4096;
  size_u = 0;
  link_cnt = 1;
  sector_cnt = 8;
  blocks = λ i. 20 + i;
}

small : (b j : ℕ) → vol.disk b j < 256
small b j = elim (Bool-cases (b == 4)) [
  | inl e ↦ rw e (omega arith)
  | inr e ↦
      rw e (elim (Bool-cases (b == 3)) [ inl f ↦ rw f (bitmap j) | inr f ↦ rw f (omega arith) ])
]
  where
    bitmap : (j : ℕ) → update (update (λ _. 0) 0 255) 1 7 j < 256
    bitmap j = ground arith

block_bitmap : (g : ℕ) → g < 1 → block_bitmap_addr vol g ≢ 2
unfolding load32
block_bitmap g lt =
    let first : 0 ≡ g = omega (arith, lt) in
    let apart : block_bitmap_addr vol 0 ≢ 2 = λ e. absurd (omega (arith, e)) in
    subst (λ i. block_bitmap_addr vol i ≢ 2) first apart

inode_bitmap : (g : ℕ) → g < 1 → inode_bitmap_addr vol g ≢ 2
unfolding load32
inode_bitmap g lt =
    let first : 0 ≡ g = omega (arith, lt) in
    let apart : inode_bitmap_addr vol 0 ≢ 2 = λ e. absurd (omega (arith, e)) in
    subst (λ i. inode_bitmap_addr vol i ≢ 2) first apart

ext2_alloc_block-Outcome_example : BlockOutcome vol 0 1 (ext2_alloc_block vol)
ext2_alloc_block-Outcome_example = ext2_alloc_block-Outcome vol small block_bitmap (omega arith)

ext2_read-Copied_example :
    Copied vol file (ext2_read vol file 70000 1000 2000 (λ _. 0)) (λ _. 0) 70000 1000 2000
ext2_read-Copied_example =
    ext2_read-Copied vol file 70000 1000 2000 (λ _. 0) (omega arith) (omega arith)
      (inr (omega arith))

write_inode_at-read_inode_at_example :
    (write_inode_at vol 12).0 * 1024 + (write_inode_at vol 12).1
    ≡ (read_inode_at vol 12).0 * 512 + (read_inode_at vol 12).1
unfolding load32
write_inode_at-read_inode_at_example =
    write_inode_at-read_inode_at vol 12 refl refl (omega arith) (omega arith) (omega arith)
      (omega arith)

apart : Apart 1024 file.blocks
unfolding Apart
apart = λ i j lt lt' ne e. ne (omega (arith, e))

-- A write of the bytes of block 1 and of a part of block 2.
abbrev memory : ℕ → ℕ
memory a = a % 251

ext2_read-write_blocks_example :
    ext2_read
      (write_blocks vol file 4096 1024 1500 memory)
      file
      9000
      1024
      1500
      (λ _. 0)
      (9000 + 1400)
    ≡ memory (4096 + 1400)
ext2_read-write_blocks_example =
    ext2_read-write_blocks vol file (omega arith) apart 4096 1024 1500 9000 memory (λ _. 0)
      (omega arith) (inl (omega arith)) 1400 (omega arith)

-- The last inode of a group is stored in the table of the next group.
last_inode : (write_inode_at vol 64).0 ≡ 7
unfolding write_inode_at load32
last_inode = refl

last_inode_read : (read_inode_at vol 64).0 ≡ 25
unfolding read_inode_at ext2_inode_lba ext2_inode_bg ext2_inode_bg_idx load32
last_inode_read = refl

-- With blocks of 4096 bytes, the descriptors are read from block 1 and written to block 2.
abbrev large : Vol
large = record vol { blk_sz = 4096; log_block_sz = 2 }

read_from : bgds_lba large ≡ 8
unfolding bgds_lba ext2_blk_to_lba ext2_loc_to_blk
read_from = refl

written_to : rewrite_lba large ≡ 16
unfolding rewrite_lba
written_to = refl

-- Inode 2 is a directory of one block, 30, with the entries `.` and `abc`.
abbrev table_bytes : ℕ → ℕ
table_bytes = update (update (λ _. 0) 133 4) 168 30

abbrev entry_bytes : ℕ → ℕ
entry_bytes =
    update
      (update
        (update
          (update
            (update
              (update
                (update (update (update (update (update (update (λ _. 0) 0 2) 4 12) 6 1) 7 2) 8 46)
                  12 11)
                16 244)
              17 3)
            18 3)
          19 1)
        20 97)
      21 98

abbrev dir_vol : Vol
dir_vol = record vol { disk = update (update bytes 5 table_bytes) 30 (update entry_bytes 22 99) }

abbrev dot_entry : Dirent
dot_entry = record { inode = 2; size = 12; name_len = 1; file_type = 2; name = 46 ∷ [] }

abbrev abc_entry : Dirent
abc_entry = record {
  inode = 11;
  size = 1012;
  name_len = 3;
  file_type = 1;
  name = 97 ∷ 98 ∷ 99 ∷ [];
}

dir_size : (ext2_read_inode dir_vol 2).size ≡ 1024
unfolding ext2_read_inode read_inode_at ext2_inode_lba ext2_inode_bg ext2_inode_bg_idx load32
dir_size = refl

dir-Entries : Entries dir_vol (ext2_read_inode dir_vol 2) 0 (dot_entry ∷ abc_entry ∷ [])
unfolding ext2_read_inode read_inode_at ext2_inode_lba ext2_inode_bg ext2_inode_bg_idx load32
    ext2_get_inode_blk dirent_at bytes_at load16
dir-Entries =
    block 0 (dot_entry ∷ abc_entry ∷ []) [] (omega arith)
      (more 0 (abc_entry ∷ []) (omega arith) (last_entry 12 refl)) (no_block 1 refl)

abc-IsText : IsText (97 ∷ 98 ∷ 99 ∷ [])
unfolding IsText
abc-IsText = (omega arith, (omega arith, (omega arith, tt)))

ext2_finddir-Finds_example :
    (o : Option DirNode) × ((ext2_finddir 3 dir_vol 2 (97 ∷ 98 ∷ 99 ∷ []) ≡ some o)
      × Finds dir_vol (97 ∷ 98 ∷ 99 ∷ []) (dot_entry ∷ abc_entry ∷ []) o)
ext2_finddir-Finds_example =
    ext2_finddir-Finds dir_vol 2 (dot_entry ∷ abc_entry ∷ []) (omega arith) (omega arith)
      (omega (arith, dir_size)) dir-Entries 3 (97 ∷ 98 ∷ 99 ∷ []) abc-IsText (omega arith)

ext2_listdir-Entries_example :
    ext2_listdir 3 dir_vol 2
    ≡ some (ext2_dirent_to_node dir_vol dot_entry ∷ ext2_dirent_to_node dir_vol abc_entry ∷ [])
ext2_listdir-Entries_example =
    ext2_listdir-Entries dir_vol 2 (dot_entry ∷ abc_entry ∷ []) (omega arith) (omega arith)
      (omega (arith, dir_size)) dir-Entries 3 (omega arith)
