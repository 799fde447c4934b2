-- ===== src/Ext2.antt =====
-- The ext2 file system: fs/ext2/super.c, fs/ext2/inode.c and fs/ext2/file.c. The device is its
-- blocks: `disk b j` is byte `j` of the block `b`, and a read or write of `blk_sz / 512` sectors from
-- `ext2_blk_to_lba` on is one of a whole block.
pub mod Bitmap
pub mod Taking
pub mod AllocBlock
pub mod InodePlace
pub mod Copying
pub mod Reading
pub mod Filling
pub mod Writing
pub mod ReadBack
pub mod Directory
mod Tests
use kernel_old.Base.{
  load32, ℕ, zero, suc, ◌+◌, ◌-◌, ◌*◌, ◌/◌, ◌%◌, ◌^◌, ◌≤◌, ◌<◌, min, bit_and, bit_or, bit_xor, ◌≡◌,
  refl, sym, ap, ap₂, subst, ◌∙◌, ◌≢◌, ◌↔◌, ◌⊎◌, inl, inr, Bool, true, false, not, ◌&&◌, ◌||◌,
  Option, none, some, List, [], ◌∷◌, ◌++◌, map, arith, ltb, leb, ◌==◌, if◌then◌else◌, ltb→lt,
  lt→ltb, leb→le, ==_iff, ==_refl, Bool-cases, Option-cases, length, get_elem?, set, length-append,
  append_assoc, update_self, update, every, every-holds,
}

-- `load32` gives a field in memory; this sets one.
unfoldable pub store32 : (ℕ → ℕ) → (a v : ℕ) → ℕ → ℕ
store32 m a v =
    update
      (update (update (update m a (v % 2 ^ 8)) (a + 1) (v / 2 ^ 8 % 2 ^ 8)) (a + 2)
        (v / 2 ^ 16 % 2 ^ 8))
      (a + 3) (v / 2 ^ 24 % 2 ^ 8)

-- `ext2_vol_t` with the fields of its superblock that are used, and the bytes of the group
-- descriptors.
pub record Vol : Type 0 where
  pub blk_sz : ℕ
  pub log_block_sz : ℕ
  pub blk_grp_cnt : ℕ
  pub blks_per_grp : ℕ
  pub inodes_per_grp : ℕ
  pub inode_sz : ℕ
  pub blk_grps : ℕ → ℕ
  pub disk : ℕ → ℕ → ℕ

-- `sizeof(ext2_bgd_t)`, packed
abbrev pub bgd_size : ℕ
bgd_size = 38

abbrev pub block_bitmap_addr : Vol → ℕ → ℕ
block_bitmap_addr vol i = load32 vol.blk_grps (i * bgd_size)

abbrev pub inode_bitmap_addr : Vol → ℕ → ℕ
inode_bitmap_addr vol i = load32 vol.blk_grps (i * bgd_size + 4)

abbrev pub inode_tbl_addr : Vol → ℕ → ℕ
inode_tbl_addr vol i = load32 vol.blk_grps (i * bgd_size + 8)

abbrev pub free_blocks_at : ℕ → ℕ
free_blocks_at i = i * bgd_size + 12

abbrev pub free_inodes_at : ℕ → ℕ
free_inodes_at i = i * bgd_size + 16

unfoldable pub ext2_inode_bg_idx : Vol → ℕ → ℕ
ext2_inode_bg_idx vol inode = (inode + (2 ^ 32 - 1)) % 2 ^ 32 % vol.inodes_per_grp

unfoldable pub ext2_inode_bg : Vol → ℕ → ℕ
ext2_inode_bg vol inode = (inode + (2 ^ 32 - 1)) % 2 ^ 32 / vol.inodes_per_grp

unfoldable pub ext2_inode_lba : Vol → ℕ → ℕ
ext2_inode_lba vol inode =
    (inode_tbl_addr vol (ext2_inode_bg vol inode) * vol.blk_sz
      + ext2_inode_bg_idx vol inode * vol.inode_sz)
    % 2 ^ 32
    / 512

unfoldable pub ext2_loc_to_blk : Vol → ℕ → ℕ
ext2_loc_to_blk vol loc = loc / 2 ^ vol.log_block_sz / 2 ^ 10 % 2 ^ 32

unfoldable pub ext2_blk_to_lba : Vol → ℕ → ℕ
ext2_blk_to_lba vol blk = blk * (vol.blk_sz / 512) % 2 ^ 64

-- The first sector of the group descriptors, as `ext2_init` reads them and as
-- `ext2_rewrite_bgds` writes them.
unfoldable pub bgds_lba : Vol → ℕ
bgds_lba vol = ext2_blk_to_lba vol (ext2_loc_to_blk vol 1024 + 1)

unfoldable pub rewrite_lba : Vol → ℕ
rewrite_lba vol = 2 * (vol.blk_sz / 512) % 2 ^ 32

-- One block written.
abbrev pub write_block : Vol → (blk : ℕ) → (ℕ → ℕ) → Vol
write_block vol blk bytes = record vol { disk = update vol.disk blk bytes }

-- `ext2_rewrite_bgds`: the group descriptors over the start of block 2. Descriptors that do not
-- fit in a block are stored past its buffer; the model is of those that do.
unfoldable pub ext2_rewrite_bgds : Vol → Vol
ext2_rewrite_bgds vol =
    write_block vol 2
      (λ j. if ltb j (vol.blk_grp_cnt * bgd_size) then vol.blk_grps j else vol.disk 2 j)

-- The first bit of a byte that is clear, over the bits left.
unfoldable pub find_bit : (byte k rounds : ℕ) → Option ℕ
find_bit byte k zero = none
find_bit byte k (suc n) =
    let next = find_bit byte (k + 1) n in if bit_and byte (2 ^ k) == 0 then some k else next

-- The first byte and bit of a bitmap that are clear, over the bytes left.
unfoldable pub find_byte : (buf : ℕ → ℕ) → (j rounds : ℕ) → Option (ℕ × ℕ)
find_byte buf j zero = none
find_byte buf j (suc n) =
    let next = find_byte buf (j + 1) n in
    let look : Option (ℕ × ℕ) = elim (find_bit (buf j) 0 8) [
      | some k ↦ some (j, k)
      | none ↦ next
    ] in
    if buf j == 255 then next else look

-- The bit is set in the bitmap's block, and the count at `count_at` in the descriptors goes down.
unfoldable pub take_bit : Vol → (bitmap count_at j k : ℕ) → Vol
take_bit vol bitmap count_at j k =
    let buf : ℕ → ℕ = vol.disk bitmap in
    let written : Vol = write_block vol bitmap (update buf j (bit_or (buf j) (2 ^ k))) in
    let count : ℕ = (load32 vol.blk_grps count_at + (2 ^ 32 - 1)) % 2 ^ 32 in
    ext2_rewrite_bgds (record written { blk_grps = store32 vol.blk_grps count_at count })

-- The loop of `ext2_alloc_block` over the groups left.
unfoldable pub alloc_block_loop : Vol → (i rounds : ℕ) → ℕ × Vol
alloc_block_loop vol i zero = (0, vol)
alloc_block_loop vol i (suc n) =
    let next = alloc_block_loop vol (i + 1) n in
    elim (find_byte (vol.disk (block_bitmap_addr vol i)) 0 vol.blk_sz) [
      | none ↦ next
      | some (j, k) ↦ (
        (i * vol.blks_per_grp + j * 8 + k) % 2 ^ 32,
        take_bit vol (block_bitmap_addr vol i) (free_blocks_at i) j k,
      )
    ]

unfoldable pub ext2_alloc_block : Vol → ℕ × Vol
ext2_alloc_block vol = alloc_block_loop vol 0 vol.blk_grp_cnt

-- The loop of `ext2_alloc_inode`, which skips the groups that count no free inode.
unfoldable pub alloc_inode_loop : Vol → (i rounds : ℕ) → ℕ × Vol
alloc_inode_loop vol i zero = (0, vol)
alloc_inode_loop vol i (suc n) =
    let next = alloc_inode_loop vol (i + 1) n in
    let look : ℕ × Vol = elim (find_byte (vol.disk (inode_bitmap_addr vol i)) 0 vol.blk_sz) [
      | none ↦ next
      | some (j, k) ↦ (
        (i * vol.inodes_per_grp + j * 8 + k) % 2 ^ 32,
        take_bit vol (inode_bitmap_addr vol i) (free_inodes_at i) j k,
      )
    ] in
    if load32 vol.blk_grps (free_inodes_at i) == 0 then next else look

unfoldable pub ext2_alloc_inode : Vol → ℕ × Vol
ext2_alloc_inode vol = alloc_inode_loop vol 0 vol.blk_grp_cnt

-- `ext2_inode_t`, with the fields that are used.
pub record Inode : Type 0 where
  pub mode : ℕ
  pub size : ℕ
  pub size_u : ℕ
  pub link_cnt : ℕ
  pub sector_cnt : ℕ
  pub blocks : ℕ → ℕ

unfoldable pub ext2_get_size : Inode → ℕ
ext2_get_size ino = ino.size + ino.size_u * 2 ^ 32

-- `EXT2_DIR` is 2. The fields left out are set to 0.
unfoldable pub ext2_init_inode : (type perms : ℕ) → Inode
ext2_init_inode type perms = record {
  mode = bit_or (perms % 2 ^ 12) type % 2 ^ 16;
  size = 0;
  size_u = 0;
  link_cnt = if type == 2 then 2 else 0;
  sector_cnt = 0;
  blocks = λ _. 0;
}

-- The block of a file, through the pointers of the inode, of one block, or of two. Entry 12 is the
-- singly and entry 13 the doubly indirect block.
unfoldable pub ext2_get_inode_blk : Vol → (idx : ℕ) → Inode → ℕ
ext2_get_inode_blk vol idx ino =
    let bpp : ℕ = vol.blk_sz / 4 in
    if ltb idx 12
    then ino.blocks idx
    else if ltb idx (12 + bpp)
    then load32 (vol.disk (ino.blocks 12)) ((idx - 12) * 4)
    else if ltb idx (12 + bpp + bpp * bpp)
    then load32 (vol.disk (load32 (vol.disk (ino.blocks 13)) ((idx - (12 + bpp)) / bpp * 4)))
        ((idx - (12 + bpp)) % bpp * 4)
    else 0

-- The block and the byte in it where `ext2_write_inode` stores an inode.
unfoldable pub write_inode_at : Vol → (num : ℕ) → ℕ × ℕ
write_inode_at vol num =
    let table : ℕ = inode_tbl_addr vol (num / vol.inodes_per_grp) in
    let before : ℕ = (num + (2 ^ 32 - 1)) % 2 ^ 32 in
    let offset : ℕ = before * vol.inode_sz % 2 ^ 32 / vol.blk_sz in
    (table + offset, (before - offset * (vol.blk_sz / vol.inode_sz)) * vol.inode_sz)

-- The sector and the byte in it where `ext2_read_inode` finds an inode.
unfoldable pub read_inode_at : Vol → (num : ℕ) → ℕ × ℕ
read_inode_at vol num = (ext2_inode_lba vol num, ext2_inode_bg_idx vol num * vol.inode_sz % 512)

-- A byte of a file, by its offset.
unfoldable pub file_byte : Vol → Inode → ℕ → ℕ
file_byte vol ino n = vol.disk (ext2_get_inode_blk vol (n / vol.blk_sz) ino) (n % vol.blk_sz)

-- `memcpy(ptr, buf + start, n)`
abbrev pub copy_block : (mem buf : ℕ → ℕ) → (ptr start n : ℕ) → ℕ → ℕ
copy_block mem buf ptr start n a =
    if leb ptr a && ltb a (ptr + n) then buf (start + (a - ptr)) else mem a

-- The loop of `ext2_read` from block `i` on, over the blocks left, `ptr` being `ptr + ptroff`.
unfoldable pub read_loop :
    Vol → Inode → (startblk endblk modoff modend i rounds ptr : ℕ) → (ℕ → ℕ) → ℕ → ℕ
read_loop vol ino startblk endblk modoff modend i zero ptr mem = mem
read_loop vol ino startblk endblk modoff modend i (suc n) ptr mem =
    let start : ℕ = if i == startblk then modoff else 0 in
    let size : ℕ =
      if i == endblk then modend else if i == startblk then vol.blk_sz - start else vol.blk_sz in
    read_loop vol ino startblk endblk modoff modend (i + 1) n (ptr + size)
      (copy_block mem (vol.disk (ext2_get_inode_blk vol i ino)) ptr start size)

-- `ext2_read` into memory, after the inode has been read. For `endblk` at `2 ^ 32 - 1`, where the
-- source's counter wraps around and never ends, this is the loop's first pass.
unfoldable pub ext2_read : Vol → Inode → (ptr off size : ℕ) → (ℕ → ℕ) → ℕ → ℕ
ext2_read vol ino ptr off size mem =
    let startblk : ℕ = off / vol.blk_sz % 2 ^ 32 in
    let endblk : ℕ = (size + off) / vol.blk_sz % 2 ^ 32 in
    read_loop vol ino startblk endblk (off % vol.blk_sz) ((size + off) % vol.blk_sz) startblk
      (endblk + 1 - startblk) ptr mem

-- `memcpy(buf + start, ptr, n)`
abbrev pub fill_block : (mem buf : ℕ → ℕ) → (ptr start n : ℕ) → ℕ → ℕ
fill_block mem buf ptr start n j =
    if leb start j && ltb j (start + n) then mem (ptr + (j - start)) else buf j

-- The loop of `ext2_write` from block `i` on, over the blocks left, `ptr` being `ptr + ptroff`; each
-- block is read, changed and written.
unfoldable pub write_loop :
    Vol
    → Inode
    → (startblk endblk modoff modend i rounds ptr : ℕ) → (mem : ℕ → ℕ) → (disk : ℕ → ℕ → ℕ) → ℕ
    → ℕ
    → ℕ
write_loop vol ino startblk endblk modoff modend i zero ptr mem disk = disk
write_loop vol ino startblk endblk modoff modend i (suc n) ptr mem disk =
    let start : ℕ = if i == startblk then modoff else 0 in
    let size : ℕ =
      if i == endblk then modend else if i == startblk then vol.blk_sz - start else vol.blk_sz in
    let blk : ℕ = ext2_get_inode_blk (record vol { disk = disk }) i ino in
    write_loop vol ino startblk endblk modoff modend (i + 1) n (ptr + size) mem
      (update disk blk (fill_block mem (disk blk) ptr start size))

-- `ext2_write` from memory, after the inode has been read and its size settled.
unfoldable pub write_blocks : Vol → Inode → (ptr off size : ℕ) → (ℕ → ℕ) → Vol
write_blocks vol ino ptr off size mem =
    let startblk : ℕ = off / vol.blk_sz % 2 ^ 32 in
    let endblk : ℕ = (size + off) / vol.blk_sz % 2 ^ 32 in
    record vol {
      disk =
          write_loop vol ino startblk endblk (off % vol.blk_sz) ((size + off) % vol.blk_sz) startblk
            (endblk + 1 - startblk) ptr mem vol.disk;
    }
