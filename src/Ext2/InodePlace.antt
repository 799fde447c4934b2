-- ===== src/Ext2/InodePlace.antt =====
-- Where fs/ext2/inode.c `ext2_read_inode` and `ext2_write_inode` look for an inode.
use kernel_old.Base.{ℕ, ◌+◌, ◌-◌, ◌*◌, ◌/◌, ◌%◌, ◌^◌, ◌<◌, ◌≡◌, arith}
use kernel_old.Ext2.{
  Vol, inode_tbl_addr, ext2_inode_bg_idx, ext2_inode_bg, ext2_inode_lba, write_inode_at,
  read_inode_at,
}
use native.Mathlib.Nat.{mod-eq_of_lt, div-eq_of_lt}

place :
    (table n : ℕ)
    → table * 1024 + n * 128 < 2 ^ 32
    → (table + n * 128 % 2 ^ 32 / 1024) * 1024 + (n - n * 128 % 2 ^ 32 / 1024 * 8) * 128
      ≡ (table * 1024 + n * 128) % 2 ^ 32 / 512 * 512 + n * 128 % 512
place table n lt =
    let low : n * 128 % 2 ^ 32 ≡ n * 128 = mod-eq_of_lt (omega (arith, lt)) in
    let all : (table * 1024 + n * 128) % 2 ^ 32 ≡ table * 1024 + n * 128 = mod-eq_of_lt lt in
    rw (low, all) (omega arith)

-- With inodes of 128 bytes and blocks of 1024, a table
-- that ends below byte `2 ^ 32`, and an inode of the first group that is not its last, the byte
-- where `ext2_write_inode` stores the inode is the one where `ext2_read_inode` reads it.
pub write_inode_at-read_inode_at :
    (vol : Vol) (num : ℕ)
    → vol.blk_sz ≡ 1024
    → vol.inode_sz ≡ 128
    → 0 < num
    → num < vol.inodes_per_grp
    → num < 2 ^ 32
    → inode_tbl_addr vol 0 * 1024 + num * 128 < 2 ^ 32
    → (write_inode_at vol num).0 * 1024 + (write_inode_at vol num).1
      ≡ (read_inode_at vol num).0 * 512 + (read_inode_at vol num).1
unfolding write_inode_at read_inode_at ext2_inode_lba ext2_inode_bg ext2_inode_bg_idx
write_inode_at-read_inode_at vol num block inode pos lt small room =
    let before : (num + (2 ^ 32 - 1)) % 2 ^ 32 ≡ num - 1 = omega (arith, pos, small) in
    let at : (num - 1) % vol.inodes_per_grp ≡ num - 1 = mod-eq_of_lt (omega (arith, lt)) in
    let group : (num - 1) / vol.inodes_per_grp ≡ 0 = div-eq_of_lt (omega (arith, lt)) in
    let group' : num / vol.inodes_per_grp ≡ 0 = div-eq_of_lt lt in
    rw (before, at, group, group', block, inode)
      (place (inode_tbl_addr vol 0) (num - 1) (omega (arith, room, pos)))
