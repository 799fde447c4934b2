-- ===== src/Ext2/Directory.antt =====
-- Reading an ext2 directory: fs/ext2/dir.c `ext2_finddir`, `ext2_listdir` and `ext2_dirent_to_node`,
-- and the inode that fs/ext2/inode.c `ext2_read_inode` gives. The index and the offset in the block
-- are 32-bit numbers.
pub mod Layout
pub mod Lookup
use kernel_old.Base.{
  load16, load32, ℕ, zero, suc, ◌+◌, ◌-◌, ◌*◌, ◌/◌, ◌%◌, ◌^◌, ◌≤◌, ◌<◌, min, bit_and, bit_or,
  bit_xor, ◌≡◌, refl, sym, ap, ap₂, subst, ◌∙◌, ◌≢◌, ◌↔◌, ◌⊎◌, inl, inr, Bool, true, false, not,
  ◌&&◌, ◌||◌, Option, none, some, List, [], ◌∷◌, ◌++◌, map, arith, ltb, leb, ◌==◌, if◌then◌else◌,
  ltb→lt, lt→ltb, leb→le, ==_iff, ==_refl, Bool-cases, Option-cases, length, get_elem?, set,
  length-append, append_assoc, update_self, update, every, every-holds, ==_false, update_ne,
  bool_eq, bool_eq→≡, overlay, overlay-inside, overlay-within, overlay-outside,
}
use kernel_old.Vfs.{Text, same_text}
use kernel_old.Ext2.{Vol, Inode, ext2_get_size, ext2_get_inode_blk, read_inode_at}

-- A byte of the sector `lba`.
abbrev pub sector_byte : Vol → (lba j : ℕ) → ℕ
sector_byte vol lba j = vol.disk ((lba * 512 + j) / vol.blk_sz) ((lba * 512 + j) % vol.blk_sz)

-- `ext2_read_inode`, of an inode that does not cross the end of its sector.
unfoldable pub ext2_read_inode : Vol → (num : ℕ) → Inode
ext2_read_inode vol num =
    let (lba, at) = read_inode_at vol num in
    let buf : ℕ → ℕ = sector_byte vol lba in
    record {
      mode = load16 buf at;
      size = load32 buf (at + 4);
      size_u = load32 buf (at + 108);
      link_cnt = load16 buf (at + 26);
      sector_cnt = load32 buf (at + 28);
      blocks = λ i. load32 buf (at + 40 + i * 4);
    }

-- `ext2_read_inode_blk`: the buffer afterwards.
abbrev pub ext2_read_inode_blk : Vol → (idx : ℕ) → Inode → ℕ → ℕ
ext2_read_inode_blk vol idx ino = vol.disk (ext2_get_inode_blk vol idx ino)

-- The `n` bytes at `a`.
unfoldable pub bytes_at : (ℕ → ℕ) → (a n : ℕ) → Text
bytes_at buf a zero = []
bytes_at buf a (suc n) = buf a ∷ bytes_at buf (a + 1) n

-- `ext2_dir_ent_t` with the name behind it.
pub record Dirent : Type 0 where
  pub inode : ℕ
  pub size : ℕ
  pub name_len : ℕ
  pub file_type : ℕ
  pub name : Text

unfoldable pub dirent_at : (buf : ℕ → ℕ) → (off : ℕ) → Dirent
dirent_at buf off = record {
  inode = load32 buf off;
  size = load16 buf (off + 4);
  name_len = buf (off + 6);
  file_type = buf (off + 7);
  name = bytes_at buf (off + 8) (buf (off + 6));
}

-- What `strncpy` copies: the bytes before a NUL.
unfoldable pub before_nul : Text → Text
before_nul [] = []
before_nul (c ∷ cs) = let rest = before_nul cs in if c == 0 then [] else c ∷ rest

-- The fields of a node that depend on the entry. `flags` is `none` where they are left as `kmalloc`
-- gives them; `FS_FILE` is 1 and `FS_DIR` is 2.
pub record DirNode : Type 0 where
  pub node_name : Text
  pub node_size : ℕ
  pub inode_num : ℕ
  pub flags : Option ℕ

unfoldable pub ext2_dirent_to_node : Vol → Dirent → DirNode
ext2_dirent_to_node vol dirent = record {
  node_name = before_nul dirent.name;
  node_size = ext2_get_size (ext2_read_inode vol dirent.inode);
  inode_num = dirent.inode;
  flags = if dirent.file_type == 2 then some 2 else if dirent.file_type == 1 then some 1 else none;
}

-- `strlen(name) == name_len`, and the bytes of the two names are the same.
unfoldable pub has_name : Text → Dirent → Bool
has_name name dirent = (length name == dirent.name_len) && same_text name dirent.name

-- `blk_idx` and `blk_off` after the entry at `blk_off`.
abbrev pub at_end : Vol → (off : ℕ) → Bool
at_end vol off = leb vol.blk_sz off

unfoldable pub next_idx : Vol → (blk_idx off : ℕ) → ℕ
next_idx vol blk_idx off = if at_end vol off then (blk_idx + 1) % 2 ^ 32 else blk_idx

unfoldable pub next_off : Vol → (off : ℕ) → ℕ
next_off vol off = if at_end vol off then 0 else off

-- The condition of the loops.
abbrev pub in_directory : Vol → Inode → (blk_idx : ℕ) → Bool
in_directory vol ino blk_idx = ltb (blk_idx * vol.blk_sz % 2 ^ 32) ino.size

-- The loop of `ext2_finddir`, on fuel.
unfoldable pub finddir_loop :
    (fuel : ℕ) → Vol → Inode → (name : Text) → (blk_idx blk_off : ℕ) → Option (Option DirNode)
finddir_loop zero vol ino name blk_idx blk_off = none
finddir_loop (suc fuel) vol ino name blk_idx blk_off =
    let fnd_dir : Dirent = dirent_at (ext2_read_inode_blk vol blk_idx ino) blk_off in
    let off : ℕ = (blk_off + fnd_dir.size) % 2 ^ 32 in
    let next = finddir_loop fuel vol ino name (next_idx vol blk_idx off) (next_off vol off) in
    if in_directory vol ino blk_idx
    then (if has_name name fnd_dir then some (some (ext2_dirent_to_node vol fnd_dir)) else next)
    else some none

unfoldable pub ext2_finddir : (fuel : ℕ) → Vol → (dir : ℕ) → (name : Text) → Option (Option DirNode)
ext2_finddir fuel vol dir name = finddir_loop fuel vol (ext2_read_inode vol dir) name 0 0

abbrev pub before_nodes : DirNode → Option (List DirNode) → Option (List DirNode)
before_nodes node none = none
before_nodes node (some nodes) = some (node ∷ nodes)

-- The loop of `ext2_listdir`, on fuel: the nodes pushed from here on.
unfoldable pub listdir_loop :
    (fuel : ℕ) → Vol → Inode → (blk_idx blk_off : ℕ) → Option (List DirNode)
listdir_loop zero vol ino blk_idx blk_off = none
listdir_loop (suc fuel) vol ino blk_idx blk_off =
    let fnd_dir : Dirent = dirent_at (ext2_read_inode_blk vol blk_idx ino) blk_off in
    let off : ℕ = (blk_off + fnd_dir.size) % 2 ^ 32 in
    let next = listdir_loop fuel vol ino (next_idx vol blk_idx off) (next_off vol off) in
    if in_directory vol ino blk_idx
    then before_nodes (ext2_dirent_to_node vol fnd_dir) next
    else some []

unfoldable pub ext2_listdir : (fuel : ℕ) → Vol → (dir : ℕ) → Option (List DirNode)
ext2_listdir fuel vol dir = listdir_loop fuel vol (ext2_read_inode vol dir) 0 0
