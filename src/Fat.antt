-- ===== src/Fat.antt =====
-- The FAT32 file system: fs/fat/fat.c, fs/fat/fatent.c and `fat_read` of fs/fat/file.c. The device
-- is its sectors of 512 bytes: `sectors s j` is byte `j` of sector `s`.
pub mod Chains
pub mod Reading
mod Tests
use kernel_old.Base.{
  overlay, ℕ, zero, suc, ◌+◌, ◌-◌, ◌*◌, ◌/◌, ◌%◌, ◌^◌, ◌≤◌, ◌<◌, min, bit_and, bit_or, bit_xor, ◌≡◌,
  refl, sym, ap, ap₂, subst, ◌∙◌, ◌≢◌, ◌↔◌, ◌⊎◌, inl, inr, Bool, true, false, not, ◌&&◌, ◌||◌,
  Option, none, some, List, [], ◌∷◌, ◌++◌, map, arith, ltb, leb, ◌==◌, if◌then◌else◌, ltb→lt,
  lt→ltb, leb→le, ==_iff, ==_refl, Bool-cases, Option-cases, length, get_elem?, set, length-append,
  append_assoc, update_self, update, every, every-holds,
}

-- `fat_bootrecord_t`, with the fields that are used.
pub record BootRecord : Type 0 where
  pub sector_sz : ℕ
  pub sectors_per_cluster : ℕ
  pub res_sectors : ℕ
  pub fats : ℕ
  pub dir-Entries : ℕ
  pub sector_cnt : ℕ
  pub large_sector_cnt : ℕ
  pub sectors_per_fat : ℕ
  pub cluster_num : ℕ
  pub sig : ℕ

-- `fat_vol_t`
pub record FatVol : Type 0 where
  pub sectors : ℕ → ℕ → ℕ
  pub sect_cnt : ℕ
  pub fat_off : ℕ
  pub root_ent_cnt : ℕ
  pub root_offset : ℕ
  pub root_sz : ℕ
  pub fat_size : ℕ
  pub fat_ent_sz : ℕ
  pub sects_per_clus : ℕ
  pub first_clus : ℕ
  pub res_sects : ℕ

-- `a - b` on 32 bits
abbrev pub sub32 : (a b : ℕ) → ℕ
sub32 a b = (a % 2 ^ 32 + (2 ^ 32 - b % 2 ^ 32)) % 2 ^ 32

unfoldable pub fat_is_fat : BootRecord → Bool
fat_is_fat boot =
    let data_sectors : ℕ =
      sub32 boot.large_sector_cnt (boot.res_sectors + boot.sectors_per_fat * boot.fats) in
    (boot.sig == 40 || boot.sig == 41) && ltb 65525 (data_sectors / boot.sectors_per_cluster)

unfoldable pub fat_init : BootRecord → (ℕ → ℕ → ℕ) → FatVol
fat_init boot dev = record {
  sectors = dev;
  sect_cnt = boot.sector_cnt;
  fat_off = 1;
  fat_size = boot.sectors_per_fat;
  fat_ent_sz = 8;
  root_ent_cnt = boot.dir-Entries;
  root_offset = boot.cluster_num;
  root_sz = boot.dir-Entries * 32 / boot.sector_sz;
  sects_per_clus = boot.sectors_per_cluster;
  res_sects = boot.res_sectors;
  first_clus = (boot.res_sectors + boot.fats * boot.sectors_per_fat) % 2 ^ 32;
}

unfoldable pub fat_cluster_to_lba : FatVol → (cluster : ℕ) → ℕ
fat_cluster_to_lba vol cluster =
    sub32 (vol.first_clus + cluster * vol.sects_per_clus) (2 * vol.sects_per_clus)

-- The entry of a cluster in the table, with the four high bits masked.
unfoldable pub next_cluster : FatVol → (clus : ℕ) → ℕ
next_cluster vol clus =
    let fat_sector : ℕ = (vol.res_sects + clus * 4 % 2 ^ 32 / 512) % 2 ^ 32 in
    let fat_off : ℕ = clus * 4 % 2 ^ 32 % 512 in
    let byte : ℕ → ℕ = λ i. vol.sectors fat_sector (fat_off + i) in
    (byte 0 + byte 1 * 2 ^ 8 + byte 2 * 2 ^ 16 + byte 3 * 2 ^ 24) % 2 ^ 28

-- The entry ends the chain.
unfoldable pub is_last : (cchain : ℕ) → Bool
is_last cchain = cchain == 0 || leb 268435448 cchain

-- The loop of `fat_get_cluster_chain`, over the entries that are left in `ret`; behind the last one
-- it stores outside the array, which is a fault.
unfoldable pub chain_loop : (left : ℕ) → FatVol → (clus : ℕ) → Option (List ℕ)
chain_loop zero vol clus = none
chain_loop (suc left) vol clus =
    let rest = chain_loop left vol (next_cluster vol clus) in
    if is_last (next_cluster vol clus)
    then some (clus ∷ [])
    else elim rest [ none ↦ none | some clusters ↦ some (clus ∷ clusters) ]

-- `fat_get_cluster_chain` from `*num_clus` 0: the entries of `ret`, which has room for 1000.
unfoldable pub fat_get_cluster_chain : FatVol → (clus : ℕ) → Option (List ℕ)
fat_get_cluster_chain vol clus = chain_loop 1000 vol clus

-- One sector of each cluster read into the buffer, from `at` on.
unfoldable pub read_clusters : FatVol → (at : ℕ) → List ℕ → (ℕ → ℕ) → ℕ → ℕ
read_clusters vol at [] buf = buf
read_clusters vol at (clus ∷ clusters) buf =
    read_clusters vol (at + 512) clusters
      (overlay buf (vol.sectors (fat_cluster_to_lba vol clus)) at 512)

-- `fat_read_cluster_chain`, whose buffer comes from the heap holding `buf`.
unfoldable pub fat_read_cluster_chain : FatVol → (cluster : ℕ) → (ℕ → ℕ) → Option (ℕ → ℕ)
fat_read_cluster_chain vol cluster buf = elim (fat_get_cluster_chain vol cluster) [
  | none ↦ none
  | some clusters ↦ some (read_clusters vol 0 clusters buf)
]

-- `fat_read` into memory; it returns 1.
unfoldable pub fat_read : FatVol → (inode_num ptr off size : ℕ) → (buf mem : ℕ → ℕ) → Option (ℕ → ℕ)
fat_read vol inode_num ptr off size buf mem = elim (fat_read_cluster_chain vol inode_num buf) [
  | none ↦ none
  | some read ↦ some (overlay mem (λ j. read (off + j)) ptr size)
]
