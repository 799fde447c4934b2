-- ===== src/Fat/Tests.antt =====
-- Runs on a small FAT volume, and the theorems at concrete inputs.
use kernel_old.Base.{ℕ, ◌+◌, ◌%◌, ◌^◌, ◌≤◌, inr, ◌≡◌, refl, true, some, [], ◌∷◌, arith, update}
use kernel_old.Fat.{
  BootRecord, FatVol, fat_is_fat, fat_init, next_cluster, is_last, chain_loop,
  fat_get_cluster_chain, fat_read,
}
use kernel_old.Fat.Chains.{
  Chain, last, link, entry, table_byte, Collected, fat_get_cluster_chain-Collected,
}
use kernel_old.Fat.Reading.{ChainCopied, fat_read-ChainCopied}

abbrev boot : BootRecord
boot = record {
  sector_sz = 512;
  sectors_per_cluster = 1;
  res_sectors = 32;
  fats = 2;
  dir-Entries = 0;
  sector_cnt = 0;
  large_sector_cnt = 70000;
  sectors_per_fat = 600;
  cluster_num = 2;
  sig = 41;
}

accepted : fat_is_fat boot ≡ true
unfolding fat_is_fat
accepted = refl

-- The table links cluster 3 to 5, ends after 5, and links cluster 6 to itself. A byte of another
-- sector is the sector's number.
abbrev sectors : ℕ → ℕ → ℕ
sectors =
    update (λ s _. s % 256) 32
      (update (update (update (update (update (update (λ _. 0) 12 5) 20 255) 21 255) 22 255) 23 15)
        24 6)

abbrev vol : FatVol
vol = fat_init boot sectors

chain : Chain vol 3 (3 ∷ 5 ∷ [])
unfolding fat_init entry table_byte
chain = link 3 (5 ∷ []) (omega arith) (omega arith) (last 5 (inr (omega arith)))

table_low : vol.res_sects + 2 ^ 21 ≤ 2 ^ 32
unfolding fat_init
table_low = omega arith

fat_get_cluster_chain-Collected_example :
    Collected vol table_low 1000 3 (fat_get_cluster_chain vol 3)
fat_get_cluster_chain-Collected_example =
    fat_get_cluster_chain-Collected vol table_low 3 (omega arith)

fat_read-ChainCopied_example :
    ChainCopied vol
      (3 ∷ 5 ∷ [])
      4096
      500
      100
      (λ _. 0)
      (fat_read vol 3 4096 500 100 (λ _. 0) (λ _. 0))
unfolding fat_init
fat_read-ChainCopied_example =
    fat_read-ChainCopied vol refl table_low (omega arith) (omega arith) 3 (3 ∷ 5 ∷ []) 4096 500 100
      (λ _. 0) (λ _. 0) (omega arith) chain (omega arith) (omega arith)

-- An empty file has the first cluster 0, whose entry is read all the same.
empty_file : fat_get_cluster_chain vol 0 ≡ some (0 ∷ [])
unfolding fat_get_cluster_chain chain_loop fat_init next_cluster is_last
empty_file = refl
