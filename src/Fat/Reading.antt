-- ===== src/Fat/Reading.antt =====
-- The bytes that fs/fat/file.c `fat_read` leaves in memory, and where the clusters lie after
-- fs/fat/fat.c `fat_init`.
use kernel_old.Base.{
  overlay, overlay-inside, overlay-outside, ℕ, ◌+◌, ◌-◌, ◌*◌, ◌%◌, ◌^◌, ◌≤◌, ◌<◌, ◌≡◌, refl, sym,
  ap, subst, ◌∙◌, ◌⊎◌, inl, inr, Option, none, some, List, [], ◌∷◌, arith, ltb, if◌then◌else◌,
  ltb→lt, Bool-cases, length,
}
use kernel_old.Fat.{
  BootRecord, FatVol, fat_init, fat_cluster_to_lba, read_clusters, fat_read_cluster_chain, fat_read,
}
use native.Mathlib.Nat.{add-mul, mod-eq_of_lt}
use kernel_old.Fat.Chains.{Chain, last, link, entry, entry_small, fat_get_cluster_chain-Chain}

-- Byte `n` of a chain of clusters of one sector each, of which cluster 2 is the first.
unfoldable pub chain_byte : FatVol → List ℕ → (n : ℕ) → ℕ
chain_byte vol [] n = 0
chain_byte vol (c ∷ cs) n =
    let rest = chain_byte vol cs (n - 512) in
    if ltb n 512 then vol.sectors (vol.first_clus + c - 2) n else rest

-- Reading at `at` on leaves what is before.
read_clusters-before :
    (vol : FatVol) (at : ℕ) (cs : List ℕ) (buf : ℕ → ℕ) (j : ℕ)
    → j < at
    → read_clusters vol at cs buf j ≡ buf j
unfolding read_clusters
read_clusters-before vol at [] buf j lt = refl
read_clusters-before vol at (c ∷ cs) buf j lt =
    read_clusters-before vol (at + 512) cs
      (overlay buf (vol.sectors (fat_cluster_to_lba vol c)) at 512) j (omega (arith, lt))
    ∙ overlay-outside buf (vol.sectors (fat_cluster_to_lba vol c)) at 512 j (inl lt)

-- Cluster numbers of 28 bits.
unfoldable pub Low : List ℕ → Type 0
Low [] = Unit
Low (c ∷ cs) = (c < 2 ^ 28) × Low cs

Chain-Low : (vol : FatVol) (c : ℕ) (cs : List ℕ) → c < 2 ^ 28 → Chain vol c cs → Low cs
unfolding Low
Chain-Low vol c cs small (last _ e) = (small, tt)
Chain-Low vol c cs small (link _ ds lo hi h) =
    (small, Chain-Low vol (entry vol c) ds (entry_small vol c) h)

-- Memory after `size` bytes of a chain, from `off` on, are put at `ptr`.
pub ChainCopied :
    (vol : FatVol) (cs : List ℕ) (ptr off size : ℕ) (mem : ℕ → ℕ) → Option (ℕ → ℕ) → Type 0
ChainCopied vol cs ptr off size mem none = ⊥
ChainCopied vol cs ptr off size mem (some after) =
    (a : ℕ)
    → (ptr ≤ a → a < ptr + size → after a ≡ chain_byte vol cs (off + (a - ptr)))
      × (a < ptr ⊎ ptr + size ≤ a → after a ≡ mem a)

-- A volume with one sector in a cluster, whose table and clusters have sectors with numbers below
-- `2 ^ 32`.
module _ (vol : FatVol) (single : vol.sects_per_clus ≡ 1) (low : vol.res_sects + 2 ^ 21 ≤ 2 ^ 32)
    (start : 2 ≤ vol.first_clus) (fits : vol.first_clus + 2 ^ 28 ≤ 2 ^ 32) where
  cluster_sector : (c : ℕ) → c < 2 ^ 28 → fat_cluster_to_lba vol c ≡ vol.first_clus + c - 2
  unfolding fat_cluster_to_lba
  cluster_sector c lt = rw (single) (omega (arith, lt, start, fits))

  read_clusters-chain_byte :
      (at : ℕ) (cs : List ℕ) (buf : ℕ → ℕ) (n : ℕ)
      → n < 512 * length cs
      → Low cs
      → read_clusters vol at cs buf (at + n) ≡ chain_byte vol cs n
  unfolding read_clusters chain_byte Low
  read_clusters-chain_byte at [] buf n lt small = absurd (omega (arith, lt))
  read_clusters-chain_byte at (c ∷ cs) buf n lt (here, small) =
      let sector : ℕ → ℕ = vol.sectors (fat_cluster_to_lba vol c) in
      elim (Bool-cases (ltb n 512)) [
        | inl near ↦ rw (near) (
            read_clusters-before vol (at + 512) cs (overlay buf sector at 512) (at + n)
              (ground (arith, near))
            ∙ overlay-inside buf sector at 512 n (ltb→lt n 512 near)
            ∙ ap (λ s. vol.sectors s n) (cluster_sector c here))
        | inr far ↦
            let place : at + 512 + (n - 512) ≡ at + n = ground (arith, far) in
            rw (far) (
              subst
                (λ i.
                  read_clusters vol (at + 512) cs (overlay buf sector at 512) i
                  ≡ chain_byte vol cs (n - 512))
                place
                (read_clusters-chain_byte (at + 512) cs (overlay buf sector at 512) (n - 512)
                  (ground (arith, far, lt)) small))
      ]

  fat_read-read_clusters :
      (c : ℕ) (cs : List ℕ) (ptr off size : ℕ) (buf mem : ℕ → ℕ)
      → c < 2 ^ 28
      → Chain vol c cs
      → length cs ≤ 1000
      → fat_read vol c ptr off size buf mem
        ≡ some (overlay mem (λ j. read_clusters vol 0 cs buf (off + j)) ptr size)
  unfolding fat_read fat_read_cluster_chain
  fat_read-read_clusters c cs ptr off size buf mem small chain few =
      rw
        (fat_read, fat_read_cluster_chain, fat_get_cluster_chain-Chain vol low c cs small chain few)
        refl

  -- On a volume with one sector in a cluster, whose table and clusters have sectors with numbers below
  -- `2 ^ 32`: a read within a file's chain of at most 1000 clusters ends, puts the bytes of the chain
  -- at `ptr`, and keeps all other memory, whatever the buffer held. The chain is that of the table,
  -- and cluster `c` is sector `first_clus + c - 2`.
  pub fat_read-ChainCopied :
      (c : ℕ) (cs : List ℕ) (ptr off size : ℕ) (buf mem : ℕ → ℕ)
      → c < 2 ^ 28
      → Chain vol c cs
      → length cs ≤ 1000
      → off + size ≤ 512 * length cs
      → ChainCopied vol cs ptr off size mem (fat_read vol c ptr off size buf mem)
  unfolding ChainCopied
  fat_read-ChainCopied c cs ptr off size buf mem small chain few within =
      let read : ℕ → ℕ = read_clusters vol 0 cs buf in
      subst (ChainCopied vol cs ptr off size mem)
        (sym (fat_read-read_clusters c cs ptr off size buf mem small chain few))
        (λ a. (
          λ lo hi.
              subst (λ x. overlay mem (λ j. read (off + j)) ptr size x ≡ read (off + (a - ptr)))
                (omega (arith, lo))
                (overlay-inside mem (λ j. read (off + j)) ptr size (a - ptr)
                  (omega (arith, lo, hi)))
              ∙ ap read (omega arith)
              ∙ read_clusters-chain_byte 0 cs buf (off + (a - ptr)) (omega (arith, lo, hi, within))
                  (Chain-Low vol c cs small chain),
          overlay-outside mem (λ j. read (off + j)) ptr size a,
        ))

-- After `fat_init`, the cluster 2 begins with the first sector after the reserved ones and the
-- tables, and a further cluster has `sectors_per_cluster` sectors.
pub fat_cluster_to_lba-fat_init :
    (boot : BootRecord) (dev : ℕ → ℕ → ℕ) (n : ℕ)
    → boot.res_sectors + boot.fats * boot.sectors_per_fat + (2 + n) * boot.sectors_per_cluster
      < 2 ^ 32
    → fat_cluster_to_lba (fat_init boot dev) (2 + n)
      ≡ boot.res_sectors + boot.fats * boot.sectors_per_fat + n * boot.sectors_per_cluster
unfolding fat_cluster_to_lba fat_init
fat_cluster_to_lba-fat_init boot dev n lt =
    let first : ℕ = boot.res_sectors + boot.fats * boot.sectors_per_fat in
    let split : (2 + n) * boot.sectors_per_cluster
        ≡ 2 * boot.sectors_per_cluster + n * boot.sectors_per_cluster =
      add-mul 2 n boot.sectors_per_cluster in
    let low : first % 2 ^ 32 ≡ first = mod-eq_of_lt (omega (arith, lt)) in
    rw (low, split) (omega (arith, lt, split))
