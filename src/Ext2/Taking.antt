-- ===== src/Ext2/Taking.antt =====
-- fs/ext2/super.c `ext2_alloc_block` and fs/ext2/inode.c `ext2_alloc_inode`: the search of
-- the groups that both have, and what it changes.
use kernel_old.Base.{
  load32, ℕ, ◌+◌, ◌-◌, ◌*◌, ◌/◌, ◌%◌, ◌^◌, ◌≤◌, ◌<◌, bit_and, bit_or, ◌≡◌, refl, ap, subst, ◌≢◌,
  ◌⊎◌, inl, inr, Bool, true, false, Option, none, some, arith, ◌==◌, if◌then◌else◌, ==_iff, ==_refl,
  Bool-cases, update, every, every-holds, bool_eq, bool_eq→≡, ==_false,
}
use kernel_old.Ext2.{Vol, store32, ext2_rewrite_bgds, take_bit}
use native.Mathlib.Nat.{mod-lt}
use kernel_old.Ext2.Bitmap.{free_bit, FirstFree}

-- One byte, one bit that is set, one bit that is read.
set_read : ℕ → ℕ → ℕ → Bool
set_read byte k l =
    bool_eq (bit_and (bit_or byte (2 ^ k)) (2 ^ l) == 0)
      (if l == k then false else bit_and byte (2 ^ l) == 0)

set_table : every (λ byte. every (λ k. every (set_read byte k) 8) 8) 256 ≡ true
unfolding every set_read
set_table = refl

set_bit :
    (byte k l : ℕ)
    → byte < 256
    → k < 8
    → l < 8
    → (bit_and (bit_or byte (2 ^ k)) (2 ^ l) == 0)
      ≡ (if l == k then false else bit_and byte (2 ^ l) == 0)
unfolding set_read
set_bit byte k l small lt lt' = bool_eq→≡ _ _ (
    every-holds (set_read byte k) 8 l lt' (
      every-holds (λ k. every (set_read byte k) 8) 8 k lt
        (every-holds (λ byte. every (λ k. every (set_read byte k) 8) 8) 256 byte small set_table)))

-- The bits of a bitmap after bit `k` of byte `j` is set.
free_bit-update :
    (buf : ℕ → ℕ) (j k m : ℕ)
    → buf j < 256
    → k < 8
    → free_bit (update buf j (bit_or (buf j) (2 ^ k))) m
      ≡ (if m == j * 8 + k then false else free_bit buf m)
unfolding free_bit
free_bit-update buf j k m small lt = elim (Bool-cases (m / 8 == j)) [
  | inl e ↦
      let at : m / 8 ≡ j = (==_iff (m / 8) j).0 e in
      let same : (m == j * 8 + k) ≡ (m % 8 == k) = ground (arith, at, lt) in
      rw (at, ==_refl j, same) (set_bit (buf j) k (m % 8) small lt (omega arith))
  | inr ne ↦ let other : (m == j * 8 + k) ≡ false = ground (arith, ne, lt) in rw (ne, other) refl
]

load32-store32 : (m : ℕ → ℕ) (a v : ℕ) → v < 2 ^ 32 → load32 (store32 m a v) a ≡ v
unfolding load32 store32
load32-store32 m a v lt =
    let e01 : (a == a + 1) ≡ false = ==_false a (a + 1) (omega arith) in
    let e02 : (a == a + 2) ≡ false = ==_false a (a + 2) (omega arith) in
    let e03 : (a == a + 3) ≡ false = ==_false a (a + 3) (omega arith) in
    let e12 : (a + 1 == a + 2) ≡ false = ==_false (a + 1) (a + 2) (omega arith) in
    let e13 : (a + 1 == a + 3) ≡ false = ==_false (a + 1) (a + 3) (omega arith) in
    let e23 : (a + 2 == a + 3) ≡ false = ==_false (a + 2) (a + 3) (omega arith) in
    rw (e01, e02, e03, e12, e13, e23, ==_refl a, ==_refl (a + 1), ==_refl (a + 2), ==_refl (a + 3))
      (omega (arith, lt))

-- The two loops differ in where the bitmap of a group and its count of free bits are, in the number
-- of bits of a group, and in the groups that are passed over.
module _ (vol : Vol) (bitmap count_at : ℕ → ℕ) (per : ℕ) (skip : ℕ → Bool) where
  -- The groups from `lo` up to `hi` that are not passed over have no clear bit.
  unfoldable pub Full : (lo hi : ℕ) → Type 0
  Full lo hi =
      (g m : ℕ)
      → lo ≤ g
      → g < hi
      → skip g ≡ false
      → m < vol.blk_sz * 8
      → free_bit (vol.disk (bitmap g)) m ≡ false

  -- Bit `m` of group `g` is taken: it was clear, those below it were set, it alone is set now, the
  -- count is one less, and the number returned is the bit's.
  unfoldable pub Taken : (g m : ℕ) → ℕ × Vol → Type 0
  Taken g m (number, after) =
      (m < vol.blk_sz * 8)
      × (free_bit (vol.disk (bitmap g)) m ≡ true)
      × ((l : ℕ) → l < m → free_bit (vol.disk (bitmap g)) l ≡ false)
      × (number ≡ (g * per + m) % 2 ^ 32)
      × ((l : ℕ)
          → free_bit (after.disk (bitmap g)) l
            ≡ (if l == m then false else free_bit (vol.disk (bitmap g)) l))
      × (load32 after.blk_grps (count_at g)
          ≡ (load32 vol.blk_grps (count_at g) + (2 ^ 32 - 1)) % 2 ^ 32)

  -- What an allocation gives over the groups from `i` up to `hi`.
  unfoldable pub Outcome : (i hi : ℕ) → ℕ × Vol → Type 0
  Outcome i hi r =
      ((r ≡ (0, vol)) × Full i hi)
      ⊎ ((g : ℕ) × (m : ℕ) × (i ≤ g) × (g < hi) × (skip g ≡ false) × Full i g × Taken g m r)

  Full-append : (i hi : ℕ) → Full i (i + 1) → Full (i + 1) hi → Full i hi
  unfolding Full
  Full-append i hi here full g m lo lt keep small = elim (Bool-cases (g == i)) [
    | inl e ↦ here g m lo (ground (arith, e)) keep small
    | inr ne ↦ full g m (ground (arith, ne, lo)) lt keep small
  ]

  pub onward : (i hi : ℕ) (r : ℕ × Vol) → Full i (i + 1) → Outcome (i + 1) hi r → Outcome i hi r
  unfolding Outcome
  onward i hi r here (inl (same, full)) = inl (same, Full-append i hi here full)
  onward i hi r here (inr (g, m, lo, lt, keep, full, taken)) =
      inr (g, m, omega (arith, lo), lt, keep, Full-append i g here full, taken)

  module _ (bytes : (b j : ℕ) → vol.disk b j < 256)
      (apart : (g : ℕ) → g < vol.blk_grp_cnt → bitmap g ≢ 2) where
    take_bit-Taken :
        (g j k : ℕ)
        → g < vol.blk_grp_cnt
        → FirstFree (vol.disk (bitmap g)) 0 vol.blk_sz (some (j, k))
        → Taken g
            (j * 8 + k)
            ((g * per + j * 8 + k) % 2 ^ 32, take_bit vol (bitmap g) (count_at g) j k)
    unfolding Taken FirstFree take_bit ext2_rewrite_bgds
    take_bit-Taken g j k lt (lo, hi, small, clear, below) = (
      omega (arith, hi, small),
      clear,
      λ l less. below l (omega arith) less,
      ap (λ n. n % 2 ^ 32) (omega arith),
      λ l.
          rw (==_false (bitmap g) 2 (apart g lt), ==_refl (bitmap g))
            (free_bit-update (vol.disk (bitmap g)) j k l (bytes (bitmap g) j) small),
      load32-store32 _ _ _ (mod-lt _ (omega arith)),
    )

    here-Full : (g : ℕ) → FirstFree (vol.disk (bitmap g)) 0 vol.blk_sz none → Full g (g + 1)
    unfolding Full FirstFree
    here-Full g h f m lo lt keep small =
        let e : g ≡ f = omega (arith, lo, lt) in
        subst (λ x. free_bit (vol.disk (bitmap x)) m ≡ false) e
          (h m (omega arith) (omega (arith, small)))

    pub here-skip : (g : ℕ) → skip g ≡ true → Full g (g + 1)
    unfolding Full
    here-skip g h f m lo lt keep small =
        let e : g ≡ f = omega (arith, lo, lt) in
        let passed : skip f ≡ true = subst (λ x. skip x ≡ true) e h in cc

    -- One group of a loop whose bitmap's search gave `o`.
    pub group-Outcome :
        (g hi : ℕ) (o : Option (ℕ × ℕ)) (next : ℕ × Vol)
        → g < hi
        → hi ≤ vol.blk_grp_cnt
        → skip g ≡ false
        → FirstFree (vol.disk (bitmap g)) 0 vol.blk_sz o
        → Outcome (g + 1) hi next
        → Outcome g hi (elim o [
          | none ↦ next
          | some (j, k) ↦ ((g * per + j * 8 + k) % 2 ^ 32, take_bit vol (bitmap g) (count_at g) j k)
        ])
    unfolding Outcome Full
    group-Outcome g hi none next lt le keep first h = onward g hi next (here-Full g first) h
    group-Outcome g hi (some (j, k)) next lt le keep first h = inr (
      g,
      j * 8 + k,
      omega arith,
      lt,
      keep,
      λ f m lo less. absurd (omega (arith, lo, less)),
      take_bit-Taken g j k (omega (arith, lt, le)) first,
    )
