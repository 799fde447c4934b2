-- ===== src/Fat/Chains.antt =====
-- The chain of clusters that fs/fat/fatent.c `fat_get_cluster_chain` collects, against the links of
-- the file allocation table.
use kernel_old.Base.{
  ℕ, zero, suc, ◌+◌, ◌*◌, ◌/◌, ◌%◌, ◌^◌, ◌≤◌, ◌<◌, ◌≡◌, refl, sym, ap, ap₂, subst, ◌∙◌, ◌⊎◌, inl,
  inr, true, false, Option, none, some, List, [], ◌∷◌, arith, ◌==◌, Bool-cases, length,
}
use kernel_old.Fat.{FatVol, next_cluster, is_last, chain_loop, fat_get_cluster_chain}

-- Byte `n` of the table, which begins behind the reserved sectors.
unfoldable pub table_byte : FatVol → (n : ℕ) → ℕ
table_byte vol n = vol.sectors (vol.res_sects + n / 512) (n % 512)

-- The 28 bits of the entry of a cluster, from its four bytes, the lowest first.
unfoldable pub entry : FatVol → (c : ℕ) → ℕ
entry vol c =
    (table_byte vol (4 * c)
      + 256 * table_byte vol (4 * c + 1)
      + 65536 * table_byte vol (4 * c + 2)
      + 16777216 * table_byte vol (4 * c + 3))
    % 268435456

-- `Chain vol c cs`: the entries link the clusters `cs`, from `c` on, up to the first entry that is 0
-- or a mark of the end, 0xffffff8 or more.
pub data Chain (vol : FatVol) : ℕ → List ℕ → Type 0 where
  last : (c : ℕ) → entry vol c ≡ 0 ⊎ 268435448 ≤ entry vol c → Chain vol c (c ∷ [])
  link :
      (c : ℕ) (cs : List ℕ)
      → 0 < entry vol c
      → entry vol c < 268435448
      → Chain vol (entry vol c) cs
      → Chain vol c (c ∷ cs)

pub entry_small : (vol : FatVol) (c : ℕ) → entry vol c < 2 ^ 28
unfolding entry
entry_small vol c = omega arith

is_last-true : (x : ℕ) → is_last x ≡ true → x ≡ 0 ⊎ 268435448 ≤ x
unfolding is_last
is_last-true x e = elim (Bool-cases (x == 0)) [
  | inl z ↦ inl (ground (arith, z))
  | inr nz ↦ inr (ground (arith, nz, e))
]

is_last-end : (x : ℕ) → x ≡ 0 ⊎ 268435448 ≤ x → is_last x ≡ true
unfolding is_last
is_last-end x (inl z) = ground (arith, z)
is_last-end x (inr le) = ground (arith, le)

is_last-false : (x : ℕ) → is_last x ≡ false → (0 < x) × (x < 268435448)
unfolding is_last
is_last-false x e = (ground (arith, e), ground (arith, e))

is_last-inside : (x : ℕ) → 0 < x → x < 268435448 → is_last x ≡ false
unfolding is_last
is_last-inside x lo hi = ground (arith, lo, hi)

-- The sectors of the table have numbers of 32 bits.
module _ (vol : FatVol) (low : vol.res_sects + 2 ^ 21 ≤ 2 ^ 32) where
  table_place :
      (c i : ℕ)
      → c < 2 ^ 28
      → i < 4
      → vol.sectors ((vol.res_sects + c * 4 % 2 ^ 32 / 512) % 2 ^ 32) (c * 4 % 2 ^ 32 % 512 + i)
        ≡ table_byte vol (4 * c + i)
  unfolding table_byte
  table_place c i small lt =
      ap₂ (λ (s j : ℕ). vol.sectors s j) (omega (arith, small, lt, low)) (omega (arith, small, lt))

  -- The code's address of an entry and its shifts read the entry of the table.
  next_cluster-entry : (c : ℕ) → c < 2 ^ 28 → next_cluster vol c ≡ entry vol c
  unfolding next_cluster entry
  next_cluster-entry c small =
      let first : 4 * c + 0 ≡ 4 * c = omega arith in
      rw
        (
          entry,
          table_place c 0 small (omega arith),
          table_place c 1 small (omega arith),
          table_place c 2 small (omega arith),
          table_place c 3 small (omega arith),
          first,
        )
        (omega arith)

  chain_loop-last :
      (n c : ℕ)
      → c < 2 ^ 28
      → is_last (entry vol c) ≡ true
      → chain_loop (suc n) vol c ≡ some (c ∷ [])
  unfolding chain_loop
  chain_loop-last n c small e = rw (next_cluster-entry c small, e) refl

  chain_loop-link :
      (n c : ℕ)
      → c < 2 ^ 28
      → is_last (entry vol c) ≡ false
      → chain_loop (suc n) vol c
        ≡ (elim (chain_loop n vol (entry vol c)) [ none ↦ none | some cs ↦ some (c ∷ cs) ])
  unfolding chain_loop
  chain_loop-link n c small e = rw (next_cluster-entry c small, e) refl

  -- The chain of the table is what the loop collects, if it has room.
  chain_loop-Chain :
      (c : ℕ) (cs : List ℕ) (n : ℕ)
      → c < 2 ^ 28
      → Chain vol c cs
      → length cs ≤ n
      → chain_loop n vol c ≡ some cs
  chain_loop-Chain c cs zero small (last _ e) le = absurd (omega (arith, le))
  chain_loop-Chain c cs zero small (link _ ds lo hi h) le = absurd (omega (arith, le))
  chain_loop-Chain c cs (suc n) small (last _ e) le =
      chain_loop-last n c small (is_last-end (entry vol c) e)
  chain_loop-Chain c cs (suc n) small (link _ ds lo hi h) le =
      chain_loop-link n c small (is_last-inside (entry vol c) lo hi)
      ∙ ap (λ (o : Option (List ℕ)). elim o [ none ↦ none | some cs ↦ some (c ∷ cs) ])
          (chain_loop-Chain (entry vol c) ds n (entry_small vol c) h (omega (arith, le)))

  pub fat_get_cluster_chain-Chain :
      (c : ℕ) (cs : List ℕ)
      → c < 2 ^ 28
      → Chain vol c cs
      → length cs ≤ 1000
      → fat_get_cluster_chain vol c ≡ some cs
  unfolding fat_get_cluster_chain
  fat_get_cluster_chain-Chain c cs small chain le = chain_loop-Chain c cs 1000 small chain le

  -- What a loop with room for `n` clusters may collect: the chain of the table.
  pub Collected : (n c : ℕ) → Option (List ℕ) → Type 0
  Collected n c none = (cs : List ℕ) → Chain vol c cs → n < length cs
  Collected n c (some cs) = Chain vol c cs × (length cs ≤ n)

  some_cluster : (c : ℕ) (cs : List ℕ) → Chain vol c cs → 0 < length cs
  some_cluster c cs (last _ e) = omega arith
  some_cluster c cs (link _ ds lo hi h) = omega arith

  too_long :
      (n c : ℕ) (cs : List ℕ)
      → (0 < entry vol c) × (entry vol c < 268435448)
      → ((ds : List ℕ) → Chain vol (entry vol c) ds → n < length ds)
      → Chain vol c cs
      → suc n < length cs
  too_long n c cs (lo, hi) h (last _ (inl z)) = absurd (omega (arith, lo, z))
  too_long n c cs (lo, hi) h (last _ (inr le)) = absurd (omega (arith, hi, le))
  too_long n c cs e h (link _ ds lo hi chain) = omega (arith, h ds chain)

  onward :
      (n c : ℕ)
      → (0 < entry vol c) × (entry vol c < 268435448)
      → (rest : Option (List ℕ)) → Collected n (entry vol c) rest
      → Collected (suc n) c (elim rest [ none ↦ none | some cs ↦ some (c ∷ cs) ])
  unfolding Collected
  onward n c e none h = λ cs chain. too_long n c cs e h chain
  onward n c (lo, hi) (some cs) (chain, le) = (link c cs lo hi chain, omega (arith, le))

  chain_loop-Collected : (n c : ℕ) → c < 2 ^ 28 → Collected n c (chain_loop n vol c)
  unfolding Collected chain_loop
  chain_loop-Collected zero c small = λ cs h. some_cluster c cs h
  chain_loop-Collected (suc n) c small = elim (Bool-cases (is_last (entry vol c))) [
    | inl e ↦
        subst (Collected (suc n) c) (sym (chain_loop-last n c small e))
          (last c (is_last-true (entry vol c) e), omega arith)
    | inr e ↦ subst (Collected (suc n) c) (sym (chain_loop-link n c small e)) (
        onward n c (is_last-false (entry vol c) e) (chain_loop n vol (entry vol c))
          (chain_loop-Collected n (entry vol c) (entry_small vol c)))
  ]

  -- In a table whose sectors have numbers below `2 ^ 32`, and from a cluster number of 28 bits on,
  -- what `fat_get_cluster_chain` collects is the chain of the table, up to the first entry that is 0
  -- or at least 0xffffff8, and has at most 1000 clusters; it runs over its array only if the table
  -- has no such chain.
  pub fat_get_cluster_chain-Collected :
      (c : ℕ) → c < 2 ^ 28 → Collected 1000 c (fat_get_cluster_chain vol c)
  unfolding fat_get_cluster_chain
  fat_get_cluster_chain-Collected c small = chain_loop-Collected 1000 c small
