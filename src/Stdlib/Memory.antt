-- ===== src/Stdlib/Memory.antt =====
-- memcpy, memmove, memset and memcmp of util/stdlib.c.
use kernel_old.Base.{
  refl, ==_iff, ◌==◌, inr, subst, ltb→lt, inl, true, false, Bool-cases, ◌%◌, ◌<◌, ℕ, zero, suc, ◌+◌,
  ◌-◌, ◌≤◌, ◌≡◌, ◌⊎◌, Bool, ◌&&◌, arith, ltb, leb, if◌then◌else◌, update,
}
use kernel_old.Stdlib.{
  memcpy, memmove, memset, memcmp, memcmp_loop, fill_loop, ℤ, pos, negsuc, Mem, copy_loop,
}

-- Is address `a` one of the `n` from `lo`?
abbrev pub in_block : (lo n a : ℕ) → Bool
in_block lo n a = leb lo a && ltb a (lo + n)

copy_loop-apart :
    (m : Mem) (dst src i n a : ℕ)
    → (dst + i + n ≤ src + i) ⊎ (src + i + n ≤ dst + i)
    → copy_loop m dst src i n a ≡ (if in_block (dst + i) n a then m (src + (a - dst)) else m a)
unfolding copy_loop
copy_loop-apart m dst src i zero a h = ground arith
copy_loop-apart m dst src i (suc n) a h =
    ground (arith, copy_loop-apart (update m (dst + i) (m (src + i))) dst src (i + 1) n a)

-- `memcpy` between blocks that do not overlap copies each byte and changes no other.
pub memcpy_lem :
    (m : Mem) (dst src n a : ℕ)
    → (dst + n ≤ src) ⊎ (src + n ≤ dst)
    → memcpy m dst src n a ≡ (if in_block dst n a then m (src + (a - dst)) else m a)
unfolding memcpy
memcpy_lem m dst src n a h = ground (arith, copy_loop-apart m dst src 0 n a)

smear :
    (m : Mem) (src c i n a : ℕ)
    → m (src + i) ≡ c
    → copy_loop m (src + 1) src i n a ≡ (if in_block (src + 1 + i) n a then c else m a)
unfolding copy_loop
smear m src c i zero a h = ground arith
smear m src c i (suc n) a h =
    ground (arith, smear (update m (src + 1 + i) (m (src + i))) src c (i + 1) n a)

-- `memmove` to the address just above its source does not move the block: it fills the destination
-- with the first byte of the source.
pub memmove-overlap :
    (m : Mem) (src n a : ℕ)
    → memmove m (src + 1) src n a ≡ (if in_block (src + 1) n a then m src else m a)
unfolding memmove
memmove-overlap m src n a = ground (arith, smear m src (m src) 0 n a)

fill_loop_lem :
    (m : Mem) (dst c i n a : ℕ)
    → fill_loop m dst c i n a ≡ (if in_block (dst + i) n a then c else m a)
unfolding fill_loop
fill_loop_lem m dst c i zero a = ground arith
fill_loop_lem m dst c i (suc n) a =
    ground (arith, fill_loop_lem (update m (dst + i) c) dst c (i + 1) n a)

-- `memset` writes the low byte of `c` over exactly the block.
pub memset_lem :
    (m : Mem) (dst c n a : ℕ) → memset m dst c n a ≡ (if in_block dst n a then c % 256 else m a)
unfolding memset
memset_lem m dst c n a = ground (arith, fill_loop_lem m dst (c % 256) 0 n a)

-- The blocks agree up to byte `k`, and there the first is below the second, or above it.
abbrev pub FirstDiffer : Mem → (s1 s2 n : ℕ) → (Bool) → Type 0
FirstDiffer m s1 s2 n less =
    (k : ℕ) × (k < n)
    × ((j : ℕ) → j < k → m (s1 + j) ≡ m (s2 + j))
    × (if less then m (s1 + k) < m (s2 + k) else m (s2 + k) < m (s1 + k))

abbrev pub Compared : Mem → (s1 s2 n : ℕ) → ℤ → Type 0
Compared m s1 s2 n (pos zero) = (j : ℕ) → j < n → m (s1 + j) ≡ m (s2 + j)
Compared m s1 s2 n (pos (suc k)) = (k ≡ 0) × FirstDiffer m s1 s2 n false
Compared m s1 s2 n (negsuc k) = (k ≡ 0) × FirstDiffer m s1 s2 n true

memcmp_loop-Compared :
    (m : Mem) (s1 s2 i rounds : ℕ)
    → ((j : ℕ) → j < i → m (s1 + j) ≡ m (s2 + j))
    → Compared m s1 s2 (i + rounds) (memcmp_loop m s1 s2 i rounds)
unfolding memcmp_loop
memcmp_loop-Compared m s1 s2 i zero h = λ j lt. h j (omega arith)
memcmp_loop-Compared m s1 s2 i (suc n) h = elim (Bool-cases (ltb (m (s1 + i)) (m (s2 + i)))) [
  | inl lt ↦ rw lt (refl, (i, omega arith, h, ltb→lt _ _ lt))
  | inr ge ↦ elim (Bool-cases (ltb (m (s2 + i)) (m (s1 + i)))) [
    | inl gt ↦ rw (ge, gt) (refl, (i, omega arith, h, ltb→lt _ _ gt))
    | inr le ↦
        let h' : (j : ℕ) → j < i + 1 → m (s1 + j) ≡ m (s2 + j) = λ j lt.
          elim (Bool-cases (j == i)) [
            | inl same ↦ rw ((==_iff j i).0 same) (ground arith)
            | inr other ↦ h j (ground arith)
          ] in
        let e : i + 1 + n ≡ i + suc n = omega arith in
        rw (ge, le)
          (subst (λ t. Compared m s1 s2 t (memcmp_loop m s1 s2 (i + 1) n)) e
            (memcmp_loop-Compared m s1 s2 (i + 1) n h'))
  ]
]

-- `memcmp` returns 0 where the blocks agree, and else -1 or 1 by the first byte at which they differ.
pub memcmp-Compared : (m : Mem) (s1 s2 n : ℕ) → Compared m s1 s2 n (memcmp m s1 s2 n)
unfolding memcmp
memcmp-Compared m s1 s2 n =
    subst (λ t. Compared m s1 s2 t (memcmp_loop m s1 s2 0 n)) (omega arith)
      (memcmp_loop-Compared m s1 s2 0 n (λ j lt. absurd (omega arith)))
