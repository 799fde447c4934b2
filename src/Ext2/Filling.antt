-- ===== src/Ext2/Filling.antt =====
-- A part of a file written from memory, and fs/ext2/file.c's change of one block, for files of direct
-- blocks.
use kernel_old.Base.{
  ℕ, ◌+◌, ◌-◌, ◌*◌, ◌/◌, ◌%◌, ◌≤◌, ◌<◌, ◌≡◌, refl, sym, ap, subst, ◌∙◌, ◌≢◌, ◌⊎◌, inl, inr, true,
  false, ◌&&◌, arith, ltb, leb, ◌==◌, ==_false, ltb→lt, ==_iff, ==_refl, Bool-cases, update,
}
use kernel_old.Ext2.{fill_block}
use native.Mathlib.Nat.{div-eq_of_lt-le, div-add-mod', suc-mul, div-lt_iff_lt-mul}

module _ (b : ℕ) (blocks : ℕ → ℕ) where
  -- Byte `n` of the file of these blocks.
  unfoldable pub byte_at : (ℕ → ℕ → ℕ) → (n : ℕ) → ℕ
  byte_at disk n = disk (blocks (n / b)) (n % b)

  -- The first 12 blocks are distinct.
  unfoldable pub Apart : Type 0
  Apart = (i j : ℕ) → i < 12 → j < 12 → i ≢ j → blocks i ≢ blocks j

  -- The `len` bytes of the file from `from` on are those of memory from `ptr` on, and all others
  -- are kept.
  unfoldable pub Written : (after before : ℕ → ℕ → ℕ) (mem : ℕ → ℕ) (ptr from len : ℕ) → Type 0
  Written after before mem ptr from len =
      (n : ℕ)
      → n < 12 * b
      → (from ≤ n → n < from + len → byte_at after n ≡ mem (ptr + (n - from)))
        × (n < from ⊎ from + len ≤ n → byte_at after n ≡ byte_at before n)

  pub at-Written :
      (after before : ℕ → ℕ → ℕ) (mem : ℕ → ℕ) (ptr : ℕ) {from to len size : ℕ}
      → from ≡ to
      → len ≡ size
      → Written after before mem ptr from len
      → Written after before mem ptr to size
  at-Written after before mem ptr {from = from} {size = size} e e' h =
      subst (λ n. Written after before mem ptr n size) e
        (subst (λ n. Written after before mem ptr from n) e' h)

  pub append-Written :
      (after middle before : ℕ → ℕ → ℕ) (mem : ℕ → ℕ) (ptr from first second : ℕ)
      → Written middle before mem ptr from first
      → Written after middle mem (ptr + first) (from + first) second
      → Written after before mem ptr from (first + second)
  unfolding Written
  append-Written after middle before mem ptr from first second one two n in_file = (
    λ lo hi. elim (Bool-cases (ltb n (from + first))) [
      | inl near ↦
          (two n in_file).1 (inl (ltb→lt n (from + first) near))
          ∙ (one n in_file).0 lo (ltb→lt n (from + first) near)
      | inr far ↦
          (two n in_file).0 (ground (arith, far)) (omega (arith, hi))
          ∙ ap mem (offset (ground (arith, far)))
    ],
    outside,
  )
    where
      offset : from + first ≤ n → ptr + first + (n - (from + first)) ≡ ptr + (n - from)
      offset le = omega (arith, le)

      outside : n < from ⊎ from + (first + second) ≤ n → byte_at after n ≡ byte_at before n
      outside (inl lt) = (two n in_file).1 (inl (omega (arith, lt))) ∙ (one n in_file).1 (inl lt)
      outside (inr le) =
          (two n in_file).1 (inr (omega (arith, le))) ∙ (one n in_file).1 (inr (omega (arith, le)))

  pub next_start : (i : ℕ) → (i + 1) * b ≡ i * b + b
  next_start i = subst (λ n. n * b ≡ i * b + b) (omega arith) (suc-mul i b)

  fill_block-inside :
      (mem buf : ℕ → ℕ) (ptr start n j : ℕ)
      → start ≤ j
      → j < start + n
      → fill_block mem buf ptr start n j ≡ mem (ptr + (j - start))
  fill_block-inside mem buf ptr start n j lo hi =
      let e : leb start j && ltb j (start + n) ≡ true = ground (arith, lo, hi) in
      rw (e, fill_block) refl

  fill_block-outside :
      (mem buf : ℕ → ℕ) (ptr start n j : ℕ)
      → j < start ⊎ start + n ≤ j
      → fill_block mem buf ptr start n j ≡ buf j
  fill_block-outside mem buf ptr start n j out =
      let e : leb start j && ltb j (start + n) ≡ false = ground (arith, out) in
      rw (e, fill_block) refl

  pub block-Written :
      (disk : ℕ → ℕ → ℕ) (mem : ℕ → ℕ) (i ptr start len : ℕ)
      → 0 < b
      → Apart
      → i < 12
      → start + len ≤ b
      → Written
          (update disk (blocks i) (fill_block mem (disk (blocks i)) ptr start len))
          disk
          mem
          ptr
          (i * b + start)
          len
  unfolding Written byte_at Apart
  block-Written disk mem i ptr start len pos apart small fits n in_file = (
    λ lo hi.
        let here : n / b ≡ i =
          div-eq_of_lt-le {k = i} b (omega (arith, lo))
            (subst (λ z. n < z) (sym (next_start i)) (omega (arith, hi, fits))) in
        let place : i * b + n % b ≡ n = subst (λ q. q * b + n % b ≡ n) here (div-add-mod' n b) in
        rw (here, ==_refl (blocks i))
          (fill_block-inside mem (disk (blocks i)) ptr start len (n % b) (omega (arith, place, lo))
              (omega (arith, place, hi))
            ∙ ap mem (omega (arith, place))),
    λ out. elim (Bool-cases (n / b == i)) [
      | inl e ↦
          let here : n / b ≡ i = (==_iff (n / b) i).0 e in
          let place : i * b + n % b ≡ n = subst (λ q. q * b + n % b ≡ n) here (div-add-mod' n b) in
          rw (here, ==_refl (blocks i))
            (fill_block-outside mem (disk (blocks i)) ptr start len (n % b)
              (ground (arith, out, place)))
      | inr e ↦
          let other : blocks (n / b) ≢ blocks i =
            apart (n / b) i ((div-lt_iff_lt-mul pos).1 in_file) small (ground (arith, e)) in
          rw (==_false (blocks (n / b)) (blocks i) other) refl
    ],
  )
