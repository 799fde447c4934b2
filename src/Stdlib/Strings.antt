-- ===== src/Stdlib/Strings.antt =====
-- strlen, strcmp, strncmp and strcpy of util/stdlib.c.
use kernel_old.Base.{
  ==_refl, sym, ==_iff, subst, inr, inr, inr, inr, inr, inr, inr, inr, inr, inr, inr, inr, inr, inr,
  inr, ℕ, zero, suc, ◌+◌, ◌<◌, ◌≡◌, refl, ap, ap₂, ◌∙◌, ◌≢◌, ◌↔◌, inl, inr, false, some, List, [],
  ◌∷◌, arith, ◌==◌, Bool-cases, length,
}
use kernel_old.Stdlib.{
  ℤ, strcmp, compare_lengths, Mem, pos, char_sub, strlen_loop, strlen, differ_loop,
}

-- The bytes `xs`, none of them NUL, and then a NUL stand at `str`.
abbrev pub IsStr : Mem → ℕ → List ℕ → Type 0
IsStr m str [] = m str ≡ 0
IsStr m str (c ∷ cs) = (m str ≡ c) × (c ≢ 0) × (c < 256) × IsStr m (str + 1) cs

strlen_loop_lem :
    (m : Mem) (str s fuel : ℕ) (xs : List ℕ)
    → IsStr m (str + s) xs
    → length xs < fuel
    → strlen_loop m str s fuel ≡ some (s + length xs)
unfolding strlen_loop
strlen_loop_lem m str s zero xs h f = absurd (omega arith)
strlen_loop_lem m str s (suc fuel) [] h f = ground arith
strlen_loop_lem m str s (suc fuel) (c ∷ cs) (e, n, b, h) f =
    let e' : str + s + 1 ≡ str + (s + 1) = omega arith in
    ground
      (arith, strlen_loop_lem m str (s + 1) fuel cs (subst (λ t. IsStr m t cs) e' h) (omega arith))

-- `strlen` returns the number of bytes before the NUL, on fuel above it.
pub strlen_lem :
    (m : Mem) (str fuel : ℕ) (xs : List ℕ)
    → IsStr m str xs
    → length xs < fuel
    → strlen fuel m str ≡ some (length xs)
unfolding strlen
strlen_lem m str fuel xs h f =
    strlen_loop_lem m str 0 fuel xs (subst (λ t. IsStr m t xs) (omega arith) h) f
    ∙ ap some (omega arith)

char_sub-zero : (a b : ℕ) → a < 256 → b < 256 → char_sub a b ≡ pos 0 → a ≡ b
char_sub-zero a b h k e = ground arith

-- The loop on two strings of one length: it returns 0 exactly where the rest of them is the same.
differ_loop-zero :
    (m : Mem) (s1 s2 i : ℕ) (xs ys : List ℕ)
    → IsStr m (s1 + i) xs
    → IsStr m (s2 + i) ys
    → length xs ≡ length ys
    → (differ_loop m s1 s2 i (length xs) ≡ pos 0) ↔ (xs ≡ ys)
unfolding differ_loop
differ_loop-zero m s1 s2 i [] [] h k e = ((λ _. refl), (λ _. refl))
differ_loop-zero m s1 s2 i [] (y ∷ ys) h k e = absurd (omega arith)
differ_loop-zero m s1 s2 i (x ∷ xs) [] h k e = absurd (omega arith)
differ_loop-zero m s1 s2 i (x ∷ xs) (y ∷ ys) (a, n, b, h) (a', n', b', k) e =
    let rest =
      differ_loop-zero m s1 s2 (i + 1) xs ys (subst (λ t. IsStr m t xs) (omega arith) h)
        (subst (λ t. IsStr m t ys) (omega arith) k) (omega arith) in
    elim (Bool-cases (m (s1 + i) == m (s2 + i))) [
      | inl same ↦ rw same (
        (λ z. ap₂ ◌∷◌ (ground arith) (rest.0 z)),
        (λ z. rest.1 (ap (elim [ [] ↦ [] | _ ∷ t ↦ t ]) z)),
      )
      | inr other ↦ rw other (
        (λ z. absurd (not_same x y (ground arith) (char_sub-zero x y b b' (rw (← a, ← a') z)))),
        (λ z. absurd (not_same x y (ground arith) (head_eq x y xs ys z))),
      )
    ]
  where
    not_same : (x y : ℕ) → (x == y) ≡ false → x ≢ y
    not_same x y h = ground arith

    head_eq : (x y : ℕ) (xs ys : List ℕ) → x ∷ xs ≡ y ∷ ys → x ≡ y
    head_eq x y xs ys z = cc

compare_lengths-zero :
    (m : Mem) (s1 s2 : ℕ) (xs ys : List ℕ)
    → IsStr m s1 xs
    → IsStr m s2 ys
    → (compare_lengths m s1 s2 (length xs) (length ys) ≡ pos 0) ↔ ((xs ≡ ys) × (xs ≢ []))
unfolding compare_lengths
compare_lengths-zero m s1 s2 [] [] h k = ((λ z. ground arith), (λ z. absurd (z.1 refl)))
compare_lengths-zero m s1 s2 [] (y ∷ ys) h k = ((λ z. ground arith), (λ z. absurd (z.1 refl)))
compare_lengths-zero m s1 s2 (x ∷ xs) [] h k =
    ((λ z. ground arith), (λ z. absurd (cons_ne x xs z.0)))
  where
    cons_ne : (x : ℕ) (xs : List ℕ) → x ∷ xs ≡ [] → ⊥
    cons_ne x xs z = cc
compare_lengths-zero m s1 s2 (x ∷ xs) (y ∷ ys) h k =
    elim (Bool-cases (suc (length xs) == suc (length ys))) [
      | inl same ↦
          let e : length (x ∷ xs) ≡ length (y ∷ ys) = (==_iff _ _).0 same in
          let d =
            differ_loop-zero m s1 s2 0 (x ∷ xs) (y ∷ ys)
              (subst (λ t. IsStr m t (x ∷ xs)) (omega arith) h)
              (subst (λ t. IsStr m t (y ∷ ys)) (omega arith) k) e in
          let r : compare_lengths m s1 s2 (length (x ∷ xs)) (length (y ∷ ys))
              ≡ differ_loop m s1 s2 0 (length (x ∷ xs)) =
            ground arith in
          ((λ z. (d.0 (sym r ∙ z), (λ n. cc))), (λ z. r ∙ d.1 z.0))
      | inr other ↦
          let r : compare_lengths m s1 s2 (length (x ∷ xs)) (length (y ∷ ys)) ≡ pos 1 =
            ground arith in
          (
            (λ z. cc (r, z)),
            (λ z. cc (ap (λ l. suc (length xs) == length l) z.0, other, ==_refl (suc (length xs)))),
          )
    ]

-- On two strings and enough fuel `strcmp` returns, and it returns 0 exactly where the strings are
-- the same and not empty: two empty strings compare as different.
pub strcmp_lem :
    (m : Mem) (s1 s2 fuel : ℕ) (xs ys : List ℕ)
    → IsStr m s1 xs
    → IsStr m s2 ys
    → length xs < fuel
    → length ys < fuel
    → (r : ℤ) × (strcmp fuel m s1 s2 ≡ some r) × ((r ≡ pos 0) ↔ ((xs ≡ ys) × (xs ≢ [])))
unfolding strcmp
strcmp_lem m s1 s2 fuel xs ys h k f f' = (
  compare_lengths m s1 s2 (length xs) (length ys),
  rw (strlen_lem m s1 fuel xs h f, strcmp, strlen_lem m s2 fuel ys k f'),
  compare_lengths-zero m s1 s2 xs ys h k,
)
