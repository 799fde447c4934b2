-- ===== src/Exec/Counting.antt =====
-- The arguments that sys/syscall/syscall.c `sys_execve` counts and copies.
use kernel_old.Base.{
  ℕ, zero, suc, ◌+◌, ◌≤◌, ◌<◌, ◌≡◌, ◌≢◌, ◌⊎◌, refl, inl, inr, Option, none, some, List, [], ◌∷◌,
  arith, ◌==◌, ==_iff, Bool-cases, Option-cases, length,
}
use kernel_old.Vfs.{Text}
use kernel_old.Vfs.Mount.{vfs_stat}
use kernel_old.Exec.{vfs_stat, take_args, execve_args}

-- The texts are those of `argv` from `i` on, and the entry behind them is NULL.
unfoldable pub Ends : (argv : ℕ → Option Text) → (i : ℕ) → List Text → Type 0
Ends argv i [] = argv i ≡ none
Ends argv i (t ∷ ts) = (argv i ≡ some t) × Ends argv (i + 1) ts

-- What `rounds` rounds from `i` on give: the texts up to a NULL, or nothing, and then no entry of the
-- rounds is NULL.
unfoldable pub Counted : (argv : ℕ → Option Text) → (i rounds : ℕ) → Option (List Text) → Type 0
Counted argv i rounds none = (j : ℕ) → i ≤ j → j < i + rounds → argv j ≢ none
Counted argv i rounds (some ts) = (length ts < rounds) × Ends argv i ts

one_more :
    (argv : ℕ → Option Text) (i n : ℕ) (t : Text) (o : Option (List Text))
    → argv i ≡ some t
    → Counted argv (i + 1) n o
    → Counted argv i (suc n) (elim o [ none ↦ none | some ts ↦ some (t ∷ ts) ])
unfolding Counted Ends
one_more argv i n t (some ts) e (lt, h) = (omega (arith, lt), (e, h))
one_more argv i n t none e h = λ j lo hi. elim (Bool-cases (j == i)) [
  | inl same ↦ λ null. cc (rw ((==_iff j i).0 same, e) at null)
  | inr other ↦ h j (ground (arith, lo, other)) (omega (arith, hi))
]

take_args-Counted :
    (argv : ℕ → Option Text) (i rounds : ℕ) → Counted argv i rounds (take_args argv i rounds)
unfolding Counted Ends take_args
take_args-Counted argv i zero = λ j lo hi. absurd (omega (arith, lo, hi))
take_args-Counted argv i (suc n) = elim (Option-cases (argv i)) [
  | inl null ↦ rw (null, take_args) (omega arith, null)
  | inr (t, e) ↦
      rw (e, take_args)
        (one_more argv i n t (take_args argv (i + 1) n) e (take_args-Counted argv (i + 1) n))
]

-- What a call gives: a -1 with its reason, or the arguments.
unfoldable pub Called :
    (path : Option Text) (argv : Option (ℕ → Option Text)) (envp : Option ℕ)
    (find : Text → Option ℕ)
    → Option (List Text)
    → Type 0
Called path argv envp find none =
    (path ≡ none)
    ⊎ (argv ≡ none)
    ⊎ (envp ≡ none)
    ⊎ ((p : Text) × (path ≡ some p) × (find p ≡ none))
    ⊎ ((args : ℕ → Option Text) × (argv ≡ some args) × ((j : ℕ) → j < 128 → args j ≢ none))
Called path argv envp find (some ts) =
    (p : Text) × (path ≡ some p)
    × (args : ℕ → Option Text) × (argv ≡ some args)
    × (envp ≢ none)
    × (find p ≢ none)
    × (length ts < 128)
    × Ends args 0 ts

counted :
    (p : Text) (args : ℕ → Option Text) (e node : ℕ) (find : Text → Option ℕ)
    → find p ≡ some node
    → (o : Option (List Text)) → Counted args 0 128 o
    → Called (some p) (some args) (some e) find o
unfolding Called Counted
counted p args e node find found none h =
    inr (inr (inr (inr (args, refl, λ j lt. h j (omega arith) (omega (arith, lt))))))
counted p args e node find found (some ts) (lt, h) =
    (p, refl, args, refl, (λ null. cc), (λ null. cc), lt, h)

-- `sys_execve` returns -1 before it replaces the program only if its path, its arguments or its
-- environment are NULL, the path is not found, or none of the first 128 arguments is NULL. Else it
-- goes on with the arguments before the first NULL, of which there are fewer than 128.
pub execve_args-Counted :
    (path : Option Text) (argv : Option (ℕ → Option Text)) (envp : Option ℕ)
    (find : Text → Option ℕ)
    → Called path argv envp find (execve_args path argv envp find)
unfolding execve_args Called vfs_stat
execve_args-Counted none argv envp find = inl refl
execve_args-Counted (some p) none envp find = inr (inl refl)
execve_args-Counted (some p) (some args) none find = inr (inr (inl refl))
execve_args-Counted (some p) (some args) (some e) find = elim (Option-cases (find p)) [
  | inl missing ↦ rw (missing, execve_args) (inr (inr (inr (inl (p, refl, missing)))))
  | inr (node, found) ↦
      rw (found, execve_args)
        (counted p args e node find found (take_args args 0 128) (take_args-Counted args 0 128))
]
