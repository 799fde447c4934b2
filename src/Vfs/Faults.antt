-- ===== src/Vfs/Faults.antt =====
-- Where `vfs_mk_canonpath` of fs/vfs/path.c faults.
use kernel_old.Base.{
  ℕ, zero, suc, ◌+◌, ◌-◌, ◌*◌, ◌/◌, ◌%◌, ◌<◌, ◌≡◌, refl, ap, ◌∙◌, true, false, Option, none, some,
  List, [], ◌∷◌, ◌++◌, arith, ltb, ◌==◌, length,
}
use kernel_old.Vfs.{
  Text, slash, longer, token_at, strtok, Tokens, take_token, dot_dot, canon_loop, same_text,
  strcmp_zero, push_token, pop_token, zeros, buffer_of, temp_size, final_path, vfs_mk_canonpath,
}
use kernel_old.Vfs.Canon.{
  NulFree, components, short, run, clean, canon_loop-run, loop_token, strtok-token,
}
use kernel_old.Vfs.Canonical.{Name, name}

Name-run :
    (xs : List Text) (t : Text) → Name t → take_token (clean xs) t ≡ some (clean (xs ++ (t ∷ [])))
unfolding take_token clean push_token strcmp_zero
Name-run xs _ (name c cs f up here) = rw (up, here, take_token) refl

Name-dangling :
    (xs : List Text) (t : Text)
    → Name t
    → take_token (record { names = xs; dangling = true }) t ≡ none
unfolding take_token push_token strcmp_zero
Name-dangling xs _ (name c cs f up here) = rw (up, here, take_token) refl

run_token :
    (ts ts' : Tokens) (t : Text) (rest : List Text)
    → take_token ts t ≡ some ts'
    → run ts (t ∷ rest) ≡ run ts' rest
unfolding run
run_token ts ts' t rest e =
    ap (λ (o : Option Tokens). elim o [ none ↦ none | some us ↦ run us rest ]) e

up_one :
    (t : Text) → take_token (clean (t ∷ [])) dot_dot ≡ some (record { names = []; dangling = true })
unfolding take_token clean pop_token strcmp_zero same_text
up_one t = refl

-- A path that goes into a directory of the root, back up, and into another: popping the only token
-- leaves the list's `head` behind, and pushing the next one faults.
pub canon_loop-up-fault :
    (fuel : ℕ) (pad : List ℕ) (text a b : Text)
    → NulFree text
    → length text < fuel
    → short (components text) ≡ true
    → components text ≡ [] ∷ a ∷ dot_dot ∷ b ∷ []
    → Name a
    → Name b
    → canon_loop fuel (clean []) (text ++ (0 ∷ 0 ∷ pad)) ≡ none
unfolding run take_token
canon_loop-up-fault fuel pad text a b free lt fit parts na nb =
    canon_loop-run fuel (clean []) pad text free lt fit ∙ ap (run (clean [])) parts ∙ faults
  where
    faults : run (clean []) ([] ∷ a ∷ dot_dot ∷ b ∷ []) ≡ none
    faults =
        run_token (clean []) (clean (a ∷ [])) a (dot_dot ∷ b ∷ []) (Name-run [] a na)
        ∙ run_token (clean (a ∷ [])) (record { names = []; dangling = true }) dot_dot (b ∷ [])
            (up_one a)
        ∙ ap (λ (o : Option Tokens). elim o [ none ↦ none | some ts ↦ some ts ])
            (Name-dangling [] b nb)

-- A name between slashes and NULs.
pub data Plain : Text → Type 0 where
  end_of_name : Plain []
  letter : (c : ℕ) {cs : Text} → (c == 0) ≡ false → (c == slash) ≡ false → Plain cs → Plain (c ∷ cs)

token_at-last : (t : Text) → Plain t → token_at (slash ∷ []) (t ++ (0 ∷ [])) ≡ some (t, [])
unfolding token_at
token_at-last _ end_of_name = refl
token_at-last _ (letter c {cs} not_nul not_slash p) =
    rw (not_nul, not_slash, token_at) (ap (longer c) (token_at-last cs p))

canon_loop-nil : (fuel : ℕ) (ts : Tokens) → canon_loop fuel ts [] ≡ none
unfolding canon_loop strtok
canon_loop-nil zero ts = refl
canon_loop-nil (suc fuel) ts = refl

canon_loop-last :
    (fuel c : ℕ) (cs : Text) (ts : Tokens)
    → Plain (c ∷ cs)
    → ltb (length (c ∷ cs)) 1000 ≡ true
    → canon_loop fuel ts ((c ∷ cs) ++ (0 ∷ [])) ≡ none
unfolding canon_loop strtok
canon_loop-last zero c cs ts p fit = refl
canon_loop-last (suc fuel) _ _ ts (letter c {cs} not_nul not_slash p) fit =
    loop_token fuel ts (c ∷ (cs ++ (0 ∷ []))) [] (c ∷ cs) (
      strtok-token c (cs ++ (0 ∷ [])) [] (c ∷ cs) not_nul
        (token_at-last (c ∷ cs) (letter c not_nul not_slash p)) fit)
    ∙ dead (take_token ts (c ∷ cs))
  where
    dead : (o : Option Tokens) → (elim o [ none ↦ none | some ts' ↦ canon_loop fuel ts' [] ]) ≡ none
    dead none = refl
    dead (some ts') = canon_loop-nil fuel ts'

canon_loop-rooted :
    (fuel c : ℕ) (cs : Text) (ts : Tokens)
    → Plain (c ∷ cs)
    → ltb (length (c ∷ cs)) 1000 ≡ true
    → canon_loop fuel ts (slash ∷ c ∷ (cs ++ (0 ∷ []))) ≡ none
unfolding canon_loop strtok token_at take_token
canon_loop-rooted zero c cs ts p fit = refl
canon_loop-rooted (suc fuel) c cs ts p fit = canon_loop-last fuel c cs ts p fit

-- For a path of one name of fewer than 1000 bytes behind the root slash, whose copy with its NUL takes a multiple of 16 bytes,
-- `strtok` is called once more behind the NUL, outside the copy, and so whatever the fuel.
pub vfs_mk_canonpath-overrun :
    (fuel c : ℕ) (cs : Text)
    → Plain (c ∷ cs)
    → ltb (length (c ∷ cs)) 1000 ≡ true
    → (temp_size none (slash ∷ c ∷ cs) % 16 == 0) ≡ true
    → vfs_mk_canonpath fuel none (slash ∷ c ∷ cs) ≡ none
unfolding vfs_mk_canonpath buffer_of temp_size
vfs_mk_canonpath-overrun fuel c cs p fit whole =
    let e : (suc (suc (length cs)) + 1 + 15) / 16 * 16 - suc (suc (length cs)) ≡ 1 =
      ground (arith, whole) in
    ap
      (λ n.
        elim (canon_loop fuel (record { names = []; dangling = false })
          (slash ∷ c ∷ (cs ++ zeros n))) [ none ↦ none | some ts ↦ some (final_path ts.names) ])
      e
    ∙ ap (λ (o : Option Tokens). elim o [ none ↦ none | some ts ↦ some (final_path ts.names) ])
        (canon_loop-rooted fuel c cs _ p fit)
