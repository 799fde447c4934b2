-- ===== src/Vfs/Canonical.antt =====
-- The names that `vfs_mk_canonpath` of fs/vfs/path.c keeps.
use kernel_old.Base.{
  ℕ, ◌≡◌, refl, sym, ap, ◌∙◌, inl, inr, Bool, true, false, ◌||◌, List, [], ◌∷◌, ◌++◌, arith, ◌==◌,
  Bool-cases, append_assoc,
}
use mathlib.Core.List.{append-nil}
use kernel_old.Vfs.{Text, slash, same_text, has_byte, init, dot, dot_dot}
use kernel_old.Vfs.Canon.{onto_first, components, step, resolve}

-- A name: not empty, without slashes, and neither `.` nor `..`.
pub data Name : Text → Type 0 where
  name :
      (c : ℕ) (cs : Text)
      → has_byte slash (c ∷ cs) ≡ false
      → same_text (c ∷ cs) dot_dot ≡ false
      → same_text (c ∷ cs) dot ≡ false
      → Name (c ∷ cs)

pub data Names : List Text → Type 0 where
  none_left : Names []
  also : {t : Text} {ts : List Text} → Name t → Names ts → Names (t ∷ ts)

pub data SlashFree : List Text → Type 0 where
  no_more : SlashFree []
  free : (t : Text) {ts : List Text} → has_byte slash t ≡ false → SlashFree ts → SlashFree (t ∷ ts)

onto_first-SlashFree :
    (c : ℕ) (ts : List Text) → (c == slash) ≡ false → SlashFree ts → SlashFree (onto_first c ts)
onto_first-SlashFree c _ e no_more = free (c ∷ []) (ground (arith, e)) no_more
onto_first-SlashFree c _ e (free t f s) = free (c ∷ t) (ground (arith, e, f)) s

pub components-SlashFree : (text : Text) → SlashFree (components text)
unfolding components
components-SlashFree [] = free [] refl no_more
components-SlashFree (c ∷ cs) = elim (Bool-cases (c == slash)) [
  | inl e ↦ rw (e, components) (free [] refl (components-SlashFree cs))
  | inr e ↦ rw (e, components) (onto_first-SlashFree c (components cs) e (components-SlashFree cs))
]

Names-append : {xs : List Text} (t : Text) → Names xs → Name t → Names (xs ++ (t ∷ []))
Names-append t none_left n = also n none_left
Names-append t (also m ns) n = also m (Names-append t ns n)

init-Names : {xs : List Text} → Names xs → Names (init xs)
init-Names none_left = none_left
init-Names (also m none_left) = none_left
init-Names (also m (also k ns)) = also m (init-Names (also k ns))

step-Names : (xs : List Text) (t : Text) → Names xs → has_byte slash t ≡ false → Names (step xs t)
unfolding step
step-Names xs [] ns f = ns
step-Names xs (c ∷ cs) ns f = elim (Bool-cases (same_text (c ∷ cs) dot_dot)) [
  | inl e ↦ rw (e, step) (init-Names ns)
  | inr up ↦ elim (Bool-cases (same_text (c ∷ cs) dot)) [
    | inl e ↦ rw (up, e, step) ns
    | inr here ↦ rw (up, here, step) (Names-append (c ∷ cs) ns (name c cs f up here))
  ]
]

pub resolve-Names :
    (xs : List Text) {parts : List Text} → Names xs → SlashFree parts → Names (resolve xs parts)
unfolding resolve
resolve-Names xs ns no_more = ns
resolve-Names xs ns (free t f s) = resolve-Names (step xs t) (step-Names xs t ns f) s

or_false : (a b : Bool) → (a || b) ≡ false → (a ≡ false) × (b ≡ false)
or_false true b e = absurd (cc)
or_false false b e = (refl, e)

not_slash : (c : ℕ) → (slash == c) ≡ false → (c == slash) ≡ false
not_slash c e = ground (arith, e)

pub components_name :
    (t rest : Text)
    → has_byte slash t ≡ false
    → components (t ++ (slash ∷ rest)) ≡ t ∷ components rest
unfolding components
components_name [] rest f = refl
components_name (c ∷ cs) rest f =
    let (e, f') = or_false (slash == c) (has_byte slash cs) f in
    rw (not_slash c e, components) (ap (onto_first c) (components_name cs rest f'))

pub no_slash : (t : Text) → Name t → has_byte slash t ≡ false
no_slash _ (name c cs f up here) = f

step-Name : (xs : List Text) (t : Text) → Name t → step xs t ≡ xs ++ (t ∷ [])
unfolding step
step-Name xs _ (name c cs f up here) = rw (up, here, step) refl

pub resolve-appended : (xs : List Text) {ts : List Text} → Names ts → resolve xs ts ≡ xs ++ ts
unfolding resolve
resolve-appended xs none_left = sym (append-nil xs)
resolve-appended xs (also {t} {ts} n ns) =
    ap (λ ys. resolve ys ts) (step-Name xs t n)
    ∙ resolve-appended (xs ++ (t ∷ [])) ns
    ∙ append_assoc xs (t ∷ []) ts
