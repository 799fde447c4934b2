-- ===== src/Vfs/Split.antt =====
-- `strsplit` of fs/vfs/path.c against the components of a path.
use kernel_old.Base.{
  ℕ, ◌≡◌, refl, sym, ap, ap₂, ◌∙◌, inl, inr, List, [], ◌∷◌, ◌++◌, ◌==◌, Bool-cases, append_assoc,
}
use mathlib.Core.List.{append-nil}
use kernel_old.Vfs.{Text, slash, split_loop, strsplit}
use kernel_old.Vfs.Canon.{onto_first, components}

-- The components that are not empty.
unfoldable pub filled : List Text → List Text
filled [] = []
filled ([] ∷ ts) = filled ts
filled ((c ∷ cs) ∷ ts) = (c ∷ cs) ∷ filled ts

-- A text in front of the first component.
abbrev before : Text → List Text → List Text
before tok [] = tok ∷ []
before tok (t ∷ ts) = (tok ++ t) ∷ ts

before-onto :
    (tok : Text) (c : ℕ) (ts : List Text)
    → before (tok ++ (c ∷ [])) ts ≡ before tok (onto_first c ts)
before-onto tok c [] = refl
before-onto tok c (t ∷ ts) = ap (λ x. x ∷ ts) (append_assoc tok (c ∷ []) t)

filled-before : (ts : List Text) → filled (before [] ts) ≡ filled ts
unfolding filled
filled-before [] = refl
filled-before (t ∷ ts) = refl

cut :
    (tok cs : Text) (ts : List Text)
    → split_loop slash [] cs ≡ filled (before [] ts)
    → (elim tok [ [] ↦ split_loop slash [] cs | t ∷ us ↦ (t ∷ us) ∷ split_loop slash [] cs ])
      ≡ filled ((tok ++ []) ∷ ts)
unfolding filled
cut [] cs ts e = e ∙ filled-before ts
cut (x ∷ xs) cs ts e =
    ap₂ (λ (t : Text) (us : List Text). t ∷ us) (sym (append-nil (x ∷ xs))) (e ∙ filled-before ts)

split_loop-before : (tok cs : Text) → split_loop slash tok cs ≡ filled (before tok (components cs))
unfolding split_loop components filled
split_loop-before [] [] = refl
split_loop-before (t ∷ ts) [] = ap (λ x. x ∷ []) (sym (append-nil (t ∷ ts)))
split_loop-before tok (c ∷ cs) = elim (Bool-cases (c == slash)) [
  | inl e ↦ rw (e, split_loop, components) (cut tok cs (components cs) (split_loop-before [] cs))
  | inr e ↦
      rw (e, split_loop, components)
        (split_loop-before (tok ++ (c ∷ [])) cs ∙ ap filled (before-onto tok c (components cs)))
]

-- `strsplit` at slashes gives the components that are not empty, in order.
pub strsplit-filled : (str : Text) → strsplit str slash ≡ filled (components str)
unfolding strsplit
strsplit-filled str = split_loop-before [] str ∙ filled-before (components str)
