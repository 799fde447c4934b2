-- ===== src/Vfs/Canon.antt =====
-- `vfs_mk_canonpath` of fs/vfs/path.c against the resolution of the components of a path.
use kernel_old.Base.{
  ℕ, zero, suc, ◌+◌, ◌-◌, ◌*◌, ◌/◌, ◌%◌, ◌≤◌, ◌<◌, ◌≡◌, refl, sym, ap, subst, ◌∙◌, inl, inr, Bool,
  true, false, not, ◌&&◌, Option, none, some, List, [], ◌∷◌, ◌++◌, arith, ltb, ◌==◌, if◌then◌else◌,
  Bool-cases, length, length-append,
}
use kernel_old.Vfs.{
  Text, slash, same_text, strcmp_zero, longer, token_at, token, as_token, strtok, Tokens,
  push_token, init, is_single, pop_token, dot, dot_dot, take_token, canon_loop, is_relative,
  final_path, rooted, zeros, buffer_of, temp_size, vfs_mk_canonpath,
}

-- A text by its slashes, empty components included.
abbrev pub onto_first : ℕ → List Text → List Text
onto_first c [] = (c ∷ []) ∷ []
onto_first c (t ∷ ts) = (c ∷ t) ∷ ts

unfoldable pub components : Text → List Text
components [] = [] ∷ []
components (c ∷ cs) = if c == slash then [] ∷ components cs else onto_first c (components cs)

-- One component on the names so far.
unfoldable pub step : List Text → Text → List Text
step names [] = names
step names (c ∷ cs) =
    if same_text (c ∷ cs) dot_dot
    then init names
    else if same_text (c ∷ cs) dot
    then names
    else names ++ ((c ∷ cs) ∷ [])

unfoldable pub resolve : List Text → List Text → List Text
resolve names [] = names
resolve names (t ∷ ts) = resolve (step names t) ts

-- No `..` takes away the only name.
unfoldable pub steady : List Text → List Text → Bool
steady names [] = true
steady names (t ∷ ts) = not (same_text t dot_dot && is_single names) && steady (step names t) ts

-- Every component fits in the buffer of `strtok` with its NUL.
unfoldable pub short : List Text → Bool
short [] = true
short (t ∷ ts) = ltb (length t) 1000 && short ts

pub data NulFree : Text → Type 0 where
  end_of_text : NulFree []
  byte : (c : ℕ) {cs : Text} → (c == 0) ≡ false → NulFree cs → NulFree (c ∷ cs)

-- The tokens of a run over components.
unfoldable pub run : Tokens → List Text → Option Tokens
run ts [] = some ts
run ts (t ∷ rest) = elim (take_token ts t) [ none ↦ none | some ts' ↦ run ts' rest ]

-- What follows the first component of `cs` in a buffer that ends in two zeros: the end, or the rest
-- of the text.
data Behind (pad : List ℕ) (len : ℕ) : List Text → List ℕ → Type 0 where
  at_end : Behind pad len [] (0 ∷ pad)
  at_slash :
      (ds : Text)
      → NulFree ds
      → length ds < len
      → Behind pad len (components ds) (ds ++ (0 ∷ 0 ∷ pad))

record FirstToken (pad : List ℕ) (cs : Text) : Type 0 where
  first : Text
  parts : List Text
  olds : List ℕ
  found : token_at (slash ∷ []) (cs ++ (0 ∷ 0 ∷ pad)) ≡ some (first, olds)
  split : components cs ≡ first ∷ parts
  behind : Behind pad (length cs) parts olds

Behind-le :
    (pad : List ℕ) (m n : ℕ) (parts : List Text) (olds : List ℕ)
    → m ≤ n
    → Behind pad m parts olds
    → Behind pad n parts olds
Behind-le pad m n _ _ le at_end = at_end
Behind-le pad m n _ _ le (at_slash ds free lt) = at_slash ds free (omega (arith, le, lt))

first_token : (pad : List ℕ) (cs : Text) → NulFree cs → FirstToken pad cs
unfolding token_at components
first_token pad _ end_of_text = record {
  first = [];
  parts = [];
  olds = 0 ∷ pad;
  found = refl;
  split = refl;
  behind = at_end;
}
first_token pad _ (byte c {cs} not_nul free) =
    let r = first_token pad cs free in
    elim (Bool-cases (c == slash)) [
      | inl is_slash ↦ record {
        first = [];
        parts = components cs;
        olds = cs ++ (0 ∷ 0 ∷ pad);
        found = rw (not_nul, is_slash, token_at) refl;
        split = rw (is_slash, components) refl;
        behind = at_slash cs free (omega arith);
      }
      | inr other ↦ record {
        first = c ∷ r.first;
        parts = r.parts;
        olds = r.olds;
        found = rw (not_nul, other, token_at) (ap (longer c) r.found);
        split = rw (other, components) (ap (onto_first c) r.split);
        behind = Behind-le pad _ _ r.parts r.olds (omega arith) r.behind;
      }
    ]

pub loop_token :
    (fuel : ℕ) (ts : Tokens) (olds olds' : List ℕ) (t : Text)
    → strtok (slash ∷ []) olds ≡ some (token t olds')
    → canon_loop (suc fuel) ts olds
      ≡ (elim (take_token ts t) [ none ↦ none | some ts' ↦ canon_loop fuel ts' olds' ])
unfolding canon_loop
loop_token fuel ts olds olds' t e = rw (e, canon_loop) refl

pub strtok-token :
    (c : ℕ) (cs olds : List ℕ) (t : Text)
    → (c == 0) ≡ false
    → token_at (slash ∷ []) (c ∷ cs) ≡ some (t, olds)
    → ltb (length t) 1000 ≡ true
    → strtok (slash ∷ []) (c ∷ cs) ≡ some (token t olds)
unfolding strtok
strtok-token c cs olds t not_nul found fits =
    rw (not_nul, strtok)
      (ap as_token found ∙ ap (λ b. if b then some (token t olds) else none) fits)

loop_end :
    (fuel : ℕ) (ts : Tokens) (pad : List ℕ) → 0 < fuel → canon_loop fuel ts (0 ∷ pad) ≡ some ts
unfolding canon_loop strtok
loop_end zero ts pad lt = absurd (omega (arith, lt))
loop_end (suc fuel) ts pad lt = refl

short_parts :
    (t : Text) (ts : List Text)
    → short (t ∷ ts) ≡ true
    → (ltb (length t) 1000 ≡ true) × (short ts ≡ true)
unfolding short
short_parts t ts e = conj_parts (ltb (length t) 1000) (short ts) e
  where
    conj_parts : (a b : Bool) → (a && b) ≡ true → (a ≡ true) × (b ≡ true)
    conj_parts true b e = (refl, e)
    conj_parts false b e = absurd (cc)

-- The loop over the tokens of a buffer is the run over the components of its text.
pub canon_loop-run :
    (fuel : ℕ) (ts : Tokens) (pad : List ℕ) (cs : Text)
    → NulFree cs
    → length cs < fuel
    → short (components cs) ≡ true
    → canon_loop fuel ts (cs ++ (0 ∷ 0 ∷ pad)) ≡ run ts (components cs)
unfolding canon_loop run strtok components take_token
canon_loop-run zero ts pad cs free lt fit = absurd (omega (arith, lt))
canon_loop-run (suc fuel) ts pad _ end_of_text lt fit = refl
canon_loop-run (suc fuel) ts pad _ (byte c {cs} not_nul free) lt fit =
    let r = first_token pad (c ∷ cs) (byte c not_nul free) in
    let (fits, rest) = short_parts r.first r.parts (subst (λ ts. short ts ≡ true) r.split fit) in
    loop_token fuel ts (c ∷ (cs ++ (0 ∷ 0 ∷ pad))) r.olds r.first
      (strtok-token c (cs ++ (0 ∷ 0 ∷ pad)) r.olds r.first not_nul r.found fits)
    ∙ after (take_token ts r.first) r.parts r.olds (canon_loop-run fuel) r.behind rest
    ∙ sym (ap (run ts) r.split)
  where
    after :
        (o : Option Tokens) (parts : List Text) (olds : List ℕ)
        → ((ts' : Tokens) (pad' : List ℕ) (ds : Text)
            → NulFree ds
            → length ds < fuel
            → short (components ds) ≡ true
            → canon_loop fuel ts' (ds ++ (0 ∷ 0 ∷ pad')) ≡ run ts' (components ds))
        → Behind pad (suc (length cs)) parts olds
        → short parts ≡ true
        → (elim o [ none ↦ none | some ts' ↦ canon_loop fuel ts' olds ])
          ≡ (elim o [ none ↦ none | some ts' ↦ run ts' parts ])
    after none parts olds ih b s = refl
    after (some ts') _ _ ih at_end s = loop_end fuel ts' pad (omega (arith, lt))
    after (some ts') _ _ ih (at_slash ds free' lt') s =
        ih ts' pad ds free' (omega (arith, lt, lt')) s

same_text-strcmp : (c : ℕ) (cs t : Text) → strcmp_zero (c ∷ cs) t ≡ same_text (c ∷ cs) t
unfolding strcmp_zero
same_text-strcmp c cs t = refl

unfoldable pub clean : List Text → Tokens
clean names = record { names = names; dangling = false }

popped :
    (names : List Text)
    → is_single names ≡ false
    → ◌≡◌ {A = Option Tokens}
        (some (if length names == 0 then clean names else pop_token (clean names)))
        (some (clean (init names)))
unfolding clean pop_token
popped [] e = refl
popped (x ∷ []) e = cc
popped (x ∷ y ∷ ys) e = ground arith

second : (a b : Bool) → a ≡ true → (a && b) ≡ false → b ≡ false
second a b up e = ground (arith, up, e)

steady_parts : (a b : Bool) → (not a && b) ≡ true → (a ≡ false) × (b ≡ true)
steady_parts true b e = absurd (cc)
steady_parts false b e = (refl, e)

take_token-step :
    (names : List Text) (t : Text)
    → (same_text t dot_dot && is_single names) ≡ false
    → take_token (clean names) t ≡ some (clean (step names t))
unfolding take_token step clean strcmp_zero pop_token push_token
take_token-step names [] e = refl
take_token-step names (c ∷ cs) e = elim (Bool-cases (same_text (c ∷ cs) dot_dot)) [
  | inl up ↦
      rw (up, take_token, step)
        (popped names (second (same_text (c ∷ cs) dot_dot) (is_single names) up e))
  | inr not_up ↦ elim (Bool-cases (same_text (c ∷ cs) dot)) [
    | inl here ↦ rw (not_up, here, take_token, step) refl
    | inr name ↦ rw (not_up, name, take_token, step) refl
  ]
]

-- The run over components keeps the names that resolving them gives.
run-resolve :
    (names parts : List Text)
    → steady names parts ≡ true
    → run (clean names) parts ≡ some (clean (resolve names parts))
unfolding run resolve steady
run-resolve names [] e = refl
run-resolve names (t ∷ ts) e =
    let (keeps, later) =
      steady_parts (same_text t dot_dot && is_single names) (steady (step names t) ts) e in
    ap (λ (o : Option Tokens). elim o [ none ↦ none | some ts' ↦ run ts' ts ])
      (take_token-step names t keeps)
    ∙ run-resolve (step names t) ts later

fits_copy :
    (working : Option Text) (path : Text) → length (rooted working path) < temp_size working path
unfolding temp_size
fits_copy none path = omega arith
fits_copy (some w) path = elim (Bool-cases (is_relative path)) [
  | inl r ↦ rw (r, temp_size) (omega (arith, length-append w (slash ∷ path)))
  | inr r ↦ rw (r, temp_size) (omega arith)
]

-- A buffer whose size is not a multiple of 16 is padded.
buffer_of-pad :
    (size : ℕ) (text : Text)
    → length text < size
    → (size % 16 == 0) ≡ false
    → (pad : List ℕ) × (buffer_of size text ≡ text ++ (0 ∷ 0 ∷ pad))
unfolding buffer_of
buffer_of-pad size text fits odd =
    let e : (size + 15) / 16 * 16 - length text
        ≡ suc (suc ((size + 15) / 16 * 16 - length text - 2)) =
      ground (arith, odd, fits) in
    (zeros ((size + 15) / 16 * 16 - length text - 2), ap (λ n. text ++ zeros n) e)

-- `vfs_mk_canonpath` on a path without NUL bytes whose components have fewer than 1000 bytes, where
-- the size of its copy is not a multiple of 16 and no `..` takes away the only name, on enough fuel:
-- it returns the path of the names that are
-- left when the components are resolved from left to right.
pub vfs_mk_canonpath_lem :
    (fuel : ℕ) (working : Option Text) (path : Text)
    → NulFree (rooted working path)
    → (temp_size working path % 16 == 0) ≡ false
    → length (rooted working path) < fuel
    → short (components (rooted working path)) ≡ true
    → steady [] (components (rooted working path)) ≡ true
    → vfs_mk_canonpath fuel working path
      ≡ some (final_path (resolve [] (components (rooted working path))))
unfolding vfs_mk_canonpath clean
vfs_mk_canonpath_lem fuel working path free odd enough fit keeps =
    let text : Text = rooted working path in
    let (pad, e) = buffer_of-pad (temp_size working path) text (fits_copy working path) odd in
    ap (λ (o : Option Tokens). elim o [ none ↦ none | some ts ↦ some (final_path ts.names) ])
      (ap (canon_loop fuel (clean [])) e
        ∙ canon_loop-run fuel (clean []) pad text free enough fit
        ∙ run-resolve [] (components text) keeps)
