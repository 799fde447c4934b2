-- ===== src/Vfs.antt =====
-- Paths and mount points: fs/vfs/path.c, fs/vfs/mount.c, fs/vfs/vfs.c, the tree of util/tree.c, and
-- `strtok` of util/stdlib.c. A text is the list of its bytes without the NUL; a buffer is all the
-- bytes of its allocation. `none` is a fault: an access outside a buffer or through NULL.
pub mod Split
pub mod Canon
pub mod Canonical
pub mod Relative
pub mod Mount
pub mod Unmounted
pub mod Faults
mod Tests
use kernel_old.Base.{
  ℕ, zero, suc, ◌+◌, ◌-◌, ◌*◌, ◌/◌, ◌%◌, ◌^◌, ◌≤◌, ◌<◌, min, bit_and, bit_or, bit_xor, ◌≡◌, refl,
  sym, ap, ap₂, subst, ◌∙◌, ◌≢◌, ◌↔◌, ◌⊎◌, inl, inr, Bool, true, false, not, ◌&&◌, ◌||◌, Option,
  none, some, List, [], ◌∷◌, ◌++◌, map, arith, ltb, leb, ◌==◌, if◌then◌else◌, ltb→lt, lt→ltb,
  leb→le, ==_iff, ==_refl, Bool-cases, Option-cases, length, get_elem?, set, length-append,
  append_assoc, update_self, update, every, every-holds,
}

abbrev pub Text : Type 0
Text = List ℕ

abbrev pub slash : ℕ
slash = b'/'

unfoldable pub same_text : Text → Text → Bool
same_text [] [] = true
same_text [] (_ ∷ _) = false
same_text (_ ∷ _) [] = false
same_text (x ∷ xs) (y ∷ ys) = (x == y) && same_text xs ys

-- `strcmp(s, t) == 0`: empty texts are never the same.
unfoldable pub strcmp_zero : Text → Text → Bool
strcmp_zero [] t = false
strcmp_zero (x ∷ xs) t = same_text (x ∷ xs) t

abbrev pub has_byte : ℕ → Text → Bool
has_byte c [] = false
has_byte c (d ∷ ds) = (c == d) || has_byte c ds

abbrev pub longer : ℕ → Option (Text × Text) → Option (Text × Text)
longer c none = none
longer c (some (t, rest)) = some (c ∷ t, rest)

-- The loop of `strtok`: the bytes before a NUL or a delimiter, and the buffer behind that byte.
unfoldable pub token_at : (delim : Text) → List ℕ → Option (Text × Text)
token_at delim [] = none
token_at delim (c ∷ cs) =
    let rest = longer c (token_at delim cs) in
    if (c == 0) || has_byte c delim then some ([], cs) else rest

-- What `strtok` returns, from the buffer at `olds`: NULL at a NUL, else a token and the next `olds`.
-- A token is stored with its NUL in a buffer of 1000 bytes, and a longer one is stored past its end.
pub data Tok : Type 0 where
  null : Tok
  token : Text → (olds : List ℕ) → Tok

abbrev pub as_token : Option (Text × Text) → Option Tok
as_token none = none
as_token (some (t, olds)) = if ltb (length t) 1000 then some (token t olds) else none

unfoldable pub strtok : (delim : Text) → (olds : List ℕ) → Option Tok
strtok delim [] = none
strtok delim (c ∷ cs) =
    let walk = as_token (token_at delim (c ∷ cs)) in if c == 0 then some null else walk

-- The list of tokens as `list_push_back` and `list_pop_back` leave it: popping the only node leaves
-- `head` behind, and a push on such a list stores through the null `tail`.
pub record Tokens : Type 0 where
  pub names : List Text
  pub dangling : Bool

unfoldable pub push_token : Tokens → Text → Option Tokens
push_token ts t =
    if ts.dangling then none else some (record { names = ts.names ++ (t ∷ []); dangling = false })

abbrev pub init : List Text → List Text
init [] = []
init (x ∷ []) = []
init (x ∷ y ∷ ys) = x ∷ init (y ∷ ys)

abbrev pub is_single : List Text → Bool
is_single (x ∷ []) = true
is_single _ = false

unfoldable pub pop_token : Tokens → Tokens
pop_token ts = record { names = init ts.names; dangling = ts.dangling || is_single ts.names }

abbrev pub dot : Text
dot = b'.' ∷ []

abbrev pub dot_dot : Text
dot_dot = b'.' ∷ b'.' ∷ []

-- What `vfs_mk_canonpath` does with a token.
unfoldable pub take_token : Tokens → Text → Option Tokens
take_token ts [] = some ts
take_token ts (c ∷ cs) =
    if strcmp_zero (c ∷ cs) dot_dot
    then some (if length ts.names == 0 then ts else pop_token ts)
    else if strcmp_zero (c ∷ cs) dot
    then some ts
    else push_token ts (c ∷ cs)

-- The loop over the tokens, on fuel.
unfoldable pub canon_loop : (fuel : ℕ) → Tokens → (olds : List ℕ) → Option Tokens
canon_loop zero ts olds = none
canon_loop (suc fuel) ts olds = elim (strtok (slash ∷ []) olds) [
  | none ↦ none
  | some null ↦ some ts
  | some (token t olds') ↦ elim (take_token ts t) [
    | none ↦ none
    | some ts' ↦ canon_loop fuel ts' olds'
  ]
]

unfoldable pub join : List Text → Text
join [] = []
join (t ∷ ts) = slash ∷ (t ++ join ts)

unfoldable pub final_path : List Text → Text
final_path [] = slash ∷ []
final_path (t ∷ ts) = join (t ∷ ts)

-- `path[0] != '/'`
abbrev pub is_relative : Text → Bool
is_relative [] = true
is_relative (c ∷ cs) = not (c == slash)

abbrev pub rooted : (working : Option Text) → Text → Text
rooted none path = path
rooted (some w) path = if is_relative path then w ++ (slash ∷ path) else path

-- The buffer of `kmalloc` that holds a text: zeros follow it up to a multiple of 16 bytes.
abbrev pub zeros : ℕ → List ℕ
zeros zero = []
zeros (suc n) = 0 ∷ zeros n

unfoldable pub buffer_of : (size : ℕ) → Text → List ℕ
buffer_of size text = text ++ zeros ((size + 15) / 16 * 16 - length text)

-- The size that `vfs_mk_canonpath` allocates for its copy.
unfoldable pub temp_size : (working : Option Text) → Text → ℕ
temp_size none path = length path + 1
temp_size (some w) path = if is_relative path then length path + length w + 2 else length path + 1

unfoldable pub vfs_mk_canonpath : (fuel : ℕ) → (working : Option Text) → Text → Option Text
vfs_mk_canonpath fuel working path =
    elim (canon_loop fuel (record { names = []; dangling = false })
      (buffer_of (temp_size working path) (rooted working path))) [
        | none ↦ none
        | some ts ↦ some (final_path ts.names)
      ]

-- `strsplit` over the bytes left, the last of them the NUL; `tok` is the token so far.
unfoldable pub split_loop : (c : ℕ) → (tok : Text) → Text → List Text
split_loop c [] [] = []
split_loop c (t ∷ ts) [] = (t ∷ ts) ∷ []
split_loop c tok (x ∷ xs) =
    let kept = split_loop c (tok ++ (x ∷ [])) xs in
    let cut = split_loop c [] xs in
    if x == c then elim tok [ [] ↦ cut | t ∷ ts ↦ (t ∷ ts) ∷ cut ] else kept

unfoldable pub strsplit : Text → (c : ℕ) → List Text
strsplit str c = split_loop c [] str

-- The parts of a path; a relative one is put behind the working directory as it is.
unfoldable pub vfs_mkpath : Text → (working : Option Text) → List Text
vfs_mkpath [] none = strsplit [] slash
vfs_mkpath [] (some w) = strsplit w slash
vfs_mkpath (c ∷ cs) none = strsplit cs slash
vfs_mkpath (c ∷ cs) (some w) =
    if c == slash then strsplit cs slash else strsplit (w ++ (c ∷ cs)) slash
