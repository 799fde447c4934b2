-- ===== src/Vfs/Mount.antt =====
-- The tree of mount points: fs/vfs/mount.c on the tree of util/tree.c, and `vfs_resolve_path` of
-- fs/vfs/vfs.c. A node of a file system is its number, 0 for NULL. A path is given by its names.
use kernel_old.Base.{
  ◌-◌, ◌^◌, ℕ, ◌≡◌, refl, inl, inr, Bool, true, Option, none, some, List, [], ◌∷◌, ◌==◌,
  if◌then◌else◌, ==_refl, Bool-cases,
}
use kernel_old.Vfs.{Text, same_text, strcmp_zero}

-- The children of a tree node, in the order of insertion: the name and file of an entry, its own
-- children, and the entries after it.
pub data Children : Type 0 where
  childless : Children
  entry : (name : Text) (file : ℕ) (children siblings : Children) → Children

-- `vfs_mount_recur` below a node; an entry that is made on the way has no file.
unfoldable pub mount_below : (name : Text) (rest : List Text) (dev : ℕ) → Children → Children
mount_below name [] dev childless = entry name dev childless childless
mount_below name (r ∷ rs) dev childless = entry name 0 (mount_below r rs dev childless) childless
mount_below name [] dev (entry n f sub more) =
    let next = mount_below name [] dev more in
    if strcmp_zero n name then entry n dev sub more else entry n f sub next
mount_below name (r ∷ rs) dev (entry n f sub more) =
    let inside = mount_below r rs dev sub in
    let next = mount_below name (r ∷ rs) dev more in
    if strcmp_zero n name then entry n f inside more else entry n f sub next

-- The file of the root and what is below it.
pub record VfsTree : Type 0 where
  pub file : ℕ
  pub children : Children

unfoldable pub vfs_init : VfsTree
vfs_init = record { file = 0; children = childless }

unfoldable pub vfs_mount : (dev : ℕ) → (mnt_pt : List Text) → VfsTree → VfsTree
vfs_mount dev [] t = record t { file = dev }
vfs_mount dev (p ∷ ps) t = record t { children = mount_below p ps dev t.children }

unfoldable pub find_child : Text → Children → Option (ℕ × Children)
find_child name childless = none
find_child name (entry n f sub more) =
    let rest = find_child name more in if strcmp_zero n name then some (f, sub) else rest

-- `vfs_get_mountpoint_recur`: the file of the last entry that the path reaches.
unfoldable pub get_mountpoint : (file : ℕ) → Children → List Text → ℕ
get_mountpoint file cs [] = file
get_mountpoint file cs (p ∷ ps) = elim (find_child p cs) [
  | none ↦ file
  | some (f, sub) ↦ get_mountpoint f sub ps
]

unfoldable pub vfs_get_mountpoint : VfsTree → List Text → ℕ
vfs_get_mountpoint t path = get_mountpoint t.file t.children path

module _ (is_device : ℕ → Bool) (finddir : ℕ → Text → Option ℕ) where
  -- The walk of `vfs_resolve_path` from the mount point, over all names of the path.
  unfoldable pub walk : ℕ → List Text → Option ℕ
  walk node [] = some node
  walk node (p ∷ ps) = elim (finddir node p) [ none ↦ none | some next ↦ walk next ps ]

  -- The outer `none` is a fault, as `mount->flags` is read; the inner one is the returned NULL.
  unfoldable pub vfs_resolve_path : VfsTree → List Text → Option (Option ℕ)
  vfs_resolve_path t path =
      let mount : ℕ = vfs_get_mountpoint t path in
      if mount == 0
      then none
      else if is_device mount
      then some (some mount)
      else some (walk mount path)

-- `vfs_stat`, from the node that `vfs_resolve_path` returns; -1 is an `int`.
unfoldable pub vfs_stat : (node : Option ℕ) → ℕ
vfs_stat none = 2 ^ 32 - 1
vfs_stat (some node) = 0

-- The file of the entry at a path, where there is one.
unfoldable pub exact : Children → Text → List Text → Option ℕ
exact cs p [] = elim (find_child p cs) [ none ↦ none | some (f, _) ↦ some f ]
exact cs p (q ∷ qs) = elim (find_child p cs) [ none ↦ none | some (_, sub) ↦ exact sub q qs ]

-- Texts that are not empty.
pub data Filled : List Text → Type 0 where
  no_parts : Filled []
  part : (c : ℕ) (cs : Text) {ts : List Text} → Filled ts → Filled ((c ∷ cs) ∷ ts)

same_text_refl : (t : Text) → same_text t t ≡ true
unfolding same_text
same_text_refl [] = refl
same_text_refl (c ∷ cs) = rw (==_refl c) (same_text_refl cs)

pub strcmp_zero_refl : (c : ℕ) (cs : Text) → strcmp_zero (c ∷ cs) (c ∷ cs) ≡ true
unfolding strcmp_zero
strcmp_zero_refl c cs = same_text_refl (c ∷ cs)

-- What is found under the name that was mounted.
find-mount :
    (c : ℕ) (cs : Text) (dev : ℕ) (tree : Children)
    → (sub : Children) × (find_child (c ∷ cs) (mount_below (c ∷ cs) [] dev tree) ≡ some (dev, sub))
unfolding find_child mount_below
find-mount c cs dev childless = (childless, rw (strcmp_zero_refl c cs, find_child) refl)
find-mount c cs dev (entry n f sub more) = elim (Bool-cases (strcmp_zero n (c ∷ cs))) [
  | inl e ↦ (sub, rw (e, mount_below, e, find_child) refl)
  | inr e ↦
      let (s, found) = find-mount c cs dev more in (s, rw (e, mount_below, e, find_child) found)
]

find-mount_deeper :
    (c : ℕ) (cs r : Text) (rs : List Text) (dev : ℕ) (tree : Children)
    → (f : ℕ) × ((sub : Children) × (find_child (c ∷ cs) (mount_below (c ∷ cs) (r ∷ rs) dev tree)
          ≡ some (f, mount_below r rs dev sub)))
unfolding find_child mount_below
find-mount_deeper c cs r rs dev childless =
    (0, (childless, rw (strcmp_zero_refl c cs, find_child) refl))
find-mount_deeper c cs r rs dev (entry n f sub more) = elim (Bool-cases (strcmp_zero n (c ∷ cs))) [
  | inl e ↦ (f, (sub, rw (e, mount_below, e, find_child) refl))
  | inr e ↦
      let (g, (s, found)) = find-mount_deeper c cs r rs dev more in
      (g, (s, rw (e, mount_below, e, find_child) found))
]

get-mount :
    (file dev : ℕ) (p : Text) (ps : List Text) (tree : Children)
    → Filled (p ∷ ps)
    → get_mountpoint file (mount_below p ps dev tree) (p ∷ ps) ≡ dev
unfolding get_mountpoint
get-mount file dev _ _ tree (part c cs no_parts) =
    let (sub, e) = find-mount c cs dev tree in rw (e, get_mountpoint) refl
get-mount file dev _ _ tree (part c cs (part d ds {ts} more)) =
    let (f, (sub, e)) = find-mount_deeper c cs (d ∷ ds) ts dev tree in
    rw (e, get_mountpoint) (get-mount f dev (d ∷ ds) ts sub (part d ds more))

-- A file that is mounted at a path of names is the mount point that is found for that path.
pub vfs_get_mountpoint-vfs_mount :
    (dev : ℕ) (path : List Text) (t : VfsTree)
    → Filled path
    → vfs_get_mountpoint (vfs_mount dev path t) path ≡ dev
unfolding vfs_get_mountpoint vfs_mount get_mountpoint
vfs_get_mountpoint-vfs_mount dev [] t f = refl
vfs_get_mountpoint-vfs_mount dev (p ∷ ps) t f = get-mount t.file dev p ps t.children f
