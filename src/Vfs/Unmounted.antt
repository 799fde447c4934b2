-- ===== src/Vfs/Unmounted.antt =====
-- What a mount below a new directory leaves for its other names: fs/vfs/mount.c and fs/vfs/vfs.c.
use kernel_old.Base.{
  ℕ, ◌≡◌, refl, inl, inr, Bool, true, false, Option, none, some, [], ◌∷◌, if◌then◌else◌, Bool-cases,
}
use kernel_old.Vfs.{Text, strcmp_zero}
use kernel_old.Vfs.Mount.{
  Children, childless, entry, mount_below, VfsTree, vfs_mount, find_child, get_mountpoint,
  vfs_get_mountpoint, vfs_resolve_path, strcmp_zero_refl,
}

find-new :
    (c : ℕ) (cs q : Text) (dev : ℕ) (tree : Children)
    → find_child (c ∷ cs) tree ≡ none
    → find_child (c ∷ cs) (mount_below (c ∷ cs) (q ∷ []) dev tree)
      ≡ some (0, entry q dev childless childless)
unfolding find_child mount_below
find-new c cs q dev childless e = rw (strcmp_zero_refl c cs, find_child) refl
find-new c cs q dev (entry n f sub more) e = elim (Bool-cases (strcmp_zero n (c ∷ cs))) [
  | inl t ↦ absurd (found_none (f, sub) (find_child (c ∷ cs) more) (strcmp_zero n (c ∷ cs)) t e)
  | inr t ↦
      rw (t, mount_below, t, find_child)
        (find-new c cs q dev more
          (later (f, sub) (find_child (c ∷ cs) more) (strcmp_zero n (c ∷ cs)) t e))
]
  where
    found_none :
        (x : ℕ × Children) (o : Option (ℕ × Children)) (b : Bool)
        → b ≡ true
        → (if b then some x else o) ≡ none
        → ⊥
    found_none x o true t e = cc
    found_none x o false t e = cc

    later :
        (x : ℕ × Children) (o : Option (ℕ × Children)) (b : Bool)
        → b ≡ false
        → (if b then some x else o) ≡ none
        → o ≡ none
    later x o true t e = cc
    later x o false t e = e

-- Where the tree has no entry for a directory, mounting a file at one name in it makes an entry for
-- the directory that has no file. Any other name in that directory then has NULL for its mount
-- point, also below a mounted root, and `vfs_resolve_path` faults on it.
pub vfs_resolve_path-fault :
    (is_device : ℕ → Bool) (finddir : ℕ → Text → Option ℕ)
    → (c : ℕ) (cs mounted other : Text) (dev : ℕ) (t : VfsTree)
    → find_child (c ∷ cs) t.children ≡ none
    → strcmp_zero mounted other ≡ false
    → vfs_resolve_path is_device finddir
        (vfs_mount dev ((c ∷ cs) ∷ mounted ∷ []) t)
        ((c ∷ cs) ∷ other ∷ [])
      ≡ none
unfolding vfs_resolve_path vfs_get_mountpoint get_mountpoint vfs_mount find_child
vfs_resolve_path-fault is_device finddir c cs mounted other dev t fresh differ =
    let reached : get_mountpoint t.file (mount_below (c ∷ cs) (mounted ∷ []) dev t.children)
          ((c ∷ cs) ∷ other ∷ [])
        ≡ 0 =
      rw (find-new c cs mounted dev t.children fresh, get_mountpoint)
        (rw (differ, find_child) refl) in
    rw (reached, vfs_get_mountpoint) refl
