-- ===== src/Syscall/Directory.antt =====
-- The working directory of a process: `sys_chdir` of sys/syscall/syscall.c.
use kernel_old.Base.{
  ◌∙◌, ap, ℕ, ◌%◌, ◌<◌, ◌≡◌, refl, sym, subst, true, false, Option, none, some, List, [], ◌∷◌, ◌++◌,
  ◌==◌, length,
}
use kernel_old.Vfs.{Text, slash, is_relative, final_path, rooted, temp_size, vfs_mk_canonpath}
use kernel_old.Vfs.Canon.{components, resolve, short, steady, NulFree, vfs_mk_canonpath_lem}
use kernel_old.Vfs.Canonical.{Names}
use kernel_old.Vfs.Relative.{resolve-under, resolve-components-Names}

-- The working directory after `sys_chdir`, on the fuel of the loop over the path's tokens.
unfoldable pub sys_chdir : (fuel : ℕ) → Text → (working_dir : Option Text) → Option (Option Text)
sys_chdir fuel path working_dir = elim (vfs_mk_canonpath fuel working_dir path) [
  | none ↦ none
  | some new_path ↦ some (some new_path)
]

-- A process in the directory of the names `names` that changes to a relative path is then in the
-- directory that the path's components lead to from there, and its names are again names. The
-- conditions are those of `vfs_mk_canonpath`: no NUL bytes, components of fewer than 1000 bytes, a
-- copy whose size is not a multiple of 16, enough fuel, and no `..` that takes away the only name.
pub sys_chdir-resolve :
    (fuel : ℕ) (names : List Text) (path : Text)
    → Names names
    → is_relative path ≡ true
    → NulFree (final_path names ++ (slash ∷ path))
    → (temp_size (some (final_path names)) path % 16 == 0) ≡ false
    → length (final_path names ++ (slash ∷ path)) < fuel
    → short (components (final_path names ++ (slash ∷ path))) ≡ true
    → steady [] (components (final_path names ++ (slash ∷ path))) ≡ true
    → (sys_chdir fuel path (some (final_path names))
        ≡ some (some (final_path (resolve names (components path)))))
      × Names (resolve names (components path))
unfolding sys_chdir
sys_chdir-resolve fuel names path ns relative free odd enough fit keeps =
    let behind : rooted (some (final_path names)) path ≡ final_path names ++ (slash ∷ path) =
      rw (relative) refl in
    let new : vfs_mk_canonpath fuel (some (final_path names)) path
        ≡ some (final_path (resolve [] (components (rooted (some (final_path names)) path)))) =
      vfs_mk_canonpath_lem fuel (some (final_path names)) path (subst NulFree (sym behind) free) odd
        (subst (λ t. length t < fuel) (sym behind) enough)
        (subst (λ t. short (components t) ≡ true) (sym behind) fit)
        (subst (λ t. steady [] (components t) ≡ true) (sym behind) keeps) in
    (
      ap (λ (o : Option Text). elim o [ none ↦ none | some new_path ↦ some (some new_path) ])
          (new
            ∙ ap (λ text. some (final_path (resolve [] (components text)))) behind
            ∙ ap (λ parts. some (final_path parts)) (resolve-under names path ns)),
      resolve-components-Names names path ns,
    )
