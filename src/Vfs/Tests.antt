-- ===== src/Vfs/Tests.antt =====
-- Runs of the paths and the mount points, and the theorems at concrete inputs.
use kernel_old.Base.{ℕ, zero, suc, ◌≡◌, refl, false, none, some, List, [], ◌∷◌, arith}
use kernel_old.Vfs.{
  Text, same_text, strcmp_zero, temp_size, vfs_mk_canonpath, vfs_mkpath, final_path, strsplit,
  split_loop,
}
use kernel_old.Vfs.Canon.{
  NulFree, end_of_text, byte, components, resolve, vfs_mk_canonpath_lem, short, steady,
}
use kernel_old.Vfs.Mount.{
  find_child, vfs_init, vfs_mount, vfs_get_mountpoint, vfs_resolve_path, part, no_parts,
  vfs_get_mountpoint-vfs_mount,
}
use kernel_old.Vfs.Unmounted.{vfs_resolve_path-fault}
use kernel_old.Vfs.Faults.{Plain, letter, end_of_name}

-- `/b/./c`
abbrev dotted : Text
dotted = b'/' ∷ b'b' ∷ b'/' ∷ b'.' ∷ b'/' ∷ b'c' ∷ []

dotted-NulFree : NulFree dotted
dotted-NulFree =
    byte b'/' refl (
      byte b'b' refl
        (byte b'/' refl (byte b'.' refl (byte b'/' refl (byte b'c' refl end_of_text)))))

abbrev home : Text
home = b'/' ∷ b'h' ∷ []

-- A relative path runs into the working directory, with no slash between them.
relative : vfs_mkpath (b'a' ∷ []) (some home) ≡ (b'h' ∷ b'a' ∷ []) ∷ []
unfolding vfs_mkpath strsplit split_loop
relative = refl

vfs_mk_canonpath_lem_example :
    vfs_mk_canonpath 9 none dotted ≡ some (final_path (resolve [] (components dotted)))
unfolding steady short components temp_size same_text
vfs_mk_canonpath_lem_example =
    vfs_mk_canonpath_lem 9 none dotted dotted-NulFree refl (omega arith) refl refl

-- `/a/../b`
abbrev up_path : Text
up_path = b'/' ∷ b'a' ∷ b'/' ∷ b'.' ∷ b'.' ∷ b'/' ∷ b'b' ∷ []

up_path-NulFree : NulFree up_path
up_path-NulFree = byte b'/' refl (
    byte b'a' refl (
      byte b'/' refl
        (byte b'.' refl (byte b'.' refl (byte b'/' refl (byte b'b' refl end_of_text))))))

-- Fourteen letters.
abbrev letters : ℕ → Text
letters zero = []
letters (suc n) = b'x' ∷ letters n

letters-Plain : (n : ℕ) → Plain (letters n)
letters-Plain zero = end_of_name
letters-Plain (suc n) = letter b'x' refl refl (letters-Plain n)

abbrev dev_kb : List Text
dev_kb = (b'd' ∷ []) ∷ (b'k' ∷ []) ∷ []

vfs_get_mountpoint-vfs_mount_example : vfs_get_mountpoint (vfs_mount 7 dev_kb vfs_init) dev_kb ≡ 7
vfs_get_mountpoint-vfs_mount_example =
    vfs_get_mountpoint-vfs_mount 7 dev_kb vfs_init (part b'd' [] (part b'k' [] no_parts))

vfs_resolve_path-fault_example :
    vfs_resolve_path
      (λ _. false)
      (λ _ _. none)
      (vfs_mount 7 dev_kb (vfs_mount 1 [] vfs_init))
      ((b'd' ∷ []) ∷ (b'm' ∷ []) ∷ [])
    ≡ none
unfolding vfs_mount vfs_init strcmp_zero find_child same_text
vfs_resolve_path-fault_example =
    vfs_resolve_path-fault (λ _. false) (λ _ _. none) b'd' [] (b'k' ∷ []) (b'm' ∷ []) 7
      (vfs_mount 1 [] vfs_init) refl refl
