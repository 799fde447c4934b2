-- ===== src/Syscall/Tests.antt =====
-- Runs of the calls on descriptors, and their theorems at concrete inputs.
use kernel_old.Base.{ℕ, ◌≡◌, refl, none, some, [], ◌∷◌, ◌++◌, arith, update}
use kernel_old.Syscall.{Fd, Files, procgetfd, sys_open, sys_lseek}
use kernel_old.Vfs.{Text, slash, final_path, same_text, join, temp_size}
use kernel_old.Vfs.Canon.{NulFree, end_of_text, byte, components, resolve, short, steady}
use kernel_old.Vfs.Canonical.{Names, none_left, also, name}
use kernel_old.Syscall.Directory.{sys_chdir, sys_chdir-resolve}
use kernel_old.Syscall.Table.{table, Fresh, Distinct, sys_open-table}

-- Three descriptors of the nodes 7, 8 and 9.
abbrev files : Files
files = record {
  file_descs = 4128 ∷ 4160 ∷ 4192 ∷ [];
  fds = update (update (update (λ _. fd 0) 4128 (fd 7)) 4160 (fd 8)) 4192 (fd 9);
  freed = [];
}
  where
    fd : ℕ → Fd
    fd node = record { node = node; pos = 0; flags = 0; mode = 0 }

fresh : Fresh 4224 (4128 ∷ 4160 ∷ 4192 ∷ [])
unfolding Fresh
fresh = (
  λ e. absurd (omega (arith, e)),
  (λ e. absurd (omega (arith, e)), (λ e. absurd (omega (arith, e)), tt)),
)

distinct : Distinct (4128 ∷ 4160 ∷ 4192 ∷ [])
unfolding Distinct Fresh
distinct = (
  (λ e. absurd (omega (arith, e)), (λ e. absurd (omega (arith, e)), tt)),
  ((λ e. absurd (omega (arith, e)), tt), (tt, tt)),
)

second : procgetfd 1 files ≡ some 4160
unfolding procgetfd
second = refl

sys_open-table_example :
    (table (sys_open (some 10) 4224 1 2 files).1
      ≡ table files ++ (record { node = 10; pos = 0; flags = 1; mode = 2 } ∷ []))
    × (procgetfd (sys_open (some 10) 4224 1 2 files).0 (sys_open (some 10) 4224 1 2 files).1
        ≡ some 4224)
sys_open-table_example = sys_open-table files 10 4224 1 2 fresh (omega arith)

-- Setting the position of a number that is not open goes through the null pointer.
not_open : sys_lseek (λ _. 100) 3 20 1 files ≡ none
unfolding sys_lseek procgetfd
not_open = refl

-- From `/b` to `./c`.
abbrev under_b : Text
under_b = b'.' ∷ b'/' ∷ b'c' ∷ []

in_b : Names ((b'b' ∷ []) ∷ [])
unfolding same_text
in_b = also (name b'b' [] refl refl refl) none_left

under_b-NulFree : NulFree (final_path ((b'b' ∷ []) ∷ []) ++ (slash ∷ under_b))
unfolding final_path join
under_b-NulFree =
    byte b'/' refl (
      byte b'b' refl
        (byte b'/' refl (byte b'.' refl (byte b'/' refl (byte b'c' refl end_of_text)))))

sys_chdir-resolve_example :
    (sys_chdir 9 under_b (some (final_path ((b'b' ∷ []) ∷ [])))
      ≡ some (some (final_path (resolve ((b'b' ∷ []) ∷ []) (components under_b)))))
    × Names (resolve ((b'b' ∷ []) ∷ []) (components under_b))
unfolding final_path join temp_size steady short components same_text
sys_chdir-resolve_example =
    sys_chdir-resolve 9 ((b'b' ∷ []) ∷ []) under_b in_b refl under_b-NulFree refl (omega arith) refl
      refl
