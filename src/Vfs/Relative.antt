-- ===== src/Vfs/Relative.antt =====
-- Paths relative to a canonical working directory, as `vfs_mk_canonpath` of fs/vfs/path.c joins them.
use kernel_old.Base.{◌≡◌, refl, ap, ◌∙◌, List, [], ◌∷◌, ◌++◌, append_assoc}
use mathlib.Core.List.{append-nil}
use kernel_old.Vfs.{Text, slash, join, final_path}
use kernel_old.Vfs.Canon.{components, step, resolve}
use kernel_old.Vfs.Canonical.{
  Name, Names, none_left, also, components_name, no_slash, resolve-appended, resolve-Names,
  components-SlashFree,
}

resolve-append :
    (xs front back : List Text) → resolve xs (front ++ back) ≡ resolve (resolve xs front) back
unfolding resolve
resolve-append xs [] back = refl
resolve-append xs (t ∷ front) back = resolve-append (step xs t) front back

components-under :
    (t : Text) (ts : List Text) (path : Text)
    → Name t
    → Names ts
    → components ((t ++ join ts) ++ (slash ∷ path)) ≡ t ∷ (ts ++ components path)
unfolding join
components-under t _ path n none_left =
    ap (λ x. components (x ++ (slash ∷ path))) (append-nil t)
    ∙ components_name t path (no_slash t n)
components-under t _ path n (also {t = u} {ts = us} m ns) =
    ap components (append_assoc t (slash ∷ (u ++ join us)) (slash ∷ path))
    ∙ components_name t ((u ++ join us) ++ (slash ∷ path)) (no_slash t n)
    ∙ ap (λ xs. t ∷ xs) (components-under u us path m ns)

-- A path behind a canonical one and a slash resolves as it does from the names of that one.
pub resolve-under :
    (names : List Text) (path : Text)
    → Names names
    → resolve [] (components (final_path names ++ (slash ∷ path))) ≡ resolve names (components path)
unfolding final_path join components resolve step
resolve-under _ path none_left = refl
resolve-under _ path (also {t} {ts} n ns) =
    ap (resolve []) (components-under t ts path n ns)
    ∙ resolve-append [] (t ∷ ts) (components path)
    ∙ ap (λ xs. resolve xs (components path)) (resolve-appended [] (also n ns))

pub resolve-components-Names :
    (names : List Text) (path : Text) → Names names → Names (resolve names (components path))
resolve-components-Names names path ns = resolve-Names names ns (components-SlashFree path)
