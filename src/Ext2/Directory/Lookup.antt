-- ===== src/Ext2/Directory/Lookup.antt =====
-- What fs/ext2/dir.c `ext2_finddir` and `ext2_listdir` return.
use kernel_old.Base.{
  ℕ, zero, suc, ◌+◌, ◌%◌, ◌^◌, ◌<◌, ◌≡◌, refl, sym, ap, subst, ◌∙◌, ◌≢◌, inl, inr, true, false,
  Option, none, some, List, [], ◌∷◌, map, arith, if◌then◌else◌, ==_refl, Bool-cases, length,
  ==_false,
}
use kernel_old.Vfs.{Text, same_text}
use kernel_old.Ext2.{Vol, Inode}
use kernel_old.Ext2.Directory.{
  ext2_read_inode, ext2_read_inode_blk, bytes_at, Dirent, dirent_at, before_nul, DirNode,
  ext2_dirent_to_node, has_name, finddir_loop, ext2_finddir, listdir_loop, ext2_listdir, next_idx,
  next_off,
}
use kernel_old.Ext2.Directory.Layout.{Entries, Walk, stop, step, Entries-Walk}

-- The first entry that has the name.
unfoldable pub first_named : Vol → Text → List Dirent → Option DirNode
first_named vol name [] = none
first_named vol name (e ∷ es) =
    let rest = first_named vol name es in
    if has_name name e then some (ext2_dirent_to_node vol e) else rest

finddir_loop-Walk :
    (fuel : ℕ) (vol : Vol) (ino : Inode) (name : Text) (b o : ℕ) (es : List Dirent)
    → Walk vol ino b o es
    → length es < fuel
    → finddir_loop fuel vol ino name b o ≡ some (first_named vol name es)
unfolding finddir_loop first_named
finddir_loop-Walk zero vol ino name b o es w lt = absurd (omega (arith, lt))
finddir_loop-Walk (suc fuel) vol ino name b o es (stop _ _ out) lt = rw (finddir_loop, out) refl
finddir_loop-Walk (suc fuel) vol ino name b o es (step _ _ ds inside w) lt =
    let e : Dirent = dirent_at (ext2_read_inode_blk vol b ino) o in
    let off : ℕ = (o + e.size) % 2 ^ 32 in
    let rest : finddir_loop fuel vol ino name (next_idx vol b off) (next_off vol off)
        ≡ some (first_named vol name ds) =
      finddir_loop-Walk fuel vol ino name (next_idx vol b off) (next_off vol off) ds w
        (omega (arith, lt)) in
    elim (Bool-cases (has_name name e)) [
      | inl found ↦ rw (finddir_loop, inside, found) refl
      | inr other ↦ rw (finddir_loop, inside, other, rest) refl
    ]

listdir_loop-Walk :
    (fuel : ℕ) (vol : Vol) (ino : Inode) (b o : ℕ) (es : List Dirent)
    → Walk vol ino b o es
    → length es < fuel
    → listdir_loop fuel vol ino b o ≡ some (map (ext2_dirent_to_node vol) es)
unfolding listdir_loop
listdir_loop-Walk zero vol ino b o es w lt = absurd (omega (arith, lt))
listdir_loop-Walk (suc fuel) vol ino b o es (stop _ _ out) lt = rw (listdir_loop, out) refl
listdir_loop-Walk (suc fuel) vol ino b o es (step _ _ ds inside w) lt =
    let e : Dirent = dirent_at (ext2_read_inode_blk vol b ino) o in
    let off : ℕ = (o + e.size) % 2 ^ 32 in
    let rest : listdir_loop fuel vol ino (next_idx vol b off) (next_off vol off)
        ≡ some (map (ext2_dirent_to_node vol) ds) =
      listdir_loop-Walk fuel vol ino (next_idx vol b off) (next_off vol off) ds w
        (omega (arith, lt)) in
    rw (listdir_loop, inside, rest) refl

-- What a search for `name` may find among entries.
pub data Finds (vol : Vol) (name : Text) : List Dirent → Option DirNode → Type 0 where
  nowhere : Finds vol name [] none
  here :
      (e : Dirent) (es : List Dirent)
      → e.name ≡ name
      → (ext2_dirent_to_node vol e).node_name ≡ name
      → Finds vol name (e ∷ es) (some (ext2_dirent_to_node vol e))
  later :
      (e : Dirent) (es : List Dirent) (o : Option DirNode)
      → e.name ≢ name
      → Finds vol name es o
      → Finds vol name (e ∷ es) o

-- A text with no NUL in it.
unfoldable pub IsText : Text → Type 0
IsText [] = Unit
IsText (c ∷ cs) = (c ≢ 0) × IsText cs

before_nul-IsText : (t : Text) → IsText t → before_nul t ≡ t
unfolding before_nul IsText
before_nul-IsText [] h = refl
before_nul-IsText (c ∷ cs) (ne, h) = rw (==_false c 0 ne, before_nul-IsText cs h) refl

same_text-≡ : (s t : Text) → same_text s t ≡ true → s ≡ t
unfolding same_text
same_text-≡ [] [] e = refl
same_text-≡ [] (y ∷ ys) e = cc
same_text-≡ (x ∷ xs) [] e = cc
same_text-≡ (x ∷ xs) (y ∷ ys) e =
    let first : x ≡ y = ground (arith, e) in
    let rest : xs ≡ ys = same_text-≡ xs ys (ground (arith, e)) in cc

same_text_refl : (t : Text) → same_text t t ≡ true
unfolding same_text
same_text_refl [] = refl
same_text_refl (x ∷ xs) = rw (==_refl x, same_text_refl xs) refl

-- An entry whose name is as long as it says.
unfoldable pub Measured : List Dirent → Type 0
Measured [] = Unit
Measured (e ∷ es) = (e.name_len ≡ length e.name) × Measured es

other_name :
    (name : Text) (e : Dirent)
    → e.name_len ≡ length e.name
    → has_name name e ≡ false
    → e.name ≢ name
unfolding has_name
other_name name e len out same =
    let agree : same_text name e.name ≡ true =
      subst (λ t. same_text name t ≡ true) (sym same) (same_text_refl name) in
    let long : length name ≡ e.name_len = ap length (sym same) ∙ sym len in
    ground (arith, agree, long, out)

stored_name :
    (vol : Vol) (name : Text) (e : Dirent)
    → IsText name
    → name ≡ e.name
    → (ext2_dirent_to_node vol e).node_name ≡ name
unfolding ext2_dirent_to_node
stored_name vol name e text same = ap before_nul (sym same) ∙ before_nul-IsText name text

first_named-Finds :
    (vol : Vol) (name : Text) (es : List Dirent)
    → IsText name
    → Measured es
    → Finds vol name es (first_named vol name es)
unfolding first_named has_name Measured
first_named-Finds vol name [] text m = nowhere
first_named-Finds vol name (e ∷ es) text (len, m) = elim (Bool-cases (has_name name e)) [
  | inl found ↦
      let same : name ≡ e.name = same_text-≡ name e.name (ground (arith, found)) in
      rw found (here e es (sym same) (stored_name vol name e text same))
  | inr out ↦ rw out (
      later e es (first_named vol name es) (other_name name e len out)
        (first_named-Finds vol name es text m))
]

length-bytes_at : (buf : ℕ → ℕ) (a n : ℕ) → length (bytes_at buf a n) ≡ n
unfolding bytes_at
length-bytes_at buf a zero = refl
length-bytes_at buf a (suc n) = omega (arith, length-bytes_at buf (a + 1) n)

Walk-Measured :
    (vol : Vol) (ino : Inode) (b o : ℕ) (es : List Dirent) → Walk vol ino b o es → Measured es
unfolding Measured dirent_at
Walk-Measured vol ino b o es (stop _ _ out) = tt
Walk-Measured vol ino b o es (step _ _ ds inside w) =
    let buf : ℕ → ℕ = ext2_read_inode_blk vol b ino in
    (
      sym (length-bytes_at buf (o + 8) (buf (o + 6))),
      Walk-Measured vol ino (next_idx vol b ((o + (dirent_at buf o).size) % 2 ^ 32))
          (next_off vol ((o + (dirent_at buf o).size) % 2 ^ 32)) ds w,
    )

module _ (vol : Vol) (dir : ℕ) (es : List Dirent) (positive : 0 < vol.blk_sz)
    (small_blocks : vol.blk_sz < 2 ^ 32) (small_file : (ext2_read_inode vol dir).size < 2 ^ 32)
    (entries : Entries vol (ext2_read_inode vol dir) 0 es) where
  -- In a directory whose blocks are filled by entries, with enough fuel for the entries, looking up
  -- a name returns the node of the first entry with that name, whose name it also is, and NULL if no
  -- entry has that name.
  pub ext2_finddir-Finds :
      (fuel : ℕ) (name : Text)
      → IsText name
      → length es < fuel
      → (o : Option DirNode) × ((ext2_finddir fuel vol dir name ≡ some o) × Finds vol name es o)
  unfolding ext2_finddir
  ext2_finddir-Finds fuel name text lt =
      let w : Walk vol (ext2_read_inode vol dir) 0 0 es =
        Entries-Walk vol (ext2_read_inode vol dir) positive small_blocks small_file 0 es entries in
      (
        first_named vol name es,
        (
          finddir_loop-Walk fuel vol (ext2_read_inode vol dir) name 0 0 es w lt,
          first_named-Finds vol name es text (Walk-Measured vol (ext2_read_inode vol dir) 0 0 es w),
        ),
      )

  -- In such a directory, with enough fuel for the entries, the list is that of the nodes of all
  -- entries, in order.
  pub ext2_listdir-Entries :
      (fuel : ℕ)
      → length es < fuel
      → ext2_listdir fuel vol dir ≡ some (map (ext2_dirent_to_node vol) es)
  unfolding ext2_listdir
  ext2_listdir-Entries fuel lt =
      listdir_loop-Walk fuel vol (ext2_read_inode vol dir) 0 0 es
        (Entries-Walk vol (ext2_read_inode vol dir) positive small_blocks small_file 0 es entries)
        lt
