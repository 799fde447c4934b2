-- ===== src/Syscall/Table.antt =====
-- The table of descriptors that sys/syscall/syscall.c keeps for a process.
use kernel_old.Base.{
  ℕ, zero, suc, ◌+◌, ◌-◌, ◌%◌, ◌^◌, ◌<◌, ◌≡◌, refl, sym, ap, ap₂, subst, ◌∙◌, ◌≢◌, inl, inr, Bool,
  true, false, ◌||◌, Option, none, some, List, [], ◌∷◌, ◌++◌, map, arith, leb, ◌==◌, if◌then◌else◌,
  ==_iff, Bool-cases, Option-cases, length, get_elem?, set, length-append, update_self, update_ne,
  update,
}
use kernel_old.Syscall.{
  Fd, Files, procgetfd, vfs_open, vfs_close, sys_open, sys_transfer, sys_close, seek_to, sys_lseek,
}

-- The descriptors of a process, by their numbers.
unfoldable pub table : Files → List Fd
table s = map s.fds s.file_descs

-- The pointer is none of the list's.
unfoldable pub Fresh : ℕ → List ℕ → Type 0
Fresh fd [] = Unit
Fresh fd (x ∷ xs) = (x ≢ fd) × Fresh fd xs

unfoldable pub Distinct : List ℕ → Type 0
Distinct [] = Unit
Distinct (x ∷ xs) = Fresh x xs × Distinct xs

map-update :
    (f : ℕ → Fd) (fd : ℕ) (v : Fd) (xs : List ℕ) → Fresh fd xs → map (update f fd v) xs ≡ map f xs
unfolding Fresh
map-update f fd v [] h = refl
map-update f fd v (x ∷ xs) (ne, h) =
    ap₂ (λ (y : Fd) (ys : List Fd). y ∷ ys) (update_ne f fd x v ne) (map-update f fd v xs h)

Fresh-get : (x y : ℕ) (xs : List ℕ) (n : ℕ) → Fresh x xs → get_elem? xs n ≡ some y → y ≢ x
unfolding Fresh
Fresh-get x y [] n h e = cc
Fresh-get x y (z ∷ xs) zero (ne, h) e = let first : z ≡ y = cc in λ same. ne (first ∙ same)
Fresh-get x y (z ∷ xs) (suc n) (ne, h) e = Fresh-get x y xs n h e

map-update-set :
    (f : ℕ → Fd) (fd : ℕ) (v : Fd) (xs : List ℕ) (n : ℕ)
    → Distinct xs
    → get_elem? xs n ≡ some fd
    → map (update f fd v) xs ≡ set (map f xs) n v
unfolding Distinct
map-update-set f fd v [] n d e = refl
map-update-set f fd v (x ∷ xs) zero (h, d) e =
    let same : x ≡ fd = cc in
    ap₂ (λ (y : Fd) (ys : List Fd). y ∷ ys)
      (subst (λ y. update f fd v y ≡ v) (sym same) (update_self f fd v))
      (map-update f fd v xs (subst (λ y. Fresh y xs) same h))
map-update-set f fd v (x ∷ xs) (suc n) (h, d) e =
    ap₂ (λ (y : Fd) (ys : List Fd). y ∷ ys)
      (update_ne f fd x v (λ same. Fresh-get x fd xs n h e (sym same)))
      (map-update-set f fd v xs n d e)

-- The table with one descriptor more.
map-update-end :
    (f : ℕ → Fd) (fd : ℕ) (v : Fd) (xs : List ℕ)
    → Fresh fd xs
    → map (update f fd v) (xs ++ (fd ∷ [])) ≡ map f xs ++ (v ∷ [])
unfolding Fresh
map-update-end f fd v [] h = ap (λ (y : Fd). y ∷ []) (update_self f fd v)
map-update-end f fd v (x ∷ xs) (ne, h) =
    ap₂ (λ (y : Fd) (ys : List Fd). y ∷ ys) (update_ne f fd x v ne) (map-update-end f fd v xs h)

get_elem?-end : (fd : ℕ) (xs : List ℕ) → get_elem? (xs ++ (fd ∷ [])) (length xs) ≡ some fd
get_elem?-end fd [] = refl
get_elem?-end fd (x ∷ xs) = get_elem?-end fd xs

-- A descriptor that `procgetfd` gives is in the list.
procgetfd-get_elem? :
    (s : Files) (fdno fd : ℕ) → procgetfd fdno s ≡ some fd → get_elem? s.file_descs fdno ≡ some fd
unfolding procgetfd
procgetfd-get_elem? s fdno fd e =
    go (leb (2 ^ 31) fdno || leb (length s.file_descs) fdno) (get_elem? s.file_descs fdno) e
  where
    go : (b : Bool) (o : Option ℕ) → (if b then none else o) ≡ some fd → o ≡ some fd
    go true o e = cc
    go false o e = e

-- `sys_open` on a node, when the table is below the largest `int` and `kmalloc` gives a pointer that
-- is not in it: the table gets the new descriptor at its end, at position 0, and the number returned
-- is that descriptor's.
pub sys_open-table :
    (s : Files) (node fd flags mode : ℕ)
    → Fresh fd s.file_descs
    → length s.file_descs < 2 ^ 31
    → (table (sys_open (some node) fd flags mode s).1
        ≡ table s ++ (record { node = node; pos = 0; flags = flags; mode = mode } ∷ []))
      × (procgetfd (sys_open (some node) fd flags mode s).0 (sys_open (some node) fd flags mode s).1
          ≡ some fd)
unfolding table sys_open vfs_open procgetfd
sys_open-table s node fd flags mode fresh room =
    let v : Fd = record { node = node; pos = 0; flags = flags; mode = mode } in
    let xs : List ℕ = s.file_descs in
    let number : (length (xs ++ (fd ∷ [])) + (2 ^ 32 - 1)) % 2 ^ 32 ≡ length xs =
      omega (arith, length-append xs (fd ∷ []), room) in
    let inside : leb (2 ^ 31) (length xs) || leb (length (xs ++ (fd ∷ []))) (length xs) ≡ false =
      ground (arith, length-append xs (fd ∷ []), room) in
    (map-update-end s.fds fd v xs fresh, rw (number, inside) (get_elem?-end fd xs))

-- What `sys_lseek` on the descriptor `fd`, number `fdno`, gives: the descriptor's position alone
-- moves.
pub Moved : (s : Files) (fdno fd position : ℕ) → Option (ℕ × Files) → Type 0
Moved s fdno fd position none = ⊥
Moved s fdno fd position (some (number, after)) =
    (number ≡ 0)
    × (table after
        ≡ set (table s) fdno (record {
          node = (s.fds fd).node;
          pos = position;
          flags = (s.fds fd).flags;
          mode = (s.fds fd).mode;
        }))

-- `sys_lseek` on an open descriptor, where no two numbers share a descriptor: it returns 0, and in the
-- table the position of this descriptor alone moves, to the one that `whence` asks for.
pub sys_lseek-Moved :
    (s : Files) (size_of : ℕ → ℕ) (fdno fd off whence : ℕ)
    → Distinct s.file_descs
    → procgetfd fdno s ≡ some fd
    → Moved s fdno fd
        (seek_to (s.fds fd).pos (size_of (s.fds fd).node) off whence)
        (sys_lseek size_of fdno off whence s)
unfolding Moved table sys_lseek
sys_lseek-Moved s size_of fdno fd off whence distinct e =
    rw (sys_lseek, e)
      (refl, map-update-set s.fds fd _ s.file_descs fdno distinct (procgetfd-get_elem? s fdno fd e))

-- `sys_close` on an open descriptor frees it twice, and leaves its number in the table.
pub sys_close-twice :
    (s : Files) (fdno fd : ℕ)
    → procgetfd fdno s ≡ some fd
    → ((sys_close fdno s).1.freed ≡ fd ∷ fd ∷ s.freed)
      × (procgetfd fdno (sys_close fdno s).1 ≡ some fd)
unfolding sys_close vfs_close procgetfd
sys_close-twice s fdno fd e = rw (e, sys_close) (refl, e)

-- What a read or write gives after the position has been set.
pub SameTransfer : (s : Files) (transfer : (node off len : ℕ) → ℕ) → Option (ℕ × Files) → Type 0
SameTransfer s transfer none = Unit
SameTransfer s transfer (some (number, after)) =
    (fdno len : ℕ) → sys_transfer transfer fdno len after ≡ sys_transfer transfer fdno len s

same_node :
    (s : Files) (transfer : (node off len : ℕ) → ℕ) (fd : ℕ) (v : Fd) (len : ℕ)
    → v.node ≡ (s.fds fd).node
    → (o : Option ℕ)
    → elim o [ none ↦ 2 ^ 64 - 1 | some f ↦ transfer ((update s.fds fd v f).node) 0 len ]
      ≡ elim o [ none ↦ 2 ^ 64 - 1 | some f ↦ transfer ((s.fds f).node) 0 len ]
same_node s transfer fd v len e none = refl
same_node s transfer fd v len e (some f) = elim (Bool-cases (f == fd)) [
  | inl same ↦ rw (same, (==_iff f fd).0 same) (ap (λ n. transfer n 0 len) e)
  | inr other ↦ rw (other) refl
]

-- A read or write of any descriptor after `sys_lseek` is the one before it, since the position is
-- not used.
pub sys_transfer-sys_lseek :
    (s : Files) (size_of : ℕ → ℕ) (transfer : (node off len : ℕ) → ℕ) (fdno off whence : ℕ)
    → SameTransfer s transfer (sys_lseek size_of fdno off whence s)
unfolding SameTransfer sys_transfer procgetfd sys_lseek
sys_transfer-sys_lseek s size_of transfer fdno off whence = elim (Option-cases (procgetfd fdno s)) [
  | inl e ↦ rw (sys_lseek, e) tt
  | inr (fd, e) ↦
      rw (sys_lseek, e)
        (λ other len.
          same_node s transfer fd
            (record {
              node = (s.fds fd).node;
              pos = seek_to (s.fds fd).pos (size_of (s.fds fd).node) off whence;
              flags = (s.fds fd).flags;
              mode = (s.fds fd).mode;
            })
            len refl (procgetfd other s))
]
