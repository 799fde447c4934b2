-- ===== src/LinkedList/Relink.antt =====
-- The walk of list_get, and the two writes that list_remove and list_insert of util/list.c make to
-- the neighbours of a node.
use kernel_old.Base.{
  ap, inr, sym, inl, ◌∙◌, leb, update_self, update_ne, Bool-cases, ℕ, zero, suc, ◌≤◌, ◌≡◌, refl,
  ◌≢◌, some, [], ◌∷◌, ◌++◌, arith, length, update,
}
use kernel_old.Store.{Ptr, null}
use kernel_old.LinkedList.{Lst, node, set_next, set_prev, get_loop, list_get}
use kernel_old.LinkedList.Links.{
  among, Cells, Heap, first, last, Linked, IsList, SameOutside, relink_last, relink_first,
  among-last, last-ne-null, last_cell,
}

-- The address of the node at an index, NULL past the end.
abbrev pub address : Cells → ℕ → Ptr
address [] i = null
address ((p, v) ∷ xs) zero = p
address ((p, v) ∷ xs) (suc i) = address xs i

get_loop-address :
    (h : Heap) (prev : Ptr) (k : ℕ) (xs : Cells)
    → Linked h prev null xs
    → get_loop k (first null xs) h ≡ some (address xs k, h)
unfolding get_loop
get_loop-address h prev zero [] s = refl
get_loop-address h prev zero (x ∷ xs) s = refl
get_loop-address h prev (suc k) [] s = refl
get_loop-address h prev (suc k) ((p, v) ∷ xs) (ne, e, o, s) =
    ground (arith, get_loop-address h p k xs s)

address-past : (xs : Cells) (i : ℕ) → length xs ≤ i → address xs i ≡ null
address-past [] i h = refl
address-past ((p, v) ∷ xs) zero h = absurd (omega arith)
address-past ((p, v) ∷ xs) (suc i) h = address-past xs i (omega arith)

-- `list_get` returns the address of the node at the index, and NULL for an index that is not below
-- the number of nodes; it changes nothing.
pub list_get-address :
    (h : Heap) (l : Lst) (xs : Cells) (idx : ℕ)
    → IsList h l xs
    → list_get l idx h ≡ some (address xs idx, h)
unfolding list_get
list_get-address h l xs idx s = elim (Bool-cases (leb l.cnt idx)) [
  | inl past ↦ rw (past, address-past xs idx (ground (arith, s.cnt)))
  | inr inside ↦ rw (inside, s.head) (get_loop-address h null idx xs s.nodes)
]

pub address-append :
    (ys : Cells) (p : Ptr) (v : ℕ) (zs : Cells) → address (ys ++ ((p, v) ∷ zs)) (length ys) ≡ p
address-append [] p v zs = refl
address-append ((q, w) ∷ ys) p v zs = address-append ys p v zs

same_cell :
    (q q' n' n : Ptr) (w w' : ℕ)
    → some (node q n' w) ≡ some (node q' n' w')
    → some (node q n w) ≡ some (node q' n w')
same_cell q q' n' n w w' e = ground arith

set_next_run :
    (h : Heap) (p q n' n : Ptr) (w : ℕ)
    → p ≢ null
    → h p ≡ some (node q n' w)
    → set_next p n h ≡ some (tt, update h p (some (node q n w)))
unfolding set_next
set_next_run h p q n' n w ne e = ground arith

-- Pointing the last of the nodes `ys` to `n`, if there is one.
pub set_next-Linked :
    (h : Heap) (ys : Cells) (n' n : Ptr)
    → Linked h null n' ys
    → (g : Heap) × (set_next (last null ys) n h ≡ some (tt, g))
      × Linked g null n ys
      × SameOutside ys h g
unfolding set_next
set_next-Linked h [] n' n s = (h, refl, tt, λ a o. refl)
set_next-Linked h ((p, v) ∷ ys) n' n s =
    let (q, w, e) = last_cell h null n' p v ys s in
    let t : Ptr = last p ys in
    let g : Heap = update h t (some (node q n w)) in
    (
      g,
      set_next_run h t q n' n w (last-ne-null h null n' p v ys s) e,
      relink_last h g null n' n ((p, v) ∷ ys) s (λ a i d. update_ne h t a (some (node q n w)) d)
          (λ q' v' e'. update_self h t (some (node q n w)) ∙ same_cell q q' n' n w v' (sym e ∙ e')),
      (λ a o.
          update_ne h t a (some (node q n w))
            (λ d. cc (ap (λ b. among b ((p, v) ∷ ys)) d, among-last p v ys))),
    )

-- Pointing the first of the nodes `zs` back to `q`, if there is one.
pub set_prev-Linked :
    (h : Heap) (zs : Cells) (q' q : Ptr)
    → Linked h q' null zs
    → (g : Heap) × (set_prev (first null zs) q h ≡ some (tt, g))
      × Linked g q null zs
      × SameOutside zs h g
unfolding set_prev
set_prev-Linked h [] q' q s = (h, refl, tt, λ a o. refl)
set_prev-Linked h ((p, v) ∷ zs) q' q (ne, e, o, s) =
    let g : Heap = update h p (some (node q (first null zs) v)) in
    (
      g,
      ground arith,
      relink_first h g q' q null p v zs (ne, e, o, s) (ground arith) (λ a d i. ground arith),
      (λ a o. ground arith),
    )
