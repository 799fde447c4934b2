-- ===== src/LinkedList/Remove.antt =====
-- list_remove and list_insert of util/list.c against the list of nodes.
use kernel_old.Base.{
  update_ne, update_self, ap, ap, ap, ap, ℕ, ◌^◌, ◌<◌, ◌≡◌, ap, ◌∙◌, ◌≢◌, inl, inr, true, false,
  ◌||◌, none, some, [], ◌∷◌, ◌++◌, arith, ◌==◌, if◌then◌else◌, Bool-cases, length, length-append,
  update,
}
use kernel_old.Store.{Ptr, null}
use kernel_old.LinkedList.{Node, Lst, node, dec, set_next, set_prev, list_get, list_remove}
use kernel_old.LinkedList.Links.{
  Cells, Heap, among, first, last, Linked, IsList, SameOutside, frame, among-append, last-append,
  Linked-append, Linked-split, among-last,
}
use kernel_old.LinkedList.Push.{Returns}
use kernel_old.LinkedList.Relink.{
  list_get-address, address-append, set_next-Linked, set_prev-Linked,
}

abbrev unlinked : Lst → Ptr → Node → Lst
unlinked l p n = record {
  head = if p == l.head then n.next else l.head;
  tail = if p == l.tail then n.prev else l.tail;
  cnt = dec l.cnt;
}

remove_run :
    (h g g' : Heap) (l : Lst) (idx p : Ptr) (n : Node)
    → list_get l idx h ≡ some (p, h)
    → p ≢ null
    → h p ≡ some n
    → set_next n.prev n.next h ≡ some (tt, g)
    → set_prev n.next n.prev g ≡ some (tt, g')
    → g' p ≡ some n
    → list_remove l idx h ≡ some (unlinked l p n, update g' p none)
unfolding list_remove
remove_run h g g' l idx p n got ne e sn sp e' = ground arith

new_head :
    (p q : Ptr) (v : ℕ) (ys zs : Cells)
    → ((a : Ptr) → among a ys ≡ true → a ≢ p)
    → q ≡ first null (ys ++ ((p, v) ∷ zs))
    → (if p == q then first null zs else q) ≡ first null (ys ++ zs)
new_head p q v [] zs ne e = ground arith
new_head p q v ((r, w) ∷ ys) zs ne e = ground (arith, ne r)

new_tail :
    (p q : Ptr) (v : ℕ) (ys zs : Cells)
    → ((a : Ptr) → among a zs ≡ true → a ≢ p)
    → q ≡ last null (ys ++ ((p, v) ∷ zs))
    → (if p == q then last null ys else q) ≡ last null (ys ++ zs)
new_tail p q v ys [] ne e =
    ground (arith, last-append null ys ((p, v) ∷ []), last-append null ys [])
new_tail p q v ys ((r, w) ∷ zs) ne e = ground (
  arith,
  last-append null ys ((p, v) ∷ (r, w) ∷ zs),
  last-append null ys ((r, w) ∷ zs),
  ne (last r zs),
  among-last r w zs,
)

new_cnt :
    (n v : ℕ) (p : Ptr) (ys zs : Cells)
    → n ≡ length (ys ++ ((p, v) ∷ zs))
    → length (ys ++ ((p, v) ∷ zs)) < 2 ^ 32
    → dec n ≡ length (ys ++ zs)
new_cnt n v p ys zs e room = omega (arith, length-append ys ((p, v) ∷ zs), length-append ys zs)

module _ (h : Heap) (ys : Cells) (p : Ptr) (v : ℕ) (zs : Cells)
    (nodes : Linked h null null (ys ++ ((p, v) ∷ zs))) where
  pub apart : (a : Ptr) → among a ys ≡ true → among a ((p, v) ∷ zs) ≡ false
  apart = (Linked-split h null null ys ((p, v) ∷ zs) nodes).2

  pub apart' : (a : Ptr) → among a ((p, v) ∷ zs) ≡ true → among a ys ≡ false
  apart' a i = elim (Bool-cases (among a ys)) [ inl j ↦ cc (apart a j, i) | inr o ↦ o ]

  pub cell_p :
      (p ≢ null)
      × (h p ≡ some (node (last null ys) (first null zs) v))
      × (among p zs ≡ false)
      × Linked h p null zs
  cell_p = (Linked-split h null null ys ((p, v) ∷ zs) nodes).1

  pub p_out : among p ys ≡ false
  p_out = apart' p (ground arith)

  pub mem_zs : (a : Ptr) → among a zs ≡ true → among a ys ≡ false
  mem_zs a i = apart' a (ground arith)

  pub zs-ne-p : (a : Ptr) → among a zs ≡ true → a ≢ p
  zs-ne-p a i e = cc (ap (λ b. among b zs) e, i, cell_p.2)

  pub ys-ne-p : (a : Ptr) → among a ys ≡ true → a ≢ p
  ys-ne-p a i e = cc (ap (λ b. among b ys) e, i, p_out)

  pub ys_not_zs : (a : Ptr) → among a ys ≡ true → among a zs ≡ false
  ys_not_zs a i = ground (arith, apart a i)

  -- Both neighbours relinked, and `p` freed.
  relinked :
      (g g' : Heap)
      → Linked g null (first null zs) ys
      → SameOutside ys h g
      → Linked g' (last null ys) null zs
      → SameOutside zs g g'
      → Linked (update g' p none) null null (ys ++ zs)
        × (g' p ≡ h p)
        × SameOutside (ys ++ ((p, v) ∷ zs)) h (update g' p none)
  relinked g g' l same r same' = (
    Linked-append (update g' p none) null null ys zs
        (frame g (update g' p none) null (first null zs) ys l
          (λ a i. update_ne g' p a none (ys-ne-p a i) ∙ same' a (ys_not_zs a i)))
        (frame g' (update g' p none) (last null ys) null zs r
          (λ a i. update_ne g' p a none (zs-ne-p a i)))
        ys_not_zs,
    same' p cell_p.2 ∙ same p p_out,
    (λ a o. outside a (rw among-append at o)),
  )
    where
      outside : (a : Ptr) → (among a ys || among a ((p, v) ∷ zs)) ≡ false → update g' p none a ≡ h a
      outside a o = ground (arith, same a, same' a)

-- On a list of fewer than `2 ^ 32` nodes, `list_remove` at the index of the node `p` takes exactly
-- that node out and frees it: the nodes
-- before and after it are linked to each other, `head`, `tail` and `cnt` are right again, and no
-- cell outside the list changes.
pub list_remove_lem :
    (h : Heap) (l : Lst) (ys : Cells) (p : Ptr) (v : ℕ) (zs : Cells)
    → IsList h l (ys ++ ((p, v) ∷ zs))
    → length (ys ++ ((p, v) ∷ zs)) < 2 ^ 32
    → Returns
        (λ l' g. IsList g l' (ys ++ zs) × (g p ≡ none) × SameOutside (ys ++ ((p, v) ∷ zs)) h g)
        (list_remove l (length ys) h)
list_remove_lem h l ys p v zs s room =
    let (before, c, _) = Linked-split h null null ys ((p, v) ∷ zs) s.nodes in
    let (g, sn, before', same) = set_next-Linked h ys p (first null zs) before in
    let (g', sp, after', same') =
      set_prev-Linked g zs p (last null ys)
        (frame h g p null zs c.3 (λ a i. same a (mem_zs h ys p v zs s.nodes a i))) in
    let (nodes, kept, outside) = relinked h ys p v zs s.nodes g g' before' same after' same' in
    let got : list_get l (length ys) h ≡ some (p, h) =
      rw address-append at (list_get-address h l (ys ++ ((p, v) ∷ zs)) (length ys) s) in
    rw
      (remove_run h g g' l (length ys) p (node (last null ys) (first null zs) v) got c.0 c.1 sn sp
        (kept ∙ c.1))
      (
        record {
          head = new_head p l.head v ys zs (ys-ne-p h ys p v zs s.nodes) s.head;
          tail = new_tail p l.tail v ys zs (zs-ne-p h ys p v zs s.nodes) s.tail;
          cnt = new_cnt l.cnt v p ys zs s.cnt room;
          nodes = nodes;
        },
        update_self g' p none,
        outside,
      )
