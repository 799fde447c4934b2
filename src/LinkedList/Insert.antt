-- ===== src/LinkedList/Insert.antt =====
-- list_insert of util/list.c against the list of nodes.
use kernel_old.Base.{
  update_self, update_ne, ℕ, suc, ◌+◌, ◌≡◌, refl, sym, ap, ◌∙◌, ◌≢◌, Bool, true, false, ◌||◌, none,
  some, [], ◌∷◌, ◌++◌, arith, ◌==◌, if◌then◌else◌, length, length-append, update,
}
use kernel_old.Store.{Ptr, null}
use kernel_old.LinkedList.{Node, Lst, node, set_next, list_get, insert_end, list_insert}
use kernel_old.LinkedList.Links.{
  Cells, Heap, among, first, last, Linked, IsList, SameOutside, frame, among-append, last-append,
  first-append, Linked-append, Linked-split, last-ne-null, not-mem_of_none,
}
use kernel_old.LinkedList.Push.{Returns}
use kernel_old.LinkedList.Relink.{list_get-address, address-append, set_next-Linked}
use kernel_old.LinkedList.Remove.{ys-ne-p, zs-ne-p, cell_p, p_out, ys_not_zs, mem_zs}

insert_run :
    (h g : Heap) (fresh new : Ptr) (l : Lst) (u idx p : ℕ) (n : Node)
    → idx ≢ l.cnt
    → list_get l idx (update h new (some (node null null 0)))
      ≡ some (p, update h new (some (node null null 0)))
    → p ≢ null
    → p ≢ new
    → new ≢ null
    → h p ≡ some n
    → set_next n.prev new (update h new (some (node null null 0))) ≡ some (tt, g)
    → g p ≡ some n
    → g new ≡ some (node null null 0)
    → list_insert fresh new l u idx h
      ≡ some (
        (if n.prev == null then record l { head = new } else l),
        update (update g new (some (node n.prev p u))) p (some (record n { prev = new })),
      )
unfolding list_insert insert_end
insert_run h g fresh new l u idx p n ni got np pn nn e sn e' e'' = ground arith

inserted_head :
    (h : Heap) (n' : Ptr) (new p v q : ℕ) (ys zs : Cells)
    → Linked h null n' ys
    → q ≡ first null (ys ++ ((p, v) ∷ zs))
    → (if last null ys == null then new else q) ≡ first new ys
inserted_head h n' new p v q [] zs s e = refl
inserted_head h n' new p v q ((r, w) ∷ ys) zs s e = ground (arith, last-ne-null h null n' r w ys s)

head_of_if :
    (c : Bool) (l : Lst) (new : Ptr)
    → (if c then record l { head = new } else l).head ≡ (if c then new else l.head)
head_of_if c l new = ground arith

tail_of_if :
    (c : Bool) (l : Lst) (new : Ptr) → (if c then record l { head = new } else l).tail ≡ l.tail
tail_of_if c l new = ground arith

cnt_of_if :
    (c : Bool) (l : Lst) (new : Ptr) → (if c then record l { head = new } else l).cnt ≡ l.cnt
cnt_of_if c l new = ground arith

or_left : (a b : Bool) → (a || b) ≡ false → a ≡ false
or_left a b h = ground arith

or_right : (a b : Bool) → (a || b) ≡ false → b ≡ false
or_right a b h = ground arith

has_self : (p : Ptr) (v : ℕ) (zs : Cells) → among p ((p, v) ∷ zs) ≡ true
has_self p v zs = ground arith

abbrev zero_node : Node
zero_node = node null null 0

-- A node to be inserted, that no cell of the store is.
module _ (h : Heap) (new : Ptr) (u : ℕ) (ys : Cells) (p : Ptr) (v : ℕ) (zs : Cells)
    (nodes : Linked h null null (ys ++ ((p, v) ∷ zs))) (nn : new ≢ null)
    (unused : h new ≡ none) where
  abbrev all : Cells
  all = ys ++ ((p, v) ∷ zs)

  -- The store after `kmalloc`.
  abbrev h' : Heap
  h' = update h new (some zero_node)

  out : (among new ys || among new ((p, v) ∷ zs)) ≡ false
  out = rw among-append at (not-mem_of_none h new null null all nodes unused)

  new_ys : among new ys ≡ false
  new_ys = or_left (among new ys) (among new ((p, v) ∷ zs)) out

  new_rest : among new ((p, v) ∷ zs) ≡ false
  new_rest = or_right (among new ys) (among new ((p, v) ∷ zs)) out

  p-ne-new : p ≢ new
  p-ne-new e = cc (ap (λ b. among b ((p, v) ∷ zs)) e, new_rest, has_self p v zs)

  all-ne-new : (a : Ptr) → among a all ≡ true → a ≢ new
  all-ne-new a i e =
      cc (ap (λ b. among b all) e, i, not-mem_of_none h new null null all nodes unused)

  nodes' : Linked h' null null all
  nodes' =
      frame h h' null null all nodes (λ a i. update_ne h new a (some zero_node) (all-ne-new a i))

  -- What follows from a store `g` in which the node before `p` points to the new one.
  module _ (g : Heap) (before : Linked g null new ys) (same : SameOutside ys h' g) where
    abbrev k : Heap
    k = update (update g new (some (node (last null ys) p u))) p (some (node new (first null zs) v))

    k-other : (a : Ptr) → a ≢ p → a ≢ new → k a ≡ g a
    k-other a d d' = ground arith

    g-p : g p ≡ some (node (last null ys) (first null zs) v)
    g-p = same p (p_out h' ys p v zs nodes') ∙ (cell_p h' ys p v zs nodes').1

    g-new : g new ≡ some zero_node
    g-new = same new new_ys ∙ update_self h new (some zero_node)

    k-new : k new ≡ some (node (last null ys) p u)
    k-new = ground (arith, p-ne-new)

    ne_new_ys : (a : Ptr) → among a ys ≡ true → a ≢ new
    ne_new_ys a i e = cc (ap (λ b. among b ys) e, i, new_ys)

    ne_new_zs : (a : Ptr) → among a zs ≡ true → a ≢ new
    ne_new_zs a i = ground (arith, new_rest)

    k-zs : (a : Ptr) → among a zs ≡ true → k a ≡ h' a
    k-zs a i =
        k-other a (zs-ne-p h' ys p v zs nodes' a i) (ne_new_zs a i)
        ∙ same a (mem_zs h' ys p v zs nodes' a i)

    k-Linked : Linked k null null (ys ++ ((new, u) ∷ (p, v) ∷ zs))
    k-Linked =
        let c = cell_p h' ys p v zs nodes' in
        Linked-append k null null ys ((new, u) ∷ (p, v) ∷ zs)
          (frame g k null new ys before
            (λ a i. k-other a (ys-ne-p h' ys p v zs nodes' a i) (ne_new_ys a i)))
          (
            nn,
            k-new,
            new_rest,
            (
              c.0,
              update_self (update g new (some (node (last null ys) p u))) p
                  (some (node new (first null zs) v)),
              c.2,
              frame h' k p null zs c.3 k-zs,
            ),
          )
          (λ a i. ground (
            arith,
            ne_new_ys a i,
            ys-ne-p h' ys p v zs nodes' a i,
            ys_not_zs h' ys p v zs nodes' a i,
          ))

    k-outside : SameOutside ((new, u) ∷ all) h k
    k-outside a o = outside (among-append a ys ((p, v) ∷ zs))
      where
        outside : among a all ≡ (among a ys || among a ((p, v) ∷ zs)) → k a ≡ h a
        outside e = ground (arith, same a)

-- `list_insert` before the node `p` of a list links the new node in right before `p`, with `head`
-- and `tail` right, and changes no cell outside; but it leaves `cnt` as it was, one less than the
-- number of nodes now linked, so that what it leaves is no longer a well-formed list.
pub list_insert-cnt :
    (h : Heap) (fresh new : Ptr) (l : Lst) (u : ℕ) (ys : Cells) (p : Ptr) (v : ℕ) (zs : Cells)
    → IsList h l (ys ++ ((p, v) ∷ zs))
    → new ≢ null
    → h new ≡ none
    → Returns
        (λ l' g.
          (l'.head ≡ first null (ys ++ ((new, u) ∷ (p, v) ∷ zs)))
          × (l'.tail ≡ last null (ys ++ ((new, u) ∷ (p, v) ∷ zs)))
          × Linked g null null (ys ++ ((new, u) ∷ (p, v) ∷ zs))
          × SameOutside ((new, u) ∷ (ys ++ ((p, v) ∷ zs))) h g
          × (l'.cnt + 1 ≡ length (ys ++ ((new, u) ∷ (p, v) ∷ zs))))
        (list_insert fresh new l u (length ys) h)
list_insert-cnt h fresh new l u ys p v zs s nn unused =
    let nodes'' = nodes' h new u ys p v zs s.nodes nn unused in
    let h'' : Heap = update h new (some zero_node) in
    let s' : IsList h'' l (ys ++ ((p, v) ∷ zs)) = record {
      head = s.head;
      tail = s.tail;
      cnt = s.cnt;
      nodes = nodes'';
    } in
    let c = cell_p h'' ys p v zs nodes'' in
    let (before, _, _) = Linked-split h'' null null ys ((p, v) ∷ zs) nodes'' in
    let (g, sn, before', same) = set_next-Linked h'' ys p new before in
    let got : list_get l (length ys) h'' ≡ some (p, h'') =
      rw address-append at (list_get-address h'' l (ys ++ ((p, v) ∷ zs)) (length ys) s') in
    let n : ℕ = l.cnt in
    let short : n ≡ length ys + suc (length zs) = s.cnt ∙ length-append ys ((p, v) ∷ zs) in
    rw
      (insert_run h g fresh new l u (length ys) p (node (last null ys) (first null zs) v)
        (omega arith) got c.0 (p-ne-new h new u ys p v zs s.nodes nn unused) nn
        (sym (update_ne h new p (some zero_node) (p-ne-new h new u ys p v zs s.nodes nn unused))
          ∙ c.1)
        sn (g-p h new u ys p v zs s.nodes nn unused g before' same)
        (g-new h new u ys p v zs s.nodes nn unused g before' same))
      (
        head_of_if (last null ys == null) l new
            ∙ inserted_head h'' p new p v l.head ys zs before s.head
            ∙ sym (first-append null ys ((new, u) ∷ (p, v) ∷ zs)),
        tail_of_if (last null ys == null) l new
            ∙ s.tail
            ∙ last-append null ys ((p, v) ∷ zs)
            ∙ sym (last-append null ys ((new, u) ∷ (p, v) ∷ zs)),
        k-Linked h new u ys p v zs s.nodes nn unused g before' same,
        k-outside h new u ys p v zs s.nodes nn unused g before' same,
        omega (
          arith,
          cnt_of_if (last null ys == null) l new,
          length-append ys ((new, u) ∷ (p, v) ∷ zs),
        ),
      )
