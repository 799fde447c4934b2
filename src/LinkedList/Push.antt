-- ===== src/LinkedList/Push.antt =====
-- list_push_back and list_push_front of util/list.c against the list of nodes.
use kernel_old.Base.{
  length-append, ◌^◌, ◌<◌, ◌+◌, length, ap, true, ◌∙◌, ℕ, ◌≡◌, refl, ◌≢◌, false, Option, none, some,
  [], ◌∷◌, ◌++◌, arith, update,
}
use kernel_old.Store.{Ptr, null}
use kernel_old.LinkedList.{list_push_front, Lst, node, inc, list_push_back}
use kernel_old.LinkedList.Links.{
  among-last, relink_first, first, last-append, Cells, Heap, among, Linked, IsList, SameOutside,
  relink_last, Linked-append, last-ne-null, last_cell, not-mem_of_none,
}

-- A run ends without a fault, in a result and a store of which `P` holds.
abbrev pub Returns : {A : Type 0} → (A → Heap → Type 0) → Option (A × Heap) → Type 0
Returns P none = ⊥
Returns P (some (a, g)) = P a g

module _ (h : Heap) (fresh : Ptr) (v : ℕ) (new : fresh ≢ null) (unused : h fresh ≡ none) where
  list_push_back-empty :
      (l : Lst)
      → IsList h l []
      → Returns
          (λ (r, l') g.
            (r ≡ fresh) × IsList g l' ((fresh, v) ∷ []) × SameOutside ((fresh, v) ∷ []) h g)
          (list_push_back fresh l v h)
  unfolding list_push_back
  list_push_back-empty l s = ground (arith, s.cnt)

  module _ (l : Lst) (p : Ptr) (w : ℕ) (ys : Cells) (s : IsList h l ((p, w) ∷ ys)) where
    tail_ne_fresh : l.tail ≢ fresh
    tail_ne_fresh = let (q, u, e) = last_cell h null null p w ys s.nodes in ground (arith, s.tail)

    -- The store after the push: the new node, and the old last node pointing to it.
    after_back : Ptr → ℕ → Heap
    after_back q u =
        update (update (update h fresh (some (node null null 0))) fresh (some (node l.tail null v)))
          l.tail (some (node q fresh u))

    push_back_run :
        (q : Ptr) (u : ℕ)
        → h l.tail ≡ some (node q null u)
        → list_push_back fresh l v h
          ≡ some ((fresh, record l { tail = fresh; cnt = inc l.cnt }), after_back q u)
    unfolding list_push_back after_back
    push_back_run q u e =
        ground
          (arith, s.head, s.nodes, s.tail, tail_ne_fresh, last-ne-null h null null p w ys s.nodes)

    after_back_other : (q : Ptr) (u : ℕ) (a : Ptr) → a ≢ fresh → a ≢ l.tail → after_back q u a ≡ h a
    unfolding after_back
    after_back_other q u a n t = ground arith

    after_back-fresh : (q : Ptr) (u : ℕ) → after_back q u fresh ≡ some (node l.tail null v)
    unfolding after_back
    after_back-fresh q u = ground (arith, tail_ne_fresh)

    after_back_tail : (q : Ptr) (u : ℕ) → after_back q u l.tail ≡ some (node q fresh u)
    unfolding after_back
    after_back_tail q u = ground arith

    fresh_out : among fresh ((p, w) ∷ ys) ≡ false
    fresh_out = not-mem_of_none h fresh null null ((p, w) ∷ ys) s.nodes unused

    mem_ne_fresh : (a : Ptr) → among a ((p, w) ∷ ys) ≡ true → a ≢ fresh
    mem_ne_fresh a i e = cc (ap (λ b. among b ((p, w) ∷ ys)) e, fresh_out)

    after_back-Linked :
        (q : Ptr) (u : ℕ)
        → h l.tail ≡ some (node q null u)
        → Linked (after_back q u) null null (((p, w) ∷ ys) ++ ((fresh, v) ∷ []))
    after_back-Linked q u e =
        Linked-append (after_back q u) null null ((p, w) ∷ ys) ((fresh, v) ∷ [])
          (relink_last h (after_back q u) null null fresh ((p, w) ∷ ys) s.nodes
            (λ a i d. after_back_other q u a (mem_ne_fresh a i) (λ e. d (e ∙ s.tail)))
            (λ q' v' e'. ground (arith, s.tail, after_back_tail q u)))
          (new, rw (← s.tail) (after_back-fresh q u), refl, tt)
          (λ a i. ground (arith, mem_ne_fresh a i))

    list_push_back-cons :
        length ys + 2 < 2 ^ 32
        → Returns
            (λ (r, l') g.
              (r ≡ fresh)
              × IsList g l' (((p, w) ∷ ys) ++ ((fresh, v) ∷ []))
              × SameOutside ((fresh, v) ∷ (p, w) ∷ ys) h g)
            (list_push_back fresh l v h)
    list_push_back-cons room =
        let (q, u, e) = last_cell h null null p w ys s.nodes in
        let at : h l.tail ≡ some (node q null u) = rw s.tail e in
        rw (push_back_run q u at) (
          refl,
          record {
            head = s.head;
            tail = rw last-append;
            cnt = ground (arith, s.cnt, length-append ((p, w) ∷ ys) ((fresh, v) ∷ []));
            nodes = after_back-Linked q u at;
          },
          λ a o. after_back_other q u a (ground arith) (ground (arith, s.tail, among-last p w ys)),
        )

    -- The store after a push at the front.
    after_front : Ptr → Heap
    after_front n =
        update (update (update h fresh (some (node null null 0))) fresh (some (node null p v))) p
          (some (node fresh n w))

    p_ne_fresh : p ≢ fresh
    p_ne_fresh = mem_ne_fresh p (ground arith)

    push_front_run :
        list_push_front fresh l v h
        ≡ some ((fresh, record l { head = fresh; cnt = inc l.cnt }), after_front (first null ys))
    unfolding list_push_front after_front
    push_front_run = let (ne, e, o, t) = s.nodes in ground (arith, s.head, p_ne_fresh)

    after_front_other : (n : Ptr) (a : Ptr) → a ≢ fresh → a ≢ p → after_front n a ≡ h a
    unfolding after_front
    after_front_other n a d d' = ground arith

    after_front_p : (n : Ptr) → after_front n p ≡ some (node fresh n w)
    unfolding after_front
    after_front_p n = ground arith

    after_front-fresh : (n : Ptr) → after_front n fresh ≡ some (node null p v)
    unfolding after_front
    after_front-fresh n = ground (arith, p_ne_fresh)

    list_push_front-cons :
        length ys + 2 < 2 ^ 32
        → Returns
            (λ (r, l') g.
              (r ≡ fresh)
              × IsList g l' ((fresh, v) ∷ (p, w) ∷ ys)
              × SameOutside ((fresh, v) ∷ (p, w) ∷ ys) h g)
            (list_push_front fresh l v h)
    list_push_front-cons room =
        let g : Heap = after_front (first null ys) in
        rw push_front_run (
          refl,
          record {
            head = refl;
            tail = s.tail;
            cnt = ground (arith, s.cnt);
            nodes = (
              new,
              after_front-fresh (first null ys),
              fresh_out,
              relink_first h g null fresh null p w ys s.nodes (after_front_p (first null ys))
                  (λ a d i. after_front_other (first null ys) a (mem_ne_fresh a (ground arith)) d),
            );
          },
          λ a o. after_front_other (first null ys) a (ground arith) (ground arith),
        )

-- Pushing a new node at the back of a list of fewer than `2 ^ 32 - 1` nodes returns that node and
-- leaves the list with its value at the end, its links, ends and count right; no cell other than the
-- new one and the list's own changes.
pub list_push_back_lem :
    (h : Heap) (fresh : Ptr) (l : Lst) (v : ℕ) (xs : Cells)
    → fresh ≢ null
    → h fresh ≡ none
    → IsList h l xs
    → length xs + 1 < 2 ^ 32
    → Returns
        (λ (r, l') g.
          (r ≡ fresh) × IsList g l' (xs ++ ((fresh, v) ∷ [])) × SameOutside ((fresh, v) ∷ xs) h g)
        (list_push_back fresh l v h)
list_push_back_lem h fresh l v [] new unused s room = list_push_back-empty h fresh v new unused l s
list_push_back_lem h fresh l v ((p, w) ∷ ys) new unused s room =
    list_push_back-cons h fresh v new unused l p w ys s (omega arith)

list_push_front-empty :
    (h : Heap) (fresh : Ptr) (l : Lst) (v : ℕ)
    → IsList h l []
    → list_push_front fresh l v h ≡ list_push_back fresh l v h
unfolding list_push_front
list_push_front-empty h fresh l v s = ground (arith, s.head, s.tail)

-- Pushing a new node at the front of a list of fewer than `2 ^ 32 - 1` nodes returns that node and
-- leaves the list with its value as the first, its links, ends and count right; no cell other than
-- the new one and the list's own changes.
pub list_push_front_lem :
    (h : Heap) (fresh : Ptr) (l : Lst) (v : ℕ) (xs : Cells)
    → fresh ≢ null
    → h fresh ≡ none
    → IsList h l xs
    → length xs + 1 < 2 ^ 32
    → Returns
        (λ (r, l') g.
          (r ≡ fresh) × IsList g l' ((fresh, v) ∷ xs) × SameOutside ((fresh, v) ∷ xs) h g)
        (list_push_front fresh l v h)
list_push_front_lem h fresh l v [] new unused s room =
    rw (list_push_front-empty h fresh l v s) (list_push_back-empty h fresh v new unused l s)
list_push_front_lem h fresh l v ((p, w) ∷ ys) new unused s room =
    list_push_front-cons h fresh v new unused l p w ys s (omega arith)
