-- ===== src/LinkedList/Pop.antt =====
-- list_pop_front and list_pop_back of util/list.c against the list of nodes.
use kernel_old.Base.{
  length, ℕ, ◌+◌, ◌^◌, ◌<◌, ◌≡◌, refl, sym, ◌∙◌, ◌≢◌, none, some, [], ◌∷◌, ◌++◌, arith, length,
  length-append, update,
}
use kernel_old.Store.{Ptr, null}
use kernel_old.LinkedList.{
  Lst, node, dec, set_next, set_prev, list_push_back, list_pop_front, list_pop_back,
}
use kernel_old.LinkedList.Links.{
  Cells, Heap, first, last, IsList, SameOutside, frame, among-append, last-append, first-append,
  relink_first, Linked-append, Linked-split,
}
use kernel_old.LinkedList.Push.{Returns}

-- Popping the front of a list of fewer than `2 ^ 32` nodes returns the first value, frees that node,
-- and leaves the rest, also where nothing is left; other cells do not change.
pub list_pop_front_lem :
    (h : Heap) (l : Lst) (p : Ptr) (v : ℕ) (xs : Cells)
    → IsList h l ((p, v) ∷ xs)
    → length xs + 1 < 2 ^ 32
    → Returns
        (λ (r, l') g. (r ≡ some v) × IsList g l' xs × (g p ≡ none) × SameOutside ((p, v) ∷ xs) h g)
        (list_pop_front l h)
unfolding list_pop_front set_prev
list_pop_front_lem h l p v [] s room =
    let (ne, e, o, t) = s.nodes in ground (arith, s.head, s.tail, s.cnt)
list_pop_front_lem h l p v ((q, w) ∷ ys) s room =
    let (ne, e, o, (ne', e', o', t)) = s.nodes in
    let n : Ptr = first null ys in
    let g : Heap = update (update h q (some (node null n w))) p none in
    let run : list_pop_front l h
        ≡ some ((some v, record { head = q; tail = l.tail; cnt = dec l.cnt }), g) =
      ground (arith, s.head, s.cnt) in
    rw run (
      refl,
      record {
        head = refl;
        tail = s.tail;
        cnt = ground (arith, s.cnt);
        nodes =
            relink_first h g p null null q w ys (ne', e', o', t) (ground arith)
              (λ a d i. ground arith);
      },
      ground arith,
      λ a i. ground arith,
    )

pop_back_run :
    (h : Heap) (l : Lst) (before q p : Ptr) (w v : ℕ)
    → l.tail ≡ p
    → l.cnt ≢ 0
    → p ≢ null
    → q ≢ null
    → q ≢ p
    → h p ≡ some (node q null v)
    → h q ≡ some (node before p w)
    → list_pop_back l h
      ≡ some (
        (some v, record l { tail = q; cnt = dec l.cnt }),
        update (update h q (some (node before null w))) p none,
      )
unfolding list_pop_back set_next
pop_back_run h l before q p w v at n np nq d e e' = ground arith

-- `list_pop_back` on a list that has another node before the last one, `q`: the last value is
-- returned, its node freed, and the others stay a list; other cells do not change.
pub list_pop_back_lem :
    (h : Heap) (l : Lst) (xs : Cells) (q p : Ptr) (w v : ℕ)
    → IsList h l (xs ++ ((q, w) ∷ (p, v) ∷ []))
    → length xs + 2 < 2 ^ 32
    → Returns
        (λ (r, l') g.
          (r ≡ some v)
          × IsList g l' (xs ++ ((q, w) ∷ []))
          × (g p ≡ none)
          × SameOutside (xs ++ ((q, w) ∷ (p, v) ∷ [])) h g)
        (list_pop_back l h)
list_pop_back_lem h l xs q p w v s room =
    let (a, (ne, e, o, (ne', e', o', t)), apart) =
      Linked-split h null null xs ((q, w) ∷ (p, v) ∷ []) s.nodes in
    let before : Ptr = last null xs in
    let g : Heap = update (update h q (some (node before null w))) p none in
    let at : l.tail ≡ p = s.tail ∙ last-append null xs ((q, w) ∷ (p, v) ∷ []) in
    let some_cnt : l.cnt ≡ length xs + 2 = s.cnt ∙ length-append xs ((q, w) ∷ (p, v) ∷ []) in
    rw (pop_back_run h l before q p w v at (omega arith) ne' ne (ground arith) e' e) (
      refl,
      record {
        head =
            s.head
            ∙ first-append null xs ((q, w) ∷ (p, v) ∷ [])
            ∙ sym (first-append null xs ((q, w) ∷ []));
        tail = rw last-append;
        cnt = ground (arith, length-append xs ((q, w) ∷ []));
        nodes =
            Linked-append g null null xs ((q, w) ∷ [])
              (frame h g null q xs a (λ b i. ground (arith, apart b))) (ne, ground arith, refl, tt)
              (λ b i. ground (arith, apart b));
      },
      ground arith,
      λ b i. ground (arith, among-append b xs ((q, w) ∷ (p, v) ∷ [])),
    )

list_push_back-null_tail :
    (g : Heap) (fresh : Ptr) (l : Lst) (u : ℕ)
    → l.head ≢ null
    → l.tail ≡ null
    → list_push_back fresh l u g ≡ none
unfolding list_push_back
list_push_back-null_tail g fresh l u n t = ground arith

-- On a list of one node, `list_pop_back` returns the value and frees the node, but `head` still
-- points to it; so the next `list_push_back`, given a new node, faults on the NULL `tail`.
pub list_push_back-list_pop_back-fault :
    (h : Heap) (l : Lst) (p : Ptr) (v : ℕ)
    → IsList h l ((p, v) ∷ [])
    → Returns
        (λ (r, l') g.
          (r ≡ some v)
          × (g p ≡ none)
          × (l'.head ≡ p)
          × (l'.cnt ≡ 0)
          × ((fresh : Ptr) (u : ℕ) → list_push_back fresh l' u g ≡ none))
        (list_pop_back l h)
unfolding list_pop_back set_next
list_push_back-list_pop_back-fault h l p v s =
    let (ne, e, o, t) = s.nodes in
    let g : Heap = update h p none in
    let run : list_pop_back l h ≡ some ((some v, record l { tail = null; cnt = dec l.cnt }), g) =
      ground (arith, s.tail, s.cnt) in
    rw run (
      refl,
      ground arith,
      s.head,
      ground (arith, s.cnt),
      λ fresh u.
          list_push_back-null_tail g fresh (record l { tail = null; cnt = dec l.cnt }) u
            (ground (arith, s.head)) refl,
    )
