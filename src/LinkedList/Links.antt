-- ===== src/LinkedList/Links.antt =====
-- What a `list_t` of util/list.c stands for: the addresses and values of its nodes, in order.
use kernel_old.Base.{
  ℕ, ◌≡◌, refl, ◌≢◌, Bool, true, false, ◌||◌, Option, none, some, List, [], ◌∷◌, ◌++◌, arith, ◌==◌,
  length,
}
use kernel_old.Store.{Ptr, null}
use kernel_old.LinkedList.{Node, Lst, node}

abbrev pub Cells : Type 0
Cells = List (Ptr × ℕ)

abbrev pub Heap : Type 0
Heap = Ptr → Option Node

abbrev pub among : Ptr → Cells → Bool
among at [] = false
among at ((here, _) ∷ more) = (at == here) || among at more

-- The address of the first node, or what follows an empty list.
abbrev pub first : Ptr → Cells → Ptr
first next [] = next
first next ((p, _) ∷ xs) = p

-- The address of the last node, or what precedes an empty list.
abbrev pub last : Ptr → Cells → Ptr
last prev [] = prev
last prev ((p, _) ∷ xs) = last p xs

-- The nodes `xs` are distinct cells, linked to each other in both directions, from `prev` to `next`.
abbrev pub Linked : Heap → Ptr → Ptr → Cells → Type 0
Linked h prev next [] = Unit
Linked h prev next ((p, v) ∷ xs) =
    (p ≢ null)
    × (h p ≡ some (node prev (first next xs) v))
    × (among p xs ≡ false)
    × Linked h p next xs

pub record IsList (h : Heap) (l : Lst) (xs : Cells) : Type 0 where
  pub head : l.head ≡ first null xs
  pub tail : l.tail ≡ last null xs
  pub cnt : l.cnt ≡ length xs
  pub nodes : Linked h null null xs

-- `g` differs from `h` at most at the addresses of `xs`.
abbrev pub SameOutside : Cells → Heap → Heap → Type 0
SameOutside xs h g = (a : Ptr) → among a xs ≡ false → g a ≡ h a

pub frame :
    (h : Heap) (g : Heap) (prev next : Ptr) (xs : Cells)
    → Linked h prev next xs
    → ((a : Ptr) → among a xs ≡ true → g a ≡ h a)
    → Linked g prev next xs
frame h g prev next [] s same = tt
frame h g prev next ((p, v) ∷ xs) (n, e, o, s) same =
    (n, ground (arith, same p), o, frame h g p next xs s (λ a i. same a (ground arith)))

pub among-append : (a : Ptr) (xs ys : Cells) → among a (xs ++ ys) ≡ (among a xs || among a ys)
among-append a [] ys = refl
among-append a ((p, v) ∷ xs) ys = ground (arith, among-append a xs ys)

pub first-append : (n : Ptr) (xs ys : Cells) → first n (xs ++ ys) ≡ first (first n ys) xs
first-append n [] ys = refl
first-append n (x ∷ xs) ys = refl

pub last-append : (n : Ptr) (xs ys : Cells) → last n (xs ++ ys) ≡ last (last n xs) ys
last-append n [] ys = refl
last-append n ((p, v) ∷ xs) ys = last-append p xs ys

pub among-last : (p : Ptr) (v : ℕ) (xs : Cells) → among (last p xs) ((p, v) ∷ xs) ≡ true
among-last p v [] = ground arith
among-last p v ((q, w) ∷ xs) = ground (arith, among-last q w xs)

-- A change of the last node's `next`.
pub relink_last :
    (h : Heap) (g : Heap) (prev n n' : Ptr) (xs : Cells)
    → Linked h prev n xs
    → ((a : Ptr) → among a xs ≡ true → a ≢ last prev xs → g a ≡ h a)
    → ((q : Ptr) (v : ℕ)
        → h (last prev xs) ≡ some (node q n v)
        → g (last prev xs) ≡ some (node q n' v))
    → Linked g prev n' xs
relink_last h g prev n n' [] s same new = tt
relink_last h g prev n n' ((p, v) ∷ []) (ne, e, o, s) same new = (ne, new prev v e, refl, tt)
relink_last h g prev n n' ((p, v) ∷ (q, w) ∷ xs) (ne, e, o, s) same new = (
  ne,
  ground (arith, same p, among-last q w xs),
  o,
  relink_last h g p n n' ((q, w) ∷ xs) s (λ a i d. same a (ground arith) d) new,
)

pub Linked-append :
    (h : Heap) (prev next : Ptr) (xs ys : Cells)
    → Linked h prev (first next ys) xs
    → Linked h (last prev xs) next ys
    → ((a : Ptr) → among a xs ≡ true → among a ys ≡ false)
    → Linked h prev next (xs ++ ys)
Linked-append h prev next [] ys s t apart = t
Linked-append h prev next ((p, v) ∷ xs) ys (ne, e, o, s) t apart = (
  ne,
  ground (arith, first-append next xs ys),
  ground (arith, among-append p xs ys, apart p),
  Linked-append h p next xs ys s t (λ a i. apart a (ground arith)),
)

pub Linked-split :
    (h : Heap) (prev next : Ptr) (xs ys : Cells)
    → Linked h prev next (xs ++ ys)
    → Linked h prev (first next ys) xs
      × Linked h (last prev xs) next ys
      × ((a : Ptr) → among a xs ≡ true → among a ys ≡ false)
Linked-split h prev next [] ys s = (tt, s, λ a i. cc)
Linked-split h prev next ((p, v) ∷ xs) ys (ne, e, o, s) =
    let (l, r, d) = Linked-split h p next xs ys s in
    (
      (ne, ground (arith, first-append next xs ys), ground (arith, among-append p xs ys), l),
      r,
      (λ a i. ground (arith, among-append p xs ys, d a)),
    )

-- The first node's `prev` is no part of what the nodes after it say.
pub relink_first :
    (h : Heap) (g : Heap) (q q' next p : Ptr) (v : ℕ) (xs : Cells)
    → Linked h q next ((p, v) ∷ xs)
    → g p ≡ some (node q' (first next xs) v)
    → ((a : Ptr) → a ≢ p → among a xs ≡ true → g a ≡ h a)
    → Linked g q' next ((p, v) ∷ xs)
relink_first h g q q' next p v xs (ne, e, o, s) new same =
    (ne, new, o, frame h g p next xs s (λ a i. same a (ground arith) i))

pub not-mem_of_none :
    (h : Heap) (a prev next : Ptr) (xs : Cells)
    → Linked h prev next xs
    → h a ≡ none
    → among a xs ≡ false
not-mem_of_none h a prev next [] s e = refl
not-mem_of_none h a prev next ((p, v) ∷ xs) (ne, e', o, s) e =
    ground (arith, not-mem_of_none h a p next xs s e)

pub last-ne-null :
    (h : Heap) (prev next p : Ptr) (v : ℕ) (xs : Cells)
    → Linked h prev next ((p, v) ∷ xs)
    → last p xs ≢ null
last-ne-null h prev next p v [] (ne, e, o, s) = ne
last-ne-null h prev next p v ((q, w) ∷ xs) (ne, e, o, s) = last-ne-null h p next q w xs s

-- What the last node holds.
pub last_cell :
    (h : Heap) (prev next p : Ptr) (v : ℕ) (xs : Cells)
    → Linked h prev next ((p, v) ∷ xs)
    → (q : Ptr) × (w : ℕ) × (h (last p xs) ≡ some (node q next w))
last_cell h prev next p v [] (ne, e, o, s) = (prev, v, e)
last_cell h prev next p v ((q, w) ∷ xs) (ne, e, o, s) = last_cell h p next q w xs s
