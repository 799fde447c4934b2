-- ===== src/LinkedList/Tests.antt =====
-- The theorems on util/list.c at a list of three nodes.
use kernel_old.Base.{ℕ, ◌≡◌, refl, none, some, [], ◌∷◌, arith, update}
use kernel_old.Store.{Ptr}
use kernel_old.LinkedList.{Lst, node, list_push_back, list_pop_front, list_pop_back, list_remove}
use kernel_old.LinkedList.Links.{Cells, Heap, IsList, SameOutside}
use kernel_old.LinkedList.Push.{Returns}
use kernel_old.LinkedList.Pop.{list_pop_front_lem, list_push_back-list_pop_back-fault}
use kernel_old.LinkedList.Remove.{list_remove_lem}

abbrev heap : Heap
heap =
    update (update (update (λ _. none) 16 (some (node 0 32 7))) 32 (some (node 16 48 8))) 48
      (some (node 32 0 9))

abbrev three : Lst
three = record { head = 16; tail = 48; cnt = 3 }

abbrev cells : Cells
cells = (16, 7) ∷ (32, 8) ∷ (48, 9) ∷ []

cells-IsList : IsList heap three cells
cells-IsList = record {
  head = refl;
  tail = refl;
  cnt = refl;
  nodes = (ground arith, refl, refl, (ground arith, refl, refl, (ground arith, refl, refl, tt)));
}

abbrev single : Lst
single = record { head = 16; tail = 16; cnt = 1 }

abbrev single_heap : Heap
single_heap = update (λ _. none) 16 (some (node 0 0 7))

single-IsList : IsList single_heap single ((16, 7) ∷ [])
single-IsList = record {
  head = refl;
  tail = refl;
  cnt = refl;
  nodes = (ground arith, refl, refl, tt);
}

list_pop_front_lem_example :
    Returns
      (λ (r, l') g.
        (r ≡ some 7)
        × IsList g l' ((32, 8) ∷ (48, 9) ∷ [])
        × (g 16 ≡ none)
        × SameOutside cells heap g)
      (list_pop_front three heap)
list_pop_front_lem_example =
    list_pop_front_lem heap three 16 7 ((32, 8) ∷ (48, 9) ∷ []) cells-IsList (omega arith)

list_push_back-list_pop_back-fault_example :
    Returns
      (λ (r, l') g.
        (r ≡ some 7)
        × (g 16 ≡ none)
        × (l'.head ≡ 16)
        × (l'.cnt ≡ 0)
        × ((fresh : Ptr) (u : ℕ) → list_push_back fresh l' u g ≡ none))
      (list_pop_back single single_heap)
list_push_back-list_pop_back-fault_example =
    list_push_back-list_pop_back-fault single_heap single 16 7 single-IsList

list_remove_lem_example :
    Returns
      (λ l' g. IsList g l' ((16, 7) ∷ (48, 9) ∷ []) × (g 32 ≡ none) × SameOutside cells heap g)
      (list_remove three 1 heap)
list_remove_lem_example =
    list_remove_lem heap three ((16, 7) ∷ []) 32 8 ((48, 9) ∷ []) cells-IsList (omega arith)
