-- ===== src/Paging/Regions.antt =====
-- space_alloc_region and space_alloc_region_at of mem/paging.c: the regions of a user address space.
-- The list is the chain of regions with the count that `list_t` keeps, which `list_insert` does not
-- raise (LinkedList.Insert.list_insert-cnt); an insertion at an index past that count is a fault.
use kernel_old.Base.{
  subst, ℕ, zero, suc, ◌+◌, ◌%◌, ◌^◌, ◌≤◌, ◌<◌, ◌≡◌, ◌≢◌, ◌⊎◌, inl, inr, ◌&&◌, Option, none, some,
  List, [], ◌∷◌, ◌++◌, arith, ltb, leb, ◌==◌, if◌then◌else◌, leb→le, Bool-cases,
}
use kernel_old.Paging.{page_size_4k, kernel_virtual_addr}

pub record Region : Type 0 where
  pub base : ℕ
  pub end : ℕ

pub record RegionList : Type 0 where
  pub items : List Region
  pub cnt : ℕ

abbrev pub insert_at : List Region → ℕ → Region → List Region
insert_at rs zero r = r ∷ rs
insert_at [] (suc i) r = r ∷ []
insert_at (x ∷ rs) (suc i) r = x ∷ insert_at rs i r

abbrev pub region : ℕ → ℕ → Region
region base end = record { base = base; end = end }

abbrev pub push_back : RegionList → Region → RegionList
push_back l r = record { items = l.items ++ (r ∷ []); cnt = (l.cnt + 1) % 2 ^ 32 }

-- `list_insert` as the chain sees it: at the count it also pushes, past the count it faults.
abbrev pub insert : RegionList → ℕ → Region → Option RegionList
insert l i r =
    if i == l.cnt
    then some (let l' = push_back l r in record l' { items = insert_at l'.items i r })
    else if ltb i l.cnt
    then some (record l { items = insert_at l.items i r })
    else none

-- The loop of `space_alloc_region_at` over the regions left, `i` counting those passed.
unfoldable pub alloc_at_loop : (base size i : ℕ) → List Region → RegionList → Option RegionList
alloc_at_loop base size i [] l = some (push_back l (region base ((base + size) % 2 ^ 64)))
alloc_at_loop base size i (r ∷ rs) l =
    let rest = alloc_at_loop base size (i + 1) rs l in
    if leb ((base + size) % 2 ^ 64) r.base
    then insert l i (region base ((base + size) % 2 ^ 64))
    else rest

unfoldable pub space_alloc_region_at : (base size : ℕ) → RegionList → Option RegionList
space_alloc_region_at base size l = alloc_at_loop base size 0 l.items l

-- The three tests on one region that begins before `end`, in order; each moves the base past it.
unfoldable pub past : (base size : ℕ) → Region → ℕ
past base size r =
    let base₁ = if leb r.base base && ltb base r.end then r.end else base in
    let end₁ = (base₁ + size) % 2 ^ 64 in
    let base₂ = if ltb r.base end₁ && leb end₁ r.end then r.end else base₁ in
    let end₂ = (base₂ + size) % 2 ^ 64 in
    if ltb base₂ r.base && ltb r.end end₂ then r.end else base₂

abbrev pub with_base : ℕ → Option RegionList → Option (ℕ × RegionList)
with_base base none = none
with_base base (some l) = some (base, l)

-- The loop of `space_alloc_region` over the regions left, and what follows it. The address 0 is
-- the returned NULL.
unfoldable pub alloc_loop : (size base i : ℕ) → List Region → RegionList → Option (ℕ × RegionList)
alloc_loop size base i [] l =
    let end : ℕ = (base + size) % 2 ^ 64 in
    if ltb end kernel_virtual_addr then some (base, push_back l (region base end)) else some (0, l)
alloc_loop size base i (r ∷ rs) l =
    let end : ℕ = (base + size) % 2 ^ 64 in
    let rest = alloc_loop size (past base size r) (i + 1) rs l in
    let here = with_base base (insert l i (region base end)) in
    if leb end r.base then here else rest

unfoldable pub space_alloc_region : ℕ → RegionList → Option (ℕ × RegionList)
space_alloc_region size l = alloc_loop size page_size_4k 0 l.items l

-- The regions follow each other from `lo` on, none past `hi`.
abbrev pub Ordered : (lo hi : ℕ) → List Region → Type 0
Ordered lo hi [] = lo ≤ hi
Ordered lo hi (r ∷ rs) = (lo ≤ r.base) × (r.base ≤ r.end) × Ordered r.end hi rs

-- The interval meets none of the regions.
abbrev pub Apart : (base end : ℕ) → List Region → Type 0
Apart base end [] = Unit {0}
Apart base end (r ∷ rs) = ((r.end ≤ base) ⊎ (end ≤ r.base)) × Apart base end rs

Ordered-Apart :
    (base end lo hi : ℕ) (rs : List Region) → end ≤ lo → Ordered lo hi rs → Apart base end rs
Ordered-Apart base end lo hi [] h o = tt
Ordered-Apart base end lo hi (r ∷ rs) h (a, b, o) =
    (inr (omega arith), Ordered-Apart base end r.end hi rs (omega arith) o)

Ordered-le : (lo hi : ℕ) (rs : List Region) → Ordered lo hi rs → lo ≤ hi
Ordered-le lo hi [] o = o
Ordered-le lo hi (r ∷ rs) (a, b, o) = omega (arith, Ordered-le r.end hi rs o)

past-le :
    (base size : ℕ) (r : Region)
    → r.base ≤ r.end
    → r.end + size < 2 ^ 64
    → base + size < 2 ^ 64
    → r.base < base + size
    → (r.end ≤ past base size r) × (base ≤ past base size r) × (past base size r + size < 2 ^ 64)
unfolding past
past-le base size r h a b c = (ground arith, ground arith, ground arith)

-- The base that the loop returns, if it is not NULL, is that of an interval apart from the regions
-- left, and no less than the base it began with.
alloc_loop-Apart :
    (size base i hi got lo : ℕ) (rs : List Region) (l l' : RegionList)
    → Ordered lo hi rs
    → hi + size < 2 ^ 64
    → base + size < 2 ^ 64
    → alloc_loop size base i rs l ≡ some (got, l')
    → got ≢ 0
    → (base ≤ got) × Apart got (got + size) rs
unfolding alloc_loop
alloc_loop-Apart size base i hi got lo [] l l' o s b e n = ground arith
alloc_loop-Apart size base i hi got lo (r ∷ rs) l l' (a, c, o) s b e n =
    let top : r.end ≤ hi = Ordered-le r.end hi rs o in
    let fit : (base + size) % 2 ^ 64 ≡ base + size = omega arith in
    elim (Bool-cases (leb ((base + size) % 2 ^ 64) r.base)) [
      | inl before ↦
          let here : base ≡ got =
            inserted (insert l i (region base ((base + size) % 2 ^ 64)))
              (rw (before, alloc_loop) at e) in
          let le : (base + size) % 2 ^ 64 ≤ r.base = leb→le _ _ before in
          subst (λ b'. (base ≤ b') × Apart b' (b' + size) (r ∷ rs)) here
            (
              omega arith,
              (inr (omega arith), Ordered-Apart base (base + size) r.end hi rs (omega arith) o),
            )
      | inr meets ↦
          let lt : r.base < base + size = ground arith in
          let (x, y, z) = past-le base size r c (omega arith) b lt in
          let (q, ap') =
            alloc_loop-Apart size (past base size r) (i + 1) hi got r.end rs l l' o s z
              (rw (meets, alloc_loop) at e) n in
          (omega arith, (inl (omega arith), ap'))
    ]
  where
    inserted : (o : Option RegionList) → with_base base o ≡ some (got, l') → base ≡ got
    inserted none e = cc
    inserted (some l'') e = cc

-- In an address space whose regions follow each other below `hi`, with room for the size before the
-- end of the address space, a base that `space_alloc_region` returns, if not NULL, is at or above
-- 4096 and begins an interval of that size that meets no region of the list.
pub space_alloc_region-Apart :
    (size hi got : ℕ) (l l' : RegionList)
    → Ordered 0 hi l.items
    → hi + size + page_size_4k < 2 ^ 64
    → space_alloc_region size l ≡ some (got, l')
    → got ≢ 0
    → (page_size_4k ≤ got) × Apart got (got + size) l.items
unfolding space_alloc_region
space_alloc_region-Apart size hi got l l' o s e n =
    alloc_loop-Apart size page_size_4k 0 hi got 0 l.items l l' o (omega arith) (omega arith) e n
