-- ===== src/Store.antt =====
-- The memory that the linked structures of the kernel live in: cells at addresses, address 0 being
-- NULL. An access to NULL or to a cell that is not allocated is a fault. `kmalloc` is given the
-- address that it returns; it fills the cell with zeros, as mem/kheap.c does.
use kernel_old.Base.{ℕ, Option, none, some, ◌==◌, if◌then◌else◌, update}

abbrev pub Ptr : Type 0
Ptr = ℕ

abbrev pub null : Ptr
null = 0

abbrev pub Cmd : Type 0 → Type 0 → Type 0
Cmd C A = (Ptr → Option C) → Option (A × (Ptr → Option C))

abbrev pub pure : {C A : Type 0} → A → Cmd C A
pure a h = some (a, h)

infixl 5 ◌>>=◌ ◌>>◌
abbrev pub ◌>>=◌ : {C A B : Type 0} → Cmd C A → (A → Cmd C B) → Cmd C B
◌>>=◌ m f h = elim (m h) [ none ↦ none | some (a, h') ↦ f a h' ]

abbrev pub ◌>>◌ : {C B : Type 0} → Cmd C (Unit {0}) → Cmd C B → Cmd C B
◌>>◌ m k h = elim (m h) [ none ↦ none | some (_, h') ↦ k h' ]

-- `*p`
abbrev pub load : {C : Type 0} → Ptr → Cmd C C
load p h = if p == null then none else elim (h p) [ none ↦ none | some c ↦ some (c, h) ]

-- `*p = c`, at a cell that is allocated
abbrev pub store : {C : Type 0} → Ptr → C → Cmd C (Unit {0})
store p c h =
    if p == null then none else elim (h p) [ none ↦ none | some _ ↦ some (tt, update h p (some c)) ]

-- `kmalloc` with the zeroed cell
abbrev pub alloc : {C : Type 0} → Ptr → C → Cmd C (Unit {0})
alloc p zeroed h = some (tt, update h p (some zeroed))

abbrev pub kfree : {C : Type 0} → Ptr → Cmd C (Unit {0})
kfree p h =
    if p == null then none else elim (h p) [ none ↦ none | some _ ↦ some (tt, update h p none) ]
