-- ===== src/LinkedList.antt =====
-- util/list.c: doubly linked lists of pointers. A `list_t` is passed and returned as a value; its
-- nodes are cells of the store.
pub mod Links
pub mod Push
pub mod Pop
pub mod Relink
pub mod Remove
pub mod Insert
mod Tests
use kernel_old.Base.{
  ℕ, zero, suc, ◌+◌, ◌-◌, ◌%◌, ◌^◌, Bool, Option, none, some, ◌==◌, leb, if◌then◌else◌, ◌&&◌,
}
use kernel_old.Store.{Ptr, null, Cmd, pure, ◌>>=◌, ◌>>◌, load, store, alloc, kfree}

pub record Node : Type 0 where
  pub prev : Ptr
  pub next : Ptr
  pub val : ℕ

pub record Lst : Type 0 where
  pub head : Ptr
  pub tail : Ptr
  pub cnt : ℕ

abbrev pub node : Ptr → Ptr → ℕ → Node
node p n v = record { prev = p; next = n; val = v }

-- `cnt++` and `cnt--` on a `uint32_t`
abbrev pub inc : ℕ → ℕ
inc n = (n + 1) % 2 ^ 32

abbrev pub dec : ℕ → ℕ
dec n = (n + (2 ^ 32 - 1)) % 2 ^ 32

-- The `list_t` itself is zeroed.
unfoldable pub list_create : Lst
list_create = record { head = null; tail = null; cnt = 0 }

unfoldable pub list_push_back : (fresh : Ptr) → Lst → ℕ → Cmd Node (Ptr × Lst)
list_push_back fresh l v = do
  alloc fresh (node null null 0)
  if l.head == null && l.tail == null
      then (do
        store fresh (node null null v)
        pure (fresh, record { head = fresh; tail = fresh; cnt = inc l.cnt }))
      else (do
        store fresh (node l.tail null v)
        t ← load l.tail
        store l.tail (record t { next = fresh })
        pure (fresh, record l { tail = fresh; cnt = inc l.cnt }))

-- `if (p) p->next = n;`
unfoldable pub set_next : Ptr → Ptr → Cmd Node (Unit {0})
set_next p n = if p == null then pure tt else do t ← load p; store p (record t { next = n })

-- `if (p) p->prev = q;`
unfoldable pub set_prev : Ptr → Ptr → Cmd Node (Unit {0})
set_prev p q = if p == null then pure tt else do t ← load p; store p (record t { prev = q })

-- `none` is the value that the bare `return` on an empty list leaves undefined.
unfoldable pub list_pop_back : Lst → Cmd Node (Option ℕ × Lst)
list_pop_back l = if l.cnt == 0 then pure (none, l) else do
  n ← load l.tail
  set_next n.prev null
  n' ← load l.tail
  kfree l.tail
  pure (some n'.val, record l { tail = n.prev; cnt = dec l.cnt })

unfoldable pub list_push_front : (fresh : Ptr) → Lst → ℕ → Cmd Node (Ptr × Lst)
list_push_front fresh l v =
    if l.head == null && l.tail == null then list_push_back fresh l v else (do
      alloc fresh (node null null 0)
      store fresh (node null l.head v)
      h ← load l.head
      store l.head (record h { prev = fresh })
      pure (fresh, record l { head = fresh; cnt = inc l.cnt }))

unfoldable pub list_pop_front : Lst → Cmd Node (Option ℕ × Lst)
list_pop_front l = if l.cnt == 0 then pure (none, l) else do
  n ← load l.head
  set_prev n.next null
  n' ← load l.head
  kfree l.head
  pure (
    some n'.val,
    record { head = n.next; tail = if n.next == null then null else l.tail; cnt = dec l.cnt },
  )

-- The walk of `list_get`: `k` more nodes to pass before the one that is wanted.
unfoldable pub get_loop : ℕ → Ptr → Cmd Node Ptr
get_loop zero p = pure p
get_loop (suc k) p = if p == null then pure null else do n ← load p; get_loop k n.next

unfoldable pub list_get : Lst → ℕ → Cmd Node Ptr
list_get l idx = if leb l.cnt idx then pure null else get_loop idx l.head

unfoldable pub list_remove : Lst → ℕ → Cmd Node Lst
list_remove l idx = do
  p ← list_get l idx
  n ← load p
  set_next n.prev n.next
  set_prev n.next n.prev
  kfree p
  pure (record {
    head = if p == l.head then n.next else l.head;
    tail = if p == l.tail then n.prev else l.tail;
    cnt = dec l.cnt;
  })

-- The first statement of `list_insert`, which goes on in either case.
unfoldable pub insert_end : (fresh : Ptr) → Lst → ℕ → ℕ → Cmd Node Lst
insert_end fresh l v idx =
    if idx == l.cnt then (do (_, l') ← list_push_back fresh l v; pure l') else pure l

-- `fresh` is the node of `list_push_back`, `new` the node that `list_insert` allocates itself.
unfoldable pub list_insert : (fresh new : Ptr) → Lst → ℕ → ℕ → Cmd Node Lst
list_insert fresh new l v idx = do
  l' ← insert_end fresh l v idx
  alloc new (node null null 0)
  p ← list_get l' idx
  n ← load p
  set_next n.prev new
  store new (node n.prev p v)
  n' ← load p
  store p (record n' { prev = new })
  pure (if n.prev == null then record l' { head = new } else l')

-- The `cnt` calls of `list_pop_back`, the count read before the first; then the list is freed.
unfoldable pub destroy_loop : ℕ → Lst → Cmd Node Lst
destroy_loop zero l = pure l
destroy_loop (suc k) l = do (_, l') ← list_pop_back l; destroy_loop k l'

unfoldable pub list_destroy : Lst → Cmd Node (Unit {0})
list_destroy l = do _ ← destroy_loop l.cnt l; pure tt
