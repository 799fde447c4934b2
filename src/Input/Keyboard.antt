-- ===== src/Input/Keyboard.antt =====
-- The keyboard's queue is a stack: what the interrupt handler stores, and what `kb_get_key` gives.
use kernel_old.Base.{
  update_ne, ℕ, zero, suc, ◌≤◌, ◌<◌, ◌≡◌, refl, ap₂, ◌⊎◌, inl, inr, Option, none, some, List, [],
  ◌∷◌, arith, ltb, ltb→lt, Bool-cases, update_self, update,
}
use kernel_old.Input.{queue_size, KeyQueue, kb_interrupt_handler, kb_get_key}

-- The keys in a queue, the last one first.
unfoldable pub stacked : (ℕ → ℕ) → ℕ → List ℕ
stacked keys zero = []
stacked keys (suc n) = keys n ∷ stacked keys n

unfoldable pub contents : KeyQueue → List ℕ
contents q = stacked q.keys q.queued

stacked-update : (keys : ℕ → ℕ) (n m k : ℕ) → n ≤ m → stacked (update keys m k) n ≡ stacked keys n
unfolding stacked
stacked-update keys zero m k le = refl
stacked-update keys (suc n) m k le =
    ap₂ (λ x l. x ∷ l) (update_ne keys m n k (omega (arith, le)))
      (stacked-update keys n m k (omega (arith, le)))

-- What an interrupt gives, by how many keys are queued.
pub Interrupted : (k : ℕ) (q : KeyQueue) → Option KeyQueue → Type 0
Interrupted k q none = q.queued ≡ queue_size
Interrupted k q (some q') =
    ((q.queued < queue_size) × (contents q' ≡ k ∷ contents q) × (q'.queued ≤ queue_size))
    ⊎ ((queue_size < q.queued) × (q' ≡ q))

-- The interrupt handler pushes its key while fewer than 512 are queued, stores outside the array
-- with 512, and does nothing with more.
pub kb_interrupt_handler_lem : (k : ℕ) (q : KeyQueue) → Interrupted k q (kb_interrupt_handler k q)
unfolding Interrupted kb_interrupt_handler contents stacked
kb_interrupt_handler_lem k q = elim (Bool-cases (ltb queue_size q.queued)) [
  | inl over ↦ rw (over, kb_interrupt_handler) (inr (ltb→lt queue_size q.queued over, refl))
  | inr not_over ↦ elim (Bool-cases (ltb q.queued queue_size)) [
    | inl room ↦
        let less = ltb→lt q.queued queue_size room in
        rw (not_over, room, kb_interrupt_handler)
          (inl (
            less,
            ap₂ (λ x l. x ∷ l) (update_self q.keys q.queued k)
                (stacked-update q.keys q.queued q.queued k (omega arith)),
            less,
          ))
    | inr no_room ↦ rw (not_over, no_room, kb_interrupt_handler) (ground (arith, not_over, no_room))
  ]
]

-- What a read gives: the last key and the queue without it, or nothing when it is empty.
pub Got : KeyQueue → Option (ℕ × KeyQueue) → Type 0
Got q none = contents q ≡ []
Got q (some (k, q')) = contents q ≡ k ∷ contents q'

-- `kb_get_key` takes the last key that was pushed, and gives nothing exactly from an empty queue.
pub kb_get_key_lem : (q : KeyQueue) → Got q (kb_get_key q)
unfolding Got kb_get_key contents stacked
kb_get_key_lem q = go q.keys q.queued
  where
    go :
        (keys : ℕ → ℕ) (n : ℕ)
        → Got (record { keys = keys; queued = n }) (kb_get_key (record { keys = keys; queued = n }))
    go keys zero = refl
    go keys (suc n) = refl
