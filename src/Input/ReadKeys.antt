-- ===== src/Input/ReadKeys.antt =====
-- What `kb_read` leaves in the buffer.
use kernel_old.Base.{
  ℕ, zero, suc, ◌+◌, ◌-◌, ◌%◌, ◌^◌, ◌<◌, min, ◌≡◌, refl, ap, subst, ◌∙◌, ◌≢◌, arith,
}
use kernel_old.Input.{KeyQueue, kb_get_key, store_uint32, kb_read}

store_uint32_below : (ptr v : ℕ) (m : ℕ → ℕ) (p : ℕ) → p < ptr → store_uint32 ptr v m p ≡ m p
unfolding store_uint32
store_uint32_below ptr v m p lt = ground (arith, lt)

store_uint32_low : (ptr v : ℕ) (m : ℕ → ℕ) → store_uint32 ptr v m ptr ≡ v % 2 ^ 8
unfolding store_uint32
store_uint32_low ptr v m = ground arith

-- The bytes before the buffer stay.
kb_read_below :
    (ptr size : ℕ) (keys : ℕ → ℕ) (n : ℕ) (m : ℕ → ℕ) (p : ℕ)
    → p < ptr
    → (kb_read ptr size (record { keys = keys; queued = n }) m).2 p ≡ m p
unfolding kb_read kb_get_key
kb_read_below ptr zero keys n m p lt = refl
kb_read_below ptr (suc size) keys zero m p lt = refl
kb_read_below ptr (suc size) keys (suc n) m p lt =
    kb_read_below (ptr + 1) size keys n (store_uint32 ptr (keys n) m) p (omega (arith, lt))
    ∙ store_uint32_below ptr (keys n) m p lt

-- The count, the queue, and each byte that was read.
abbrev pub Read : (size : ℕ) (q : KeyQueue) (ptr : ℕ) → ℕ × KeyQueue × (ℕ → ℕ) → Type 0
Read size q ptr r = (r.0 ≡ min size q.queued) × (r.1.queued + r.0 ≡ q.queued) × (r.1.keys ≡ q.keys)

kb_read_counts :
    (ptr size : ℕ) (keys : ℕ → ℕ) (n : ℕ) (m : ℕ → ℕ)
    → Read size
        (record { keys = keys; queued = n })
        ptr
        (kb_read ptr size (record { keys = keys; queued = n }) m)
unfolding kb_read kb_get_key
kb_read_counts ptr zero keys n m = (ground arith, omega arith, refl)
kb_read_counts ptr (suc size) keys zero m = (ground arith, refl, refl)
kb_read_counts ptr (suc size) keys (suc n) m =
    let ih = kb_read_counts (ptr + 1) size keys n (store_uint32 ptr (keys n) m) in
    (ground (arith, ih.0), omega (arith, ih.1), ih.2)

kb_read_bytes :
    (ptr size : ℕ) (keys : ℕ → ℕ) (n : ℕ) (m : ℕ → ℕ) (i : ℕ)
    → i < size
    → i < n
    → (kb_read ptr size (record { keys = keys; queued = n }) m).2 (ptr + i)
      ≡ keys (n - 1 - i) % 2 ^ 8
unfolding kb_read kb_get_key
kb_read_bytes ptr zero keys n m i lt lt' = absurd (omega (arith, lt))
kb_read_bytes ptr (suc size) keys zero m i lt lt' = absurd (omega (arith, lt'))
kb_read_bytes ptr (suc size) keys (suc n) m zero lt lt' =
    let m' =
      (kb_read (ptr + 1) size (record { keys = keys; queued = n })
        (store_uint32 ptr (keys n) m)).2 in
    let here : ptr + 0 ≡ ptr = omega arith in
    let last : n ≡ suc n - 1 - 0 = omega arith in
    ap m' here
    ∙ kb_read_below (ptr + 1) size keys n (store_uint32 ptr (keys n) m) ptr (omega arith)
    ∙ store_uint32_low ptr (keys n) m
    ∙ ap (λ x. keys x % 2 ^ 8) last
kb_read_bytes ptr (suc size) keys (suc n) m (suc i) lt lt' =
    let m' =
      (kb_read (ptr + 1) size (record { keys = keys; queued = n })
        (store_uint32 ptr (keys n) m)).2 in
    let there : ptr + suc i ≡ ptr + 1 + i = omega arith in
    let index : n - 1 - i ≡ suc n - 1 - suc i = omega arith in
    ap m' there
    ∙ kb_read_bytes (ptr + 1) size keys n (store_uint32 ptr (keys n) m) i (omega (arith, lt))
        (omega (arith, lt'))
    ∙ ap (λ x. keys x % 2 ^ 8) index

-- Reading takes as many keys as the buffer and the queue allow, the last key first, one byte each.
pub kb_read_lem :
    (ptr size : ℕ) (q : KeyQueue) (m : ℕ → ℕ) (i : ℕ)
    → i < min size q.queued
    → Read size q ptr (kb_read ptr size q m)
      × ((kb_read ptr size q m).2 (ptr + i) ≡ q.keys (q.queued - 1 - i) % 2 ^ 8)
kb_read_lem ptr size q m i lt = (
  kb_read_counts ptr size q.keys q.queued m,
  kb_read_bytes ptr size q.keys q.queued m i (omega (arith, lt)) (omega (arith, lt)),
)

store_uint32_high :
    (ptr v : ℕ) (m : ℕ → ℕ) (k : ℕ) → v < 2 ^ 8 → k < 3 → store_uint32 ptr v m (ptr + 1 + k) ≡ 0
unfolding store_uint32
store_uint32_high ptr v m k small lt = ground (arith, small, lt)

-- A read of one key for a buffer of one byte writes the three bytes past it as well.
pub kb_read-overrun :
    (ptr : ℕ) (q : KeyQueue) (m : ℕ → ℕ) (k : ℕ)
    → k < 3
    → q.queued ≢ 0
    → q.keys (q.queued - 1) < 2 ^ 8
    → (kb_read ptr 1 q m).2 (ptr + 1 + k) ≡ 0
unfolding kb_read kb_get_key store_uint32
kb_read-overrun ptr q m k lt some_key byte = go q.keys q.queued some_key byte
  where
    go :
        (keys : ℕ → ℕ) (n : ℕ)
        → n ≢ 0
        → keys (n - 1) < 2 ^ 8
        → (kb_read ptr 1 (record { keys = keys; queued = n }) m).2 (ptr + 1 + k) ≡ 0
    go keys zero ne byte = absurd (ne refl)
    go keys (suc n) ne byte =
        let last : suc n - 1 ≡ n = omega arith in
        store_uint32_high ptr (keys n) m k (subst (λ x. keys x < 2 ^ 8) last byte) lt
