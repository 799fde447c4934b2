-- ===== src/Ext2/Bitmap.antt =====
-- The search of a bitmap in fs/ext2/super.c `ext2_alloc_block`, and the byte it changes.
use kernel_old.Base.{
  ℕ, zero, suc, ◌+◌, ◌-◌, ◌*◌, ◌/◌, ◌%◌, ◌^◌, ◌≤◌, ◌<◌, bit_and, ◌≡◌, refl, sym, ap₂, subst, ◌∙◌,
  inl, inr, Bool, true, false, not, Option, none, some, arith, ltb, ◌==◌, ltb→lt, ==_iff,
  Bool-cases, set, every, every-holds,
}
use kernel_old.Ext2.{find_bit, find_byte}

-- Bit `n` of a bitmap is clear.
unfoldable pub free_bit : (ℕ → ℕ) → (n : ℕ) → Bool
free_bit buf n = bit_and (buf (n / 8)) (2 ^ (n % 8)) == 0

-- What the search of one byte gives.
BitFound : (byte k n : ℕ) → Option ℕ → Type 0
BitFound byte k n none = (m : ℕ) → k ≤ m → m < k + n → (bit_and byte (2 ^ m) == 0) ≡ false
BitFound byte k n (some f) =
    (k ≤ f)
    × (f < k + n)
    × ((bit_and byte (2 ^ f) == 0) ≡ true)
    × ((m : ℕ) → k ≤ m → m < f → (bit_and byte (2 ^ m) == 0) ≡ false)

set_from :
    (byte k m hi : ℕ)
    → (bit_and byte (2 ^ k) == 0) ≡ false
    → ((m : ℕ) → k + 1 ≤ m → m < hi → (bit_and byte (2 ^ m) == 0) ≡ false)
    → k ≤ m
    → m < hi
    → (bit_and byte (2 ^ m) == 0) ≡ false
set_from byte k m hi here later le lt = elim (Bool-cases (k == m)) [
  | inl same ↦ subst (λ i. (bit_and byte (2 ^ i) == 0) ≡ false) ((==_iff k m).0 same) here
  | inr other ↦ later m (ground (arith, le, other)) lt
]

find_bit-BitFound : (byte k n : ℕ) → BitFound byte k n (find_bit byte k n)
unfolding find_bit BitFound
find_bit-BitFound byte k zero = λ m le lt. absurd (omega (arith, le, lt))
find_bit-BitFound byte k (suc n) = elim (Bool-cases (bit_and byte (2 ^ k) == 0)) [
  | inl e ↦
      rw (e, find_bit) (omega arith, omega arith, e, λ m le lt. absurd (omega (arith, le, lt)))
  | inr e ↦
      rw (e, find_bit)
        (onward byte k n e (find_bit byte (k + 1) n) (find_bit-BitFound byte (k + 1) n))
]
  where
    onward :
        (byte k n : ℕ)
        → (bit_and byte (2 ^ k) == 0) ≡ false
        → (o : Option ℕ) → BitFound byte (k + 1) n o
        → BitFound byte k (suc n) o
    onward byte k n e none h = λ m le lt. set_from byte k m (k + 1 + n) e h le (omega (arith, lt))
    onward byte k n e (some f) (lo, hi, clear, h) =
        (omega (arith, lo), omega (arith, hi), clear, λ m le lt. set_from byte k m f e h le lt)

-- What the search of the bytes gives: the lowest bit that is clear, if any is.
unfoldable pub FirstFree : (buf : ℕ → ℕ) (j n : ℕ) → Option (ℕ × ℕ) → Type 0
FirstFree buf j n none = (m : ℕ) → j * 8 ≤ m → m < (j + n) * 8 → free_bit buf m ≡ false
FirstFree buf j n (some (f, k)) =
    (j ≤ f)
    × (f < j + n)
    × (k < 8)
    × (free_bit buf (f * 8 + k) ≡ true)
    × ((m : ℕ) → j * 8 ≤ m → m < f * 8 + k → free_bit buf m ≡ false)

full_byte : (k : ℕ) → k < 8 → (bit_and 255 (2 ^ k) == 0) ≡ false
unfolding every
full_byte k lt =
    not_true (bit_and 255 (2 ^ k) == 0)
      (every-holds (λ i. not (bit_and 255 (2 ^ i) == 0)) 8 k lt refl)
  where
    not_true : (b : Bool) → not b ≡ true → b ≡ false
    not_true true e = cc
    not_true false e = refl

-- Bits of a byte and of the bitmap.
bit_at : (buf : ℕ → ℕ) (j k : ℕ) → k < 8 → (bit_and (buf j) (2 ^ k) == 0) ≡ free_bit buf (j * 8 + k)
unfolding free_bit
bit_at buf j k lt =
    let e : j ≡ (j * 8 + k) / 8 = omega (arith, lt) in
    let e' : k ≡ (j * 8 + k) % 8 = omega (arith, lt) in
    ap₂ (λ (a b : ℕ). bit_and (buf a) (2 ^ b) == 0) e e'

-- The bits of byte `j` up to bit `k` are set.
byte_set :
    (buf : ℕ → ℕ) (j k : ℕ)
    → k ≤ 8
    → ((i : ℕ) → 0 ≤ i → i < k → (bit_and (buf j) (2 ^ i) == 0) ≡ false)
    → (m : ℕ) → j * 8 ≤ m
    → m < j * 8 + k
    → free_bit buf m ≡ false
byte_set buf j k le set m lo hi =
    let e : j * 8 + (m - j * 8) ≡ m = omega (arith, lo) in
    subst (λ n. free_bit buf n ≡ false) e
      (sym (bit_at buf j (m - j * 8) (omega (arith, lo, hi, le)))
        ∙ set (m - j * 8) (omega arith) (omega (arith, lo, hi)))

bits_from :
    (buf : ℕ → ℕ) (j m hi : ℕ)
    → ((i : ℕ) → 0 ≤ i → i < 8 → (bit_and (buf j) (2 ^ i) == 0) ≡ false)
    → ((m : ℕ) → (j + 1) * 8 ≤ m → m < hi → free_bit buf m ≡ false)
    → j * 8 ≤ m
    → m < hi
    → free_bit buf m ≡ false
bits_from buf j m hi set later lo lt = elim (Bool-cases (ltb m (j * 8 + 8))) [
  | inl near ↦ byte_set buf j 8 (omega arith) set m lo (ltb→lt m (j * 8 + 8) near)
  | inr far ↦ later m (ground (arith, far)) lt
]

next_byte :
    (buf : ℕ → ℕ) (j n : ℕ)
    → ((i : ℕ) → 0 ≤ i → i < 8 → (bit_and (buf j) (2 ^ i) == 0) ≡ false)
    → (o : Option (ℕ × ℕ)) → FirstFree buf (j + 1) n o
    → FirstFree buf j (suc n) o
unfolding FirstFree
next_byte buf j n set none h =
    λ m lo hi. bits_from buf j m ((j + suc n) * 8) set (λ i a b. h i a (omega (arith, b))) lo hi
next_byte buf j n set (some (f, k)) (lo, hi, small, clear, h) = (
  omega (arith, lo),
  omega (arith, hi),
  small,
  clear,
  λ m a b. bits_from buf j m (f * 8 + k) set h a b,
)

this_byte :
    (buf : ℕ → ℕ) (j n : ℕ) (o : Option ℕ) (next : Option (ℕ × ℕ))
    → BitFound (buf j) 0 8 o
    → FirstFree buf (j + 1) n next
    → FirstFree buf j (suc n) (elim o [ some k ↦ some (j, k) | none ↦ next ])
unfolding FirstFree BitFound
this_byte buf j n none next set h = next_byte buf j n set next h
this_byte buf j n (some k) next (lo, hi, clear, set) h = (
  omega arith,
  omega arith,
  hi,
  sym (bit_at buf j k hi) ∙ clear,
  λ m a b. byte_set buf j k (omega (arith, hi)) set m a b,
)

-- The search gives the lowest clear bit of the bytes searched, and nothing only if there is none.
pub find_byte-FirstFree : (buf : ℕ → ℕ) (j n : ℕ) → FirstFree buf j n (find_byte buf j n)
unfolding FirstFree find_byte
find_byte-FirstFree buf j zero = λ m lo hi. absurd (omega (arith, lo, hi))
find_byte-FirstFree buf j (suc n) = elim (Bool-cases (buf j == 255)) [
  | inl e ↦
      rw (e, find_byte)
        (next_byte buf j n (all_set ((==_iff (buf j) 255).0 e)) (find_byte buf (j + 1) n)
          (find_byte-FirstFree buf (j + 1) n))
  | inr e ↦
      rw (e, find_byte)
        (this_byte buf j n (find_bit (buf j) 0 8) (find_byte buf (j + 1) n)
          (find_bit-BitFound (buf j) 0 8) (find_byte-FirstFree buf (j + 1) n))
]
  where
    all_set : buf j ≡ 255 → (i : ℕ) → 0 ≤ i → i < 8 → (bit_and (buf j) (2 ^ i) == 0) ≡ false
    all_set e i lo lt = subst (λ b. (bit_and b (2 ^ i) == 0) ≡ false) (sym e) (full_byte i lt)
