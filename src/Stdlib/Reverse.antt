-- ===== src/Stdlib/Reverse.antt =====
-- strrev of util/stdlib.c: the swaps reverse the string in place.
use kernel_old.Base.{
  ltb→lt, ◌==◌, sym, ◌≤◌, ◌∙◌, ℕ, zero, suc, ◌+◌, ◌-◌, ◌*◌, ◌<◌, ◌≡◌, inl, inr, ◌&&◌, some, List,
  arith, ltb, leb, if◌then◌else◌, Bool-cases, length,
}
use kernel_old.Stdlib.{swap_bytes, Mem, strrev_loop, strrev}
use kernel_old.Stdlib.Strings.{IsStr, strlen_lem}
use kernel_old.Stdlib.Memory.{in_block}

-- What is at `a` when the bytes from `j` to `i` are mirrored.
abbrev mirrored : Mem → (str i j a : ℕ) → ℕ
mirrored m str i j a =
    if leb (str + j) a && leb a (str + i) then m (str + (i + j) - (a - str)) else m a

swap_bytes_lem :
    (m : Mem) (p q a : ℕ)
    → swap_bytes m p q a ≡ (if a == q then m p else if a == p then m q else m a)
unfolding swap_bytes
swap_bytes_lem m p q a = ground arith

mirrored-swap_bytes :
    (m : Mem) (str i j a : ℕ)
    → j < i
    → mirrored (swap_bytes m (str + i) (str + j)) str (i - 1) (j + 1) a ≡ mirrored m str i j a
mirrored-swap_bytes m str i j a h = ground (
  arith,
  swap_bytes_lem m (str + i) (str + j) a,
  swap_bytes_lem m (str + i) (str + j) (str + (i - 1 + (j + 1)) - (a - str)),
)

mirrored-end : (m : Mem) (str i j a : ℕ) → i ≤ j → mirrored m str i j a ≡ m a
mirrored-end m str i j a h = ground arith

-- From the ends `j` and `i` inwards each byte is swapped with its mirror image, and no other moves.
strrev_loop_lem :
    (m : Mem) (str i j fuel a : ℕ)
    → i < j + 2 * fuel + 1
    → strrev_loop m str i j fuel a ≡ mirrored m str i j a
unfolding strrev_loop
strrev_loop_lem m str i j zero a h = sym (mirrored-end m str i j a (omega arith))
strrev_loop_lem m str i j (suc fuel) a h = elim (Bool-cases (ltb j i)) [
  | inl more ↦ rw more (
      strrev_loop_lem (swap_bytes m (str + i) (str + j)) str (i - 1) (j + 1) fuel a (omega arith)
      ∙ mirrored-swap_bytes m str i j a (ltb→lt j i more))
  | inr done ↦ rw done (sym (mirrored-end m str i j a (ground arith)))
]

whole :
    (m : Mem) (str n a : ℕ)
    → mirrored m str (n - 1) 0 a ≡ (if in_block str n a then m (str + (n - 1 - (a - str))) else m a)
whole m str n a = ground arith

-- On enough fuel `strrev` ends, and leaves each byte of the string where its mirror image stood, and
-- all other memory as it was.
pub strrev_lem :
    (m : Mem) (str fuel : ℕ) (xs : List ℕ)
    → IsStr m str xs
    → length xs < fuel
    → (m' : Mem) × (strrev fuel m str ≡ some m')
      × ((a : ℕ)
          → m' a
            ≡ (if in_block str (length xs) a then m (str + (length xs - 1 - (a - str))) else m a))
unfolding strrev
strrev_lem m str fuel xs h f = (
  strrev_loop m str (length xs - 1) 0 (length xs),
  rw (strlen_lem m str fuel xs h f, strrev),
  (λ a.
      strrev_loop_lem m str (length xs - 1) 0 (length xs) a (omega arith)
      ∙ whole m str (length xs) a),
)
