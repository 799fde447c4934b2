-- ===== src/Stdlib.antt =====
-- util/stdlib.c and util/math.c: memory blocks, strings and numerals. Memory is a function from
-- addresses to bytes; a loop that stops at a NUL takes fuel, and `none` means that it ran out.
pub mod Memory
pub mod Strings
pub mod Reverse
pub mod Numerals
mod Tests
use mathlib.Core.Option
use mathlib.Core.List.{reverse}
use kernel_old.Base.{
  ℕ, zero, suc, ◌+◌, ◌-◌, ◌*◌, ◌/◌, ◌%◌, ◌^◌, ◌≤◌, ◌<◌, min, bit_and, bit_or, bit_xor, ◌≡◌, refl,
  sym, ap, ap₂, ◌∙◌, ◌≢◌, ◌↔◌, ◌⊎◌, inl, inr, Bool, true, false, not, ◌&&◌, ◌||◌, Option, none,
  some, List, [], ◌∷◌, ◌++◌, map, arith, ltb, leb, ◌==◌, if◌then◌else◌, ltb→lt, lt→ltb, leb→le,
  ==_iff, ==_refl, Bool-cases, Option-cases, length, get_elem?, set, length-append, update,
}

abbrev pub Mem : Type 0
Mem = ℕ → ℕ

-- `negsuc n` is -(n + 1).
pub data ℤ : Type 0 where
  pos : ℕ → ℤ
  negsuc : ℕ → ℤ

abbrev pub sub_ℕ : ℕ → ℕ → ℤ
sub_ℕ a b = if leb b a then pos (a - b) else negsuc (b - a - 1)

-- `a - b` on two `char`s, which are signed: a byte from 128 on stands for 256 less.
abbrev pub char_sub : ℕ → ℕ → ℤ
char_sub a b = sub_ℕ (a + (if leb 128 b then 256 else 0)) (b + (if leb 128 a then 256 else 0))

-- The loops over `i` take the count left.
unfoldable pub memcmp_loop : Mem → (s1 s2 i rounds : ℕ) → ℤ
memcmp_loop m s1 s2 i zero = pos 0
memcmp_loop m s1 s2 i (suc n) =
    let rest = memcmp_loop m s1 s2 (i + 1) n in
    if ltb (m (s1 + i)) (m (s2 + i))
    then negsuc 0
    else if ltb (m (s2 + i)) (m (s1 + i))
    then pos 1
    else rest

unfoldable pub memcmp : Mem → (s1 s2 n : ℕ) → ℤ
memcmp m s1 s2 n = memcmp_loop m s1 s2 0 n

unfoldable pub copy_loop : Mem → (dst src i rounds : ℕ) → Mem
copy_loop m dst src i zero = m
copy_loop m dst src i (suc n) = copy_loop (update m (dst + i) (m (src + i))) dst src (i + 1) n

unfoldable pub memcpy : Mem → (dst src n : ℕ) → Mem
memcpy m dst src n = copy_loop m dst src 0 n

-- The same loop as `memcpy`, whichever way the blocks overlap.
unfoldable pub memmove : Mem → (dst src n : ℕ) → Mem
memmove m dst src n = copy_loop m dst src 0 n

unfoldable pub fill_loop : Mem → (dst c i rounds : ℕ) → Mem
fill_loop m dst c i zero = m
fill_loop m dst c i (suc n) = fill_loop (update m (dst + i) c) dst c (i + 1) n

unfoldable pub memset : Mem → (dst c n : ℕ) → Mem
memset m dst c n = fill_loop m dst (c % 256) 0 n

unfoldable pub strlen_loop : Mem → (str s fuel : ℕ) → Option ℕ
strlen_loop m str s zero = none
strlen_loop m str s (suc fuel) =
    let rest = strlen_loop m str (s + 1) fuel in if m (str + s) == 0 then some s else rest

unfoldable pub strlen : (fuel : ℕ) → Mem → ℕ → Option ℕ
strlen fuel m str = strlen_loop m str 0 fuel

-- The comparison loop of `strcmp` and `strncmp`.
unfoldable pub differ_loop : Mem → (str1 str2 i rounds : ℕ) → ℤ
differ_loop m str1 str2 i zero = pos 0
differ_loop m str1 str2 i (suc n) =
    let rest = differ_loop m str1 str2 (i + 1) n in
    if m (str1 + i) == m (str2 + i) then rest else char_sub (m (str1 + i)) (m (str2 + i))

unfoldable pub compare_lengths : Mem → (str1 str2 len1 len2 : ℕ) → ℤ
compare_lengths m str1 str2 len1 len2 =
    let len = if ltb len1 len2 then len1 else len2 in
    if (len == 0) || not (len1 == len2) then pos 1 else differ_loop m str1 str2 0 len

unfoldable pub strcmp : (fuel : ℕ) → Mem → (str1 str2 : ℕ) → Option ℤ
strcmp fuel m str1 str2 = elim (strlen fuel m str1) [
  | none ↦ none
  | some len1 ↦ elim (strlen fuel m str2) [
    | none ↦ none
    | some len2 ↦ some (compare_lengths m str1 str2 len1 len2)
  ]
]

-- It does not stop at a NUL.
unfoldable pub strncmp : Mem → (str1 str2 n : ℕ) → ℤ
strncmp m str1 str2 n = differ_loop m str1 str2 0 n

unfoldable pub strncpy_loop : Mem → (dst src i rounds : ℕ) → Mem
strncpy_loop m dst src i zero = m
strncpy_loop m dst src i (suc n) =
    let rest = strncpy_loop (update m (dst + i) (m (src + i))) dst src (i + 1) n in
    if m (src + i) == 0 then m else rest

unfoldable pub strncpy : Mem → (dst src n : ℕ) → Mem
strncpy m dst src n = strncpy_loop m dst src 0 n

unfoldable pub strcpy : (fuel : ℕ) → Mem → (dst src : ℕ) → Option Mem
strcpy fuel m dst src = elim (strlen fuel m src) [
  | none ↦ none
  | some len ↦ some (update (strncpy m dst src len) (dst + len) 0)
]

-- `c = str[i]; str[i] = str[j]; str[j] = c;`
unfoldable pub swap_bytes : Mem → (p q : ℕ) → Mem
swap_bytes m p q = update (update m p (m q)) q (m p)

-- The loop of `strrev`; `i` falls and `j` rises until they meet, in at most `j` to `i` rounds.
unfoldable pub strrev_loop : Mem → (str i j fuel : ℕ) → Mem
strrev_loop m str i j zero = m
strrev_loop m str i j (suc fuel) =
    let rest = strrev_loop (swap_bytes m (str + i) (str + j)) str (i - 1) (j + 1) fuel in
    if ltb j i then rest else m

unfoldable pub strrev : (fuel : ℕ) → Mem → ℕ → Option Mem
strrev fuel m str = elim (strlen fuel m str) [
  | none ↦ none
  | some len ↦ some (strrev_loop m str (len - 1) 0 len)
]

-- `r >= 10 ? 65 + (r - 10) : 48 + r`
abbrev pub digit : ℕ → ℕ
digit r = if leb 10 r then 65 + (r - 10) else 48 + r

-- The characters that `while (n)` writes, in the order of writing.
unfoldable pub digits_loop : (fuel n base : ℕ) → Option (List ℕ)
digits_loop zero n base = none
digits_loop (suc fuel) n base =
    let rest = Option.map (λ ds. digit (n % base) ∷ ds) (digits_loop fuel (n / base) base) in
    if n == 0 then some [] else rest

abbrev pub or_zero : List ℕ → List ℕ
or_zero [] = b'0' ∷ []
or_zero (d ∷ ds) = d ∷ ds

-- The text that `ultoa` leaves in its buffer, or nothing where it returns the buffer as it was; the
-- buffer is written in order and then reversed by `strrev`.
unfoldable pub ultoa : (fuel n base : ℕ) → Option (Option (List ℕ))
ultoa fuel n base =
    if ltb base 2 || ltb 32 base
    then some none
    else Option.map (λ ds. some (reverse (or_zero ds))) (digits_loop fuel n base)

unfoldable pub abs : ℤ → ℕ
abs (pos n) = n
abs (negsuc n) = n + 1

abbrev pub is_negative : ℤ → Bool
is_negative (pos n) = false
is_negative (negsuc n) = true

-- `itoa`, at a value whose negation is an `int`.
unfoldable pub itoa : (fuel : ℕ) → ℤ → (base : ℕ) → Option (Option (List ℕ))
itoa fuel value base =
    if ltb base 2 || ltb 32 base
    then some none
    else Option.map
        (λ ds.
          some
            (reverse (or_zero ds ++ (if is_negative value && (base == 10) then b'-' ∷ [] else []))))
        (digits_loop fuel (abs value) base)
