-- ===== src/Printf/Pieces.antt =====
-- What `vsnprintf` of util/printf.c prints for a format made of pieces.
use kernel_old.Base.{
  ◌+◌, ℕ, ◌^◌, ◌<◌, ◌≡◌, refl, sym, ap, subst, ◌∙◌, false, some, List, [], ◌∷◌, ◌++◌, arith, ◌==◌,
}
use mathlib.Core.List.{reverse}
use kernel_old.Stdlib.{ℤ, pos, negsuc, abs, itoa, ultoa, or_zero}
use kernel_old.Stdlib.Numerals.{Spelled, ultoa-Spelled, digits_loop-number, or_zero-Spelled}
use mathlib.Core.List.{reverse-reverse, reverse-append, append-nil}
use kernel_old.Printf.{
  Text, Arg, int_arg, text_arg, ulong_arg, written, low_byte, directive, behind, vsnprintf,
}

-- A byte other than `%`, and the conversions.
pub data Piece : Type 0 where
  literal : (c : ℕ) → (c == b'%') ≡ false → Piece
  percent : Piece
  char : ℤ → Piece
  decimal : (v : ℤ) → abs v < 2 ^ 31 → Piece
  text : Text → Piece
  hex : (n : ℕ) → n < 2 ^ 64 → Piece
  long : (n : ℕ) → n < 2 ^ 64 → Piece

unfoldable pub format_of : List Piece → Text
format_of [] = []
format_of (literal c e ∷ ps) = c ∷ format_of ps
format_of (percent ∷ ps) = b'%' ∷ b'%' ∷ format_of ps
format_of (char v ∷ ps) = b'%' ∷ b'c' ∷ format_of ps
format_of (decimal v lt ∷ ps) = b'%' ∷ b'd' ∷ format_of ps
format_of (text t ∷ ps) = b'%' ∷ b's' ∷ format_of ps
format_of (hex n lt ∷ ps) = b'%' ∷ b'x' ∷ format_of ps
format_of (long n lt ∷ ps) = b'%' ∷ b'l' ∷ format_of ps

unfoldable pub args_of : List Piece → List Arg
args_of [] = []
args_of (literal c e ∷ ps) = args_of ps
args_of (percent ∷ ps) = args_of ps
args_of (char v ∷ ps) = int_arg v ∷ args_of ps
args_of (decimal v lt ∷ ps) = int_arg v ∷ args_of ps
args_of (text t ∷ ps) = text_arg t ∷ args_of ps
args_of (hex n lt ∷ ps) = ulong_arg n ∷ args_of ps
args_of (long n lt ∷ ps) = ulong_arg n ∷ args_of ps

-- A numeral of `n`: one digit of the base or more, which stand for it.
pub Numeral : (base n : ℕ) → Text → Type 0
Numeral base n u = Spelled base n (reverse u)

-- A decimal numeral, with a sign where the number is negative.
pub Decimal : ℤ → Text → Type 0
Decimal (pos n) u = Numeral 10 n u
Decimal (negsuc n) u = (w : Text) × (u ≡ b'-' ∷ w) × Numeral 10 (n + 1) w

-- The texts that a list of pieces stands for; a numeral is read from its last digit back.
pub data Prints : List Piece → Text → Type 0 where
  done : Prints [] []
  as_literal :
      (c : ℕ) (e : (c == b'%') ≡ false) {ps : List Piece} {t : Text}
      → Prints ps t
      → Prints (literal c e ∷ ps) (c ∷ t)
  as_percent : {ps : List Piece} {t : Text} → Prints ps t → Prints (percent ∷ ps) (b'%' ∷ t)
  as_char :
      (v : ℤ) {ps : List Piece} {t : Text} → Prints ps t → Prints (char v ∷ ps) (low_byte v ∷ t)
  as_decimal :
      (v : ℤ) (lt : abs v < 2 ^ 31) (u : Text) {ps : List Piece} {t : Text}
      → Decimal v u
      → Prints ps t
      → Prints (decimal v lt ∷ ps) (u ++ t)
  as_text : (u : Text) {ps : List Piece} {t : Text} → Prints ps t → Prints (text u ∷ ps) (u ++ t)
  as_hex :
      (n : ℕ) (lt : n < 2 ^ 64) (u : Text) {ps : List Piece} {t : Text}
      → Numeral 16 n u
      → Prints ps t
      → Prints (hex n lt ∷ ps) (u ++ t)
  as_long :
      (n : ℕ) (lt : n < 2 ^ 64) (u : Text) {ps : List Piece} {t : Text}
      → Numeral 10 n u
      → Prints ps t
      → Prints (long n lt ∷ ps) (u ++ t)

literal_step :
    (fuel c : ℕ) (format : Text) (args : List Arg)
    → (c == b'%') ≡ false
    → vsnprintf fuel (c ∷ format) args ≡ behind (c ∷ []) (vsnprintf fuel format args)
unfolding vsnprintf
literal_step fuel c [] args e = rw (e, vsnprintf) refl
literal_step fuel c (d ∷ format) args e = rw (e, vsnprintf) refl

ulong_step :
    (fuel base n : ℕ) (d : ℕ) (format : Text) (args : List Arg) (u : Text)
    → directive fuel d (ulong_arg n ∷ args) ≡ written (ultoa fuel n base) args
    → ultoa fuel n base ≡ some (some u)
    → vsnprintf fuel (b'%' ∷ d ∷ format) (ulong_arg n ∷ args)
      ≡ behind u (vsnprintf fuel format args)
unfolding vsnprintf
ulong_step fuel base n d format args u e found = rw (e, found) refl

itoa-Decimal : (v : ℤ) → abs v < 2 ^ 31 → (u : Text) × (itoa 65 v 10 ≡ some (some u)) × Decimal v u
unfolding itoa Decimal Numeral abs
itoa-Decimal (pos n) lt =
    let (ds, e, value) =
      digits_loop-number 64 n 10 (omega arith) (omega arith) (omega (arith, lt)) in
    let back : reverse (reverse (or_zero ds ++ [])) ≡ or_zero ds =
      reverse-reverse (or_zero ds ++ []) ∙ append-nil (or_zero ds) in
    (
      reverse (or_zero ds ++ []),
      rw (itoa, e) refl,
      subst (Spelled 10 n) (sym back)
          (or_zero-Spelled 64 10 n ds (omega arith) (omega arith) e value),
    )
itoa-Decimal (negsuc n) lt =
    let (ds, e, value) =
      digits_loop-number 64 (n + 1) 10 (omega arith) (omega arith) (omega (arith, lt)) in
    (
      reverse (or_zero ds ++ (b'-' ∷ [])),
      rw (itoa, e) refl,
      (
        reverse (or_zero ds),
        reverse-append (or_zero ds) (b'-' ∷ []),
        subst (Spelled 10 (n + 1)) (sym (reverse-reverse (or_zero ds)))
            (or_zero-Spelled 64 10 (n + 1) ds (omega arith) (omega arith) e value),
      ),
    )

int_step :
    (fuel : ℕ) (v : ℤ) (format : Text) (args : List Arg) (u : Text)
    → itoa fuel v 10 ≡ some (some u)
    → vsnprintf fuel (b'%' ∷ b'd' ∷ format) (int_arg v ∷ args)
      ≡ behind u (vsnprintf fuel format args)
unfolding vsnprintf directive
int_step fuel v format args u found = rw (found) refl

-- `vsnprintf` on a format of pieces and their arguments prints a text that the pieces stand for:
-- bytes as they are, characters, texts, the decimal numerals of integers whose size is below
-- `2 ^ 31`, and the decimal or hexadecimal ones of numbers below `2 ^ 64`. A numeral has at least one
-- digit, all its bytes are digits of the base, from `0` to `9` and from `A` on, and they stand for
-- the number; the decimal one of a negative number follows a minus sign.
pub vsnprintf-Prints :
    (ps : List Piece)
    → (out : Text) × (vsnprintf 65 (format_of ps) (args_of ps) ≡ some out) × Prints ps out
unfolding format_of args_of vsnprintf directive Numeral
vsnprintf-Prints [] = ([], refl, done)
vsnprintf-Prints (literal c e ∷ ps) =
    let (t, h, p) = vsnprintf-Prints ps in
    let here = literal_step 65 c (format_of ps) (args_of ps) e in
    (c ∷ t, here ∙ ap (behind (c ∷ [])) h, as_literal c e p)
vsnprintf-Prints (percent ∷ ps) =
    let (t, h, p) = vsnprintf-Prints ps in (b'%' ∷ t, ap (behind (b'%' ∷ [])) h, as_percent p)
vsnprintf-Prints (char v ∷ ps) =
    let (t, h, p) = vsnprintf-Prints ps in
    (low_byte v ∷ t, ap (behind (low_byte v ∷ [])) h, as_char v p)
vsnprintf-Prints (decimal v lt ∷ ps) =
    let (t, h, p) = vsnprintf-Prints ps in
    let (u, found, value) = itoa-Decimal v lt in
    let here = int_step 65 v (format_of ps) (args_of ps) u found in
    (u ++ t, here ∙ ap (behind u) h, as_decimal v lt u value p)
vsnprintf-Prints (text u ∷ ps) =
    let (t, h, p) = vsnprintf-Prints ps in (u ++ t, ap (behind u) h, as_text u p)
vsnprintf-Prints (hex n lt ∷ ps) =
    let (t, h, p) = vsnprintf-Prints ps in
    let (u, found, value) = ultoa-Spelled 64 n 16 (omega arith) (omega arith) lt in
    let here = ulong_step 65 16 n b'x' (format_of ps) (args_of ps) u refl found in
    (u ++ t, here ∙ ap (behind u) h, as_hex n lt u value p)
vsnprintf-Prints (long n lt ∷ ps) =
    let (t, h, p) = vsnprintf-Prints ps in
    let (u, found, value) = ultoa-Spelled 64 n 10 (omega arith) (omega arith) lt in
    let here = ulong_step 65 10 n b'l' (format_of ps) (args_of ps) u refl found in
    (u ++ t, here ∙ ap (behind u) h, as_long n lt u value p)
