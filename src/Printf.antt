-- ===== src/Printf.antt =====
-- Formatted output: `vsnprintf` of util/printf.c. A text is the list of its bytes without the NUL,
-- and the arguments are those that `va_arg` gives. `none` is a fault: an argument of another type,
-- or a format that ends in `%`, behind whose NUL the loop goes on.
pub mod Pieces
mod Tests
use kernel_old.Base.{
  ℕ, zero, suc, ◌+◌, ◌-◌, ◌*◌, ◌/◌, ◌%◌, ◌^◌, ◌≤◌, ◌<◌, min, bit_and, bit_or, bit_xor, ◌≡◌, refl,
  sym, ap, ap₂, subst, ◌∙◌, ◌≢◌, ◌↔◌, ◌⊎◌, inl, inr, Bool, true, false, not, ◌&&◌, ◌||◌, Option,
  none, some, List, [], ◌∷◌, ◌++◌, map, arith, ltb, leb, ◌==◌, if◌then◌else◌, ltb→lt, lt→ltb,
  leb→le, ==_iff, ==_refl, Bool-cases, Option-cases, length, get_elem?, set, length-append,
  append_assoc, update_self, update, every, every-holds,
}
use kernel_old.Stdlib.{ℤ, pos, negsuc, itoa, ultoa}

abbrev pub Text : Type 0
Text = List ℕ

pub data Arg : Type 0 where
  int_arg : ℤ → Arg
  text_arg : Text → Arg
  ulong_arg : ℕ → Arg

-- The buffer, where the number routine has written to it, with the arguments left.
abbrev pub written : Option (Option Text) → List Arg → Option (Text × List Arg)
written (some (some t)) args = some (t, args)
written _ args = none

-- An `int` stored as a `char`
abbrev pub low_byte : ℤ → ℕ
low_byte (pos n) = n % 2 ^ 8
low_byte (negsuc n) = 2 ^ 8 - 1 - n % 2 ^ 8

abbrev pub put_char : List Arg → Option (Text × List Arg)
put_char (int_arg v ∷ args) = some (low_byte v ∷ [], args)
put_char _ = none

abbrev pub put_int : (fuel : ℕ) → List Arg → Option (Text × List Arg)
put_int fuel (int_arg v ∷ args) = written (itoa fuel v 10) args
put_int fuel _ = none

abbrev pub put_text : List Arg → Option (Text × List Arg)
put_text (text_arg t ∷ args) = some (t, args)
put_text _ = none

abbrev pub put_ulong : (fuel base : ℕ) → List Arg → Option (Text × List Arg)
put_ulong fuel base (ulong_arg n ∷ args) = written (ultoa fuel n base) args
put_ulong fuel base _ = none

-- The `switch` on the byte after `%`; one that is not listed prints nothing.
unfoldable pub directive : (fuel : ℕ) → (d : ℕ) → List Arg → Option (Text × List Arg)
directive fuel d args =
    if d == b'%'
    then some (b'%' ∷ [], args)
    else if d == b'c'
    then put_char args
    else if (d == b'i') || (d == b'd')
    then put_int fuel args
    else if d == b's'
    then put_text args
    else if d == b'x'
    then put_ulong fuel 16 args
    else if d == b'l'
    then put_ulong fuel 10 args
    else some ([], args)

abbrev pub behind : Text → Option Text → Option Text
behind t none = none
behind t (some u) = some (t ++ u)

-- The text that `vsnprintf` stores; it returns its length. The number routines take the fuel.
unfoldable pub vsnprintf : (fuel : ℕ) → (format : Text) → List Arg → Option Text
vsnprintf fuel [] args = some []
vsnprintf fuel (c ∷ []) args = if c == b'%' then none else some (c ∷ [])
vsnprintf fuel (c ∷ d ∷ format) args =
    let plain = behind (c ∷ []) (vsnprintf fuel (d ∷ format) args) in
    let put : Option Text = elim (directive fuel d args) [
      | none ↦ none
      | some (t, args') ↦ behind t (vsnprintf fuel format args')
    ] in
    if c == b'%' then put else plain
