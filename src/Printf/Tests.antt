-- ===== src/Printf/Tests.antt =====
-- Runs of formatted output, and its theorem at a concrete format.
use kernel_old.Base.{◌^◌, ◌<◌, ◌≡◌, refl, none, some, List, [], ◌∷◌, arith}
use kernel_old.Stdlib.{negsuc, itoa, digits_loop, abs}
use kernel_old.Printf.{Text, int_arg, vsnprintf, directive}
use kernel_old.Printf.Pieces.{
  decimal, Piece, literal, percent, text, hex, format_of, args_of, Prints, vsnprintf-Prints,
}

twelve : abs (negsuc 11) < 2 ^ 31
unfolding abs
twelve = omega arith

-- `a%x%%%d%s`
abbrev pieces : List Piece
pieces =
    literal b'a' refl
    ∷ hex 255 (omega arith)
    ∷ percent
    ∷ decimal (negsuc 11) twelve
    ∷ text (b'b' ∷ b'c' ∷ [])
    ∷ []

vsnprintf-Prints_example :
    (out : Text) × (vsnprintf 65 (format_of pieces) (args_of pieces) ≡ some out) × Prints pieces out
vsnprintf-Prints_example = vsnprintf-Prints pieces

-- `%d` of -12
negative :
    vsnprintf 33 (b'%' ∷ b'd' ∷ []) (int_arg (negsuc 11) ∷ []) ≡ some (b'-' ∷ b'1' ∷ b'2' ∷ [])
unfolding vsnprintf directive itoa digits_loop abs
negative = refl

-- A format that ends in `%` is read past its end.
ends_in_percent : vsnprintf 33 (b'%' ∷ []) [] ≡ none
unfolding vsnprintf
ends_in_percent = refl
