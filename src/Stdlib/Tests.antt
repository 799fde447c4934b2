-- ===== src/Stdlib/Tests.antt =====
-- The theorems on util/stdlib.c at concrete memories.
use kernel_old.Base.{ℕ, refl, List, [], ◌∷◌, arith, ◌==◌, if◌then◌else◌}
use kernel_old.Stdlib.{Mem}
use kernel_old.Stdlib.Strings.{IsStr}

-- "abc" at 10 and again at 20.
abbrev mem : Mem
mem a =
    if a == 10
    then 97
    else if a == 11
    then 98
    else if a == 12
    then 99
    else if a == 20
    then 97
    else if a == 21
    then 98
    else if a == 22
    then 99
    else 0

abbrev abc : List ℕ
abc = 97 ∷ 98 ∷ 99 ∷ []

abc-IsStr : IsStr mem 10 abc
abc-IsStr = (
  refl,
  (ground arith),
  (omega arith),
  (refl, (ground arith), (omega arith), (refl, (ground arith), (omega arith), refl)),
)

abc-IsStr' : IsStr mem 20 abc
abc-IsStr' = (
  refl,
  (ground arith),
  (omega arith),
  (refl, (ground arith), (omega arith), (refl, (ground arith), (omega arith), refl)),
)
