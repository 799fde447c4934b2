-- ===== src/Exec/Tests.antt =====
-- The start of a small program, and the theorems at concrete inputs.
use kernel_old.Base.{
  ℕ, ◌+◌, ◌-◌, ◌*◌, ◌≤◌, ◌≡◌, refl, Option, none, some, List, [], ◌∷◌, arith, ltb, if◌then◌else◌,
}
use kernel_old.Vfs.{Text}
use kernel_old.Vfs.Mount.{vfs_stat}
use kernel_old.Exec.{vfs_stat, Stack, prepstack, execve_args, take_args}
use kernel_old.Exec.Arguments.{text_bytes, ArgsAt, prepstack-ArgsAt}
use kernel_old.Exec.Counting.{Called, execve_args-Counted}

abbrev fresh : Stack
fresh = record { sp = 0x5000; mem = λ _. 0 }

-- `/a`, with the arguments `bc` and the empty text.
abbrev path : Text
path = 47 ∷ 97 ∷ []

abbrev args : List Text
args = (98 ∷ 99 ∷ []) ∷ [] ∷ []

prepstack-ArgsAt_example :
    ((prepstack fresh path args).sp + (text_bytes (path ∷ args) + 8 * 3) ≡ 0x5000)
    × ArgsAt (prepstack fresh path args).mem (prepstack fresh path args).sp (path ∷ args)
    × ((x : ℕ) → 0x5000 ≤ x → (prepstack fresh path args).mem x ≡ 0)
unfolding text_bytes
prepstack-ArgsAt_example = prepstack-ArgsAt fresh path args (omega arith) (omega arith)

-- The texts take 7 bytes, so the stack pointer is left at an odd address.
odd_pointer : (prepstack fresh path args).sp ≡ 0x5000 - 7 - 24
unfolding text_bytes
odd_pointer = omega (arith, (prepstack-ArgsAt fresh path args (omega arith) (omega arith)).0)

abbrev two_args : ℕ → Option Text
two_args i = if ltb i 2 then some path else none

abbrev one_file : Text → Option ℕ
one_file p = some 7

execve_args-Counted_example :
    Called
      (some path)
      (some two_args)
      (some 9)
      one_file
      (execve_args (some path) (some two_args) (some 9) one_file)
execve_args-Counted_example = execve_args-Counted (some path) (some two_args) (some 9) one_file

two_taken : execve_args (some path) (some two_args) (some 9) one_file ≡ some (path ∷ path ∷ [])
unfolding execve_args take_args vfs_stat
two_taken = refl
