-- ===== src/Exec.antt =====
-- The start of a program: sched/sched.c `prepstack`, and the arguments that sys/syscall/syscall.c
-- `sys_execve` takes. A text is the list of its bytes without the NUL; memory is that of the new
-- process, from the first address on.
pub mod Prepared
pub mod Arguments
pub mod Counting
mod Tests
use kernel_old.Base.{
  ℕ, zero, suc, ◌+◌, ◌-◌, ◌*◌, ◌/◌, ◌%◌, ◌^◌, ◌≤◌, ◌<◌, min, bit_and, bit_or, bit_xor, ◌≡◌, refl,
  sym, ap, ap₂, subst, ◌∙◌, ◌≢◌, ◌↔◌, ◌⊎◌, inl, inr, Bool, true, false, not, ◌&&◌, ◌||◌, Option,
  none, some, List, [], ◌∷◌, ◌++◌, map, arith, ltb, leb, ◌==◌, if◌then◌else◌, ltb→lt, lt→ltb,
  leb→le, ==_iff, ==_refl, Bool-cases, Option-cases, length, get_elem?, set, length-append,
  append_assoc, update_self, update, every, every-holds, ==_false, update_ne, bool_eq, bool_eq→≡,
  overlay, overlay-inside, overlay-within, overlay-outside, load16, load32, load64,
}
use kernel_old.Vfs.{Text}
use kernel_old.Vfs.Mount.{vfs_stat}

-- `*(uint64_t*)a = v`
unfoldable pub store64 : (ℕ → ℕ) → (a v : ℕ) → ℕ → ℕ
store64 m a v = overlay m (λ j. v / 2 ^ (8 * j) % 2 ^ 8) a 8

-- `strcpy`: the bytes of a text and its NUL.
unfoldable pub store_text : (ℕ → ℕ) → (a : ℕ) → Text → ℕ → ℕ
store_text m a [] = update m a 0
store_text m a (c ∷ cs) = store_text (update m a c) (a + 1) cs

-- The stack pointer and the memory.
pub record Stack : Type 0 where
  pub sp : ℕ
  pub mem : ℕ → ℕ

-- `stack -= n`
abbrev pub below : (sp n : ℕ) → ℕ
below sp n = (sp + 2 ^ 64 - n % 2 ^ 64) % 2 ^ 64

unfoldable pub push_text : Stack → Text → Stack
push_text s t =
    let sp : ℕ = below s.sp (length t + 1) in record { sp = sp; mem = store_text s.mem sp t }

-- The loop over the arguments: the entries of `tmp_argv`, in order, and the stack.
unfoldable pub push_texts : Stack → List Text → List ℕ × Stack
push_texts s [] = ([], s)
push_texts s (t ∷ ts) =
    let s' : Stack = push_text s t in let (ptrs, s'') = push_texts s' ts in (s'.sp ∷ ptrs, s'')

unfoldable pub push_ptr : Stack → ℕ → Stack
push_ptr s v = let sp : ℕ = below s.sp 8 in record { sp = sp; mem = store64 s.mem sp v }

-- The loop down from the last entry of `tmp_argv`.
unfoldable pub push_ptrs : Stack → List ℕ → Stack
push_ptrs s [] = s
push_ptrs s (p ∷ ps) = push_ptr (push_ptrs s ps) p

-- `prepstack`: its pointer is the thread's `rsp` and `rsi` afterwards.
unfoldable pub prepstack : Stack → (file : Text) → (argv : List Text) → Stack
prepstack s file argv = let (ptrs, s') = push_texts s (file ∷ argv) in push_ptrs s' ptrs

-- The loop of `sys_execve` that counts the arguments from `argc` on, `rounds` before the 128th, and
-- the copies of those counted.
unfoldable pub take_args : (argv : ℕ → Option Text) → (argc rounds : ℕ) → Option (List Text)
take_args argv argc zero = none
take_args argv argc (suc n) = elim (argv argc) [
  | none ↦ some []
  | some t ↦ elim (take_args argv (argc + 1) n) [ none ↦ none | some ts ↦ some (t ∷ ts) ]
]

-- The arguments that `sys_execve` passes to `sched_exec`, where `none` is a NULL among its own, and
-- `find` is `vfs_resolve_path` in the working directory, whose NULL makes `vfs_stat` fail. The result
-- `none` is a -1 returned before that call: a NULL, no such file, or 128 arguments or more.
unfoldable pub execve_args :
    (path : Option Text)
    → (argv : Option (ℕ → Option Text)) → (envp : Option ℕ) → (find : Text → Option ℕ)
    → Option (List Text)
execve_args none argv envp find = none
execve_args (some p) none envp find = none
execve_args (some p) (some args) none find = none
execve_args (some p) (some args) (some e) find =
    let counted = take_args args 0 128 in if vfs_stat (find p) == 0 then counted else none
