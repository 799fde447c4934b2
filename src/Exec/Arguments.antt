-- ===== src/Exec/Arguments.antt =====
-- What a process finds on the stack that sched/sched.c `prepstack` leaves.
use kernel_old.Base.{
  ℕ, ◌+◌, ◌*◌, ◌^◌, ◌≤◌, ◌<◌, ◌≡◌, refl, sym, subst, ◌∙◌, inr, List, [], ◌∷◌, arith, length, load64,
}
use kernel_old.Vfs.{Text}
use kernel_old.Exec.{store64, Stack, below, push_text, push_texts, push_ptr, push_ptrs, prepstack}
use kernel_old.Exec.Prepared.{
  Above, TextAt, TextAt-Above, store_text-other, TextAt-store_text, load64-store64, store64-other,
  load64-Above, TextsAt, TextsAt-Above,
}

-- The bytes of texts with their NULs.
unfoldable pub text_bytes : List Text → ℕ
text_bytes [] = 0
text_bytes (t ∷ ts) = length t + 1 + text_bytes ts

below_lem : (sp n : ℕ) → sp < 2 ^ 64 → n ≤ sp → below sp n + n ≡ sp
below_lem sp n lt le = omega (arith, lt, le)

-- What a push of texts gives.
record Texts (s : Stack) (ts : List Text) (ps : List ℕ) (s' : Stack) : Type 0 where
  pointer : s'.sp + text_bytes ts ≡ s.sp
  at : TextsAt s'.mem s'.sp ps ts
  kept : Above s.mem s'.mem s.sp
  count : length ps ≡ length ts

push_texts-Texts :
    (s : Stack) (ts : List Text)
    → s.sp < 2 ^ 64
    → text_bytes ts ≤ s.sp
    → Texts s ts (push_texts s ts).0 (push_texts s ts).1
unfolding push_texts push_text text_bytes TextsAt
push_texts-Texts s [] lt le = record {
  pointer = omega arith;
  at = tt;
  kept = λ x h. refl;
  count = refl;
}
push_texts-Texts s (t ∷ ts) lt le =
    let s1 : Stack = push_text s t in
    let sp : s1.sp + (length t + 1) ≡ s.sp = below_lem s.sp (length t + 1) lt (omega (arith, le)) in
    let r : Texts s1 ts (push_texts s1 ts).0 (push_texts s1 ts).1 =
      push_texts-Texts s1 ts (omega (arith, sp, lt)) (omega (arith, sp, le)) in
    record {
      pointer = omega (arith, sp, r.pointer);
      at = (
        omega (arith, r.pointer),
        omega (arith, sp, lt),
        TextAt-Above s1.mem (push_texts s1 ts).1.mem s1.sp s1.sp t r.kept (omega arith)
            (TextAt-store_text s.mem s1.sp t),
        r.at,
      );
      kept = λ x h.
          r.kept x (omega (arith, sp, h))
          ∙ store_text-other s.mem s1.sp t x (inr (omega (arith, sp, h)));
      count = omega (arith, r.count);
    }

-- The pointers of the list lie in a row from `a` on.
unfoldable PtrsAt : (ℕ → ℕ) → (a : ℕ) → List ℕ → Type 0
PtrsAt m a [] = Unit
PtrsAt m a (p ∷ ps) = (load64 m a ≡ p) × PtrsAt m (a + 8) ps

PtrsAt-Above :
    (m m' : ℕ → ℕ) (a b : ℕ) (ps : List ℕ) → Above m m' a → a ≤ b → PtrsAt m b ps → PtrsAt m' b ps
unfolding PtrsAt
PtrsAt-Above m m' a b [] same le h = tt
PtrsAt-Above m m' a b (p ∷ ps) same le (here, rest) = (
  load64-Above m m' a b same le ∙ here,
  PtrsAt-Above m m' a (b + 8) ps same (omega (arith, le)) rest,
)

-- What a push of pointers gives.
record Ptrs (s : Stack) (ps : List ℕ) (s' : Stack) : Type 0 where
  pointer : s'.sp + 8 * length ps ≡ s.sp
  at : PtrsAt s'.mem s'.sp ps
  kept : Above s.mem s'.mem s.sp

push_ptrs-Ptrs :
    (s : Stack) (m : ℕ → ℕ) (ps : List ℕ) (ts : List Text) (a : ℕ)
    → s.sp < 2 ^ 64
    → 8 * length ps ≤ s.sp
    → TextsAt m a ps ts
    → Ptrs s ps (push_ptrs s ps)
unfolding push_ptrs push_ptr PtrsAt TextsAt
push_ptrs-Ptrs s m [] ts a lt le h = record { pointer = omega arith; at = tt; kept = λ x h. refl }
push_ptrs-Ptrs s m (p ∷ ps) [] a lt le h = absurd h
push_ptrs-Ptrs s m (p ∷ ps) (t ∷ ts) a lt le (lo, hi, text, h) =
    let s1 : Stack = push_ptrs s ps in
    let r : Ptrs s ps s1 = push_ptrs-Ptrs s m ps ts a lt (omega (arith, le)) h in
    let sp : below s1.sp 8 + 8 ≡ s1.sp =
      below_lem s1.sp 8 (omega (arith, lt, r.pointer)) (omega (arith, le, r.pointer)) in
    let new : ℕ → ℕ = store64 s1.mem (below s1.sp 8) p in
    let same : Above s1.mem new s1.sp =
      λ x le. store64-other s1.mem (below s1.sp 8) p x (inr (omega (arith, sp, le))) in
    record {
      pointer = omega (arith, sp, r.pointer);
      at = (
        load64-store64 s1.mem (below s1.sp 8) p hi,
        PtrsAt-Above s1.mem new s1.sp (below s1.sp 8 + 8) ps same (omega (arith, sp))
            (subst (λ x. PtrsAt s1.mem x ps) (sym sp) r.at),
      );
      kept = λ x h. same x (omega (arith, r.pointer, h)) ∙ r.kept x h;
    }

-- The entries from `a` on point at the texts.
unfoldable pub ArgsAt : (ℕ → ℕ) → (a : ℕ) → List Text → Type 0
ArgsAt m a [] = Unit
ArgsAt m a (t ∷ ts) = TextAt m (load64 m a) t × ArgsAt m (a + 8) ts

ArgsAt-texts :
    (m : ℕ → ℕ) (a b : ℕ) (ps : List ℕ) (ts : List Text)
    → PtrsAt m a ps
    → TextsAt m b ps ts
    → ArgsAt m a ts
unfolding ArgsAt PtrsAt TextsAt
ArgsAt-texts m a b [] [] h h' = tt
ArgsAt-texts m a b [] (t ∷ ts) h h' = absurd h'
ArgsAt-texts m a b (p ∷ ps) [] h h' = absurd h'
ArgsAt-texts m a b (p ∷ ps) (t ∷ ts) (here, h) (lo, hi, text, h') =
    (subst (λ x. TextAt m x t) (sym here) text, ArgsAt-texts m (a + 8) b ps ts h h')

-- With room below the stack pointer for the texts of the path and the arguments and for as many
-- pointers, the new stack pointer is that much lower, at it lie pointers to the path and to each
-- argument, in order, each text with its NUL, and the memory from the old stack pointer on is kept.
pub prepstack-ArgsAt :
    (s : Stack) (file : Text) (argv : List Text)
    → s.sp < 2 ^ 64
    → text_bytes (file ∷ argv) + 8 * length (file ∷ argv) ≤ s.sp
    → ((prepstack s file argv).sp + (text_bytes (file ∷ argv) + 8 * length (file ∷ argv)) ≡ s.sp)
      × ArgsAt (prepstack s file argv).mem (prepstack s file argv).sp (file ∷ argv)
      × ((x : ℕ) → s.sp ≤ x → (prepstack s file argv).mem x ≡ s.mem x)
unfolding prepstack
prepstack-ArgsAt s file argv lt le =
    let ts : List Text = file ∷ argv in
    let (ps, s1) = push_texts s ts in
    let r : Texts s ts ps s1 = push_texts-Texts s ts lt (omega (arith, le)) in
    let q : Ptrs s1 ps (push_ptrs s1 ps) =
      push_ptrs-Ptrs s1 s1.mem ps ts s1.sp (omega (arith, lt, r.pointer))
        (omega (arith, r.pointer, r.count, le)) r.at in
    (
      omega (arith, r.pointer, r.count, q.pointer),
      ArgsAt-texts (push_ptrs s1 ps).mem (push_ptrs s1 ps).sp s1.sp ps ts q.at
          (TextsAt-Above s1.mem (push_ptrs s1 ps).mem s1.sp s1.sp ps ts q.kept (omega arith) r.at),
      λ x h. q.kept x (omega (arith, r.pointer, h)) ∙ r.kept x h,
    )
