-- ===== src/Sched/Semaphores.antt =====
-- The semaphores and mutexes of sched/sched.c, on the running CPU.
use kernel_old.Base.{
  ℕ, suc, ◌+◌, ◌-◌, ◌%◌, ◌^◌, ◌≤◌, ◌<◌, ◌≡◌, refl, sym, subst, ◌⊎◌, inl, inr, Bool, true, false,
  not, none, some, List, [], ◌∷◌, ◌++◌, arith, ltb, if◌then◌else◌, ltb→lt, Bool-cases,
}
use mathlib.Core.List.{cons-ne-nil}
use kernel_old.Sched.{wait_lock, Cpu, thread_block, thread_unblock}

-- `sem_t`. The counts are 32 bits wide.
pub record Sem : Type 0 where
  pub curr_cnt : ℕ
  pub max_cnt : ℕ
  pub waitlst : List ℕ

unfoldable pub sem_create : (max_cnt : ℕ) → Sem
sem_create m = record { curr_cnt = 0; max_cnt = m; waitlst = [] }

-- `list_push_back(waitlst, cpu->currthread)` and `thread_block(THREAD_STATE_WAIT_LOCK)`. With no
-- current thread the source stores through a null pointer; here nothing changes.
unfoldable pub wait_on : List ℕ → Cpu → List ℕ × Cpu
wait_on waitlst c = elim c.currthread [
  | none ↦ (waitlst, c)
  | some t ↦ (waitlst ++ (t ∷ []), thread_block wait_lock c)
]

-- The flag says that the thread goes on; a thread that blocks goes on after `schedule` has entered
-- it again.
unfoldable pub sem_acquire : Sem → Cpu → Bool × Sem × Cpu
sem_acquire s c =
    if ltb s.curr_cnt s.max_cnt
    then (true, record s { curr_cnt = (s.curr_cnt + 1) % 2 ^ 32 }, c)
    else (let w = wait_on s.waitlst c in (false, record s { waitlst = w.0 }, w.1))

unfoldable pub sem_release : Sem → Cpu → Sem × Cpu
sem_release s c = elim s.waitlst [
  | [] ↦ (record s { curr_cnt = (s.curr_cnt + (2 ^ 32 - 1)) % 2 ^ 32 }, c)
  | t ∷ ts ↦ (record s { waitlst = ts }, (thread_unblock t c).1)
]

-- `mutex_t`: `proc` says whether it is taken.
pub record Mutex : Type 0 where
  pub proc : Bool
  pub waitlst : List ℕ

unfoldable pub mutex_create : Mutex
mutex_create = record { proc = false; waitlst = [] }

unfoldable pub mutex_acquire : Mutex → Cpu → Bool × Mutex × Cpu
mutex_acquire m c =
    if not m.proc
    then (true, record m { proc = true }, c)
    else (let w = wait_on m.waitlst c in (false, record m { waitlst = w.0 }, w.1))

unfoldable pub mutex_release : Mutex → Cpu → Mutex × Cpu
mutex_release m c = elim m.waitlst [
  | [] ↦ (record m { proc = false }, c)
  | t ∷ ts ↦ (record m { waitlst = ts }, (thread_unblock t c).1)
]

-- A semaphore in use: how many threads hold it, after calls of `sem_acquire` and of `sem_release`
-- by a holder, each on a CPU in any state. A release that wakes a thread hands its hold on.
pub data Uses (m : ℕ) : (holders : ℕ) → Sem → Type 0 where
  created : Uses m 0 (sem_create m)
  acquired :
      {k : ℕ} (s : Sem) (c : Cpu)
      → Uses m k s
      → Uses m (if (sem_acquire s c).0 then suc k else k) (sem_acquire s c).1
  released :
      {k : ℕ} (s : Sem) (c : Cpu)
      → Uses m (suc k) s
      → Uses m (elim s.waitlst [ [] ↦ k | _ ∷ _ ↦ suc k ]) (sem_release s c).0

-- The count is that of the holders, none too many, and threads wait only when it is full.
abbrev pub Counts : (m holders : ℕ) → Sem → Type 0
Counts m k s = (s.max_cnt ≡ m) × (s.curr_cnt ≡ k) × (k ≤ m) × ((s.waitlst ≡ []) ⊎ (k ≡ m))

acquire-Counts :
    (m k : ℕ) (s : Sem) (c : Cpu)
    → m < 2 ^ 32
    → Counts m k s
    → Counts m (if (sem_acquire s c).0 then suc k else k) (sem_acquire s c).1
unfolding sem_acquire
acquire-Counts m k s c bound (max, cnt, le, full) = elim (Bool-cases (ltb s.curr_cnt s.max_cnt)) [
  | inl e ↦
      let less = ltb→lt s.curr_cnt s.max_cnt e in
      rw (e, sem_acquire)
        (
          max,
          omega (arith, bound, less, max, cnt),
          omega (arith, less, max, cnt),
          elim full [ inl e ↦ inl e | inr full ↦ inr (omega (arith, full, less, max, cnt)) ],
        )
  | inr e ↦ rw (e, sem_acquire) (max, cnt, le, inr (ground (arith, e, max, cnt, le)))
]

-- The semaphore by its fields.
release-Counts :
    (m k max_cnt curr_cnt : ℕ) (waitlst : List ℕ) (c : Cpu)
    → m < 2 ^ 32
    → Counts m (suc k) (record { curr_cnt = curr_cnt; max_cnt = max_cnt; waitlst = waitlst })
    → Counts m
        (elim waitlst [ [] ↦ k | _ ∷ _ ↦ suc k ])
        (sem_release (record { curr_cnt = curr_cnt; max_cnt = max_cnt; waitlst = waitlst }) c).0
unfolding sem_release
release-Counts m k max_cnt curr_cnt [] c bound (max, cnt, le, full) =
    (max, omega (arith, bound, cnt, le), omega (arith, le), inl refl)
release-Counts m k max_cnt curr_cnt (t ∷ ts) c bound (max, cnt, le, full) =
    (max, cnt, le, elim full [ inl e ↦ absurd (cons-ne-nil t ts e) | inr full ↦ inr full ])

-- A semaphore with a maximum below `2 ^ 32`, taken by any threads and released by its holders, in any
-- order: its count is that of the holders, they are at most `max_cnt`, and threads wait for it only
-- while that many hold it.
pub sem-holders : (m k : ℕ) (s : Sem) → m < 2 ^ 32 → Uses m k s → Counts m k s
unfolding sem_create
sem-holders m _ _ bound created = (refl, refl, omega arith, inl refl)
sem-holders m _ _ bound (acquired {k} s c u) =
    acquire-Counts m k s c bound (sem-holders m k s bound u)
sem-holders m _ _ bound (released {k} s c u) =
    release-Counts m k s.max_cnt s.curr_cnt s.waitlst c bound (sem-holders m (suc k) s bound u)

-- A mutex beside a semaphore of one.
abbrev pub Single : Mutex → Sem → Type 0
Single m s = (s.max_cnt ≡ 1) × (s.curr_cnt ≡ (if m.proc then 1 else 0)) × (m.waitlst ≡ s.waitlst)

abbrev pub TakesAlike : Mutex → Sem → Cpu → Type 0
TakesAlike m s c =
    ((mutex_acquire m c).0 ≡ (sem_acquire s c).0)
    × Single (mutex_acquire m c).1 (sem_acquire s c).1
    × ((mutex_acquire m c).2 ≡ (sem_acquire s c).2)

abbrev pub ReleasesAlike : Mutex → Sem → Cpu → Type 0
ReleasesAlike m s c =
    Single (mutex_release m c).0 (sem_release s c).0 × ((mutex_release m c).1 ≡ (sem_release s c).1)

-- The semaphore beside a mutex.
abbrev pub sem_of : Bool → List ℕ → Sem
sem_of proc waitlst = record { curr_cnt = if proc then 1 else 0; max_cnt = 1; waitlst = waitlst }

takes_alike :
    (proc : Bool) (waitlst : List ℕ) (c : Cpu)
    → TakesAlike (record { proc = proc; waitlst = waitlst }) (sem_of proc waitlst) c
unfolding mutex_acquire sem_acquire
takes_alike true waitlst c = (refl, (refl, refl, refl), refl)
takes_alike false waitlst c = (refl, (refl, refl, refl), refl)

releases_alike :
    (waitlst : List ℕ) (c : Cpu)
    → ReleasesAlike (record { proc = true; waitlst = waitlst }) (sem_of true waitlst) c
unfolding mutex_release sem_release
releases_alike [] c = ((refl, refl, refl), refl)
releases_alike (t ∷ ts) c = ((refl, refl, refl), refl)

Single-sem_of : (m : Mutex) (s : Sem) → Single m s → sem_of m.proc m.waitlst ≡ s
Single-sem_of m s (max, cnt, waits) =
    λ i. record { curr_cnt = sym cnt i; max_cnt = sym max i; waitlst = waits i }

-- Taking a mutex goes on or waits as taking a semaphore of one does, and leaves the same CPU and
-- again a mutex beside a semaphore of one.
pub mutex_acquire-sem_acquire : (m : Mutex) (s : Sem) (c : Cpu) → Single m s → TakesAlike m s c
mutex_acquire-sem_acquire m s c single =
    subst (λ s'. TakesAlike m s' c) (Single-sem_of m s single) (takes_alike m.proc m.waitlst c)

-- Releasing a mutex that is taken wakes the thread that releasing the semaphore of one wakes.
pub mutex_release-sem_release :
    (m : Mutex) (s : Sem) (c : Cpu) → Single m s → m.proc ≡ true → ReleasesAlike m s c
mutex_release-sem_release m s c single taken =
    subst (λ s'. ReleasesAlike m s' c) (Single-sem_of m s single)
      (subst (λ b. ReleasesAlike (record { proc = b; waitlst = m.waitlst }) (sem_of b m.waitlst) c)
        (sym taken) (releases_alike m.waitlst c))
