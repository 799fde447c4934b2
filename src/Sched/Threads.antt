-- ===== src/Sched/Threads.antt =====
-- Which thread runs next: sched/sched.c `schedule`, with `thread_block` and `thread_spawn`.
use kernel_old.Base.{
  ℕ, zero, suc, ◌+◌, ◌-◌, ◌≤◌, ◌<◌, ◌≡◌, refl, sym, ap, subst, ◌∙◌, inl, inr, Bool, true, false,
  some, List, [], ◌∷◌, ◌++◌, arith, ltb, ◌==◌, if◌then◌else◌, ltb→lt, ==_iff, Bool-cases, length,
  append_assoc, update_self, update,
}
use kernel_old.Sched.{
  ThreadState, running, Thread, Cpu, is_running, set_thread, save_current, run_next, schedule,
  thread_block, least_loaded, spawn_cpu,
}

-- Thread `t` is running on the CPU, and `q` waits in this order.
unfoldable pub Current : Cpu → ℕ → List ℕ → Type 0
Current c t q =
    (c.lock ≡ false) × (c.currthread ≡ some t) × ((c.threads t).state ≡ running) × (c.run_queue ≡ q)

-- The state that one call of `schedule` leaves.
unfoldable pub next : (Cpu → Cpu) → ℕ → Cpu → Cpu
next signals regs c = (schedule signals regs c).1

module _ (signals : Cpu → Cpu)
    (keeps : (c : Cpu) (t : ℕ) (q : List ℕ)
      → (c.currthread ≡ some t) × ((c.threads t).state ≡ running) × (c.run_queue ≡ q)
      → ((signals c).currthread ≡ some t)
        × (((signals c).threads t).state ≡ running)
        × ((signals c).run_queue ≡ q)) where
  run_next-Current : (c : Cpu) (t : ℕ) (q : List ℕ) → Current (run_next signals c (t ∷ q)).1 t q
  unfolding run_next Current
  run_next-Current c t q =
      let c₁ : Cpu = record (set_thread c t (record (c.threads t) { state = running })) {
        currthread = some t;
        run_queue = q;
      } in
      let running₁ : (c₁.threads t).state ≡ running =
        ap (λ (th : Thread). th.state)
          (update_self c.threads t (record (c.threads t) { state = running })) in
      elim (Bool-cases ((c.threads t).tid == 0)) [
        | inl e ↦
            let k = keeps c₁ t q (refl, running₁, refl) in rw (e, run_next) (refl, k.0, k.1, k.2)
        | inr e ↦ rw (e, run_next) (refl, refl, running₁, refl)
      ]

  -- A CPU with a free lock, thread `t` current and `u` first in the queue.
  schedule-literal :
      (regs t u : ℕ) (q : List ℕ) (threads : ℕ → Thread) (runs : Bool)
      → is_running (threads t).state ≡ runs
      → Current
          (next signals regs
            (record { lock = false; currthread = some t; run_queue = u ∷ q; threads = threads }))
          u
          (if runs then q ++ (t ∷ []) else q)
  unfolding next schedule save_current
  schedule-literal regs t u q threads true is =
      rw (is, next, schedule, save_current) (run_next-Current _ u (q ++ (t ∷ [])))
  schedule-literal regs t u q threads false is =
      rw (is, next, schedule, save_current) (run_next-Current _ u q)

  -- With the lock free, a thread current and a thread waiting, and where the handling of signals
  -- leaves the current thread, its state and the queue: `schedule` runs the first thread of the queue
  -- and frees the lock; the thread that was current goes to the back when it was running, and is not
  -- in the queue when it was not.
  pub schedule-next :
      (regs : ℕ) (c : Cpu) (t u : ℕ) (q : List ℕ)
      → (c.lock ≡ false) × (c.currthread ≡ some t) × (c.run_queue ≡ u ∷ q)
      → Current
          (next signals regs c)
          u
          (if is_running (c.threads t).state then q ++ (t ∷ []) else q)
  schedule-next regs c t u q (free, current, queue) =
      let e : record { lock = false; currthread = some t; run_queue = u ∷ q; threads = c.threads }
          ≡ c =
        λ i. record {
          lock = sym free i;
          currthread = sym current i;
          run_queue = sym queue i;
          threads = c.threads;
        } in
      subst
        (λ c'.
          Current (next signals regs c') u
            (if is_running (c.threads t).state then q ++ (t ∷ []) else q))
        e (schedule-literal regs t u q c.threads (is_running (c.threads t).state) refl)

  step :
      (regs : ℕ) (c : Cpu) (t u : ℕ) (q : List ℕ)
      → Current c t (u ∷ q)
      → Current (next signals regs c) u (q ++ (t ∷ []))
  unfolding is_running Current
  step regs c t u q (free, current, is, queue) =
      let runs : is_running (c.threads t).state ≡ true = ap is_running is in
      let nexts = schedule-next regs c t u q (free, current, queue) in
      subst (λ b. Current (next signals regs c) u (if b then q ++ (t ∷ []) else q)) runs nexts

  -- Calls of `schedule`, each with the context that the timer interrupt saved.
  unfoldable pub rounds : List ℕ → Cpu → Cpu
  rounds [] c = c
  rounds (regs ∷ more) c = rounds more (next signals regs c)

  -- Where a thread is running, the lock is free and the handling of signals leaves the current
  -- thread, its state and the queue, a thread that waits behind `before` others runs after as many
  -- calls of `schedule` as they are and one more, and the threads that ran before it now wait in turn.
  pub rounds-nth :
      (ticks : List ℕ) (c : Cpu) (t u : ℕ) (before after : List ℕ)
      → Current c t (before ++ (u ∷ after))
      → length ticks ≡ length before + 1
      → Current (rounds ticks c) u (after ++ (t ∷ before))
  unfolding rounds
  rounds-nth [] c t u before after is ticking = ground arith
  rounds-nth (regs ∷ []) c t u [] after is ticking = step regs c t u after is
  rounds-nth (regs ∷ r ∷ more) c t u [] after is ticking = ground arith
  rounds-nth (regs ∷ more) c t u (b ∷ bs) after is ticking =
      let stepped : Current (next signals regs c) b (bs ++ (u ∷ (after ++ (t ∷ [])))) =
        subst (λ q. Current (next signals regs c) b q) (append_assoc bs (u ∷ after) (t ∷ []))
          (step regs c t b (bs ++ (u ∷ after)) is) in
      subst (λ q. Current (rounds more (next signals regs c)) u q)
        (append_assoc after (t ∷ []) (b ∷ bs))
        (rounds-nth more (next signals regs c) b u bs (after ++ (t ∷ [])) stepped
          (omega (arith, ticking)))

  -- Where the handling of signals leaves the current thread, its state and the queue, and a thread
  -- waits: a thread that blocks itself in a state other than running leaves the CPU to the first
  -- thread of the queue, and is not put back into the queue.
  pub schedule-thread_block :
      (regs : ℕ) (st : ThreadState) (c : Cpu) (t u : ℕ) (q : List ℕ)
      → is_running st ≡ false
      → (c.currthread ≡ some t) × (c.run_queue ≡ u ∷ q)
      → Current (next signals regs (thread_block st c)) u q
  unfolding thread_block
  schedule-thread_block regs st c t u q blocks (current, queue) =
      let e : record { lock = c.lock; currthread = some t; run_queue = u ∷ q; threads = c.threads }
          ≡ c =
        λ i. record {
          lock = c.lock;
          currthread = sym current i;
          run_queue = sym queue i;
          threads = c.threads;
        } in
      let blocked : Thread = record (c.threads t) { state = st } in
      subst (λ c'. Current (next signals regs (thread_block st c')) u q) e
        (schedule-literal regs t u q (update c.threads t blocked) false
          (ap (λ (th : Thread). is_running th.state) (update_self c.threads t blocked) ∙ blocks))

from_next :
    (counts : ℕ → ℕ) (i j n r : ℕ)
    → i ≤ j
    → j < i + suc n
    → r ≤ counts i
    → ((k : ℕ) → i + 1 ≤ k → k < i + 1 + n → r ≤ counts k)
    → r ≤ counts j
from_next counts i j n r le lt here later = elim (Bool-cases (i == j)) [
  | inl same ↦ subst (λ k. r ≤ counts k) ((==_iff i j).0 same) here
  | inr other ↦ later j (ground (arith, le, other)) (omega (arith, lt))
]

not_less : (a b r : ℕ) → ltb a b ≡ false → r ≤ b → r ≤ a
not_less a b r e le = ground arith

-- The CPU kept so far, and those that are still to be compared.
least_loaded_le :
    (counts : ℕ → ℕ) (best i rounds : ℕ)
    → (counts (least_loaded counts best i rounds) ≤ counts best)
      × ((j : ℕ) → i ≤ j → j < i + rounds → counts (least_loaded counts best i rounds) ≤ counts j)
unfolding least_loaded
least_loaded_le counts best i zero = (omega arith, λ j le lt. omega (arith, le, lt))
least_loaded_le counts best i (suc n) = elim (Bool-cases (ltb (counts i) (counts best))) [
  | inl e ↦
      rw (e, least_loaded)
        (let ih = least_loaded_le counts i (i + 1) n in
          (
            omega (arith, ih.0, ltb→lt (counts i) (counts best) e),
            λ j le lt.
                from_next counts i j n (counts (least_loaded counts i (i + 1) n)) le lt ih.0 ih.1,
          ))
  | inr e ↦
      rw (e, least_loaded)
        (let ih = least_loaded_le counts best (i + 1) n in
          (
            ih.0,
            λ j le lt.
                from_next counts i j n (counts (least_loaded counts best (i + 1) n)) le lt
                  (not_less (counts i) (counts best) _ e ih.0) ih.1,
          ))
]

least_loaded_lt :
    (counts : ℕ → ℕ) (best i rounds : ℕ) → best < i → least_loaded counts best i rounds < i + rounds
unfolding least_loaded
least_loaded_lt counts best i zero lt = omega (arith, lt)
least_loaded_lt counts best i (suc n) lt = elim (Bool-cases (ltb (counts i) (counts best))) [
  | inl e ↦ rw (e, least_loaded) (omega (arith, least_loaded_lt counts i (i + 1) n (omega arith)))
  | inr e ↦
      rw (e, least_loaded)
        (omega (arith, least_loaded_lt counts best (i + 1) n (omega (arith, lt))))
]

-- The CPU that `thread_spawn` chooses is one of the CPUs, and none has fewer threads.
pub spawn_cpu-least :
    (counts : ℕ → ℕ) (cpu_count j : ℕ)
    → j < cpu_count
    → (counts (spawn_cpu counts cpu_count) ≤ counts j) × (spawn_cpu counts cpu_count < cpu_count)
unfolding spawn_cpu
spawn_cpu-least counts cpu_count zero lt = (
  (least_loaded_le counts 0 1 (cpu_count - 1)).0,
  omega (arith, lt, least_loaded_lt counts 0 1 (cpu_count - 1) (omega arith)),
)
spawn_cpu-least counts cpu_count (suc j) lt = (
  (least_loaded_le counts 0 1 (cpu_count - 1)).1 (suc j) (omega arith) (omega (arith, lt)),
  omega (arith, lt, least_loaded_lt counts 0 1 (cpu_count - 1) (omega arith)),
)
