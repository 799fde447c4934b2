-- ===== src/Sched.antt =====
-- sched/sched.c, sched/thread.c and sched/signal.c on one CPU's view: its lock, its current thread,
-- its run queue, and the threads of the system. A thread is its number; `regs` stands for the whole
-- saved context and is only stored and loaded. The lists of util/list.c are their values in order.
-- What runs next is an outcome: the code that enters a context does not return.
pub mod Threads
pub mod Semaphores
pub mod Signals
mod Tests
use kernel_old.Base.{
  ℕ, zero, suc, ◌+◌, ◌-◌, ◌*◌, ◌/◌, ◌%◌, ◌^◌, ◌≤◌, ◌<◌, min, bit_and, bit_or, bit_xor, ◌≡◌, refl,
  sym, ap, ap₂, subst, ◌∙◌, ◌≢◌, ◌↔◌, ◌⊎◌, inl, inr, Bool, true, false, not, ◌&&◌, ◌||◌, Option,
  none, some, List, [], ◌∷◌, ◌++◌, map, arith, ltb, leb, ◌==◌, if◌then◌else◌, ltb→lt, lt→ltb,
  leb→le, ==_iff, ==_refl, Bool-cases, Option-cases, length, get_elem?, set, length-append, update,
}

-- `THREAD_STATE_RUNNING` to `THREAD_STATE_KILLED`
pub data ThreadState : Type 0 where
  running ready waiting wait_lock paused asleep killed : ThreadState

pub record Thread : Type 0 where
  pub parent : ℕ
  pub state : ThreadState
  pub regs : ℕ
  pub kernel_mode : Bool
  pub sleepexp : ℕ
  pub tid : ℕ

-- `cpu_t` of the running CPU, with all threads by number.
pub record Cpu : Type 0 where
  pub lock : Bool
  pub currthread : Option ℕ
  pub run_queue : List ℕ
  pub threads : ℕ → Thread

-- How `schedule` ends: it returns because the lock is taken, it enters a thread's context in kernel
-- or user mode, or it waits for ever with no thread to run.
pub data Outcome : Type 0 where
  busy : Outcome
  enter_kernel : ℕ → Outcome
  enter_user : ℕ → Outcome
  hang : Outcome

unfoldable pub is_running : ThreadState → Bool
is_running running = true
is_running ready = false
is_running waiting = false
is_running wait_lock = false
is_running paused = false
is_running asleep = false
is_running killed = false

abbrev pub set_thread : Cpu → ℕ → Thread → Cpu
set_thread c t th = record c { threads = update c.threads t th }

-- `cpu->currthread->regs = *r`, and back to the queue if the thread has not blocked.
unfoldable pub save_current : Cpu → (regs : ℕ) → Cpu
save_current c regs = elim c.currthread [
  | none ↦ c
  | some t ↦
      let saved : Thread = record (c.threads t) { regs = regs } in
      if is_running saved.state
      then record (set_thread c t (record saved { state = ready })) {
        run_queue = c.run_queue ++ (t ∷ []);
      }
      else set_thread c t saved
]

-- `signals` is what handles the pending signals of the current process (`signal_handle`), for a
-- thread whose `tid` is 0.
unfoldable pub run_next : (signals : Cpu → Cpu) → Cpu → List ℕ → Outcome × Cpu
run_next signals c [] = (hang, record c { lock = false })
run_next signals c (t ∷ q) =
    let c₁ : Cpu = record (set_thread c t (record (c.threads t) { state = running })) {
      currthread = some t;
      run_queue = q;
    } in
    let c₂ : Cpu = if (c.threads t).tid == 0 then signals c₁ else c₁ in
    (
      (if (c₂.threads t).kernel_mode then enter_kernel t else enter_user t),
      record c₂ { lock = false },
    )

-- `schedule`: a lock that is taken makes it return at once.
unfoldable pub schedule : (signals : Cpu → Cpu) → (regs : ℕ) → Cpu → Outcome × Cpu
schedule signals regs c =
    if c.lock
    then (busy, c)
    else (let c' = save_current (record c { lock = true }) regs in run_next signals c' c'.run_queue)

-- `thread_block`: the state of the current thread; the interrupt that follows calls `schedule`.
unfoldable pub thread_block : ThreadState → Cpu → Cpu
thread_block st c = elim c.currthread [
  | none ↦ c
  | some t ↦ record (set_thread c t (record (c.threads t) { state = st })) { lock = false }
]

-- `thread_unblock`: the flag says that the run queue held nothing else, so that it schedules at once.
unfoldable pub thread_unblock : ℕ → Cpu → Bool × Cpu
thread_unblock t c =
    let c' : Cpu = record (set_thread c t (record (c.threads t) { state = running })) {
      run_queue = c.run_queue ++ (t ∷ []);
      lock = false;
    } in
    (length c'.run_queue == 1, c')

unfoldable pub thread_kill : ℕ → Cpu → Cpu
thread_kill t c = set_thread c t (record (c.threads t) { state = killed })

unfoldable pub thread_exit : Cpu → Cpu
thread_exit c = thread_block killed c

-- The flag says whether the thread goes to sleep.
unfoldable pub thread_sleepuntil : (uptime timepoint : ℕ) → Cpu → Bool × Cpu
thread_sleepuntil uptime timepoint c = if leb timepoint uptime then (false, c) else (
  true,
  elim c.currthread [
    | none ↦ c
    | some t ↦ thread_block asleep (set_thread c t (record (c.threads t) { sleepexp = timepoint }))
  ],
)

unfoldable pub thread_sleepns : (uptime ns : ℕ) → Cpu → Bool × Cpu
thread_sleepns uptime ns c = thread_sleepuntil uptime ((uptime + ns) % 2 ^ 64) c

-- `sched_kill`: each thread of the process.
unfoldable pub sched_kill : List ℕ → Cpu → Cpu
sched_kill [] c = c
sched_kill (t ∷ ts) c = sched_kill ts (thread_kill t c)

-- `thread_spawn`: the counts are those of `cpus[i].threads`; the first CPU with the fewest threads
-- is chosen.
unfoldable pub least_loaded : (counts : ℕ → ℕ) → (best i rounds : ℕ) → ℕ
least_loaded counts best i zero = best
least_loaded counts best i (suc n) =
    least_loaded counts (if ltb (counts i) (counts best) then i else best) (i + 1) n

unfoldable pub spawn_cpu : (counts : ℕ → ℕ) → (cpu_count : ℕ) → ℕ
spawn_cpu counts cpu_count = least_loaded counts 0 1 (cpu_count - 1)
