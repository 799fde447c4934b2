-- ===== src/Sched/Signals/Killing.antt =====
-- What a signal without a handler does to a process, by sched/sched.c `schedule` and `signal_handle`.
use kernel_old.Base.{
  ℕ, ◌≡◌, refl, sym, ap, subst, ◌∙◌, ◌≢◌, ◌⊎◌, inl, inr, Bool, true, false, some, List, [], ◌∷◌,
  ◌++◌, ◌==◌, if◌then◌else◌, ==_iff, Bool-cases, update_self, update_ne,
}
use kernel_old.Sched.{
  running, killed, Thread, Cpu, is_running, set_thread, save_current, run_next, schedule,
  sched_kill, thread_kill,
}
use kernel_old.Sched.Signals.{
  Signal, Proc, System, signal_send, signal_handle, curr_proc, handle_first, take_signal,
  schedule_with, schedule_system,
}

sched_kill-killed :
    (ts : List ℕ) (c : Cpu) (t : ℕ)
    → (c.threads t).state ≡ killed
    → ((sched_kill ts c).threads t).state ≡ killed
unfolding sched_kill thread_kill
sched_kill-killed [] c t h = h
sched_kill-killed (u ∷ ts) c t h =
    sched_kill-killed ts (thread_kill u c) t
      (elim (Bool-cases (t == u)) [ inl e ↦ rw (e) refl | inr e ↦ rw (e) h ])

sched_kill-rest :
    (ts : List ℕ) (c : Cpu)
    → ((sched_kill ts c).currthread ≡ c.currthread) × ((sched_kill ts c).run_queue ≡ c.run_queue)
unfolding sched_kill thread_kill
sched_kill-rest [] c = (refl, refl)
sched_kill-rest (u ∷ ts) c = sched_kill-rest ts (thread_kill u c)

-- The thread is in the list.
unfoldable pub In : ℕ → List ℕ → Type 0
In t [] = ⊥
In t (u ∷ us) = (t ≡ u) ⊎ In t us

sched_kill-In :
    (ts : List ℕ) (c : Cpu) (t : ℕ) → In t ts → ((sched_kill ts c).threads t).state ≡ killed
unfolding In sched_kill thread_kill
sched_kill-In [] c t h = absurd h
sched_kill-In (u ∷ ts) c t (inl e) =
    sched_kill-killed ts (thread_kill u c) t (rw (e, update_self c.threads u) refl)
sched_kill-In (u ∷ ts) c t (inr h) = sched_kill-In ts (thread_kill u c) t h

-- The lock is free, `u` is current, `q` waits, and the threads `ts` are killed.
unfoldable pub Killed : Cpu → (u : ℕ) → (q ts : List ℕ) → Type 0
Killed c u q ts =
    (c.lock ≡ false)
    × (c.currthread ≡ some u)
    × (c.run_queue ≡ q)
    × ((v : ℕ) → In v ts → (c.threads v).state ≡ killed)

module _ (procs : ℕ → Proc) (n : ℕ) (sig : Signal) (sigs : List Signal)
    (pending : (procs n).sigstack ≡ sig ∷ sigs) (default : (procs n).signals sig.signo ≡ 0) where
  take_signal-kill :
      (lock : Bool) (u : ℕ) (q : List ℕ) (threads : ℕ → Thread)
      → (threads u).parent ≡ n
      → take_signal procs
          (record { lock = lock; currthread = some u; run_queue = q; threads = threads })
        ≡ sched_kill
            (procs n).threads
            (record { lock = lock; currthread = some u; run_queue = q; threads = threads })
  unfolding take_signal curr_proc handle_first signal_handle
  take_signal-kill lock u q threads parent = rw (parent, pending, default, take_signal) refl

  run_next-Killed :
      (c : Cpu) (u : ℕ) (q : List ℕ)
      → (c.threads u).tid ≡ 0
      → (c.threads u).parent ≡ n
      → Killed (run_next (take_signal procs) c (u ∷ q)).1 u q (procs n).threads
  unfolding run_next Killed
  run_next-Killed c u q main parent =
      let c₁ : Cpu = record (set_thread c u (record (c.threads u) { state = running })) {
        currthread = some u;
        run_queue = q;
      } in
      let parent₁ : (c₁.threads u).parent ≡ n =
        ap (λ (th : Thread). th.parent)
          (update_self c.threads u (record (c.threads u) { state = running }))
        ∙ parent in
      let kills : take_signal procs c₁ ≡ sched_kill (procs n).threads c₁ =
        take_signal-kill c.lock u q c₁.threads parent₁ in
      let (current, queue) = sched_kill-rest (procs n).threads c₁ in
      let e : ((c.threads u).tid == 0) ≡ true = (==_iff (c.threads u).tid 0).1 main in
      rw (e, run_next)
        (
          refl,
          ap (λ (x : Cpu). x.currthread) kills ∙ current,
          ap (λ (x : Cpu). x.run_queue) kills ∙ queue,
          λ v h.
              ap (λ (x : Cpu). (x.threads v).state) kills ∙ sched_kill-In (procs n).threads c₁ v h,
        )

  -- A CPU with a free lock, thread `t` current and `u` first in the queue.
  schedule_with-literal :
      (regs t u : ℕ) (q : List ℕ) (threads : ℕ → Thread) (runs : Bool)
      → u ≢ t
      → (threads u).tid ≡ 0
      → (threads u).parent ≡ n
      → is_running (threads t).state ≡ runs
      → Killed
          (schedule_with procs regs
            (record { lock = false; currthread = some t; run_queue = u ∷ q; threads = threads })).1
          u
          (if runs then q ++ (t ∷ []) else q)
          (procs n).threads
  unfolding schedule_with schedule save_current
  schedule_with-literal regs t u q threads true ne main parent is =
      rw (is, schedule, save_current)
        (run_next-Killed _ u (q ++ (t ∷ []))
          (ap (λ (th : Thread). th.tid) (update_ne threads t u _ ne) ∙ main)
          (ap (λ (th : Thread). th.parent) (update_ne threads t u _ ne) ∙ parent))
  schedule_with-literal regs t u q threads false ne main parent is =
      rw (is, schedule, save_current)
        (run_next-Killed _ u q (ap (λ (th : Thread). th.tid) (update_ne threads t u _ ne) ∙ main)
          (ap (λ (th : Thread). th.parent) (update_ne threads t u _ ne) ∙ parent))

-- A killed thread is not put back into the queue.
save_current-killed :
    (c : Cpu) (regs u : ℕ)
    → c.currthread ≡ some u
    → (c.threads u).state ≡ killed
    → (save_current c regs).run_queue ≡ c.run_queue
unfolding save_current is_running
save_current-killed c regs u current dead =
    let e : record {
      lock = c.lock;
      currthread = some u;
      run_queue = c.run_queue;
      threads = c.threads;
    }
        ≡ c =
      λ i. record {
        lock = c.lock;
        currthread = sym current i;
        run_queue = c.run_queue;
        threads = c.threads;
      } in
    subst (λ x. (save_current x regs).run_queue ≡ c.run_queue) e
      (stays c.lock c.run_queue c.threads dead)
  where
    stays :
        (lock : Bool) (q : List ℕ) (threads : ℕ → Thread)
        → (threads u).state ≡ killed
        → (save_current
            (record { lock = lock; currthread = some u; run_queue = q; threads = threads })
            regs).run_queue
          ≡ q
    stays lock q threads dead = rw (dead, save_current, is_running) refl

-- A signal without a handler, sent to a process with no other signal pending whose main thread is
-- first in the queue behind another thread: the next call of `schedule` makes that main thread
-- current with all threads of its process killed, and the call after that does not put it back into
-- the queue.
pub schedule_system-signal_send :
    (s : System) (signo regs regs' t u : ℕ) (q : List ℕ)
    → (s.cpu.lock ≡ false) × (s.cpu.currthread ≡ some t) × (s.cpu.run_queue ≡ u ∷ q)
    → u ≢ t
    → (s.cpu.threads u).tid ≡ 0
    → (s.procs (s.cpu.threads u).parent).sigstack ≡ []
    → (s.procs (s.cpu.threads u).parent).signals signo ≡ 0
    → In u (s.procs (s.cpu.threads u).parent).threads
    → Killed
        (schedule_system regs (signal_send (s.cpu.threads u).parent signo s)).1.cpu
        u
        (if is_running (s.cpu.threads t).state then q ++ (t ∷ []) else q)
        (s.procs (s.cpu.threads u).parent).threads
      × ((save_current
            (schedule_system regs (signal_send (s.cpu.threads u).parent signo s)).1.cpu
            regs').run_queue
          ≡ (if is_running (s.cpu.threads t).state then q ++ (t ∷ []) else q))
unfolding signal_send Killed schedule_system
schedule_system-signal_send s signo regs regs' t u q (free, current, queue) ne main empty default
      inside =
    let n : ℕ = (s.cpu.threads u).parent in
    let sent : ℕ → Proc = (signal_send n signo s).procs in
    let sig : Signal = record { signo = signo; handler = (s.procs n).signals signo } in
    let here =
      update_self s.procs n
        (record (s.procs n) { sigstack = (s.procs n).sigstack ++ (sig ∷ []) }) in
    let pending : (sent n).sigstack ≡ sig ∷ [] =
      ap (λ (x : Proc). x.sigstack) here ∙ ap (λ x. x ++ (sig ∷ [])) empty in
    let nobody : (sent n).signals signo ≡ 0 = ap (λ (x : Proc). x.signals signo) here ∙ default in
    let runs : Bool = is_running (s.cpu.threads t).state in
    let rest : List ℕ = if runs then q ++ (t ∷ []) else q in
    let e : record { lock = false; currthread = some t; run_queue = u ∷ q; threads = s.cpu.threads }
        ≡ s.cpu =
      λ i. record {
        lock = sym free i;
        currthread = sym current i;
        run_queue = sym queue i;
        threads = s.cpu.threads;
      } in
    let after : Killed (schedule_with sent regs s.cpu).1 u rest (s.procs n).threads =
      subst (λ ts. Killed (schedule_with sent regs s.cpu).1 u rest ts)
        (ap (λ (x : Proc). x.threads) here)
        (subst (λ c. Killed (schedule_with sent regs c).1 u rest (sent n).threads) e
          (schedule_with-literal sent n sig [] pending nobody regs t u q s.cpu.threads runs ne main
            refl refl)) in
    (
      after,
      save_current-killed (schedule_with sent regs s.cpu).1 regs' u after.1 (after.3 u inside)
          ∙ after.2,
    )
