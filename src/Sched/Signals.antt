-- ===== src/Sched/Signals.antt =====
-- Signals: sched/signal.c `signal_send`, and the part of sched/sched.c `schedule` that takes a pending
-- signal, with `signal_handle`. Signals are below `SIGCNT`. The default action of each of them is to
-- terminate or to stop, which are the same here; `sched_yield` inside `signal_handle` returns at once,
-- as the lock is taken. For a signal with a handler the code stores into the memory behind a list
-- node, which is no part of a thread. The `sched_yield` of `signal_send` is a call of `schedule`.
pub mod Killing
use kernel_old.Base.{
  ℕ, ◌≡◌, refl, sym, ap, subst, ◌∙◌, ◌≢◌, ◌⊎◌, inl, inr, Bool, true, false, not, Option, none, some,
  List, [], ◌∷◌, ◌++◌, ◌==◌, if◌then◌else◌, ==_iff, Bool-cases, update_self, update, update_ne,
}
use kernel_old.Sched.{
  running, killed, Thread, Cpu, Outcome, busy, hang, enter_kernel, enter_user, is_running,
  set_thread, save_current, run_next, schedule, sched_kill, thread_kill,
}

pub record Signal : Type 0 where
  pub signo : ℕ
  pub handler : ℕ

-- The fields of `proc_t` that signals use; `threads` are those of its list.
pub record Proc : Type 0 where
  pub threads : List ℕ
  pub signals : ℕ → ℕ
  pub sigstack : List Signal

-- A CPU and the processes by number.
pub record System : Type 0 where
  pub cpu : Cpu
  pub procs : ℕ → Proc

-- The signal, with the handler that it has now, goes to the end of `sigstack`.
unfoldable pub signal_send : (proc signal : ℕ) → System → System
signal_send proc signal s =
    let pr : Proc = s.procs proc in
    record s {
      procs = update s.procs proc (record pr {
        sigstack = pr.sigstack ++ (record { signo = signal; handler = pr.signals signal } ∷ []);
      });
    }

unfoldable pub signal_handle : Proc → Signal → Cpu → Cpu
signal_handle proc sig c =
    if not (proc.signals sig.signo == 0) then c else sched_kill proc.threads c

-- The process of the current thread.
unfoldable pub curr_proc : Cpu → Option ℕ
curr_proc c = elim c.currthread [ none ↦ none | some t ↦ some (c.threads t).parent ]

-- What `schedule` does with the signals of the process `proc`.
unfoldable pub handle_first : Proc → List Signal → Cpu → Cpu
handle_first proc [] c = c
handle_first proc (sig ∷ sigs) c = signal_handle proc sig c

unfoldable pub take_signal : (procs : ℕ → Proc) → Cpu → Cpu
take_signal procs c = elim (curr_proc c) [
  | none ↦ c
  | some n ↦ handle_first (procs n) (procs n).sigstack c
]

-- `schedule` of a process whose signals are those of `procs`.
unfoldable pub schedule_with : (procs : ℕ → Proc) → (regs : ℕ) → Cpu → Outcome × Cpu
schedule_with procs regs c = schedule (take_signal procs) regs c

-- The signals of the process of the thread `u` without the first, if `u` is a main thread.
unfoldable pub pop_signal : (procs : ℕ → Proc) → Cpu → (u : ℕ) → ℕ → Proc
pop_signal procs c u =
    let pr : Proc = procs (c.threads u).parent in
    if (c.threads u).tid == 0
    then update procs (c.threads u).parent
        (record pr { sigstack = elim pr.sigstack [ [] ↦ [] | sig ∷ sigs ↦ sigs ] })
    else procs

unfoldable pub pop_after : (procs : ℕ → Proc) → Outcome → Cpu → ℕ → Proc
pop_after procs busy c = procs
pop_after procs hang c = procs
pop_after procs (enter_kernel u) c = pop_signal procs c u
pop_after procs (enter_user u) c = pop_signal procs c u

-- One call of `schedule`.
unfoldable pub schedule_system : (regs : ℕ) → System → Outcome × System
schedule_system regs s =
    let (o, c) = schedule_with s.procs regs s.cpu in
    (o, record { cpu = c; procs = pop_after s.procs o c })

-- While no signal is pending, nothing is done.
pub take_signal-none :
    (procs : ℕ → Proc) (c : Cpu) → ((n : ℕ) → (procs n).sigstack ≡ []) → take_signal procs c ≡ c
unfolding take_signal handle_first
take_signal-none procs c quiet = first (curr_proc c)
  where
    first :
        (o : Option ℕ)
        → (elim o [ none ↦ c | some n ↦ handle_first (procs n) (procs n).sigstack c ]) ≡ c
    first none = refl
    first (some n) = ap (λ sigs. handle_first (procs n) sigs c) (quiet n)
