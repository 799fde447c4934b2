-- ===== src/Sched/Tests.antt =====
-- Runs of the scheduler and of a semaphore, and the theorems at concrete inputs.
use kernel_old.Base.{
  List, ap, ◌∙◌, inl, ℕ, ◌≡◌, refl, true, false, some, [], ◌∷◌, arith, ◌==◌, if◌then◌else◌,
}
use kernel_old.Sched.Signals.{
  Proc, take_signal, take_signal-none, System, signal_send, schedule_system,
}
use kernel_old.Sched.Signals.Killing.{In, Killed, schedule_system-signal_send}
use kernel_old.Sched.{
  run_next, save_current, ThreadState, running, ready, Thread, Cpu, is_running, schedule,
  thread_kill, sched_kill, enter_user,
}
use kernel_old.Sched.Threads.{Current, next, rounds, schedule-next, rounds-nth}
use kernel_old.Sched.Semaphores.{
  Sem, sem_create, sem_acquire, Mutex, created, acquired, Counts, sem-holders,
}

abbrev thread : ThreadState → Thread
thread st = record { parent = 0; state = st; regs = 0; kernel_mode = false; sleepexp = 0; tid = 1 }

-- Threads 2 and 3 wait behind thread 1.
abbrev cpu : Cpu
cpu = record {
  lock = false;
  currthread = some 1;
  run_queue = 2 ∷ 3 ∷ [];
  threads = λ t. thread (if t == 1 then running else ready);
}

schedule-enters : (schedule (λ c. c) 7 cpu).0 ≡ enter_user 2
unfolding schedule save_current run_next is_running
schedule-enters = refl

schedule-saves : ((schedule (λ c. c) 7 cpu).1.threads 1).regs ≡ 7
unfolding schedule save_current run_next is_running
schedule-saves = refl

-- A thread that is killed while it waits in the queue runs all the same.
killed-runs : Current (next (λ c. c) 7 (sched_kill (2 ∷ []) cpu)) 2 (3 ∷ 1 ∷ [])
unfolding sched_kill thread_kill is_running
killed-runs =
    schedule-next (λ c. c) (λ c t q h. h) 7 (sched_kill (2 ∷ []) cpu) 1 2 (3 ∷ [])
      (refl, refl, refl)

-- Processes without a pending signal, whose handling changes nothing.
abbrev quiet : ℕ → Proc
quiet n = record { threads = []; signals = λ _. 0; sigstack = [] }

kept :
    (c : Cpu) (t : ℕ) (q : List ℕ)
    → (c.currthread ≡ some t) × ((c.threads t).state ≡ running) × (c.run_queue ≡ q)
    → ((take_signal quiet c).currthread ≡ some t)
      × (((take_signal quiet c).threads t).state ≡ running)
      × ((take_signal quiet c).run_queue ≡ q)
kept c t q (current, is, queue) =
    let same : take_signal quiet c ≡ c = take_signal-none quiet c (λ n. refl) in
    (
      ap (λ (x : Cpu). x.currthread) same ∙ current,
      ap (λ (x : Cpu). (x.threads t).state) same ∙ is,
      ap (λ (x : Cpu). x.run_queue) same ∙ queue,
    )

schedule-next_example : Current (next (take_signal quiet) 7 cpu) 2 (3 ∷ 1 ∷ [])
unfolding is_running
schedule-next_example = schedule-next (take_signal quiet) kept 7 cpu 1 2 (3 ∷ []) (refl, refl, refl)

rounds-nth_example : Current (rounds (take_signal quiet) kept (7 ∷ 8 ∷ []) cpu) 3 (1 ∷ 2 ∷ [])
unfolding Current
rounds-nth_example =
    rounds-nth (take_signal quiet) kept (7 ∷ 8 ∷ []) cpu 1 3 (2 ∷ []) [] (refl, refl, refl, refl)
      refl

abbrev loads : ℕ → ℕ
loads i = if i == 1 then 2 else 5

sem-holders_example : Counts 1 1 ((sem_acquire (sem_acquire (sem_create 1) cpu).1 cpu).1)
unfolding sem_acquire sem_create
sem-holders_example =
    sem-holders 1 1 (sem_acquire (sem_acquire (sem_create 1) cpu).1 cpu).1 (omega arith)
      (acquired (sem_acquire (sem_create 1) cpu).1 cpu (acquired (sem_create 1) cpu created))

abbrev taken : Mutex
taken = record { proc = true; waitlst = 4 ∷ [] }

abbrev full : Sem
full = record { curr_cnt = 1; max_cnt = 1; waitlst = 4 ∷ [] }

-- Thread 1 runs and thread 2 waits, each the main thread of the process with its number.
abbrev main_thread : ℕ → Thread
main_thread i = record {
  parent = i;
  state = if i == 1 then running else ready;
  regs = 0;
  kernel_mode = false;
  sleepexp = 0;
  tid = 0;
}

abbrev two_procs : System
two_procs = record {
  cpu = record { lock = false; currthread = some 1; run_queue = 2 ∷ []; threads = main_thread };
  procs = λ n. record { threads = n ∷ []; signals = λ _. 0; sigstack = [] };
}

alone : In 2 (2 ∷ [])
unfolding In
alone = inl refl

schedule_system-signal_send_example :
    Killed (schedule_system 7 (signal_send 2 1 two_procs)).1.cpu 2 (1 ∷ []) (2 ∷ [])
    × ((save_current (schedule_system 7 (signal_send 2 1 two_procs)).1.cpu 8).run_queue ≡ 1 ∷ [])
unfolding is_running
schedule_system-signal_send_example =
    schedule_system-signal_send two_procs 1 7 8 1 2 [] (refl, refl, refl)
      (λ e. absurd (omega (arith, e))) refl refl refl alone
