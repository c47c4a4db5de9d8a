-- ===== src/Worker/Waits.antt =====
-- Every wait of a caller of a worker ends.
use fpga_ethash.Worker.{
  WorkerState, starting, started, stopping, stopped, killing, ThreadAt, no_thread, testing, marking,
  working, leaving, restoring, waiting, ended, Lock, unlocked, start_waits, stop_waits, kill_joins,
  same_state, thread_step, start_working, trigger_stop, has_thread, Step, thread_moves, starts,
  start_returns, run, wait_over, triggers, stops, stop_returns, kills, Reachable, new_worker, after,
}
use fpga_ethash.Base.{ℕ, ◌≤◌, arith, ◌≡◌, refl, sym, true, false, false≢true}

-- In the work loop or just behind it.
data Busy : ThreadAt → Type 0 where
  in_loop : Busy working
  behind_loop : Busy leaving

-- A state that the thread found and does not restore.
data Passing : WorkerState → Type 0 where
  was_started : Passing started
  was_stopping : Passing stopping

-- Behind the exchange to `Stopped`.
data Idle : ThreadAt → Type 0 where
  passing : {s : WorkerState} → Passing s → Idle (restoring s)
  in_wait : Idle waiting

-- A caller other than the destructor.
data Alive : Lock → Type 0 where
  alone : Alive unlocked
  by_start : Alive start_waits
  by_stop : Alive stop_waits

-- Which states, places of the thread and callers go together.
data Allowed : WorkerState → ThreadAt → Lock → Type 0 where
  fresh : Allowed starting no_thread unlocked
  spawned : Allowed starting testing start_waits
  spawned_marking : Allowed starting marking start_waits
  runs : {t : ThreadAt} → Busy t → Allowed started t unlocked
  runs_for_start : {t : ThreadAt} → Busy t → Allowed started t start_waits
  winds_down : {t : ThreadAt} {l : Lock} → Busy t → Alive l → Allowed stopping t l
  rests : {t : ThreadAt} {l : Lock} → Idle t → Alive l → Allowed stopped t l
  wakes : {t : ThreadAt} → Idle t → Allowed starting t start_waits
  killed_busy : {t : ThreadAt} → Busy t → Allowed killing t kill_joins
  killed_idle : {t : ThreadAt} → Idle t → Allowed killing t kill_joins
  killed_found : Allowed stopped (restoring killing) kill_joins
  killed_testing : Allowed killing testing kill_joins
  killed_ended : Allowed killing ended kill_joins

thread-Allowed :
    (s : WorkerState) (t : ThreadAt) (l : Lock)
    → Allowed s t l
    → Allowed (thread_step s t).0 (thread_step s t).1 l
unfolding thread_step
thread-Allowed s t l fresh = fresh
thread-Allowed s t l spawned = spawned_marking
thread-Allowed s t l spawned_marking = runs_for_start in_loop
thread-Allowed s t l (runs in_loop) = runs behind_loop
thread-Allowed s t l (runs behind_loop) = rests (passing was_started) alone
thread-Allowed s t l (runs_for_start in_loop) = runs_for_start behind_loop
thread-Allowed s t l (runs_for_start behind_loop) = rests (passing was_started) by_start
thread-Allowed s t l (winds_down in_loop a) = winds_down behind_loop a
thread-Allowed s t l (winds_down behind_loop a) = rests (passing was_stopping) a
thread-Allowed s t l (rests (passing was_started) a) = rests in_wait a
thread-Allowed s t l (rests (passing was_stopping) a) = rests in_wait a
thread-Allowed s t l (rests in_wait a) = rests in_wait a
thread-Allowed s t l (wakes (passing was_started)) = wakes in_wait
thread-Allowed s t l (wakes (passing was_stopping)) = wakes in_wait
thread-Allowed s t l (wakes in_wait) = spawned
thread-Allowed s t l (killed_busy in_loop) = killed_busy behind_loop
thread-Allowed s t l (killed_busy behind_loop) = killed_found
thread-Allowed s t l (killed_idle (passing was_started)) = killed_idle in_wait
thread-Allowed s t l (killed_idle (passing was_stopping)) = killed_idle in_wait
thread-Allowed s t l (killed_idle in_wait) = killed_testing
thread-Allowed s t l killed_found = killed_idle in_wait
thread-Allowed s t l killed_testing = killed_ended
thread-Allowed s t l killed_ended = killed_ended

start-Allowed :
    (s : WorkerState) (t : ThreadAt)
    → Allowed s t unlocked
    → Allowed (start_working s t).0 (start_working s t).1 start_waits
unfolding start_working
start-Allowed s t fresh = spawned
start-Allowed s t (runs in_loop) = runs_for_start in_loop
start-Allowed s t (runs behind_loop) = runs_for_start behind_loop
start-Allowed s t (winds_down in_loop a) = winds_down in_loop by_start
start-Allowed s t (winds_down behind_loop a) = winds_down behind_loop by_start
start-Allowed s t (rests (passing p) a) = wakes (passing p)
start-Allowed s t (rests in_wait a) = wakes in_wait

start_returns-Allowed :
    (s : WorkerState) (t : ThreadAt)
    → same_state s starting ≡ false
    → Allowed s t start_waits
    → Allowed s t unlocked
start_returns-Allowed s t out spawned = absurd (false≢true (sym out))
start_returns-Allowed s t out spawned_marking = absurd (false≢true (sym out))
start_returns-Allowed s t out (runs_for_start b) = runs b
start_returns-Allowed s t out (winds_down b a) = winds_down b alone
start_returns-Allowed s t out (rests i a) = rests i alone
start_returns-Allowed s t out (wakes i) = absurd (false≢true (sym out))

trigger-Allowed :
    (s : WorkerState) (t : ThreadAt) → Allowed s t unlocked → Allowed (trigger_stop s t) t unlocked
unfolding trigger_stop
trigger-Allowed s t fresh = fresh
trigger-Allowed s t (runs in_loop) = winds_down in_loop alone
trigger-Allowed s t (runs behind_loop) = winds_down behind_loop alone
trigger-Allowed s t (winds_down in_loop a) = winds_down in_loop alone
trigger-Allowed s t (winds_down behind_loop a) = winds_down behind_loop alone
trigger-Allowed s t (rests (passing p) a) = rests (passing p) alone
trigger-Allowed s t (rests in_wait a) = rests in_wait alone

stop-Allowed :
    (s : WorkerState) (t : ThreadAt)
    → has_thread t ≡ true
    → Allowed s t unlocked
    → Allowed (trigger_stop s t) t stop_waits
unfolding trigger_stop
stop-Allowed s t there fresh = absurd (false≢true there)
stop-Allowed s t there (runs in_loop) = winds_down in_loop by_stop
stop-Allowed s t there (runs behind_loop) = winds_down behind_loop by_stop
stop-Allowed s t there (winds_down in_loop a) = winds_down in_loop by_stop
stop-Allowed s t there (winds_down behind_loop a) = winds_down behind_loop by_stop
stop-Allowed s t there (rests (passing p) a) = rests (passing p) by_stop
stop-Allowed s t there (rests in_wait a) = rests in_wait by_stop

kill-Allowed :
    (s : WorkerState) (t : ThreadAt)
    → has_thread t ≡ true
    → Allowed s t unlocked
    → Allowed killing t kill_joins
kill-Allowed s t there fresh = absurd (false≢true there)
kill-Allowed s t there (runs b) = killed_busy b
kill-Allowed s t there (winds_down b a) = killed_busy b
kill-Allowed s t there (rests i a) = killed_idle i

Step-Allowed :
    {s : WorkerState} {t : ThreadAt} {l : Lock} {s' : WorkerState} {t' : ThreadAt} {l' : Lock}
    → Step s t l s' t' l'
    → Allowed s t l
    → Allowed s' t' l'
Step-Allowed {s} {t} {l} thread_moves ok = thread-Allowed s t l ok
Step-Allowed {s} {t} starts ok = start-Allowed s t ok
Step-Allowed {s} {t} (start_returns out) ok = start_returns-Allowed s t out ok
Step-Allowed {s} {t} triggers ok = trigger-Allowed s t ok
Step-Allowed {s} {t} (stops there) ok = stop-Allowed s t there ok
Step-Allowed {t} stop_returns (rests i a) = rests i alone
Step-Allowed {s} {t} (kills there) ok = kill-Allowed s t there ok

Reachable-Allowed : {s : WorkerState} {t : ThreadAt} {l : Lock} → Reachable s t l → Allowed s t l
Reachable-Allowed new_worker = fresh
Reachable-Allowed (after before step) = Step-Allowed step (Reachable-Allowed before)

wait_over-soon :
    (s : WorkerState) (t : ThreadAt) (l : Lock)
    → Allowed s t l
    → (n : ℕ) × (n ≤ 7) × (wait_over l (run n s t).0 (run n s t).1 ≡ true)
unfolding run
wait_over-soon s t l fresh = (0, omega arith, refl)
wait_over-soon s t l spawned = (2, omega arith, refl)
wait_over-soon s t l spawned_marking = (1, omega arith, refl)
wait_over-soon s t l (runs b) = (0, omega arith, refl)
wait_over-soon s t l (runs_for_start b) = (0, omega arith, refl)
wait_over-soon s t l (winds_down b alone) = (0, omega arith, refl)
wait_over-soon s t l (winds_down b by_start) = (0, omega arith, refl)
wait_over-soon s t l (winds_down in_loop by_stop) = (2, omega arith, refl)
wait_over-soon s t l (winds_down behind_loop by_stop) = (1, omega arith, refl)
wait_over-soon s t l (rests i alone) = (0, omega arith, refl)
wait_over-soon s t l (rests i by_start) = (0, omega arith, refl)
wait_over-soon s t l (rests i by_stop) = (0, omega arith, refl)
wait_over-soon s t l (wakes (passing was_started)) = (4, omega arith, refl)
wait_over-soon s t l (wakes (passing was_stopping)) = (4, omega arith, refl)
wait_over-soon s t l (wakes in_wait) = (3, omega arith, refl)
wait_over-soon s t l (killed_busy in_loop) = (5, omega arith, refl)
wait_over-soon s t l (killed_busy behind_loop) = (4, omega arith, refl)
wait_over-soon s t l (killed_idle (passing was_started)) = (3, omega arith, refl)
wait_over-soon s t l (killed_idle (passing was_stopping)) = (3, omega arith, refl)
wait_over-soon s t l (killed_idle in_wait) = (2, omega arith, refl)
wait_over-soon s t l killed_found = (3, omega arith, refl)
wait_over-soon s t l killed_testing = (1, omega arith, refl)
wait_over-soon s t l killed_ended = (0, omega arith, refl)

-- Whatever the callers and the thread have done, in any order, a caller that waits does not wait for
-- ever, as long as the work loop returns: within seven moves of the thread the state is what
-- `startWorking` or `stopWorking` waits for, or the thread that the destructor joins has ended.
pub waits_end :
    (s : WorkerState) (t : ThreadAt) (l : Lock)
    → Reachable s t l
    → (n : ℕ) × (n ≤ 7) × (wait_over l (run n s t).0 (run n s t).1 ≡ true)
waits_end s t l reached = wait_over-soon s t l (Reachable-Allowed reached)

end_of_thread : (s : WorkerState) (l : Lock) → Allowed s ended l → (s ≡ killing) × (l ≡ kill_joins)
end_of_thread s l (runs b) = elim b [ ]
end_of_thread s l (runs_for_start b) = elim b [ ]
end_of_thread s l (winds_down b a) = elim b [ ]
end_of_thread s l (rests i a) = elim i [ ]
end_of_thread s l (wakes i) = elim i [ ]
end_of_thread s l (killed_busy b) = elim b [ ]
end_of_thread s l (killed_idle i) = elim i [ ]
end_of_thread s l killed_ended = (refl, refl)

-- The thread ends for no reason but the destructor's kill: at its end, after any steps, the state says
-- that the worker is killed and the destructor is the caller that waits.
pub ended-killed :
    (s : WorkerState) (l : Lock) → Reachable s ended l → (s ≡ killing) × (l ≡ kill_joins)
ended-killed s l reached = end_of_thread s l (Reachable-Allowed reached)
