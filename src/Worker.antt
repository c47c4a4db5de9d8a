-- ===== src/Worker.antt =====
-- libdevcore/Worker.cpp: the states of a worker, its thread and the callers that wait for it. A step is
-- one access of the atomic state; `x_work` lets one caller in at a time, and the lock is held while a
-- caller waits.
pub mod Waits
use fpga_ethash.Base.{ℕ, zero, suc, ◌≡◌, Bool, true, false, not, if◌then◌else◌}

pub data WorkerState : Type 0 where
  starting started stopping stopped killing : WorkerState

-- Where the thread is: before the test of its loop, before the exchange to `Started`, in the work
-- loop, before the exchange to `Stopped`, before the exchange that restores the state it found, in
-- the loop that waits, and at its end.
pub data ThreadAt : Type 0 where
  no_thread testing marking working leaving waiting ended : ThreadAt
  restoring : WorkerState → ThreadAt

-- Which caller holds the lock: `startWorking`, `stopWorking` or the destructor, in its wait.
pub data Lock : Type 0 where
  unlocked start_waits stop_waits kill_joins : Lock

pub record Worker : Type 0 where
  pub state : WorkerState
  pub thread : ThreadAt
  pub lock : Lock

abbrev pub same_state : WorkerState → WorkerState → Bool
same_state starting starting = true
same_state started started = true
same_state stopping stopping = true
same_state stopped stopped = true
same_state killing killing = true
same_state _ _ = false

-- `compare_exchange_strong`.
abbrev pub exchange_if : WorkerState → WorkerState → WorkerState → WorkerState
exchange_if expected desired s = if same_state s expected then desired else s

-- What the thread does next; a work loop that is left returns.
unfoldable pub thread_step : WorkerState → ThreadAt → WorkerState × ThreadAt
thread_step s no_thread = (s, no_thread)
thread_step killing testing = (killing, ended)
thread_step s testing = (s, marking)
thread_step s marking = (exchange_if starting started s, working)
thread_step s working = (s, leaving)
thread_step s leaving = (stopped, restoring s)
thread_step s (restoring killing) = (killing, waiting)
thread_step s (restoring starting) = (starting, waiting)
thread_step s (restoring _) = (s, waiting)
thread_step stopped waiting = (stopped, waiting)
thread_step s waiting = (s, testing)
thread_step s ended = (s, ended)

-- `startWorking` up to its wait.
unfoldable pub start_working : WorkerState → ThreadAt → WorkerState × ThreadAt
start_working s no_thread = (starting, testing)
start_working s t = (exchange_if stopped starting s, t)

-- `triggerStopWorking`, and `stopWorking` up to its wait.
unfoldable pub trigger_stop : WorkerState → ThreadAt → WorkerState
trigger_stop s no_thread = s
trigger_stop s t = exchange_if started stopping s

-- Whether there is a thread, `m_work`.
abbrev pub has_thread : ThreadAt → Bool
has_thread no_thread = false
has_thread t = true

-- The steps of a worker. The thread moves at any time, or stays where it is for as long as it likes.
pub data Step : WorkerState → ThreadAt → Lock → WorkerState → ThreadAt → Lock → Type 0 where
  thread_moves :
      {s : WorkerState} {t : ThreadAt} {l : Lock}
      → Step s t l (thread_step s t).0 (thread_step s t).1 l
  starts :
      {s : WorkerState} {t : ThreadAt}
      → Step s t unlocked (start_working s t).0 (start_working s t).1 start_waits
  start_returns :
      {s : WorkerState} {t : ThreadAt}
      → same_state s starting ≡ false
      → Step s t start_waits s t unlocked
  triggers : {s : WorkerState} {t : ThreadAt} → Step s t unlocked (trigger_stop s t) t unlocked
  stops :
      {s : WorkerState} {t : ThreadAt}
      → has_thread t ≡ true
      → Step s t unlocked (trigger_stop s t) t stop_waits
  stop_returns : {t : ThreadAt} → Step stopped t stop_waits stopped t unlocked
  kills :
      {s : WorkerState} {t : ThreadAt}
      → has_thread t ≡ true
      → Step s t unlocked killing t kill_joins

-- The states that a new worker can get into.
pub data Reachable : WorkerState → ThreadAt → Lock → Type 0 where
  new_worker : Reachable starting no_thread unlocked
  after :
      {s s' : WorkerState} {t t' : ThreadAt} {l l' : Lock}
      → Reachable s t l
      → Step s t l s' t' l'
      → Reachable s' t' l'

-- The thread moves `n` times.
pub run : ℕ → WorkerState → ThreadAt → WorkerState × ThreadAt
unfolding thread_step
run zero s t = (s, t)
run (suc n) s t = let next = thread_step s t in run n next.0 next.1

-- Whether the wait of the caller is over: `startWorking` and `stopWorking` look at the state, the
-- destructor joins the thread.
abbrev pub wait_over : Lock → WorkerState → ThreadAt → Bool
wait_over unlocked s t = true
wait_over start_waits s t = not (same_state s starting)
wait_over stop_waits s t = same_state s stopped
wait_over kill_joins s ended = true
wait_over kill_joins s t = false
