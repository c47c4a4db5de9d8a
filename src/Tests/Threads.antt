-- ===== src/Tests/Threads.antt =====
-- A worker that is started and stopped, and one that is killed.
use fpga_ethash.Worker.{
  started, unlocked, stopping, killing, working, ended, stop_waits, kill_joins, run, wait_over,
  thread_moves, starts, start_returns, stops, kills, Reachable, new_worker, after, thread_step,
  start_working, trigger_stop,
}
use fpga_ethash.Worker.Waits.{waits_end, ended-killed}
use fpga_ethash.Base.{ℕ, ◌≤◌, ◌≡◌, refl, true}

-- Started, and its caller gone, with the thread in the work loop.
at_work : Reachable started working unlocked
unfolding thread_step start_working
at_work =
    after (after (after (after new_worker starts) thread_moves) thread_moves) (start_returns refl)

asked_to_stop : Reachable stopping working stop_waits
unfolding trigger_stop
asked_to_stop = after at_work (stops refl)

waits_end_example :
    (n : ℕ) × (n ≤ 7)
    × (wait_over stop_waits (run n stopping working).0 (run n stopping working).1 ≡ true)
waits_end_example = waits_end stopping working stop_waits asked_to_stop

-- Killed at work: the thread leaves the loop, puts the kill back and ends.
killed_at_work : Reachable killing ended kill_joins
unfolding thread_step
killed_at_work =
    after
      (after
        (after (after (after (after at_work (kills refl)) thread_moves) thread_moves) thread_moves)
        thread_moves)
      thread_moves

ended-killed_example : (killing ≡ killing) × (kill_joins ≡ kill_joins)
ended-killed_example = ended-killed killing kill_joins killed_at_work
