-- ===== src/PoolManager/Handlers.antt =====
-- libpoolprotocols/PoolManager.cpp: what the client, the farm and the timers call. `none` stands for
-- a null pointer that is followed, or work that the farm cannot divide.
pub mod Epoch
use fpga_ethash.FixedHash.{equal, zero_hash}
use fpga_ethash.Work.{WorkPackage, Solution, has_work}
use fpga_ethash.Farm.{
  Farm, farm_set_work, farm_start, farm_stop, farm_pause, farm_resume, shuffle, acc_accepted,
  acc_rejected, account_solution,
}
use fpga_ethash.PoolManager.{
  Manager, Env, Client, Uri, Action, disconnect, connect, submit_hashrate, submit_solution,
  post_rotate_connect, emit, is_connected, count_switch,
}
use fpga_ethash.Base.{
  ℕ, zero, suc, ◌+◌, ◌-◌, ◌*◌, ◌/◌, ◌%◌, List, [], Bool, true, false, not, ◌&&◌, ◌||◌, ◌==◌, ltb,
  if◌then◌else◌, Option, none, some, bind, u32, ℤ, pos, negsuc, ◌=ℤ◌,
}

pub stop_farm : Farm → Farm
stop_farm f = if f.is_mining then farm_stop f else f

-- The handler of `onMinerRestart`.
pub on_miner_restart : Env → Manager → Manager
unfolding stop_farm
on_miner_restart env p = record p { farm = farm_start env.ethash env.devices (stop_farm p.farm) }

-- The handler of `onSolutionFound`: a solution without a connection is dropped.
pub on_solution_found : Solution → Manager → Manager
on_solution_found s p = if is_connected p then emit (submit_solution s) p else p

-- The handler of `onConnected`.
pub on_connected : Env → Manager → Manager
on_connected env p =
    let shuffled = if p.farm.ergodicity == 1 then shuffle env.random p.farm else p.farm in
    let farm =
      if not shuffled.is_mining
      then farm_start env.ethash env.devices shuffled
      else if shuffled.paused
      then farm_resume shuffled
      else shuffled in
    record p {
      connection_attempt = 0;
      current_wp = record p.current_wp { job = []; header = zero_hash 32 };
      failover_timer = not (p.active_connection_idx == 0) && ltb 0 p.pool_failover_timeout;
      farm = farm;
      submithr_timer = p.report_hashrate || p.submithr_timer;
      async_pending = false;
    }

-- `p_client->unsetConnection()`.
pub unset_connection : Option Client → Option Client
unset_connection none = none
unset_connection (some c) = some (record c { connection = none })

-- The handler of `onDisconnected`.
pub on_disconnected : Manager → Manager
unfolding unset_connection stop_farm
on_disconnected p =
    let p' = record p {
      client = unset_connection p.client;
      current_wp = record p.current_wp { header = zero_hash 32 };
      failover_timer = false;
      submithr_timer = false;
    } in
    if p.stopping
    then record p' { farm = stop_farm p.farm; running = false }
    else emit post_rotate_connect (record p' { async_pending = true; farm = farm_pause p.farm })

unfoldable pub stratum_mode : Manager → Option ℕ
stratum_mode p = bind p.client (λ c. bind c.connection (λ uri. some uri.stratum_mode))

-- Whether the work starts an epoch; the mode of the connection is asked for only when there is one
-- already.
pub is_new_epoch : WorkPackage → Manager → Option Bool
unfolding stratum_mode
is_new_epoch wp p =
    if p.current_wp.epoch =ℤ negsuc 0
    then some true
    else bind (stratum_mode p) λ mode. some (
        if mode == 3
        then not (wp.epoch =ℤ p.current_wp.epoch)
        else not (equal wp.seed p.current_wp.seed))

-- The epoch of work that names none: from its block, or from its seed by `ethash::find_epoch_number`.
pub find_epoch : (List ℕ → ℤ) → WorkPackage → ℤ
find_epoch find_epoch_number wp = elim wp.block [
  | pos block ↦ pos (block / 30000)
  | negsuc _ ↦ find_epoch_number wp.seed
]

-- The epoch that the work gets.
pub chosen_epoch : (List ℕ → ℤ) → Bool → WorkPackage → ℤ → ℤ
unfolding find_epoch
chosen_epoch find_epoch_number true wp current =
    if wp.epoch =ℤ negsuc 0 then find_epoch find_epoch_number wp else wp.epoch
chosen_epoch find_epoch_number false wp current = current

-- The handler of `onWorkReceived`.
pub on_work_received : (List ℕ → ℤ) → Env → WorkPackage → Manager → Option Manager
unfolding is_new_epoch chosen_epoch
on_work_received find_epoch_number env wp p =
    if not (has_work wp)
    then some p
    else bind (is_new_epoch wp p) λ new_epoch.
      let work = record wp {
        epoch = chosen_epoch find_epoch_number new_epoch wp p.current_wp.epoch;
      } in
      bind (farm_set_work env.random work p.farm) λ farm. some (record p {
        current_wp = work;
        epoch_changes = if new_epoch then u32 (p.epoch_changes + 1) else p.epoch_changes;
        farm = farm;
      })

-- The handlers of `onSolutionAccepted` and `onSolutionRejected`; an exception of the farm passes on.
pub on_solution_accepted : ℕ → Manager → Manager × Bool
on_solution_accepted idx p =
    let r = account_solution idx acc_accepted p.farm in (record p { farm = r.0 }, r.1)

pub on_solution_rejected : ℕ → Manager → Manager × Bool
on_solution_rejected idx p =
    let r = account_solution idx acc_rejected p.farm in (record p { farm = r.0 }, r.1)

-- `stop`, up to the loop that waits for `m_running` to fall.
pub stop : Manager → Manager
unfolding stop_farm
stop p =
    let p' = record p { async_pending = true; stopping = true } in
    if not p.running then p else if is_connected p then emit disconnect p' else record p' {
      failover_timer = false;
      submithr_timer = false;
      reconnect_timer = false;
      farm = stop_farm p.farm;
    }

-- The timers' handlers; the Boolean is whether there is an error, as when the timer was cancelled.
pub failovertimer_elapsed : Bool → Manager → Option Manager
failovertimer_elapsed true p = some p
failovertimer_elapsed false p =
    let p0 = record p { failover_timer = false } in
    if not p.running
    then some p0
    else if p.active_connection_idx == 0
    then some p0
    else bind p.client λ client. some (
        emit disconnect
          (count_switch (record p0 { active_connection_idx = 0; connection_attempt = 0 })))

pub submithrtimer_elapsed : Bool → Manager → Manager
submithrtimer_elapsed true p = p
submithrtimer_elapsed false p =
    if not p.running
    then record p { submithr_timer = false }
    else let p' = record p { submithr_timer = true } in
      if is_connected p then emit submit_hashrate p' else p'

pub reconnecttimer_elapsed : Bool → Manager → Manager
reconnecttimer_elapsed true p = p
reconnecttimer_elapsed false p =
    let p' = record p { reconnect_timer = false } in
    elim p.client [
      | none ↦ p'
      | some client ↦ if p.running && not client.connected then emit connect p' else p'
    ]
