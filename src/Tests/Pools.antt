-- ===== src/Tests/Pools.antt =====
-- The pool manager at concrete inputs.
use fpga_ethash.FixedHash.{equal, is_nonzero}
use fpga_ethash.Work.{WorkPackage, empty_work, has_work}
use fpga_ethash.Farm.{Farm, farm_set_work}
use fpga_ethash.PoolManager.{
  stratum, Uri, Manager, Env, outstanding_operations, index_out_of_bounds, cannot_remove_active,
  is_connected, remove_connection, get_active_connection, rotate_connect,
}
use fpga_ethash.PoolManager.Erase.{Without, remove_connection-active}
use fpga_ethash.PoolManager.Retries.{Attempted, following, rotate_connect-retries}
use fpga_ethash.PoolManager.Rotation.{Trying, GaveUp, rotate_connect-outcome}
use fpga_ethash.PoolManager.Handlers.{on_work_received, stratum_mode, find_epoch}
use fpga_ethash.PoolManager.Handlers.Epoch.{
  Receivable, on_work_received-epoch, on_work_received-seed,
}
use fpga_ethash.Base.{
  ◌≢◌, get_elem?, ℕ, zero, suc, ◌+◌, ◌≤◌, ◌<◌, ◌≡◌, ◌⊎◌, inl, inr, refl, List, [], ◌∷◌, true, false,
  none, some, bind_eq, ◌∙◌, ok, err, length, replicate, pos, negsuc, ◌=ℤ◌, u32, if◌then◌else◌,
  arith,
}

abbrev uri : ℕ → Uri
uri n = record {
  text = n ∷ [];
  host = n ∷ [];
  family = stratum;
  unrecoverable = false;
  stratum_mode = 0;
}

-- "ethash", cut short.
abbrev ethash : List ℕ
ethash = 101 ∷ []

abbrev work : WorkPackage
work = record {
  job = [];
  boundary = replicate 32 9;
  header = replicate 32 1;
  seed = replicate 32 2;
  epoch = negsuc 0;
  block = pos 120000;
  start_nonce = 0;
  ex_size_bytes = 0;
  algo = ethash;
}

abbrev farm : Farm
farm = record {
  paused = false;
  miners = [];
  current_wp = empty_work ethash;
  current_ec = none;
  is_mining = false;
  farm_solutions = record { accepted = 0; rejected = 0; wasted = 0; failed = 0 };
  miner_solutions = [];
  no_eval = false;
  ergodicity = 0;
  nonce_scrambler = 17;
  nonce_segment_width = 32;
}

abbrev manager : Manager
manager = record {
  connections = uri 1 ∷ uri 2 ∷ uri 3 ∷ [];
  pool_failover_timeout = 0;
  report_hashrate = false;
  connection_max_retries = 3;
  delay_before_retry = 0;
  running = true;
  stopping = false;
  async_pending = false;
  connection_attempt = 3;
  connection_switches = 1;
  active_connection_idx = 2;
  current_wp = record work { epoch = pos 3 };
  failover_timer = false;
  submithr_timer = false;
  reconnect_timer = false;
  client = some (record { family = stratum; connection = some (uri 3); connected = false });
  epoch_changes = 1;
  farm = farm;
  actions = [];
}

abbrev env : Env
env = record { ethash = ethash; devices = true ∷ []; random = 5 }

remove_connection-active_example :
    ((false ≡ true) × (remove_connection 0 manager ≡ err outstanding_operations))
    ⊎ (((false ≡ false) × (3 ≤ 0) × (remove_connection 0 manager ≡ err index_out_of_bounds))
        ⊎ (((false ≡ false)
              × (0 < 3)
              × (zero ≡ manager.active_connection_idx)
              × (remove_connection 0 manager ≡ err cannot_remove_active))
            ⊎ ((false ≡ false)
                × (0 < 3)
                × (zero ≢ manager.active_connection_idx)
                × ((p' : Manager) × (remove_connection 0 manager ≡ ok p')
                    × Without 0 manager.connections p'.connections
                    × (get_active_connection p' ≡ get_active_connection manager)))))
remove_connection-active_example = remove_connection-active 0 manager

offline : is_connected manager ≡ false
unfolding is_connected
offline = refl

rotate_connect-outcome_example :
    (p' : Manager) × (rotate_connect manager ≡ ok p')
    × (Trying p' ⊎ GaveUp p')
    × (3 ≤ suc (length p'.connections))
    × (length p'.connections ≤ 3)
rotate_connect-outcome_example = rotate_connect-outcome manager offline (omega arith)

rotate_connect-retries_example :
    (p' : Manager) × (rotate_connect manager ≡ ok p')
    × (p'.connections ≡ manager.connections)
    × (((3 < 3) × (p'.active_connection_idx ≡ 2) × Attempted (uri 3) 4 p')
        ⊎ ((3 ≤ 3)
            × (p'.active_connection_idx ≡ following 2 3)
            × ((next : Uri) × (get_elem? manager.connections p'.active_connection_idx ≡ some next)
                × Attempted next 1 p')))
rotate_connect-retries_example =
    rotate_connect-retries manager (uri 3) offline (omega arith) (omega arith) (omega arith)
      (omega arith) refl refl

mode : stratum_mode manager ≡ some 0
unfolding stratum_mode
mode = bind_eq _ refl ∙ bind_eq _ refl

receivable : Receivable work manager
unfolding has_work is_nonzero
receivable = record { works = refl; divisible = inl refl; asked = inr (0, mode) }

on_work_received-epoch_example :
    (p' : Manager) × (on_work_received (λ _. pos 0) env work manager ≡ some p')
    × ((p'.current_wp.epoch =ℤ negsuc 0) ≡ false)
    × (p'.farm.current_wp.epoch ≡ p'.current_wp.epoch)
    × (p'.current_wp.header ≡ replicate 32 1)
on_work_received-epoch_example =
    on_work_received-epoch (λ _. pos 0) env work manager receivable (λ _. inl (120000, refl))

on_work_received-seed_example :
    (p' : Manager) × (on_work_received (λ _. pos 0) env work manager ≡ some p')
    × (p'.current_wp ≡ record work { epoch = p'.current_wp.epoch })
    × (farm_set_work env.random p'.current_wp manager.farm ≡ some p'.farm)
    × (((equal work.seed manager.current_wp.seed ≡ true)
          × (p'.current_wp.epoch ≡ pos 3)
          × (p'.epoch_changes ≡ 1))
        ⊎ ((equal work.seed manager.current_wp.seed ≡ false)
            × (p'.current_wp.epoch
                ≡ (if work.epoch =ℤ negsuc 0 then find_epoch (λ _. pos 0) work else work.epoch))
            × (p'.epoch_changes ≡ u32 (1 + 1))))
on_work_received-seed_example =
    on_work_received-seed (λ _. pos 0) env work manager 0 receivable refl mode refl
