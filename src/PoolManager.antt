-- ===== src/PoolManager.antt =====
-- libpoolprotocols/PoolManager.cpp: which pool is connected to, and what reaches the farm. The calls
-- of the client, of the operating system and of the io service are logged in order; a timer is
-- whether it waits. The text of the log and the name of the selected host are left out.
pub mod Rotation
pub mod Retries
pub mod Erase
pub mod Handlers
use fpga_ethash.FixedHash.{equal, zero_hash, is_nonzero}
use fpga_ethash.Work.{WorkPackage, Solution, has_work}
use fpga_ethash.Farm.{
  Farm, farm_set_work, farm_start, farm_stop, farm_pause, farm_resume, shuffle, acc_accepted,
  acc_rejected, account_solution,
}
use fpga_ethash.Base.{
  ℕ, zero, suc, ◌+◌, ◌-◌, ◌*◌, ◌/◌, ◌%◌, ◌^◌, List, [], ◌∷◌, ◌++◌, Bool, true, false, not, ◌&&◌,
  ◌||◌, ◌==◌, ltb, leb, if◌then◌else◌, Option, none, some, length, get_elem?, take, drop, u32, ℤ,
  pos, negsuc, ◌=ℤ◌, Result, ok, err, ◌>>=◌, throw_if,
}

pub data ProtocolFamily : Type 0 where
  getwork stratum simulation : ProtocolFamily

-- What the manager asks of a `URI`.
pub record Uri : Type 0 where
  pub text : List ℕ
  pub host : List ℕ
  pub family : ProtocolFamily
  pub unrecoverable : Bool
  pub stratum_mode : ℕ

-- "exit".
abbrev pub exit_host : List ℕ
exit_host = 101 ∷ 120 ∷ 105 ∷ 116 ∷ []

pub record Client : Type 0 where
  pub family : ProtocolFamily
  pub connection : Option Uri
  pub connected : Bool

pub data Action : Type 0 where
  connect : Action
  disconnect : Action
  post_rotate_connect : Action
  raise_sigterm : Action
  submit_hashrate : Action
  submit_solution : Solution → Action

-- The exceptions: `std::runtime_error` with its three messages and "Not found.", and `std::out_of_range`.
pub data PoolError : Type 0 where
  outstanding_operations index_out_of_bounds cannot_remove_active not_found out_of_range : PoolError

pub record Manager : Type 0 where
  pub connections : List Uri
  pub pool_failover_timeout : ℕ
  pub report_hashrate : Bool
  pub connection_max_retries : ℕ
  pub delay_before_retry : ℕ
  pub running : Bool
  pub stopping : Bool
  pub async_pending : Bool
  pub connection_attempt : ℕ
  pub connection_switches : ℕ
  pub active_connection_idx : ℕ
  pub current_wp : WorkPackage
  pub failover_timer : Bool
  pub submithr_timer : Bool
  pub reconnect_timer : Bool
  pub client : Option Client
  pub epoch_changes : ℕ
  pub farm : Farm
  pub actions : List Action

-- What a call of the farm reads from outside: the default algorithm, the devices and a random number.
pub record Env : Type 0 where
  pub ethash : List ℕ
  pub devices : List Bool
  pub random : ℕ

pub emit : Action → Manager → Manager
emit a p = record p { actions = p.actions ++ (a ∷ []) }

unfoldable pub is_connected : Manager → Bool
is_connected p = elim p.client [ none ↦ false | some c ↦ c.connected ]

-- `m_Settings.connections.at(idx)`.
pub connection_at : ℕ → Manager → Result PoolError Uri
connection_at idx p = elim (get_elem? p.connections idx) [
  | none ↦ err out_of_range
  | some uri ↦ ok uri
]

-- `connections.erase(connections.begin() + idx)`.
pub erase : ℕ → List Uri → List Uri
erase idx uris = take idx uris ++ drop (suc idx) uris

pub add_connection : Uri → Manager → Manager
add_connection uri p = record p { connections = p.connections ++ (uri ∷ []) }

pub remove_connection : ℕ → Manager → Result PoolError Manager
unfolding erase
remove_connection idx p =
    if p.async_pending
    then err outstanding_operations
    else if leb (length p.connections) idx
    then err index_out_of_bounds
    else if idx == p.active_connection_idx
    then err cannot_remove_active
    else ok (record p {
      connections = erase idx p.connections;
      active_connection_idx =
          if ltb idx p.active_connection_idx
          then p.active_connection_idx - 1
          else p.active_connection_idx;
    })

pub count_switch : Manager → Manager
count_switch p = record p { connection_switches = u32 (p.connection_switches + 1) }

pub set_active_common : ℕ → Manager → Result PoolError Manager
unfolding emit count_switch
set_active_common idx p =
    if p.async_pending
    then err outstanding_operations
    else if not (idx == p.active_connection_idx)
    then ok (
        emit disconnect (record (count_switch p) {
          async_pending = true;
          active_connection_idx = idx;
          connection_attempt = 0;
        }))
    else ok p

pub set_active_connection : ℕ → Manager → Result PoolError Manager
unfolding set_active_common
set_active_connection idx p =
    if leb (length p.connections) idx then err index_out_of_bounds else set_active_common idx p

-- The index of the first connection from `idx` on with the text; `iequals` is boost's.
pub find_text : (List ℕ → List ℕ → Bool) → List ℕ → ℕ → List Uri → Option ℕ
find_text iequals text idx [] = none
find_text iequals text idx (uri ∷ uris) =
    let rest = find_text iequals text (idx + 1) uris in
    if iequals uri.text text then some idx else rest

pub set_active_connection_text :
    (List ℕ → List ℕ → Bool) → List ℕ → Manager → Result PoolError Manager
unfolding find_text set_active_common
set_active_connection_text iequals text p = elim (find_text iequals text 0 p.connections) [
  | none ↦ err not_found
  | some idx ↦ set_active_common idx p
]

pub get_active_connection : Manager → Option Uri
get_active_connection p = get_elem? p.connections p.active_connection_idx

pub start : Manager → Manager
unfolding emit count_switch
start p =
    emit post_rotate_connect (count_switch (record p { running = true; async_pending = true }))

-- An index past the end goes back to the first connection.
pub wrap_index : Manager → Manager
wrap_index p =
    if leb (length p.connections) p.active_connection_idx
    then record p { active_connection_idx = 0 }
    else p

-- The first part of `rotateConnect`: which connection is tried next.
pub choose : Uri → Manager → Manager
unfolding erase wrap_index count_switch
choose uri p =
    if uri.unrecoverable
    then count_switch (
        wrap_index (record p {
          connections = erase p.active_connection_idx p.connections;
          connection_attempt = 0;
        }))
    else if leb p.connection_max_retries p.connection_attempt
    then if length p.connections == 1
      then record p { connections = erase p.active_connection_idx p.connections }
      else count_switch (
          wrap_index (record p {
            connection_attempt = 0;
            active_connection_idx = u32 (p.active_connection_idx + 1);
          }))
    else p

-- The second part where there is a connection: a new client, and the call or the timer.
pub try_connection : Uri → Manager → Manager
unfolding emit
try_connection uri p =
    let attempt = u32 (p.connection_attempt + 1) in
    let p' = record p {
      client = some (record { family = uri.family; connection = some uri; connected = false });
      connection_attempt = attempt;
    } in
    if ltb 1 attempt && ltb 0 p.delay_before_retry
    then record p' { reconnect_timer = true }
    else emit connect p'

-- The second part where there is none.
pub give_up : Manager → Manager
unfolding emit
give_up p =
    emit raise_sigterm
      (record p { running = false; farm = if p.farm.is_mining then farm_stop p.farm else p.farm })

pub select : Manager → Result PoolError Manager
unfolding try_connection give_up connection_at
select p =
    if length p.connections == 0
    then ok (give_up p)
    else connection_at p.active_connection_idx p >>= λ uri.
        ok (if equal uri.host exit_host then give_up p else try_connection uri p)

pub rotate_connect : Manager → Result PoolError Manager
unfolding is_connected wrap_index connection_at choose select
rotate_connect p =
    if is_connected p
    then ok p
    else connection_at (wrap_index p).active_connection_idx (wrap_index p) >>= λ uri.
        select (choose uri (wrap_index p))
