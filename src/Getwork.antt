-- ===== src/Getwork.antt =====
-- libpoolprotocols/getwork/EthGetworkClient.h and EthGetworkClient.cpp: a client that asks a node for
-- work over HTTP, one connection for each request. Times are milliseconds of the steady clock. What is
-- handed to the socket, the resolver or a handler of the pool manager is an event; every handler is
-- registered. An exception of a handler ends the thread of the io service.
-- The connection that the manager's handler of a disconnection takes away is still read here until the
-- next one is set; the code has none then.
pub mod Response
pub mod Http
pub mod Handlers
use fpga_ethash.CommonData.{add, dont_add, to_hex_number}
use fpga_ethash.FixedHash.{hex}
use fpga_ethash.Work.{WorkPackage, Solution}
use fpga_ethash.Stratum.{
  Text, Connection, Session, Field, Request, Endpoint, number, text, texts, assign, append,
}
use fpga_ethash.Stratum.Login.{new_session}
use fpga_ethash.Stratum.Send.{solution_id}
use fpga_ethash.Stratum.Sockets.{needs_resolver}
use fpga_ethash.Base.{
  ℕ, ◌+◌, ◌-◌, ◌/◌, List, [], ◌∷◌, ◌++◌, Bool, true, false, not, ◌&&◌, Option, some, none, is_empty,
  ltb, max, if◌then◌else◌, Result, ok, err, codes, text_eq,
}

pub data Event : Type 0 where
  resolve : Text → ℕ → Event
  async_connect : Endpoint → Event
  post_request : (path host : Text) → Request → Event
  async_read : Event
  on_connected on_disconnected : Event
  on_work_received : WorkPackage → Event
  on_solution_accepted : (delay miner_index : ℕ) → (stale : Bool) → Event
  on_solution_rejected : (delay miner_index : ℕ) → Event

-- How a handler goes wrong: by an exception, or with undefined behaviour.
pub data Fault : Type 0 where
  thrown undefined : Fault

-- How an operation of the socket ended.
pub data Completion : Type 0 where
  success aborted failed : Completion

-- The timer is the milliseconds until it runs, if it is set. A request is queued as the object whose
-- text is sent, which is never empty. The greatest id of a solution has no value to begin with.
pub record Client : Type 0 where
  pub conn : Connection
  pub session : Option Session
  pub connected : Bool
  pub connecting : Bool
  pub tx_pending : Bool
  pub tx_queue : List Request
  pub socket_open : Bool
  pub endpoints : List Endpoint
  pub endpoint : Option Endpoint
  pub pending_request : Request
  pub pending_timestamp : ℕ
  pub getwork_timer : Option ℕ
  pub farm_recheck_period : ℕ
  pub work_timeout : ℕ
  pub current : WorkPackage
  pub current_timestamp : ℕ
  pub solution_submitted_max_id : ℕ
  pub events : List Event

abbrev pub log : Event → Client → Client
log e c = record c { events = c.events ++ e ∷ [] }

-- A session's minutes are added to the connection's.
abbrev add_duration : ℕ → Option Session → Connection → Connection
add_duration now none u = u
add_duration now (some s) u = record u {
  total_duration = u.total_duration + (now - s.start) / 60000;
}

unfoldable pub disconnect : ℕ → Client → Client
disconnect now c = log on_disconnected (record c {
  conn = add_duration now c.session c.conn;
  connected = false;
  session = none;
  connecting = false;
  tx_pending = false;
  getwork_timer = none;
  tx_queue = [];
})

unfoldable pub begin_connect : ℕ → Client → Client
unfolding disconnect
begin_connect now c = elim c.endpoints [
  | [] ↦ disconnect now c
  | e ∷ rest ↦ log (async_connect e) (record c { endpoint = some e; socket_open = true })
]

unfoldable pub send : ℕ → Request → Client → Client
unfolding begin_connect
send now req c =
    let queued = record c { tx_queue = c.tx_queue ++ req ∷ [] } in
    if c.tx_pending then queued else begin_connect now (record queued { tx_pending = true })

-- The request for work that the constructor builds.
abbrev pub get_work : Request
get_work =
    (codes "id", number 1)
    ∷ (codes "jsonrpc", text (codes "2.0"))
    ∷ (codes "method", text (codes "eth_getWork"))
    ∷ (codes "params", texts [])
    ∷ []

unfoldable pub connect : ℕ → Client → Client
unfolding send
connect now c =
    if c.connecting
    then c
    else (let c' = record c {
      connecting = true;
      getwork_timer = none;
      endpoints = [];
      endpoint = none;
    } in
        if needs_resolver c.conn.host_name_type
        then log (resolve c.conn.host c.conn.port) c'
        else send now get_work (record c' { endpoints = (c.conn.host, c.conn.port) ∷ [] }))

-- `none` is an error of the resolver.
unfoldable pub handle_resolve : ℕ → Option (List Endpoint) → Client → Client
unfolding send
handle_resolve now none c = disconnect now c
handle_resolve now (some found) c =
    send now get_work (record c { endpoints = c.endpoints ++ found })

-- `pop` of the endpoints, of which these are left; of an empty queue it is undefined.
abbrev pub pop_from : List Endpoint → (Client → Client) → Client → Result Fault Client
pop_from [] next c = err undefined
pop_from (e ∷ rest) next c = ok (next (record c { endpoints = rest }))

unfoldable pub pop_endpoint : (Client → Client) → Client → Result Fault Client
pop_endpoint next c = pop_from c.endpoints next c

abbrev pub open_session : ℕ → Client → Client
open_session now c =
    if c.connecting
    then record (log on_connected (record c {
      connected = true;
      session = some (record (new_session now) { subscribed = true; authorized = true });
      connecting = false;
    })) { current_timestamp = now }
    else c

-- The first request that waits is sent.
abbrev pub write_next : ℕ → Client → Client
write_next now c = elim c.tx_queue [
  | [] ↦ record c { tx_pending = false }
  | req ∷ rest ↦
      log (post_request (if is_empty c.conn.path then codes "/" else c.conn.path) c.conn.host req)
        (record c { tx_queue = rest; pending_request = req; pending_timestamp = now })
]

unfoldable pub retry : ℕ → Completion → Client → Result Fault Client
unfolding pop_endpoint begin_connect
retry now aborted c = ok c
retry now success c = pop_endpoint (begin_connect now) c
retry now failed c = pop_endpoint (begin_connect now) c

abbrev pub is_success : Completion → Bool
is_success success = true
is_success aborted = false
is_success failed = false

unfoldable pub handle_connect : ℕ → Completion → Client → Result Fault Client
unfolding retry
handle_connect now result c =
    if is_success result && c.socket_open
    then ok (write_next now (open_session now c))
    else retry now result c

unfoldable pub handle_write : ℕ → Completion → Client → Result Fault Client
unfolding retry
handle_write now result c = if is_success result then ok (log async_read c) else retry now result c

abbrev param : Text → Request → Request
param = append (codes "params")

unfoldable pub submit_hashrate : ℕ → ℕ → Text → Client → Client
unfolding send
submit_hashrate now rate id c = elim c.session [
  | none ↦ c
  | some s ↦
      send now
        (param id (
          param (to_hex_number rate add 16) (
            (codes "id", number 9)
            ∷ (codes "jsonrpc", text (codes "2.0"))
            ∷ (codes "method", text (codes "eth_submitHashrate"))
            ∷ (codes "params", texts [])
            ∷ [])))
        c
]

-- The message that submits a solution.
unfoldable pub work_request : Solution → Request
work_request solution = param (hex solution.mix_hash add) (
    param (hex solution.work.header add) (
      param (codes "0x" ++ to_hex_number solution.nonce dont_add 16) (
        (codes "id", number (solution_id solution))
        ∷ (codes "jsonrpc", text (codes "2.0"))
        ∷ (codes "method", text (codes "eth_submitWork"))
        ∷ (codes "params", texts [])
        ∷ [])))

unfoldable pub submit_solution : ℕ → Solution → Client → Client
unfolding send work_request
submit_solution now solution c = elim c.session [
  | none ↦ c
  | some s ↦ send now (work_request solution) (record c {
    solution_submitted_max_id = max c.solution_submitted_max_id (solution_id solution);
  })
]

-- `cancelled` is whether the wait ended with an error.
unfoldable pub getwork_timer_elapsed : ℕ → (cancelled : Bool) → Client → Result Fault Client
unfolding send pop_endpoint
getwork_timer_elapsed now cancelled c =
    if cancelled
    then ok c
    else if ltb c.work_timeout ((now - c.current_timestamp) / 1000)
    then pop_endpoint (disconnect now) (record c { getwork_timer = none })
    else ok (send now get_work (record c { getwork_timer = none }))
