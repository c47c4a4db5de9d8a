-- ===== src/Stratum.antt =====
-- libpoolprotocols/stratum/EthStratumClient.h: the state of a stratum client. Times are milliseconds
-- of the steady clock. What is handed to the io service, to a socket or to a handler of the pool
-- manager is logged in order as an event; every handler is registered. The bytes of the two socket
-- buffers, TLS certificates and exceptions of socket calls are left out. So is what a handler does to
-- the client: the manager's handler of a disconnection takes the connection away, and the client has
-- none until the manager sets the next one. A handler of the client that runs in between and reads
-- the connection follows a null pointer; here it reads the connection that was taken away.
pub mod Mode
pub mod Effects
pub mod Pleas
pub mod Numbers
pub mod Send
pub mod Message
pub mod Login
pub mod Replies
pub mod Notify
pub mod Process
pub mod Sockets
pub mod Timer
pub mod Receive
pub mod Keeps
pub mod Stable
pub mod Handlers
use fpga_ethash.Work.{WorkPackage}
use fpga_ethash.Base.{
  ℕ, ◌+◌, List, [], ◌∷◌, ◌++◌, Bool, true, false, not, ◌&&◌, ◌||◌, Option, none, some, text_eq,
  if◌then◌else◌,
}

abbrev pub Text : Type 0
Text = List ℕ

pub data SecureLevel : Type 0 where
  unsecured tls12 tls : SecureLevel

pub data HostNameType : Type 0 where
  unknown basic dns ipv4 ipv6 : HostNameType

-- PoolURI.h: the members of a `URI` that the client reads and writes.
pub record Connection : Type 0 where
  pub host : Text
  pub port : ℕ
  pub path : Text
  pub user : Text
  pub pass : Text
  pub workername : Text
  pub user_dot_worker : Text
  pub sec_level : SecureLevel
  pub host_name_type : HostNameType
  pub version : ℕ
  pub stratum_mode : ℕ
  pub stratum_mode_confirmed : Bool
  pub unrecoverable : Bool
  pub responds : Bool
  pub total_duration : ℕ

-- PoolClient.h.
pub record Session : Type 0 where
  pub start : ℕ
  pub subscribed : Bool
  pub authorized : Bool
  pub extra_nonce : ℕ
  pub extra_nonce_size_bytes : ℕ
  pub next_work_boundary : List ℕ
  pub first_mining_set : Bool
  pub timeout : ℕ
  pub session_id : Text
  pub worker_id : Text
  pub algo : Text
  pub epoch : ℕ
  pub last_tx_stamp : ℕ

-- A JSON object that the client builds: its members in the order in which they were first set.
pub data Field : Type 0 where
  null_field : Field
  number : ℕ → Field
  text : Text → Field
  texts : List Text → Field
  table : List (Text × Text) → Field

abbrev pub Request : Type 0
Request = List (Text × Field)

-- `jReq[key] = value`.
unfoldable pub assign : Text → Field → Request → Request
assign key value [] = (key, value) ∷ []
assign key value ((k, v) ∷ rest) =
    if text_eq k key then (key, value) ∷ rest else (k, v) ∷ assign key value rest

append_to : Text → Field → Field
append_to x (texts xs) = texts (xs ++ x ∷ [])
append_to x null_field = texts (x ∷ [])
append_to x other = other

-- `jReq[key].append(x)` on an array.
unfoldable pub append : Text → Text → Request → Request
unfolding append_to
append key x [] = (key, texts (x ∷ [])) ∷ []
append key x ((k, v) ∷ rest) =
    if text_eq k key then (k, append_to x v) ∷ rest else (k, v) ∷ append key x rest

abbrev pub Endpoint : Type 0
Endpoint = Text × ℕ

pub data Event : Type 0 where
  post_start_connect post_disconnect post_disconnect_finalize post_failed_login : Event
  resolve : Text → ℕ → Event
  async_connect : Endpoint → Event
  async_shutdown cancel receive : Event
  write : List Request → Event
  on_connected on_disconnected : Event
  on_work_received : WorkPackage → Event
  on_solution_accepted : (delay miner_index : ℕ) → (stale : Bool) → Event
  on_solution_rejected : (delay miner_index : ℕ) → Event

-- What `m_socket` points at.
pub data Link : Type 0 where
  no_link secure_link plain_link : Link

-- A socket is whether it is open; the timer is the milliseconds until it runs, if it is not asleep.
pub record Client : Type 0 where
  pub conn : Connection
  pub has_conn : Bool
  pub session : Option Session
  pub connected : Bool
  pub disconnecting : Bool
  pub connecting : Bool
  pub auth_pending : Bool
  pub work_timeout : ℕ
  pub response_timeout : ℕ
  pub current : WorkPackage
  pub current_timestamp : ℕ
  pub socket : Link
  pub secure_socket : Option Bool
  pub plain_socket : Option Bool
  pub message : Text
  pub new_job_processed : Bool
  pub workloop_timer : Option ℕ
  pub response_pleas_count : ℕ
  pub response_plea_older : ℕ
  pub response_plea_times : List ℕ
  pub tx_pending : Bool
  pub tx_queue : List Request
  pub endpoints : List Endpoint
  pub endpoint : Option Endpoint
  pub solution_submitted_max_id : ℕ
  pub events : List Event

unfoldable pub is_pending_state : Client → Bool
is_pending_state c = c.connecting || c.disconnecting

unfoldable pub is_connected : Client → Bool
unfolding is_pending_state
is_connected c = c.connected && not (is_pending_state c)

unfoldable pub is_subscribed : Client → Bool
is_subscribed c = elim c.session [ some s ↦ s.subscribed | none ↦ false ]

unfoldable pub is_authorized : Client → Bool
is_authorized c = elim c.session [ some s ↦ s.authorized | none ↦ false ]
