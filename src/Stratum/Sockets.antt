-- ===== src/Stratum/Sockets.antt =====
-- EthStratumClient.cpp: from the resolution of a host to the first message, and back to no connection.
use fpga_ethash.CommonData.{dont_add, to_compact_hex}
use fpga_ethash.Base.{
  ℕ, ◌+◌, ◌-◌, ◌/◌, List, [], ◌∷◌, ◌++◌, Bool, true, false, not, ◌||◌, ◌&&◌, Option, some, none,
  is_empty, ◌==◌, ltb, drop, get_elem?, if◌then◌else◌, codes,
}
use fpga_ethash.Stratum.{
  Client, Connection, Endpoint, no_link, secure_link, plain_link, unsecured, tls12, tls,
  HostNameType, unknown, dns, basic, ipv4, ipv6, Text, Request, assign, append, text, texts, number,
  table, post_start_connect, post_disconnect, post_disconnect_finalize, resolve, async_connect,
  async_shutdown, cancel, receive, on_disconnected,
}
use fpga_ethash.Stratum.Mode
use fpga_ethash.Stratum.Effects.{
  M, ◌>>=◌, cases, ◌>>◌, modify, gets, leave, fault, when, post, change_conn, set_stratum_mode,
  mark_unrecoverable,
}
use fpga_ethash.Stratum.Pleas.{enqueue_response_plea, clear_response_pleas}
use fpga_ethash.Stratum.Send.{send, add_worker}

abbrev pub is_secure : Connection → Bool
is_secure u = elim u.sec_level [ unsecured ↦ false | tls12 ↦ true | tls ↦ true ]

abbrev is_open : Option Bool → Bool
is_open none = false
is_open (some b) = b

-- `m_socket->is_open()`; `none` if there is no socket.
abbrev pub socket_open : Client → Option Bool
socket_open c = elim c.socket [
  | no_link ↦ none
  | secure_link ↦ some (is_open c.secure_socket)
  | plain_link ↦ some (is_open c.plain_socket)
]

-- The socket that `m_socket` points at is opened or closed.
abbrev pub put_socket : Bool → Client → Client
put_socket b c = elim c.socket [
  | no_link ↦ c
  | secure_link ↦ record c { secure_socket = some b }
  | plain_link ↦ record c { plain_socket = some b }
]

unfoldable pub init_socket : Client → Client
init_socket c =
    if is_secure c.conn
    then record c { secure_socket = some false; socket = secure_link }
    else record c { plain_socket = some false; socket = plain_link }

abbrev pub ensure_socket : Client → Client
ensure_socket c = elim c.socket [ no_link ↦ init_socket c | secure_link ↦ c | plain_link ↦ c ]

abbrev pub needs_resolver : HostNameType → Bool
needs_resolver dns = true
needs_resolver basic = true
needs_resolver unknown = false
needs_resolver ipv4 = false
needs_resolver ipv6 = false

-- The timer runs every second.
abbrev pub workloop_interval : ℕ
workloop_interval = 1000

unfoldable pub connect : M (Unit {0})
unfolding init_socket
connect = do
  connecting ← gets λ c. c.connecting
  when connecting leave
  modify λ c. record c { workloop_timer = some workloop_interval; auth_pending = false }
  modify ensure_socket
  modify λ c. record c { endpoints = []; endpoint = none }
  u ← gets λ c. c.conn
  if needs_resolver u.host_name_type
      then post (resolve u.host u.port)
      else (do modify λ c. record c { endpoints = (u.host, u.port) ∷ [] }; post post_start_connect)

-- A session's minutes are added to the connection's.
abbrev pub release_session : ℕ → Client → Client
release_session now c = elim c.session [
  | none ↦ c
  | some s ↦ record c {
    conn = record c.conn { total_duration = c.conn.total_duration + (now - s.start) / 60000 };
    session = none;
  }
]

abbrev pub close_secure : Client → Client
close_secure c = elim c.secure_socket [
  | none ↦ c
  | some b ↦ record c { secure_socket = some false }
]

-- The mode that is tested next, if the mode is not confirmed and the host has answered.
abbrev next_mode : ℕ → M (Unit {0})
next_mode mode =
    if ltb 0 mode
    then (do change_conn λ u. record u { stratum_mode = mode - 1 }; post post_start_connect; leave)
    else change_conn mark_unrecoverable

unfoldable pub disconnect_finalize : ℕ → M (Unit {0})
disconnect_finalize now = do
  modify close_secure
  modify λ c. record c { socket = no_link; plain_socket = none }
  modify (release_session now)
  modify λ c. record c { auth_pending = false; disconnecting = false; tx_pending = false }
  u ← gets λ c. c.conn
  when (not u.unrecoverable && not u.stratum_mode_confirmed && u.responds)
      (next_mode u.stratum_mode)
  modify (clear_response_pleas now)
  modify λ c. record c { solution_submitted_max_id = 0; workloop_timer = none }
  post on_disconnected

-- The rest of an open TLS connection's end waits for the other side.
abbrev pub shut_down : ℕ → Bool → M (Unit {0})
shut_down now secure =
    if secure
    then (do post async_shutdown; modify (enqueue_response_plea now); leave)
    else modify (put_socket false)

unfoldable pub disconnect : ℕ → M (Unit {0})
disconnect now = do
  disconnecting ← gets λ c. c.disconnecting
  when disconnecting leave
  modify λ c. record c { disconnecting = true; connected = false }
  opened ← gets socket_open
  when (elim opened [ none ↦ false | some b ↦ true ]) (post cancel)
  secure ← gets λ c. is_secure c.conn
  when (is_open opened) (shut_down now secure)
  disconnect_finalize now

unfoldable pub resolve_handler : ℕ → Option (List Endpoint) → M (Unit {0})
unfolding disconnect_finalize
resolve_handler now (some found) = do
  modify λ c. record c { endpoints = c.endpoints ++ found }
  post post_start_connect
resolve_handler now none = do modify λ c. record c { connecting = false }; disconnect_finalize now

-- An asynchronous connection opens its socket.
unfoldable pub start_connect : ℕ → M (Unit {0})
unfolding init_socket disconnect_finalize
start_connect now = do
  connecting ← gets λ c. c.connecting
  when connecting leave
  modify λ c. record c { connecting = true }
  endpoints ← gets λ c. c.endpoints
  cases (get_elem? endpoints 0)
      (do modify λ c. record c { connecting = false }; disconnect_finalize now)
      (λ e. do
        modify λ c. record c { endpoint = some e }
        modify ensure_socket
        modify (clear_response_pleas now)
        modify λ c. record c { connecting = true }
        modify (enqueue_response_plea now)
        modify λ c. record c { solution_submitted_max_id = 0 }
        modify (put_socket true)
        post (async_connect e))

-- `m_endpoints.pop()`, undefined on an empty queue.
unfoldable pub pop_endpoint : M (Unit {0})
pop_endpoint = do
  endpoints ← gets λ c. c.endpoints
  if is_empty endpoints then fault else modify λ c. record c { endpoints = drop 1 c.endpoints }

-- The mode of the login: the one of the address, or the first of the detection.
abbrev pub choose_mode : Connection → Connection
choose_mode u =
    if ltb u.version 999
    then set_stratum_mode u.version true u
    else if not u.stratum_mode_confirmed && u.stratum_mode == 999
    then set_stratum_mode 3 false u
    else u

abbrev param : Text → Request → Request
param = append (codes "params")

-- The first message, by the mode.
unfoldable pub login_request : Text → Connection → Request
login_request project u =
    let base = assign (codes "params") (texts []) (
      assign (codes "method") (text (codes "mining.subscribe"))
        (assign (codes "id") (number 1) [])) in
    if u.stratum_mode == Mode.stratum
    then assign (codes "jsonrpc") (text (codes "2.0")) base
    else if u.stratum_mode == Mode.ethproxy
    then (let named = param (u.user ++ u.path) (
          add_worker u.workername
            (assign (codes "method") (text (codes "eth_submitLogin")) base)) in
        if is_empty u.pass then named else param u.pass named)
    else if u.stratum_mode == Mode.ethereumstratum
    then param (codes "EthereumStratum/1.0.0") (param project base)
    else if u.stratum_mode == Mode.ethereumstratum2
    then assign (codes "params")
        (table (
          (codes "agent", project)
          ∷ (codes "host", u.host)
          ∷ (codes "port", to_compact_hex u.port dont_add)
          ∷ (codes "proto", codes "EthereumStratum/2.0.0")
          ∷ []))
        (assign (codes "method") (text (codes "mining.hello")) base)
    else base

-- Reading begins, and the first message is sent.
unfoldable pub begin_login : Text → ℕ → M (Unit {0})
begin_login project now = do
  u ← gets λ c. c.conn
  post receive
  modify (enqueue_response_plea now)
  modify (send (login_request project u))

-- `error` is whether the connection failed, `handshake_error` whether the TLS handshake does.
unfoldable pub connect_handler : Text → ℕ → (error handshake_error : Bool) → M (Unit {0})
unfolding pop_endpoint
connect_handler project now error handshake_error = do
  modify λ c. record c { connecting = false }
  opened ← gets socket_open
  -- A null socket is followed, whatever the error.
  cases opened fault (λ b.
      when (error || not b)
        (do modify (put_socket false); pop_endpoint; post post_start_connect; leave))
  modify λ c. record c { conn = record c.conn { responds = true }; connected = true }
  modify λ c. record c { message = []; tx_queue = [] }
  secure ← gets λ c. is_secure c.conn
  when (secure && handshake_error) (do change_conn mark_unrecoverable; post post_disconnect; leave)
  modify (clear_response_pleas now)
  change_conn choose_mode
  begin_login project now

unfoldable pub on_ssl_shutdown_completed : ℕ → M (Unit {0})
on_ssl_shutdown_completed now = do modify (clear_response_pleas now); post post_disconnect_finalize
