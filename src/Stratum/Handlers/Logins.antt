-- ===== src/Stratum/Handlers/Logins.antt =====
-- A login of the detection: from an idle client to the first message.
use fpga_ethash.Base.{
  ℕ, ◌≤◌, ◌≡◌, sym, subst, [], true, false, some, ◌==◌, if◌then◌else◌, arith, get_elem?,
}
use fpga_ethash.Stratum.{Client, Endpoint, Text, Request, no_link, plain_link, unsecured}
use fpga_ethash.Stratum.Effects.{◌>>=◌}
use fpga_ethash.Stratum.Pleas.{enqueue_response_plea, clear_response_pleas}
use fpga_ethash.Stratum.Send.{send, send_socket_data}
use fpga_ethash.Stratum.Sockets
use fpga_ethash.Stratum.Sockets.{is_secure, init_socket, begin_login, choose_mode}
use fpga_ethash.Stratum.Keeps.{Keeps, keeps_rules}

-- A connection in the detection, over TCP, that can be tried at `e`.
abbrev pub Detects : ℕ → Endpoint → Client → Type 0
Detects m e c =
    (c.conn.sec_level ≡ unsecured)
    × (999 ≤ c.conn.version)
    × (c.conn.stratum_mode_confirmed ≡ false)
    × (c.conn.unrecoverable ≡ false)
    × (get_elem? c.endpoints 0 ≡ some e)
    × (c.conn.stratum_mode ≡ m)
    × (c.disconnecting ≡ false)

abbrev pub Idle : ℕ → Endpoint → Client → Type 0
Idle m e c = Detects m e c × (c.socket ≡ no_link) × (c.connecting ≡ false)

abbrev Started : ℕ → Endpoint → Client → Type 0
Started m e c = Detects m e c × (c.socket ≡ plain_link) × (c.plain_socket ≡ some true)

abbrev pub Open : ℕ → Endpoint → Client → Type 0
Open m e c =
    Detects m e c
    × (c.socket ≡ plain_link)
    × (c.plain_socket ≡ some true)
    × (c.conn.responds ≡ true)
    × (c.connecting ≡ false)

pub start_connect-Started :
    (m now : ℕ) (e : Endpoint) (c : Client)
    → Idle m e c
    → Started m e (Sockets.start_connect now c).1
unfolding Sockets.start_connect init_socket enqueue_response_plea clear_response_pleas ◌>>=◌
start_connect-Started m now e c h = ground arith

send-Open : (m : ℕ) (e : Endpoint) (req : Request) (c : Client) → Open m e c → Open m e (send req c)
unfolding send send_socket_data
send-Open m e req c h = ground arith

-- The mode in which the login is tried.
abbrev pub tried : ℕ → ℕ
tried m = if m == 999 then 3 else m

enqueue-Open :
    (m now : ℕ) (e : Endpoint) (c : Client) → Open m e c → Open m e (enqueue_response_plea now c)
unfolding enqueue_response_plea
enqueue-Open m now e c h = h

begin_login-Open :
    (m now : ℕ) (e : Endpoint) (project : Text) → Keeps (Open m e) (begin_login project now)
unfolding begin_login
begin_login-Open m now e project = search (keeps_rules, enqueue-Open, send-Open) depth 12

-- The client when the first message is sent.
abbrev logging_in : ℕ → Client → Client
logging_in now c = clear_response_pleas now (record c {
  connecting = false;
  conn = choose_mode (record c.conn { responds = true });
  connected = true;
  message = [];
  tx_queue = [];
})

connect_handler-begin :
    (m now : ℕ) (e : Endpoint) (project : Text) (c : Client)
    → Started m e c
    → Sockets.connect_handler project now false false c ≡ begin_login project now (logging_in now c)
unfolding Sockets.connect_handler clear_response_pleas ◌>>=◌
connect_handler-begin m now e project c h = ground arith

logging_in-Open :
    (m now : ℕ) (e : Endpoint) (c : Client) → Started m e c → Open (tried m) e (logging_in now c)
unfolding clear_response_pleas
logging_in-Open m now e c h = ground arith

pub connect_handler-Open :
    (m now : ℕ) (e : Endpoint) (project : Text) (c : Client)
    → Started m e c
    → Open (tried m) e (Sockets.connect_handler project now false false c).1
connect_handler-Open m now e project c h =
    subst (λ r. Open (tried m) e r.1) (sym (connect_handler-begin m now e project c h))
      ((begin_login-Open (tried m) now e project).after (logging_in now c)
        (logging_in-Open m now e c h))
