-- ===== src/Stratum/Timer.antt =====
-- EthStratumClient.cpp: workloop_timer_elapsed.
pub mod Pending
use fpga_ethash.Base.{
  ℕ, ◌+◌, ◌-◌, ◌*◌, ◌/◌, ◌^◌, List, [], ◌∷◌, ◌++◌, Bool, true, false, not, ◌||◌, ◌&&◌, Option, some,
  none, ◌==◌, ltb, leb, if◌then◌else◌, codes,
}
use fpga_ethash.Stratum.{
  Client, assign, text, number, is_pending_state, is_connected, post_disconnect, post_failed_login,
}
use fpga_ethash.Stratum.Effects.{
  M, value, ◌>>=◌, cases, ◌>>◌, modify, gets, leave, fault, when, post, log, skip,
}
use fpga_ethash.Stratum.Pleas.{clear_response_pleas}
use fpga_ethash.Stratum.Send.{send}
use fpga_ethash.Stratum.Sockets.{
  is_secure, socket_open, put_socket, pop_endpoint, workloop_interval,
}

-- `s > (int)timeout - 5`, with the timeout's 32 bits.
abbrev is_silent : ℕ → ℕ → Bool
is_silent s timeout = leb (2 ^ 31) timeout || ltb timeout (s + 5)

-- EthereumStratum/2.0.0 wants a message before the session expires.
unfoldable pub keep_alive : ℕ → M (Unit {0})
keep_alive now = do
  mode ← gets λ c. c.conn.stratum_mode
  session ← gets λ c. c.session
  when
      (mode == 3 && elim session [
        | none ↦ false
        | some s ↦ is_silent ((now - s.last_tx_stamp) / 1000) s.timeout
      ])
      (modify (
        send (
          assign (codes "method") (text (codes "mining.noop"))
            (assign (codes "id") (number 7) []))))

abbrev pub delay_of : ℕ → Client → ℕ
delay_of now c = now - c.response_plea_older

-- The socket is closed while the delay is within the time allowed.
unfoldable pub check_pending : ℕ → M (Unit {0})
check_pending now = do
  delay ← gets (delay_of now)
  allowed ← gets λ c. c.response_timeout * 1000
  when (leb delay allowed) (do
    connecting ← gets λ c. c.connecting
    when connecting
        (do opened ← gets socket_open; cases opened fault (λ b. modify (put_socket false)); leave)
    disconnecting ← gets λ c. c.disconnecting
    secure ← gets λ c. is_secure c.conn
    when (disconnecting && secure) (do
      link ← gets λ c. c.secure_socket
      cases link fault
          (λ b. when b (do modify λ c. record c { secure_socket = some false }; leave))))

-- Give the endpoint up.
abbrev drop_endpoint : ℕ → M (Unit {0})
drop_endpoint now = do pop_endpoint; modify (clear_response_pleas now); post post_disconnect

abbrev has_session : Client → Bool
has_session c = elim c.session [ none ↦ false | some s ↦ true ]

unfoldable pub check_connected : ℕ → M (Unit {0})
unfolding pop_endpoint
check_connected now = do
  delay ← gets (delay_of now)
  c ← gets λ c. c
  if leb (c.response_timeout * 1000) delay
      then (if not c.conn.stratum_mode_confirmed && not c.conn.unrecoverable
          then (do modify (clear_response_pleas now); post post_failed_login)
          else drop_endpoint now)
      else when (has_session c && ltb c.work_timeout ((now - c.current_timestamp) / 1000))
          (drop_endpoint now)

-- A cancelled wait has been replaced by another one.
unfoldable pub workloop_timer_elapsed : ℕ → (aborted : Bool) → M (Unit {0})
unfolding keep_alive check_pending check_connected
workloop_timer_elapsed now aborted = do
  modify λ c. record c { workloop_timer = if aborted then c.workloop_timer else none }
  has_conn ← gets λ c. c.has_conn
  when (aborted || not has_conn) leave
  keep_alive now
  waiting ← gets λ c. ltb 0 c.response_pleas_count
  when waiting (do
    pending ← gets is_pending_state
    when pending (check_pending now)
    connected ← gets is_connected
    when connected (check_connected now))
  modify λ c. record c { workloop_timer = some workloop_interval }
