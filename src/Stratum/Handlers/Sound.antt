-- ===== src/Stratum/Handlers/Sound.antt =====
-- What holds of a client after any calls, in any order.
use fpga_ethash.Json.{Json, JsonError}
use fpga_ethash.Work.{Solution}
use fpga_ethash.Base.{
  ℕ, Bool, true, false, List, [], ◌∷◌, Option, none, some, Result, ◌≡◌, arith, length, ◌==◌,
  if◌then◌else◌, is_empty, sym, ap, ◌∙◌, false≢true, is_set,
}
use fpga_ethash.Stratum.{Client, Text, Request, Endpoint, is_authorized}
use fpga_ethash.Stratum.Keeps.{Keeps, keeps_rules, Keeps-bind, Keeps-modify}
use fpga_ethash.Stratum.Send
use fpga_ethash.Stratum.Send.{send, send_socket_data, solution_request, own_digits}
use fpga_ethash.Stratum.Sockets
use fpga_ethash.Stratum.Sockets.{
  put_socket, ensure_socket, init_socket, close_secure, release_session, pop_endpoint, choose_mode,
  login_request,
}
use fpga_ethash.Stratum.Timer
use fpga_ethash.Stratum.Timer.{keep_alive, check_pending, check_connected}
use fpga_ethash.Stratum.Process
use fpga_ethash.Stratum.Receive.{
  process_lines, end_transmission, on_received, on_recv_socket_data_completed,
}
use fpga_ethash.Stratum.Stable.Process.{process_response-Keeps, process_line-Keeps}
use fpga_ethash.Stratum.Handlers.{
  Call, connect, disconnect, start_connect, disconnect_finalize, ssl_shutdown_completed, resolve,
  connect_completed, timer_elapsed, send_completed, recv_completed, process_response,
  submit_hashrate, submit_solution, call, run,
}
use fpga_ethash.Stratum.Handlers.Steps.{
  IsSound, sound, IsSound-StableReply, IsSound-StableWork, disconnect_finalize-Keeps,
}

connect-Keeps : Keeps IsSound Sockets.connect
unfolding Sockets.connect
connect-Keeps = search sound depth 20

disconnect-Keeps : (now : ℕ) → Keeps IsSound (Sockets.disconnect now)
unfolding Sockets.disconnect
disconnect-Keeps now = search sound depth 20

start_connect-Keeps : (now : ℕ) → Keeps IsSound (Sockets.start_connect now)
unfolding Sockets.start_connect
start_connect-Keeps now = search sound depth 24

resolve_handler-Keeps :
    (now : ℕ) (found : Option (List Endpoint)) → Keeps IsSound (Sockets.resolve_handler now found)
unfolding Sockets.resolve_handler
resolve_handler-Keeps now none = search sound depth 12
resolve_handler-Keeps now (some es) = search sound depth 12

connect_handler-Keeps :
    (project : Text) (now : ℕ) (error handshake_error : Bool)
    → Keeps IsSound (Sockets.connect_handler project now error handshake_error)
unfolding Sockets.connect_handler Sockets.begin_login
connect_handler-Keeps project now error handshake_error = search sound depth 30

on_ssl_shutdown_completed-Keeps : (now : ℕ) → Keeps IsSound (Sockets.on_ssl_shutdown_completed now)
unfolding Sockets.on_ssl_shutdown_completed
on_ssl_shutdown_completed-Keeps now = search sound depth 12

keep_alive-Keeps : (now : ℕ) → Keeps IsSound (keep_alive now)
unfolding keep_alive
keep_alive-Keeps now = search sound depth 12

check_pending-Keeps : (now : ℕ) → Keeps IsSound (check_pending now)
unfolding check_pending
check_pending-Keeps now = search sound depth 24

check_connected-Keeps : (now : ℕ) → Keeps IsSound (check_connected now)
unfolding check_connected
check_connected-Keeps now = search sound depth 24

timer-Keeps : (now : ℕ) (aborted : Bool) → Keeps IsSound (Timer.workloop_timer_elapsed now aborted)
unfolding Timer.workloop_timer_elapsed
timer-Keeps now aborted =
    search (sound, keep_alive-Keeps, check_pending-Keeps, check_connected-Keeps) depth 24

sent-IsSound :
    (now : ℕ) (c : Client)
    → IsSound c
    → IsSound (record c {
      session = elim c.session [
        | some s ↦ some (if c.conn.stratum_mode == 3 then record s { last_tx_stamp = now } else s)
        | none ↦ none
      ];
    })
sent-IsSound now c h = ground arith

drained-IsSound :
    (c : Client)
    → IsSound c
    → IsSound (if is_empty c.tx_queue then record c { tx_pending = false } else send_socket_data c)
unfolding send_socket_data
drained-IsSound c h = ground arith

sent-Keeps :
    (now : ℕ) (error ssl_shutdown : Bool)
    → Keeps IsSound (Send.on_send_socket_data_completed now error ssl_shutdown)
unfolding Send.on_send_socket_data_completed
sent-Keeps now true ssl_shutdown = search sound depth 16
sent-Keeps now false ssl_shutdown = search (sound, sent-IsSound, drained-IsSound) depth 16

own_digits-Keeps : (solution : Solution) → Keeps IsSound (own_digits solution)
unfolding own_digits
own_digits-Keeps solution = search sound

solution_request-Keeps :
    (mode : ℕ) (solution : Solution) (base : Request)
    → Keeps IsSound (solution_request mode solution base)
unfolding solution_request
solution_request-Keeps mode solution base = search (sound, own_digits-Keeps) depth 24

submit_solution-Keeps :
    (now : ℕ) (solution : Solution) → Keeps IsSound (Send.submit_solution now solution)
unfolding Send.submit_solution Send.send_solution
submit_solution-Keeps now solution = search (sound, solution_request-Keeps) depth 16

submit_hashrate-Keeps : (rate : ℕ) (id : Text) → Keeps IsSound (Send.submit_hashrate rate id)
unfolding Send.submit_hashrate
submit_hashrate-Keeps rate id = search sound depth 20

authorized_set : (c : Client) → is_authorized c ≡ true → is_set c.session ≡ true
unfolding is_authorized
authorized_set c h = ground arith

module _ (J : Json) (parse : Text → Option J.Value)
    (target_of_difficulty : J.Value → Result JsonError (List ℕ)) (project : Text) where
  response-Keeps :
      (now : ℕ) (msg : J.Value)
      → Keeps IsSound (Process.process_response J target_of_difficulty project now msg)
  response-Keeps now =
      process_response-Keeps IsSound-StableReply J target_of_difficulty project now
        IsSound-StableWork

  process_lines-Keeps :
      (now : ℕ) (rest : Text) (lines : List Text)
      → Keeps IsSound (process_lines J parse target_of_difficulty project now rest lines)
  unfolding process_lines
  process_lines-Keeps now rest [] = search keeps_rules
  process_lines-Keeps now rest (line ∷ lines) =
      Keeps-bind _ _
        (process_line-Keeps IsSound-StableReply J target_of_difficulty project now parse
          (response-Keeps now) line)
        λ _. Keeps-bind _ _ (Keeps-modify _ λ c h. h) λ _. process_lines-Keeps now rest lines

  on_received-Keeps :
      (now : ℕ) (bytes : Text)
      → Keeps IsSound (on_received J parse target_of_difficulty project now bytes)
  unfolding on_received end_transmission
  on_received-Keeps now bytes = search (sound, process_lines-Keeps) depth 20

  recv-Keeps :
      (now : ℕ) (bytes : Option Text)
      → Keeps IsSound (on_recv_socket_data_completed J parse target_of_difficulty project now bytes)
  unfolding on_recv_socket_data_completed
  recv-Keeps now none = search sound depth 16
  recv-Keeps now (some bytes) = on_received-Keeps now bytes

  call-Keeps :
      (now : ℕ) (h : Call J.Value) → Keeps IsSound (call J parse target_of_difficulty project now h)
  unfolding call
  call-Keeps now connect = connect-Keeps
  call-Keeps now disconnect = disconnect-Keeps now
  call-Keeps now start_connect = start_connect-Keeps now
  call-Keeps now disconnect_finalize = disconnect_finalize-Keeps now
  call-Keeps now ssl_shutdown_completed = on_ssl_shutdown_completed-Keeps now
  call-Keeps now (resolve found) = resolve_handler-Keeps now found
  call-Keeps now (connect_completed error handshake_error) =
      connect_handler-Keeps project now error handshake_error
  call-Keeps now (timer_elapsed aborted) = timer-Keeps now aborted
  call-Keeps now (send_completed error ssl_shutdown) = sent-Keeps now error ssl_shutdown
  call-Keeps now (recv_completed bytes) = recv-Keeps now bytes
  call-Keeps now (process_response msg) = response-Keeps now msg
  call-Keeps now (submit_hashrate rate id) = submit_hashrate-Keeps rate id
  call-Keeps now (submit_solution solution) = submit_solution-Keeps now solution

  run-IsSound_from :
      (calls : List (ℕ × Call J.Value)) (c : Client)
      → IsSound c
      → IsSound (run J parse target_of_difficulty project calls c)
  unfolding run
  run-IsSound_from [] c h = h
  run-IsSound_from ((now, one) ∷ rest) c h =
      run-IsSound_from rest (call J parse target_of_difficulty project now one c).1
        ((call-Keeps now one).after c h)

  -- After any calls of a client's methods and handlers, in any order, at any times and with any
  -- messages of the pool, a client that starts without a session and without requests that wait
  -- has a session only if the mode of its connection is confirmed, is authorized only then, and
  -- counts as many requests as it keeps times of.
  pub run-IsSound :
      (calls : List (ℕ × Call J.Value)) (c : Client)
      → c.session ≡ none
      → c.response_pleas_count ≡ length c.response_plea_times
      → let c' = run J parse target_of_difficulty project calls c in
        (is_set c'.session ≡ true → c'.conn.stratum_mode_confirmed ≡ true)
        × (is_authorized c' ≡ true → c'.conn.stratum_mode_confirmed ≡ true)
        × (c'.response_pleas_count ≡ length c'.response_plea_times)
  run-IsSound calls c none_yet matched =
      let h : IsSound (run J parse target_of_difficulty project calls c) =
        run-IsSound_from calls c
          (λ set. absurd (false≢true (sym (ap is_set none_yet) ∙ set)), matched) in
      (
        h.0,
        λ authorized.
            h.0 (authorized_set (run J parse target_of_difficulty project calls c) authorized),
        h.1,
      )
