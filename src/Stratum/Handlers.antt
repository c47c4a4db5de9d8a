-- ===== src/Stratum/Handlers.antt =====
-- EthStratumClient.cpp: the calls that reach a client, one after another. The strand of the io service
-- runs one handler at a time; the order and the inputs are the environment's.
pub mod Steps
pub mod Logins
pub mod Sound
pub mod Detection
use fpga_ethash.Json.{Json, JsonError}
use fpga_ethash.Work.{Solution}
use fpga_ethash.Base.{ℕ, Bool, List, [], ◌∷◌, Option, Result}
use fpga_ethash.Stratum.{Client, Text, Endpoint}
use fpga_ethash.Stratum.Effects.{M}
use fpga_ethash.Stratum.Send
use fpga_ethash.Stratum.Sockets
use fpga_ethash.Stratum.Timer.{workloop_timer_elapsed}
use fpga_ethash.Stratum.Process
use fpga_ethash.Stratum.Receive.{on_recv_socket_data_completed}

-- The inputs are those of the methods.
pub data Call (Value : Type 0) : Type 0 where
  connect disconnect start_connect disconnect_finalize ssl_shutdown_completed : Call Value
  resolve : Option (List Endpoint) → Call Value
  connect_completed : (error handshake_error : Bool) → Call Value
  timer_elapsed : (aborted : Bool) → Call Value
  send_completed : (error ssl_shutdown : Bool) → Call Value
  recv_completed : Option Text → Call Value
  process_response : Value → Call Value
  submit_hashrate : ℕ → Text → Call Value
  submit_solution : Solution → Call Value

module _ (J : Json) (parse : Text → Option J.Value)
    (target_of_difficulty : J.Value → Result JsonError (List ℕ)) (project : Text) where
  open J use {Value}

  unfoldable pub call : ℕ → Call Value → M (Unit {0})
  call now connect = Sockets.connect
  call now disconnect = Sockets.disconnect now
  call now start_connect = Sockets.start_connect now
  call now disconnect_finalize = Sockets.disconnect_finalize now
  call now ssl_shutdown_completed = Sockets.on_ssl_shutdown_completed now
  call now (resolve found) = Sockets.resolve_handler now found
  call now (connect_completed error handshake_error) =
      Sockets.connect_handler project now error handshake_error
  call now (timer_elapsed aborted) = workloop_timer_elapsed now aborted
  call now (send_completed error ssl_shutdown) =
      Send.on_send_socket_data_completed now error ssl_shutdown
  call now (recv_completed bytes) =
      on_recv_socket_data_completed J parse target_of_difficulty project now bytes
  call now (process_response msg) = Process.process_response J target_of_difficulty project now msg
  call now (submit_hashrate rate id) = Send.submit_hashrate rate id
  call now (submit_solution solution) = Send.submit_solution now solution

  -- A schedule: each call with its time.
  pub run : List (ℕ × Call Value) → Client → Client
  run [] c = c
  run ((now, h) ∷ rest) c = run rest (call now h c).1
