-- ===== src/Getwork/Handlers.antt =====
-- EthGetworkClient.cpp: the calls that reach a client, one after another. The strand of the io service
-- runs one handler at a time; the order and the inputs are the environment's.
pub mod Waiting
pub mod Served
use fpga_ethash.Json.{Json}
use fpga_ethash.Work.{Solution}
use fpga_ethash.Base.{ℕ, Bool, List, [], ◌∷◌, Option, Result, ok, err, ◌>>=◌}
use fpga_ethash.Stratum.{Text, Endpoint}
use fpga_ethash.Getwork as G
use fpga_ethash.Getwork.{Client, Fault, Completion, handle_resolve}
use fpga_ethash.Getwork.Http.{Received, handle_read}

-- The inputs are those of the methods.
pub data Call : Type 0 where
  connect disconnect : Call
  resolved : Option (List Endpoint) → Call
  connected written : Completion → Call
  read : Received → Call
  timer_elapsed : (cancelled : Bool) → Call
  submit_hashrate : ℕ → Text → Call
  submit_solution : Solution → Call

module _ (J : Json) (parse : Text → Option J.Value) where
  unfoldable pub call : ℕ → Call → Client → Result Fault Client
  call now connect c = ok (G.connect now c)
  call now disconnect c = ok (G.disconnect now c)
  call now (resolved found) c = ok (handle_resolve now found c)
  call now (connected result) c = G.handle_connect now result c
  call now (written result) c = G.handle_write now result c
  call now (read received) c = handle_read J parse now received c
  call now (timer_elapsed cancelled) c = G.getwork_timer_elapsed now cancelled c
  call now (submit_hashrate rate id) c = ok (G.submit_hashrate now rate id c)
  call now (submit_solution solution) c = ok (G.submit_solution now solution c)

  -- A schedule: each call with its time.
  unfoldable pub run : List (ℕ × Call) → Client → Result Fault Client
  run [] c = ok c
  run ((now, h) ∷ rest) c = call now h c >>= run rest
