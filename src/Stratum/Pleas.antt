-- ===== src/Stratum/Pleas.antt =====
-- EthStratumClient.cpp: the times of the requests that wait for a response.
pub mod Delays
use fpga_ethash.Base.{
  ℕ, zero, suc, ◌+◌, ◌-◌, ◌<◌, ◌≡◌, refl, List, [], ◌∷◌, ◌++◌, Bool, Option, none, some, ltb, ◌==◌,
  if◌then◌else◌, length, arith, length-append,
}
use fpga_ethash.Stratum.{Client}
use fpga_ethash.Stratum.Effects.{value, M}

unfoldable pub enqueue_response_plea : ℕ → Client → Client
enqueue_response_plea now c = record c {
  response_pleas_count = c.response_pleas_count + 1;
  response_plea_older = if c.response_pleas_count == 0 then now else c.response_plea_older;
  response_plea_times = c.response_plea_times ++ now ∷ [];
}

-- `pop` of the queue, with the write of what it took.
pop_plea : List ℕ → Client → Client
pop_plea [] c = c
pop_plea (t ∷ rest) c = record c { response_plea_older = t; response_plea_times = rest }

-- The delay is computed before the pop; the counter is read after it.
unfoldable pub dequeue_response_plea : ℕ → M ℕ
unfolding pop_plea
dequeue_response_plea now c =
    let delay = now - c.response_plea_older in
    let c' = pop_plea c.response_plea_times c in
    if ltb 0 c'.response_pleas_count
    then (value delay, record c' { response_pleas_count = c'.response_pleas_count - 1 })
    else (value 0, c')

unfoldable pub clear_response_pleas : ℕ → Client → Client
clear_response_pleas now c = record c {
  response_pleas_count = 0;
  response_plea_times = [];
  response_plea_older = now;
}
