-- ===== src/Stratum/Send.antt =====
-- EthStratumClient.cpp: the queue of messages to the pool, and the messages that the program sends of
-- its own accord.
use fpga_ethash.CommonData.{add, dont_add, to_hex_number, to_compact_hex}
use fpga_ethash.FixedHash.{hex}
use fpga_ethash.Work.{Solution}
use fpga_ethash.Base.{
  ℕ, ◌+◌, [], ◌∷◌, ◌++◌, Bool, true, false, not, ◌||◌, none, some, is_empty, ◌==◌, if◌then◌else◌,
  max, u32, codes,
}
use fpga_ethash.Stratum.{
  Client, Request, Text, assign, append, number, text, texts, is_connected, is_authorized, write,
  post_disconnect,
}
use fpga_ethash.Stratum.Mode
use fpga_ethash.Stratum.Effects.{
  M, ◌>>=◌, ◌>>◌, modify, gets, lift, leave, when, log, post, get_session, pure,
}
use fpga_ethash.Stratum.Pleas.{enqueue_response_plea}
use fpga_ethash.Stratum.Numbers.{substr}

-- A write takes the whole queue.
unfoldable pub send_socket_data : Client → Client
send_socket_data c =
    if not (is_connected c) || is_empty c.tx_queue
    then record c { tx_queue = []; tx_pending = false }
    else log (write c.tx_queue) (record c { tx_queue = [] })

unfoldable pub send : Request → Client → Client
unfolding send_socket_data
send req c =
    let queued = record c { tx_queue = c.tx_queue ++ req ∷ [] } in
    if c.tx_pending then queued else send_socket_data (record queued { tx_pending = true })

-- `error` is whether the write failed, `ssl_shutdown` whether it did because the stream was shut.
unfoldable pub on_send_socket_data_completed : ℕ → (error ssl_shutdown : Bool) → M (Unit {0})
unfolding send_socket_data
on_send_socket_data_completed now true ssl_shutdown = do
  modify λ c. record c { tx_queue = []; tx_pending = false }
  when ssl_shutdown (post post_disconnect)
  connected ← gets is_connected
  when connected (post post_disconnect)
on_send_socket_data_completed now false ssl_shutdown = do
  modify λ c. record c {
    session = elim c.session [
      | some s ↦ some (if c.conn.stratum_mode == 3 then record s { last_tx_stamp = now } else s)
      | none ↦ none
    ];
  }
  modify λ c. if is_empty c.tx_queue then record c { tx_pending = false } else send_socket_data c

-- `if (!Workername().empty()) jReq["worker"] = Workername();`.
unfoldable pub add_worker : Text → Request → Request
add_worker worker req = if is_empty worker then req else assign (codes "worker") (text worker) req

-- The parameters of a hash rate, by the mode.
hashrate_request : ℕ → Text → M Request
hashrate_request rate id = do
  let base = assign (codes "params") (texts []) (assign (codes "id") (number 9) [])
  mode ← gets λ c. c.conn.stratum_mode
  worker ← gets λ c. c.conn.workername
  let rpc = append (codes "params") id (
      append (codes "params") (to_hex_number rate add 32) (
        assign (codes "method") (text (codes "eth_submitHashrate"))
          (add_worker worker (assign (codes "jsonrpc") (text (codes "2.0")) base))))
  if not (mode == 3) then pure rpc else (do
    session ← get_session
    pure (
        append (codes "params") session.worker_id (
          append (codes "params") (to_compact_hex rate dont_add)
            (assign (codes "method") (text (codes "mining.hashrate")) base))))

unfoldable pub submit_hashrate : ℕ → Text → M (Unit {0})
unfolding hashrate_request
submit_hashrate rate id = do
  connected ← gets is_connected
  when (not connected) leave
  req ← hashrate_request rate id
  modify (send req)

-- The nonce without the digits that the pool has fixed.
unfoldable pub own_digits : Solution → M Text
own_digits solution =
    lift (substr solution.work.ex_size_bytes (to_hex_number solution.nonce dont_add 16))

abbrev param : Text → Request → Request
param = append (codes "params")

unfoldable pub solution_request : ℕ → Solution → Request → M Request
solution_request mode solution base = do
  user ← gets λ c. c.conn.user
  worker ← gets λ c. c.conn.workername
  user_dot_worker ← gets λ c. c.conn.user_dot_worker
  let proof = λ (r : Request).
      param (hex solution.mix_hash add)
        (param (hex solution.work.header add) (param (to_hex_number solution.nonce add 16) r))
  if mode == Mode.stratum
      then pure (
          add_worker worker (
            proof (
              param solution.work.job
                (param user (assign (codes "jsonrpc") (text (codes "2.0")) base)))))
      else if mode == Mode.ethproxy
      then pure
          (add_worker worker (proof (assign (codes "method") (text (codes "eth_submitWork")) base)))
      else if mode == Mode.ethereumstratum
      then (do
        digits ← own_digits solution
        pure (param digits (param solution.work.job (param user_dot_worker base))))
      else if mode == Mode.ethereumstratum2
      then (do
        digits ← own_digits solution
        session ← get_session
        pure (param session.worker_id (param digits (param solution.work.job base))))
      else pure base

-- The id of the messages with a miner's solutions.
abbrev pub solution_id : Solution → ℕ
solution_id solution = u32 (40 + solution.midx)

-- The rest of a submission: the message of the mode, and its plea.
unfoldable pub send_solution : ℕ → Solution → M (Unit {0})
send_solution now solution = do
  mode ← gets λ c. c.conn.stratum_mode
  req ← solution_request mode solution (
      assign (codes "params") (texts []) (
        assign (codes "method") (text (codes "mining.submit"))
          (assign (codes "id") (number (solution_id solution)) [])))
  modify (enqueue_response_plea now)
  modify (send req)

unfoldable pub submit_solution : ℕ → Solution → M (Unit {0})
submit_solution now solution = do
  authorized ← gets is_authorized
  when (not authorized) leave
  modify λ c. record c {
    solution_submitted_max_id = max c.solution_submitted_max_id (solution_id solution);
  }
  send_solution now solution
