-- ===== src/Stratum/Notify.antt =====
-- EthStratumClient.cpp: the part of processResponse for notifications of the pool. Difficulties are
-- floating point, so the target of a difficulty is a parameter.
use fpga_ethash.Json.{Json, JsonError}
use fpga_ethash.CommonData.{add, pad_left}
use fpga_ethash.FixedHash.{from_text, hex}
use fpga_ethash.Work.{WorkPackage}
use fpga_ethash.Base.{
  u16, ℕ, ◌+◌, ◌-◌, List, [], ◌∷◌, ◌++◌, Bool, true, false, not, ◌||◌, ◌&&◌, Option, some, none,
  is_empty, text_eq, ◌==◌, ltb, if◌then◌else◌, Result, ok, err, codes, take, replicate, length, ℤ,
  pos, negsuc, u32,
}
use fpga_ethash.Base
use fpga_ethash.Stratum.{
  Session, Text, Request, assign, number, text, null_field, is_subscribed, post_disconnect,
}
use fpga_ethash.Stratum.Mode
use fpga_ethash.Stratum.Effects.{
  M, ◌>>=◌, cases, ◌>>◌, modify, gets, lift, leave, when, post, skip, get_session, throw_new,
  change_session,
}
use fpga_ethash.Stratum.Numbers.{StdError, stoull, stoi, substr, to_int}
use fpga_ethash.Stratum.Message.{Header, also, get_text, at_text}
use fpga_ethash.Stratum.Login.{process_extranonce}
use fpga_ethash.Stratum.Send.{send}

abbrev pub change_work : (WorkPackage → WorkPackage) → M (Unit {0})
change_work f = modify λ c. record c { current = f c.current }

-- A target of fewer than 64 digits is filled up on the left, behind its prefix.
unfoldable pub pad_target : Text → Result StdError Text
pad_target s =
    if ltb (length s) 66
    then Base.◌>>=◌ (substr 2 s) (λ t. ok (b'0' ∷ b'x' ∷ (replicate (66 - length s) b'0' ++ t)))
    else ok s

abbrev is_late : ℤ → Bool
is_late (pos b) = ltb 0x9660180 b
is_late (negsuc b) = false

-- A number past the bound throws a pointer, which `catch (const std::exception&)` misses; a text
-- that is no number leaves the -1 that stands there.
unfoldable pub set_block : Result StdError ℕ → M (Unit {0})
set_block (err e) = skip
set_block (ok v) = do
  change_work λ w. record w { block = to_int v }
  when (is_late (to_int v)) throw_new

-- `0x` and the text, as a hash; `h256(s)`.
abbrev pub hash_of : Text → M (List ℕ)
hash_of s = lift (from_text 32 s)

module _ (now : ℕ) where
  -- The end of every branch that takes a job.
  abbrev take_job : M (Unit {0})
  take_job = modify λ c. record c { current_timestamp = now; new_job_processed = true }

  -- The job of a NiceHash pool, with the pool's part of the nonce.
  unfoldable pub nicehash_job : Text → Text → M (Unit {0})
  nicehash_job seed_text header_text =
      when (not (is_empty header_text) && not (is_empty seed_text)) (do
        seed ← hash_of seed_text
        change_work λ w. record w { seed = seed }
        header ← hash_of header_text
        change_work λ w. record w { header = header }
        s ← get_session
        change_work λ w. record w {
          boundary = s.next_work_boundary;
          start_nonce = s.extra_nonce;
          ex_size_bytes = u16 s.extra_nonce_size_bytes;
          block = negsuc 0;
        }
        take_job)

  unfoldable pub target_job : Text → Text → Text → M (Unit {0})
  target_job header_text seed_text target_text = do
    target ← lift (pad_target target_text)
    seed ← hash_of seed_text
    change_work λ w. record w { seed = seed }
    header ← hash_of header_text
    change_work λ w. record w { header = header }
    boundary ← hash_of target
    change_work λ w. record w { boundary = boundary }
    take_job

  module _ (J : Json) (target_of_difficulty : J.Value → Result JsonError (List ℕ))
      (project : Text) where
    open J use {Value, null, is_array, is_object, is_member, empty, size, get, at, as_string}

    -- Only some Eth-Proxy pools send the number of the block.
    unfoldable pub read_block : ℕ → Value → ℕ → M (Unit {0})
    read_block mode params idx = do
      change_work λ w. record w { block = negsuc 0 }
      block_text ←
          lift
            (if mode == Mode.ethproxy && ltb idx (size params) then at_text J params idx else ok [])
      when (text_eq (take 2 block_text) (codes "0x")) (set_block (stoull block_text))

    unfoldable pub notify_array : ℕ → Value → ℕ → M (Unit {0})
    notify_array mode params idx = do
      job ← lift (at_text J params 0)
      change_work λ w. record w { job = job }
      if mode == Mode.ethereumstratum
          then (do
            seed_text ← lift (at_text J params 1)
            header_text ← lift (at_text J params 2)
            nicehash_job seed_text header_text)
          else (do
            header_text ← lift (at_text J params idx)
            seed_text ← lift (at_text J params (idx + 1))
            target_text ← lift (at_text J params (idx + 2))
            read_block mode params (idx + 3)
            target_job header_text seed_text target_text)

    -- `mining.notify`, but for EthereumStratum/2.0.0. A later job of one transmission is dropped.
    unfoldable pub notify_job : Value → M (Unit {0})
    notify_job msg = do
      subscribed ← gets is_subscribed
      processed ← gets λ c. c.new_job_processed
      when (not subscribed || processed) leave
      mode ← gets λ c. c.conn.stratum_mode
      in_result ← lift (also (mode == Mode.ethproxy) (is_member msg (codes "result")))
      params ← lift (get msg (if in_result then codes "result" else codes "params") null)
      when (is_array params && not (empty params))
          (notify_array mode params (if in_result then 0 else 1))

    -- The parameters of a version 2 job are an array of four.
    four_params : Value → Result JsonError (Option Value)
    four_params msg = Base.◌>>=◌ (is_member msg (codes "params")) λ present.
        if not present
        then ok none
        else Base.◌>>=◌ (get msg (codes "params") null) λ params.
          ok (
            if is_array params && not (empty params) && size params == 4 then some params else none)

    unfoldable pub notify2_job : Session → Value → M (Unit {0})
    notify2_job s params = do
      job ← lift (at_text J params 0)
      change_work λ w. record w { job = job }
      block_text ← lift (at_text J params 1)
      block ← lift (stoull block_text)
      change_work λ w. record w { block = to_int block }
      header_text ← lift (at_text J params 2)
      header ← hash_of (b'0' ∷ b'x' ∷ pad_left header_text 64 b'0')
      change_work λ w. record w { header = header }
      boundary ← hash_of (hex s.next_work_boundary add)
      change_work λ w. record w {
        boundary = boundary;
        epoch = to_int s.epoch;
        algo = s.algo;
        start_nonce = s.extra_nonce;
        ex_size_bytes = u16 s.extra_nonce_size_bytes;
      }
      take_job

    unfoldable pub notify2 : Value → M (Unit {0})
    unfolding four_params
    notify2 msg = do
      session ← gets λ c. c.session
      cases session leave (λ s.
          if not s.first_mining_set
          then leave
          else (do found ← lift (four_params msg); cases found leave (notify2_job s)))

    unfoldable pub set_difficulty : Value → M (Unit {0})
    set_difficulty msg = do
      params ← lift (get msg (codes "params") null)
      when (is_array params) (do
        target ← lift (Base.◌>>=◌ (at params 0 (J.number 1)) target_of_difficulty)
        change_session λ s. record s { next_work_boundary = target })

    unfoldable pub set_extranonce : Value → M (Unit {0})
    set_extranonce msg = do
      params ← lift (get msg (codes "params") null)
      when (is_array params) (do
        enonce ← lift (at_text J params 0)
        when (not (is_empty enonce)) (process_extranonce enonce))

    -- The parameters of `mining.set` are an object that is not empty.
    some_members : Value → Result JsonError (Option Value)
    some_members msg = Base.◌>>=◌ (is_member msg (codes "params")) λ present.
        if not present
        then ok none
        else Base.◌>>=◌ (get msg (codes "params") null)
            λ params. ok (if is_object params && not (empty params) then some params else none)

    unfoldable pub mining_set_members : Value → M (Unit {0})
    mining_set_members params = do
      change_session λ s. record s { first_mining_set = true }
      timeout ← lift (get_text J params (codes "timeout") [])
      epoch ← lift (get_text J params (codes "epoch") [])
      target ← lift (get_text J params (codes "target") [])
      when (not (is_empty timeout))
          (do seconds ← lift (stoi timeout); change_session λ s. record s { timeout = seconds })
      when (not (is_empty epoch))
          (do n ← lift (stoull epoch); change_session λ s. record s { epoch = u32 n })
      when (not (is_empty target)) (do
        boundary ← hash_of (b'0' ∷ b'x' ∷ pad_left target 64 b'0')
        change_session λ s. record s { next_work_boundary = boundary })
      algo ← lift (get_text J params (codes "algo") (codes "ethash"))
      change_session λ s. record s { algo = algo }
      enonce ← lift (get_text J params (codes "extranonce") [])
      when (not (is_empty enonce)) (process_extranonce enonce)

    unfoldable pub mining_set : Value → M (Unit {0})
    unfolding some_members
    mining_set msg = do found ← lift (some_members msg); cases found leave mining_set_members

    -- `client.get_version`.
    unfoldable pub version_request : Header → Request
    version_request h =
        let req = assign (codes "result") (text project) (assign (codes "id") (number h.id) []) in
        if h.rpc2
        then assign (codes "jsonrpc") (text (codes "2.0")) req
        else assign (codes "error") null_field req

    unfoldable pub unknown_method : Header → Request
    unknown_method h =
        let base = if h.rpc2 then assign (codes "jsonrpc") (text (codes "2.0")) [] else [] in
        assign (codes "error") (text (codes "Method not found"))
          (assign (codes "id") (number h.id) base)

    unfoldable pub process_notification : Header → Value → M (Unit {0})
    process_notification h msg = do
      mode ← gets λ c. c.conn.stratum_mode
      let notify = text_eq h.method (codes "mining.notify")
      let in_mode1 = λ (name : Text). text_eq h.method name && mode == Mode.ethereumstratum
      let in_mode2 = λ (name : Text). text_eq h.method name && mode == Mode.ethereumstratum2
      if notify && not (mode == Mode.ethereumstratum2)
          then notify_job msg
          else if notify
          then notify2 msg
          else if in_mode1 (codes "mining.set_difficulty")
          then set_difficulty msg
          else if in_mode1 (codes "mining.set_extranonce")
          then set_extranonce msg
          else if in_mode2 (codes "mining.set")
          then mining_set msg
          else if in_mode2 (codes "mining.bye")
          then post post_disconnect
          else if text_eq h.method (codes "client.get_version")
          then modify (send (version_request h))
          else modify (send (unknown_method h))
