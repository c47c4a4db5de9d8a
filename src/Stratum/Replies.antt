-- ===== src/Stratum/Replies.antt =====
-- EthStratumClient.cpp: the part of processResponse for the responses to the program's own requests.
use fpga_ethash.Json.{Json, JsonError}
use fpga_ethash.Base.{
  ℕ, ◌+◌, ◌-◌, List, [], ◌∷◌, ◌++◌, Bool, true, false, not, ◌||◌, ◌&&◌, some, none, is_empty,
  text_eq, ◌==◌, leb, if◌then◌else◌, Result, ok, err, codes, take,
}
use fpga_ethash.Base
use fpga_ethash.Stratum.{
  Text, assign, number, text, texts, is_subscribed, is_authorized, on_solution_accepted,
  on_solution_rejected, post_disconnect,
}
use fpga_ethash.Stratum.Mode
use fpga_ethash.Stratum.Effects.{
  M, ◌>>=◌, cases, ◌>>◌, modify, gets, lift, leave, when, post, pure, skip, change_session,
  change_conn, mark_unrecoverable,
}
use fpga_ethash.Stratum.Pleas.{enqueue_response_plea, dequeue_response_plea}
use fpga_ethash.Stratum.Message.{Header, get_text}
use fpga_ethash.Stratum.Login.{reply_login, add_credentials, set_subscribed}
use fpga_ethash.Stratum.Send.{send}

-- Give the connection up for good.
abbrev pub abandon {ℓ} : {A : Type ℓ} → M A
abandon = do change_conn mark_unrecoverable; post post_disconnect; leave

-- An error of any kind, while the mode is not confirmed, moves on to the next mode.
unfoldable pub fail_detection : Bool → M (Unit {0})
fail_detection is_success = do
  confirmed ← gets λ c. c.conn.stratum_mode_confirmed
  when (not is_success && not confirmed) (do post post_disconnect; leave)

-- What the pool says of a solution; the miner's index is the id less 40.
unfoldable pub report_solution : ℕ → ℕ → Bool → Bool → M (Unit {0})
report_solution id delay is_success stale =
    if is_success
    then post (on_solution_accepted delay (id - 40) stale)
    else post (on_solution_rejected delay (id - 40))

module _ (J : Json) where
  open J use {Value, null, is_bool, is_string, is_array, get, as_string, as_bool}

  -- A result that is a Boolean overrides the absence of an error.
  unfoldable pub confirmed_success : Bool → Value → Result JsonError Bool
  confirmed_success is_success result =
      if is_success && is_bool result then as_bool result else ok is_success

  -- A text that is not empty; nothing else is asked of a value that is no text.
  unfoldable pub nonempty_text : Value → Result JsonError (Base.Option Text)
  nonempty_text v =
      if is_string v
      then Base.◌>>=◌ (as_string v) (λ t. ok (if is_empty t then none else some t))
      else ok none

  -- An error whose code begins with 2 accepts a solution that is stale.
  unfoldable pub is_stale : Bool → Value → Result JsonError Bool
  is_stale true msg = ok false
  is_stale false msg = Base.◌>>=◌ (get msg (codes "error") null) λ e.
      Base.◌>>=◌ (get_text J e (codes "code") []) λ code. ok (text_eq (take 1 code) (codes "2"))

  module _ (now : ℕ) where
    unfoldable pub reply_first : Header → Value → M (Unit {0})
    reply_first h result = do
      delay ← dequeue_response_plea now
      fail_detection h.is_success
      mode ← gets λ c. c.conn.stratum_mode
      req ← reply_login J now mode h.is_success result
      modify (send req)

    unfoldable pub reply_session : Value → M (Unit {0})
    reply_session result = do
      delay ← dequeue_response_plea now
      id ← lift (nonempty_text result)
      cases id abandon (λ session_id. do
        change_session λ s. record s { session_id = session_id }
        set_subscribed
        modify λ c. record c { auth_pending = true }
        req ← add_credentials (
            assign (codes "params") (texts []) (
              assign (codes "method") (text (codes "mining.authorize"))
                (assign (codes "id") (number 3) [])))
        modify (enqueue_response_plea now)
        modify (send req))

    unfoldable pub reply_authorize : Header → Value → M (Unit {0})
    reply_authorize h result = do
      delay ← dequeue_response_plea now
      success ← lift (confirmed_success h.is_success result)
      modify λ c. record c { auth_pending = false }
      change_session λ s. record s { authorized = success }
      authorized ← gets is_authorized
      when (not authorized) abandon

    unfoldable pub reply_authorize2 : Header → Value → M (Unit {0})
    reply_authorize2 h result = do
      delay ← dequeue_response_plea now
      id ← if h.is_success then lift (nonempty_text result) else pure none
      cases id abandon (λ worker_id. do
        modify λ c. record c { auth_pending = false }
        change_session λ s. record s { authorized = true }
        change_session λ s. record s { worker_id = worker_id })

    unfoldable pub reply_solution : Header → Value → M (Unit {0})
    reply_solution h result = do
      delay ← dequeue_response_plea now
      success ← lift (confirmed_success h.is_success result)
      report_solution h.id delay success false

    unfoldable pub reply_solution2 : Header → Value → M (Unit {0})
    reply_solution2 h msg = do
      delay ← dequeue_response_plea now
      stale ← lift (is_stale h.is_success msg)
      report_solution h.id delay (h.is_success || stale) stale

    -- The id that ethermine.org answers errors with.
    unfoldable pub reply_999 : Header → M (Unit {0})
    reply_999 h = do
      fail_detection h.is_success
      subscribed ← gets is_subscribed
      authorized ← gets is_authorized
      when (not h.is_success && (not subscribed || not authorized)) (do post post_disconnect; leave)

    -- The first job of the Eth-Proxy mode becomes a notification.
    unfoldable pub reply_work : Header → Value → M Header
    reply_work h msg = do
      mode ← gets λ c. c.conn.stratum_mode
      result ← lift (get msg (codes "result") null)
      pure (
          if mode == Mode.ethproxy && is_array result
          then record h { method = codes "mining.notify"; is_notification = true }
          else h)

    abbrev keep : Header → M (Unit {0}) → M Header
    keep h m = m >>= λ _. pure h

    unfoldable pub process_reply : Header → Value → M Header
    process_reply h msg = do
      result ← lift (get msg (codes "result") null)
      mode ← gets λ c. c.conn.stratum_mode
      max_id ← gets λ c. c.solution_submitted_max_id
      if h.id == 1
          then keep h (reply_first h result)
          else if h.id == 2
          then keep h (if mode == 3 then reply_session result else skip)
          else if h.id == 3 && not (mode == Mode.ethereumstratum2)
          then keep h (reply_authorize h result)
          else if h.id == 3
          then keep h (reply_authorize2 h result)
          else if leb 40 h.id && leb h.id max_id && not (mode == Mode.ethereumstratum2)
          then keep h (reply_solution h result)
          else if leb 40 h.id && leb h.id max_id
          then keep h (reply_solution2 h msg)
          else if h.id == 5
          then reply_work h msg
          else if h.id == 9
          then pure h
          else if h.id == 999
          then keep h (reply_999 h)
          else leave
