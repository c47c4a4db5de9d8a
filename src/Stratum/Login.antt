-- ===== src/Stratum/Login.antt =====
-- EthStratumClient.cpp: the response to the first message after a connection, by the mode.
pub mod Extranonce
use fpga_ethash.Json.{Json, JsonError}
use fpga_ethash.FixedHash.{from_text}
use fpga_ethash.Base.{
  ℕ, ◌+◌, ◌^◌, List, [], ◌∷◌, ◌++◌, Bool, true, false, not, ◌||◌, ◌&&◌, some, none, is_empty,
  text_eq, ◌==◌, if◌then◌else◌, Result, ok, err, length, codes, u32,
}
use fpga_ethash.Base
use fpga_ethash.Stratum.{
  Client, Session, Text, Request, assign, append, number, text, texts, on_connected,
  post_disconnect,
}
use fpga_ethash.Stratum.Mode
use fpga_ethash.Stratum.Effects.{
  M, value, ◌>>=◌, ◌>>◌, modify, gets, lift, leave, when, post, log, pure, skip, get_session,
  change_session, change_conn, set_stratum_mode, mark_unrecoverable,
}
use fpga_ethash.Stratum.Pleas.{enqueue_response_plea}
use fpga_ethash.Stratum.Numbers.{stoull, resize}
use fpga_ethash.Stratum.Message.{also, get_text, at_text}
use fpga_ethash.Stratum.Send.{send}

-- The bytes of the default target, 0x00000000ffff00...
abbrev default_boundary : List ℕ
default_boundary =
    0 ∷ 0 ∷ 0 ∷ 0 ∷ 255 ∷ 255 ∷ 0 ∷ 0 ∷ 0 ∷ 0 ∷ 0 ∷ 0 ∷ 0 ∷ 0 ∷ 0 ∷ 0 ∷ 0 ∷ 0 ∷ 0 ∷ 0 ∷ 0 ∷ 0 ∷ 0
    ∷ 0 ∷ 0 ∷ 0 ∷ 0 ∷ 0 ∷ 0 ∷ 0 ∷ 0 ∷ 0 ∷ []

-- The default member values of a session.
abbrev pub new_session : ℕ → Session
new_session now = record {
  start = now;
  subscribed = false;
  authorized = false;
  extra_nonce = 0;
  extra_nonce_size_bytes = 0;
  next_work_boundary = default_boundary;
  first_mining_set = false;
  timeout = 30;
  session_id = [];
  worker_id = [];
  algo = codes "ethash";
  epoch = 0;
  last_tx_stamp = now;
}

unfoldable pub start_session : ℕ → Client → Client
start_session now c =
    log on_connected (record c { session = some (new_session now); current_timestamp = now })

-- The mode is the pool's: it is confirmed, and a session starts.
unfoldable pub confirm_mode : ℕ → ℕ → M (Unit {0})
unfolding start_session
confirm_mode now mode = do change_conn (set_stratum_mode mode true); modify (start_session now)

-- The member is called a size in bytes and holds the number of digits.
unfoldable pub process_extranonce : Text → M (Unit {0})
process_extranonce enonce = do
  change_session λ s. record s { extra_nonce_size_bytes = u32 (length enonce) }
  nonce ← lift (stoull (resize 16 b'0' enonce))
  change_session λ s. record s { extra_nonce = nonce }

-- The mode that was tried is not the pool's.
unfoldable pub refuse_mode : M Request
refuse_mode = do
  confirmed ← gets λ c. c.conn.stratum_mode_confirmed
  when confirmed (change_conn mark_unrecoverable)
  post post_disconnect
  leave

-- `mining.authorize`, added to what `req` already holds.
unfoldable pub add_credentials : Request → M Request
add_credentials req = do
  worker ← gets λ c. c.conn.user_dot_worker
  path ← gets λ c. c.conn.path
  pass ← gets λ c. c.conn.pass
  pure (append (codes "params") pass (append (codes "params") (worker ++ path) req))

abbrev pub set_subscribed : M (Unit {0})
set_subscribed = change_session λ s. record s { subscribed = true }

module _ (J : Json) where
  open J use {Value, to_object?, is_array, is_member, size, at, as_string}

  abbrev is_text : Result JsonError Text → Text → Result JsonError Bool
  is_text r t = Base.◌>>=◌ r λ s. ok (text_eq s t)

  unfoldable pub hello_accepted : Value → Result JsonError Bool
  hello_accepted result = also (to_object? result) (
      Base.◌>>=◌ (is_member result (codes "proto")) λ p. also p (
        Base.◌>>=◌ (is_text (get_text J result (codes "proto") []) (codes "EthereumStratum/2.0.0"))
          λ q. also q (
            Base.◌>>=◌ (is_member result (codes "encoding")) λ a. also a (
              Base.◌>>=◌ (is_member result (codes "resume")) λ b. also b (
                Base.◌>>=◌ (is_member result (codes "timeout")) λ d. also d (
                  Base.◌>>=◌ (is_member result (codes "maxerrors"))
                    λ e. also e (is_member result (codes "node"))))))))

  unfoldable pub subscription_accepted : Value → Result JsonError Bool
  subscription_accepted result = also (is_array result) (
      Base.◌>>=◌ (at result 0 J.null) λ first.
        also (is_array first && size first == 3)
          (is_text (at_text J first 2) (codes "EthereumStratum/1.0.0")))

  module _ (now : ℕ) where
    unfoldable pub reply_hello : Value → M Request
    reply_hello result = do
      accepted ← lift (hello_accepted result)
      if accepted
          then (do
            confirm_mode now 3
            modify (enqueue_response_plea now)
            pure (
                assign (codes "method") (text (codes "mining.subscribe"))
                  (assign (codes "id") (number 2) [])))
          else refuse_mode

    -- The request is sent with its first id and is then changed into the next one.
    unfoldable pub reply_subscription : Value → M Request
    reply_subscription result = do
      accepted ← lift (subscription_accepted result)
      if accepted
          then (do
            confirm_mode now 2
            set_subscribed
            let req = assign (codes "params") (texts []) (
                assign (codes "method") (text (codes "mining.extranonce.subscribe"))
                  (assign (codes "id") (number 2) []))
            modify (send req)
            enonce ← lift (at_text J result 1)
            when (not (is_empty enonce)) (process_extranonce enonce)
            modify λ c. record c { auth_pending = true }
            req' ← add_credentials (
                assign (codes "method") (text (codes "mining.authorize"))
                  (assign (codes "id") (number 3) req))
            modify (enqueue_response_plea now)
            pure req')
          else refuse_mode

    unfoldable pub reply_proxy : Bool → M Request
    reply_proxy is_success =
        if is_success
        then (do
          confirm_mode now 1
          set_subscribed
          change_session λ s. record s { authorized = true }
          pure (
              assign (codes "params") (texts []) (
                assign (codes "method") (text (codes "eth_getWork"))
                  (assign (codes "id") (number 5) []))))
        else refuse_mode

    unfoldable pub reply_stratum : Bool → M Request
    reply_stratum is_success =
        if is_success
        then (do
          confirm_mode now 0
          set_subscribed
          modify λ c. record c { auth_pending = true }
          req ← add_credentials (
              assign (codes "params") (texts []) (
                assign (codes "method") (text (codes "mining.authorize")) (
                  assign (codes "jsonrpc") (text (codes "2.0"))
                    (assign (codes "id") (number 3) []))))
          modify (enqueue_response_plea now)
          pure req)
        else refuse_mode

    -- An unknown mode sends the null request.
    unfoldable pub reply_login : ℕ → Bool → Value → M Request
    reply_login mode is_success result =
        if mode == Mode.ethereumstratum2
        then reply_hello result
        else if mode == Mode.ethereumstratum
        then reply_subscription result
        else if mode == Mode.ethproxy
        then reply_proxy is_success
        else if mode == Mode.stratum
        then reply_stratum is_success
        else pure []
