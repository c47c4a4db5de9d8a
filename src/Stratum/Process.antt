-- ===== src/Stratum/Process.antt =====
-- EthStratumClient.cpp: processResponse.
pub mod Answers
use fpga_ethash.Json.{Json, JsonError}
use fpga_ethash.Base.{ℕ, List, Bool, ◌&&◌, Result, if◌then◌else◌}
use fpga_ethash.Stratum.{Client, Text, post_disconnect}
use fpga_ethash.Stratum.Effects.{
  M, value, ◌>>=◌, ◌>>◌, gets, lift, leave, when, post, log, pure, skip,
}
use fpga_ethash.Stratum.Message.{Header, read_header, is_invalid}
use fpga_ethash.Stratum.Replies.{process_reply}
use fpga_ethash.Stratum.Notify.{process_notification}

module _ (J : Json) (target_of_difficulty : J.Value → Result JsonError (List ℕ)) (project : Text)
    (now : ℕ) where
  open J use {Value}

  -- A message that fails the sanity checks ends the connection.
  unfoldable pub check_message : Header → Value → M (Unit {0})
  check_message h msg = do
    invalid ← lift (is_invalid J h msg)
    when invalid (do post post_disconnect; leave)

  -- Notifications wait until the mode is confirmed.
  unfoldable pub handle_notification : Header → Value → M (Unit {0})
  handle_notification h msg = do
    confirmed ← gets λ c. c.conn.stratum_mode_confirmed
    when (h.is_notification && confirmed)
        (process_notification now J target_of_difficulty project h msg)

  unfoldable pub process_response : Value → M (Unit {0})
  process_response msg = do
    mode ← gets λ c. c.conn.stratum_mode
    h ← lift (read_header J mode msg)
    check_message h msg
    h' ← if h.is_notification then pure h else process_reply J now h msg
    handle_notification h' msg
