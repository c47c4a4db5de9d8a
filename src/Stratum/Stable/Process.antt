-- ===== src/Stratum/Stable/Process.antt =====
-- processResponse and the handling of one line keep every property that their steps keep.
use fpga_ethash.Json.{Json, JsonError}
use fpga_ethash.Base.{ℕ, List, Result, Option}
use fpga_ethash.Stratum.{Client, Text}
use fpga_ethash.Stratum.Effects.{Reply, value, returned, threw, threw_pointer, undefined, M}
use fpga_ethash.Stratum.Keeps.{Keeps, keeps_rules}
use fpga_ethash.Stratum.Message.{Header}
use fpga_ethash.Stratum.Notify.{process_notification}
use fpga_ethash.Stratum.Process.{check_message, handle_notification, process_response}
use fpga_ethash.Stratum.Receive.{guarded, process_line}
use fpga_ethash.Stratum.Stable.{StableReply, StableWork}
use fpga_ethash.Stratum.Stable.Replies.{process_reply-Keeps}
use fpga_ethash.Stratum.Stable.Notify.{process_notification-Keeps}

module _ (P : Client → Type 0) where
  guarded_state : (r : Reply (Unit {0})) (c : Client) → P c → P (guarded (λ d. (r, c)) c).1
  unfolding guarded
  guarded_state (value a) c h = h
  guarded_state returned c h = h
  guarded_state threw c h = h
  guarded_state threw_pointer c h = h
  guarded_state undefined c h = h

module _ {P : Client → Type 0} where
  pub Keeps-guarded : (m : M (Unit {0})) → Keeps P m → Keeps P (guarded m)
  unfolding guarded
  Keeps-guarded m k = record { after = λ c h. guarded_state P (m c).0 (m c).1 (k.after c h) }

  module _ (stable : StableReply P) (J : Json)
      (target_of_difficulty : J.Value → Result JsonError (List ℕ)) (project : Text) (now : ℕ) where
    open stable use {on_event}

    check_message-Keeps :
        (h : Header) (msg : J.Value)
        → Keeps P (check_message J target_of_difficulty project now h msg)
    unfolding check_message
    check_message-Keeps h msg = search (keeps_rules, on_event) depth 12

    pub process_response-Keeps_notifications :
        ((h : Header) (msg : J.Value)
          → Keeps P (process_notification now J target_of_difficulty project h msg))
        → (msg : J.Value) → Keeps P (process_response J target_of_difficulty project now msg)
    unfolding process_response handle_notification
    process_response-Keeps_notifications notes msg =
        search (keeps_rules, check_message-Keeps, process_reply-Keeps stable, notes) depth 20

    pub process_response-Keeps :
        StableWork P
        → (msg : J.Value) → Keeps P (process_response J target_of_difficulty project now msg)
    process_response-Keeps work =
        process_response-Keeps_notifications
          (process_notification-Keeps stable J target_of_difficulty project now work)

    pub process_line-Keeps :
        (parse : Text → Option J.Value)
        → ((msg : J.Value) → Keeps P (process_response J target_of_difficulty project now msg))
        → (line : Text) → Keeps P (process_line J parse target_of_difficulty project now line)
    unfolding process_line
    process_line-Keeps parse responses line =
        search (keeps_rules, Keeps-guarded, responses) depth 12
