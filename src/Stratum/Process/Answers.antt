-- ===== src/Stratum/Process/Answers.antt =====
-- What the pool's answer to a solution makes the program report.
use fpga_ethash.Json.{Json, JsonError}
use fpga_ethash.Work.{Solution}
use fpga_ethash.Base.{
  ◌⊎◌, inl, inr, ℕ, ◌+◌, ◌^◌, ◌≤◌, ◌<◌, ◌≡◌, refl, sym, ap, ◌∙◌, subst, List, [], ◌∷◌, ◌++◌, Bool,
  true, false, ok, Result, ◌==◌, codes, if◌then◌else◌, arith, max,
}
use fpga_ethash.Stratum.{
  Client, Text, Request, Event, on_solution_accepted, on_solution_rejected, is_authorized,
}
use fpga_ethash.Stratum.Effects.{Reply, value, ◌>>=◌}
use fpga_ethash.Stratum.Keeps.{Keeps, keeps_rules}
use fpga_ethash.Stratum.Pleas.{enqueue_response_plea, dequeue_response_plea}
use fpga_ethash.Stratum.Send.{
  send, send_socket_data, solution_id, submit_solution, send_solution, solution_request, own_digits,
}
use fpga_ethash.Stratum.Message.{read_header-is_success, Header, read_header, is_invalid}
use fpga_ethash.Stratum.Replies.{confirmed_success, report_solution, reply_solution, process_reply}
use fpga_ethash.Stratum.Process.{check_message, handle_notification, process_response}

pub delay_value : Reply ℕ → ℕ
delay_value (value d) = d
delay_value _ = 0

pub dequeue_value :
    (now : ℕ) (c : Client)
    → dequeue_response_plea now c
      ≡ (value (delay_value (dequeue_response_plea now c).0), (dequeue_response_plea now c).1)
unfolding dequeue_response_plea delay_value
dequeue_value now c = ground arith

dequeue-events : (now : ℕ) (c : Client) → (dequeue_response_plea now c).1.events ≡ c.events
unfolding dequeue_response_plea
dequeue-events now c = ground arith

-- The report for the miner that found the solution.
abbrev pub report : Solution → ℕ → Bool → Event
report solution delay accepted =
    if accepted
    then on_solution_accepted delay solution.midx false
    else on_solution_rejected delay solution.midx

module _ (solution : Solution) where
  module _ (J : Json) (now : ℕ) where
    reply_solution-events :
        (h : Header) (result : J.Value) (accepted : Bool) (c : Client)
        → h.id ≡ solution_id solution
        → 40 + solution.midx < 2 ^ 32
        → confirmed_success J h.is_success result ≡ ok accepted
        → (d : ℕ) × ((reply_solution J now h result c).0 ≡ value tt)
          × ((reply_solution J now h result c).1.events
              ≡ c.events ++ report solution d accepted ∷ [])
    unfolding reply_solution report_solution ◌>>=◌
    reply_solution-events h result true c id small success = (
      delay_value (dequeue_response_plea now c).0,
      ground (arith, dequeue_value now c, dequeue-events now c),
      ground (arith, dequeue_value now c, dequeue-events now c),
    )
    reply_solution-events h result false c id small success = (
      delay_value (dequeue_response_plea now c).0,
      ground (arith, dequeue_value now c, dequeue-events now c),
      ground (arith, dequeue_value now c, dequeue-events now c),
    )

    process_reply-events :
        (h : Header) (msg result : J.Value) (accepted : Bool) (c : Client)
        → h.id ≡ solution_id solution
        → 40 + solution.midx < 2 ^ 32
        → solution_id solution ≤ c.solution_submitted_max_id
        → (c.conn.stratum_mode == 3) ≡ false
        → J.get msg (codes "result") J.null ≡ ok result
        → confirmed_success J h.is_success result ≡ ok accepted
        → (d : ℕ) × ((process_reply J now h msg c).0 ≡ value h)
          × ((process_reply J now h msg c).1.events ≡ c.events ++ report solution d accepted ∷ [])
    unfolding process_reply ◌>>=◌
    process_reply-events h msg result accepted c id small sent mode has success =
        let (d, done, told) = reply_solution-events h result accepted c id small success in
        (d, ground (arith, done, told), ground (arith, done, told))

  -- A solution that has been sent keeps its id below the greatest id.
  abbrev WasSent : ℕ → Client → Type 0
  WasSent mode c =
      (solution_id solution ≤ c.solution_submitted_max_id) × (c.conn.stratum_mode ≡ mode)

  send-WasSent :
      (mode : ℕ) (req : Request) (c : Client) → WasSent mode c → WasSent mode (send req c)
  unfolding send send_socket_data
  send-WasSent mode req c h = ground arith

  own_digits-WasSent : (mode : ℕ) → Keeps (WasSent mode) (own_digits solution)
  unfolding own_digits
  own_digits-WasSent mode = search keeps_rules

  request-WasSent :
      (mode m : ℕ) (base : Request) → Keeps (WasSent mode) (solution_request m solution base)
  unfolding solution_request
  request-WasSent mode m base = search (keeps_rules, own_digits-WasSent) depth 24

  enqueue-WasSent :
      (mode now : ℕ) (c : Client) → WasSent mode c → WasSent mode (enqueue_response_plea now c)
  unfolding enqueue_response_plea
  enqueue-WasSent mode now c h = h

  send_solution-WasSent : (mode now : ℕ) → Keeps (WasSent mode) (send_solution now solution)
  unfolding send_solution
  send_solution-WasSent mode now =
      search (keeps_rules, request-WasSent, send-WasSent, enqueue-WasSent) depth 16

  abbrev raised : Client → Client
  raised c = record c {
    solution_submitted_max_id = max c.solution_submitted_max_id (solution_id solution);
  }

  submit_solution-authorized :
      (now : ℕ) (c : Client)
      → is_authorized c ≡ true
      → submit_solution now solution c ≡ send_solution now solution (raised c)
  unfolding submit_solution ◌>>=◌
  submit_solution-authorized now c authorized = ground arith

  submit_solution-WasSent :
      (now : ℕ) (c : Client)
      → is_authorized c ≡ true
      → WasSent c.conn.stratum_mode (submit_solution now solution c).1
  submit_solution-WasSent now c authorized =
      subst (λ r. WasSent c.conn.stratum_mode r.1)
        (sym (submit_solution-authorized now c authorized))
        ((send_solution-WasSent c.conn.stratum_mode now).after (raised c) (
          let fits : solution_id solution ≤ max c.solution_submitted_max_id (solution_id solution) =
                omega arith in
              fits,
          refl,
        ))

-- Whether a solution is accepted: not if there is an error; if there is none, a Boolean result says so,
-- and any other result accepts it.
abbrev pub Verdict : (J : Json) → (error result : J.Value) → (accepted : Bool) → Type 0
Verdict J error result accepted =
    ((J.empty error ≡ false) × (accepted ≡ false))
    ⊎ (((J.empty error ≡ true) × (J.is_bool result ≡ false) × (accepted ≡ true))
        ⊎ ((J.empty error ≡ true) × (J.is_bool result ≡ true) × (J.as_bool result ≡ ok accepted)))

module _ (J : Json) where
  confirmed_success-Verdict :
      (b : Bool) (error result : J.Value) (accepted : Bool)
      → b ≡ J.empty error
      → Verdict J error result accepted
      → confirmed_success J b result ≡ ok accepted
  unfolding confirmed_success
  confirmed_success-Verdict b error result accepted e (inl (failed, rejected)) =
      ground (arith, e, failed, rejected)
  confirmed_success-Verdict b error result accepted e (inr (inl (fine, other, taken))) =
      ground (arith, e, fine, other, taken)
  confirmed_success-Verdict b error result accepted e (inr (inr (fine, bool, said))) =
      ground (arith, e, fine, bool, said)

-- An authorized client, in a mode other than EthereumStratum/2.0.0, that has submitted a solution of
-- a miner: a response with the solution's id, that is no notification and passes the sanity checks,
-- is handled to its end and makes the program report one event, for that miner: that the solution
-- was accepted, if there is no error and the result, if it is a Boolean, is `true`, and that it was
-- rejected if not.
pub process_response-submit_solution :
    (J : Json) (target_of_difficulty : J.Value → Result JsonError (List ℕ)) (project : Text)
    (sent now : ℕ) (solution : Solution) (c : Client) (msg error result : J.Value) (h : Header)
    (accepted : Bool)
    → is_authorized c ≡ true
    → (c.conn.stratum_mode == 3) ≡ false
    → 40 + solution.midx < 2 ^ 32
    → read_header J c.conn.stratum_mode msg ≡ ok h
    → is_invalid J h msg ≡ ok false
    → h.is_notification ≡ false
    → h.id ≡ solution_id solution
    → J.get msg (codes "result") J.null ≡ ok result
    → J.get msg (codes "error") J.null ≡ ok error
    → Verdict J error result accepted
    → let c' = (submit_solution sent solution c).1 in
      let r = process_response J target_of_difficulty project now msg c' in
      (d : ℕ) × (r.0 ≡ value tt) × (r.1.events ≡ c'.events ++ report solution d accepted ∷ [])
unfolding process_response check_message handle_notification ◌>>=◌
process_response-submit_solution J target project sent now solution c msg error result h accepted
      authorized mode small read valid answer id has has_error verdict =
    let success =
      confirmed_success-Verdict J h.is_success error result accepted
        (read_header-is_success J c.conn.stratum_mode msg error h read has_error) verdict in
    let sent_ok = submit_solution-WasSent solution sent c authorized in
    let c' : Client = (submit_solution sent solution c).1 in
    let (d, done, told) =
      process_reply-events solution J now h msg result accepted c' id small sent_ok.0
        (ap (λ (m : ℕ). m == 3) sent_ok.1 ∙ mode) has success in
    let read' : read_header J c'.conn.stratum_mode msg ≡ ok h =
      ap (λ (m : ℕ). read_header J m msg) sent_ok.1 ∙ read in
    (d, ground (arith, done, told, read'), ground (arith, done, told, read'))
