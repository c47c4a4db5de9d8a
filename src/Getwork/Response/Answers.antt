-- ===== src/Getwork/Response/Answers.antt =====
-- A solution that is submitted, sent and answered.
use fpga_ethash.Json.{Json, JsonError}
use fpga_ethash.Work.{Solution}
use fpga_ethash.Base.{
  ℕ, ◌+◌, ◌-◌, ◌<◌, ◌≤◌, ap, ◌∙◌, ◌≡◌, refl, [], ◌∷◌, Bool, true, false, some, Result, ok, ◌>>=◌,
  codes, arith, max, List, is_empty, if◌then◌else◌, ◌^◌,
}
use fpga_ethash.Stratum.{Session, Endpoint, Text, append}
use fpga_ethash.Stratum.Message.{process_error}
use fpga_ethash.Stratum.Send.{solution_id}
use fpga_ethash.Getwork.{
  Client, log, success, submit_solution, work_request, handle_connect, async_connect, send,
  begin_connect, post_request,
}
use fpga_ethash.Getwork.Response.{
  request_id, process_response, dispatch, reply_solution, is_accepted, report, rethrow,
}

-- The exception that a text's reading threw is the fault.
reason_read :
    (b : Bool) (r : Result JsonError Text) {reason : Text}
    → (if b then ok [] else r) ≡ ok reason
    → (if b then ok [] else rethrow r) ≡ ok reason
reason_read true r e = ap rethrow e
reason_read false r e = ap rethrow e

request_id-work_request :
    (solution : Solution) → request_id (work_request solution) ≡ solution_id solution
unfolding request_id work_request append
request_id-work_request solution = refl

-- The client that waits for its socket with the solution.
abbrev submitted : Solution → Endpoint → Client → Client
submitted solution e c = log (async_connect e) (record c {
  solution_submitted_max_id = max c.solution_submitted_max_id (solution_id solution);
  tx_queue = work_request solution ∷ [];
  tx_pending = true;
  endpoint = some e;
  socket_open = true;
})

submit_solution-submitted :
    (now : ℕ) (solution : Solution) (c : Client) {s : Session} {e : Endpoint} {rest : List Endpoint}
    → c.session ≡ some s
    → c.tx_pending ≡ false
    → c.tx_queue ≡ []
    → c.endpoints ≡ e ∷ rest
    → submit_solution now solution c ≡ submitted solution e c
unfolding submit_solution send begin_connect
submit_solution-submitted now solution c has_session idle none_waits reachable = ground arith

abbrev pub sent : ℕ → Solution → Endpoint → Client → Client
sent now solution e c =
    log
      (post_request (if is_empty c.conn.path then codes "/" else c.conn.path) c.conn.host
        (work_request solution))
      (record (submitted solution e c) {
        tx_queue = [];
        pending_request = work_request solution;
        pending_timestamp = now;
      })

handle_connect-sent :
    (now : ℕ) (solution : Solution) (e : Endpoint) (c : Client)
    → c.connecting ≡ false
    → handle_connect now success (submitted solution e c) ≡ ok (sent now solution e c)
unfolding handle_connect
handle_connect-sent now solution e c settled = ground arith

module _ (J : Json) where
  open J use {Value, null, is_member, empty, get}

  pub process_response-dispatch :
      (now : ℕ) (c : Client) (msg : Value) {error : Value} {reason : Text}
      → is_member msg (codes "id") ≡ ok true
      → get msg (codes "error") null ≡ ok error
      → (if empty error then ok [] else process_error J msg) ≡ ok reason
      → process_response J now msg c
        ≡ dispatch J now (request_id c.pending_request) (empty error) msg c
  unfolding process_response
  process_response-dispatch now c msg {error} {reason} has_id has_error readable =
      let readable' = reason_read (empty error) (process_error J msg) readable in
      ground (arith, has_id, has_error, readable')

  dispatch-report :
      (now : ℕ) (solution : Solution) (c : Client) (is_success : Bool) (msg : Value)
      {accepted : Bool}
      → 40 + solution.midx < 2 ^ 32
      → solution_id solution ≤ c.solution_submitted_max_id
      → is_accepted J is_success msg ≡ ok accepted
      → dispatch J now (solution_id solution) is_success msg c
        ≡ ok (report (now - c.pending_timestamp) solution.midx accepted c)
  unfolding dispatch reply_solution
  dispatch-report now solution c is_success msg {accepted = true} small known verdict = ground arith
  dispatch-report now solution c is_success msg {accepted = false} small known verdict =
      ground arith

  -- A solution that a client with a session and nothing else to send submits is sent as soon as the
  -- socket is connected, and the response to it, if it has an id and can be read, is reported for
  -- the miner that found it, with the time since it was sent, as accepted or as rejected.
  pub submit_solution-answered :
      (now connected later : ℕ) (solution : Solution) (c : Client) {s : Session} {e : Endpoint}
      {rest : List Endpoint}
      → c.session ≡ some s
      → c.tx_pending ≡ false
      → c.tx_queue ≡ []
      → c.endpoints ≡ e ∷ rest
      → c.connecting ≡ false
      → 40 + solution.midx < 2 ^ 32
      → (msg : Value) {error : Value} {reason : Text} {accepted : Bool}
      → is_member msg (codes "id") ≡ ok true
      → get msg (codes "error") null ≡ ok error
      → (if empty error then ok [] else process_error J msg) ≡ ok reason
      → is_accepted J (empty error) msg ≡ ok accepted
      → (handle_connect connected success (submit_solution now solution c)
          >>= process_response J later msg)
        ≡ ok (report (later - connected) solution.midx accepted (sent connected solution e c))
  submit_solution-answered now connected later solution c {e} has_session idle none_waits reachable
        settled small msg {error} has_id has_error readable verdict =
      let d = sent connected solution e c in
      let fits : solution_id solution ≤ max c.solution_submitted_max_id (solution_id solution) =
        omega arith in
      ap (λ x. handle_connect connected success x >>= process_response J later msg)
        (submit_solution-submitted now solution c has_session idle none_waits reachable)
      ∙ ap (λ x. x >>= process_response J later msg)
          (handle_connect-sent connected solution e c settled)
      ∙ process_response-dispatch later d msg has_id has_error readable
      ∙ ap (λ i. dispatch J later i (empty error) msg d) (request_id-work_request solution)
      ∙ dispatch-report later solution d (empty error) msg small fits verdict
