-- ===== src/Getwork/Response/Polling.antt =====
-- Which responses keep the client asking for work.
use fpga_ethash.Json.{Json}
use fpga_ethash.Work.{WorkPackage}
use fpga_ethash.Base.{
  is_set, ℕ, ◌≡◌, refl, then_eq, ◌∙◌, [], Bool, true, false, not, ◌&&◌, ◌||◌, none, ◌==◌,
  if◌then◌else◌, ok, codes, arith,
}
use fpga_ethash.Stratum.{Text}
use fpga_ethash.Stratum.Message.{process_error}
use fpga_ethash.Getwork.{Client}
use fpga_ethash.Getwork.Response.Answers.{process_response-dispatch}
use fpga_ethash.Getwork.Response.{
  request_id, process_response, dispatch, reply_get_work, read_work, take_work, arm_timer,
}

module _ (J : Json) where
  open J use {Value, null, is_member, empty, get}

  dispatch-get_work :
      (now id : ℕ) (is_success : Bool) (msg : Value) (c : Client)
      → (id == 0 || id == 1) ≡ true
      → dispatch J now id is_success msg c ≡ reply_get_work J now is_success msg c
  unfolding dispatch
  dispatch-get_work now id is_success msg c asked = then_eq (id == 0 || id == 1) _ asked

  reply_get_work-polls :
      (now : ℕ) (is_success : Bool) (msg : Value) (c : Client) {has_result : Bool} {result : Value}
      {wp : WorkPackage}
      → c.getwork_timer ≡ none
      → is_member msg (codes "result") ≡ ok has_result
      → get msg (codes "result") null ≡ ok result
      → read_work J result ≡ ok wp
      → (c' : Client) × (reply_get_work J now is_success msg c ≡ ok c')
        × (is_set c'.getwork_timer ≡ (not is_success || has_result))
  unfolding reply_get_work
  reply_get_work-polls now false msg c asleep present result_read work_read =
      (arm_timer 30000 c, refl, refl)
  reply_get_work-polls now true msg c {has_result = false} asleep present result_read work_read =
      (c, ground arith, ground arith)
  reply_get_work-polls now true msg c {has_result = true} {wp} asleep present result_read
        work_read =
      (arm_timer c.farm_recheck_period (take_work now wp c), ground arith, refl)

  -- A response to a request for work, whose members can be read, is handled to its end, and the next
  -- request for work is scheduled if the response has an id and either an error or a result, and only
  -- then: after any other response the client does not ask for work again.
  pub process_response-polls :
      (now : ℕ) (msg : Value) (c : Client) {has_id has_result : Bool} {error result : Value}
      {reason : Text} {wp : WorkPackage}
      → (request_id c.pending_request == 0 || request_id c.pending_request == 1) ≡ true
      → c.getwork_timer ≡ none
      → is_member msg (codes "id") ≡ ok has_id
      → get msg (codes "error") null ≡ ok error
      → (if empty error then ok [] else process_error J msg) ≡ ok reason
      → is_member msg (codes "result") ≡ ok has_result
      → get msg (codes "result") null ≡ ok result
      → read_work J result ≡ ok wp
      → (c' : Client) × (process_response J now msg c ≡ ok c')
        × (is_set c'.getwork_timer ≡ (has_id && (not (empty error) || has_result)))
  unfolding process_response
  process_response-polls now msg c {has_id = false} asked asleep id_read error_read readable present
        result_read work_read =
      (c, ground arith, ground arith)
  process_response-polls now msg c {has_id = true} {error} asked asleep id_read error_read readable
        present result_read work_read =
      let (c', answered, timed) =
        reply_get_work-polls now (empty error) msg c asleep present result_read work_read in
      (
        c',
        process_response-dispatch J now c msg id_read error_read readable
            ∙ dispatch-get_work now (request_id c.pending_request) (empty error) msg c asked
            ∙ answered,
        timed,
      )
