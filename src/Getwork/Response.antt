-- ===== src/Getwork/Response.antt =====
-- EthGetworkClient.cpp: what a response of the node says, by the request that it answers.
pub mod Polling
pub mod Answers
use fpga_ethash.Json.{Json}
use fpga_ethash.CommonData.{dont_add}
use fpga_ethash.FixedHash.{hex, from_text}
use fpga_ethash.Work.{WorkPackage, empty_work}
use fpga_ethash.Stratum.{Text, Request, Field, null_field, number, text, texts, table}
use fpga_ethash.Stratum.Message.{process_error, at_text}
use fpga_ethash.Base.{
  ℕ, ◌-◌, [], ◌∷◌, Bool, true, false, not, ◌&&◌, ◌||◌, some, ◌==◌, leb, if◌then◌else◌, Result, ok,
  err, ◌>>=◌, codes, text_eq,
}
use fpga_ethash.Getwork.{
  Client, Fault, thrown, log, on_work_received, on_solution_accepted, on_solution_rejected,
}

-- The exceptions of the JSON library and of the conversion of text are one fault.
abbrev pub rethrow {ℓ κ} : {E : Type ℓ} {A : Type κ} → Result E A → Result Fault A
rethrow (ok a) = ok a
rethrow (err e) = err thrown

abbrev field_number : Field → ℕ
field_number (number n) = n
field_number null_field = 0
field_number (text t) = 0
field_number (texts ts) = 0
field_number (table ts) = 0

-- `get("id", 0)` of the request that is answered; all its ids are numbers.
unfoldable pub request_id : Request → ℕ
request_id [] = 0
request_id ((k, v) ∷ rest) =
    let later = request_id rest in if text_eq k (codes "id") then field_number v else later

-- `expires_from_now` and `async_wait`.
abbrev pub arm_timer : ℕ → Client → Client
arm_timer delay c = record c { getwork_timer = some delay }

-- Work whose header is not the current one's is new.
unfoldable pub take_work : ℕ → WorkPackage → Client → Client
take_work now wp c =
    if text_eq c.current.header wp.header
    then c
    else log (on_work_received wp) (record c { current = wp; current_timestamp = now })

abbrev pub report : ℕ → ℕ → Bool → Client → Client
report delay miner_index accepted c =
    log
      (if accepted
        then on_solution_accepted delay miner_index false
        else on_solution_rejected delay miner_index)
      c

module _ (J : Json) where
  open J use {Value, null, is_member, empty, get, as_bool, to_bool?}

  -- The header, the seed and the boundary; the job's name is the header's text.
  unfoldable pub read_work : Value → Result Fault WorkPackage
  read_work result = do
    header ← rethrow (at_text J result 0) >>= λ t. rethrow (from_text 32 t)
    seed ← rethrow (at_text J result 1) >>= λ t. rethrow (from_text 32 t)
    boundary ← rethrow (at_text J result 2) >>= λ t. rethrow (from_text 32 t)
    ok (record (empty_work (codes "ethash")) {
      header = header;
      seed = seed;
      boundary = boundary;
      job = hex header dont_add;
    })

  unfoldable pub reply_get_work : ℕ → Bool → Value → Client → Result Fault Client
  unfolding read_work take_work
  reply_get_work now false msg c = ok (arm_timer 30000 c)
  reply_get_work now true msg c = do
    present ← rethrow (is_member msg (codes "result"))
    if not present then ok c else (do
      result ← rethrow (get msg (codes "result") null)
      wp ← read_work result
      ok (arm_timer c.farm_recheck_period (take_work now wp c)))

  -- A result that can be a Boolean overrides the absence of an error.
  unfoldable pub is_accepted : Bool → Value → Result Fault Bool
  is_accepted false msg = ok false
  is_accepted true msg = do
    result ← rethrow (get msg (codes "result") null)
    if to_bool? result then rethrow (as_bool result) else ok true

  unfoldable pub reply_solution : ℕ → ℕ → Bool → Value → Client → Result Fault Client
  unfolding is_accepted
  reply_solution now id is_success msg c = do
    accepted ← is_accepted is_success msg
    ok (report (now - c.pending_timestamp) (id - 40) accepted c)

  -- The response by the id of the request; the text of an error is only printed.
  unfoldable pub dispatch : ℕ → ℕ → Bool → Value → Client → Result Fault Client
  dispatch now id is_success msg c =
      if id == 0 || id == 1
      then reply_get_work now is_success msg c
      else if id == 9
      then ok c
      else if leb 40 id && leb id c.solution_submitted_max_id
      then reply_solution now id is_success msg c
      else ok c

  unfoldable pub process_response : ℕ → Value → Client → Result Fault Client
  process_response now msg c = do
    present ← rethrow (is_member msg (codes "id"))
    if not present then ok c else (do
      error ← rethrow (get msg (codes "error") null)
      reason ← if empty error then ok [] else rethrow (process_error J msg)
      dispatch now (request_id c.pending_request) (empty error) msg c)
