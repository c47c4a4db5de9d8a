-- ===== src/Getwork/Handlers/Waiting.antt =====
-- No request waits while nothing is on its way that will send it.
use fpga_ethash.Json.{Json}
use fpga_ethash.Work.{WorkPackage, Solution}
use fpga_ethash.Base.{
  is_set, ℕ, ◌≡◌, refl, List, [], ◌∷◌, Bool, true, false, not, ◌&&◌, ◌||◌, Option, some, none,
  is_empty, if◌then◌else◌, Result, ok, err, ◌>>=◌, arith, if_either, codes, ◌==◌, leb, ltb, ◌-◌,
  ◌/◌,
}
use fpga_ethash.Stratum.{Text, Endpoint, Request, Session}
use fpga_ethash.Getwork.{
  Client, Fault, Completion, pop_from, write_next, open_session, is_success, get_work, success,
  aborted, failed, disconnect, begin_connect, send, connect, handle_resolve, pop_endpoint, retry,
  handle_connect, handle_write, submit_hashrate, submit_solution, getwork_timer_elapsed,
}
use fpga_ethash.Getwork.Response.{
  rethrow, arm_timer, read_work, is_accepted, request_id, take_work, dispatch, reply_get_work,
  reply_solution, process_response,
}
use fpga_ethash.Getwork.Http.{finish}
use fpga_ethash.Stratum.Message.{process_error}

-- Either an operation is pending or no request waits, and there is a session just when connected.
abbrev pub IsServed : Client → Type 0
IsServed c = ((c.tx_pending || is_empty c.tx_queue) ≡ true) × (c.connected ≡ is_set c.session)

abbrev pub IsServedAfter : Result Fault Client → Type 0
IsServedAfter (ok c) = IsServed c
IsServedAfter (err e) = Unit {0}

session_either :
    (o : Option Session) (a b : Client)
    → IsServed a
    → IsServed b
    → IsServed (elim o [ none ↦ a | some s ↦ b ])
session_either none a b h k = h
session_either (some s) a b h k = k

pub disconnect-IsServed : (now : ℕ) (c : Client) → IsServed (disconnect now c)
unfolding disconnect
disconnect-IsServed now c = (refl, refl)

begin_connect-IsServed : (now : ℕ) (c : Client) → IsServed c → IsServed (begin_connect now c)
unfolding begin_connect disconnect
begin_connect-IsServed now c h = ground (arith, h.0, h.1)

send-IsServed : (now : ℕ) (req : Request) (c : Client) → IsServed c → IsServed (send now req c)
unfolding send begin_connect disconnect
send-IsServed now req c h = ground (arith, h.0, h.1)

pub connect-IsServed : (now : ℕ) (c : Client) → IsServed c → IsServed (connect now c)
unfolding connect send begin_connect disconnect
connect-IsServed now c h = ground (arith, h.0, h.1)

pub handle_resolve-IsServed :
    (now : ℕ) (found : Option (List Endpoint)) (c : Client)
    → IsServed c
    → IsServed (handle_resolve now found c)
unfolding handle_resolve
handle_resolve-IsServed now none c h = disconnect-IsServed now c
handle_resolve-IsServed now (some found) c h = send-IsServed now _ _ h

pop_from-IsServed :
    (es : List Endpoint) (next : Client → Client) (c : Client)
    → ((d : Client) → IsServed d → IsServed (next d))
    → IsServed c
    → IsServedAfter (pop_from es next c)
pop_from-IsServed [] next c k h = tt
pop_from-IsServed (e ∷ rest) next c k h = k (record c { endpoints = rest }) h

pop_endpoint-IsServed :
    (next : Client → Client) (c : Client)
    → ((d : Client) → IsServed d → IsServed (next d))
    → IsServed c
    → IsServedAfter (pop_endpoint next c)
unfolding pop_endpoint
pop_endpoint-IsServed next c = pop_from-IsServed c.endpoints next c

retry-IsServed :
    (now : ℕ) (result : Completion) (c : Client) → IsServed c → IsServedAfter (retry now result c)
unfolding retry
retry-IsServed now aborted c h = h
retry-IsServed now success c h =
    pop_endpoint-IsServed (begin_connect now) c (begin_connect-IsServed now) h
retry-IsServed now failed c h =
    pop_endpoint-IsServed (begin_connect now) c (begin_connect-IsServed now) h

connected-IsServed :
    (now : ℕ) (c : Client) → IsServed c → IsServed (write_next now (open_session now c))
connected-IsServed now c h = ground (arith, h.0, h.1)

pub handle_connect-IsServed :
    (now : ℕ) (result : Completion) (c : Client)
    → IsServed c
    → IsServedAfter (handle_connect now result c)
unfolding handle_connect
handle_connect-IsServed now result c h =
    if_either IsServedAfter (is_success result && c.socket_open) (λ _. connected-IsServed now c h)
      (λ _. retry-IsServed now result c h)

pub handle_write-IsServed :
    (now : ℕ) (result : Completion) (c : Client)
    → IsServed c
    → IsServedAfter (handle_write now result c)
unfolding handle_write
handle_write-IsServed now result c h =
    if_either IsServedAfter (is_success result) (λ _. h) (λ _. retry-IsServed now result c h)

pub submit_hashrate-IsServed :
    (now rate : ℕ) (id : Text) (c : Client) → IsServed c → IsServed (submit_hashrate now rate id c)
unfolding submit_hashrate
submit_hashrate-IsServed now rate id c h = session_either c.session c _ h (send-IsServed now _ c h)

pub submit_solution-IsServed :
    (now : ℕ) (solution : Solution) (c : Client)
    → IsServed c
    → IsServed (submit_solution now solution c)
unfolding submit_solution
submit_solution-IsServed now solution c h = session_either c.session c _ h (send-IsServed now _ _ h)

pub timer-IsServed :
    (now : ℕ) (cancelled : Bool) (c : Client)
    → IsServed c
    → IsServedAfter (getwork_timer_elapsed now cancelled c)
unfolding getwork_timer_elapsed
timer-IsServed now cancelled c h =
    if_either IsServedAfter cancelled (λ _. h)
      (λ _.
        if_either IsServedAfter (ltb c.work_timeout ((now - c.current_timestamp) / 1000))
          (λ _. pop_endpoint-IsServed (disconnect now) _ (λ d _. disconnect-IsServed now d) h)
          (λ _. send-IsServed now get_work _ h))

pub after_read {ℓ} :
    {A : Type ℓ} (r : Result Fault A) (f : A → Result Fault Client)
    → ((a : A) → IsServedAfter (f a))
    → IsServedAfter (r >>= f)
after_read (ok a) f k = k a
after_read (err e) f k = tt

pub after_step :
    (r : Result Fault Client) (f : Client → Result Fault Client)
    → IsServedAfter r
    → ((d : Client) → IsServed d → IsServedAfter (f d))
    → IsServedAfter (r >>= f)
after_step (ok c) f h k = k c h
after_step (err e) f h k = tt

pub finish-IsServed : (now : ℕ) (c : Client) → IsServed c → IsServed (finish now c)
unfolding finish
finish-IsServed now c h =
    if_either IsServed (is_empty c.tx_queue) (λ none_waits. (none_waits, h.1))
      (λ _. begin_connect-IsServed now c h)

module _ (J : Json) where
  take_work-IsServed :
      (now delay : ℕ) (wp : WorkPackage) (c : Client)
      → IsServed c
      → IsServed (arm_timer delay (take_work now wp c))
  unfolding take_work
  take_work-IsServed now delay wp c h = ground (arith, h.0, h.1)

  reply_get_work-IsServed :
      (now : ℕ) (is_success : Bool) (msg : J.Value) (c : Client)
      → IsServed c
      → IsServedAfter (reply_get_work J now is_success msg c)
  unfolding reply_get_work
  reply_get_work-IsServed now false msg c h = h
  reply_get_work-IsServed now true msg c h =
      after_read (rethrow (J.is_member msg (codes "result"))) _ λ present.
        if_either IsServedAfter (not present) (λ _. h)
          (λ _. after_read (rethrow (J.get msg (codes "result") J.null)) _ λ result.
            after_read (read_work J result) _
              λ wp. take_work-IsServed now c.farm_recheck_period wp c h)

  reply_solution-IsServed :
      (now id : ℕ) (is_success : Bool) (msg : J.Value) (c : Client)
      → IsServed c
      → IsServedAfter (reply_solution J now id is_success msg c)
  unfolding reply_solution
  reply_solution-IsServed now id is_success msg c h =
      after_read (is_accepted J is_success msg) _ λ accepted. h

  dispatch-IsServed :
      (now id : ℕ) (is_success : Bool) (msg : J.Value) (c : Client)
      → IsServed c
      → IsServedAfter (dispatch J now id is_success msg c)
  unfolding dispatch
  dispatch-IsServed now id is_success msg c h =
      if_either IsServedAfter (id == 0 || id == 1)
        (λ _. reply_get_work-IsServed now is_success msg c h)
        (λ _.
          if_either IsServedAfter (id == 9) (λ _. h)
            (λ _.
              if_either IsServedAfter (leb 40 id && leb id c.solution_submitted_max_id)
                (λ _. reply_solution-IsServed now id is_success msg c h) (λ _. h)))

  pub process_response-IsServed :
      (now : ℕ) (msg : J.Value) (c : Client)
      → IsServed c
      → IsServedAfter (process_response J now msg c)
  unfolding process_response
  process_response-IsServed now msg c h =
      after_read (rethrow (J.is_member msg (codes "id"))) _ λ present.
        if_either IsServedAfter (not present) (λ _. h)
          (λ _. after_read (rethrow (J.get msg (codes "error") J.null)) _ λ error.
            after_read (if J.empty error then ok [] else rethrow (process_error J msg)) _ λ reason.
              dispatch-IsServed now (request_id c.pending_request) (J.empty error) msg c h)
