-- ===== src/Stratum/Receive/FirstJob.antt =====
-- Which of several jobs in one transmission is taken.
use fpga_ethash.Json.{Json, JsonError}
use fpga_ethash.Work.{WorkPackage}
use fpga_ethash.Base.{
  ℕ, ◌≡◌, refl, sym, ap, ◌∙◌, List, [], ◌∷◌, Bool, true, false, false≢true, ◌==◌, arith, Option,
  Result, not, ◌||◌, subst,
}
use fpga_ethash.Stratum.{Client, Text, Request, is_subscribed}
use fpga_ethash.Stratum.Effects.{M, returned, ◌>>=◌, leave, when}
use fpga_ethash.Stratum.Keeps.{Keeps, Keeps-bind, Keeps-modify, Keeps-pure, Keeps-read}
use fpga_ethash.Stratum.Pleas.{dequeue_response_plea, enqueue_response_plea}
use fpga_ethash.Stratum.Send.{send, send_socket_data}
use fpga_ethash.Stratum.Login.{confirm_mode}
use fpga_ethash.Stratum.Notify.{notify_job}
use fpga_ethash.Stratum.Stable.{StableReply}
use fpga_ethash.Stratum.Stable.Notify.{process_notification-Keeps_jobs}
use fpga_ethash.Stratum.Stable.Process.{process_response-Keeps_notifications, process_line-Keeps}
use fpga_ethash.Stratum.Process.{process_response}
use fpga_ethash.Stratum.Receive.{process_lines}

-- A job has been taken, in a mode other than EthereumStratum/2.0.0.
abbrev pub HasTaken : WorkPackage → Client → Type 0
HasTaken w c = ((c.conn.stratum_mode == 3) ≡ false) × (c.new_job_processed ≡ true) × (c.current ≡ w)

send-HasTaken :
    (w : WorkPackage) (req : Request) (c : Client) → HasTaken w c → HasTaken w (send req c)
unfolding send send_socket_data
send-HasTaken w req c h = ground arith

dequeue-HasTaken :
    (w : WorkPackage) (now : ℕ) (c : Client)
    → HasTaken w c
    → HasTaken w (dequeue_response_plea now c).1
unfolding dequeue_response_plea
dequeue-HasTaken w now c h = ground arith

leave-when :
    (b : Bool) (k : Unit {0} → M (Unit {0})) (c : Client)
    → b ≡ true
    → (when b leave >>= k) c ≡ (returned, c)
unfolding ◌>>=◌
leave-when true k c e = refl
leave-when false k c e = absurd (false≢true e)

or_true : (a b : Bool) → b ≡ true → (a || b) ≡ true
or_true true b e = refl
or_true false b e = e

module _ (w : WorkPackage) where
  HasTaken-StableReply : StableReply (HasTaken w)
  unfolding enqueue_response_plea confirm_mode ◌>>=◌
  HasTaken-StableReply = record {
    on_event = λ e _ c h. h;
    on_send = send-HasTaken w;
    on_enqueue = λ now c h. h;
    on_dequeue = dequeue-HasTaken w;
    on_unrecoverable = λ c h. h;
    on_confirm = λ now mode c d held h same. (ap (λ (m : ℕ). m == 3) (sym same) ∙ held.0, h.1, h.2);
    on_session = λ f c s e h. h;
    on_auth = λ b c h. h;
  }

  module _ (J : Json) (target_of_difficulty : J.Value → Result JsonError (List ℕ)) (project : Text)
      (now : ℕ) where
    -- A second job leaves the method at its first test.
    notify_job-HasTaken :
        (msg : J.Value) → Keeps (HasTaken w) (notify_job now J target_of_difficulty project msg)
    unfolding notify_job
    notify_job-HasTaken msg = Keeps-read _ _ λ c h.
        (Keeps-read _ _ λ d held.
            subst (λ r. HasTaken w r.1)
              (sym (
                leave-when (not (is_subscribed c) || d.new_job_processed) _ d
                  (or_true (not (is_subscribed c)) d.new_job_processed held.1)))
              held).after
          c h

    response-HasTaken :
        (msg : J.Value)
        → Keeps (HasTaken w) (process_response J target_of_difficulty project now msg)
    response-HasTaken =
        process_response-Keeps_notifications HasTaken-StableReply J target_of_difficulty project now
          (process_notification-Keeps_jobs HasTaken-StableReply J target_of_difficulty project now
            notify_job-HasTaken (λ c msg h version2. absurd (false≢true (sym h.0 ∙ version2))))

    lines-HasTaken :
        (parse : Text → Option J.Value) (rest : Text) (lines : List Text)
        → Keeps (HasTaken w) (process_lines J parse target_of_difficulty project now rest lines)
    unfolding process_lines
    lines-HasTaken parse rest [] = Keeps-pure tt
    lines-HasTaken parse rest (line ∷ lines) =
        Keeps-bind _ _
          (process_line-Keeps HasTaken-StableReply J target_of_difficulty project now parse
            response-HasTaken line)
          λ _. Keeps-bind _ _ (Keeps-modify _ λ c h. h) λ _. lines-HasTaken parse rest lines

-- In every mode but EthereumStratum/2.0.0, once a job of a transmission has been taken, the lines
-- behind it change neither the current job nor that it is to be handed on, whatever they say and
-- whether or not all of them are handled.
pub process_lines-first_job :
    (J : Json) (parse : Text → Option J.Value)
    (target_of_difficulty : J.Value → Result JsonError (List ℕ)) (project : Text) (now : ℕ)
    (rest : Text) (lines : List Text) (c : Client)
    → (c.conn.stratum_mode == 3) ≡ false
    → c.new_job_processed ≡ true
    → let c' = (process_lines J parse target_of_difficulty project now rest lines c).1 in
      (c'.current ≡ c.current) × (c'.new_job_processed ≡ true)
process_lines-first_job J parse target_of_difficulty project now rest lines c mode taken =
    let h =
      (lines-HasTaken c.current J target_of_difficulty project now parse rest lines).after c
        (mode, taken, refl) in
    (h.2, h.1)
