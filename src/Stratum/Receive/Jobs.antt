-- ===== src/Stratum/Receive/Jobs.antt =====
-- Which jobs of a transmission reach the pool manager.
use fpga_ethash.Json.{Json, JsonError}
use fpga_ethash.Work.{WorkPackage}
use mathlib.Core.List.{append_assoc, append-nil}
use fpga_ethash.Base.{
  ℕ, ◌≡◌, ◌≢◌, ◌⊎◌, inl, inr, refl, sym, ap, ap₂, ◌∙◌, List, [], ◌∷◌, ◌++◌, Bool, true, false,
  if◌then◌else◌, arith, Option, not, ◌||◌, is_empty, Result, if_either,
}
use fpga_ethash.Stratum.{
  Client, Text, Event, Request, on_work_received, on_connected, is_connected, write, receive,
}
use fpga_ethash.Stratum.Effects.{
  Reply, value, returned, threw, threw_pointer, undefined, M, continue, ◌>>=◌, ◌>>◌, log, when,
  post, gets,
}
use fpga_ethash.Stratum.Keeps.{Keeps, Keeps-bind, Keeps-modify, Keeps-pure}
use fpga_ethash.Stratum.Pleas.{dequeue_response_plea, enqueue_response_plea}
use fpga_ethash.Stratum.Send.{send, send_socket_data}
use fpga_ethash.Stratum.Login.{confirm_mode}
use fpga_ethash.Stratum.Stable.{StableReply, StableWork, is_job}
use fpga_ethash.Stratum.Stable.Process.{process_response-Keeps, process_line-Keeps}
use fpga_ethash.Stratum.Receive.{split_lines, process_lines, end_transmission, on_received}

-- The work packages that have been handed on.
abbrev job_of : Event → List WorkPackage
job_of (on_work_received w) = w ∷ []
job_of _ = []

pub jobs_of : List Event → List WorkPackage
jobs_of [] = []
jobs_of (e ∷ es) = job_of e ++ jobs_of es

jobs_of-append : (es : List Event) (e : Event) → jobs_of (es ++ e ∷ []) ≡ jobs_of es ++ job_of e
unfolding jobs_of
jobs_of-append [] e = append-nil (job_of e)
jobs_of-append (d ∷ es) e =
    ap (λ ws. job_of d ++ ws) (jobs_of-append es e)
    ∙ sym (append_assoc (job_of d) (jobs_of es) (job_of e))

no_job : (e : Event) → is_job e ≡ false → job_of e ≡ []
no_job (on_work_received w) h = cc
no_job _ h = refl

jobs_of-other :
    (e : Event) (c : Client) → is_job e ≡ false → jobs_of (log e c).events ≡ jobs_of c.events
jobs_of-other e c h =
    jobs_of-append c.events e
    ∙ ap (λ ws. jobs_of c.events ++ ws) (no_job e h)
    ∙ append-nil (jobs_of c.events)

send-jobs : (req : Request) (c : Client) → jobs_of (send req c).events ≡ jobs_of c.events
unfolding send send_socket_data
send-jobs req c =
    if_either (λ (d : Client). jobs_of d.events ≡ jobs_of c.events) c.tx_pending (λ _. refl)
      λ _.
        if_either (λ (d : Client). jobs_of d.events ≡ jobs_of c.events)
          (not (is_connected (record c { tx_pending = true; tx_queue = c.tx_queue ++ req ∷ [] }))
            || is_empty (c.tx_queue ++ req ∷ []))
          (λ _. refl) (λ _. jobs_of-other (write (c.tx_queue ++ req ∷ [])) c refl)

dequeue-jobs : (now : ℕ) (c : Client) → (dequeue_response_plea now c).1.events ≡ c.events
unfolding dequeue_response_plea
dequeue-jobs now c = ground arith

module _ (js : List WorkPackage) where
  abbrev HasJobs : Client → Type 0
  HasJobs c = jobs_of c.events ≡ js

  HasJobs-StableReply : StableReply HasJobs
  unfolding enqueue_response_plea confirm_mode ◌>>=◌
  HasJobs-StableReply = record {
    on_event = λ e other c h. jobs_of-other e c other ∙ h;
    on_send = λ req c h. send-jobs req c ∙ h;
    on_enqueue = λ now c h. h;
    on_dequeue = λ now c h. ap jobs_of (dequeue-jobs now c) ∙ h;
    on_unrecoverable = λ c h. h;
    on_confirm = λ now mode c d _ h _. jobs_of-other on_connected d refl ∙ h;
    on_session = λ f c s e h. h;
    on_auth = λ b c h. h;
  }

  HasJobs-StableWork : StableWork HasJobs
  HasJobs-StableWork = record { on_work = λ w c h. h; on_job = λ now c h. h }

value_or : (r : Reply (Unit {0})) → (r ≡ value tt) ⊎ (r ≢ value tt)
value_or (value a) = inl refl
value_or returned = inr (λ e. cc)
value_or threw = inr (λ e. cc)
value_or threw_pointer = inr (λ e. cc)
value_or undefined = inr (λ e. cc)

-- What a method that does not go on leaves.
stopped :
    (r : Reply (Unit {0})) (f : Unit {0} → M (Unit {0})) (c : Client)
    → r ≢ value tt
    → continue r f c ≡ (r, c)
stopped (value a) f c n = absurd (n refl)
stopped returned f c n = refl
stopped threw f c n = refl
stopped threw_pointer f c n = refl
stopped undefined f c n = refl

read_on :
    (b : Bool) (c : Client)
    → (when b (post receive) c).0 ≡ value tt
      × (jobs_of (when b (post receive) c).1.events ≡ jobs_of c.events)
      × ((when b (post receive) c).1.new_job_processed ≡ c.new_job_processed)
      × ((when b (post receive) c).1.current ≡ c.current)
unfolding ◌>>=◌
read_on true c = (refl, jobs_of-other receive c refl, refl, refl)
read_on false c = (refl, refl, refl, refl)

abbrev hand_on : Bool → WorkPackage → M (Unit {0})
hand_on b w = do
  when b (post (on_work_received w))
  connected ← gets is_connected
  when connected (post receive)

hand_on-jobs :
    (b : Bool) (w : WorkPackage) (c : Client)
    → ((hand_on b w c).0 ≡ value tt)
      × (jobs_of (hand_on b w c).1.events ≡ jobs_of c.events ++ (if b then w ∷ [] else []))
      × ((hand_on b w c).1.new_job_processed ≡ c.new_job_processed)
      × ((hand_on b w c).1.current ≡ c.current)
unfolding ◌>>=◌
hand_on-jobs true w c =
    let d : Client = log (on_work_received w) c in
    let after = read_on (is_connected d) d in
    (after.0, after.1 ∙ jobs_of-append c.events (on_work_received w), after.2, after.3)
hand_on-jobs false w c =
    let after = read_on (is_connected c) c in
    (after.0, after.1 ∙ sym (append-nil (jobs_of c.events)), after.2, after.3)

module _ (J : Json) (parse : Text → Option J.Value)
    (target_of_difficulty : J.Value → Result JsonError (List ℕ)) (project : Text) (now : ℕ) where
  process_lines-jobs :
      (js : List WorkPackage) (rest : Text) (lines : List Text)
      → Keeps (HasJobs js) (process_lines J parse target_of_difficulty project now rest lines)
  unfolding process_lines
  process_lines-jobs js rest [] = Keeps-pure tt
  process_lines-jobs js rest (line ∷ lines) =
      Keeps-bind _ _
        (process_line-Keeps (HasJobs-StableReply js) J target_of_difficulty project now parse
          (process_response-Keeps (HasJobs-StableReply js) J target_of_difficulty project now
            (HasJobs-StableWork js))
          line)
        λ _. Keeps-bind _ _ (Keeps-modify _ λ c h. h) λ _. process_lines-jobs js rest lines

  pub on_received-jobs :
      (bytes : Text) (c : Client)
      → let r = on_received J parse target_of_difficulty project now bytes c in
        (r.0 ≡ value tt
          → jobs_of r.1.events
            ≡ jobs_of c.events ++ (if r.1.new_job_processed then r.1.current ∷ [] else []))
        × (r.0 ≢ value tt → jobs_of r.1.events ≡ jobs_of c.events)
  unfolding on_received end_transmission ◌>>=◌
  on_received-jobs bytes c =
      let start : Client = record c { message = c.message ++ bytes; new_job_processed = false } in
      let lines : List Text × Text = split_lines [] (c.message ++ bytes) in
      let m = process_lines J parse target_of_difficulty project now lines.1 lines.0 start in
      let none_yet : jobs_of m.1.events ≡ jobs_of c.events =
        (process_lines-jobs (jobs_of c.events) lines.1 lines.0).after start refl in
      elim (value_or m.0) [
        | inl through ↦
            let end = hand_on-jobs m.1.new_job_processed m.1.current m.1 in
            let same : continue m.0 (λ _. end_transmission) m.1 ≡ end_transmission m.1 =
              ap (λ (r : Reply (Unit {0})). continue r (λ _. end_transmission) m.1) through in
            (
              λ _.
                  ap (λ r. jobs_of r.1.events) same
                  ∙ end.1
                  ∙ ap
                      (λ (js : List WorkPackage).
                        js ++ (if m.1.new_job_processed then m.1.current ∷ [] else []))
                      none_yet
                  ∙ ap₂ {C = List WorkPackage}
                      (λ (b : Bool) (w : WorkPackage).
                        jobs_of c.events ++ (if b then w ∷ [] else []))
                      (sym (ap (λ r. r.1.new_job_processed) same ∙ end.2))
                      (sym (ap (λ r. r.1.current) same ∙ end.3)),
              λ n. absurd (n (ap (λ r. r.0) same ∙ end.0)),
            )
        | inr early ↦
            let same : continue m.0 (λ _. end_transmission) m.1 ≡ (m.0, m.1) =
              stopped m.0 _ m.1 early in
            (
              λ e. absurd (early (sym (ap (λ r. r.0) same) ∙ e)),
              λ _. ap (λ r. jobs_of r.1.events) same ∙ none_yet,
            )
      ]
