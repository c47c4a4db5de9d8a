-- ===== src/Stratum/Handlers/Detection.antt =====
-- The detection of a pool's protocol: one login after another, each in a lower mode.
use fpga_ethash.Json.{Json, JsonError}
use fpga_ethash.Base.{
  ℕ, suc, ◌≡◌, refl, sym, ap, ◌∙◌, subst, List, [], ◌∷◌, ◌++◌, true, false, Option, some, ok,
  Result, arith, codes,
}
use fpga_ethash.Stratum.{Client, Endpoint, Text, Event, on_disconnected, post_disconnect, cancel}
use fpga_ethash.Stratum.Effects.{returned, ◌>>=◌, log}
use fpga_ethash.Stratum.Pleas.{dequeue_response_plea, clear_response_pleas}
use fpga_ethash.Stratum.Message.{Header, read_header, is_invalid}
use fpga_ethash.Stratum.Sockets
use fpga_ethash.Stratum.Sockets.{is_secure, init_socket, begin_login, choose_mode}
use fpga_ethash.Stratum.Replies.{fail_detection, reply_first, process_reply}
use fpga_ethash.Stratum.Process.{check_message, handle_notification}
use fpga_ethash.Stratum.Process
use fpga_ethash.Stratum.Process.Answers.{dequeue_value}
use fpga_ethash.Stratum.Handlers.{
  call, run, start_connect, connect_completed, process_response, disconnect,
}
use fpga_ethash.Stratum.Handlers.Logins.{
  Detects, Idle, Open, start_connect-Started, tried, connect_handler-Open,
}

dequeue-Open :
    (m now : ℕ) (e : Endpoint) (c : Client) → Open m e c → Open m e (dequeue_response_plea now c).1
unfolding dequeue_response_plea
dequeue-Open m now e c h = ground arith

-- The client when the rest of a disconnection begins.
abbrev closed : Client → Client
closed c = record c {
  connected = false;
  disconnecting = true;
  plain_socket = some false;
  events = c.events ++ cancel ∷ [];
}

disconnect-finalize :
    (m now : ℕ) (e : Endpoint) (c : Client)
    → Open m e c
    → Sockets.disconnect now c ≡ Sockets.disconnect_finalize now (closed c)
unfolding Sockets.disconnect ◌>>=◌
disconnect-finalize m now e c h = ground arith

abbrev Closed : ℕ → Endpoint → Client → Type 0
Closed m e c =
    Detects m e (record c { disconnecting = false })
    × (c.conn.responds ≡ true)
    × (c.connecting ≡ false)

finalize-lower :
    (m now : ℕ) (e : Endpoint) (c : Client)
    → Closed (suc m) e c
    → Idle m e (Sockets.disconnect_finalize now c).1
unfolding Sockets.disconnect_finalize ◌>>=◌
finalize-lower m now e c h = ground arith

finalize-last :
    (now : ℕ) (e : Endpoint) (c : Client)
    → Closed 0 e c
    → ((Sockets.disconnect_finalize now c).1.conn.unrecoverable ≡ true)
      × ((Sockets.disconnect_finalize now c).1.events ≡ c.events ++ on_disconnected ∷ [])
unfolding Sockets.disconnect_finalize clear_response_pleas ◌>>=◌
finalize-last now e c h = (ground arith, ground arith)

-- A login that the pool answers with `msg`, each step at its time.
abbrev pub attempt :
    (J : Json) (parse : Text → Option J.Value)
    (target_of_difficulty : J.Value → Result JsonError (List ℕ)) (project : Text)
    → J.Value
    → ℕ × ℕ × ℕ × ℕ
    → Client
    → Client
attempt J parse target_of_difficulty project msg t c =
    run J parse target_of_difficulty project
      ((t.0, start_connect)
        ∷ (t.1, connect_completed false false)
        ∷ (t.2, process_response msg)
        ∷ (t.3, disconnect)
        ∷ [])
      c

module _ (J : Json) (parse : Text → Option J.Value)
    (target_of_difficulty : J.Value → Result JsonError (List ℕ)) (project : Text)
    (msg result : J.Value) (h : Header) (read : (mode : ℕ) → read_header J mode msg ≡ ok h)
    (valid : is_invalid J h msg ≡ ok false) (answer : h.is_notification ≡ false) (first : h.id ≡ 1)
    (failed : h.is_success ≡ false) (has : J.get msg (codes "result") J.null ≡ ok result) where
  abbrev try_login : ℕ × ℕ × ℕ × ℕ → Client → Client
  try_login = attempt J parse target_of_difficulty project msg

  refused :
      (m now : ℕ) (e : Endpoint) (c : Client)
      → Open m e c
      → Process.process_response J target_of_difficulty project now msg c
        ≡ (returned, log post_disconnect (dequeue_response_plea now c).1)
  unfolding Process.process_response check_message process_reply reply_first fail_detection ◌>>=◌
  refused m now e c open_ = ground (
    arith,
    read c.conn.stratum_mode,
    valid,
    has,
    dequeue_value now c,
    dequeue-Open m now e c open_,
  )

  opened :
      (m : ℕ) (e : Endpoint) (t : ℕ × ℕ × ℕ × ℕ) (c : Client)
      → Idle m e c
      → (d : Client) × Open (tried m) e d × (try_login t c ≡ (Sockets.disconnect t.3 d).1)
  unfolding run call
  opened m e t c idle =
      let started = start_connect-Started m t.0 e c idle in
      let open_ = connect_handler-Open m t.1 e project (Sockets.start_connect t.0 c).1 started in
      let c' : Client =
        (Sockets.connect_handler project t.1 false false (Sockets.start_connect t.0 c).1).1 in
      (
        log post_disconnect (dequeue_response_plea t.2 c').1,
        dequeue-Open (tried m) t.2 e c' open_,
        ap (λ r. (Sockets.disconnect t.3 r.1).1) (refused (tried m) t.2 e c' open_),
      )

  closed-Closed : (m : ℕ) (e : Endpoint) (d : Client) → Open m e d → Closed m e (closed d)
  closed-Closed m e d o = ((o.0.0, o.0.1, o.0.2, o.0.3, o.0.4, o.0.5, refl), o.3, o.4)

  attempt-lower :
      (m m' : ℕ) (e : Endpoint) (t : ℕ × ℕ × ℕ × ℕ) (c : Client)
      → tried m ≡ suc m'
      → Idle m e c
      → Idle m' e (try_login t c)
  attempt-lower m m' e t c mode idle =
      let (d, open_, same) = opened m e t c idle in
      let at_mode : Open (suc m') e d = subst (λ (k : ℕ). Open k e d) mode open_ in
      subst (Idle m' e) (sym (same ∙ ap (λ r. r.1) (disconnect-finalize (suc m') t.3 e d at_mode)))
        (finalize-lower m' t.3 e (closed d) (closed-Closed (suc m') e d at_mode))

  attempt-last :
      (e : Endpoint) (t : ℕ × ℕ × ℕ × ℕ) (c : Client)
      → Idle 0 e c
      → ((try_login t c).conn.unrecoverable ≡ true)
        × ((es : List Event) × ((try_login t c).events ≡ es ++ on_disconnected ∷ []))
  attempt-last e t c idle =
      let (d, open_, same) = opened 0 e t c idle in
      let to_end = same ∙ ap (λ r. r.1) (disconnect-finalize 0 t.3 e d open_) in
      let end = finalize-last t.3 e (closed d) (closed-Closed 0 e d open_) in
      (
        ap (λ (x : Client). x.conn.unrecoverable) to_end ∙ end.0,
        ((closed d).events, ap (λ (x : Client). x.events) to_end ∙ end.1),
      )

  -- The detection of the protocol, on a TCP connection without a version that has not been tried yet
  -- (mode 999), is idle, and has an endpoint, when the pool answers every login with an error: the
  -- first three attempts leave it to be tried in the modes 2, 1 and 0, neither confirmed nor
  -- given up, and the fourth gives it up for good and tells the pool manager that it is
  -- disconnected. The times of the steps are any.
  pub detection_ends :
      (e : Endpoint) (t1 t2 t3 t4 : ℕ × ℕ × ℕ × ℕ) (c : Client)
      → Idle 999 e c
      → let c1 = attempt J parse target_of_difficulty project msg t1 c in
        let c2 = attempt J parse target_of_difficulty project msg t2 c1 in
        let c3 = attempt J parse target_of_difficulty project msg t3 c2 in
        let c4 = attempt J parse target_of_difficulty project msg t4 c3 in
        Idle 2 e c1
        × Idle 1 e c2
        × Idle 0 e c3
        × (c4.conn.unrecoverable ≡ true)
        × ((es : List Event) × (c4.events ≡ es ++ on_disconnected ∷ []))
  detection_ends e t1 t2 t3 t4 c idle =
      let two = attempt-lower 999 2 e t1 c refl idle in
      let one = attempt-lower 2 1 e t2 (try_login t1 c) refl two in
      let none_left = attempt-lower 1 0 e t3 (try_login t2 (try_login t1 c)) refl one in
      let end = attempt-last e t4 (try_login t3 (try_login t2 (try_login t1 c))) none_left in
      (two, one, none_left, end.0, end.1)
