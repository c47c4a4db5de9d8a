-- ===== src/Getwork/Handlers/Served.antt =====
-- No request waits while nothing is on its way that will send it, whatever the node answers.
use fpga_ethash.Json.{Json}
use fpga_ethash.Base.{
  is_set, ℕ, ◌≡◌, refl, ap, sym, ◌∙◌, List, [], ◌∷◌, Bool, true, false, not, ◌&&◌, Option, some,
  none, is_empty, if◌then◌else◌, Result, ok, err, ◌>>=◌, if_either, subst, arith, false≢true,
}
use fpga_ethash.Stratum.{Text}
use fpga_ethash.Getwork.{Client, Fault}
use fpga_ethash.Getwork.Http.{
  Received, process_body, read_lines, read_message, handle_read, arrived, read_aborted, read_failed,
  accepted_status, strip_newlines,
}
use fpga_ethash.Getwork.Response.{process_response}
use fpga_ethash.Getwork.Handlers.{
  Call, connect, disconnect as disconnect_call, resolved, connected, written, read, timer_elapsed,
  submit_hashrate, submit_solution, call, run,
}
use fpga_ethash.Getwork.Handlers.Waiting.{
  IsServed, IsServedAfter, disconnect-IsServed, connect-IsServed, handle_resolve-IsServed,
  handle_connect-IsServed, handle_write-IsServed, submit_hashrate-IsServed,
  submit_solution-IsServed, timer-IsServed, after_step, finish-IsServed, process_response-IsServed,
}

-- Of the client that stands beside whether the handler has returned.
abbrev IsServedPair : Result Fault (Bool × Client) → Type 0
IsServedPair (ok (left, c)) = IsServed c
IsServedPair (err e) = Unit {0}

empty_inv {ℓ} : {A : Type ℓ} (l : List A) → is_empty l ≡ true → l ≡ []
empty_inv [] e = refl
empty_inv (a ∷ l) e = absurd (false≢true e)

after_body :
    (r : Result Fault Client) (f : Client → Result Fault (Bool × Client))
    → IsServedAfter r
    → ((d : Client) → IsServed d → IsServedPair (f d))
    → IsServedPair (r >>= f)
after_body (ok c) f h k = k c h
after_body (err e) f h k = tt

after_lines :
    (r : Result Fault (Bool × Client)) (f : Bool × Client → Result Fault Client)
    → IsServedPair r
    → ((left : Bool) (d : Client) → IsServed d → IsServedAfter (f (left, d)))
    → IsServedAfter (r >>= f)
after_lines (ok (left, c)) f h k = k left c h
after_lines (err e) f h k = tt

module _ (J : Json) (parse : Text → Option J.Value) where
  parsed-IsServed :
      (now : ℕ) (o : Option J.Value) (c : Client)
      → IsServed c
      → IsServedAfter (elim o [ none ↦ ok c | some msg ↦ process_response J now msg c ])
  parsed-IsServed now none c h = h
  parsed-IsServed now (some msg) c h = process_response-IsServed J now msg c h

  process_body-IsServed :
      (now : ℕ) (line : Text) (c : Client)
      → IsServed c
      → IsServedAfter (process_body J parse now line c)
  unfolding process_body
  process_body-IsServed now line c h = parsed-IsServed now (parse line) c h

  read_lines-IsServed :
      (now : ℕ) (first header : Bool) (rest : Text) (lines : List Text) (c : Client)
      → IsServed c
      → IsServedPair (read_lines J parse now first header rest lines c)
  unfolding read_lines
  read_lines-IsServed now first header rest [] c h = h
  read_lines-IsServed now first header rest (line ∷ lines) c h =
      if_either IsServedPair (is_empty line && not (is_empty lines))
        (λ _. read_lines-IsServed now false false rest lines c h)
        (λ _.
          if_either IsServedPair (header && not (is_empty line))
            (λ _.
              if_either IsServedPair (first && not (accepted_status line))
                (λ _. disconnect-IsServed now c)
                (λ _. read_lines-IsServed now false true rest lines c h))
            (λ _.
              after_body
                (process_body J parse now (if is_empty line then strip_newlines rest else line) c)
                (read_lines J parse now false false rest lines) (process_body-IsServed now _ c h)
                (read_lines-IsServed now false false rest lines)))

  read_message-IsServed :
      (now : ℕ) (bytes : Text) (c : Client)
      → IsServed c
      → IsServedAfter (read_message J parse now bytes c)
  unfolding read_message
  read_message-IsServed now bytes c h =
      after_lines (read_lines J parse now true true _ _ c) _
        (read_lines-IsServed now true true _ _ c h)
        λ left d served. if_either IsServed left (λ _. served) (λ _. finish-IsServed now d served)

  handle_read-IsServed :
      (now : ℕ) (received : Received) (c : Client)
      → IsServed c
      → IsServedAfter (handle_read J parse now received c)
  unfolding handle_read
  handle_read-IsServed now (arrived bytes) c h =
      if_either IsServedAfter (is_empty bytes) (λ _. disconnect-IsServed now _)
        (λ _. read_message-IsServed now bytes _ h)
  handle_read-IsServed now read_aborted c h = h
  handle_read-IsServed now read_failed c h = disconnect-IsServed now c

  call-IsServed :
      (now : ℕ) (one : Call) (c : Client) → IsServed c → IsServedAfter (call J parse now one c)
  unfolding call
  call-IsServed now connect c h = connect-IsServed now c h
  call-IsServed now disconnect_call c h = disconnect-IsServed now c
  call-IsServed now (resolved found) c h = handle_resolve-IsServed now found c h
  call-IsServed now (connected result) c h = handle_connect-IsServed now result c h
  call-IsServed now (written result) c h = handle_write-IsServed now result c h
  call-IsServed now (read received) c h = handle_read-IsServed now received c h
  call-IsServed now (timer_elapsed cancelled) c h = timer-IsServed now cancelled c h
  call-IsServed now (submit_hashrate rate id) c h = submit_hashrate-IsServed now rate id c h
  call-IsServed now (submit_solution solution) c h = submit_solution-IsServed now solution c h

  run-IsServedAfter :
      (calls : List (ℕ × Call)) (c : Client) → IsServed c → IsServedAfter (run J parse calls c)
  unfolding run
  run-IsServedAfter [] c h = h
  run-IsServedAfter ((now, one) ∷ rest) c h =
      after_step (call J parse now one c) (run J parse rest) (call-IsServed now one c h)
        (run-IsServedAfter rest)

  -- After any calls of a client's methods and handlers, in any order, at any times and with any
  -- responses, none of which threw or was undefined, a client that starts without a session and with
  -- nothing to send has no request that waits while no operation is pending, and is connected just
  -- when it has a session.
  pub run-IsServed :
      (calls : List (ℕ × Call)) (c c' : Client)
      → c.tx_queue ≡ []
      → c.session ≡ none
      → c.connected ≡ false
      → run J parse calls c ≡ ok c'
      → (c'.tx_pending ≡ false → c'.tx_queue ≡ []) × (c'.connected ≡ is_set c'.session)
  run-IsServed calls c c' none_waits no_session offline done =
      let h : IsServed c' =
        subst IsServedAfter done
          (run-IsServedAfter calls c (ground arith, offline ∙ sym (ap is_set no_session))) in
      (λ idle. empty_inv c'.tx_queue (ground (arith, h.0, idle)), h.1)
