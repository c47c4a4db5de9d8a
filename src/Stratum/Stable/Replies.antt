-- ===== src/Stratum/Stable/Replies.antt =====
-- The responses keep every property that their steps keep.
use fpga_ethash.Json.{Json}
use fpga_ethash.Base.{ℕ, Bool, ◌≡◌, refl, ◌==◌, ==_iff, if_either, ◌∙◌, []}
use fpga_ethash.Stratum.{Client, Text, Request}
use fpga_ethash.Stratum.Pleas.{dequeue_response_plea}
use fpga_ethash.Stratum.Keeps.{Keeps, keeps_rules, Keeps-read, Keeps-bind, Keeps-modify, Keeps-pure}
use fpga_ethash.Stratum.Message.{Header}
use fpga_ethash.Stratum.Login.{
  confirm_mode, process_extranonce, refuse_mode, add_credentials, reply_login, reply_hello,
  reply_subscription, reply_proxy, reply_stratum,
}
use fpga_ethash.Stratum.Replies.{
  fail_detection, report_solution, reply_first, reply_session, reply_authorize, reply_authorize2,
  reply_solution, reply_solution2, reply_999, reply_work, process_reply,
}
use fpga_ethash.Stratum.Stable.{StableReply}

module _ {P : Client → Type 0} (stable : StableReply P) where
  open stable use {
    on_event, on_send, on_enqueue, on_dequeue, on_unrecoverable, on_confirm, on_session, on_auth,
  }

  pub process_extranonce-Keeps : (enonce : Text) → Keeps P (process_extranonce enonce)
  unfolding process_extranonce
  process_extranonce-Keeps enonce = search (keeps_rules, on_session)

  refuse_mode-Keeps : Keeps P refuse_mode
  unfolding refuse_mode
  refuse_mode-Keeps = search (keeps_rules, on_unrecoverable, on_event)

  add_credentials-Keeps : (req : Request) → Keeps P (add_credentials req)
  unfolding add_credentials
  add_credentials-Keeps req = search (keeps_rules)

  fail_detection-Keeps : (success : Bool) → Keeps P (fail_detection success)
  unfolding fail_detection
  fail_detection-Keeps success = search (keeps_rules, on_event)

  report_solution-Keeps :
      (id delay : ℕ) (success stale : Bool) → Keeps P (report_solution id delay success stale)
  unfolding report_solution
  report_solution-Keeps id delay success stale = search (keeps_rules, on_event)

  dequeue-Keeps : (now : ℕ) → Keeps P (dequeue_response_plea now)
  dequeue-Keeps now = record { after = on_dequeue now }

  module _ (J : Json) (now : ℕ) where
    reply_authorize-Keeps :
        (h : Header) (result : J.Value) → Keeps P (reply_authorize J now h result)
    unfolding reply_authorize
    reply_authorize-Keeps h result =
        search (keeps_rules, dequeue-Keeps, on_auth, on_session, on_unrecoverable, on_event) depth
          16

    reply_authorize2-Keeps :
        (h : Header) (result : J.Value) → Keeps P (reply_authorize2 J now h result)
    unfolding reply_authorize2
    reply_authorize2-Keeps h result =
        search (keeps_rules, dequeue-Keeps, on_auth, on_session, on_unrecoverable, on_event) depth
          16

    reply_session-Keeps : (result : J.Value) → Keeps P (reply_session J now result)
    unfolding reply_session
    reply_session-Keeps result =
        search
          (
            keeps_rules, dequeue-Keeps, on_auth, on_session, on_unrecoverable, on_event,
            add_credentials-Keeps, on_enqueue, on_send,
          )
          depth 16

    reply_solution-Keeps : (h : Header) (result : J.Value) → Keeps P (reply_solution J now h result)
    unfolding reply_solution
    reply_solution-Keeps h result = search (keeps_rules, dequeue-Keeps, report_solution-Keeps)

    reply_solution2-Keeps : (h : Header) (msg : J.Value) → Keeps P (reply_solution2 J now h msg)
    unfolding reply_solution2
    reply_solution2-Keeps h msg = search (keeps_rules, dequeue-Keeps, report_solution-Keeps)

    reply_999-Keeps : (h : Header) → Keeps P (reply_999 J now h)
    unfolding reply_999
    reply_999-Keeps h = search (keeps_rules, fail_detection-Keeps, on_event) depth 16

    reply_work-Keeps : (h : Header) (msg : J.Value) → Keeps P (reply_work J now h msg)
    unfolding reply_work
    reply_work-Keeps h msg = search (keeps_rules)

    module _ (c : Client) (held : P c) where
      confirm_mode-Keeps : (mode : ℕ) → c.conn.stratum_mode ≡ mode → Keeps P (confirm_mode now mode)
      confirm_mode-Keeps mode e = record { after = λ d h. on_confirm now mode c d held h e }

      reply_hello-Keeps :
          (result : J.Value) → c.conn.stratum_mode ≡ 3 → Keeps P (reply_hello J now result)
      unfolding reply_hello
      reply_hello-Keeps result e =
          search (keeps_rules, confirm_mode-Keeps, refuse_mode-Keeps, on_enqueue) depth 16

      reply_subscription-Keeps :
          (result : J.Value) → c.conn.stratum_mode ≡ 2 → Keeps P (reply_subscription J now result)
      unfolding reply_subscription
      reply_subscription-Keeps result e =
          search
            (
              keeps_rules, confirm_mode-Keeps, refuse_mode-Keeps, on_enqueue, on_session, on_send,
              process_extranonce-Keeps, add_credentials-Keeps, on_auth,
            )
            depth 20

      reply_proxy-Keeps :
          (success : Bool) → c.conn.stratum_mode ≡ 1 → Keeps P (reply_proxy J now success)
      unfolding reply_proxy
      reply_proxy-Keeps success e =
          search (keeps_rules, confirm_mode-Keeps, refuse_mode-Keeps, on_session) depth 16

      reply_stratum-Keeps :
          (success : Bool) → c.conn.stratum_mode ≡ 0 → Keeps P (reply_stratum J now success)
      unfolding reply_stratum
      reply_stratum-Keeps success e =
          search
            (
              keeps_rules, confirm_mode-Keeps, refuse_mode-Keeps, on_enqueue, on_session,
              add_credentials-Keeps, on_auth,
            )
            depth 16

      reply_login-Keeps :
          (mode : ℕ) (success : Bool) (result : J.Value)
          → c.conn.stratum_mode ≡ mode
          → Keeps P (reply_login J now mode success result)
      unfolding reply_login
      reply_login-Keeps mode success result e =
          if_either (Keeps P) (mode == 3) (λ t. reply_hello-Keeps result (e ∙ (==_iff mode 3).0 t))
            λ _.
              if_either (Keeps P) (mode == 2)
                (λ t. reply_subscription-Keeps result (e ∙ (==_iff mode 2).0 t))
                λ _.
                  if_either (Keeps P) (mode == 1)
                    (λ t. reply_proxy-Keeps success (e ∙ (==_iff mode 1).0 t))
                    λ _.
                      if_either (Keeps P) (mode == 0)
                        (λ t. reply_stratum-Keeps success (e ∙ (==_iff mode 0).0 t))
                        λ _. Keeps-pure []

    reply_first-Keeps : (h : Header) (result : J.Value) → Keeps P (reply_first J now h result)
    unfolding reply_first
    reply_first-Keeps h result = Keeps-bind _ _ (dequeue-Keeps now) λ delay.
        Keeps-bind _ _ (fail_detection-Keeps h.is_success) λ _. Keeps-read _ _ λ c held.
          (Keeps-bind _ _ (reply_login-Keeps c held c.conn.stratum_mode h.is_success result refl)
              λ req. Keeps-modify _ (on_send req)).after
            c held

    pub process_reply-Keeps : (h : Header) (msg : J.Value) → Keeps P (process_reply J now h msg)
    unfolding process_reply
    process_reply-Keeps h msg =
        search
          (
            keeps_rules, reply_first-Keeps, reply_session-Keeps, reply_authorize-Keeps,
            reply_authorize2-Keeps, reply_solution-Keeps, reply_solution2-Keeps, reply_work-Keeps,
            reply_999-Keeps,
          )
          depth 24
