-- ===== src/Stratum/Stable/Notify.antt =====
-- The notifications keep every property that their steps keep.
use fpga_ethash.Json.{Json, JsonError}
use fpga_ethash.Base.{
  ℕ, Bool, List, Result, ok, err, ◌≡◌, true, false, not, ◌&&◌, ◌==◌, if_either, text_eq, codes,
  arith,
}
use fpga_ethash.Stratum.{Client, Session, Text}
use fpga_ethash.Stratum.Numbers.{StdError}
use fpga_ethash.Stratum.Keeps.{Keeps, keeps_rules, Keeps-pure, Keeps-read}
use fpga_ethash.Stratum.Message.{Header}
use fpga_ethash.Stratum.Notify.{
  set_block, nicehash_job, target_job, read_block, notify_array, notify_job, notify2_job, notify2,
  set_difficulty, set_extranonce, mining_set_members, mining_set, process_notification,
}
use fpga_ethash.Stratum.Stable.{StableReply, StableWork}
use fpga_ethash.Stratum.Stable.Replies.{process_extranonce-Keeps}

third : (notify mode3 : Bool) → (notify && not mode3) ≡ false → notify ≡ true → mode3 ≡ true
third notify mode3 other t = ground arith

module _ {P : Client → Type 0} (stable : StableReply P) where
  open stable use {on_event, on_send, on_session}

  module _ (J : Json) (target_of_difficulty : J.Value → Result JsonError (List ℕ)) (project : Text)
      (now : ℕ) where
    set_difficulty-Keeps :
        (msg : J.Value) → Keeps P (set_difficulty now J target_of_difficulty project msg)
    unfolding set_difficulty
    set_difficulty-Keeps msg = search (keeps_rules, on_session) depth 16

    set_extranonce-Keeps :
        (msg : J.Value) → Keeps P (set_extranonce now J target_of_difficulty project msg)
    unfolding set_extranonce
    set_extranonce-Keeps msg = search (keeps_rules, process_extranonce-Keeps stable) depth 16

    mining_set_members-Keeps :
        (params : J.Value) → Keeps P (mining_set_members now J target_of_difficulty project params)
    unfolding mining_set_members
    mining_set_members-Keeps params =
        search (keeps_rules, on_session, process_extranonce-Keeps stable) depth 30

    mining_set-Keeps : (msg : J.Value) → Keeps P (mining_set now J target_of_difficulty project msg)
    unfolding mining_set
    mining_set-Keeps msg = search (keeps_rules, mining_set_members-Keeps) depth 16

    -- The two branches for jobs are left to the caller, each with the modes in which it is taken.
    pub process_notification-Keeps_jobs :
        ((msg : J.Value) → Keeps P (notify_job now J target_of_difficulty project msg))
        → ((c : Client) (msg : J.Value)
            → P c
            → (c.conn.stratum_mode == 3) ≡ true
            → Keeps P (notify2 now J target_of_difficulty project msg))
        → (h : Header) (msg : J.Value)
        → Keeps P (process_notification now J target_of_difficulty project h msg)
    unfolding process_notification
    process_notification-Keeps_jobs job job2 h msg = Keeps-read _ _ λ c held.
        (let notify : Bool = text_eq h.method (codes "mining.notify") in
            if_either (Keeps P) (notify && not (c.conn.stratum_mode == 3)) (λ _. job msg)
              λ other.
                if_either (Keeps P) notify
                  (λ t. job2 c msg held (third notify (c.conn.stratum_mode == 3) other t))
                  λ _.
                    search
                      (
                        keeps_rules, set_difficulty-Keeps, set_extranonce-Keeps, mining_set-Keeps,
                        on_event, on_send,
                      )
                      depth 24).after
          c held

    module _ (work : StableWork P) where
      open work use {on_work, on_job}

      set_block-Keeps : (r : Result StdError ℕ) → Keeps P (set_block r)
      unfolding set_block
      set_block-Keeps (ok v) = search (keeps_rules, on_work) depth 8
      set_block-Keeps (err e) = Keeps-pure tt

      read_block-Keeps :
          (mode : ℕ) (params : J.Value) (idx : ℕ)
          → Keeps P (read_block now J target_of_difficulty project mode params idx)
      unfolding read_block
      read_block-Keeps mode params idx = search (keeps_rules, on_work, set_block-Keeps) depth 12

      nicehash_job-Keeps : (s h : Text) → Keeps P (nicehash_job now s h)
      unfolding nicehash_job
      nicehash_job-Keeps s h = search (keeps_rules, on_work, on_job) depth 20

      target_job-Keeps : (h s t : Text) → Keeps P (target_job now h s t)
      unfolding target_job
      target_job-Keeps h s t = search (keeps_rules, on_work, on_job) depth 20

      notify_array-Keeps :
          (mode : ℕ) (params : J.Value) (idx : ℕ)
          → Keeps P (notify_array now J target_of_difficulty project mode params idx)
      unfolding notify_array
      notify_array-Keeps mode params idx =
          search (keeps_rules, on_work, nicehash_job-Keeps, target_job-Keeps, read_block-Keeps)
            depth 20

      notify_job-Keeps :
          (msg : J.Value) → Keeps P (notify_job now J target_of_difficulty project msg)
      unfolding notify_job
      notify_job-Keeps msg = search (keeps_rules, notify_array-Keeps) depth 20

      notify2_job-Keeps :
          (s : Session) (params : J.Value)
          → Keeps P (notify2_job now J target_of_difficulty project s params)
      unfolding notify2_job
      notify2_job-Keeps s params = search (keeps_rules, on_work, on_job) depth 30

      notify2-Keeps : (msg : J.Value) → Keeps P (notify2 now J target_of_difficulty project msg)
      unfolding notify2
      notify2-Keeps msg = search (keeps_rules, notify2_job-Keeps) depth 16

      pub process_notification-Keeps :
          (h : Header) (msg : J.Value)
          → Keeps P (process_notification now J target_of_difficulty project h msg)
      process_notification-Keeps h msg =
          process_notification-Keeps_jobs notify_job-Keeps (λ c other _ _. notify2-Keeps other) h
            msg
