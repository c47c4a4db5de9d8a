-- ===== src/Stratum/Handlers/Steps.antt =====
-- What the steps of the handlers keep of a client: its session's mode, and its requests that wait.
use fpga_ethash.Base.{ℕ, Bool, true, [], ◌∷◌, ◌≡◌, refl, arith, length, length-append, is_set}
use fpga_ethash.Stratum.{Client, Request}
use fpga_ethash.Stratum.Effects.{◌>>=◌}
use fpga_ethash.Stratum.Keeps.{Keeps, keeps_rules, Keeps-bind, Keeps-modify}
use fpga_ethash.Stratum.Pleas.{enqueue_response_plea, dequeue_response_plea, clear_response_pleas}
use fpga_ethash.Stratum.Send.{send}
use fpga_ethash.Stratum.Sockets
use fpga_ethash.Stratum.Sockets.{
  put_socket, ensure_socket, init_socket, close_secure, release_session, pop_endpoint, choose_mode,
  login_request,
}
use fpga_ethash.Stratum.Login.{confirm_mode}
use fpga_ethash.Stratum.Stable.{StableReply, StableWork}

-- A session only in a confirmed mode, and one time for each request that waits for its response.
abbrev pub IsSound : Client → Type 0
IsSound c =
    (is_set c.session ≡ true → c.conn.stratum_mode_confirmed ≡ true)
    × (c.response_pleas_count ≡ length c.response_plea_times)

pub send-IsSound : (req : Request) (c : Client) → IsSound c → IsSound (send req c)
unfolding send
send-IsSound req c h = ground arith

pub enqueue-IsSound : (now : ℕ) (c : Client) → IsSound c → IsSound (enqueue_response_plea now c)
unfolding enqueue_response_plea
enqueue-IsSound now c h = (h.0, omega (arith, h.1, length-append c.response_plea_times (now ∷ [])))

dequeue-IsSound : (now : ℕ) (c : Client) → IsSound c → IsSound (dequeue_response_plea now c).1
unfolding dequeue_response_plea
dequeue-IsSound now c h = ground arith

confirm-IsSound : (now mode : ℕ) (c : Client) → IsSound c → IsSound (confirm_mode now mode c).1
unfolding confirm_mode ◌>>=◌
confirm-IsSound now mode c h = (λ _. refl, h.1)

pub IsSound-StableReply : StableReply IsSound
IsSound-StableReply = record {
  on_event = λ e _ c h. h;
  on_send = send-IsSound;
  on_enqueue = enqueue-IsSound;
  on_dequeue = dequeue-IsSound;
  on_unrecoverable = λ c h. h;
  on_confirm = λ now mode c d _ h _. confirm-IsSound now mode d h;
  on_session = λ f c s e h. (λ _. h.0 (rw e), h.1);
  on_auth = λ b c h. h;
}

pub IsSound-StableWork : StableWork IsSound
IsSound-StableWork = record { on_work = λ w c h. h; on_job = λ now c h. h }

pub release-IsSound : (now : ℕ) (c : Client) → IsSound c → IsSound (release_session now c)
release-IsSound now c h = ground arith

pub no_link-IsSound : (c : Client) → IsSound c → IsSound (ensure_socket c)
unfolding init_socket
no_link-IsSound c h = ground arith

pub put_socket-IsSound : (b : Bool) (c : Client) → IsSound c → IsSound (put_socket b c)
put_socket-IsSound b c h = ground arith

pub clear-IsSound : (now : ℕ) (c : Client) → IsSound c → IsSound (clear_response_pleas now c)
unfolding clear_response_pleas
clear-IsSound now c h = (h.0, refl)

pub choose_mode-IsSound :
    (c : Client) → IsSound c → IsSound (record c { conn = choose_mode c.conn })
choose_mode-IsSound c h = ground arith

close_secure-IsSound : (c : Client) → IsSound c → IsSound (close_secure c)
close_secure-IsSound c h = ground arith

pub disconnect_finalize-Keeps : (now : ℕ) → Keeps IsSound (Sockets.disconnect_finalize now)
unfolding Sockets.disconnect_finalize
disconnect_finalize-Keeps now =
    search (keeps_rules, close_secure-IsSound, release-IsSound, clear-IsSound) depth 30

pub pop_endpoint-Keeps : Keeps IsSound pop_endpoint
unfolding pop_endpoint
pop_endpoint-Keeps = search keeps_rules depth 8

pub ruleset sound = (
  keeps_rules, disconnect_finalize-Keeps, release-IsSound, no_link-IsSound, put_socket-IsSound,
  clear-IsSound, enqueue-IsSound, send-IsSound, choose_mode-IsSound, pop_endpoint-Keeps,
)
