-- ===== src/Stratum/Timer/Pending.antt =====
-- The timer while a connection is being set up.
use fpga_ethash.Base.{ℕ, ◌-◌, ◌*◌, ◌≤◌, ◌<◌, ◌≡◌, Bool, true, false, some, none, arith}
use fpga_ethash.Stratum.{Client, is_pending_state, is_connected}
use fpga_ethash.Stratum.Effects.{value, returned, ◌>>=◌}
use fpga_ethash.Stratum.Sockets.{socket_open, put_socket}
use fpga_ethash.Stratum.Timer.{delay_of, keep_alive, check_pending, workloop_timer_elapsed}

keep_alive-quiet : (now : ℕ) (c : Client) → c.session ≡ none → keep_alive now c ≡ (value tt, c)
unfolding keep_alive ◌>>=◌
keep_alive-quiet now c e = ground arith

check_pending-early :
    (now : ℕ) (c : Client) (b : Bool)
    → c.connecting ≡ true
    → socket_open c ≡ some b
    → delay_of now c ≤ c.response_timeout * 1000
    → check_pending now c ≡ (returned, put_socket false c)
unfolding check_pending ◌>>=◌
check_pending-early now c b connecting opened early = ground arith

check_pending-late :
    (now : ℕ) (c : Client)
    → c.response_timeout * 1000 < delay_of now c
    → check_pending now c ≡ (value tt, c)
unfolding check_pending ◌>>=◌
check_pending-late now c late = ground arith

-- While a connection is being set up, with a request that waits and no session: if the timer runs
-- within the time allowed for a response, it closes the socket, returns, and does not wait again;
-- if it runs later than that, it leaves the connection as it is and waits for its next second.
pub workloop_timer_elapsed-connecting :
    (now : ℕ) (c : Client) (b : Bool)
    → c.has_conn ≡ true
    → c.session ≡ none
    → c.connecting ≡ true
    → 0 < c.response_pleas_count
    → socket_open c ≡ some b
    → (now - c.response_plea_older ≤ c.response_timeout * 1000
        → workloop_timer_elapsed now false c
          ≡ (returned, put_socket false (record c { workloop_timer = none })))
      × (c.response_timeout * 1000 < now - c.response_plea_older
          → workloop_timer_elapsed now false c
            ≡ (value tt, record c { workloop_timer = some 1000 }))
unfolding workloop_timer_elapsed is_pending_state is_connected ◌>>=◌
workloop_timer_elapsed-connecting now c b has quiet connecting waiting opened = (
  λ early. ground (
    arith,
    keep_alive-quiet now (record c { workloop_timer = none }) quiet,
    check_pending-early now (record c { workloop_timer = none }) b connecting opened early,
  ),
  λ late. ground (
    arith,
    keep_alive-quiet now (record c { workloop_timer = none }) quiet,
    check_pending-late now (record c { workloop_timer = none }) late,
  ),
)
