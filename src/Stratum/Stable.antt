-- ===== src/Stratum/Stable.antt =====
-- Properties that every step of a response keeps, and so the whole of processResponse: one law for
-- each way in which it changes the client.
pub mod Replies
pub mod Notify
pub mod Process
use fpga_ethash.Work.{WorkPackage}
use fpga_ethash.Base.{ℕ, Bool, true, false, ◌≡◌, some, List, not}
use fpga_ethash.Stratum.{
  Client, Session, Event, Request, on_work_received, on_connected, on_disconnected,
  on_solution_accepted, on_solution_rejected, post_start_connect, post_disconnect,
  post_disconnect_finalize, post_failed_login, resolve, async_connect, async_shutdown, cancel,
  receive, write,
}
use fpga_ethash.Stratum.Effects.{log, change_conn, mark_unrecoverable}
use fpga_ethash.Stratum.Pleas.{enqueue_response_plea, dequeue_response_plea}
use fpga_ethash.Stratum.Send.{send}
use fpga_ethash.Stratum.Login.{confirm_mode}

-- The dispatch of a job.
abbrev pub is_job : Event → Bool
is_job (on_work_received w) = true
is_job _ = false

-- What the responses change.
pub record StableReply (P : Client → Type 0) : Type 0 where
  pub on_event : (e : Event) → is_job e ≡ false → (c : Client) → P c → P (log e c)
  pub on_send : (req : Request) (c : Client) → P c → P (send req c)
  pub on_enqueue : (now : ℕ) (c : Client) → P c → P (enqueue_response_plea now c)
  pub on_dequeue : (now : ℕ) (c : Client) → P c → P (dequeue_response_plea now c).1
  pub on_unrecoverable : (c : Client) → P c → P (record c { conn = mark_unrecoverable c.conn })
  pub on_confirm :
      (now mode : ℕ) (c d : Client)
      → P c
      → P d
      → c.conn.stratum_mode ≡ mode
      → P (confirm_mode now mode d).1
  pub on_session :
      (f : Session → Session) (c : Client) (s : Session)
      → c.session ≡ some s
      → P c
      → P (record c { session = some (f s) })
  pub on_auth : (b : Bool) (c : Client) → P c → P (record c { auth_pending = b })

-- What the notifications change besides.
pub record StableWork (P : Client → Type 0) : Type 0 where
  pub on_work : (w : WorkPackage) (c : Client) → P c → P (record c { current = w })
  pub on_job :
      (now : ℕ) (c : Client)
      → P c
      → P (record c { current_timestamp = now; new_job_processed = true })
