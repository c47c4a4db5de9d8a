-- ===== src/Stratum/Receive.antt =====
-- EthStratumClient.cpp: what the socket receives, split into lines.
pub mod Lines
pub mod Jobs
pub mod FirstJob
use fpga_ethash.Json.{Json, JsonError}
use fpga_ethash.Base.{
  ℕ, ◌+◌, List, [], ◌∷◌, ◌++◌, Bool, true, false, not, ◌||◌, ◌&&◌, Option, some, none, is_empty,
  ◌==◌, leb, if◌then◌else◌, Result,
}
use fpga_ethash.Stratum.{Client, Text, is_connected, on_work_received, post_disconnect, receive}
use fpga_ethash.Stratum.Effects.{
  M, Reply, value, returned, threw, threw_pointer, undefined, cases, ◌>>=◌, ◌>>◌, modify, gets,
  when, post, log, skip, change_conn, mark_unrecoverable,
}
use fpga_ethash.Stratum.Numbers.{is_space}
use fpga_ethash.Stratum.Process.{process_response}

-- The bytes up to each newline, and the bytes behind the last one.
unfoldable pub split_lines : Text → Text → List Text × Text
split_lines line [] = ([], line)
split_lines line (c ∷ s) =
    if c == 10
    then (line ∷ (split_lines [] s).0, (split_lines [] s).1)
    else split_lines (line ++ c ∷ []) s

-- What is in the buffer while these lines are left.
unfoldable pub join_lines : List Text → Text → Text
join_lines [] rest = rest
join_lines (line ∷ lines) rest = line ++ 10 ∷ join_lines lines rest

-- `boost::trim`.
trim_left : Text → Text
unfolding is_space
trim_left [] = []
trim_left (c ∷ s) = let rest = trim_left s in if is_space c then rest else c ∷ s

trim_right : Text → Text
unfolding is_space
trim_right [] = []
trim_right (c ∷ s) = let rest = trim_right s in if is_empty rest && is_space c then [] else c ∷ rest

unfoldable pub trim : Text → Text
unfolding trim_left trim_right
trim s = trim_right (trim_left s)

-- A standard exception of one message is caught; a pointer and undefined behaviour are not.
unfoldable pub guarded : M (Unit {0}) → M (Unit {0})
guarded m c = elim (m c).0 [
  | value a ↦ (value tt, (m c).1)
  | returned ↦ (value tt, (m c).1)
  | threw ↦ (value tt, (m c).1)
  | threw_pointer ↦ (threw_pointer, (m c).1)
  | undefined ↦ (undefined, (m c).1)
]

-- The end of a transmission: a new job goes to the pool manager, and reading goes on.
unfoldable pub end_transmission : M (Unit {0})
end_transmission = do
  fresh ← gets λ c. c.new_job_processed
  work ← gets λ c. c.current
  when fresh (post (on_work_received work))
  connected ← gets is_connected
  when connected (post receive)

module _ (J : Json) (parse : Text → Option J.Value)
    (target_of_difficulty : J.Value → Result JsonError (List ℕ)) (project : Text) (now : ℕ) where
  abbrev response : J.Value → M (Unit {0})
  response = process_response J target_of_difficulty project now

  -- One line; an empty one and one that is no JSON are dropped.
  unfoldable pub process_line : Text → M (Unit {0})
  process_line line =
      if is_empty (trim line)
      then skip
      else cases (parse (trim line)) skip (λ msg. guarded (response msg))

  -- A line leaves the buffer after it has been processed.
  unfoldable pub process_lines : Text → List Text → M (Unit {0})
  process_lines rest [] = skip
  process_lines rest (line ∷ lines) = do
    process_line line
    modify λ c. record c { message = join_lines lines rest }
    process_lines rest lines

  unfoldable pub on_received : Text → M (Unit {0})
  on_received bytes = do
    modify λ c. record c { message = c.message ++ bytes; new_job_processed = false }
    buffer ← gets λ c. c.message
    process_lines (split_lines [] buffer).1 (split_lines [] buffer).0
    end_transmission

  -- `none` is an error of the socket.
  unfoldable pub on_recv_socket_data_completed : Option Text → M (Unit {0})
  on_recv_socket_data_completed (some bytes) = on_received bytes
  on_recv_socket_data_completed none = do
    connected ← gets is_connected
    when connected (do
      pending ← gets λ c. c.auth_pending
      when pending (change_conn mark_unrecoverable)
      post post_disconnect)
