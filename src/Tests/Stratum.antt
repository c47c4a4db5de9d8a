-- ===== src/Tests/Stratum.antt =====
-- The stratum client at concrete inputs.
use fpga_ethash.Json.{JsonError, logic_error}
use fpga_ethash.FixedHash.{zero_hash}
use fpga_ethash.CommonData.{dont_add, to_hex_number}
use fpga_ethash.CommonData.Hex.{digits_of}
use fpga_ethash.Work.{Solution, empty_work}
use fpga_ethash.Base.{
  inr, is_set, ℕ, ◌≡◌, ◌≢◌, refl, List, [], ◌∷◌, ◌++◌, true, false, none, some, Option, err, Result,
  codes, text_eq, if◌then◌else◌, arith, length,
}
use fpga_ethash.Stratum.{
  Text, Client, Connection, Endpoint, Event, unsecured, dns, no_link, plain_link, is_authorized,
  is_connected, on_disconnected,
}
use fpga_ethash.Stratum.Effects.{value, returned, ◌>>=◌, pure}
use fpga_ethash.Stratum.Login.{new_session}
use fpga_ethash.Stratum.Login.Extranonce.{process_extranonce-own_digits}
use fpga_ethash.Stratum.Pleas.Delays.{delays, enqueue_all, differences, delays-differences}
use fpga_ethash.Stratum.Send.{own_digits, submit_solution}
use fpga_ethash.Stratum.Sockets.{put_socket}
use fpga_ethash.Stratum.Timer.{workloop_timer_elapsed}
use fpga_ethash.Stratum.Timer.Pending.{workloop_timer_elapsed-connecting}
use fpga_ethash.Stratum.Message.{Header, read_header, is_invalid, process_error}
use fpga_ethash.Stratum.Process.{process_response}
use fpga_ethash.Stratum.Process.Answers.{report, process_response-submit_solution}
use fpga_ethash.Stratum.Receive.{
  join_lines, split_lines, process_line, process_lines, end_transmission, on_received, trim,
}
use fpga_ethash.Stratum.Receive.Lines.{Through, begun, lines_of, on_received-chunks}
use fpga_ethash.Stratum.Receive.Jobs.{jobs_of, on_received-jobs}
use fpga_ethash.Stratum.Receive.FirstJob.{process_lines-first_job}
use fpga_ethash.Stratum.Handlers.{Call, run}
use fpga_ethash.Stratum.Handlers.Sound.{run-IsSound}
use fpga_ethash.Stratum.Handlers.Logins.{Idle}
use fpga_ethash.Stratum.Handlers.Detection.{attempt, detection_ends}
use fpga_ethash.Tests.Documents.{Doc, nothing, flag, num, word, object, end, member, docs}

abbrev pub connection : Connection
connection = record {
  host = codes "pool";
  port = 4444;
  path = [];
  user = codes "u";
  pass = codes "X";
  workername = codes "w";
  user_dot_worker = codes "u.w";
  sec_level = unsecured;
  host_name_type = dns;
  version = 999;
  stratum_mode = 999;
  stratum_mode_confirmed = false;
  unrecoverable = false;
  responds = false;
  total_duration = 0;
}

abbrev pub endpoint : Endpoint
endpoint = (codes "10.0.0.1", 4444)

-- Idle, with one address of the host.
abbrev idle : Client
idle = record {
  conn = connection;
  has_conn = true;
  session = none;
  connected = false;
  disconnecting = false;
  connecting = false;
  auth_pending = false;
  work_timeout = 180;
  response_timeout = 2;
  current = empty_work (codes "ethash");
  current_timestamp = 0;
  socket = no_link;
  secure_socket = none;
  plain_socket = none;
  message = [];
  new_job_processed = false;
  workloop_timer = none;
  response_pleas_count = 0;
  response_plea_older = 0;
  response_plea_times = [];
  tx_pending = false;
  tx_queue = [];
  endpoints = endpoint ∷ [];
  endpoint = none;
  solution_submitted_max_id = 0;
  events = [];
}

-- Logged in, in the mode of NiceHash.
abbrev at_work : Client
at_work = record idle {
  conn = record connection { stratum_mode = 2; stratum_mode_confirmed = true; responds = true };
  session = some (record (new_session 0) { subscribed = true; authorized = true });
  connected = true;
  socket = plain_link;
  plain_socket = some true;
}

abbrev no_target : Doc → Result JsonError (List ℕ)
no_target d = err logic_error

-- A login that failed, and a solution that was accepted.
abbrev failed_login : Doc
failed_login = object (member (codes "id") (num 1) (member (codes "error") (word (codes "no")) end))

abbrev accepted_solution : Doc
accepted_solution = object (member (codes "id") (num 43) (member (codes "result") (flag true) end))

abbrev parse : Text → Option Doc
parse line = if text_eq line (codes "no") then some failed_login else none

abbrev solution : Solution
solution = record {
  nonce = 0xaf4c000000000123;
  mix_hash = zero_hash 32;
  work = record (empty_work (codes "ethash")) { ex_size_bytes = 4; job = codes "j" };
  midx = 3;
}

abbrev calls : List (ℕ × Call Doc)
calls =
    (5, Call.start_connect)
    ∷ (9, Call.connect_completed false false)
    ∷ (20, Call.recv_completed (some (codes "no")))
    ∷ (30, Call.disconnect)
    ∷ []

run-IsSound_example :
    let c = run docs parse no_target (codes "m") calls idle in
    (is_set c.session ≡ true → c.conn.stratum_mode_confirmed ≡ true)
    × (is_authorized c ≡ true → c.conn.stratum_mode_confirmed ≡ true)
    × (c.response_pleas_count ≡ length c.response_plea_times)
run-IsSound_example = run-IsSound docs parse no_target (codes "m") calls idle refl refl

delays-differences_example :
    delays (130 ∷ 150 ∷ []) (enqueue_all (100 ∷ 140 ∷ []) idle)
    ≡ differences (130 ∷ 150 ∷ []) (100 ∷ 100 ∷ 140 ∷ [])
delays-differences_example =
    delays-differences 100 (140 ∷ []) (130 ∷ 150 ∷ []) idle refl refl (omega arith)

-- The second response comes 10 after its request, and is measured as 50.
differences_value : differences (130 ∷ 150 ∷ []) (100 ∷ 100 ∷ 140 ∷ []) ≡ 30 ∷ 50 ∷ []
unfolding differences
differences_value = refl

abbrev first_part : Text
first_part = codes "zz" ++ 10 ∷ codes "x"

abbrev second_part : Text
second_part = codes "y" ++ 10 ∷ codes "z"

on_received-chunks_example :
    let r = on_received docs parse no_target (codes "m") 7 first_part at_work in
    ((m : Client) × Through docs parse no_target
        (codes "m")
        7
        (codes "zz" ∷ [])
        (begun first_part at_work)
        m
      × (r ≡ end_transmission m))
    × ((n : Client) × Through docs parse no_target
          (codes "m")
          7
          (lines_of r.1.message second_part)
          (begun second_part r.1)
          n
        × (on_received docs parse no_target (codes "m") 7 second_part r.1 ≡ end_transmission n))
    × (lines_of [] first_part ++ lines_of r.1.message second_part
        ≡ lines_of [] (first_part ++ second_part))
    × ((split_lines [] (r.1.message ++ second_part)).1
        ≡ (split_lines [] (first_part ++ second_part)).1)
unfolding on_received split_lines process_lines process_line trim end_transmission is_connected
    ◌>>=◌ join_lines
on_received-chunks_example =
    on_received-chunks docs parse no_target (codes "m") 7 first_part second_part at_work refl refl

on_received-jobs_example :
    let r = on_received docs parse no_target (codes "m") 7 first_part at_work in
    (r.0 ≡ value tt
      → jobs_of r.1.events ≡ jobs_of [] ++ (if r.1.new_job_processed then r.1.current ∷ [] else []))
    × (r.0 ≢ value tt → jobs_of r.1.events ≡ jobs_of [])
on_received-jobs_example = on_received-jobs docs parse no_target (codes "m") 7 first_part at_work

process_lines-first_job_example :
    let c =
      (process_lines docs parse no_target
        (codes "m")
        7
        []
        (codes "no" ∷ codes "zz" ∷ [])
        (record at_work { new_job_processed = true })).1 in
    (c.current ≡ at_work.current) × (c.new_job_processed ≡ true)
process_lines-first_job_example =
    process_lines-first_job docs parse no_target (codes "m") 7 [] (codes "no" ∷ codes "zz" ∷ [])
      (record at_work { new_job_processed = true }) refl refl

-- The pool fixes the digits af4c.
process_extranonce-own_digits_example :
    (t : Text) × (own_digits solution ≡ pure t)
    × (digits_of 4 0xaf4c ++ t ≡ to_hex_number 0xaf4c000000000123 dont_add 16)
process_extranonce-own_digits_example =
    (process_extranonce-own_digits 4 12 0xaf4c at_work
        (record (new_session 0) { subscribed = true; authorized = true }) refl (omega arith) refl).1
      solution refl (omega arith) (omega arith)

abbrev connecting_client : Client
connecting_client = record idle {
  connecting = true;
  socket = plain_link;
  plain_socket = some true;
  response_pleas_count = 1;
  response_plea_older = 100;
  response_plea_times = 100 ∷ [];
}

-- A second after the connection began, of the two that are allowed.
workloop_timer_elapsed-connecting_example :
    workloop_timer_elapsed 1100 false connecting_client
    ≡ (returned, put_socket false (record connecting_client { workloop_timer = none }))
workloop_timer_elapsed-connecting_example =
    (workloop_timer_elapsed-connecting 1100 connecting_client true refl refl refl (omega arith)
        refl).0
      (omega arith)

abbrev accepted_header : Header
accepted_header = record {
  rpc2 = false;
  id = 43;
  is_success = true;
  err_reason = [];
  method = [];
  is_notification = false;
}

process_response-submit_solution_example :
    let c = (submit_solution 200 solution at_work).1 in
    let r = process_response docs no_target (codes "m") 260 accepted_solution c in
    (d : ℕ) × (r.0 ≡ value tt) × (r.1.events ≡ c.events ++ report solution d true ∷ [])
unfolding is_authorized read_header is_invalid
process_response-submit_solution_example =
    process_response-submit_solution docs no_target (codes "m") 200 260 solution at_work
      accepted_solution nothing (flag true) accepted_header true refl refl (omega arith) refl refl
      refl refl refl refl (inr (inr (refl, refl, refl)))

abbrev failed_header : Header
failed_header = record {
  rpc2 = false;
  id = 1;
  is_success = false;
  err_reason = codes "no";
  method = [];
  is_notification = false;
}

abbrev times : ℕ × ℕ × ℕ × ℕ
times = (10, 20, 30, 40)

detection_ends_example :
    let try_once = attempt docs parse no_target (codes "m") failed_login times in
    let third = try_once (try_once (try_once idle)) in
    Idle 2 endpoint (try_once idle)
    × Idle 1 endpoint (try_once (try_once idle))
    × Idle 0 endpoint third
    × ((try_once third).conn.unrecoverable ≡ true)
    × ((es : List Event) × ((try_once third).events ≡ es ++ on_disconnected ∷ []))
unfolding read_header is_invalid process_error
detection_ends_example =
    detection_ends docs parse no_target (codes "m") failed_login nothing failed_header
      (λ mode. refl) refl refl refl refl refl endpoint times times times times idle
      ((refl, omega arith, refl, refl, refl, refl, refl), refl, refl)
