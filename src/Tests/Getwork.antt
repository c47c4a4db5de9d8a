-- ===== src/Tests/Getwork.antt =====
-- The getwork client at concrete inputs.
use fpga_ethash.FixedHash.{zero_hash}
use fpga_ethash.Work.{Solution, empty_work}
use fpga_ethash.CommonData.{add, dont_add}
use fpga_ethash.FixedHash.{hex, from_text}
use fpga_ethash.FixedHash.Construct.{from_text-hex}
use fpga_ethash.Base.{
  is_set, ℕ, ◌≡◌, refl, List, [], ◌∷◌, true, false, none, some, Option, ok, codes, text_eq,
  if◌then◌else◌, arith, replicate, All-replicate, IsU8, ◌>>=◌,
}
use fpga_ethash.Stratum.{Text}
use fpga_ethash.Stratum.Login.{new_session}
use fpga_ethash.Getwork.{
  Client, success, get_work, submit_solution, handle_connect, handle_write, handle_resolve,
  connect as connect_client, resolve, async_connect, on_connected, post_request, async_read,
}
use fpga_ethash.Getwork.Response.{process_response, request_id, read_work, report, is_accepted}
use fpga_ethash.Getwork.Response.Polling.{process_response-polls}
use fpga_ethash.Getwork.Response.Answers.{sent, submit_solution-answered}
use fpga_ethash.Getwork.Http.{
  handle_read, arrived, process_body, finish, split_crlf, read_message, read_lines, accepted_status,
}
use fpga_ethash.Getwork.Http.Delivery.{render, handle_read-render}
use fpga_ethash.Getwork.Handlers.{run, call, Call, connect, resolved, connected, written, read}
use fpga_ethash.Getwork.Handlers.Served.{run-IsServed}
use fpga_ethash.Tests.Documents.{Doc, flag, num, word, list, nil, cons, object, end, member, docs}
use fpga_ethash.Tests.Stratum.{connection, endpoint}

abbrev idle : Client
idle = record {
  conn = connection;
  session = none;
  connected = false;
  connecting = false;
  tx_pending = false;
  tx_queue = [];
  socket_open = false;
  endpoints = [];
  endpoint = none;
  pending_request = [];
  pending_timestamp = 0;
  getwork_timer = none;
  farm_recheck_period = 500;
  work_timeout = 180;
  current = empty_work (codes "ethash");
  current_timestamp = 0;
  solution_submitted_max_id = 0;
  events = [];
}

abbrev online : Client
online = record idle { session = some (new_session 0); connected = true; endpoints = endpoint ∷ [] }

abbrev ones : List ℕ
ones = replicate 32 1

abbrev one : Text
one = hex ones add

abbrev work_response : Doc
work_response = object (
    member (codes "id") (num 1) (
      member (codes "result") (list (cons (word one) (cons (word one) (cons (word one) nil)))) end))

abbrev accepted_response : Doc
accepted_response = object (member (codes "id") (num 0) (member (codes "result") (flag true) end))

-- The one text that is read as the response with work.
abbrev parse : Text → Option Doc
parse s = if text_eq s (codes "work") then some work_response else none

abbrev ok_line : Text
ok_line = codes "HTTP/1.1 200 OK"

abbrev mined : Solution
mined = record { nonce = 7; mix_hash = zero_hash 32; work = empty_work (codes "ethash"); midx = 3 }

reads_hash : from_text 32 one ≡ ok ones
reads_hash = from_text-hex ones add (All-replicate IsU8 32 1 (omega arith))

reads_work :
    read_work docs (list (cons (word one) (cons (word one) (cons (word one) nil))))
    ≡ ok (record (empty_work (codes "ethash")) {
      header = ones;
      seed = ones;
      boundary = ones;
      job = hex ones dont_add;
    })
unfolding read_work
reads_work = ground (arith, reads_hash)

process_response-polls_example :
    (c' : Client) × (process_response docs 5 work_response
        (record online { pending_request = get_work })
      ≡ ok c')
    × (is_set c'.getwork_timer ≡ true)
unfolding request_id
process_response-polls_example =
    process_response-polls docs 5 work_response (record online { pending_request = get_work }) refl
      refl refl refl refl refl refl reads_work

submit_solution-answered_example :
    (handle_connect 2 success (submit_solution 1 mined online)
      >>= process_response docs 9 accepted_response)
    ≡ ok (report 7 3 true (sent 2 mined endpoint online))
unfolding is_accepted
submit_solution-answered_example =
    submit_solution-answered docs 1 2 9 mined online refl refl refl refl refl (omega arith)
      accepted_response refl refl refl refl

handle_read-render_example :
    handle_read docs parse 5
      (arrived (render (ok_line ∷ codes "Server: node" ∷ []) (codes "work")))
      (record online { pending_request = get_work })
    ≡ (process_body docs parse 5 (codes "work") (record online { pending_request = get_work })
        >>= λ c'. ok (finish 5 c'))
unfolding accepted_status
handle_read-render_example =
    handle_read-render docs parse 5 ok_line (codes "Server: node" ∷ []) (codes "work")
      (record online { pending_request = get_work }) refl refl refl

-- A connection, a request for work, and a response that is no JSON.
abbrev calls : List (ℕ × Call)
calls =
    (0, connect)
    ∷ (1, resolved (some (endpoint ∷ [])))
    ∷ (2, connected success)
    ∷ (3, written success)
    ∷ (4, read (arrived (render (ok_line ∷ []) (codes "no"))))
    ∷ []

abbrev ended : Client
ended = record idle {
  session = some (record (new_session 2) { subscribed = true; authorized = true });
  connected = true;
  endpoints = endpoint ∷ [];
  endpoint = some endpoint;
  pending_request = get_work;
  pending_timestamp = 2;
  current_timestamp = 2;
  events =
      resolve (codes "pool") 4444
      ∷ async_connect endpoint
      ∷ on_connected
      ∷ post_request (codes "/") (codes "pool") get_work
      ∷ async_read
      ∷ [];
}

runs : run docs parse calls idle ≡ ok ended
unfolding run call connect_client handle_resolve handle_connect handle_write handle_read split_crlf
    process_body read_message read_lines
runs = refl

run-IsServed_example :
    (ended.tx_pending ≡ false → ended.tx_queue ≡ []) × (ended.connected ≡ is_set ended.session)
run-IsServed_example = run-IsServed docs parse calls idle ended refl refl refl runs
