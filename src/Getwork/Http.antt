-- ===== src/Getwork/Http.antt =====
-- EthGetworkClient.cpp: the HTTP response that a socket delivers.
pub mod Delivery
use fpga_ethash.Json.{Json}
use fpga_ethash.Stratum.{Text}
use fpga_ethash.Base.{
  ℕ, List, [], ◌∷◌, ◌++◌, Bool, true, false, not, ◌&&◌, ◌||◌, Option, some, none, is_empty, ◌==◌,
  take, rev_append, if◌then◌else◌, Result, ok, err, ◌>>=◌, codes, text_eq,
}
use fpga_ethash.Getwork.{Client, Fault, disconnect, begin_connect}
use fpga_ethash.Getwork.Response.{process_response}

-- The line that a newline ends, if a carriage return stands before it; the line is kept backwards.
unfoldable pub ended_line : Text → Option Text
ended_line [] = none
ended_line (c ∷ line) = if c == 13 then some (rev_append line []) else none

-- The lines that a carriage return and a newline end, and what is behind the last of them.
unfoldable pub split_crlf : Text → Text → List Text × Text
unfolding ended_line
split_crlf line [] = ([], rev_append line [])
split_crlf line (c ∷ s) =
    let more = split_crlf (c ∷ line) s in
    let next = split_crlf [] s in
    if c == 10 then elim (ended_line line) [ some l ↦ (l ∷ next.0, next.1) | none ↦ more ] else more

-- `replace_all(rx_message, "\n", "")`.
unfoldable pub strip_newlines : Text → Text
strip_newlines [] = []
strip_newlines (c ∷ s) = let rest = strip_newlines s in if c == 10 then rest else c ∷ rest

after_space : Text → Option Text
after_space [] = none
after_space (c ∷ s) = let later = after_space s in if c == 32 then some s else later

-- The first line is an HTTP status of success.
unfoldable pub accepted_status : Text → Bool
unfolding after_space
accepted_status line = text_eq (take 7 line) (codes "HTTP/1.") && (elim (after_space line) [
  | none ↦ false
  | some status ↦ text_eq (take 3 status) (codes "200")
])

-- Other work that waits takes the next connection.
unfoldable pub finish : ℕ → Client → Client
unfolding begin_connect
finish now c = if is_empty c.tx_queue then record c { tx_pending = false } else begin_connect now c

-- How reading ended: with the bytes of the response, or with an error.
pub data Received : Type 0 where
  arrived : Text → Received
  read_aborted read_failed : Received

module _ (J : Json) (parse : Text → Option J.Value) (now : ℕ) where
  unfoldable pub process_body : Text → Client → Result Fault Client
  process_body line c = elim (parse line) [ none ↦ ok c | some msg ↦ process_response J now msg c ]

  -- `first` is whether the line is the first of all, `header` whether no empty line has come, `rest`
  -- what is behind the last line. Whether the handler has returned stands beside the client.
  unfoldable pub read_lines :
      (first header : Bool) → Text → List Text → Client → Result Fault (Bool × Client)
  unfolding accepted_status strip_newlines
  read_lines first header rest [] c = ok (false, c)
  read_lines first header rest (line ∷ lines) c =
      if is_empty line && not (is_empty lines)
      then read_lines false false rest lines c
      else (let header' = header && not (is_empty line) in
          let text = if is_empty line then strip_newlines rest else line in
          if header'
          then if first && not (accepted_status line)
            then ok (true, disconnect now c)
            else read_lines false true rest lines c
          else process_body text c >>= read_lines false false rest lines)

  unfoldable pub read_message : Text → Client → Result Fault Client
  unfolding finish
  read_message bytes c = do
    (left, c') ← read_lines true true (split_crlf [] bytes).1 (split_crlf [] bytes).0 c
    ok (if left then c' else finish now c')

  unfoldable pub handle_read : Received → Client → Result Fault Client
  handle_read (arrived bytes) c =
      if is_empty bytes
      then ok (disconnect now (record c { socket_open = false }))
      else read_message bytes (record c { socket_open = false })
  handle_read read_aborted c = ok c
  handle_read read_failed c = ok (disconnect now c)
