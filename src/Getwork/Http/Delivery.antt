-- ===== src/Getwork/Http/Delivery.antt =====
-- A response of one line reaches the client whole.
use mathlib.Core.List.{append_assoc}
use fpga_ethash.Json.{Json}
use fpga_ethash.Stratum.{Text}
use fpga_ethash.Base.{
  ℕ, ◌≡◌, refl, ap, sym, else_eq, false≢true, ◌∙◌, List, [], ◌∷◌, ◌++◌, Bool, true, false, not,
  ◌&&◌, Option, is_empty, ◌==◌, rev_append, if◌then◌else◌, Result, ok, err, ◌>>=◌, arith,
}
use fpga_ethash.Getwork.{Client, Fault}
use fpga_ethash.Getwork.Http.{
  split_crlf, ended_line, strip_newlines, accepted_status, read_lines, read_message, handle_read,
  process_body, finish, arrived,
}

-- No byte is a newline.
abbrev pub is_one_line : Text → Bool
is_one_line [] = true
is_one_line (c ∷ s) = not (c == 10) && is_one_line s

-- Headers, none of which is empty.
abbrev pub are_headers : List Text → Bool
are_headers [] = true
are_headers (h ∷ hs) = is_one_line h && not (is_empty h) && are_headers hs

-- Every line with its end.
abbrev pub render_lines : List Text → Text
render_lines [] = []
render_lines (l ∷ ls) = l ++ 13 ∷ 10 ∷ render_lines ls

-- The response of an HTTP server: the headers, an empty line, and the body.
abbrev pub render : List Text → Text → Text
render headers body = render_lines headers ++ 13 ∷ 10 ∷ body

split_crlf-line :
    (line s back : Text)
    → is_one_line line ≡ true
    → split_crlf back (line ++ 13 ∷ 10 ∷ s)
      ≡ (rev_append back line ∷ (split_crlf [] s).0, (split_crlf [] s).1)
unfolding split_crlf ended_line
split_crlf-line [] s back whole = ground arith
split_crlf-line (c ∷ line) s back whole = ground (arith, split_crlf-line line s (c ∷ back))

split_crlf-body :
    (body back : Text) → is_one_line body ≡ true → split_crlf back body ≡ ([], rev_append back body)
unfolding split_crlf
split_crlf-body [] back whole = refl
split_crlf-body (c ∷ body) back whole = ground (arith, split_crlf-body body (c ∷ back))

strip_newlines-one_line : (body : Text) → is_one_line body ≡ true → strip_newlines body ≡ body
unfolding strip_newlines
strip_newlines-one_line [] whole = refl
strip_newlines-one_line (c ∷ body) whole = ground (arith, strip_newlines-one_line body)

headers_inv :
    (h : Text) (hs : List Text)
    → are_headers (h ∷ hs) ≡ true
    → (is_one_line h ≡ true) × (are_headers hs ≡ true)
headers_inv h hs sound = (ground arith, ground arith)

split_crlf-render :
    (headers : List Text) (body : Text)
    → are_headers headers ≡ true
    → is_one_line body ≡ true
    → split_crlf [] (render headers body) ≡ (headers ++ [] ∷ [], body)
split_crlf-render [] body sound whole =
    split_crlf-line [] body [] refl ∙ ap (λ r. ([] ∷ r.0, r.1)) (split_crlf-body body [] whole)
split_crlf-render (h ∷ hs) body sound whole =
    let (whole_h, sound_hs) = headers_inv h hs sound in
    ap (split_crlf []) (append_assoc h (13 ∷ 10 ∷ render_lines hs) (13 ∷ 10 ∷ body))
    ∙ split_crlf-line h (render hs body) [] whole_h
    ∙ ap (λ r. (h ∷ r.0, r.1)) (split_crlf-render hs body sound_hs whole)

-- The lines behind the first.
read_lines-headers :
    (J : Json) (parse : Text → Option J.Value) (now : ℕ) (headers : List Text) (body : Text)
    (c : Client)
    → are_headers headers ≡ true
    → read_lines J parse now false true body (headers ++ [] ∷ []) c
      ≡ (process_body J parse now (strip_newlines body) c >>= λ c'. ok (false, c'))
unfolding read_lines
read_lines-headers J parse now [] body c sound = refl
read_lines-headers J parse now (h ∷ hs) body c sound =
    ground (arith, read_lines-headers J parse now hs body c)

append_filled : (s t u : Text) → is_empty s ≡ false → is_empty ((s ++ t) ++ u) ≡ false
append_filled [] t u e = absurd (false≢true (sym e))
append_filled (c ∷ s) t u e = refl

module _ (J : Json) (parse : Text → Option J.Value) (now : ℕ) where
  abbrev rest_of_message : Bool × Client → Result Fault Client
  rest_of_message (left, c) = ok (if left then c else finish now c)

  read_lines-status :
      (status body : Text) (lines : List Text) (c : Client)
      → accepted_status status ≡ true
      → is_empty status ≡ false
      → read_lines J parse now true true body (status ∷ lines) c
        ≡ read_lines J parse now false true body lines c
  unfolding read_lines
  read_lines-status status body lines c accepted filled = ground arith

  message_end :
      (r : Result Fault Client)
      → (r >>= (λ c. ok (false, c)) >>= rest_of_message) ≡ (r >>= λ c. ok (finish now c))
  message_end (ok c) = refl
  message_end (err e) = refl

  read_message-render :
      (status : Text) (headers : List Text) (body : Text) (c : Client)
      → accepted_status status ≡ true
      → are_headers (status ∷ headers) ≡ true
      → is_one_line body ≡ true
      → read_message J parse now (render (status ∷ headers) body) c
        ≡ (process_body J parse now body c >>= λ c'. ok (finish now c'))
  unfolding read_message
  read_message-render status headers body c accepted sound whole =
      ap (λ s. read_lines J parse now true true s.1 s.0 c >>= rest_of_message)
        (split_crlf-render (status ∷ headers) body sound whole)
      ∙ ap (λ r. r >>= rest_of_message)
          (read_lines-status status body (headers ++ [] ∷ []) c accepted (ground arith)
            ∙ read_lines-headers J parse now headers body c (headers_inv status headers sound).1
            ∙ ap (λ b. process_body J parse now b c >>= λ c'. ok (false, c'))
                (strip_newlines-one_line body whole))
      ∙ message_end (process_body J parse now body c)

  -- A response whose first line is a status of success, with any headers behind it, and whose body
  -- is one line, with no line end: the socket is closed, the body is taken whole as the message, and
  -- then the next request that waits goes on, or the client is free to send.
  pub handle_read-render :
      (status : Text) (headers : List Text) (body : Text) (c : Client)
      → accepted_status status ≡ true
      → are_headers (status ∷ headers) ≡ true
      → is_one_line body ≡ true
      → handle_read J parse now (arrived (render (status ∷ headers) body)) c ≡ (
          process_body J parse now body (record c { socket_open = false }) >>= λ c'.
          ok (finish now c'))
  unfolding handle_read
  handle_read-render status headers body c accepted sound whole =
      else_eq (is_empty (render (status ∷ headers) body)) _
        (append_filled status (13 ∷ 10 ∷ render_lines headers) (13 ∷ 10 ∷ body) (ground arith))
      ∙ read_message-render status headers body (record c { socket_open = false }) accepted sound
          whole
