-- ===== src/Stratum/Message.antt =====
-- EthStratumClient.cpp: what a message from the pool says, before it is acted on.
use fpga_ethash.Json.{Json, JsonError}
use fpga_ethash.Base.{
  ok_inv, err, ◌≡◌, sym, ap, ◌∙◌, ℕ, List, [], ◌∷◌, ◌++◌, Bool, true, false, not, ◌||◌, ◌&&◌,
  is_empty, text_eq, ◌==◌, if◌then◌else◌, Result, ok, ◌>>=◌, codes,
}
use fpga_ethash.Stratum.{Text}
use fpga_ethash.Stratum.Mode

-- The essential values.
pub record Header : Type 0 where
  pub rpc2 : Bool
  pub id : ℕ
  pub is_success : Bool
  pub err_reason : Text
  pub method : Text
  pub is_notification : Bool

-- `a && b` where asking for `b` may throw.
abbrev pub also : Bool → Result JsonError Bool → Result JsonError Bool
also true b = b
also false b = ok false

module _ (J : Json) where
  open J use {
    Value, null, is_null, is_string, is_array, to_string?, to_array?, to_object?, is_member, empty,
    get, at, as_string, as_uint, elements, members,
  }

  abbrev pub get_text : Value → Text → Text → Result JsonError Text
  get_text v key default = get v key (J.text default) >>= as_string

  abbrev pub at_text : Value → ℕ → Result JsonError Text
  at_text v i = at v i (J.text []) >>= as_string

  -- The texts of an array, with a space behind each.
  join_elements : List Value → Result JsonError Text
  join_elements [] = ok []
  join_elements (v ∷ rest) = do t ← as_string v; more ← join_elements rest; ok (t ++ b' ' ∷ more)

  join_members : List (Text × Value) → Result JsonError Text
  join_members [] = ok []
  join_members ((k, v) ∷ rest) = do
    t ← as_string v
    more ← join_members rest
    ok (k ++ b':' ∷ (t ++ b' ' ∷ more))

  error_text : Value → Value → Result JsonError Text
  unfolding join_elements join_members
  error_text msg error =
      if to_string? error
      then get_text msg (codes "error") (codes "Unknown error")
      else if to_array? error
      then join_elements (elements error)
      else if to_object? error
      then join_members (members error)
      else ok []

  unfoldable pub process_error : Value → Result JsonError Text
  unfolding error_text
  process_error msg = do
    present ← is_member msg (codes "error")
    set ← also present (get msg (codes "error") null >>= λ error. ok (not (is_null error)))
    if set then get msg (codes "error") null >>= error_text msg else ok (codes "Unknown error")

  -- In Eth-Proxy mode a job comes without a method, in an array of results.
  pushed_job : ℕ → Value → Bool → Text → Result JsonError Bool
  pushed_job mode msg is_notification method =
      also (is_notification && is_empty method && mode == Mode.ethproxy)
        (get msg (codes "result") null >>= λ r. ok (is_array r))

  unfoldable pub read_header : ℕ → Value → Result JsonError Header
  unfolding pushed_job
  read_header mode msg = do
    rpc2 ← is_member msg (codes "jsonrpc")
    id ← get msg (codes "id") (J.number 0) >>= as_uint
    error ← get msg (codes "error") null
    err_reason ← if empty error then ok [] else process_error msg
    method ← get_text msg (codes "method") []
    let is_notification = not (is_empty method) || id == 0
    job ← pushed_job mode msg is_notification method
    ok (record {
      rpc2 = rpc2;
      id = id;
      is_success = empty error;
      err_reason = err_reason;
      method = if job then codes "mining.notify" else method;
      is_notification = is_notification;
    })

  -- `!= "2.0"` of a value that is text.
  wrong_version : Value → Result JsonError Bool
  wrong_version msg = do
    version ← get msg (codes "jsonrpc") null
    if not (is_string version)
        then ok true
        else as_string version >>= λ v. ok (not (text_eq v (codes "2.0")))

  no_content : Value → Result JsonError Bool
  no_content msg = do
    params ← get msg (codes "params") null
    also (empty params) (get msg (codes "result") null >>= λ result. ok (empty result))

  -- The sanity checks.
  unfoldable pub is_invalid : Header → Value → Result JsonError Bool
  unfolding wrong_version no_content
  is_invalid h msg = do
    wrong ← also h.rpc2 (wrong_version msg)
    hollow ← also (not wrong && h.is_notification) (no_content msg)
    ok (wrong || hollow)

  success_of : Result JsonError Header → Bool
  success_of (ok h) = h.is_success
  success_of (err e) = false

  empty_of : Result JsonError Value → Bool
  empty_of (ok v) = empty v
  empty_of (err e) = false

  -- A message that can be read is a success exactly if it has no error.
  pub read_header-is_success :
      (mode : ℕ) (msg error : Value) (h : Header)
      → read_header mode msg ≡ ok h
      → get msg (codes "error") null ≡ ok error
      → h.is_success ≡ empty error
  unfolding read_header success_of empty_of
  read_header-is_success mode msg error h read has =
      let (rpc2, _, read1) = ok_inv (is_member msg (codes "jsonrpc")) read in
      let (id, _, read2) = ok_inv (get msg (codes "id") (J.number 0) >>= as_uint) read1 in
      let (found, at, read3) = ok_inv (get msg (codes "error") null) read2 in
      let (reason, _, read4) = ok_inv (if empty found then ok [] else process_error msg) read3 in
      let (method, _, read5) = ok_inv (get_text msg (codes "method") []) read4 in
      let (job, _, read6) =
        ok_inv (pushed_job mode msg (not (is_empty method) || id == 0) method) read5 in
      sym (ap success_of read6) ∙ ap empty_of (sym at ∙ has)
