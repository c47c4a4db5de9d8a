-- ===== src/PoolManager/Retries.antt =====
-- `rotateConnect`: how often a connection is tried, and which one is next.
use fpga_ethash.FixedHash.{equal}
use fpga_ethash.PoolManager.Rotation.{
  Trying, GaveUp, connection_at-ok, try_connection-Trying, give_up-GaveUp, give_up-connections,
  give_up-index, try_connection-keeps,
}
use fpga_ethash.PoolManager.{
  Uri, Manager, exit_host, is_connected, count_switch, wrap_index, choose, try_connection, give_up,
  select, rotate_connect,
}
use fpga_ethash.Base.{
  get_elem?-inside, some-injective, true, ℕ, ◌+◌, ◌^◌, ◌≤◌, ◌<◌, ◌≡◌, ◌⊎◌, inl, inr, refl, sym, ap,
  ◌∙◌, false, Bool-cases, ltb→lt, some, ok, length, get_elem?, ltb, leb, ◌==◌, if◌then◌else◌,
  if_either, else_eq, then_eq, u32, arith,
}

-- The second part of `rotateConnect` has made `p'` of `p`, at the connection `uri`: it is tried, and the
-- attempt is the number `attempt`, unless its host is "exit", and only then the manager has stopped.
pub data Attempted (uri : Uri) (attempt : ℕ) (p' : Manager) : Type 0 where
  tried :
      equal uri.host exit_host ≡ false
      → Trying p'
      → p'.connection_attempt ≡ attempt
      → Attempted uri attempt p'
  stopped : equal uri.host exit_host ≡ true → GaveUp p' → Attempted uri attempt p'

-- What the second part makes of `p`: the connections and the index stay.
record Tried (uri : Uri) (p p' : Manager) : Type 0 where
  same_connections : p'.connections ≡ p.connections
  same_index : p'.active_connection_idx ≡ p.active_connection_idx
  counted : Attempted uri (u32 (p.connection_attempt + 1)) p'

Attempted-eq :
    {uri uri' : Uri} {n m : ℕ} (p' : Manager)
    → uri ≡ uri'
    → n ≡ m
    → Attempted uri n p'
    → Attempted uri' m p'
Attempted-eq p' same e (tried plain trying attempt) =
    tried (ap (λ (u : Uri). equal u.host exit_host) (sym same) ∙ plain) trying (attempt ∙ e)
Attempted-eq p' same e (stopped exits gave_up) =
    stopped (ap (λ (u : Uri). equal u.host exit_host) (sym same) ∙ exits) gave_up

try_connection-Tried :
    (uri : Uri) (p : Manager)
    → get_elem? p.connections p.active_connection_idx ≡ some uri
    → equal uri.host exit_host ≡ false
    → Tried uri p (try_connection uri p)
try_connection-Tried uri p at plain =
    let (same, index, attempt) = try_connection-keeps uri p in
    record {
      same_connections = same;
      same_index = index;
      counted = tried plain (try_connection-Trying uri p at plain) attempt;
    }

give_up-Tried :
    (uri : Uri) (p : Manager) → equal uri.host exit_host ≡ true → Tried uri p (give_up p)
give_up-Tried uri p exits = record {
  same_connections = give_up-connections p;
  same_index = give_up-index p;
  counted = stopped exits (give_up-GaveUp p);
}

select-in_range :
    (p : Manager)
    → p.active_connection_idx < length p.connections
    → (uri : Uri) × (get_elem? p.connections p.active_connection_idx ≡ some uri)
      × ((p' : Manager) × (select p ≡ ok p') × Tried uri p p')
unfolding select
select-in_range p below =
    let (uri, at) = get_elem?-inside p.connections p.active_connection_idx below in
    (
      uri,
      at,
      (
        (if equal uri.host exit_host then give_up p else try_connection uri p),
        else_eq (length p.connections == 0) (ok (give_up p)) (ground (arith, below))
            ∙ rw (connection_at-ok p.active_connection_idx p uri at) refl,
        if_either (Tried uri p) (equal uri.host exit_host) (give_up-Tried uri p)
            (try_connection-Tried uri p at),
      ),
    )

wrap_index-same : (p : Manager) → p.active_connection_idx < length p.connections → wrap_index p ≡ p
unfolding wrap_index
wrap_index-same p below =
    else_eq (leb (length p.connections) p.active_connection_idx) _ (ground (arith, below))

-- The manager with its index on the connection behind the active one, or on the first.
abbrev pub following : ℕ → ℕ → ℕ
following index count = if index + 1 == count then 0 else index + 1

abbrev moved_on : Manager → Manager
moved_on p = record p {
  connection_attempt = 0;
  active_connection_idx = following p.active_connection_idx (length p.connections);
  connection_switches = u32 (p.connection_switches + 1);
}

choose-fresh :
    (uri : Uri) (p : Manager)
    → uri.unrecoverable ≡ false
    → p.connection_attempt < p.connection_max_retries
    → choose uri p ≡ p
unfolding choose
choose-fresh uri p alive fresh =
    else_eq uri.unrecoverable _ alive
    ∙ else_eq (leb p.connection_max_retries p.connection_attempt) _ (ground (arith, fresh))

-- The index behind, wrapped.
wrapped :
    (p : Manager)
    → p.active_connection_idx < length p.connections
    → length p.connections < 2 ^ 32
    → count_switch (
        wrap_index (record p {
          connection_attempt = 0;
          active_connection_idx = u32 (p.active_connection_idx + 1);
        }))
      ≡ moved_on p
unfolding wrap_index count_switch
wrapped p below few = elim (Bool-cases (p.active_connection_idx + 1 == length p.connections)) [
  | inl last ↦
      ap count_switch (
        then_eq (leb (length p.connections) (u32 (p.active_connection_idx + 1))) _
          (ground (arith, last)))
      ∙ ap at (sym (then_eq (p.active_connection_idx + 1 == length p.connections) _ last))
  | inr inner ↦
      ap count_switch (
        else_eq (leb (length p.connections) (u32 (p.active_connection_idx + 1))) _
          (ground (arith, inner)))
      ∙ ap at (
          ground arith
          ∙ sym (else_eq (p.active_connection_idx + 1 == length p.connections) _ inner))
]
  where
    at : ℕ → Manager
    at i = record p {
      connection_attempt = 0;
      active_connection_idx = i;
      connection_switches = u32 (p.connection_switches + 1);
    }

choose-worn :
    (uri : Uri) (p : Manager)
    → uri.unrecoverable ≡ false
    → p.connection_max_retries ≤ p.connection_attempt
    → p.active_connection_idx < length p.connections
    → 1 < length p.connections
    → length p.connections < 2 ^ 32
    → choose uri p ≡ moved_on p
unfolding choose
choose-worn uri p alive worn below several few =
    else_eq uri.unrecoverable _ alive
    ∙ then_eq (leb p.connection_max_retries p.connection_attempt) _ (ground (arith, worn))
    ∙ else_eq (length p.connections == 1) _ (ground (arith, several))
    ∙ wrapped p below few

following-below :
    (p : Manager)
    → p.active_connection_idx < length p.connections
    → following p.active_connection_idx (length p.connections) < length p.connections
following-below p below = ground (arith, below)

rotate_connect-eq :
    (p : Manager) (uri : Uri)
    → is_connected p ≡ false
    → p.active_connection_idx < length p.connections
    → get_elem? p.connections p.active_connection_idx ≡ some uri
    → rotate_connect p ≡ select (choose uri p)
unfolding rotate_connect
rotate_connect-eq p uri offline below at =
    rw (offline, wrap_index-same p below, connection_at-ok p.active_connection_idx p uri at) refl

-- With several connections, the one at the index not marked unrecoverable and none established,
-- `rotateConnect` drops no connection. While the attempts are below the maximum it stays with the
-- connection; after that it goes to the connection behind, or from the last to the first. It tries
-- the connection that it is then at and counts the attempt, from one again where it has moved, unless
-- the host of that connection is "exit": then the manager has stopped.
pub rotate_connect-retries :
    (p : Manager) (uri : Uri)
    → is_connected p ≡ false
    → p.active_connection_idx < length p.connections
    → 1 < length p.connections
    → length p.connections < 2 ^ 32
    → p.connection_max_retries < 2 ^ 32
    → get_elem? p.connections p.active_connection_idx ≡ some uri
    → uri.unrecoverable ≡ false
    → (p' : Manager) × (rotate_connect p ≡ ok p')
      × (p'.connections ≡ p.connections)
      × (((p.connection_attempt < p.connection_max_retries)
            × (p'.active_connection_idx ≡ p.active_connection_idx)
            × Attempted uri (p.connection_attempt + 1) p')
          ⊎ ((p.connection_max_retries ≤ p.connection_attempt)
              × (p'.active_connection_idx
                  ≡ following p.active_connection_idx (length p.connections))
              × ((next : Uri) × (get_elem? p.connections p'.active_connection_idx ≡ some next)
                  × Attempted next 1 p')))
rotate_connect-retries p uri offline below several few small at alive =
    elim (Bool-cases (ltb p.connection_attempt p.connection_max_retries)) [
      | inl fresh ↦
          let less : p.connection_attempt < p.connection_max_retries = ltb→lt _ _ fresh in
          let (here, at_here, (p', run, made)) = select-in_range p below in
          (
            p',
            rotate_connect-eq p uri offline below at
                ∙ ap select (choose-fresh uri p alive less)
                ∙ run,
            made.same_connections,
            inl (
              less,
              made.same_index,
              Attempted-eq p' (some-injective here uri (sym at_here ∙ at)) (omega arith)
                  made.counted,
            ),
          )
      | inr worn ↦
          let most : p.connection_max_retries ≤ p.connection_attempt = ground (arith, worn) in
          let (next, at_next, (p', run, made)) =
            select-in_range (moved_on p) (following-below p below) in
          (
            p',
            rotate_connect-eq p uri offline below at
                ∙ ap select (choose-worn uri p alive most below several few)
                ∙ run,
            made.same_connections,
            inr (
              most,
              made.same_index,
              (
                next,
                ap (get_elem? p.connections) made.same_index ∙ at_next,
                Attempted-eq p' refl (omega arith) made.counted,
              ),
            ),
          )
    ]
