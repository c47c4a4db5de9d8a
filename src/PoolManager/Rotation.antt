-- ===== src/PoolManager/Rotation.antt =====
-- `rotateConnect`: which connection it ends with.
use fpga_ethash.FixedHash.{equal}
use fpga_ethash.Farm.Lifecycle.{stop_idle}
use fpga_ethash.PoolManager.Erase.{length-erase}
use fpga_ethash.PoolManager.{
  Uri, Manager, exit_host, emit, is_connected, erase, count_switch, wrap_index, connection_at,
  choose, try_connection, give_up, select, rotate_connect,
}
use fpga_ethash.Base.{
  get_elem?-inside, ℕ, zero, suc, ◌+◌, ◌≤◌, ◌<◌, ◌≡◌, ◌⊎◌, inl, inr, refl, ap, ◌∙◌, List, false,
  Bool-cases, some, ok, length, get_elem?, ltb, leb, ◌==◌, ◌&&◌, if◌then◌else◌, if_either, u32,
  arith,
}

-- The index stands inside the connections, or there are none left.
abbrev InRange : Manager → Type 0
InRange p = (p.active_connection_idx < length p.connections) ⊎ (length p.connections ≡ 0)

wrap_index-InRange : (p : Manager) → InRange (wrap_index p)
unfolding wrap_index
wrap_index-InRange p =
    if_either InRange (leb (length p.connections) p.active_connection_idx)
      (λ outside. first (length p.connections)) (λ inside. inl (ground (arith, inside)))
  where
    first : (n : ℕ) → (0 < n) ⊎ (n ≡ 0)
    first zero = inr refl
    first (suc n) = inl (omega arith)

wrap_index-connections : (p : Manager) → (wrap_index p).connections ≡ p.connections
unfolding wrap_index
wrap_index-connections p =
    if_either (λ (q : Manager). q.connections ≡ p.connections)
      (leb (length p.connections) p.active_connection_idx) (λ _. refl) (λ _. refl)

-- What `choose` keeps: the index in range, the farm running or not, and all connections but one.
pub record Chosen (p q : Manager) : Type 0 where
  pub in_range : InRange q
  pub kept : length p.connections ≤ suc (length q.connections)
  pub few : length q.connections ≤ length p.connections

choose-Chosen :
    (uri : Uri) (p : Manager)
    → p.active_connection_idx < length p.connections
    → Chosen p (choose uri p)
unfolding choose count_switch
choose-Chosen uri p below =
    if_either (Chosen p) uri.unrecoverable
      (λ dead.
        wrapped
          (record p {
            connections = erase p.active_connection_idx p.connections;
            connection_attempt = 0;
          })
          (omega (arith, erased)) (omega (arith, erased)))
      λ alive.
        if_either (Chosen p) (leb p.connection_max_retries p.connection_attempt)
          (λ worn.
            if_either (Chosen p) (length p.connections == 1)
              (λ single. record {
                in_range = inr (ground (arith, erased, single));
                kept = omega (arith, erased);
                few = omega (arith, erased);
              })
              (λ several.
                wrapped
                  (record p {
                    connection_attempt = 0;
                    active_connection_idx = u32 (p.active_connection_idx + 1);
                  })
                  (omega arith) (omega arith)))
          (λ fresh. record { in_range = inl below; kept = omega arith; few = omega arith })
  where
    erased : suc (length (erase p.active_connection_idx p.connections)) ≡ length p.connections
    erased = length-erase p.active_connection_idx p.connections below

    wrapped :
        (q : Manager)
        → length p.connections ≤ suc (length q.connections)
        → length q.connections ≤ length p.connections
        → Chosen p (count_switch (wrap_index q))
    wrapped q kept few =
        let same = ap (λ (us : List Uri). length us) (wrap_index-connections q) in
        record {
          in_range = wrap_index-InRange q;
          kept = omega (arith, same, kept);
          few = omega (arith, same, few);
        }

-- A connection is being tried: the client is a new one for the connection at the index, not connected
-- yet.
pub record Trying (p : Manager) : Type 0 where
  pub uri : Uri
  pub active : get_elem? p.connections p.active_connection_idx ≡ some uri
  pub not_exit : equal uri.host exit_host ≡ false
  pub new_client :
      p.client ≡ some (record { family = uri.family; connection = some uri; connected = false })

-- The connections have run out, or the one at the index is "exit": the manager has stopped, and the
-- farm with it.
pub record GaveUp (p : Manager) : Type 0 where
  pub stopped : p.running ≡ false
  pub idle : p.farm.is_mining ≡ false

pub give_up-GaveUp : (p : Manager) → GaveUp (give_up p)
unfolding give_up emit
give_up-GaveUp p = record { stopped = refl; idle = stop_idle p.farm }

pub connection_at-ok :
    (i : ℕ) (p : Manager) (uri : Uri)
    → get_elem? p.connections i ≡ some uri
    → connection_at i p ≡ ok uri
unfolding connection_at
connection_at-ok i p uri at = rw (at, connection_at) refl

pub try_connection-Trying :
    (uri : Uri) (p : Manager)
    → get_elem? p.connections p.active_connection_idx ≡ some uri
    → equal uri.host exit_host ≡ false
    → Trying (try_connection uri p)
unfolding try_connection emit
try_connection-Trying uri p at plain =
    if_either Trying (ltb 1 (u32 (p.connection_attempt + 1)) && ltb 0 p.delay_before_retry)
      (λ later. record { uri = uri; active = at; not_exit = plain; new_client = refl })
      (λ now. record { uri = uri; active = at; not_exit = plain; new_client = refl })

pub give_up-connections : (p : Manager) → (give_up p).connections ≡ p.connections
unfolding give_up emit
give_up-connections p = refl

pub give_up-index : (p : Manager) → (give_up p).active_connection_idx ≡ p.active_connection_idx
unfolding give_up emit
give_up-index p = refl

pub try_connection-keeps :
    (uri : Uri) (p : Manager)
    → ((try_connection uri p).connections ≡ p.connections)
      × ((try_connection uri p).active_connection_idx ≡ p.active_connection_idx)
      × ((try_connection uri p).connection_attempt ≡ u32 (p.connection_attempt + 1))
unfolding try_connection emit
try_connection-keeps uri p =
    if_either
      (λ (q : Manager).
        (q.connections ≡ p.connections)
        × (q.active_connection_idx ≡ p.active_connection_idx)
        × (q.connection_attempt ≡ u32 (p.connection_attempt + 1)))
      (ltb 1 (u32 (p.connection_attempt + 1)) && ltb 0 p.delay_before_retry)
      (λ _. (refl, refl, refl)) (λ _. (refl, refl, refl))

select-outcome :
    (p : Manager)
    → InRange p
    → (p' : Manager) × (select p ≡ ok p')
      × (p'.connections ≡ p.connections)
      × (Trying p' ⊎ GaveUp p')
unfolding select
select-outcome p (inr none_left) =
    (give_up p, rw none_left refl, give_up-connections p, inr (give_up-GaveUp p))
select-outcome p (inl below) =
    let (uri, at) = get_elem?-inside p.connections p.active_connection_idx below in
    let found : select p
        ≡ ok (if equal uri.host exit_host then give_up p else try_connection uri p) =
      rw ((some_left below), connection_at-ok p.active_connection_idx p uri at) refl in
    elim (Bool-cases (equal uri.host exit_host)) [
      | inl exits ↦
          (give_up p, found ∙ rw exits refl, give_up-connections p, inr (give_up-GaveUp p))
      | inr plain ↦ (
        try_connection uri p,
        found ∙ rw plain refl,
        (try_connection-keeps uri p).0,
        inl (try_connection-Trying uri p at plain),
      )
    ]
  where
    some_left : p.active_connection_idx < length p.connections → (length p.connections == 0) ≡ false
    some_left h = ground arith

-- With a connection configured and none established, `rotateConnect` never throws: it ends with a new client for the connection that the index points at, which is not
-- "exit", or the manager and the farm have stopped. At most one connection has been dropped.
pub rotate_connect-outcome :
    (p : Manager)
    → is_connected p ≡ false
    → 0 < length p.connections
    → (p' : Manager) × (rotate_connect p ≡ ok p')
      × (Trying p' ⊎ GaveUp p')
      × (length p.connections ≤ suc (length p'.connections))
      × (length p'.connections ≤ length p.connections)
unfolding rotate_connect
rotate_connect-outcome p offline some_left =
    let q = wrap_index p in
    let same : length q.connections ≡ length p.connections =
      ap (λ (us : List Uri). length us) (wrap_index-connections p) in
    let below : q.active_connection_idx < length q.connections =
      ground (arith, wrap_index-InRange p, same) in
    let (uri, at) = get_elem?-inside q.connections q.active_connection_idx below in
    let chosen = choose-Chosen uri q below in
    let (p', run, kept, outcome) = select-outcome (choose uri q) chosen.in_range in
    let same' : length p'.connections ≡ length (choose uri q).connections =
      ap (λ (us : List Uri). length us) kept in
    (
      p',
      rw (offline, connection_at-ok q.active_connection_idx q uri at) run,
      outcome,
      omega (arith, chosen.kept, same, same'),
      omega (arith, chosen.few, same, same'),
    )
