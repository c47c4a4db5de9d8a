-- ===== src/PoolManager/Erase.antt =====
-- `removeConnection`: the active connection stays the active one.
use fpga_ethash.PoolManager.{
  Uri, Manager, outstanding_operations, index_out_of_bounds, cannot_remove_active, erase,
  remove_connection, get_active_connection,
}
use fpga_ethash.Base.{
  false, ℕ, zero, suc, ◌-◌, ◌≤◌, ◌<◌, ◌≡◌, ◌≢◌, ◌⊎◌, inl, inr, refl, ap, ◌∙◌, List, [], ◌∷◌, true,
  Bool-cases, ok, err, length, length-append, length-take, length-drop, get_elem?, take, drop, ltb,
  leb, ◌==◌, if◌then◌else◌, if_either, arith, leb→le, ==_iff,
}

pub length-erase :
    (i : ℕ) (uris : List Uri) → i < length uris → suc (length (erase i uris)) ≡ length uris
unfolding erase
length-erase i uris below = omega (
  arith,
  length-append (take i uris) (drop (suc i) uris),
  length-take i uris,
  length-drop (suc i) uris,
)

get_elem?-erase_below :
    (i j : ℕ) (uris : List Uri) → j < i → get_elem? (erase i uris) j ≡ get_elem? uris j
unfolding erase
get_elem?-erase_below zero j uris below = absurd (omega arith)
get_elem?-erase_below (suc i) j [] below = refl
get_elem?-erase_below (suc i) zero (x ∷ uris) below = refl
get_elem?-erase_below (suc i) (suc j) (x ∷ uris) below =
    get_elem?-erase_below i j uris (omega arith)

get_elem?-erase_above :
    (i j : ℕ) (uris : List Uri) → i ≤ j → get_elem? (erase i uris) j ≡ get_elem? uris (suc j)
unfolding erase
get_elem?-erase_above zero j [] le = refl
get_elem?-erase_above zero j (x ∷ uris) le = refl
get_elem?-erase_above (suc i) j [] le = refl
get_elem?-erase_above (suc i) zero (x ∷ uris) le = absurd (omega arith)
get_elem?-erase_above (suc i) (suc j) (x ∷ uris) le = get_elem?-erase_above i j uris (omega arith)

-- The index of the active connection after connection `idx` is gone.
abbrev moved : (idx active : ℕ) → ℕ
moved idx active = if ltb idx active then active - 1 else active

get_elem?-moved :
    (idx active : ℕ) (uris : List Uri)
    → idx ≢ active
    → get_elem? (erase idx uris) (moved idx active) ≡ get_elem? uris active
get_elem?-moved idx zero uris apart =
    if_either (λ k. get_elem? (erase idx uris) k ≡ get_elem? uris 0) (ltb idx 0)
      (λ before. absurd (ground (arith, before)))
      (λ after. get_elem?-erase_below idx 0 uris (ground (arith, apart)))
get_elem?-moved idx (suc active) uris apart =
    if_either (λ k. get_elem? (erase idx uris) k ≡ get_elem? uris (suc active))
      (ltb idx (suc active))
      (λ before.
        ap (get_elem? (erase idx uris)) {x = suc active - 1} {y = active} (omega arith)
        ∙ get_elem?-erase_above idx active uris (ground (arith, before)))
      (λ after. get_elem?-erase_below idx (suc active) uris (ground (arith, after, apart)))

-- The list `after` is `uris` without element `i`, in the same order.
pub record Without (i : ℕ) (uris after : List Uri) : Type 0 where
  pub shorter : suc (length after) ≡ length uris
  pub before : (j : ℕ) → j < i → get_elem? after j ≡ get_elem? uris j
  pub behind : (j : ℕ) → i ≤ j → get_elem? after j ≡ get_elem? uris (suc j)

erase-Without : (i : ℕ) (uris : List Uri) → i < length uris → Without i uris (erase i uris)
erase-Without i uris below = record {
  shorter = length-erase i uris below;
  before = λ j. get_elem?-erase_below i j uris;
  behind = λ j. get_elem?-erase_above i j uris;
}

abbrev removed : ℕ → Manager → Manager
removed idx p = record p {
  connections = erase idx p.connections;
  active_connection_idx = moved idx p.active_connection_idx;
}

-- Removing a connection throws if operations are outstanding, else if there is no such connection,
-- else if it is the active one. Otherwise that connection goes: those before it stay where they are
-- and those behind it move up by one, and the active connection, by whatever index it now has, is the
-- one that was active.
pub remove_connection-active :
    (idx : ℕ) (p : Manager)
    → ((p.async_pending ≡ true) × (remove_connection idx p ≡ err outstanding_operations))
      ⊎ (((p.async_pending ≡ false)
            × (length p.connections ≤ idx)
            × (remove_connection idx p ≡ err index_out_of_bounds))
          ⊎ (((p.async_pending ≡ false)
                × (idx < length p.connections)
                × (idx ≡ p.active_connection_idx)
                × (remove_connection idx p ≡ err cannot_remove_active))
              ⊎ ((p.async_pending ≡ false)
                  × (idx < length p.connections)
                  × (idx ≢ p.active_connection_idx)
                  × ((p' : Manager) × (remove_connection idx p ≡ ok p')
                      × Without idx p.connections p'.connections
                      × (get_active_connection p' ≡ get_active_connection p)))))
unfolding remove_connection get_active_connection
remove_connection-active idx p = elim (Bool-cases p.async_pending) [
  | inl pending ↦ inl (pending, rw pending refl)
  | inr free ↦ elim (Bool-cases (leb (length p.connections) idx)) [
    | inl outside ↦ inr (inl (free, leb→le _ _ outside, rw (free, outside) refl))
    | inr inside ↦
        let below : idx < length p.connections = ground (arith, inside) in
        elim (Bool-cases (idx == p.active_connection_idx)) [
          | inl active ↦
              let same : idx ≡ p.active_connection_idx = (==_iff _ _).0 active in
              inr (inr (inl (free, below, same, rw (free, inside, active) refl)))
          | inr other ↦
              let apart : idx ≢ p.active_connection_idx = λ e. ground (arith, e, other) in
              inr (
                inr (
                  inr (
                    free,
                    below,
                    apart,
                    (
                      removed idx p,
                      rw (free, inside, other) refl,
                      erase-Without idx p.connections below,
                      get_elem?-moved idx p.active_connection_idx p.connections apart,
                    ),
                  )))
        ]
  ]
]
