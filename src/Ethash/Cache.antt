-- ===== src/Ethash/Cache.antt =====
-- `compute_cache_nodes` returns for every size it accepts, with a cache of nodes.
use fpga_ethash.Ethash.Nodes.{NodesBelow, set-NodesBelow, rehash, hash_node-total}
use fpga_ethash.Ethash.{
  node_bytes, hash_node, fill_nodes, xor_words, cache_step, cache_round, cache_rounds,
  compute_cache_nodes,
}
use native.Mathlib.Nat.{mod-lt}
use fpga_ethash.Base.{
  ℕ, zero, suc, ◌+◌, ◌-◌, ◌/◌, ◌%◌, ◌^◌, ◌≤◌, ◌<◌, ◌≡◌, refl, ◌∙◌, ◌≢◌, none, some, true, false,
  bind_eq, else_eq, not, ◌||◌, ◌==◌, arith, List, length, length-set, take, set, get_or, get_elem?,
  All, All-take, IsU8, u32, lt→ltb,
}

-- A result that keeps the number of entries and has nodes below `n`.
abbrev pub Cached : ℕ → List (List ℕ) → List (List ℕ) → Type 0
Cached n before after = (length after ≡ length before) × NodesBelow n after

fill_step :
    (n i : ℕ) (nodes : List (List ℕ)) (before next : List ℕ)
    → get_elem? nodes (i - 1) ≡ some before
    → hash_node (node_bytes before) ≡ some next
    → i < length nodes
    → fill_nodes (suc n) i nodes ≡ fill_nodes n (i + 1) (set nodes i next)
unfolding fill_nodes
fill_step n i nodes before next at hashed room =
    bind_eq _ at ∙ bind_eq _ hashed ∙ rw (lt→ltb i (length nodes) room) refl

fill_nodes-total :
    (n i : ℕ) (nodes : List (List ℕ))
    → 0 < i
    → i + n ≤ length nodes
    → NodesBelow i nodes
    → (filled : List (List ℕ)) × (fill_nodes n i nodes ≡ some filled) × Cached (i + n) nodes filled
unfolding fill_nodes
fill_nodes-total zero i nodes pos room nodes_below =
    (nodes, refl, (refl, λ k below. nodes_below k (omega arith)))
fill_nodes-total (suc n) i nodes pos room nodes_below =
    let (before, at, _) = nodes_below (i - 1) (omega arith) in
    let (next, hashed, shape) = rehash before in
    let (filled, run, (size, all)) =
      fill_nodes-total n (i + 1) (set nodes i next) (omega arith)
        (omega (arith, length-set nodes i next))
        (set-NodesBelow (i + 1) i nodes next shape (omega arith)
          (λ k ne below. nodes_below k (omega arith))) in
    (
      filled,
      fill_step n i nodes before next at hashed (omega arith) ∙ run,
      (size ∙ length-set nodes i next, λ k below. all k (omega arith)),
    )

cache_step-total :
    (num_nodes i : ℕ) (nodes : List (List ℕ))
    → i < num_nodes
    → num_nodes ≤ length nodes
    → NodesBelow num_nodes nodes
    → (after : List (List ℕ)) × (cache_step num_nodes i nodes ≡ some after)
      × Cached num_nodes nodes after
unfolding cache_step
cache_step-total num_nodes i nodes below room nodes_below =
    let (node, at, _) = nodes_below i below in
    let (data_node, at_data, _) =
      nodes_below (u32 (num_nodes + 2 ^ 32 - 1 + i) % num_nodes)
        (mod-lt (u32 (num_nodes + 2 ^ 32 - 1 + i)) (omega arith)) in
    let (other, at_other, _) =
      nodes_below (get_or node 0 0 % num_nodes) (mod-lt (get_or node 0 0) (omega arith)) in
    let (next, hashed, shape) = rehash (xor_words data_node other) in
    (
      set nodes i next,
      bind_eq _ at ∙ bind_eq _ at_data ∙ bind_eq _ at_other ∙ bind_eq _ hashed,
      (
        length-set nodes i next,
        set-NodesBelow num_nodes i nodes next shape (omega arith) (λ k ne lt. nodes_below k lt),
      ),
    )

cache_round-total :
    (num_nodes n i : ℕ) (nodes : List (List ℕ))
    → i + n ≤ num_nodes
    → num_nodes ≤ length nodes
    → NodesBelow num_nodes nodes
    → (after : List (List ℕ)) × (cache_round num_nodes n i nodes ≡ some after)
      × Cached num_nodes nodes after
unfolding cache_round
cache_round-total num_nodes zero i nodes bound room nodes_below = (nodes, refl, (refl, nodes_below))
cache_round-total num_nodes (suc n) i nodes bound room nodes_below =
    let (next, step, (size, all)) =
      cache_step-total num_nodes i nodes (omega arith) room nodes_below in
    let (after, run, (size', all')) =
      cache_round-total num_nodes n (i + 1) next (omega arith) (omega arith) all in
    (after, bind_eq _ step ∙ run, (size' ∙ size, all'))

cache_rounds-total :
    (rounds num_nodes : ℕ) (nodes : List (List ℕ))
    → num_nodes ≤ length nodes
    → NodesBelow num_nodes nodes
    → (after : List (List ℕ)) × (cache_rounds rounds num_nodes nodes ≡ some after)
      × Cached num_nodes nodes after
unfolding cache_rounds
cache_rounds-total zero num_nodes nodes room nodes_below = (nodes, refl, (refl, nodes_below))
cache_rounds-total (suc rounds) num_nodes nodes room nodes_below =
    let (next, step, (size, all)) =
      cache_round-total num_nodes num_nodes 0 nodes (omega arith) room nodes_below in
    let (after, run, (size', all')) = cache_rounds-total rounds num_nodes next (omega arith) all in
    (after, bind_eq _ step ∙ run, (size' ∙ size, all'))

-- The three parts of the body, for a size that is accepted.
compute_cache_nodes-eq :
    (nodes filled mixed : List (List ℕ)) (first : List ℕ) (cache_size : ℕ) (seed : List ℕ)
    → cache_size % 64 ≡ 0
    → u32 (cache_size / 64) ≢ 0
    → length nodes ≢ 0
    → hash_node (take 32 seed) ≡ some first
    → fill_nodes (u32 (cache_size / 64) - 1) 1 (set nodes 0 first) ≡ some filled
    → cache_rounds 3 (u32 (cache_size / 64)) filled ≡ some mixed
    → compute_cache_nodes nodes cache_size seed ≡ some (true, mixed)
unfolding compute_cache_nodes
compute_cache_nodes-eq nodes filled mixed first cache_size seed whole some_node room hashed fill
      mix =
    else_eq (not (cache_size % 64 == 0)) (some (false, nodes)) (ground (arith, whole))
    ∙ else_eq (u32 (cache_size / 64) == 0 || length nodes == 0) none
        (ground (arith, some_node, room))
    ∙ bind_eq _ hashed
    ∙ bind_eq _ fill
    ∙ bind_eq _ mix

pub compute_cache_nodes-total :
    (nodes : List (List ℕ)) (cache_size : ℕ) (seed : List ℕ)
    → cache_size % 64 ≡ 0
    → 0 < cache_size
    → cache_size < 2 ^ 38
    → length nodes ≡ cache_size / 64
    → All IsU8 seed
    → (cache : List (List ℕ)) × (compute_cache_nodes nodes cache_size seed ≡ some (true, cache))
      × (length cache ≡ cache_size / 64)
      × NodesBelow (cache_size / 64) cache
compute_cache_nodes-total nodes cache_size seed whole pos small room bytes =
    let (first, hashed, shape) = hash_node-total (take 32 seed) (All-take IsU8 32 seed bytes) in
    let (filled, fill, (size, all)) =
      fill_nodes-total (u32 (cache_size / 64) - 1) 1 (set nodes 0 first) (omega arith)
        (omega (arith, length-set nodes 0 first))
        (set-NodesBelow 1 0 nodes first shape (omega arith)
          (λ k ne below. absurd (ground (arith, ne, below)))) in
    let (cache, mix, (size', all')) =
      cache_rounds-total 3 (u32 (cache_size / 64)) filled (omega (arith, length-set nodes 0 first))
        (λ k below. all k (omega arith)) in
    (
      cache,
      compute_cache_nodes-eq nodes filled cache first cache_size seed whole (omega arith)
          (omega arith) hashed fill mix,
      omega (arith, size', size, length-set nodes 0 first),
      λ k below. all' k (omega arith),
    )
