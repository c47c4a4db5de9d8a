-- ===== src/Ethash/Dag.antt =====
-- `compute_dag_item` returns a node for every index, given a light cache of nodes.
use fpga_ethash.Ethash.Nodes.{IsNode, NodesBelow, rehash, fnv_words-IsNode}
use fpga_ethash.Ethash.{Light, fnv_hash, fnv_words, mix_parents, compute_dag_item}
use native.Mathlib.Nat.{mod-lt}
use fpga_ethash.Base.{
  ℕ, zero, suc, ◌+◌, ◌/◌, ◌%◌, ◌^◌, ◌<◌, ◌≡◌, refl, ◌∙◌, none, some, false, bind_eq, else_eq, ◌==◌,
  arith, List, set, get_or, get_elem?, u32, bit_xor,
}

-- A light cache whose nodes are all there, at least one and fewer than 2^32.
pub record IsLight (light : Light) : Type 0 where
  pub some_node : 0 < light.cache_size / 64
  pub small : light.cache_size < 2 ^ 38
  pub nodes : NodesBelow (light.cache_size / 64) light.cache

-- The node at an index taken modulo the number of nodes.
parent :
    (light : Light) (index : ℕ)
    → IsLight light
    → (node : List ℕ) × (get_elem? light.cache (index % u32 (light.cache_size / 64)) ≡ some node)
      × IsNode node
parent light index lit =
    let fits : u32 (light.cache_size / 64) ≡ light.cache_size / 64 = omega (arith, lit.small) in
    lit.nodes (index % u32 (light.cache_size / 64)) (rw fits (mod-lt index lit.some_node))

mix_parents-total :
    (light : Light) (node_index n i : ℕ) (ret : List ℕ)
    → IsLight light
    → IsNode ret
    → (mixed : List ℕ) × (mix_parents light node_index n i ret ≡ some mixed) × IsNode mixed
unfolding mix_parents
mix_parents-total light node_index zero i ret lit shape = (ret, refl, shape)
mix_parents-total light node_index (suc n) i ret lit shape =
    let (node, at, node_shape) =
      parent light (fnv_hash (bit_xor node_index i) (get_or ret (i % 16) 0)) lit in
    let (mixed, run, mixed_shape) =
      mix_parents-total light node_index n (i + 1) (fnv_words ret node) lit
        (fnv_words-IsNode ret node shape node_shape) in
    (mixed, bind_eq _ at ∙ run, mixed_shape)

-- With a light cache of nodes, every index of the dataset has an item, a node of 16 words of 32
-- bits: the two hashes and the 256 parents stay inside the cache.
pub compute_dag_item-total :
    (node_index : ℕ) (light : Light)
    → IsLight light
    → (item : List ℕ) × (compute_dag_item node_index light ≡ some item) × IsNode item
unfolding compute_dag_item
compute_dag_item-total node_index light lit =
    let (init, at, _) = parent light node_index lit in
    let (start, hashed, start_shape) = rehash (set init 0 (bit_xor (get_or init 0 0) node_index)) in
    let (mixed, run, _) = mix_parents-total light node_index 256 0 start lit start_shape in
    let (item, rehashed, shape) = rehash mixed in
    (
      item,
      else_eq (u32 (light.cache_size / 64) == 0) none some_node
          ∙ bind_eq _ at
          ∙ bind_eq _ hashed
          ∙ bind_eq _ run
          ∙ rehashed,
      shape,
    )
  where
    some_node : (u32 (light.cache_size / 64) == 0) ≡ false
    some_node = ground (arith, lit.some_node, lit.small)
