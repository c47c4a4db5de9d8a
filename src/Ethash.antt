-- ===== src/Ethash.antt =====
-- libethash-fpga/fpga_ethash.cpp: the sizes, the seed, the cache, the dataset and the search. A
-- `hash_node` is its 16 words of 32 bits; its bytes are theirs, the lowest first. `none` stands for
-- an access outside an array or a division by zero, which are undefined.
pub mod Sizes
pub mod Seed
pub mod Nodes
pub mod Cache
pub mod Dag
pub mod Search
use fpga_ethash.Keccak.{kec_hash_buffer}
use mathlib.Core.Option.{bind}
use fpga_ethash.Base.{
  ℕ, zero, suc, ◌+◌, ◌-◌, ◌*◌, ◌/◌, ◌%◌, ◌^◌, bit_xor, List, [], ◌∷◌, ◌++◌, Option, none, some,
  Bool, true, false, ◌==◌, not, ◌||◌, if◌then◌else◌, ltb, length, take, drop, replicate, get_or,
  get_elem?, set, for_each, indices, u8, u32, u64, shr,
}

-- `#define FNV_PRIME 0x01000193`.
pub fnv_hash : ℕ → ℕ → ℕ
fnv_hash x y = bit_xor (u32 (x * 0x01000193)) y

pub e_epoch : ℕ → ℕ
e_epoch block_number = block_number / 30000

-- The recursion of `E_prime`, on fuel; `none` when the fuel is used up, or if `y` is zero.
pub e_prime : ℕ → ℕ → ℕ → Option ℕ
e_prime zero x y = none
e_prime (suc fuel) x y =
    let rest = e_prime fuel (u64 (x + 2 ^ 64 - u64 (2 * y))) y in
    if y == 0 then none else if x % y == 0 then some x else rest

pub get_d_size : ℕ → ℕ → Option ℕ
unfolding e_epoch
get_d_size fuel block_number =
    e_prime fuel (u64 (u64 (1073741824 + u64 (8388608 * e_epoch block_number)) + 2 ^ 64 - 128)) 128

pub get_c_size : ℕ → ℕ → Option ℕ
unfolding e_epoch
get_c_size fuel block_number =
    e_prime fuel (u64 (u64 (16777216 + u64 (131072 * e_epoch block_number)) + 2 ^ 64 - 64)) 64

-- The recursion of `get_seedhash`, on fuel: the 32 bytes of `C_seedhash`.
pub get_seedhash : ℕ → ℕ → Option (List ℕ)
unfolding e_epoch
get_seedhash zero block_number = none
get_seedhash (suc fuel) block_number =
    let rest = get_seedhash fuel (block_number - 30000) in
    if e_epoch block_number == 0
    then some (replicate 32 0)
    else bind rest (λ seed. kec_hash_buffer 256 seed 32)

pub word_le : ℕ → List ℕ
word_le w = u8 w ∷ u8 (shr w 8) ∷ u8 (shr w 16) ∷ u8 (shr w 24) ∷ []

pub node_bytes : List ℕ → List ℕ
unfolding word_le
node_bytes [] = []
node_bytes (w ∷ ws) = word_le w ++ node_bytes ws

-- `n` words read from bytes.
pub bytes_words : ℕ → List ℕ → List ℕ
bytes_words zero b = []
bytes_words (suc n) b =
    (get_or b 0 0 + get_or b 1 0 * 2 ^ 8 + get_or b 2 0 * 2 ^ 16 + get_or b 3 0 * 2 ^ 24)
    ∷ bytes_words n (drop 4 b)

-- `kec_HashBuffer(512, in, .., node.bytes, 64)`.
pub hash_node : List ℕ → Option (List ℕ)
unfolding bytes_words
hash_node b = bind (kec_hash_buffer 512 b 64) (λ out. some (bytes_words 16 out))

-- `nodes[i] = nodes[i-1]` hashed, `n` nodes from `i` on.
pub fill_nodes : ℕ → ℕ → List (List ℕ) → Option (List (List ℕ))
unfolding hash_node node_bytes
fill_nodes zero i nodes = some nodes
fill_nodes (suc n) i nodes = bind (get_elem? nodes (i - 1)) λ before.
    bind (hash_node (node_bytes before))
      λ next. if ltb i (length nodes) then fill_nodes n (i + 1) (set nodes i next) else none

-- `a.words[w] ^= b.words[w]` for the 16 words.
pub xor_words : List ℕ → List ℕ → List ℕ
xor_words a b = for_each (indices 16 0) (λ w d. set d w (bit_xor (get_or d w 0) (get_or b w 0))) a

-- One step of a cache round, at node `i`.
pub cache_step : ℕ → ℕ → List (List ℕ) → Option (List (List ℕ))
unfolding hash_node node_bytes xor_words
cache_step num_nodes i nodes = bind (get_elem? nodes i) λ node.
    bind (get_elem? nodes ((u32 (num_nodes + 2 ^ 32 - 1 + i)) % num_nodes)) λ data_node.
      bind (get_elem? nodes (get_or node 0 0 % num_nodes)) λ other.
        bind (hash_node (node_bytes (xor_words data_node other))) λ next. some (set nodes i next)

-- `n` steps from `i` on.
pub cache_round : ℕ → ℕ → ℕ → List (List ℕ) → Option (List (List ℕ))
unfolding cache_step
cache_round num_nodes zero i nodes = some nodes
cache_round num_nodes (suc n) i nodes =
    bind (cache_step num_nodes i nodes) (cache_round num_nodes n (i + 1))

pub cache_rounds : ℕ → ℕ → List (List ℕ) → Option (List (List ℕ))
unfolding cache_round
cache_rounds zero num_nodes nodes = some nodes
cache_rounds (suc rounds) num_nodes nodes =
    bind (cache_round num_nodes num_nodes 0 nodes) (cache_rounds rounds num_nodes)

-- The value returned and the nodes.
pub compute_cache_nodes : List (List ℕ) → ℕ → List ℕ → Option (Bool × List (List ℕ))
unfolding hash_node fill_nodes cache_rounds
compute_cache_nodes nodes cache_size seed =
    let num_nodes = u32 (cache_size / 64) in
    if not (cache_size % 64 == 0)
    then some (false, nodes)
    else if num_nodes == 0 || length nodes == 0
    then none
    else bind (hash_node (take 32 seed)) λ first.
      bind (fill_nodes (num_nodes - 1) 1 (set nodes 0 first))
        λ filled. bind (cache_rounds 3 num_nodes filled) λ mixed. some (true, mixed)

-- `struct light`.
pub record Light : Type 0 where
  pub cache : List (List ℕ)
  pub cache_size : ℕ
  pub block_number : ℕ

-- `a.words[w] = fnv_hash(a.words[w], b.words[w])` for the `n` words from `at` on.
pub fnv_words : List ℕ → List ℕ → List ℕ
unfolding fnv_hash
fnv_words a b = for_each (indices 16 0) (λ w d. set d w (fnv_hash (get_or d w 0) (get_or b w 0))) a

-- The loop over the parents: `n` are left, the next is number `i`.
pub mix_parents : Light → ℕ → ℕ → ℕ → List ℕ → Option (List ℕ)
unfolding fnv_hash fnv_words
mix_parents light node_index zero i ret = some ret
mix_parents light node_index (suc n) i ret =
    let num_parent_nodes = u32 (light.cache_size / 64) in
    bind
      (get_elem? light.cache
        (fnv_hash (bit_xor node_index i) (get_or ret (i % 16) 0) % num_parent_nodes))
      λ parent. mix_parents light node_index n (i + 1) (fnv_words ret parent)

pub compute_dag_item : ℕ → Light → Option (List ℕ)
unfolding hash_node node_bytes mix_parents
compute_dag_item node_index light =
    let num_parent_nodes = u32 (light.cache_size / 64) in
    if num_parent_nodes == 0
    then none
    else bind (get_elem? light.cache (node_index % num_parent_nodes)) λ init.
      bind (hash_node (node_bytes (set init 0 (bit_xor (get_or init 0 0) node_index)))) λ start.
        bind (mix_parents light node_index 256 0 start) λ mixed. hash_node (node_bytes mixed)
