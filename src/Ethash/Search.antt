-- ===== src/Ethash/Search.antt =====
-- `compute_full_dag` and `krnl_ethash_func` of libethash-fpga/fpga_ethash.cpp. `ret` and the memory of
-- the dataset are the values the caller's pointers stand for.
pub mod Mixing
pub mod Total
pub mod Modes
use fpga_ethash.Keccak.{kec_hash_buffer}
use fpga_ethash.Ethash.{
  Light, compute_dag_item, fnv_hash, fnv_words, hash_node, node_bytes, bytes_words,
}
use mathlib.Core.Option.{bind}
use fpga_ethash.Base.{
  ℕ, zero, suc, ◌+◌, ◌-◌, ◌*◌, ◌/◌, ◌%◌, ◌^◌, bit_xor, List, [], ◌∷◌, ◌++◌, Option, none, some,
  Bool, true, false, ◌==◌, not, ◌||◌, if◌then◌else◌, ltb, length, take, drop, replicate, get_or,
  get_elem?, set, for_each, indices, u32,
}

-- The callback, null or a function: it is called with a percentage that the code adds up in
-- `double`, which is here a function of the number of nodes done.
pub record Progress : Type 0 where
  pub callback : ℕ → ℕ
  pub percent : ℕ → ℕ

-- Whether node `n` is computed: `none` where `max_n / 100` is zero and the remainder by it is taken.
pub go_on : Option Progress → ℕ → ℕ → Option Bool
go_on none max_n n = some true
go_on (some p) max_n n =
    let every = max_n / 100 in
    if every == 0 then none else some (not (n % every == 0) || (p.callback (p.percent n) == 0))

-- The loop over the nodes from `n` on, `left` of them; the Boolean is the value returned.
pub dag_loop : Option Progress → Light → ℕ → ℕ → ℕ → List (List ℕ) → Option (Bool × List (List ℕ))
unfolding go_on compute_dag_item
dag_loop progress light max_n zero n full_nodes = some (true, full_nodes)
dag_loop progress light max_n (suc left) n full_nodes = bind (go_on progress max_n n) λ goes_on.
    if not goes_on
    then some (false, full_nodes)
    else bind (compute_dag_item n light) λ item.
      if ltb n (length full_nodes)
      then dag_loop progress light max_n left (n + 1) (set full_nodes n item)
      else none

pub compute_full_dag : List (List ℕ) → ℕ → Light → Option Progress → Option (Bool × List (List ℕ))
unfolding dag_loop
compute_full_dag mem full_size light callback =
    let max_n = u32 (full_size / 64) in
    if not (full_size % 128 == 0) || not (full_size % 64 == 0)
    then some (false, mem)
    else dag_loop callback light max_n max_n 0 mem

-- `return_value_t`: the bytes of the two hashes.
pub record ReturnValue : Type 0 where
  pub result : List ℕ
  pub mix_hash : List ℕ

-- Where the search takes its dataset from: `full_nodes`, or where that is null the light cache. The
-- node computed from the cache is read after the block that declares it has ended; `expired` is
-- what such a read gives for the node that the block left.
pub data Dataset : Type 0 where
  full : List (List ℕ) → Dataset
  light_mode : Light → (List ℕ → List ℕ) → Dataset

pub dag_node : Dataset → ℕ → Option (List ℕ)
unfolding compute_dag_item
dag_node (full nodes) index = get_elem? nodes index
dag_node (light_mode light expired) index =
    bind (compute_dag_item index light) (λ tmp_node. some (expired tmp_node))

-- `mix[n].words[w] = fnv_hash(mix[n].words[w], dag_node->words[w])` for `left` words from `w` on. The
-- two nodes of the mix are 32 words; a read outside them or outside the node is undefined.
pub mix_words : ℕ → ℕ → ℕ → List ℕ → List ℕ → Option (List ℕ)
unfolding fnv_hash
mix_words zero w n node mix = some mix
mix_words (suc left) w n node mix = bind (get_elem? mix (16 * n + w)) λ mixed.
    bind (get_elem? node w)
      λ read. mix_words left (w + 1) n node (set mix (16 * n + w) (fnv_hash mixed read))

-- The loop over the 16 words of a node.
pub mix_node : ℕ → List ℕ → List ℕ → Option (List ℕ)
unfolding mix_words
mix_node n node mix = mix_words 16 0 n node mix

-- The inner loop over the `MIX_NODES = 2` nodes of page `index`.
pub mix_page : Dataset → ℕ → List ℕ → Option (List ℕ)
unfolding dag_node mix_node
mix_page dataset index mix = bind (dag_node dataset (u32 (u32 (2 * index) + 0))) λ first.
    bind (mix_node 0 first mix)
      λ mix'. bind (dag_node dataset (u32 (u32 (2 * index) + 1))) λ second. mix_node 1 second mix'

-- The loop of the accesses: `left` of them, the next is number `i`; `seed` is `s_mix->words[0]`.
pub access_loop : Dataset → ℕ → ℕ → ℕ → ℕ → List ℕ → Option (List ℕ)
unfolding fnv_hash mix_page
access_loop dataset num_full_pages seed zero i mix = some mix
access_loop dataset num_full_pages seed (suc left) i mix =
    if num_full_pages == 0
    then none
    else bind (get_elem? mix (i % 32)) λ mixed.
      let index = fnv_hash (bit_xor seed i) mixed % num_full_pages in
      bind (mix_page dataset index mix) (access_loop dataset num_full_pages seed left (i + 1))

-- The rounds of `compress mix`, `left` of them; round `q` is at the four words from `w = 4 * q` on.
pub compress_rounds : ℕ → ℕ → List ℕ → Option (List ℕ)
unfolding fnv_hash
compress_rounds zero q mix = some mix
compress_rounds (suc left) q mix = bind (get_elem? mix (4 * q + 0)) λ m0.
    bind (get_elem? mix (4 * q + 1)) λ m1. bind (get_elem? mix (4 * q + 2)) λ m2.
      bind (get_elem? mix (4 * q + 3))
        λ m3. compress_rounds left (q + 1) (set mix q (fnv_hash (fnv_hash (fnv_hash m0 m1) m2) m3))

pub compress_mix : List ℕ → Option (List ℕ)
unfolding compress_rounds
compress_mix mix = compress_rounds 8 0 mix

-- `krnl_ethash_func`. The copy of the nonce is commented out, so bytes 32 to 39 of `s_mix[0]` are
-- what the stack held: `stack`.
pub krnl_ethash_func : ReturnValue → Dataset → ℕ → List ℕ → ℕ → List ℕ → Option ReturnValue
unfolding hash_node bytes_words node_bytes access_loop compress_mix
krnl_ethash_func ret dataset full_size header_hash nonce stack =
    let num_full_pages = u32 (full_size / 128) in
    if not (full_size % 32 == 0)
    then some ret
    else bind (hash_node (take 32 header_hash ++ take 8 stack)) λ s_mix.
      bind (access_loop dataset num_full_pages (get_or s_mix 0 0) 64 0 (s_mix ++ s_mix)) λ mix.
        bind (compress_mix mix) λ compressed.
          bind (kec_hash_buffer 256 (node_bytes s_mix ++ take 32 (node_bytes compressed)) 32)
            λ hash. some (record { result = hash; mix_hash = take 32 (node_bytes compressed) })
