-- ===== src/Ethash/Search/Total.antt =====
-- `compute_full_dag` and `krnl_ethash_func` return for every size they accept.
use fpga_ethash.Ethash.Dag.{IsLight, compute_dag_item-total}
use fpga_ethash.Ethash.Nodes.{NodesBelow, set-NodesBelow, hash_node-total, node_bytes-IsU8}
use fpga_ethash.Ethash.{Light, compute_dag_item, fnv_hash, node_bytes}
use fpga_ethash.Ethash.Search.{
  go_on, dag_loop, compute_full_dag, ReturnValue, Dataset, full, light_mode, dag_node, mix_page,
  access_loop, krnl_ethash_func,
}
use fpga_ethash.Ethash.Search.Mixing.{Mixed, mix_node-Mixed, compress_mix-Mixed}
use fpga_ethash.Keccak.Hash.{kec_hash_buffer-total}
use native.Mathlib.Nat.{mod-lt}
use fpga_ethash.Base.{
  ℕ, zero, suc, ◌+◌, ◌*◌, ◌/◌, ◌%◌, ◌^◌, ◌≤◌, ◌<◌, ◌≡◌, refl, ◌∙◌, inl, none, some, true, false,
  bind_eq, else_eq, not, ◌||◌, ◌==◌, arith, List, ◌++◌, length, length-set, length-append,
  get_elem?-inside, take, set, get_or, All, All-take, All-append, IsU8, u32, bit_xor, lt→ltb,
}

dag_step :
    (light : Light) (max_n left n : ℕ) (nodes : List (List ℕ)) (item : List ℕ)
    → compute_dag_item n light ≡ some item
    → n < length nodes
    → dag_loop none light max_n (suc left) n nodes
      ≡ dag_loop none light max_n left (n + 1) (set nodes n item)
unfolding dag_loop go_on
dag_step light max_n left n nodes item made room =
    bind_eq {a = true} _ refl ∙ bind_eq _ made ∙ rw (lt→ltb n (length nodes) room) refl

dag_loop-total :
    (light : Light) (max_n left n : ℕ) (nodes : List (List ℕ))
    → IsLight light
    → n + left ≤ length nodes
    → NodesBelow n nodes
    → (dag : List (List ℕ)) × (dag_loop none light max_n left n nodes ≡ some (true, dag))
      × NodesBelow (n + left) dag
unfolding dag_loop
dag_loop-total light max_n zero n nodes lit room all = (nodes, refl, λ k below. all k (omega arith))
dag_loop-total light max_n (suc left) n nodes lit room all =
    let (item, made, shape) = compute_dag_item-total n light lit in
    let (dag, run, dag_all) =
      dag_loop-total light max_n left (n + 1) (set nodes n item) lit
        (omega (arith, length-set nodes n item))
        (set-NodesBelow (n + 1) n nodes item shape (omega arith)
          (λ k ne below. all k (omega arith))) in
    (
      dag,
      dag_step light max_n left n nodes item made (omega arith) ∙ run,
      λ k below. dag_all k (omega arith),
    )

-- Without a callback, a dataset below 256 GiB whose size is a multiple of 128 bytes is computed to the
-- end from a light cache of nodes, in memory of that size: the result is true and every entry is a
-- node.
pub compute_full_dag-total :
    (mem : List (List ℕ)) (full_size : ℕ) (light : Light)
    → IsLight light
    → full_size % 128 ≡ 0
    → full_size < 2 ^ 38
    → full_size / 64 ≤ length mem
    → (dag : List (List ℕ)) × (compute_full_dag mem full_size light none ≡ some (true, dag))
      × NodesBelow (full_size / 64) dag
unfolding compute_full_dag
compute_full_dag-total mem full_size light lit whole small room =
    let (dag, run, all) =
      dag_loop-total light (u32 (full_size / 64)) (u32 (full_size / 64)) 0 mem lit (omega arith)
        (λ k below. absurd (omega arith)) in
    (
      dag,
      else_eq (not (full_size % 128 == 0) || not (full_size % 64 == 0)) (some (false, mem))
            (ground (arith, whole))
          ∙ run,
      λ k below. all k (omega arith),
    )

-- The dataset has the nodes below `n`, each of 16 words.
abbrev Has : ℕ → Dataset → Type 0
Has n dataset =
    (k : ℕ) → k < n → (node : List ℕ) × (dag_node dataset k ≡ some node) × (length node ≡ 16)

mix_page-Mixed :
    (dataset : Dataset) (pages index : ℕ) (mix : List ℕ)
    → pages < 2 ^ 31
    → index < pages
    → Has (2 * pages) dataset
    → length mix ≡ 32
    → Mixed (mix_page dataset index mix)
unfolding mix_page
mix_page-Mixed dataset pages index mix small inside has size =
    let (first, at_first, first_words) = has (u32 (u32 (2 * index) + 0)) (omega arith) in
    let (second, at_second, second_words) = has (u32 (u32 (2 * index) + 1)) (omega arith) in
    let (mix', run, size') = mix_node-Mixed 0 first mix (omega arith) first_words size in
    let (after, run', kept) = mix_node-Mixed 1 second mix' (omega arith) second_words size' in
    (after, bind_eq _ at_first ∙ bind_eq _ run ∙ bind_eq _ at_second ∙ run', kept)

access_loop-total :
    (dataset : Dataset) (pages seed left i : ℕ) (mix : List ℕ)
    → 0 < pages
    → pages < 2 ^ 31
    → Has (2 * pages) dataset
    → length mix ≡ 32
    → Mixed (access_loop dataset pages seed left i mix)
unfolding access_loop
access_loop-total dataset pages seed zero i mix pos small has size = (mix, refl, size)
access_loop-total dataset pages seed (suc left) i mix pos small has size =
    let (mixed, at) = get_elem?-inside mix (i % 32) (omega arith) in
    let (mix', run, size') =
      mix_page-Mixed dataset pages (fnv_hash (bit_xor seed i) mixed % pages) mix small
        (mod-lt _ pos) has size in
    let (after, run', kept) =
      access_loop-total dataset pages seed left (i + 1) mix' pos small has size' in
    (
      after,
      else_eq (pages == 0) none (ground (arith, pos)) ∙ bind_eq _ at ∙ bind_eq _ run ∙ run',
      kept,
    )

-- A dataset that the code builds has its nodes: the full one, or the light cache; what is read of a
-- node whose block has ended is still 16 words.
abbrev pub IsDataset : ℕ → Dataset → Type 0
IsDataset full_size (full nodes) = NodesBelow (full_size / 64) nodes
IsDataset full_size (light_mode light expired) =
    IsLight light × ((node : List ℕ) → length (expired node) ≡ 16)

dataset-Has :
    (full_size : ℕ) (dataset : Dataset) → IsDataset full_size dataset → Has (full_size / 64) dataset
unfolding dag_node
dataset-Has full_size (full nodes) all k below =
    let (node, at, shape) = all k below in (node, at, shape.size)
dataset-Has full_size (light_mode light expired) (lit, words) k below =
    let (item, made, _) = compute_dag_item-total k light lit in
    (expired item, bind_eq _ made, words item)

-- What the final hash is taken of.
final_bytes-IsU8 :
    (s_mix compressed : List ℕ) → All IsU8 (node_bytes s_mix ++ take 32 (node_bytes compressed))
final_bytes-IsU8 s_mix compressed =
    All-append IsU8 (node_bytes s_mix) _ (node_bytes-IsU8 s_mix)
      (All-take IsU8 32 (node_bytes compressed) (node_bytes-IsU8 compressed))

pub krnl_ethash_func-total :
    (ret : ReturnValue) (dataset : Dataset) (full_size nonce : ℕ) (header_hash stack : List ℕ)
    → IsDataset full_size dataset
    → 0 < full_size
    → full_size % 128 ≡ 0
    → full_size < 2 ^ 38
    → All IsU8 header_hash
    → All IsU8 stack
    → (after : ReturnValue) × (krnl_ethash_func ret dataset full_size header_hash nonce stack
        ≡ some after)
      × (length after.result ≡ 32)
      × All IsU8 after.result
unfolding krnl_ethash_func
krnl_ethash_func-total ret dataset full_size nonce header_hash stack ok pos whole small header_bytes
      stack_bytes =
    let (s_mix, hashed, shape) = hash_node-total (take 32 header_hash ++ take 8 stack) (
      All-append IsU8 (take 32 header_hash) (take 8 stack)
        (All-take IsU8 32 header_hash header_bytes) (All-take IsU8 8 stack stack_bytes)) in
    let (mix, run, mix_size) =
      access_loop-total dataset (u32 (full_size / 128)) (get_or s_mix 0 0) 64 0 (s_mix ++ s_mix)
        (omega arith) (omega arith) (λ k below. dataset-Has full_size dataset ok k (omega arith))
        (length-append s_mix s_mix ∙ omega (arith, shape.size)) in
    let (compressed, run', _) = compress_mix-Mixed mix mix_size in
    let (hash, final, size, bytes) =
      kec_hash_buffer-total 256 32 (node_bytes s_mix ++ take 32 (node_bytes compressed)) (inl refl)
        (final_bytes-IsU8 s_mix compressed) in
    (
      record { result = hash; mix_hash = take 32 (node_bytes compressed) },
      else_eq (not (full_size % 32 == 0)) (some ret) (ground (arith, whole))
          ∙ bind_eq _ hashed
          ∙ bind_eq _ run
          ∙ bind_eq _ run'
          ∙ bind_eq _ final,
      size ∙ omega arith,
      bytes,
    )
