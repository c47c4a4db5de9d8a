-- ===== src/Tests/Hashing.antt =====
-- The hash, the cache, the dataset and the search, at concrete inputs.
use fpga_ethash.Keccak.Permutation.{IsState, theta_high}
use fpga_ethash.Keccak.Update.{old_tail, kec_update-none_iff, update_chunks}
use fpga_ethash.Keccak.Hash.{kec_hash_buffer-total, kec_init-byte_index}
use fpga_ethash.Keccak.{Context, theta, word, kec_init, kec_update, kec_hash_buffer}
use fpga_ethash.Ethash.Nodes.{IsNode, NodesBelow}
use fpga_ethash.Ethash.Cache.{compute_cache_nodes-total}
use fpga_ethash.Ethash.Dag.{IsLight}
use fpga_ethash.Ethash.Search.Total.{compute_full_dag-total, krnl_ethash_func-total}
use fpga_ethash.Ethash.Search.Modes.{krnl_ethash_func-modes}
use fpga_ethash.Ethash.{Light, compute_cache_nodes}
use fpga_ethash.Ethash.Search.{full, light_mode, ReturnValue, compute_full_dag, krnl_ethash_func}
use fpga_ethash.Base.{
  ℕ, zero, suc, ◌/◌, ◌≤◌, ◌<◌, ◌≡◌, ◌↔◌, refl, inl, List, [], ◌∷◌, ◌++◌, true, none, some, length,
  replicate, All, IsU8, min, arith,
}

abbrev message : List ℕ
message = 1 ∷ 2 ∷ 255 ∷ []

abbrev block : List ℕ
block = 1 ∷ 2 ∷ 3 ∷ 4 ∷ 5 ∷ 6 ∷ 7 ∷ 8 ∷ []

message-IsU8 : All IsU8 message
message-IsU8 = omega arith

kec_hash_buffer-total_example :
    (digest : List ℕ) × (kec_hash_buffer 256 message 40 ≡ some digest)
    × (length digest ≡ min 40 (256 / 8))
    × All IsU8 digest
kec_hash_buffer-total_example = kec_hash_buffer-total 256 40 message (inl refl) message-IsU8

update_chunks_example :
    (c' : Context) × (kec_update (kec_init 512) block ≡ some c')
    × (kec_update (kec_init 512) (block ++ message) ≡ kec_update c' message)
update_chunks_example =
    update_chunks (kec_init 512) block message (kec_init-byte_index 512) (inl refl)

kec_update-none_iff_example :
    (kec_update (kec_init 512) message ≡ none)
    ↔ ((0 < old_tail (kec_init 512)) × (old_tail (kec_init 512) ≤ length message))
kec_update-none_iff_example = kec_update-none_iff (kec_init 512) message

abbrev state : List ℕ
state = replicate 25 1

state-IsState : IsState state
state-IsState = record { size = refl; words = omega arith }

theta_high_example : word (theta state) 10 ≡ word state 10
theta_high_example = theta_high state 10 (omega arith)

abbrev node : List ℕ
node = replicate 16 7

node-IsNode : IsNode node
node-IsNode = record { size = refl; words = omega arith }

-- Memory of one node, and of two.
abbrev one_node : List (List ℕ)
one_node = node ∷ []

abbrev two_nodes : List (List ℕ)
two_nodes = node ∷ node ∷ []

one_node-NodesBelow : NodesBelow 1 one_node
one_node-NodesBelow zero below = (node, refl, node-IsNode)
one_node-NodesBelow (suc k) below = absurd (omega arith)

two_nodes-NodesBelow : NodesBelow 2 two_nodes
two_nodes-NodesBelow zero below = (node, refl, node-IsNode)
two_nodes-NodesBelow (suc zero) below = (node, refl, node-IsNode)
two_nodes-NodesBelow (suc (suc k)) below = absurd (omega arith)

abbrev light : Light
light = record { cache = one_node; cache_size = 64; block_number = 0 }

light-IsLight : IsLight light
light-IsLight = record { some_node = omega arith; small = omega arith; nodes = one_node-NodesBelow }

compute_cache_nodes-total_example :
    (cache : List (List ℕ)) × (compute_cache_nodes two_nodes 128 message ≡ some (true, cache))
    × (length cache ≡ 128 / 64)
    × NodesBelow (128 / 64) cache
compute_cache_nodes-total_example =
    compute_cache_nodes-total two_nodes 128 message refl (omega arith) (omega arith) refl
      message-IsU8

compute_full_dag-total_example :
    (dag : List (List ℕ)) × (compute_full_dag two_nodes 128 light none ≡ some (true, dag))
    × NodesBelow (128 / 64) dag
compute_full_dag-total_example =
    compute_full_dag-total two_nodes 128 light light-IsLight refl (omega arith) (omega arith)

abbrev ret : ReturnValue
ret = record { result = []; mix_hash = [] }

krnl_ethash_func-total_example :
    (after : ReturnValue) × (krnl_ethash_func ret (full two_nodes) 128 message 9 message
      ≡ some after)
    × (length after.result ≡ 32)
    × All IsU8 after.result
krnl_ethash_func-total_example =
    krnl_ethash_func-total ret (full two_nodes) 128 9 message message two_nodes-NodesBelow
      (omega arith) refl (omega arith) message-IsU8 message-IsU8

abbrev kept : List ℕ → List ℕ
kept n = n

dag : List (List ℕ)
dag = (compute_full_dag-total two_nodes 128 light light-IsLight refl (omega arith) (omega arith)).0

krnl_ethash_func-modes_example :
    krnl_ethash_func ret (full dag) 128 message 9 message
    ≡ krnl_ethash_func ret (light_mode light kept) 128 message 9 message
unfolding dag
krnl_ethash_func-modes_example =
    krnl_ethash_func-modes two_nodes dag 128 light none kept ret message 9 message (omega arith)
      (λ n. refl)
      (compute_full_dag-total two_nodes 128 light light-IsLight refl (omega arith) (omega arith)).1
