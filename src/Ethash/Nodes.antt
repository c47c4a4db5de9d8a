-- ===== src/Ethash/Nodes.antt =====
-- Nodes keep their shape: 16 words of 32 bits. The cache is computed for every size it accepts.
use fpga_ethash.Keccak.Hash.{kec_hash_buffer-total}
use fpga_ethash.Ethash.{word_le, node_bytes, bytes_words, hash_node, fnv_hash, fnv_words}
use fpga_ethash.Base.{
  ℕ, zero, suc, ◌*◌, ◌<◌, ◌≡◌, refl, ap, sym, ◌∙◌, ◌≢◌, inl, inr, some, Bool-cases, bind_eq, ◌==◌,
  arith, List, [], ◌∷◌, length, length-set, set, get_or, get_elem?, get_elem?-set_self,
  get_elem?-set_ne, ==_iff, drop, for_each_inv, indices, All, All-append, All-set, All-get_or,
  All-drop, IsU8, IsU32, bit_xor-lt,
}

pub record IsNode (node : List ℕ) : Type 0 where
  pub size : length node ≡ 16
  pub words : All IsU32 node

pub node_bytes-IsU8 : (ws : List ℕ) → All IsU8 (node_bytes ws)
unfolding node_bytes word_le
node_bytes-IsU8 [] = tt
node_bytes-IsU8 (w ∷ ws) = All-append IsU8 (word_le w) _ (omega arith) (node_bytes-IsU8 ws)

length-bytes_words : (n : ℕ) (b : List ℕ) → length (bytes_words n b) ≡ n
unfolding bytes_words
length-bytes_words zero b = refl
length-bytes_words (suc n) b = ap suc (length-bytes_words n (drop 4 b))

bytes_words-IsU32 : (n : ℕ) (b : List ℕ) → All IsU8 b → All IsU32 (bytes_words n b)
unfolding bytes_words
bytes_words-IsU32 zero b bytes = tt
bytes_words-IsU32 (suc n) b bytes = (
  omega (arith, at 0, at 1, at 2, at 3),
  bytes_words-IsU32 n (drop 4 b) (All-drop IsU8 4 b bytes),
)
  where
    at : (i : ℕ) → IsU8 (get_or b i 0)
    at i = All-get_or IsU8 b i 0 (omega arith) bytes

-- The hash of bytes is a node.
pub hash_node-total :
    (b : List ℕ) → All IsU8 b → (node : List ℕ) × (hash_node b ≡ some node) × IsNode node
unfolding hash_node
hash_node-total b bytes =
    let (out, hashed, size, out_bytes) = kec_hash_buffer-total 512 64 b (inr refl) bytes in
    (
      bytes_words 16 out,
      bind_eq _ hashed,
      record { size = length-bytes_words 16 out; words = bytes_words-IsU32 16 out out_bytes },
    )

-- The hash of a node is a node.
pub rehash : (ws : List ℕ) → (node : List ℕ) × (hash_node (node_bytes ws) ≡ some node) × IsNode node
rehash ws = hash_node-total (node_bytes ws) (node_bytes-IsU8 ws)

set-IsNode : (node : List ℕ) (i v : ℕ) → IsU32 v → IsNode node → IsNode (set node i v)
set-IsNode node i v word shape = record {
  size = length-set node i v ∙ shape.size;
  words = All-set IsU32 node i v word shape.words;
}

pub word_of : (node : List ℕ) (i : ℕ) → IsNode node → IsU32 (get_or node i 0)
word_of node i shape = All-get_or IsU32 node i 0 (omega arith) shape.words

fnv_hash-IsU32 : (x y : ℕ) → IsU32 y → IsU32 (fnv_hash x y)
unfolding fnv_hash
fnv_hash-IsU32 x y word = bit_xor-lt 32 _ y (omega arith) word

pub fnv_words-IsNode : (a b : List ℕ) → IsNode a → IsNode b → IsNode (fnv_words a b)
unfolding fnv_words
fnv_words-IsNode a b shape_a shape_b =
    for_each_inv IsNode (indices 16 0) _
      (λ w d shape.
        set-IsNode d w _ (fnv_hash-IsU32 (get_or d w 0) (get_or b w 0) (word_of b w shape_b)) shape)
      a shape_a

-- The first `n` entries of a list are nodes.
abbrev pub NodesBelow : ℕ → List (List ℕ) → Type 0
NodesBelow n nodes =
    (k : ℕ) → k < n → (node : List ℕ) × (get_elem? nodes k ≡ some node) × IsNode node

-- A node written among the first `n`, or right behind them.
pub set-NodesBelow :
    (n i : ℕ) (nodes : List (List ℕ)) (node : List ℕ)
    → IsNode node
    → i < length nodes
    → ((k : ℕ) → k ≢ i → k < n → (other : List ℕ) × (get_elem? nodes k ≡ some other) × IsNode other)
    → NodesBelow n (set nodes i node)
set-NodesBelow n i nodes node shape room others k below = elim (Bool-cases (k == i)) [
  | inl same ↦
      let e : k ≡ i = (==_iff k i).0 same in
      (node, rw e (get_elem?-set_self nodes i node room), shape)
  | inr apart ↦
      let ne : k ≢ i = λ e. ground (arith, apart) in
      let (other, at, other_shape) = others k ne below in
      (other, get_elem?-set_ne nodes node (λ e. ne (sym e)) ∙ at, other_shape)
]

pub length-node_bytes : (ws : List ℕ) → length (node_bytes ws) ≡ 4 * length ws
unfolding node_bytes word_le
length-node_bytes [] = refl
length-node_bytes (w ∷ ws) = omega (arith, length-node_bytes ws)
