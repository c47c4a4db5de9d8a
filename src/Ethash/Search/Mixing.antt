-- ===== src/Ethash/Search/Mixing.antt =====
-- The accesses to the mix stay inside its 32 words.
use fpga_ethash.Ethash.{fnv_hash}
use fpga_ethash.Ethash.Search.{mix_words, mix_node, compress_rounds, compress_mix}
use fpga_ethash.Base.{
  ℕ, zero, suc, ◌+◌, ◌*◌, ◌≤◌, ◌<◌, ◌≡◌, refl, ◌∙◌, List, Option, some, length, length-set, set,
  bind_eq, get_elem?-inside, arith,
}

-- A result of 32 words.
abbrev pub Mixed : Option (List ℕ) → Type 0
Mixed o = (after : List ℕ) × (o ≡ some after) × (length after ≡ 32)

mix_words-Mixed :
    (left w n : ℕ) (node mix : List ℕ)
    → n < 2
    → w + left ≤ 16
    → length node ≡ 16
    → length mix ≡ 32
    → Mixed (mix_words left w n node mix)
unfolding mix_words
mix_words-Mixed zero w n node mix page room whole size = (mix, refl, size)
mix_words-Mixed (suc left) w n node mix page room whole size =
    let (mixed, at_mix) = get_elem?-inside mix (16 * n + w) (omega arith) in
    let (read, at_node) = get_elem?-inside node w (omega arith) in
    let (after, run, kept) =
      mix_words-Mixed left (w + 1) n node (set mix (16 * n + w) (fnv_hash mixed read)) page
        (omega arith) whole (length-set mix (16 * n + w) (fnv_hash mixed read) ∙ size) in
    (after, bind_eq _ at_mix ∙ bind_eq _ at_node ∙ run, kept)

pub mix_node-Mixed :
    (n : ℕ) (node mix : List ℕ)
    → n < 2
    → length node ≡ 16
    → length mix ≡ 32
    → Mixed (mix_node n node mix)
unfolding mix_node
mix_node-Mixed n node mix page whole size =
    mix_words-Mixed 16 0 n node mix page (omega arith) whole size

compress_rounds-Mixed :
    (left q : ℕ) (mix : List ℕ)
    → q + left ≤ 8
    → length mix ≡ 32
    → Mixed (compress_rounds left q mix)
unfolding compress_rounds
compress_rounds-Mixed zero q mix room size = (mix, refl, size)
compress_rounds-Mixed (suc left) q mix room size =
    let (m0, at0) = get_elem?-inside mix (4 * q + 0) (omega arith) in
    let (m1, at1) = get_elem?-inside mix (4 * q + 1) (omega arith) in
    let (m2, at2) = get_elem?-inside mix (4 * q + 2) (omega arith) in
    let (m3, at3) = get_elem?-inside mix (4 * q + 3) (omega arith) in
    let reduction : ℕ = fnv_hash (fnv_hash (fnv_hash m0 m1) m2) m3 in
    let (after, run, kept) =
      compress_rounds-Mixed left (q + 1) (set mix q reduction) (omega arith)
        (length-set mix q reduction ∙ size) in
    (after, bind_eq _ at0 ∙ bind_eq _ at1 ∙ bind_eq _ at2 ∙ bind_eq _ at3 ∙ run, kept)

pub compress_mix-Mixed : (mix : List ℕ) → length mix ≡ 32 → Mixed (compress_mix mix)
unfolding compress_mix
compress_mix-Mixed mix size = compress_rounds-Mixed 8 0 mix (omega arith) size
