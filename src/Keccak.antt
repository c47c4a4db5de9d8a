-- ===== src/Keccak.antt =====
-- libethash-fpga/fpga_ethash.cpp (and, in the same words, includes/kec.cpp): the permutation and the
-- sponge. A state is the list of its 25 words of 64 bits; `unsigned` has 32 bits and `size_t` 64.
pub mod Permutation
pub mod Shape
pub mod Reads
pub mod Update
pub mod Hash
use mathlib.Core.Option.{bind}
use fpga_ethash.Base.{
  get_elem?, ℕ, zero, suc, ◌+◌, ◌-◌, ◌*◌, ◌/◌, ◌%◌, ◌^◌, min, bit_and, bit_or, bit_xor, List, [],
  ◌∷◌, ◌++◌, Option, none, some, Bool, ltb, ◌==◌, if◌then◌else◌, length, take, drop, replicate,
  get_or, set, for_each, indices, u8, u32, u64, shl64, shr, not64,
}

abbrev pub keccakf_rndc : List ℕ
keccakf_rndc =
    0x0000000000000001 ∷ 0x0000000000008082 ∷ 0x800000000000808a ∷ 0x8000000080008000
    ∷ 0x000000000000808b ∷ 0x0000000080000001 ∷ 0x8000000080008081 ∷ 0x8000000000008009
    ∷ 0x000000000000008a ∷ 0x0000000000000088 ∷ 0x0000000080008009 ∷ 0x000000008000000a
    ∷ 0x000000008000808b ∷ 0x800000000000008b ∷ 0x8000000000008089 ∷ 0x8000000000008003
    ∷ 0x8000000000008002 ∷ 0x8000000000000080 ∷ 0x000000000000800a ∷ 0x800000008000000a
    ∷ 0x8000000080008081 ∷ 0x8000000000008080 ∷ 0x0000000080000001 ∷ 0x8000000080008008 ∷ []

abbrev pub keccakf_rotc : List ℕ
keccakf_rotc =
    1 ∷ 3 ∷ 6 ∷ 10 ∷ 15 ∷ 21 ∷ 28 ∷ 36 ∷ 45 ∷ 55 ∷ 2 ∷ 14 ∷ 27 ∷ 41 ∷ 56 ∷ 8 ∷ 25 ∷ 43 ∷ 62 ∷ 18
    ∷ 39 ∷ 61 ∷ 20 ∷ 44 ∷ []

abbrev pub keccakf_piln : List ℕ
keccakf_piln =
    10 ∷ 7 ∷ 11 ∷ 17 ∷ 18 ∷ 3 ∷ 5 ∷ 16 ∷ 8 ∷ 21 ∷ 24 ∷ 4 ∷ 15 ∷ 23 ∷ 19 ∷ 13 ∷ 12 ∷ 2 ∷ 20 ∷ 14 ∷ 22
    ∷ 9 ∷ 6 ∷ 1 ∷ []

pub rotl64 : ℕ → ℕ → ℕ
rotl64 x y = bit_or (shl64 x y) (shr x (64 - y))

abbrev pub word : List ℕ → ℕ → ℕ
word s i = get_or s i 0

-- `s[i] ^= t`.
pub xor_word : ℕ → ℕ → List ℕ → List ℕ
xor_word i t s = set s i (bit_xor (word s i) t)

pub column : List ℕ → ℕ → ℕ
column s i =
    bit_xor
      (bit_xor (bit_xor (bit_xor (word s i) (word s (i + 5))) (word s (i + 10))) (word s (i + 15)))
      (word s (i + 20))

-- The first loop of theta: the five values of `bc`.
pub columns : List ℕ → List ℕ
unfolding column
columns s = column s 0 ∷ column s 1 ∷ column s 2 ∷ column s 3 ∷ column s 4 ∷ []

-- The inner loop of theta runs over `j = 0, 1, 2, 3, 4`.
pub theta_inner : ℕ → ℕ → List ℕ → List ℕ
unfolding xor_word
theta_inner i t s = for_each (indices 5 0) (λ j. xor_word (j + i) t) s

pub theta_mix : List ℕ → ℕ → ℕ
unfolding rotl64
theta_mix bc i = bit_xor (word bc ((i + 4) % 5)) (rotl64 (word bc ((i + 1) % 5)) 1)

pub theta : List ℕ → List ℕ
unfolding columns theta_inner theta_mix
theta s = let bc = columns s in for_each (indices 5 0) (λ i. theta_inner i (theta_mix bc i)) s

-- The state of the rho and pi loop is the array and `t`; `bc[0]` holds the word that is replaced.
pub record Lane : Type 0 where
  pub words : List ℕ
  pub t : ℕ

pub rho_pi_step : ℕ → Lane → Lane
unfolding rotl64
rho_pi_step i l =
    let j = get_or keccakf_piln i 0 in
    record { words = set l.words j (rotl64 l.t (get_or keccakf_rotc i 0)); t = word l.words j }

-- `i` is 5 when the loop of theta has ended, so `t` starts as `s[5]`.
pub rho_pi : List ℕ → List ℕ
unfolding rho_pi_step
rho_pi s = (for_each (indices 24 0) rho_pi_step (record { words = s; t = word s 5 })).words

pub chi_row : ℕ → List ℕ → List ℕ
unfolding xor_word
chi_row j s =
    let bc = word s j ∷ word s (j + 1) ∷ word s (j + 2) ∷ word s (j + 3) ∷ word s (j + 4) ∷ [] in
    for_each (indices 5 0)
      (λ i. xor_word (j + i) (bit_and (not64 (word bc ((i + 1) % 5))) (word bc ((i + 2) % 5)))) s

pub chi : List ℕ → List ℕ
unfolding chi_row
chi s = for_each (0 ∷ 5 ∷ 10 ∷ 15 ∷ 20 ∷ []) chi_row s

pub iota : ℕ → List ℕ → List ℕ
unfolding xor_word
iota round s = xor_word 0 (get_or keccakf_rndc round 0) s

pub keccak_round : ℕ → List ℕ → List ℕ
unfolding theta rho_pi chi iota
keccak_round round s = iota round (chi (rho_pi (theta s)))

pub keccakf : List ℕ → List ℕ
unfolding keccak_round
keccakf s = for_each (indices 24 0) keccak_round s

-- `sha3_context`.
pub record Context : Type 0 where
  pub saved : ℕ
  pub s : List ℕ
  pub byte_index : ℕ
  pub word_index : ℕ
  pub capacity_words : ℕ

-- `kec_init`: for a size that it does not offer it prints a message and goes on.
pub kec_init : ℕ → Context
kec_init bit_size = record {
  saved = 0;
  s = replicate 25 0;
  byte_index = 0;
  word_index = 0;
  capacity_words = u32 (2 * bit_size) / (8 * 8);
}

-- `KECCAK_SPONGE_WORDS - SHA3_CW(capacityWords)`.
pub rate_words : Context → ℕ
rate_words c = u64 (2 ^ 64 + 25 - c.capacity_words % 2 ^ 31)

-- `saved |= (uint64_t)*buf++ << (byteIndex++ * 8)`.
pub save_byte : ℕ → Context → Context
save_byte b c = record c {
  saved = bit_or c.saved (shl64 b (c.byte_index * 8));
  byte_index = u32 (c.byte_index + 1);
}

-- `while (old_tail)`: no round changes `old_tail`, so a round that finds the buffer at its end
-- reads past it, which is undefined; `none` stands for that.
pub fill_word : ℕ → List ℕ → Context → Option (List ℕ × Context)
fill_word old_tail [] c = if old_tail == 0 then some ([], c) else none
fill_word old_tail (b ∷ rest) c =
    let more = fill_word old_tail rest (save_byte b c) in
    if old_tail == 0 then some (b ∷ rest, c) else more

-- `if (++wordIndex == rate) { keccakf(s); wordIndex = 0; }` after `s[wordIndex] ^= t`.
pub absorb_word : ℕ → Context → Context
unfolding xor_word
absorb_word t c =
    let s' = xor_word c.word_index t c.s in
    if u32 (c.word_index + 1) == rate_words c
    then record c { s = keccakf s'; word_index = 0 }
    else record c { s = s'; word_index = u32 (c.word_index + 1) }

abbrev pub little_endian : (b0 b1 b2 b3 b4 b5 b6 b7 : ℕ) → ℕ
little_endian b0 b1 b2 b3 b4 b5 b6 b7 =
    bit_or
      (bit_or
        (bit_or
          (bit_or
            (bit_or (bit_or (bit_or b0 (shl64 b1 (8 * 1))) (shl64 b2 (8 * 2))) (shl64 b3 (8 * 3)))
            (shl64 b4 (8 * 4)))
          (shl64 b5 (8 * 5)))
        (shl64 b6 (8 * 6)))
      (shl64 b7 (8 * 7))

-- The little-endian word of the eight bytes at the beginning of the buffer; a read past the buffer is
-- undefined.
pub buffer_word : List ℕ → Option ℕ
buffer_word buf = bind (get_elem? buf 0) λ b0. bind (get_elem? buf 1) λ b1.
    bind (get_elem? buf 2) λ b2. bind (get_elem? buf 3) λ b3. bind (get_elem? buf 4) λ b4.
      bind (get_elem? buf 5) λ b5.
        bind (get_elem? buf 6)
          λ b6. bind (get_elem? buf 7) λ b7. some (little_endian b0 b1 b2 b3 b4 b5 b6 b7)

-- The loop over whole words; `words` are left.
pub absorb_words : ℕ → List ℕ → Context → Option Context
unfolding buffer_word
absorb_words zero buf c = some c
absorb_words (suc words) buf c =
    bind (buffer_word buf) λ t. absorb_words words (drop 8 buf) (absorb_word t c)

-- The loop that saves `tail` bytes.
pub save_tail : ℕ → List ℕ → Context → Option Context
unfolding save_byte
save_tail zero buf c = some c
save_tail (suc tail) [] c = none
save_tail (suc tail) (b ∷ rest) c = save_tail tail rest (save_byte b c)

-- From the whole words on, with no partial word saved: `words = len / 8` and then the tail.
pub absorb_rest : List ℕ → Context → Option Context
unfolding absorb_words save_tail
absorb_rest buf c =
    let words = length buf / 8 in
    bind (absorb_words words buf c) (save_tail (length buf - words * 8) (drop (words * 8) buf))

-- What follows the filled word.
pub finish_word : Context → Context
unfolding absorb_word
finish_word c = absorb_word c.saved (record c { byte_index = 0; saved = 0 })

pub kec_update : Context → List ℕ → Option Context
unfolding save_tail fill_word finish_word absorb_rest
kec_update c buf =
    let old_tail = u32 (2 ^ 32 + 8 - c.byte_index) % 8 in
    let filled = fill_word old_tail buf c in
    if ltb (length buf) old_tail
    then save_tail (length buf) buf c
    else if old_tail == 0
    then absorb_rest buf c
    else elim filled [ none ↦ none | some (rest, c') ↦ absorb_rest rest (finish_word c') ]

-- The eight bytes of a word, the lowest first: the two halves `t1` and `t2` and their shifts.
pub word_bytes : ℕ → List ℕ
word_bytes w =
    let t1 = u32 w in
    let t2 = u32 (shr (shr w 16) 16) in
    u8 t1
    ∷ u8 (shr t1 8)
    ∷ u8 (shr t1 16)
    ∷ u8 (shr t1 24)
    ∷ u8 t2
    ∷ u8 (shr t2 8)
    ∷ u8 (shr t2 16)
    ∷ u8 (shr t2 24)
    ∷ []

pub state_bytes : List ℕ → List ℕ
unfolding word_bytes
state_bytes [] = []
state_bytes (w ∷ ws) = word_bytes w ++ state_bytes ws

-- The state that `kec_finalize` permutes for the last time.
pub pad_state : Context → List ℕ
unfolding xor_word rate_words
pad_state c =
    let t = shl64 1 (c.byte_index * 8) in
    xor_word (u64 (2 ^ 64 + rate_words c - 1)) 0x8000000000000000
      (xor_word c.word_index (bit_xor c.saved t) c.s)

pub kec_finalize : Context → List ℕ
unfolding pad_state state_bytes
kec_finalize c = state_bytes (keccakf (pad_state c))

pub kec_hash_buffer : ℕ → List ℕ → ℕ → Option (List ℕ)
unfolding kec_init kec_update kec_finalize
kec_hash_buffer bit_size buf out_bytes = elim (kec_update (kec_init bit_size) buf) [
  | none ↦ none
  | some c ↦
      some
        (take (if ltb (bit_size / 8) out_bytes then bit_size / 8 else out_bytes) (kec_finalize c))
]
