-- ===== src/Keccak/Hash.antt =====
-- `kec_HashBuffer`: for the two sizes it offers it returns, with as many bytes as asked for.
use fpga_ethash.Keccak.Permutation.{IsState, keccakf-IsState, xor_word-IsState}
use fpga_ethash.Keccak.Update.{aligned_update}
use fpga_ethash.Keccak.Shape.{IsContext, kec_init-IsContext, absorbed_rest-IsContext}
use fpga_ethash.Base.{
  ℕ, ◌+◌, ◌-◌, ◌*◌, ◌/◌, ◌^◌, ◌≡◌, refl, ap, ◌∙◌, ◌⊎◌, List, [], ◌∷◌, some, length, length-append,
  length-take, take, All, All-append, All-take, arith, ltb, if◌then◌else◌, min, bit_xor, bit_xor-lt,
  u64, IsU8, shl64,
}
use fpga_ethash.Keccak.{
  Context, kec_init, kec_update, kec_finalize, kec_hash_buffer, word_bytes, state_bytes, pad_state,
  rate_words, keccakf,
}
use fpga_ethash.Keccak.Reads.{absorbed_rest}

word_bytes-IsU8 : (w : ℕ) → All IsU8 (word_bytes w)
unfolding word_bytes
word_bytes-IsU8 w = omega arith

state_bytes-IsU8 : (s : List ℕ) → All IsU8 (state_bytes s)
unfolding state_bytes
state_bytes-IsU8 [] = tt
state_bytes-IsU8 (w ∷ ws) =
    All-append IsU8 (word_bytes w) _ (word_bytes-IsU8 w) (state_bytes-IsU8 ws)

length-word_bytes : (w : ℕ) → length (word_bytes w) ≡ 8
unfolding word_bytes
length-word_bytes w = refl

length-state_bytes : (s : List ℕ) → length (state_bytes s) ≡ 8 * length s
unfolding state_bytes
length-state_bytes [] = refl
length-state_bytes (w ∷ ws) =
    length-append (word_bytes w) (state_bytes ws)
    ∙ omega (arith, length-word_bytes w, length-state_bytes ws)

pad_state-IsState : (c : Context) → IsContext c → IsState (pad_state c)
unfolding pad_state
pad_state-IsState c ctx =
    xor_word-IsState (u64 (2 ^ 64 + rate_words c - 1)) 0x8000000000000000 _ (omega arith) (
      xor_word-IsState c.word_index (bit_xor c.saved (shl64 1 (c.byte_index * 8))) c.s
        (bit_xor-lt 64 c.saved (shl64 1 (c.byte_index * 8)) ctx.saved_word (omega arith)) ctx.state)

length-kec_finalize : (c : Context) → IsContext c → length (kec_finalize c) ≡ 200
unfolding kec_finalize
length-kec_finalize c ctx =
    length-state_bytes (keccakf (pad_state c))
    ∙ ap (λ (n : ℕ). 8 * n) (keccakf-IsState (pad_state c) (pad_state-IsState c ctx)).size

kec_finalize-IsU8 : (c : Context) → All IsU8 (kec_finalize c)
unfolding kec_finalize
kec_finalize-IsU8 c = state_bytes-IsU8 (keccakf (pad_state c))

pub kec_init-byte_index : (bit_size : ℕ) → (kec_init bit_size).byte_index ≡ 0
unfolding kec_init
kec_init-byte_index bit_size = refl

pub init_update :
    (bit_size : ℕ) (buf : List ℕ)
    → kec_update (kec_init bit_size) buf ≡ some (absorbed_rest buf (kec_init bit_size))
init_update bit_size buf =
    aligned_update (kec_init bit_size) buf (omega (arith, kec_init-byte_index bit_size))

abbrev cut_bytes : ℕ → ℕ → ℕ
cut_bytes bit_size out_bytes = if ltb (bit_size / 8) out_bytes then bit_size / 8 else out_bytes

hash_out :
    (bit_size out_bytes : ℕ) (buf : List ℕ)
    → kec_hash_buffer bit_size buf out_bytes
      ≡ some (
          take
            (cut_bytes bit_size out_bytes)
            (kec_finalize (absorbed_rest buf (kec_init bit_size))))
unfolding kec_hash_buffer kec_finalize
hash_out bit_size out_bytes buf = rw (init_update bit_size buf, kec_hash_buffer) refl

-- For the two sizes that `kec_init` offers, hashing a message of bytes of any length returns, never
-- reads past the message, and gives the bytes asked for, at most the size's own count of them.
pub kec_hash_buffer-total :
    (bit_size out_bytes : ℕ) (buf : List ℕ)
    → (bit_size ≡ 256) ⊎ (bit_size ≡ 512)
    → All IsU8 buf
    → (digest : List ℕ) × (kec_hash_buffer bit_size buf out_bytes ≡ some digest)
      × (length digest ≡ min out_bytes (bit_size / 8))
      × All IsU8 digest
kec_hash_buffer-total bit_size out_bytes buf size bytes = (
  take (cut_bytes bit_size out_bytes) (kec_finalize last),
  hash_out bit_size out_bytes buf,
  length-take (cut_bytes bit_size out_bytes) (kec_finalize last)
      ∙ ground (arith, length-kec_finalize last ctx, size),
  All-take IsU8 (cut_bytes bit_size out_bytes) (kec_finalize last) (kec_finalize-IsU8 last),
)
  where
    last : Context
    last = absorbed_rest buf (kec_init bit_size)

    ctx : IsContext last
    ctx =
        absorbed_rest-IsContext buf (kec_init bit_size) (kec_init-byte_index bit_size) bytes
          (kec_init-IsContext bit_size size)
