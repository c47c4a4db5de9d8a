-- ===== src/Keccak/Shape.antt =====
-- The sponge's context: the invariant that its indices stand inside the state, under every call.
use fpga_ethash.Keccak.Permutation.{IsState, keccakf-IsState, xor_word-IsState}
use fpga_ethash.Base.{
  ℕ, zero, suc, ◌+◌, ◌-◌, ◌*◌, ◌/◌, ◌<◌, ◌≡◌, refl, sym, subst, some-injective, some-ne-none, ◌∙◌,
  ◌⊎◌, inl, inr, List, [], ◌∷◌, some, length, length-drop, drop, All, All-drop, All-get_or,
  All-replicate, arith, ◌==◌, Bool-cases, u32, IsU8, IsU64, bit_or, bit_or-lt, shl64,
}
use fpga_ethash.Keccak.Update.{kec_update-cases, absorbed_words-byte_index}
use fpga_ethash.Keccak.{Context, save_byte, absorb_word, kec_init, kec_update, word, rate_words}
use fpga_ethash.Keccak.Reads.{save_bytes, first_word, absorbed_words, absorbed_rest}

-- Every word is a word, the two indices stay inside the rate and inside a word, and the capacity is
-- one of the two that `kec_init` offers.
pub record IsContext (c : Context) : Type 0 where
  pub state : IsState c.s
  pub saved_word : IsU64 c.saved
  pub capacity : (c.capacity_words ≡ 8) ⊎ (c.capacity_words ≡ 16)
  pub in_rate : c.word_index < 25 - c.capacity_words
  pub in_word : c.byte_index < 8

abbrev pub capacity_of : ℕ → ℕ
capacity_of bit_size = bit_size / 32

pub kec_init-IsContext :
    (bit_size : ℕ) → (bit_size ≡ 256) ⊎ (bit_size ≡ 512) → IsContext (kec_init bit_size)
unfolding kec_init
kec_init-IsContext bit_size size = record {
  state = record { size = refl; words = All-replicate IsU64 25 0 (omega arith) };
  saved_word = omega arith;
  capacity = ground arith;
  in_rate = ground arith;
  in_word = omega arith;
}

rate_words-eq :
    (c : Context)
    → (c.capacity_words ≡ 8) ⊎ (c.capacity_words ≡ 16)
    → rate_words c ≡ 25 - c.capacity_words
unfolding rate_words
rate_words-eq c cap = ground arith

pub absorb_word-IsContext :
    (t : ℕ) (c : Context) → IsU64 t → IsContext c → IsContext (absorb_word t c)
unfolding absorb_word
absorb_word-IsContext t c h ctx = elim (Bool-cases (u32 (c.word_index + 1) == rate_words c)) [
  | inl full ↦ rw full (record {
    state = keccakf-IsState _ (xor_word-IsState c.word_index t c.s h ctx.state);
    saved_word = ctx.saved_word;
    capacity = ctx.capacity;
    in_rate = ground (arith, ctx.capacity);
    in_word = ctx.in_word;
  })
  | inr more ↦ rw more (record {
    state = xor_word-IsState c.word_index t c.s h ctx.state;
    saved_word = ctx.saved_word;
    capacity = ctx.capacity;
    in_rate = ground (arith, ctx.in_rate, ctx.capacity, rate_words-eq c ctx.capacity, more);
    in_word = ctx.in_word;
  })
]

first_word-IsU64 : (buf : List ℕ) → All IsU8 buf → IsU64 (first_word buf)
unfolding first_word
first_word-IsU64 buf all =
    or _ _
      (or _ _
        (or _ _ (or _ _ (or _ _ (or _ _ (or _ _ low (part 1)) (part 2)) (part 3)) (part 4))
          (part 5))
        (part 6))
      (part 7)
  where
    or : (a b : ℕ) → IsU64 a → IsU64 b → IsU64 (bit_or a b)
    or a b = bit_or-lt 64 a b

    byte : IsU8 (word buf 0)
    byte = All-get_or IsU8 buf 0 0 (omega arith) all

    low : IsU64 (word buf 0)
    low = omega (arith, byte)

    part : (i : ℕ) → IsU64 (shl64 (word buf i) (8 * i))
    part i = omega arith

pub absorbed_words-IsContext :
    (n : ℕ) (buf : List ℕ) (c : Context)
    → All IsU8 buf
    → IsContext c
    → IsContext (absorbed_words n buf c)
unfolding absorbed_words
absorbed_words-IsContext zero buf c all ctx = ctx
absorbed_words-IsContext (suc n) buf c all ctx =
    absorbed_words-IsContext n (drop 8 buf) (absorb_word (first_word buf) c)
      (All-drop IsU8 8 buf all)
      (absorb_word-IsContext (first_word buf) c (first_word-IsU64 buf all) ctx)

pub save_bytes-IsContext :
    (buf : List ℕ) (c : Context)
    → c.byte_index + length buf < 8
    → IsContext c
    → IsContext (save_bytes buf c)
unfolding save_bytes save_byte
save_bytes-IsContext [] c room ctx = ctx
save_bytes-IsContext (b ∷ rest) c room ctx =
    save_bytes-IsContext rest (save_byte b c) (omega arith) (record {
      state = ctx.state;
      saved_word = bit_or-lt 64 c.saved (shl64 b (c.byte_index * 8)) ctx.saved_word (omega arith);
      capacity = ctx.capacity;
      in_rate = ctx.in_rate;
      in_word = omega arith;
    })

pub absorbed_rest-IsContext :
    (buf : List ℕ) (c : Context)
    → c.byte_index ≡ 0
    → All IsU8 buf
    → IsContext c
    → IsContext (absorbed_rest buf c)
unfolding absorbed_rest
absorbed_rest-IsContext buf c aligned all ctx =
    save_bytes-IsContext (drop (length buf / 8 * 8) buf) (absorbed_words (length buf / 8) buf c)
      (omega (
        arith,
        absorbed_words-byte_index (length buf / 8) buf c,
        length-drop (length buf / 8 * 8) buf,
      ))
      (absorbed_words-IsContext (length buf / 8) buf c all ctx)

-- A call of `kec_update` that stays inside its buffer keeps the invariant: a state of 25 words, an
-- index inside the rate and fewer than eight bytes saved.
pub kec_update-IsContext :
    (c c' : Context) (buf : List ℕ)
    → IsContext c
    → All IsU8 buf
    → kec_update c buf ≡ some c'
    → IsContext c'
kec_update-IsContext c c' buf ctx all run = elim (kec_update-cases c buf) [
  | inl (short, out) ↦
      subst IsContext (some-injective _ _ (sym out ∙ run))
        (save_bytes-IsContext buf c (omega (arith, ctx.in_word)) ctx)
  | inr (inl (aligned, out)) ↦
      subst IsContext (some-injective _ _ (sym out ∙ run))
        (absorbed_rest-IsContext buf c (omega (arith, ctx.in_word)) all ctx)
  | inr (inr (_, out)) ↦ absurd (some-ne-none c' (sym run ∙ out))
]
