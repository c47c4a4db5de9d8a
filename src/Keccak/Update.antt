-- ===== src/Keccak/Update.antt =====
-- `kec_update`: on which calls it is defined, and how a message may be cut into calls.
use fpga_ethash.Base.{
  ℕ, zero, suc, ◌+◌, ◌-◌, ◌*◌, ◌/◌, ◌%◌, ◌^◌, ◌≤◌, ◌<◌, ◌≡◌, refl, sym, ap, ◌∙◌, ◌≢◌, ◌⊎◌, inl, inr,
  ◌↔◌, List, [], ◌∷◌, ◌++◌, none, some, length, length-append, length-drop, drop, drop-append_left,
  drop-all, get_or, get_or-append_left, arith, u32,
}
use fpga_ethash.Keccak.{Context, save_byte, fill_word, absorb_word, kec_update}
use fpga_ethash.Keccak.Reads.{
  save_bytes, first_word, absorbed_words, absorbed_rest, save_tail-all, absorb_rest-inside,
}

-- How many bytes the saved word still takes, as `kec_update` computes it.
abbrev pub old_tail : Context → ℕ
old_tail c = u32 (2 ^ 32 + 8 - c.byte_index) % 8

fill_word-none : (n : ℕ) (buf : List ℕ) (c : Context) → n ≢ 0 → fill_word n buf c ≡ none
unfolding fill_word
fill_word-none n [] c h = ground arith
fill_word-none n (b ∷ rest) c h = ground (arith, fill_word-none n rest (save_byte b c) h)

short_update :
    (c : Context) (buf : List ℕ)
    → length buf < old_tail c
    → kec_update c buf ≡ some (save_bytes buf c)
unfolding kec_update
short_update c buf h = ground (arith, save_tail-all buf c)

pub aligned_update :
    (c : Context) (buf : List ℕ) → old_tail c ≡ 0 → kec_update c buf ≡ some (absorbed_rest buf c)
unfolding kec_update
aligned_update c buf h = ground (arith, absorb_rest-inside buf c)

stuck_update :
    (c : Context) (buf : List ℕ)
    → 0 < old_tail c
    → old_tail c ≤ length buf
    → kec_update c buf ≡ none
unfolding kec_update
stuck_update c buf pos enough = ground (arith, fill_word-none (old_tail c) buf c)

-- A call of `kec_update` leaves the range of its buffer exactly if a word is partly saved and the
-- buffer has the bytes to fill it: the loop that fills the word has no end of its own.
pub kec_update-none_iff :
    (c : Context) (buf : List ℕ)
    → (kec_update c buf ≡ none) ↔ ((0 < old_tail c) × (old_tail c ≤ length buf))
kec_update-none_iff c buf = (
  λ e. (
    ground (arith, aligned_update c buf, short_update c buf),
    ground (arith, aligned_update c buf, short_update c buf),
  ),
  λ h. stuck_update c buf h.0 h.1,
)

absorb_word-byte_index : (t : ℕ) (c : Context) → (absorb_word t c).byte_index ≡ c.byte_index
unfolding absorb_word
absorb_word-byte_index t c = ground arith

pub absorbed_words-byte_index :
    (n : ℕ) (buf : List ℕ) (c : Context) → (absorbed_words n buf c).byte_index ≡ c.byte_index
unfolding absorbed_words
absorbed_words-byte_index zero buf c = refl
absorbed_words-byte_index (suc n) buf c =
    absorbed_words-byte_index n (drop 8 buf) (absorb_word (first_word buf) c)
    ∙ absorb_word-byte_index (first_word buf) c

save_bytes-append :
    (a b : List ℕ) (c : Context) → save_bytes (a ++ b) c ≡ save_bytes b (save_bytes a c)
unfolding save_bytes
save_bytes-append [] b c = refl
save_bytes-append (x ∷ a) b c = save_bytes-append a b (save_byte x c)

save_bytes-byte_index :
    (a : List ℕ) (c : Context)
    → c.byte_index + length a < 2 ^ 32
    → (save_bytes a c).byte_index ≡ c.byte_index + length a
unfolding save_bytes save_byte
save_bytes-byte_index [] c h = omega arith
save_bytes-byte_index (x ∷ a) c h =
    save_bytes-byte_index a (save_byte x c) (omega arith) ∙ omega arith

first_word-append : (a b : List ℕ) → 8 ≤ length a → first_word (a ++ b) ≡ first_word a
unfolding first_word
first_word-append a b h =
    rw (at 0 h0, at 1 h1, at 2 h2, at 3 h3, at 4 h4, at 5 h5, at 6 h6, at 7 h7)
  where
    at : (i : ℕ) → i < length a → get_or (a ++ b) i 0 ≡ get_or a i 0
    at i lt = get_or-append_left a b i 0 lt

    h0 : 0 < length a
    h0 = omega arith

    h1 : 1 < length a
    h1 = omega arith

    h2 : 2 < length a
    h2 = omega arith

    h3 : 3 < length a
    h3 = omega arith

    h4 : 4 < length a
    h4 = omega arith

    h5 : 5 < length a
    h5 = omega arith

    h6 : 6 < length a
    h6 = omega arith

    h7 : 7 < length a
    h7 = omega arith

-- Only the first `8 * n` bytes are read.
absorbed_words-prefix :
    (n : ℕ) (a b : List ℕ) (c : Context)
    → 8 * n ≤ length a
    → absorbed_words n (a ++ b) c ≡ absorbed_words n a c
unfolding absorbed_words
absorbed_words-prefix zero a b c h = refl
absorbed_words-prefix (suc n) a b c h =
    rw (first_word-append a b (omega arith), drop-append_left 8 a b (omega arith))
      (absorbed_words-prefix n (drop 8 a) b (absorb_word (first_word a) c)
        (omega (arith, length-drop 8 a)))

absorbed_words-append :
    (n m k : ℕ) (a b : List ℕ) (c : Context)
    → length a ≡ 8 * n
    → k ≡ n + m
    → absorbed_words k (a ++ b) c ≡ absorbed_words m b (absorbed_words n a c)
unfolding absorbed_words
absorbed_words-append zero m k [] b c h e =
    ap (λ (j : ℕ). absorbed_words j b c) {x = k} {y = m} (omega arith)
absorbed_words-append zero m k (x ∷ a) b c h e = absurd (omega arith)
absorbed_words-append (suc n) m zero a b c h e = absurd (omega arith)
absorbed_words-append (suc n) m (suc k) a b c h e =
    rw (first_word-append a b (omega arith), drop-append_left 8 a b (omega arith))
      (absorbed_words-append n m k (drop 8 a) b (absorb_word (first_word a) c)
        (omega (arith, length-drop 8 a)) (omega arith))

drop-append_right : (n : ℕ) (a b : List ℕ) → length a ≤ n → drop n (a ++ b) ≡ drop (n - length a) b
drop-append_right n [] b h = ap (λ (j : ℕ). drop j b) {x = n} {y = n - 0} (omega arith)
drop-append_right zero (x ∷ a) b h = absurd (omega arith)
drop-append_right (suc n) (x ∷ a) b h =
    drop-append_right n a b (omega arith)
    ∙ ap (λ (j : ℕ). drop j b) {x = n - length a} {y = suc n - suc (length a)} (omega arith)

absorbed_rest-append_words :
    (a b : List ℕ) (c : Context)
    → length a % 8 ≡ 0
    → absorbed_rest (a ++ b) c ≡ absorbed_rest b (absorbed_words (length a / 8) a c)
unfolding absorbed_rest
absorbed_rest-append_words a b c whole =
    rw
      (
        absorbed_words-append (length a / 8) (length b / 8) (length (a ++ b) / 8) a b c
            (omega arith) (omega (arith, length-append a b)),
        drop-append_right (length (a ++ b) / 8 * 8) a b (omega (arith, length-append a b)),
      )
      (ap
        (λ (i : ℕ).
          save_bytes (drop i b)
            (absorbed_words (length b / 8) b (absorbed_words (length a / 8) a c)))
        {x = length (a ++ b) / 8 * 8 - length a} {y = length b / 8 * 8}
        (omega (arith, length-append a b)))

absorbed_rest-words :
    (a : List ℕ) (c : Context)
    → length a % 8 ≡ 0
    → absorbed_rest a c ≡ absorbed_words (length a / 8) a c
unfolding absorbed_rest save_bytes
absorbed_rest-words a c whole =
    ap (λ (l : List ℕ). save_bytes l (absorbed_words (length a / 8) a c))
      {x = drop (length a / 8 * 8) a} {y = []} (drop-all (length a / 8 * 8) a (omega arith))

absorbed_rest-append_tail :
    (a b : List ℕ) (c : Context)
    → length a % 8 + length b < 8
    → absorbed_rest (a ++ b) c ≡ save_bytes b (absorbed_rest a c)
unfolding absorbed_rest
absorbed_rest-append_tail a b c short =
    let same : length (a ++ b) / 8 ≡ length a / 8 = omega (arith, length-append a b) in
    rw
      (
        same,
        absorbed_words-prefix (length a / 8) a b c (omega arith),
        drop-append_left (length a / 8 * 8) a b (omega arith),
      )
      (save_bytes-append (drop (length a / 8 * 8) a) b (absorbed_words (length a / 8) a c))

absorbed_rest-byte_index :
    (a : List ℕ) (c : Context) → c.byte_index ≡ 0 → (absorbed_rest a c).byte_index ≡ length a % 8
unfolding absorbed_rest
absorbed_rest-byte_index a c aligned =
    let start : (absorbed_words (length a / 8) a c).byte_index ≡ 0 =
      absorbed_words-byte_index (length a / 8) a c ∙ aligned in
    save_bytes-byte_index (drop (length a / 8 * 8) a) (absorbed_words (length a / 8) a c)
      (omega (arith, start, length-drop (length a / 8 * 8) a))
    ∙ omega (arith, start, length-drop (length a / 8 * 8) a)

short_tail :
    (a b : List ℕ) (c : Context)
    → c.byte_index ≡ 0
    → length a % 8 ≢ 0
    → length a % 8 + length b < 8
    → kec_update (absorbed_rest a c) b ≡ some (save_bytes b (absorbed_rest a c))
short_tail a b c aligned partial short =
    short_update (absorbed_rest a c) b (omega (arith, absorbed_rest-byte_index a c aligned))

aligned_tail :
    (a b : List ℕ) (c : Context)
    → c.byte_index ≡ 0
    → length a % 8 ≡ 0
    → kec_update (absorbed_rest a c) b ≡ some (absorbed_rest b (absorbed_rest a c))
aligned_tail a b c aligned whole =
    aligned_update (absorbed_rest a c) b (omega (arith, absorbed_rest-byte_index a c aligned))

zero_or_not : (r : ℕ) → (r ≡ 0) ⊎ (r ≢ 0)
zero_or_not zero = inl refl
zero_or_not (suc r) = inr (λ e. omega arith)

-- `update_chunks`, once the first call is known to end.
second_update :
    (a b : List ℕ) (c : Context)
    → c.byte_index ≡ 0
    → (length a % 8 ≡ 0) ⊎ (length a % 8 + length b < 8)
    → some (absorbed_rest (a ++ b) c) ≡ kec_update (absorbed_rest a c) b
second_update a b c aligned cut = elim (zero_or_not (length a % 8)) [
  | inl whole ↦
      ap some (
        absorbed_rest-append_words a b c whole
        ∙ ap (absorbed_rest b) (sym (absorbed_rest-words a c whole)))
      ∙ sym (aligned_tail a b c aligned whole)
  | inr partial ↦
      let short : length a % 8 + length b < 8 = ground arith in
      ap some (absorbed_rest-append_tail a b c short) ∙ sym (short_tail a b c aligned partial short)
]

-- A message may be cut into two calls of `kec_update` at a multiple of eight bytes, or anywhere if
-- no word is completed by the second call: from a context with no partial word the two calls leave
-- the same context as one call with the whole message, and both end.
pub update_chunks :
    (c : Context) (a b : List ℕ)
    → c.byte_index ≡ 0
    → (length a % 8 ≡ 0) ⊎ (length a % 8 + length b < 8)
    → (c' : Context) × (kec_update c a ≡ some c') × (kec_update c (a ++ b) ≡ kec_update c' b)
update_chunks c a b aligned cut = (
  absorbed_rest a c,
  aligned_update c a (omega arith),
  aligned_update c (a ++ b) (omega arith) ∙ second_update a b c aligned cut,
)

-- The three ways a call of `kec_update` goes.
pub kec_update-cases :
    (c : Context) (buf : List ℕ)
    → ((length buf < old_tail c) × (kec_update c buf ≡ some (save_bytes buf c)))
      ⊎ (((old_tail c ≡ 0) × (kec_update c buf ≡ some (absorbed_rest buf c)))
          ⊎ (((0 < old_tail c) × (old_tail c ≤ length buf)) × (kec_update c buf ≡ none)))
kec_update-cases c buf =
    ground (arith, short_update c buf, aligned_update c buf, stuck_update c buf)
