-- ===== src/Keccak/Reads.antt =====
-- The reads of `kec_update` on its buffer: what they give where all of them are inside.
use fpga_ethash.Base.{
  ℕ, zero, suc, ◌-◌, ◌*◌, ◌/◌, ◌≤◌, ◌<◌, ◌≡◌, refl, ap, ◌∙◌, List, [], ◌∷◌, some, length,
  length-drop, drop, get_elem?, arith, bind_eq,
}
use fpga_ethash.Keccak.{
  Context, save_byte, save_tail, absorb_word, absorb_words, absorb_rest, buffer_word, little_endian,
  word,
}

-- The same loops on the bytes that there are.
unfoldable pub save_bytes : List ℕ → Context → Context
save_bytes [] c = c
save_bytes (b ∷ rest) c = save_bytes rest (save_byte b c)

unfoldable pub first_word : List ℕ → ℕ
first_word buf =
    little_endian (word buf 0) (word buf 1) (word buf 2) (word buf 3) (word buf 4) (word buf 5)
      (word buf 6) (word buf 7)

unfoldable pub absorbed_words : ℕ → List ℕ → Context → Context
absorbed_words zero buf c = c
absorbed_words (suc words) buf c =
    absorbed_words words (drop 8 buf) (absorb_word (first_word buf) c)

unfoldable pub absorbed_rest : List ℕ → Context → Context
absorbed_rest buf c =
    let words = length buf / 8 in save_bytes (drop (words * 8) buf) (absorbed_words words buf c)

get_elem?-word : (buf : List ℕ) (i : ℕ) → i < length buf → get_elem? buf i ≡ some (word buf i)
get_elem?-word [] i h = absurd (omega arith)
get_elem?-word (b ∷ buf) zero h = refl
get_elem?-word (b ∷ buf) (suc i) h = get_elem?-word buf i (omega arith)

buffer_word-inside : (buf : List ℕ) → 8 ≤ length buf → buffer_word buf ≡ some (first_word buf)
unfolding buffer_word first_word
buffer_word-inside buf h =
    bind_eq _ (get_elem?-word buf 0 (omega arith))
    ∙ bind_eq _ (get_elem?-word buf 1 (omega arith))
    ∙ bind_eq _ (get_elem?-word buf 2 (omega arith))
    ∙ bind_eq _ (get_elem?-word buf 3 (omega arith))
    ∙ bind_eq _ (get_elem?-word buf 4 (omega arith))
    ∙ bind_eq _ (get_elem?-word buf 5 (omega arith))
    ∙ bind_eq _ (get_elem?-word buf 6 (omega arith))
    ∙ bind_eq _ (get_elem?-word buf 7 (omega arith))

absorb_words-inside :
    (words : ℕ) (buf : List ℕ) (c : Context)
    → words * 8 ≤ length buf
    → absorb_words words buf c ≡ some (absorbed_words words buf c)
unfolding absorb_words absorbed_words
absorb_words-inside zero buf c h = refl
absorb_words-inside (suc words) buf c h =
    bind_eq _ (buffer_word-inside buf (omega arith))
    ∙ absorb_words-inside words (drop 8 buf) (absorb_word (first_word buf) c)
        (omega (arith, length-drop 8 buf))

pub save_tail-all :
    (buf : List ℕ) (c : Context) → save_tail (length buf) buf c ≡ some (save_bytes buf c)
unfolding save_tail save_bytes
save_tail-all [] c = refl
save_tail-all (b ∷ rest) c = save_tail-all rest (save_byte b c)

pub absorb_rest-inside :
    (buf : List ℕ) (c : Context) → absorb_rest buf c ≡ some (absorbed_rest buf c)
unfolding absorb_rest absorbed_rest
absorb_rest-inside buf c =
    let words : ℕ = length buf / 8 in
    bind_eq _ (absorb_words-inside words buf c (omega arith))
    ∙ ap (λ (n : ℕ). save_tail n (drop (words * 8) buf) (absorbed_words words buf c))
        {x = length buf - words * 8} {y = length (drop (words * 8) buf)}
        (omega (arith, length-drop (words * 8) buf))
    ∙ save_tail-all (drop (words * 8) buf) (absorbed_words words buf c)
