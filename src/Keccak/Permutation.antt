-- ===== src/Keccak/Permutation.antt =====
-- `keccakf` keeps the shape of a state, and what its theta step leaves alone.
use native.Mathlib.Nat.{div-le_self, lt_of_le_of_lt}
use fpga_ethash.Base.{
  ℕ, ◌+◌, ◌-◌, ◌%◌, ◌^◌, ◌≤◌, ◌<◌, ◌≡◌, refl, ◌∙◌, List, [], ◌∷◌, All, All-set, All-get_or, length,
  length-set, get_or, set, arith, IsU64, bit_xor, bit_and, bit_xor-lt, bit_and-lt, bit_or-lt,
  for_each_inv, for_each_inv_in, get_or-set_ne, indices, not64, shl64, shr,
}
use fpga_ethash.Keccak.{
  rotl64, word, xor_word, column, columns, theta_inner, theta_mix, theta, Lane, rho_pi_step, rho_pi,
  chi_row, chi, iota, keccak_round, keccakf, keccakf_rotc, keccakf_piln, keccakf_rndc,
}

-- 25 words of 64 bits.
pub record IsState (s : List ℕ) : Type 0 where
  pub size : length s ≡ 25
  pub words : All IsU64 s

word-IsU64 : (s : List ℕ) (i : ℕ) → All IsU64 s → IsU64 (word s i)
word-IsU64 s i all = All-get_or IsU64 s i 0 (omega arith) all

rotl64-IsU64 : (x y : ℕ) → IsU64 x → IsU64 (rotl64 x y)
unfolding rotl64
rotl64-IsU64 x y h =
    bit_or-lt 64 (shl64 x y) (shr x (64 - y)) (omega arith)
      (lt_of_le_of_lt (div-le_self x (2 ^ (64 - y))) h)

set-IsState : (i v : ℕ) (s : List ℕ) → IsU64 v → IsState s → IsState (set s i v)
set-IsState i v s h st = record {
  size = length-set s i v ∙ st.size;
  words = All-set IsU64 s i v h st.words;
}

pub xor_word-IsState : (i t : ℕ) (s : List ℕ) → IsU64 t → IsState s → IsState (xor_word i t s)
unfolding xor_word
xor_word-IsState i t s h st =
    set-IsState i (bit_xor (word s i) t) s (bit_xor-lt 64 (word s i) t (word-IsU64 s i st.words) h)
      st

column-IsU64 : (s : List ℕ) (i : ℕ) → All IsU64 s → IsU64 (column s i)
unfolding column
column-IsU64 s i all =
    xor _ _ (xor _ _ (xor _ _ (xor _ _ (at i) (at (i + 5))) (at (i + 10))) (at (i + 15)))
      (at (i + 20))
  where
    at : (j : ℕ) → IsU64 (word s j)
    at j = word-IsU64 s j all

    xor : (a b : ℕ) → IsU64 a → IsU64 b → IsU64 (bit_xor a b)
    xor a b = bit_xor-lt 64 a b

columns-IsU64 : (s : List ℕ) → All IsU64 s → All IsU64 (columns s)
unfolding columns
columns-IsU64 s all = (
  column-IsU64 s 0 all,
  (
    column-IsU64 s 1 all,
    (column-IsU64 s 2 all, (column-IsU64 s 3 all, (column-IsU64 s 4 all, tt))),
  ),
)

theta-IsState : (s : List ℕ) → IsState s → IsState (theta s)
unfolding theta theta_inner theta_mix
theta-IsState s st =
    for_each_inv IsState (indices 5 0) _
      (λ i x p.
        for_each_inv IsState (indices 5 0) _
          (λ j y q. xor_word-IsState (j + i) (theta_mix (columns s) i) y (mix i) q) x p)
      s st
  where
    mix : (i : ℕ) → IsU64 (theta_mix (columns s) i)
    mix i =
        bit_xor-lt 64 (word (columns s) ((i + 4) % 5)) _
          (word-IsU64 (columns s) ((i + 4) % 5) (columns-IsU64 s st.words))
          (rotl64-IsU64 _ 1 (word-IsU64 (columns s) ((i + 1) % 5) (columns-IsU64 s st.words)))

rho_pi-IsState : (s : List ℕ) → IsState s → IsState (rho_pi s)
unfolding rho_pi rho_pi_step
rho_pi-IsState s st =
    (for_each_inv (λ l. IsState l.words × IsU64 l.t) (indices 24 0) rho_pi_step step _
      (st, word-IsU64 s 5 st.words)).0
  where
    step :
        (i : ℕ) (l : Lane)
        → IsState l.words × IsU64 l.t
        → IsState (rho_pi_step i l).words × IsU64 (rho_pi_step i l).t
    step i l (p, h) = (
      set-IsState (get_or keccakf_piln i 0) _ l.words (rotl64-IsU64 l.t (get_or keccakf_rotc i 0) h)
          p,
      word-IsU64 l.words (get_or keccakf_piln i 0) p.words,
    )

chi_row-IsState : (j : ℕ) (s : List ℕ) → IsState s → IsState (chi_row j s)
unfolding chi_row
chi_row-IsState j s st =
    for_each_inv IsState (indices 5 0) _ (λ i x p. xor_word-IsState (j + i) _ x (mixed i) p) s st
  where
    bc : List ℕ
    bc = word s j ∷ word s (j + 1) ∷ word s (j + 2) ∷ word s (j + 3) ∷ word s (j + 4) ∷ []

    at : (i : ℕ) → IsU64 (word s i)
    at i = word-IsU64 s i st.words

    row : All IsU64 bc
    row = (at j, (at (j + 1), (at (j + 2), (at (j + 3), (at (j + 4), tt)))))

    mixed : (i : ℕ) → IsU64 (bit_and (not64 (word bc ((i + 1) % 5))) (word bc ((i + 2) % 5)))
    mixed i = bit_and-lt 64 _ _ (omega arith) (word-IsU64 bc ((i + 2) % 5) row)

chi-IsState : (s : List ℕ) → IsState s → IsState (chi s)
unfolding chi
chi-IsState s st = for_each_inv IsState (0 ∷ 5 ∷ 10 ∷ 15 ∷ 20 ∷ []) chi_row chi_row-IsState s st

rndc-IsU64 : All IsU64 keccakf_rndc
rndc-IsU64 = omega arith

iota-IsState : (round : ℕ) (s : List ℕ) → IsState s → IsState (iota round s)
unfolding iota
iota-IsState round s st =
    xor_word-IsState 0 (get_or keccakf_rndc round 0) s
      (All-get_or IsU64 keccakf_rndc round 0 (omega arith) rndc-IsU64) st

keccak_round-IsState : (round : ℕ) (s : List ℕ) → IsState s → IsState (keccak_round round s)
unfolding keccak_round
keccak_round-IsState round s st =
    iota-IsState round _ (chi-IsState _ (rho_pi-IsState _ (theta-IsState s st)))

-- The permutation takes 25 words of 64 bits to 25 words of 64 bits.
pub keccakf-IsState : (s : List ℕ) → IsState s → IsState (keccakf s)
unfolding keccakf
keccakf-IsState s st = for_each_inv IsState (indices 24 0) keccak_round keccak_round-IsState s st

theta_inner_high : (i t k : ℕ) (s : List ℕ) → i < 5 → 9 ≤ k → word (theta_inner i t s) k ≡ word s k
unfolding theta_inner xor_word
theta_inner_high i t k s hi hk =
    for_each_inv_in (λ y. word y k ≡ word s k) (λ j. j < 5) (indices 5 0) (λ j. xor_word (j + i) t)
      (λ j y hj q. get_or-set_ne y (j + i) k (bit_xor (word y (j + i)) t) 0 (omega arith) ∙ q)
      (omega arith) s refl

-- Theta writes only the first nine words: its inner loop steps by one where a column's words stand
-- five apart. The other sixteen words come out as they went in, whatever the state.
pub theta_high : (s : List ℕ) (k : ℕ) → 9 ≤ k → word (theta s) k ≡ word s k
unfolding theta
theta_high s k h =
    for_each_inv_in (λ x. word x k ≡ word s k) (λ i. i < 5) (indices 5 0)
      (λ i. theta_inner i (theta_mix (columns s) i))
      (λ i x hi p. theta_inner_high i (theta_mix (columns s) i) k x hi h ∙ p) (omega arith) s refl
