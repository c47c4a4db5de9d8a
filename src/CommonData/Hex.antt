-- ===== src/CommonData/Hex.antt =====
-- Hexadecimal digits: what a padded number looks like. The round trips stand in the children.
pub mod RoundTrip
pub mod Errors
pub mod Digits
use native.Mathlib.Nat.{pow-suc}
use mathlib.Core.List.{append_assoc, append-nil}
use fpga_ethash.Base.{
  ℕ, zero, suc, ◌+◌, ◌-◌, ◌*◌, ◌/◌, ◌%◌, ◌^◌, ◌≤◌, ◌<◌, ◌≡◌, refl, sym, ap, ap₂, ◌∙◌, ◌⊎◌, inl, inr,
  List, [], ◌∷◌, ◌++◌, Option, none, some, Bool, true, false, All, length, length-append,
  length-replicate, arith, IsU8, IsU64, u8, ltb, leb, ltb→lt, ◌==◌, if◌then◌else◌, Bool-cases,
  Option-cases, Result, ok, err, replicate,
}
use fpga_ethash.CommonData.{
  WhenError, dont_throw, throw, HexPrefix, dont_add, add, HexError, bad_hex_character, hex_value,
  from_hex_char, bad_digit, pair_value, from_hex_pairs, skip_prefix, from_hex_odd, from_hex,
  hex_digit, hex_text_fuel, hex_text, pad_left, hex_padded, with_prefix, to_hex_from, to_hex,
  to_hex_number, from_big_endian,
}
use fpga_ethash.CommonData.Endian.{be_value, be_value-append}

pub hex_value-hex_digit : (d : ℕ) → d < 16 → hex_value (hex_digit d) ≡ some d
unfolding hex_value hex_digit
hex_value-hex_digit d h = ground arith

hex_digit-ne_x : (d : ℕ) → d < 16 → (hex_digit d == b'x') ≡ false
unfolding hex_digit
hex_digit-ne_x d h = ground arith

-- The `k` lowest digits of `n`.
pub digits_of : ℕ → ℕ → List ℕ
digits_of zero n = []
digits_of (suc k) n = digits_of k (n / 16) ++ hex_digit (n % 16) ∷ []

pub digits_of-zero_digits : (n : ℕ) → digits_of 0 n ≡ []
unfolding digits_of
digits_of-zero_digits n = refl

pub digits_of-suc :
    (k n : ℕ) → digits_of (suc k) n ≡ digits_of k (n / 16) ++ hex_digit (n % 16) ∷ []
unfolding digits_of
digits_of-suc k n = refl

pub length-digits_of : (k n : ℕ) → length (digits_of k n) ≡ k
unfolding digits_of
length-digits_of zero n = refl
length-digits_of (suc k) n = omega (
  arith,
  length-append (digits_of k (n / 16)) (hex_digit (n % 16) ∷ []),
  length-digits_of k (n / 16),
)

replicate-snoc {ℓ} : {A : Type ℓ} (k : ℕ) (a : A) → replicate k a ++ a ∷ [] ≡ a ∷ replicate k a
replicate-snoc zero a = refl
replicate-snoc (suc k) a = ap (λ xs. a ∷ xs) (replicate-snoc k a)

pub digits_of-zero : (k n : ℕ) → n ≡ 0 → digits_of k n ≡ replicate k b'0'
unfolding digits_of hex_digit
digits_of-zero zero n h = refl
digits_of-zero (suc k) n h = rw (digits_of-zero k (n / 16) (omega arith), h) (replicate-snoc k b'0')

text_small : (f n : ℕ) → n < 16 → hex_text_fuel (suc f) n ≡ hex_digit n ∷ []
unfolding hex_text_fuel
text_small f n h = ground arith

text_large :
    (f n : ℕ)
    → 16 ≤ n
    → hex_text_fuel (suc f) n ≡ hex_text_fuel f (n / 16) ++ hex_digit (n % 16) ∷ []
unfolding hex_text_fuel
text_large f n h = ground arith

-- Padding in one form, whether or not the text is long enough.
pad_left-eq-append :
    (s : List ℕ) (len fill : ℕ) → pad_left s len fill ≡ replicate (len - length s) fill ++ s
unfolding pad_left
pad_left-eq-append s len fill = elim (Bool-cases (ltb (length s) len)) [
  | inl short ↦ rw short
  | inr long ↦ rw (long, no_room long)
]
  where
    no_room : ltb (length s) len ≡ false → len - length s ≡ 0
    no_room long = ground arith

-- With room for its digits, a padded number shows exactly its lowest digits.
pad_digits :
    (k f n : ℕ)
    → n < 16 ^ suc k
    → k < f
    → replicate (suc k - length (hex_text_fuel f n)) b'0' ++ hex_text_fuel f n ≡ digits_of (suc k) n
unfolding digits_of
pad_digits k zero n h kf = absurd (omega arith)
pad_digits zero (suc f) n h kf = rw (text_small f n h) (ap (λ d. hex_digit d ∷ []) (omega arith))
pad_digits (suc k) (suc f) n h kf = elim (Bool-cases (ltb n 16)) [
  | inl small ↦
      rw (text_small f n (ltb→lt n 16 small), one_digit)
        (ap₂ {C = List ℕ} (λ xs d. xs ++ hex_digit d ∷ [])
          (sym (digits_of-zero (suc k) (n / 16) (ground arith))) (ground arith))
  | inr large ↦
      rw (text_large f n (ground arith), counted, ← append_assoc)
        (ap (λ xs. xs ++ hex_digit (n % 16) ∷ [])
          (pad_digits k f (n / 16) (omega (arith, pow-suc 16 (suc k))) (omega arith)))
]
  where
    one_digit : suc (suc k) - 1 ≡ suc k
    one_digit = omega arith

    counted :
        suc (suc k) - length (hex_text_fuel f (n / 16) ++ hex_digit (n % 16) ∷ [])
        ≡ suc k - length (hex_text_fuel f (n / 16))
    counted = omega (arith, length-append (hex_text_fuel f (n / 16)) (hex_digit (n % 16) ∷ []))

-- A number that fits in `k + 1` digits is written with its `k + 1` lowest ones.
pub hex_padded-eq-digits_of :
    (k n : ℕ) → n < 16 ^ suc k → k < 16 → hex_padded (suc k) n ≡ digits_of (suc k) n
unfolding hex_padded
hex_padded-eq-digits_of k n h small =
    rw (pad_left-eq-append (hex_text_fuel 16 n) (suc k) b'0') (pad_digits k 16 n h small)

-- One round of the loop over pairs.
pub from_hex_pairs_good :
    (a b v : ℕ) (rest : List ℕ) (w : WhenError) (ret : List ℕ)
    → pair_value (hex_value a) (hex_value b) ≡ some v
    → from_hex_pairs (a ∷ b ∷ rest) w ret ≡ from_hex_pairs rest w (ret ++ v ∷ [])
unfolding from_hex_pairs
from_hex_pairs_good a b v rest w ret h = rw (h, from_hex_pairs)

pub from_hex_pairs_bad :
    (a b : ℕ) (rest : List ℕ) (w : WhenError) (ret : List ℕ)
    → pair_value (hex_value a) (hex_value b) ≡ none
    → from_hex_pairs (a ∷ b ∷ rest) w ret ≡ bad_digit w
unfolding from_hex_pairs
from_hex_pairs_bad a b rest w ret h = rw (h, from_hex_pairs)
