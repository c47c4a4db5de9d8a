-- ===== src/CommonData/Hex/Errors.antt =====
-- What `fromHex` does on every text: the bytes, or the bad digit.
use mathlib.Core.List.{append_assoc, append-nil}
use fpga_ethash.Base.{
  ◌*◌, u8, Option, some-injective, ℕ, ◌+◌, ◌/◌, ◌%◌, ◌<◌, ◌≡◌, refl, sym, ap, ◌∙◌, ◌⊎◌, inl, inr,
  List, [], ◌∷◌, ◌++◌, none, some, Bool, true, false, All, length, arith, IsU8, ◌==◌, Bool-cases,
  Option-cases, Result, ok,
}
use fpga_ethash.CommonData.Endian.{be_value}
use fpga_ethash.CommonData.{
  WhenError, HexError, hex_value, bad_digit, pair_value, from_hex_pairs, skip_prefix, from_hex_odd,
  from_hex,
}
use fpga_ethash.CommonData.Hex.{from_hex_pairs_good, from_hex_pairs_bad}

-- Every byte of the text is a digit.
pub all_hex : List ℕ → Bool
all_hex [] = true
all_hex (c ∷ rest) = elim (hex_value c) [ some v ↦ all_hex rest | none ↦ false ]

-- The number that the digits of the text write behind the number `acc`.
pub hex_number : ℕ → List ℕ → ℕ
hex_number acc [] = acc
hex_number acc (c ∷ rest) = elim (hex_value c) [
  | some v ↦ hex_number (acc * 16 + v) rest
  | none ↦ acc
]

-- The result `r` of reading the digits `s` behind `ret`: as many bytes as `s` has pairs, a lone
-- first digit counted as one, which write the same number to the base 256 (behind `acc`), or the
-- refusal.
abbrev pub HexOutcome : ℕ → List ℕ → WhenError → List ℕ → Result HexError (List ℕ) → Type 0
HexOutcome acc s w ret r =
    ((all_hex s ≡ true)
      × ((bytes : List ℕ) × (r ≡ ok (ret ++ bytes))
          × (length bytes ≡ (length s + 1) / 2)
          × (be_value acc bytes ≡ hex_number acc s)
          × All IsU8 bytes))
    ⊎ ((all_hex s ≡ false) × (r ≡ bad_digit w))

hex_value-lt : (c v : ℕ) → hex_value c ≡ some v → v < 16
unfolding hex_value
hex_value-lt c v h = ground arith

pair_value-IsU8 : (a b v : ℕ) → pair_value (hex_value a) (hex_value b) ≡ some v → IsU8 v
unfolding pair_value
pair_value-IsU8 a b v h = ground arith

all_hex_pair :
    (a b v : ℕ) (rest : List ℕ)
    → pair_value (hex_value a) (hex_value b) ≡ some v
    → all_hex (a ∷ b ∷ rest) ≡ all_hex rest
unfolding all_hex pair_value
all_hex_pair a b v rest h = ground arith

all_hex_bad_pair :
    (a b : ℕ) (rest : List ℕ)
    → pair_value (hex_value a) (hex_value b) ≡ none
    → all_hex (a ∷ b ∷ rest) ≡ false
unfolding all_hex pair_value
all_hex_bad_pair a b rest h = ground arith

hex_digits_inv :
    (o p : Option ℕ) {v : ℕ}
    → pair_value o p ≡ some v
    → (x : ℕ) × (y : ℕ) × (o ≡ some x) × (p ≡ some y) × (v ≡ u8 (x * 16 + y))
unfolding pair_value
hex_digits_inv none p h = cc
hex_digits_inv (some x) none h = cc
hex_digits_inv (some x) (some y) h = (x, y, refl, refl, sym (some-injective _ _ h))

hex_number_step :
    (acc c v : ℕ) (rest : List ℕ)
    → hex_value c ≡ some v
    → hex_number acc (c ∷ rest) ≡ hex_number (acc * 16 + v) rest
unfolding hex_number
hex_number_step acc c v rest h = rw (h, hex_number) refl

hex_number_pair :
    (acc a b v : ℕ) (rest : List ℕ)
    → pair_value (hex_value a) (hex_value b) ≡ some v
    → hex_number acc (a ∷ b ∷ rest) ≡ hex_number (acc * 256 + v) rest
hex_number_pair acc a b v rest h =
    let (x, y, first, second, value) = hex_digits_inv (hex_value a) (hex_value b) h in
    hex_number_step acc a x (b ∷ rest) first
    ∙ hex_number_step (acc * 16 + x) b y rest second
    ∙ ap (λ (n : ℕ). hex_number n rest) {x = (acc * 16 + x) * 16 + y} {y = acc * 256 + v}
        (omega (arith, value, hex_value-lt a x first, hex_value-lt b y second))

HexOutcome-cons :
    (acc a b v : ℕ) (rest : List ℕ) (w : WhenError) (ret : List ℕ)
    → pair_value (hex_value a) (hex_value b) ≡ some v
    → HexOutcome (acc * 256 + v) rest w (ret ++ v ∷ []) (from_hex_pairs rest w (ret ++ v ∷ []))
    → HexOutcome acc (a ∷ b ∷ rest) w ret (from_hex_pairs (a ∷ b ∷ rest) w ret)
HexOutcome-cons acc a b v rest w ret h (inl (good, (bytes, e, size, same, all))) = inl (
  all_hex_pair a b v rest h ∙ good,
  (
    v ∷ bytes,
    from_hex_pairs_good a b v rest w ret h ∙ e ∙ ap ok (append_assoc ret (v ∷ []) bytes),
    omega arith,
    same ∙ sym (hex_number_pair acc a b v rest h),
    (pair_value-IsU8 a b v h, all),
  ),
)
HexOutcome-cons acc a b v rest w ret h (inr (bad, e)) =
    inr (all_hex_pair a b v rest h ∙ bad, from_hex_pairs_good a b v rest w ret h ∙ e)

from_hex_pairs-HexOutcome :
    (acc : ℕ) (s : List ℕ) (w : WhenError) (ret : List ℕ)
    → length s % 2 ≡ 0
    → HexOutcome acc s w ret (from_hex_pairs s w ret)
from_hex_pairs-HexOutcome acc [] w ret even =
    unfold from_hex_pairs all_hex hex_number in
    inl (refl, ([], ap ok (sym (append-nil ret)), refl, refl, tt))
from_hex_pairs-HexOutcome acc (a ∷ []) w ret even = absurd (omega arith)
from_hex_pairs-HexOutcome acc (a ∷ b ∷ rest) w ret even =
    elim (Option-cases (pair_value (hex_value a) (hex_value b))) [
      | inl bad ↦ inr (all_hex_bad_pair a b rest bad, from_hex_pairs_bad a b rest w ret bad)
      | inr (v, good) ↦
          HexOutcome-cons acc a b v rest w ret good
            (from_hex_pairs-HexOutcome (acc * 256 + v) rest w (ret ++ v ∷ []) (omega arith))
    ]

HexOutcome-odd :
    (c h : ℕ) (rest : List ℕ) (w : WhenError)
    → hex_value c ≡ some h
    → length rest % 2 ≡ 0
    → HexOutcome h rest w (h ∷ []) (from_hex_pairs rest w (h ∷ []))
    → HexOutcome 0 (c ∷ rest) w [] (from_hex_odd (c ∷ rest) w)
unfolding all_hex from_hex_odd
HexOutcome-odd c h rest w digit even (inl (good, (bytes, e, size, same, all))) = inl (
  rw (digit, all_hex) good,
  (
    h ∷ bytes,
    rw (digit, from_hex_odd) e,
    omega arith,
    ap (λ (n : ℕ). be_value n bytes) {x = 0 * 256 + h} {y = h} (omega arith)
        ∙ same
        ∙ ap (λ (n : ℕ). hex_number n rest) {x = h} {y = 0 * 16 + h} (omega arith)
        ∙ sym (hex_number_step 0 c h rest digit),
    (omega (arith, hex_value-lt c h digit), all),
  ),
)
HexOutcome-odd c h rest w digit even (inr (bad, e)) =
    inr (rw (digit, all_hex) bad, rw (digit, from_hex_odd) e)

from_hex_odd-HexOutcome :
    (s : List ℕ) (w : WhenError) → length s % 2 ≡ 1 → HexOutcome 0 s w [] (from_hex_odd s w)
unfolding all_hex from_hex_odd
from_hex_odd-HexOutcome [] w odd = absurd (omega arith)
from_hex_odd-HexOutcome (c ∷ rest) w odd = elim (Option-cases (hex_value c)) [
  | inl bad ↦ inr (rw (bad, all_hex), rw (bad, from_hex_odd))
  | inr (h, good) ↦
      HexOutcome-odd c h rest w good (omega arith)
        (from_hex_pairs-HexOutcome h rest w (h ∷ []) (omega arith))
]

length-skip_prefix : (s : List ℕ) → length (skip_prefix s) % 2 ≡ length s % 2
unfolding skip_prefix
length-skip_prefix [] = refl
length-skip_prefix (a ∷ []) = refl
length-skip_prefix (a ∷ b ∷ rest) = ground arith

-- `fromHex` on any text `s`, once the prefix `0x` is skipped: if only digits are left, it returns
-- bytes, one for each pair and one for a lone first digit, that write to the base 256 the number that
-- the digits write to the base 16; otherwise it throws, or returns no bytes where it is told not to.
pub from_hex-HexOutcome :
    (s : List ℕ) (w : WhenError) → HexOutcome 0 (skip_prefix s) w [] (from_hex s w)
unfolding from_hex
from_hex-HexOutcome s w = elim (Bool-cases (length s % 2 == 1)) [
  | inl odd ↦
      rw odd (from_hex_odd-HexOutcome (skip_prefix s) w (ground (arith, length-skip_prefix s)))
  | inr even ↦
      rw even
        (from_hex_pairs-HexOutcome 0 (skip_prefix s) w [] (ground (arith, length-skip_prefix s)))
]
