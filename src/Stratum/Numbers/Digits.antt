-- ===== src/Stratum/Numbers/Digits.antt =====
-- What `stoull` reads from plain hexadecimal digits.
use native.Mathlib.Nat.{pow-suc, mul_assoc}
use mathlib.Core.List.{append_assoc}
use fpga_ethash.CommonData.{hex_digit}
use fpga_ethash.CommonData.Hex.{
  digits_of, digits_of-suc, digits_of-zero_digits, hex_value-hex_digit,
}
use fpga_ethash.CommonData.Hex.Digits.{IsHexDigit, hex_value-IsHexDigit}
use fpga_ethash.Base.{
  ℕ, zero, suc, ◌+◌, ◌*◌, ◌/◌, ◌%◌, ◌^◌, ◌<◌, ◌≡◌, ap, ◌∙◌, List, [], ◌∷◌, ◌++◌, ok, true, false,
  arith,
}
use fpga_ethash.Stratum.Numbers.{
  is_space, skip_space, starts_digit, digits_value, skip_0x, magnitude, sign, wrap_unsigned,
  bind_result, stoull,
}

pub digits_value-nothing : {n : ℕ} {acc : ℕ} → acc ≡ n → digits_value acc [] ≡ n
unfolding digits_value
digits_value-nothing e = e

digits_value-first :
    (acc d : ℕ) (rest : List ℕ)
    → d < 16
    → digits_value acc (hex_digit d ∷ rest) ≡ digits_value (acc * 16 + d) rest
unfolding digits_value
digits_value-first acc d rest h = rw (hex_value-hex_digit d h, digits_value)

-- Digits that are read in front of a rest shift what was read before them.
pub digits_value-digits_of :
    (k n acc : ℕ) (rest : List ℕ)
    → n < 16 ^ k
    → digits_value acc (digits_of k n ++ rest) ≡ digits_value (acc * 16 ^ k + n) rest
digits_value-digits_of zero n acc rest small =
    rw (digits_of-zero_digits n)
      (unfold digits_value in ap (λ (t : ℕ). digits_value t rest) {x = acc} (omega arith))
digits_value-digits_of (suc k) n acc rest small = rw (digits_of-suc k n) (
    ap (digits_value acc) (append_assoc (digits_of k (n / 16)) (hex_digit (n % 16) ∷ []) rest)
    ∙ digits_value-digits_of k (n / 16) acc (hex_digit (n % 16) ∷ rest)
        (omega (arith, pow-suc 16 k))
    ∙ digits_value-first (acc * 16 ^ k + n / 16) (n % 16) rest (omega arith)
    ∙ ap (λ (t : ℕ). digits_value t rest)
        (omega (arith, mul_assoc acc (16 ^ k) 16, ap (λ (t : ℕ). acc * t) (pow-suc 16 k))))

module _ (a b : ℕ) (s : List ℕ) (first : IsHexDigit a) (second : IsHexDigit b) where
  no_space : skip_space (a ∷ b ∷ s) ≡ a ∷ b ∷ s
  unfolding skip_space is_space
  no_space = ground arith

  no_sign : sign (a ∷ b ∷ s) ≡ (false, a ∷ b ∷ s)
  unfolding sign
  no_sign = ground arith

  no_prefix : skip_0x (a ∷ b ∷ s) ≡ a ∷ b ∷ s
  unfolding skip_0x
  no_prefix = ground arith

  digit_first : starts_digit (a ∷ b ∷ s) ≡ true
  unfolding starts_digit
  digit_first = rw ((hex_value-IsHexDigit a first).1, starts_digit)

  pub stoull_digits :
      digits_value 0 (a ∷ b ∷ s) < 2 ^ 64 → stoull (a ∷ b ∷ s) ≡ ok (digits_value 0 (a ∷ b ∷ s))
  unfolding stoull magnitude wrap_unsigned bind_result
  stoull_digits small = rw (no_space, no_sign, no_prefix, digit_first) (ground arith)
