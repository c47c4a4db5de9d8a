-- ===== src/CommonData/Hex/Digits.antt =====
-- The digits of a number in two parts, and the bytes that stand for digits.
use native.Mathlib.Nat.{pow-suc, div-div-eq-div-mul}
use mathlib.Core.List.{append_assoc, append-nil}
use fpga_ethash.Base.{
  ℕ, zero, suc, ◌+◌, ◌-◌, ◌/◌, ◌%◌, ◌^◌, ◌≤◌, ◌<◌, ◌≡◌, sym, ap, ap₂, ◌∙◌, ◌⊎◌, inl, inr, List, [],
  ◌∷◌, ◌++◌, some, All, All-append, arith, ltb, Bool-cases,
}
use fpga_ethash.CommonData.{hex_digit, hex_value, to_hex_number, dont_add}
use fpga_ethash.CommonData.Hex.{digits_of, hex_padded-eq-digits_of}

-- The digits in front of the last `j` are those of the quotient.
pub digits_of-add : (k j n : ℕ) → digits_of (k + j) n ≡ digits_of k (n / 16 ^ j) ++ digits_of j n
unfolding digits_of
digits_of-add k zero n =
    ap₂ digits_of {x = k + 0} {y = k} (omega arith) (omega arith)
    ∙ sym (append-nil (digits_of k (n / 16 ^ 0)))
digits_of-add k (suc j) n =
    ap (λ (t : ℕ). digits_of t n) {x = k + suc j} {y = suc (k + j)} (omega arith)
    ∙ ap (λ (s : List ℕ). s ++ hex_digit (n % 16) ∷ []) (digits_of-add k j (n / 16))
    ∙ append_assoc (digits_of k (n / 16 / 16 ^ j)) (digits_of j (n / 16)) (hex_digit (n % 16) ∷ [])
    ∙ ap (λ (t : ℕ). digits_of k t ++ (digits_of j (n / 16) ++ hex_digit (n % 16) ∷ []))
        (div-div-eq-div-mul n 16 (16 ^ j)
          ∙ ap (λ (t : ℕ). n / t) {y = 16 ^ suc j} (omega (arith, pow-suc 16 j)))

-- A byte that stands for a digit, in lower case.
abbrev pub IsHexDigit : ℕ → Type 0
IsHexDigit c = ((b'0' ≤ c) × (c ≤ b'9')) ⊎ ((b'a' ≤ c) × (c ≤ b'f'))

hex_digit-IsHexDigit : (d : ℕ) → d < 16 → IsHexDigit (hex_digit d)
unfolding hex_digit
hex_digit-IsHexDigit d h = elim (Bool-cases (ltb d 10)) [
  | inl low ↦ inl (ground arith, ground arith)
  | inr high ↦ inr (ground arith, ground arith)
]

pub digits_of-IsHexDigit : (k n : ℕ) → All IsHexDigit (digits_of k n)
unfolding digits_of
digits_of-IsHexDigit zero n = tt
digits_of-IsHexDigit (suc k) n =
    All-append IsHexDigit (digits_of k (n / 16)) (hex_digit (n % 16) ∷ [])
      (digits_of-IsHexDigit k (n / 16)) (hex_digit-IsHexDigit (n % 16) (omega arith), tt)

pub hex_value-IsHexDigit : (c : ℕ) → IsHexDigit c → (v : ℕ) × (hex_value c ≡ some v)
unfolding hex_value
hex_value-IsHexDigit c (inl h) = (c - b'0', ground arith)
hex_value-IsHexDigit c (inr h) = (c - b'a' + 10, ground arith)

-- A 64-bit number is written with its sixteen digits.
pub to_hex_number-digits_of : (n : ℕ) → n < 2 ^ 64 → to_hex_number n dont_add 16 ≡ digits_of 16 n
unfolding to_hex_number
to_hex_number-digits_of n h = hex_padded-eq-digits_of 15 n (omega arith) (omega arith)
