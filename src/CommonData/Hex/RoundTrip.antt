-- ===== src/CommonData/Hex/RoundTrip.antt =====
-- What `fromHex` makes of what `toHex` writes.
use native.Mathlib.Nat.{div-div-eq-div-mul}
use mathlib.Core.List.{append_assoc, append-nil}
use fpga_ethash.Base.{
  ℕ, zero, suc, ◌+◌, ◌*◌, ◌/◌, ◌%◌, ◌^◌, ◌<◌, ◌≡◌, refl, sym, ap, ap₂, ◌∙◌, List, [], ◌∷◌, ◌++◌,
  some, false, All, length, arith, IsU8, IsU64, u8, ◌==◌, ok,
}
use fpga_ethash.CommonData.{
  WhenError, HexPrefix, dont_add, add, hex_value, pair_value, from_hex_pairs, skip_prefix, from_hex,
  hex_digit, hex_padded, to_hex_from, to_hex, to_hex_number, to_big_endian, from_big_endian,
  with_prefix,
}
use fpga_ethash.CommonData.Hex.{
  digits_of, hex_value-hex_digit, hex_digit-ne_x, hex_padded-eq-digits_of, from_hex_pairs_good,
}
use fpga_ethash.CommonData.Endian.{
  to_big_endian-suc, to_big_endian-IsU8, from_big_endian-to_big_endian,
}

-- A byte is written as its two digits.
hex_padded-byte : (b : ℕ) → b < 256 → hex_padded 2 b ≡ hex_digit (b / 16) ∷ hex_digit (b % 16) ∷ []
unfolding digits_of
hex_padded-byte b h =
    hex_padded-eq-digits_of 1 b h (omega arith)
    ∙ ap (λ (t : ℕ). hex_digit t ∷ hex_digit (b % 16) ∷ []) two
  where
    two : b / 16 % 16 ≡ b / 16
    two = omega arith

digit_pair-value :
    (b : ℕ)
    → b < 256
    → pair_value (hex_value (hex_digit (b / 16))) (hex_value (hex_digit (b % 16))) ≡ some b
digit_pair-value b h =
    rw (hex_value-hex_digit (b / 16) (omega arith), hex_value-hex_digit (b % 16) (omega arith))
      (unfold pair_value in ap some (omega arith))

from_hex_pairs-byte :
    (b : ℕ) (rest : List ℕ) (w : WhenError) (ret : List ℕ)
    → b < 256
    → from_hex_pairs (hex_padded 2 b ++ rest) w ret ≡ from_hex_pairs rest w (ret ++ b ∷ [])
from_hex_pairs-byte b rest w ret h = rw (hex_padded-byte b h) (
    from_hex_pairs_good (hex_digit (b / 16)) (hex_digit (b % 16)) b rest w ret
      (digit_pair-value b h))

from_hex_pairs-to_hex_from :
    (bytes : List ℕ) (w : WhenError) (ret : List ℕ)
    → All IsU8 bytes
    → from_hex_pairs (to_hex_from 2 bytes) w ret ≡ ok (ret ++ bytes)
unfolding to_hex_from from_hex_pairs
from_hex_pairs-to_hex_from [] w ret all = ap ok (sym (append-nil ret))
from_hex_pairs-to_hex_from (b ∷ rest) w ret all =
    from_hex_pairs-byte b (to_hex_from 2 rest) w ret all.0
    ∙ from_hex_pairs-to_hex_from rest w (ret ++ b ∷ []) all.1
    ∙ ap ok (append_assoc ret (b ∷ []) rest)

length-to_hex_from :
    (bytes : List ℕ) → All IsU8 bytes → length (to_hex_from 2 bytes) ≡ 2 * length bytes
unfolding to_hex_from
length-to_hex_from [] all = refl
length-to_hex_from (b ∷ rest) all =
    rw (hex_padded-byte b all.0) (omega (arith, length-to_hex_from rest all.1))

-- No text of digits begins with the prefix: its second byte is no `x`.
skip_prefix-to_hex_from :
    (bytes : List ℕ) → All IsU8 bytes → skip_prefix (to_hex_from 2 bytes) ≡ to_hex_from 2 bytes
skip_prefix-to_hex_from [] all = unfold to_hex_from skip_prefix in refl
skip_prefix-to_hex_from (b ∷ rest) all =
    unfold to_hex_from skip_prefix in
    rw (hex_padded-byte b all.0) (ground (arith, hex_digit-ne_x (b % 16)))

even-length : (k : ℕ) → (2 * k % 2 == 1) ≡ false
even-length k = ground arith

-- `fromHex` reads the text that `toHex` writes for any bytes, with the prefix or without it, as
-- those bytes, whatever it is told to do on a bad digit.
pub from_hex-to_hex :
    (bytes : List ℕ) (prefix : HexPrefix) (w : WhenError)
    → All IsU8 bytes
    → from_hex (to_hex bytes 2 prefix) w ≡ ok bytes
from_hex-to_hex bytes dont_add w all =
    unfold from_hex to_hex in
    rw (length-to_hex_from bytes all, even-length (length bytes), skip_prefix-to_hex_from bytes all)
      (from_hex_pairs-to_hex_from bytes w [] all)
from_hex-to_hex bytes add w all =
    unfold from_hex to_hex skip_prefix in
    rw (length-to_hex_from bytes all, even) (from_hex_pairs-to_hex_from bytes w [] all)
  where
    even : (suc (suc (2 * length bytes)) % 2 == 1) ≡ false
    even = ground arith

to_hex_from-append :
    (xs : List ℕ) (b : ℕ) → to_hex_from 2 (xs ++ b ∷ []) ≡ to_hex_from 2 xs ++ hex_padded 2 b
unfolding to_hex_from
to_hex_from-append [] b = append-nil (hex_padded 2 b)
to_hex_from-append (x ∷ xs) b =
    ap (λ (t : List ℕ). hex_padded 2 x ++ t) (to_hex_from-append xs b)
    ∙ sym (append_assoc (hex_padded 2 x) (to_hex_from 2 xs) (hex_padded 2 b))

digits_of-suc : (k n : ℕ) → digits_of (suc k) n ≡ digits_of k (n / 16) ++ hex_digit (n % 16) ∷ []
digits_of-suc k n = unfold digits_of in refl

-- Two digits at a time, the digits of a number are the text of its big-endian bytes.
digits_of-eq-to_hex_from : (k n : ℕ) → digits_of (k + k) n ≡ to_hex_from 2 (to_big_endian k n)
digits_of-eq-to_hex_from zero n = unfold digits_of to_hex_from to_big_endian in refl
digits_of-eq-to_hex_from (suc k) n =
    rw
      (
        shape,
        digits_of-suc (suc (k + k)) n,
        digits_of-suc (k + k) (n / 16),
        to_big_endian-suc k n,
        to_hex_from-append (to_big_endian k (n / 256)) (u8 n),
        hex_padded-byte (u8 n) (omega arith),
        append_assoc,
        div-div-eq-div-mul n 16 16,
        digits_of-eq-to_hex_from k (n / 256),
      )
      (ap₂
        (λ (a c : ℕ). to_hex_from 2 (to_big_endian k (n / 256)) ++ hex_digit a ∷ hex_digit c ∷ [])
        (omega arith) (omega arith))
  where
    shape : suc k + suc k ≡ suc (suc (k + k))
    shape = omega arith

-- A 64-bit number printed by `toHex` in sixteen digits, read back by `fromHex` and taken as a
-- big-endian number, is the number itself.
pub from_big_endian-to_hex_number :
    (n : ℕ) (prefix : HexPrefix) (w : WhenError)
    → IsU64 n
    → (bytes : List ℕ) × (from_hex (to_hex_number n prefix 16) w ≡ ok bytes)
      × (from_big_endian (2 ^ 64) bytes ≡ n)
from_big_endian-to_hex_number n prefix w h = (
  to_big_endian 8 n,
  rw text (from_hex-to_hex (to_big_endian 8 n) prefix w (to_big_endian-IsU8 8 n)),
  from_big_endian-to_big_endian (2 ^ 64) 8 n (omega arith) ∙ omega arith,
)
  where
    text : to_hex_number n prefix 16 ≡ to_hex (to_big_endian 8 n) 2 prefix
    text =
        unfold to_hex_number to_hex in
        ap (with_prefix prefix)
          (hex_padded-eq-digits_of 15 n h (omega arith) ∙ digits_of-eq-to_hex_from 8 n)
