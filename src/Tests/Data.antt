-- ===== src/Tests/Data.antt =====
-- The conversions and the hashes of bytes at concrete inputs.
use fpga_ethash.CommonData.{
  add, dont_add, throw, dont_throw, to_hex, from_hex, skip_prefix, to_hex_number, to_big_endian,
  from_big_endian,
}
use fpga_ethash.CommonData.Endian.{
  be_value, from_big_endian-to_big_endian, to_big_endian-from_big_endian,
}
use fpga_ethash.CommonData.Hex.RoundTrip.{from_hex-to_hex, from_big_endian-to_hex_number}
use fpga_ethash.CommonData.Hex.Errors.{HexOutcome, from_hex-HexOutcome}
use fpga_ethash.FixedHash.{align_right, from_bytes, from_text, less, increment, hex}
use fpga_ethash.FixedHash.Value.{less-eq-ltb, increment-value}
use fpga_ethash.FixedHash.Construct.{aligned, from_bytes-eq-aligned, from_text-hex}
use fpga_ethash.Base.{
  ℕ, ◌+◌, ◌%◌, ◌^◌, ◌≡◌, refl, List, [], ◌∷◌, ok, length, replicate, All, IsU8, ltb, arith,
}

abbrev bytes : List ℕ
bytes = 0 ∷ 171 ∷ 255 ∷ []

abbrev others : List ℕ
others = 0 ∷ 172 ∷ 0 ∷ []

bytes-IsU8 : All IsU8 bytes
bytes-IsU8 = omega arith

others-IsU8 : All IsU8 others
others-IsU8 = omega arith

from_big_endian-to_big_endian_example :
    from_big_endian (2 ^ 32) (to_big_endian 3 70000) ≡ 70000 % 256 ^ 3
from_big_endian-to_big_endian_example = from_big_endian-to_big_endian (2 ^ 32) 3 70000 (omega arith)

to_big_endian-from_big_endian_example : to_big_endian 3 (from_big_endian (2 ^ 32) bytes) ≡ bytes
to_big_endian-from_big_endian_example =
    to_big_endian-from_big_endian (2 ^ 32) bytes bytes-IsU8 (omega arith)

from_hex-to_hex_example : from_hex (to_hex bytes 2 add) throw ≡ ok bytes
from_hex-to_hex_example = from_hex-to_hex bytes add throw bytes-IsU8

from_big_endian-to_hex_number_example :
    (read : List ℕ) × (from_hex (to_hex_number 48879 dont_add 16) throw ≡ ok read)
    × (from_big_endian (2 ^ 64) read ≡ 48879)
from_big_endian-to_hex_number_example =
    from_big_endian-to_hex_number 48879 dont_add throw (omega arith)

-- "12g4"
abbrev bad_text : List ℕ
bad_text = 49 ∷ 50 ∷ 103 ∷ 52 ∷ []

from_hex-HexOutcome_example :
    HexOutcome 0 (skip_prefix bad_text) dont_throw [] (from_hex bad_text dont_throw)
from_hex-HexOutcome_example = from_hex-HexOutcome bad_text dont_throw

less-eq-ltb_example : less bytes others ≡ ltb (be_value 0 bytes) (be_value 0 others)
less-eq-ltb_example = less-eq-ltb bytes others refl bytes-IsU8 others-IsU8

increment-value_example : be_value 0 (increment bytes) ≡ (be_value 0 bytes + 1) % 256 ^ length bytes
increment-value_example = increment-value bytes bytes-IsU8

from_bytes-eq-aligned_example : from_bytes 2 bytes align_right ≡ aligned 2 bytes align_right
from_bytes-eq-aligned_example = from_bytes-eq-aligned 2 bytes align_right

from_text-hex_example : from_text (length bytes) (hex bytes add) ≡ ok bytes
from_text-hex_example = from_text-hex bytes add bytes-IsU8

abbrev ones : List ℕ
ones = replicate 32 1

abbrev twos : List ℕ
twos = replicate 32 2

ones-IsU8 : All IsU8 ones
ones-IsU8 = omega arith

twos-IsU8 : All IsU8 twos
twos-IsU8 = omega arith
