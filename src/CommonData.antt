-- ===== src/CommonData.antt =====
-- libdevcore/CommonData.h and CommonData.cpp: bytes and integers as hexadecimal text and as
-- big-endian bytes, and padding. Text is the list of its bytes; a `char` is its byte.
pub mod Hex
pub mod Endian
use fpga_ethash.Base.{
  ℕ, zero, suc, ◌+◌, ◌-◌, ◌*◌, ◌/◌, ◌%◌, ◌^◌, max, bit_or, Option, none, some, List, [], ◌∷◌, ◌++◌,
  Bool, true, false, ◌&&◌, ltb, leb, ◌==◌, if◌then◌else◌, length, replicate, Result, ok, err, u8,
}

pub data WhenError : Type 0 where
  dont_throw throw : WhenError

pub data HexPrefix : Type 0 where
  dont_add add : HexPrefix

-- Exceptions.h: the only exception that these functions throw.
pub data HexError : Type 0 where
  bad_hex_character : HexError

-- The value of one digit; `none` is the -1 that `fromHex(char, DontThrow)` returns.
pub hex_value : ℕ → Option ℕ
hex_value c =
    if leb b'0' c && leb c b'9'
    then some (c - b'0')
    else if leb b'a' c && leb c b'f'
    then some (c - b'a' + 10)
    else if leb b'A' c && leb c b'F'
    then some (c - b'A' + 10)
    else none

pub from_hex_char : ℕ → WhenError → Result HexError (Option ℕ)
from_hex_char c w = elim (hex_value c) [
  | some v ↦ ok (some v)
  | none ↦ elim w [ throw ↦ err bad_hex_character | dont_throw ↦ ok none ]
]

-- What `fromHex` does on a bad digit.
pub bad_digit : WhenError → Result HexError (List ℕ)
bad_digit throw = err bad_hex_character
bad_digit dont_throw = ok []

-- Both digits of a pair are read before either is tested.
pub pair_value : Option ℕ → Option ℕ → Option ℕ
pair_value (some h) (some l) = some (u8 (h * 16 + l))
pair_value (some h) none = none
pair_value none l = none

-- The loop over pairs. A text ends with a zero byte, which the last round of an odd rest would read.
pub from_hex_pairs : List ℕ → WhenError → List ℕ → Result HexError (List ℕ)
from_hex_pairs [] w ret = ok ret
from_hex_pairs (a ∷ []) w ret = bad_digit w
from_hex_pairs (a ∷ b ∷ rest) w ret =
    let continue = λ (v : ℕ). from_hex_pairs rest w (ret ++ v ∷ []) in
    elim (pair_value (hex_value a) (hex_value b)) [ some v ↦ continue v | none ↦ bad_digit w ]

pub skip_prefix : List ℕ → List ℕ
skip_prefix [] = []
skip_prefix (a ∷ []) = a ∷ []
skip_prefix (a ∷ b ∷ rest) = if a == b'0' && b == b'x' then rest else a ∷ b ∷ rest

-- The lone first digit of a text of odd size.
pub from_hex_odd : List ℕ → WhenError → Result HexError (List ℕ)
from_hex_odd [] w = bad_digit w
from_hex_odd (c ∷ rest) w = elim (hex_value c) [
  | some h ↦ from_hex_pairs rest w (h ∷ [])
  | none ↦ bad_digit w
]

pub from_hex : List ℕ → WhenError → Result HexError (List ℕ)
from_hex s w =
    if length s % 2 == 1
    then from_hex_odd (skip_prefix s) w
    else from_hex_pairs (skip_prefix s) w []

pub hex_digit : ℕ → ℕ
hex_digit d = if ltb d 10 then b'0' + d else b'a' + d - 10

-- `os << std::hex << n` without padding. Sixteen digits are enough for 64 bits.
pub hex_text_fuel : ℕ → ℕ → List ℕ
hex_text_fuel zero n = []
hex_text_fuel (suc f) n =
    let front = hex_text_fuel f (n / 16) in
    if ltb n 16 then hex_digit n ∷ [] else front ++ hex_digit (n % 16) ∷ []

pub hex_text : ℕ → List ℕ
unfolding hex_text_fuel
hex_text n = hex_text_fuel 16 n

pub pad_left : List ℕ → ℕ → ℕ → List ℕ
pad_left value len fill =
    if ltb (length value) len then replicate (len - length value) fill ++ value else value

pub pad_right : List ℕ → ℕ → ℕ → List ℕ
pad_right value len fill =
    if ltb (length value) len then value ++ replicate (len - length value) fill else value

-- `setw` and `setfill('0')` pad a number on the left, as `pad_left` does.
pub hex_padded : ℕ → ℕ → List ℕ
unfolding hex_text pad_left
hex_padded width n = pad_left (hex_text n) width b'0'

abbrev pub with_prefix : HexPrefix → List ℕ → List ℕ
with_prefix add s = b'0' ∷ b'x' ∷ s
with_prefix dont_add s = s

-- The first element has the width `w`, each later one the width two.
pub to_hex_from : ℕ → List ℕ → List ℕ
to_hex_from w [] = []
to_hex_from w (b ∷ rest) = hex_padded w b ++ to_hex_from 2 rest

pub to_hex : List ℕ → ℕ → HexPrefix → List ℕ
to_hex bytes w prefix = with_prefix prefix (to_hex_from w bytes)

-- `toHex(uint64_t)` and, with the width eight, `toHex(uint32_t)`.
pub to_hex_number : ℕ → HexPrefix → ℕ → List ℕ
to_hex_number n prefix width = with_prefix prefix (hex_padded width n)

pub to_compact_hex : ℕ → HexPrefix → List ℕ
to_compact_hex n prefix = with_prefix prefix (hex_text n)

-- The bytes of `o_out` from its end to its beginning; `bytes` holds those already written.
-- `& 0xff` and the cast to `uint8_t` are one remainder.
pub to_big_endian_loop : ℕ → ℕ → List ℕ → List ℕ
to_big_endian_loop zero v bytes = bytes
to_big_endian_loop (suc i) v bytes = to_big_endian_loop i (v / 2 ^ 8) (u8 v ∷ bytes)

-- `toBigEndian(v, o_out)` for a collection of `size` elements.
pub to_big_endian : ℕ → ℕ → List ℕ
unfolding to_big_endian_loop
to_big_endian size v = to_big_endian_loop size v []

-- `modulus` is the number of values of the type `T`.
pub from_big_endian_loop : ℕ → ℕ → List ℕ → ℕ
from_big_endian_loop modulus ret [] = ret
from_big_endian_loop modulus ret (b ∷ rest) =
    from_big_endian_loop modulus (bit_or (ret * 2 ^ 8 % modulus) b) rest

pub from_big_endian : ℕ → List ℕ → ℕ
unfolding from_big_endian_loop
from_big_endian modulus bytes = from_big_endian_loop modulus 0 bytes

-- `bytesRequired`, and the first loop of `toCompactBigEndian`; a 256-bit value takes 32 rounds.
pub bytes_required_fuel : ℕ → ℕ → ℕ
bytes_required_fuel zero v = 0
bytes_required_fuel (suc f) v =
    let rest = bytes_required_fuel f (v / 2 ^ 8) in if v == 0 then 0 else suc rest

pub bytes_required : ℕ → ℕ
unfolding bytes_required_fuel
bytes_required v = bytes_required_fuel 32 v

pub to_compact_big_endian : ℕ → ℕ → List ℕ
unfolding bytes_required to_big_endian
to_compact_big_endian v least = to_big_endian (max least (bytes_required v)) v
