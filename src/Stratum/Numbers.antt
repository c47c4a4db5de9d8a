-- ===== src/Stratum/Numbers.antt =====
-- The numbers that the client reads from text: `std::stoull`, `stoul` and `stoi` in base 16, and the
-- text functions `resize` and `substr`. `unsigned long` has 64 bits.
pub mod Digits
use fpga_ethash.CommonData.{hex_value}
use fpga_ethash.Base.{
  ℕ, ◌+◌, ◌-◌, ◌*◌, ◌%◌, ◌^◌, List, [], ◌∷◌, ◌++◌, Bool, true, false, ◌&&◌, ◌||◌, Option, none,
  some, ltb, leb, ◌==◌, if◌then◌else◌, length, take, drop, replicate, Result, ok, err, ℤ, pos,
  negsuc, u32,
}

pub data StdError : Type 0 where
  invalid_argument out_of_range : StdError

unfoldable pub is_space : ℕ → Bool
is_space c = c == b' ' || leb 9 c && leb c 13

skip_space : List ℕ → List ℕ
skip_space [] = []
skip_space (c ∷ s) = let rest = skip_space s in if is_space c then rest else c ∷ s

starts_digit : List ℕ → Bool
starts_digit [] = false
starts_digit (c ∷ s) = elim (hex_value c) [ some v ↦ true | none ↦ false ]

-- The digits up to the first byte that is none.
unfoldable pub digits_value : ℕ → List ℕ → ℕ
digits_value acc [] = acc
digits_value acc (c ∷ s) = elim (hex_value c) [
  | some v ↦ digits_value (acc * 16 + v) s
  | none ↦ acc
]

skip_0x : List ℕ → List ℕ
skip_0x [] = []
skip_0x (a ∷ []) = a ∷ []
skip_0x (a ∷ b ∷ s) = if a == b'0' && (b == b'x' || b == b'X') then s else a ∷ b ∷ s

-- A prefix with no digit behind it is the number 0.
unfoldable pub magnitude : List ℕ → Result StdError ℕ
unfolding skip_0x starts_digit
magnitude s =
    if starts_digit (skip_0x s)
    then ok (digits_value 0 (skip_0x s))
    else if starts_digit s
    then ok (digits_value 0 s)
    else err invalid_argument

-- The sign, and the text behind it.
sign : List ℕ → Bool × List ℕ
sign [] = (false, [])
sign (c ∷ s) = if c == b'-' then (true, s) else if c == b'+' then (false, s) else (false, c ∷ s)

wrap_unsigned : Bool → ℕ → Result StdError ℕ
wrap_unsigned negative v =
    if leb (2 ^ 64) v then err out_of_range else ok (if negative then (2 ^ 64 - v) % 2 ^ 64 else v)

bind_result : Result StdError ℕ → (ℕ → Result StdError ℕ) → Result StdError ℕ
bind_result (ok v) f = f v
bind_result (err e) f = err e

-- `std::stoull(s, nullptr, 16)`, and `std::stoul`.
unfoldable pub stoull : List ℕ → Result StdError ℕ
unfolding skip_space is_space sign wrap_unsigned bind_result
stoull s =
    let (negative, rest) = sign (skip_space s) in
    bind_result (magnitude rest) (wrap_unsigned negative)

-- The `int` as its 32 bits.
int_range : Bool → ℕ → Result StdError ℕ
int_range true v = if ltb (2 ^ 31) v then err out_of_range else ok ((2 ^ 32 - v) % 2 ^ 32)
int_range false v = if leb (2 ^ 31) v then err out_of_range else ok v

-- `std::stoi(s, nullptr, 16)`.
unfoldable pub stoi : List ℕ → Result StdError ℕ
unfolding skip_space is_space sign int_range bind_result
stoi s =
    let (negative, rest) = sign (skip_space s) in bind_result (magnitude rest) (int_range negative)

-- A conversion to `int`.
unfoldable pub to_int : ℕ → ℤ
to_int v = if ltb (u32 v) (2 ^ 31) then pos (u32 v) else negsuc (2 ^ 32 - 1 - u32 v)

-- `s.resize(n, fill)`.
unfoldable pub resize : ℕ → ℕ → List ℕ → List ℕ
resize n fill s = take n s ++ replicate (n - length s) fill

-- `s.substr(start)`.
unfoldable pub substr : ℕ → List ℕ → Result StdError (List ℕ)
substr start s = if ltb (length s) start then err out_of_range else ok (drop start s)
