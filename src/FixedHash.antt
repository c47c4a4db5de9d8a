-- ===== src/FixedHash.antt =====
-- libdevcore/FixedHash.h: a hash of N bytes is the list of its bytes, the most significant first.
pub mod Value
pub mod Construct
pub mod Equality
use fpga_ethash.Base.{
  ℕ, zero, suc, ◌+◌, ◌-◌, ◌*◌, ◌/◌, ◌%◌, ◌^◌, min, bit_xor, bit_or, bit_and, List, [], ◌∷◌, ◌++◌,
  map, Bool, true, false, ◌&&◌, ◌||◌, not, ltb, ◌==◌, if◌then◌else◌, length, replicate, take,
  get_or, set, Result, ok, err, ◌>>=◌, u8,
}
use fpga_ethash.CommonData.{
  HexPrefix, HexError, throw, from_hex, to_hex, to_big_endian, from_big_endian,
}

pub data ConstructFromHash : Type 0 where
  align_left align_right fail_if_different : ConstructFromHash

-- `FixedHash()`, and `clear`.
pub zero_hash : ℕ → List ℕ
zero_hash n = replicate n 0

-- The indices that round `i` of the copy loops writes and reads.
abbrev pub align_index : ConstructFromHash → ℕ → ℕ → ℕ
align_index align_right size i = size - 1 - i
align_index align_left size i = i
align_index fail_if_different size i = i

-- `rounds` rounds from `i` on; `n` is the size of the target and `m` that of the source.
pub copy_aligned : ConstructFromHash → ℕ → ℕ → List ℕ → ℕ → ℕ → List ℕ → List ℕ
copy_aligned t n m source zero i hash = hash
copy_aligned t n m source (suc rounds) i hash =
    copy_aligned t n m source rounds (i + 1)
      (set hash (align_index t n i) (get_or source (align_index t m i) 0))

-- `FixedHash(FixedHash<M> const&, t)`: `fail_if_different` aligns on the left here.
pub from_hash : ℕ → List ℕ → ConstructFromHash → List ℕ
unfolding copy_aligned zero_hash
from_hash n h t = copy_aligned t n (length h) h (min (length h) n) 0 (zero_hash n)

pub copy_unequal : ℕ → List ℕ → ConstructFromHash → List ℕ
unfolding copy_aligned zero_hash
copy_unequal n b fail_if_different = zero_hash n
copy_unequal n b t = copy_aligned t n (length b) b (min (length b) n) 0 (zero_hash n)

-- `FixedHash(bytes const&, t)`, and the same from a `bytesConstRef`.
pub from_bytes : ℕ → List ℕ → ConstructFromHash → List ℕ
unfolding copy_unequal
from_bytes n b t = if length b == n then take n b else copy_unequal n b t

-- `FixedHash(std::string const&)`.
pub from_text : ℕ → List ℕ → Result HexError (List ℕ)
from_text n s = from_hex s throw >>= λ b. ok (from_bytes n b fail_if_different)

-- `FixedHash(Arith const&)` and `FixedHash(unsigned)`.
pub from_arith : ℕ → ℕ → List ℕ
from_arith n v = to_big_endian n v

-- `operator Arith`, a number of 8 * N bits.
pub to_arith : List ℕ → ℕ
to_arith h = from_big_endian (256 ^ length h) h

-- `explicit operator bool`.
unfoldable pub is_nonzero : List ℕ → Bool
is_nonzero [] = false
is_nonzero (b ∷ rest) = not (b == 0) || is_nonzero rest

-- `operator==` of the arrays.
pub equal : List ℕ → List ℕ → Bool
equal [] [] = true
equal [] (b ∷ bs) = false
equal (a ∷ as') [] = false
equal (a ∷ as') (b ∷ bs) = a == b && equal as' bs

pub less : List ℕ → List ℕ → Bool
less [] bs = false
less (a ∷ as') [] = false
less (a ∷ as') (b ∷ bs) = if ltb a b then true else if ltb b a then false else less as' bs

pub at_least : List ℕ → List ℕ → Bool
at_least a b = not (less a b)

pub at_most : List ℕ → List ℕ → Bool
at_most a b = equal a b || less a b

pub greater : List ℕ → List ℕ → Bool
unfolding at_most
greater a b = not (at_most a b)

pub zip_bytes : (ℕ → ℕ → ℕ) → List ℕ → List ℕ → List ℕ
zip_bytes f [] bs = []
zip_bytes f (a ∷ as') [] = a ∷ as'
zip_bytes f (a ∷ as') (b ∷ bs) = f a b ∷ zip_bytes f as' bs

pub xor_hash : List ℕ → List ℕ → List ℕ
unfolding zip_bytes
xor_hash a b = zip_bytes bit_xor a b

pub or_hash : List ℕ → List ℕ → List ℕ
unfolding zip_bytes
or_hash a b = zip_bytes bit_or a b

pub and_hash : List ℕ → List ℕ → List ℕ
unfolding zip_bytes
and_hash a b = zip_bytes bit_and a b

-- `~` of a byte is 255 minus the byte.
pub not_hash : List ℕ → List ℕ
not_hash h = map (λ b. 255 - b) h

-- `i` bytes are still to be visited, from the end; the loop goes on while a byte became zero.
pub increment_loop : ℕ → List ℕ → List ℕ
increment_loop zero h = h
increment_loop (suc i) h =
    let b = u8 (get_or h i 0 + 1) in
    let h' = set h i b in let rest = increment_loop i h' in if b == 0 then rest else h'

-- `operator++`.
pub increment : List ℕ → List ℕ
unfolding increment_loop
increment h = increment_loop (length h) h

pub hex : List ℕ → HexPrefix → List ℕ
hex h prefix = to_hex h 2 prefix

-- `reinterpret_cast<uint64_t const*>` on a little-endian machine.
pub u64_at : List ℕ → ℕ → ℕ
u64_at h k =
    get_or h (8 * k) 0
    + get_or h (8 * k + 1) 0 * 2 ^ 8
    + get_or h (8 * k + 2) 0 * 2 ^ 16
    + get_or h (8 * k + 3) 0 * 2 ^ 24
    + get_or h (8 * k + 4) 0 * 2 ^ 32
    + get_or h (8 * k + 5) 0 * 2 ^ 40
    + get_or h (8 * k + 6) 0 * 2 ^ 48
    + get_or h (8 * k + 7) 0 * 2 ^ 56

-- `operator==` of `FixedHash<32>`.
pub equal_h256 : List ℕ → List ℕ → Bool
unfolding u64_at
equal_h256 a b =
    u64_at a 0 == u64_at b 0
    && (u64_at a 1 == u64_at b 1 && (u64_at a 2 == u64_at b 2 && u64_at a 3 == u64_at b 3))
