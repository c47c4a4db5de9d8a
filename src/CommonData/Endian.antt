-- ===== src/CommonData/Endian.antt =====
-- Big-endian bytes: `toBigEndian` and `fromBigEndian`.
use native.Mathlib.Nat.{
  pow-suc, one-le-pow, mod-eq_of_lt, le_trans, lt_of_lt_of_le, le_of_eq, mul-le-mul_right,
  div-eq_of_lt-le, div-div-eq-div-mul,
}
use mathlib.Core.List.{append_assoc}
use fpga_ethash.Base.{
  ℕ, zero, suc, ◌+◌, ◌*◌, ◌/◌, ◌%◌, ◌^◌, ◌≤◌, ◌<◌, ◌≡◌, refl, ap, ◌∙◌, List, [], ◌∷◌, ◌++◌, All,
  All-append, length, length-append, bit_or, bit_or-shl, arith, IsU8, u8,
}
use fpga_ethash.CommonData.{
  to_big_endian, to_big_endian_loop, from_big_endian, from_big_endian_loop,
}

-- The number that big-endian bytes stand for, behind the digits `acc`.
abbrev pub be_value : ℕ → List ℕ → ℕ
be_value acc [] = acc
be_value acc (b ∷ rest) = be_value (acc * 256 + b) rest

pub be_value-append :
    (acc : ℕ) (xs ys : List ℕ) → be_value acc (xs ++ ys) ≡ be_value (be_value acc xs) ys
be_value-append acc [] ys = refl
be_value-append acc (x ∷ xs) ys = be_value-append (acc * 256 + x) xs ys

pow-suc_byte : (k : ℕ) → 256 ^ suc k ≡ 256 * 256 ^ k
pow-suc_byte k = omega (arith, pow-suc 256 k)

scale_up : (a b p : ℕ) → b < 256 → (a * 256 + b + 1) * p ≤ (a + 1) * (256 * p)
scale_up a b p h =
    le_trans (mul-le-mul_right p (let g : a * 256 + b + 1 ≤ (a + 1) * 256 = omega arith in g))
      (le_of_eq (omega arith))

shift_in : (m acc b : ℕ) → acc * 256 + 256 ≤ m → b < 256 → bit_or (acc * 256 % m) b ≡ acc * 256 + b
shift_in m acc b fits hb =
    rw (mod-eq_of_lt (let h : acc * 256 < m = omega arith in h)) (bit_or-shl 8 acc b hb)

-- Where the digits fit the type, no shift of `fromBigEndian` loses any.
from_big_endian_loop-eq-be_value :
    (m acc : ℕ) (bytes : List ℕ)
    → All IsU8 bytes
    → (acc + 1) * 256 ^ length bytes ≤ m
    → from_big_endian_loop m acc bytes ≡ be_value acc bytes
unfolding from_big_endian_loop
from_big_endian_loop-eq-be_value m acc [] all fits = refl
from_big_endian_loop-eq-be_value m acc (b ∷ rest) all fits =
    rw (shift_in m acc b (room (256 ^ length rest) (one-le-pow _ 256 (omega arith)) more) all.0) (
      from_big_endian_loop-eq-be_value m (acc * 256 + b) rest all.1
        (step (256 ^ length rest) all.0 more))
  where
    more : (acc + 1) * (256 * 256 ^ length rest) ≤ m
    more = rw (← pow-suc_byte (length rest)) fits

    room : (p : ℕ) → 1 ≤ p → (acc + 1) * (256 * p) ≤ m → acc * 256 + 256 ≤ m
    room p hp h = grind arith

    step : (p : ℕ) → b < 256 → (acc + 1) * (256 * p) ≤ m → (acc * 256 + b + 1) * p ≤ m
    step p hb h = le_trans (scale_up acc b p hb) h

pub from_big_endian-eq-be_value :
    (m : ℕ) (bytes : List ℕ)
    → All IsU8 bytes
    → 256 ^ length bytes ≤ m
    → from_big_endian m bytes ≡ be_value 0 bytes
unfolding from_big_endian
from_big_endian-eq-be_value m bytes all fits =
    from_big_endian_loop-eq-be_value m 0 bytes all (omega arith)

to_big_endian_loop-append :
    (k v : ℕ) (bytes : List ℕ) → to_big_endian_loop k v bytes ≡ to_big_endian_loop k v [] ++ bytes
unfolding to_big_endian_loop
to_big_endian_loop-append zero v bytes = refl
to_big_endian_loop-append (suc k) v bytes = rw (
  to_big_endian_loop-append k (v / 256) (u8 v ∷ bytes),
  to_big_endian_loop-append k (v / 256) (u8 v ∷ []),
  append_assoc,
)

pub to_big_endian-suc : (k v : ℕ) → to_big_endian (suc k) v ≡ to_big_endian k (v / 256) ++ u8 v ∷ []
unfolding to_big_endian
to_big_endian-suc k v = to_big_endian_loop-append k (v / 256) (u8 v ∷ [])

pub length-to_big_endian : (k v : ℕ) → length (to_big_endian k v) ≡ k
length-to_big_endian zero v = unfold to_big_endian in refl
length-to_big_endian (suc k) v = rw (to_big_endian-suc k v) (
    omega (
      arith,
      length-append (to_big_endian k (v / 256)) (u8 v ∷ []),
      length-to_big_endian k (v / 256),
    ))

split_mod : (v p : ℕ) → 0 < p → v / 256 % p * 256 + v % 256 ≡ v % (256 * p)
split_mod v p h = grind arith

pub be_value-to_big_endian : (k v : ℕ) → be_value 0 (to_big_endian k v) ≡ v % 256 ^ k
be_value-to_big_endian zero v = unfold to_big_endian in omega arith
be_value-to_big_endian (suc k) v =
    rw (to_big_endian-suc k v, be_value-append 0 (to_big_endian k (v / 256)) (u8 v ∷ []))
      (rw (be_value-to_big_endian k (v / 256), pow-suc_byte k)
        (split_mod v (256 ^ k) (one-le-pow k 256 (omega arith))))

pub to_big_endian-IsU8 : (k v : ℕ) → All IsU8 (to_big_endian k v)
to_big_endian-IsU8 zero v = unfold to_big_endian in tt
to_big_endian-IsU8 (suc k) v = rw (to_big_endian-suc k v) (
    All-append IsU8 (to_big_endian k (v / 256)) (u8 v ∷ []) (to_big_endian-IsU8 k (v / 256))
      (omega arith))

-- `fromBigEndian` gives back what `toBigEndian` wrote into `k` bytes: the value modulo `256 ^ k`,
-- for a type with at least so many values.
pub from_big_endian-to_big_endian :
    (m k v : ℕ) → 256 ^ k ≤ m → from_big_endian m (to_big_endian k v) ≡ v % 256 ^ k
from_big_endian-to_big_endian m k v h =
    from_big_endian-eq-be_value m (to_big_endian k v) (to_big_endian-IsU8 k v)
      (rw (length-to_big_endian k v) h)
    ∙ be_value-to_big_endian k v

be_value_bounds :
    (acc : ℕ) (bytes : List ℕ)
    → All IsU8 bytes
    → (acc * 256 ^ length bytes ≤ be_value acc bytes)
      × (be_value acc bytes < (acc + 1) * 256 ^ length bytes)
be_value_bounds acc [] all = (omega arith, omega arith)
be_value_bounds acc (b ∷ rest) all =
    let p = 256 ^ length rest in
    let ih = be_value_bounds (acc * 256 + b) rest all.1 in
    rw (pow-suc_byte (length rest))
      (le_trans (grow p) ih.0, lt_of_lt_of_le ih.1 (scale_up acc b p all.0))
  where
    grow : (p : ℕ) → acc * (256 * p) ≤ (acc * 256 + b) * p
    grow p = omega arith

to_big_endian_head : (k v : ℕ) → to_big_endian (suc k) v ≡ u8 (v / 256 ^ k) ∷ to_big_endian k v
to_big_endian_head zero v = unfold to_big_endian in ground arith
to_big_endian_head (suc k) v = rw (
  to_big_endian-suc (suc k) v,
  to_big_endian_head k (v / 256),
  to_big_endian-suc k v,
  div-div-eq-div-mul v 256 (256 ^ k),
  ← pow-suc_byte k,
)

to_big_endian-be_value :
    (acc : ℕ) (bytes : List ℕ)
    → All IsU8 bytes
    → to_big_endian (length bytes) (be_value acc bytes) ≡ bytes
to_big_endian-be_value acc [] all = unfold to_big_endian in refl
to_big_endian-be_value acc (b ∷ rest) all =
    rw
      (
        to_big_endian_head (length rest) (be_value (acc * 256 + b) rest),
        high_part,
        to_big_endian-be_value (acc * 256 + b) rest all.1,
      )
      (ap (λ x. x ∷ rest) (omega arith))
  where
    bounds :
        ((acc * 256 + b) * 256 ^ length rest ≤ be_value (acc * 256 + b) rest)
        × (be_value (acc * 256 + b) rest < (acc * 256 + b + 1) * 256 ^ length rest)
    bounds = be_value_bounds (acc * 256 + b) rest all.1

    high_part : be_value (acc * 256 + b) rest / 256 ^ length rest ≡ acc * 256 + b
    high_part = div-eq_of_lt-le (256 ^ length rest) bounds.0 bounds.1

-- `toBigEndian` gives back the bytes that `fromBigEndian` read, for a type wide enough for them.
pub to_big_endian-from_big_endian :
    (m : ℕ) (bytes : List ℕ)
    → All IsU8 bytes
    → 256 ^ length bytes ≤ m
    → to_big_endian (length bytes) (from_big_endian m bytes) ≡ bytes
to_big_endian-from_big_endian m bytes all fits =
    rw (from_big_endian-eq-be_value m bytes all fits) (to_big_endian-be_value 0 bytes all)

pub be_value-lt : (bytes : List ℕ) → All IsU8 bytes → be_value 0 bytes < 256 ^ length bytes
be_value-lt bytes all = omega (arith, (be_value_bounds 0 bytes all).1)
