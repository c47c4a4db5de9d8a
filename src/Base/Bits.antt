-- ===== src/Base/Bits.antt =====
-- Bounds of the bit operations, and `|` of disjoint fields as a sum.
use Prim.Native.Nat.{
  ℕ, zero, suc, ◌+◌, ◌*◌, ◌/◌, ◌%◌, ◌^◌, ◌≤◌, ◌<◌, min, max, bit_and, bit_or, bit_xor, digits,
  differ, bit_and-bitwise, bit_or-bitwise, bit_xor-bitwise,
}
use mathlib.Core.Path.{◌≡◌, refl, ap}
use native.Mathlib.Nat.{pow-suc}
use native.Mathlib.Omega.{arith}

pow-suc_two : (k : ℕ) → 2 ^ suc k ≡ 2 * 2 ^ k
pow-suc_two k = omega (arith, pow-suc 2 k)

-- An operation whose digit function stays within one digit stays within k digits.
module _ (z : ℕ → ℕ) (f : ℕ → ℕ → ℕ) (z_le : (b : ℕ) → z b ≤ b)
    (f_lt : (a b : ℕ) → a < 2 → b < 2 → f a b < 2) where
  digits-lt : (k n a b : ℕ) → a < 2 ^ k → b < 2 ^ k → digits z f n a b < 2 ^ k
  digits-lt k zero a b ha hb = omega (arith, z_le b)
  digits-lt k (suc n) zero b ha hb = omega (arith, z_le b)
  digits-lt zero (suc n) (suc a) b ha hb = absurd (omega arith)
  digits-lt (suc k) (suc n) (suc a) b ha hb = omega (
    arith,
    pow-suc_two k,
    digits-lt k n (suc a / 2) (b / 2) (omega (arith, pow-suc_two k)) (omega (arith, pow-suc_two k)),
    f_lt (suc a % 2) (b % 2) (omega arith) (omega arith),
  )

differ-le-max : (a b : ℕ) → differ a b ≤ max a b
differ-le-max zero b = omega arith
differ-le-max (suc a) zero = omega arith
differ-le-max (suc a) (suc b) = omega (arith, differ-le-max a b)

differ-lt : (a b : ℕ) → a < 2 → b < 2 → differ a b < 2
differ-lt a b ha hb = omega (arith, differ-le-max a b)

pub bit_xor-lt : (k a b : ℕ) → a < 2 ^ k → b < 2 ^ k → bit_xor a b < 2 ^ k
bit_xor-lt k a b ha hb =
    simp bit_xor-bitwise (digits-lt (λ b. b) differ (λ b. omega arith) differ-lt k a a b ha hb)

pub bit_or-lt : (k a b : ℕ) → a < 2 ^ k → b < 2 ^ k → bit_or a b < 2 ^ k
bit_or-lt k a b ha hb =
    simp bit_or-bitwise
      (digits-lt (λ b. b) max (λ b. omega arith) (λ a b p q. omega arith) k a a b ha hb)

pub bit_and-lt : (k a b : ℕ) → a < 2 ^ k → b < 2 ^ k → bit_and a b < 2 ^ k
bit_and-lt k a b ha hb =
    simp bit_and-bitwise
      (digits-lt (λ b. 0) min (λ b. omega arith) (λ a b p q. omega arith) k a a b ha hb)

no_digits : (n b : ℕ) → digits (λ d. d) max n 0 b ≡ b
no_digits zero b = refl
no_digits (suc n) b = refl

-- Two counts of digits to go that are both large enough give the same.
same_digits :
    (a b : ℕ) {n m : ℕ} → a ≤ n → a ≤ m → digits (λ d. d) max n a b ≡ digits (λ d. d) max m a b
same_digits zero b {n = n} {m = m} _ _ = omega (arith, no_digits n b, no_digits m b)
same_digits (suc a) b {n = suc n} {m = suc m} le le' =
    omega (arith, same_digits (suc a / 2) (b / 2) {n = n} {m = m} (omega arith) (omega arith))
same_digits (suc a) b {n = zero} {m = m} le le' = absurd (omega arith)
same_digits (suc a) b {n = suc n} {m = zero} le le' = absurd (omega arith)

-- The lowest digit apart.
bit_or-halves : (a b : ℕ) → bit_or a b ≡ max (a % 2) (b % 2) + 2 * bit_or (a / 2) (b / 2)
bit_or-halves zero b = simp bit_or-bitwise (omega arith)
bit_or-halves (suc a) b =
    let rest =
      same_digits (suc a / 2) (b / 2) {n = a} {m = suc a / 2} (omega arith) (omega arith) in
    simp bit_or-bitwise (omega (arith, rest))

bit_or-zero_fuel : (n a : ℕ) → a ≤ n → bit_or a 0 ≡ a
bit_or-zero_fuel n zero h = simp bit_or-bitwise
bit_or-zero_fuel zero (suc a) h = absurd (omega arith)
bit_or-zero_fuel (suc n) (suc a) h =
    omega (arith, bit_or-halves (suc a) 0, bit_or-zero_fuel n (suc a / 2) (omega arith))

-- `(q << k) | r` is a sum when `r` fits in `k` bits.
pub bit_or-shl : (k q r : ℕ) → r < 2 ^ k → bit_or (q * 2 ^ k) r ≡ q * 2 ^ k + r
bit_or-shl zero q zero h = ground (arith, bit_or-zero_fuel q q)
bit_or-shl zero q (suc r) h = absurd (omega arith)
bit_or-shl (suc k) q r h = omega (
  arith,
  bit_or-halves (q * 2 ^ suc k) r,
  ap (λ (t : ℕ). q * t) (pow-suc_two k),
  pow-suc_two k,
  ap (λ (t : ℕ). bit_or t (r / 2)) (halved),
  bit_or-shl k q (r / 2) (omega (arith, pow-suc_two k)),
)
  where
    halved : q * 2 ^ suc k / 2 ≡ q * 2 ^ k
    halved = omega (arith, ap (λ (t : ℕ). q * t) (pow-suc_two k))
