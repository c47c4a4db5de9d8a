-- ===== src/Ethash/Sizes.antt =====
-- `E_prime` and the sizes of the dataset and the cache.
use fpga_ethash.Ethash.{e_epoch, e_prime, get_d_size, get_c_size}
use fpga_ethash.Base.{
  ℕ, zero, suc, ◌+◌, ◌-◌, ◌*◌, ◌%◌, ◌^◌, ◌<◌, ◌≡◌, refl, ap, ◌∙◌, ◌≢◌, ◌⊎◌, none, some, ◌==◌,
  if◌then◌else◌, arith, u64, IsU64,
}

abbrev IsUnit : ℕ → Type 0
IsUnit y = (y ≡ 64) ⊎ (y ≡ 128)

e_prime-at_once : (fuel x y : ℕ) → y ≢ 0 → x % y ≡ 0 → e_prime (suc fuel) x y ≡ some x
unfolding e_prime
e_prime-at_once fuel x y pos divides = ground arith

e_prime-never : (fuel x y : ℕ) → IsUnit y → IsU64 x → x % y ≢ 0 → e_prime fuel x y ≡ none
unfolding e_prime
e_prime-never zero x y unit word rest = refl
e_prime-never (suc fuel) x y unit word rest =
    ground (
      arith,
      e_prime-never fuel (u64 (x + 2 ^ 64 - u64 (2 * y))) y unit (omega arith) (ground arith),
    )

-- At the two units it is called with, and for a first argument of 64 bits, `E_prime` returns that
-- argument at once if the unit divides it, and on no amount of fuel otherwise.
pub e_prime-eq :
    (fuel x y : ℕ)
    → (y ≡ 64) ⊎ (y ≡ 128)
    → IsU64 x
    → e_prime (suc fuel) x y ≡ (if x % y == 0 then some x else none)
e_prime-eq fuel x y unit word =
    ground (arith, e_prime-at_once fuel x y (ground arith), e_prime-never (suc fuel) x y unit word)

-- For the blocks of the first 2^40 epochs both sizes are returned at once, and they grow linearly
-- with the epoch.
pub sizes_linear :
    (fuel block_number : ℕ)
    → e_epoch block_number < 2 ^ 40
    → (get_d_size (suc fuel) block_number ≡ some (1073741696 + 8388608 * e_epoch block_number))
      × (get_c_size (suc fuel) block_number ≡ some (16777152 + 131072 * e_epoch block_number))
unfolding get_d_size get_c_size
sizes_linear fuel block_number small = (
  e_prime-at_once fuel _ 128 (omega arith) (omega arith) ∙ ap some (omega arith),
  e_prime-at_once fuel _ 64 (omega arith) (omega arith) ∙ ap some (omega arith),
)

pub epoch_of : (k r : ℕ) → r < 30000 → e_epoch (1410000 * k + r) ≡ 47 * k
unfolding e_epoch
epoch_of k r lt = omega arith

-- In every 47th epoch, the first one included, the number of 128-byte pages of the dataset is a
-- proper multiple of 47, so it is not prime.
pub get_d_size-composite :
    (fuel k r : ℕ)
    → k < 2 ^ 34
    → r < 30000
    → get_d_size (suc fuel) (1410000 * k + r) ≡ some (128 * (47 * (178481 + 65536 * k)))
get_d_size-composite fuel k r small lt =
    (sizes_linear fuel (1410000 * k + r) (omega (arith, epoch_of k r lt))).0
    ∙ ap some (omega (arith, epoch_of k r lt))
