-- ===== src/Tests/Sizes.antt =====
-- The sizes and the seed at concrete blocks.
use fpga_ethash.Ethash.Sizes.{e_prime-eq, sizes_linear, get_d_size-composite, epoch_of}
use fpga_ethash.Ethash.Seed.{IsSeed, seed_chain, get_seedhash-total}
use fpga_ethash.Ethash.{e_epoch, e_prime, get_d_size, get_c_size, get_seedhash}
use fpga_ethash.Base.{
  ℕ, ◌+◌, ◌*◌, ◌%◌, ◌≡◌, refl, inr, List, none, some, ◌==◌, if◌then◌else◌, arith,
}

e_prime-eq_example : e_prime 1 130 128 ≡ (if 130 % 128 == 0 then some 130 else none)
e_prime-eq_example = e_prime-eq 0 130 128 (inr refl) (omega arith)

-- The first block of the second epoch that has a composite number of pages.
abbrev block : ℕ
block = 1410000 * 1 + 0

sizes_linear_example :
    (get_d_size 1 block ≡ some (1073741696 + 8388608 * e_epoch block))
    × (get_c_size 1 block ≡ some (16777152 + 131072 * e_epoch block))
sizes_linear_example = sizes_linear 0 block (omega (arith, epoch_of 1 0 (omega arith)))

get_d_size-composite_example :
    get_d_size 1 (1410000 * 1 + 0) ≡ some (128 * (47 * (178481 + 65536 * 1)))
get_d_size-composite_example = get_d_size-composite 0 1 0 (omega arith) (omega arith)

get_seedhash-total_example :
    (seed : List ℕ) × (get_seedhash 48 block ≡ some seed)
    × (seed_chain (e_epoch block) ≡ some seed)
    × IsSeed seed
get_seedhash-total_example = get_seedhash-total 48 block (omega (arith, epoch_of 1 0 (omega arith)))
