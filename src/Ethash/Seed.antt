-- ===== src/Ethash/Seed.antt =====
-- `get_seedhash` is the chain of hashes that the epochs number.
use fpga_ethash.Keccak.{kec_hash_buffer}
use fpga_ethash.Keccak.Hash.{kec_hash_buffer-total}
use fpga_ethash.Ethash.{e_epoch, get_seedhash}
use fpga_ethash.Base.{
  ℕ, zero, suc, ◌-◌, ◌<◌, ◌≡◌, refl, ◌∙◌, inl, Option, some, bind, bind_eq, bind_cong, arith, List,
  length, replicate, length-replicate, All, All-replicate, IsU8,
}

-- The hash with 256 bits, `epoch` times, from 32 zero bytes.
pub seed_chain : ℕ → Option (List ℕ)
seed_chain zero = some (replicate 32 0)
seed_chain (suc epoch) = bind (seed_chain epoch) (λ seed. kec_hash_buffer 256 seed 32)

abbrev pub IsSeed : List ℕ → Type 0
IsSeed seed = (length seed ≡ 32) × All IsU8 seed

seed_chain-total : (epoch : ℕ) → (seed : List ℕ) × (seed_chain epoch ≡ some seed) × IsSeed seed
unfolding seed_chain
seed_chain-total zero =
    (replicate 32 0, refl, (length-replicate 32 byte, All-replicate IsU8 32 byte (omega arith)))
  where
    byte : ℕ
    byte = 0
seed_chain-total (suc epoch) =
    let (seed, made, shape) = seed_chain-total epoch in
    let (next, hashed, size', bytes') = kec_hash_buffer-total 256 32 seed (inl refl) shape.1 in
    (next, bind_eq _ made ∙ hashed, (size' ∙ omega arith, bytes'))

first_epoch :
    (fuel block_number : ℕ)
    → e_epoch block_number ≡ 0
    → get_seedhash (suc fuel) block_number ≡ some (replicate 32 0)
unfolding get_seedhash
first_epoch fuel block_number first = rw first refl

later_epoch :
    (fuel block_number epoch : ℕ)
    → e_epoch block_number ≡ suc epoch
    → get_seedhash (suc fuel) block_number
      ≡ bind (get_seedhash fuel (block_number - 30000)) (λ seed. kec_hash_buffer 256 seed 32)
unfolding get_seedhash
later_epoch fuel block_number epoch later = ground (arith, later)

e_epoch-earlier :
    (block_number epoch : ℕ)
    → e_epoch block_number ≡ suc epoch
    → e_epoch (block_number - 30000) ≡ epoch
unfolding e_epoch
e_epoch-earlier block_number epoch later = omega arith

get_seedhash-eq-seed_chain :
    (epoch fuel block_number : ℕ)
    → e_epoch block_number ≡ epoch
    → epoch < fuel
    → get_seedhash fuel block_number ≡ seed_chain epoch
unfolding seed_chain
get_seedhash-eq-seed_chain epoch zero block_number at enough = absurd (omega arith)
get_seedhash-eq-seed_chain zero (suc fuel) block_number at enough = first_epoch fuel block_number at
get_seedhash-eq-seed_chain (suc epoch) (suc fuel) block_number at enough =
    later_epoch fuel block_number epoch at
    ∙ bind_cong
        (get_seedhash-eq-seed_chain epoch fuel (block_number - 30000)
          (e_epoch-earlier block_number epoch at) (omega arith))
        λ seed. refl

-- With more calls allowed than there are epochs before the block, `get_seedhash` returns 32 bytes: 32
-- zero bytes hashed once for every epoch that has passed, so blocks of one epoch share the seed.
pub get_seedhash-total :
    (fuel block_number : ℕ)
    → e_epoch block_number < fuel
    → (seed : List ℕ) × (get_seedhash fuel block_number ≡ some seed)
      × (seed_chain (e_epoch block_number) ≡ some seed)
      × IsSeed seed
get_seedhash-total fuel block_number enough =
    let (seed, made, shape) = seed_chain-total (e_epoch block_number) in
    (
      seed,
      get_seedhash-eq-seed_chain (e_epoch block_number) fuel block_number refl enough ∙ made,
      made,
      shape,
    )
