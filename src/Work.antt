-- ===== src/Work.antt =====
-- libethcore/EthashAux.h: what a pool hands to the farm and what a miner hands back. An `int` is an
-- integer, a hash the list of its bytes.
use fpga_ethash.FixedHash.{is_nonzero, zero_hash}
use fpga_ethash.Base.{ℕ, List, [], Bool, ℤ, negsuc}

pub record WorkPackage : Type 0 where
  pub job : List ℕ
  pub boundary : List ℕ
  pub header : List ℕ
  pub seed : List ℕ
  pub epoch : ℤ
  pub block : ℤ
  pub start_nonce : ℕ
  pub ex_size_bytes : ℕ
  pub algo : List ℕ

-- The default member values; the algorithm is "ethash".
pub empty_work : List ℕ → WorkPackage
empty_work ethash = record {
  job = [];
  boundary = zero_hash 32;
  header = zero_hash 32;
  seed = zero_hash 32;
  epoch = negsuc 0;
  block = negsuc 0;
  start_nonce = 0;
  ex_size_bytes = 0;
  algo = ethash;
}

-- `explicit operator bool`.
unfoldable pub has_work : WorkPackage → Bool
has_work w = is_nonzero w.header

pub record Solution : Type 0 where
  pub nonce : ℕ
  pub mix_hash : List ℕ
  pub work : WorkPackage
  pub midx : ℕ
