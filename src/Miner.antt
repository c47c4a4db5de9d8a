-- ===== src/Miner.antt =====
-- libethcore/Miner.cpp: a miner's pause flags and the work it is given. `kick_miner` is the device's
-- own; it is counted.
pub mod Pausing
use fpga_ethash.FixedHash.{zero_hash}
use fpga_ethash.Work.{WorkPackage, empty_work}
use fpga_ethash.Base.{
  ℕ, zero, suc, ◌+◌, List, [], ◌∷◌, Bool, true, false, ◌||◌, Option, none, some, replicate, get_or,
  set, ℤ, if◌then◌else◌,
}

-- `MinerPauseEnum`.
pub data MinerPause : Type 0 where
  due_to_over_heating : MinerPause
  due_to_api_request : MinerPause
  due_to_farm_paused : MinerPause
  due_to_insufficient_memory : MinerPause
  due_to_init_epoch_error : MinerPause

abbrev pub pause_index : MinerPause → ℕ
pause_index due_to_over_heating = 0
pause_index due_to_api_request = 1
pause_index due_to_farm_paused = 2
pause_index due_to_insufficient_memory = 3
pause_index due_to_init_epoch_error = 4

-- `epoch_context` is `none` until `setEpoch` is called: the member has no initial value.
pub record Miner : Type 0 where
  pub index : ℕ
  pub pause_flags : List Bool
  pub work : WorkPackage
  pub epoch_context : Option ℤ
  pub kicks : ℕ

pub new_miner : List ℕ → ℕ → Miner
new_miner ethash index = record {
  index = index;
  pause_flags = replicate 5 false;
  work = empty_work ethash;
  epoch_context = none;
  kicks = 0;
}

-- `bitset::any`.
pub any : List Bool → Bool
any [] = false
any (b ∷ bs) = b || any bs

pub paused : Miner → Bool
unfolding any
paused m = any m.pause_flags

pub pause_test : MinerPause → Miner → Bool
pause_test what m = get_or m.pause_flags (pause_index what) false

pub kick_miner : Miner → Miner
kick_miner m = record m { kicks = m.kicks + 1 }

-- `m_work.header = h256()`.
pub void_work : Miner → Miner
void_work m = record m { work = record m.work { header = zero_hash 32 } }

pub set_work : WorkPackage → Miner → Miner
unfolding paused kick_miner void_work
set_work w m = kick_miner (if paused m then void_work m else record m { work = w })

pub pause : MinerPause → Miner → Miner
unfolding kick_miner void_work
pause what m =
    kick_miner (void_work (record m { pause_flags = set m.pause_flags (pause_index what) true }))

pub resume : MinerPause → Miner → Miner
resume what m = record m { pause_flags = set m.pause_flags (pause_index what) false }

pub set_epoch : ℤ → Miner → Miner
set_epoch epoch m = record m { epoch_context = some epoch }
