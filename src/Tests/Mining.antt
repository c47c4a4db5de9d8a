-- ===== src/Tests/Mining.antt =====
-- A miner and a farm at concrete inputs.
use fpga_ethash.FixedHash.{zero_hash}
use fpga_ethash.Work.{WorkPackage}
use fpga_ethash.Miner.{
  Miner, due_to_over_heating, due_to_farm_paused, new_miner, paused, pause_test, set_work, pause,
  resume,
}
use fpga_ethash.Miner.Pausing.{pause-reasons, new_miner-IsMiner}
use fpga_ethash.Farm.{
  Solutions, Farm, acc_accepted, count, account_solution, farm_start, farm_stop, farm_set_work,
  new_miners, farm_pause, acc_rejected, acc_wasted, acc_failed,
}
use fpga_ethash.Farm.Segments.{Divisible, farm_set_work-segments}
use fpga_ethash.Farm.Counters.{counter, Balanced, account_solution-Balanced}
use fpga_ethash.Farm.Lifecycle.{IsFarm, here, next, pauses, stops, Steps-IsFarm}
use fpga_ethash.Farm.Restart.{restart_no_context}
use fpga_ethash.Base.{
  get_elem?, set, u32, some, none, ℕ, ◌+◌, ◌-◌, ◌*◌, ◌^◌, ◌≤◌, ◌≡◌, ◌⊎◌, inr, refl, sym, List, [],
  ◌∷◌, Bool, true, false, none, some, length, get_elem?, replicate, All, pos, arith, false≢true,
}

abbrev ethash : List ℕ
ethash = 101 ∷ []

abbrev work : WorkPackage
work = record {
  job = [];
  boundary = replicate 32 9;
  header = replicate 32 1;
  seed = replicate 32 2;
  epoch = pos 4;
  block = pos 120000;
  start_nonce = 0x1200000000000000;
  ex_size_bytes = 2;
  algo = ethash;
}

abbrev solutions : Solutions
solutions = record { accepted = 0; rejected = 0; wasted = 0; failed = 0 }

abbrev three_miners : List Miner
three_miners = new_miner ethash 0 ∷ new_miner ethash 1 ∷ new_miner ethash 2 ∷ []

abbrev farm : Farm
farm = record {
  paused = false;
  miners = three_miners;
  current_wp = work;
  current_ec = some (pos 4);
  is_mining = true;
  farm_solutions = solutions;
  miner_solutions = solutions ∷ solutions ∷ solutions ∷ [];
  no_eval = false;
  ergodicity = 0;
  nonce_scrambler = 17;
  nonce_segment_width = 32;
}

farm_set_work-segments_example :
    (f' : Farm) × (farm_set_work 5 work farm ≡ some f')
    × ((v : ℕ) → v ≤ 64 - 2 * 4 → 3 * 2 ^ v ≤ 2 ^ (64 - 2 * 4) → v ≤ f'.nonce_segment_width)
    × ((i : ℕ) (m : Miner)
        → get_elem? three_miners i ≡ some m
        → paused m ≡ false
        → (m' : Miner) × (get_elem? f'.miners i ≡ some m')
          × (m'.work.start_nonce ≡ 0x1200000000000000 + i * 2 ^ f'.nonce_segment_width)
          × (i * 2 ^ f'.nonce_segment_width + 2 ^ f'.nonce_segment_width ≤ 2 ^ (64 - 2 * 4)))
farm_set_work-segments_example =
    farm_set_work-segments 5 work farm (omega arith) (omega arith) (omega arith) (omega arith)
      (omega arith)

farm-IsFarm : IsFarm farm
farm-IsFarm = record {
  all_ok =
      (new_miner-IsMiner ethash 0, (new_miner-IsMiner ethash 1, (new_miner-IsMiner ethash 2, tt)));
  stopped = λ e. absurd (false≢true (sym e));
}

Steps-IsFarm_example : IsFarm (farm_stop (farm_pause farm))
Steps-IsFarm_example =
    Steps-IsFarm farm (farm_stop (farm_pause farm)) (next (next here pauses) stops) farm-IsFarm

farm-Balanced : Balanced farm
farm-Balanced acc_accepted = refl
farm-Balanced acc_rejected = refl
farm-Balanced acc_wasted = refl
farm-Balanced acc_failed = refl

account_solution-Balanced_example :
    ((s : Solutions) × (get_elem? farm.miner_solutions 1 ≡ some s)
      × ((account_solution 1 acc_accepted farm).1 ≡ true)
      × (counter acc_accepted (account_solution 1 acc_accepted farm).0.farm_solutions
          ≡ u32 (counter acc_accepted solutions + 1))
      × (counter acc_accepted (count acc_accepted s) ≡ u32 (counter acc_accepted s + 1))
      × ((account_solution 1 acc_accepted farm).0.miner_solutions
          ≡ set farm.miner_solutions 1 (count acc_accepted s))
      × Balanced (account_solution 1 acc_accepted farm).0)
    ⊎ ((get_elem? farm.miner_solutions 1 ≡ none)
        × ((account_solution 1 acc_accepted farm).1 ≡ false)
        × ((account_solution 1 acc_accepted farm).0.farm_solutions ≡ count acc_accepted solutions)
        × ((account_solution 1 acc_accepted farm).0.miner_solutions
            ≡ solutions ∷ solutions ∷ solutions ∷ []))
account_solution-Balanced_example = account_solution-Balanced 1 acc_accepted farm farm-Balanced

abbrev devices : List Bool
devices = true ∷ false ∷ true ∷ []

fits : Divisible 2 (length (new_miners ethash devices 0))
unfolding new_miners
fits = inr (omega arith, omega arith, omega arith)

restart_no_context_example :
    (f' : Farm) × (farm_set_work 5 work (farm_start ethash devices (farm_stop farm)) ≡ some f')
    × All (λ m. m.epoch_context ≡ none) f'.miners
restart_no_context_example = restart_no_context 5 work ethash devices farm refl refl fits

pause-reasons_example :
    (pause_test due_to_over_heating (pause due_to_over_heating (new_miner ethash 0)) ≡ true)
    × (pause_test due_to_farm_paused (pause due_to_over_heating (new_miner ethash 0))
        ≡ pause_test due_to_farm_paused (new_miner ethash 0))
    × (paused (pause due_to_over_heating (new_miner ethash 0)) ≡ true)
    × ((pause due_to_over_heating (new_miner ethash 0)).work.header ≡ zero_hash 32)
    × ((set_work work (pause due_to_over_heating (new_miner ethash 0))).work.header ≡ zero_hash 32)
    × (pause_test due_to_over_heating
          (resume due_to_over_heating (pause due_to_over_heating (new_miner ethash 0)))
        ≡ false)
    × (pause_test due_to_farm_paused
          (resume due_to_over_heating (pause due_to_over_heating (new_miner ethash 0)))
        ≡ pause_test due_to_farm_paused (new_miner ethash 0))
pause-reasons_example =
    pause-reasons due_to_over_heating due_to_farm_paused work (new_miner ethash 0)
      (new_miner-IsMiner ethash 0).flags (λ e. omega arith)
