-- ===== src/Farm.antt =====
-- libethcore/Farm.cpp: the miners, the nonces they search and the solutions they are credited with.
-- The members that only the monitor of the hardware and the timer use are left out.
pub mod Segments
pub mod Counters
pub mod Lifecycle
pub mod Restart
use fpga_ethash.FixedHash.{greater}
use fpga_ethash.Work.{WorkPackage, Solution}
use fpga_ethash.Miner.{
  Miner, MinerPause, due_to_farm_paused, new_miner, set_work, pause, resume, set_epoch, kick_miner,
}
use fpga_ethash.Base.{
  ℕ, zero, suc, ◌+◌, ◌-◌, ◌*◌, ◌/◌, ◌%◌, ◌^◌, List, [], ◌∷◌, ◌++◌, map, Bool, true, false, not,
  ◌&&◌, ◌==◌, ltb, leb, if◌then◌else◌, Option, none, some, bind, length, get_elem?, set, u32, u64,
  shl64, ℤ, ◌=ℤ◌,
}

-- `SolutionAccountType`, without the time of the last one.
pub record Solutions : Type 0 where
  pub accepted : ℕ
  pub rejected : ℕ
  pub wasted : ℕ
  pub failed : ℕ

pub data Accounting : Type 0 where
  acc_accepted acc_rejected acc_wasted acc_failed : Accounting

pub no_solutions : Solutions
no_solutions = record { accepted = 0; rejected = 0; wasted = 0; failed = 0 }

pub record Farm : Type 0 where
  pub paused : Bool
  pub miners : List Miner
  pub current_wp : WorkPackage
  pub current_ec : Option ℤ
  pub is_mining : Bool
  pub farm_solutions : Solutions
  pub miner_solutions : List Solutions
  pub no_eval : Bool
  pub ergodicity : ℕ
  pub nonce_scrambler : ℕ
  pub nonce_segment_width : ℕ

-- `shuffle`: `random` is what the engine gives.
pub shuffle : ℕ → Farm → Farm
shuffle random f = record f { nonce_scrambler = random }

-- The greatest `w` at most the first argument with `n * 2 ^ w` at most `size`, or zero.
pub width_from : ℕ → ℕ → ℕ → ℕ
width_from zero n size = 0
width_from (suc w) n size =
    let smaller = width_from w n size in if leb (n * 2 ^ suc w) size then suc w else smaller

-- `(unsigned int)log2(pow(2, 64 - exSizeBytes * 4) / miners)`: the logarithm rounded towards zero.
-- `none` where the value does not fit `unsigned`: no miner, or more of them than there are nonces.
pub segment_width : ℕ → ℕ → Option ℕ
unfolding width_from
segment_width ex_size_bytes miners =
    let bits = 64 - ex_size_bytes * 4 in
    if miners == 0
    then none
    else if leb (ex_size_bytes * 4) 64 && ltb miners (2 * 2 ^ bits)
    then some (width_from bits miners (2 ^ bits))
    else none

-- The loop that hands the work to the miners from number `i` on.
pub hand_out : WorkPackage → ℕ → ℕ → ℕ → List Miner → List Miner
hand_out w start width i [] = []
hand_out w start width i (m ∷ ms) =
    set_work (record w { start_nonce = u64 (start + shl64 i width) }) m
    ∷ hand_out w start width (i + 1) ms

-- What `m_currentWp.startNonce` is after the loop.
pub last_start : ℕ → ℕ → ℕ → ℕ → ℕ
last_start start width zero before = before
last_start start width (suc i) before = u64 (start + shl64 i width)

-- The epoch part of `setWork`.
pub switch_epoch : WorkPackage → Farm → Farm
switch_epoch w f =
    if f.current_wp.epoch =ℤ w.epoch
    then f
    else record f { current_ec = some w.epoch; miners = map (set_epoch w.epoch) f.miners }

-- `setWork`; `random` is what a shuffle would draw.
pub farm_set_work : ℕ → WorkPackage → Farm → Option Farm
unfolding switch_epoch shuffle segment_width hand_out last_start
farm_set_work random w f0 =
    let f1 = record (switch_epoch w f0) { current_wp = w } in
    let shuffled = (f1.ergodicity == 2) && (w.ex_size_bytes == 0) in
    let scrambler = if shuffled then (shuffle random f1).nonce_scrambler else f1.nonce_scrambler in
    let n = length f1.miners in
    let finish = λ (start width : ℕ). record f1 {
      nonce_scrambler = scrambler;
      nonce_segment_width = width;
      miners = hand_out w start width 0 f1.miners;
      current_wp = record w { start_nonce = last_start start width n w.start_nonce };
    } in
    if ltb 0 w.ex_size_bytes
    then bind (segment_width w.ex_size_bytes n) (λ width. some (finish w.start_nonce width))
    else some (finish scrambler f1.nonce_segment_width)

-- The miners that `start` creates: a device that is subscribed as an FPGA gets one.
unfoldable pub new_miners : List ℕ → List Bool → ℕ → List Miner
new_miners ethash [] index = []
new_miners ethash (true ∷ devices) index =
    new_miner ethash index ∷ new_miners ethash devices (index + 1)
new_miners ethash (false ∷ devices) index = new_miners ethash devices index

-- `start`: `devices` tells for each device whether it is subscribed as an FPGA.
pub farm_start : List ℕ → List Bool → Farm → Farm
unfolding new_miners no_solutions
farm_start ethash devices f =
    let created = new_miners ethash devices 0 in
    if f.is_mining
    then f
    else if length f.miners == 0
    then record f {
      miners = created;
      miner_solutions = f.miner_solutions ++ map (λ _. no_solutions) created;
      is_mining = true;
    }
    else record f { is_mining = true }

-- `stop`; the workers are told to stop and dropped.
pub farm_stop : Farm → Farm
farm_stop f = if f.is_mining then record f { miners = []; is_mining = false } else f

pub farm_pause : Farm → Farm
farm_pause f = record f { paused = true; miners = map (pause due_to_farm_paused) f.miners }

pub farm_resume : Farm → Farm
farm_resume f = record f { paused = false; miners = map (resume due_to_farm_paused) f.miners }

-- `x++` of the counter that the accounting names.
pub count : Accounting → Solutions → Solutions
count acc_accepted s = record s { accepted = u32 (s.accepted + 1) }
count acc_rejected s = record s { rejected = u32 (s.rejected + 1) }
count acc_wasted s = record s { wasted = u32 (s.wasted + 1) }
count acc_failed s = record s { failed = u32 (s.failed + 1) }

-- `accountSolution`: the Boolean is false if `at` throws, when the farm's counter is already up.
pub account_solution : ℕ → Accounting → Farm → Farm × Bool
unfolding count
account_solution idx acc f =
    let f' = record f { farm_solutions = count acc f.farm_solutions } in
    elim (get_elem? f.miner_solutions idx) [
      | none ↦ (f', false)
      | some s ↦ (record f' { miner_solutions = set f.miner_solutions idx (count acc s) }, true)
    ]

-- `getSolutions(unsigned)`.
pub get_solutions : ℕ → Farm → Solutions
unfolding no_solutions
get_solutions idx f = elim (get_elem? f.miner_solutions idx) [ none ↦ no_solutions | some s ↦ s ]

-- `submitProofAsync`: `eval` is `EthashAux::eval`, the value and the mix hash for an epoch, a header
-- and a nonce. The result has the solution that the handler is called with, if any.
pub submit_proof :
    (ℤ → List ℕ → ℕ → List ℕ × List ℕ) → Solution → Farm → (Farm × Bool) × Option Solution
unfolding account_solution
submit_proof eval s f =
    let r = eval s.work.epoch s.work.header s.nonce in
    if f.no_eval
    then ((f, true), some s)
    else if greater r.0 s.work.boundary
    then (account_solution s.midx acc_failed f, none)
    else ((f, true), some (record s { mix_hash = r.1 }))
