-- ===== src/Farm/Restart.antt =====
-- What a restart of the miners leaves out.
use fpga_ethash.Work.{WorkPackage}
use fpga_ethash.Miner.{Miner}
use fpga_ethash.Miner.Pausing.{new_miner-epoch_context, set_work-epoch_context}
use fpga_ethash.Farm.Lifecycle.{hand_out-All, new_miners-All, set_work_miners}
use fpga_ethash.Farm.Segments.{Divisible, farm_set_work-total}
use fpga_ethash.Farm.{
  Farm, new_miners, hand_out, switch_epoch, farm_set_work, farm_start, farm_stop,
}
use fpga_ethash.Base.{
  length, ℕ, ◌≡◌, refl, sym, ap, ◌∙◌, subst, List, Bool, true, none, some, All, ◌=ℤ◌,
}

abbrev NoContext : Miner → Type 0
NoContext m = m.epoch_context ≡ none

restarted_miners :
    (ethash : List ℕ) (devices : List Bool) (f : Farm)
    → f.is_mining ≡ true
    → ((farm_start ethash devices (farm_stop f)).miners ≡ new_miners ethash devices 0)
      × ((farm_start ethash devices (farm_stop f)).current_wp ≡ f.current_wp)
unfolding farm_start farm_stop
restarted_miners ethash devices f mining = rw mining (refl, refl)

switch_epoch-same :
    (w : WorkPackage) (f : Farm) → (f.current_wp.epoch =ℤ w.epoch) ≡ true → switch_epoch w f ≡ f
unfolding switch_epoch
switch_epoch-same w f same = rw same refl

restarted_no_context :
    (random : ℕ) (w : WorkPackage) (ethash : List ℕ) (devices : List Bool) (f f' : Farm)
    → f.is_mining ≡ true
    → (f.current_wp.epoch =ℤ w.epoch) ≡ true
    → farm_set_work random w (farm_start ethash devices (farm_stop f)) ≡ some f'
    → All (λ m. m.epoch_context ≡ none) f'.miners
restarted_no_context random w ethash devices f f' mining same run =
    let again = farm_start ethash devices (farm_stop f) in
    let (ms, wp) = restarted_miners ethash devices f mining in
    let (start, width, handed, _) = set_work_miners random w again f' run in
    let kept : switch_epoch w again ≡ again =
      switch_epoch-same w again (ap (λ (p : WorkPackage). p.epoch =ℤ w.epoch) wp ∙ same) in
    subst (All NoContext)
      (sym (
        handed
        ∙ ap (λ (g : Farm). hand_out w start width 0 g.miners) kept
        ∙ ap (hand_out w start width 0) ms))
      (hand_out-All NoContext (λ v m e. set_work-epoch_context v m ∙ e) w start width 0
        (new_miners ethash devices 0)
        (new_miners-All NoContext ethash (new_miner-epoch_context ethash) devices 0))

-- A restart replaces the miners, and the next work of the epoch that the farm had before does not
-- hand the epoch's context to them: it is handed over only when the epoch differs from that of the
-- work before. The work is taken, and every miner is left with the context that it never got.
pub restart_no_context :
    (random : ℕ) (w : WorkPackage) (ethash : List ℕ) (devices : List Bool) (f : Farm)
    → f.is_mining ≡ true
    → (f.current_wp.epoch =ℤ w.epoch) ≡ true
    → Divisible w.ex_size_bytes (length (new_miners ethash devices 0))
    → (f' : Farm) × (farm_set_work random w (farm_start ethash devices (farm_stop f)) ≡ some f')
      × All (λ m. m.epoch_context ≡ none) f'.miners
restart_no_context random w ethash devices f mining same fits =
    let again = farm_start ethash devices (farm_stop f) in
    let sized : length again.miners ≡ length (new_miners ethash devices 0) =
      ap (λ (ms : List Miner). length ms) (restarted_miners ethash devices f mining).0 in
    let (f', run) =
      farm_set_work-total random w again (subst (Divisible w.ex_size_bytes) (sym sized) fits) in
    (f', run, restarted_no_context random w ethash devices f f' mining same run)
