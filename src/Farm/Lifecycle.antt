-- ===== src/Farm/Lifecycle.antt =====
-- The farm under any sequence of its calls: paused miners stay idle, a farm that is not mining has no
-- miners, and what a restart leaves out.
use fpga_ethash.Work.{WorkPackage}
use fpga_ethash.Miner.{
  Miner, MinerPause, due_to_farm_paused, new_miner, set_work, pause, resume, set_epoch,
}
use fpga_ethash.Miner.Pausing.{
  IsMiner, new_miner-IsMiner, set_work-IsMiner, pause-IsMiner, resume-IsMiner, set_epoch-IsMiner,
}
use fpga_ethash.Farm.Segments.{length-hand_out, length-switch_epoch}
use fpga_ethash.Farm.{
  Farm, Accounting, new_miners, hand_out, switch_epoch, farm_set_work, farm_start, farm_stop,
  farm_pause, farm_resume, account_solution,
}
use fpga_ethash.Base.{
  ℕ, zero, suc, ◌+◌, ◌≡◌, refl, inl, inr, none-ne-some, sym, ap, ◌∙◌, subst, List, [], ◌∷◌, map,
  Bool, true, false, false≢true, Bool-cases, ltb, ◌==◌, if◌then◌else◌, some, some-injective,
  Option-cases, if_either, length-set, length-map, bind_inv, length, get_elem?, set, All, All-set,
  ℤ, ◌=ℤ◌, u64, shl64,
}

All-map :
    {A B : Type 0} (P : A → Type 0) (Q : B → Type 0) (f : A → B)
    → ((a : A) → P a → Q (f a))
    → (xs : List A) → All P xs
    → All Q (map f xs)
All-map P Q f keeps [] ok = tt
All-map P Q f keeps (x ∷ xs) ok = (keeps x ok.0, All-map P Q f keeps xs ok.1)

pub hand_out-All :
    (P : Miner → Type 0)
    → ((w : WorkPackage) (m : Miner) → P m → P (set_work w m))
    → (w : WorkPackage) (start width i : ℕ) (ms : List Miner) → All P ms
    → All P (hand_out w start width i ms)
unfolding hand_out
hand_out-All P keeps w start width i [] ok = tt
hand_out-All P keeps w start width i (m ∷ ms) ok = (
  keeps (record w { start_nonce = u64 (start + shl64 i width) }) m ok.0,
  hand_out-All P keeps w start width (i + 1) ms ok.1,
)

pub new_miners-All :
    (P : Miner → Type 0) (ethash : List ℕ)
    → ((i : ℕ) → P (new_miner ethash i))
    → (devices : List Bool) (i : ℕ) → All P (new_miners ethash devices i)
unfolding new_miners
new_miners-All P ethash fresh [] i = tt
new_miners-All P ethash fresh (true ∷ devices) i =
    (fresh i, new_miners-All P ethash fresh devices (i + 1))
new_miners-All P ethash fresh (false ∷ devices) i = new_miners-All P ethash fresh devices i

-- Where `setWork` returns, its miners are those it had, with the epoch switched, each given work.
pub set_work_miners :
    (random : ℕ) (w : WorkPackage) (f f' : Farm)
    → farm_set_work random w f ≡ some f'
    → (start : ℕ) × (width : ℕ) × (f'.miners ≡ hand_out w start width 0 (switch_epoch w f).miners)
      × (f'.is_mining ≡ (switch_epoch w f).is_mining)
unfolding farm_set_work
set_work_miners random w f f' run = elim (Bool-cases (ltb 0 w.ex_size_bytes)) [
  | inl extra ↦
      let (width, _, e) = bind_inv (rw extra at run) in (w.start_nonce, width, (out e).0, (out e).1)
  | inr none_extra ↦ (_, _, (out (rw none_extra at run)).0, (out (rw none_extra at run)).1)
]
  where
    out : {g : Farm} → some g ≡ some f' → (f'.miners ≡ g.miners) × (f'.is_mining ≡ g.is_mining)
    out {g} e =
        let same = some-injective g f' e in
        (ap (λ (x : Farm). x.miners) (sym same), ap (λ (x : Farm). x.is_mining) (sym same))

switch_epoch-is_mining : (w : WorkPackage) (f : Farm) → (switch_epoch w f).is_mining ≡ f.is_mining
unfolding switch_epoch
switch_epoch-is_mining w f = elim (Bool-cases (f.current_wp.epoch =ℤ w.epoch)) [
  | inl same ↦ rw same refl
  | inr other ↦ rw other refl
]

switch_epoch-All :
    (P : Miner → Type 0)
    → ((e : ℤ) (m : Miner) → P m → P (set_epoch e m))
    → (w : WorkPackage) (f : Farm) → All P f.miners
    → All P (switch_epoch w f).miners
unfolding switch_epoch
switch_epoch-All P keeps w f ok = elim (Bool-cases (f.current_wp.epoch =ℤ w.epoch)) [
  | inl same ↦ rw same ok
  | inr other ↦ rw other (All-map P P (set_epoch w.epoch) (keeps w.epoch) f.miners ok)
]

-- A miner on its own is paused or resumed by the monitor of the hardware, by a request or by the
-- device.
pub data Step : Farm → Farm → Type 0 where
  works :
      {f f' : Farm} (random : ℕ) (w : WorkPackage) → farm_set_work random w f ≡ some f' → Step f f'
  starts : {f : Farm} (ethash : List ℕ) (devices : List Bool) → Step f (farm_start ethash devices f)
  stops : {f : Farm} → Step f (farm_stop f)
  pauses : {f : Farm} → Step f (farm_pause f)
  resumes : {f : Farm} → Step f (farm_resume f)
  accounts : {f : Farm} (idx : ℕ) (acc : Accounting) → Step f (account_solution idx acc f).0
  pauses_one :
      {f : Farm} (i : ℕ) (m : Miner) (what : MinerPause)
      → get_elem? f.miners i ≡ some m
      → Step f (record f { miners = set f.miners i (pause what m) })
  resumes_one :
      {f : Farm} (i : ℕ) (m : Miner) (what : MinerPause)
      → get_elem? f.miners i ≡ some m
      → Step f (record f { miners = set f.miners i (resume what m) })

pub data Steps (f : Farm) : Farm → Type 0 where
  here : Steps f f
  next : {g h : Farm} → Steps f g → Step g h → Steps f h

-- Every miner keeps the invariant of its pause flags, and a farm that is not mining has none.
pub record IsFarm (f : Farm) : Type 0 where
  pub all_ok : All IsMiner f.miners
  pub stopped : f.is_mining ≡ false → length f.miners ≡ 0

All-get_elem? :
    {A : Type 0} (P : A → Type 0) (xs : List A) (i : ℕ) (x : A)
    → get_elem? xs i ≡ some x
    → All P xs
    → P x
All-get_elem? P [] i x at ok = absurd (none-ne-some x at)
All-get_elem? P (y ∷ ys) zero x at ok = subst P (some-injective y x at) ok.0
All-get_elem? P (y ∷ ys) (suc i) x at ok = All-get_elem? P ys i x at ok.1

set_work-IsFarm :
    (random : ℕ) (w : WorkPackage) (f f' : Farm)
    → farm_set_work random w f ≡ some f'
    → IsFarm f
    → IsFarm f'
set_work-IsFarm random w f f' run ok =
    let (start, width, ms, mining) = set_work_miners random w f f' run in
    record {
      all_ok = subst (All IsMiner) (sym ms) (
          hand_out-All IsMiner set_work-IsMiner w start width 0 (switch_epoch w f).miners
            (switch_epoch-All IsMiner set_epoch-IsMiner w f ok.all_ok));
      stopped = λ e.
          ap (λ (xs : List Miner). length xs) ms
          ∙ length-hand_out w start width 0 (switch_epoch w f).miners
          ∙ length-switch_epoch w f
          ∙ ok.stopped (sym (mining ∙ switch_epoch-is_mining w f) ∙ e);
    }

start-IsFarm :
    (ethash : List ℕ) (devices : List Bool) (f : Farm)
    → IsFarm f
    → IsFarm (farm_start ethash devices f)
unfolding farm_start
start-IsFarm ethash devices f ok =
    if_either IsFarm f.is_mining (λ mining. ok)
      λ idle.
        if_either IsFarm (length f.miners == 0)
          (λ none_left. record {
            all_ok = new_miners-All IsMiner ethash (new_miner-IsMiner ethash) devices 0;
            stopped = λ e. absurd (false≢true (sym e));
          })
          (λ some_left. record { all_ok = ok.all_ok; stopped = λ e. absurd (false≢true (sym e)) })

stop-IsFarm : (f : Farm) → IsFarm f → IsFarm (farm_stop f)
unfolding farm_stop
stop-IsFarm f ok =
    if_either IsFarm f.is_mining (λ mining. record { all_ok = tt; stopped = λ e. refl })
      (λ idle. ok)

account-miners :
    (idx : ℕ) (acc : Accounting) (f : Farm)
    → ((account_solution idx acc f).0.miners ≡ f.miners)
      × ((account_solution idx acc f).0.is_mining ≡ f.is_mining)
unfolding account_solution
account-miners idx acc f = elim (Option-cases (get_elem? f.miner_solutions idx)) [
  | inl out ↦ rw (out, account_solution) (refl, refl)
  | inr (s, at) ↦ rw (at, account_solution) (refl, refl)
]

account-IsFarm :
    (idx : ℕ) (acc : Accounting) (f : Farm) → IsFarm f → IsFarm (account_solution idx acc f).0
account-IsFarm idx acc f ok =
    let (ms, mining) = account-miners idx acc f in
    record {
      all_ok = subst (All IsMiner) (sym ms) ok.all_ok;
      stopped = λ e. ap (λ (xs : List Miner). length xs) ms ∙ ok.stopped (sym mining ∙ e);
    }

Step-IsFarm : (f f' : Farm) → Step f f' → IsFarm f → IsFarm f'
unfolding farm_pause farm_resume
Step-IsFarm f f' (works random w run) ok = set_work-IsFarm random w f f' run ok
Step-IsFarm f f' (starts ethash devices) ok = start-IsFarm ethash devices f ok
Step-IsFarm f f' stops ok = stop-IsFarm f ok
Step-IsFarm f f' pauses ok = record {
  all_ok =
      All-map IsMiner IsMiner (pause due_to_farm_paused) (pause-IsMiner due_to_farm_paused) f.miners
        ok.all_ok;
  stopped = λ e. length-map f.miners (pause due_to_farm_paused) ∙ ok.stopped e;
}
Step-IsFarm f f' resumes ok = record {
  all_ok =
      All-map IsMiner IsMiner (resume due_to_farm_paused) (resume-IsMiner due_to_farm_paused)
        f.miners ok.all_ok;
  stopped = λ e. length-map f.miners (resume due_to_farm_paused) ∙ ok.stopped e;
}
Step-IsFarm f f' (accounts idx acc) ok = account-IsFarm idx acc f ok
Step-IsFarm f f' (pauses_one i m what at) ok = record {
  all_ok =
      All-set IsMiner f.miners i (pause what m)
        (pause-IsMiner what m (All-get_elem? IsMiner f.miners i m at ok.all_ok)) ok.all_ok;
  stopped = λ e. length-set f.miners i (pause what m) ∙ ok.stopped e;
}
Step-IsFarm f f' (resumes_one i m what at) ok = record {
  all_ok =
      All-set IsMiner f.miners i (resume what m)
        (resume-IsMiner what m (All-get_elem? IsMiner f.miners i m at ok.all_ok)) ok.all_ok;
  stopped = λ e. length-set f.miners i (resume what m) ∙ ok.stopped e;
}

-- However a farm is driven, by work, starts, stops, pauses, accountings and pauses of a single
-- miner in any order, a miner that is paused for any reason has no work, and a farm that is not mining
-- has no miners.
pub Steps-IsFarm : (f f' : Farm) → Steps f f' → IsFarm f → IsFarm f'
Steps-IsFarm f f' here ok = ok
Steps-IsFarm f f' (next {g} before step) ok = Step-IsFarm g f' step (Steps-IsFarm f g before ok)

pub stop_idle : (f : Farm) → (if f.is_mining then farm_stop f else f).is_mining ≡ false
unfolding farm_stop
stop_idle f =
    if_either (λ (g : Farm). g.is_mining ≡ false) f.is_mining (λ mining. rw mining refl)
      (λ idle. idle)

-- The farm keeps the epoch of the last work.
pub set_work_epoch :
    (random : ℕ) (w : WorkPackage) (f f' : Farm)
    → farm_set_work random w f ≡ some f'
    → f'.current_wp.epoch ≡ w.epoch
unfolding farm_set_work
set_work_epoch random w f f' run = elim (Bool-cases (ltb 0 w.ex_size_bytes)) [
  | inl extra ↦
      let (_, _, e) = bind_inv (rw extra at run) in
      ap (λ (g : Farm). g.current_wp.epoch) (sym (some-injective _ f' e))
  | inr none_extra ↦
      ap (λ (g : Farm). g.current_wp.epoch) (sym (some-injective _ f' (rw none_extra at run)))
]
