-- ===== src/Miner/Pausing.antt =====
-- A paused miner has no work, and what a miner is given while it is not paused.
use fpga_ethash.FixedHash.{zero_hash}
use fpga_ethash.Work.{WorkPackage}
use fpga_ethash.Miner.{
  MinerPause, due_to_over_heating, due_to_api_request, due_to_farm_paused,
  due_to_insufficient_memory, due_to_init_epoch_error, pause_index, Miner, new_miner, any, paused,
  pause_test, kick_miner, void_work, set_work, pause, resume, set_epoch,
}
use fpga_ethash.Base.{
  ℕ, zero, suc, ◌<◌, ◌≡◌, refl, sym, ◌∙◌, ◌≢◌, inl, inr, List, [], ◌∷◌, Bool, true, false, none,
  false≢true, get_or, get_or-set_self, get_or-set_ne, length, length-set, set, ℤ, arith, Bool-cases,
}

-- Five flags, and no work while one of them is set.
pub record IsMiner (m : Miner) : Type 0 where
  pub flags : length m.pause_flags ≡ 5
  pub idle : paused m ≡ true → m.work.header ≡ zero_hash 32

pub set_work_free : (w : WorkPackage) (m : Miner) → paused m ≡ false → (set_work w m).work ≡ w
unfolding set_work kick_miner
set_work_free w m free = rw free refl

pub set_epoch-paused : (e : ℤ) (m : Miner) → paused (set_epoch e m) ≡ paused m
unfolding paused set_epoch
set_epoch-paused e m = refl

pub new_miner-IsMiner : (ethash : List ℕ) (index : ℕ) → IsMiner (new_miner ethash index)
unfolding new_miner paused
new_miner-IsMiner ethash index = record { flags = refl; idle = λ e. absurd (false≢true e) }

pub set_work-IsMiner : (w : WorkPackage) (m : Miner) → IsMiner m → IsMiner (set_work w m)
unfolding set_work kick_miner void_work paused
set_work-IsMiner w m ok = elim (Bool-cases (any m.pause_flags)) [
  | inl stopped ↦ rw stopped (record { flags = ok.flags; idle = λ e. refl })
  | inr free ↦ rw free (record { flags = ok.flags; idle = λ e. absurd (false≢true (sym free ∙ e)) })
]

pub pause-IsMiner : (what : MinerPause) (m : Miner) → IsMiner m → IsMiner (pause what m)
unfolding pause kick_miner void_work
pause-IsMiner what m ok = record {
  flags = length-set m.pause_flags (pause_index what) true ∙ ok.flags;
  idle = λ e. refl;
}

any-get_or : (bs : List Bool) (i : ℕ) → get_or bs i false ≡ true → any bs ≡ true
unfolding any
any-get_or [] i e = e
any-get_or (true ∷ bs) i e = refl
any-get_or (false ∷ bs) zero e = absurd (false≢true e)
any-get_or (false ∷ bs) (suc i) e = any-get_or bs i e

any-set-false : (bs : List Bool) (i : ℕ) → any (set bs i false) ≡ true → any bs ≡ true
unfolding any
any-set-false [] i e = e
any-set-false (true ∷ bs) i e = refl
any-set-false (false ∷ bs) zero e = e
any-set-false (false ∷ bs) (suc i) e = any-set-false bs i e

pub resume-IsMiner : (what : MinerPause) (m : Miner) → IsMiner m → IsMiner (resume what m)
unfolding resume paused
resume-IsMiner what m ok = record {
  flags = length-set m.pause_flags (pause_index what) false ∙ ok.flags;
  idle = λ e. ok.idle (any-set-false m.pause_flags (pause_index what) e);
}

pub set_epoch-IsMiner : (e : ℤ) (m : Miner) → IsMiner m → IsMiner (set_epoch e m)
unfolding set_epoch paused
set_epoch-IsMiner e m ok = record { flags = ok.flags; idle = ok.idle }

index_below : (what : MinerPause) → pause_index what < 5
index_below due_to_over_heating = omega arith
index_below due_to_api_request = omega arith
index_below due_to_farm_paused = omega arith
index_below due_to_insufficient_memory = omega arith
index_below due_to_init_epoch_error = omega arith

-- Pausing a miner for a reason sets that reason, keeps every other one, makes the miner paused, takes
-- its work away, and whatever work it is given next it stays without; resuming from that reason
-- gives back the other reasons as they were, and only that one is off.
pub pause-reasons :
    (what other : MinerPause) (w : WorkPackage) (m : Miner)
    → length m.pause_flags ≡ 5
    → pause_index what ≢ pause_index other
    → (pause_test what (pause what m) ≡ true)
      × (pause_test other (pause what m) ≡ pause_test other m)
      × (paused (pause what m) ≡ true)
      × ((pause what m).work.header ≡ zero_hash 32)
      × ((set_work w (pause what m)).work.header ≡ zero_hash 32)
      × (pause_test what (resume what (pause what m)) ≡ false)
      × (pause_test other (resume what (pause what m)) ≡ pause_test other m)
unfolding pause_test pause resume paused set_work kick_miner void_work
pause-reasons what other w m flags apart = (
  on,
  kept m.pause_flags true,
  any-get_or (set m.pause_flags (pause_index what) true) (pause_index what) on,
  refl,
  stays (any-get_or (set m.pause_flags (pause_index what) true) (pause_index what) on),
  get_or-set_self (set m.pause_flags (pause_index what) true) (pause_index what) false false
      (omega (arith, index_below what, length-set m.pause_flags (pause_index what) true)),
  kept (set m.pause_flags (pause_index what) true) false ∙ kept m.pause_flags true,
)
  where
    on : pause_test what (pause what m) ≡ true
    on =
        get_or-set_self m.pause_flags (pause_index what) true false
          (omega (arith, index_below what))

    kept :
        (bs : List Bool) (b : Bool)
        → get_or (set bs (pause_index what) b) (pause_index other) false
          ≡ get_or bs (pause_index other) false
    kept bs b = get_or-set_ne bs (pause_index what) (pause_index other) b false apart

    stays : paused (pause what m) ≡ true → (set_work w (pause what m)).work.header ≡ zero_hash 32
    stays e = rw e refl

pub new_miner-epoch_context :
    (ethash : List ℕ) (index : ℕ) → (new_miner ethash index).epoch_context ≡ none
unfolding new_miner
new_miner-epoch_context ethash index = refl

pub set_work-epoch_context :
    (w : WorkPackage) (m : Miner) → (set_work w m).epoch_context ≡ m.epoch_context
unfolding set_work kick_miner void_work
set_work-epoch_context w m = elim (Bool-cases (paused m)) [
  | inl stopped ↦ rw stopped refl
  | inr free ↦ rw free refl
]
