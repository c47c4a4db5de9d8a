-- ===== src/PoolManager/Handlers/Epoch.antt =====
-- The epoch that a work package gets on its way to the farm.
use fpga_ethash.FixedHash.{equal}
use fpga_ethash.Work.{WorkPackage, has_work}
use fpga_ethash.Farm.{farm_set_work}
use fpga_ethash.Farm.Segments.{Divisible, farm_set_work-total}
use fpga_ethash.Farm.Lifecycle.{set_work_epoch}
use fpga_ethash.PoolManager.{Manager, Env}
use fpga_ethash.PoolManager.Handlers.{
  stratum_mode, is_new_epoch, find_epoch, chosen_epoch, on_work_received,
}
use fpga_ethash.Base.{
  ℕ, ◌+◌, ◌≡◌, refl, sym, ap, ◌∙◌, ◌⊎◌, inl, inr, List, Bool, true, false, false≢true, Bool-cases,
  not, ◌==◌, some, some-injective, bind_inv, bind_eq, else_eq, length, u32, if◌then◌else◌,
  if_either, ℤ, pos, negsuc, ◌=ℤ◌,
}

-- The work, the epoch counter and the farm's call of a package that is taken.
received :
    (find : List ℕ → ℤ) (env : Env) (wp : WorkPackage) (p p' : Manager)
    → has_work wp ≡ true
    → on_work_received find env wp p ≡ some p'
    → (new_epoch : Bool) × (is_new_epoch wp p ≡ some new_epoch)
      × (p'.current_wp ≡ record wp { epoch = chosen_epoch find new_epoch wp p.current_wp.epoch })
      × (p'.epoch_changes ≡ (if new_epoch then u32 (p.epoch_changes + 1) else p.epoch_changes))
      × (farm_set_work env.random p'.current_wp p.farm ≡ some p'.farm)
unfolding on_work_received
received find env wp p p' works run =
    let (new_epoch, asked, run1) = bind_inv (rw works at run) in
    let (farm, handed, run2) = bind_inv run1 in
    let same = some-injective _ p' run2 in
    (
      new_epoch,
      asked,
      ap (λ (q : Manager). q.current_wp) (sym same),
      ap (λ (q : Manager). q.epoch_changes) (sym same),
      ap (λ (q : Manager). farm_set_work env.random q.current_wp p.farm) (sym same)
          ∙ handed
          ∙ ap (λ (q : Manager). some q.farm) same,
    )

Known : ℤ → Type 0
Known e = (e =ℤ negsuc 0) ≡ false

chosen_epoch-Known :
    (find : List ℕ → ℤ) (b : Bool) (wp : WorkPackage) (current : ℤ)
    → ((wp.epoch =ℤ negsuc 0) ≡ true → Known (find_epoch find wp))
    → (b ≡ false → Known current)
    → Known (chosen_epoch find b wp current)
unfolding chosen_epoch Known
chosen_epoch-Known find true wp current found old =
    if_either Known (wp.epoch =ℤ negsuc 0) found (λ e. e)
chosen_epoch-Known find false wp current found old = old refl

not_new-Known :
    (wp : WorkPackage) (p : Manager) → is_new_epoch wp p ≡ some false → Known p.current_wp.epoch
unfolding is_new_epoch Known
not_new-Known wp p asked = elim (Bool-cases (p.current_wp.epoch =ℤ negsuc 0)) [
  | inl unknown ↦ absurd (false≢true (sym (some-injective true false (rw unknown at asked))))
  | inr old ↦ old
]

find_epoch-block :
    (find : List ℕ → ℤ) (wp : WorkPackage) (n : ℕ) → wp.block ≡ pos n → Known (find_epoch find wp)
unfolding find_epoch Known
find_epoch-block find wp n at = rw (at, find_epoch) refl

received-epoch :
    (find : List ℕ → ℤ) (env : Env) (wp : WorkPackage) (p p' : Manager)
    → has_work wp ≡ true
    → ((wp.epoch =ℤ negsuc 0) ≡ true
        → ((n : ℕ) × (wp.block ≡ pos n)) ⊎ ((find_epoch find wp =ℤ negsuc 0) ≡ false))
    → on_work_received find env wp p ≡ some p'
    → ((p'.current_wp.epoch =ℤ negsuc 0) ≡ false)
      × (p'.farm.current_wp.epoch ≡ p'.current_wp.epoch)
      × (p'.current_wp.header ≡ wp.header)
unfolding Known
received-epoch find env wp p p' works found run =
    let (new_epoch, asked, work, _, handed) = received find env wp p p' works run in
    (
      ap (λ (w : WorkPackage). w.epoch =ℤ negsuc 0) work
          ∙ chosen_epoch-Known find new_epoch wp p.current_wp.epoch
              (λ unnamed. elim (found unnamed) [
                | inl (n, at) ↦ find_epoch-block find wp n at
                | inr by_seed ↦ by_seed
              ])
              (λ old. not_new-Known wp p (asked ∙ ap some old)),
      set_work_epoch env.random p'.current_wp p.farm p'.farm handed,
      ap (λ (w : WorkPackage). w.header) work,
    )

asked_by_seed :
    (wp : WorkPackage) (p : Manager) (mode : ℕ)
    → (p.current_wp.epoch =ℤ negsuc 0) ≡ false
    → stratum_mode p ≡ some mode
    → (mode == 3) ≡ false
    → is_new_epoch wp p ≡ some (not (equal wp.seed p.current_wp.seed))
unfolding is_new_epoch
asked_by_seed wp p mode old at other = rw (old) (bind_eq _ at ∙ rw other refl)

received-seed :
    (find : List ℕ → ℤ) (env : Env) (wp : WorkPackage) (p p' : Manager) (mode : ℕ)
    → has_work wp ≡ true
    → (p.current_wp.epoch =ℤ negsuc 0) ≡ false
    → stratum_mode p ≡ some mode
    → (mode == 3) ≡ false
    → on_work_received find env wp p ≡ some p'
    → ((equal wp.seed p.current_wp.seed ≡ true)
        × (p'.current_wp.epoch ≡ p.current_wp.epoch)
        × (p'.epoch_changes ≡ p.epoch_changes))
      ⊎ ((equal wp.seed p.current_wp.seed ≡ false)
          × (p'.current_wp.epoch ≡ (if wp.epoch =ℤ negsuc 0 then find_epoch find wp else wp.epoch))
          × (p'.epoch_changes ≡ u32 (p.epoch_changes + 1)))
unfolding chosen_epoch
received-seed find env wp p p' mode works old at other run =
    let (new_epoch, asked, work, changes, _) = received find env wp p p' works run in
    let decided : new_epoch ≡ not (equal wp.seed p.current_wp.seed) =
      some-injective _ _ (sym asked ∙ asked_by_seed wp p mode old at other) in
    let epoch_is = ap (λ (w : WorkPackage). w.epoch) work in
    elim (Bool-cases (equal wp.seed p.current_wp.seed)) [
      | inl same ↦
          let stays : new_epoch ≡ false = decided ∙ ap not same in
          inl (
            same,
            epoch_is ∙ ap (λ b. chosen_epoch find b wp p.current_wp.epoch) stays,
            changes ∙ ap (λ b. if b then u32 (p.epoch_changes + 1) else p.epoch_changes) stays,
          )
      | inr differs ↦
          let starts : new_epoch ≡ true = decided ∙ ap not differs in
          inr (
            differs,
            epoch_is ∙ ap (λ b. chosen_epoch find b wp p.current_wp.epoch) starts,
            changes ∙ ap (λ b. if b then u32 (p.epoch_changes + 1) else p.epoch_changes) starts,
          )
    ]

-- The farm can divide the work, and the question whether the epoch is new has an answer: there is no
-- epoch yet, or the client has a connection.
pub record Receivable (wp : WorkPackage) (p : Manager) : Type 0 where
  pub works : has_work wp ≡ true
  pub divisible : Divisible wp.ex_size_bytes (length p.farm.miners)
  pub asked :
      ((p.current_wp.epoch =ℤ negsuc 0) ≡ true) ⊎ ((mode : ℕ) × (stratum_mode p ≡ some mode))

is_new_epoch-total :
    (wp : WorkPackage) (p : Manager) → Receivable wp p → (b : Bool) × (is_new_epoch wp p ≡ some b)
unfolding is_new_epoch
is_new_epoch-total wp p ok =
    if_either (λ o. (b : Bool) × (o ≡ some b)) (p.current_wp.epoch =ℤ negsuc 0)
      (λ unknown. (true, refl))
      (λ old. elim ok.asked [
        | inl unknown ↦ absurd (false≢true (sym old ∙ unknown))
        | inr (mode, at) ↦ (_, bind_eq _ at)
      ])

on_work_received-total :
    (find : List ℕ → ℤ) (env : Env) (wp : WorkPackage) (p : Manager)
    → Receivable wp p
    → (p' : Manager) × (on_work_received find env wp p ≡ some p')
unfolding on_work_received
on_work_received-total find env wp p ok =
    let (b, asked) = is_new_epoch-total wp p ok in
    let (farm, handed) =
      farm_set_work-total env.random
        (record wp { epoch = chosen_epoch find b wp p.current_wp.epoch }) p.farm ok.divisible in
    (_, else_eq (not (has_work wp)) (some p) (ap not ok.works) ∙ bind_eq _ asked ∙ bind_eq _ handed)

pub on_work_received-epoch :
    (find : List ℕ → ℤ) (env : Env) (wp : WorkPackage) (p : Manager)
    → Receivable wp p
    → ((wp.epoch =ℤ negsuc 0) ≡ true
        → ((n : ℕ) × (wp.block ≡ pos n)) ⊎ ((find_epoch find wp =ℤ negsuc 0) ≡ false))
    → (p' : Manager) × (on_work_received find env wp p ≡ some p')
      × ((p'.current_wp.epoch =ℤ negsuc 0) ≡ false)
      × (p'.farm.current_wp.epoch ≡ p'.current_wp.epoch)
      × (p'.current_wp.header ≡ wp.header)
on_work_received-epoch find env wp p ok found =
    let (p', run) = on_work_received-total find env wp p ok in
    let (has_epoch, agrees, same_header) = received-epoch find env wp p p' ok.works found run in
    (p', run, has_epoch, agrees, same_header)

-- Outside the second version of the protocol, once an epoch is known, the seed decides: with the seed
-- of the work before, the epoch and the count of its changes stay, whatever epoch or block the package
-- names; with another seed the count goes up by one, modulo 2 ^ 32, and the epoch is the package's, or
-- that of its block or seed if it names none. The work is taken either way: the manager holds the
-- package, with that epoch, and the farm is as `setWork` leaves it with what the manager holds.
pub on_work_received-seed :
    (find : List ℕ → ℤ) (env : Env) (wp : WorkPackage) (p : Manager) (mode : ℕ)
    → Receivable wp p
    → (p.current_wp.epoch =ℤ negsuc 0) ≡ false
    → stratum_mode p ≡ some mode
    → (mode == 3) ≡ false
    → (p' : Manager) × (on_work_received find env wp p ≡ some p')
      × (p'.current_wp ≡ record wp { epoch = p'.current_wp.epoch })
      × (farm_set_work env.random p'.current_wp p.farm ≡ some p'.farm)
      × (((equal wp.seed p.current_wp.seed ≡ true)
            × (p'.current_wp.epoch ≡ p.current_wp.epoch)
            × (p'.epoch_changes ≡ p.epoch_changes))
          ⊎ ((equal wp.seed p.current_wp.seed ≡ false)
              × (p'.current_wp.epoch
                  ≡ (if wp.epoch =ℤ negsuc 0 then find_epoch find wp else wp.epoch))
              × (p'.epoch_changes ≡ u32 (p.epoch_changes + 1))))
on_work_received-seed find env wp p mode ok old at other =
    let (p', run) = on_work_received-total find env wp p ok in
    let (_, _, work, _, handed) = received find env wp p p' ok.works run in
    (
      p',
      run,
      work ∙ ap (λ (e : ℤ). record wp { epoch = e }) (sym (ap (λ (w : WorkPackage). w.epoch) work)),
      handed,
      received-seed find env wp p p' mode ok.works old at other run,
    )
