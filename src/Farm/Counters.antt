-- ===== src/Farm/Counters.antt =====
-- `Farm::accountSolution`: the farm's counters are the sums of the miners'.
use fpga_ethash.Farm.{
  Solutions, Accounting, acc_accepted, acc_rejected, acc_wasted, acc_failed, Farm, count,
  account_solution,
}
use fpga_ethash.Base.{
  ℕ, zero, suc, ◌+◌, ◌≡◌, refl, sym, ap, ◌∙◌, ◌⊎◌, inl, inr, List, [], ◌∷◌, true, false, none, some,
  none-ne-some, some-injective, Option-cases, get_elem?, set, u32, arith,
}

-- The counter that an accounting names.
abbrev pub counter : Accounting → Solutions → ℕ
counter acc_accepted s = s.accepted
counter acc_rejected s = s.rejected
counter acc_wasted s = s.wasted
counter acc_failed s = s.failed

-- The sum of a counter over the miners, as far as 32 bits hold it.
abbrev pub sum_of : Accounting → List Solutions → ℕ
sum_of acc [] = 0
sum_of acc (s ∷ ss) = u32 (counter acc s + sum_of acc ss)

data Counted (acc other : Accounting) : Type 0 where
  same :
      ((s : Solutions) → counter other (count acc s) ≡ u32 (counter other s + 1))
      → Counted acc other
  apart : ((s : Solutions) → counter other (count acc s) ≡ counter other s) → Counted acc other

-- Counting adds one to the counter named, modulo 2 ^ 32, and keeps the other three.
counted : (acc other : Accounting) → Counted acc other
unfolding count
counted acc_accepted acc_accepted = same (λ s. refl)
counted acc_accepted acc_rejected = apart (λ s. refl)
counted acc_accepted acc_wasted = apart (λ s. refl)
counted acc_accepted acc_failed = apart (λ s. refl)
counted acc_rejected acc_accepted = apart (λ s. refl)
counted acc_rejected acc_rejected = same (λ s. refl)
counted acc_rejected acc_wasted = apart (λ s. refl)
counted acc_rejected acc_failed = apart (λ s. refl)
counted acc_wasted acc_accepted = apart (λ s. refl)
counted acc_wasted acc_rejected = apart (λ s. refl)
counted acc_wasted acc_wasted = same (λ s. refl)
counted acc_wasted acc_failed = apart (λ s. refl)
counted acc_failed acc_accepted = apart (λ s. refl)
counted acc_failed acc_rejected = apart (λ s. refl)
counted acc_failed acc_wasted = apart (λ s. refl)
counted acc_failed acc_failed = same (λ s. refl)

sum-count :
    (acc other : Accounting) (k : ℕ) (ss : List Solutions) (idx : ℕ) (s : Solutions)
    → ((x : Solutions) → u32 (counter other (count acc x)) ≡ u32 (counter other x + k))
    → get_elem? ss idx ≡ some s
    → sum_of other (set ss idx (count acc s)) ≡ u32 (sum_of other ss + k)
sum-count acc other k [] idx s adds at = absurd (none-ne-some s at)
sum-count acc other k (x ∷ ss) zero s adds at =
    ap (λ (y : Solutions). u32 (counter other (count acc y) + sum_of other ss))
      (sym (some-injective x s at))
    ∙ omega (arith, adds x)
sum-count acc other k (x ∷ ss) (suc idx) s adds at =
    omega (arith, sum-count acc other k ss idx s adds at)

-- Each of the farm's four counters is the sum of the miners' counters, as far as 32 bits hold it.
abbrev pub Balanced : Farm → Type 0
Balanced f =
    (other : Accounting)
    → u32 (counter other f.farm_solutions) ≡ u32 (sum_of other f.miner_solutions)

-- What every accounting adds to every counter.
increment_of : (acc other : Accounting) → Counted acc other → ℕ
increment_of acc other (same _) = 1
increment_of acc other (apart _) = 0

adds_up :
    (acc other : Accounting) (c : Counted acc other) (x : Solutions)
    → u32 (counter other (count acc x)) ≡ u32 (counter other x + increment_of acc other c)
unfolding increment_of
adds_up acc other (same e) x = ap u32 (e x) ∙ omega arith
adds_up acc other (apart e) x = ap u32 (e x) ∙ omega arith

counts_one :
    (acc : Accounting) (s : Solutions) → counter acc (count acc s) ≡ u32 (counter acc s + 1)
unfolding count
counts_one acc_accepted s = refl
counts_one acc_rejected s = refl
counts_one acc_wasted s = refl
counts_one acc_failed s = refl

account_solution-in_range :
    (idx : ℕ) (acc : Accounting) (f : Farm) (s : Solutions)
    → get_elem? f.miner_solutions idx ≡ some s
    → account_solution idx acc f ≡ (
      record f {
        farm_solutions = count acc f.farm_solutions;
        miner_solutions = set f.miner_solutions idx (count acc s);
      },
      true,
    )
unfolding account_solution
account_solution-in_range idx acc f s at = rw (at, account_solution) refl

account_solution-out_of_range :
    (idx : ℕ) (acc : Accounting) (f : Farm)
    → get_elem? f.miner_solutions idx ≡ none
    → account_solution idx acc f ≡ (record f { farm_solutions = count acc f.farm_solutions }, false)
unfolding account_solution
account_solution-out_of_range idx acc f out = rw (out, account_solution) refl

-- Accounting a solution to a miner that has an account counts one more of its kind for the farm and
-- for that miner alone, and keeps the farm's four counters the sums of the miners', all modulo
-- 2 ^ 32; accounting it to an index that has none throws, and the farm has counted it all the same:
-- no miner's counter has changed.
pub account_solution-Balanced :
    (idx : ℕ) (acc : Accounting) (f : Farm)
    → Balanced f
    → ((s : Solutions) × (get_elem? f.miner_solutions idx ≡ some s)
        × ((account_solution idx acc f).1 ≡ true)
        × (counter acc (account_solution idx acc f).0.farm_solutions
            ≡ u32 (counter acc f.farm_solutions + 1))
        × (counter acc (count acc s) ≡ u32 (counter acc s + 1))
        × ((account_solution idx acc f).0.miner_solutions ≡ set f.miner_solutions idx (count acc s))
        × Balanced (account_solution idx acc f).0)
      ⊎ ((get_elem? f.miner_solutions idx ≡ none)
          × ((account_solution idx acc f).1 ≡ false)
          × ((account_solution idx acc f).0.farm_solutions ≡ count acc f.farm_solutions)
          × ((account_solution idx acc f).0.miner_solutions ≡ f.miner_solutions))
account_solution-Balanced idx acc f balanced =
    elim (Option-cases (get_elem? f.miner_solutions idx)) [
      | inl out ↦
          let e = account_solution-out_of_range idx acc f out in
          inr
            (out, ap (λ p. p.1) e, ap (λ p. p.0.farm_solutions) e, ap (λ p. p.0.miner_solutions) e)
      | inr (s, at) ↦
          let e = account_solution-in_range idx acc f s at in
          inl (
            s,
            at,
            ap (λ p. p.1) e,
            ap (λ p. counter acc p.0.farm_solutions) e ∙ counts_one acc f.farm_solutions,
            counts_one acc s,
            ap (λ p. p.0.miner_solutions) e,
            λ other.
                let c = counted acc other in
                ap (λ p. u32 (counter other p.0.farm_solutions)) e
                ∙ omega (
                  arith,
                  adds_up acc other c f.farm_solutions,
                  balanced other,
                  sum-count acc other (increment_of acc other c) f.miner_solutions idx s
                      (adds_up acc other c) at,
                )
                ∙ sym (ap (λ p. u32 (sum_of other p.0.miner_solutions)) e),
          )
    ]
