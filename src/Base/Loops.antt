-- ===== src/Base/Loops.antt =====
-- A `for` loop over given indices, and its invariant rule.
use Prim.Native.Nat.{ℕ, zero, suc, ◌+◌}
use fpga_ethash.Base.Lists.{All}
use mathlib.Core.List.{List, [], ◌∷◌}

module _ {ℓ} {S : Type ℓ} where
  abbrev pub for_each : List ℕ → (ℕ → S → S) → S → S
  for_each [] body s = s
  for_each (i ∷ is) body s = for_each is body (body i s)

  pub for_each_inv {κ} :
      (P : S → Type κ) (is : List ℕ) (body : ℕ → S → S)
      → ((i : ℕ) (s : S) → P s → P (body i s))
      → (s : S) → P s
      → P (for_each is body s)
  for_each_inv P [] body keep s p = p
  for_each_inv P (i ∷ is) body keep s p = for_each_inv P is body keep (body i s) (keep i s p)

-- The rule where the body may use that its index is one of the loop's.
module _ {ℓ κ μ} {S : Type ℓ} (P : S → Type κ) (Q : ℕ → Type μ) where
  pub for_each_inv_in :
      (is : List ℕ) (body : ℕ → S → S)
      → ((i : ℕ) (s : S) → Q i → P s → P (body i s))
      → All Q is
      → (s : S) → P s
      → P (for_each is body s)
  for_each_inv_in [] body keep q s p = p
  for_each_inv_in (i ∷ is) body keep q s p =
      for_each_inv_in is body keep q.1 (body i s) (keep i s q.0 p)

-- The indices `i`, `i + 1`, …, `n` of them.
abbrev pub indices : ℕ → ℕ → List ℕ
indices zero i = []
indices (suc n) i = i ∷ indices n (i + 1)
