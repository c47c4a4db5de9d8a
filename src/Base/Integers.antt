-- ===== src/Base/Integers.antt =====
-- The signed integers of the source, over the native numbers, with their Boolean equality.
use Prim.Native.Nat.{ℕ}
use mathlib.Core.Bool.{Bool, true, false}
use mathlib.Core.Path.{◌≡◌}
use fpga_ethash.Base.Tests.{◌==◌, ==_refl}

pub data ℤ : Type 0 where
  pos : ℕ → ℤ
  negsuc : ℕ → ℤ

infix 4 ◌=ℤ◌
abbrev pub ◌=ℤ◌ : ℤ → ℤ → Bool
pos a =ℤ pos b = a == b
pos a =ℤ negsuc b = false
negsuc a =ℤ pos b = false
negsuc a =ℤ negsuc b = a == b

pub =ℤ_refl : (a : ℤ) → (a =ℤ a) ≡ true
=ℤ_refl (pos a) = ==_refl a
=ℤ_refl (negsuc a) = ==_refl a
