-- ===== src/Base.antt =====
-- The names that every other module shares: those of the libraries, passed on, and the helpers
-- of the children for Boolean tests, lists, words and binary digits. No code of the program.
mod Tests
mod Lists
mod Words
mod Bits
mod Results
mod Loops
mod Integers
mod Texts
pub use Tests.*
pub use Lists.*
pub use Words.*
pub use Bits.*
pub use Results.*
pub use Loops.*
pub use Integers.*
pub use Texts.*
pub use Prim.Native.Nat.{
  ℕ, zero, suc, ◌+◌, ◌-◌, ◌*◌, ◌/◌, ◌%◌, ◌^◌, ◌≤◌, ◌<◌, min, max, bit_and, bit_or, bit_xor,
}
pub use mathlib.Core.Path.{◌≡◌, refl, sym, ap, ap₂, ◌∙◌, subst, ◌≡⟨◌⟩◌, ◌∎}
pub use mathlib.Core.Logic.{◌≢◌, ◌↔◌, ◌⊎◌, inl, inr}
pub use mathlib.Core.Bool.{Bool, true, false, false≢true, ◌&&◌, ◌||◌, not}
pub use mathlib.Core.Option.{Option, none, some, bind, some-injective, some-ne-none, none-ne-some}
pub use mathlib.Core.List.{List, [], ◌∷◌, ◌++◌, map}
pub use native.Mathlib.Omega.{arith}
