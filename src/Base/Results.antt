-- ===== src/Base/Results.antt =====
-- A C++ call that may throw: the value, or the exception.
use mathlib.Core.Bool.{Bool, true, false, false≢true}
use mathlib.Core.Option.{Option, none, some, bind, none-ne-some}
use mathlib.Core.Path.{◌≡◌, refl, sym, ap, ◌∙◌}
use fpga_ethash.Base.Tests.{if◌then◌else◌}

pub data Result {ℓ κ} (E : Type ℓ) (A : Type κ) : Type (ℓ ⊔ κ) where
  ok : A → Result E A
  err : E → Result E A

infixl 5 ◌>>=◌ ◌>>◌
abbrev pub ◌>>=◌ {ℓ κ μ} :
    {E : Type ℓ} {A : Type κ} {B : Type μ} → Result E A → (A → Result E B) → Result E B
ok a >>= f = f a
err e >>= f = err e

abbrev pub ◌>>◌ {ℓ μ} : {E : Type ℓ} {B : Type μ} → Result E (Unit {0}) → Result E B → Result E B
m >> k = m >>= λ _. k

abbrev pub throw_if {ℓ} : {E : Type ℓ} → Bool → E → Result E (Unit {0})
throw_if true e = err e
throw_if false e = ok tt

-- Inversion of the steps of a computation that may be undefined.
pub bind_inv {ℓ κ} :
    {A : Type ℓ} {B : Type κ} {o : Option A} {f : A → Option B} {b : B}
    → bind o f ≡ some b
    → (a : A) × (o ≡ some a) × (f a ≡ some b)
unfolding bind
bind_inv {o = none} e = absurd (none-ne-some _ e)
bind_inv {o = some a} e = (a, refl, e)

pub bind_eq {ℓ κ} :
    {A : Type ℓ} {B : Type κ} {o : Option A} {a : A} (f : A → Option B)
    → o ≡ some a
    → bind o f ≡ f a
unfolding bind
bind_eq f e = ap (λ x. bind x f) e

pub guard_inv {ℓ} :
    {A : Type ℓ} (b : Bool) {o : Option A} {a : A}
    → (if b then o else none) ≡ some a
    → (b ≡ true) × (o ≡ some a)
guard_inv true e = (refl, e)
guard_inv false e = absurd (none-ne-some _ e)

pub guard_not_inv {ℓ} :
    {A : Type ℓ} (b : Bool) {o : Option A} {a : A}
    → (if b then none else o) ≡ some a
    → (b ≡ false) × (o ≡ some a)
guard_not_inv false e = (refl, e)
guard_not_inv true e = absurd (none-ne-some _ e)

pub bind_ext {ℓ κ} :
    {A : Type ℓ} {B : Type κ} (o : Option A) {f g : A → Option B}
    → ((a : A) → f a ≡ g a)
    → bind o f ≡ bind o g
unfolding bind
bind_ext none e = refl
bind_ext (some a) e = e a

pub bind-some_id {ℓ} :
    {A : Type ℓ} (o : Option A) (f : A → A) → ((a : A) → f a ≡ a) → bind o (λ a. some (f a)) ≡ o
unfolding bind
bind-some_id none f e = refl
bind-some_id (some a) f e = ap some (e a)

pub bind_cong {ℓ κ} :
    {A : Type ℓ} {B : Type κ} {o p : Option A} {f g : A → Option B}
    → o ≡ p
    → ((a : A) → f a ≡ g a)
    → bind o f ≡ bind p g
bind_cong {p} {f} e h = ap (λ x. bind x f) e ∙ bind_ext p h

-- Two tests that agree where the condition does not hold.
pub else_cong {ℓ} :
    {A : Type ℓ} (b : Bool) (x : A) {y z : A}
    → (b ≡ false → y ≡ z)
    → (if b then x else y) ≡ (if b then x else z)
else_cong true x h = refl
else_cong false x h = h refl

pub else_eq {ℓ} : {A : Type ℓ} (b : Bool) (x : A) {y : A} → b ≡ false → (if b then x else y) ≡ y
else_eq false x e = refl
else_eq true x e = absurd (false≢true (sym e))

-- A property of a conditional, from its two branches.
pub if_either {ℓ κ} :
    {A : Type ℓ} (P : A → Type κ) (b : Bool) {x y : A}
    → (b ≡ true → P x)
    → (b ≡ false → P y)
    → P (if b then x else y)
if_either P true h k = h refl
if_either P false h k = k refl

pub then_eq {ℓ} : {A : Type ℓ} (b : Bool) {x : A} (y : A) → b ≡ true → (if b then x else y) ≡ x
then_eq true y e = refl
then_eq false y e = absurd (false≢true e)

abbrev is_ok {ℓ κ} : {E : Type ℓ} {A : Type κ} → Result E A → Bool
is_ok (ok a) = true
is_ok (err e) = false

-- Inversion of the steps of a call that may throw.
pub ok_inv {ℓ κ μ} :
    {E : Type ℓ} {A : Type κ} {B : Type μ} (r : Result E A) {f : A → Result E B} {b : B}
    → (r >>= f) ≡ ok b
    → (a : A) × (r ≡ ok a) × (f a ≡ ok b)
ok_inv (ok a) e = (a, refl, e)
ok_inv (err x) e = absurd (false≢true (ap is_ok e))

abbrev pub is_set {ℓ} : {A : Type ℓ} → Option A → Bool
is_set none = false
is_set (some a) = true
