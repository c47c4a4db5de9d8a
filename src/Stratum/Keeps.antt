-- ===== src/Stratum/Keeps.antt =====
-- A property of the client that a method keeps however it ends, one rule for each way to build a method.
use fpga_ethash.Base.{
  ◌≡◌, refl, Bool, true, false, Option, none, some, Result, ok, err, if◌then◌else◌,
}
use fpga_ethash.Stratum.{Client, Session}
use fpga_ethash.Stratum.Effects.{
  Reply, value, returned, threw, threw_pointer, undefined, M, continue, pure, leave, fault,
  throw_new, gets, lift, modify, get_session, change_session, read_session, put_session, cases,
  ◌>>=◌,
}

pub record Keeps {ℓ} {A : Type ℓ} (P : Client → Type 0) (m : M A) : Type 0 where
  pub after : (c : Client) → P c → P (m c).1

module _ (P : Client → Type 0) where
  lift_state {ℓ κ} : {A : Type ℓ} {E : Type κ} (r : Result E A) (c : Client) → P c → P (lift r c).1
  unfolding ◌>>=◌
  lift_state (ok a) c h = h
  lift_state (err e) c h = h

  session_state : (o : Option Session) (c : Client) → P c → P (read_session o c).1
  session_state none c h = h
  session_state (some s) c h = h

  change_state :
      (f : Session → Session) (o : Option Session) (c : Client)
      → ((s : Session) → o ≡ some s → P (record c { session = some (f s) }))
      → P c
      → P (put_session f o c).1
  change_state f none c k h = h
  change_state f (some s) c k h = k s refl

  continue_state {ℓ κ} :
      {A : Type ℓ} {B : Type κ} (r : Reply A) (f : A → M B) (c : Client)
      → ((a : A) → P (f a c).1)
      → P c
      → P (continue r f c).1
  continue_state (value a) f c k h = k a
  continue_state returned f c k h = h
  continue_state threw f c k h = h
  continue_state threw_pointer f c k h = h
  continue_state undefined f c k h = h

module _ {ℓ} {A : Type ℓ} {P : Client → Type 0} where
  pub Keeps-pure : (a : A) → Keeps P (pure a)
  unfolding ◌>>=◌
  Keeps-pure a = record { after = λ c h. h }

  pub Keeps-leave : Keeps P (leave {A = A})
  unfolding ◌>>=◌
  Keeps-leave = record { after = λ c h. h }

  pub Keeps-fault : Keeps P (fault {A = A})
  unfolding ◌>>=◌
  Keeps-fault = record { after = λ c h. h }

  pub Keeps-throw_new : Keeps P (throw_new {A = A})
  unfolding ◌>>=◌
  Keeps-throw_new = record { after = λ c h. h }

  pub Keeps-gets : (f : Client → A) → Keeps P (gets f)
  unfolding ◌>>=◌
  Keeps-gets f = record { after = λ c h. h }

  pub Keeps-lift {κ} : {E : Type κ} (r : Result E A) → Keeps P (lift r)
  Keeps-lift r = record { after = λ c. lift_state P r c }

  pub Keeps-if : (b : Bool) (m n : M A) → Keeps P m → Keeps P n → Keeps P (if b then m else n)
  Keeps-if true m n km kn = km
  Keeps-if false m n km kn = kn

module _ {P : Client → Type 0} where
  pub Keeps-modify : (f : Client → Client) → ((c : Client) → P c → P (f c)) → Keeps P (modify f)
  unfolding ◌>>=◌
  Keeps-modify f h = record { after = h }

  pub Keeps-get_session : Keeps P get_session
  unfolding ◌>>=◌
  Keeps-get_session = record { after = λ c h. session_state P c.session c h }

  pub Keeps-change_session :
      (f : Session → Session)
      → ((c : Client) (s : Session)
          → c.session ≡ some s
          → P c
          → P (record c { session = some (f s) }))
      → Keeps P (change_session f)
  unfolding ◌>>=◌
  Keeps-change_session f k = record {
    after = λ c h. change_state P f c.session c (λ s e. k c s e h) h;
  }

module _ {ℓ κ} {A : Type ℓ} {B : Type κ} {P : Client → Type 0} where
  pub Keeps-cases :
      (o : Option A) (n : M B) (f : A → M B)
      → Keeps P n
      → ((a : A) → Keeps P (f a))
      → Keeps P (cases o n f)
  unfolding ◌>>=◌
  Keeps-cases none n f kn kf = record { after = kn.after }
  Keeps-cases (some a) n f kn kf = record { after = (kf a).after }

  pub Keeps-bind :
      (m : M A) (f : A → M B) → Keeps P m → ((a : A) → Keeps P (f a)) → Keeps P (m >>= f)
  unfolding ◌>>=◌
  Keeps-bind m f km kf = record {
    after = λ c h.
        continue_state P (m c).0 f (m c).1 (λ a. (kf a).after (m c).1 (km.after c h))
          (km.after c h);
  }

  -- The rest may use what the state is when it is read.
  pub Keeps-read :
      (g : Client → A) (f : A → M B)
      → ((c : Client) → P c → P (f (g c) c).1)
      → Keeps P (gets g >>= f)
  unfolding ◌>>=◌
  Keeps-read g f k = record { after = k }

pub ruleset keeps_rules = (
  Keeps-pure, Keeps-leave, Keeps-fault, Keeps-throw_new, Keeps-gets, Keeps-lift, Keeps-if,
  Keeps-modify, Keeps-get_session, Keeps-change_session, Keeps-cases, Keeps-bind,
)
