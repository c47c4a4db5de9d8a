-- ===== src/Stratum/Effects.antt =====
-- How the client's methods run: a state that is kept when an exception is thrown, an early return, and
-- undefined behaviour.
use fpga_ethash.Base.{
  ℕ, [], ◌∷◌, ◌++◌, Bool, true, Option, none, some, Result, ok, err, if◌then◌else◌,
}
use fpga_ethash.Stratum.{Client, Connection, Session, Event}

-- `threw` is a standard exception, `threw_pointer` a pointer to one, which no handler catches.
pub data Reply {ℓ} (A : Type ℓ) : Type ℓ where
  value : A → Reply A
  returned threw threw_pointer undefined : Reply A

abbrev pub M {ℓ} : Type ℓ → Type ℓ
M A = Client → Reply A × Client

module _ {ℓ} {A : Type ℓ} where
  pub pure : A → M A
  pure a c = (value a, c)

  -- `return` from the method.
  pub leave : M A
  leave c = (returned, c)

  pub fault : M A
  fault c = (undefined, c)

  pub throw_new : M A
  throw_new c = (threw_pointer, c)

  pub gets : (Client → A) → M A
  gets f c = (value (f c), c)

  pub lift {κ} : {E : Type κ} → Result E A → M A
  lift (ok a) c = (value a, c)
  lift (err e) c = (threw, c)

pub modify : (Client → Client) → M (Unit {0})
modify f c = (value tt, f c)

-- `m_session->` on a null pointer is undefined.
abbrev pub read_session : Option Session → M Session
read_session (some s) c = (value s, c)
read_session none c = (undefined, c)

pub get_session : M Session
get_session c = read_session c.session c

abbrev pub put_session : (Session → Session) → Option Session → M (Unit {0})
put_session f (some s) c = (value tt, record c { session = some (f s) })
put_session f none c = (undefined, c)

pub change_session : (Session → Session) → M (Unit {0})
change_session f c = put_session f c.session c

module _ {ℓ κ} {A : Type ℓ} {B : Type κ} where
  pub cases : Option A → M B → (A → M B) → M B
  cases none n f c = n c
  cases (some a) n f c = f a c

  abbrev pub continue : Reply A → (A → M B) → M B
  continue (value a) f c = f a c
  continue returned f c = (returned, c)
  continue threw f c = (threw, c)
  continue threw_pointer f c = (threw_pointer, c)
  continue undefined f c = (undefined, c)

  infixl 5 ◌>>=◌
  -- To open this opens the steps above too.
  unfoldable pub ◌>>=◌ : M A → (A → M B) → M B
  unfolding pure leave fault throw_new gets lift modify get_session change_session cases
  ◌>>=◌ m f c = continue (m c).0 f (m c).1

infixl 5 ◌>>◌
abbrev pub ◌>>◌ {ℓ} : {B : Type ℓ} → M (Unit {0}) → M B → M B
m >> n = m >>= λ _. n

abbrev pub skip : M (Unit {0})
skip = pure tt

abbrev pub when : Bool → M (Unit {0}) → M (Unit {0})
when b m = if b then m else skip

abbrev pub log : Event → Client → Client
log e c = record c { events = c.events ++ e ∷ [] }

abbrev pub post : Event → M (Unit {0})
post e = modify (log e)

abbrev pub change_conn : (Connection → Connection) → M (Unit {0})
change_conn f = modify λ c. record c { conn = f c.conn }

-- `SetStratumMode(mode, confirmed)`.
abbrev pub set_stratum_mode : ℕ → Bool → Connection → Connection
set_stratum_mode mode confirmed u = record u {
  stratum_mode = mode;
  stratum_mode_confirmed = confirmed;
}

-- `MarkUnrecoverable()`.
abbrev pub mark_unrecoverable : Connection → Connection
mark_unrecoverable u = record u { unrecoverable = true }
