-- ===== src/Base/Session.antt =====
-- A method of a service on an open database session: a change of the tables, with a value or an exception.
-- What was written before a raise stays written.
use mathlib.Core.Path.{◌≡◌, refl, ap}
use mathlib.Core.Bool.{Bool}
use mathlib.Core.Option.{Option, none, some}
use mercury_trading.Base.Tests.{if◌then◌else◌}
use mercury_trading.Base.Results.{Result, ok, err, ok-injective}

abbrev pub Method {κ ι μ} : Type κ → Type ι → Type μ → Type (κ ⊔ ι ⊔ μ)
Method S E A = S → Result E A × S

abbrev pub or_error {ι μ} : {E : Type ι} {A : Type μ} → E → Option A → Result E A
or_error e none = err e
or_error e (some a) = ok a

module _ {κ ι μ} {S : Type κ} {E : Type ι} {A : Type μ} where
  pub pure : A → Method S E A
  pure a s = (ok a, s)

  pub gets : (S → A) → Method S E A
  gets f s = (ok (f s), s)

  pub lift : Result E A → Method S E A
  lift r s = (r, s)

module _ {κ ι} {S : Type κ} {E : Type ι} where
  pub modify : (S → S) → Method S E (Unit {0})
  modify f s = (ok tt, f s)

  pub raise_when : Bool → E → Method S E (Unit {0})
  raise_when c e s = (if c then err e else ok tt, s)

module _ {κ ι μ ν} {S : Type κ} {E : Type ι} {A : Type μ} {B : Type ν} where
  abbrev pub continue : Result E A → S → (A → Method S E B) → Result E B × S
  continue (ok a) s f = f a s
  continue (err e) s f = (err e, s)

  -- Opening this opens the methods above.
  infixl 5 ◌>>=◌
  unfoldable pub ◌>>=◌ : Method S E A → (A → Method S E B) → Method S E B
  unfolding pure gets lift modify raise_when
  ◌>>=◌ m f s = let (r, s') = m s in continue r s' f

module _ {κ ι μ} {S : Type κ} {E : Type ι} {B : Type μ} where
  infixl 5 ◌>>◌
  abbrev pub ◌>>◌ : Method S E (Unit {0}) → Method S E B → Method S E B
  m >> k = m >>= λ _. k

module _ {κ ι μ ν} {S : Type κ} {E : Type ι} {A : Type μ} {B : Type ν} where
  -- What returned went through each call.
  pub continue-returns :
      (r : Result E A) (s s' : S) (f : A → Method S E B) (b : B)
      → continue r s f ≡ (ok b, s')
      → (a : A) × (r ≡ ok a) × (f a s ≡ (ok b, s'))
  continue-returns (ok a) s s' f b h = (a, refl, h)
  continue-returns (err e) s s' f b h = absurd (let no = ap (λ t. t.0) h in cc)

module _ {κ ι ν} {S : Type κ} {E : Type ι} {B : Type ν} where
  -- A method returns nothing but this value.
  pub record Gives (m : Method S E B) (b : B) : Type (κ ⊔ ι ⊔ ν) where
    pub only : (s : S) (c : B) → (m s).0 ≡ ok c → b ≡ c

module _ {κ ι μ ν} {S : Type κ} {E : Type ι} {A : Type μ} {B : Type ν} where
  continue-only :
      (r : Result E A) (s : S) (f : A → Method S E B) (b c : B)
      → ((a : A) → Gives (f a) b)
      → (continue r s f).0 ≡ ok c
      → b ≡ c
  continue-only (ok a) s f b c g h = (g a).only s c h
  continue-only (err e) s f b c g h = absurd (let no = h in cc)

  bind-only :
      (m : Method S E A) (f : A → Method S E B) (b : B)
      → ((a : A) → Gives (f a) b)
      → (s : S) (c : B) → ((m >>= f) s).0 ≡ ok c
      → b ≡ c
  unfolding ◌>>=◌
  bind-only m f b g s c h = continue-only (m s).0 (m s).1 f b c g h

  pub Gives-bind :
      (m : Method S E A) (f : A → Method S E B) (b : B)
      → ((a : A) → Gives (f a) b)
      → Gives (m >>= f) b
  Gives-bind m f b g = record { only = bind-only m f b g }

module _ {κ ι ν} {S : Type κ} {E : Type ι} {B : Type ν} where
  pub Gives-pure : (b : B) → Gives {S = S} {E = E} (pure b) b
  unfolding pure
  Gives-pure b = record { only = λ s c h. ok-injective h }

pub or_error-ok {ι μ} :
    {E : Type ι} {A : Type μ} (e : E) (o : Option A) (a : A) → or_error e o ≡ ok a → o ≡ some a
or_error-ok e none a h = cc
or_error-ok e (some b) a h = cc
