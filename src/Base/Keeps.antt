-- ===== src/Base/Keeps.antt =====
-- Predicates on the tables that a method keeps, whether it returns or raises.
use mathlib.Core.Path.{◌≡◌, refl}
use mathlib.Core.Bool.{Bool, true, false}
use mercury_trading.Base.Tests.{if◌then◌else◌}
use mercury_trading.Base.Results.{Result, ok, err}
use mercury_trading.Base.Session.{Method, pure, gets, lift, modify, raise_when, continue, ◌>>=◌}

module _ {κ ι μ ν} {S : Type κ} {E : Type ι} {A : Type μ} (P : S → Type ν) where
  pub record Keeps (m : Method S E A) : Type (κ ⊔ ν) where
    pub keep : (s : S) → P s → P (m s).1

  pub Keeps-pure : (a : A) → Keeps (pure a)
  unfolding ◌>>=◌
  Keeps-pure a = record { keep = λ s p. p }

  pub Keeps-gets : (f : S → A) → Keeps (gets f)
  unfolding ◌>>=◌
  Keeps-gets f = record { keep = λ s p. p }

  pub Keeps-lift : (r : Result E A) → Keeps (lift r)
  unfolding ◌>>=◌
  Keeps-lift r = record { keep = λ s p. p }

  pub Keeps-if : (b : Bool) (m n : Method S E A) → Keeps m → Keeps n → Keeps (if b then m else n)
  Keeps-if true m n km kn = km
  Keeps-if false m n km kn = kn

module _ {κ ι ν} {S : Type κ} {E : Type ι} (P : S → Type ν) where
  pub Keeps-modify : (f : S → S) → ((s : S) → P s → P (f s)) → Keeps {E = E} P (modify f)
  unfolding ◌>>=◌
  Keeps-modify f h = record { keep = h }

  pub Keeps-raise_when : (b : Bool) (e : E) → Keeps P (raise_when b e)
  unfolding ◌>>=◌
  Keeps-raise_when b e = record { keep = λ s p. p }

module _ {κ ι μ ν ξ} {S : Type κ} {E : Type ι} {A : Type μ} {B : Type ν} (P : S → Type ξ) where
  pub continue-keep :
      (r : Result E A) (s : S) (f : A → Method S E B)
      → ((a : A) → Keeps P (f a))
      → P s
      → P (continue r s f).1
  continue-keep (ok a) s f k p = (k a).keep s p
  continue-keep (err e) s f k p = p

  pub Keeps-bind :
      (m : Method S E A) (f : A → Method S E B)
      → Keeps P m
      → ((a : A) → Keeps P (f a))
      → Keeps P (m >>= f)
  unfolding ◌>>=◌
  Keeps-bind m f km kf = record {
    keep = λ s p. let (r, s') = m s in continue-keep r s' f kf (km.keep s p);
  }

-- After a guard the rest runs only where it did not raise.
module _ {κ ι ν ξ} {S : Type κ} {E : Type ι} {B : Type ν} (P : S → Type ξ) where
  pub after_guard :
      (b : Bool) (e : E) (rest : Unit {0} → Method S E B) (s : S)
      → P s
      → (b ≡ false → P (rest tt s).1)
      → P ((raise_when b e >>= rest) s).1
  unfolding ◌>>=◌
  after_guard true e rest s p k = p
  after_guard false e rest s p k = k refl

module _ {κ ι μ ν ξ} {S : Type κ} {E : Type ι} {A : Type μ} {B : Type ν} (P : S → Type ξ) where
  pub after_gets :
      (f : S → A) (rest : A → Method S E B) (s : S) → P (rest (f s) s).1 → P ((gets f >>= rest) s).1
  unfolding ◌>>=◌
  after_gets f rest s p = p

  -- A call that leaves the tables as they are.
  pub after_call :
      (m : Method S E A) (rest : A → Method S E B) (s : S) (r : Result E A)
      → m s ≡ (r, s)
      → P s
      → ((a : A) → r ≡ ok a → P (rest a s).1)
      → P ((m >>= rest) s).1
  unfolding ◌>>=◌
  after_call m rest s (ok a) e p k = rw e (k a refl)
  after_call m rest s (err x) e p k = rw e p

module _ {κ ι ν ξ} {S : Type κ} {E : Type ι} {B : Type ν} (P : S → Type ξ) where
  pub after_modify :
      (f : S → S) (rest : Unit {0} → Method S E B) (s : S)
      → P (rest tt (f s)).1
      → P ((modify f >>= rest) s).1
  unfolding ◌>>=◌
  after_modify f rest s p = p
