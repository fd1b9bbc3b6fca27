-- ===== src/Base/Results.antt =====
-- A call that may raise: `ok` with its value, or `err` with what was raised.
use mathlib.Core.Path.{◌≡◌, refl}
use mathlib.Core.Logic.{◌⊎◌, inl, inr}
use mathlib.Core.Bool.{Bool, true, false}

pub data Result {κ ι} (E : Type κ) (A : Type ι) : Type (κ ⊔ ι) where
  err : E → Result E A
  ok : A → Result E A

pub ok-injective {κ ι} :
    {E : Type κ} {A : Type ι} {a b : A} → ◌≡◌ {A = Result E A} (ok a) (ok b) → a ≡ b
ok-injective same = cc

-- `if c: raise e`
abbrev pub raise_if {κ} : {E : Type κ} → Bool → E → Result E (Unit {0})
raise_if false e = ok tt
raise_if true e = err e

-- The statements after a call run only if it did not raise.
infixl 5 ◌>>◌ ◌>>=◌
abbrev pub ◌>>=◌ {κ ι μ} :
    {E : Type κ} {A : Type ι} {B : Type μ} → Result E A → (A → Result E B) → Result E B
err e >>= rest = err e
ok value >>= rest = rest value

pub >>=-eq-ok {κ ι μ} :
    {E : Type κ} {A : Type ι} {B : Type μ} (call : Result E A) (rest : A → Result E B) {last : B}
    → (call >>= rest) ≡ ok last
    → (value : A) × (call ≡ ok value) × (rest value ≡ ok last)
>>=-eq-ok (err e) rest returns = cc
>>=-eq-ok (ok value) rest returns = (value, refl, returns)

abbrev pub ◌>>◌ {κ ι} : {E : Type κ} {B : Type ι} → Result E (Unit {0}) → Result E B → Result E B
call >> rest = call >>= λ _. rest

-- A call returns or raises.
pub Result-cases {κ ι} :
    {E : Type κ} {A : Type ι} (call : Result E A)
    → ((a : A) × (call ≡ ok a)) ⊎ ((e : E) × (call ≡ err e))
Result-cases (err e) = inr (e, refl)
Result-cases (ok value) = inl (value, refl)
