-- ===== src/MlLifecycle/Statuses.antt =====
-- The status of each model after rows were written (app/ml_research/lifecycle.py).
use mercury_trading.Base.{
  ℕ, ◌≡◌, ◌≢◌, refl, sym, ap, ◌∙◌, subst, ◌==◌, true, false, Option, none, some, List, [], ◌∷◌,
  find, Bool-cases, inl, inr, arith, if-false,
}
use mercury_trading.MlLifecycle.Model.{Uuid, ModelStatus, MlModel}
use mercury_trading.MlLifecycle.Service.{is_model}
use mercury_trading.MlLifecycle.Promotion.{set_status, is_same, dethrone}

abbrev pub status_of : Option MlModel → Option ModelStatus
status_of none = none
status_of (some m) = some m.status

-- The status of the row with this id.
abbrev pub status_in : Uuid → List MlModel → Option ModelStatus
status_in k ms = status_of (find (is_model k) ms)

pub some-injective : {A : Type 0} {a b : A} → ◌≡◌ {A = Option A} (some a) (some b) → a ≡ b
some-injective e = cc

==-eq : (a b : ℕ) → (a == b) ≡ true → a ≡ b
==-eq a b h = ground arith

pub status-set_status_ne :
    (i k : Uuid) (st : ModelStatus) (ms : List MlModel)
    → (i == k) ≡ false
    → status_in k (set_status i st ms) ≡ status_in k ms
unfolding set_status
status-set_status_ne i k st [] ne = refl
status-set_status_ne i k st (m ∷ ms) ne = elim (Bool-cases (m.id == i)) [
  | inl at ↦
      let off : (m.id == k) ≡ false = ground arith in
      rw (at, off) (status-set_status_ne i k st ms ne)
  | inr off ↦ elim (Bool-cases (m.id == k)) [
    | inl here ↦ rw (off, here) refl
    | inr there ↦ rw (off, there) (status-set_status_ne i k st ms ne)
  ]
]

pub status-set_status :
    (i : Uuid) (st old : ModelStatus) (ms : List MlModel)
    → status_in i ms ≡ some old
    → status_in i (set_status i st ms) ≡ some st
unfolding set_status
status-set_status i st old [] e = absurd (ground arith)
status-set_status i st old (m ∷ ms) e = elim (Bool-cases (m.id == i)) [
  | inl at ↦ rw (at, at) refl
  | inr off ↦ rw (off, off) (status-set_status i st old ms (simp off at e))
]

pub find-id :
    (i : Uuid) (ms : List MlModel) (m : MlModel) → find (is_model i) ms ≡ some m → m.id ≡ i
find-id i [] m e = absurd (ground arith)
find-id i (n ∷ ms) m e = elim (Bool-cases (n.id == i)) [
  | inl at ↦
      let same : n ≡ m = cc in
      let here : n.id ≡ i = ground arith in ap (λ r. r.id) (sym same) ∙ here
  | inr off ↦ find-id i ms m (if-false _ _ _ off e)
]

-- How a champion was found.
abbrev pub IsChampion : Option Uuid → List MlModel → Option MlModel → Type 0
IsChampion none ms c = c ≡ none
IsChampion (some i) ms c = (m : MlModel) × ((c ≡ some m) × (find (is_model i) ms ≡ some m))

-- What `dethrone` leaves: the candidate's status, a superseded champion, and the others.
pub dethrone-statuses :
    (ch : Option Uuid) (i : Uuid) (ms : List MlModel) (champion : Option MlModel)
    (candidate : MlModel)
    → IsChampion ch ms champion
    → candidate.id ≡ i
    → is_same champion candidate ≡ false
    → (status_in i (dethrone champion ms) ≡ status_in i ms)
      × (((c : Uuid)
            → ch ≡ some c
            → ((i == c) ≡ false)
              × (status_in c (dethrone champion ms) ≡ some ModelStatus.superseded))
          × ((k : Uuid) → ch ≢ some k → status_in k (dethrone champion ms) ≡ status_in k ms))
unfolding dethrone
dethrone-statuses none i ms none candidate c id ne =
    (refl, ((λ k no. absurd (ground arith)), (λ k no. refl)))
dethrone-statuses none i ms (some m) candidate c id ne = absurd (ground arith)
dethrone-statuses (some h) i ms none candidate (m, (gone, f)) id ne = absurd (ground arith)
dethrone-statuses (some h) i ms (some n) candidate (m, (same, f)) id ne =
    let eq : n ≡ m = some-injective same in
    let found : find (is_model h) ms ≡ some n = f ∙ ap some (sym eq) in
    let at : n.id ≡ h = find-id h ms n found in
    let apart : (n.id == i) ≡ false = ground arith in
    (
      status-set_status_ne n.id i ModelStatus.superseded ms apart,
      (
        (λ c e.
            let here : h ≡ c = some-injective e in
            (
              ground arith,
              subst
                  (λ t.
                    status_in t (set_status n.id ModelStatus.superseded ms)
                    ≡ some ModelStatus.superseded)
                  (at ∙ here)
                  (status-set_status n.id ModelStatus.superseded n.status ms
                    (rw at (ap status_of found))),
            )),
        (λ k e.
            status-set_status_ne n.id k ModelStatus.superseded ms (elim (Bool-cases (n.id == k)) [
              | inl hit ↦ absurd (e (ap some (sym at ∙ ==-eq n.id k hit)))
              | inr off ↦ off
            ])),
      ),
    )
