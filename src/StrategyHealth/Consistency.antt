-- ===== src/StrategyHealth/Consistency.antt =====
-- The rows of health agree on retirement, and writes leave a retired row (app/strategy_health/service.py).
use mercury_trading.Base.{
  ℕ, ◌≡◌, refl, sym, ap, ◌∙◌, Bool, true, false, Option, none, some, List, [], ◌∷◌, ◌++◌, find,
  ◌==◌, All, All-append, Bool-cases, inl, inr, arith, if-true, if-false, subst,
}
use mercury_trading.StrategyHealth.Assessment.{HealthState, HealthFlag, state_of}
use mercury_trading.StrategyHealth.Model.{Uuid, LifecycleState, StrategyHealth}
use mercury_trading.StrategyHealth.Rows.{
  is_retire, is_retired, observed_lifecycle, target_lifecycle, update_health,
}
use mercury_trading.StrategyHealth.Service.{store_health, lifecycle_of}

pub some-injective : {A : Type 0} {x y : A} → ◌≡◌ {A = Option A} (some x) (some y) → x ≡ y
some-injective e = cc

module _ {F : Type 0} where
  -- The state and the life cycle of a row agree on retirement.
  abbrev pub IsConsistent : StrategyHealth F → Type 0
  IsConsistent h = is_retired h.state ≡ is_retire h.lifecycle_state

  abbrev pub row_of : Uuid → List (StrategyHealth F) → Option (StrategyHealth F)
  row_of i = find λ h. h.strategy_id == i

  -- All rows agree, and this is the row of strategy `i`, which is retired.
  pub record IsRetired (i : Uuid) (h : StrategyHealth F) (hs : List (StrategyHealth F))
      : Type 0 where
    pub consistent : All IsConsistent hs
    pub row : row_of i hs ≡ some h
    pub retired : h.state ≡ HealthState.retired

  pub find-IsConsistent :
      (i : Uuid) (hs : List (StrategyHealth F)) (h : StrategyHealth F)
      → All IsConsistent hs
      → row_of i hs ≡ some h
      → IsConsistent h
  find-IsConsistent i [] h c e = absurd (ground arith)
  find-IsConsistent i (g ∷ hs) h (c, cs) e = elim (Bool-cases (g.strategy_id == i)) [
    | inl at ↦ subst IsConsistent (some-injective (if-true _ _ _ at e)) c
    | inr off ↦ find-IsConsistent i hs h cs (if-false _ _ _ off e)
  ]

  pub update_health-row :
      (i j : Uuid) (f : StrategyHealth F → StrategyHealth F) (hs : List (StrategyHealth F))
      → (i == j) ≡ false
      → ((h : StrategyHealth F) → (h.strategy_id == i) ≡ true → ((f h).strategy_id == i) ≡ true)
      → row_of j (update_health i f hs) ≡ row_of j hs
  unfolding update_health
  update_health-row i j f [] ne same = refl
  update_health-row i j f (h ∷ hs) ne same = elim (Bool-cases (h.strategy_id == i)) [
    | inl at ↦
        let at' = same h at in
        let off : ((f h).strategy_id == j) ≡ false = ground arith in
        let off' : (h.strategy_id == j) ≡ false = ground arith in
        rw (at, off, off') (update_health-row i j f hs ne same)
    | inr off ↦ rw off (elim (Bool-cases (h.strategy_id == j)) [
      | inl here ↦ rw here refl
      | inr there ↦ rw there (update_health-row i j f hs ne same)
    ])
  ]

  pub update_health-IsConsistent :
      (i : Uuid) (f : StrategyHealth F → StrategyHealth F) (hs : List (StrategyHealth F))
      → ((h : StrategyHealth F) → IsConsistent (f h))
      → All IsConsistent hs
      → All IsConsistent (update_health i f hs)
  unfolding update_health
  update_health-IsConsistent i f [] k c = tt
  update_health-IsConsistent i f (h ∷ hs) k (c, cs) = elim (Bool-cases (h.strategy_id == i)) [
    | inl at ↦ rw at (k h, update_health-IsConsistent i f hs k cs)
    | inr off ↦ rw off (c, update_health-IsConsistent i f hs k cs)
  ]

  pub append-row :
      (j : Uuid) (hs : List (StrategyHealth F)) (h new : StrategyHealth F)
      → row_of j hs ≡ some h
      → row_of j (hs ++ (new ∷ [])) ≡ some h
  append-row j [] h new e = absurd (ground arith)
  append-row j (g ∷ hs) h new e = elim (Bool-cases (g.strategy_id == j)) [
    | inl at ↦ rw at (if-true _ _ _ at e)
    | inr off ↦ rw off (append-row j hs h new (if-false _ _ _ off e))
  ]

pub target-IsConsistent : (t : HealthState) → is_retired t ≡ is_retire (target_lifecycle t)
unfolding target_lifecycle
target-IsConsistent HealthState.healthy = refl
target-IsConsistent HealthState.watch = refl
target-IsConsistent HealthState.degraded = refl
target-IsConsistent HealthState.suspended = refl
target-IsConsistent HealthState.retired = refl

-- An assessment never retires.
pub state_of-not_retired :
    (enough weak : Bool) (flags : List HealthFlag) (n : ℕ)
    → is_retired (state_of enough weak flags n) ≡ false
unfolding state_of
state_of-not_retired enough weak flags n = ground arith

pub observed-IsConsistent :
    (t : HealthState) (l : LifecycleState)
    → is_retired t ≡ false
    → is_retire l ≡ false
    → is_retired t ≡ is_retire (observed_lifecycle t l)
unfolding observed_lifecycle
observed-IsConsistent HealthState.retired l a b = absurd (ground arith)
observed-IsConsistent t LifecycleState.retire a b = absurd (ground arith)
observed-IsConsistent t l a b = refl

module _ {F : Type 0} where
  -- A retired strategy has no row that may be written.
  pub other_row :
      (i j : Uuid) (hs : List (StrategyHealth F)) (h old : StrategyHealth F)
      → IsRetired j h hs
      → row_of i hs ≡ some old
      → is_retired old.state ≡ false
      → (i == j) ≡ false
  other_row i j hs h old p e writable = elim (Bool-cases (i == j)) [
    | inr off ↦ off
    | inl at ↦
        let same : i ≡ j = ground arith in
        let found : old ≡ h = some-injective (sym e ∙ (rw same p.row)) in
        let st : old.state ≡ HealthState.retired = ap (λ r. r.state) found ∙ p.retired in
        let no : is_retired HealthState.retired ≡ false =
          subst (λ t. is_retired t ≡ false) st writable in
        absurd (ground arith)
  ]

  pub store_health-IsRetired :
      (i j : Uuid) (hs : List (StrategyHealth F)) (h new : StrategyHealth F)
      (o : Option (StrategyHealth F))
      → new.strategy_id ≡ i
      → IsConsistent new
      → row_of i hs ≡ o
      → is_retire (lifecycle_of o) ≡ false
      → IsRetired j h hs
      → IsRetired j h (store_health o new hs)
  unfolding store_health
  store_health-IsRetired i j hs h new none id c e writable p = record {
    consistent = All-append IsConsistent hs (new ∷ []) p.consistent (c, tt);
    row = append-row j hs h new p.row;
    retired = p.retired;
  }
  store_health-IsRetired i j hs h new (some old) id c e writable p =
      let ne = other_row i j hs h old p e (find-IsConsistent i hs old p.consistent e ∙ writable) in
      record {
        consistent =
            update_health-IsConsistent new.strategy_id (λ row. new) hs (λ row. c) p.consistent;
        row =
            update_health-row new.strategy_id j (λ row. new) hs (rw id ne) (λ row at. ground arith)
            ∙ p.row;
        retired = p.retired;
      }
