-- ===== src/StrategyDsl/Records.antt =====
-- What the table of strategies keeps (app/strategy_dsl/service.py).
use mercury_trading.Base.{
  ◌≡◌, refl, sym, Bool, true, false, Option, none, some, List, [], ◌∷◌, ◌++◌, find, str_eq, eq_refl,
  eq_iff, ok, >>=-eq-ok, ok-injective, All, All-append, Bool-cases, inl, inr, ◌⊎◌, arith, subst, ap,
  ◌∙◌, if◌then◌else◌,
}
use mercury_trading.StrategyDsl.Syntax.{StrategySpec}
use mercury_trading.StrategyDsl.Validation.{
  StrategyError, validate_strategy, accepted, strategy_errors,
}
use mercury_trading.StrategyDsl.Compiler.{
  Rendering, ExecutionPlan, compile_strategy, explain_strategy,
}
use mercury_trading.StrategyDsl.Service.{StrategyRecord, has_hash, return_or_add, create}

module _ {A : Type 0} (p : A → Bool) where
  find-append_last :
      (xs : List A) (a : A) → find p xs ≡ none → p a ≡ true → find p (xs ++ (a ∷ [])) ≡ some a
  find-append_last [] a h t = rw t refl
  find-append_last (x ∷ xs) a h t = elim (Bool-cases (p x)) [
    | inl e ↦ absurd (
        let h' : ◌≡◌ {A = Option A} (some x) none =
          subst (λ b. (if b then some x else find p xs) ≡ none) e h in
        ground arith)
    | inr e ↦
        rw e (find-append_last xs a (subst (λ b. (if b then some x else find p xs) ≡ none) e h) t)
  ]

  find-none : (xs : List A) → find p xs ≡ none → All (λ x. p x ≡ false) xs
  find-none [] h = tt
  find-none (x ∷ xs) h = elim (Bool-cases (p x)) [
    | inl e ↦ absurd (
        let h' : ◌≡◌ {A = Option A} (some x) none =
          subst (λ b. (if b then some x else find p xs) ≡ none) e h in
        ground arith)
    | inr e ↦ (e, find-none xs (subst (λ b. (if b then some x else find p xs) ≡ none) e h))
  ]

module _ {F : Type 0} (render : Rendering F) where
  -- Every row is of an accepted strategy and has its hash, and no two rows share one.
  abbrev pub IsTable : List (StrategyRecord F) → Type 0
  IsTable [] = Unit
  IsTable (r ∷ rs) =
      ((validate_strategy r.spec ≡ ok r.spec) × (r.strategy_hash ≡ render.hash r.spec))
      × All (λ q. str_eq q.strategy_hash r.strategy_hash ≡ false) rs
      × IsTable rs

  -- The two ways to return: the row that was there, or a new one.
  record IsAdded (s : StrategySpec F) (rows : List (StrategyRecord F)) (r : StrategyRecord F)
      (after : List (StrategyRecord F)) : Type 0 where
    hash : r.strategy_hash ≡ render.hash s
    spec : r.spec ≡ s
    none_yet : find (has_hash render (render.hash s)) rows ≡ none
    appended : after ≡ rows ++ (r ∷ [])

  accepted-ok :
      (s v : StrategySpec F) (es : List StrategyError) → accepted s es ≡ ok v → accepted s es ≡ ok s
  accepted-ok s v [] h = refl
  accepted-ok s v (e ∷ es) h = absurd (ground arith)

  validate-ok : (s v : StrategySpec F) → validate_strategy s ≡ ok v → validate_strategy s ≡ ok s
  unfolding validate_strategy
  validate-ok s v h = accepted-ok s v (strategy_errors s) h

  compile-hash :
      (s : StrategySpec F) (plan : ExecutionPlan)
      → compile_strategy render s ≡ ok plan
      → plan.strategy_hash ≡ render.hash s
  unfolding compile_strategy
  compile-hash s plan h =
      let (v, validated, planned) = >>=-eq-ok (validate_strategy s) _ h in
      ap (λ p. p.strategy_hash) (sym (ok-injective planned))

  return_or_add-cases :
      (s : StrategySpec F) (plan : ExecutionPlan) (rows after : List (StrategyRecord F))
      (r : StrategyRecord F) (o : Option (StrategyRecord F))
      → plan.strategy_hash ≡ render.hash s
      → find (has_hash render (render.hash s)) rows ≡ o
      → return_or_add render s plan rows o ≡ ok (r, after)
      → ((find (has_hash render (render.hash s)) rows ≡ some r) × (after ≡ rows))
        ⊎ IsAdded s rows r after
  return_or_add-cases s plan rows after r (some q) e found h =
      let same : (q, rows) ≡ (r, after) = ok-injective h in
      inl (rw found (ap (λ t. some t.0) same), ap (λ t. t.1) (sym same))
  return_or_add-cases s plan rows after r none e found h =
      let (text, _, last) = >>=-eq-ok (explain_strategy render s) _ h in
      let same = ok-injective last in
      inr record {
        hash = ap (λ t. t.0.strategy_hash) (sym same) ∙ e;
        spec = ap (λ t. t.0.spec) (sym same);
        none_yet = found;
        appended = ap (λ t. t.1) (sym same) ∙ ap (λ t. rows ++ (t.0 ∷ [])) same;
      }

  create-inverse :
      (s : StrategySpec F) (rows after : List (StrategyRecord F)) (r : StrategyRecord F)
      → create render s rows ≡ ok (r, after)
      → (validate_strategy s ≡ ok s)
        × (((find (has_hash render (render.hash s)) rows ≡ some r) × (after ≡ rows))
            ⊎ IsAdded s rows r after)
  unfolding create
  create-inverse s rows after r runs =
      let (v, validated, rest) = >>=-eq-ok (validate_strategy s) _ runs in
      let (plan, planned, last) = >>=-eq-ok (compile_strategy render s) _ rest in
      let e = compile-hash s plan planned in
      (validate-ok s v validated, return_or_add-cases s plan rows after r _ e (rw e refl) last)

  create_found :
      (s : StrategySpec F) (rows : List (StrategyRecord F)) (r : StrategyRecord F)
      → validate_strategy s ≡ ok s
      → find (has_hash render (render.hash s)) rows ≡ some r
      → create render s rows ≡ ok (r, rows)
  unfolding create compile_strategy
  create_found s rows r valid found = rw (valid, found) refl

  -- Creating a strategy again, after it was created, returns the same record and leaves the table
  -- as it is.
  pub create_again :
      (s : StrategySpec F) (rows after : List (StrategyRecord F)) (r : StrategyRecord F)
      → create render s rows ≡ ok (r, after)
      → create render s after ≡ ok (r, after)
  create_again s rows after r runs =
      let (valid, ways) = create-inverse s rows after r runs in
      elim ways [
        | inl (found, same) ↦ rw same (create_found s rows r valid found)
        | inr added ↦ create_found s after r valid (
            rw added.appended
              (find-append_last _ rows r added.none_yet (rw added.hash (eq_refl (render.hash s)))))
      ]

  IsTable-append :
      (rows : List (StrategyRecord F)) (r : StrategyRecord F)
      → (validate_strategy r.spec ≡ ok r.spec) × (r.strategy_hash ≡ render.hash r.spec)
      → All (λ q. str_eq q.strategy_hash r.strategy_hash ≡ false) rows
      → IsTable rows
      → IsTable (rows ++ (r ∷ []))
  IsTable-append [] r h fresh t = (h, tt, tt)
  IsTable-append (q ∷ qs) r h (new, fresh) (hq, others, t) = (
    hq,
    All-append _ qs (r ∷ []) others (
      ground
          (arith, eq_iff q.strategy_hash r.strategy_hash, eq_iff r.strategy_hash q.strategy_hash),
      tt,
    ),
    IsTable-append qs r h fresh t,
  )

  -- Where every row of the table is of an accepted strategy with its hash and no two rows share a
  -- hash, this is so after a strategy is created.
  pub create-IsTable :
      (s : StrategySpec F) (rows after : List (StrategyRecord F)) (r : StrategyRecord F)
      → IsTable rows
      → create render s rows ≡ ok (r, after)
      → IsTable after
  create-IsTable s rows after r table runs =
      let (valid, ways) = create-inverse s rows after r runs in
      elim ways [
        | inl (found, same) ↦ rw same table
        | inr added ↦ rw added.appended (
            IsTable-append rows r
              (rw added.spec valid, added.hash ∙ ap render.hash (sym added.spec))
              (rw added.hash (find-none _ rows added.none_yet)) table)
      ]
