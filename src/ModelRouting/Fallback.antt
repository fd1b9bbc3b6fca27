-- ===== src/ModelRouting/Fallback.antt =====
-- `FallbackExecutor.run` and `EscalationPolicy` (app/model_routing/execution.py).
use mercury_trading.PaperTrading.Number.{Number}
use mercury_trading.ModelRouting.Defs.{RoutingDecision}
use mercury_trading.Base.{
  Bool, false, not, Option, none, some, if◌then◌else◌, ◌≡◌, refl, List, [], ◌∷◌, ◌++◌, map, String,
  Result, ok, err, ok-injective, All, ap, sym, ◌∙◌, arith,
}

-- What `execute` does with a model: it returns, or raises an exception that is caught, with its name, or
-- another.
pub data Attempt (A : Type 0) : Type 0 where
  returned : A → Attempt A
  caught : String → Attempt A
  raised : String → Attempt A

pub data RunError : Type 0 where
  all_failed : List (String × String) → RunError
  not_caught : String → RunError

-- `attempted`: the model that was selected, then its fallbacks.
abbrev pub attempted : {F : Type 0} → RoutingDecision F → List String
attempted d = d.model.model_id ∷ d.model.fallback_model_ids

abbrev below : {F : Type 0} → (F → F → Bool) → Option F → Option F → Bool
below lt (some confidence) (some minimum) = lt confidence minimum
below lt _ _ = false

module _ {F : Type 0} ⦃num : Number F⦄ where
  -- `EscalationPolicy.should_escalate`
  unfoldable pub should_escalate : Option F → Bool → Bool → Option F → Option String
  should_escalate minimum schema_valid tool_succeeded confidence =
      if not schema_valid
      then some "schema_validation_failed"
      else if not tool_succeeded
      then some "tool_call_failed"
      else if below num.lt confidence minimum
      then some "confidence_below_threshold"
      else none

module _ {A : Type 0} (execute : String → Attempt A) where
  -- The loop over the chain, with the errors so far.
  unfoldable pub run :
      List String → List (String × String) → Result RunError (A × List (String × String))
  run [] errors = err (all_failed errors)
  run (i ∷ is) errors = elim (execute i) [
    | returned a ↦ ok (a, errors)
    | caught name ↦ run is (errors ++ ((i, name) ∷ []))
    | raised e ↦ err (not_caught e)
  ]

  -- The chain up to the first model that returned, and the errors of those before it.
  pub record IsFirstReturn (chain : List String) (errors : List (String × String)) (a : A)
      (result : List (String × String)) : Type 0 where
    pub before : List (String × String)
    pub at : String
    pub after : List String
    pub split : chain ≡ map (λ t. t.0) before ++ (at ∷ after)
    pub answered : execute at ≡ returned a
    pub failed : All (λ t. execute t.0 ≡ caught t.1) before
    pub noted : result ≡ errors ++ before

  append-nil : (es : List (String × String)) → es ≡ es ++ []
  append-nil [] = refl
  append-nil (e ∷ es) = ap (λ t. e ∷ t) (append-nil es)

  append-one :
      (es bs : List (String × String)) (x : String × String)
      → (es ++ (x ∷ [])) ++ bs ≡ es ++ (x ∷ bs)
  append-one [] bs x = refl
  append-one (e ∷ es) bs x = ap (λ t. e ∷ t) (append-one es bs x)

  -- One round of the loop, given what the rest does.
  round-IsFirstReturn :
      (i : String) (is : List String) (errors : List (String × String)) (a : A)
      (res : List (String × String)) (o : Attempt A)
      → execute i ≡ o
      → ◌≡◌ {A = Result RunError (A × List (String × String))}
          (elim o [
            | returned b ↦ ok (b, errors)
            | caught name ↦ run is (errors ++ ((i, name) ∷ []))
            | raised e ↦ err (not_caught e)
          ])
          (ok (a, res))
      → ((es : List (String × String)) → run is es ≡ ok (a, res) → IsFirstReturn is es a res)
      → IsFirstReturn (i ∷ is) errors a res
  round-IsFirstReturn i is errors a res (returned b) e h rest =
      let same = ok-injective h in
      record {
        before = [];
        at = i;
        after = is;
        split = refl;
        answered = e ∙ ap (λ t. returned t.0) same;
        failed = tt;
        noted = ap (λ t. t.1) (sym same) ∙ append-nil errors;
      }
  round-IsFirstReturn i is errors a res (caught name) e h rest =
      let found = rest (errors ++ ((i, name) ∷ [])) h in
      record {
        before = (i, name) ∷ found.before;
        at = found.at;
        after = found.after;
        split = ap (λ t. i ∷ t) found.split;
        answered = found.answered;
        failed = (e, found.failed);
        noted = found.noted ∙ append-one errors found.before (i, name);
      }
  round-IsFirstReturn i is errors a res (raised x) e h rest = cc

  -- A chain of fallbacks that returns gives the value of the first model that returned, and its
  -- errors are those given and then, in order, those of the models before it, all of which raised
  -- an exception that is caught.
  pub run-IsFirstReturn :
      (chain : List String) (errors res : List (String × String)) (a : A)
      → run chain errors ≡ ok (a, res)
      → IsFirstReturn chain errors a res
  unfolding run
  run-IsFirstReturn [] errors res a h = absurd (ground arith)
  run-IsFirstReturn (i ∷ is) errors res a h =
      round-IsFirstReturn i is errors a res (execute i) refl h λ es. run-IsFirstReturn is es res a
