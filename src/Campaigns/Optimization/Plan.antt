-- ===== src/Campaigns/Optimization/Plan.antt =====
-- `_plan_campaign` (app/campaigns/service.py).
use mercury_trading.Base.{
  ℕ, min, Option, none, some, List, [], ◌∷◌, ◌++◌, length, leb, String, Result, ok, ◌>>=◌,
  if◌then◌else◌,
}
use mercury_trading.Campaigns.Optimization.Space.{
  Values, SpaceError, ParameterDefinition, Constraint, Parameters,
}
use mercury_trading.Campaigns.Optimization.Sampling.{Method, Sampler, generate_parameter_variants}

-- What planning writes of a `CampaignExperiment`, all of them planned for validation.
pub record PlannedExperiment (V : Type 0) : Type 0 where
  pub idempotency_key : String
  pub symbol : String
  pub parameters : Parameters V

-- The fields of `CampaignCreateRequest` and of the budget that planning reads.
pub record PlanRequest (V : Type 0) : Type 0 where
  pub symbols : List String
  pub definitions : List (ParameterDefinition V)
  pub constraints : List Constraint
  pub method : Method
  pub optimization_seed : ℕ
  pub max_experiments : Option ℕ
  pub max_optimization_trials : Option ℕ

abbrev pub or_given : Option ℕ → ℕ → ℕ
or_given none d = d
or_given (some n) d = n

abbrev pub max_experiments_of : {V : Type 0} → PlanRequest V → ℕ
max_experiments_of request = or_given request.max_experiments 12

module _ {V : Type 0} (limit : ℕ) where
  -- The body of the inner loop, over the variants of a symbol; `key` is `idempotency_key` of the campaign.
  unfoldable pub plan_symbol :
      (String → Parameters V → String)
      → String
      → List (Parameters V)
      → List (PlannedExperiment V)
      → List (PlannedExperiment V)
  plan_symbol key symbol [] planned = planned
  plan_symbol key symbol (ps ∷ variants) planned =
      let next : PlannedExperiment V = record {
        idempotency_key = key symbol ps;
        symbol = symbol;
        parameters = ps;
      } in
      let rest = plan_symbol key symbol variants (planned ++ (next ∷ [])) in
      if leb limit (length planned) then planned else rest

  unfoldable pub plan_symbols :
      (String → Parameters V → String)
      → List (Parameters V)
      → List String
      → List (PlannedExperiment V)
      → List (PlannedExperiment V)
  unfolding plan_symbol
  plan_symbols key variants [] planned = planned
  plan_symbols key variants (symbol ∷ symbols) planned =
      let after = plan_symbol key symbol variants planned in
      let rest = plan_symbols key variants symbols after in
      if leb limit (length after) then after else rest

-- What is written of a campaign that is planned: its experiments and the count of its trials.
pub record CampaignPlan (V : Type 0) : Type 0 where
  pub experiments : List (PlannedExperiment V)
  pub optimization_trials : ℕ

module _ {V : Type 0} ⦃vals : Values V⦄ (sampler : Sampler V) where
  unfoldable pub plan_campaign :
      (String → Parameters V → String) → PlanRequest V → Result SpaceError (CampaignPlan V)
  unfolding plan_symbols
  plan_campaign key request = do
    let max_experiments = max_experiments_of request
    let max_trials = min (or_given request.max_optimization_trials max_experiments) max_experiments
    variants ←
        generate_parameter_variants sampler request.definitions request.constraints request.method
          max_trials request.optimization_seed
    let planned = plan_symbols max_experiments key variants request.symbols []
    ok (record { experiments = planned; optimization_trials = length planned })
