-- ===== src/Campaigns/Optimization/Planned.antt =====
-- What a plan of a campaign is (app/campaigns/service.py).
use mathlib.Core.List.{append-nil, append_assoc}
use mercury_trading.Base.{
  ℕ, zero, suc, ◌-◌, min, ◌≡◌, ◌≤◌, refl, sym, ap, ◌∙◌, true, false, List, [], ◌∷◌, ◌++◌, map, take,
  length, length-append, leb, String, ok, ok-injective, >>=-eq-ok, Bool-cases, inl, inr, All,
  All-append, arith, subst,
}
use mercury_trading.Campaigns.Optimization.Space.{Values, Parameters}
use mercury_trading.Campaigns.Optimization.Sampling.{Sampler, generate_parameter_variants}
use mercury_trading.Campaigns.Optimization.Plan.{
  PlannedExperiment, PlanRequest, or_given, max_experiments_of, plan_symbol, plan_symbols,
  CampaignPlan, plan_campaign,
}
use mercury_trading.Campaigns.Optimization.Variants.{
  take-All, length-take-le, IsAllowed, IsDistinct, KeepsElements, generate-IsAllowed,
}

take-nil : {A : Type 0} (n : ℕ) → ◌≡◌ {A = List A} (take n []) []
take-nil zero = refl
take-nil (suc n) = refl

module _ {V : Type 0} where
  -- The experiments of every symbol and variant, in the order of the loops.
  abbrev pub experiment_of :
      (String → Parameters V → String) → String → Parameters V → PlannedExperiment V
  experiment_of key symbol ps = record {
    idempotency_key = key symbol ps;
    symbol = symbol;
    parameters = ps;
  }

  abbrev pub all_experiments :
      (String → Parameters V → String)
      → List (Parameters V)
      → List String
      → List (PlannedExperiment V)
  all_experiments key variants [] = []
  all_experiments key variants (symbol ∷ symbols) =
      map (experiment_of key symbol) variants ++ all_experiments key variants symbols

  module _ (limit : ℕ) (key : String → Parameters V → String) where
    -- A list that grows by further elements as long as it is below the limit.
    abbrev grown :
        List (PlannedExperiment V) → List (PlannedExperiment V) → List (PlannedExperiment V)
    grown planned more = planned ++ take (limit - length planned) more

    grown-full :
        (planned more : List (PlannedExperiment V))
        → leb limit (length planned) ≡ true
        → grown planned more ≡ planned
    grown-full planned more full =
        let nothing : limit - length planned ≡ 0 = ground (arith, full) in
        rw nothing (append-nil planned)

    grown-cons :
        (planned more : List (PlannedExperiment V)) (x : PlannedExperiment V)
        → leb limit (length planned) ≡ false
        → grown planned (x ∷ more) ≡ grown (planned ++ (x ∷ [])) more
    grown-cons planned more x room =
        let one_more : limit - length planned ≡ suc (limit - length (planned ++ (x ∷ []))) =
          ground (arith, room, length-append planned (x ∷ [])) in
        rw one_more
          (sym (append_assoc planned (x ∷ []) (take (limit - length (planned ++ (x ∷ []))) more)))

    plan_symbol-grown :
        (symbol : String) (variants : List (Parameters V)) (planned : List (PlannedExperiment V))
        (more : List (PlannedExperiment V))
        → grown planned (map (experiment_of key symbol) variants ++ more)
          ≡ grown (plan_symbol limit key symbol variants planned) more
    unfolding plan_symbol
    plan_symbol-grown symbol [] planned more = refl
    plan_symbol-grown symbol (ps ∷ variants) planned more =
        elim (Bool-cases (leb limit (length planned))) [
          | inl full ↦ rw full (grown-full planned _ full ∙ sym (grown-full planned more full))
          | inr room ↦ rw room (
              grown-cons planned _ (experiment_of key symbol ps) room
              ∙ plan_symbol-grown symbol variants (planned ++ (experiment_of key symbol ps ∷ []))
                  more)
        ]

    plan_symbols-grown :
        (variants : List (Parameters V)) (symbols : List String)
        (planned : List (PlannedExperiment V))
        → plan_symbols limit key variants symbols planned
          ≡ grown planned (all_experiments key variants symbols)
    unfolding plan_symbols
    plan_symbols-grown variants [] planned =
        sym (rw (take-nil {A = PlannedExperiment V} (limit - length planned)) (append-nil planned))
    plan_symbols-grown variants (symbol ∷ symbols) planned =
        let after = plan_symbol limit key symbol variants planned in
        let more = all_experiments key variants symbols in
        elim (Bool-cases (leb limit (length after))) [
          | inl full ↦
              rw full
                (sym (plan_symbol-grown symbol variants planned more ∙ grown-full after more full))
          | inr room ↦ rw room (
              plan_symbols-grown variants symbols after
              ∙ sym (plan_symbol-grown symbol variants planned more))
        ]

  -- For any limit, the loops over symbols and variants plan as many of all the experiments, in their order,
  -- as the limit lets them.
  pub plan_symbols_lem :
      (limit : ℕ) (key : String → Parameters V → String) (variants : List (Parameters V))
      (symbols : List String)
      → plan_symbols limit key variants symbols []
        ≡ take limit (all_experiments key variants symbols)
  plan_symbols_lem limit key variants symbols =
      let whole : limit - 0 ≡ limit = omega arith in
      plan_symbols-grown limit key variants symbols []
      ∙ ap (λ n. take n (all_experiments key variants symbols)) whole

  all_experiments-All :
      (P : Parameters V → Type 0) (key : String → Parameters V → String)
      (variants : List (Parameters V)) (symbols : List String)
      → All P variants
      → All (λ e. P e.parameters) (all_experiments key variants symbols)
  all_experiments-All P key variants [] h = tt
  all_experiments-All P key variants (symbol ∷ symbols) h =
      All-append (λ e. P e.parameters) (map (experiment_of key symbol) variants) _ (each variants h)
        (all_experiments-All P key variants symbols h)
    where
      each :
          (vs : List (Parameters V))
          → All P vs
          → All (λ e. P e.parameters) (map (experiment_of key symbol) vs)
      each [] h = tt
      each (v ∷ vs) h = (h.0, each vs h.1)

module _ {V : Type 0} ⦃vals : Values V⦄ (sampler : Sampler V)
    (shuffles : KeepsElements sampler) where
  -- How many variants planning asks for: the trials of the budget, but no more than its experiments.
  abbrev pub max_trials_of : PlanRequest V → ℕ
  max_trials_of request =
      let limit = max_experiments_of request in
      min (or_given request.max_optimization_trials limit) limit

  -- The experiments are the first of those of every symbol with every variant, as many as the budget has experiments;
  -- the variants differ, are allowed, and are no more than the budget has trials.
  pub record IsPlan (key : String → Parameters V → String) (request : PlanRequest V)
      (p : CampaignPlan V) : Type 0 where
    pub variants : List (Parameters V)
    pub distinct : IsDistinct [] variants
    pub few_variants : length variants ≤ max_trials_of request
    pub in_order :
        p.experiments
        ≡ take (max_experiments_of request) (all_experiments key variants request.symbols)
    pub few_experiments : length p.experiments ≤ max_experiments_of request
    pub counted : p.optimization_trials ≡ length p.experiments
    pub allowed : All (λ e. IsAllowed request.constraints e.parameters) p.experiments

  -- For a shuffle that keeps the elements: a plan that is made takes variants that differ in their
  -- hashes, at most as many as the budget has optimization trials and experiments, and plans them
  -- for each symbol in turn, as many in all as the budget has experiments. It counts each
  -- experiment as a trial, so the trials of the budget bound the variants of a symbol and not the
  -- count, and no constraint rejects the parameters of any experiment.
  pub plan_campaign-IsPlan :
      (key : String → Parameters V → String) (request : PlanRequest V) (p : CampaignPlan V)
      → plan_campaign sampler key request ≡ ok p
      → IsPlan key request p
  unfolding plan_campaign
  plan_campaign-IsPlan key request p h =
      let limit = max_experiments_of request in
      let trials = max_trials_of request in
      let (variants, made, last) =
        >>=-eq-ok
          (generate_parameter_variants sampler request.definitions request.constraints
            request.method trials request.optimization_seed)
          _ h in
      let (good, distinct, few) =
        generate-IsAllowed sampler shuffles request.definitions request.constraints request.method
          trials request.optimization_seed variants made in
      let all = all_experiments key variants request.symbols in
      let planned_eq = plan_symbols_lem limit key variants request.symbols in
      subst (IsPlan key request) (ok-injective last) record {
        variants = variants;
        distinct = distinct;
        few_variants = few;
        in_order = planned_eq;
        few_experiments = rw planned_eq (length-take-le limit all);
        counted = refl;
        allowed = rw planned_eq (
            take-All _ limit all (
              all_experiments-All (IsAllowed request.constraints) key variants request.symbols
                good));
      }
