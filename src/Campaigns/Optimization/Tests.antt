-- ===== src/Campaigns/Optimization/Tests.antt =====
-- Variants and a plan of a small space (app/campaigns/optimization.py, app/campaigns/service.py).
use mercury_trading.Base.{
  ℕ, ◌≡◌, refl, none, some, List, [], ◌∷◌, ltb, leb, ◌==◌, String, ok, if◌then◌else◌,
}
use mercury_trading.Base.Int.{pos}
use mercury_trading.Campaigns.Optimization.Space.{
  Values, integer, ParameterDefinition, Parameters, parameter_value, assignments, allowed,
  rejection_reasons, constraints_reasons, candidates, new_space,
}
use mercury_trading.Campaigns.Optimization.Sampling.{
  random, Sampler, unique, parameter_hash, generate_parameter_variants,
}
use mercury_trading.Campaigns.Optimization.Plan.{
  PlanRequest, CampaignPlan, plan_symbol, plan_symbols, plan_campaign,
}
use mercury_trading.Campaigns.Optimization.Planned.{all_experiments, IsPlan, plan_campaign-IsPlan}

-- The hash of two windows below 10.
abbrev digit : ℕ → String
digit n = if n == 2 then "2" else if n == 5 then "5" else "8"

abbrev first_value : List (String × ℕ) → String
first_value [] = ""
first_value (x ∷ xs) = digit x.1

instance abbrev numbers : Values ℕ
numbers = record {
  to_int = λ n. ok (pos n);
  less = λ a b. ok (ltb a b);
  less_equal = λ a b. ok (leb a b);
  digest = first_value;
}

abbrev sampler : Sampler ℕ
sampler = record { shuffle = λ seed items. items; propose = none }

abbrev windows : List (ParameterDefinition ℕ)
windows =
    record { name = "short_window"; kind = integer; values = 2 ∷ 5 ∷ [] }
    ∷ record { name = "long_window"; kind = integer; values = 5 ∷ [] }
    ∷ []

-- The short window 5 is not less than the long one.
abbrev chosen : List (Parameters ℕ)
chosen = (("short_window", 2) ∷ ("long_window", 5) ∷ []) ∷ []

generate-chosen : generate_parameter_variants sampler windows [] random 12 17 ≡ ok chosen
unfolding generate_parameter_variants new_space candidates allowed assignments rejection_reasons
    constraints_reasons parameter_value unique parameter_hash
generate-chosen = refl

abbrev key_text : String → Parameters ℕ → String
key_text symbol ps = symbol

-- Two variants for each of two symbols: four experiments from a budget of two trials.
abbrev long_windows : List (ParameterDefinition ℕ)
long_windows =
    record { name = "short_window"; kind = integer; values = 2 ∷ [] }
    ∷ record { name = "long_window"; kind = integer; values = 5 ∷ 8 ∷ 9 ∷ [] }
    ∷ []

abbrev two : List (Parameters ℕ)
two =
    (("short_window", 2) ∷ ("long_window", 5) ∷ [])
    ∷ (("short_window", 2) ∷ ("long_window", 8) ∷ [])
    ∷ []

abbrev request : PlanRequest ℕ
request = record {
  symbols = "ACME" ∷ "OTHER" ∷ [];
  definitions = long_windows;
  constraints = [];
  method = random;
  optimization_seed = 17;
  max_experiments = none;
  max_optimization_trials = some 2;
}

abbrev plan : CampaignPlan ℕ
plan = record {
  experiments = all_experiments key_text two ("ACME" ∷ "OTHER" ∷ []);
  optimization_trials = 4;
}

plan_campaign-plan : plan_campaign sampler key_text request ≡ ok plan
unfolding plan_campaign plan_symbols plan_symbol generate_parameter_variants new_space candidates
    allowed assignments rejection_reasons constraints_reasons parameter_value unique parameter_hash
plan_campaign-plan = refl

plan_campaign-IsPlan_example : IsPlan sampler (λ P seed items h. h) key_text request plan
plan_campaign-IsPlan_example =
    plan_campaign-IsPlan sampler (λ P seed items h. h) key_text request plan plan_campaign-plan
