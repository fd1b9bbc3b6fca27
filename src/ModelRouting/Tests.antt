-- ===== src/ModelRouting/Tests.antt =====
-- Runs of the router (app/model_routing), with whole numbers for the floats.
use mercury_trading.Base.{
  ℕ, ◌≡◌, refl, true, false, Option, none, some, List, [], ◌∷◌, String, ok, str_eq, if◌then◌else◌,
}
use mercury_trading.Base.Int.{ℤ, pos}
use mercury_trading.PaperTrading.Tests.{cents, cents-IsOrdered}
use mercury_trading.ModelRouting.Defs.{
  ModelCapability, ModelBenchmark, RoutingPolicy, RoutingRequest, RoutingDecision, decided, select,
}
use mercury_trading.ModelRouting.Selection.{IsSelected, select-IsSelected}
use mercury_trading.ModelRouting.Fallback.{
  Attempt, returned, caught, run, IsFirstReturn, run-IsFirstReturn,
}

abbrev model_named : String → ModelCapability ℕ
model_named i = record {
  model_id = i;
  supports_structured_output = true;
  supports_tools = false;
  enabled = true;
  input_cost_per_1k = 1;
  output_cost_per_1k = 1;
  task_types = 3 ∷ [];
  fallback_model_ids = "spare" ∷ [];
}

abbrev measured : String → ℕ → ModelBenchmark ℕ
measured i q = record {
  model_id = i;
  task_type = 3;
  quality_score = q;
  success_rate = q;
  structured_output_reliability = q;
  average_latency_ms = 1;
  sample_count = 9;
}

abbrev request : RoutingRequest ℕ
request = record {
  task_type = 3;
  policy = RoutingPolicy.balanced;
  requires_structured_output = true;
  requires_tools = false;
  critical = true;
  max_cost = some 5;
  remaining_cost = none;
  remaining_calls = some 1;
  remaining_tokens = some (pos 0);
}

abbrev models : List (ModelCapability ℕ)
models = model_named "small" ∷ model_named "large" ∷ []

abbrev benchmarks : List (ModelBenchmark ℕ)
benchmarks = measured "small" 50 ∷ measured "large" 90 ∷ []

abbrev decision : RoutingDecision ℕ
decision = decided benchmarks request false (model_named "small")

selected_now : select models benchmarks request ≡ ok decision
unfolding select
selected_now = refl

select-IsSelected_example :
    IsSelected models benchmarks request decision
    × ((tokens : Option ℤ)
        → select models benchmarks (record request { remaining_tokens = tokens }) ≡ ok decision)
select-IsSelected_example =
    select-IsSelected cents-IsOrdered benchmarks request models decision selected_now

abbrev only_spare : String → Attempt ℕ
only_spare i = if str_eq i "spare" then returned 7 else caught "TimeoutError"

ran : run only_spare ("large" ∷ "spare" ∷ []) [] ≡ ok (7, ("large", "TimeoutError") ∷ [])
unfolding run
ran = refl

run-IsFirstReturn_example :
    IsFirstReturn only_spare ("large" ∷ "spare" ∷ []) [] 7 (("large", "TimeoutError") ∷ [])
run-IsFirstReturn_example =
    run-IsFirstReturn only_spare ("large" ∷ "spare" ∷ []) [] (("large", "TimeoutError") ∷ []) 7 ran
