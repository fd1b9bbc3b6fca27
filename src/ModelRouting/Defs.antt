-- ===== src/ModelRouting/Defs.antt =====
-- app/model_routing: the records of schemas.py, `ModelRegistry`, `ModelRouter` and `FallbackExecutor`.
use mercury_trading.Base.{
  ℕ, ltb, ◌==◌, Bool, true, false, not, ◌&&◌, ◌||◌, Option, none, some, List, [], ◌∷◌, ◌++◌, any,
  find, keep, length, is_some, String, str_eq, if◌then◌else◌, Result, ok, err, raise_if, ◌>>◌,
}
use mercury_trading.Base.Int.{ℤ}
use mercury_trading.PaperTrading.Number.{Number, nought}

-- The tasks are compared only, by number.
abbrev pub ResearchTaskType : Type 0
ResearchTaskType = ℕ

pub data RoutingPolicy : Type 0 where
  fast balanced high_quality : RoutingPolicy

pub record ModelCapability (F : Type 0) : Type 0 where
  pub model_id : String
  pub supports_structured_output : Bool
  pub supports_tools : Bool
  pub enabled : Bool
  pub input_cost_per_1k : F
  pub output_cost_per_1k : F
  pub task_types : List ResearchTaskType
  pub fallback_model_ids : List String

pub record ModelBenchmark (F : Type 0) : Type 0 where
  pub model_id : String
  pub task_type : ResearchTaskType
  pub quality_score : F
  pub success_rate : F
  pub structured_output_reliability : F
  pub average_latency_ms : F
  pub sample_count : ℕ

pub record RoutingRequest (F : Type 0) : Type 0 where
  pub task_type : ResearchTaskType
  pub policy : RoutingPolicy
  pub requires_structured_output : Bool
  pub requires_tools : Bool
  pub critical : Bool
  pub max_cost : Option F
  pub remaining_cost : Option F
  pub remaining_calls : Option ℕ
  -- Given with a request, and read by none of the tests below.
  pub remaining_tokens : Option ℤ

pub record ScoreComponents (F : Type 0) : Type 0 where
  pub quality_component : F
  pub cost_penalty : F
  pub latency_penalty : F
  pub utility : F

pub record RoutingDecision (F : Type 0) : Type 0 where
  pub model : ModelCapability F
  pub score_components : ScoreComponents F
  pub downgraded_for_budget : Bool

-- `remaining_calls is None or remaining_calls > 0`
abbrev calls_left : Option ℕ → Bool
calls_left none = true
calls_left (some n) = ltb 0 n

module _ {F : Type 0} where
  unfoldable pub register :
      ModelCapability F → List (ModelCapability F) → Result String (List (ModelCapability F))
  register model models = do
    raise_if (any (λ m. str_eq m.model_id model.model_id) models) "model already registered"
    ok (models ++ (model ∷ []))

  -- The filters of the candidates.
  unfoldable pub suits : RoutingRequest F → ModelCapability F → Bool
  suits request m =
      m.enabled
      && (any (λ t. t == request.task_type) m.task_types
          && ((not request.requires_structured_output || m.supports_structured_output)
              && (not request.requires_tools || m.supports_tools)))

  -- The benchmarks are a dictionary: no two have the same model and task.
  unfoldable pub benchmark_of :
      List (ModelBenchmark F) → String → ResearchTaskType → Option (ModelBenchmark F)
  benchmark_of bs i t = find (λ b. str_eq b.model_id i && (b.task_type == t)) bs

  -- `a > limit`, where there is a limit
  abbrev exceeds : (F → F → Bool) → F → Option F → Bool
  exceeds lt a none = false
  exceeds lt a (some limit) = lt limit a

  module _ ⦃num : Number F⦄ where
    open num use {add, sub, mul, div, of_nat, lt}

    abbrev pub percent : ℕ → F
    percent n = div (of_nat n) (of_nat 100)

    unfoldable pub estimated_cost : ModelCapability F → F
    estimated_cost m = add m.input_cost_per_1k m.output_cost_per_1k

    unfoldable pub budget_allows : RoutingRequest F → ModelCapability F → Bool
    unfolding estimated_cost
    budget_allows request m =
        not (exceeds lt (estimated_cost m) request.max_cost)
        && (not (exceeds lt (estimated_cost m) request.remaining_cost)
            && calls_left request.remaining_calls)

    abbrev pub weights : RoutingPolicy → F × F × F
    weights RoutingPolicy.fast = (percent 20, percent 45, percent 35)
    weights RoutingPolicy.balanced = (percent 55, percent 25, percent 20)
    weights RoutingPolicy.high_quality = (percent 80, percent 10, percent 10)

    abbrev mean_of_three : F → F → F → F
    mean_of_three a b c = div (add (add a b) c) (of_nat 3)

    -- Quality and latency, also without a benchmark or with one of no samples.
    abbrev pub measured_quality : Option (ModelBenchmark F) → F
    measured_quality none = mean_of_three nought nought nought
    measured_quality (some b) =
        if b.sample_count == 0
        then mean_of_three nought nought nought
        else mean_of_three b.quality_score b.success_rate b.structured_output_reliability

    abbrev pub measured_latency : Option (ModelBenchmark F) → F
    measured_latency none = of_nat 1_000_000
    measured_latency (some b) =
        if b.sample_count == 0 then of_nat 1_000_000 else b.average_latency_ms

    -- `_score`; the registry returns the model of an id that it lists.
    unfoldable pub score :
        List (ModelBenchmark F) → RoutingRequest F → ModelCapability F → ScoreComponents F
    unfolding benchmark_of estimated_cost
    score bs request m =
        let benchmark = benchmark_of bs m.model_id request.task_type in
        let (a, b, c) = weights request.policy in
        let quality = measured_quality benchmark in
        let latency = div (measured_latency benchmark) (of_nat 1000) in
        record {
          quality_component = quality;
          cost_penalty = estimated_cost m;
          latency_penalty = latency;
          utility = sub (sub (mul a quality) (mul b (estimated_cost m))) (mul c latency);
        }

    -- `max(…, key=…)`: the first of the largest.
    unfoldable pub best_of : {A : Type 0} → (A → F) → A → List A → A
    best_of key a [] = a
    best_of key a (x ∷ xs) = best_of key (if lt (key a) (key x) then x else a) xs

    abbrev pub utility_of : List (ModelBenchmark F) → RoutingRequest F → ModelCapability F → F
    utility_of bs request m = (score bs request m).utility

    abbrev pub decided :
        List (ModelBenchmark F) → RoutingRequest F → Bool → ModelCapability F → RoutingDecision F
    decided bs request downgraded m = record {
      model = m;
      score_components = score bs request m;
      downgraded_for_budget = downgraded;
    }

    -- The choice among the candidates, with those within the budget.
    unfoldable pub choose :
        List (ModelBenchmark F)
        → RoutingRequest F
        → List (ModelCapability F)
        → List (ModelCapability F)
        → Result String (RoutingDecision F)
    unfolding score best_of
    choose bs request [] feasible = err "no enabled model supports the task"
    choose bs request (m ∷ ms) (f ∷ fs) = ok (
        decided bs request
          (is_some request.remaining_cost && ltb (length (f ∷ fs)) (length (m ∷ ms)))
          (best_of (utility_of bs request) f fs))
    choose bs request (m ∷ ms) [] =
        if request.critical
        then err "budget cannot satisfy the quality-protected critical task"
        else ok (decided bs request true (best_of (utility_of bs request) m ms))

    unfoldable pub select :
        List (ModelCapability F)
        → List (ModelBenchmark F)
        → RoutingRequest F
        → Result String (RoutingDecision F)
    unfolding suits budget_allows choose
    select models bs request =
        let candidates = keep (suits request) models in
        choose bs request candidates (keep (budget_allows request) candidates)
