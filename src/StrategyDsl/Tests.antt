-- ===== src/StrategyDsl/Tests.antt =====
-- Runs of the strategy language (app/strategy_dsl): a data-frame library of lists, and a crossover.
use mercury_trading.Base.{
  ℕ, zero, suc, ◌+◌, ◌/◌, ◌≡◌, ◌↔◌, refl, Bool, true, false, Option, none, some, List, [], ◌∷◌,
  length, take, leb, ltb, if◌then◌else◌, ok, err,
}
use mercury_trading.PaperTrading.Tests.{cents}
use mercury_trading.StrategyDsl.Syntax.{
  Operator, gt, gte, lt, lte, comparison, StrategySpec, spec_ok, same_condition,
}
use mercury_trading.StrategyDsl.Validation.{
  validate_strategy, strategy_errors, complexity_score, self_comparison, exit,
}
use mercury_trading.StrategyDsl.WellFormed.{IsWellFormed, validate_strategy_iff}
use mercury_trading.StrategyDsl.Evaluation.{FrameLibrary, by_rows, evaluate_positions}
use mercury_trading.StrategyDsl.Causality.{
  Agree, IsCausal, IsDelayed, IsChronological, no_lookahead,
}
use mercury_trading.StrategyDsl.Compiler.{Rendering, explain_strategy, insert_item}
use mercury_trading.StrategyDsl.Service.{StrategyRecord, create}

-- A column computed from the top, with what is remembered of the rows above.
abbrev scan : {S A B : Type 0} → (S → A → S) → (S → A → B) → S → List A → List B
scan next out s [] = []
scan next out s (x ∷ xs) = out s x ∷ scan next out (next s x) xs

module _ {S A B : Type 0} (next : S → A → S) (out : S → A → B) where
  scan-Agree_zero :
      (s t : S) (xs ys : List A) → Agree 0 xs ys → Agree 0 (scan next out s xs) (scan next out t ys)
  scan-Agree_zero s t [] [] h = tt
  scan-Agree_zero s t [] (y ∷ ys) h = h
  scan-Agree_zero s t (x ∷ xs) [] h = h
  scan-Agree_zero s t (x ∷ xs) (y ∷ ys) h = scan-Agree_zero (next s x) (next t y) xs ys h

  scan-IsCausal : (s : S) → IsCausal (scan next out s)
  scan-IsCausal s zero xs ys h = scan-Agree_zero s s xs ys h
  scan-IsCausal s (suc n) [] [] h = tt
  scan-IsCausal s (suc n) [] (y ∷ ys) h = h
  scan-IsCausal s (suc n) (x ∷ xs) [] h = h
  scan-IsCausal s (suc n) (x ∷ xs) (y ∷ ys) (e, h) =
      rw (e) (refl, scan-IsCausal (next s y) n xs ys h)

abbrev shifted : {A : Type 0} → A → List A → List A
shifted = scan (λ previous x. x) (λ previous x. previous)

shifted-IsDelayed : {A : Type 0} (s : A) → IsDelayed (shifted s)
shifted-IsDelayed s n [] [] h = tt
shifted-IsDelayed s n [] (y ∷ ys) h = elim h [ ]
shifted-IsDelayed s n (x ∷ xs) [] h = elim h [ ]
shifted-IsDelayed s zero (x ∷ xs) (y ∷ ys) h = (refl, scan-Agree_zero _ _ x y xs ys h)
shifted-IsDelayed s (suc n) (x ∷ xs) (y ∷ ys) (e, h) = rw e (refl, shifted-IsDelayed y n xs ys h)

abbrev total : List (Option ℕ) → ℕ
total [] = 0
total (none ∷ xs) = total xs
total (some x ∷ xs) = x + total xs

abbrev mean_of_window : ℕ → List (Option ℕ) → Option ℕ → Option ℕ
mean_of_window w above x =
    if ltb (suc (length above)) w then none else some (total (take w (x ∷ above)) / w)

abbrev compare_numbers : Operator → Option ℕ → Option ℕ → Option Bool
compare_numbers gt (some a) (some b) = some (ltb b a)
compare_numbers gte (some a) (some b) = some (leb b a)
compare_numbers lt (some a) (some b) = some (ltb a b)
compare_numbers lte (some a) (some b) = some (leb a b)
compare_numbers op _ _ = none

abbrev both_of : Option Bool → Option Bool → Option Bool
both_of (some false) b = some false
both_of a (some false) = some false
both_of (some true) (some true) = some true
both_of a b = none

abbrev either_of : Option Bool → Option Bool → Option Bool
either_of (some true) b = some true
either_of a (some true) = some true
either_of (some false) (some false) = some false
either_of a b = none

abbrev last_known : Option ℕ → Option ℕ → Option ℕ
last_known above none = above
last_known above (some x) = some x

abbrev list_library : FrameLibrary ℕ
list_library = record {
  rolling_mean = λ w. scan (λ above x. x ∷ above) (mean_of_window w) [];
  compare_cells = compare_numbers;
  both = both_of;
  either = either_of;
  forward_fill = scan last_known last_known none;
  shift = shifted none;
}

list_library-IsChronological : IsChronological list_library
list_library-IsChronological = record {
  rolling_mean_causal = λ w. scan-IsCausal _ _ [];
  forward_fill_causal = scan-IsCausal _ _ none;
  shift_delayed = shifted-IsDelayed none;
}

abbrev crossing : StrategySpec ℕ
crossing = record {
  indicators = ("fast", 2) ∷ ("slow", 3) ∷ [];
  entry = comparison "fast" gt "slow";
  exit = comparison "fast" lt "slow";
  position_size = 1;
  filters = [];
  risk_constraints = record {
    max_bars_processed = 100;
    max_runtime_ms = 5000;
    max_indicator_count = 16;
    max_rule_complexity = 32;
  };
}

crossing_fields : spec_ok (λ name. true) crossing ≡ true
unfolding spec_ok
crossing_fields = refl

crossing_valid : validate_strategy crossing ≡ ok crossing
unfolding validate_strategy strategy_errors same_condition complexity_score
crossing_valid = refl

-- A condition on one name twice is refused.
refused :
    validate_strategy (record crossing { exit = comparison "fast" lt "fast" })
    ≡ err (self_comparison exit ∷ [])
unfolding validate_strategy strategy_errors same_condition complexity_score
refused = refl

positions_now :
    evaluate_positions list_library crossing (1 ∷ 1 ∷ 1 ∷ 4 ∷ 9 ∷ 1 ∷ 1 ∷ [])
    ≡ ok (0 ∷ 0 ∷ 0 ∷ 0 ∷ 0 ∷ 1 ∷ 1 ∷ [])
unfolding evaluate_positions validate_strategy strategy_errors same_condition complexity_score
    by_rows
positions_now = refl

positions_changed :
    evaluate_positions list_library crossing (1 ∷ 1 ∷ 1 ∷ 4 ∷ 0 ∷ 0 ∷ 0 ∷ [])
    ≡ ok (0 ∷ 0 ∷ 0 ∷ 0 ∷ 0 ∷ 1 ∷ 0 ∷ [])
unfolding evaluate_positions validate_strategy strategy_errors same_condition complexity_score
    by_rows
positions_changed = refl

abbrev plain : Rendering ℕ
plain = record { integer = λ n. "n"; percent_2 = λ x. "x%"; percent_0 = λ x. "x%"; hash = λ s. "h" }

abbrev stored : StrategyRecord ℕ
stored = record {
  strategy_hash = "h";
  compiler_version = "strategy-dsl-compiler-v1";
  spec = crossing;
  complexity = 6;
  explanation =
      "Momentum strategy using fast: n-bar SMA, slow: n-bar SMA. Enter when fast > slow. Exit when fast < slow. Use x% of equity. Complexity n; hash h.";
}

created : create plain crossing [] ≡ ok (stored, stored ∷ [])
unfolding create validate_strategy strategy_errors same_condition complexity_score explain_strategy
    insert_item
created = refl

crossing-IsWellFormed : IsWellFormed crossing
crossing-IsWellFormed = (validate_strategy_iff crossing).0 crossing_valid

validate_strategy_iff_example : (validate_strategy crossing ≡ ok crossing) ↔ IsWellFormed crossing
validate_strategy_iff_example = validate_strategy_iff crossing

no_lookahead_example :
    Agree {A = ℕ} 5 (0 ∷ 0 ∷ 0 ∷ 0 ∷ 0 ∷ 1 ∷ 1 ∷ []) (0 ∷ 0 ∷ 0 ∷ 0 ∷ 0 ∷ 1 ∷ 0 ∷ [])
no_lookahead_example =
    no_lookahead list_library list_library-IsChronological crossing 4
      (1 ∷ 1 ∷ 1 ∷ 4 ∷ 9 ∷ 1 ∷ 1 ∷ []) (1 ∷ 1 ∷ 1 ∷ 4 ∷ 0 ∷ 0 ∷ 0 ∷ []) _ _
      (refl, (refl, (refl, (refl, tt)))) positions_now positions_changed
