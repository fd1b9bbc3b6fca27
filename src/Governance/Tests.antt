-- ===== src/Governance/Tests.antt =====
-- A ledger of two decisions (app/governance/service.py).
use mercury_trading.Base.{ℕ, ◌≡◌, refl, true, none, some, List, [], ◌∷◌, find, ◌==◌, String}
use mercury_trading.Governance.Ledger.{
  RawRule, RuleEvaluation, DecisionRow, Ledger, DecisionRequest, Codec, normalize_rule, rules_of,
  fresh_decision_id, pending_decision, record_decision_row, explain, default_correlation,
  payload_for_hash,
}
use mercury_trading.Governance.Sorting.{done, same, swapped}
use mercury_trading.Governance.Integrity.{
  IsQuery, record_all, explain-verified, record_ignores_order, record_all-keeps,
}

abbrev first_rule : List (RuleEvaluation ℕ) → String
first_rule [] = ""
first_rule (r ∷ rules) = r.rule

instance abbrev plain : Codec ℕ
plain = record {
  empty_dict = 0;
  empty_list = 0;
  digest = λ p. first_rule p.rules;
  id_text = λ n. "id";
}

abbrev rule_named : String → RawRule ℕ
rule_named name = record {
  rule = name;
  rule_version = none;
  threshold = some 30;
  observed_value = some 31;
  passed = true;
  detail = none;
}

abbrev promotion : DecisionRequest ℕ
promotion = record {
  decision_type = "PROMOTION";
  outcome = "APPROVED";
  actor = "reviewer";
  reason = "all rules passed";
  rules = rule_named "samples" ∷ rule_named "drawdown" ∷ [];
  campaign_id = some 4;
  experiment_id = none;
  strategy_id = none;
  workflow_experiment_id = none;
  correlation_id = none;
  inputs = none;
  metrics = some 2;
  alternatives = none;
  provenance = none;
  versions = none;
  supersedes_id = none;
}

abbrev requests : List (DecisionRequest ℕ × ℕ)
requests = (promotion, 7) ∷ (record promotion { rules = rule_named "drawdown" ∷ [] }, 8) ∷ []

abbrev as_stored : List (RuleEvaluation ℕ) → List (RuleEvaluation ℕ)
as_stored rules = rules

as_stored-IsQuery : IsQuery as_stored
as_stored-IsQuery [] = done
as_stored-IsQuery (r ∷ rules) = same r (as_stored-IsQuery rules)

abbrev no_decisions : Ledger ℕ
no_decisions = record { decisions = []; rule_rows = [] }

abbrev ledger : Ledger ℕ
ledger = record_all as_stored requests no_decisions

abbrev second_decision : DecisionRow ℕ
second_decision = record (pending_decision promotion 1 8) { content_hash = "drawdown" }

second-stored : find (λ d. d.id == 1) ledger.decisions ≡ some second_decision
unfolding record_decision_row pending_decision fresh_decision_id default_correlation
    payload_for_hash rules_of normalize_rule
second-stored = refl

explain-verified_example : explain as_stored 1 ledger ≡ some true
explain-verified_example =
    explain-verified as_stored as_stored requests 1 second_decision as_stored-IsQuery
      as_stored-IsQuery second-stored

record_ignores_order_example :
    record_decision_row as_stored promotion 9 ledger
    ≡ record_decision_row as_stored
        (record promotion { rules = rule_named "drawdown" ∷ rule_named "samples" ∷ [] })
        9
        ledger
unfolding normalize_rule
record_ignores_order_example =
    record_ignores_order as_stored promotion (rule_named "drawdown" ∷ rule_named "samples" ∷ []) 9
      ledger
      (swapped (normalize_rule (rule_named "samples")) (normalize_rule (rule_named "drawdown")) []
        refl)

record_all-keeps_example :
    (find (λ d. d.id == 1) (record_all as_stored requests ledger).decisions ≡ some second_decision)
    × (rules_of 1 (record_all as_stored requests ledger).rule_rows ≡ rules_of 1 ledger.rule_rows)
record_all-keeps_example =
    record_all-keeps as_stored requests 1 second_decision ledger second-stored
