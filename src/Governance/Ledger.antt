-- ===== src/Governance/Ledger.antt =====
-- `DecisionService` (app/governance/service.py) on the rows of app/models/governance.py. The values of JSON
-- and the digest of a payload are an interface; so is the order in which the database returns rows that its
-- query leaves open.
use mercury_trading.Base.{
  ℕ, suc, max, Bool, Option, none, some, List, [], ◌∷◌, ◌++◌, map, keep, find, ◌==◌, if◌then◌else◌,
  String, str_eq,
}
use mercury_trading.Base.Texts.{text_le}

abbrev pub DecisionId : Type 0
DecisionId = ℕ

-- A rule as it is given; `rule_version` may be missing.
pub record RawRule (J : Type 0) : Type 0 where
  pub rule : String
  pub rule_version : Option String
  pub threshold : Option J
  pub observed_value : Option J
  pub passed : Bool
  pub detail : Option J

pub record RuleEvaluation (J : Type 0) : Type 0 where
  pub rule : String
  pub rule_version : String
  pub threshold : Option J
  pub observed_value : Option J
  pub passed : Bool
  pub detail : Option J

-- A row of `decision_rule_evaluations`.
pub record RuleRow (J : Type 0) : Type 0 where
  pub decision_id : DecisionId
  pub evaluation : RuleEvaluation J

-- The five JSON columns of a decision.
pub record Details (J : Type 0) : Type 0 where
  pub inputs : J
  pub metrics : J
  pub alternatives : J
  pub provenance : J
  pub versions : J

-- What is hashed.
pub record Payload (J : Type 0) : Type 0 where
  pub decision_type : String
  pub outcome : String
  pub actor : String
  pub reason : String
  pub details : Details J
  pub rules : List (RuleEvaluation J)

pub record DecisionRow (J : Type 0) : Type 0 where
  pub id : DecisionId
  pub decision_type : String
  pub outcome : String
  pub actor : String
  pub reason : String
  pub campaign_id : Option ℕ
  pub experiment_id : Option ℕ
  pub strategy_id : Option ℕ
  pub workflow_experiment_id : Option ℕ
  pub correlation_id : String
  pub details : Details J
  pub content_hash : String
  pub supersedes_id : Option DecisionId

pub record Ledger (J : Type 0) : Type 0 where
  pub decisions : List (DecisionRow J)
  pub rule_rows : List (RuleRow J)

-- The arguments of `record`; a missing column is an empty dictionary, or an empty list.
pub record DecisionRequest (J : Type 0) : Type 0 where
  pub decision_type : String
  pub outcome : String
  pub actor : String
  pub reason : String
  pub rules : List (RawRule J)
  pub campaign_id : Option ℕ
  pub experiment_id : Option ℕ
  pub strategy_id : Option ℕ
  pub workflow_experiment_id : Option ℕ
  pub correlation_id : Option String
  pub inputs : Option J
  pub metrics : Option J
  pub alternatives : Option J
  pub provenance : Option J
  pub versions : Option J
  pub supersedes_id : Option DecisionId

-- JSON's empty values, the digest, and the text of an id.
pub record Codec (J : Type 0) : Type 0 where
  pub empty_dict : J
  pub empty_list : J
  pub digest : Payload J → String
  pub id_text : ℕ → String

abbrev or_value {ℓ} : {A : Type ℓ} → Option A → A → A
or_value none d = d
or_value (some a) d = a

-- `a or b` on optional ids
abbrev or_id : Option ℕ → Option ℕ → Option ℕ
or_id none b = b
or_id (some a) b = some a

abbrev chosen_correlation : Option String → String → String
chosen_correlation none d = d
chosen_correlation (some c) d = if str_eq c "" then d else c

-- `uuid4()`, as far as it matters: an id that no decision has.
unfoldable pub fresh_decision_id {ℓ} : {A : Type ℓ} → (A → ℕ) → List A → ℕ
fresh_decision_id id_of [] = 0
fresh_decision_id id_of (d ∷ ds) = max (suc (id_of d)) (fresh_decision_id id_of ds)

module _ {J : Type 0} where
  -- The rules of a decision, in the order of their rows.
  unfoldable pub rules_of : DecisionId → List (RuleRow J) → List (RuleEvaluation J)
  rules_of id rows = map (λ r. r.evaluation) (keep (λ r. r.decision_id == id) rows)

  abbrev pub insert_rule : RuleEvaluation J → List (RuleEvaluation J) → List (RuleEvaluation J)
  insert_rule r [] = r ∷ []
  insert_rule r (s ∷ rules) =
      let later = s ∷ insert_rule r rules in if text_le r.rule s.rule then r ∷ s ∷ rules else later

  -- `sorted(rules, key=lambda item: item.rule)`, which is stable
  abbrev pub sort_rules : List (RuleEvaluation J) → List (RuleEvaluation J)
  sort_rules [] = []
  sort_rules (r ∷ rules) = insert_rule r (sort_rules rules)

module _ {J : Type 0} ⦃codec : Codec J⦄ where
  open codec use {empty_dict, empty_list, digest, id_text}

  -- `_normalize_rule`
  unfoldable pub normalize_rule : RawRule J → RuleEvaluation J
  normalize_rule r = record {
    rule = r.rule;
    rule_version = or_value r.rule_version "v1";
    threshold = r.threshold;
    observed_value = r.observed_value;
    passed = r.passed;
    detail = r.detail;
  }

  -- `_payload_for_hash`
  unfoldable pub payload_for_hash : DecisionRow J → List (RuleEvaluation J) → Payload J
  payload_for_hash d rules = record {
    decision_type = d.decision_type;
    outcome = d.outcome;
    actor = d.actor;
    reason = d.reason;
    details = d.details;
    rules = sort_rules rules;
  }

  -- `str(campaign_id or experiment_id or strategy_id or uuid4())`
  unfoldable pub default_correlation : DecisionRequest J → ℕ → String
  default_correlation request new_id = id_text (
      or_value (or_id request.campaign_id (or_id request.experiment_id request.strategy_id)) new_id)

  -- The row that is added first, with a pending hash.
  unfoldable pub pending_decision : DecisionRequest J → DecisionId → ℕ → DecisionRow J
  unfolding default_correlation
  pending_decision request id new_id = record {
    id = id;
    decision_type = request.decision_type;
    outcome = request.outcome;
    actor = request.actor;
    reason = request.reason;
    campaign_id = request.campaign_id;
    experiment_id = request.experiment_id;
    strategy_id = request.strategy_id;
    workflow_experiment_id = request.workflow_experiment_id;
    correlation_id = chosen_correlation request.correlation_id (default_correlation request new_id);
    details = record {
      inputs = or_value request.inputs empty_dict;
      metrics = or_value request.metrics empty_dict;
      alternatives = or_value request.alternatives empty_list;
      provenance = or_value request.provenance empty_dict;
      versions = or_value request.versions empty_dict;
    };
    content_hash = "pending";
    supersedes_id = request.supersedes_id;
  }

  -- `query` is the order in which the database returns the rules.
  module _ (query : List (RuleEvaluation J) → List (RuleEvaluation J)) where
    -- `rules`
    unfoldable pub stored_rules : DecisionId → Ledger J → List (RuleEvaluation J)
    unfolding rules_of
    stored_rules id ledger = query (rules_of id ledger.rule_rows)

    -- `DecisionService.record`
    unfoldable pub record_decision_row : DecisionRequest J → ℕ → Ledger J → Ledger J
    unfolding payload_for_hash pending_decision rules_of fresh_decision_id
    record_decision_row request new_id ledger =
        let id = fresh_decision_id (λ d. d.id) ledger.decisions in
        let normalized = sort_rules (map normalize_rule request.rules) in
        let row_of : RuleEvaluation J → RuleRow J =
          λ e. record { decision_id = id; evaluation = e } in
        let rows = ledger.rule_rows ++ map row_of normalized in
        let d = pending_decision request id new_id in
        let hash = digest (payload_for_hash d (query (rules_of id rows))) in
        record {
          decisions = ledger.decisions ++ (record d { content_hash = hash } ∷ []);
          rule_rows = rows;
        }

    -- `explain`, as far as the integrity: `none` for a decision that is not stored, else whether its hash is
    -- that of what is stored.
    abbrev verified_in : Ledger J → Option (DecisionRow J) → Option Bool
    verified_in ledger none = none
    verified_in ledger (some d) = some (
        str_eq (digest (payload_for_hash d (query (rules_of d.id ledger.rule_rows))))
          d.content_hash)

    unfoldable pub explain : DecisionId → Ledger J → Option Bool
    unfolding stored_rules
    explain id ledger = verified_in ledger (find (λ d. d.id == id) ledger.decisions)
