-- ===== src/Governance/Integrity.antt =====
-- The ledger is append-only, and what it stores verifies (app/governance/service.py).
use mercury_trading.Base.{
  ℕ, ◌≡◌, ◌<◌, refl, sym, ap, ◌∙◌, subst, Bool, true, false, some, List, [], ◌∷◌, ◌++◌, map, find,
  ◌==◌, eq_refl, All, All-append, All-map_of, arith, Bool-cases, inl, inr,
}
use mercury_trading.Governance.Ledger.{
  DecisionId, RawRule, RuleEvaluation, RuleRow, DecisionRow, Ledger, DecisionRequest, Codec,
  fresh_decision_id, normalize_rule, sort_rules, payload_for_hash, rules_of, pending_decision,
  default_correlation, stored_rules, record_decision_row, explain,
}
use mercury_trading.Governance.Sorting.{Rearranged, sort_rules-Rearranged}

below_fresh :
    {A : Type 0} (id_of : A → ℕ) (xs : List A) → All (λ x. id_of x < fresh_decision_id id_of xs) xs
unfolding fresh_decision_id
below_fresh id_of [] = tt
below_fresh id_of (x ∷ xs) = (
  omega arith,
  All-map_of (λ y. id_of y < fresh_decision_id id_of xs)
      (λ y. id_of y < fresh_decision_id id_of (x ∷ xs)) (λ y h. omega (arith, h)) xs
      (below_fresh id_of xs),
)

All-both :
    {A : Type 0} (P Q R : A → Type 0) (xs : List A)
    → ((x : A) → P x → Q x → R x)
    → All P xs
    → All Q xs
    → All R xs
All-both P Q R [] f h k = tt
All-both P Q R (x ∷ xs) f h k = (f x h.0 k.0, All-both P Q R xs f h.1 k.1)

module _ {A : Type 0} (p : A → Bool) where
  All-find : (P : A → Type 0) (x : A) (xs : List A) → All P xs → find p xs ≡ some x → P x
  All-find P x [] h e = absurd (ground arith)
  All-find P x (y ∷ ys) h e = elim (Bool-cases (p y)) [
    | inl here_now ↦ let same : y ≡ x = ground arith in subst P same h.0
    | inr later ↦ All-find P x ys h.1 (ground arith)
  ]

  find-passes : (x : A) (xs : List A) → find p xs ≡ some x → p x ≡ true
  find-passes x [] e = absurd (ground arith)
  find-passes x (y ∷ ys) e = elim (Bool-cases (p y)) [
    | inl here_now ↦ let same : y ≡ x = ground arith in rw⁻¹ same here_now
    | inr later ↦ find-passes x ys (ground arith)
  ]

  find-append : (x : A) (xs ys : List A) → find p xs ≡ some x → find p (xs ++ ys) ≡ some x
  find-append x [] ys e = absurd (ground arith)
  find-append x (y ∷ xs) ys e = ground (arith, find-append x xs ys)

module _ {J : Type 0} where
  rules_of-append :
      (id : DecisionId) (new_id : DecisionId) (rows : List (RuleRow J))
      (added : List (RuleEvaluation J))
      → (new_id == id) ≡ false
      → rules_of id (rows ++ map (λ e. record { decision_id = new_id; evaluation = e }) added)
        ≡ rules_of id rows
  unfolding rules_of
  rules_of-append id new_id [] [] differ = refl
  rules_of-append id new_id [] (e ∷ added) differ =
      rw differ (rules_of-append id new_id [] added differ)
  rules_of-append id new_id (r ∷ rows) added differ =
      ground (arith, rules_of-append id new_id rows added differ)

module _ {J : Type 0} ⦃codec : Codec J⦄ where
  -- The hash of a decision is that of its columns and its rules.
  abbrev pub IsIntactIn : List (RuleRow J) → DecisionRow J → Type 0
  IsIntactIn rows d = d.content_hash ≡ codec.digest (payload_for_hash d (rules_of d.id rows))

  abbrev pub IsIntact : Ledger J → Type 0
  IsIntact ledger = All (IsIntactIn ledger.rule_rows) ledger.decisions

  -- A query that leaves open only the order of rules with different names.
  abbrev pub IsQuery : (List (RuleEvaluation J) → List (RuleEvaluation J)) → Type 0
  IsQuery query = (rules : List (RuleEvaluation J)) → Rearranged rules (query rules)

  abbrev pub record_all :
      (List (RuleEvaluation J) → List (RuleEvaluation J))
      → List (DecisionRequest J × ℕ)
      → Ledger J
      → Ledger J
  record_all query [] ledger = ledger
  record_all query (r ∷ rs) ledger = record_all query rs (record_decision_row query r.0 r.1 ledger)

  payload-query :
      (query : List (RuleEvaluation J) → List (RuleEvaluation J)) (d : DecisionRow J)
      (rules : List (RuleEvaluation J))
      → IsQuery query
      → payload_for_hash d (query rules) ≡ payload_for_hash d rules
  unfolding payload_for_hash
  payload-query query d rules is_query = rw (sym (sort_rules-Rearranged (is_query rules))) refl

  record-IsIntact :
      (query : List (RuleEvaluation J) → List (RuleEvaluation J)) (request : DecisionRequest J)
      (new_id : ℕ) (ledger : Ledger J)
      → IsQuery query
      → IsIntact ledger
      → IsIntact (record_decision_row query request new_id ledger)
  unfolding record_decision_row payload_for_hash pending_decision
  record-IsIntact query request new_id ledger is_query intact =
      let id = fresh_decision_id (λ d. d.id) ledger.decisions in
      let added = sort_rules (map normalize_rule request.rules) in
      let rows = ledger.rule_rows ++ map (λ e. record { decision_id = id; evaluation = e }) added in
      All-append (IsIntactIn rows) ledger.decisions _
        (All-both (λ d. d.id < id) (IsIntactIn ledger.rule_rows) (IsIntactIn rows) ledger.decisions
          (λ d earlier h.
            let kept = rules_of-append d.id id ledger.rule_rows added (ground (arith, earlier)) in
            h ∙ ap (λ rules. codec.digest (payload_for_hash d rules)) (sym kept))
          (below_fresh (λ d. d.id) ledger.decisions) intact)
        (
          ap codec.digest (
              payload-query query (pending_decision request id new_id) (rules_of id rows) is_query),
          tt,
        )

  record_all-IsIntact :
      (query : List (RuleEvaluation J) → List (RuleEvaluation J))
      (requests : List (DecisionRequest J × ℕ)) (ledger : Ledger J)
      → IsQuery query
      → IsIntact ledger
      → IsIntact (record_all query requests ledger)
  record_all-IsIntact query [] ledger is_query intact = intact
  record_all-IsIntact query (r ∷ rs) ledger is_query intact =
      record_all-IsIntact query rs _ is_query (record-IsIntact query r.0 r.1 ledger is_query intact)

  -- For queries that leave open only the order of rules with different names: after any records to
  -- an empty ledger, the explanation of every decision that is stored says that it verifies.
  pub explain-verified :
      (query query' : List (RuleEvaluation J) → List (RuleEvaluation J))
      (requests : List (DecisionRequest J × ℕ)) (id : DecisionId) (d : DecisionRow J)
      → IsQuery query
      → IsQuery query'
      → find
          (λ d. d.id == id)
          (record_all query requests (record { decisions = []; rule_rows = [] })).decisions
        ≡ some d
      → explain query' id (record_all query requests (record { decisions = []; rule_rows = [] }))
        ≡ some true
  unfolding explain stored_rules
  explain-verified query query' requests id d is_query is_query' stored =
      let empty : Ledger J = record { decisions = []; rule_rows = [] } in
      let ledger = record_all query requests empty in
      let intact =
        All-find (λ d. d.id == id) (IsIntactIn ledger.rule_rows) d ledger.decisions
          (record_all-IsIntact query requests empty is_query tt) stored in
      let hash =
        ap codec.digest (payload-query query' d (rules_of d.id ledger.rule_rows) is_query')
        ∙ sym intact in
      rw (stored, hash) (ap some (eq_refl d.content_hash))

  -- Two requests whose rules are the same but for the order of rules with different names leave
  -- the same ledger.
  pub record_ignores_order :
      (query : List (RuleEvaluation J) → List (RuleEvaluation J)) (request : DecisionRequest J)
      (others : List (RawRule J)) (new_id : ℕ) (ledger : Ledger J)
      → Rearranged (map normalize_rule request.rules) (map normalize_rule others)
      → record_decision_row query request new_id ledger
        ≡ record_decision_row query (record request { rules = others }) new_id ledger
  unfolding record_decision_row pending_decision default_correlation
  record_ignores_order query request others new_id ledger moved =
      rw (sort_rules-Rearranged moved) refl

  -- A decision that is stored stays as it is, with its rules, after any records.
  pub record_all-keeps :
      (query : List (RuleEvaluation J) → List (RuleEvaluation J))
      (requests : List (DecisionRequest J × ℕ)) (id : DecisionId) (d : DecisionRow J)
      (ledger : Ledger J)
      → find (λ d. d.id == id) ledger.decisions ≡ some d
      → (find (λ d. d.id == id) (record_all query requests ledger).decisions ≡ some d)
        × (rules_of id (record_all query requests ledger).rule_rows ≡ rules_of id ledger.rule_rows)
  unfolding record_decision_row
  record_all-keeps query [] id d ledger stored = (stored, refl)
  record_all-keeps query (r ∷ rs) id d ledger stored =
      let new = fresh_decision_id (λ d. d.id) ledger.decisions in
      let earlier =
        All-find (λ d. d.id == id) (λ d. d.id < new) d ledger.decisions
          (below_fresh (λ d. d.id) ledger.decisions) stored in
      let same = find-passes (λ d. d.id == id) d ledger.decisions stored in
      let (found, rules) =
        record_all-keeps query rs id d (record_decision_row query r.0 r.1 ledger)
          (find-append (λ d. d.id == id) d ledger.decisions _ stored) in
      (
        found,
        rules
            ∙ rules_of-append id new ledger.rule_rows (sort_rules (map normalize_rule r.0.rules))
                (ground (arith, earlier, same)),
      )
