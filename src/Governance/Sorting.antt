-- ===== src/Governance/Sorting.antt =====
-- The order in which rules are given or returned does not matter, except among rules of one name
-- (app/governance/service.py).
use mercury_trading.Base.{◌≡◌, refl, ◌∙◌, ap, false, not, List, [], ◌∷◌, String, str_eq, arith}
use mercury_trading.Governance.Ledger.{RuleEvaluation, insert_rule, sort_rules}
use mercury_trading.Base.Texts.{text_le, text_le_total, text_le_antisym, text_le_trans}

-- The same rules in another order, in which rules of one name keep theirs.
pub data Rearranged {J : Type 0} : List (RuleEvaluation J) → List (RuleEvaluation J) → Type 0 where
  done : Rearranged [] []
  same :
      {xs ys : List (RuleEvaluation J)} (r : RuleEvaluation J)
      → Rearranged xs ys
      → Rearranged (r ∷ xs) (r ∷ ys)
  swapped :
      (r s : RuleEvaluation J) (xs : List (RuleEvaluation J))
      → str_eq r.rule s.rule ≡ false
      → Rearranged (r ∷ s ∷ xs) (s ∷ r ∷ xs)
  followed :
      {xs ys zs : List (RuleEvaluation J)} → Rearranged xs ys → Rearranged ys zs → Rearranged xs zs

-- Of two names that differ, one comes first.
flip : (a b : String) → str_eq a b ≡ false → text_le b a ≡ not (text_le a b)
flip a b differ = ground (arith, text_le_total a b, text_le_antisym a b)

module _ {J : Type 0} where
  insert-swap :
      (a b : RuleEvaluation J) (xs : List (RuleEvaluation J))
      → str_eq a.rule b.rule ≡ false
      → insert_rule a (insert_rule b xs) ≡ insert_rule b (insert_rule a xs)
  insert-swap a b [] differ = ground (arith, flip a.rule b.rule differ)
  insert-swap a b (x ∷ xs) differ = ground (
    arith,
    flip a.rule b.rule differ,
    text_le_total a.rule x.rule,
    text_le_total b.rule x.rule,
    text_le_trans a.rule x.rule b.rule,
    text_le_trans b.rule x.rule a.rule,
    insert-swap a b xs differ,
  )

  -- Sorting forgets the order of rules whose names differ.
  pub sort_rules-Rearranged :
      {xs ys : List (RuleEvaluation J)} → Rearranged xs ys → sort_rules xs ≡ sort_rules ys
  sort_rules-Rearranged done = refl
  sort_rules-Rearranged (same r e) = ap (insert_rule r) (sort_rules-Rearranged e)
  sort_rules-Rearranged (swapped r s xs differ) = insert-swap r s (sort_rules xs) differ
  sort_rules-Rearranged (followed e f) = sort_rules-Rearranged e ∙ sort_rules-Rearranged f
