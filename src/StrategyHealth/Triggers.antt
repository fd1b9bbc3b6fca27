-- ===== src/StrategyHealth/Triggers.antt =====
-- At most one trigger for a schedule, a type and a day (app/strategy_health/service.py).
use mercury_trading.Base.{
  ◌≡◌, Bool, false, Option, none, List, [], ◌∷◌, ◌++◌, any, ◌==◌, All, All-append, Bool-cases, inl,
  inr, arith, String,
}
use mercury_trading.Base.Keeps.{
  Keeps, Keeps-pure, Keeps-gets, Keeps-lift, Keeps-if, Keeps-modify, Keeps-bind, Keeps-raise_when,
  after_gets, after_guard, after_modify,
}
use mercury_trading.PaperTrading.Number.{Number}
use mercury_trading.StrategyHealth.Assessment.{
  HealthState, HealthAssessment, Rounding, assess_health,
}
use mercury_trading.StrategyHealth.Model.{
  Uuid, Instant, StrategyHealth, ResearchSchedule, DeduplicationKey, ResearchTrigger, HealthStore,
  HealthObservationRequest,
}
use mercury_trading.StrategyHealth.Rows.{observations_of, prior_degraded, same_deduplication}
use mercury_trading.StrategyHealth.Service.{
  transition, require_health, record_observation, note_observation,
}
use mercury_trading.StrategyHealth.Research.{
  Campaigning, start_research, add_trigger, link_campaign, record_health_decision,
}
use mercury_trading.StrategyHealth.Operations.{
  HealthOperation, observe, move, trigger, run_due, schedule, perform, perform_all,
  create_trigger-Keeps, run_due_schedules-Keeps, create_schedule-Keeps,
}

-- No trigger of the list has this key.
abbrev pub IsNew : DeduplicationKey → List ResearchTrigger → Type 0
IsNew key = All λ t. same_deduplication t.deduplication_key key ≡ false

-- No two triggers have the same key.
abbrev pub DistinctTriggers : List ResearchTrigger → Type 0
DistinctTriggers [] = Unit
DistinctTriggers (t ∷ ts) =
    All (λ u. same_deduplication t.deduplication_key u.deduplication_key ≡ false) ts
    × DistinctTriggers ts

any-IsNew :
    (key : DeduplicationKey) (ts : List ResearchTrigger)
    → any (λ t. same_deduplication t.deduplication_key key) ts ≡ false
    → IsNew key ts
any-IsNew key [] e = tt
any-IsNew key (t ∷ ts) e = elim (Bool-cases (same_deduplication t.deduplication_key key)) [
  | inl same ↦ absurd (ground arith)
  | inr other ↦ (other, any-IsNew key ts (ground arith))
]

DistinctTriggers-append :
    (ts : List ResearchTrigger) (new : ResearchTrigger)
    → IsNew new.deduplication_key ts
    → DistinctTriggers ts
    → DistinctTriggers (ts ++ (new ∷ []))
DistinctTriggers-append [] new n d = (tt, tt)
DistinctTriggers-append (t ∷ ts) new (n, ns) (d, ds) =
    (All-append _ ts (new ∷ []) d (n, tt), DistinctTriggers-append ts new ns ds)

link-All :
    (i c : Uuid) (Q : DeduplicationKey → Type 0) (ts : List ResearchTrigger)
    → All (λ t. Q t.deduplication_key) ts
    → All (λ t. Q t.deduplication_key) (link_campaign i c ts)
unfolding link_campaign
link-All i c Q [] h = tt
link-All i c Q (t ∷ ts) (h, hs) = elim (Bool-cases (t.id == i)) [
  | inl at ↦ rw at (h, link-All i c Q ts hs)
  | inr off ↦ rw off (h, link-All i c Q ts hs)
]

link-DistinctTriggers :
    (i c : Uuid) (ts : List ResearchTrigger)
    → DistinctTriggers ts
    → DistinctTriggers (link_campaign i c ts)
unfolding link_campaign
link-DistinctTriggers i c [] d = tt
link-DistinctTriggers i c (t ∷ ts) (d, ds) =
    let others = link-All i c (λ k. same_deduplication t.deduplication_key k ≡ false) ts d in
    elim (Bool-cases (t.id == i)) [
      | inl at ↦ rw at (others, link-DistinctTriggers i c ts ds)
      | inr off ↦ rw off (others, link-DistinctTriggers i c ts ds)
    ]

module _ {F T : Type 0} where
  abbrev Once : HealthStore F T → Type 0
  Once s = DistinctTriggers s.triggers

  require_health-Once : (i : Uuid) → Keeps Once (require_health i)
  unfolding require_health
  require_health-Once i = Keeps-bind Once _ _ (Keeps-gets Once _) λ row. Keeps-lift Once _

  transition-Once :
      (i : Uuid) (target : HealthState) (has_reason : Bool)
      → Keeps Once (transition i target has_reason)
  unfolding transition record_health_decision
  transition-Once i target has_reason = Keeps-bind Once _ _ (require_health-Once i) λ row.
      Keeps-bind Once _ _ (Keeps-raise_when Once _ _) λ _.
        Keeps-bind Once _ _ (Keeps-modify Once _ (λ s p. p))
          λ _. Keeps-bind Once _ _ (Keeps-modify Once _ (λ s p. p)) λ _. Keeps-pure Once _

  module _ (campaigning : Campaigning T) where
    start_research-Once :
        (i : Option Uuid) (t : String) (key : DeduplicationKey) (chosen : ResearchSchedule T)
        (s : HealthStore F T)
        → any (λ t. same_deduplication t.deduplication_key key) s.triggers ≡ false
        → Once s
        → Once (start_research campaigning i t key chosen s).1
    unfolding start_research add_trigger record_health_decision
    start_research-Once i t key chosen s e p = after_gets Once _ _ s (
        after_modify Once _ _ s (
          (Keeps-bind Once _ _ (Keeps-lift Once _) λ template.
              Keeps-bind Once _ _ (Keeps-lift Once _) λ campaign.
                Keeps-bind Once _ _
                  (Keeps-modify Once _ (λ s p. link-DistinctTriggers _ campaign s.triggers p))
                  λ _.
                    Keeps-bind Once _ _ (Keeps-modify Once _ (λ s p. p))
                      λ _. Keeps-pure Once _).keep
            _ (DistinctTriggers-append s.triggers _ (any-IsNew key s.triggers e) p)))

    module _ ⦃num : Number F⦄ (rounding : Rounding F) where
      note_observation-Once :
          (clock : Instant) (request : HealthObservationRequest F) (a : HealthAssessment F)
          (o : Option (StrategyHealth F)) (new : StrategyHealth F)
          → Keeps Once (note_observation rounding campaigning clock request a o new)
      unfolding note_observation record_health_decision
      note_observation-Once clock request a o new =
          Keeps-bind Once _ _ (Keeps-modify Once _ (λ s q. q)) λ _.
            Keeps-bind Once _ _
              (Keeps-if Once _ _ _ (Keeps-modify Once _ (λ s q. q)) (Keeps-pure Once tt))
              λ _.
                Keeps-bind Once _ _
                  (Keeps-if Once _ _ _
                    (create_trigger-Keeps campaigning Once start_research-Once (λ s ss p. p) clock _
                      _ none)
                    (Keeps-pure Once none))
                  λ trigger. Keeps-pure Once new

      record_observation-Once :
          (clock : Instant) (i : Uuid) (request : HealthObservationRequest F)
          → Keeps Once (record_observation rounding campaigning clock i request)
      unfolding record_observation
      record_observation-Once clock i request = record {
        keep = λ s p.
            let a =
              assess_health rounding request.metrics request.expected_metrics
                request.expected_weakness request.execution_context
                (prior_degraded (observations_of i s.observations)) in
            after_gets Once _ _ s (
              after_gets Once _ _ s (
                after_guard Once _ _ _ s p λ writable.
                  after_modify Once _ _ s ((note_observation-Once clock request a _ _).keep _ p)));
      }

      perform-Once :
          (o : HealthOperation F T) (s : HealthStore F T)
          → Once s
          → Once (perform rounding campaigning o s)
      perform-Once (observe clock i request) s p =
          (record_observation-Once clock i request).keep s p
      perform-Once (move i target has_reason) s p = (transition-Once i target has_reason).keep s p
      perform-Once (trigger clock i t o) s p =
          (create_trigger-Keeps campaigning Once start_research-Once (λ s ss p. p) clock i t o).keep
            s p
      perform-Once (run_due clock now) s p =
          (run_due_schedules-Keeps campaigning Once start_research-Once (λ s ss p. p) clock
              now).keep
            s p
      perform-Once (schedule payload) s p =
          (create_schedule-Keeps campaigning Once start_research-Once (λ s ss p. p) payload).keep s
            p

      -- Where no two research triggers have the same schedule, type and day, none have after any
      -- sequence of operations of the health service.
      pub perform_all-DistinctTriggers :
          (os : List (HealthOperation F T)) (s : HealthStore F T)
          → DistinctTriggers s.triggers
          → DistinctTriggers (perform_all rounding campaigning os s).triggers
      perform_all-DistinctTriggers [] s p = p
      perform_all-DistinctTriggers (o ∷ os) s p =
          perform_all-DistinctTriggers os _ (perform-Once o s p)
