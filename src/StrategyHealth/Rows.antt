-- ===== src/StrategyHealth/Rows.antt =====
-- What `StrategyHealthService` (app/strategy_health/service.py) reads of its rows, and its life cycles.
use mercury_trading.Base.{
  ℕ, zero, suc, ◌+◌, ◌*◌, ◌/◌, Bool, true, false, ◌&&◌, Option, none, some, List, [], ◌∷◌, length,
  keep, any, find, leb, ◌==◌, String, str_eq, if◌then◌else◌,
}
use mercury_trading.StrategyHealth.Assessment.{HealthState, HealthFlag, has_flag}
use mercury_trading.StrategyHealth.Model.{
  Uuid, Instant, LifecycleState, ScheduleMode, StrategyHealth, StrategyHealthObservation,
  ResearchSchedule, DeduplicationKey, ResearchTrigger,
}

abbrev pub same_state : HealthState → HealthState → Bool
same_state HealthState.healthy HealthState.healthy = true
same_state HealthState.watch HealthState.watch = true
same_state HealthState.degraded HealthState.degraded = true
same_state HealthState.suspended HealthState.suspended = true
same_state HealthState.retired HealthState.retired = true
same_state _ _ = false

abbrev pub is_retire : LifecycleState → Bool
is_retire LifecycleState.retire = true
is_retire _ = false

abbrev pub is_retired : HealthState → Bool
is_retired HealthState.retired = true
is_retired _ = false

-- The life cycle that an observation leads to.
unfoldable pub observed_lifecycle : HealthState → LifecycleState → LifecycleState
observed_lifecycle HealthState.degraded _ = LifecycleState.de_risk
observed_lifecycle HealthState.watch _ = LifecycleState.investigate
observed_lifecycle _ LifecycleState.monitored = LifecycleState.retain
observed_lifecycle _ LifecycleState.investigate = LifecycleState.retain
observed_lifecycle _ LifecycleState.de_risk = LifecycleState.retain
observed_lifecycle _ l = l

-- The life cycle that an explicit transition sets.
unfoldable pub target_lifecycle : HealthState → LifecycleState
target_lifecycle HealthState.retired = LifecycleState.retire
target_lifecycle HealthState.suspended = LifecycleState.de_risk
target_lifecycle HealthState.healthy = LifecycleState.active
target_lifecycle _ = LifecycleState.investigate

abbrev pub is_periodic : ScheduleMode → Bool
is_periodic ScheduleMode.event_triggered = false
is_periodic _ = true

abbrev pub is_event : ScheduleMode → Bool
is_event ScheduleMode.periodic = false
is_event _ = true

abbrev pub same_id : Option Uuid → Option Uuid → Bool
same_id none none = true
same_id (some a) (some b) = a == b
same_id _ _ = false

abbrev pub same_deduplication : DeduplicationKey → DeduplicationKey → Bool
same_deduplication a b =
    (a.schedule_id == b.schedule_id) && str_eq a.key_type b.key_type && (a.day == b.day)

abbrev pub day_of : Instant → ℕ
day_of now = now / 86_400

-- `schedule.cadence_days or 1`
abbrev pub cadence : Option ℕ → ℕ
cadence none = 1
cadence (some zero) = 1
cadence (some (suc n)) = suc n

abbrev pub is_past : Instant → Option ℕ → Option Instant → Bool
is_past now days none = true
is_past now days (some last) = leb (last + 86_400 * cadence days) now

abbrev pub next_id : List ResearchTrigger → ℕ
next_id [] = zero
next_id (t ∷ ts) = suc t.id + next_id ts

module _ {T : Type 0} where
  -- `periodic_due`
  unfoldable pub periodic_due : Instant → ResearchSchedule T → Bool
  periodic_due now s = is_periodic s.mode && is_past now s.cadence_days s.last_run_at

  -- `_event_schedule`
  unfoldable pub event_schedule :
      Option Uuid → String → List (ResearchSchedule T) → Option (ResearchSchedule T)
  event_schedule strategy_id trigger_type = find λ s.
      (s.is_active && is_event s.mode)
      && (same_id s.strategy_id strategy_id && any (str_eq trigger_type) s.trigger_types)

  -- `schedule or self._event_schedule(…)`
  abbrev pub matching :
      Option (ResearchSchedule T) → Option (ResearchSchedule T) → Option (ResearchSchedule T)
  matching none found = found
  matching (some s) found = some s

-- `prior[-2:]`
abbrev pub last_two : {A : Type 0} → List A → List A
last_two (a ∷ b ∷ c ∷ rest) = last_two (b ∷ c ∷ rest)
last_two short = short

-- The flags that count as degradation, each once.
unfoldable pub degradations : List HealthFlag → ℕ
degradations flags = length (
    keep (λ f. has_flag f flags)
      (HealthFlag.performance_degradation ∷ HealthFlag.sharpe_decay ∷ HealthFlag.drawdown_abnormal
        ∷ HealthFlag.turnover_drift ∷ []))

module _ {F : Type 0} where
  -- The observations of a strategy in the order of their time.
  unfoldable pub insert_observation :
      StrategyHealthObservation F
      → List (StrategyHealthObservation F)
      → List (StrategyHealthObservation F)
  insert_observation o [] = o ∷ []
  insert_observation o (p ∷ ps) =
      if leb o.observed_at p.observed_at then o ∷ p ∷ ps else p ∷ insert_observation o ps

  unfoldable pub observations_of :
      Uuid → List (StrategyHealthObservation F) → List (StrategyHealthObservation F)
  unfolding insert_observation
  observations_of i [] = []
  observations_of i (o ∷ os) =
      let rest = observations_of i os in
      if o.strategy_id == i then insert_observation o rest else rest

  unfoldable pub prior_degraded : List (StrategyHealthObservation F) → ℕ
  unfolding degradations
  prior_degraded prior = length (keep (λ o. leb 2 (degradations o.flags)) (last_two prior))

  unfoldable pub update_health :
      Uuid
      → (StrategyHealth F → StrategyHealth F)
      → List (StrategyHealth F)
      → List (StrategyHealth F)
  update_health i f [] = []
  update_health i f (h ∷ hs) = (if h.strategy_id == i then f h else h) ∷ update_health i f hs
