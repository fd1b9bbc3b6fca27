-- ===== src/Campaigns/Splits/Defs.antt =====
-- `TemporalSplit`, `build_temporal_split` and `validate_temporal_split` (app/campaigns/splits.py).
use mercury_trading.Base.{
  ◌+◌, ◌-◌, ◌*◌, ◌/◌, max, ◌||◌, ◌&&◌, not, Option, none, some, List, [], ◌∷◌, any, ltb, leb,
  if◌then◌else◌, Result, ok, err, ◌>>=◌, ◌>>◌, raise_if, String, str_eq,
}
use mercury_trading.Base.Date.{Date, IsoFormat}

pub record Period : Type 0 where
  pub start : Date
  pub end : Date

pub record TemporalSplit : Type 0 where
  pub train : Period
  pub validation : Period
  pub test : Period

-- The `ValueError`s of the module, with the `KeyError` of a missing key and the `ValueError` of a
-- text that is no date.
pub data SplitError : Type 0 where
  span_too_short period_empty outside_campaign overlapping bad_date : SplitError
  missing_key : String → SplitError

-- A `dict[str, V]` in insertion order.
abbrev pub Dict {ℓ} : Type ℓ → Type ℓ
Dict V = List (String × V)

pub item {ℓ} : {V : Type ℓ} → String → Dict V → Result SplitError V
item k [] = err (missing_key k)
item k ((j, v) ∷ d) = if str_eq j k then ok v else item k d

-- `any(period.start >= period.end for period in periods)`
unfoldable pub validate_temporal_split : TemporalSplit → Date → Date → Result SplitError (Unit {0})
validate_temporal_split split start_date end_date = do
  raise_if
      (any (λ (p : Period). leb p.end p.start) (split.train ∷ split.validation ∷ split.test ∷ []))
      period_empty
  raise_if (ltb split.train.start start_date || ltb end_date split.test.end) outside_campaign
  raise_if
      (not
        (leb split.train.end split.validation.start && leb split.validation.end split.test.start))
      overlapping

-- The split when none is given: 60, 20 and 20 percent of the days, and at least two days each for
-- the first two.
unfoldable pub default_split : Date → Date → TemporalSplit
default_split start_date end_date =
    let days = end_date - start_date in
    let train_end = start_date + max 2 (days * 3 / 5) in
    let validation_end = start_date + max 4 (days * 4 / 5) in
    record {
      train = record { start = start_date; end = train_end };
      validation = record { start = train_end; end = validation_end };
      test = record { start = validation_end; end = end_date };
    }

module _ (iso : IsoFormat) where
  unfoldable pub parse_date : String → Result SplitError Date
  parse_date s = elim (iso.fromisoformat s) [ none ↦ err bad_date | some d ↦ ok d ]

  unfoldable pub parse_period : Dict String → Result SplitError Period
  unfolding item
  parse_period raw = do
    s ← item "start" raw
    start ← parse_date s
    e ← item "end" raw
    end ← parse_date e
    ok (record { start = start; end = end })

  unfoldable pub period_dict : Period → Dict String
  period_dict p = ("start", iso.isoformat p.start) ∷ ("end", iso.isoformat p.end) ∷ []

  unfoldable pub as_dict : TemporalSplit → Dict (Dict String)
  as_dict split =
      ("train", period_dict split.train)
      ∷ ("validation", period_dict split.validation)
      ∷ ("test", period_dict split.test)
      ∷ []

  unfoldable pub parse_split : Dict (Dict String) → Result SplitError TemporalSplit
  unfolding item
  parse_split raw = do
    train ← parse_period (← item "train" raw)
    validation ← parse_period (← item "validation" raw)
    test ← parse_period (← item "test" raw)
    ok (record { train = train; validation = validation; test = test })

  -- The `if`: an empty definition counts as none.
  unfoldable pub choose_split :
      Date → Date → Option (Dict (Dict String)) → Result SplitError TemporalSplit
  choose_split start_date end_date (some (entry ∷ rest)) = parse_split (entry ∷ rest)
  choose_split start_date end_date _ =
      if ltb (end_date - start_date) 6
      then err span_too_short
      else ok (default_split start_date end_date)

  unfoldable pub build_temporal_split :
      Date → Date → Option (Dict (Dict String)) → Result SplitError TemporalSplit
  build_temporal_split start_date end_date definition = do
    split ← choose_split start_date end_date definition
    validate_temporal_split split start_date end_date
    ok split
