-- ===== src/Campaigns/Splits/Order.antt =====
-- Splits are ordered in time (app/campaigns/splits.py).
use mercury_trading.Base.{
  ◌-◌, ◌≤◌, ◌<◌, ◌≡◌, refl, Option, none, some, arith, ok, err, >>=-eq-ok, ok-injective, subst,
  String, ◌↔◌,
}
use mercury_trading.Base.Date.{Date, IsoFormat, IsInverse}
use mercury_trading.Campaigns.Splits.Defs.{
  Period, TemporalSplit, span_too_short, Dict, validate_temporal_split, default_split, as_dict,
  choose_split, build_temporal_split, parse_split, parse_date, parse_period, period_dict,
}

-- The three periods are not empty, follow one another, and lie inside the campaign.
pub record IsOrdered (start_date end_date : Date) (s : TemporalSplit) : Type 0 where
  pub train_after : start_date ≤ s.train.start
  pub train_nonempty : s.train.start < s.train.end
  pub validation_after : s.train.end ≤ s.validation.start
  pub validation_nonempty : s.validation.start < s.validation.end
  pub test_after : s.validation.end ≤ s.test.start
  pub test_nonempty : s.test.start < s.test.end
  pub test_before : s.test.end ≤ end_date

-- Validation accepts exactly the splits whose three periods are nonempty, follow one another and
-- lie inside the campaign.
pub validate_iff :
    (s : TemporalSplit) (a b : Date) → (validate_temporal_split s a b ≡ ok tt) ↔ IsOrdered a b s
unfolding validate_temporal_split
validate_iff s a b = ground arith

pub default_split-IsOrdered : (a b : Date) → 6 ≤ b - a → IsOrdered a b (default_split a b)
unfolding default_split
default_split-IsOrdered a b h = ground arith

module _ (iso : IsoFormat) where
  -- Whatever definition is given, a split that is built has three nonempty periods that follow one
  -- another without overlap and lie inside the campaign.
  pub build-IsOrdered :
      (a b : Date) (definition : Option (Dict (Dict String))) {s : TemporalSplit}
      → build_temporal_split iso a b definition ≡ ok s
      → IsOrdered a b s
  unfolding build_temporal_split
  build-IsOrdered a b definition {s} h =
      let (t, chosen, rest) = >>=-eq-ok (choose_split iso a b definition) _ h in
      let (u, valid, same) = >>=-eq-ok (validate_temporal_split t a b) _ rest in
      subst (IsOrdered a b) (ok-injective same) ((validate_iff t a b).0 valid)

  -- With no definition, the build raises the error of a short span exactly on spans below six
  -- days.
  pub build_default_short :
      (a b : Date) → (build_temporal_split iso a b none ≡ err span_too_short) ↔ (b - a < 6)
  unfolding build_temporal_split choose_split
  build_default_short a b =
      ground (arith, (validate_iff (default_split a b) a b).1, default_split-IsOrdered a b)

  build_default-eq-ok :
      (a b : Date) → 6 ≤ b - a → build_temporal_split iso a b none ≡ ok (default_split a b)
  unfolding build_temporal_split choose_split
  build_default-eq-ok a b h =
      let valid = (validate_iff (default_split a b) a b).1 (default_split-IsOrdered a b h) in
      ground (arith, valid)

  -- With no definition, a span of six days or more gives a split whose periods cover the whole
  -- campaign without a gap.
  pub build_default_covers :
      (a b : Date)
      → 6 ≤ b - a
      → (s : TemporalSplit) × (build_temporal_split iso a b none ≡ ok s)
        × (s.train.start ≡ a)
        × (s.train.end ≡ s.validation.start)
        × (s.validation.end ≡ s.test.start)
        × (s.test.end ≡ b)
  unfolding default_split
  build_default_covers a b h =
      (default_split a b, build_default-eq-ok a b h, refl, refl, refl, refl)

  module _ (inv : IsInverse iso) where
    parse_date-isoformat : (d : Date) → parse_date iso (iso.isoformat d) ≡ ok d
    unfolding parse_date
    parse_date-isoformat d = rw (inv d, parse_date)

    parse_period-period_dict : (p : Period) → parse_period iso (period_dict iso p) ≡ ok p
    unfolding parse_period period_dict
    parse_period-period_dict p = simp parse_date-isoformat

    parse_split-as_dict : (s : TemporalSplit) → parse_split iso (as_dict iso s) ≡ ok s
    unfolding parse_split as_dict
    parse_split-as_dict s = simp parse_period-period_dict

    -- Where the date texts read back as they were written, a split that was built is built again,
    -- unchanged, from its stored dictionary.
    pub build-as_dict :
        (a b : Date) (definition : Option (Dict (Dict String))) {s : TemporalSplit}
        → build_temporal_split iso a b definition ≡ ok s
        → build_temporal_split iso a b (some (as_dict iso s)) ≡ ok s
    unfolding build_temporal_split choose_split as_dict
    build-as_dict a b definition {s} h =
        let (t, chosen, rest) = >>=-eq-ok (choose_split iso a b definition) _ h in
        let valid = (validate_iff s a b).1 (build-IsOrdered a b definition h) in
        rw (parse_split-as_dict s, valid)
