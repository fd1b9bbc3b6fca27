-- ===== src/Base/Date.antt =====
-- Python's `datetime.date`: a date is its proleptic ordinal, and its text is what the standard
-- library writes and reads.
use Prim.Native.Nat.{ℕ}
use Prim.Native.String.{String}
use mathlib.Core.Path.{◌≡◌}
use mathlib.Core.Option.{Option, some}

-- `date.toordinal()`
abbrev pub Date : Type 0
Date = ℕ

-- `date.isoformat()` and `date.fromisoformat()`; `none` is its `ValueError`.
pub record IsoFormat : Type 0 where
  pub isoformat : Date → String
  pub fromisoformat : String → Option Date

-- The documented inverse: `fromisoformat` reads what `isoformat` writes.
abbrev pub IsInverse : IsoFormat → Type 0
IsInverse iso = (d : Date) → iso.fromisoformat (iso.isoformat d) ≡ some d
