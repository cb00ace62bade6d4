-- ===== src/Domain/Retention.antt =====
-- `parseRetentionDays` of packages/domain/src/index.ts.
use tracegarden.Prelude.{
  ℕ, ◌≤◌, ◌≡◌, sym, inl, inr, ◌&&◌, Option, none, some, arith, leb, if◌then◌else◌, Bool-cases,
  Option-cases, js, trim,
}
use tracegarden.Prelude.Result.{ok_inj, Result, ok, err}
use tracegarden.Prelude.Value.{
  Value, whole, string, prop, record_of, nullish_or, is_decimal, decimal,
}

pub data RetentionError : Type 0 where
  days_out_of_range : RetentionError

abbrev pub default_retention_days : ℕ
default_retention_days = 90

abbrev pub min_retention_days : ℕ
min_retention_days = 1

abbrev pub max_retention_days : ℕ
max_retention_days = 3650

abbrev selected_days : Value → Value
selected_days v = elim (record_of v) [
  | none ↦ v
  | some fields ↦ nullish_or (prop (js "retentionDays") fields) (prop (js "days") fields)
]

-- The number that a value stands for, if it is an integer that is not negative.
unfoldable pub days_of : Value → Option ℕ
unfolding is_decimal decimal
days_of (whole n) = some n
days_of (string s) = if is_decimal (trim s) then some (decimal (trim s)) else none
days_of _ = none

-- The upper bound lies below the greatest safe integer.
unfoldable pub parse_retention_days : Value → Result RetentionError ℕ
unfolding days_of
parse_retention_days v = elim (days_of (selected_days v)) [
  | none ↦ err days_out_of_range
  | some n ↦
      if leb min_retention_days n && leb n max_retention_days then ok n else err days_out_of_range
]

pub parse_retention_days-bounds :
    (v : Value) (n : ℕ)
    → parse_retention_days v ≡ ok n
    → (min_retention_days ≤ n) × (n ≤ max_retention_days)
unfolding parse_retention_days
parse_retention_days-bounds v n h = elim (Option-cases (days_of (selected_days v))) [
  | inl e ↦ absurd cc (rw (e, parse_retention_days) at h)
  | inr (m, e) ↦ in_range m (rw (e, parse_retention_days) at h)
]
  where
    in_range :
        (m : ℕ)
        → ◌≡◌ {A = Result RetentionError ℕ}
            (if leb min_retention_days m && leb m max_retention_days
              then ok m
              else err days_out_of_range)
            (ok n)
        → (min_retention_days ≤ n) × (n ≤ max_retention_days)
    in_range m h = elim (Bool-cases (leb min_retention_days m && leb m max_retention_days)) [
      | inr e ↦ absurd cc (rw e at h)
      | inl e ↦
          let same = ok_inj m n (rw e at h) in rw (sym same) (ground (arith, e), ground (arith, e))
    ]
