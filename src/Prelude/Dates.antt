-- ===== src/Prelude/Dates.antt =====
-- `Date.parse` and `Date.prototype.toISOString`. An instant is counted in milliseconds from the
-- earliest time that a `Date` can hold, so it is a natural number, and instants are compared and
-- subtracted as the source's are. How texts in other forms are parsed is left to each engine, so
-- both functions are parameters; that a date's own text is parsed back is the standard's rule.
use tracegarden.Prelude.{ℕ, ◌≤◌, ◌≡◌, Option, some, Str}

-- The latest time value, 8.64e15 on both sides of the epoch.
abbrev pub max_time : ℕ
max_time = 17280000000000000

pub record Dates : Type 0 where
  pub parse : Str → Option ℕ
  pub iso : ℕ → Str
  pub parse-iso : (n : ℕ) → n ≤ max_time → parse (iso n) ≡ some n
