-- ===== src/Quotas/Months.antt =====
-- `_month_bounds`: calendar months, in UTC.
use travel_latest.Base.{
  ℕ, ◌+◌, ◌≡◌, Bool, true, false, ◌&&◌, ◌||◌, ◌≤◌, ◌==◌, ltb, if◌then◌else◌, arith,
}

-- A `datetime` in UTC: the time of the day is counted in microseconds.
pub record Datetime : Type 0 where
  pub year : ℕ
  pub month : ℕ
  pub day : ℕ
  pub time : ℕ

-- `a < b`
unfoldable pub is_before : Datetime → Datetime → Bool
is_before a b =
    ltb a.year b.year
    || (a.year == b.year
        && (ltb a.month b.month
            || (a.month == b.month && (ltb a.day b.day || (a.day == b.day && ltb a.time b.time)))))

-- `a == b`
unfoldable pub same_time : Datetime → Datetime → Bool
same_time a b = a.year == b.year && a.month == b.month && a.day == b.day && a.time == b.time

-- `datetime(year, month, 1, tzinfo=UTC)`
abbrev pub first_of : ℕ → ℕ → Datetime
first_of year month = record { year = year; month = month; day = 1; time = 0 }

unfoldable pub month_start : Datetime → Datetime
month_start now = first_of now.year now.month

unfoldable pub month_end : Datetime → Datetime
month_end now =
    if now.month == 12 then first_of (now.year + 1) 1 else first_of now.year (now.month + 1)

-- A moment lies in its month: not before the start, and before the end.
pub month_bounds_lem :
    (now : Datetime)
    → 1 ≤ now.day
    → (is_before now (month_start now) ≡ false) × (is_before now (month_end now) ≡ true)
unfolding is_before month_start month_end
month_bounds_lem now h = (ground arith, ground arith)

-- Two moments of one month have the same bounds, so that they count for one period.
pub month_bounds-same :
    (a b : Datetime)
    → a.year ≡ b.year
    → a.month ≡ b.month
    → (same_time (month_start a) (month_start b) ≡ true)
      × (same_time (month_end a) (month_end b) ≡ true)
unfolding same_time month_start month_end
month_bounds-same a b y m = (ground arith, ground arith)
