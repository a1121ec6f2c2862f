-- ===== src/Payments/Dates.antt =====
-- The arithmetic of `datetime.date` that the payment reminders use, on ordinals: 1 is the first day
-- and 3652059 the last one, and a result outside raises.
use silberloeffel_catering.Common.{
  ℕ, zero, suc, ◌+◌, ◌-◌, ◌%◌, ◌≤◌, ◌<◌, ◌≡◌, arith, leb, ltb, if◌then◌else◌, inl, inr, Bool-cases,
}
use silberloeffel_catering.Common.Results.{Result, ok, err, overflow_error, assertion_error, ◌>>=◌}
use silberloeffel_catering.Orders.Model.{Date}

abbrev pub max_date : Date
max_date = 3652059

-- `day + timedelta(days=n)`
unfoldable pub plus_days : Date → ℕ → Result Date
plus_days day n = if ltb max_date (day + n) then err overflow_error else ok (day + n)

-- `day - timedelta(days=n)`
unfoldable pub minus_days : Date → ℕ → Result Date
minus_days day n = if leb day n then err overflow_error else ok (day - n)

-- `day.weekday()`: 0 is Monday
abbrev pub weekday : Date → ℕ
weekday day = (day + 6) % 7

-- the loop of `_next_working_day`; a weekend has two days, so three tests are enough
unfoldable pub skip_weekend : ℕ → Date → Result Date
unfolding plus_days
skip_weekend zero candidate = err assertion_error
skip_weekend (suc fuel) candidate =
    let next = plus_days candidate 1 >>= skip_weekend fuel in
    if leb 5 (weekday candidate) then next else ok candidate

unfoldable pub next_working_day : Date → Result Date
unfolding plus_days skip_weekend
next_working_day day = plus_days day 1 >>= skip_weekend 3

-- For a day that is at least three days before the last one, the next working day exists, is later
-- by one to three days, is no Saturday or Sunday, and is no later than any other later working
-- day.
pub next_working_day_lem :
    (day other : Date)
    → day + 3 ≤ max_date
    → day < other
    → weekday other < 5
    → (next : Date) × (next_working_day day ≡ ok next)
      × (day < next)
      × (next ≤ day + 3)
      × (weekday next < 5)
      × (next ≤ other)
unfolding next_working_day skip_weekend plus_days
next_working_day_lem day other h later working = elim (Bool-cases (leb 5 (weekday (day + 1)))) [
  | inr weekday1 ↦ (day + 1, ground arith, omega arith, omega arith, ground arith, omega arith)
  | inl weekend1 ↦ elim (Bool-cases (leb 5 (weekday (day + 1 + 1)))) [
    | inr weekday2 ↦
        (day + 1 + 1, ground arith, omega arith, omega arith, ground arith, ground arith)
    | inl weekend2 ↦
        (day + 1 + 1 + 1, ground arith, omega arith, omega arith, ground arith, ground arith)
  ]
]
