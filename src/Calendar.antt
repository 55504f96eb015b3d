-- ===== src/Calendar.antt =====
-- What the program uses of Go's time package, in UTC: an instant as a day and the nanoseconds of that
-- day, the civil date of a day, `AddDate` and `Date` with their normalisation, and the orders. Days
-- are counted from 1970-01-01; an instant before that day is clipped to it.
pub mod Dates
pub mod Growth
use billax.Prelude.{
  ℕ, zero, suc, ◌+◌, ◌-◌, ◌*◌, ◌/◌, ◌%◌, ◌<◌, ◌≡◌, ◌⊎◌, Bool, not, ◌&&◌, ◌||◌, [], ◌∷◌, ◌++◌, ltb,
  ◌==◌, if◌then◌else◌, ℤ, pos_part, neg_part, sub_ℕ, shift, Text,
}

pub record Time : Type 0 where
  pub day : ℕ
  pub nanos : ℕ

-- The zero value, clipped.
abbrev pub zero_time : Time
zero_time = record { day = 0; nanos = 0 }

-- A civil date. `months` counts the months from January 1970, `date` the days of the month from 1.
pub record Civil : Type 0 where
  pub months : ℕ
  pub date : ℕ

abbrev pub is_leap : ℕ → Bool
is_leap year = year % 4 == 0 && (not (year % 100 == 0) || year % 400 == 0)

abbrev year_of : ℕ → ℕ
year_of months = 1970 + months / 12

-- The length of a month, given by its number in the year, from 0.
abbrev month_len : Bool → ℕ → ℕ
month_len leap zero = 31
month_len leap (suc zero) = if leap then 29 else 28
month_len leap (suc (suc zero)) = 31
month_len leap (suc (suc (suc zero))) = 30
month_len leap (suc (suc (suc (suc zero)))) = 31
month_len leap (suc (suc (suc (suc (suc zero))))) = 30
month_len leap (suc (suc (suc (suc (suc (suc zero)))))) = 31
month_len leap (suc (suc (suc (suc (suc (suc (suc zero))))))) = 31
month_len leap (suc (suc (suc (suc (suc (suc (suc (suc zero)))))))) = 30
month_len leap (suc (suc (suc (suc (suc (suc (suc (suc (suc zero))))))))) = 31
month_len leap (suc (suc (suc (suc (suc (suc (suc (suc (suc (suc zero)))))))))) = 30
month_len leap (suc (suc (suc (suc (suc (suc (suc (suc (suc (suc (suc m))))))))))) = 31

unfoldable pub days_in : ℕ → ℕ
days_in months = month_len (is_leap (year_of months)) (months % 12)

-- The days before the first of a month.
unfoldable pub days_before : ℕ → ℕ
unfolding days_in
days_before zero = 0
days_before (suc m) = days_before m + days_in m

-- The civil date of the day after.
unfoldable pub next_day : Civil → Civil
unfolding days_in
next_day c =
    if ltb c.date (days_in c.months)
    then record { months = c.months; date = c.date + 1 }
    else record { months = suc c.months; date = 1 }

-- `t.Date()`
unfoldable pub civil : ℕ → Civil
unfolding next_day
civil zero = record { months = 0; date = 1 }
civil (suc d) = next_day (civil d)

-- `time.Date(y, m, d, …)` with y and m given as months from January 1970: a day beyond the month's
-- length runs on into the following months.
unfoldable pub day_of : ℕ → ℕ → ℕ
unfolding days_before
day_of months date = days_before months + date - 1

-- `t.AddDate(years, months, days)`
unfoldable pub add_date : Time → ℤ → ℤ → ℤ → Time
unfolding civil day_of
add_date t years months days =
    let c = civil t.day in
    let more =
      sub_ℕ (12 * pos_part years + pos_part months) (12 * neg_part years + neg_part months) in
    let m = shift c.months more in record { day = shift (day_of m c.date) days; nanos = t.nanos }

-- `a.Before(b)`, and `a <= b` of the SQL.
abbrev pub before : Time → Time → Bool
before a b = ltb a.day b.day || a.day == b.day && ltb a.nanos b.nanos

abbrev pub at_or_before : Time → Time → Bool
at_or_before a b = not (before b a)

-- a is earlier than b.
abbrev pub Earlier : Time → Time → Type 0
Earlier a b = (a.day < b.day) ⊎ ((a.day ≡ b.day) × (a.nanos < b.nanos))

-- A number below 100 in two digits.
abbrev pub two_digits : ℕ → Text
two_digits n = (48 + n / 10 % 10) ∷ (48 + n % 10) ∷ []

-- A number below 10000 in four digits.
abbrev pub four_digits : ℕ → Text
four_digits n = two_digits (n / 100) ++ two_digits (n % 100)

-- `t.Format("2006-01-02")`, for the years up to 9999.
unfoldable pub format_date : Time → Text
unfolding civil
format_date t =
    let c = civil t.day in
    four_digits (year_of c.months)
    ++ (b'-' ∷ (two_digits (c.months % 12 + 1) ++ (b'-' ∷ two_digits c.date)))
