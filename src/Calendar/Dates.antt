-- ===== src/Calendar/Dates.antt =====
-- The civil calendar: the date of a day is a valid one, and leads back to the day.
use billax.Prelude.{ℕ, zero, suc, ◌%◌, ◌≤◌, ◌≡◌, refl, ap, ◌∙◌, Bool, true, false, arith}
use billax.Calendar.{Civil, month_len, days_in, days_before, next_day, civil, day_of}

pub record IsCivil (c : Civil) : Type 0 where
  pub at_least : 1 ≤ c.date
  pub at_most : c.date ≤ days_in c.months

month_len-pos : (leap : Bool) (m : ℕ) → 28 ≤ month_len leap m
month_len-pos leap zero = omega arith
month_len-pos true (suc zero) = omega arith
month_len-pos false (suc zero) = omega arith
month_len-pos leap (suc (suc zero)) = omega arith
month_len-pos leap (suc (suc (suc zero))) = omega arith
month_len-pos leap (suc (suc (suc (suc zero)))) = omega arith
month_len-pos leap (suc (suc (suc (suc (suc zero))))) = omega arith
month_len-pos leap (suc (suc (suc (suc (suc (suc zero)))))) = omega arith
month_len-pos leap (suc (suc (suc (suc (suc (suc (suc zero))))))) = omega arith
month_len-pos leap (suc (suc (suc (suc (suc (suc (suc (suc zero)))))))) = omega arith
month_len-pos leap (suc (suc (suc (suc (suc (suc (suc (suc (suc zero))))))))) = omega arith
month_len-pos leap (suc (suc (suc (suc (suc (suc (suc (suc (suc (suc zero)))))))))) = omega arith
month_len-pos leap (suc (suc (suc (suc (suc (suc (suc (suc (suc (suc (suc m))))))))))) = omega arith

pub days_in-pos : (m : ℕ) → 28 ≤ days_in m
unfolding days_in
days_in-pos m = month_len-pos _ (m % 12)

next_day-IsCivil : (c : Civil) → IsCivil c → IsCivil (next_day c)
unfolding next_day
next_day-IsCivil c h = ground (arith, days_in-pos (suc c.months))

pub civil-IsCivil : (d : ℕ) → IsCivil (civil d)
unfolding civil
civil-IsCivil zero = record { at_least = omega arith; at_most = omega (arith, days_in-pos 0) }
civil-IsCivil (suc d) = next_day-IsCivil (civil d) (civil-IsCivil d)

day_of-next_day :
    (c : Civil)
    → IsCivil c
    → day_of (next_day c).months (next_day c).date ≡ suc (day_of c.months c.date)
unfolding next_day day_of
day_of-next_day c h = ground arith

-- Go's `Date` inverts `Time.Date`: the day of a day's date is the day.
pub day_of-civil : (d : ℕ) → day_of (civil d).months (civil d).date ≡ d
unfolding civil
day_of-civil zero = unfold day_of days_before in refl
day_of-civil (suc d) = day_of-next_day (civil d) (civil-IsCivil d) ∙ ap suc (day_of-civil d)
