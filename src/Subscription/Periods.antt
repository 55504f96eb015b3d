-- ===== src/Subscription/Periods.antt =====
-- The two computations of the end of a billing period: `calculatePeriodEnd` of service.go, for a new
-- subscription, and `nextPeriodEnd` of lifecycle.go, for a renewal.
use billax.Prelude.{
  ℕ, ◌*◌, ◌^◌, ◌≤◌, ◌<◌, ◌≡◌, refl, ◌⊎◌, inl, inr, Bool, true, false, arith, ℤ, pos, scale,
  scale-pos,
}
use billax.Calendar.{Time, add_date}
use billax.Calendar.Growth.{add_date-days, add_date-months, add_date-years}
use billax.Plan.{Interval, day, week, month, year, other_interval}

unfoldable pub calculate_period_end : Time → Interval → ℤ → Time
unfolding add_date scale
calculate_period_end start day count = add_date start (pos 0) (pos 0) count
calculate_period_end start week count = add_date start (pos 0) (pos 0) (scale count 7)
calculate_period_end start month count = add_date start (pos 0) count (pos 0)
calculate_period_end start year count = add_date start count (pos 0) (pos 0)
calculate_period_end start (other_interval t) count = add_date start (pos 0) (pos 1) (pos 0)

unfoldable pub next_period_end : Time → Interval → ℤ → Time
unfolding add_date scale
next_period_end from day count = add_date from (pos 0) (pos 0) count
next_period_end from week count = add_date from (pos 0) (pos 0) (scale count 7)
next_period_end from month count = add_date from (pos 0) count (pos 0)
next_period_end from year count = add_date from count (pos 0) (pos 0)
next_period_end from (other_interval t) count = add_date from (pos 0) count (pos 0)

-- One of the four intervals that a stored subscription can have.
abbrev pub is_known : Interval → Bool
is_known (other_interval t) = false
is_known _ = true

-- The time a count of intervals after another: days, weeks of seven days, months or years.
abbrev pub intervals_after : Time → Interval → ℤ → Time
intervals_after t day count = add_date t (pos 0) (pos 0) count
intervals_after t week count = add_date t (pos 0) (pos 0) (scale count 7)
intervals_after t month count = add_date t (pos 0) count (pos 0)
intervals_after t year count = add_date t count (pos 0) (pos 0)
intervals_after t (other_interval x) count = t

pub next_period_end-known :
    (t : Time) (i : Interval) (count : ℤ)
    → is_known i ≡ true
    → next_period_end t i count ≡ intervals_after t i count
unfolding next_period_end
next_period_end-known t day count h = refl
next_period_end-known t week count h = refl
next_period_end-known t month count h = refl
next_period_end-known t year count h = refl
next_period_end-known t (other_interval x) count h = cc

pub calculate_period_end-known :
    (t : Time) (i : Interval) (count : ℤ)
    → is_known i ≡ true
    → calculate_period_end t i count ≡ intervals_after t i count
unfolding calculate_period_end
calculate_period_end-known t day count h = refl
calculate_period_end-known t week count h = refl
calculate_period_end-known t month count h = refl
calculate_period_end-known t year count h = refl
calculate_period_end-known t (other_interval x) count h = cc

-- A renewal and a creation compute the same period for each of the four intervals, and for any other
-- string when the count is 1.
pub next_period_end-eq-calculate :
    (t : Time) (i : Interval) (count : ℤ)
    → (is_known i ≡ true) ⊎ (count ≡ pos 1)
    → next_period_end t i count ≡ calculate_period_end t i count
unfolding next_period_end calculate_period_end
next_period_end-eq-calculate t day count h = refl
next_period_end-eq-calculate t week count h = refl
next_period_end-eq-calculate t month count h = refl
next_period_end-eq-calculate t year count h = refl
next_period_end-eq-calculate t (other_interval x) count (inl h) = cc
next_period_end-eq-calculate t (other_interval x) count (inr h) = rw h

scale-week : (n : ℕ) → n < 2 ^ 31 → scale (pos n) 7 ≡ pos (n * 7)
scale-week n h = scale-pos n 7 (omega arith)

-- A period that starts on some day and counts n ≥ 1 intervals, n below 2^31 as in the INT column,
-- ends on a later day.
pub next_period_end-grows :
    (t : Time) (i : Interval) (n : ℕ)
    → 1 ≤ n
    → n < 2 ^ 31
    → t.day < (next_period_end t i (pos n)).day
unfolding next_period_end
next_period_end-grows t day n h k = omega (arith, add_date-days t n)
next_period_end-grows t week n h k = rw (scale-week n k) (omega (arith, add_date-days t (n * 7)))
next_period_end-grows t month n h k = omega (arith, add_date-months t n h)
next_period_end-grows t year n h k = omega (arith, add_date-years t n h)
next_period_end-grows t (other_interval x) n h k = omega (arith, add_date-months t n h)
