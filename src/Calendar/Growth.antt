-- ===== src/Calendar/Growth.antt =====
-- `AddDate` moves an instant forward when it is given a positive number of days, months or years.
use native.Mathlib.Nat.{le_refl}
use billax.Prelude.{
  ℕ, zero, suc, ◌+◌, ◌*◌, ◌≤◌, ◌<◌, ◌≡◌, inl, inr, arith, ◌==◌, ==_iff, Bool-cases, pos,
}
use billax.Calendar.{Time, days_in, days_before, civil, day_of, add_date}
use billax.Calendar.Dates.{days_in-pos, civil-IsCivil, day_of-civil}

days_before-grows : (m n : ℕ) → m < n → days_before m + days_in m ≤ days_before n
unfolding days_before
days_before-grows m zero h = elim h [ ]
days_before-grows m (suc n) h = elim (Bool-cases (m == n)) [
  | inl same ↦ let e : m ≡ n = (==_iff m n).0 same in rw e (le_refl _)
  | inr other ↦
      let ih : days_before m + days_in m ≤ days_before n = days_before-grows m n (ground arith) in
      omega (arith, ih)
]

-- A later month, with the same day of the month, lies later by at least 28 days.
pub day_of-grows : (m n date : ℕ) → m < n → 1 ≤ date → day_of m date + 28 ≤ day_of n date
unfolding day_of
day_of-grows m n date h d = omega (arith, days_before-grows m n h, days_in-pos m)

-- The day that a positive number of months leads to.
months-grow : (d k : ℕ) → d + 28 ≤ day_of ((civil d).months + suc k) (civil d).date
months-grow d k = omega (
  arith,
  day_of-civil d,
  day_of-grows (civil d).months ((civil d).months + suc k) (civil d).date (omega arith)
      (civil-IsCivil d).at_least,
)

-- `AddDate(0, 0, n)` adds n days.
pub add_date-days : (t : Time) (n : ℕ) → (add_date t (pos 0) (pos 0) (pos n)).day ≡ t.day + n
unfolding add_date
add_date-days t n = ground (arith, day_of-civil t.day)

-- `AddDate(0, n, 0)` with n > 0 leads at least 28 days on.
pub add_date-months :
    (t : Time) (n : ℕ) → 0 < n → t.day + 28 ≤ (add_date t (pos 0) (pos n) (pos 0)).day
unfolding add_date
add_date-months t zero h = elim h [ ]
add_date-months t (suc n) h = ground (arith, months-grow t.day n)

-- `AddDate(n, 0, 0)` with n > 0 leads at least 28 days on.
pub add_date-years :
    (t : Time) (n : ℕ) → 0 < n → t.day + 28 ≤ (add_date t (pos n) (pos 0) (pos 0)).day
unfolding add_date
add_date-years t zero h = elim h [ ]
add_date-years t (suc n) h = ground (arith, months-grow t.day (12 * n + 11))
