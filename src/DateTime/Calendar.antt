-- ===== src/DateTime/Calendar.antt =====
-- The calendar behind `DateTime::toString`: ranges of the fields, and days from dates.
use minioclient_cpp.Base.{
  ℕ, ◌+◌, ◌-◌, ◌*◌, ◌/◌, ◌%◌, ◌≤◌, ◌<◌, ◌≡◌, sym, subst, ap, ◌∙◌, arith, ltb, if◌then◌else◌,
}
use minioclient_cpp.DateTime.{Tm, Civil, year_of_era, day_of_year, civil_in, civil_of_days, gmtime}

-- The day of a date: the days of whole eras, of whole years, of whole months, and of the month.
abbrev pub days_of_civil : Civil → ℕ
days_of_civil c =
    let early = ltb c.month 3 in
    let y = if early then c.year - 1 else c.year in
    let mp = if early then c.month + 9 else c.month - 3 in
    let yoe = y % 400 in
    y / 400 * 146097
    + (yoe * 365 + yoe / 4 - yoe / 100)
    + ((153 * mp + 2) / 5 + (c.day - 1))
    - 719468

year_of_era_bound : (doe : ℕ) → doe < 146097 → year_of_era doe < 400
year_of_era_bound doe h = omega arith

-- The first day of a year of the era does not come after the day.
year_starts :
    (doe : ℕ)
    → doe < 146097
    → 365 * year_of_era doe + year_of_era doe / 4 - year_of_era doe / 100 ≤ doe
year_starts doe h = omega arith

day_of_year_bound : (doe : ℕ) → doe < 146097 → day_of_year doe (year_of_era doe) < 366
day_of_year_bound doe h = omega arith

-- A date in range.
abbrev pub IsDate : Civil → Type 0
IsDate c = (1 ≤ c.month) × (c.month ≤ 12) × (1 ≤ c.day) × (c.day ≤ 31)

civil_in-IsDate : (era yoe doy : ℕ) → doy < 366 → IsDate (civil_in era yoe doy)
unfolding civil_in
civil_in-IsDate era yoe doy h = (ground arith, ground arith, omega arith, omega arith)

days_of_civil-in :
    (era yoe doy : ℕ)
    → yoe < 400
    → doy < 366
    → days_of_civil (civil_in era yoe doy)
      ≡ era * 146097 + (yoe * 365 + yoe / 4 - yoe / 100) + doy - 719468
unfolding civil_in
days_of_civil-in era yoe doy h k = ground arith

restored :
    (days yoe : ℕ)
    → 365 * yoe + yoe / 4 - yoe / 100 ≤ (days + 719468) % 146097
    → (days + 719468) / 146097 * 146097
        + (yoe * 365 + yoe / 4 - yoe / 100)
        + day_of_year ((days + 719468) % 146097) yoe
        - 719468
      ≡ days
restored days yoe h = omega arith

-- The date of a day is in range, and the day reads back from its date; so that no two days have
-- one date.
pub civil_of_days_lem :
    (days : ℕ) → IsDate (civil_of_days days) × (days_of_civil (civil_of_days days) ≡ days)
unfolding civil_of_days
civil_of_days_lem days =
    let z = days + 719468 in
    let doe = z % 146097 in
    let fits : doe < 146097 = omega arith in
    let yoe = year_of_era doe in
    let year_ok = year_of_era_bound doe fits in
    let day_ok = day_of_year_bound doe fits in
    let start = year_starts doe fits in
    (
      civil_in-IsDate (z / 146097) yoe (day_of_year doe yoe) day_ok,
      days_of_civil-in (z / 146097) yoe (day_of_year doe yoe) year_ok day_ok
          ∙ restored days yoe start,
    )

year_bound :
    (days : ℕ) → 1900 ≤ (days + 719468) / 146097 * 400 + year_of_era ((days + 719468) % 146097)
year_bound days = omega arith

civil_in-year : (era yoe doy : ℕ) → era * 400 + yoe ≤ (civil_in era yoe doy).year
unfolding civil_in
civil_in-year era yoe doy = omega arith

pub civil_of_days-year : (days : ℕ) → 1900 ≤ (civil_of_days days).year
unfolding civil_of_days
civil_of_days-year days = omega (
  arith,
  year_bound days,
  civil_in-year ((days + 719468) / 146097) (year_of_era ((days + 719468) % 146097))
      (day_of_year ((days + 719468) % 146097) (year_of_era ((days + 719468) % 146097))),
)

-- The date that a `struct tm` stands for, and its seconds since 1970.
abbrev pub civil_of_tm : Tm → Civil
civil_of_tm tm = record { year = 1900 + tm.tm_year; month = tm.tm_mon + 1; day = tm.tm_mday }

abbrev pub seconds_of_tm : Tm → ℕ
seconds_of_tm tm =
    days_of_civil (civil_of_tm tm) * 86400 + tm.tm_hour * 3600 + tm.tm_min * 60 + tm.tm_sec

abbrev pub IsTime : Tm → Type 0
IsTime tm = (tm.tm_hour < 24) × (tm.tm_min < 60) × (tm.tm_sec < 60)

civil_of_tm-gmtime : (t : ℕ) → civil_of_tm (gmtime t) ≡ civil_of_days (t / 86400)
unfolding gmtime
civil_of_tm-gmtime t =
    let c = civil_of_days (t / 86400) in
    let ((low, _, _, _), _) = civil_of_days_lem (t / 86400) in
    let same_year : 1900 + (c.year - 1900) ≡ c.year =
      omega (arith, civil_of_days-year (t / 86400)) in
    let same_month : c.month - 1 + 1 ≡ c.month = omega (arith, low) in
    λ i. record { year = same_year i; month = same_month i; day = c.day }

clock-IsTime : (t : ℕ) → IsTime (gmtime t)
unfolding gmtime
clock-IsTime t = (omega arith, omega arith, omega arith)

clock_back :
    (d t : ℕ)
    → d ≡ t / 86400
    → d * 86400 + t % 86400 / 3600 * 3600 + t % 86400 / 60 % 60 * 60 + t % 86400 % 60 ≡ t
clock_back d t h = omega arith

seconds_lem :
    (t : ℕ) → days_of_civil (civil_of_tm (gmtime t)) ≡ t / 86400 → seconds_of_tm (gmtime t) ≡ t
unfolding gmtime
seconds_lem t h = clock_back (days_of_civil (civil_of_tm (gmtime t))) t h

-- The fields of a time are in range, and stand for that time.
pub gmtime_lem :
    (t : ℕ) → IsDate (civil_of_tm (gmtime t)) × IsTime (gmtime t) × (seconds_of_tm (gmtime t) ≡ t)
gmtime_lem t =
    let (fits, back) = civil_of_days_lem (t / 86400) in
    let same = civil_of_tm-gmtime t in
    (subst IsDate (sym same) fits, clock-IsTime t, seconds_lem t (ap days_of_civil same ∙ back))
