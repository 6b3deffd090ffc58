-- ===== src/DateTime/Distinct.antt =====
-- The long format of `DateTime::toString`, field by field.
use mathlib.Core.List.{head-eq_of_cons-eq, tail-eq_of_cons-eq}
use minioclient_cpp.Base.{ℕ, ◌+◌, ◌*◌, ◌<◌, ◌≡◌, refl, sym, ap, ◌∙◌, [], ◌++◌, arith}
use minioclient_cpp.Text.{Str}
use minioclient_cpp.Text.Decimal.{decimal, value_of, value_of-decimal}
use minioclient_cpp.Text.Split.{same_start, same_end}
use minioclient_cpp.DateTime.{DateTime, Tm, amz_date_format, two_digits, to_string}
use minioclient_cpp.DateTime.Calendar.{IsDate, IsTime, civil_of_tm, seconds_of_tm, days_of_civil}
use minioclient_cpp.DateTime.Stamp.{day_text, time_text, to_string-seconds}

two_digits-front :
    (a b : ℕ) (s t : Str)
    → a < 100
    → b < 100
    → two_digits a ++ s ≡ two_digits b ++ t
    → (a ≡ b) × (s ≡ t)
two_digits-front a b s t ha hb e =
    let below = tail-eq_of_cons-eq e in
    (
      omega (arith, ha, hb, head-eq_of_cons-eq e, head-eq_of_cons-eq below),
      tail-eq_of_cons-eq below,
    )

time_text-injective :
    (x y : Tm)
    → IsTime x
    → IsTime y
    → time_text x ≡ time_text y
    → (x.tm_hour ≡ y.tm_hour) × (x.tm_min ≡ y.tm_min) × (x.tm_sec ≡ y.tm_sec)
time_text-injective x y (hx, mx, sx) (hy, my, sy) e =
    let (hours, below) =
      two_digits-front x.tm_hour y.tm_hour _ _ (omega (arith, hx)) (omega (arith, hy))
        (tail-eq_of_cons-eq e) in
    let (mins, rest) =
      two_digits-front x.tm_min y.tm_min _ _ (omega (arith, mx)) (omega (arith, my)) below in
    let (secs, _) =
      two_digits-front x.tm_sec y.tm_sec _ _ (omega (arith, sx)) (omega (arith, sy)) rest in
    (hours, mins, secs)

day_text-injective :
    (x y : Tm)
    → IsDate (civil_of_tm x)
    → IsDate (civil_of_tm y)
    → day_text x ≡ day_text y
    → civil_of_tm x ≡ civil_of_tm y
day_text-injective x y (_, mx, _, dx) (_, my, _, dy) e =
    let years : decimal (1900 + x.tm_year) ≡ decimal (1900 + y.tm_year) =
      same_start _ _ (two_digits (x.tm_mon + 1) ++ two_digits x.tm_mday)
        (two_digits (y.tm_mon + 1) ++ two_digits y.tm_mday) refl e in
    let year : 1900 + x.tm_year ≡ 1900 + y.tm_year =
      sym (value_of-decimal (1900 + x.tm_year))
      ∙ ap value_of years
      ∙ value_of-decimal (1900 + y.tm_year) in
    let (month, below) =
      two_digits-front (x.tm_mon + 1) (y.tm_mon + 1) _ _ (omega (arith, mx)) (omega (arith, my))
        (same_end (decimal (1900 + x.tm_year)) (decimal (1900 + y.tm_year)) _ _ refl e) in
    let (day, _) =
      two_digits-front x.tm_mday y.tm_mday [] [] (omega (arith, dx)) (omega (arith, dy)) below in
    λ i. record { year = year i; month = month i; day = day i }

seconds-same :
    (x y : Tm)
    → civil_of_tm x ≡ civil_of_tm y
    → (x.tm_hour ≡ y.tm_hour) × (x.tm_min ≡ y.tm_min) × (x.tm_sec ≡ y.tm_sec)
    → seconds_of_tm x ≡ seconds_of_tm y
seconds-same x y date (hour, min, sec) =
    λ i. days_of_civil (date i) * 86400 + hour i * 3600 + min i * 60 + sec i

-- Times that are printed alike are the same second.
pub to_string-injective :
    (d c : DateTime) → to_string d amz_date_format ≡ to_string c amz_date_format → d.time ≡ c.time
to_string-injective d c e =
    let (x, stamp, date, clock, back) = to_string-seconds d in
    let (y, stamp', date', clock', back') = to_string-seconds c in
    let same = sym stamp ∙ e ∙ stamp' in
    sym back
    ∙ seconds-same x y
        (day_text-injective x y date date'
          (same_start (day_text x) (day_text y) (time_text x) (time_text y) refl same))
        (time_text-injective x y clock clock'
          (same_end (day_text x) (day_text y) (time_text x) (time_text y) refl same))
    ∙ back'
