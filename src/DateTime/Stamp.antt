-- ===== src/DateTime/Stamp.antt =====
-- The texts of `DateTime::toString` in both formats.
use minioclient_cpp.Base.{
  ◌≢◌, subst, All-append, ℕ, ◌+◌, ◌*◌, ◌/◌, ◌%◌, ◌^◌, ◌≤◌, ◌<◌, ◌≡◌, refl, sym, ap, ◌∙◌, [], ◌∷◌,
  ◌++◌, arith, ltb, length, length-append, append_assoc, if◌then◌else◌,
}
use minioclient_cpp.Text.{Str, str}
use minioclient_cpp.Text.Split.{Lacks}
use minioclient_cpp.Text.Decimal.{decimal-All, decimal, length-decimal}
use minioclient_cpp.DateTime.Calendar.{
  IsDate, IsTime, civil_of_tm, seconds_of_tm, civil_of_days-year, gmtime_lem,
}
use minioclient_cpp.DateTime.{
  DateTime, Tm, signer_date_format, amz_date_format, format_text, year_of_era, day_of_year,
  civil_in, civil_of_days, gmtime, two_digits, conversion, expand, strftime, to_string,
}

-- The day, and the time of the day, in digits.
abbrev pub day_text : Tm → Str
day_text tm = decimal (1900 + tm.tm_year) ++ (two_digits (tm.tm_mon + 1) ++ two_digits tm.tm_mday)

abbrev pub time_text : Tm → Str
time_text tm =
    b'T' ∷ (two_digits tm.tm_hour ++ (two_digits tm.tm_min ++ (two_digits tm.tm_sec ++ b'Z' ∷ [])))

expand-signer : (tm : Tm) → expand (format_text signer_date_format) tm ≡ day_text tm
unfolding expand conversion str
expand-signer tm = refl

expand-amz : (tm : Tm) → expand (format_text amz_date_format) tm ≡ day_text tm ++ time_text tm
unfolding expand conversion str
expand-amz tm = sym (
    append_assoc (decimal (1900 + tm.tm_year)) (two_digits (tm.tm_mon + 1) ++ two_digits tm.tm_mday)
      (time_text tm))

civil_in-year_bound : (era yoe doy : ℕ) → (civil_in era yoe doy).year ≤ era * 400 + yoe + 1
unfolding civil_in
civil_in-year_bound era yoe doy = ground arith

era_bound :
    (days : ℕ)
    → days < 200000000000000
    → (days + 719468) / 146097 * 400 + year_of_era ((days + 719468) % 146097) + 1 < 10 ^ 12
era_bound days h = omega arith

year_bound : (days : ℕ) → days < 200000000000000 → (civil_of_days days).year < 10 ^ 12
unfolding civil_of_days
year_bound days h =
    let z = days + 719468 in
    let yoe = year_of_era (z % 146097) in
    omega
      (arith, era_bound days h, civil_in-year_bound (z / 146097) yoe (day_of_year (z % 146097) yoe))

-- The year that is printed has at most 12 digits as long as `time_t` has 64 bits.
tm_year_bound : (t : ℕ) → t < 2 ^ 63 → 1900 + (gmtime t).tm_year < 10 ^ 12
unfolding gmtime
tm_year_bound t h =
    omega (arith, year_bound (t / 86400) (omega arith), civil_of_days-year (t / 86400))

length-day_text : (tm : Tm) → 1900 + tm.tm_year < 10 ^ 12 → length (day_text tm) ≤ 16
length-day_text tm h = omega (
  arith,
  length-decimal (1900 + tm.tm_year) 11 h,
  length-append (decimal (1900 + tm.tm_year)) (two_digits (tm.tm_mon + 1) ++ two_digits tm.tm_mday),
)

fits : (s : Str) → length s < 100 → (if ltb (length s) 100 then s else []) ≡ s
fits s h = ground arith

-- For a time from 1970 on and before the year 2147483648, so long as the year is an `int`, which
-- `gmtime` and `%Y` need, the buffer is large enough: the short format is year, month and day
-- in digits, and the long one is that text, followed by the time of the day. So the date in the
-- scope of a signature starts the date that is signed with it.
pub to_string_lem :
    (d : DateTime)
    → (to_string d signer_date_format ≡ day_text (gmtime d.time))
      × (to_string d amz_date_format ≡ to_string d signer_date_format ++ time_text (gmtime d.time))
unfolding to_string strftime
to_string_lem d =
    let tm = gmtime d.time in
    let size = length-day_text tm (tm_year_bound d.time (omega (arith, d.fits))) in
    let day : strftime 100 (format_text signer_date_format) tm ≡ day_text tm =
      rw expand-signer (fits (day_text tm) (omega (arith, size))) in
    let stamp : strftime 100 (format_text amz_date_format) tm ≡ day_text tm ++ time_text tm =
      rw expand-amz (
        fits (day_text tm ++ time_text tm)
          (omega (arith, size, length-append (day_text tm) (time_text tm)))) in
    (day, stamp ∙ ap (λ s. s ++ time_text tm) (sym day))

-- For a time from 1970 on and before the year 2147483648, so long as the year is an `int`, which
-- `gmtime` and `%Y` need, `toString` in the long format writes the digits of a date and a time
-- of the day that are in range, and that stand for exactly this number of seconds since 1970.
pub to_string-seconds :
    (d : DateTime)
    → (tm : Tm) × (to_string d amz_date_format ≡ day_text tm ++ time_text tm)
      × IsDate (civil_of_tm tm)
      × IsTime tm
      × (seconds_of_tm tm ≡ d.time)
to_string-seconds d =
    let (day, stamp) = to_string_lem d in
    let (date, clock, back) = gmtime_lem d.time in
    (gmtime d.time, stamp ∙ ap (λ s. s ++ time_text (gmtime d.time)) day, date, clock, back)

-- The long format is one line.
pub to_string-Lacks_newline : (d : DateTime) → Lacks b'\n' (to_string d amz_date_format)
to_string-Lacks_newline d =
    let tm = gmtime d.time in
    let (day, stamp) = to_string_lem d in
    let digits : Lacks b'\n' (decimal (1900 + tm.tm_year)) =
      decimal-All (λ x. x ≢ b'\n') (λ n e. omega (arith, e)) (1900 + tm.tm_year) in
    subst (Lacks b'\n') (sym (stamp ∙ ap (λ s. s ++ time_text tm) day)) (
      All-append (λ x. x ≢ b'\n') (day_text tm) (time_text tm)
        (All-append (λ x. x ≢ b'\n') (decimal (1900 + tm.tm_year)) _ digits (omega arith))
        (omega arith))
