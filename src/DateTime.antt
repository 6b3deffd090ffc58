-- ===== src/DateTime.antt =====
-- datetime.h and datetime.cpp, with the parts of <ctime> that they use. The clock is in `Session`.
pub mod Calendar
pub mod Stamp
pub mod Distinct
use minioclient_cpp.Base.{
  ℕ, ◌+◌, ◌-◌, ◌*◌, ◌/◌, ◌%◌, true, false, [], ◌∷◌, ◌++◌, ltb, eqb, if◌then◌else◌, length, ◌<◌,
}
use minioclient_cpp.Text.{Str, str}
use minioclient_cpp.Text.Decimal.{decimal}

-- `DateFormat::Format`
pub data Format : Type 0 where
  signer_date_format amz_date_format : Format

-- The first second of the year 2147483648. From there on the year is no `int`: `strftime` cannot
-- print it, and soon `std::gmtime` gives NULL.
abbrev pub time_limit : ℕ
time_limit = 67767976233532800

-- `time_`: the seconds since 1970, which `std::time` gives, in the range that can be printed. A
-- clock before 1970 or after this range is not modelled.
pub record DateTime : Type 0 where
  pub time : ℕ
  pub fits : time < time_limit

-- The fields of `struct tm` that the formats use.
pub record Tm : Type 0 where
  pub tm_year : ℕ
  pub tm_mon : ℕ
  pub tm_mday : ℕ
  pub tm_hour : ℕ
  pub tm_min : ℕ
  pub tm_sec : ℕ

-- The Gregorian date of a day, counted from 1970-01-01. Inside, years begin in March, and an era
-- has 400 years: `doe` is the day of the era, `yoe` its year, `doy` the day of that year.
pub record Civil : Type 0 where
  pub year : ℕ
  pub month : ℕ
  pub day : ℕ

abbrev pub year_of_era : ℕ → ℕ
year_of_era doe = (doe - doe / 1460 + doe / 36524 - doe / 146096) / 365

abbrev pub day_of_year : ℕ → ℕ → ℕ
day_of_year doe yoe = doe - (365 * yoe + yoe / 4 - yoe / 100)

civil_in : ℕ → ℕ → ℕ → Civil
civil_in era yoe doy =
    let mp = (5 * doy + 2) / 153 in
    let month = if ltb mp 10 then mp + 3 else mp - 9 in
    record {
      year = era * 400 + yoe + (if ltb month 3 then 1 else 0);
      month = month;
      day = doy - (153 * mp + 2) / 5 + 1;
    }

unfoldable pub civil_of_days : ℕ → Civil
unfolding civil_in
civil_of_days days =
    let z = days + 719468 in
    let doe = z % 146097 in
    let yoe = year_of_era doe in civil_in (z / 146097) yoe (day_of_year doe yoe)

-- `std::gmtime`
unfoldable pub gmtime : ℕ → Tm
unfolding civil_of_days
gmtime t =
    let c = civil_of_days (t / 86400) in
    let s = t % 86400 in
    record {
      tm_year = c.year - 1900;
      tm_mon = c.month - 1;
      tm_mday = c.day;
      tm_hour = s / 3600;
      tm_min = s / 60 % 60;
      tm_sec = s % 60;
    }

abbrev pub two_digits : ℕ → Str
two_digits n = (48 + n / 10 % 10) ∷ (48 + n % 10) ∷ []

-- The conversions of `strftime` that occur in the program's formats.
conversion : ℕ → Tm → Str
conversion c tm =
    if eqb c b'Y'
    then decimal (1900 + tm.tm_year)
    else if eqb c b'm'
    then two_digits (tm.tm_mon + 1)
    else if eqb c b'd'
    then two_digits tm.tm_mday
    else if eqb c b'H'
    then two_digits tm.tm_hour
    else if eqb c b'M'
    then two_digits tm.tm_min
    else if eqb c b'S'
    then two_digits tm.tm_sec
    else b'%' ∷ c ∷ []

expand : Str → Tm → Str
unfolding conversion
expand [] tm = []
expand (c ∷ []) tm = c ∷ []
expand (c ∷ d ∷ rest) tm = elim (eqb c b'%') [
  | true ↦ conversion d tm ++ expand rest tm
  | false ↦ c ∷ expand (d ∷ rest) tm
]

-- `std::strftime` into a buffer of `size` bytes, whose last holds the final zero: what the buffer
-- then holds, or the empty text where it returns 0.
unfoldable pub strftime : ℕ → Str → Tm → Str
unfolding expand
strftime size format tm = let s = expand format tm in if ltb (length s) size then s else []

abbrev pub format_text : Format → Str
format_text signer_date_format = str "%Y%m%d"
format_text amz_date_format = str "%Y%m%dT%H%M%SZ"

-- `DateTime::toString`, whose buffer `tstr` has 100 bytes
unfoldable pub to_string : DateTime → Format → Str
unfolding strftime gmtime str decimal
to_string d f = strftime 100 (format_text f) (gmtime d.time)
