-- ===== src/MarketHours/Calendar.antt =====
-- What source/shared/utilities/marketHours.cppm uses of the calendar of `std::chrono`: days are
-- counted from 1970-01-01, in the proleptic Gregorian calendar.
use backtesting_engine_cpp.Prelude.{ℕ, ◌+◌, ◌-◌, ◌*◌, ◌/◌, ◌%◌, ltb, if◌then◌else◌}
use backtesting_engine_cpp.Prelude.{ℤ, pos, negsuc, ◌+ℤ◌, ◌-ℤ◌, ◌*ℤ◌}

-- Division toward minus infinity, by a positive divisor, and its remainder.
unfoldable pub floor_div : ℤ → ℕ → ℤ
floor_div (pos n) d = pos (n / d)
floor_div (negsuc n) d = negsuc (n / d)

unfoldable pub floor_mod : ℤ → ℕ → ℕ
floor_mod (pos n) d = n % d
floor_mod (negsuc n) d = d - 1 - n % d

-- `weekday{day}`: 0 is Sunday.
unfoldable pub weekday : ℤ → ℕ
unfolding floor_mod
weekday day = floor_mod (day +ℤ pos 4) 7

-- The era of 400 years in which a day lies, and its day of the era. Years begin in March.
abbrev day_of_era : ℤ → ℕ
day_of_era day = floor_mod (day +ℤ pos 719468) 146097

abbrev year_of_era : ℕ → ℕ
year_of_era doe = (doe - doe / 1460 + doe / 36524 - doe / 146096) / 365

abbrev day_of_year : ℕ → ℕ → ℕ
day_of_year doe yoe = doe - (365 * yoe + yoe / 4 - yoe / 100)

-- `year_month_day{day}.year()`: January and February belong to the next year.
unfoldable pub year_of : ℤ → ℤ
unfolding floor_div floor_mod
year_of day =
    let doe = day_of_era day in
    let yoe = year_of_era doe in
    floor_div (day +ℤ pos 719468) 146097 *ℤ pos 400
    +ℤ pos yoe
    +ℤ pos (if ltb ((5 * day_of_year doe yoe + 2) / 153) 10 then 0 else 1)

-- The day of year/month/1, for a month from March on, counted from March as 0.
unfoldable pub first_of_month : ℤ → ℕ → ℤ
unfolding floor_div floor_mod
first_of_month year march_month =
    let yoe = floor_mod year 400 in
    let doy = (153 * march_month + 2) / 5 in
    floor_div year 400 *ℤ pos 146097 +ℤ pos (yoe * 365 + yoe / 4 - yoe / 100 + doy) -ℤ pos 719468

-- `year_month_weekday{y, m, Sunday[n]}`: the n-th Sunday of the month.
unfoldable pub nth_sunday : ℤ → ℕ → ℕ → ℤ
unfolding first_of_month weekday
nth_sunday year march_month n =
    let first = first_of_month year march_month in
    first +ℤ pos ((7 - weekday first) % 7 + 7 * (n - 1))

-- `year_month_weekday_last{y, m, Sunday[last]}`, for a month of `days` days.
unfoldable pub last_sunday : ℤ → ℕ → ℕ → ℤ
unfolding first_of_month weekday
last_sunday year march_month days =
    let last = first_of_month year march_month +ℤ pos (days - 1) in last -ℤ pos (weekday last)
