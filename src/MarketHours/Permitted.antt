-- ===== src/MarketHours/Permitted.antt =====
-- Tests of the calendar and the filter at dates that tests/marketHours.cpp pins.
use backtesting_engine_cpp.Prelude.{◌≡◌, refl}
use backtesting_engine_cpp.Prelude.{pos, ◌+ℤ◌, ◌-ℤ◌, ◌*ℤ◌}
use backtesting_engine_cpp.MarketHours.Calendar.{year_of, last_sunday, nth_sunday}

-- 2026-03-29 is day 20541, a Sunday.
london_start : last_sunday (pos 2026) 0 31 ≡ pos 20541
unfolding last_sunday ◌+ℤ◌ ◌-ℤ◌ ◌*ℤ◌
london_start = refl

year_2026 : year_of (pos 20454) ≡ pos 2026
unfolding year_of ◌+ℤ◌ ◌-ℤ◌ ◌*ℤ◌
year_2026 = refl

year_2025 : year_of (pos 20453) ≡ pos 2025
unfolding year_of ◌+ℤ◌ ◌-ℤ◌ ◌*ℤ◌
year_2025 = refl

new_york_end : nth_sunday (pos 2026) 8 1 ≡ pos 20758
unfolding nth_sunday ◌+ℤ◌ ◌-ℤ◌ ◌*ℤ◌
new_york_end = refl
