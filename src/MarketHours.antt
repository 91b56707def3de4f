-- ===== src/MarketHours.antt =====
-- source/shared/utilities/marketHours.cppm: when a new entry is allowed.
pub mod Calendar
pub mod Permitted
pub mod Universe
use backtesting_engine_cpp.Prelude.{
  ℕ, ◌+◌, ◌*◌, ◌≡◌, refl, ◌≢◌, Bool, true, false, not, ◌&&◌, ◌||◌, List, [], ◌∷◌, String, ltb, leb,
  ◌==◌, if◌then◌else◌, arith,
}
use backtesting_engine_cpp.Prelude.{ℤ, pos, ltb_ℤ, leb_ℤ}
use backtesting_engine_cpp.Search.{
  Outcome, found, absent, stuck, search, is_sorted, Answers, search-Answers,
}
use backtesting_engine_cpp.Search.Texts.{str_lt}
use backtesting_engine_cpp.SymbolScale.{text_order}
use backtesting_engine_cpp.Trading.Models.{TimePoint}
use Calendar.{floor_div, floor_mod, weekday, year_of, first_of_month, nth_sunday, last_sunday}

pub data Session : Type 0 where
  asia europe new_york unknown : Session

abbrev pub k_table : List (String × Session)
k_table =
    ("AUDNZD", asia)
    ∷ ("AUDUSD", asia)
    ∷ ("AUSIDXAUD", asia)
    ∷ ("BRENTCMDUSD", new_york)
    ∷ ("COPPERCMDUSD", new_york)
    ∷ ("DEUIDXEUR", europe)
    ∷ ("EURAUD", asia)
    ∷ ("EURCHF", europe)
    ∷ ("EURGBP", europe)
    ∷ ("EURJPY", asia)
    ∷ ("EURNOK", europe)
    ∷ ("EURUSD", europe)
    ∷ ("FRAIDXEUR", europe)
    ∷ ("GBPJPY", asia)
    ∷ ("GBPUSD", europe)
    ∷ ("GBRIDXGBP", europe)
    ∷ ("HKGIDXHKD", asia)
    ∷ ("JPNIDXJPY", asia)
    ∷ ("LIGHTCMDUSD", new_york)
    ∷ ("NZDUSD", asia)
    ∷ ("USA30IDXUSD", new_york)
    ∷ ("USA500IDXUSD", new_york)
    ∷ ("USATECHIDXUSD", new_york)
    ∷ ("USDCAD", new_york)
    ∷ ("USDCHF", europe)
    ∷ ("USDJPY", asia)
    ∷ ("USDSEK", europe)
    ∷ ("XAGUSD", new_york)
    ∷ ("XAUUSD", new_york)
    ∷ []

pub k_table_sorted : is_sorted text_order k_table ≡ true
unfolding str_lt
k_table_sorted = refl

unfoldable pub session_for : String → Session
unfolding search str_lt
session_for symbol = elim (search text_order k_table symbol) [ found s ↦ s | _ ↦ unknown ]

-- London: from the last Sunday of March to the last Sunday of October.
unfoldable pub is_london_summer : ℤ → Bool
unfolding year_of last_sunday
is_london_summer day =
    let y = year_of day in leb_ℤ (last_sunday y 0 31) day && ltb_ℤ day (last_sunday y 7 31)

-- New York: from the second Sunday of March to the first Sunday of November.
unfoldable pub is_new_york_summer : ℤ → Bool
unfolding year_of nth_sunday
is_new_york_summer day =
    let y = year_of day in leb_ℤ (nth_sunday y 0 2) day && ltb_ℤ day (nth_sunday y 8 1)

-- In microseconds.
abbrev pub hours : ℕ → ℕ
hours n = n * 3600000000

abbrev pub half_hours : ℕ → ℕ
half_hours n = n * 1800000000

-- `sinceMidnight >= open && sinceMidnight < open + hours{3}`
unfoldable pub in_window : ℕ → ℕ → Bool
in_window open_time since_midnight =
    leb open_time since_midnight && ltb since_midnight (open_time + hours 3)

unfoldable pub session_permits : Session → ℤ → ℕ → Bool
unfolding is_london_summer is_new_york_summer in_window
session_permits asia day since_midnight = ltb since_midnight (hours 6)
session_permits europe day since_midnight =
    in_window (if is_london_summer day then hours 7 else hours 8) since_midnight
session_permits new_york day since_midnight =
    in_window ((if is_new_york_summer day then hours 13 else hours 14) + half_hours 1)
      since_midnight
session_permits unknown day since_midnight = false

unfoldable pub trade_permitted : String → TimePoint → Bool
unfolding session_permits session_for floor_div floor_mod weekday
trade_permitted symbol utc_timestamp =
    let day = floor_div utc_timestamp 86400000000 in
    let since_midnight = floor_mod utc_timestamp 86400000000 in
    let dow = weekday day in
    if dow == 0
    then false
    else if dow == 5 && leb (hours 16) since_midnight
    then false
    else if dow == 1 && ltb since_midnight (hours 2)
    then false
    else session_permits (session_for symbol) day since_midnight
