-- ===== src/Bars/Ohlc.antt =====
-- source/shared/models/ohlcObject.cppm and source/shared/utilities/ohlcBuilder.cppm: time bars,
-- built tick by tick. The warm-up rows come from the database, which is a parameter.
pub mod Groups
use mathlib.Core.List.{reverse}
use backtesting_engine_cpp.Prelude.{
  ℕ, ◌+◌, ◌*◌, ◌/◌, ◌≡◌, Bool, true, false, not, ◌||◌, Option, none, some, List, [], ◌∷◌, ◌++◌,
  String, if◌then◌else◌, Result, ok, invalid_argument,
}
use backtesting_engine_cpp.Prelude.{ℤ, pos, pos_part, ◌+ℤ◌, ◌-ℤ◌, ◌*ℤ◌, ltb_ℤ, leb_ℤ, eqb_ℤ}
use backtesting_engine_cpp.SymbolScale
use backtesting_engine_cpp.Trading.Models.{TimePoint, PriceData}

pub record OhlcObject : Type 0 where
  pub date : TimePoint
  pub open_price : ℤ
  pub close : ℤ
  pub high : ℤ
  pub low : ℤ
  pub complete : Bool

-- QuestDB and the `OHLC_PREPOPULATE` switch. `ohlc_rows` gets the table, the two bounds of the
-- query in microseconds, the bar minutes and the limit, and answers the rows newest first, or none
-- where the connection, the query or the parsing throws. `tick_rows` gets the table, the upper
-- bound and the limit.
pub record Database : Type 0 where
  pub prepopulate : Bool
  pub ohlc_rows : String → ℤ → ℤ → ℕ → ℕ → Option (List OhlcObject)
  pub tick_rows : String → ℤ → ℕ → Option (List PriceData)

-- `bars.back().complete = false`, on no bars nothing.
unfoldable pub reopen_last : List OhlcObject → List OhlcObject
reopen_last [] = []
reopen_last (b ∷ []) = record b { complete = false } ∷ []
reopen_last (b ∷ c ∷ bs) = b ∷ reopen_last (c ∷ bs)

-- The lower bound of `prepopulateQuery`, in microseconds.
unfoldable pub from_micros : TimePoint → ℕ → ℕ → ℤ
from_micros before bar_minutes count =
    before -ℤ pos (((bar_minutes * count + 1439) / 1440 * 6 + 10) * 86400000000)

-- The two tests before the symbol's make `bar_minutes` and `count` positive.
unfoldable pub prepopulate_ohlc : Database → String → TimePoint → ℤ → ℤ → List OhlcObject
unfolding reopen_last
prepopulate_ohlc db symbol before bar_minutes count =
    if leb_ℤ count (pos 0) || ltb_ℤ bar_minutes (pos 1)
    then []
    else if not db.prepopulate
    then []
    else if eqb_ℤ (SymbolScale.get symbol) SymbolScale.k_unknown
    then []
    else elim (db.ohlc_rows symbol (from_micros before (pos_part bar_minutes) (pos_part count))
        before (pos_part bar_minutes) (pos_part count)) [
          | none ↦ []
          | some rows ↦ reopen_last (reverse rows)
        ]

-- The bar that a tick opens.
unfoldable pub fresh_bar : PriceData → ℤ → OhlcObject
fresh_bar tick price = record {
  date = tick.timestamp;
  open_price = price;
  close = price;
  high = price;
  low = price;
  complete = false;
}

-- The end of `calculateOHLC`: the price enters the bar in progress.
unfoldable pub absorb : ℤ → OhlcObject → OhlcObject
absorb price bar = record bar {
  high = if ltb_ℤ bar.high price then price else bar.high;
  low = if ltb_ℤ price bar.low then price else bar.low;
  close = price;
}

-- What becomes of the last bar: it takes the price, or it is finished and a new bar does.
unfoldable pub roll : PriceData → ℤ → ℤ → OhlcObject → List OhlcObject
roll tick price duration bar =
    if ltb_ℤ duration (tick.timestamp -ℤ bar.date)
    then record bar { complete = true } ∷ absorb price (fresh_bar tick price) ∷ []
    else absorb price bar ∷ []

unfoldable pub over_last : (OhlcObject → List OhlcObject) → List OhlcObject → List OhlcObject
over_last f [] = []
over_last f (b ∷ []) = f b
over_last f (b ∷ c ∷ bs) = b ∷ over_last f (c ∷ bs)

-- The seed of an empty list: the warm-up rows if there are any, else the tick's own bar.
-- `duration` is in microseconds, and positive where this is called.
unfoldable pub seed_bars : Database → PriceData → ℤ → ℤ → ℤ → List OhlcObject → List OhlcObject
seed_bars db tick price duration prepopulate_count (b ∷ bs) = b ∷ bs
seed_bars db tick price duration prepopulate_count [] =
    elim (if ltb_ℤ (pos 0) prepopulate_count
      then prepopulate_ohlc db tick.symbol tick.timestamp (pos (pos_part duration / 60000000))
          prepopulate_count
      else []) [ [] ↦ fresh_bar tick price ∷ [] | b ∷ bs ↦ b ∷ bs ]

unfoldable pub calculate_ohlc :
    Database → PriceData → ℤ → ℤ → List OhlcObject → ℤ → Result (List OhlcObject)
unfolding over_last roll seed_bars
calculate_ohlc db tick price duration bars prepopulate_count =
    if leb_ℤ duration (pos 0)
    then invalid_argument
    else ok (
        over_last (roll tick price duration)
          (seed_bars db tick price duration prepopulate_count bars))
