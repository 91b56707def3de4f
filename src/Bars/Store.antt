-- ===== src/Bars/Store.antt =====
-- source/shared/utilities/barStore.cppm: the bar histories of a run, by symbol and timeframe. The
-- maps by symbol are association lists; histories stand in the order of their specs.
pub mod Registered
use backtesting_engine_cpp.Prelude.{
  ℕ, ◌+◌, ◌-◌, Bool, true, false, ◌||◌, Option, none, some, List, [], ◌∷◌, ◌++◌, map, String,
  str_eq, if◌then◌else◌, ltb, length, get_elem?, drop, Result, ok, invalid_argument, ◌>>=◌,
}
use backtesting_engine_cpp.Prelude.{ℤ, pos, pos_part, ltb_ℤ, eqb_ℤ, max_ℤ}
use backtesting_engine_cpp.Trading.Models.{PriceData, minutes}
use backtesting_engine_cpp.Bars.Ohlc.{OhlcObject, Database, calculate_ohlc}
use backtesting_engine_cpp.Bars.RangeBar.{
  RangeBarSpec, RangeSeries, same_identity, is_malformed, new_series,
}
use backtesting_engine_cpp.Bars.RangeBar

pub record SeriesSpec : Type 0 where
  pub minutes_per_bar : ℤ
  pub count : ℤ

pub record BarStore : Type 0 where
  pub specs : List SeriesSpec
  pub by_symbol : List (String × List (List OhlcObject))
  pub range_specs : List RangeBarSpec
  pub range_by_symbol : List (String × List RangeSeries)

unfoldable pub empty_store : BarStore
empty_store = record { specs = []; by_symbol = []; range_specs = []; range_by_symbol = [] }

-- A timeframe registered again keeps the larger count.
unfoldable pub merge_spec : ℤ → ℤ → List SeriesSpec → List SeriesSpec
merge_spec mins count [] = record { minutes_per_bar = mins; count = count } ∷ []
merge_spec mins count (s ∷ specs) =
    if eqb_ℤ s.minutes_per_bar mins
    then record s { count = max_ℤ s.count count } ∷ specs
    else s ∷ merge_spec mins count specs

unfoldable pub register_series : BarStore → ℤ → ℤ → Result BarStore
unfolding merge_spec
register_series store mins count =
    if ltb_ℤ mins (pos 1) || ltb_ℤ count (pos 1)
    then invalid_argument
    else ok (record store { specs = merge_spec mins count store.specs })

unfoldable pub merge_range_spec : RangeBarSpec → List RangeBarSpec → List RangeBarSpec
merge_range_spec spec [] = spec ∷ []
merge_range_spec spec (s ∷ specs) =
    if same_identity s spec
    then record s { count = max_ℤ s.count spec.count } ∷ specs
    else s ∷ merge_range_spec spec specs

unfoldable pub register_range_series : BarStore → RangeBarSpec → Result BarStore
unfolding merge_range_spec
register_range_series store spec =
    if is_malformed spec
    then invalid_argument
    else ok (record store { range_specs = merge_range_spec spec store.range_specs })

-- `find(symbol)` in a map, and the write to a symbol's value, which adds a missing symbol.
module _ {A : Type 0} where
  unfoldable pub lookup_symbol : String → List (String × A) → Option A
  lookup_symbol s [] = none
  lookup_symbol s ((k, a) ∷ m) = if str_eq k s then some a else lookup_symbol s m

  unfoldable pub put_symbol : String → A → List (String × A) → List (String × A)
  put_symbol s a [] = (s, a) ∷ []
  put_symbol s a ((k, b) ∷ m) = if str_eq k s then (k, a) ∷ m else (k, b) ∷ put_symbol s a m

  -- The value of a symbol, or that of a new one.
  unfoldable pub lookup_or : A → String → List (String × A) → A
  unfolding lookup_symbol
  lookup_or d s m = elim (lookup_symbol s m) [ none ↦ d | some a ↦ a ]

-- The rolling window of one history.
unfoldable pub trim : ℤ → List OhlcObject → List OhlcObject
trim count bars =
    let cap = pos_part count in
    if ltb cap (length bars) then drop (length bars - cap) bars else bars

-- The loop over the specs. A history that is not there yet is empty, as after the resize.
unfoldable pub feed_series :
    Database
    → PriceData
    → List SeriesSpec
    → List (List OhlcObject)
    → Result (List (List OhlcObject))
unfolding trim
feed_series db tick [] histories = ok histories
feed_series db tick (s ∷ specs) [] = do
  bars ← calculate_ohlc db tick tick.ask (minutes s.minutes_per_bar) [] s.count
  rest ← feed_series db tick specs []
  ok (trim s.count bars ∷ rest)
feed_series db tick (s ∷ specs) (h ∷ histories) = do
  bars ← calculate_ohlc db tick tick.ask (minutes s.minutes_per_bar) h s.count
  rest ← feed_series db tick specs histories
  ok (trim s.count bars ∷ rest)

-- The loop over the range specs. A series that is not there yet is constructed.
unfoldable pub feed_range_series :
    Database → PriceData → List RangeBarSpec → List RangeSeries → Result (List RangeSeries)
feed_range_series db tick [] series = ok (map (λ r. RangeBar.update db r tick) series)
feed_range_series db tick (s ∷ specs) [] = do
  r ← new_series s
  rest ← feed_range_series db tick specs []
  ok (RangeBar.update db r tick ∷ rest)
feed_range_series db tick (s ∷ specs) (r ∷ series) = do
  rest ← feed_range_series db tick specs series
  ok (RangeBar.update db r tick ∷ rest)

unfoldable pub update_bars : Database → BarStore → PriceData → Result BarStore
unfolding feed_series lookup_or put_symbol
update_bars db store tick = elim store.specs [
  | [] ↦ ok store
  | _ ∷ _ ↦ do
    histories ← feed_series db tick store.specs (lookup_or [] tick.symbol store.by_symbol)
    ok (record store { by_symbol = put_symbol tick.symbol histories store.by_symbol })
]

unfoldable pub update_range_bars : Database → BarStore → PriceData → Result BarStore
unfolding feed_range_series lookup_or put_symbol
update_range_bars db store tick = elim store.range_specs [
  | [] ↦ ok store
  | _ ∷ _ ↦ do
    series ←
        feed_range_series db tick store.range_specs (lookup_or [] tick.symbol store.range_by_symbol)
    ok (record store { range_by_symbol = put_symbol tick.symbol series store.range_by_symbol })
]

-- `BarStore::update`.
unfoldable pub update : Database → BarStore → PriceData → Result BarStore
unfolding update_bars update_range_bars
update db store tick = do store' ← update_bars db store tick; update_range_bars db store' tick

-- The history of a timeframe, which stands where its spec does.
unfoldable pub history_at : ℤ → List SeriesSpec → List (List OhlcObject) → Option (List OhlcObject)
history_at mins [] histories = none
history_at mins (s ∷ specs) [] = none
history_at mins (s ∷ specs) (h ∷ histories) =
    if eqb_ℤ s.minutes_per_bar mins then some h else history_at mins specs histories

unfoldable pub find : BarStore → String → ℤ → Option (List OhlcObject)
unfolding history_at lookup_symbol
find store symbol mins = elim (lookup_symbol symbol store.by_symbol) [
  | none ↦ none
  | some histories ↦ history_at mins store.specs histories
]

unfoldable pub range_at :
    RangeBarSpec → List RangeBarSpec → List RangeSeries → Option (List OhlcObject)
range_at spec [] series = none
range_at spec (s ∷ specs) [] = none
range_at spec (s ∷ specs) (r ∷ series) =
    if same_identity s spec then some r.bars else range_at spec specs series

unfoldable pub find_range : BarStore → String → RangeBarSpec → Option (List OhlcObject)
unfolding range_at lookup_symbol
find_range store symbol spec = elim (lookup_symbol symbol store.range_by_symbol) [
  | none ↦ none
  | some series ↦ range_at spec store.range_specs series
]
