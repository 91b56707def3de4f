-- ===== src/Bars/RangeBar.antt =====
-- source/shared/utilities/rangeBarBuilder.cppm: bars that close when the price has travelled a
-- threshold, locked as the bar opens from the range of the last ticks.
pub mod Slide
pub mod Measure
use mathlib.Core.List.{reverse}
use backtesting_engine_cpp.Prelude.{
  ℕ, ◌+◌, ◌-◌, ◌*◌, ◌/◌, ◌≡◌, Bool, true, false, not, ◌&&◌, ◌||◌, Option, none, some, List, [], ◌∷◌,
  ◌++◌, String, if◌then◌else◌, ltb, leb, min, length, drop, Result, ok, invalid_argument,
}
use backtesting_engine_cpp.Prelude.{
  ℤ, pos, pos_part, ◌+ℤ◌, ◌-ℤ◌, ◌*ℤ◌, ◌/ℤ◌, ltb_ℤ, leb_ℤ, eqb_ℤ, max_ℤ, to_int32, wrap64,
}
use backtesting_engine_cpp.SymbolScale
use backtesting_engine_cpp.Trading.Models.{TimePoint, PriceData}
use backtesting_engine_cpp.Bars.Ohlc.{OhlcObject, Database, fresh_bar, absorb, over_last}
use backtesting_engine_cpp.Bars.Window.{Entry, push_back, pop_front_while}

pub record RangeBarSpec : Type 0 where
  pub atr_tick_window : ℤ
  pub atr_percent : ℤ
  pub count : ℤ

unfoldable pub same_identity : RangeBarSpec → RangeBarSpec → Bool
same_identity a b = eqb_ℤ a.atr_tick_window b.atr_tick_window && eqb_ℤ a.atr_percent b.atr_percent

-- A field below 1, where the constructor throws and the warm-up gives up.
unfoldable pub is_malformed : RangeBarSpec → Bool
is_malformed spec =
    ltb_ℤ spec.atr_tick_window (pos 1) || ltb_ℤ spec.atr_percent (pos 1) || ltb_ℤ spec.count (pos 1)

abbrev pub k_max_prepopulate_ticks : ℕ
k_max_prepopulate_ticks = 1000000

-- The limit of the warm-up query, for fields that are at least 1.
unfoldable pub prepopulate_tick_cap : RangeBarSpec → ℕ
prepopulate_tick_cap spec =
    let window = pos_part spec.atr_tick_window in
    let ticks_per_bar = (window * pos_part spec.atr_percent + 99) / 100 in
    min (window + 2 * pos_part spec.count * ticks_per_bar) k_max_prepopulate_ticks

unfoldable pub prepopulate_ticks : Database → String → TimePoint → RangeBarSpec → List PriceData
prepopulate_ticks db symbol before spec =
    if is_malformed spec
    then []
    else if not db.prepopulate
    then []
    else if eqb_ℤ (SymbolScale.get symbol) SymbolScale.k_unknown
    then []
    else elim (db.tick_rows symbol before (prepopulate_tick_cap spec)) [
      | none ↦ []
      | some rows ↦ reverse rows
    ]

-- `bars_` is chronological; the deques have their front first.
pub record RangeSeries : Type 0 where
  pub spec : RangeBarSpec
  pub bars : List OhlcObject
  pub max_deque : List (Entry ℕ)
  pub min_deque : List (Entry ℕ)
  pub tick_index : ℕ
  pub locked_threshold : ℤ
  pub prepopulate_attempted : Bool

-- The member initializers.
unfoldable pub initial_series : RangeBarSpec → RangeSeries
initial_series spec = record {
  spec = spec;
  bars = [];
  max_deque = [];
  min_deque = [];
  tick_index = 0;
  locked_threshold = pos 0;
  prepopulate_attempted = false;
}

-- The constructor.
unfoldable pub new_series : RangeBarSpec → Result RangeSeries
unfolding is_malformed
new_series spec = if is_malformed spec then invalid_argument else ok (initial_series spec)

-- `static_cast<std::uint64_t>(spec_.atrTickWindow)`, which the constructor has made positive.
abbrev pub window : RangeSeries → ℕ
window r = pos_part r.spec.atr_tick_window

unfoldable pub warm : RangeSeries → Bool
warm r = leb (window r) r.tick_index

-- The front prices apart, 0 before any tick.
unfoldable pub deque_range : List (Entry ℕ) → List (Entry ℕ) → ℤ
deque_range [] _ = pos 0
deque_range (hi ∷ _) [] = pos 0
deque_range (hi ∷ _) (lo ∷ _) = hi.price -ℤ lo.price

unfoldable pub window_range : RangeSeries → ℤ
unfolding deque_range
window_range r = deque_range r.max_deque r.min_deque

-- An older entry goes when the new price is at least as high (max), or as low (min).
abbrev pub max_passes : ℤ → ℤ → Bool
max_passes old new = leb_ℤ old new

abbrev pub min_passes : ℤ → ℤ → Bool
min_passes old new = leb_ℤ new old

-- One deque over a tick of index `index`. The entry just pushed never expires, so that the loops
-- of the source, which do not test for an empty deque, stop.
unfoldable pub feed_deque : (ℤ → ℤ → Bool) → ℕ → ℕ → ℤ → List (Entry ℕ) → List (Entry ℕ)
feed_deque passes w index price deque =
    pop_front_while (λ i. leb (wrap64 (i + w)) index)
      (push_back passes (record { stamp = index; price = price }) deque)

-- Step (1) of `applyTick`: the window advances.
unfoldable pub advance_window : RangeSeries → PriceData → RangeSeries
unfolding feed_deque
advance_window r tick =
    let index = wrap64 (r.tick_index + 1) in
    record r {
      tick_index = index;
      max_deque = feed_deque max_passes (window r) index tick.ask r.max_deque;
      min_deque = feed_deque min_passes (window r) index tick.ask r.min_deque;
    }

-- `bars_.empty() || bars_.back().complete`
unfoldable pub needs_bar : List OhlcObject → Bool
needs_bar [] = true
needs_bar (b ∷ []) = b.complete
needs_bar (b ∷ c ∷ bs) = needs_bar (c ∷ bs)

-- The threshold of a bar that opens now.
unfoldable pub threshold : RangeSeries → ℤ
threshold r = to_int32 (max_ℤ (pos 1) ((window_range r *ℤ r.spec.atr_percent +ℤ pos 50) /ℤ 100))

-- The price enters the bar in progress, and completes it at the threshold.
unfoldable pub breach : ℤ → ℤ → OhlcObject → OhlcObject
breach locked price bar =
    let bar' = absorb price bar in
    if leb_ℤ locked (bar'.high -ℤ bar'.low) then record bar' { complete = true } else bar'

-- Step (2).
unfoldable pub advance_bars : RangeSeries → PriceData → RangeSeries
unfolding needs_bar threshold breach
advance_bars r tick =
    if needs_bar r.bars
    then record r { locked_threshold = threshold r; bars = r.bars ++ fresh_bar tick tick.ask ∷ [] }
    else record r { bars = over_last (λ b. breach r.locked_threshold tick.ask b ∷ []) r.bars }

-- Step (3).
unfoldable pub trim_bars : RangeSeries → RangeSeries
trim_bars r =
    let cap = pos_part r.spec.count in
    if ltb cap (length r.bars) then record r { bars = drop (length r.bars - cap) r.bars } else r

unfoldable pub apply_tick : RangeSeries → PriceData → RangeSeries
unfolding advance_window advance_bars trim_bars warm
apply_tick r tick =
    let r' = advance_window r tick in if warm r' then trim_bars (advance_bars r' tick) else r'

unfoldable pub apply_ticks : RangeSeries → List PriceData → RangeSeries
unfolding apply_tick
apply_ticks r [] = r
apply_ticks r (t ∷ ts) = apply_ticks (apply_tick r t) ts

-- `RangeSeries::update`: the first call replays the warm-up ticks before its own.
unfoldable pub update : Database → RangeSeries → PriceData → RangeSeries
unfolding apply_ticks
update db r tick =
    if r.prepopulate_attempted
    then apply_tick r tick
    else apply_tick
        (apply_ticks (record r { prepopulate_attempted = true })
          (prepopulate_ticks db tick.symbol tick.timestamp r.spec))
        tick
