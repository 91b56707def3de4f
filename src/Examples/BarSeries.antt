-- ===== src/Examples/BarSeries.antt =====
-- Bars of a few ticks, the entry gate, the symbol tables and a summary.
use backtesting_engine_cpp.Prelude.{
  ◌+◌, ◌^◌, ◌≡◌, ◌↔◌, sym, ap, ◌∙◌, refl, true, false, not, ◌||◌, some, List, [], ◌∷◌, ok,
  invalid_argument, ◌⊎◌, arith,
}
use backtesting_engine_cpp.Prelude.{
  ℤ, pos, ◌+ℤ◌, ◌-ℤ◌, ◌*ℤ◌, ◌/ℤ◌, ◌≤ℤ◌, ◌<ℤ◌, ltb_ℤ, eqb_ℤ, to_int32, max_ℤ, abs_ℤ, clamp_ℤ,
}
use backtesting_engine_cpp.MarketHours.{session_for, trade_permitted}
use backtesting_engine_cpp.MarketHours.Universe.{is_known, session_for-get, trade_permitted-get}
use backtesting_engine_cpp.SymbolScale.{k_unknown, get, find_entry, Lookup, get-Lookup}
use backtesting_engine_cpp.Search.{search}
use backtesting_engine_cpp.Search.Texts.{str_lt}
use backtesting_engine_cpp.Trading.TradeManager.{new_manager}
use backtesting_engine_cpp.Bars.Ohlc.{OhlcObject}
use backtesting_engine_cpp.Bars.Ohlc.Groups.{build, summaries, groups, build-groups}
use backtesting_engine_cpp.Bars.RangeBar.{
  RangeBarSpec, is_malformed, new_series, initial_series, window_range, apply_ticks,
}
use backtesting_engine_cpp.Bars.RangeBar.Measure.{IsRange, asks, window_range-IsRange}
use backtesting_engine_cpp.Bars.RangeBar.Slide.{last_of}
use backtesting_engine_cpp.Bars.Store.{
  BarStore, SeriesSpec, empty_store, merge_spec, register_series, update, find,
}
use backtesting_engine_cpp.Bars.Store.Registered.{
  IsRegistered, empty_store-IsRegistered, register_series-IsRegistered, update-IsRegistered,
}
use backtesting_engine_cpp.Bars.Atr
use backtesting_engine_cpp.Bars.Conditions.{
  Distances, distances_for, gate_series_for, gate_series_for-register, check,
}
use backtesting_engine_cpp.Bars.Conditions.Admission.{Admits, check-Admits}
use backtesting_engine_cpp.Reporting.Summary.{collect}
use backtesting_engine_cpp.Reporting.Summary.Totals.{collect_counts}
use backtesting_engine_cpp.Examples.Inputs.{whole_numbers, no_rows, opening, rising, falling, day}

get_example : Lookup "EURUSD"
get_example = get-Lookup "EURUSD"

-- Bars of a minute.
build-groups_example :
    build no_rows (pos 60000000) [] day ≡ ok (summaries (groups (pos 60000000) day))
build-groups_example = build-groups no_rows (pos 60000000) (omega arith) day

abbrev two_ticks : RangeBarSpec
two_ticks = record { atr_tick_window = pos 2; atr_percent = pos 50; count = pos 10 }

window_range_example :
    IsRange (last_of 2 (asks day)) (window_range (apply_ticks (initial_series two_ticks) day))
window_range_example =
    window_range-IsRange two_ticks (initial_series two_ticks) opening (rising ∷ falling ∷ [])
      (unfold new_series in refl) (omega arith)

register_series_example :
    ((register_series empty_store (pos 5) (pos 20) ≡ invalid_argument)
      × ((ltb_ℤ (pos 5) (pos 1) || ltb_ℤ (pos 20) (pos 1)) ≡ true))
    ⊎ ((store : BarStore) × ((register_series empty_store (pos 5) (pos 20) ≡ ok store)
          × IsRegistered store))
register_series_example =
    register_series-IsRegistered empty_store (pos 5) (pos 20) empty_store-IsRegistered

-- A timeframe and a range series, and a symbol without a history yet.
abbrev two_kinds : BarStore
two_kinds = record {
  specs = record { minutes_per_bar = pos 5; count = pos 20 } ∷ [];
  by_symbol = [];
  range_specs = two_ticks ∷ [];
  range_by_symbol = [];
}

two_kinds-IsRegistered : IsRegistered two_kinds
unfolding is_malformed
two_kinds-IsRegistered = record {
  timeframes = (record { minutes_positive = refl; count_positive = refl }, tt);
  ranges = (refl, tt);
}

update_example :
    (store : BarStore) × ((update no_rows two_kinds opening ≡ ok store) × IsRegistered store)
update_example = update-IsRegistered no_rows opening two_kinds two_kinds-IsRegistered

-- Twelve bars that each range over 40 points.
abbrev bar : OhlcObject
bar = record {
  date = pos 0;
  open_price = pos 110000;
  close = pos 110000;
  high = pos 110020;
  low = pos 109980;
  complete = true;
}

abbrev twelve_bars : List OhlcObject
twelve_bars = bar ∷ bar ∷ bar ∷ bar ∷ bar ∷ bar ∷ bar ∷ bar ∷ bar ∷ bar ∷ bar ∷ bar ∷ []

abbrev warm_store : BarStore
warm_store = record {
  specs = record { minutes_per_bar = pos 5; count = pos 20 } ∷ [];
  by_symbol = ("EURUSD", twelve_bars ∷ []) ∷ [];
  range_specs = [];
  range_by_symbol = [];
}

abbrev five_minutes : SeriesSpec
five_minutes = record { minutes_per_bar = pos 5; count = pos 20 }

gate_series_example :
    (register_series empty_store (pos 15) (pos 11)
      ≡ ok (record empty_store { specs = merge_spec (pos 15) (pos 11) empty_store.specs }))
    × (pos 11 ≤ℤ pos 11)
unfolding gate_series_for ◌+ℤ◌
gate_series_example =
    gate_series_for-register empty_store (record { ohlc_minutes = pos 0; ohlc_count = pos 0 } ∷ [])

abbrev wide : Distances
wide = record { stop_pips = pos 12; limit_pips = pos 24 }

points : get "EURUSD" ≡ pos 10
unfolding get find_entry search str_lt
points = refl

gate_open : check warm_store five_minutes opening (pos 3) (pos 6) ≡ some wide
unfolding check get find_entry search str_lt find Atr.calculate distances_for to_int32 ◌+ℤ◌ ◌-ℤ◌
    ◌*ℤ◌ ◌/ℤ◌ max_ℤ abs_ℤ clamp_ℤ
gate_open = refl

some_inj : {A : Type 0} {a b : A} → some a ≡ some b → a ≡ b
some_inj e = ground arith

ok_inj : {A : Type 0} {a b : A} → ok a ≡ ok b → a ≡ b
ok_inj e = ground arith

-- The history's ATR is 40 points.
warm_store-small :
    (candles : List OhlcObject) (atr_points : ℤ)
    → find warm_store "EURUSD" (pos 5) ≡ some candles
    → Atr.calculate candles (pos 10) ≡ ok atr_points
    → (atr_points *ℤ pos 3 <ℤ pos (2 ^ 31)) × (atr_points *ℤ pos 6 <ℤ pos (2 ^ 31))
unfolding find Atr.calculate max_ℤ abs_ℤ ◌+ℤ◌ ◌-ℤ◌ ◌*ℤ◌ ◌/ℤ◌ to_int32
warm_store-small candles atr_points f g =
    let there : find warm_store "EURUSD" (pos 5) ≡ some twelve_bars = refl in
    let h : twelve_bars ≡ candles = some_inj (sym there ∙ f) in
    let a : Atr.calculate twelve_bars (pos 10) ≡ ok (pos 40) = refl in
    let same : pos 40 ≡ atr_points =
      ok_inj (sym a ∙ (ap (λ (bars : List OhlcObject). Atr.calculate bars (pos 10)) h ∙ g)) in
    rw (← same) (omega arith)

check_example :
    (check warm_store five_minutes opening (pos 3) (pos 6) ≡ some wide)
    ↔ Admits warm_store five_minutes opening (pos 3) (pos 6) wide
check_example = check-Admits warm_store five_minutes opening (pos 3) (pos 6) wide warm_store-small

collect_example :
    let s = collect whole_numbers (new_manager (pos 0)) (pos 200) (pos 1) (pos 10) in
    (s.opened_long + s.opened_short ≡ s.trades_opened)
    × (s.counts.closed_long + s.counts.closed_short ≡ s.trades_closed)
    × (s.counts.winners + s.counts.losers + s.counts.breakeven + s.counts.unmeasured
        ≡ s.trades_closed)
collect_example = collect_counts whole_numbers (new_manager (pos 0)) (pos 200) (pos 1) (pos 10)

session_for_example : is_known (session_for "GBPJPY") ≡ not (eqb_ℤ (get "GBPJPY") k_unknown)
session_for_example = session_for-get "GBPJPY"

no_scale : eqb_ℤ (get "BTCUSD") k_unknown ≡ true
unfolding get find_entry search str_lt
no_scale = refl

trade_permitted_example : trade_permitted "BTCUSD" (pos 36000000000) ≡ false
trade_permitted_example = trade_permitted-get "BTCUSD" (pos 36000000000) no_scale
