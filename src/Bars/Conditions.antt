-- ===== src/Bars/Conditions.antt =====
-- source/strategies/conditions/entryConditions.cppm: the ATR gate of an entry.
pub mod Admission
use backtesting_engine_cpp.Prelude.{
  ℕ, ◌≡◌, refl, subst, List, [], ◌∷◌, inl, inr, Bool-cases, false, ◌||◌, Option, none, some,
  if◌then◌else◌, Result, ok, invalid_argument, arith,
}
use backtesting_engine_cpp.Prelude.{
  ℤ, pos, pos_part, ◌+ℤ◌, ◌-ℤ◌, ◌*ℤ◌, ◌/ℤ◌, ◌≤ℤ◌, ◌<ℤ◌, ltb_ℤ, leb_ℤ, eqb_ℤ, max_ℤ, clamp_ℤ,
  clamp_ℤ_bounds, to_int32,
}
use backtesting_engine_cpp.SymbolScale
use backtesting_engine_cpp.Trading.Models.{PriceData}
use backtesting_engine_cpp.Bars.Store.{BarStore, SeriesSpec, merge_spec, register_series}
use backtesting_engine_cpp.Bars.Store
use backtesting_engine_cpp.Bars.Ohlc.{OhlcObject}
use backtesting_engine_cpp.Bars.Atr

-- In whole pips.
pub record Distances : Type 0 where
  pub stop_pips : ℤ
  pub limit_pips : ℤ

abbrev k_atr_period : ℤ
k_atr_period = pos 10

-- The integer fields of an entry of OHLC_VARIABLES.
pub record OhlcVariables : Type 0 where
  pub ohlc_minutes : ℤ
  pub ohlc_count : ℤ

-- The series that the gate reads: the first timeframe, with enough bars for the ATR to warm, or 15
-- minutes where the strategy builds no bars.
unfoldable pub gate_series_for : List OhlcVariables → SeriesSpec
gate_series_for [] = record { minutes_per_bar = pos 15; count = k_atr_period +ℤ pos 1 }
gate_series_for (primary ∷ rest) =
    if leb_ℤ (pos 1) primary.ohlc_minutes
    then record {
      minutes_per_bar = primary.ohlc_minutes;
      count = max_ℤ primary.ohlc_count (k_atr_period +ℤ pos 1);
    }
    else record { minutes_per_bar = pos 15; count = k_atr_period +ℤ pos 1 }

-- Whatever timeframes a strategy has, its gate series is one that the store registers, and has at
-- least 11 bars, one more than the ATR's period.
pub gate_series_for-register :
    (store : BarStore) (vars : List OhlcVariables)
    → let s = gate_series_for vars in
      (register_series store s.minutes_per_bar s.count
        ≡ ok (record store { specs = merge_spec s.minutes_per_bar s.count store.specs }))
      × (pos 11 ≤ℤ s.count)
unfolding gate_series_for register_series max_ℤ ◌+ℤ◌
gate_series_for-register store [] = (refl, omega arith)
gate_series_for-register store (v ∷ vars) = (ground arith, ground arith)

-- The tests of `check` that follow the ATR, for `points_per_pip` points to the pip.
unfoldable pub distances_for : ℕ → ℤ → PriceData → ℤ → ℤ → Option Distances
distances_for points_per_pip atr_points tick stop_multiplier limit_multiplier =
    let stop_points_raw = atr_points *ℤ stop_multiplier in
    let limit_points_raw = atr_points *ℤ limit_multiplier in
    if leb_ℤ atr_points (pos 0)
    then none
    else if ltb_ℤ (atr_points *ℤ pos 3) ((tick.ask -ℤ tick.bid) *ℤ pos 10)
    then none
    else if ltb_ℤ stop_points_raw (pos 10 *ℤ pos points_per_pip)
        || ltb_ℤ limit_points_raw (pos 3 *ℤ pos points_per_pip)
    then none
    else some (record {
      stop_pips = clamp_ℤ (to_int32 (stop_points_raw /ℤ points_per_pip)) (pos 10) (pos 80);
      limit_pips = clamp_ℤ (to_int32 (limit_points_raw /ℤ points_per_pip)) (pos 3) (pos 300);
    })

-- The period is a positive constant, so `atr::calculate` does not throw. The points per pip of a
-- known symbol are positive.
unfoldable pub check : BarStore → SeriesSpec → PriceData → ℤ → ℤ → Option Distances
unfolding distances_for
check store gate_series tick stop_multiplier limit_multiplier =
    if eqb_ℤ (SymbolScale.get tick.symbol) SymbolScale.k_unknown
    then none
    else elim (Store.find store tick.symbol gate_series.minutes_per_bar) [
      | none ↦ none
      | some candles ↦ elim (Atr.calculate candles k_atr_period) [
        | invalid_argument ↦ none
        | ok atr_points ↦
            distances_for (pos_part (SymbolScale.get tick.symbol)) atr_points tick stop_multiplier
              limit_multiplier
      ]
    ]
