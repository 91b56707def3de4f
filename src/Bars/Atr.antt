-- ===== src/Bars/Atr.antt =====
-- source/shared/utilities/atr.cppm: the average true range of the last bars, in points.
use backtesting_engine_cpp.Prelude.{
  ◌+◌, ◌-◌, ◌/◌, List, [], ◌∷◌, if◌then◌else◌, ltb, length, drop, Result, ok, invalid_argument,
}
use backtesting_engine_cpp.Prelude.{
  ℤ, pos, pos_part, ◌+ℤ◌, ◌-ℤ◌, ◌/ℤ◌, ltb_ℤ, max_ℤ, abs_ℤ, to_int32,
}
use backtesting_engine_cpp.Bars.Ohlc.{OhlcObject}

-- The true range of a bar against the close before it.
unfoldable pub true_range : ℤ → OhlcObject → ℤ
true_range prev_close bar =
    max_ℤ (max_ℤ (bar.high -ℤ bar.low) (abs_ℤ (bar.high -ℤ prev_close)))
      (abs_ℤ (bar.low -ℤ prev_close))

-- The loop, over the bars behind the first.
unfoldable pub sum_true_ranges : ℤ → List OhlcObject → ℤ
unfolding true_range
sum_true_ranges prev_close [] = pos 0
sum_true_ranges prev_close (b ∷ bs) = true_range prev_close b +ℤ sum_true_ranges b.close bs

unfoldable pub sum_behind_first : List OhlcObject → ℤ
unfolding sum_true_ranges
sum_behind_first [] = pos 0
sum_behind_first (b ∷ bs) = sum_true_ranges b.close bs

-- The loop reads the last period + 1 candles.
unfoldable pub calculate : List OhlcObject → ℤ → Result ℤ
unfolding sum_behind_first
calculate candles period =
    let n = pos_part period in
    if ltb_ℤ period (pos 1)
    then invalid_argument
    else if ltb (length candles) (n + 1)
    then ok (pos 0)
    else ok (
        to_int32 ((sum_behind_first (drop (length candles - (n + 1)) candles) +ℤ pos (n / 2)) /ℤ n))
