-- ===== src/Trading/ExitRules.antt =====
-- When a trade is closed: source/run/trading/exitRules.cppm, reviewStopAndLimit.cppm and
-- source/strategies/timeCapExit.cppm.
pub mod Opening
use backtesting_engine_cpp.Prelude.{
  ◌≡◌, Bool, true, false, not, ◌&&◌, ◌||◌, Option, none, some, if◌then◌else◌,
}
use backtesting_engine_cpp.Prelude.{ℤ, pos, ◌-ℤ◌, ltb_ℤ, leb_ℤ, eqb_ℤ}
use backtesting_engine_cpp.Trading.Models.{
  Direction, long, short, PriceData, Trade, by_side, minutes,
}
use backtesting_engine_cpp.Trading.TradeManager.{TradeManager, find_active_trade, close_trade}

-- `distance != 0`: the leg is armed.
abbrev pub armed : ℤ → Bool
armed distance = not (eqb_ℤ distance (pos 0))

-- The two tests of `checkExit` for a direction.
unfoldable pub exit_price : Trade → PriceData → Direction → Option ℤ
exit_price trade tick long =
    if armed trade.stop_distance_pips && leb_ℤ tick.bid trade.stop_price
    then some tick.bid
    else if armed trade.limit_distance_pips && leb_ℤ trade.limit_price tick.bid
    then some tick.bid
    else none
exit_price trade tick short =
    if armed trade.stop_distance_pips && leb_ℤ trade.stop_price tick.ask
    then some tick.ask
    else if armed trade.limit_distance_pips && leb_ℤ tick.ask trade.limit_price
    then some tick.ask
    else none

-- The price at which the tick closes the trade, if it does.
unfoldable pub check_exit : Trade → PriceData → Option ℤ
unfolding exit_price
check_exit trade tick =
    if eqb_ℤ trade.scaling_factor (pos 0) then none else exit_price trade tick trade.direction

unfoldable pub review_stop_and_limit : TradeManager → PriceData → TradeManager
review_stop_and_limit m tick = elim (find_active_trade m tick.symbol) [
  | none ↦ m
  | some trade ↦ elim (check_exit trade tick) [
    | none ↦ m
    | some exit ↦ (close_trade m tick.symbol exit tick false).0
  ]
]

-- `cap` is in minutes. The strategy's exit of a trade that has outlived it.
unfoldable pub close_if_past_cap : PriceData → TradeManager → ℤ → TradeManager × Bool
close_if_past_cap price m cap =
    if leb_ℤ cap (pos 0) then (m, false) else elim (find_active_trade m price.symbol) [
      | none ↦ (m, false)
      | some trade ↦
          if leb_ℤ (price.timestamp -ℤ trade.open_time) (minutes cap) then (m, false) else (
            (close_trade m price.symbol (by_side trade.direction price.bid price.ask) price
                false).0,
            true,
          )
    ]
