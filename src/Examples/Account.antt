-- ===== src/Examples/Account.antt =====
-- The account on a short history, and its exits.
use backtesting_engine_cpp.Prelude.{◌≡◌, true, false, none, List, [], ◌∷◌, arith}
use backtesting_engine_cpp.Prelude.{pos}
use backtesting_engine_cpp.Trading.Models.{long}
use backtesting_engine_cpp.Trading.TradeManager.{
  TradeManager, new_manager, open_trade, build_trade, close_all_trades,
}
use backtesting_engine_cpp.Trading.TradeManager.Ledger.{
  IsConsistent, new_manager-IsConsistent, open_trade-IsConsistent,
}
use backtesting_engine_cpp.Trading.TradeManager.Liquidation.{
  IsLiquidated, close_all_trades-IsLiquidated,
}
use backtesting_engine_cpp.Trading.TradeManager.History.{
  Call, opens, marks, closes, run, curve, run-new_manager-IsConsistent, run-max_drawdown,
}
use backtesting_engine_cpp.Trading.TradeManager.Curve.{highest, deepest_drop}
use backtesting_engine_cpp.Trading.ExitRules.{check_exit}
use backtesting_engine_cpp.Trading.ExitRules.Opening.{check_exit-build_trade}
use backtesting_engine_cpp.Examples.Inputs.{opening, rising, falling}

-- A long trade that is marked up, then down, and closed.
abbrev history : List Call
history =
    opens opening (pos 2) long (pos 50) (pos 100)
    ∷ marks rising
    ∷ marks falling
    ∷ closes "EURUSD" (pos 109700) falling false
    ∷ []

run-max_drawdown_example :
    ((run (new_manager (pos 0)) history).max_drawdown
      ≡ deepest_drop (pos 0 ∷ curve (new_manager (pos 0)) history))
    × ((run (new_manager (pos 0)) history).peak_equity
        ≡ highest (pos 0) (curve (new_manager (pos 0)) history))
run-max_drawdown_example = run-max_drawdown (pos 0) history

run-IsConsistent_example : IsConsistent (run (new_manager (pos 3)) history)
run-IsConsistent_example = run-new_manager-IsConsistent (pos 3) history

abbrev one_open : TradeManager
one_open = (open_trade (new_manager (pos 0)) opening (pos 2) long (pos 50) (pos 100)).0

close_all_trades_example :
    IsLiquidated one_open (close_all_trades one_open rising true) one_open.active_trades rising true
close_all_trades_example = close_all_trades-IsLiquidated one_open rising true (
    open_trade-IsConsistent (new_manager (pos 0)) opening (pos 2) long (pos 50) (pos 100)
      (new_manager-IsConsistent (pos 0)))

check_exit_example :
    check_exit (build_trade (pos 0) 0 opening (pos 2) long (pos 50) (pos 0)) opening ≡ none
check_exit_example =
    check_exit-build_trade (pos 0) 0 opening (pos 2) (pos 50) (pos 0) (omega arith) (omega arith)
      long
