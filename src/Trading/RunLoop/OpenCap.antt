-- ===== src/Trading/RunLoop/OpenCap.antt =====
-- The cap on open trades, over a run of source/run/trading/runLoop.cppm.
use backtesting_engine_cpp.Prelude.{ℕ, ◌≤◌, ◌<◌, ◌≡◌, true, Option, List, ok, arith}
use backtesting_engine_cpp.Prelude.{pos, pos_part, ltb_ℤ}
use backtesting_engine_cpp.Bars.Ohlc.{Database}
use backtesting_engine_cpp.Bars.Store.{BarStore, SeriesSpec}
use backtesting_engine_cpp.Reporting.Numbers.{Numbers}
use backtesting_engine_cpp.Trading.Models.{TimePoint, PriceData}
use backtesting_engine_cpp.Trading.TradeManager.{TradeManager, review_account, mark_to_market}
use backtesting_engine_cpp.Trading.TradeManager.Tally.{
  mark_to_market-review_account, close_trade-review_account, open_trade-review_account,
}
use backtesting_engine_cpp.Trading.ExitRules.Opening.{review_keeps}
use backtesting_engine_cpp.Trading.RunLoop.{
  Strategy, TradingVariables, RiskLimits, LoopState, Outcome, running, stopped, outcome_state,
  below_open_trade_cap, entry_allowed, rate_window, try_entry, manage, revalued, enter_and_manage,
  run_loop,
}
use backtesting_engine_cpp.Bars.Store.Registered.{IsRegistered}
use backtesting_engine_cpp.Trading.TradeManager.Ledger.{IsConsistent}
use backtesting_engine_cpp.Trading.RunLoop.Ending.{IsSoundOutcome, run_loop-IsSound}
use backtesting_engine_cpp.Trading.RunLoop.Entry.{try_entry_cases}
use backtesting_engine_cpp.Trading.RunLoop.Steps.{marked, run_loop-keeps}

module _ (N : Numbers) (limits : RiskLimits N) (db : Database) (strat : Strategy)
    (vars : TradingVariables) (gate : Option SeriesSpec)
    (during_closes : (s : strat.State) (tick : PriceData) (store : BarStore) (m : TradeManager)
      → review_account (strat.during s tick store m).0 ≤ review_account m)
    (active : ltb_ℤ (pos 0) limits.max_open_trades ≡ true) where
  abbrev cap : ℕ
  cap = pos_part limits.max_open_trades

  entry_allowed-below :
      (m : TradeManager) (recent : List TimePoint) (tick : PriceData)
      → entry_allowed N limits m recent tick ≡ true
      → review_account m < cap
  unfolding entry_allowed below_open_trade_cap
  entry_allowed-below m recent tick e = ground arith

  revalued-review_account :
      (m : TradeManager) (tick : PriceData)
      → review_account (revalued N limits db strat vars gate m tick) ≤ review_account m
  unfolding revalued
  revalued-review_account m tick =
      review_keeps (λ m'. review_account m' ≤ review_account m)
        (λ m' s p t l h. omega (arith, h, close_trade-review_account m' s p t l))
        (mark_to_market m tick) tick (omega (arith, mark_to_market-review_account m tick))

  try_entry-capped :
      (st : LoopState strat.State) (tick : PriceData)
      → review_account st.manager ≤ cap
      → review_account (try_entry N limits db strat vars gate st tick).manager ≤ cap
  try_entry-capped st tick h =
      try_entry_cases N limits db strat vars gate tick (λ st'. review_account st'.manager ≤ cap) st
        h (λ s. h)
        λ allowed d side s. omega (
          arith,
          entry_allowed-below st.manager st.recent_opens tick allowed,
          open_trade-review_account st.manager tick vars.trading_size side d.stop_pips d.limit_pips,
        )

  enter_and_manage-capped :
      (st : LoopState strat.State) (tick : PriceData)
      → review_account st.manager ≤ cap
      → review_account (enter_and_manage N limits db strat vars gate st tick).manager ≤ cap
  unfolding enter_and_manage manage
  enter_and_manage-capped st tick h = omega (
    arith,
    during_closes,
    try_entry-capped
        (record st { recent_opens = rate_window N limits tick.timestamp st.recent_opens }) tick h,
  )

  run_loop-capped :
      (ticks : List PriceData) (st st' : LoopState strat.State)
      → review_account st.manager ≤ cap
      → run_loop N limits db strat vars gate st ticks ≡ ok (running st')
      → review_account st'.manager ≤ cap
  run_loop-capped =
      run_loop-keeps N limits db strat vars gate (λ ticks st. review_account st.manager ≤ cap)
        λ tick ticks st store h.
          enter_and_manage-capped (marked N limits db strat vars gate st tick store) tick
            (omega (arith, h, revalued-review_account st.manager tick))

  -- With a positive cap on open trades and a strategy whose `during` opens no trade and keeps the
  -- books consistent, the loop, from consistent books within the cap and a store of accepted specs,
  -- returns over any ticks, and the account is within the cap then.
  pub run_loop-review_account :
      ((s : strat.State) (tick : PriceData) (store : BarStore) (m : TradeManager)
        → IsConsistent m
        → IsConsistent (strat.during s tick store m).0)
      → (ticks : List PriceData) (st : LoopState strat.State) → IsConsistent st.manager
      → IsRegistered st.store
      → review_account st.manager ≤ cap
      → (o : Outcome strat.State) × ((run_loop N limits db strat vars gate st ticks ≡ ok o)
          × (review_account (outcome_state o).manager ≤ cap))
  run_loop-review_account keeps ticks st v w h =
      let (o, r) =
        run_loop-IsSound N limits db strat vars gate keeps ticks st
          (record { books = v; registered = w }) in
      (o, (r.0, by_outcome o r.0 r.1))
    where
      by_outcome :
          (o : Outcome strat.State)
          → run_loop N limits db strat vars gate st ticks ≡ ok o
          → IsSoundOutcome N limits db strat vars gate keeps o
          → review_account (outcome_state o).manager ≤ cap
      by_outcome (running st') e r = run_loop-capped ticks st st' h e
      by_outcome (stopped st') e r = unfold review_account in rw r.flat (omega arith)
