-- ===== src/Trading/RunLoop.antt =====
-- source/run/trading/runLoop.cppm: the backtest of one strategy over a list of ticks. The
-- strategy, the database and the two kinds of numbers are parameters.
pub mod Entry
pub mod Ending
pub mod Steps
pub mod OpenCap
pub mod RateCap
use backtesting_engine_cpp.Prelude.{
  ℕ, ◌+◌, ◌≡◌, Bool, true, false, not, ◌&&◌, ◌||◌, Option, none, some, List, [], ◌∷◌, ◌++◌,
  if◌then◌else◌, ltb, leb, length, Result, ok, ◌>>=◌,
}
use backtesting_engine_cpp.Prelude.{ℤ, pos, pos_part, ◌+ℤ◌, ◌-ℤ◌, ◌*ℤ◌, ltb_ℤ, leb_ℤ, max_ℤ}
use backtesting_engine_cpp.MarketHours.{trade_permitted}
use backtesting_engine_cpp.Bars.Ohlc.{Database}
use backtesting_engine_cpp.Bars.Store.{BarStore, SeriesSpec}
use backtesting_engine_cpp.Bars.Store
use backtesting_engine_cpp.Bars.Conditions.{Distances}
use backtesting_engine_cpp.Bars.Conditions
use backtesting_engine_cpp.Reporting.Numbers.{Numbers}
use backtesting_engine_cpp.Reporting.Summary.{collect}
use backtesting_engine_cpp.Trading.Models.{TimePoint, Direction, PriceData, minutes}
use backtesting_engine_cpp.Trading.TradeManager.{
  TradeManager, open_trade, mark_to_market, close_all_trades, review_account,
  has_active_trade_for_symbol, calculate_pnl, unrealized_pnl,
}
use backtesting_engine_cpp.Trading.ExitRules.{review_stop_and_limit}

-- `IStrategy`, with the state that its methods may change.
pub record Strategy : Type 1 where
  pub State : Type 0
  pub decide : State → PriceData → BarStore → Option Direction × State
  pub during : State → PriceData → BarStore → TradeManager → TradeManager × State

-- The integer fields of `TradingVariables`.
pub record TradingVariables : Type 0 where
  pub stop_distance_in_atr : ℤ
  pub limit_distance_in_atr : ℤ
  pub trading_size : ℤ

pub data RunStatus : Type 0 where
  completed loss_limit_breached underperformed : RunStatus

pub record RiskLimits (N : Numbers) : Type 0 where
  pub starting_balance : N.Decimal
  pub max_loss_percent : N.Decimal
  pub max_open_trades : ℤ
  pub max_trades_per_minute : ℤ
  pub peak_hours_only : Bool
  pub points_per_pip : ℤ
  pub min_performance_score : N.Decimal
  pub min_decisive_trades : ℤ
  pub last_months : ℤ

-- The eviction from the front of `recentOpens`: entries that are a minute old have aged out.
unfoldable pub evict : TimePoint → List TimePoint → List TimePoint
evict now [] = []
evict now (t ∷ ts) = if leb_ℤ (minutes (pos 1)) (now -ℤ t) then evict now ts else t ∷ ts

unfoldable pub last_tick : List PriceData → Option PriceData
last_tick [] = none
last_tick (t ∷ []) = some t
last_tick (t ∷ u ∷ ts) = last_tick (u ∷ ts)

-- `closeAllTrades(ticks.back(), liquidated)` where there is a last tick.
unfoldable pub close_at_end : TradeManager → Option PriceData → Bool → TradeManager
close_at_end m none liquidated = m
close_at_end m (some tick) liquidated = close_all_trades m tick liquidated

-- What the loop changes: the account, the bars, the strategy and the rate window.
pub record LoopState (S : Type 0) : Type 0 where
  pub manager : TradeManager
  pub store : BarStore
  pub strategy : S
  pub recent_opens : List TimePoint

-- A tick that breaches the loss limit returns from the function.
pub data Outcome (S : Type 0) : Type 0 where
  stopped : LoopState S → Outcome S
  running : LoopState S → Outcome S

abbrev pub outcome_state : {S : Type 0} → Outcome S → LoopState S
outcome_state (stopped st) = st
outcome_state (running st) = st

module _ (N : Numbers) (limits : RiskLimits N) where
  open N use {of_int, to_int64, mul_dec, div_dec, less_dec, at_most_dec}

  -- The comparison `x > zero`.
  abbrev above_zero : N.Decimal → Bool
  above_zero x = less_dec (of_int (pos 0)) x

  unfoldable pub pnl_floor_points : TradingVariables → ℤ
  pnl_floor_points vars =
      (pos 0
        -ℤ to_int64 (
            mul_dec
              (div_dec (mul_dec limits.starting_balance limits.max_loss_percent) (of_int (pos 100)))
              (of_int limits.points_per_pip)))
      *ℤ max_ℤ (pos 1) vars.trading_size

  unfoldable pub is_breached : TradingVariables → TradeManager → Bool
  unfolding pnl_floor_points
  is_breached vars m =
      above_zero limits.max_loss_percent
      && leb_ℤ (calculate_pnl m +ℤ unrealized_pnl m) (pnl_floor_points vars)

  unfoldable pub below_open_trade_cap : TradeManager → Bool
  below_open_trade_cap m =
      leb_ℤ limits.max_open_trades (pos 0)
      || ltb (review_account m) (pos_part limits.max_open_trades)

  abbrev pub rate_cap_active : Bool
  rate_cap_active = ltb_ℤ (pos 0) limits.max_trades_per_minute

  -- The rate window at a tick, and whether it has room.
  unfoldable pub rate_window : TimePoint → List TimePoint → List TimePoint
  unfolding evict
  rate_window now recent = if rate_cap_active then evict now recent else recent

  unfoldable pub below_trade_rate_cap : List TimePoint → Bool
  below_trade_rate_cap recent =
      not rate_cap_active || ltb (length recent) (pos_part limits.max_trades_per_minute)

  unfoldable pub in_session : PriceData → Bool
  unfolding trade_permitted
  in_session tick = not limits.peak_hours_only || trade_permitted tick.symbol tick.timestamp

  -- The gates that are tested before the strategy is asked.
  unfoldable pub entry_allowed : TradeManager → List TimePoint → PriceData → Bool
  unfolding below_open_trade_cap below_trade_rate_cap has_active_trade_for_symbol
  entry_allowed m recent tick =
      in_session tick
      && (below_open_trade_cap m
          && (below_trade_rate_cap recent && not (has_active_trade_for_symbol m tick.symbol)))

  -- The performance gate at the end of a run that survived its ticks.
  unfoldable pub performance_gate : TradeManager → RunStatus
  unfolding collect
  performance_gate m =
      let stats = collect N m limits.starting_balance limits.last_months limits.points_per_pip in
      let decisive = stats.counts.winners + stats.counts.losers in
      if ltb_ℤ (pos 0) limits.min_decisive_trades
        && leb decisive (pos_part limits.min_decisive_trades)
      then underperformed
      else if above_zero limits.min_performance_score
          && at_most_dec stats.scores.performance_score limits.min_performance_score
      then underperformed
      else completed

  module _ (db : Database) (strat : Strategy) (vars : TradingVariables)
      (gate : Option SeriesSpec) where
    abbrev pub State : Type 0
    State = LoopState strat.State

    -- The distances of an entry: the gate's, or the variables where there is no gate.
    unfoldable pub entry_distances : BarStore → PriceData → Option Distances
    unfolding Conditions.check
    entry_distances store tick = elim gate [
      | none ↦ some (record {
        stop_pips = vars.stop_distance_in_atr;
        limit_pips = vars.limit_distance_in_atr;
      })
      | some series ↦
          Conditions.check store series tick vars.stop_distance_in_atr vars.limit_distance_in_atr
    ]

    -- The strategy's answer to a tick that passed the gates and the conditions.
    unfoldable pub act_on : State → PriceData → Distances → Option Direction × strat.State → State
    unfolding open_trade
    act_on st tick distances (none, s) = record st { strategy = s }
    act_on st tick distances (some signal, s) = record st {
      manager =
          (open_trade st.manager tick vars.trading_size signal distances.stop_pips
            distances.limit_pips).0;
      strategy = s;
      recent_opens =
          if rate_cap_active then st.recent_opens ++ tick.timestamp ∷ [] else st.recent_opens;
    }

    unfoldable pub try_entry : State → PriceData → State
    unfolding entry_distances act_on
    try_entry st tick =
        if entry_allowed st.manager st.recent_opens tick
        then elim (entry_distances st.store tick) [
          | none ↦ st
          | some distances ↦ act_on st tick distances (strat.decide st.strategy tick st.store)
        ]
        else st

    unfoldable pub manage : State → PriceData → State
    manage st tick =
        let (m, s) = strat.during st.strategy tick st.store st.manager in
        record st { manager = m; strategy = s }

    -- The part of the body before the gates: marks, exits, bars.
    unfoldable pub revalued : TradeManager → PriceData → TradeManager
    unfolding review_stop_and_limit mark_to_market
    revalued m tick = review_stop_and_limit (mark_to_market m tick) tick

    -- The part behind the check of the loss limit.
    unfoldable pub enter_and_manage : State → PriceData → State
    unfolding try_entry manage rate_window
    enter_and_manage st tick =
        manage
          (try_entry (record st { recent_opens = rate_window tick.timestamp st.recent_opens }) tick)
          tick

    -- The body of the loop.
    unfoldable pub on_tick : State → PriceData → Result (Outcome strat.State)
    unfolding revalued enter_and_manage is_breached
    on_tick st tick = do
      store ← Store.update db st.store tick
      let marked = record st { manager = revalued st.manager tick; store = store }
      ok (
          if is_breached vars marked.manager
          then stopped (record marked { manager = close_all_trades marked.manager tick true })
          else running (enter_and_manage marked tick))

    unfoldable pub run_loop : State → List PriceData → Result (Outcome strat.State)
    unfolding on_tick
    run_loop st [] = ok (running st)
    run_loop st (tick ∷ ticks) = do
      o ← on_tick st tick
      elim o [ stopped st' ↦ ok (stopped st') | running st' ↦ run_loop st' ticks ]

    -- What follows the loop.
    unfoldable pub finish : State → Option PriceData → RunStatus × State
    unfolding is_breached close_at_end performance_gate
    finish st last =
        let closed = close_at_end st.manager last false in
        if is_breached vars st.manager
        then (loss_limit_breached, record st { manager = close_at_end st.manager last true })
        else (performance_gate closed, record st { manager = closed })

    -- The run of a strategy on an account, with the bars that its timeframes are registered in.
    unfoldable pub run_ticks :
        TradeManager → strat.State → BarStore → List PriceData → Result (RunStatus × State)
    unfolding run_loop finish last_tick
    run_ticks m s store ticks = do
      o ← run_loop (record { manager = m; store = store; strategy = s; recent_opens = [] }) ticks
      elim o [
        | stopped st ↦ ok (loss_limit_breached, st)
        | running st ↦ ok (finish st (last_tick ticks))
      ]
