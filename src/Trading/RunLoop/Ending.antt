-- ===== src/Trading/RunLoop/Ending.antt =====
-- How a run of source/run/trading/runLoop.cppm ends: its account and its status.
use backtesting_engine_cpp.Prelude.{
  ◌≡◌, refl, sym, ◌∙◌, inl, inr, Bool, true, false, Option, some, List, [], ◌∷◌, ok, Bool-cases,
  arith,
}
use backtesting_engine_cpp.Prelude.{pos}
use backtesting_engine_cpp.Bars.Ohlc.{Database}
use backtesting_engine_cpp.Bars.Store.{BarStore, SeriesSpec}
use backtesting_engine_cpp.Bars.Store.Registered.{IsRegistered, update-IsRegistered}
use backtesting_engine_cpp.Reporting.Numbers.{Numbers}
use backtesting_engine_cpp.Trading.Models.{PriceData}
use backtesting_engine_cpp.Trading.TradeManager.{TradeManager, close_all_trades, equity}
use backtesting_engine_cpp.Trading.TradeManager.Ledger.{
  IsConsistent, open_trade-IsConsistent, mark_to_market-IsConsistent, close_trade-IsConsistent,
  close_all_trades-IsConsistent,
}
use backtesting_engine_cpp.Trading.TradeManager.Liquidation.{close_all_trades-IsLiquidated}
use backtesting_engine_cpp.Trading.ExitRules.Opening.{review_keeps}
use backtesting_engine_cpp.Trading.RunLoop.{
  Strategy, TradingVariables, RunStatus, completed, loss_limit_breached, underperformed, RiskLimits,
  LoopState, Outcome, stopped, running, is_breached, last_tick, close_at_end, performance_gate,
  rate_window, try_entry, manage, revalued, enter_and_manage, on_tick, run_loop, finish, run_ticks,
}
use backtesting_engine_cpp.Trading.RunLoop.Entry.{try_entry_cases}

abbrev pub is_loss : RunStatus → Bool
is_loss completed = false
is_loss loss_limit_breached = true
is_loss underperformed = false

last_tick-some :
    (t : PriceData) (ts : List PriceData) → (u : PriceData) × (last_tick (t ∷ ts) ≡ some u)
unfolding last_tick
last_tick-some t [] = (t, refl)
last_tick-some t (u ∷ ts) = last_tick-some u ts

module _ (N : Numbers) (limits : RiskLimits N) (vars : TradingVariables) where
  -- A run that ended with the account flat and consistent, and with the status of its PnL.
  pub record IsSettled (status : RunStatus) (m : TradeManager) : Type 0 where
    pub consistent : IsConsistent m
    pub flat : m.active_trades ≡ []
    pub no_floating : m.open_pnl ≡ pos 0
    pub status_of_pnl : is_loss status ≡ is_breached N limits vars m

  performance_gate-is_loss : (m : TradeManager) → is_loss (performance_gate N limits m) ≡ false
  unfolding performance_gate
  performance_gate-is_loss m = ground arith

  -- The limit is on the equity.
  is_breached-equity :
      (m m' : TradeManager)
      → equity m' ≡ equity m
      → is_breached N limits vars m' ≡ is_breached N limits vars m
  unfolding is_breached
  is_breached-equity m m' e = rw e refl

module _ (N : Numbers) (limits : RiskLimits N) (db : Database) (strat : Strategy)
    (vars : TradingVariables) (gate : Option SeriesSpec)
    (during_keeps : (s : strat.State) (tick : PriceData) (store : BarStore) (m : TradeManager)
      → IsConsistent m
      → IsConsistent (strat.during s tick store m).0) where
  pub record IsSound (st : LoopState strat.State) : Type 0 where
    pub books : IsConsistent st.manager
    pub registered : IsRegistered st.store

  abbrev pub IsSoundOutcome : Outcome strat.State → Type 0
  IsSoundOutcome (stopped st) = IsSettled N limits vars loss_limit_breached st.manager
  IsSoundOutcome (running st) = IsSound st

  try_entry-IsSound :
      (st : LoopState strat.State) (tick : PriceData)
      → IsSound st
      → IsSound (try_entry N limits db strat vars gate st tick)
  try_entry-IsSound st tick v =
      try_entry_cases N limits db strat vars gate tick IsSound st v
        (λ s. record { books = v.books; registered = v.registered })
        λ allowed d side s. record {
          books =
              open_trade-IsConsistent st.manager tick vars.trading_size side d.stop_pips
                d.limit_pips v.books;
          registered = v.registered;
        }

  enter_and_manage-IsSound :
      (st : LoopState strat.State) (tick : PriceData)
      → IsSound st
      → IsSound (enter_and_manage N limits db strat vars gate st tick)
  unfolding enter_and_manage manage
  enter_and_manage-IsSound st tick v =
      let windowed = record st {
        recent_opens = rate_window N limits tick.timestamp st.recent_opens;
      } in
      let st' = try_entry N limits db strat vars gate windowed tick in
      let v' =
        try_entry-IsSound windowed tick (record { books = v.books; registered = v.registered }) in
      record {
        books = during_keeps st'.strategy tick st'.store st'.manager v'.books;
        registered = v'.registered;
      }

  revalued-IsConsistent :
      (m : TradeManager) (tick : PriceData)
      → IsConsistent m
      → IsConsistent (revalued N limits db strat vars gate m tick)
  unfolding revalued
  revalued-IsConsistent m tick v =
      review_keeps IsConsistent close_trade-IsConsistent _ tick
        (mark_to_market-IsConsistent m tick v)

  -- Closing everything settles an account.
  close_all-IsSettled :
      (m : TradeManager) (tick : PriceData) (liquidated : Bool) (status : RunStatus)
      → IsConsistent m
      → is_loss status ≡ is_breached N limits vars m
      → IsSettled N limits vars status (close_all_trades m tick liquidated)
  close_all-IsSettled m tick liquidated status v e =
      let l = close_all_trades-IsLiquidated m tick liquidated v in
      record {
        consistent = close_all_trades-IsConsistent m tick liquidated v;
        flat = l.emptied;
        no_floating = l.floating_gone;
        status_of_pnl = e ∙ sym (is_breached-equity N limits vars m _ l.equity_kept);
      }

  on_tick-IsSound :
      (st : LoopState strat.State) (tick : PriceData)
      → IsSound st
      → (o : Outcome strat.State) × ((on_tick N limits db strat vars gate st tick ≡ ok o)
          × IsSoundOutcome o)
  unfolding on_tick
  on_tick-IsSound st tick v =
      let (store, up) = update-IsRegistered db tick st.store v.registered in
      let m = revalued N limits db strat vars gate st.manager tick in
      let marked : LoopState strat.State = record st { manager = m; store = store } in
      let books = revalued-IsConsistent st.manager tick v.books in
      elim (Bool-cases (is_breached N limits vars m)) [
        | inl breach ↦ (
          stopped (record marked { manager = close_all_trades m tick true }),
          (
            rw up.0 (rw breach refl),
            close_all-IsSettled m tick true loss_limit_breached books (sym breach),
          ),
        )
        | inr fine ↦ (
          running (enter_and_manage N limits db strat vars gate marked tick),
          (
            rw up.0 (rw fine refl),
            enter_and_manage-IsSound marked tick (record { books = books; registered = up.1 }),
          ),
        )
      ]

  pub run_loop-IsSound :
      (ticks : List PriceData) (st : LoopState strat.State)
      → IsSound st
      → (o : Outcome strat.State) × ((run_loop N limits db strat vars gate st ticks ≡ ok o)
          × IsSoundOutcome o)
  unfolding run_loop
  run_loop-IsSound [] st v = (running st, (refl, v))
  run_loop-IsSound (tick ∷ ticks) st v =
      let (o, h) = on_tick-IsSound st tick v in continue (run_loop-IsSound ticks) o h.0 h.1
    where
      continue :
          ((st' : LoopState strat.State)
            → IsSound st'
            → (o' : Outcome strat.State) × ((run_loop N limits db strat vars gate st' ticks ≡ ok o')
                × IsSoundOutcome o'))
          → (o : Outcome strat.State) → on_tick N limits db strat vars gate st tick ≡ ok o
          → IsSoundOutcome o
          → (o' : Outcome strat.State) × ((run_loop N limits db strat vars gate st (tick ∷ ticks)
                ≡ ok o')
              × IsSoundOutcome o')
      continue rest (stopped st') e h = (stopped st', (rw (run_loop, e) refl, h))
      continue rest (running st') e h =
          let (o', h') = rest st' h in (o', (rw (run_loop, e) h'.0, h'.1))

  finish-IsSettled :
      (st : LoopState strat.State) (last : PriceData)
      → IsSound st
      → let r = finish N limits db strat vars gate st (some last) in
        IsSettled N limits vars r.0 r.1.manager
  unfolding finish close_at_end
  finish-IsSettled st last v = elim (Bool-cases (is_breached N limits vars st.manager)) [
    | inl breach ↦
        rw breach
          (close_all-IsSettled st.manager last true loss_limit_breached v.books (sym breach))
    | inr fine ↦ rw fine (
        close_all-IsSettled st.manager last false
          (performance_gate N limits (close_all_trades st.manager last false)) v.books
          (performance_gate-is_loss N limits vars (close_all_trades st.manager last false)
            ∙ sym fine))
  ]

  -- A run over at least one tick, from consistent books and a store of accepted specs, with a
  -- strategy whose `during` keeps books consistent, returns. It leaves consistent books without an
  -- open trade, and its status is the loss limit's exactly when a loss limit is set and their
  -- PnL is at or below its floor.
  pub run_ticks-IsSettled :
      (m : TradeManager) (s : strat.State) (store : BarStore) (tick : PriceData)
      (ticks : List PriceData)
      → IsConsistent m
      → IsRegistered store
      → (r : RunStatus × LoopState strat.State) × ((run_ticks N limits db strat vars gate m s store
              (tick ∷ ticks)
            ≡ ok r)
          × IsSettled N limits vars r.0 r.1.manager)
  unfolding run_ticks
  run_ticks-IsSettled m s store tick ticks v w =
      let (o, h) = run_loop-IsSound (tick ∷ ticks) start (record { books = v; registered = w }) in
      ended o h.0 h.1
    where
      start : LoopState strat.State
      start = record { manager = m; store = store; strategy = s; recent_opens = [] }

      ended :
          (o : Outcome strat.State)
          → run_loop N limits db strat vars gate start (tick ∷ ticks) ≡ ok o
          → IsSoundOutcome o
          → (r : RunStatus × LoopState strat.State) × ((run_ticks N limits db strat vars gate m s
                  store
                  (tick ∷ ticks)
                ≡ ok r)
              × IsSettled N limits vars r.0 r.1.manager)
      ended (stopped st) e h = ((loss_limit_breached, st), (rw (run_ticks, e) refl, h))
      ended (running st) e h =
          let (last, l) = last_tick-some tick ticks in
          (
            finish N limits db strat vars gate st (some last),
            (rw (run_ticks, e) (rw l refl), finish-IsSettled st last h),
          )
