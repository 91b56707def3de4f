-- ===== src/Trading/RunLoop/Steps.antt =====
-- Invariants of the loop: what a tick that does not stop the run makes of the state, and the
-- induction over the ticks.
use backtesting_engine_cpp.Prelude.{
  ◌≡◌, refl, Bool, true, false, Option, List, [], ◌∷◌, Result, ok, invalid_argument, ap, subst,
  arith,
}
use backtesting_engine_cpp.Prelude.{◌≤ℤ◌}
use backtesting_engine_cpp.Bars.Ohlc.{Database}
use backtesting_engine_cpp.Bars.Store.{BarStore, SeriesSpec}
use backtesting_engine_cpp.Bars.Store
use backtesting_engine_cpp.Reporting.Numbers.{Numbers}
use backtesting_engine_cpp.Trading.Models.{TimePoint, PriceData}
use backtesting_engine_cpp.Trading.RunLoop.{
  Strategy, TradingVariables, RiskLimits, LoopState, Outcome, stopped, running, is_breached,
  revalued, enter_and_manage, on_tick, run_loop,
}

-- Ticks in the order of their time, from `now` on, and the time of the last one.
abbrev pub IsOrdered : TimePoint → List PriceData → Type 0
IsOrdered now [] = Unit
IsOrdered now (t ∷ ts) = (now ≤ℤ t.timestamp) × IsOrdered t.timestamp ts

abbrev pub end_time : TimePoint → List PriceData → TimePoint
end_time now [] = now
end_time now (t ∷ ts) = end_time t.timestamp ts

module _ (N : Numbers) (limits : RiskLimits N) (db : Database) (strat : Strategy)
    (vars : TradingVariables) (gate : Option SeriesSpec) where
  survivor : LoopState strat.State → Outcome strat.State → LoopState strat.State
  survivor d (stopped st) = d
  survivor d (running st) = st

  outcome : Outcome strat.State → Result (Outcome strat.State) → Outcome strat.State
  outcome d (ok o) = o
  outcome d invalid_argument = d

  is_running : Result (Outcome strat.State) → Bool
  is_running (ok (running st)) = true
  is_running (ok (stopped st)) = false
  is_running invalid_argument = false

  -- The state that a surviving tick starts its entry phase from.
  abbrev pub marked : LoopState strat.State → PriceData → BarStore → LoopState strat.State
  marked st tick store = record st {
    manager = revalued N limits db strat vars gate st.manager tick;
    store = store;
  }

  on_tick-running :
      (st st' : LoopState strat.State) (tick : PriceData)
      → on_tick N limits db strat vars gate st tick ≡ ok (running st')
      → (store : BarStore) × (enter_and_manage N limits db strat vars gate
            (marked st tick store)
            tick
          ≡ st')
  unfolding on_tick survivor outcome is_running
  on_tick-running st st' tick e = by_store (Store.update db st.store tick) refl
    where
      tested :
          (store : BarStore) (b : Bool)
          → Store.update db st.store tick ≡ ok store
          → is_breached N limits vars (marked st tick store).manager ≡ b
          → (store : BarStore) × (enter_and_manage N limits db strat vars gate
                (marked st tick store)
                tick
              ≡ st')
      tested store true f g = absurd (ground (arith, ap is_running (rw g at (rw f at e))))
      tested store false f g =
          let next = enter_and_manage N limits db strat vars gate (marked st tick store) tick in
          let same : ◌≡◌ {A = Result (Outcome strat.State)} (ok (running next)) (ok (running st')) =
            rw g at (rw f at e) in
          (store, ap (λ r. survivor st' (outcome (running st') r)) same)

      by_store :
          (r : Result BarStore)
          → Store.update db st.store tick ≡ r
          → (store : BarStore) × (enter_and_manage N limits db strat vars gate
                (marked st tick store)
                tick
              ≡ st')
      by_store invalid_argument f = absurd (ground (arith, ap is_running (rw f at e)))
      by_store (ok store) f = tested store _ f refl

  -- What every surviving tick keeps, a surviving run keeps. It may be about the ticks ahead.
  module _ {ℓ} (P : List PriceData → LoopState strat.State → Type ℓ)
      (keep : (tick : PriceData) (ticks : List PriceData) (st : LoopState strat.State)
          (store : BarStore)
        → P (tick ∷ ticks) st
        → P ticks (enter_and_manage N limits db strat vars gate (marked st tick store) tick)) where
    pub run_loop-keeps :
        (ticks : List PriceData) (st st' : LoopState strat.State)
        → P ticks st
        → run_loop N limits db strat vars gate st ticks ≡ ok (running st')
        → P [] st'
    unfolding run_loop survivor outcome is_running
    run_loop-keeps [] st st' p e = subst (P []) (ap (λ r. survivor st (outcome (running st) r)) e) p
    run_loop-keeps (tick ∷ ticks) st st' p e =
        by_outcome (run_loop-keeps ticks) (on_tick N limits db strat vars gate st tick) refl
      where
        by_outcome :
            ((next st' : LoopState strat.State)
              → P ticks next
              → run_loop N limits db strat vars gate next ticks ≡ ok (running st')
              → P [] st')
            → (r : Result (Outcome strat.State)) → on_tick N limits db strat vars gate st tick ≡ r
            → P [] st'
        by_outcome rest invalid_argument f = absurd (ground (arith, ap is_running (rw f at e)))
        by_outcome rest (ok (stopped x)) f = absurd (ground (arith, ap is_running (rw f at e)))
        by_outcome rest (ok (running next)) f =
            let (store, g) = on_tick-running st next tick f in
            rest next st' (subst (P ticks) g (keep tick ticks st store p)) (rw f at e)
