-- ===== src/Trading/RunLoop/Entry.antt =====
-- The entry phase of a tick, as rules: what holds of the state that is left alone, and of the
-- state after an answer to a tick that passed the gates, holds after the phase.
use backtesting_engine_cpp.Prelude.{
  ◌≡◌, inl, inr, true, Option, none, some, [], ◌∷◌, ◌++◌, if◌then◌else◌, Bool-cases,
}
use backtesting_engine_cpp.Bars.Ohlc.{Database}
use backtesting_engine_cpp.Bars.Store.{SeriesSpec}
use backtesting_engine_cpp.Bars.Conditions.{Distances}
use backtesting_engine_cpp.Reporting.Numbers.{Numbers}
use backtesting_engine_cpp.Trading.Models.{Direction, PriceData}
use backtesting_engine_cpp.Trading.TradeManager.{open_trade}
use backtesting_engine_cpp.Trading.RunLoop.{
  Strategy, TradingVariables, RiskLimits, LoopState, rate_cap_active, entry_allowed,
  entry_distances, act_on, try_entry,
}

module _ (N : Numbers) (limits : RiskLimits N) (db : Database) (strat : Strategy)
    (vars : TradingVariables) (gate : Option SeriesSpec) (tick : PriceData) where
  -- The state after an entry.
  abbrev pub entered :
      LoopState strat.State → Distances → Direction → strat.State → LoopState strat.State
  entered st d side s = record st {
    manager = (open_trade st.manager tick vars.trading_size side d.stop_pips d.limit_pips).0;
    strategy = s;
    recent_opens =
        if rate_cap_active N limits
        then st.recent_opens ++ tick.timestamp ∷ []
        else st.recent_opens;
  }

  module _ {ℓ} (P : LoopState strat.State → Type ℓ) (st : LoopState strat.State) where
    act_cases :
        (d : Distances) (answer : Option Direction × strat.State)
        → ((s : strat.State) → P (record st { strategy = s }))
        → ((side : Direction) (s : strat.State) → P (entered st d side s))
        → P (act_on N limits db strat vars gate st tick d answer)
    unfolding act_on
    act_cases d (none, s) idle enters = idle s
    act_cases d (some side, s) idle enters = enters side s

    pub try_entry_cases :
        P st
        → ((s : strat.State) → P (record st { strategy = s }))
        → (entry_allowed N limits st.manager st.recent_opens tick ≡ true
            → (d : Distances) (side : Direction) (s : strat.State) → P (entered st d side s))
        → P (try_entry N limits db strat vars gate st tick)
    unfolding try_entry
    try_entry_cases flat idle enters =
        elim (Bool-cases (entry_allowed N limits st.manager st.recent_opens tick)) [
          | inl allowed ↦
              rw (allowed, try_entry)
                (met allowed (entry_distances N limits db strat vars gate st.store tick))
          | inr shut ↦ rw (shut, try_entry) flat
        ]
      where
        met :
            entry_allowed N limits st.manager st.recent_opens tick ≡ true
            → (o : Option Distances)
            → P (elim o [
              | none ↦ st
              | some d ↦
                  act_on N limits db strat vars gate st tick d
                    (strat.decide st.strategy tick st.store)
            ])
        met allowed none = flat
        met allowed (some d) = act_cases d _ idle (enters allowed d)
