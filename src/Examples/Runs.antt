-- ===== src/Examples/Runs.antt =====
-- Runs of a strategy that always goes long.
use backtesting_engine_cpp.Prelude.{
  ℕ, ◌≡◌, refl, ◌≤◌, Result, invalid_argument, Option, some, none, [], ◌∷◌, ok, arith,
}
use backtesting_engine_cpp.Prelude.{pos}
use backtesting_engine_cpp.Bars.Store.{BarStore, empty_store}
use backtesting_engine_cpp.Bars.Store.Registered.{empty_store-IsRegistered}
use backtesting_engine_cpp.Trading.Models.{TimePoint, PriceData}
use backtesting_engine_cpp.Trading.TradeManager.{TradeManager, new_manager, review_account}
use backtesting_engine_cpp.Trading.TradeManager.Ledger.{
  IsConsistent, new_manager-IsConsistent, close_trade-IsConsistent,
}
use backtesting_engine_cpp.Trading.TradeManager.Tally.{
  tally, close_trade-tally, close_trade-review_account,
}
use backtesting_engine_cpp.Trading.ExitRules.Opening.{close_if_past_cap_keeps}
use backtesting_engine_cpp.Trading.RunLoop.{
  RunStatus, LoopState, Outcome, running, stopped, outcome_state, run_loop, run_ticks,
}
use backtesting_engine_cpp.Trading.RunLoop.Ending.{IsSettled, run_ticks-IsSettled}
use backtesting_engine_cpp.Trading.RunLoop.OpenCap.{run_loop-review_account}
use backtesting_engine_cpp.Trading.RunLoop.RateCap.{
  OnSurvivor, opened_in_minute, run_loop-opened_in_minute,
}
use backtesting_engine_cpp.Examples.Inputs.{
  whole_numbers, no_rows, opening, rising, falling, day, always_long, small_lots, tight_limits,
  busy_minute, ample_limits,
}

-- The strategy's exit keeps what closing keeps.
during-IsConsistent :
    (s : Unit {0}) (tick : PriceData) (store : BarStore) (m : TradeManager)
    → IsConsistent m
    → IsConsistent (always_long.during s tick store m).0
during-IsConsistent s tick store m v =
    close_if_past_cap_keeps IsConsistent close_trade-IsConsistent m tick (pos 60) v

during-review_account :
    (s : Unit {0}) (tick : PriceData) (store : BarStore) (m : TradeManager)
    → review_account (always_long.during s tick store m).0 ≤ review_account m
during-review_account s tick store m =
    close_if_past_cap_keeps (λ m'. review_account m' ≤ review_account m)
      (λ m' s p t l h. omega (arith, h, close_trade-review_account m' s p t l)) m tick (pos 60)
      (omega arith)

during-tally :
    (w : TimePoint → ℕ) (s : Unit {0}) (tick : PriceData) (store : BarStore) (m : TradeManager)
    → tally w (always_long.during s tick store m).0 ≤ tally w m
during-tally w s tick store m =
    close_if_past_cap_keeps (λ m'. tally w m' ≤ tally w m)
      (λ m' s p t l h. omega (arith, h, close_trade-tally w m' s p t l)) m tick (pos 60)
      (omega arith)

abbrev State : Type 0
State = LoopState (Unit {0})

run_ticks_example :
    (r : RunStatus × State) × ((run_ticks whole_numbers tight_limits no_rows always_long small_lots
          none
          (new_manager (pos 0))
          tt
          empty_store
          day
        ≡ ok r)
      × IsSettled whole_numbers tight_limits small_lots r.0 r.1.manager)
run_ticks_example =
    run_ticks-IsSettled whole_numbers tight_limits no_rows always_long small_lots none
      during-IsConsistent (new_manager (pos 0)) tt empty_store opening (rising ∷ falling ∷ [])
      (new_manager-IsConsistent (pos 0)) empty_store-IsRegistered

abbrev start : State
start = record {
  manager = new_manager (pos 0);
  store = empty_store;
  strategy = tt;
  recent_opens = [];
}

run_loop-cap_example :
    (o : Outcome (Unit {0})) × ((run_loop whole_numbers tight_limits no_rows always_long small_lots
          none start day
        ≡ ok o)
      × (review_account (outcome_state o).manager ≤ 1))
run_loop-cap_example =
    run_loop-review_account whole_numbers tight_limits no_rows always_long small_lots none
      during-review_account refl during-IsConsistent day start (new_manager-IsConsistent (pos 0))
      empty_store-IsRegistered (unfold new_manager review_account in omega arith)

-- Of four entries in turn the last, the third in its minute, is refused.
abbrev entries : Result (Outcome (Unit {0})) → Option (ℕ × ℕ)
entries (ok (running st)) =
    some (opened_in_minute (pos 90000000) st.manager, review_account st.manager)
entries (ok (stopped st)) = none
entries invalid_argument = none

busy_minute-entries :
    entries
      (run_loop whole_numbers ample_limits no_rows always_long small_lots none start busy_minute)
    ≡ some (2, 3)
unfolding run_loop new_manager backtesting_engine_cpp.Bars.Store.update empty_store
    backtesting_engine_cpp.Prelude.◌+ℤ◌
    backtesting_engine_cpp.Trading.TradeManager.find_active_trade
    backtesting_engine_cpp.Trading.TradeManager.find backtesting_engine_cpp.Prelude.◌*ℤ◌
    backtesting_engine_cpp.Prelude.◌-ℤ◌ backtesting_engine_cpp.Prelude.◌/ℤ◌
    backtesting_engine_cpp.Prelude.max_ℤ backtesting_engine_cpp.Trading.RunLoop.entry_allowed
    backtesting_engine_cpp.Trading.RunLoop.in_session
    backtesting_engine_cpp.Trading.ExitRules.close_if_past_cap
    backtesting_engine_cpp.Trading.TradeManager.enter
    backtesting_engine_cpp.Trading.TradeManager.update_drawdown
    backtesting_engine_cpp.Trading.TradeManager.build_trade
    backtesting_engine_cpp.Trading.Models.minutes
    backtesting_engine_cpp.Trading.TradeManager.floating_pnl_at
    backtesting_engine_cpp.Trading.TradeManager.slip_points opened_in_minute review_account
    backtesting_engine_cpp.Trading.TradeManager.Tally.open_tally
    backtesting_engine_cpp.Trading.TradeManager.Tally.closed_tally
busy_minute-entries = refl

run_loop-rate_example :
    OnSurvivor
      (λ st. opened_in_minute (pos 90000000) st.manager ≤ 2)
      (run_loop whole_numbers ample_limits no_rows always_long small_lots none start busy_minute)
run_loop-rate_example =
    run_loop-opened_in_minute whole_numbers ample_limits no_rows always_long small_lots none
      during-tally refl (pos 0) busy_minute start
      (omega arith, (omega arith, (omega arith, (omega arith, tt)))) (unfold new_manager in refl)
      (unfold new_manager in refl) refl
