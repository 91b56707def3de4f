-- ===== src/Trading/RunLoop/RateCap.antt =====
-- The cap on entries in a sliding minute, over a run of source/run/trading/runLoop.cppm.
use backtesting_engine_cpp.Prelude.{
  ℕ, ◌+◌, ◌≤◌, ◌<◌, ◌≡◌, refl, true, Option, List, [], ◌∷◌, ◌++◌, Result, ok, invalid_argument,
  if◌then◌else◌, sym, length, length-append, subst, arith, Bool-cases, inl, inr,
}
use backtesting_engine_cpp.Prelude.{ℤ, pos, pos_part, ◌-ℤ◌, ◌≤ℤ◌, ltb_ℤ, leb_ℤ, int_laws}
use backtesting_engine_cpp.Bars.Ohlc.{Database}
use backtesting_engine_cpp.Bars.Store.{BarStore, SeriesSpec}
use backtesting_engine_cpp.Reporting.Numbers.{Numbers}
use backtesting_engine_cpp.Trading.Models.{TimePoint, PriceData, minutes}
use backtesting_engine_cpp.Trading.TradeManager.{TradeManager, mark_to_market}
use backtesting_engine_cpp.Trading.TradeManager.Tally.{
  tally, open_tally, closed_tally, mark_to_market-tally, close_trade-tally, open_trade-tally,
}
use backtesting_engine_cpp.Trading.ExitRules.Opening.{review_keeps}
use backtesting_engine_cpp.Trading.RunLoop.{
  Strategy, TradingVariables, RiskLimits, LoopState, Outcome, running, stopped,
  below_trade_rate_cap, entry_allowed, evict, rate_window, try_entry, manage, revalued,
  enter_and_manage, run_loop,
}
use backtesting_engine_cpp.Trading.RunLoop.Entry.{try_entry_cases}
use backtesting_engine_cpp.Trading.RunLoop.Steps.{IsOrdered, end_time, marked, run_loop-keeps}

-- 1 for a time less than a minute before `now`.
unfoldable pub in_minute : TimePoint → TimePoint → ℕ
in_minute now t = if ltb_ℤ (now -ℤ t) (minutes (pos 1)) then 1 else 0

-- The trades of an account, open or closed, that were opened in the minute ending at `now`.
unfoldable pub opened_in_minute : TimePoint → TradeManager → ℕ
unfolding in_minute
opened_in_minute now m = tally (in_minute now) m

-- The property holds of the state that a run survives in, if it survives.
abbrev pub OnSurvivor {ℓ} : {S : Type 0} → (LoopState S → Type ℓ) → Result (Outcome S) → Type ℓ
OnSurvivor P (ok (running st)) = P st
OnSurvivor P (ok (stopped st)) = Unit
OnSurvivor P invalid_argument = Unit

≤ℤ_refl : (t : ℤ) → t ≤ℤ t
≤ℤ_refl t = omega arith

count_in_minute : TimePoint → List TimePoint → ℕ
count_in_minute now [] = 0
count_in_minute now (t ∷ ts) = in_minute now t + count_in_minute now ts

count_in_minute-length :
    (now : TimePoint) (ts : List TimePoint) → count_in_minute now ts ≤ length ts
unfolding count_in_minute in_minute
count_in_minute-length now [] = omega arith
count_in_minute-length now (t ∷ ts) = ground (arith, count_in_minute-length now ts)

count_in_minute-append :
    (now t : TimePoint) (ts : List TimePoint)
    → count_in_minute now (ts ++ t ∷ []) ≡ count_in_minute now ts + in_minute now t
unfolding count_in_minute
count_in_minute-append now t [] = omega arith
count_in_minute-append now t (u ∷ ts) = omega (arith, count_in_minute-append now t ts)

-- An entry that has aged out at a tick is in no later minute.
aged_out :
    (tick now t : TimePoint)
    → tick ≤ℤ now
    → leb_ℤ (minutes (pos 1)) (tick -ℤ t) ≡ true
    → in_minute now t ≡ 0
unfolding in_minute
aged_out tick now t h e = grind int_laws

count_in_minute-evict :
    (tick now : TimePoint) (ts : List TimePoint)
    → tick ≤ℤ now
    → count_in_minute now (evict tick ts) ≡ count_in_minute now ts
unfolding count_in_minute evict
count_in_minute-evict tick now [] h = refl
count_in_minute-evict tick now (t ∷ ts) h =
    elim (Bool-cases (leb_ℤ (minutes (pos 1)) (tick -ℤ t))) [
      | inl aged ↦
          rw aged (omega (arith, aged_out tick now t h aged, count_in_minute-evict tick now ts h))
      | inr young ↦ rw young refl
    ]

length-evict : (tick : TimePoint) (ts : List TimePoint) → length (evict tick ts) ≤ length ts
unfolding evict
length-evict tick [] = omega arith
length-evict tick (t ∷ ts) = ground (arith, length-evict tick ts)

module _ (N : Numbers) (limits : RiskLimits N) (db : Database) (strat : Strategy)
    (vars : TradingVariables) (gate : Option SeriesSpec)
    (during_closes : (w : TimePoint → ℕ) (s : strat.State) (tick : PriceData) (store : BarStore)
        (m : TradeManager)
      → tally w (strat.during s tick store m).0 ≤ tally w m)
    (active : ltb_ℤ (pos 0) limits.max_trades_per_minute ≡ true) where
  abbrev cap : ℕ
  cap = pos_part limits.max_trades_per_minute

  -- The window accounts for every trade that a later minute still counts.
  record IsWindow (now : TimePoint) (st : LoopState strat.State) : Type 0 where
    within : length st.recent_opens ≤ cap
    covers :
        (later : TimePoint)
        → now ≤ℤ later
        → tally (in_minute later) st.manager ≤ count_in_minute later st.recent_opens

  revalued-tally :
      (w : TimePoint → ℕ) (m : TradeManager) (tick : PriceData)
      → tally w (revalued N limits db strat vars gate m tick) ≡ tally w m
  unfolding revalued
  revalued-tally w m tick =
      review_keeps (λ m'. tally w m' ≡ tally w m)
        (λ m' s p t l h. omega (arith, h, close_trade-tally w m' s p t l)) (mark_to_market m tick)
        tick (mark_to_market-tally w m tick)

  -- The eviction at a tick.
  windowed-IsWindow :
      (now : TimePoint) (st : LoopState strat.State) (tick : PriceData) (store : BarStore)
      → now ≤ℤ tick.timestamp
      → IsWindow now st
      → IsWindow tick.timestamp (record (marked N limits db strat vars gate st tick store) {
        recent_opens = rate_window N limits tick.timestamp st.recent_opens;
      })
  unfolding rate_window
  windowed-IsWindow now st tick store h v = record {
    within = rw active (omega (arith, v.within, length-evict tick.timestamp st.recent_opens));
    covers = λ later k. rw active (
        omega (
          arith,
          revalued-tally (in_minute later) st.manager tick,
          count_in_minute-evict tick.timestamp later st.recent_opens k,
          v.covers later (omega (arith, h, k)),
        ));
  }

  entry_allowed-room :
      (m : TradeManager) (recent : List TimePoint) (tick : PriceData)
      → entry_allowed N limits m recent tick ≡ true
      → length recent < cap
  unfolding entry_allowed below_trade_rate_cap
  entry_allowed-room m recent tick e = ground arith

  try_entry-IsWindow :
      (st : LoopState strat.State) (tick : PriceData)
      → IsWindow tick.timestamp st
      → IsWindow tick.timestamp (try_entry N limits db strat vars gate st tick)
  try_entry-IsWindow st tick v =
      try_entry_cases N limits db strat vars gate tick (IsWindow tick.timestamp) st v
        (λ s. record { within = v.within; covers = v.covers })
        λ allowed d side s. record {
          within = rw active (
              omega (
                arith,
                entry_allowed-room st.manager st.recent_opens tick allowed,
                length-append st.recent_opens (tick.timestamp ∷ []),
              ));
          covers = λ later k. rw active (
              omega (
                arith,
                v.covers later k,
                count_in_minute-append later tick.timestamp st.recent_opens,
                open_trade-tally (in_minute later) st.manager tick vars.trading_size side
                    d.stop_pips d.limit_pips,
              ));
        }

  enter_and_manage-IsWindow :
      (now : TimePoint) (st : LoopState strat.State) (tick : PriceData) (store : BarStore)
      → now ≤ℤ tick.timestamp
      → IsWindow now st
      → IsWindow tick.timestamp (
          enter_and_manage N limits db strat vars gate
            (marked N limits db strat vars gate st tick store)
            tick)
  unfolding enter_and_manage manage
  enter_and_manage-IsWindow now st tick store h v =
      let w = try_entry-IsWindow _ tick (windowed-IsWindow now st tick store h v) in
      record {
        within = w.within;
        covers = λ later k. omega (arith, w.covers later k, during_closes (in_minute later));
      }

  -- Along the rest of the ticks, up to the time of the last.
  record IsAhead (end : TimePoint) (ticks : List PriceData) (st : LoopState strat.State)
      : Type 0 where
    time : TimePoint
    in_order : IsOrdered time ticks
    ends : end_time time ticks ≡ end
    window : IsWindow time st

  surviving-opened_in_minute :
      (now : TimePoint) (ticks : List PriceData) (st st' : LoopState strat.State)
      → IsOrdered now ticks
      → st.manager.active_trades ≡ []
      → st.manager.closed_trades ≡ []
      → st.recent_opens ≡ []
      → run_loop N limits db strat vars gate st ticks ≡ ok (running st')
      → opened_in_minute (end_time now ticks) st'.manager ≤ cap
  unfolding opened_in_minute
  surviving-opened_in_minute now ticks st st' o a c r e =
      let first : IsWindow now st = record {
        within = rw r (omega arith);
        covers = λ later k. unfold open_tally closed_tally in rw (a, c) (omega arith);
      } in
      let last =
        run_loop-keeps N limits db strat vars gate (IsAhead (end_time now ticks))
          (λ tick ticks st store v. record {
            time = tick.timestamp;
            in_order = v.in_order.1;
            ends = v.ends;
            window = enter_and_manage-IsWindow v.time st tick store v.in_order.0 v.window;
          })
          ticks st st' (record { time = now; in_order = o; ends = refl; window = first }) e in
      omega (
        arith,
        last.window.within,
        last.window.covers (end_time now ticks)
            (subst (λ t. t ≤ℤ end_time now ticks) (sym last.ends) (≤ℤ_refl (end_time now ticks))),
        count_in_minute-length (end_time now ticks) st'.recent_opens,
      )

  -- With a positive cap on entries, a strategy whose `during` opens no trade, and an account that
  -- starts without trades, if the run survives ticks that are in the order of time, then of the
  -- account's trades, open or closed, no more than the cap were opened in the minute that ends at
  -- the last tick.
  pub run_loop-opened_in_minute :
      (now : TimePoint) (ticks : List PriceData) (st : LoopState strat.State)
      → IsOrdered now ticks
      → st.manager.active_trades ≡ []
      → st.manager.closed_trades ≡ []
      → st.recent_opens ≡ []
      → OnSurvivor
          (λ st'. opened_in_minute (end_time now ticks) st'.manager ≤ cap)
          (run_loop N limits db strat vars gate st ticks)
  run_loop-opened_in_minute now ticks st o a c r =
      by_result (run_loop N limits db strat vars gate st ticks) refl
    where
      by_result :
          (x : Result (Outcome strat.State))
          → run_loop N limits db strat vars gate st ticks ≡ x
          → OnSurvivor (λ st'. opened_in_minute (end_time now ticks) st'.manager ≤ cap) x
      by_result (ok (running st')) e = surviving-opened_in_minute now ticks st st' o a c r e
      by_result (ok (stopped st')) e = tt
      by_result invalid_argument e = tt
