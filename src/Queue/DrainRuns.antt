-- ===== src/Queue/DrainRuns.antt =====
-- The loop of a worker (drainRuns.cpp): claim a run, hand its strategies to the pool, retire it.
pub mod Claims
use backtesting_engine_cpp.Prelude.{
  ℕ, zero, suc, ◌+◌, ◌*◌, ◌/◌, ◌%◌, ◌^◌, ◌≡◌, refl, Bool, true, false, List, [], ◌∷◌, String,
  Option, none, some, ℤ, ◌==◌, max, if◌then◌else◌, ◌+s◌,
}
use backtesting_engine_cpp.Redis.{Server, Attempt, Op, done, raised}
use backtesting_engine_cpp.Queue.Keys.{strategy_key}
use backtesting_engine_cpp.Queue.RunQueue.{
  PeekedRun, peek_run_tail, pop_strategy_key, take_strategy_payload, remove_run,
}

-- `D` stands for `decimal64_t` of Boost.Decimal.
pub record RunConfiguration (D : Type 0) : Type 0 where
  pub run_id : String
  pub symbols : String
  pub batch : String
  pub execution_ts : String
  pub last_months : ℤ
  pub offset_months : ℤ
  pub starting_balance : D
  pub max_loss_percent : D
  pub max_open_trades : ℤ
  pub max_trades_per_minute : ℤ
  pub report_failures : Bool
  pub peak_hours_only : Bool
  pub entry_slippage_tenth_pips : ℤ

pub record Configuration (D Strategy : Type 0) : Type 0 where
  pub run : RunConfiguration D
  pub open run use *
  pub strategy : Strategy

-- How a backtest ends: it returns, or throws a `std::exception`, or something else.
pub data Backtest : Type 0 where
  returned : Backtest
  threw : String → Backtest
  threw_other : Backtest

-- The parts of the program around the loop: the parsers, which may throw, the monitor's stop flag,
-- the pool with its error slot, the tick cache, the report of an exception (where, what, run id), the
-- one-second timer, the join of the pool's threads by its destructor, which first drains its queue,
-- and the connection's teardown. A task is an operation.
pub record Worker (W D Strategy Slice : Type 0) : Type 0 where
  pub parse_run : String → Attempt (RunConfiguration D)
  pub parse_strategy : String → Attempt Strategy
  pub stop_requested : W → Bool
  pub take_error : W → Option String × W
  pub get_ticks : RunConfiguration D → Op W Slice
  pub run_on_ticks : Slice → Configuration D Strategy → W → Backtest × W
  pub uuid : Strategy → String
  pub submit : Op W (Unit {0}) → Op W (Unit {0})
  pub wait_pool : W → W
  pub put_engine_exception : String → String → String → W → W
  pub sleep : W → W
  pub join_pool : W → W
  pub cancel : W → W

-- 80% of the hardware's threads, at least one; `hardware_concurrency` is 0 when unknown.
unfoldable pub pool_threads : ℕ → ℕ
pool_threads hw = if hw == 0 then 1 else max 1 (hw * 4 % 2 ^ 32 / 5)

-- How the drain of one run ends, with the strategies queued. `unfinished` is out of fuel.
pub data Drain : Type 0 where
  drained stopping : ℕ → Drain
  drain_failed : String → Drain
  unfinished : Drain

-- How one round of the outer loop ends.
pub data Round : Type 0 where
  again stop out_of_fuel : Round
  aborted : String → Round

pub data Exit : Type 0 where
  exit_code : ℕ → Exit
  paused running : Exit

module _ {W D Strategy Slice : Type 0} ⦃s : Server W⦄ (worker : Worker W D Strategy Slice) where
  open worker use {
    parse_run, parse_strategy, stop_requested, take_error, get_ticks, run_on_ticks, uuid, submit,
    wait_pool, put_engine_exception, sleep, join_pool, cancel,
  }

  -- A strategy's failure is reported, and stays in its task; what is no `std::exception` leaves it.
  contained : Configuration D Strategy → Backtest × W → Attempt (Unit {0}) × W
  contained cfg (returned, w) = (done tt, w)
  contained cfg (threw e, w) = (
    done tt,
    put_engine_exception "backtest" ("strategy " +s (uuid cfg.strategy +s (" failed: " +s e)))
        cfg.run.run_id w,
  )
  contained cfg (threw_other, w) = (raised "unknown error", w)

  backtest_task : Slice → Configuration D Strategy → Op W (Unit {0})
  unfolding contained
  backtest_task slice cfg w = contained cfg (run_on_ticks slice cfg w)

  skipped : RunConfiguration D → String → ℕ → W → ℕ × W
  skipped run_cfg e n w = (
    n,
    put_engine_exception "drainRuns" ("unparseable strategy payload skipped: " +s e) run_cfg.run_id
        w,
  )

  submitted : RunConfiguration D → ℕ → Attempt (Unit {0}) × W → ℕ × W
  unfolding skipped
  submitted run_cfg n (done u, w) = (suc n, w)
  submitted run_cfg n (raised e, w) = skipped run_cfg e n w

  parsed : Slice → RunConfiguration D → ℕ → Attempt Strategy → W → ℕ × W
  unfolding submitted backtest_task
  parsed slice run_cfg n (raised e) w = skipped run_cfg e n w
  parsed slice run_cfg n (done strategy) w =
      let cfg : Configuration D Strategy = record { run = run_cfg; strategy = strategy } in
      submitted run_cfg n (submit (backtest_task slice cfg) w)

  -- One payload: missing ones and those that do not parse are skipped. The count of those queued.
  consume : Slice → RunConfiguration D → ℕ → Option String → W → ℕ × W
  unfolding parsed
  consume slice run_cfg n none w = (n, w)
  consume slice run_cfg n (some strategy_b64) w =
      parsed slice run_cfg n (parse_strategy strategy_b64) w

  -- What follows the pop of the next name.
  popped : (String → W → Drain × W) → ℕ → Attempt (Option String) × W → Drain × W
  popped rest n (done none, w) = (drained n, w)
  popped rest n (done (some payload_key), w) = rest payload_key w
  popped rest n (raised e, w) = (drain_failed e, w)

  taken :
      (ℕ → String → W → Drain × W)
      → Slice
      → RunConfiguration D
      → ℕ
      → Attempt (Option String) × W
      → Drain × W
  unfolding consume popped
  taken rest slice run_cfg n (raised e, w) = (drain_failed e, w)
  taken rest slice run_cfg n (done payload, w) =
      let (n', w') = consume slice run_cfg n payload w in
      let next = popped (rest n') n' (pop_strategy_key (strategy_key run_cfg.run_id) w') in
      if stop_requested w' then (stopping n', w') else next

  -- The loop over the names of a run's strategies, on fuel, from a name already claimed.
  unfoldable pub drain_strategies : ℕ → Slice → RunConfiguration D → ℕ → String → W → Drain × W
  unfolding taken
  drain_strategies zero slice run_cfg n payload_key w = (unfinished, w)
  drain_strategies (suc fuel) slice run_cfg n payload_key w =
      taken (λ n' key w'. drain_strategies fuel slice run_cfg n' key w') slice run_cfg n
        (take_strategy_payload payload_key w)

  -- A failed removal aborts the loop.
  removed : Attempt (Unit {0}) × W → Round × W
  removed (done u, w) = (again, w)
  removed (raised e, w) = (aborted e, w)

  retire : PeekedRun → W → Round × W
  unfolding removed
  retire peeked w = removed (remove_run peeked.queue_key peeked.descriptor_b64 w)

  after_drain : PeekedRun → Drain × W → Round × W
  unfolding retire
  after_drain peeked (drained n, w) = retire peeked w
  after_drain peeked (stopping n, w) = (stop, w)
  after_drain peeked (drain_failed e, w) = (aborted e, w)
  after_drain peeked (unfinished, w) = (out_of_fuel, w)

  with_ticks : ℕ → PeekedRun → RunConfiguration D → String → Attempt Slice × W → Round × W
  unfolding after_drain drain_strategies
  with_ticks fuel peeked run_cfg payload_key (raised e, w) = (aborted e, w)
  with_ticks fuel peeked run_cfg payload_key (done slice, w) =
      after_drain peeked (drain_strategies fuel slice run_cfg 0 payload_key w)

  -- The first strategy is claimed before the ticks are loaded.
  claimed : ℕ → PeekedRun → RunConfiguration D → Attempt (Option String) × W → Round × W
  unfolding with_ticks
  claimed fuel peeked run_cfg (raised e, w) = (aborted e, w)
  claimed fuel peeked run_cfg (done none, w) = retire peeked w
  claimed fuel peeked run_cfg (done (some payload_key), w) =
      with_ticks fuel peeked run_cfg payload_key (get_ticks run_cfg w)

  -- A descriptor that does not parse is reported and retired.
  described : ℕ → PeekedRun → Attempt (RunConfiguration D) → W → Round × W
  unfolding claimed
  described fuel peeked (raised e) w =
      retire peeked
        (put_engine_exception "drainRuns" ("unparseable run descriptor retired: " +s e) "" w)
  described fuel peeked (done run_cfg) w =
      claimed fuel peeked run_cfg (pop_strategy_key (strategy_key run_cfg.run_id) w)

  looked : ℕ → Attempt (Option PeekedRun) × W → Round × W
  unfolding described
  looked fuel (raised e, w) = (aborted e, w)
  looked fuel (done none, w) = (again, sleep w)
  looked fuel (done (some peeked), w) = described fuel peeked (parse_run peeked.descriptor_b64) w

  checked_pool : ℕ → Option String × W → Round × W
  unfolding looked
  checked_pool fuel (some e, w) = (aborted e, w)
  checked_pool fuel (none, w) = looked fuel (peek_run_tail w)

  -- One round of the loop; `fuel` bounds the drain of a run.
  unfoldable pub drain_round : ℕ → W → Round × W
  unfolding checked_pool
  drain_round fuel w =
      let asked = checked_pool fuel (take_error w) in if stop_requested w then (stop, w) else asked

  -- The pool is destroyed before the handler runs.
  abort : String → W → Exit × W
  abort e w = (exit_code 3, cancel (put_engine_exception "drainRuns" e "" (join_pool w)))

  -- After a stop the pool is joined, and its first error surfaces.
  parked : Option String × W → Exit × W
  unfolding abort
  parked (some e, w) = abort e w
  parked (none, w) = (paused, w)

  after_round : (W → Exit × W) → Round × W → Exit × W
  unfolding parked
  after_round rest (again, w) = rest w
  after_round rest (stop, w) = parked (take_error (wait_pool w))
  after_round rest (out_of_fuel, w) = (running, w)
  after_round rest (aborted e, w) = abort e w

  -- The worker's loop, cut off after `rounds` rounds.
  unfoldable pub drain_runs : ℕ → ℕ → W → Exit × W
  unfolding drain_round after_round
  drain_runs zero fuel w = (running, w)
  drain_runs (suc rounds) fuel w =
      after_round (λ w'. drain_runs rounds fuel w') (drain_round fuel w)
