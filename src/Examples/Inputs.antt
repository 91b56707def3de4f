-- ===== src/Examples/Inputs.antt =====
-- The concrete inputs of the examples.
use backtesting_engine_cpp.Prelude.{ℕ, ◌*◌, ◌/◌, true, false, none, some, List, [], ◌∷◌, String}
use backtesting_engine_cpp.Prelude.{ℤ, pos, ◌+ℤ◌, ◌-ℤ◌, ◌*ℤ◌, ◌/ℤ◌, ltb_ℤ, leb_ℤ, eqb_ℤ, abs_ℤ}
use backtesting_engine_cpp.Bars.Ohlc.{Database}
use backtesting_engine_cpp.Reporting.Numbers.{Numbers}
use backtesting_engine_cpp.Trading.Models.{long, PriceData}
use backtesting_engine_cpp.Trading.ExitRules.{close_if_past_cap}
use backtesting_engine_cpp.Trading.RunLoop.{Strategy, TradingVariables, RiskLimits}

-- Whole numbers in place of both kinds.
abbrev pub whole_numbers : Numbers
whole_numbers = record {
  Decimal = ℤ;
  of_int = λ z. z;
  to_int64 = λ z. z;
  add_dec = λ a b. a +ℤ b;
  mul_dec = λ a b. a *ℤ b;
  div_dec = λ a b. a /ℤ 100;
  less_dec = ltb_ℤ;
  at_most_dec = leb_ℤ;
  Double = ℤ;
  of_decimal = λ z. z;
  to_decimal = λ z. z;
  of_size = pos;
  of_signed = λ z. z;
  literal = λ a b. pos (a / b);
  add = λ a b. a +ℤ b;
  sub = λ a b. a -ℤ b;
  mul = λ a b. a *ℤ b;
  div = λ a b. a /ℤ 100;
  abs = abs_ℤ;
  sqrt = λ z. z;
  less = ltb_ℤ;
  equal = eqb_ℤ;
  is_finite = λ z. true;
}

-- A database without rows.
abbrev pub no_rows : Database
no_rows = record { prepopulate = false; ohlc_rows = λ s a b m c. none; tick_rows = λ s t c. none }

-- Seconds after the epoch, in microseconds.
abbrev pub at_second : ℕ → ℤ
at_second n = pos (n * 1000000)

abbrev pub quote : String → ℕ → ℕ → ℕ → PriceData
quote symbol second ask bid = record {
  ask = pos ask;
  bid = pos bid;
  timestamp = at_second second;
  symbol = symbol;
}

abbrev pub opening : PriceData
opening = quote "EURUSD" 0 110002 110000

abbrev pub rising : PriceData
rising = quote "EURUSD" 30 110052 110050

abbrev pub falling : PriceData
falling = quote "EURUSD" 90 109702 109700

abbrev pub day : List PriceData
day = opening ∷ rising ∷ falling ∷ []

-- Goes long whenever it is asked, and closes what is older than an hour.
abbrev pub always_long : Strategy
always_long = record {
  State = Unit;
  decide = λ s tick store. (some long, s);
  during = λ s tick store m. ((close_if_past_cap tick m (pos 60)).0, s);
}

abbrev pub small_lots : TradingVariables
small_lots = record {
  stop_distance_in_atr = pos 50;
  limit_distance_in_atr = pos 100;
  trading_size = pos 1;
}

-- 5 percent of 200 as the loss limit, one open trade, two entries in a minute.
abbrev pub tight_limits : RiskLimits whole_numbers
tight_limits = record {
  starting_balance = pos 200;
  max_loss_percent = pos 5;
  max_open_trades = pos 1;
  max_trades_per_minute = pos 2;
  peak_hours_only = false;
  points_per_pip = pos 10;
  min_performance_score = pos 0;
  min_decisive_trades = pos 0;
  last_months = pos 1;
}

-- Two symbols in one minute, and a third that comes too often.
abbrev pub busy_minute : List PriceData
busy_minute =
    quote "EURUSD" 0 110002 110000
    ∷ quote "GBPUSD" 70 130002 130000
    ∷ quote "AUDUSD" 80 65002 65000
    ∷ quote "NZDUSD" 90 60002 60000
    ∷ []

-- The same caps, any number of open trades, and a loss limit that small losses do not reach.
abbrev pub ample_limits : RiskLimits whole_numbers
ample_limits = record tight_limits { starting_balance = pos 20000; max_open_trades = pos 0 }
