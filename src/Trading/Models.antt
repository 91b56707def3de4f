-- ===== src/Trading/Models.antt =====
-- source/shared/models/priceData.cppm and trade.cppm. Prices are scaled INT32 points and PnL is
-- int64 points per lot, both integers here; a time point is a count of microseconds since the
-- epoch. Signed overflow is undefined in the source, so sums are exact here.
use backtesting_engine_cpp.Prelude.{ℕ, Bool, false, String, ℤ, pos, ◌*ℤ◌}
use backtesting_engine_cpp.SymbolScale

-- `std::chrono::system_clock::time_point` and durations of that clock.
abbrev pub TimePoint : Type 0
TimePoint = ℤ

-- `std::chrono::minutes{n}` as a duration of the clock.
unfoldable pub minutes : ℤ → ℤ
minutes n = n *ℤ pos 60000000

pub data Direction : Type 0 where
  long short : Direction

pub record PriceData : Type 0 where
  pub ask : ℤ
  pub bid : ℤ
  pub timestamp : TimePoint
  pub symbol : String

pub record Trade : Type 0 where
  -- The number n of the id "Tn".
  pub id : ℕ
  pub entry_price : ℤ
  pub entry_bid : ℤ
  pub entry_ask : ℤ
  pub size : ℤ
  pub open_time : TimePoint
  pub direction : Direction
  pub deal_reference : String
  pub symbol : String
  pub scaling_factor : ℤ
  pub stop_distance_pips : ℤ
  pub limit_distance_pips : ℤ
  pub exit_reference_price : ℤ
  pub stop_price : ℤ
  pub limit_price : ℤ
  pub strategy_id : String
  pub strategy_name : String
  pub close_price : ℤ
  pub close_time : TimePoint
  pub pnl : ℤ
  pub last_mark_price : ℤ
  pub floating_pnl : ℤ
  pub liquidated : Bool

-- The constructor `Trade(price, quantity, dir, tradeSymbol)`. The id, which it leaves empty, is 0.
unfoldable pub new_trade : ℤ → ℤ → Direction → String → Trade
new_trade price quantity dir trade_symbol = record {
  id = 0;
  entry_price = price;
  entry_bid = pos 0;
  entry_ask = pos 0;
  size = quantity;
  open_time = pos 0;
  direction = dir;
  deal_reference = "";
  symbol = trade_symbol;
  scaling_factor = SymbolScale.get trade_symbol;
  stop_distance_pips = pos 0;
  limit_distance_pips = pos 0;
  exit_reference_price = pos 0;
  stop_price = pos 0;
  limit_price = pos 0;
  strategy_id = "";
  strategy_name = "";
  close_price = pos 0;
  close_time = pos 0;
  pnl = pos 0;
  last_mark_price = pos 0;
  floating_pnl = pos 0;
  liquidated = false;
}

-- A choice by the direction, `direction == Direction::LONG ? a : b`.
abbrev pub by_side {ℓ} : {A : Type ℓ} → Direction → A → A → A
by_side long a b = a
by_side short a b = b
