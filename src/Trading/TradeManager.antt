-- ===== src/Trading/TradeManager.antt =====
-- source/run/trading/tradeManager.cppm: the account of one run. The map of open trades is an
-- association list by symbol; `std::unordered_map` fixes no order of iteration, and here it is
-- that of the list.
pub mod Book
pub mod Cases
pub mod Ledger
pub mod Liquidation
pub mod Curve
pub mod History
pub mod Tally
use backtesting_engine_cpp.Prelude.{
  ℕ, zero, suc, ◌+◌, ◌/◌, ◌%◌, ◌^◌, ◌≡◌, Bool, true, false, ◌&&◌, Option, none, some, List, [], ◌∷◌,
  ◌++◌, map, String, str_eq, if◌then◌else◌, length,
}
use backtesting_engine_cpp.Prelude.{ℤ, pos, negsuc, pos_part, ◌+ℤ◌, ◌-ℤ◌, ◌*ℤ◌, ltb_ℤ, max_ℤ}
use backtesting_engine_cpp.Trading.Models.{
  TimePoint, Direction, long, short, PriceData, Trade, new_trade, by_side,
}

abbrev pub Book : Type 0
Book = List (String × Trade)

pub record TradeManager : Type 0 where
  pub active_trades : Book
  pub closed_trades : List Trade
  pub trade_counter : ℕ
  pub closed_pnl : ℤ
  pub open_pnl : ℤ
  pub peak_equity : ℤ
  pub max_drawdown : ℤ
  pub entry_slippage_tenth_pips : ℤ

-- The member initializers, with the slippage that the runner sets.
unfoldable pub new_manager : ℤ → TradeManager
new_manager slippage = record {
  active_trades = [];
  closed_trades = [];
  trade_counter = 0;
  closed_pnl = pos 0;
  open_pnl = pos 0;
  peak_equity = pos 0;
  max_drawdown = pos 0;
  entry_slippage_tenth_pips = slippage;
}

-- `std::unordered_map::find`, `erase` and the write through an iterator.
unfoldable pub find : String → Book → Option Trade
find s [] = none
find s ((k, t) ∷ b) = if str_eq k s then some t else find s b

unfoldable pub erase : String → Book → Book
erase s [] = []
erase s ((k, t) ∷ b) = if str_eq k s then b else (k, t) ∷ erase s b

unfoldable pub replace : String → Trade → Book → Book
replace s u [] = []
replace s u ((k, t) ∷ b) = if str_eq k s then (k, u) ∷ b else (k, t) ∷ replace s u b

unfoldable pub floating_pnl_at : Trade → ℤ → ℤ
floating_pnl_at trade mark =
    let diff = mark -ℤ trade.entry_price in
    by_side trade.direction diff (pos 0 -ℤ diff) *ℤ trade.size

-- closedPnl + openPnl
abbrev pub equity : TradeManager → ℤ
equity m = m.closed_pnl +ℤ m.open_pnl

unfoldable pub update_drawdown : TradeManager → TradeManager
update_drawdown m =
    let peak = if ltb_ℤ m.peak_equity (equity m) then equity m else m.peak_equity in
    let drop = peak -ℤ equity m in
    record m {
      peak_equity = peak;
      max_drawdown = if ltb_ℤ m.max_drawdown drop then drop else m.max_drawdown;
    }

-- slipPoints: the haircut of an entry, in points. Both factors are positive where it is divided.
unfoldable pub slip_points : ℤ → ℤ → ℤ
slip_points tenth_pips scale =
    if ltb_ℤ (pos 0) tenth_pips && ltb_ℤ (pos 0) scale
    then pos (pos_part (tenth_pips *ℤ scale) / 10)
    else pos 0

-- The trade that `openTrade` builds, before it is put in the map.
unfoldable pub build_trade : ℤ → ℕ → PriceData → ℤ → Direction → ℤ → ℤ → Trade
unfolding new_trade
build_trade slippage counter tick size direction stop_distance limit_distance =
    let fresh = new_trade (by_side direction tick.ask tick.bid) size direction tick.symbol in
    let slip = slip_points slippage fresh.scaling_factor in
    let reference = by_side direction tick.bid tick.ask in
    let stop_offset = stop_distance *ℤ fresh.scaling_factor in
    let limit_offset = limit_distance *ℤ fresh.scaling_factor in
    let trade : Trade = record fresh {
      entry_price = fresh.entry_price +ℤ by_side direction slip (pos 0 -ℤ slip);
      open_time = tick.timestamp;
      entry_bid = tick.bid;
      entry_ask = tick.ask;
      id = counter;
      stop_distance_pips = stop_distance;
      limit_distance_pips = limit_distance;
      exit_reference_price = reference;
      stop_price = by_side direction (reference -ℤ stop_offset) (reference +ℤ stop_offset);
      limit_price = by_side direction (reference +ℤ limit_offset) (reference -ℤ limit_offset);
      last_mark_price = reference;
    } in
    record trade { floating_pnl = floating_pnl_at trade trade.last_mark_price }

-- A free symbol's new trade goes in the map, and its spread cost into the floating PnL.
unfoldable pub enter : TradeManager → Trade → TradeManager
enter m trade = update_drawdown (record m {
  active_trades = (trade.symbol, trade) ∷ m.active_trades;
  open_pnl = m.open_pnl +ℤ trade.floating_pnl;
})

-- The manager after the call, and the id of the symbol's trade. A symbol with an open trade keeps
-- it, and the counter has moved on all the same.
unfoldable pub open_trade : TradeManager → PriceData → ℤ → Direction → ℤ → ℤ → TradeManager × ℕ
open_trade m tick size direction stop_distance limit_distance =
    let trade =
      build_trade m.entry_slippage_tenth_pips m.trade_counter tick size direction stop_distance
        limit_distance in
    let counted = record m { trade_counter = (m.trade_counter + 1) % 2 ^ 64 } in
    elim (find tick.symbol m.active_trades) [
      | some old ↦ (counted, old.id)
      | none ↦ (enter counted trade, trade.id)
    ]

-- The write through the iterator in `markToMarket`.
unfoldable pub revalue : TradeManager → String → Trade → ℤ → TradeManager
revalue m symbol trade mark =
    let updated = floating_pnl_at trade mark in
    update_drawdown (record m {
      open_pnl = m.open_pnl +ℤ (updated -ℤ trade.floating_pnl);
      active_trades =
          replace symbol (record trade { floating_pnl = updated; last_mark_price = mark })
            m.active_trades;
    })

unfoldable pub mark_to_market : TradeManager → PriceData → TradeManager
mark_to_market m tick = elim (find tick.symbol m.active_trades) [
  | none ↦ m
  | some trade ↦ revalue m tick.symbol trade (by_side trade.direction tick.bid tick.ask)
]

-- The record that `closeTrade` files.
unfoldable pub closed_record : Trade → ℤ → PriceData → Bool → Trade
closed_record trade close_price tick liquidated = record trade {
  close_price = close_price;
  close_time = tick.timestamp;
  liquidated = liquidated;
  pnl = floating_pnl_at trade close_price;
  floating_pnl = pos 0;
}

-- The accounting of `closeTrade`, up to the push on `closedTrades`.
unfoldable pub realize : TradeManager → String → Trade → Trade → TradeManager
realize m symbol trade closed = update_drawdown (record m {
  active_trades = erase symbol m.active_trades;
  closed_pnl = m.closed_pnl +ℤ closed.pnl;
  open_pnl = m.open_pnl -ℤ trade.floating_pnl;
})

unfoldable pub file_closed : TradeManager → String → Trade → Trade → TradeManager
file_closed m symbol trade closed = record (realize m symbol trade closed) {
  closed_trades = m.closed_trades ++ closed ∷ [];
}

unfoldable pub close_trade : TradeManager → String → ℤ → PriceData → Bool → TradeManager × Bool
close_trade m symbol close_price tick liquidated = elim (find symbol m.active_trades) [
  | none ↦ (m, false)
  | some trade ↦
      (file_closed m symbol trade (closed_record trade close_price tick liquidated), true)
]

-- The snapshot that `closeAllTrades` takes: each symbol with its last mark.
unfoldable pub to_close : Book → List (String × ℤ)
to_close [] = []
to_close ((s, t) ∷ b) = (s, t.last_mark_price) ∷ to_close b

unfoldable pub close_each : TradeManager → List (String × ℤ) → PriceData → Bool → TradeManager
close_each m [] tick liquidated = m
close_each m ((s, p) ∷ rest) tick liquidated =
    close_each (close_trade m s p tick liquidated).0 rest tick liquidated

unfoldable pub close_all_trades : TradeManager → PriceData → Bool → TradeManager
close_all_trades m tick liquidated = close_each m (to_close m.active_trades) tick liquidated

unfoldable pub review_account : TradeManager → ℕ
review_account m = length m.active_trades

unfoldable pub has_active_trade_for_symbol : TradeManager → String → Bool
has_active_trade_for_symbol m s = elim (find s m.active_trades) [ none ↦ false | some t ↦ true ]

unfoldable pub find_active_trade : TradeManager → String → Option Trade
find_active_trade m s = find s m.active_trades

abbrev pub calculate_pnl : TradeManager → ℤ
calculate_pnl m = m.closed_pnl

abbrev pub unrealized_pnl : TradeManager → ℤ
unrealized_pnl m = m.open_pnl

abbrev pub max_drawdown_points : TradeManager → ℤ
max_drawdown_points m = m.max_drawdown
