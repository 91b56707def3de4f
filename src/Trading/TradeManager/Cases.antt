-- ===== src/Trading/TradeManager/Cases.antt =====
-- The branches of the operations that look a symbol up, as rules: a property of the outcome
-- follows from the branch for a free symbol and the branch for an open trade.
use backtesting_engine_cpp.Prelude.{◌+◌, ◌%◌, ◌^◌, ◌≡◌, refl, Bool, Option, none, some, String}
use backtesting_engine_cpp.Prelude.{ℤ}
use backtesting_engine_cpp.Trading.Models.{Direction, PriceData, Trade, by_side}
use backtesting_engine_cpp.Trading.TradeManager.{
  TradeManager, find, build_trade, enter, revalue, file_closed, closed_record, open_trade,
  mark_to_market, close_trade,
}

-- The manager with its counter moved on, and the trade that `open_trade` builds.
abbrev pub counted : TradeManager → TradeManager
counted m = record m { trade_counter = (m.trade_counter + 1) % 2 ^ 64 }

module _ {ℓ} (P : TradeManager → Type ℓ) (m : TradeManager) (tick : PriceData) where
  pub open_cases :
      (size : ℤ) (d : Direction) (stop limit : ℤ)
      → ((old : Trade) → find tick.symbol m.active_trades ≡ some old → P (counted m))
      → (find tick.symbol m.active_trades ≡ none
          → P (
              enter
                (counted m)
                (build_trade m.entry_slippage_tenth_pips m.trade_counter tick size d stop limit)))
      → P (open_trade m tick size d stop limit).0
  unfolding open_trade
  open_cases size d stop limit taken free = answer (find tick.symbol m.active_trades) refl
    where
      answer :
          (o : Option Trade)
          → find tick.symbol m.active_trades ≡ o
          → P (open_trade m tick size d stop limit).0
      answer none e = rw (e, open_trade) (free e)
      answer (some old) e = rw (e, open_trade) (taken old e)

  pub mark_cases :
      P m
      → ((t : Trade)
          → find tick.symbol m.active_trades ≡ some t
          → P (revalue m tick.symbol t (by_side t.direction tick.bid tick.ask)))
      → P (mark_to_market m tick)
  unfolding mark_to_market
  mark_cases flat held = answer (find tick.symbol m.active_trades) refl
    where
      answer : (o : Option Trade) → find tick.symbol m.active_trades ≡ o → P (mark_to_market m tick)
      answer none e = rw (e, mark_to_market) flat
      answer (some t) e = rw (e, mark_to_market) (held t e)

  pub close_cases :
      (s : String) (p : ℤ) (liquidated : Bool)
      → (find s m.active_trades ≡ none → P m)
      → ((t : Trade)
          → find s m.active_trades ≡ some t
          → P (file_closed m s t (closed_record t p tick liquidated)))
      → P (close_trade m s p tick liquidated).0
  unfolding close_trade
  close_cases s p liquidated flat held = answer (find s m.active_trades) refl
    where
      answer :
          (o : Option Trade) → find s m.active_trades ≡ o → P (close_trade m s p tick liquidated).0
      answer none e = rw (e, close_trade) (flat e)
      answer (some t) e = rw (e, close_trade) (held t e)
