-- ===== src/Trading/TradeManager/Liquidation.antt =====
-- `closeAllTrades` of source/run/trading/tradeManager.cppm on consistent books.
use mathlib.Core.List.{append_assoc, append-nil}
use backtesting_engine_cpp.Prelude.{
  ◌≡◌, refl, sym, ◌∙◌, ap, Bool, some, List, [], ◌∷◌, ◌++◌, String, eq_iff, arith,
}
use backtesting_engine_cpp.Prelude.{pos, ◌+ℤ◌, ◌-ℤ◌, ◌≤ℤ◌, int_laws, parts}
use backtesting_engine_cpp.Trading.Models.{PriceData, Trade}
use backtesting_engine_cpp.Trading.TradeManager.{
  TradeManager, Book, find, erase, floating_pnl_at, equity, update_drawdown, closed_record, realize,
  file_closed, close_trade, to_close, close_each, close_all_trades,
}
use backtesting_engine_cpp.Trading.TradeManager.Book.{floating_sum, find-Entries}
use backtesting_engine_cpp.Trading.TradeManager.Ledger.{
  IsBounded, IsConsistent, IsMarked, close_trade-IsConsistent,
}

-- The records that closing a book at its last marks files, in the order of the book.
abbrev pub at_last_marks : Book → PriceData → Bool → List Trade
at_last_marks [] tick liquidated = []
at_last_marks ((s, t) ∷ b) tick liquidated =
    closed_record t t.last_mark_price tick liquidated ∷ at_last_marks b tick liquidated

-- `after` is `m` with the trades of the book `b` closed at their last marks.
pub record IsLiquidated (m after : TradeManager) (b : Book) (tick : PriceData) (liquidated : Bool)
    : Type 0 where
  pub emptied : after.active_trades ≡ []
  pub filed : after.closed_trades ≡ m.closed_trades ++ at_last_marks b tick liquidated
  pub equity_kept : equity after ≡ equity m
  pub floating_gone : after.open_pnl ≡ pos 0
  pub peak_kept : after.peak_equity ≡ m.peak_equity
  pub drawdown_kept : after.max_drawdown ≡ m.max_drawdown

-- An equity between the extremes leaves them alone.
update_drawdown-idle :
    (m : TradeManager)
    → equity m ≤ℤ m.peak_equity
    → m.peak_equity -ℤ equity m ≤ℤ m.max_drawdown
    → ((update_drawdown m).peak_equity ≡ m.peak_equity)
      × ((update_drawdown m).max_drawdown ≡ m.max_drawdown)
unfolding update_drawdown
update_drawdown-idle m h k = ground arith

first_found : (s : String) (t : Trade) (b : Book) → find s ((s, t) ∷ b) ≡ some t
unfolding find
first_found s t b = rw ((eq_iff s s).1 refl)

first_erased : (s : String) (t : Trade) (b : Book) → erase s ((s, t) ∷ b) ≡ b
unfolding erase
first_erased s t b = rw ((eq_iff s s).1 refl)

-- One step of the loop: the first trade of the book, at its last mark.
record IsStep (m after : TradeManager) (t : Trade) (b : Book) (tick : PriceData) (liquidated : Bool)
    : Type 0 where
  shrunk : after.active_trades ≡ b
  pushed :
      after.closed_trades
      ≡ m.closed_trades ++ closed_record t t.last_mark_price tick liquidated ∷ []
  same_equity : equity after ≡ equity m
  same_peak : after.peak_equity ≡ m.peak_equity
  same_drawdown : after.max_drawdown ≡ m.max_drawdown

-- Realizing the floating PnL leaves the equity where it was, and so the extremes.
file_closed-IsStep :
    (m : TradeManager) (s : String) (t : Trade) (tick : PriceData) (liquidated : Bool)
    → IsBounded m
    → t.floating_pnl ≡ floating_pnl_at t t.last_mark_price
    → IsStep m
        (file_closed m s t (closed_record t t.last_mark_price tick liquidated))
        t
        (erase s m.active_trades)
        tick
        liquidated
unfolding file_closed realize closed_record
file_closed-IsStep m s t tick liquidated v valued = record {
  shrunk = unfold update_drawdown in refl;
  pushed = refl;
  same_equity = unfold update_drawdown in even;
  same_peak = idle.0;
  same_drawdown = idle.1;
}
  where
    moved : TradeManager
    moved = record m {
      active_trades = erase s m.active_trades;
      closed_pnl = m.closed_pnl +ℤ floating_pnl_at t t.last_mark_price;
      open_pnl = m.open_pnl -ℤ t.floating_pnl;
    }

    even : equity moved ≡ equity m
    even = omega (int_laws, parts valued)

    idle :
        ((update_drawdown moved).peak_equity ≡ m.peak_equity)
        × ((update_drawdown moved).max_drawdown ≡ m.max_drawdown)
    idle = update_drawdown-idle moved (rw even v.below_peak) (rw even v.above_trough)

close_first :
    (m : TradeManager) (s : String) (t : Trade) (b : Book) (tick : PriceData) (liquidated : Bool)
    → IsConsistent m
    → m.active_trades ≡ (s, t) ∷ b
    → IsStep m (close_trade m s t.last_mark_price tick liquidated).0 t b tick liquidated
unfolding close_trade
close_first m s t b tick liquidated v e =
    rw (found, close_trade)
      (rw erased at (file_closed-IsStep m s t tick liquidated v.bounded valued))
  where
    found : find s m.active_trades ≡ some t
    found = ap (find s) e ∙ first_found s t b

    erased : erase s m.active_trades ≡ b
    erased = ap (erase s) e ∙ first_erased s t b

    valued : t.floating_pnl ≡ floating_pnl_at t t.last_mark_price
    valued = (find-Entries IsMarked s m.active_trades t v.balanced.marked found).valued

close_each-IsLiquidated :
    (b : Book) (m : TradeManager) (tick : PriceData) (liquidated : Bool)
    → IsConsistent m
    → m.active_trades ≡ b
    → IsLiquidated m (close_each m (to_close b) tick liquidated) b tick liquidated
unfolding close_each to_close
close_each-IsLiquidated [] m tick liquidated v e = record {
  emptied = e;
  filed = sym (append-nil m.closed_trades);
  equity_kept = refl;
  floating_gone = v.balanced.open_sum ∙ ap floating_sum e;
  peak_kept = refl;
  drawdown_kept = refl;
}
close_each-IsLiquidated ((s, t) ∷ b) m tick liquidated v e =
    let next = (close_trade m s t.last_mark_price tick liquidated).0 in
    let one = close_first m s t b tick liquidated v e in
    let rest =
      close_each-IsLiquidated b next tick liquidated
        (close_trade-IsConsistent m s t.last_mark_price tick liquidated v) one.shrunk in
    record {
      emptied = rest.emptied;
      filed =
          rest.filed
          ∙ ap (λ l. l ++ at_last_marks b tick liquidated) one.pushed
          ∙ append_assoc m.closed_trades (closed_record t t.last_mark_price tick liquidated ∷ [])
              (at_last_marks b tick liquidated);
      equity_kept = rest.equity_kept ∙ one.same_equity;
      floating_gone = rest.floating_gone;
      peak_kept = rest.peak_kept ∙ one.same_peak;
      drawdown_kept = rest.drawdown_kept ∙ one.same_drawdown;
    }

-- On consistent books `closeAllTrades` empties the map, files every open trade closed at its last
-- mark, and leaves the account's equity, its peak and its maximum drawdown as they were, with no
-- floating PnL left.
pub close_all_trades-IsLiquidated :
    (m : TradeManager) (tick : PriceData) (liquidated : Bool)
    → IsConsistent m
    → IsLiquidated m (close_all_trades m tick liquidated) m.active_trades tick liquidated
unfolding close_all_trades
close_all_trades-IsLiquidated m tick liquidated v =
    close_each-IsLiquidated m.active_trades m tick liquidated v refl
