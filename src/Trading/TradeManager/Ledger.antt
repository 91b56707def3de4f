-- ===== src/Trading/TradeManager/Ledger.antt =====
-- The books of a manager (source/run/trading/tradeManager.cppm): its running sums against its trades,
-- its extremes against its equity, and what the operations do to them.
use backtesting_engine_cpp.Prelude.{
  ℕ, ◌≡◌, refl, Bool, none, some, List, [], ◌∷◌, ◌++◌, String, arith,
}
use backtesting_engine_cpp.Prelude.{ℤ, pos, ◌+ℤ◌, ◌-ℤ◌, ◌≤ℤ◌, int_laws, parts}
use backtesting_engine_cpp.Trading.Models.{Direction, PriceData, Trade}
use backtesting_engine_cpp.Trading.TradeManager.{
  TradeManager, new_manager, find, erase, floating_pnl_at, equity, update_drawdown, build_trade,
  enter, revalue, realize, file_closed, open_trade, mark_to_market, close_trade, to_close,
  close_each, close_all_trades,
}
use backtesting_engine_cpp.Trading.TradeManager.Cases.{counted, open_cases, mark_cases, close_cases}
use backtesting_engine_cpp.Trading.TradeManager.Book.{
  floating_sum, Distinct, Entries, erase-Distinct, replace-Distinct, floating_sum-erase,
  floating_sum-replace, erase-Entries, replace-Entries, find-Entries,
}

abbrev pub pnl_sum : List Trade → ℤ
pnl_sum [] = pos 0
pnl_sum (t ∷ ts) = t.pnl +ℤ pnl_sum ts

pub pnl_sum-append : (ts : List Trade) (t : Trade) → pnl_sum (ts ++ t ∷ []) ≡ pnl_sum ts +ℤ t.pnl
pnl_sum-append [] t = omega int_laws
pnl_sum-append (u ∷ ts) t = omega (int_laws, parts (pnl_sum-append ts t))

-- An open trade stands under its own symbol, valued at its last mark.
pub record IsMarked (s : String) (t : Trade) : Type 0 where
  pub keyed : t.symbol ≡ s
  pub valued : t.floating_pnl ≡ floating_pnl_at t t.last_mark_price

-- The sums, and the entries of the map.
pub record IsBalanced (m : TradeManager) : Type 0 where
  pub open_sum : m.open_pnl ≡ floating_sum m.active_trades
  pub closed_sum : m.closed_pnl ≡ pnl_sum m.closed_trades
  pub distinct : Distinct m.active_trades
  pub marked : Entries IsMarked m.active_trades

-- The extremes: no equity above the peak, none further below it than the drawdown.
pub record IsBounded (m : TradeManager) : Type 0 where
  pub peak_nonneg : pos 0 ≤ℤ m.peak_equity
  pub drawdown_nonneg : pos 0 ≤ℤ m.max_drawdown
  pub below_peak : equity m ≤ℤ m.peak_equity
  pub above_trough : m.peak_equity -ℤ equity m ≤ℤ m.max_drawdown

pub record IsConsistent (m : TradeManager) : Type 0 where
  pub balanced : IsBalanced m
  pub bounded : IsBounded m

update_drawdown-IsBalanced : (m : TradeManager) → IsBalanced m → IsBalanced (update_drawdown m)
unfolding update_drawdown
update_drawdown-IsBalanced m b = record {
  open_sum = b.open_sum;
  closed_sum = b.closed_sum;
  distinct = b.distinct;
  marked = b.marked;
}

update_drawdown-IsBounded :
    (m : TradeManager)
    → pos 0 ≤ℤ m.peak_equity
    → pos 0 ≤ℤ m.max_drawdown
    → IsBounded (update_drawdown m)
unfolding update_drawdown
update_drawdown-IsBounded m p d = grind int_laws

settle :
    (m : TradeManager)
    → pos 0 ≤ℤ m.peak_equity
    → pos 0 ≤ℤ m.max_drawdown
    → IsBalanced m
    → IsConsistent (update_drawdown m)
settle m p d b = record {
  balanced = update_drawdown-IsBalanced m b;
  bounded = update_drawdown-IsBounded m p d;
}

pub new_manager-IsConsistent : (slippage : ℤ) → IsConsistent (new_manager slippage)
unfolding new_manager
new_manager-IsConsistent slippage = record {
  balanced = record { open_sum = refl; closed_sum = refl; distinct = tt; marked = tt };
  bounded = record {
    peak_nonneg = omega arith;
    drawdown_nonneg = omega arith;
    below_peak = omega int_laws;
    above_trough = omega int_laws;
  };
}

build_trade-IsMarked :
    (slippage : ℤ) (counter : ℕ) (tick : PriceData) (size : ℤ) (d : Direction) (stop limit : ℤ)
    → IsMarked tick.symbol (build_trade slippage counter tick size d stop limit)
unfolding build_trade floating_pnl_at
build_trade-IsMarked slippage counter tick size d stop limit = record {
  keyed = refl;
  valued = refl;
}

counted-IsConsistent : (m : TradeManager) → IsConsistent m → IsConsistent (counted m)
counted-IsConsistent m v = record {
  balanced = record {
    open_sum = v.balanced.open_sum;
    closed_sum = v.balanced.closed_sum;
    distinct = v.balanced.distinct;
    marked = v.balanced.marked;
  };
  bounded = record {
    peak_nonneg = v.bounded.peak_nonneg;
    drawdown_nonneg = v.bounded.drawdown_nonneg;
    below_peak = v.bounded.below_peak;
    above_trough = v.bounded.above_trough;
  };
}

enter-IsConsistent :
    (m : TradeManager) (t : Trade)
    → IsMarked t.symbol t
    → find t.symbol m.active_trades ≡ none
    → IsConsistent m
    → IsConsistent (enter m t)
unfolding enter
enter-IsConsistent m t k free v = settle _ v.bounded.peak_nonneg v.bounded.drawdown_nonneg record {
  open_sum = omega (int_laws, parts v.balanced.open_sum);
  closed_sum = v.balanced.closed_sum;
  distinct = (free, v.balanced.distinct);
  marked = (k, v.balanced.marked);
}

revalue-IsConsistent :
    (m : TradeManager) (s : String) (t : Trade) (mark : ℤ)
    → find s m.active_trades ≡ some t
    → IsConsistent m
    → IsConsistent (revalue m s t mark)
unfolding revalue floating_pnl_at
revalue-IsConsistent m s t mark e v =
    settle _ v.bounded.peak_nonneg v.bounded.drawdown_nonneg record {
      open_sum = omega (
        int_laws,
        parts v.balanced.open_sum,
        parts (floating_sum-replace s u m.active_trades t e),
      );
      closed_sum = v.balanced.closed_sum;
      distinct = replace-Distinct s u m.active_trades v.balanced.distinct;
      marked =
          replace-Entries IsMarked s u m.active_trades
            (record {
              keyed = (find-Entries IsMarked s m.active_trades t v.balanced.marked e).keyed;
              valued = refl;
            })
            v.balanced.marked;
    }
  where
    u : Trade
    u = record t { floating_pnl = floating_pnl_at t mark; last_mark_price = mark }

file_closed-IsConsistent :
    (m : TradeManager) (s : String) (t closed : Trade)
    → find s m.active_trades ≡ some t
    → IsConsistent m
    → IsConsistent (file_closed m s t closed)
unfolding file_closed realize update_drawdown
file_closed-IsConsistent m s t closed e v =
    settle
      (record m {
        active_trades = erase s m.active_trades;
        closed_pnl = m.closed_pnl +ℤ closed.pnl;
        open_pnl = m.open_pnl -ℤ t.floating_pnl;
        closed_trades = m.closed_trades ++ closed ∷ [];
      })
      v.bounded.peak_nonneg v.bounded.drawdown_nonneg
      record {
        open_sum =
            omega (
              int_laws,
              parts v.balanced.open_sum,
              parts (floating_sum-erase s m.active_trades t e),
            );
        closed_sum =
            omega (
              int_laws,
              parts v.balanced.closed_sum,
              parts (pnl_sum-append m.closed_trades closed),
            );
        distinct = erase-Distinct s m.active_trades v.balanced.distinct;
        marked = erase-Entries IsMarked s m.active_trades v.balanced.marked;
      }

-- The operations keep the books consistent.
pub open_trade-IsConsistent :
    (m : TradeManager) (tick : PriceData) (size : ℤ) (d : Direction) (stop limit : ℤ)
    → IsConsistent m
    → IsConsistent (open_trade m tick size d stop limit).0
unfolding build_trade
open_trade-IsConsistent m tick size d stop limit v =
    open_cases IsConsistent m tick size d stop limit (λ old e. counted-IsConsistent m v)
      λ free.
        enter-IsConsistent (counted m) _
          (build_trade-IsMarked m.entry_slippage_tenth_pips m.trade_counter tick size d stop limit)
          free (counted-IsConsistent m v)

pub mark_to_market-IsConsistent :
    (m : TradeManager) (tick : PriceData) → IsConsistent m → IsConsistent (mark_to_market m tick)
mark_to_market-IsConsistent m tick v =
    mark_cases IsConsistent m tick v λ t e. revalue-IsConsistent m tick.symbol t _ e v

pub close_trade-IsConsistent :
    (m : TradeManager) (s : String) (p : ℤ) (tick : PriceData) (liquidated : Bool)
    → IsConsistent m
    → IsConsistent (close_trade m s p tick liquidated).0
close_trade-IsConsistent m s p tick liquidated v =
    close_cases IsConsistent m tick s p liquidated (λ e. v)
      λ t e. file_closed-IsConsistent m s t _ e v

pub close_each-IsConsistent :
    (m : TradeManager) (l : List (String × ℤ)) (tick : PriceData) (liquidated : Bool)
    → IsConsistent m
    → IsConsistent (close_each m l tick liquidated)
unfolding close_each
close_each-IsConsistent m [] tick liquidated v = v
close_each-IsConsistent m ((s, p) ∷ l) tick liquidated v =
    close_each-IsConsistent (close_trade m s p tick liquidated).0 l tick liquidated
      (close_trade-IsConsistent m s p tick liquidated v)

pub close_all_trades-IsConsistent :
    (m : TradeManager) (tick : PriceData) (liquidated : Bool)
    → IsConsistent m
    → IsConsistent (close_all_trades m tick liquidated)
unfolding close_all_trades
close_all_trades-IsConsistent m tick liquidated v =
    close_each-IsConsistent m (to_close m.active_trades) tick liquidated v
