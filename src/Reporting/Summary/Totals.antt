-- ===== src/Reporting/Summary/Totals.antt =====
-- The counters of source/run/reporting/resultsSummary.cppm against the trades they count.
use backtesting_engine_cpp.Prelude.{ℕ, ◌+◌, ◌≡◌, refl, true, false, List, [], ◌∷◌, length, arith}
use backtesting_engine_cpp.Prelude.{ℤ}
use backtesting_engine_cpp.Trading.Models.{Trade}
use backtesting_engine_cpp.Trading.TradeManager.{TradeManager, Book}
use backtesting_engine_cpp.Reporting.Numbers.{Numbers}
use backtesting_engine_cpp.Reporting.Summary.{
  Counts, no_counts, count_trade, count_trades, count_open, collect,
}

-- Each closed trade is on one side, and in one class.
abbrev AddUp : Counts → ℕ → Type 0
AddUp c n =
    (c.closed_long + c.closed_short ≡ n) × (c.winners + c.losers + c.breakeven + c.unmeasured ≡ n)

count_trade-AddUp : (c : Counts) (t : Trade) (n : ℕ) → AddUp c n → AddUp (count_trade c t) (n + 1)
unfolding count_trade
count_trade-AddUp c t n h = ground arith

count_trades-AddUp :
    (ts : List Trade) (c : Counts) (n : ℕ) → AddUp c n → AddUp (count_trades c ts) (n + length ts)
unfolding count_trades
count_trades-AddUp [] c n h = omega arith
count_trades-AddUp (t ∷ ts) c n h =
    omega (arith, count_trades-AddUp ts (count_trade c t) (n + 1) (count_trade-AddUp c t n h))

count_open_sides : (b : Book) → count_open true b + count_open false b ≡ length b
unfolding count_open
count_open_sides [] = refl
count_open_sides ((s, t) ∷ b) = ground (arith, count_open_sides b)

-- In the summary of a run every trade that it opened is on one side, and every closed trade is a
-- winner, a loser, breakeven or unmeasured.
pub collect_counts :
    (N : Numbers) (m : TradeManager) (balance : N.Decimal) (months scale : ℤ)
    → let s = collect N m balance months scale in
      (s.opened_long + s.opened_short ≡ s.trades_opened)
      × (s.counts.closed_long + s.counts.closed_short ≡ s.trades_closed)
      × (s.counts.winners + s.counts.losers + s.counts.breakeven + s.counts.unmeasured
          ≡ s.trades_closed)
unfolding collect
collect_counts N m balance months scale =
    let sums = count_trades-AddUp m.closed_trades no_counts 0 (refl, refl) in
    (
      omega (arith, sums, count_open_sides m.active_trades),
      omega (arith, sums),
      omega (arith, sums),
    )
