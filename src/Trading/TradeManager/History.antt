-- ===== src/Trading/TradeManager/History.antt =====
-- A history of calls on one manager (source/run/trading/tradeManager.cppm), against the curve of its
-- account equity.
use backtesting_engine_cpp.Prelude.{
  ◌≡◌, refl, ◌∙◌, ap, Bool, Option, none, some, List, [], ◌∷◌, String, arith,
}
use backtesting_engine_cpp.Prelude.{ℤ, pos, ◌-ℤ◌, max_ℤ, max_ℤ_bounds, int_laws}
use backtesting_engine_cpp.Trading.Models.{Direction, PriceData, Trade}
use backtesting_engine_cpp.Trading.TradeManager.{
  TradeManager, find, equity, update_drawdown, enter, revalue, realize, file_closed, open_trade,
  mark_to_market, close_trade, new_manager,
}
use backtesting_engine_cpp.Trading.TradeManager.Curve.{
  highest, drop_from, deepest_drop, scan_drawdown, drop_nonneg, scan_drawdown-eq, highest-max,
}
use backtesting_engine_cpp.Trading.TradeManager.Cases.{counted}
use backtesting_engine_cpp.Trading.TradeManager.Ledger.{
  IsConsistent, open_trade-IsConsistent, mark_to_market-IsConsistent, close_trade-IsConsistent,
  new_manager-IsConsistent,
}

pub data Call : Type 0 where
  opens : PriceData → ℤ → Direction → ℤ → ℤ → Call
  marks : PriceData → Call
  closes : String → ℤ → PriceData → Bool → Call

pub step : TradeManager → Call → TradeManager
step m (opens tick size d stop limit) = (open_trade m tick size d stop limit).0
step m (marks tick) = mark_to_market m tick
step m (closes s p tick liquidated) = (close_trade m s p tick liquidated).0

pub run : TradeManager → List Call → TradeManager
run m [] = m
run m (c ∷ cs) = run (step m c) cs

-- Any history from a new manager leaves consistent books.
pub step-IsConsistent : (m : TradeManager) (c : Call) → IsConsistent m → IsConsistent (step m c)
unfolding step
step-IsConsistent m (opens tick size d stop limit) v =
    open_trade-IsConsistent m tick size d stop limit v
step-IsConsistent m (marks tick) v = mark_to_market-IsConsistent m tick v
step-IsConsistent m (closes s p tick liquidated) v =
    close_trade-IsConsistent m s p tick liquidated v

run-IsConsistent : (cs : List Call) (m : TradeManager) → IsConsistent m → IsConsistent (run m cs)
unfolding run
run-IsConsistent [] m v = v
run-IsConsistent (c ∷ cs) m v = run-IsConsistent cs (step m c) (step-IsConsistent m c v)

-- After any history of calls on a new manager the running sums are those of its trades, no symbol
-- has two open trades, each is valued at its last mark, and the extremes bound the equity.
pub run-new_manager-IsConsistent :
    (slippage : ℤ) (cs : List Call) → IsConsistent (run (new_manager slippage) cs)
run-new_manager-IsConsistent slippage cs = run-IsConsistent cs _ (new_manager-IsConsistent slippage)

-- The curve: a call that opens, revalues or closes a trade adds the equity after it.
abbrev pub when_held : Option Trade → ℤ → List ℤ → List ℤ
when_held none e l = l
when_held (some t) e l = e ∷ l

abbrev pub when_free : Option Trade → ℤ → List ℤ → List ℤ
when_free none e l = e ∷ l
when_free (some t) e l = l

pub curve : TradeManager → List Call → List ℤ
unfolding step
curve m [] = []
curve m (opens tick size d stop limit ∷ cs) =
    let m' = step m (opens tick size d stop limit) in
    when_free (find tick.symbol m.active_trades) (equity m') (curve m' cs)
curve m (marks tick ∷ cs) =
    let m' = step m (marks tick) in
    when_held (find tick.symbol m.active_trades) (equity m') (curve m' cs)
curve m (closes s p tick liquidated ∷ cs) =
    let m' = step m (closes s p tick liquidated) in
    when_held (find s m.active_trades) (equity m') (curve m' cs)

-- The two effects that a call can have on the extremes: one sample of the equity, or none.
record IsSampled (m m' : TradeManager) : Type 0 where
  peak_is : m'.peak_equity ≡ max_ℤ m.peak_equity (equity m')
  drawdown_is :
      m'.max_drawdown ≡ max_ℤ m.max_drawdown (max_ℤ m.peak_equity (equity m') -ℤ equity m')

record IsKept (m m' : TradeManager) : Type 0 where
  same_peak : m'.peak_equity ≡ m.peak_equity
  same_drawdown : m'.max_drawdown ≡ m.max_drawdown

enter-IsSampled : (m : TradeManager) (t : Trade) → IsSampled m (enter m t)
unfolding enter update_drawdown max_ℤ
enter-IsSampled m t = record { peak_is = refl; drawdown_is = refl }

revalue-IsSampled :
    (m : TradeManager) (s : String) (t : Trade) (mark : ℤ) → IsSampled m (revalue m s t mark)
unfolding revalue update_drawdown max_ℤ
revalue-IsSampled m s t mark = record { peak_is = refl; drawdown_is = refl }

file_closed-IsSampled :
    (m : TradeManager) (s : String) (t closed : Trade) → IsSampled m (file_closed m s t closed)
unfolding file_closed realize update_drawdown max_ℤ
file_closed-IsSampled m s t closed = record { peak_is = refl; drawdown_is = refl }

-- Where the manager stands after a rest of the history, from its extremes and the curve.
record IsOnCurve (m after : TradeManager) (l : List ℤ) : Type 0 where
  peak_on : after.peak_equity ≡ highest m.peak_equity l
  drawdown_on : after.max_drawdown ≡ scan_drawdown m.peak_equity m.max_drawdown l

sampled-IsOnCurve :
    (m m' after : TradeManager) (l : List ℤ)
    → IsSampled m m'
    → IsOnCurve m' after l
    → IsOnCurve m after (equity m' ∷ l)
unfolding scan_drawdown highest
sampled-IsOnCurve m m' after l s on = record {
  peak_on = on.peak_on ∙ ap (λ p. highest p l) s.peak_is ∙ highest-max m.peak_equity (equity m') l;
  drawdown_on =
      on.drawdown_on
      ∙ ap (λ p. scan_drawdown p m'.max_drawdown l) s.peak_is
      ∙ ap (λ d. scan_drawdown (max_ℤ m.peak_equity (equity m')) d l) s.drawdown_is;
}

kept-IsOnCurve :
    (m m' after : TradeManager) (l : List ℤ)
    → IsKept m m'
    → IsOnCurve m' after l
    → IsOnCurve m after l
kept-IsOnCurve m m' after l k on = record {
  peak_on = on.peak_on ∙ ap (λ p. highest p l) k.same_peak;
  drawdown_on =
      on.drawdown_on
      ∙ ap (λ p. scan_drawdown p m'.max_drawdown l) k.same_peak
      ∙ ap (λ d. scan_drawdown m.peak_equity d l) k.same_drawdown;
}

when_held-IsOnCurve :
    (o : Option Trade) (m m' after : TradeManager) (l : List ℤ)
    → ((t : Trade) → o ≡ some t → IsSampled m m')
    → (o ≡ none → IsKept m m')
    → IsOnCurve m' after l
    → IsOnCurve m after (when_held o (equity m') l)
when_held-IsOnCurve none m m' after l s k on = kept-IsOnCurve m m' after l (k refl) on
when_held-IsOnCurve (some t) m m' after l s k on = sampled-IsOnCurve m m' after l (s t refl) on

when_free-IsOnCurve :
    (o : Option Trade) (m m' after : TradeManager) (l : List ℤ)
    → (o ≡ none → IsSampled m m')
    → ((t : Trade) → o ≡ some t → IsKept m m')
    → IsOnCurve m' after l
    → IsOnCurve m after (when_free o (equity m') l)
when_free-IsOnCurve none m m' after l s k on = sampled-IsOnCurve m m' after l (s refl) on
when_free-IsOnCurve (some t) m m' after l s k on = kept-IsOnCurve m m' after l (k t refl) on

run-IsOnCurve : (cs : List Call) (m : TradeManager) → IsOnCurve m (run m cs) (curve m cs)
unfolding run curve step
run-IsOnCurve [] m = record {
  peak_on = unfold highest in refl;
  drawdown_on = unfold scan_drawdown in refl;
}
run-IsOnCurve (opens tick size d stop limit ∷ cs) m =
    let m' = step m (opens tick size d stop limit) in
    when_free-IsOnCurve (find tick.symbol m.active_trades) m m' (run m' cs) (curve m' cs)
      (λ e. unfold open_trade in rw (e, step, open_trade) (entered _))
      (λ t e.
        unfold open_trade in
        rw (e, step, open_trade) (record { same_peak = refl; same_drawdown = refl }))
      (run-IsOnCurve cs m')
  where
    entered : (t : Trade) → IsSampled m (enter (counted m) t)
    entered t = record {
      peak_is = (enter-IsSampled (counted m) t).peak_is;
      drawdown_is = (enter-IsSampled (counted m) t).drawdown_is;
    }
run-IsOnCurve (marks tick ∷ cs) m =
    let m' = step m (marks tick) in
    when_held-IsOnCurve (find tick.symbol m.active_trades) m m' (run m' cs) (curve m' cs)
      (λ t e.
        unfold mark_to_market in rw (e, step, mark_to_market) (revalue-IsSampled m tick.symbol t _))
      (λ e.
        unfold mark_to_market in
        rw (e, step, mark_to_market) (record { same_peak = refl; same_drawdown = refl }))
      (run-IsOnCurve cs m')
run-IsOnCurve (closes s p tick liquidated ∷ cs) m =
    let m' = step m (closes s p tick liquidated) in
    when_held-IsOnCurve (find s m.active_trades) m m' (run m' cs) (curve m' cs)
      (λ t e. unfold close_trade in rw (e, step, close_trade) (file_closed-IsSampled m s t _))
      (λ e.
        unfold close_trade in
        rw (e, step, close_trade) (record { same_peak = refl; same_drawdown = refl }))
      (run-IsOnCurve cs m')

-- After any history from a new manager the peak is the highest point of the equity curve, which
-- starts at 0, and the maximum drawdown is the deepest drop from a point of it to a later one.
pub run-max_drawdown :
    (slippage : ℤ) (cs : List Call)
    → let m = new_manager slippage in
      ((run m cs).max_drawdown ≡ deepest_drop (pos 0 ∷ curve m cs))
      × ((run m cs).peak_equity ≡ highest (pos 0) (curve m cs))
unfolding new_manager deepest_drop
run-max_drawdown slippage cs =
    let m = new_manager slippage in
    let on = run-IsOnCurve cs m in
    let scan = scan_drawdown-eq (curve m cs) (pos 0) (pos 0) (omega arith) in
    (on.drawdown_on ∙ scan ∙ floor (curve m cs), on.peak_on)
  where
    floor :
        (l : List ℤ)
        → max_ℤ (pos 0) (max_ℤ (drop_from (pos 0) l) (deepest_drop l))
          ≡ max_ℤ (drop_from (pos 0) l) (deepest_drop l)
    floor l = omega (int_laws, max_ℤ_bounds, drop_nonneg (pos 0) l)
