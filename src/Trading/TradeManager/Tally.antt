-- ===== src/Trading/TradeManager/Tally.antt =====
-- Counts over the trades of a manager (source/run/trading/tradeManager.cppm): how many are open, and
-- a weight of the opening times of all its trades.
use backtesting_engine_cpp.Prelude.{
  ℕ, suc, ◌+◌, ◌≤◌, ◌≡◌, refl, inl, inr, Bool, some, List, [], ◌∷◌, ◌++◌, String, str_eq, arith,
  Bool-cases,
}
use backtesting_engine_cpp.Prelude.{ℤ}
use backtesting_engine_cpp.Trading.Models.{TimePoint, Direction, PriceData, Trade}
use backtesting_engine_cpp.Trading.TradeManager.{
  TradeManager, Book, find, erase, replace, update_drawdown, build_trade, enter, revalue, realize,
  closed_record, file_closed, open_trade, mark_to_market, close_trade, review_account,
}
use backtesting_engine_cpp.Trading.TradeManager.Cases.{open_cases, mark_cases, close_cases}
use backtesting_engine_cpp.Trading.TradeManager.Book.{length-erase, length-replace}

module _ (w : Trade → ℕ) where
  unfoldable pub open_tally : Book → ℕ
  open_tally [] = 0
  open_tally ((s, t) ∷ b) = w t + open_tally b

  unfoldable pub closed_tally : List Trade → ℕ
  closed_tally [] = 0
  closed_tally (t ∷ ts) = w t + closed_tally ts

  open_tally-erase :
      (s : String) (b : Book) (t : Trade)
      → find s b ≡ some t
      → open_tally b ≡ w t + open_tally (erase s b)
  unfolding open_tally find erase
  open_tally-erase s [] t e = ground arith
  open_tally-erase s ((k, u) ∷ b) t e = elim (Bool-cases (str_eq k s)) [
    | inl hit ↦ let same : u ≡ t = ground arith in rw hit (rw same refl)
    | inr miss ↦
        let rest : find s b ≡ some t = ground arith in
        rw miss (omega (arith, open_tally-erase s b t rest))
  ]

  open_tally-replace :
      (s : String) (v : Trade) (b : Book) (t : Trade)
      → find s b ≡ some t
      → w v ≡ w t
      → open_tally (replace s v b) ≡ open_tally b
  unfolding open_tally find replace
  open_tally-replace s v [] t e h = ground arith
  open_tally-replace s v ((k, u) ∷ b) t e h = elim (Bool-cases (str_eq k s)) [
    | inl hit ↦ let same : u ≡ t = ground arith in rw hit (rw same (omega (arith, h)))
    | inr miss ↦
        let rest : find s b ≡ some t = ground arith in
        rw miss (omega (arith, open_tally-replace s v b t rest h))
  ]

  closed_tally-append :
      (ts : List Trade) (t : Trade) → closed_tally (ts ++ t ∷ []) ≡ closed_tally ts + w t
  unfolding closed_tally
  closed_tally-append [] t = omega arith
  closed_tally-append (u ∷ ts) t = omega (arith, closed_tally-append ts t)

-- The weight of all trades, by their opening times.
abbrev pub tally : (TimePoint → ℕ) → TradeManager → ℕ
tally w m =
    open_tally (λ t. w t.open_time) m.active_trades
    + closed_tally (λ t. w t.open_time) m.closed_trades

module _ (w : TimePoint → ℕ) (m : TradeManager) where
  -- Neither a mark nor an exit changes the weight.
  pub mark_to_market-tally : (tick : PriceData) → tally w (mark_to_market m tick) ≡ tally w m
  unfolding revalue update_drawdown
  mark_to_market-tally tick =
      mark_cases (λ m'. tally w m' ≡ tally w m) m tick refl
        λ t e.
          omega
            (arith, open_tally-replace (λ t. w t.open_time) tick.symbol _ m.active_trades t e refl)

  pub close_trade-tally :
      (s : String) (p : ℤ) (tick : PriceData) (liquidated : Bool)
      → tally w (close_trade m s p tick liquidated).0 ≡ tally w m
  unfolding file_closed realize update_drawdown closed_record
  close_trade-tally s p tick liquidated =
      close_cases (λ m'. tally w m' ≡ tally w m) m tick s p liquidated (λ e. refl)
        λ t e. omega (
          arith,
          open_tally-erase (λ t. w t.open_time) s m.active_trades t e,
          closed_tally-append (λ t. w t.open_time) m.closed_trades
              (closed_record t p tick liquidated),
        )

  -- An entry adds at most that of its own tick.
  pub open_trade-tally :
      (tick : PriceData) (size : ℤ) (d : Direction) (stop limit : ℤ)
      → tally w (open_trade m tick size d stop limit).0 ≤ w tick.timestamp + tally w m
  unfolding enter update_drawdown build_trade open_tally
  open_trade-tally tick size d stop limit =
      open_cases (λ m'. tally w m' ≤ w tick.timestamp + tally w m) m tick size d stop limit
        (λ old e. omega arith) λ e. omega arith

module _ (m : TradeManager) where
  -- The number of open trades.
  pub mark_to_market-review_account :
      (tick : PriceData) → review_account (mark_to_market m tick) ≡ review_account m
  unfolding review_account revalue update_drawdown
  mark_to_market-review_account tick =
      mark_cases (λ m'. review_account m' ≡ review_account m) m tick refl
        λ t e. length-replace tick.symbol _ m.active_trades

  pub close_trade-review_account :
      (s : String) (p : ℤ) (tick : PriceData) (liquidated : Bool)
      → review_account (close_trade m s p tick liquidated).0 ≤ review_account m
  unfolding review_account file_closed realize update_drawdown
  close_trade-review_account s p tick liquidated =
      close_cases (λ m'. review_account m' ≤ review_account m) m tick s p liquidated
        (λ e. omega arith) λ t e. omega (arith, length-erase s m.active_trades t e)

  pub open_trade-review_account :
      (tick : PriceData) (size : ℤ) (d : Direction) (stop limit : ℤ)
      → review_account (open_trade m tick size d stop limit).0 ≤ suc (review_account m)
  unfolding review_account enter update_drawdown
  open_trade-review_account tick size d stop limit =
      open_cases (λ m'. review_account m' ≤ suc (review_account m)) m tick size d stop limit
        (λ old e. omega arith) λ e. omega arith
