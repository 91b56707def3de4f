-- ===== src/Reporting/Summary.antt =====
-- source/run/reporting/resultsSummary.cppm: the statistics of a run, and its performance score.
pub mod Totals
use backtesting_engine_cpp.Prelude.{
  ℕ, ◌+◌, ◌≡◌, Bool, true, false, not, ◌&&◌, ◌||◌, Option, none, some, List, [], ◌∷◌, String,
  if◌then◌else◌, ltb, leb, ◌==◌, length,
}
use backtesting_engine_cpp.Prelude.{ℤ, pos, ltb_ℤ, leb_ℤ, eqb_ℤ}
use backtesting_engine_cpp.Trading.Models.{Direction, long, short, Trade}
use backtesting_engine_cpp.Trading.TradeManager.{TradeManager, Book}
use backtesting_engine_cpp.Reporting.Numbers.{Numbers}

-- The counters of `collect` over the closed trades.
pub record Counts : Type 0 where
  pub closed_long : ℕ
  pub closed_short : ℕ
  pub winners : ℕ
  pub losers : ℕ
  pub breakeven : ℕ
  pub liquidated : ℕ
  pub unmeasured : ℕ

abbrev pub no_counts : Counts
no_counts = record {
  closed_long = 0;
  closed_short = 0;
  winners = 0;
  losers = 0;
  breakeven = 0;
  liquidated = 0;
  unmeasured = 0;
}

abbrev one_if : Bool → ℕ
one_if b = if b then 1 else 0

abbrev pub is_long : Trade → Bool
is_long t = elim t.direction [ long ↦ true | short ↦ false ]

-- `scalingFactor == 0`: its PnL cannot be expressed in pips.
abbrev pub is_unmeasured : Trade → Bool
is_unmeasured t = eqb_ℤ t.scaling_factor (pos 0)

-- The body of the loop.
unfoldable pub count_trade : Counts → Trade → Counts
count_trade c t =
    let measured = not (is_unmeasured t) in
    record {
      closed_long = c.closed_long + one_if (is_long t);
      closed_short = c.closed_short + one_if (not (is_long t));
      liquidated = c.liquidated + one_if t.liquidated;
      unmeasured = c.unmeasured + one_if (is_unmeasured t);
      winners = c.winners + one_if (measured && ltb_ℤ (pos 0) t.pnl);
      losers = c.losers + one_if (measured && ltb_ℤ t.pnl (pos 0));
      breakeven = c.breakeven + one_if (measured && eqb_ℤ t.pnl (pos 0));
    }

unfoldable pub count_trades : Counts → List Trade → Counts
unfolding count_trade
count_trades c [] = c
count_trades c (t ∷ ts) = count_trades (count_trade c t) ts

unfoldable pub count_open : Bool → Book → ℕ
count_open side [] = 0
count_open side ((s, t) ∷ b) =
    one_if (if side then is_long t else not (is_long t)) + count_open side b

module _ (N : Numbers) where
  open N use {
    Decimal, of_int, add_dec, div_dec, less_dec, Double, of_decimal, to_decimal, of_size, of_signed,
    literal, add, sub, mul, div, abs, sqrt, less, equal, is_finite,
  }

  -- The sums of `collect`, in pips.
  pub record PipSums : Type 0 where
    pub pnl_sum : Decimal
    pub win_pip_sum : Decimal
    pub loss_pip_sum : Decimal

  unfoldable pub sum_trade : PipSums → Trade → PipSums
  sum_trade s t =
      let pips = div_dec (of_int t.pnl) (of_int t.scaling_factor) in
      if is_unmeasured t then s else record {
        pnl_sum = add_dec s.pnl_sum pips;
        win_pip_sum = if ltb_ℤ (pos 0) t.pnl then add_dec s.win_pip_sum pips else s.win_pip_sum;
        loss_pip_sum = if ltb_ℤ t.pnl (pos 0) then add_dec s.loss_pip_sum pips else s.loss_pip_sum;
      }

  unfoldable pub sum_trades : PipSums → List Trade → PipSums
  sum_trades s [] = s
  sum_trades s (t ∷ ts) = sum_trades (sum_trade s t) ts

  -- The scores, all 0 until `computePerformanceScore` sets them.
  pub record Scores : Type 0 where
    pub win_rate : Decimal
    pub trade_ratio : Decimal
    pub expectancy_score : Decimal
    pub calmar_score : Decimal
    pub confidence_multiplier : Decimal
    pub max_drawdown_percent : Decimal
    pub performance_score : Decimal

  abbrev zero_dec : Decimal
  zero_dec = of_int (pos 0)

  abbrev pub unscored : Scores
  unscored = record {
    win_rate = zero_dec;
    trade_ratio = zero_dec;
    expectancy_score = zero_dec;
    calmar_score = zero_dec;
    confidence_multiplier = zero_dec;
    max_drawdown_percent = zero_dec;
    performance_score = zero_dec;
  }

  abbrev num : ℕ → Double
  num n = literal n 1

  -- `a >= b` and `a <= b` of doubles are false on NaN, so they are not the negations of `<`.
  abbrev at_least : Double → Double → Bool
  at_least a b = less b a || equal a b

  unfoldable pub trade_ratio_of : Double → Double → Double → Double → Double
  trade_ratio_of positive negative average_win average_loss =
      if equal positive (num 0)
      then num 0
      else if equal negative (num 0) || equal average_loss (num 0)
      then num 100
      else div (mul average_win positive) (mul average_loss negative)

  unfoldable pub confidence_of : Double → Double → Double
  confidence_of total_sum years =
      if at_least total_sum (mul (num 60) years)
      then num 1
      else if at_least total_sum (mul (num 40) years)
      then literal 9 10
      else if at_least total_sum (mul (num 20) years)
      then literal 8 10
      else if at_least total_sum (mul (num 10) years)
      then literal 6 10
      else if at_least total_sum (mul (num 5) years)
      then literal 4 10
      else literal 1 10

  -- `std::max(a, b)` of doubles, and `finiteOr0` with the conversion that follows it.
  abbrev max_double : Double → Double → Double
  max_double a b = if less a b then b else a

  abbrev finite_or_0 : Double → Decimal
  finite_or_0 v = to_decimal (if is_finite v then v else num 0)

  -- The arithmetic of `computePerformanceScore` behind its guards.
  unfoldable pub score_of : Double → ℕ → ℕ → ℕ → ℤ → Decimal → Decimal → Decimal → Decimal → Scores
  unfolding trade_ratio_of confidence_of
  score_of starting_balance closed winners losers last_months final_pnl_dec win_pip_sum loss_pip_sum
        max_drop_pips =
      let positive = of_size winners in
      let negative = of_size losers in
      let total_sum = add positive negative in
      let closed_count = of_size closed in
      let win_rate = div positive closed_count in
      let loss_rate = div negative closed_count in
      let average_win =
        if less (num 0) positive then div (of_decimal win_pip_sum) positive else num 0 in
      let average_loss =
        if less (num 0) negative then abs (div (of_decimal loss_pip_sum) negative) else num 0 in
      let trade_ratio = trade_ratio_of positive negative average_win average_loss in
      let expectancy_pips = sub (mul average_win win_rate) (mul average_loss loss_rate) in
      let expectancy_percent = mul (div expectancy_pips starting_balance) (num 100) in
      let system_quality = mul expectancy_percent (sqrt total_sum) in
      let expectancy_score = mul system_quality (div (num 50) (num 2)) in
      let years = div (of_signed last_months) (num 12) in
      let final_pnl = of_decimal final_pnl_dec in
      let cagr_percent = mul (div (div final_pnl starting_balance) years) (num 100) in
      let max_drawdown_percent = mul (div (of_decimal max_drop_pips) starting_balance) (num 100) in
      let adjusted_drawdown = max_double max_drawdown_percent (num 2) in
      let calmar_score = mul (div cagr_percent adjusted_drawdown) (div (num 50) (num 3)) in
      let confidence = confidence_of total_sum years in
      let raw = add (mul expectancy_score (literal 5 10)) (mul calmar_score (literal 5 10)) in
      record {
        win_rate = finite_or_0 win_rate;
        trade_ratio = finite_or_0 trade_ratio;
        expectancy_score = finite_or_0 expectancy_score;
        calmar_score = finite_or_0 calmar_score;
        confidence_multiplier = finite_or_0 confidence;
        max_drawdown_percent = finite_or_0 max_drawdown_percent;
        performance_score = finite_or_0 (mul raw confidence);
      }

  unfoldable pub compute_performance_score :
      Decimal → ℕ → ℕ → ℕ → ℤ → Decimal → Decimal → Decimal → Decimal → Scores
  unfolding score_of
  compute_performance_score starting_balance_dec closed winners losers last_months final_pnl
        win_pip_sum loss_pip_sum max_drop_pips =
      let starting_balance = of_decimal starting_balance_dec in
      if closed == 0 || (at_least (num 0) starting_balance || leb_ℤ last_months (pos 0))
      then unscored
      else if equal (add (of_size winners) (of_size losers)) (num 0)
      then unscored
      else score_of starting_balance closed winners losers last_months final_pnl win_pip_sum
          loss_pip_sum max_drop_pips

  pub record TradingResultsStats : Type 0 where
    pub final_pnl : Decimal
    pub avg_pnl : Option Decimal
    pub trades_opened : ℕ
    pub trades_closed : ℕ
    pub opened_long : ℕ
    pub opened_short : ℕ
    pub counts : Counts
    pub scores : Scores

  unfoldable pub collect : TradeManager → Decimal → ℤ → ℤ → TradingResultsStats
  unfolding compute_performance_score sum_trades count_trades
  collect m starting_balance last_months primary_points_per_pip =
      let c = count_trades no_counts m.closed_trades in
      let sums =
        sum_trades (record { pnl_sum = zero_dec; win_pip_sum = zero_dec; loss_pip_sum = zero_dec })
          m.closed_trades in
      let closed_count = length m.closed_trades in
      let max_drop_pips =
        if eqb_ℤ primary_points_per_pip (pos 0)
        then zero_dec
        else div_dec (of_int m.max_drawdown) (of_int primary_points_per_pip) in
      record {
        final_pnl = sums.pnl_sum;
        avg_pnl =
            if closed_count == 0
            then none
            else some (div_dec sums.pnl_sum (of_int (pos closed_count)));
        trades_opened = length m.active_trades + closed_count;
        trades_closed = closed_count;
        opened_long = count_open true m.active_trades + c.closed_long;
        opened_short = count_open false m.active_trades + c.closed_short;
        counts = c;
        scores =
            compute_performance_score starting_balance closed_count c.winners c.losers last_months
              sums.pnl_sum sums.win_pip_sum sums.loss_pip_sum max_drop_pips;
      }
