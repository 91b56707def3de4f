-- ===== src/Reporting/Numbers.antt =====
-- The two kinds of numbers of the reporting code that the source does not implement:
-- `boost::decimal::decimal64_t` and the hardware's `double`. Nothing is assumed of them.
use backtesting_engine_cpp.Prelude.{ℕ, Bool}
use backtesting_engine_cpp.Prelude.{ℤ}

pub record Numbers : Type 1 where
  -- decimal64_t: conversions and operators.
  pub Decimal : Type 0
  pub of_int : ℤ → Decimal
  pub to_int64 : Decimal → ℤ
  pub add_dec : Decimal → Decimal → Decimal
  pub mul_dec : Decimal → Decimal → Decimal
  pub div_dec : Decimal → Decimal → Decimal
  pub less_dec : Decimal → Decimal → Bool
  pub at_most_dec : Decimal → Decimal → Bool
  -- double: conversions, the fraction a / b that stands for a literal, and operators.
  pub Double : Type 0
  pub of_decimal : Decimal → Double
  pub to_decimal : Double → Decimal
  pub of_size : ℕ → Double
  pub of_signed : ℤ → Double
  pub literal : ℕ → ℕ → Double
  pub add : Double → Double → Double
  pub sub : Double → Double → Double
  pub mul : Double → Double → Double
  pub div : Double → Double → Double
  pub abs : Double → Double
  pub sqrt : Double → Double
  pub less : Double → Double → Bool
  pub equal : Double → Double → Bool
  pub is_finite : Double → Bool
