-- ===== src/Trading.antt =====
-- The trading core: source/shared/models and source/run/trading.
pub mod Models
pub mod TradeManager
pub mod ExitRules
pub mod RunLoop
