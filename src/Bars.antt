-- ===== src/Bars.antt =====
-- Bars built from ticks: source/shared/utilities, source/shared/models/ohlcObject.cppm.
pub mod Ohlc
pub mod Window
pub mod RangeBar
pub mod Atr
pub mod Store
pub mod Conditions
