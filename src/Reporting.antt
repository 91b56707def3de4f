-- ===== src/Reporting.antt =====
-- The summary of a finished run: source/run/reporting.
pub mod Numbers
pub mod Summary
