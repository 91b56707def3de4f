-- ===== src/Positions.antt =====
-- source/shared/redis/positionManager.{hpp,cpp}: the book of open positions in Redis, a list of deal
-- ids for each strategy and a payload for each deal.
pub mod Codec
pub mod Manager
