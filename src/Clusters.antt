-- ===== src/Clusters.antt =====
-- source/shared/redis/positionClustering.{hpp,cpp}: the caps on positions in clusters of correlated
-- symbols that all workers share through Redis.
pub mod Table
pub mod Members
pub mod Grouping
pub mod Gate
pub mod Sync
