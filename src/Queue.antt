-- ===== src/Queue.antt =====
-- source/run/queue and source/shared/utilities/queueKeys.hpp: the queues of runs and strategies that
-- workers share in Redis, and the loop of a worker.
pub mod Keys
pub mod RunQueue
pub mod DrainRuns
