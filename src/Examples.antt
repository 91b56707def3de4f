-- ===== src/Examples.antt =====
-- Runs of the model on concrete inputs: tests, and the theorems at inputs where their hypotheses
-- hold.
mod Inputs
mod Account
mod BarSeries
mod Runs
mod Sweeps
mod Servers
mod QueueServers
mod Documents
mod RedisRuns
mod Queues
mod Pools
