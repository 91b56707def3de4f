-- ===== src/Redis/TradeLocks.antt =====
-- source/shared/redis/tradeLocks.cpp: the lock a strategy takes on a direction before it trades.
pub mod Exclusion
use backtesting_engine_cpp.Prelude.{
  ℕ, ◌+◌, ◌*◌, ◌<◌, ◌≡◌, refl, Bool, true, false, String, Option, none, some, arith, ltb,
  if◌then◌else◌, ◌+s◌, Dict, lookup, insert, erase,
}
use backtesting_engine_cpp.Redis.{Server, Op}
use backtesting_engine_cpp.Redis.Client.{SyncRedisClient, Ran, run}
use backtesting_engine_cpp.Redis.Operations.{always, set_string, set_if_not_exists, delete_key}

pub lock_key : String → String → String
lock_key strategy_uuid direction = "LOCK#" +s (strategy_uuid +s ("#" +s direction))

-- `held_until` has the instants that locks of this instance are known to last to. `lock_owner` is
-- the host's name, or "live" where it cannot be read.
pub record TradeLocks : Type 0 where
  pub client : SyncRedisClient
  pub held_until : Dict ℕ
  pub lock_owner : String

module _ {W : Type 0} ⦃s : Server W⦄ where
  -- The end of a check, from the reply of the SET NX.
  checked : TradeLocks → String → ℕ → Option Bool → SyncRedisClient → W → Bool × TradeLocks × W
  checked t key until none c w = (true, record t { client = c }, w)
  checked t key until (some true) c w =
      (false, record t { client = c; held_until = insert key until t.held_until }, w)
  checked t key until (some false) c w = (true, record t { client = c }, w)

  probe : TradeLocks → String → ℕ → ℕ → W → Bool × TradeLocks × W
  unfolding checked
  probe t key ttl start w =
      let op : Op W Bool = set_if_not_exists key t.lock_owner (some (ttl * 1000)) in
      let (r, c, w') = run t.client op "" w in checked t key (start + ttl * 1000) r.value c w'

  -- True when a lock was there already, or when that cannot be known. `ttl` is in seconds.
  unfoldable pub is_there_a_trade_lock :
      TradeLocks → String → String → ℕ → W → Bool × TradeLocks × W
  unfolding lock_key probe
  is_there_a_trade_lock t strategy_uuid direction ttl w =
      let key = lock_key strategy_uuid direction in
      let start = s.now w in
      elim (lookup key t.held_until) [
        | none ↦ probe t key ttl start w
        | some until ↦
            if ltb start until
            then (true, t, w)
            else probe (record t { held_until = erase key t.held_until }) key ttl start w
      ]

  extended : TradeLocks → String → ℕ → Option Bool → SyncRedisClient → W → Bool × TradeLocks × W
  extended t key until none c w = (false, record t { client = c }, w)
  extended t key until (some false) c w = (false, record t { client = c }, w)
  extended t key until (some true) c w =
      (true, record t { client = c; held_until = insert key until t.held_until }, w)

  unfoldable pub extend_lock : TradeLocks → String → String → ℕ → W → Bool × TradeLocks × W
  unfolding lock_key extended
  extend_lock t strategy_uuid direction ttl w =
      let key = lock_key strategy_uuid direction in
      let start = s.now w in
      let op : Op W Bool = set_string key t.lock_owner always (some (ttl * 1000)) in
      let (r, c, w') = run t.client op "" w in extended t key (start + ttl * 1000) r.value c w'

  unfoldable pub release_lock : TradeLocks → String → String → W → Bool × TradeLocks × W
  unfolding lock_key
  release_lock t strategy_uuid direction w =
      let key = lock_key strategy_uuid direction in
      let op : Op W Bool = delete_key key in
      let (r, c, w') = run t.client op "" w in
      let t' = record t { client = c; held_until = erase key t.held_until } in
      elim r.value [ none ↦ (false, t', w') | some removed ↦ (true, t', w') ]
