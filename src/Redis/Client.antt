-- ===== src/Redis/Client.antt =====
-- source/shared/redis/client/syncRedisClient.{hpp,cpp}: one operation at a time, run to its end or to
-- a failure, with a breaker that skips calls for a while after a failure.
pub mod Breaker
use backtesting_engine_cpp.Prelude.{
  ℕ, ◌+◌, ◌<◌, ◌≡◌, refl, Bool, String, Option, none, some, arith, ltb, if◌then◌else◌,
}
use backtesting_engine_cpp.Redis.{Server, Attempt, Op, done, raised}

-- `fail_fast_until` is an instant of the steady clock; its epoch, 0, is the closed breaker.
pub record SyncRedisClient : Type 0 where
  pub fail_fast_until : ℕ
  pub fail_fast_cooldown : ℕ

-- The constructor's default cooldown is three seconds.
abbrev pub new_client : SyncRedisClient
new_client = record { fail_fast_until = 0; fail_fast_cooldown = 3000 }

-- What `run` returns with the error text it leaves: `value` is `none` on every failure, and the
-- text is empty then exactly when the call was skipped.
pub record Ran (A : Type 0) : Type 0 where
  pub value : Option A
  pub error : String

unfoldable pub close_breaker : SyncRedisClient → SyncRedisClient
close_breaker c = record c { fail_fast_until = 0 }

module _ {W : Type 0} ⦃s : Server W⦄ where
  unfoldable pub breaker_open : SyncRedisClient → W → Bool
  breaker_open c w = ltb (s.now w) c.fail_fast_until

  -- Pending requests are cancelled, so that none is carried out later.
  unfoldable pub trip_breaker : SyncRedisClient → W → SyncRedisClient × W
  trip_breaker c w =
      let w' = s.cancel_exec w in
      (record c { fail_fast_until = s.now w' + c.fail_fast_cooldown }, w')

  settle : {A : Type 0} → SyncRedisClient → String → Attempt A × W → Ran A × SyncRedisClient × W
  unfolding trip_breaker close_breaker
  settle c error (done v, w) = (record { value = some v; error = error }, close_breaker c, w)
  settle c error (raised e, w) =
      let (c', w') = trip_breaker c w in (record { value = none; error = e }, c', w')

  -- `client.run(op, error)`: a time-out and a dead connection are exceptions of the operation here.
  unfoldable pub run :
      {A : Type 0} → SyncRedisClient → Op W A → String → W → Ran A × SyncRedisClient × W
  unfolding breaker_open settle
  run c op error w =
      let attempt = settle c error (op w) in
      if breaker_open c w then (record { value = none; error = "" }, c, w) else attempt
