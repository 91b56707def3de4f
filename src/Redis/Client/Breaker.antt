-- ===== src/Redis/Client/Breaker.antt =====
-- How a call through the client ends, and what the breaker does to the next one.
use backtesting_engine_cpp.Prelude.{
  ◌+◌, ◌<◌, ◌≤◌, ◌≡◌, refl, String, none, some, arith, Bool-cases, ltb, true, false, inl, inr, ◌⊎◌,
  ◌∙◌,
}
use backtesting_engine_cpp.Redis.{Server, Attempt, Op, done, raised}
use backtesting_engine_cpp.Redis.Client.{SyncRedisClient, run, close_breaker, breaker_open}

module _ {W A : Type 0} ⦃s : Server W⦄ where
  abbrev pub Skipped : SyncRedisClient → Op W A → String → W → Type 0
  Skipped c op error w =
      (s.now w < c.fail_fast_until)
      × (run c op error w ≡ (record { value = none; error = "" }, c, w))

  abbrev pub Completed : SyncRedisClient → Op W A → String → W → Type 0
  Completed c op error w =
      (c.fail_fast_until ≤ s.now w)
      × (v : A) × (w' : W) × (op w ≡ (done v, w'))
      × (run c op error w ≡ (record { value = some v; error = error }, close_breaker c, w'))

  abbrev pub Failed : SyncRedisClient → Op W A → String → W → Type 0
  Failed c op error w =
      (c.fail_fast_until ≤ s.now w)
      × (e : String) × (w' : W) × (op w ≡ (raised e, w'))
      × (run c op error w ≡ (
        record { value = none; error = e },
        record c { fail_fast_until = s.now (s.cancel_exec w') + c.fail_fast_cooldown },
        s.cancel_exec w',
      ))

  -- Every call ends in one of three ways.
  pub run-cases :
      (c : SyncRedisClient) (op : Op W A) (error : String) (w : W)
      → Skipped c op error w ⊎ (Completed c op error w ⊎ Failed c op error w)
  unfolding run breaker_open
  run-cases c op error w = answer (op w) refl
    where
      answer :
          (r : Attempt A × W)
          → op w ≡ r
          → Skipped c op error w ⊎ (Completed c op error w ⊎ Failed c op error w)
      answer (done v, w') e = elim (Bool-cases (ltb (s.now w) c.fail_fast_until)) [
        | inl t ↦ inl (ground arith, rw t)
        | inr f ↦ inr (inl (ground arith, v, w', e, rw (f, e)))
      ]
      answer (raised x, w') e = elim (Bool-cases (ltb (s.now w) c.fail_fast_until)) [
        | inl t ↦ inl (ground arith, rw t)
        | inr f ↦ inr (inr (ground arith, x, w', e, rw (f, e)))
      ]

-- A value that `run` returns is the operation's, and the world is the one it left.
pub run-value :
    {W A : Type 0} ⦃s : Server W⦄ (c : SyncRedisClient) (op : Op W A) (error : String) (w : W)
    (v : A)
    → (run c op error w).0.value ≡ some v
    → op w ≡ (done v, (run c op error w).2)
run-value c op error w v h = elim (run-cases c op error w) [
  | inl (early, e) ↦ absurd (let q = rw e at h in cc)
  | inr (inl (late, u, w', o, e)) ↦ let q = rw e at h in rw e (o ∙ (let u≡v : u ≡ v = cc in rw u≡v))
  | inr (inr (late, x, w', o, e)) ↦ absurd (let q = rw e at h in cc)
]

-- When a call that the breaker lets through raises, it returns nothing and the exception's text,
-- and cancels what is pending. Each next call, of whatever operation, made while the clock has not
-- reached the failure's instant plus the cooldown, returns nothing with an empty error text and
-- leaves the client and the world as they are.
pub run-fail_fast :
    {W A B : Type 0} ⦃s : Server W⦄ (c : SyncRedisClient) (op : Op W A) (next : Op W B)
    (error error' e : String) (w w' later : W)
    → c.fail_fast_until ≤ s.now w
    → op w ≡ (raised e, w')
    → s.now later < s.now (s.cancel_exec w') + c.fail_fast_cooldown
    → ((run c op error w).0 ≡ record { value = none; error = e })
      × ((run c op error w).2 ≡ s.cancel_exec w')
      × (run (run c op error w).1 next error' later
          ≡ (record { value = none; error = "" }, (run c op error w).1, later))
unfolding run breaker_open
run-fail_fast ⦃s = s⦄ c op next error error' e w w' later shut h early =
    let first : ltb (s.now w) c.fail_fast_until ≡ false = ground arith in
    let second : ltb (s.now later) (s.now (s.cancel_exec w') + c.fail_fast_cooldown) ≡ true =
      ground arith in
    rw (first, h, second) (refl, refl, refl)
