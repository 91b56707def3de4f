-- ===== src/Redis/KeyValues.antt =====
-- Values under keys, as the code relies on Redis to keep them, and calls of the client that read and
-- write one.
use backtesting_engine_cpp.Prelude.{
  ℕ, ◌≡◌, refl, Bool, true, String, Option, none, some, arith, [], ◌∷◌, inl, inr,
}
use backtesting_engine_cpp.Redis.{Server, Op, done, co_return}
use backtesting_engine_cpp.Redis.Bind.{>>=-eq-done}
use backtesting_engine_cpp.Redis.Client.{SyncRedisClient, run}
use backtesting_engine_cpp.Redis.Client.Breaker.{run-cases}
use backtesting_engine_cpp.Redis.Decimal.{to_string}
use backtesting_engine_cpp.Redis.Operations.{get_string, set_string, always, has_value}

abbrev pub get_value : {W : Type 0} → Server W → String → Op W (Option String)
get_value s key = s.exec_optional (("GET" ∷ key ∷ []) ∷ [])

abbrev pub set_value : {W : Type 0} → Server W → String → String → ℕ → Op W (Option String)
set_value s key value ms = s.exec_optional (("SET" ∷ key ∷ value ∷ "PX" ∷ to_string ms ∷ []) ∷ [])

-- What Redis documents of GET and of SET with an expiry: a reply of GET is the key's value, which
-- it leaves, and after a SET that replies with a value the key has the value given.
pub record KeyValues {W : Type 0} (s : Server W) : Type 0 where
  pub value_at : W → String → Option String
  pub get_reads :
      (key : String) (w w' : W) (v : Option String)
      → get_value s key w ≡ (done v, w')
      → v ≡ value_at w key
  pub get_keeps : (key : String) (w : W) → value_at (get_value s key w).1 key ≡ value_at w key
  pub set_stores :
      (key value : String) (ms : ℕ) (w : W) (v : String)
      → (set_value s key value ms w).0 ≡ done (some v)
      → value_at (set_value s key value ms w).1 key ≡ some value
  pub cancel_keeps : (key : String) (w : W) → value_at (s.cancel_exec w) key ≡ value_at w key

module _ {W : Type 0} ⦃s : Server W⦄ (d : KeyValues s) where
  open d use {value_at}

  -- A value that was read is the key's, and reading it leaves it.
  pub run-get_string :
      (c : SyncRedisClient) (key : String) (w : W)
      → ((v : Option String) → (run c (get_string key) "" w).0.value ≡ some v → v ≡ value_at w key)
        × (value_at (run c (get_string key) "" w).2 key ≡ value_at w key)
  unfolding get_string
  run-get_string c key w = elim (run-cases c (get_value s key) "" w) [
    | inl (early, e) ↦ rw e (λ v h. absurd (cc), refl)
    | inr (inl (late, u, w', o, e)) ↦
        rw e (λ v h. ground (arith, d.get_reads key w w' u o), rw o at (d.get_keeps key w))
    | inr (inr (late, x, w', o, e)) ↦
        rw (e, d.cancel_keeps key w') (λ v h. absurd (cc), rw o at (d.get_keeps key w))
  ]

  -- A SET that was carried out leaves its value.
  pub run-set_string :
      (c : SyncRedisClient) (key value : String) (ms : ℕ) (w : W)
      → (run c (set_string key value always (some ms)) "" w).0.value ≡ some true
      → value_at (run c (set_string key value always (some ms)) "" w).2 key ≡ some value
  unfolding set_string
  run-set_string c key value ms w h =
      elim (run-cases c (set_string key value always (some ms)) "" w) [
        | inl (early, e) ↦ absurd (let q = rw e at h in cc)
        | inr (inl (late, b, w', o, e)) ↦ rw e (written b w' o (let q = rw e at h in cc))
        | inr (inr (late, x, w', o, e)) ↦ absurd (let q = rw e at h in cc)
      ]
    where
      by_reply :
          (o : Option String) (b : Bool) (w' : W)
          → (set_value s key value ms w).0 ≡ done o
          → has_value o ≡ b
          → (set_value s key value ms w).1 ≡ w'
          → b ≡ true
          → value_at w' key ≡ some value
      by_reply none b w' e f q t = absurd (ground arith)
      by_reply (some v) b w' e f q t = rw (← q) (d.set_stores key value ms w v e)

      written :
          (b : Bool) (w' : W)
          → set_string key value always (some ms) w ≡ (done b, w')
          → b ≡ true
          → value_at w' key ≡ some value
      written b w' o =
          let (r, e, f) =
            >>=-eq-done (set_value s key value ms) (λ (o : Option String). co_return (has_value o))
              w b w' o in
          by_reply r b w' e (cc) (cc)
