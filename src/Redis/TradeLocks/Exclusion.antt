-- ===== src/Redis/TradeLocks/Exclusion.antt =====
-- The lock between instances that share one server.
use backtesting_engine_cpp.Prelude.{
  ℕ, ◌+◌, ◌*◌, ◌<◌, ◌≤◌, ◌≡◌, ◌≢◌, refl, Bool, true, false, String, Option, none, some, arith, ltb,
  [], ◌∷◌, Bool-cases, Option-cases, inl, inr, lookup, erase, ◌∙◌,
}
use backtesting_engine_cpp.Redis.{Server, Attempt, Op, done, raised, resume, co_return}
use backtesting_engine_cpp.Redis.Client.{SyncRedisClient, Ran, run}
use backtesting_engine_cpp.Redis.Client.Breaker.{run-cases}
use backtesting_engine_cpp.Redis.Decimal.{to_string}
use backtesting_engine_cpp.Redis.Operations.{set_if_not_exists, has_value}
use backtesting_engine_cpp.Redis.TradeLocks.{
  TradeLocks, lock_key, is_there_a_trade_lock, probe, checked,
}

-- The reply to SET key value PX ms NX.
abbrev pub set_nx : {W : Type 0} → Server W → String → String → ℕ → Op W (Option String)
set_nx s key value ms =
    s.exec_optional (("SET" ∷ key ∷ value ∷ "PX" ∷ to_string ms ∷ "NX" ∷ []) ∷ [])

-- What Redis documents of SET NX PX. A key is held while the server's clock is before its expiry:
-- then it blocks the SET and keeps its expiry. A SET that is carried out gives it the expiry asked
-- for, or later by the time the command took. The clock does not go back.
pub record LockServer {W : Type 0} (s : Server W) : Type 0 where
  pub server_now : W → ℕ
  pub expiry : W → String → Option ℕ
  pub nx_blocked :
      (key value : String) (ms e : ℕ) (w : W) (v : String)
      → expiry w key ≡ some e
      → server_now (set_nx s key value ms w).1 < e
      → (set_nx s key value ms w).0 ≢ done (some v)
  pub nx_keeps :
      (key value : String) (ms e : ℕ) (w : W)
      → expiry w key ≡ some e
      → server_now (set_nx s key value ms w).1 < e
      → expiry (set_nx s key value ms w).1 key ≡ some e
  pub nx_stored :
      (key value : String) (ms : ℕ) (w : W) (v : String)
      → (set_nx s key value ms w).0 ≡ done (some v)
      → (e : ℕ) × (expiry (set_nx s key value ms w).1 key ≡ some e) × (server_now w + ms ≤ e)
  pub nx_clock :
      (key value : String) (ms : ℕ) (w : W) → server_now w ≤ server_now (set_nx s key value ms w).1
  pub cancel_keeps : (key : String) (w : W) → expiry (s.cancel_exec w) key ≡ expiry w key
  pub cancel_clock : (w : W) → server_now w ≤ server_now (s.cancel_exec w)

module _ {W : Type 0} ⦃s : Server W⦄ (d : LockServer s) where
  open d use {server_now, expiry}

  -- A world at which the key is blocked until `until` at least.
  abbrev Held : String → ℕ → W → Type 0
  Held key until w = (e : ℕ) × (expiry w key ≡ some e) × (until ≤ e)

  abbrev nx_op : String → String → ℕ → Op W Bool
  nx_op key value ms = set_if_not_exists key value (some ms)

  -- The operation's own reading of the reply.
  nx_op_lem :
      (key value : String) (ms : ℕ) (w : W)
      → ((nx_op key value ms w).1 ≡ (set_nx s key value ms w).1)
        × ((nx_op key value ms w).0 ≡ done true
            → (v : String) × ((set_nx s key value ms w).0 ≡ done (some v)))
  unfolding set_if_not_exists
  nx_op_lem key value ms w = answer (set_nx s key value ms w)
    where
      answer :
          (r : Attempt (Option String) × W)
          → ((resume (λ (o : Option String). co_return (has_value o)) r.0 r.1).1 ≡ r.1)
            × ((resume (λ (o : Option String). co_return (has_value o)) r.0 r.1).0 ≡ done true
                → (v : String) × (r.0 ≡ done (some v)))
      answer (done none, u) = (refl, λ h. absurd (ground arith))
      answer (done (some v), u) = (refl, λ h. (v, refl))
      answer (raised x, u) = (refl, λ h. absurd (ground arith))

  abbrev run_nx : SyncRedisClient → String → String → ℕ → W → Ran Bool × SyncRedisClient × W
  run_nx c key value ms w = run c (nx_op key value ms) "" w

  -- What a probe of the lock does, however it ends.
  record Probed (key : String) (ms : ℕ) (w : W) (r : Ran Bool × SyncRedisClient × W) : Type 0 where
    clock : server_now w ≤ server_now r.2
    keeps :
        (e : ℕ)
        → expiry w key ≡ some e
        → server_now r.2 < e
        → (r.0.value ≢ some true) × (expiry r.2 key ≡ some e)
    takes : r.0.value ≡ some true → Held key (server_now w + ms) r.2

  probed :
      (c : SyncRedisClient) (key value : String) (ms : ℕ) (w : W)
      → Probed key ms w (run_nx c key value ms w)
  probed c key value ms w = elim (run-cases c (nx_op key value ms) "" w) [
    | inl (early, e) ↦
        rw e
          (record { clock = omega arith; keeps = λ x h b. (λ q. cc, h); takes = λ h. absurd (cc) })
    | inr (inl (late, b, w', o, e)) ↦ rw e (completed b w' o)
    | inr (inr (late, x, w', o, e)) ↦ rw e (failed x w' o)
  ]
    where
      ran :
          (a : Attempt Bool) (w' : W)
          → nx_op key value ms w ≡ (a, w')
          → w' ≡ (set_nx s key value ms w).1
      ran a w' o = rw o at (nx_op_lem key value ms w).0

      completed :
          {c' : SyncRedisClient} (b : Bool) (w' : W)
          → nx_op key value ms w ≡ (done b, w')
          → Probed key ms w (record { value = some b; error = "" }, c', w')
      completed b w' o =
          let took = λ (q : b ≡ true). (nx_op_lem key value ms w).1 (rw (o, q) refl) in
          rw (ran (done b) w' o) (record {
            clock = d.nx_clock key value ms w;
            keeps = λ x h l. (
              λ q. let (v, t) = took (cc) in absurd (d.nx_blocked key value ms x w v h l t),
              d.nx_keeps key value ms x w h l,
            );
            takes = λ h. let (v, t) = took (cc) in d.nx_stored key value ms w v t;
          })

      failed :
          {c' : SyncRedisClient} (x : String) (w' : W)
          → nx_op key value ms w ≡ (raised x, w')
          → Probed key ms w (record { value = none; error = x }, c', s.cancel_exec w')
      failed x w' o = rw (ran (raised x) w' o) (record {
        clock =
            omega (arith, d.nx_clock key value ms w, d.cancel_clock (set_nx s key value ms w).1);
        keeps = λ y h l. (
          λ q. cc,
          rw (d.cancel_keeps key (set_nx s key value ms w).1) (
              d.nx_keeps key value ms y w h
                (omega (arith, d.cancel_clock (set_nx s key value ms w).1))),
        );
        takes = λ h. absurd (cc);
      })

  -- The same of a check: its answer is true while another holds the key, and false only with the
  -- key held from there on.
  record Answered (key : String) (ttl : ℕ) (w : W) (r : Bool × TradeLocks × W) : Type 0 where
    clock : server_now w ≤ server_now r.2
    keeps :
        (e : ℕ)
        → expiry w key ≡ some e
        → server_now r.2 < e
        → (r.0 ≡ true) × (expiry r.2 key ≡ some e)
    takes : r.0 ≡ false → Held key (server_now w + ttl * 1000) r.2

  probe-Answered :
      (t : TradeLocks) (key : String) (ttl start : ℕ) (w : W)
      → Answered key ttl w (probe t key ttl start w)
  unfolding probe
  probe-Answered t key ttl start w =
      answer (run_nx t.client key t.lock_owner (ttl * 1000) w)
        (probed t.client key t.lock_owner (ttl * 1000) w)
    where
      answer :
          (r : Ran Bool × SyncRedisClient × W)
          → Probed key (ttl * 1000) w r
          → Answered key ttl w (checked t key (start + ttl * 1000) r.0.value r.1 r.2)
      answer (r, c, w') p = by_value r.value refl
        where
          by_value :
              (v : Option Bool)
              → r.value ≡ v
              → Answered key ttl w (checked t key (start + ttl * 1000) v c w')
          by_value none q = record {
            clock = p.clock;
            keeps = λ e h l. (refl, (p.keeps e h l).1);
            takes = λ h. absurd (cc);
          }
          by_value (some false) q = record {
            clock = p.clock;
            keeps = λ e h l. (refl, (p.keeps e h l).1);
            takes = λ h. absurd (cc);
          }
          by_value (some true) q = record {
            clock = p.clock;
            keeps = λ e h l. absurd ((p.keeps e h l).0 q);
            takes = λ h. p.takes q;
          }

  check-Answered :
      (t : TradeLocks) (uuid direction : String) (ttl : ℕ) (w : W)
      → Answered (lock_key uuid direction) ttl w (is_there_a_trade_lock t uuid direction ttl w)
  unfolding is_there_a_trade_lock
  check-Answered t uuid direction ttl w = elim (Option-cases (lookup key t.held_until)) [
    | inl e ↦ rw (is_there_a_trade_lock, e) (probe-Answered t key ttl (s.now w) w)
    | inr (until, e) ↦
        rw (is_there_a_trade_lock, e)
          (elim (Bool-cases (ltb (s.now w) until)) [
            | inl sure ↦ rw sure (record {
              clock = omega arith;
              keeps = λ x h l. (refl, h);
              takes = λ h. absurd (cc);
            })
            | inr past ↦ rw past (
                probe-Answered (record t { held_until = erase key t.held_until }) key ttl (s.now w)
                  w)
          ])
  ]
    where
      key : String
      key = lock_key uuid direction

  -- What may happen on the server between two checks of a lock that nobody extends or releases: a
  -- check of it by any instance, or anything that leaves the key's expiry alone, such as time.
  pub data Between (uuid direction : String) : W → W → Type 0 where
    here : (w : W) → Between uuid direction w w
    check :
        {w w' : W} (t : TradeLocks) (ttl : ℕ)
        → Between uuid direction w w'
        → Between uuid direction w (is_there_a_trade_lock t uuid direction ttl w').2
    apart :
        {w w' : W} (w'' : W)
        → expiry w'' (lock_key uuid direction) ≡ expiry w' (lock_key uuid direction)
        → server_now w' ≤ server_now w''
        → Between uuid direction w w'
        → Between uuid direction w w''

  between_clock :
      {uuid direction : String} {w w' : W}
      → Between uuid direction w w'
      → server_now w ≤ server_now w'
  between_clock (here w) = omega arith
  between_clock {uuid} {direction} (check {w' = v} t ttl b) =
      omega (arith, between_clock b, (check-Answered t uuid direction ttl v).clock)
  between_clock (apart w'' same later b) = omega (arith, between_clock b)

  between_keeps :
      {uuid direction : String} {w w' : W} (e : ℕ)
      → Between uuid direction w w'
      → expiry w (lock_key uuid direction) ≡ some e
      → server_now w' < e
      → expiry w' (lock_key uuid direction) ≡ some e
  between_keeps e (here w) h l = h
  between_keeps {uuid} {direction} e (check {w' = v} t ttl b) h l =
      let a = check-Answered t uuid direction ttl v in
      (a.keeps e (between_keeps e b h (omega (arith, a.clock))) l).1
  between_keeps e (apart w'' same later b) h l = same ∙ between_keeps e b h (omega arith)

  -- While nobody extends or releases a lock, at most one instance is let through: when a check has
  -- answered that there was no lock, then after any checks of the same strategy and direction by any
  -- instances, whatever failed in them, and anything else in between that leaves the expiry of the
  -- lock's key alone, time included, a check by any instance answers that there is a lock, as long as
  -- the server's clock at its end has not reached that of the first check plus its TTL.
  pub is_there_a_trade_lock_exclusive :
      (t t' : TradeLocks) (uuid direction : String) (ttl ttl' : ℕ) (w w' : W)
      → (is_there_a_trade_lock t uuid direction ttl w).0 ≡ false
      → Between uuid direction (is_there_a_trade_lock t uuid direction ttl w).2 w'
      → server_now (is_there_a_trade_lock t' uuid direction ttl' w').2 < server_now w + ttl * 1000
      → (is_there_a_trade_lock t' uuid direction ttl' w').0 ≡ true
  is_there_a_trade_lock_exclusive t t' uuid direction ttl ttl' w w' free b soon =
      let (e, h, until) = (check-Answered t uuid direction ttl w).takes free in
      let next = check-Answered t' uuid direction ttl' w' in
      (next.keeps e (between_keeps e b h (omega (arith, next.clock))) (omega arith)).0
