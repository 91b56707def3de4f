-- ===== src/Queue/DrainRuns/Claims.antt =====
-- The drain of one run comes to an end.
use backtesting_engine_cpp.Prelude.{
  ℕ, zero, suc, ◌+◌, ◌≤◌, ◌<◌, ◌≡◌, refl, true, [], ◌∷◌, String, Option, none, some, arith,
  Bool-cases, inl, inr, ◌+s◌,
}
use backtesting_engine_cpp.Redis.{Server, Attempt, Op, done, raised}
use backtesting_engine_cpp.Queue.Keys.{strategy_key}
use backtesting_engine_cpp.Queue.RunQueue.{pop_strategy_key, take_strategy_payload}
use backtesting_engine_cpp.Queue.DrainRuns.{
  RunConfiguration, Worker, Drain, drained, stopping, drain_failed, unfinished, drain_strategies,
  taken, popped, consume, parsed, submitted, skipped, backtest_task,
}

-- How many names a run's list has, where nobody adds to it while it is drained: a name popped is one
-- less, a pop that replies nil found none, and other workers may pop too.
pub record StrategyNames {W D Strategy Slice : Type 0} (s : Server W)
    (worker : Worker W D Strategy Slice) (run_id : String) : Type 0 where
  pub size : W → ℕ
  pub pop_takes :
      (w w' : W) (v : String)
      → s.exec_optional (("RPOP" ∷ strategy_key run_id ∷ []) ∷ []) w ≡ (done (some v), w')
      → size w' < size w
  pub pop_empty :
      (w w' : W)
      → s.exec_optional (("RPOP" ∷ strategy_key run_id ∷ []) ∷ []) w ≡ (done none, w')
      → size w' ≡ 0
  pub take_keeps :
      (key : String) (w : W) → size (s.exec_optional (("GETDEL" ∷ key ∷ []) ∷ []) w).1 ≤ size w
  pub submit_keeps : (task : Op W (Unit {0})) (w : W) → size (worker.submit task w).1 ≤ size w
  pub report_keeps :
      (component message run : String) (w : W)
      → size (worker.put_engine_exception component message run w) ≤ size w

module _ {W D Strategy Slice : Type 0} ⦃s : Server W⦄ (worker : Worker W D Strategy Slice)
    (run_cfg : RunConfiguration D) (d : StrategyNames s worker run_cfg.run_id) where
  open d use {size}

  -- What the drain says it did: the names are gone, or a stop was asked for; and it queued at most
  -- one strategy for each name, the one in hand included, after the `n` before.
  abbrev pub Ends : ℕ → ℕ → Drain × W → Type 0
  Ends n k (drained m, w) = (size w ≡ 0) × (n ≤ m) × (m ≤ n + k + 1)
  Ends n k (stopping m, w) = (worker.stop_requested w ≡ true) × (n ≤ m) × (m ≤ n + k + 1)
  Ends n k (drain_failed e, w) = Unit
  Ends n k (unfinished, w) = ⊥

  Ends-weaken :
      (n n' k k' : ℕ) (r : Drain × W) → Ends n' k' r → n ≤ n' → n' + k' ≤ n + k → Ends n k r
  Ends-weaken n n' k k' (drained m, w) h l u = (h.0, omega arith, omega arith)
  Ends-weaken n n' k k' (stopping m, w) h l u = (h.0, omega arith, omega arith)
  Ends-weaken n n' k k' (drain_failed e, w) h l u = tt
  Ends-weaken n n' k k' (unfinished, w) h l u = h

  -- At most one more strategy is queued, and there are no more names.
  abbrev Queues : ℕ → W → ℕ × W → Type 0
  Queues n w r = (n ≤ r.0) × (r.0 ≤ suc n) × (size r.1 ≤ size w)

  submitted-Queues :
      (n : ℕ) (w : W) (a : Attempt (Unit {0}) × W)
      → size a.1 ≤ size w
      → Queues n w (submitted worker run_cfg n a)
  unfolding submitted skipped
  submitted-Queues n w (done u, v) h = omega arith
  submitted-Queues n w (raised e, v) h = omega (
    arith,
    d.report_keeps "drainRuns" ("unparseable strategy payload skipped: " +s e) run_cfg.run_id v,
  )

  parsed-Queues :
      (slice : Slice) (n : ℕ) (p : Attempt Strategy) (w : W)
      → Queues n w (parsed worker slice run_cfg n p w)
  unfolding parsed skipped
  parsed-Queues slice n (raised e) w = omega (
    arith,
    d.report_keeps "drainRuns" ("unparseable strategy payload skipped: " +s e) run_cfg.run_id w,
  )
  parsed-Queues slice n (done strategy) w = submitted-Queues n w _ (
      d.submit_keeps (backtest_task worker slice (record { run = run_cfg; strategy = strategy })) w)

  consume-Queues :
      (slice : Slice) (n : ℕ) (payload : Option String) (w : W)
      → Queues n w (consume worker slice run_cfg n payload w)
  unfolding consume
  consume-Queues slice n none w = omega arith
  consume-Queues slice n (some payload) w = parsed-Queues slice n (worker.parse_strategy payload) w

  module _ (fuel n : ℕ) (slice : Slice) (w : W)
      (rest : (n' : ℕ) (key : String) (u : W)
        → size u < fuel
        → Ends n' (size u) (drain_strategies worker fuel slice run_cfg n' key u))
      (enough : size w < suc fuel) where
    abbrev next : ℕ → String → W → Drain × W
    next n' key u = drain_strategies worker fuel slice run_cfg n' key u

    popped-Ends :
        (n' : ℕ) (w' : W) (b : Attempt (Option String) × W)
        → pop_strategy_key (strategy_key run_cfg.run_id) w' ≡ b
        → n ≤ n'
        → n' ≤ suc n
        → size w' ≤ size w
        → Ends n (size w) (popped worker (next n') n' b)
    unfolding popped pop_strategy_key
    popped-Ends n' w' (raised x, u) e lo hi le = tt
    popped-Ends n' w' (done none, u) e lo hi le = (d.pop_empty w' u e, lo, omega arith)
    popped-Ends n' w' (done (some key), u) e lo hi le =
        let fewer = d.pop_takes w' u key e in
        Ends-weaken n n' (size w) (size u) (next n' key u) (rest n' key u (omega arith)) lo
          (omega arith)

    taken-Ends :
        (a : Attempt (Option String) × W)
        → size a.1 ≤ size w
        → Ends n (size w) (taken worker next slice run_cfg n a)
    unfolding taken
    taken-Ends (raised x, u) le = tt
    taken-Ends (done payload, u) le =
        let q = consume-Queues slice n payload u in
        let r = consume worker slice run_cfg n payload u in
        elim (Bool-cases (worker.stop_requested r.1)) [
          | inl t ↦ rw t (t, q.0, omega arith)
          | inr f ↦ rw f (popped-Ends r.0 r.1 _ refl q.0 q.1 (omega arith))
        ]

  -- The drain of a run ends: with as much fuel as the run's list has names, and one more, the loop is
  -- never cut off. When it ends as drained the run's list is empty, and when it ends early and no
  -- operation failed, a stop was asked for; either way it queued at most one strategy for each of the
  -- names that were there and the one in hand.
  pub drain_strategies-Ends :
      (fuel n : ℕ) (slice : Slice) (payload_key : String) (w : W)
      → size w < fuel
      → Ends n (size w) (drain_strategies worker fuel slice run_cfg n payload_key w)
  unfolding drain_strategies take_strategy_payload
  drain_strategies-Ends zero n slice payload_key w h = absurd (omega arith)
  drain_strategies-Ends (suc fuel) n slice payload_key w h =
      taken-Ends fuel n slice w (λ n' key u. drain_strategies-Ends fuel n' slice key u) h
        (s.exec_optional (("GETDEL" ∷ payload_key ∷ []) ∷ []) w) (d.take_keeps payload_key w)
