-- ===== src/ThreadPool/Quiet.antt =====
-- The pool's work comes to an end.
use backtesting_engine_cpp.Prelude.{ℕ, suc, ◌≡◌, ◌≤◌, ◌⊎◌, true, List, length}
use backtesting_engine_cpp.ThreadPool.{Pool, Stage, is_idle, WorkerStep}
use backtesting_engine_cpp.ThreadPool.Progress.{staying}

module _ {Task E : Type 0} where
  -- So many steps of the workers, without a call in between.
  pub data Run (p : Pool Task E) (ws : List (Stage Task E))
      : ℕ → Pool Task E → List (Stage Task E) → Type 0 where
    unmoved : Run p ws 0 p ws
    onward :
        {n : ℕ} {p' p'' : Pool Task E} {ws' ws'' : List (Stage Task E)}
        → WorkerStep p' ws' p'' ws''
        → Run p ws n p' ws'
        → Run p ws (suc n) p'' ws''

  -- Nothing in flight, nothing queued, and every worker has returned.
  abbrev pub IsQuiet : Pool Task E → List (Stage Task E) → Type 0
  IsQuiet p ws = (is_idle p ≡ true) × (length p.tasks ≡ 0) × (staying ws ≡ 0)

  -- No worker returns while a task is queued.
  abbrev IsAttended : Pool Task E → List (Stage Task E) → Type 0
  IsAttended p ws = (1 ≤ staying ws) ⊎ (length p.tasks ≡ 0)
