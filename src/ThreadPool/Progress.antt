-- ===== src/ThreadPool/Progress.antt =====
-- While tasks are in flight, some worker can go on.
use backtesting_engine_cpp.Prelude.{
  ℕ, suc, ◌+◌, ◌*◌, ◌≡◌, ◌≤◌, ◌⊎◌, refl, List, [], ◌∷◌, Option, none, some, length, arith, ap,
}
use backtesting_engine_cpp.ThreadPool.{
  Pool, Stage, waiting, left, executing, finished, publish_in_flight, take_task, popped, settle,
  Moves, here, there, WorkerStep, take, run, settled, leave,
}
use backtesting_engine_cpp.ThreadPool.InFlight.{all_busy}

module _ {Task E : Type 0} where
  -- Steps that a worker has left, and for the last its return.
  abbrev pub weight : Stage Task E → ℕ
  weight left = 0
  weight waiting = 1
  weight (finished err) = 2
  weight (executing task) = 3

  abbrev pub weights : List (Stage Task E) → ℕ
  weights [] = 0
  weights (v ∷ ws) = weight v + weights ws

  abbrev pub measure : Pool Task E → List (Stage Task E) → ℕ
  measure p ws = 3 * length p.tasks + weights ws

  -- The workers that have not returned.
  abbrev pub stays : Stage Task E → ℕ
  stays left = 0
  stays waiting = 1
  stays (finished err) = 1
  stays (executing task) = 1

  abbrev pub staying : List (Stage Task E) → ℕ
  staying [] = 0
  staying (v ∷ ws) = stays v + staying ws

  weights-Moves :
      {v v' : Stage Task E} {ws ws' : List (Stage Task E)}
      → Moves v v' ws ws'
      → weights ws + weight v' ≡ weights ws' + weight v
  weights-Moves here = omega arith
  weights-Moves (there m) = omega (arith, weights-Moves m)

  popped-measure :
      (task : Task) (tasks : List Task) (p p' : Pool Task E)
      → p.tasks ≡ tasks
      → popped tasks p ≡ some (task, p')
      → length p.tasks ≡ suc (length p'.tasks)
  unfolding popped
  popped-measure task [] p p' h e = absurd (ground arith)
  popped-measure task (t ∷ rest) p p' h e =
      let same : record p { tasks = rest } ≡ p' = cc in
      let size : length rest ≡ length p'.tasks = ap (λ (u : Pool Task E). length u.tasks) same in
      omega (arith, ap length h, size)

  pub WorkerStep-measure :
      {p p' : Pool Task E} {ws ws' : List (Stage Task E)}
      → WorkerStep p ws p' ws'
      → measure p' ws' + 1 ≡ measure p ws
  unfolding take_task settle publish_in_flight
  WorkerStep-measure (take {p = p} {p' = p'} task e m) =
      omega (arith, popped-measure task p.tasks p p' refl e, weights-Moves m)
  WorkerStep-measure (run task err m) = omega (arith, weights-Moves m)
  WorkerStep-measure (settled err m) = omega (arith, weights-Moves m)
  WorkerStep-measure (leave e m) = omega (arith, weights-Moves m)

  abbrev pub Next : Pool Task E → List (Stage Task E) → Type 0
  Next p ws = (p' : Pool Task E) × (ws' : List (Stage Task E)) × WorkerStep p ws p' ws'

  abbrev HasBusy : List (Stage Task E) → Type 0
  HasBusy ws =
      ((task : Task) × (ws' : List (Stage Task E)) × Moves (executing task) (finished none) ws ws')
      ⊎ ((err : Option E) × (ws' : List (Stage Task E)) × Moves (finished err) waiting ws ws')

  abbrev pub HasWaiting : Stage Task E → List (Stage Task E) → Type 0
  HasWaiting v ws = (ws' : List (Stage Task E)) × Moves waiting v ws ws'

  pub staying-HasWaiting :
      (v : Stage Task E) (ws : List (Stage Task E))
      → all_busy ws ≡ 0
      → 1 ≤ staying ws
      → HasWaiting v ws
  staying-HasWaiting v [] h k = absurd (omega arith)
  staying-HasWaiting v (waiting ∷ ws) h k = (v ∷ ws, here)
  staying-HasWaiting v (left ∷ ws) h k =
      let (ws', m) = staying-HasWaiting v ws (omega arith) (omega arith) in (left ∷ ws', there m)
  staying-HasWaiting v (executing other ∷ ws) h k = absurd (omega arith)
  staying-HasWaiting v (finished err ∷ ws) h k = absurd (omega arith)
