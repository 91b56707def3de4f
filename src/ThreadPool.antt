-- ===== src/ThreadPool.antt =====
-- The fixed pool of workers (threadPool.hpp). A section of code under the mutex is a function on the
-- members that it guards, with nothing where the section waits; the threads interleave between them.
pub mod InFlight
pub mod Progress
pub mod Quiet
use backtesting_engine_cpp.Prelude.{
  ℕ, ◌+◌, ◌-◌, ◌*◌, ◌%◌, ◌^◌, ◌≡◌, Bool, true, false, List, [], ◌∷◌, ◌++◌, Option, none, some, ℤ,
  pos, ltb, ◌==◌, if◌then◌else◌,
}
use backtesting_engine_cpp.Prelude.Int.{to_int32}

-- The members, but for the threads. `gauge` is what the observer's counter holds, nothing where
-- there is no observer.
pub record Pool (Task E : Type 0) : Type 0 where
  pub tasks : List Task
  pub in_flight : ℕ
  pub capacity : ℕ
  pub gauge : Option ℤ
  pub first_error : Option E

-- Where a worker stands in its loop.
pub data Stage (Task E : Type 0) : Type 0 where
  waiting left : Stage Task E
  executing : Task → Stage Task E
  finished : Option E → Stage Task E

unfoldable pub stored : Option ℤ → ℕ → Option ℤ
stored none n = none
stored (some before) n = some (to_int32 (pos n))

unfoldable pub first_of {ℓ} : {A : Type ℓ} → Option A → Option A → Option A
first_of none later = later
first_of (some x) later = some x

module _ {Task E : Type 0} where
  unfoldable pub new_pool : ℕ → Option ℤ → Pool Task E
  new_pool threads in_flight_gauge = record {
    tasks = [];
    in_flight = 0;
    capacity = threads * 2 % 2 ^ 64;
    gauge = in_flight_gauge;
    first_error = none;
  }

  unfoldable pub publish_in_flight : Pool Task E → Pool Task E
  unfolding stored
  publish_in_flight p = record p { gauge = stored p.gauge p.in_flight }

  -- Waits while `capacity` tasks are in flight.
  unfoldable pub submit : Task → Pool Task E → Option (Pool Task E)
  unfolding publish_in_flight
  submit task p =
      if ltb p.in_flight p.capacity
      then some (
          publish_in_flight
            (record p { tasks = p.tasks ++ task ∷ []; in_flight = (p.in_flight + 1) % 2 ^ 64 }))
      else none

  -- Whether `wait` goes on.
  unfoldable pub is_idle : Pool Task E → Bool
  is_idle p = p.in_flight == 0

  unfoldable pub take_error : Pool Task E → Option E × Pool Task E
  take_error p = (p.first_error, record p { first_error = none })

  unfoldable pub popped : List Task → Pool Task E → Option (Task × Pool Task E)
  popped [] p = none
  popped (task ∷ rest) p = some (task, record p { tasks = rest })

  -- A worker takes the oldest task, and waits while there is none.
  unfoldable pub take_task : Pool Task E → Option (Task × Pool Task E)
  unfolding popped
  take_task p = popped p.tasks p

  -- After a task, with what it threw. The subtraction wraps.
  unfoldable pub settle : Option E → Pool Task E → Pool Task E
  unfolding publish_in_flight first_of
  settle err p = publish_in_flight (record p {
    first_error = first_of p.first_error err;
    in_flight = (p.in_flight + (2 ^ 64 - 1)) % 2 ^ 64;
  })

  -- One worker of the list moves on.
  pub data Moves (v v' : Stage Task E) : List (Stage Task E) → List (Stage Task E) → Type 0 where
    here : {rest : List (Stage Task E)} → Moves v v' (v ∷ rest) (v' ∷ rest)
    there :
        {other : Stage Task E} {rest rest' : List (Stage Task E)}
        → Moves v v' rest rest'
        → Moves v v' (other ∷ rest) (other ∷ rest')

  -- A step of a worker. `leave` is its return when a stop is requested and no task is left.
  pub data WorkerStep
      : Pool Task E → List (Stage Task E) → Pool Task E → List (Stage Task E) → Type 0 where
    take :
        {p p' : Pool Task E} {ws ws' : List (Stage Task E)} (task : Task)
        → take_task p ≡ some (task, p')
        → Moves waiting (executing task) ws ws'
        → WorkerStep p ws p' ws'
    run :
        {p : Pool Task E} {ws ws' : List (Stage Task E)} (task : Task) (err : Option E)
        → Moves (executing task) (finished err) ws ws'
        → WorkerStep p ws p ws'
    settled :
        {p : Pool Task E} {ws ws' : List (Stage Task E)} (err : Option E)
        → Moves (finished err) waiting ws ws'
        → WorkerStep p ws (settle err p) ws'
    leave :
        {p : Pool Task E} {ws ws' : List (Stage Task E)}
        → take_task p ≡ none
        → Moves waiting left ws ws'
        → WorkerStep p ws p ws'

  -- The calls and the workers' steps in any order, from a new pool.
  pub data Reached (threads : ℕ) (g : Option ℤ) (ws : List (Stage Task E))
      : Pool Task E → List (Stage Task E) → Type 0 where
    start : Reached threads g ws (new_pool threads g) ws
    submitted :
        {p p' : Pool Task E} {vs : List (Stage Task E)} (task : Task)
        → submit task p ≡ some p'
        → Reached threads g ws p vs
        → Reached threads g ws p' vs
    error_taken :
        {p : Pool Task E} {vs : List (Stage Task E)}
        → Reached threads g ws p vs
        → Reached threads g ws (take_error p).1 vs
    worked :
        {p p' : Pool Task E} {vs vs' : List (Stage Task E)}
        → WorkerStep p vs p' vs'
        → Reached threads g ws p vs
        → Reached threads g ws p' vs'
