-- ===== src/Examples/Pools.antt =====
-- A pool of two workers.
use backtesting_engine_cpp.Prelude.{ℕ, refl, List, [], ◌∷◌, String, none, some, pos}
use backtesting_engine_cpp.Prelude.Int.{to_int32, ◌+ℤ◌}
use backtesting_engine_cpp.ThreadPool.{
  Pool, Stage, waiting, left, executing, settle, run, settled, leave, new_pool, submit, take_task,
  here, there, take, Reached, start, submitted, worked,
}
use backtesting_engine_cpp.ThreadPool.InFlight.{IsSound, Reached-IsSound}
use backtesting_engine_cpp.ThreadPool.Quiet.{Run, unmoved, onward}

abbrev idle_workers : List (Stage String String)
idle_workers = waiting ∷ waiting ∷ []

abbrev queued : List String → ℕ → Pool String String
queued tasks n = record {
  tasks = tasks;
  in_flight = n;
  capacity = 4;
  gauge = some (pos n);
  first_error = none;
}

-- The second worker has the first task, and the second is in the queue.
abbrev some_work :
    Reached 2 (some (pos 0)) idle_workers (queued ("b" ∷ []) 2) (waiting ∷ executing "a" ∷ [])
unfolding submit new_pool take_task to_int32 ◌+ℤ◌
some_work = submitted "b" refl (worked (take "a" refl (there here)) (submitted "a" refl start))

Reached-IsSound_example : IsSound (queued ("b" ∷ []) 2) (waiting ∷ executing "a" ∷ [])
unfolding submit new_pool take_task to_int32 ◌+ℤ◌
Reached-IsSound_example = Reached-IsSound refl refl some_work

-- Both tasks end, one of them with an exception, and both workers return.
abbrev ended : Pool String String
ended = settle (some "failed") (settle none (queued [] 2))

abbrev all_work :
    Run (queued ("b" ∷ []) 2) (waiting ∷ executing "a" ∷ []) 7 ended (left ∷ left ∷ [])
unfolding take_task settle
all_work = onward (leave refl here) (
    onward (leave refl (there here)) (
      onward (settled (some "failed") here) (
        onward (settled none (there here)) (
          onward (run "b" (some "failed") here)
            (onward (run "a" none (there here)) (onward (take "b" refl here) unmoved))))))
