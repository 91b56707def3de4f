-- ===== src/ThreadPool/InFlight.antt =====
-- The count of the tasks in flight.
use backtesting_engine_cpp.Prelude.{
  ℕ, suc, ◌+◌, ◌-◌, ◌%◌, ◌^◌, ◌≡◌, ◌≤◌, ◌<◌, inl, inr, refl, List, [], ◌∷◌, ◌++◌, Option, none,
  some, ℤ, pos, ltb, length, arith, Bool-cases, subst, ap,
}
use backtesting_engine_cpp.Prelude.Int.{to_int32}
use backtesting_engine_cpp.ThreadPool.{
  Pool, Stage, waiting, left, executing, finished, stored, new_pool, publish_in_flight, submit,
  take_error, take_task, popped, settle, Moves, here, there, WorkerStep, take, run, settled, leave,
  Reached, start, submitted, error_taken, worked,
}

-- The observer sees the count as a 32-bit integer.
abbrev pub Shows : Option ℤ → ℕ → Type 0
Shows none n = Unit
Shows (some z) n = z ≡ to_int32 (pos n)

Shows-stored : (g : Option ℤ) (n : ℕ) → Shows (stored g n) n
unfolding stored
Shows-stored none n = tt
Shows-stored (some z) n = refl

length-append_one {ℓ} : {A : Type ℓ} (xs : List A) (x : A) → length (xs ++ x ∷ []) ≡ length xs + 1
length-append_one [] x = refl
length-append_one (y ∷ xs) x = omega (arith, length-append_one xs x)

module _ {Task E : Type 0} where
  -- One for a worker whose task is not settled.
  abbrev pub busy : Stage Task E → ℕ
  busy waiting = 0
  busy left = 0
  busy (executing task) = 1
  busy (finished err) = 1

  abbrev pub all_busy : List (Stage Task E) → ℕ
  all_busy [] = 0
  all_busy (v ∷ ws) = busy v + all_busy ws

  all_busy-Moves :
      {v v' : Stage Task E} {ws ws' : List (Stage Task E)}
      → Moves v v' ws ws'
      → all_busy ws + busy v' ≡ all_busy ws' + busy v
  all_busy-Moves here = omega arith
  all_busy-Moves (there m) = omega (arith, all_busy-Moves m)

  -- The count is that of the tasks queued and of those that a worker has; it is within the capacity,
  -- which a machine word holds; the observer sees it.
  pub record IsSound (p : Pool Task E) (ws : List (Stage Task E)) : Type 0 where
    pub counts : p.in_flight ≡ length p.tasks + all_busy ws
    pub fits : p.in_flight ≤ p.capacity
    pub capacity_bound : p.capacity < 2 ^ 64
    pub shown : Shows p.gauge p.in_flight

  new_pool-IsSound :
      (threads : ℕ) (g : Option ℤ) (ws : List (Stage Task E))
      → Shows g 0
      → all_busy ws ≡ 0
      → IsSound (new_pool threads g) ws
  unfolding new_pool
  new_pool-IsSound threads g ws h rest = record {
    counts = omega (arith, rest);
    fits = omega arith;
    capacity_bound = omega arith;
    shown = h;
  }

  added-IsSound :
      (task : Task) (p : Pool Task E) (ws : List (Stage Task E))
      → p.in_flight < p.capacity
      → IsSound p ws
      → IsSound
          (publish_in_flight
            (record p { tasks = p.tasks ++ task ∷ []; in_flight = (p.in_flight + 1) % 2 ^ 64 }))
          ws
  unfolding publish_in_flight
  added-IsSound task p ws room s = record {
    counts = omega (arith, s.counts, s.capacity_bound, length-append_one p.tasks task);
    fits = omega (arith, s.capacity_bound);
    capacity_bound = s.capacity_bound;
    shown = Shows-stored p.gauge ((p.in_flight + 1) % 2 ^ 64);
  }

  submit-IsSound :
      (task : Task) (p p' : Pool Task E) (ws : List (Stage Task E))
      → submit task p ≡ some p'
      → IsSound p ws
      → IsSound p' ws
  unfolding submit
  submit-IsSound task p p' ws e s = elim (Bool-cases (ltb p.in_flight p.capacity)) [
    | inl t ↦
        let same : publish_in_flight
              (record p { tasks = p.tasks ++ task ∷ []; in_flight = (p.in_flight + 1) % 2 ^ 64 })
            ≡ p' =
          let q = rw t at e in cc in
        subst (λ u. IsSound u ws) same (added-IsSound task p ws (ground arith) s)
    | inr f ↦ absurd (let q = rw f at e in ground arith)
  ]

  popped-IsSound :
      (task : Task) (tasks : List Task) (p p' : Pool Task E) (ws ws' : List (Stage Task E))
      → p.tasks ≡ tasks
      → popped tasks p ≡ some (task, p')
      → Moves waiting (executing task) ws ws'
      → IsSound p ws
      → IsSound p' ws'
  unfolding popped
  popped-IsSound task [] p p' ws ws' h e m s = absurd (ground arith)
  popped-IsSound task (t ∷ rest) p p' ws ws' h e m s =
      let same : record p { tasks = rest } ≡ p' = cc in
      let size : length p.tasks ≡ suc (length rest) = ap length h in
      subst (λ u. IsSound u ws') same
        (record {
          counts = omega (arith, s.counts, size, all_busy-Moves m);
          fits = s.fits;
          capacity_bound = s.capacity_bound;
          shown = s.shown;
        })

  moved-IsSound :
      {v v' : Stage Task E} {p : Pool Task E} {ws ws' : List (Stage Task E)}
      → busy v ≡ busy v'
      → Moves v v' ws ws'
      → IsSound p ws
      → IsSound p ws'
  moved-IsSound same m s = record {
    counts = omega (arith, s.counts, all_busy-Moves m);
    fits = s.fits;
    capacity_bound = s.capacity_bound;
    shown = s.shown;
  }

  busy-Moves :
      {v v' : Stage Task E} {ws ws' : List (Stage Task E)}
      → Moves v v' ws ws'
      → busy v ≤ all_busy ws
  busy-Moves here = omega arith
  busy-Moves (there m) = omega (arith, busy-Moves m)

  settle-IsSound :
      (err : Option E) (p : Pool Task E) (ws ws' : List (Stage Task E))
      → Moves (finished err) waiting ws ws'
      → IsSound p ws
      → IsSound (settle err p) ws'
  unfolding settle publish_in_flight
  settle-IsSound err p ws ws' m s =
      let some_busy : 1 ≤ all_busy ws = busy-Moves m in
      let less : all_busy ws + 0 ≡ all_busy ws' + 1 = all_busy-Moves m in
      let down : (p.in_flight + (2 ^ 64 - 1)) % 2 ^ 64 ≡ length p.tasks + all_busy ws' =
        omega (arith, s.counts, s.fits, s.capacity_bound) in
      record {
        counts = down;
        fits = omega (arith, s.counts, s.fits);
        capacity_bound = s.capacity_bound;
        shown = Shows-stored p.gauge ((p.in_flight + (2 ^ 64 - 1)) % 2 ^ 64);
      }

  WorkerStep-IsSound :
      {p p' : Pool Task E} {ws ws' : List (Stage Task E)}
      → WorkerStep p ws p' ws'
      → IsSound p ws
      → IsSound p' ws'
  unfolding take_task
  WorkerStep-IsSound (take {p = p} {p' = p'} {ws = ws} {ws' = ws'} task e m) s =
      popped-IsSound task p.tasks p p' ws ws' refl e m s
  WorkerStep-IsSound (run task err m) s = moved-IsSound refl m s
  WorkerStep-IsSound (settled {p = p} {ws = ws} {ws' = ws'} err m) s =
      settle-IsSound err p ws ws' m s
  WorkerStep-IsSound (leave e m) s = moved-IsSound refl m s

  take_error-IsSound :
      (p : Pool Task E) (ws : List (Stage Task E)) → IsSound p ws → IsSound (take_error p).1 ws
  unfolding take_error
  take_error-IsSound p ws s = record {
    counts = s.counts;
    fits = s.fits;
    capacity_bound = s.capacity_bound;
    shown = s.shown;
  }

  -- However the calls and the workers' steps interleave, from a new pool whose workers have no task
  -- and whose observer's counter, if there is one, is 0: the count is that of the tasks queued and of
  -- those that a worker has, it is within the capacity, which a 64-bit word holds, and the observer
  -- sees it as a 32-bit integer.
  pub Reached-IsSound :
      {threads : ℕ} {g : Option ℤ} {ws vs : List (Stage Task E)} {p : Pool Task E}
      → Shows g 0
      → all_busy ws ≡ 0
      → Reached threads g ws p vs
      → IsSound p vs
  Reached-IsSound {threads} {g} {ws} h rest start = new_pool-IsSound threads g ws h rest
  Reached-IsSound h rest (submitted {p = p} {p' = p'} {vs = vs} task e r) =
      submit-IsSound task p p' vs e (Reached-IsSound h rest r)
  Reached-IsSound h rest (error_taken {p = p} {vs = vs} r) =
      take_error-IsSound p vs (Reached-IsSound h rest r)
  Reached-IsSound h rest (worked step r) = WorkerStep-IsSound step (Reached-IsSound h rest r)
