-- ===== src/Redis/Bind.antt =====
-- Taking a coroutine's result apart.
use backtesting_engine_cpp.Prelude.{◌≡◌, refl, arith}
use backtesting_engine_cpp.Redis.{Attempt, Op, done, raised, resume, co_return, ◌>>=◌}

module _ {W A B : Type 0} where
  resume-eq-done :
      (f : A → Op W B) (r : Attempt A) (u : W) (b : B) (w' : W)
      → resume f r u ≡ (done b, w')
      → (a : A) × (r ≡ done a) × (f a u ≡ (done b, w'))
  resume-eq-done f (done a) u b w' h = (a, refl, h)
  resume-eq-done f (raised x) u b w' h = absurd (ground arith)

  -- A coroutine that returns has returned at every `co_await`.
  pub >>=-eq-done :
      (m : Op W A) (f : A → Op W B) (w : W) (b : B) (w' : W)
      → (m >>= f) w ≡ (done b, w')
      → (a : A) × ((m w).0 ≡ done a) × (f a (m w).1 ≡ (done b, w'))
  >>=-eq-done m f w b w' h = resume-eq-done f (m w).0 (m w).1 b w' h

  -- Returning a value leaves the world.
  pub resume-co_return :
      (f : A → B) (r : Attempt A) (u : W) → (resume (λ (a : A). co_return (f a)) r u).1 ≡ u
  resume-co_return f (done a) u = refl
  resume-co_return f (raised x) u = refl
