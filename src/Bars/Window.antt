-- ===== src/Bars/Window.antt =====
-- The monotonic deques of `rangebar::RangeSeries` (source/shared/utilities/rangeBarBuilder.cppm): a
-- list, its front first, and the two loops that pop it. Stamps are what entries expire by.
pub mod Extreme
use backtesting_engine_cpp.Prelude.{
  Bool, true, false, List, [], ◌∷◌, ◌++◌, Option, none, some, if◌then◌else◌,
}
use backtesting_engine_cpp.Prelude.{ℤ}

pub record Entry {ℓ} (S : Type ℓ) : Type ℓ where
  pub stamp : S
  pub price : ℤ

module _ {ℓ} {S : Type ℓ} where
  -- `while (!deque.empty() && gone(deque.back().price)) deque.pop_back();`
  unfoldable pub pop_back_while : (ℤ → Bool) → List (Entry S) → List (Entry S)
  pop_back_while gone [] = []
  pop_back_while gone (e ∷ es) = elim (pop_back_while gone es) [
    | [] ↦ if gone e.price then [] else e ∷ []
    | f ∷ fs ↦ e ∷ f ∷ fs
  ]

  -- The insertion: pop what the new price passes, then push it.
  unfoldable pub push_back : (ℤ → ℤ → Bool) → Entry S → List (Entry S) → List (Entry S)
  unfolding pop_back_while
  push_back passes e es = pop_back_while (λ p. passes p e.price) es ++ e ∷ []

  -- `while (expired(deque.front())) deque.pop_front();`, on no entries it stops.
  unfoldable pub pop_front_while : (S → Bool) → List (Entry S) → List (Entry S)
  pop_front_while expired [] = []
  pop_front_while expired (e ∷ es) =
      let rest = pop_front_while expired es in if expired e.stamp then rest else e ∷ es
