-- ===== src/Examples/Sweeps.antt =====
-- A small grid, both ways.
use backtesting_engine_cpp.Prelude.{ℕ, ◌%◌, ◌^◌, ◌≡◌, refl, some, [], ◌∷◌, length, arith}
use backtesting_engine_cpp.Sweep.{
  Ranges, generate_all_combinations, reverse_onto, combination_at, combination_count,
}
use backtesting_engine_cpp.Sweep.Lazy.{IsMirrored, combination_at-IsMirrored}
use backtesting_engine_cpp.Sweep.Count.{combination_count-length}

abbrev small_grid : Ranges ℕ
small_grid = ("STOP", 1 ∷ 2 ∷ []) ∷ ("LIMIT", 3 ∷ 6 ∷ 9 ∷ []) ∷ []

fifth : combination_at small_grid 4 ≡ some (("LIMIT", 6) ∷ ("STOP", 2) ∷ [])
unfolding combination_at
fifth = refl

combination_at_example : IsMirrored small_grid 4
unfolding reverse_onto generate_all_combinations
combination_at_example = combination_at-IsMirrored small_grid 4 ((refl, tt), (tt, tt)) (omega arith)

combination_count_example :
    combination_count small_grid ≡ length (generate_all_combinations small_grid) % 2 ^ 64
combination_count_example = combination_count-length small_grid
