-- ===== src/Sweep.antt =====
-- source/load/sweep: named ranges of values, and the grid of their combinations. A range is known by
-- the values that its `generateValues` returns.
pub mod Lazy
pub mod Count
use backtesting_engine_cpp.Prelude.{
  ℕ, zero, suc, ◌+◌, ◌*◌, ◌/◌, ◌%◌, ◌^◌, ◌≡◌, Bool, true, false, Option, none, some, List, [], ◌∷◌,
  ◌++◌, String, str_eq, if◌then◌else◌, length, get_elem?, map,
}

-- `std::map<std::string, double>`, as an association list.
abbrev pub Combination : Type 0 → Type 0
Combination A = List (String × A)

-- The registered ranges, in the order of registration.
abbrev pub Ranges : Type 0 → Type 0
Ranges A = List (String × List A)

module _ {A : Type 0} where
  -- `Combination::get` throws on a missing name, `set` adds it or overwrites its value.
  unfoldable pub get : String → Combination A → Option A
  get name [] = none
  get name ((k, v) ∷ c) = if str_eq k name then some v else get name c

  unfoldable pub set : String → A → Combination A → Combination A
  set name v [] = (name, v) ∷ []
  set name v ((k, w) ∷ c) = if str_eq k name then (k, v) ∷ c else (k, w) ∷ set name v c

  -- The two inner loops of `generateAllCombinations`.
  unfoldable pub expand : String → List A → List (Combination A) → List (Combination A)
  unfolding set
  expand name values [] = []
  expand name values (base ∷ bases) = map (λ v. set name v base) values ++ expand name values bases

  unfoldable pub expand_all : Ranges A → List (Combination A) → List (Combination A)
  unfolding expand
  expand_all [] result = result
  expand_all ((name, values) ∷ ranges) result = expand_all ranges (expand name values result)

  unfoldable pub generate_all_combinations : Ranges A → List (Combination A)
  unfolding expand_all
  generate_all_combinations ranges = expand_all ranges ([] ∷ [])

  -- The loop of `combinationCount`, in `std::size_t`.
  unfoldable pub multiply_counts : ℕ → Ranges A → ℕ
  multiply_counts count [] = count
  multiply_counts count ((name, values) ∷ ranges) =
      multiply_counts (count * length values % 2 ^ 64) ranges

  unfoldable pub combination_count : Ranges A → ℕ
  unfolding multiply_counts
  combination_count ranges = multiply_counts 1 ranges

  -- `std::views::reverse`, onto what has been passed already.
  unfoldable pub reverse_onto : Ranges A → Ranges A → Ranges A
  reverse_onto [] passed = passed
  reverse_onto (r ∷ ranges) passed = reverse_onto ranges (r ∷ passed)

  -- The loop of `combinationAt` over the ranges in reverse. A range without values, where the
  -- source divides by 0, gives none.
  unfoldable pub decode : Ranges A → Combination A → ℕ → Option (Combination A)
  unfolding set
  decode [] combo index = some combo
  decode ((name, values) ∷ ranges) combo index = elim (get_elem? values (index % length values)) [
    | none ↦ none
    | some v ↦ decode ranges (set name v combo) (index / length values)
  ]

  unfoldable pub combination_at : Ranges A → ℕ → Option (Combination A)
  unfolding decode reverse_onto
  combination_at ranges index = decode (reverse_onto ranges []) [] index

  unfoldable pub range_value_counts : Ranges A → List (String × ℕ)
  range_value_counts [] = []
  range_value_counts ((name, values) ∷ ranges) = (name, length values) ∷ range_value_counts ranges
