-- ===== src/Clusters/Members/Evaluation.antt =====
-- What each verdict on a cluster says of its members.
use backtesting_engine_cpp.Prelude.{
  ℕ, zero, suc, ◌<◌, ◌≤◌, ◌≡◌, ◌≢◌, ◌⊎◌, refl, Bool, true, false, ◌&&◌, List, [], ◌∷◌, String,
  Option, none, some, length, get_elem?, All, leb, eq_iff, if◌then◌else◌, arith, Bool-cases, inl,
  inr,
}
use backtesting_engine_cpp.Clusters.Members.{
  ClusterVerdict, allowed, group_full, symbol_strategy_stacked, strategy_not_diverse, split_member,
  evaluate_cluster_group, any_stacked, any_strategy, is_stacked, has_strategy,
}

-- Some member has the property.
abbrev pub Some : (String → Type 0) → List String → Type 0
Some P members = (i : ℕ) × (m : String) × (get_elem? members i ≡ some m) × P m

-- The member is of this symbol and strategy; of this strategy.
abbrev pub IsOf : String → String → String → Type 0
IsOf symbol strategy_name m = split_member m ≡ some (symbol, strategy_name)

abbrev pub RunsStrategy : String → String → Type 0
RunsStrategy strategy_name m = (sy : String) × (split_member m ≡ some (sy, strategy_name))

abbrev pub Explains : List String → String → String → ℕ → Bool → ClusterVerdict → Type 0
Explains members symbol strategy_name limit strict allowed =
    (length members < limit)
    × All (λ m. ¬ IsOf symbol strategy_name m) members
    × ((strict ≡ false) ⊎ All (λ m. ¬ RunsStrategy strategy_name m) members)
Explains members symbol strategy_name limit strict group_full = limit ≤ length members
Explains members symbol strategy_name limit strict symbol_strategy_stacked =
    (length members < limit) × Some (IsOf symbol strategy_name) members
Explains members symbol strategy_name limit strict strategy_not_diverse =
    (length members < limit)
    × (strict ≡ true)
    × All (λ m. ¬ IsOf symbol strategy_name m) members
    × Some (RunsStrategy strategy_name) members

is_stacked-true :
    (symbol strategy_name : String) (p : Option (String × String))
    → is_stacked symbol strategy_name p ≡ true
    → p ≡ some (symbol, strategy_name)
unfolding is_stacked
is_stacked-true symbol strategy_name none h = absurd (ground arith)
is_stacked-true symbol strategy_name (some (y, n)) h =
    ground (arith, eq_iff y symbol, eq_iff n strategy_name)

is_stacked-false :
    (symbol strategy_name : String) (p : Option (String × String))
    → is_stacked symbol strategy_name p ≡ false
    → p ≢ some (symbol, strategy_name)
unfolding is_stacked
is_stacked-false symbol strategy_name none h e = ground arith
is_stacked-false symbol strategy_name (some (y, n)) h e =
    ground (arith, eq_iff y symbol, eq_iff n strategy_name)

has_strategy-true :
    (strategy_name : String) (p : Option (String × String))
    → has_strategy strategy_name p ≡ true
    → (sy : String) × (p ≡ some (sy, strategy_name))
unfolding has_strategy
has_strategy-true strategy_name none h = absurd (ground arith)
has_strategy-true strategy_name (some (y, n)) h = (y, ground (arith, eq_iff n strategy_name))

has_strategy-false :
    (strategy_name y : String) (p : Option (String × String))
    → has_strategy strategy_name p ≡ false
    → p ≢ some (y, strategy_name)
unfolding has_strategy
has_strategy-false strategy_name y none h e = ground arith
has_strategy-false strategy_name y (some (z, n)) h e = ground (arith, eq_iff n strategy_name)

any_stacked_lem :
    (symbol strategy_name : String) (members : List String)
    → ((any_stacked symbol strategy_name members ≡ true) × Some (IsOf symbol strategy_name) members)
      ⊎ ((any_stacked symbol strategy_name members ≡ false)
          × All (λ m. ¬ IsOf symbol strategy_name m) members)
unfolding any_stacked
any_stacked_lem symbol strategy_name [] = inr (refl, tt)
any_stacked_lem symbol strategy_name (m ∷ members) =
    elim (Bool-cases (is_stacked symbol strategy_name (split_member m))) [
      | inl t ↦
          rw t
            (inl (refl, (zero, m, refl, is_stacked-true symbol strategy_name (split_member m) t)))
      | inr f ↦ rw f (elim (any_stacked_lem symbol strategy_name members) [
        | inl (t, (i, n, e, h)) ↦ inl (t, (suc i, n, e, h))
        | inr (g, h) ↦ inr (g, (is_stacked-false symbol strategy_name (split_member m) f, h))
      ])
    ]

any_strategy_lem :
    (strategy_name : String) (members : List String)
    → ((any_strategy strategy_name members ≡ true) × Some (RunsStrategy strategy_name) members)
      ⊎ ((any_strategy strategy_name members ≡ false)
          × All (λ m. ¬ RunsStrategy strategy_name m) members)
unfolding any_strategy
any_strategy_lem strategy_name [] = inr (refl, tt)
any_strategy_lem strategy_name (m ∷ members) =
    elim (Bool-cases (has_strategy strategy_name (split_member m))) [
      | inl t ↦
          rw t (inl (refl, (zero, m, refl, has_strategy-true strategy_name (split_member m) t)))
      | inr f ↦ rw f (elim (any_strategy_lem strategy_name members) [
        | inl (t, (i, n, e, h)) ↦ inl (t, (suc i, n, e, h))
        | inr (g, h) ↦
            inr (g, (λ r. has_strategy-false strategy_name r.0 (split_member m) f r.1, h))
      ])
    ]

-- Every verdict is the right one. `allowed`: the cluster has room, no member is of this symbol and
-- strategy, and, where the cluster is strict, none is of this strategy. `group_full`: it has no room.
-- `symbol_strategy_stacked`: it has room, and a member is of this symbol and strategy.
-- `strategy_not_diverse`: it has room and is strict, no member is of this symbol and strategy, and
-- one is of this strategy.
pub evaluate_cluster_group-Explains :
    (members : List String) (symbol strategy_name : String) (limit : ℕ) (strict : Bool)
    → Explains members symbol strategy_name limit strict
        (evaluate_cluster_group members symbol strategy_name limit strict)
unfolding evaluate_cluster_group
evaluate_cluster_group-Explains members symbol strategy_name limit strict =
    elim (Bool-cases (leb limit (length members))) [
      | inl full ↦ rw full (ground arith)
      | inr room ↦ rw room (elim (any_stacked_lem symbol strategy_name members) [
        | inl (t, found) ↦ rw t (ground arith, found)
        | inr (f, clear) ↦ rw f (diverse strict (ground arith) clear)
      ])
    ]
  where
    diverse :
        (strict : Bool)
        → length members < limit
        → All (λ m. ¬ IsOf symbol strategy_name m) members
        → Explains members symbol strategy_name limit strict
            (if strict && any_strategy strategy_name members then strategy_not_diverse else allowed)
    diverse false less clear = (less, clear, inl refl)
    diverse true less clear = elim (any_strategy_lem strategy_name members) [
      | inl (t, found) ↦ rw t (less, refl, clear, found)
      | inr (f, none_there) ↦ rw f (less, clear, inr none_there)
    ]
