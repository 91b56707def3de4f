-- ===== src/Clusters/Gate.antt =====
-- The entry check of `PositionClustering`, and the cooldown after an entry.
pub mod Admission
use backtesting_engine_cpp.Prelude.{
  ℕ, ◌*◌, ◌≡◌, refl, Bool, true, false, List, [], ◌∷◌, String, Option, none, some,
}
use backtesting_engine_cpp.Redis.{Server, Op}
use backtesting_engine_cpp.Redis.Client.{SyncRedisClient, Ran, run}
use backtesting_engine_cpp.Redis.Operations.{always, set_string, set_if_not_exists, set_members}
use backtesting_engine_cpp.Clusters.Table.{groups_for, cluster_limit, is_strict_cluster}
use backtesting_engine_cpp.Clusters.Members.{
  ClusterVerdict, allowed, group_full, symbol_strategy_stacked, strategy_not_diverse, cluster_key,
  cluster_lock_key, evaluate_cluster_group,
}

-- What goes on in a loop of the check when it is not blocked.
abbrev pub Rest : Type 0 → Type 0
Rest W = SyncRedisClient → W → Bool × SyncRedisClient × W

module _ {W : Type 0} where
  -- A lock that was not acquired blocks, and so does one whose state is unknown.
  after_lock : Rest W → Option Bool → Rest W
  after_lock rest (some true) c w = rest c w
  after_lock rest (some false) c w = (true, c, w)
  after_lock rest none c w = (true, c, w)

  after_verdict : Rest W → ClusterVerdict → Rest W
  after_verdict rest allowed c w = rest c w
  after_verdict rest group_full c w = (true, c, w)
  after_verdict rest symbol_strategy_stacked c w = (true, c, w)
  after_verdict rest strategy_not_diverse c w = (true, c, w)

  -- Members that cannot be read block.
  after_members : Rest W → String → String → String → Option (List String) → Rest W
  unfolding after_verdict evaluate_cluster_group cluster_limit is_strict_cluster
  after_members rest group symbol strategy_name none c w = (true, c, w)
  after_members rest group symbol strategy_name (some members) c w =
      after_verdict rest
        (evaluate_cluster_group members symbol strategy_name (cluster_limit group)
          (is_strict_cluster group))
        c w

  after_locks : Rest W → Bool → Rest W
  after_locks rest true c w = (true, c, w)
  after_locks rest false c w = rest c w

module _ {W : Type 0} ⦃s : Server W⦄ where
  -- Phase 1: the locks of the groups in turn; true as soon as one is not acquired.
  lock_groups : List String → String → ℕ → Rest W
  unfolding after_lock
  lock_groups [] symbol lock_ttl c w = (false, c, w)
  lock_groups (group ∷ groups) symbol lock_ttl c w =
      let op : Op W Bool =
        set_if_not_exists (cluster_lock_key group) symbol (some (lock_ttl * 1000)) in
      let (r, c', w') = run c op "" w in
      after_lock (λ c₁ w₁. lock_groups groups symbol lock_ttl c₁ w₁) r.value c' w'

  -- Phase 2: the members of the groups in turn; true as soon as one cannot be read or objects.
  review_groups : List String → String → String → Rest W
  unfolding after_members
  review_groups [] symbol strategy_name c w = (false, c, w)
  review_groups (group ∷ groups) symbol strategy_name c w =
      let op : Op W (List String) = set_members (cluster_key group) in
      let (r, c', w') = run c op "" w in
      after_members (λ c₁ w₁. review_groups groups symbol strategy_name c₁ w₁) group symbol
        strategy_name r.value c' w'

  both_phases : List String → String → String → ℕ → Rest W
  unfolding lock_groups review_groups after_locks
  both_phases [] symbol strategy_name lock_ttl c w = (true, c, w)
  both_phases (group ∷ groups) symbol strategy_name lock_ttl c w =
      let (locked_out, c', w') = lock_groups (group ∷ groups) symbol lock_ttl c w in
      after_locks (review_groups (group ∷ groups) symbol strategy_name) locked_out c' w'

  -- `lock_ttl` is in seconds. A symbol without clusters is blocked.
  unfoldable pub is_cluster_blocked :
      SyncRedisClient → String → String → ℕ → W → Bool × SyncRedisClient × W
  unfolding both_phases groups_for
  is_cluster_blocked c symbol strategy_name lock_ttl w =
      both_phases (groups_for symbol) symbol strategy_name lock_ttl c w

  mark_groups : List String → String → ℕ → SyncRedisClient → W → SyncRedisClient × W
  mark_groups [] symbol ttl c w = (c, w)
  mark_groups (group ∷ groups) symbol ttl c w =
      let op : Op W Bool = set_string (cluster_lock_key group) symbol always (some (ttl * 1000)) in
      let (r, c', w') = run c op "" w in mark_groups groups symbol ttl c' w'

  unfoldable pub mark_opened : SyncRedisClient → String → ℕ → W → SyncRedisClient × W
  unfolding mark_groups groups_for
  mark_opened c symbol ttl w = mark_groups (groups_for symbol) symbol ttl c w
