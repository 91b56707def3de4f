-- ===== src/Clusters/Gate/Admission.antt =====
-- What an admitted entry has been checked against.
use backtesting_engine_cpp.Prelude.{
  ℕ, ◌*◌, ◌≡◌, ◌≢◌, refl, Bool, true, false, List, [], ◌∷◌, String, Option, none, some, All, arith,
  inl, inr, ◌∙◌,
}
use backtesting_engine_cpp.Redis.{Server, done}
use backtesting_engine_cpp.Redis.Bind.{resume-co_return}
use backtesting_engine_cpp.Redis.Client.{SyncRedisClient, Ran, run}
use backtesting_engine_cpp.Redis.Client.Breaker.{run-cases}
use backtesting_engine_cpp.Redis.TradeLocks.Exclusion.{set_nx}
use backtesting_engine_cpp.Redis.Operations.{set_if_not_exists, set_members, has_value}
use backtesting_engine_cpp.Clusters.Table.{groups_for, cluster_limit, is_strict_cluster}
use backtesting_engine_cpp.Clusters.Members.{
  ClusterVerdict, allowed, group_full, symbol_strategy_stacked, strategy_not_diverse, cluster_key,
  cluster_lock_key,
}
use backtesting_engine_cpp.Clusters.Members.Evaluation.{Explains, evaluate_cluster_group-Explains}
use backtesting_engine_cpp.Clusters.Gate.{
  is_cluster_blocked, lock_groups, review_groups, both_phases, after_lock, after_verdict,
  after_members, after_locks, Rest,
}

-- What Redis documents of SMEMBERS, and that a SET of a lock is no command on the sets. The lock keys
-- and the sets' keys are different keys.
pub record SetServer {W : Type 0} (s : Server W) : Type 0 where
  pub members_at : W → String → List String
  pub members_read :
      (key : String) (w w' : W) (l : List String)
      → s.exec_texts (("SMEMBERS" ∷ key ∷ []) ∷ []) w ≡ (done l, w')
      → l ≡ members_at w key
  pub members_keep :
      (key k : String) (w : W)
      → members_at (s.exec_texts (("SMEMBERS" ∷ key ∷ []) ∷ []) w).1 k ≡ members_at w k
  pub nx_keeps :
      (group value : String) (ms : ℕ) (g : String) (w : W)
      → members_at (set_nx s (cluster_lock_key group) value ms w).1 (cluster_key g)
        ≡ members_at w (cluster_key g)
  pub cancel_keeps : (k : String) (w : W) → members_at (s.cancel_exec w) k ≡ members_at w k

module _ {W : Type 0} ⦃s : Server W⦄ (d : SetServer s) where
  open d use {members_at}

  run_members :
      (c : SyncRedisClient) (key k : String) (w : W)
      → ((l : List String) → (run c (set_members key) "" w).0.value ≡ some l → l ≡ members_at w key)
        × (members_at (run c (set_members key) "" w).2 k ≡ members_at w k)
  unfolding set_members
  run_members c key k w = elim (run-cases c (s.exec_texts (("SMEMBERS" ∷ key ∷ []) ∷ [])) "" w) [
    | inl (early, e) ↦ rw e (λ l h. absurd (cc), refl)
    | inr (inl (late, u, w', o, e)) ↦
        rw e (λ l h. ground (arith, d.members_read key w w' u o), rw o at (d.members_keep key k w))
    | inr (inr (late, x, w', o, e)) ↦
        rw (e, d.cancel_keeps k w') (λ l h. absurd (cc), rw o at (d.members_keep key k w))
  ]

  -- What the entry needs of the clusters, at a world.
  abbrev pub Admits : List String → String → String → W → Type 0
  Admits groups symbol strategy_name w =
      All
        (λ g.
          Explains (members_at w (cluster_key g)) symbol strategy_name (cluster_limit g)
            (is_strict_cluster g) allowed)
        groups

  -- Worlds with the same members in the clusters.
  abbrev Same : W → W → Type 0
  Same w w' = (g : String) → members_at w (cluster_key g) ≡ members_at w' (cluster_key g)

  Admits-Same :
      (groups : List String) (symbol strategy_name : String) (w w' : W)
      → Same w w'
      → Admits groups symbol strategy_name w
      → Admits groups symbol strategy_name w'
  Admits-Same [] symbol strategy_name w w' same h = tt
  Admits-Same (g ∷ groups) symbol strategy_name w w' same h =
      (rw (← same g) h.0, Admits-Same groups symbol strategy_name w w' same h.1)

  review_groups-Admits :
      (groups : List String) (symbol strategy_name : String) (c : SyncRedisClient) (w : W)
      → (review_groups groups symbol strategy_name c w).0 ≡ false
      → Admits groups symbol strategy_name w
  unfolding review_groups
  review_groups-Admits [] symbol strategy_name c w = λ h. tt
  review_groups-Admits (g ∷ groups) symbol strategy_name c w =
      by_members (review_groups-Admits groups symbol strategy_name r.1 r.2) r.0.value refl
    where
      r : Ran (List String) × SyncRedisClient × W
      r = run c (set_members (cluster_key g)) "" w

      next : Rest W
      next c' w' = review_groups groups symbol strategy_name c' w'

      by_verdict :
          ((next r.1 r.2).0 ≡ false → Admits groups symbol strategy_name r.2)
          → (l : List String) (v : ClusterVerdict) → l ≡ members_at w (cluster_key g)
          → Explains l symbol strategy_name (cluster_limit g) (is_strict_cluster g) v
          → (after_verdict next v r.1 r.2).0 ≡ false
          → Admits (g ∷ groups) symbol strategy_name w
      by_verdict rest l allowed e x h = (
        rw (← e) x,
        Admits-Same groups symbol strategy_name r.2 w
            (λ k. (run_members c (cluster_key g) (cluster_key k) w).1) (rest h),
      )
      by_verdict rest l group_full e x h = absurd (cc)
      by_verdict rest l symbol_strategy_stacked e x h = absurd (cc)
      by_verdict rest l strategy_not_diverse e x h = absurd (cc)

      by_members :
          ((next r.1 r.2).0 ≡ false → Admits groups symbol strategy_name r.2)
          → (v : Option (List String)) → r.0.value ≡ v
          → (after_members next g symbol strategy_name v r.1 r.2).0 ≡ false
          → Admits (g ∷ groups) symbol strategy_name w
      by_members rest none e h = absurd (cc)
      by_members rest (some l) e h =
          by_verdict rest l _ ((run_members c (cluster_key g) (cluster_key g) w).0 l e)
            (evaluate_cluster_group-Explains l symbol strategy_name (cluster_limit g)
              (is_strict_cluster g))
            h

  run_nx-Same :
      (c : SyncRedisClient) (k symbol : String) (ms : ℕ) (w : W)
      → Same (run c (set_if_not_exists (cluster_lock_key k) symbol (some ms)) "" w).2 w
  unfolding set_if_not_exists
  run_nx-Same c k symbol ms w g =
      let moved : members_at (set_if_not_exists (cluster_lock_key k) symbol (some ms) w).1
            (cluster_key g)
          ≡ members_at w (cluster_key g) =
        rw
          (resume-co_return has_value (set_nx s (cluster_lock_key k) symbol ms w).0
            (set_nx s (cluster_lock_key k) symbol ms w).1)
          (d.nx_keeps k symbol ms g w) in
      elim (run-cases c (set_if_not_exists (cluster_lock_key k) symbol (some ms)) "" w) [
        | inl (early, e) ↦ rw e refl
        | inr (inl (late, u, w', o, e)) ↦ rw e (rw o at moved)
        | inr (inr (late, x, w', o, e)) ↦ rw (e, d.cancel_keeps (cluster_key g) w') (rw o at moved)
      ]

  lock_groups-Same :
      (groups : List String) (symbol : String) (ttl : ℕ) (c : SyncRedisClient) (w : W)
      → Same (lock_groups groups symbol ttl c w).2 w
  unfolding lock_groups
  lock_groups-Same [] symbol ttl c w g = refl
  lock_groups-Same (k ∷ groups) symbol ttl c w g =
      by_value (λ c' w'. lock_groups-Same groups symbol ttl c' w' g) r.0.value
    where
      r : Ran Bool × SyncRedisClient × W
      r = run c (set_if_not_exists (cluster_lock_key k) symbol (some (ttl * 1000))) "" w

      by_value :
          ((c' : SyncRedisClient) (w' : W)
            → members_at (lock_groups groups symbol ttl c' w').2 (cluster_key g)
              ≡ members_at w' (cluster_key g))
          → (v : Option Bool)
          → members_at
              (after_lock (λ c' w'. lock_groups groups symbol ttl c' w') v r.1 r.2).2
              (cluster_key g)
            ≡ members_at w (cluster_key g)
      by_value rest none = run_nx-Same c k symbol (ttl * 1000) w g
      by_value rest (some false) = run_nx-Same c k symbol (ttl * 1000) w g
      by_value rest (some true) = rest r.1 r.2 ∙ run_nx-Same c k symbol (ttl * 1000) w g

  both_phases-Admits :
      (groups : List String) (symbol strategy_name : String) (ttl : ℕ) (c : SyncRedisClient) (w : W)
      → (both_phases groups symbol strategy_name ttl c w).0 ≡ false
      → (groups ≢ []) × Admits groups symbol strategy_name w
  unfolding both_phases
  both_phases-Admits [] symbol strategy_name ttl c w h = absurd (cc)
  both_phases-Admits (g ∷ groups) symbol strategy_name ttl c w h =
      (λ e. cc, by_phase (lock_groups (g ∷ groups) symbol ttl c w).0 h)
    where
      l : Bool × SyncRedisClient × W
      l = lock_groups (g ∷ groups) symbol ttl c w

      by_phase :
          (b : Bool)
          → (after_locks (review_groups (g ∷ groups) symbol strategy_name) b l.1 l.2).0 ≡ false
          → Admits (g ∷ groups) symbol strategy_name w
      by_phase true h = absurd (cc)
      by_phase false h =
          Admits-Same (g ∷ groups) symbol strategy_name l.2 w
            (lock_groups-Same (g ∷ groups) symbol ttl c w)
            (review_groups-Admits (g ∷ groups) symbol strategy_name l.1 l.2 h)

  -- An entry that is let through fits every cluster of its symbol, whatever failed on the way: the
  -- symbol has clusters, and in each of them, at the world the check started from, there is room, no
  -- member is of the same symbol and strategy, and none of the same strategy if the cluster is
  -- strict.
  pub is_cluster_blocked-Admits :
      (c : SyncRedisClient) (symbol strategy_name : String) (ttl : ℕ) (w : W)
      → (is_cluster_blocked c symbol strategy_name ttl w).0 ≡ false
      → (groups_for symbol ≢ []) × Admits (groups_for symbol) symbol strategy_name w
  unfolding is_cluster_blocked
  is_cluster_blocked-Admits c symbol strategy_name ttl w =
      both_phases-Admits (groups_for symbol) symbol strategy_name ttl c w
