-- ===== src/Clusters/Sync.antt =====
-- The producer's rebuild of every cluster's set from the open deals (`syncAllClusters`).
use backtesting_engine_cpp.Prelude.{
  ℕ, Bool, true, false, ◌&&◌, List, [], ◌∷◌, String, none, some, str_eq, if◌then◌else◌, ◌+s◌,
}
use backtesting_engine_cpp.Redis.{Server, Op}
use backtesting_engine_cpp.Redis.Client.{SyncRedisClient, run}
use backtesting_engine_cpp.Redis.Operations.{delete_key, set_add, key_rename, set_ttl}
use backtesting_engine_cpp.Clusters.Table.{groups_for}
use backtesting_engine_cpp.Clusters.Members.{ClusterMember, cluster_key}
use backtesting_engine_cpp.Clusters.Grouping.{Clusters, group_members_by_cluster}

-- `nonce` is the process's random one.
unfoldable pub temp_key : String → String → String
temp_key nonce cluster = "temp_CG#" +s (cluster +s ("#" +s nonce))

module _ {W : Type 0} ⦃s : Server W⦄ where
  -- The values into the temporary set, up to the first that fails.
  fill : List String → String → String → SyncRedisClient → W → Bool × String × SyncRedisClient × W
  fill [] temp error c w = (true, error, c, w)
  fill (value ∷ values) temp error c w =
      let op : Op W Bool = set_add temp value in
      let (r, c', w') = run c op error w in
      elim r.value [ none ↦ (false, r.error, c', w') | some added ↦ fill values temp r.error c' w' ]

  -- The expiry of the swapped set.
  arm : String → ℕ → String → SyncRedisClient → W → Bool × SyncRedisClient × W
  arm key ttl error c w =
      let op : Op W Bool = set_ttl key ttl in
      let (r, c', w') = run c op error w in
      elim r.value [ none ↦ (false, c', w') | some armed ↦ (true, c', w') ]

  swap : String → String → ℕ → String → SyncRedisClient → W → Bool × SyncRedisClient × W
  unfolding arm
  swap temp key ttl error c w =
      let op : Op W Bool = key_rename temp key in
      let (r, c', w') = run c op error w in
      elim r.value [ none ↦ (false, c', w') | some renamed ↦ arm key ttl r.error c' w' ]

  fill_and_swap :
      List String → String → String → ℕ → String → SyncRedisClient → W → Bool × SyncRedisClient × W
  unfolding fill swap
  fill_and_swap values temp key ttl error c w =
      let (filled, error', c', w') = fill values temp error c w in
      let op : Op W Bool = delete_key temp in
      elim filled [
        | true ↦ swap temp key ttl error' c' w'
        | false ↦ (false, (run c' op "" w').1, (run c' op "" w').2)
      ]

  -- One cluster; whether it is synced. A clean-up that the breaker skipped does not stop it.
  sync_cluster :
      String → String → List String → ℕ → SyncRedisClient → W → Bool × SyncRedisClient × W
  unfolding fill_and_swap
  sync_cluster nonce cluster values ttl c w =
      let temp = temp_key nonce cluster in
      let key = cluster_key cluster in
      let op : Op W Bool = delete_key temp in
      let (r, c', w') = run c op "" w in
      elim r.value [
        | some removed ↦ fill_and_swap values temp key ttl r.error c' w'
        | none ↦
            if str_eq r.error ""
            then fill_and_swap values temp key ttl r.error c' w'
            else (false, c', w')
      ]

  sync_each : String → Clusters → ℕ → SyncRedisClient → W → Bool × SyncRedisClient × W
  unfolding sync_cluster
  sync_each nonce [] ttl c w = (true, c, w)
  sync_each nonce ((cluster, values) ∷ rest) ttl c w =
      let (synced, c', w') = sync_cluster nonce cluster values ttl c w in
      let (all, c'', w'') = sync_each nonce rest ttl c' w' in (synced && all, c'', w'')

  unfoldable pub sync_all_clusters :
      String → List ClusterMember → ℕ → SyncRedisClient → W → Bool × SyncRedisClient × W
  unfolding sync_each group_members_by_cluster groups_for
  sync_all_clusters nonce members ttl c w =
      sync_each nonce (group_members_by_cluster members groups_for) ttl c w
