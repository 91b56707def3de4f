-- ===== src/Clusters/Grouping.antt =====
-- The members of every cluster, from the open deals (`groupMembersByCluster`).
pub mod Membership
pub mod Order
use backtesting_engine_cpp.Prelude.{
  ◌≡◌, refl, Bool, true, false, List, [], ◌∷◌, ◌++◌, String, str_eq, if◌then◌else◌,
}
use backtesting_engine_cpp.Search.Texts.{str_lt}
use backtesting_engine_cpp.Clusters.Members.{ClusterMember, cluster_member_string}

-- A `std::map` is a list of its entries in the order of the keys.
abbrev pub Clusters : Type 0
Clusters = List (String × List String)

-- `clusters[group].push_back(value)`.
unfoldable pub push_back : String → String → Clusters → Clusters
unfolding str_lt
push_back group value [] = (group, value ∷ []) ∷ []
push_back group value ((k, values) ∷ rest) =
    let later = push_back group value rest in
    if str_lt k group
    then (k, values) ∷ later
    else if str_lt group k
    then (group, value ∷ []) ∷ (k, values) ∷ rest
    else (k, values ++ value ∷ []) ∷ rest

-- One value to each of the groups.
unfoldable pub push_all : List String → String → Clusters → Clusters
unfolding push_back
push_all [] value clusters = clusters
push_all (group ∷ groups) value clusters = push_all groups value (push_back group value clusters)

unfoldable pub fan_out : List ClusterMember → (String → List String) → Clusters → Clusters
unfolding push_all cluster_member_string
fan_out [] lookup clusters = clusters
fan_out (member ∷ members) lookup clusters =
    fan_out members lookup (push_all (lookup member.symbol) (cluster_member_string member) clusters)

-- `std::ranges::sort` of texts.
insert_sorted : String → List String → List String
unfolding str_lt
insert_sorted v [] = v ∷ []
insert_sorted v (x ∷ xs) = if str_lt x v then x ∷ insert_sorted v xs else v ∷ x ∷ xs

unfoldable pub sort : List String → List String
unfolding insert_sorted
sort [] = []
sort (v ∷ values) = insert_sorted v (sort values)

-- `std::ranges::unique` with the erase: of equal neighbours the first stays.
unique_after : String → List String → List String
unique_after v [] = []
unique_after v (x ∷ xs) = if str_eq v x then unique_after v xs else x ∷ unique_after x xs

unfoldable pub unique : List String → List String
unfolding unique_after
unique [] = []
unique (v ∷ values) = v ∷ unique_after v values

dedup_each : Clusters → Clusters
unfolding sort unique
dedup_each [] = []
dedup_each ((group, values) ∷ rest) = (group, unique (sort values)) ∷ dedup_each rest

unfoldable pub group_members_by_cluster : List ClusterMember → (String → List String) → Clusters
unfolding fan_out dedup_each
group_members_by_cluster members lookup = dedup_each (fan_out members lookup [])
