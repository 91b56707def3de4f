-- ===== src/Clusters/Grouping/Membership.antt =====
-- Which values a grouping holds under which cluster, and their order.
use backtesting_engine_cpp.Prelude.{
  ◌≡◌, ◌↔◌, ◌⊎◌, inl, inr, List, [], ◌∷◌, ◌++◌, String, str_eq, eq_iff, arith, Bool-cases,
}
use backtesting_engine_cpp.Search.Texts.{str_lt, str_lt_connex}
use backtesting_engine_cpp.Clusters.Members.{ClusterMember, cluster_member_string}
use backtesting_engine_cpp.Clusters.Grouping.{
  Clusters, push_back, push_all, fan_out, insert_sorted, sort, unique_after, unique, dedup_each,
  group_members_by_cluster,
}

-- The text stands in the list.
abbrev pub Holds : String → List String → Type 0
Holds v [] = ⊥
Holds v (x ∷ xs) = (x ≡ v) ⊎ Holds v xs

-- Some deal has this member text and is of a symbol in this cluster.
abbrev pub Deals : List ClusterMember → (String → List String) → String → String → Type 0
Deals [] lookup group v = ⊥
Deals (m ∷ ms) lookup group v =
    ((cluster_member_string m ≡ v) × Holds group (lookup m.symbol)) ⊎ Deals ms lookup group v

-- The cluster holds the text, in whichever entry of the map.
abbrev pub Has : Clusters → String → String → Type 0
Has [] group v = ⊥
Has ((k, values) ∷ rest) group v = ((k ≡ group) × Holds v values) ⊎ Has rest group v

Holds-append : (v : String) (xs ys : List String) → Holds v (xs ++ ys) ↔ (Holds v xs ⊎ Holds v ys)
Holds-append v [] ys = (inr, λ h. elim h [ inl a ↦ absurd a | inr b ↦ b ])
Holds-append v (x ∷ xs) ys = ground (arith, Holds-append v xs ys)

push_back-Has :
    (group value g v : String) (m : Clusters)
    → Has (push_back group value m) g v ↔ (((group ≡ g) × (value ≡ v)) ⊎ Has m g v)
unfolding push_back
push_back-Has group value g v [] = ground arith
push_back-Has group value g v ((k, values) ∷ rest) = elim (Bool-cases (str_lt k group)) [
  | inl t ↦ rw t (ground (arith, push_back-Has group value g v rest))
  | inr f ↦ rw f (elim (Bool-cases (str_lt group k)) [
    | inl t ↦ rw t (ground arith)
    | inr f' ↦ rw f' (
        let same : k ≡ group = str_lt_connex k group f f' in
        ground (arith, Holds-append v values (value ∷ [])))
  ])
]

push_all-Has :
    (groups : List String) (value g v : String) (m : Clusters)
    → Has (push_all groups value m) g v ↔ ((Holds g groups × (value ≡ v)) ⊎ Has m g v)
unfolding push_all
push_all-Has [] value g v m = ground arith
push_all-Has (k ∷ groups) value g v m =
    ground (arith, push_all-Has groups value g v (push_back k value m), push_back-Has k value g v m)

fan_out-Has :
    (members : List ClusterMember) (lookup : String → List String) (g v : String) (m : Clusters)
    → Has (fan_out members lookup m) g v ↔ (Deals members lookup g v ⊎ Has m g v)
unfolding fan_out
fan_out-Has [] lookup g v m = ground arith
fan_out-Has (x ∷ members) lookup g v m = ground (
  arith,
  fan_out-Has members lookup g v (push_all (lookup x.symbol) (cluster_member_string x) m),
  push_all-Has (lookup x.symbol) (cluster_member_string x) g v m,
)

insert_sorted-Holds :
    (v x : String) (xs : List String) → Holds v (insert_sorted x xs) ↔ ((x ≡ v) ⊎ Holds v xs)
unfolding insert_sorted
insert_sorted-Holds v x [] = ground arith
insert_sorted-Holds v x (y ∷ ys) = elim (Bool-cases (str_lt y x)) [
  | inl t ↦ rw t (ground (arith, insert_sorted-Holds v x ys))
  | inr f ↦ rw f (ground arith)
]

sort-Holds : (v : String) (xs : List String) → Holds v (sort xs) ↔ Holds v xs
unfolding sort
sort-Holds v [] = ground arith
sort-Holds v (x ∷ xs) = ground (arith, insert_sorted-Holds v x (sort xs), sort-Holds v xs)

unique_after-Holds :
    (v x : String) (xs : List String)
    → ((x ≡ v) ⊎ Holds v (unique_after x xs)) ↔ ((x ≡ v) ⊎ Holds v xs)
unfolding unique_after
unique_after-Holds v x [] = ground arith
unique_after-Holds v x (y ∷ ys) = elim (Bool-cases (str_eq x y)) [
  | inl t ↦ rw t (let same : x ≡ y = (eq_iff x y).0 t in ground (arith, unique_after-Holds v x ys))
  | inr f ↦ rw f (ground (arith, unique_after-Holds v y ys))
]

unique-Holds : (v : String) (xs : List String) → Holds v (unique xs) ↔ Holds v xs
unfolding unique
unique-Holds v [] = ground arith
unique-Holds v (x ∷ xs) = unique_after-Holds v x xs

dedup_each-Has : (m : Clusters) (g v : String) → Has (dedup_each m) g v ↔ Has m g v
unfolding dedup_each
dedup_each-Has [] g v = ground arith
dedup_each-Has ((k, values) ∷ rest) g v =
    ground (arith, unique-Holds v (sort values), sort-Holds v values, dedup_each-Has rest g v)

-- A cluster of the grouping holds exactly the member texts of the deals whose symbol is in the
-- cluster, whatever the lookup of the clusters.
pub group_members_by_cluster-Has :
    (members : List ClusterMember) (lookup : String → List String) (g v : String)
    → Has (group_members_by_cluster members lookup) g v ↔ Deals members lookup g v
unfolding group_members_by_cluster
group_members_by_cluster-Has members lookup g v =
    ground
      (arith, dedup_each-Has (fan_out members lookup []) g v, fan_out-Has members lookup g v [])
