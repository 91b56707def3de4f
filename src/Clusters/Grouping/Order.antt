-- ===== src/Clusters/Grouping/Order.antt =====
-- The order of a grouping: of its clusters, and of the texts in each.
use backtesting_engine_cpp.Prelude.{
  ◌≡◌, ◌≢◌, refl, inl, inr, true, false, List, [], ◌∷◌, ◌++◌, String, str_eq, eq_iff, arith,
  Bool-cases,
}
use backtesting_engine_cpp.Search.Texts.{str_lt, str_lt_irrefl, str_lt_trans, str_lt_connex}
use backtesting_engine_cpp.Clusters.Members.{ClusterMember, cluster_member_string}
use backtesting_engine_cpp.Clusters.Grouping.{
  Clusters, push_back, push_all, fan_out, insert_sorted, sort, unique_after, unique, dedup_each,
  group_members_by_cluster,
}

-- The text is below the first of the list; not above it.
abbrev Before : String → List String → Type 0
Before x [] = Unit
Before x (y ∷ ys) = str_lt x y ≡ true

abbrev NotAfter : String → List String → Type 0
NotAfter x [] = Unit
NotAfter x (y ∷ ys) = str_lt y x ≡ false

-- Strictly ascending, so that no text stands twice; ascending.
abbrev pub Ascends : List String → Type 0
Ascends [] = Unit
Ascends (x ∷ xs) = Before x xs × Ascends xs

abbrev Climbs : List String → Type 0
Climbs [] = Unit
Climbs (x ∷ xs) = NotAfter x xs × Climbs xs

str_lt_asym : (x y : String) → str_lt x y ≡ true → str_lt y x ≡ false
str_lt_asym x y h = elim (Bool-cases (str_lt y x)) [
  | inl t ↦ absurd (ground (arith, str_lt_trans x y x h t, str_lt_irrefl x))
  | inr f ↦ f
]

insert_sorted-NotAfter :
    (y v : String) (ys : List String)
    → str_lt v y ≡ false
    → NotAfter y ys
    → NotAfter y (insert_sorted v ys)
unfolding insert_sorted
insert_sorted-NotAfter y v [] h n = h
insert_sorted-NotAfter y v (z ∷ zs) h n = elim (Bool-cases (str_lt z v)) [
  | inl t ↦ rw t n
  | inr f ↦ rw f h
]

insert_sorted-Climbs : (v : String) (xs : List String) → Climbs xs → Climbs (insert_sorted v xs)
unfolding insert_sorted
insert_sorted-Climbs v [] h = (tt, tt)
insert_sorted-Climbs v (x ∷ xs) h = elim (Bool-cases (str_lt x v)) [
  | inl t ↦
      rw t (insert_sorted-NotAfter x v xs (str_lt_asym x v t) h.0, insert_sorted-Climbs v xs h.1)
  | inr f ↦ rw f (f, h)
]

sort-Climbs : (xs : List String) → Climbs (sort xs)
unfolding sort
sort-Climbs [] = tt
sort-Climbs (x ∷ xs) = insert_sorted-Climbs x (sort xs) (sort-Climbs xs)

unique_after-Ascends :
    (x : String) (xs : List String) → Climbs (x ∷ xs) → Ascends (x ∷ unique_after x xs)
unfolding unique_after
unique_after-Ascends x [] h = (tt, tt)
unique_after-Ascends x (y ∷ ys) h = elim (Bool-cases (str_eq x y)) [
  | inl t ↦ let same : x ≡ y = (eq_iff x y).0 t in rw t (unique_after-Ascends x ys (rw same (h.1)))
  | inr f ↦ rw f (elim (Bool-cases (str_lt x y)) [
    | inl less ↦ (less, unique_after-Ascends y ys h.1)
    | inr not_less ↦ absurd (ground (arith, str_lt_connex x y not_less h.0, eq_iff x y))
  ])
]

unique-Ascends : (xs : List String) → Climbs xs → Ascends (unique xs)
unfolding unique
unique-Ascends [] h = tt
unique-Ascends (x ∷ xs) h = unique_after-Ascends x xs h

-- The clusters of a map, in order.
abbrev pub keys : Clusters → List String
keys [] = []
keys ((k, values) ∷ rest) = k ∷ keys rest

push_back-Before :
    (j group value : String) (m : Clusters)
    → str_lt j group ≡ true
    → Before j (keys m)
    → Before j (keys (push_back group value m))
unfolding push_back
push_back-Before j group value [] h b = h
push_back-Before j group value ((k, values) ∷ rest) h b = elim (Bool-cases (str_lt k group)) [
  | inl t ↦ rw t b
  | inr f ↦ rw f (elim (Bool-cases (str_lt group k)) [ inl t ↦ rw t h | inr f' ↦ rw f' b ])
]

push_back-Ascends :
    (group value : String) (m : Clusters)
    → Ascends (keys m)
    → Ascends (keys (push_back group value m))
unfolding push_back
push_back-Ascends group value [] h = (tt, tt)
push_back-Ascends group value ((k, values) ∷ rest) h = elim (Bool-cases (str_lt k group)) [
  | inl t ↦ rw t (push_back-Before k group value rest t h.0, push_back-Ascends group value rest h.1)
  | inr f ↦ rw f (elim (Bool-cases (str_lt group k)) [ inl t ↦ rw t (t, h) | inr f' ↦ rw f' h ])
]

-- Every entry of the map has a value.
abbrev Filled : Clusters → Type 0
Filled [] = Unit
Filled ((k, values) ∷ rest) = (values ≢ []) × Filled rest

append-ne-nil : (xs : List String) (x : String) → xs ++ x ∷ [] ≢ []
append-ne-nil [] x e = ground arith
append-ne-nil (y ∷ xs) x e = ground arith

push_back-Filled :
    (group value : String) (m : Clusters) → Filled m → Filled (push_back group value m)
unfolding push_back
push_back-Filled group value [] h = (λ e. cc, tt)
push_back-Filled group value ((k, values) ∷ rest) h = elim (Bool-cases (str_lt k group)) [
  | inl t ↦ rw t (h.0, push_back-Filled group value rest h.1)
  | inr f ↦ rw f (elim (Bool-cases (str_lt group k)) [
    | inl t ↦ rw t (λ e. cc, h)
    | inr f' ↦ rw f' (append-ne-nil values value, h.1)
  ])
]

abbrev IsMap : Clusters → Type 0
IsMap m = Ascends (keys m) × Filled m

push_all-IsMap :
    (groups : List String) (value : String) (m : Clusters)
    → IsMap m
    → IsMap (push_all groups value m)
unfolding push_all
push_all-IsMap [] value m h = h
push_all-IsMap (g ∷ groups) value m h =
    push_all-IsMap groups value (push_back g value m)
      (push_back-Ascends g value m h.0, push_back-Filled g value m h.1)

fan_out-IsMap :
    (members : List ClusterMember) (lookup : String → List String) (m : Clusters)
    → IsMap m
    → IsMap (fan_out members lookup m)
unfolding fan_out
fan_out-IsMap [] lookup m h = h
fan_out-IsMap (x ∷ members) lookup m h =
    fan_out-IsMap members lookup (push_all (lookup x.symbol) (cluster_member_string x) m)
      (push_all-IsMap (lookup x.symbol) (cluster_member_string x) m h)

-- An entry of a rebuilt map: its texts are strictly ascending, and there is one.
abbrev pub IsStored : List String → Type 0
IsStored values = Ascends values × (values ≢ [])

abbrev pub Entries : Clusters → Type 0
Entries [] = Unit
Entries ((k, values) ∷ rest) = IsStored values × Entries rest

unique-ne-nil : (xs : List String) → xs ≢ [] → unique xs ≢ []
unfolding unique
unique-ne-nil [] h e = h refl
unique-ne-nil (x ∷ xs) h e = ground arith

sort-ne-nil : (xs : List String) → xs ≢ [] → sort xs ≢ []
unfolding sort insert_sorted
sort-ne-nil [] h = λ e. h refl
sort-ne-nil (x ∷ xs) h = inserted (sort xs)
  where
    inserted : (ys : List String) → insert_sorted x ys ≢ []
    inserted [] e = ground arith
    inserted (y ∷ ys) e = ground arith

dedup_each-Entries : (m : Clusters) → Filled m → Entries (dedup_each m)
unfolding dedup_each
dedup_each-Entries [] h = tt
dedup_each-Entries ((k, values) ∷ rest) h = (
  (
    unique-Ascends (sort values) (sort-Climbs values),
    unique-ne-nil (sort values) (sort-ne-nil values h.0),
  ),
  dedup_each-Entries rest h.1,
)

dedup_each-keys : (m : Clusters) → keys (dedup_each m) ≡ keys m
unfolding dedup_each
dedup_each-keys [] = refl
dedup_each-keys ((k, values) ∷ rest) = rw (dedup_each-keys rest)

-- A grouping has its clusters in strictly ascending order, each once, and the texts of every cluster
-- in strictly ascending order, so none twice, whatever the order of the deals; no cluster is empty.
pub group_members_by_cluster-Ascends :
    (members : List ClusterMember) (lookup : String → List String)
    → Ascends (keys (group_members_by_cluster members lookup))
      × Entries (group_members_by_cluster members lookup)
unfolding group_members_by_cluster
group_members_by_cluster-Ascends members lookup =
    let h = fan_out-IsMap members lookup [] (tt, tt) in
    (
      rw (dedup_each-keys (fan_out members lookup [])) h.0,
      dedup_each-Entries (fan_out members lookup []) h.1,
    )
