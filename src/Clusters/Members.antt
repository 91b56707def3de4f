-- ===== src/Clusters/Members.antt =====
-- The members of a cluster's set, "symbol#strategyName#dealReference", and the decision for one
-- cluster.
use Prim.Native.Char.{code}
pub mod Evaluation
pub mod RoundTrip
use Prim.Native.String.{[] as no_text, ◌∷◌ as ◌∷s◌}
use backtesting_engine_cpp.Prelude.{
  ℕ, ◌+◌, ◌<◌, ◌≡◌, ◌≢◌, refl, Bool, true, false, ◌&&◌, List, [], ◌∷◌, String, Option, none, some,
  length, leb, ltb, ◌==◌, str_eq, if◌then◌else◌, arith, ◌+s◌,
}

unfoldable pub cluster_key : String → String
cluster_key cluster = "CG#" +s cluster

unfoldable pub cluster_lock_key : String → String
cluster_lock_key cluster = "CLUSTER_LOCK#" +s cluster

pub data ClusterVerdict : Type 0 where
  allowed group_full symbol_strategy_stacked strategy_not_diverse : ClusterVerdict

-- What stands before the first '#', and after it; `none` where there is no '#'.
abbrev add_front : {A : Type 0} → (String → A) → Option (String × String) → Option (A × String)
add_front f none = none
add_front f (some (s, t)) = some (f s, t)

cut_at_hash : String → Option (String × String)
cut_at_hash String.[] = none
cut_at_hash (String.◌∷◌ c s) =
    let rest = cut_at_hash s in
    if code c == b'#' then some ("", s) else add_front (λ (front : String). String.◌∷◌ c front) rest

-- The text up to the next '#', or all of it.
strategy_field : String → Option (String × String) → String
strategy_field rest none = rest
strategy_field rest (some (strategy, more)) = strategy

fields : Option (String × String) → Option (String × String)
unfolding cut_at_hash strategy_field
fields none = none
fields (some (symbol, rest)) = some (symbol, strategy_field rest (cut_at_hash rest))

-- The symbol and the strategy of a member; `none` where there are fewer than two fields.
unfoldable pub split_member : String → Option (String × String)
unfolding cut_at_hash fields
split_member member = fields (cut_at_hash member)

is_stacked : String → String → Option (String × String) → Bool
is_stacked symbol strategy_name none = false
is_stacked symbol strategy_name (some (s, n)) = str_eq s symbol && str_eq n strategy_name

has_strategy : String → Option (String × String) → Bool
has_strategy strategy_name none = false
has_strategy strategy_name (some (s, n)) = str_eq n strategy_name

-- The two loops over the members.
any_stacked : String → String → List String → Bool
unfolding is_stacked split_member
any_stacked symbol strategy_name [] = false
any_stacked symbol strategy_name (member ∷ members) =
    if is_stacked symbol strategy_name (split_member member)
    then true
    else any_stacked symbol strategy_name members

any_strategy : String → List String → Bool
unfolding has_strategy split_member
any_strategy strategy_name [] = false
any_strategy strategy_name (member ∷ members) =
    if has_strategy strategy_name (split_member member)
    then true
    else any_strategy strategy_name members

unfoldable pub evaluate_cluster_group : List String → String → String → ℕ → Bool → ClusterVerdict
unfolding any_stacked any_strategy
evaluate_cluster_group members symbol strategy_name limit strict =
    if leb limit (length members)
    then group_full
    else if any_stacked symbol strategy_name members
    then symbol_strategy_stacked
    else if strict && any_strategy strategy_name members
    then strategy_not_diverse
    else allowed

pub record ClusterMember : Type 0 where
  pub symbol : String
  pub strategy_name : String
  pub deal_reference : String

unfoldable pub cluster_member_string : ClusterMember → String
cluster_member_string m = m.symbol +s ("#" +s (m.strategy_name +s ("#" +s m.deal_reference)))

splits : split_member "EURUSD#ohlc#X1" ≡ some ("EURUSD", "ohlc")
unfolding split_member
splits = refl
