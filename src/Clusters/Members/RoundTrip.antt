-- ===== src/Clusters/Members/RoundTrip.antt =====
-- Members are read back as they were written.
use text.Mathlib.TextLemmas.{nil-append, cons-append}
use backtesting_engine_cpp.Prelude.{◌≡◌, ◌≢◌, String, some, ◌+s◌, arith, All}
use backtesting_engine_cpp.Search.Texts.{codes}
use backtesting_engine_cpp.Clusters.Members.{
  ClusterMember, cluster_member_string, split_member, cut_at_hash, fields,
}

-- A text without a '#'.
abbrev pub LacksHash : String → Type 0
LacksHash t = All (λ c. c ≢ b'#') (codes t)

cut_at_hash-append :
    (front rest : String)
    → LacksHash front
    → cut_at_hash (front +s ("#" +s rest)) ≡ some (front, rest)
unfolding cut_at_hash
cut_at_hash-append String.[] rest h = rw (nil-append, cons-append, nil-append)
cut_at_hash-append (String.◌∷◌ c front) rest h =
    rw (cons-append c front ("#" +s rest)) (ground (arith, cut_at_hash-append front rest))

-- A member is split into its symbol and its strategy's name, whatever its deal reference holds, when
-- neither of the two has a '#'.
pub split_member-cluster_member_string :
    (m : ClusterMember)
    → LacksHash m.symbol
    → LacksHash m.strategy_name
    → split_member (cluster_member_string m) ≡ some (m.symbol, m.strategy_name)
unfolding split_member cluster_member_string
split_member-cluster_member_string m no_hash no_hash' = rw (
  cut_at_hash-append m.symbol (m.strategy_name +s ("#" +s m.deal_reference)) no_hash,
  fields,
  cut_at_hash-append m.strategy_name m.deal_reference no_hash',
)
