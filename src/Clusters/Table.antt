-- ===== src/Clusters/Table.antt =====
-- The clusters of each symbol and the rule of each cluster: the constant tables of
-- positionClustering.hpp and their binary searches.
use backtesting_engine_cpp.Prelude.{
  ℕ, zero, suc, ◌≡◌, refl, Bool, true, false, List, [], ◌∷◌, String, length, leb, ltb, not, ◌&&◌,
  str_eq,
}
use backtesting_engine_cpp.Search.{Outcome, found, absent, stuck, search, is_sorted}
use backtesting_engine_cpp.Search.Texts.{str_lt}
use backtesting_engine_cpp.SymbolScale.{text_order}

-- `groups` is padded with empty texts up to the widest membership; `count` is the used prefix. The
-- symbol is the entry's key in the table.
pub record SymbolClusters : Type 0 where
  pub groups : List String
  pub count : ℕ

abbrev clusters : String → String → String → String → ℕ → SymbolClusters
clusters a b c d n = record { groups = a ∷ b ∷ c ∷ d ∷ []; count = n }

abbrev pub k_cluster_table : List (String × SymbolClusters)
k_cluster_table =
    ("AUDNZD", clusters "Commodity_FX" "Crosses" "AUD_Pairs" "" 3)
    ∷ ("AUDUSD", clusters "USD_Forex" "Commodity_FX" "AUD_Pairs" "" 3)
    ∷ ("AUSIDXAUD", clusters "Asian_Index" "" "" "" 1)
    ∷ ("BRENTCMDUSD", clusters "Energy" "" "" "" 1)
    ∷ ("COPPERCMDUSD", clusters "Industrial_Metals" "" "" "" 1)
    ∷ ("DEUIDXEUR", clusters "EU_Index" "" "" "" 1)
    ∷ ("EURAUD", clusters "Crosses" "EUR_Pairs" "AUD_Pairs" "" 3)
    ∷ ("EURCHF", clusters "Crosses" "EUR_Pairs" "" "" 2)
    ∷ ("EURGBP", clusters "Crosses" "EUR_Pairs" "GBP_Pairs" "" 3)
    ∷ ("EURJPY", clusters "Crosses" "EUR_Pairs" "JPY_Pairs" "" 3)
    ∷ ("EURNOK", clusters "Commodity_FX" "Crosses" "EUR_Pairs" "Scandi_Pairs" 4)
    ∷ ("EURUSD", clusters "USD_Forex" "EUR_Pairs" "" "" 2)
    ∷ ("FRAIDXEUR", clusters "EU_Index" "" "" "" 1)
    ∷ ("GBPAUD", clusters "Crosses" "GBP_Pairs" "AUD_Pairs" "" 3)
    ∷ ("GBPJPY", clusters "Crosses" "GBP_Pairs" "JPY_Pairs" "" 3)
    ∷ ("GBPUSD", clusters "USD_Forex" "GBP_Pairs" "" "" 2)
    ∷ ("GBRIDXGBP", clusters "UK_Index" "" "" "" 1)
    ∷ ("HKGIDXHKD", clusters "Asian_Index" "" "" "" 1)
    ∷ ("JPNIDXJPY", clusters "Asian_Index" "" "" "" 1)
    ∷ ("LIGHTCMDUSD", clusters "Energy" "" "" "" 1)
    ∷ ("NGASCMDUSD", clusters "Energy" "" "" "" 1)
    ∷ ("NZDUSD", clusters "USD_Forex" "Commodity_FX" "" "" 2)
    ∷ ("USA30IDXUSD", clusters "US_Index" "" "" "" 1)
    ∷ ("USA500IDXUSD", clusters "US_Index" "" "" "" 1)
    ∷ ("USATECHIDXUSD", clusters "US_Index" "" "" "" 1)
    ∷ ("USDCAD", clusters "USD_Forex" "Commodity_FX" "" "" 2)
    ∷ ("USDCHF", clusters "USD_Forex" "" "" "" 1)
    ∷ ("USDJPY", clusters "USD_Forex" "JPY_Pairs" "" "" 2)
    ∷ ("USDSEK", clusters "USD_Forex" "Scandi_Pairs" "" "" 2)
    ∷ ("XAGUSD", clusters "Precious_Metals" "" "" "" 1)
    ∷ ("XAUUSD", clusters "Precious_Metals" "" "" "" 1)
    ∷ []

-- `limit` is how many members a cluster holds; the members of a `strict` one differ in strategy.
pub record ClusterRule : Type 0 where
  pub limit : ℕ
  pub strict : Bool

abbrev rule : ℕ → Bool → ClusterRule
rule n s = record { limit = n; strict = s }

abbrev pub k_cluster_rules : List (String × ClusterRule)
k_cluster_rules =
    ("AUD_Pairs", rule 2 false)
    ∷ ("Asian_Index", rule 1 true)
    ∷ ("Commodity_FX", rule 2 false)
    ∷ ("Crosses", rule 2 false)
    ∷ ("EUR_Pairs", rule 2 false)
    ∷ ("EU_Index", rule 1 true)
    ∷ ("Energy", rule 1 true)
    ∷ ("GBP_Pairs", rule 2 false)
    ∷ ("Industrial_Metals", rule 1 true)
    ∷ ("JPY_Pairs", rule 2 false)
    ∷ ("Precious_Metals", rule 1 true)
    ∷ ("Scandi_Pairs", rule 1 false)
    ∷ ("UK_Index", rule 1 true)
    ∷ ("USD_Forex", rule 2 false)
    ∷ ("US_Index", rule 1 true)
    ∷ []

-- The tables' `static_assert`s.
k_cluster_table_sorted : is_sorted text_order k_cluster_table ≡ true
unfolding str_lt
k_cluster_table_sorted = refl

k_cluster_rules_sorted : is_sorted text_order k_cluster_rules ≡ true
unfolding str_lt
k_cluster_rules_sorted = refl

abbrev take : {A : Type 0} → ℕ → List A → List A
take zero xs = []
take (suc n) [] = []
take (suc n) (x ∷ xs) = x ∷ take n xs

-- The first `n` texts are the ones that are not empty.
abbrev prefix_filled : ℕ → List String → Bool
prefix_filled n [] = true
prefix_filled zero (g ∷ gs) = str_eq g "" && prefix_filled zero gs
prefix_filled (suc n) (g ∷ gs) = not (str_eq g "") && prefix_filled n gs

abbrev counts_match : List (String × SymbolClusters) → Bool
counts_match [] = true
counts_match ((k, e) ∷ rest) =
    (ltb 0 e.count && leb e.count (length e.groups))
    && (prefix_filled e.count e.groups && counts_match rest)

k_cluster_table_counts : counts_match k_cluster_table ≡ true
k_cluster_table_counts = refl

unfoldable pub find_clusters : String → Outcome SymbolClusters
unfolding search
find_clusters symbol = search text_order k_cluster_table symbol

groups_of : Outcome SymbolClusters → List String
groups_of (found e) = take e.count e.groups
groups_of absent = []
groups_of stuck = []

-- No clusters for a symbol without an entry.
unfoldable pub groups_for : String → List String
unfolding find_clusters groups_of str_lt
groups_for symbol = groups_of (find_clusters symbol)

unfoldable pub find_rule : String → Outcome ClusterRule
unfolding search
find_rule cluster = search text_order k_cluster_rules cluster

limit_of : Outcome ClusterRule → ℕ
limit_of (found r) = r.limit
limit_of absent = 1
limit_of stuck = 1

strict_of : Outcome ClusterRule → Bool
strict_of (found r) = r.strict
strict_of absent = false
strict_of stuck = false

unfoldable pub cluster_limit : String → ℕ
unfolding find_rule limit_of str_lt
cluster_limit cluster = limit_of (find_rule cluster)

unfoldable pub is_strict_cluster : String → Bool
unfolding find_rule strict_of str_lt
is_strict_cluster cluster = strict_of (find_rule cluster)

norwegian : groups_for "EURNOK" ≡ "Commodity_FX" ∷ "Crosses" ∷ "EUR_Pairs" ∷ "Scandi_Pairs" ∷ []
unfolding groups_for
norwegian = refl

crosses : cluster_limit "Crosses" ≡ 2
unfolding cluster_limit
crosses = refl
