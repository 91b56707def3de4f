-- ===== src/Examples/Queues.antt =====
-- Clusters, positions, queues and Base64 on concrete inputs.
use backtesting_engine_cpp.Prelude.{
  ℕ, ◌≡◌, ◌≢◌, ◌↔◌, refl, true, false, List, [], ◌∷◌, String, some, pos, arith, Dict, lookup,
  insert,
}
use backtesting_engine_cpp.Search.Texts.{codes}
use backtesting_engine_cpp.Redis.Client.{run, new_client}
use backtesting_engine_cpp.Redis.Operations.{
  set_if_not_exists, set_string, get_string, set_members, get_multiple, zip_present, list_index,
}
use backtesting_engine_cpp.Redis.Decimal.{to_string, to_string_ℤ}
use backtesting_engine_cpp.Clusters.Table.{groups_for, cluster_limit, is_strict_cluster}
use backtesting_engine_cpp.Clusters.Members.{
  ClusterMember, cluster_member_string, split_member, evaluate_cluster_group, cluster_key,
}
use backtesting_engine_cpp.Clusters.Members.Evaluation.{Explains, evaluate_cluster_group-Explains}
use backtesting_engine_cpp.Clusters.Members.RoundTrip.{split_member-cluster_member_string}
use backtesting_engine_cpp.Clusters.Grouping.{group_members_by_cluster}
use backtesting_engine_cpp.Clusters.Grouping.Membership.{Has, Deals, group_members_by_cluster-Has}
use backtesting_engine_cpp.Clusters.Grouping.Order.{
  Ascends, keys, Entries, group_members_by_cluster-Ascends,
}
use backtesting_engine_cpp.Clusters.Gate.{is_cluster_blocked}
use backtesting_engine_cpp.Clusters.Gate.Admission.{Admits, is_cluster_blocked-Admits}
use backtesting_engine_cpp.Positions.Codec.{
  encode_position_list, decode_position_list, position_list_key, position_key,
}
use backtesting_engine_cpp.Positions.Manager.{
  list_state, contains, add_position, refresh_position_list,
}
use backtesting_engine_cpp.Positions.Manager.Book.{Added, add_position-Added}
use backtesting_engine_cpp.Positions.Manager.Survivors.{Refreshed, refresh_position_list-Refreshed}
use backtesting_engine_cpp.Queue.Keys.{run_queues}
use backtesting_engine_cpp.Queue.RunQueue.{peek_run_tail}
use backtesting_engine_cpp.Queue.RunQueue.Priority.{Peeks, peek_run_tail-Peeks}
use backtesting_engine_cpp.Queue.DrainRuns.{drain_strategies, RunConfiguration}
use backtesting_engine_cpp.Queue.DrainRuns.Claims.{Ends, drain_strategies-Ends}
use backtesting_engine_cpp.Base64.{b64_encode, b64_decode}
use backtesting_engine_cpp.Base64.RoundTrip.{b64_decode-b64_encode}
use backtesting_engine_cpp.Examples.Documents.{documents}
use backtesting_engine_cpp.Examples.Servers.{
  strings_server, strings_server_book, sets_server, sets_server_laws,
}
use backtesting_engine_cpp.Examples.QueueServers.{
  Queues, queues_server, queues_server_laws, Names, names_server, worker, worker_laws,
}

b64_decode-b64_encode_example :
    b64_decode (b64_encode (codes "light work.")) ≡ some (codes "light work.")
b64_decode-b64_encode_example = b64_decode-b64_encode (codes "light work.") (omega arith)

abbrev deal : ClusterMember
deal = record { symbol = "EURUSD"; strategy_name = "ohlc"; deal_reference = "R#1" }

split_member-cluster_member_string_example :
    split_member (cluster_member_string deal) ≡ some ("EURUSD", "ohlc")
split_member-cluster_member_string_example =
    split_member-cluster_member_string deal (omega arith) (omega arith)

evaluate_cluster_group-Explains_example :
    Explains
      ("EURUSD#ohlc#X" ∷ [])
      "EURUSD"
      "ohlc"
      2
      false
      (evaluate_cluster_group ("EURUSD#ohlc#X" ∷ []) "EURUSD" "ohlc" 2 false)
evaluate_cluster_group-Explains_example =
    evaluate_cluster_group-Explains ("EURUSD#ohlc#X" ∷ []) "EURUSD" "ohlc" 2 false

abbrev deals : List ClusterMember
deals =
    deal ∷ record { symbol = "EURGBP"; strategy_name = "fade"; deal_reference = "R2" } ∷ deal ∷ []

group_members_by_cluster-Has_example :
    Has (group_members_by_cluster deals groups_for) "EUR_Pairs" "EURUSD#ohlc#R#1"
    ↔ Deals deals groups_for "EUR_Pairs" "EURUSD#ohlc#R#1"
group_members_by_cluster-Has_example =
    group_members_by_cluster-Has deals groups_for "EUR_Pairs" "EURUSD#ohlc#R#1"

group_members_by_cluster-Ascends_example :
    Ascends (keys (group_members_by_cluster deals groups_for))
    × Entries (group_members_by_cluster deals groups_for)
group_members_by_cluster-Ascends_example = group_members_by_cluster-Ascends deals groups_for

abbrev cluster_sets : Dict (List String)
cluster_sets = ("CG#EUR_Pairs", "EURCHF#fade#R3" ∷ []) ∷ []

is_cluster_blocked-Admits_example :
    (groups_for "EURUSD" ≢ [])
    × Admits sets_server_laws (groups_for "EURUSD") "EURUSD" "ohlc" cluster_sets
unfolding is_cluster_blocked groups_for cluster_limit is_strict_cluster evaluate_cluster_group run
    set_if_not_exists set_members lookup to_string cluster_key
is_cluster_blocked-Admits_example =
    is_cluster_blocked-Admits sets_server_laws new_client "EURUSD" "ohlc" 5 cluster_sets refl

-- Two deals in the list, one of them gone.
abbrev book : Dict String
book = ("PL#u1", encode_position_list documents ("DIA" ∷ "DIB" ∷ [])) ∷ ("PO#DIB", "payload") ∷ []

add_position-Added_example :
    Added documents strings_server_book book
      (add_position documents new_client "u1" "DIC" book).2
      "u1"
      "DIC"
      (list_state documents (some (lookup (position_list_key "u1") book)))
unfolding add_position run get_string set_string lookup insert encode_position_list
    decode_position_list position_list_key position_key zip_present contains
add_position-Added_example =
    add_position-Added documents strings_server_book new_client "u1" "DIC" book refl

refresh_position_list-Refreshed_example :
    Refreshed documents strings_server_book book
      (refresh_position_list documents new_client "u1" book).2
      "u1"
      (list_state documents (some (lookup (position_list_key "u1") book)))
unfolding refresh_position_list run get_string set_string get_multiple lookup insert
    encode_position_list decode_position_list position_list_key position_key zip_present contains
refresh_position_list-Refreshed_example =
    refresh_position_list-Refreshed documents strings_server_book new_client "u1" book refl

abbrev waiting : Queues
waiting = record { lists = ("BACKTESTING_QUEUE_RUN_CHAIN:1", "newer" ∷ "older" ∷ []) ∷ [] }

peek_run_tail-Peeks_example :
    Peeks queues_server_laws run_queues waiting
      (some (record { queue_key = "BACKTESTING_QUEUE_RUN_CHAIN:1"; descriptor_b64 = "older" }))
unfolding peek_run_tail to_string_ℤ lookup list_index
peek_run_tail-Peeks_example =
    peek_run_tail-Peeks queues_server_laws waiting waiting
      (some (record { queue_key = "BACKTESTING_QUEUE_RUN_CHAIN:1"; descriptor_b64 = "older" })) refl

abbrev two_names : Names
two_names = record { names = "p2" ∷ "p1" ∷ [] }

abbrev run_cfg : RunConfiguration ℕ
run_cfg = record {
  run_id = "R1";
  symbols = "EURUSD";
  batch = "";
  execution_ts = "";
  last_months = pos 6;
  offset_months = pos 0;
  starting_balance = 10000;
  max_loss_percent = 0;
  max_open_trades = pos 0;
  max_trades_per_minute = pos 60;
  report_failures = true;
  peak_hours_only = false;
  entry_slippage_tenth_pips = pos 0;
}

drain_strategies-Ends_example :
    Ends worker run_cfg
      (worker_laws "R1")
      0
      2
      (drain_strategies worker 3 7 run_cfg 0 "p3" two_names)
drain_strategies-Ends_example =
    drain_strategies-Ends worker run_cfg (worker_laws "R1") 3 0 7 "p3" two_names (omega arith)
