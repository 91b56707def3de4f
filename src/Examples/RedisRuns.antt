-- ===== src/Examples/RedisRuns.antt =====
-- Locks, counts, clusters and positions on servers in memory.
use backtesting_engine_cpp.Prelude.{
  ℕ, ◌<◌, ◌≡◌, refl, Bool, true, false, [], String, none, some, ℤ, pos, ◌+ℤ◌, arith, str_eq,
  if◌then◌else◌, Dict, lookup, insert,
}
use backtesting_engine_cpp.Redis.{Op, done, raised}
use backtesting_engine_cpp.Redis.Client.{run, new_client}
use backtesting_engine_cpp.Redis.Client.Breaker.{run-fail_fast}
use backtesting_engine_cpp.Redis.Operations.{set_if_not_exists, set_string, get_string}
use backtesting_engine_cpp.Redis.Decimal.{read_digits, to_string, to_string_ℤ}
use backtesting_engine_cpp.Redis.TradeLocks.{TradeLocks, is_there_a_trade_lock}
use backtesting_engine_cpp.Redis.TradeLocks.Exclusion.{is_there_a_trade_lock_exclusive, Between}
use backtesting_engine_cpp.Redis.ApiRequestGate.{
  requests_made, record_request, is_duplicate_deal, record_deal_request, request_window_key,
  window_count,
}
use backtesting_engine_cpp.Redis.ApiRequestGate.Counts.{
  record_request-requests_made, record_deal_request-is_duplicate_deal,
}
use backtesting_engine_cpp.Examples.Servers.{
  Locks, lock_server, lock_server_laws, strings_server, strings_server_laws, sets_server,
}

abbrev idle : Locks
idle = record { held = []; clock = 5000 }

abbrev timed_out : Op Locks Bool
timed_out w = (raised "timed out", w)

abbrev answers : Op Locks ℕ
answers w = (done 3, w)

run-fail_fast_example :
    ((run new_client timed_out "" idle).0 ≡ record { value = none; error = "timed out" })
    × ((run new_client timed_out "" idle).2 ≡ idle)
    × (run (run new_client timed_out "" idle).1 answers "" (record { held = []; clock = 7999 }) ≡ (
      record { value = none; error = "" },
      (run new_client timed_out "" idle).1,
      record { held = []; clock = 7999 },
    ))
run-fail_fast_example =
    run-fail_fast new_client timed_out answers "" "" "timed out" idle idle
      (record { held = []; clock = 7999 }) (omega arith) refl (omega arith)

abbrev instance_of : String → TradeLocks
instance_of host = record { client = new_client; held_until = []; lock_owner = host }

is_there_a_trade_lock_exclusive_example :
    (is_there_a_trade_lock
      (instance_of "b")
      "u1"
      "LONG"
      30
      (is_there_a_trade_lock (instance_of "a") "u1" "LONG" 30 idle).2).0
    ≡ true
unfolding is_there_a_trade_lock run lookup insert set_if_not_exists read_digits to_string
is_there_a_trade_lock_exclusive_example =
    is_there_a_trade_lock_exclusive lock_server_laws (instance_of "a") (instance_of "b") "u1" "LONG"
      30 30 idle (is_there_a_trade_lock (instance_of "a") "u1" "LONG" 30 idle).2 refl
      (Between.here _) soon
  where
    soon : ◌<◌ 5000 35000
    soon = omega arith

abbrev minute : ℤ
minute = pos 41

abbrev counted : Dict String
counted = insert (request_window_key minute) "7" []

record_request-requests_made_example :
    ((requests_made new_client minute counted).0
      ≡ some (window_count (lookup (request_window_key minute) counted)))
    × (pos 8 ≡ window_count (lookup (request_window_key minute) counted) +ℤ pos 1)
unfolding record_request requests_made window_count lookup insert run get_string set_string
    to_string_ℤ to_string ◌+ℤ◌
record_request-requests_made_example =
    record_request-requests_made strings_server_laws new_client new_client minute (pos 8) counted
      (record_request new_client minute counted).2 refl refl (omega arith) refl

record_deal_request-is_duplicate_deal_example :
    (true ≡ (if str_eq "DIAAA" "" then false else true))
    × (record_deal_request {W = Dict String} new_client "" 60 [] ≡ (true, new_client, []))
unfolding record_deal_request is_duplicate_deal lookup insert run get_string set_string to_string
record_deal_request-is_duplicate_deal_example =
    record_deal_request-is_duplicate_deal strings_server_laws new_client new_client "DIAAA" 60 true
      [] (record_deal_request new_client "DIAAA" 60 []).2 refl refl refl
