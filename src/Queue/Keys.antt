-- ===== src/Queue/Keys.antt =====
-- The names of the queues and of their payloads (queueKeys.hpp).
use backtesting_engine_cpp.Prelude.{ℕ, ◌*◌, List, [], ◌∷◌, String, ◌+s◌}

abbrev pub run : String
run = "BACKTESTING_QUEUE_RUN"

-- In the order in which workers drain them.
abbrev pub run_queues : List String
run_queues =
    run ∷ "BACKTESTING_QUEUE_RUN_CHAIN:1" ∷ "BACKTESTING_QUEUE_RUN_CHAIN:2"
    ∷ "BACKTESTING_QUEUE_RUN_CHAIN:3" ∷ []

abbrev pub strategy_prefix : String
strategy_prefix = "BACKTESTING_QUEUE_STRATEGY:"

abbrev pub strategy_payload_prefix : String
strategy_payload_prefix = "BACKTESTING_QUEUE_STRATEGY_PAYLOAD:"

abbrev pub payload_ttl_seconds : ℕ
payload_ttl_seconds = 7 * 24 * 60 * 60

unfoldable pub strategy_key : String → String
strategy_key run_id = strategy_prefix +s run_id

unfoldable pub strategy_payload_key : String → String → String
strategy_payload_key run_id strategy_uuid =
    strategy_payload_prefix +s (run_id +s (":" +s strategy_uuid))

abbrev pub experiment_run : String
experiment_run = "BACKTESTING_QUEUE_EXPERIMENT_RUN"

abbrev pub experiment_prefix : String
experiment_prefix = "BACKTESTING_QUEUE_EXPERIMENT:"

abbrev pub experiment_payload_prefix : String
experiment_payload_prefix = "BACKTESTING_QUEUE_EXPERIMENT_PAYLOAD:"

unfoldable pub experiment_key : String → String
experiment_key run_id = experiment_prefix +s run_id

unfoldable pub experiment_payload_key : String → String → String
experiment_payload_key run_id experiment_uuid =
    experiment_payload_prefix +s (run_id +s (":" +s experiment_uuid))
