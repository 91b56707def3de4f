-- ===== src/Queue/RunQueue.antt =====
-- What a worker asks of the queues (runQueue.cpp).
pub mod Priority
use backtesting_engine_cpp.Prelude.{
  ℕ, ◌≡◌, refl, List, [], ◌∷◌, String, Option, none, some, ℤ, pos, negsuc,
}
use backtesting_engine_cpp.Redis.{Server, Op, ◌>>=◌, co_return}
use backtesting_engine_cpp.Redis.Operations.{list_index, list_pop_back, get_delete, list_remove}
use backtesting_engine_cpp.Queue.Keys.{run_queues}

pub record PeekedRun : Type 0 where
  pub queue_key : String
  pub descriptor_b64 : String

abbrev as_peeked : String → Option String → Option PeekedRun
as_peeked queue_key none = none
as_peeked queue_key (some descriptor) =
    some (record { queue_key = queue_key; descriptor_b64 = descriptor })

module _ {W : Type 0} where
  or_else : Op W (Option PeekedRun) → Option PeekedRun → Op W (Option PeekedRun)
  or_else next none = next
  or_else next (some peeked) = co_return (some peeked)

module _ {W : Type 0} ⦃s : Server W⦄ where
  -- The tail of a queue, the oldest run, stays where it is.
  unfoldable pub peek_queue_tail : String → Op W (Option PeekedRun)
  peek_queue_tail queue_key = do
    descriptor ← list_index queue_key (negsuc 0)
    co_return (as_peeked queue_key descriptor)

  -- The first queue that has a run wins.
  peek_queues : List String → Op W (Option PeekedRun)
  unfolding peek_queue_tail or_else
  peek_queues [] = co_return none
  peek_queues (queue_key ∷ queue_keys) = do
    peeked ← peek_queue_tail queue_key
    or_else (peek_queues queue_keys) peeked

  unfoldable pub peek_run_tail : Op W (Option PeekedRun)
  unfolding peek_queues
  peek_run_tail = peek_queues run_queues

  unfoldable pub pop_strategy_key : String → Op W (Option String)
  unfolding list_pop_back
  pop_strategy_key strategy_key = list_pop_back strategy_key

  unfoldable pub take_strategy_payload : String → Op W (Option String)
  unfolding get_delete
  take_strategy_payload payload_key = get_delete payload_key

  -- Count 0 removes every occurrence.
  unfoldable pub remove_run : String → String → Op W (Unit {0})
  unfolding list_remove
  remove_run queue_key descriptor_b64 = list_remove queue_key (pos 0) descriptor_b64
