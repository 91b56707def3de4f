-- ===== src/Redis.antt =====
-- source/shared/redis: the requests the engine sends to Redis and the server as it is seen through
-- Boost.Redis. The server, the network and the clock are a parameter: an instance of `Server`.
pub mod Decimal
pub mod Operations
pub mod Client
pub mod TradeLocks
pub mod Bind
pub mod KeyValues
pub mod ApiRequestGate
use backtesting_engine_cpp.Prelude.{ℕ, ℤ, Option, List, String, Bool}

-- One command is its words, in order; a request is a pipeline of commands.
abbrev pub Request : Type 0
Request = List (List String)

-- How an awaited operation ends: with its value, or with an exception and its `what()`.
pub data Attempt {ℓ} (A : Type ℓ) : Type ℓ where
  done : A → Attempt A
  raised : String → Attempt A

-- One node of a RESP3 reply read with no typed adapter.
pub record Node : Type 0 where
  pub depth : ℕ
  pub is_blob_string : Bool
  pub value : String

-- A coroutine that talks to the server: it may change the world outside (`asio::awaitable`).
abbrev pub Op : Type 0 → Type 0 → Type 0
Op W A = W → Attempt A × W

-- `conn_->async_exec(req, resp)` for each response type the code asks for, the steady clock in
-- milliseconds, and `conn_->cancel(operation::exec)`. `W` is the world these act on.
pub record Server (W : Type 0) : Type 0 where
  pub exec_optional : Request → Op W (Option String)
  pub exec_number : Request → Op W ℤ
  pub exec_texts : Request → Op W (List String)
  pub exec_optionals : Request → Op W (List (Option String))
  pub exec_nodes : Request → Op W (List Node)
  pub exec_ignore : Request → Op W (Unit {0})
  pub now : W → ℕ
  pub cancel_exec : W → W

module _ {W A B : Type 0} where
  abbrev pub resume : (A → Op W B) → Attempt A → W → Attempt B × W
  resume f (done a) w = f a w
  resume f (raised e) w = (raised e, w)

  -- `co_await`: an exception leaves the coroutine.
  infixl 5 ◌>>=◌ ◌>>◌
  abbrev pub ◌>>=◌ : Op W A → (A → Op W B) → Op W B
  ◌>>=◌ m f w = let (r, w') = m w in resume f r w'

  abbrev pub ◌>>◌ : Op W A → Op W B → Op W B
  ◌>>◌ m n = m >>= λ _. n

-- `co_return`.
abbrev pub co_return : {W A : Type 0} → A → Op W A
co_return a w = (done a, w)
