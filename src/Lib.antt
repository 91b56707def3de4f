-- ===== src/Lib.antt =====
-- The core of the backtesting engine: the account of a run, the loop that drives it over ticks, the
-- bars that the loop feeds, the gates of an entry, the summary of the result; and what the engine's
-- processes share through Redis: the queue of runs and its worker, the locks, the clusters and the book
-- of positions of live trading.
--
-- The program and its model. A run is `runTicks` of source/run/trading/runLoop.cppm. For each tick it
-- revalues the open trade of the tick's symbol and closes it at its stop or limit
-- (source/run/trading/tradeManager.cppm, exitRules.cppm, reviewStopAndLimit.cppm), feeds the bar
-- histories (source/shared/utilities/barStore.cppm over ohlcBuilder.cppm and rangeBarBuilder.cppm),
-- stops at the loss limit, and else asks the strategy for an entry if the gates allow one: the session
-- (marketHours.cppm), the caps on open trades and on entries in a minute, and the ATR conditions
-- (source/strategies/conditions/entryConditions.cppm over atr.cppm). At the end it closes what is
-- open, and holds the run to the score of source/run/reporting/resultsSummary.cppm.
--
-- Around the runs, a worker (source/run/queue/drainRuns.cpp) takes a run's descriptor off the queues
-- (runQueue.cpp, source/shared/utilities/queueKeys.hpp), claims its strategies one by one and hands them
-- to a pool. In live trading a client with a breaker (source/shared/redis/client) carries the commands
-- of source/shared/redis/operations to the server, and over it stand the locks on a strategy's direction
-- (tradeLocks.cpp), the counts of the broker's requests (apiRequestGate.cpp), the entry check of the
-- clusters (positionClustering.cpp) and the book of open positions (positionManager.cpp).
--
-- The files:
--   Trading/Models          priceData.cppm and trade.cppm of source/shared/models
--   Trading/TradeManager    the class TradeManager, one function per method; below it Book for the map,
--                           Cases for its branches, Ledger, Liquidation, Tally, Curve and History for what
--                           holds of it
--   Trading/ExitRules       checkExit, reviewStopAndLimit, and closeIfPastCap of
--                           source/strategies/timeCapExit.cppm
--   Trading/RunLoop         runTicks: revalued, is_breached, entry_allowed, try_entry and manage are
--                           the phases of on_tick, the body of the loop, and finish what follows it
--   Bars/Ohlc, RangeBar,    the builders, with Window for the deques of the range bars, and the store;
--   Store, Atr, Conditions  the average true range and the entry conditions, with Admission
--                           for what they let through
--   SymbolScale, Search     symbolScale.cppm, and the binary search that it shares with marketHours.cppm
--   MarketHours             marketHours.cppm, with the part of the calendar that it uses
--   Sweep                   the grid of source/load/sweep: combinations, the expansion, the decoding
--   Reporting               collect and computePerformanceScore
--   Redis                   the commands and the server's answers, with to_string and from_chars in Decimal
--   Redis/Operations        redisOperations.cpp, one function per operation
--   Redis/Client            syncRedisClient.hpp and .cpp: `run` and the breaker
--   Redis/TradeLocks,       tradeLocks.cpp and apiRequestGate.cpp
--   ApiRequestGate
--   Clusters                positionClustering.hpp and .cpp: Table, Members, Grouping, Gate for
--                           isClusterBlocked and markOpened, Sync for syncAllClusters
--   Positions               positionManager.cpp: Codec for the keys and the JSON, Manager for the operations
--   Queue                   queueKeys.hpp, runQueue.cpp, drainRuns.cpp
--   ThreadPool              threadPool.hpp: the sections under the mutex, and the steps of the workers;
--                           below it InFlight, Progress and Quiet for what holds of them
--   Base64                  base64.cpp
--   Prelude, Examples       shared names and lemmas; tests and concrete inputs
--
-- Numbers. Prices, points and times are integers (ℤ of Prelude/Int, over the native ℕ); signed overflow
-- is undefined in the source, and sums are exact here. Unsigned counters wrap (`% 2 ^ 64`), and a cast
-- to 32 bits wraps (`to_int32`). `decimal64_t` and `double` are not implemented in the source: they are
-- the record Numbers, a parameter of which nothing is assumed. Times are microseconds since the epoch.
--
-- Redis. An awaited operation is a function of the world W: it gives a value or an exception's text,
-- and the next world. The server is the record Server, which answers a request of words by its kind of
-- reply, tells the time, and can change between calls; a mutex of the source is the order of the calls.
-- What a theorem needs of the server's documented commands is a record of laws beside it (LockServer,
-- KeyValues, SetServer, BookServer, RunLists, StrategyNames), and Examples/Servers and QueueServers fill
-- each with a server in memory.
--
-- Threads. The pool's calls and the workers' steps are a relation (WorkerStep, Reached), so any
-- interleaving of the sections under the mutex; a wait of a condition variable is its predicate, and the
-- wake-ups are not modelled.
--
-- Parameters. The server; nlohmann::json with the formatting of a double (Json); the pool, the tick
-- cache, the parsers and the reports around a worker (Worker). The database behind the warm-ups
-- (Database), the numbers (Numbers) and the strategy of a run (Strategy, whose state is threaded through
-- `decide` and `during`). A theorem on runs names what it needs of `during`, and Examples/Runs shows it
-- of `closeIfPastCap`.
--
-- Maps are association lists, whose order stands for the order of iteration that the source leaves
-- open. An exception is the value invalid_argument of Result, and drops the state. Loops are
-- structural, but for these: the binary search, whose fuel is the length of the table, which is shown
-- to be enough; the drain of a run, for which the number of its names and one more is enough fuel, as
-- every round pops one; and SCAN and the worker's endless loop, which are cut off after any given number
-- of rounds.
--
-- Not modelled: logging, the event loop under the client, Elasticsearch, QuestDB, the broker, the
-- processes of live trading, the drain of the experiments, the strategies.
pub mod Prelude
pub mod Search
pub mod SymbolScale
pub mod MarketHours
pub mod Trading
pub mod Bars
pub mod Sweep
pub mod Reporting
pub mod Redis
pub mod Clusters
pub mod Positions
pub mod Queue
pub mod ThreadPool
pub mod Base64
pub mod Examples
