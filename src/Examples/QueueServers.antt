-- ===== src/Examples/QueueServers.antt =====
-- Lists in memory and a worker over them, for the theorems on the queues.
use backtesting_engine_cpp.Prelude.{
  ℕ, ◌<◌, ◌≡◌, refl, true, false, List, [], ◌∷◌, String, Option, none, some, pos, str_eq,
  if◌then◌else◌, Dict, lookup, arith, length,
}
use backtesting_engine_cpp.Redis.{Server, Request, Attempt, Op, done}
use backtesting_engine_cpp.Queue.DrainRuns.{Worker, returned}
use backtesting_engine_cpp.Queue.DrainRuns.Claims.{StrategyNames}
use backtesting_engine_cpp.Queue.RunQueue.Priority.{RunLists, last}
use backtesting_engine_cpp.Examples.Servers.{refuse, set_of, at_most_self, same_done}

-- Lists under keys, for LINDEX with index -1.
pub record Queues : Type 0 where
  pub lists : Dict (List String)

abbrev tail_command : Request → Op Queues (Option String)
tail_command ((name ∷ key ∷ index ∷ []) ∷ []) w = (done (last (set_of (lookup key w.lists))), w)
tail_command request w = refuse request w

instance abbrev pub queues_server : Server Queues
queues_server = record {
  exec_optional = tail_command;
  exec_number = refuse;
  exec_texts = refuse;
  exec_optionals = refuse;
  exec_nodes = refuse;
  exec_ignore = refuse;
  now = λ w. 0;
  cancel_exec = λ w. w;
}

abbrev pub queues_server_laws : RunLists queues_server
queues_server_laws = record {
  list_at = λ w key. set_of (lookup key w.lists);
  tail_read = λ key w v h. same_done h;
  tail_keeps = λ key k w. refl;
}

-- The names of one run, for RPOP; every payload is there.
pub record Names : Type 0 where
  pub names : List String

abbrev pop_back : List String → List String
pop_back [] = []
pop_back (x ∷ []) = []
pop_back (x ∷ y ∷ xs) = x ∷ pop_back (y ∷ xs)

abbrev names_command : Request → Op Names (Option String)
names_command ((name ∷ key ∷ []) ∷ []) w =
    if str_eq name "RPOP"
    then (done (last w.names), record { names = pop_back w.names })
    else (done (some "payload"), w)
names_command request w = refuse request w

instance abbrev pub names_server : Server Names
names_server = record {
  exec_optional = names_command;
  exec_number = refuse;
  exec_texts = refuse;
  exec_optionals = refuse;
  exec_nodes = refuse;
  exec_ignore = λ request w. (done tt, w);
  now = λ w. 0;
  cancel_exec = λ w. w;
}

length-pop_back :
    (xs : List String) (v : String) → last xs ≡ some v → length (pop_back xs) < length xs
length-pop_back [] v h = absurd (ground arith)
length-pop_back (x ∷ []) v h = omega arith
length-pop_back (x ∷ y ∷ xs) v h = omega (arith, length-pop_back (y ∷ xs) v h)

length-pop_back-none : (xs : List String) → last xs ≡ none → length (pop_back xs) ≡ 0
length-pop_back-none [] h = refl
length-pop_back-none (x ∷ []) h = refl
length-pop_back-none (x ∷ y ∷ xs) h = absurd (let q = no_last y xs h in q)
  where
    no_last : (y : String) (xs : List String) → last (y ∷ xs) ≡ none → ⊥
    no_last y [] h = ground arith
    no_last y (z ∷ xs) h = no_last z xs h

pub pop_shorter :
    (xs : List String) (w' : Names) (v : String)
    → ◌≡◌ {A = Attempt (Option String) × Names}
        (done (last xs), record { names = pop_back xs })
        (done (some v), w')
    → length w'.names < length xs
pop_shorter xs w' v h =
    let p : last xs ≡ some v = ground arith in
    let q : pop_back xs ≡ w'.names = ground arith in rw (← q) (length-pop_back xs v p)

pub pop_emptied :
    (xs : List String) (w' : Names)
    → ◌≡◌ {A = Attempt (Option String) × Names}
        (done (last xs), record { names = pop_back xs })
        (done none, w')
    → length w'.names ≡ 0
pop_emptied xs w' h =
    let p : last xs ≡ none = ground arith in
    let q : pop_back xs ≡ w'.names = ground arith in rw (← q) (length-pop_back-none xs p)

-- A worker whose descriptors and payloads all parse, without a monitor.
abbrev pub worker : Worker Names ℕ String ℕ
worker = record {
  parse_run = λ text. done (record {
    run_id = text;
    symbols = "EURUSD";
    batch = "";
    execution_ts = "";
    last_months = pos 6;
    offset_months = pos 0;
    starting_balance = 10000;
    max_loss_percent = 0;
    max_open_trades = pos 0;
    max_trades_per_minute = pos 60;
    report_failures = true;
    peak_hours_only = false;
    entry_slippage_tenth_pips = pos 0;
  });
  parse_strategy = λ text. done text;
  stop_requested = λ w. false;
  take_error = λ w. (none, w);
  get_ticks = λ cfg w. (done 7, w);
  run_on_ticks = λ slice cfg w. (returned, w);
  uuid = λ text. text;
  submit = λ task w. (done tt, w);
  wait_pool = λ w. w;
  put_engine_exception = λ component message run w. w;
  sleep = λ w. w;
  join_pool = λ w. w;
  cancel = λ w. w;
}

abbrev pub worker_laws : (run_id : String) → StrategyNames names_server worker run_id
worker_laws run_id = record {
  size = λ w. length w.names;
  pop_takes = λ w w' v h. pop_shorter w.names w' v h;
  pop_empty = λ w w' h. pop_emptied w.names w' h;
  take_keeps = λ key w. at_most_self (length w.names);
  submit_keeps = λ task w. at_most_self (length w.names);
  report_keeps = λ component message run w. at_most_self (length w.names);
}
