-- ===== src/Examples/Servers.antt =====
-- Servers in memory, for the theorems that take one.
use backtesting_engine_cpp.Prelude.{
  ℕ, ◌+◌, ◌≤◌, ◌<◌, ◌≡◌, ◌≢◌, refl, Bool, false, List, [], ◌∷◌, map, String, Option, none, some, ℤ,
  pos, ltb, eq_iff, if◌then◌else◌, Dict, lookup, insert, erase, lookup-insert, lookup-erase, arith,
  Bool-cases, inl, inr, ap,
}
use backtesting_engine_cpp.Search.Texts.{codes}
use backtesting_engine_cpp.Redis.{Server, Request, Attempt, Op, done, raised}
use backtesting_engine_cpp.Redis.Decimal.{read_digits, to_string}
use backtesting_engine_cpp.Redis.Decimal.RoundTrip.{read_digits-to_string}
use backtesting_engine_cpp.Redis.TradeLocks.Exclusion.{LockServer}
use backtesting_engine_cpp.Redis.KeyValues.{KeyValues}
use backtesting_engine_cpp.Positions.Manager.Book.{BookServer}
use backtesting_engine_cpp.Clusters.Gate.Admission.{SetServer}

abbrev pub refuse : {W A : Type 0} → Request → Op W A
refuse request w = (raised "ERR unknown command", w)

pub at_most_self : (n : ℕ) → n ≤ n
at_most_self n = omega arith

pub same_done : {A : Type 0} {a b : A} → ◌≡◌ {A = Attempt A} (done a) (done b) → b ≡ a
same_done h = ground arith

pub same_value :
    {A W : Type 0} {a b : A} {w w' : W} → ◌≡◌ {A = Attempt A × W} (done a, w) (done b, w') → b ≡ a
same_value h = ground arith

-- A clock, and locks with their expiries.
pub record Locks : Type 0 where
  pub held : Dict ℕ
  pub clock : ℕ

abbrev is_held : Option ℕ → ℕ → Bool
is_held none now = false
is_held (some e) now = ltb now e

abbrev or_zero : Option ℕ → ℕ
or_zero none = 0
or_zero (some n) = n

abbrev milliseconds : String → ℕ
milliseconds text = or_zero (read_digits (codes text) none)

abbrev pub lock : String → ℕ → Locks → Attempt (Option String) × Locks
lock key ms w =
    if is_held (lookup key w.held) w.clock
    then (done none, w)
    else (done (some "OK"), record w { held = insert key (w.clock + ms) w.held })

abbrev lock_command : Request → Op Locks (Option String)
lock_command ((name ∷ key ∷ value ∷ px ∷ ms ∷ nx ∷ []) ∷ []) w = lock key (milliseconds ms) w
lock_command request w = refuse request w

instance abbrev pub lock_server : Server Locks
lock_server = record {
  exec_optional = lock_command;
  exec_number = refuse;
  exec_texts = refuse;
  exec_optionals = refuse;
  exec_nodes = refuse;
  exec_ignore = refuse;
  now = λ w. w.clock;
  cancel_exec = λ w. w;
}

pub lock_blocked :
    (key : String) (ms e : ℕ) (w : Locks) (v : String)
    → lookup key w.held ≡ some e
    → (lock key ms w).1.clock < e
    → (lock key ms w).0 ≢ done (some v)
lock_blocked key ms e w v h = rw h (elim (Bool-cases (ltb w.clock e)) [
  | inl t ↦ rw t (λ l q. ground arith)
  | inr f ↦ rw f (λ l. absurd (ground arith))
])

pub lock_keeps :
    (key : String) (ms e : ℕ) (w : Locks)
    → lookup key w.held ≡ some e
    → (lock key ms w).1.clock < e
    → lookup key (lock key ms w).1.held ≡ some e
lock_keeps key ms e w h = rw h (elim (Bool-cases (ltb w.clock e)) [
  | inl t ↦ rw t (λ l. h)
  | inr f ↦ rw f (λ l. absurd (ground arith))
])

lock_stored :
    (key : String) (ms : ℕ) (w : Locks) (v : String)
    → (lock key ms w).0 ≡ done (some v)
    → (e : ℕ) × (lookup key (lock key ms w).1.held ≡ some e) × (w.clock + ms ≤ e)
lock_stored key ms w v = elim (Bool-cases (is_held (lookup key w.held) w.clock)) [
  | inl t ↦ rw t (λ h. absurd (ground arith))
  | inr f ↦ rw f (λ h. (
    w.clock + ms,
    rw (lookup-insert key key (w.clock + ms) w.held) (ground (arith, eq_iff key key)),
    omega arith,
  ))
]

pub lock_clock : (key : String) (ms : ℕ) (w : Locks) → w.clock ≤ (lock key ms w).1.clock
lock_clock key ms w = elim (Bool-cases (is_held (lookup key w.held) w.clock)) [
  | inl t ↦ rw t (omega arith)
  | inr f ↦ rw f (omega arith)
]

milliseconds-to_string : (ms : ℕ) → milliseconds (to_string ms) ≡ ms
milliseconds-to_string ms = ap or_zero (read_digits-to_string ms)

pub nx_stored_at :
    (key : String) (ms : ℕ) (w : Locks) (v : String)
    → (lock key (milliseconds (to_string ms)) w).0 ≡ done (some v)
    → (e : ℕ) × (lookup key (lock key (milliseconds (to_string ms)) w).1.held ≡ some e)
      × (w.clock + ms ≤ e)
nx_stored_at key ms w v = rw (milliseconds-to_string ms) (lock_stored key ms w v)

abbrev pub lock_server_laws : LockServer lock_server
lock_server_laws = record {
  server_now = λ w. w.clock;
  expiry = λ w key. lookup key w.held;
  nx_blocked = λ key value ms e w v. lock_blocked key (milliseconds (to_string ms)) e w v;
  nx_keeps = λ key value ms e w. lock_keeps key (milliseconds (to_string ms)) e w;
  nx_stored = λ key value ms w v. nx_stored_at key ms w v;
  nx_clock = λ key value ms w. lock_clock key (milliseconds (to_string ms)) w;
  cancel_keeps = λ key w. refl;
  cancel_clock = λ w. at_most_self w.clock;
}

-- Values under keys, for GET, SET, MGET and DEL.
abbrev strings_command : Request → Op (Dict String) (Option String)
strings_command ((name ∷ key ∷ value ∷ px ∷ ms ∷ []) ∷ []) w =
    (done (some "OK"), insert key value w)
strings_command ((name ∷ key ∷ value ∷ []) ∷ []) w = (done (some "OK"), insert key value w)
strings_command ((name ∷ key ∷ []) ∷ []) w = (done (lookup key w), w)
strings_command request w = refuse request w

abbrev mget_command : Request → Op (Dict String) (List (Option String))
mget_command ((name ∷ keys) ∷ []) w = (done (map (λ k. lookup k w) keys), w)
mget_command request w = refuse request w

abbrev del_command : Request → Op (Dict String) ℤ
del_command ((name ∷ key ∷ []) ∷ []) w = (done (pos 1), erase key w)
del_command request w = refuse request w

instance abbrev pub strings_server : Server (Dict String)
strings_server = record {
  exec_optional = strings_command;
  exec_number = del_command;
  exec_texts = refuse;
  exec_optionals = mget_command;
  exec_nodes = refuse;
  exec_ignore = refuse;
  now = λ w. 0;
  cancel_exec = λ w. w;
}

pub lookup-insert_self :
    (key value : String) (w : Dict String) → lookup key (insert key value w) ≡ some value
lookup-insert_self key value w = rw (lookup-insert key key value w) (ground (arith, eq_iff key key))

pub lookup-erase_self : (key : String) (w : Dict String) → lookup key (erase key w) ≡ none
lookup-erase_self key w = rw (lookup-erase key key w) (ground (arith, eq_iff key key))

abbrev pub strings_server_laws : KeyValues strings_server
strings_server_laws = record {
  value_at = λ w key. lookup key w;
  get_reads = λ key w w' v h. same_value h;
  get_keeps = λ key w. refl;
  set_stores = λ key value ms w v h. lookup-insert_self key value w;
  cancel_keeps = λ key w. refl;
}

abbrev pub strings_server_book : BookServer strings_server
strings_server_book = record {
  value_at = λ w key. lookup key w;
  get_reads = λ key w v h. same_done h;
  get_keeps = λ key k w. refl;
  mget_reads = λ keys w vs h. same_done h;
  set_stores = λ key value w v h. lookup-insert_self key value w;
  del_removes = λ key w n h. lookup-erase_self key w;
}

-- Sets, for SMEMBERS; a SET of a lock is carried out and leaves them.
abbrev pub set_of : Option (List String) → List String
set_of none = []
set_of (some members) = members

abbrev sets_command : Request → Op (Dict (List String)) (List String)
sets_command ((name ∷ key ∷ []) ∷ []) w = (done (set_of (lookup key w)), w)
sets_command request w = refuse request w

instance abbrev pub sets_server : Server (Dict (List String))
sets_server = record {
  exec_optional = λ request w. (done (some "OK"), w);
  exec_number = refuse;
  exec_texts = sets_command;
  exec_optionals = refuse;
  exec_nodes = refuse;
  exec_ignore = refuse;
  now = λ w. 0;
  cancel_exec = λ w. w;
}

abbrev pub sets_server_laws : SetServer sets_server
sets_server_laws = record {
  members_at = λ w key. set_of (lookup key w);
  members_read = λ key w w' l h. same_value h;
  members_keep = λ key k w. refl;
  nx_keeps = λ group value ms g w. refl;
  cancel_keeps = λ k w. refl;
}
