-- ===== src/Redis/Operations.antt =====
-- source/shared/redis/operations/redisOperations.cpp: the command each operation sends and how its
-- reply is read. Times are milliseconds.
use backtesting_engine_cpp.Prelude.{
  ℕ, zero, suc, Bool, true, false, not, List, [], ◌∷◌, ◌++◌, map, String, Option, none, some, ℤ,
  pos, ltb_ℤ, eqb_ℤ, if◌then◌else◌, str_eq, ◌==◌, ◌&&◌,
}
use backtesting_engine_cpp.Redis.{Server, Op, Node, ◌>>=◌, ◌>>◌}
use backtesting_engine_cpp.Redis.{co_return}
use backtesting_engine_cpp.Redis.Decimal.{to_string, to_string_ℤ}

pub data SetWhen : Type 0 where
  always exists not_exists : SetWhen

-- The words of a conditional SET after its name.
unfoldable pub set_args : String → String → SetWhen → Option ℕ → List String
unfolding to_string
set_args key value set_when expiry =
    let px : List String = elim expiry [ none ↦ [] | some ms ↦ "PX" ∷ to_string ms ∷ [] ] in
    let flag : List String = elim set_when [
      | always ↦ []
      | not_exists ↦ "NX" ∷ []
      | exists ↦ "XX" ∷ []
    ] in
    (key ∷ value ∷ []) ++ (px ++ flag)

-- Values zipped back onto their keys; a missing one leaves its key out. A map keeps the first entry
-- of a key (`std::map::emplace`), as a search of this list from its front does.
unfoldable pub zip_present : List String → List (Option String) → List (String × String)
zip_present [] values = []
zip_present (key ∷ keys) [] = []
zip_present (key ∷ keys) (none ∷ values) = zip_present keys values
zip_present (key ∷ keys) (some v ∷ values) = (key, v) ∷ zip_present keys values

-- The keys of a SCAN reply's node tree, past its first two nodes.
scan_keys : List Node → List String
scan_keys [] = []
scan_keys (node ∷ nodes) =
    let rest = scan_keys nodes in
    if (node.depth == 2) && node.is_blob_string then node.value ∷ rest else rest

-- Whether the reply was a value: a blocked conditional SET replies nil.
abbrev pub has_value : Option String → Bool
has_value (some v) = true
has_value none = false

abbrev flatten : List (String × String) → List String
flatten [] = []
flatten ((k, v) ∷ rest) = k ∷ v ∷ flatten rest

module _ {W : Type 0} ⦃s : Server W⦄ where
  -- ---- Strings ----
  unfoldable pub get_string : String → Op W (Option String)
  get_string key = s.exec_optional (("GET" ∷ key ∷ []) ∷ [])

  unfoldable pub set_string_plain : String → String → Op W (Unit {0})
  set_string_plain key value = s.exec_ignore (("SET" ∷ key ∷ value ∷ []) ∷ [])

  unfoldable pub set_string : String → String → SetWhen → Option ℕ → Op W Bool
  unfolding set_args
  set_string key value set_when expiry = do
    reply ← s.exec_optional (("SET" ∷ set_args key value set_when expiry) ∷ [])
    co_return (has_value reply)

  unfoldable pub set_if_not_exists : String → String → Option ℕ → Op W Bool
  unfolding set_string
  set_if_not_exists key value expiry = set_string key value not_exists expiry

  unfoldable pub set_multiple : List (String × String) → Op W (Unit {0})
  set_multiple [] = co_return tt
  set_multiple (pair ∷ pairs) = s.exec_ignore (("MSET" ∷ flatten (pair ∷ pairs)) ∷ [])

  unfoldable pub set_multiple_with_ttl : List (String × String) → ℕ → Op W (Unit {0})
  unfolding to_string
  set_multiple_with_ttl [] ttl = co_return tt
  set_multiple_with_ttl (pair ∷ pairs) ttl =
      s.exec_ignore (
        map (λ (p : String × String). "SET" ∷ p.0 ∷ p.1 ∷ "PX" ∷ to_string ttl ∷ []) (pair ∷ pairs))

  unfoldable pub get_delete : String → Op W (Option String)
  get_delete key = s.exec_optional (("GETDEL" ∷ key ∷ []) ∷ [])

  unfoldable pub get_multiple : List String → Op W (List (String × String))
  unfolding zip_present
  get_multiple [] = co_return []
  get_multiple (key ∷ keys) = do
    values ← s.exec_optionals (("MGET" ∷ key ∷ keys) ∷ [])
    co_return (zip_present (key ∷ keys) values)

  -- ---- Keys / TTL ----
  unfoldable pub delete_key : String → Op W Bool
  delete_key key = do n ← s.exec_number (("DEL" ∷ key ∷ []) ∷ []); co_return (ltb_ℤ (pos 0) n)

  unfoldable pub delete_keys : List String → Op W ℤ
  delete_keys [] = co_return (pos 0)
  delete_keys (key ∷ keys) = s.exec_number (("DEL" ∷ key ∷ keys) ∷ [])

  unfoldable pub set_ttl : String → ℕ → Op W Bool
  unfolding to_string
  set_ttl key ttl = do
    n ← s.exec_number (("PEXPIRE" ∷ key ∷ to_string ttl ∷ []) ∷ [])
    co_return (not (eqb_ℤ n (pos 0)))

  unfoldable pub key_expire : String → Option ℕ → Op W (Unit {0})
  unfolding to_string
  key_expire key (some ms) = s.exec_ignore (("PEXPIRE" ∷ key ∷ to_string ms ∷ []) ∷ [])
  key_expire key none = s.exec_ignore (("PERSIST" ∷ key ∷ []) ∷ [])

  -- The reply is not looked at: an error reply counts as done.
  unfoldable pub key_rename : String → String → Op W Bool
  key_rename source_key destination_key = do
    s.exec_ignore (("RENAME" ∷ source_key ∷ destination_key ∷ []) ∷ [])
    co_return true

  -- The SCAN loop on fuel: the server chooses when the cursor is "0" again; `none` is out of fuel.
  scan_from : ℕ → String → String → List String → Op W (Option (List String))
  unfolding scan_keys
  scan_from zero pattern cursor keys = co_return none
  scan_from (suc fuel) pattern cursor keys = do
    nodes ← s.exec_nodes (("SCAN" ∷ cursor ∷ "MATCH" ∷ pattern ∷ "COUNT" ∷ "250" ∷ []) ∷ [])
    elim nodes [
      | [] ↦ co_return (some keys)
      | node ∷ [] ↦ co_return (some keys)
      | outer ∷ first ∷ rest ↦
          let found = keys ++ scan_keys rest in
          if str_eq first.value "0"
          then co_return (some found)
          else scan_from fuel pattern first.value found
    ]

  unfoldable pub get_keys_by_pattern : ℕ → String → Op W (Option (List String))
  unfolding scan_from
  get_keys_by_pattern fuel pattern = scan_from fuel pattern "0" []

  -- ---- Sets ----
  unfoldable pub set_add : String → String → Op W Bool
  set_add key value = do
    n ← s.exec_number (("SADD" ∷ key ∷ value ∷ []) ∷ [])
    co_return (not (eqb_ℤ n (pos 0)))

  unfoldable pub set_remove : String → String → Op W Bool
  set_remove key value = do
    n ← s.exec_number (("SREM" ∷ key ∷ value ∷ []) ∷ [])
    co_return (not (eqb_ℤ n (pos 0)))

  unfoldable pub set_members : String → Op W (List String)
  set_members key = s.exec_texts (("SMEMBERS" ∷ key ∷ []) ∷ [])

  unfoldable pub set_contains : String → String → Op W Bool
  set_contains key value = do
    n ← s.exec_number (("SISMEMBER" ∷ key ∷ value ∷ []) ∷ [])
    co_return (not (eqb_ℤ n (pos 0)))

  unfoldable pub set_length : String → Op W ℤ
  set_length key = s.exec_number (("SCARD" ∷ key ∷ []) ∷ [])

  -- ---- Lists ----
  unfoldable pub list_push_front : String → String → Op W (Unit {0})
  list_push_front key value = s.exec_ignore (("LPUSH" ∷ key ∷ value ∷ []) ∷ [])

  unfoldable pub list_push_front_all : String → List String → Op W (Unit {0})
  list_push_front_all key values =
      s.exec_ignore (map (λ (value : String). "LPUSH" ∷ key ∷ value ∷ []) values)

  unfoldable pub list_pop_back : String → Op W (Option String)
  list_pop_back key = s.exec_optional (("RPOP" ∷ key ∷ []) ∷ [])

  unfoldable pub list_index : String → ℤ → Op W (Option String)
  unfolding to_string_ℤ
  list_index key index = s.exec_optional (("LINDEX" ∷ key ∷ to_string_ℤ index ∷ []) ∷ [])

  unfoldable pub list_remove : String → ℤ → String → Op W (Unit {0})
  unfolding to_string_ℤ
  list_remove key count value = s.exec_ignore (("LREM" ∷ key ∷ to_string_ℤ count ∷ value ∷ []) ∷ [])

  -- ---- Generic ----
  unfoldable pub execute : List String → Op W (List Node)
  execute [] = co_return []
  execute (command ∷ args) = s.exec_nodes ((command ∷ args) ∷ [])
