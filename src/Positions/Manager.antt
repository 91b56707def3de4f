-- ===== src/Positions/Manager.antt =====
-- The operations of `PositionManager`.
use Prim.Native.String.{[] as no_text, ◌∷◌ as ◌∷s◌}
pub mod Book
pub mod Survivors
use backtesting_engine_cpp.Prelude.{
  ℕ, zero, suc, ◌+◌, ◌*◌, ◌≡◌, refl, Bool, true, false, List, [], ◌∷◌, ◌++◌, map, String, Option,
  none, some, length, str_eq, if◌then◌else◌, ◌+s◌, Dict, lookup,
}
use backtesting_engine_cpp.Redis.{Server, Op}
use backtesting_engine_cpp.Redis.Client.{SyncRedisClient, Ran, run}
use backtesting_engine_cpp.Redis.Operations.{
  always, get_string, set_string, get_delete, get_multiple, delete_key, get_keys_by_pattern,
}
use backtesting_engine_cpp.Clusters.Grouping.{sort}
use backtesting_engine_cpp.Positions.Codec.{
  Json, encode_position_list, decode_position_list, position_list_key, position_key,
  history_position_key, deal_receipt_key,
}

-- `fetchList`: the list, no list, or a state that is unknown.
pub data ListState : Type 0 where
  ok : List String → ListState
  missing failed : ListState

-- 60 days, in milliseconds.
abbrev pub k_history_ttl : ℕ
k_history_ttl = 24 * 60 * 3600 * 1000

unfoldable pub contains : String → List String → Bool
contains x [] = false
contains x (y ∷ ys) = if str_eq y x then true else contains x ys

-- `std::erase`.
without : String → List String → List String
without x [] = []
without x (y ∷ ys) = if str_eq y x then without x ys else y ∷ without x ys

-- The deals of the list with a value, in the list's order: their ids; with their payloads.
keep_live : String → Option String → List String → List String
keep_live deal_id none rest = rest
keep_live deal_id (some v) rest = deal_id ∷ rest

survivors : List String → Dict String → List String
unfolding keep_live
survivors [] live = []
survivors (deal_id ∷ deal_ids) live =
    keep_live deal_id (lookup (position_key deal_id) live) (survivors deal_ids live)

payloads_of : List String → Dict String → List (String × String)
payloads_of [] live = []
payloads_of (deal_id ∷ deal_ids) live =
    let rest = payloads_of deal_ids live in
    elim (lookup (position_key deal_id) live) [ none ↦ rest | some v ↦ (deal_id, v) ∷ rest ]

-- Whether a SET was carried out.
was_stored : Option Bool → Bool
was_stored none = false
was_stored (some b) = b

-- Whether a DEL got through, whatever it deleted.
got_through : Option Bool → Bool
got_through none = false
got_through (some removed) = true

-- A list that is missing reads as empty, and one that is unknown as unknown.
known_list : ListState → Option (List String)
known_list (ok deal_ids) = some deal_ids
known_list missing = some []
known_list failed = none

flattened : Option (Option String) → Option String
flattened none = none
flattened (some value) = value

decoded : Option (List String) → ListState
decoded none = failed
decoded (some deal_ids) = ok deal_ids

counted : Option (List (String × String)) → Option ℕ
counted none = none
counted (some l) = some (length l)

-- The text without its first `n` characters (`substr`).
after_chars : ℕ → String → String
after_chars zero text = text
after_chars (suc n) String.[] = ""
after_chars (suc n) (String.◌∷◌ c text) = after_chars n text

-- The ids of a scan; `unfinished` is a scan cut off by the model's fuel.
pub data Scan : Type 0 where
  known : List String → Scan
  unknown unfinished : Scan

scanned : Option (Option (List String)) → Scan
unfolding after_chars sort
scanned none = unknown
scanned (some none) = unfinished
scanned (some (some keys)) = known (sort (map (after_chars 3) keys))

module _ {J D : Type 0} (json : Json J D) where
  unfoldable pub list_state : Option (Option String) → ListState
  unfolding decoded
  list_state none = failed
  list_state (some none) = missing
  list_state (some (some text)) = decoded (decode_position_list json text)

module _ {W J D : Type 0} ⦃s : Server W⦄ (json : Json J D) where
  unfoldable pub fetch_list : SyncRedisClient → String → W → ListState × SyncRedisClient × W
  unfolding list_state
  fetch_list c strategy_id w =
      let op : Op W (Option String) = get_string (position_list_key strategy_id) in
      let (r, c', w') = run c op "" w in (list_state json r.value, c', w')

  unfoldable pub get_positions_list :
      SyncRedisClient → String → W → Option (List String) × SyncRedisClient × W
  unfolding fetch_list known_list
  get_positions_list c strategy_id w =
      let (state, c', w') = fetch_list c strategy_id w in (known_list state, c', w')

  unfoldable pub save_position :
      SyncRedisClient → String → String → ℕ → W → Bool × SyncRedisClient × W
  unfolding was_stored
  save_position c deal_id payload ttl w =
      let op : Op W Bool = set_string (position_key deal_id) payload always (some ttl) in
      let (r, c', w') = run c op "" w in (was_stored r.value, c', w')

  -- `ttl` is in hours.
  unfoldable pub save_deal_receipt :
      SyncRedisClient → String → String → String → ℕ → W → Bool × SyncRedisClient × W
  unfolding was_stored
  save_deal_receipt c deal_reference symbol payload ttl w =
      let op : Op W Bool =
        set_string (deal_receipt_key deal_reference symbol) payload always
          (some (ttl * 3600 * 1000)) in
      let (r, c', w') = run c op "" w in (was_stored r.value, c', w')

  -- The list is written with no expiry.
  unfoldable pub store_list :
      SyncRedisClient → String → List String → W → Bool × SyncRedisClient × W
  unfolding was_stored encode_position_list
  store_list c strategy_id deal_ids w =
      let op : Op W Bool =
        set_string (position_list_key strategy_id) (encode_position_list json deal_ids) always
          none in
      let (r, c', w') = run c op "" w in (was_stored r.value, c', w')

  -- A deal that is in the list already is not added again.
  added : String → String → ListState → SyncRedisClient → W → Bool × SyncRedisClient × W
  unfolding contains store_list
  added strategy_id deal_id failed c w = (false, c, w)
  added strategy_id deal_id missing c w = store_list c strategy_id (deal_id ∷ []) w
  added strategy_id deal_id (ok deal_ids) c w =
      let write = store_list c strategy_id (deal_ids ++ deal_id ∷ []) w in
      if contains deal_id deal_ids then (true, c, w) else write

  unfoldable pub add_position : SyncRedisClient → String → String → W → Bool × SyncRedisClient × W
  unfolding fetch_list added
  add_position c strategy_id deal_id w =
      let (state, c', w') = fetch_list c strategy_id w in added strategy_id deal_id state c' w'

  payloads : ListState → SyncRedisClient → W → Option (List (String × String)) × SyncRedisClient × W
  unfolding payloads_of
  payloads missing c w = (some [], c, w)
  payloads failed c w = (none, c, w)
  payloads (ok []) c w = (some [], c, w)
  payloads (ok (deal_id ∷ deal_ids)) c w =
      let op : Op W (Dict String) = get_multiple (map position_key (deal_id ∷ deal_ids)) in
      let (r, c', w') = run c op "" w in
      elim r.value [
        | none ↦ (none, c', w')
        | some live ↦ (some (payloads_of (deal_id ∷ deal_ids) live), c', w')
      ]

  unfoldable pub get_position_payloads :
      SyncRedisClient → String → W → Option (List (String × String)) × SyncRedisClient × W
  unfolding fetch_list payloads
  get_position_payloads c strategy_id w =
      let (state, c', w') = fetch_list c strategy_id w in payloads state c' w'

  unfoldable pub get_position_count : SyncRedisClient → String → W → Option ℕ × SyncRedisClient × W
  unfolding get_position_payloads counted
  get_position_count c strategy_id w =
      let (found, c', w') = get_position_payloads c strategy_id w in (counted found, c', w')

  -- An emptied list is deleted.
  rewrite_list : String → List String → SyncRedisClient → W → Bool × SyncRedisClient × W
  unfolding store_list got_through
  rewrite_list strategy_id [] c w =
      let op : Op W Bool = delete_key (position_list_key strategy_id) in
      let (r, c', w') = run c op "" w in (got_through r.value, c', w')
  rewrite_list strategy_id (deal_id ∷ deal_ids) c w =
      store_list c strategy_id (deal_id ∷ deal_ids) w

  kept :
      String → List String → Option (Dict String) → SyncRedisClient → W → Bool × SyncRedisClient × W
  unfolding rewrite_list survivors
  kept strategy_id deal_ids none c w = (false, c, w)
  kept strategy_id deal_ids (some live) c w = rewrite_list strategy_id (survivors deal_ids live) c w

  refreshed : String → ListState → SyncRedisClient → W → Bool × SyncRedisClient × W
  unfolding kept
  refreshed strategy_id missing c w = (true, c, w)
  refreshed strategy_id failed c w = (false, c, w)
  refreshed strategy_id (ok []) c w = rewrite_list strategy_id [] c w
  refreshed strategy_id (ok (deal_id ∷ deal_ids)) c w =
      let op : Op W (Dict String) = get_multiple (map position_key (deal_id ∷ deal_ids)) in
      let (r, c', w') = run c op "" w in kept strategy_id (deal_id ∷ deal_ids) r.value c' w'

  unfoldable pub refresh_position_list : SyncRedisClient → String → W → Bool × SyncRedisClient × W
  unfolding fetch_list refreshed
  refresh_position_list c strategy_id w =
      let (state, c', w') = fetch_list c strategy_id w in refreshed strategy_id state c' w'

  -- The history copy of a deal that had a payload; whether it is written changes nothing else.
  archive : String → Option String → SyncRedisClient → W → SyncRedisClient × W
  archive deal_id none c w = (c, w)
  archive deal_id (some payload) c w =
      let op : Op W Bool =
        set_string (history_position_key deal_id) payload always (some k_history_ttl) in
      let (r, c', w') = run c op "" w in (c', w')

  unlisted : String → String → ListState → SyncRedisClient → W → Bool × SyncRedisClient × W
  unfolding store_list without
  unlisted strategy_id deal_id missing c w = (true, c, w)
  unlisted strategy_id deal_id failed c w = (false, c, w)
  unlisted strategy_id deal_id (ok deal_ids) c w =
      store_list c strategy_id (without deal_id deal_ids) w

  removed :
      String → String → Option (Option String) → SyncRedisClient → W → Bool × SyncRedisClient × W
  unfolding archive fetch_list unlisted
  removed strategy_id deal_id none c w = (false, c, w)
  removed strategy_id deal_id (some payload) c w =
      let (c₁, w₁) = archive deal_id payload c w in
      let (state, c₂, w₂) = fetch_list c₁ strategy_id w₁ in unlisted strategy_id deal_id state c₂ w₂

  unfoldable pub remove_position :
      SyncRedisClient → String → String → W → Bool × SyncRedisClient × W
  unfolding removed
  remove_position c strategy_id deal_id w =
      let op : Op W (Option String) = get_delete (position_key deal_id) in
      let (r, c', w') = run c op "" w in removed strategy_id deal_id r.value c' w'

  unfoldable pub get_position_payload :
      SyncRedisClient → String → W → Option (Option String) × SyncRedisClient × W
  get_position_payload c deal_id w =
      let op : Op W (Option String) = get_string (position_key deal_id) in
      let (r, c', w') = run c op "" w in (r.value, c', w')

  unfoldable pub get_history_position_payload :
      SyncRedisClient → String → W → Option (Option String) × SyncRedisClient × W
  get_history_position_payload c deal_id w =
      let op : Op W (Option String) = get_string (history_position_key deal_id) in
      let (r, c', w') = run c op "" w in (r.value, c', w')

  -- A missing receipt and one that cannot be read are the same.
  unfoldable pub get_deal_receipt :
      SyncRedisClient → String → String → W → Option String × SyncRedisClient × W
  unfolding flattened
  get_deal_receipt c deal_reference symbol w =
      let op : Op W (Option String) = get_string (deal_receipt_key deal_reference symbol) in
      let (r, c', w') = run c op "" w in (flattened r.value, c', w')

module _ {W : Type 0} ⦃s : Server W⦄ where
  unfoldable pub list_strategy_ids : ℕ → SyncRedisClient → W → Scan × SyncRedisClient × W
  unfolding scanned
  list_strategy_ids fuel c w =
      let op : Op W (Option (List String)) = get_keys_by_pattern fuel "PL#*" in
      let (r, c', w') = run c op "" w in (scanned r.value, c', w')
