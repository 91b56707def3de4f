-- ===== src/Redis/ApiRequestGate.antt =====
-- source/shared/redis/apiRequestGate.cpp: the count of broker requests in each minute of the hour,
-- and the deals a request was sent for lately.
pub mod Counts
use backtesting_engine_cpp.Prelude.{
  ℕ, ◌+◌, ◌*◌, ◌<◌, ◌≡◌, refl, Bool, true, false, String, Option, none, some, arith, ◌||◌,
  if◌then◌else◌, ◌+s◌, ℤ, pos, negsuc, ◌+ℤ◌, ltb_ℤ, str_eq,
}
use backtesting_engine_cpp.Redis.{Server, Op}
use backtesting_engine_cpp.Redis.Client.{SyncRedisClient, Ran, run}
use backtesting_engine_cpp.Redis.Decimal.{to_string_ℤ, from_chars_int}
use backtesting_engine_cpp.Redis.Operations.{always, get_string, set_string}
use backtesting_engine_cpp.Search.Texts.{codes}

pub request_window_key : ℤ → String
request_window_key minute_of_hour = "REQ#" +s to_string_ℤ minute_of_hour

pub deal_request_key : String → String
deal_request_key deal_id = "API#" +s deal_id

-- The gate's state is its client; `client_` of the class.
-- What was parsed; no number, or a negative one, counts as an empty window.
parsed_count : Option ℤ → ℤ
parsed_count none = pos 0
parsed_count (some count) = if ltb_ℤ count (pos 0) then pos 0 else count

-- A missing window is empty too.
unfoldable pub window_count : Option String → ℤ
unfolding from_chars_int parsed_count
window_count none = pos 0
window_count (some text) = parsed_count (from_chars_int (codes text))

counted : Option (Option String) → Option ℤ
unfolding window_count
counted none = none
counted (some value) = some (window_count value)

-- Whether a key was there.
present : Option (Option String) → Option Bool
present none = none
present (some none) = some false
present (some (some v)) = some true

-- Whether a SET was carried out.
stored : Option Bool → Bool
stored none = false
stored (some b) = b

module _ {W : Type 0} ⦃s : Server W⦄ where
  -- `none`: the count is unknown.
  unfoldable pub requests_made : SyncRedisClient → ℤ → W → Option ℤ × SyncRedisClient × W
  unfolding request_window_key counted
  requests_made c minute_of_hour w =
      let op : Op W (Option String) = get_string (request_window_key minute_of_hour) in
      let (r, c', w') = run c op "" w in (counted r.value, c', w')

  -- The SET of one more than the count read.
  record_next : ℤ → Option ℤ → SyncRedisClient → W → Bool × SyncRedisClient × W
  unfolding stored request_window_key
  record_next minute_of_hour none c w = (false, c, w)
  record_next minute_of_hour (some count) c w =
      let op : Op W Bool =
        set_string (request_window_key minute_of_hour) (to_string_ℤ (count +ℤ pos 1)) always
          (some 60000) in
      let (r, c', w') = run c op "" w in (stored r.value, c', w')

  unfoldable pub record_request : SyncRedisClient → ℤ → W → Bool × SyncRedisClient × W
  unfolding requests_made record_next
  record_request c minute_of_hour w =
      let (current, c', w') = requests_made c minute_of_hour w in
      record_next minute_of_hour current c' w'

  unfoldable pub is_duplicate_deal :
      SyncRedisClient → String → W → Option Bool × SyncRedisClient × W
  unfolding deal_request_key present
  is_duplicate_deal c deal_id w =
      let op : Op W (Option String) = get_string (deal_request_key deal_id) in
      let (r, c', w') = run c op "" w in
      if str_eq deal_id "" then (some false, c, w) else (present r.value, c', w')

  -- `ttl` is in seconds.
  unfoldable pub record_deal_request : SyncRedisClient → String → ℕ → W → Bool × SyncRedisClient × W
  unfolding deal_request_key stored
  record_deal_request c deal_id ttl w =
      let op : Op W Bool = set_string (deal_request_key deal_id) "1" always (some (ttl * 1000)) in
      let (r, c', w') = run c op "" w in
      if str_eq deal_id "" then (true, c, w) else (stored r.value, c', w')
