-- ===== src/Redis/ApiRequestGate/Counts.antt =====
-- Requests and deals that were recorded are counted and found again.
use backtesting_engine_cpp.Prelude.{
  ℕ, ◌+◌, ◌*◌, ◌<◌, ◌^◌, ◌≡◌, refl, Bool, true, false, String, Option, none, some, arith, inl, inr,
  ◌∙◌, sym, ap, ℤ, pos, negsuc, ◌+ℤ◌, ◌<ℤ◌, ◌-◌, parts, if◌then◌else◌, str_eq, Bool-cases,
}
use backtesting_engine_cpp.Redis.{Server}
use backtesting_engine_cpp.Redis.Client.{SyncRedisClient, run}
use backtesting_engine_cpp.Redis.KeyValues.{KeyValues, run-get_string, run-set_string}
use backtesting_engine_cpp.Redis.Decimal.{to_string_ℤ, from_chars_int}
use backtesting_engine_cpp.Redis.Decimal.RoundTrip.{from_chars_int-to_string}
use backtesting_engine_cpp.Redis.Operations.{get_string}
use backtesting_engine_cpp.Search.Texts.{codes}
use backtesting_engine_cpp.Redis.ApiRequestGate.{
  requests_made, record_request, is_duplicate_deal, record_deal_request, request_window_key,
  deal_request_key, window_count, stored, counted, record_next, parsed_count, present,
}

window_count-pos : (v : Option String) → (n : ℕ) × (window_count v ≡ pos n)
unfolding window_count
window_count-pos none = (0, refl)
window_count-pos (some text) = answer (from_chars_int (codes text))
  where
    answer : (z : Option ℤ) → (n : ℕ) × (parsed_count z ≡ pos n)
    answer none = (0, refl)
    answer (some (pos n)) = (n, ground arith)
    answer (some (negsuc n)) = (0, ground arith)

pos_succ : (n : ℕ) → pos n +ℤ pos 1 ≡ pos (n + 1)
unfolding ◌+ℤ◌
pos_succ n = ground arith

stored-true : (r : Option Bool) → stored r ≡ true → r ≡ some true
unfolding stored
stored-true none e = absurd (ground arith)
stored-true (some b) e = ap some e

window_count-to_string : (n : ℕ) → n < 2 ^ 31 → window_count (some (to_string_ℤ (pos n))) ≡ pos n
unfolding window_count to_string_ℤ
window_count-to_string n h = rw (from_chars_int-to_string n h) (ground arith)

module _ {W : Type 0} ⦃s : Server W⦄ (d : KeyValues s) where
  open d use {value_at}

  -- A count that is known is the count of the window's value, which reading it leaves.
  requests_made_lem :
      (c : SyncRedisClient) (minute : ℤ) (w : W) (n : ℤ)
      → (requests_made c minute w).0 ≡ some n
      → n ≡ window_count (value_at w (request_window_key minute))
  unfolding requests_made
  requests_made_lem c minute w n =
      answer (run c (get_string (request_window_key minute)) "" w).0.value refl
    where
      answer :
          (r : Option (Option String))
          → (run c (get_string (request_window_key minute)) "" w).0.value ≡ r
          → counted r ≡ some n
          → n ≡ window_count (value_at w (request_window_key minute))
      answer none e h = absurd (ground arith)
      answer (some v) e h =
          let q : v ≡ value_at w (request_window_key minute) =
            (run-get_string d c (request_window_key minute) w).0 v e in
          rw (← q) (let k : window_count v ≡ n = cc in sym k)

  requests_made_keeps :
      (c : SyncRedisClient) (minute : ℤ) (w : W)
      → value_at (requests_made c minute w).2 (request_window_key minute)
        ≡ value_at w (request_window_key minute)
  unfolding requests_made
  requests_made_keeps c minute w = (run-get_string d c (request_window_key minute) w).1

  record_next_lem :
      (minute : ℤ) (current : Option ℤ) (c : SyncRedisClient) (w : W)
      → (record_next minute current c w).0 ≡ true
      → (n : ℤ) × (current ≡ some n)
        × (value_at (record_next minute current c w).2 (request_window_key minute)
            ≡ some (to_string_ℤ (n +ℤ pos 1)))
  unfolding record_next
  record_next_lem minute none c w h = absurd (ground arith)
  record_next_lem minute (some n) c w h = (
    n,
    refl,
    run-set_string d c (request_window_key minute) (to_string_ℤ (n +ℤ pos 1)) 60000 w
        (stored-true _ h),
  )

  -- A request that was recorded is counted: when `record_request` reports success, the window had
  -- a count n, and at every later world where the window's key has the value it had when the call
  -- returned, a count that `requests_made` knows for the same minute is n + 1, where that fits an
  -- `int`; before, it was n.
  pub record_request-requests_made :
      (c c' : SyncRedisClient) (minute n : ℤ) (w w' : W)
      → (record_request c minute w).0 ≡ true
      → value_at w' (request_window_key minute)
        ≡ value_at (record_request c minute w).2 (request_window_key minute)
      → window_count (value_at w (request_window_key minute)) <ℤ pos (2 ^ 31 - 1)
      → (requests_made c' minute w').0 ≡ some n
      → ((requests_made c minute w).0
          ≡ some (window_count (value_at w (request_window_key minute))))
        × (n ≡ window_count (value_at w (request_window_key minute)) +ℤ pos 1)
  unfolding record_request
  record_request-requests_made c c' minute n w w' recorded same room known =
      let r = requests_made c minute w in
      let (before, e, written) = record_next_lem minute r.0 r.1 r.2 recorded in
      let b : before ≡ window_count (value_at w (request_window_key minute)) =
        requests_made_lem c minute w before e in
      let after : n ≡ window_count (some (to_string_ℤ (before +ℤ pos 1))) =
        rw (same ∙ written) at (requests_made_lem c' minute w' n known) in
      let (k, p) = window_count-pos (value_at w (request_window_key minute)) in
      let count : before ≡ pos k = b ∙ p in
      let next : before +ℤ pos 1 ≡ pos (k + 1) = rw count (pos_succ k) in
      (
        rw (← b) e,
        rw (← b) (after ∙ rw next (window_count-to_string (k + 1) (omega (arith, parts p)))),
      )

  -- A deal whose request was recorded is a duplicate: at every later world where its key has the
  -- value it had when the call returned, `is_duplicate_deal` answers that it is one, unless it
  -- cannot tell. An empty deal id is no duplicate, and recording it reports success and changes
  -- nothing.
  pub record_deal_request-is_duplicate_deal :
      (c c' : SyncRedisClient) (deal_id : String) (ttl : ℕ) (b : Bool) (w w' : W)
      → (record_deal_request c deal_id ttl w).0 ≡ true
      → value_at w' (deal_request_key deal_id)
        ≡ value_at (record_deal_request c deal_id ttl w).2 (deal_request_key deal_id)
      → (is_duplicate_deal c' deal_id w').0 ≡ some b
      → (b ≡ (if str_eq deal_id "" then false else true))
        × (record_deal_request c "" ttl w ≡ (true, c, w))
  unfolding record_deal_request is_duplicate_deal
  record_deal_request-is_duplicate_deal c c' deal_id ttl b w w' =
      elim (Bool-cases (str_eq deal_id "")) [
        | inl empty ↦ rw empty (λ recorded same known. (sym (let q : false ≡ b = cc in q), refl))
        | inr id ↦ rw id (λ recorded same known. (
          found (run c' (get_string (deal_request_key deal_id)) "" w').0.value refl
              (run-set_string d c (deal_request_key deal_id) "1" (ttl * 1000) w
                (stored-true _ recorded))
              same known,
          refl,
        ))
      ]
    where
      found :
          (r : Option (Option String))
          → (run c' (get_string (deal_request_key deal_id)) "" w').0.value ≡ r
          → {u : W} → value_at u (deal_request_key deal_id) ≡ some "1"
          → value_at w' (deal_request_key deal_id) ≡ value_at u (deal_request_key deal_id)
          → present r ≡ some b
          → b ≡ true
      found none e h same known = absurd (ground arith)
      found (some none) e h same known =
          let q : none ≡ value_at w' (deal_request_key deal_id) =
            (run-get_string d c' (deal_request_key deal_id) w').0 none e in
          absurd (let p : none ≡ some "1" = q ∙ (same ∙ h) in cc)
      found (some (some v)) e h same known = ground arith
