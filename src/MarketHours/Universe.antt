-- ===== src/MarketHours/Universe.antt =====
-- The symbols of the session table and of the scale table (source/shared/utilities/marketHours.cppm
-- and symbolScale.cppm), against each other and in the entry filter.
use backtesting_engine_cpp.Prelude.{
  ℕ, ◌≡◌, refl, sym, ap, ◌∙◌, Bool, true, false, not, ◌&&◌, String, inl, inr, map, All,
  All-get_elem?, same_keys-get_elem?, if◌then◌else◌, arith, leb, ltb, ◌==◌, ◌<◌,
}
use backtesting_engine_cpp.Prelude.{pos, eqb_ℤ}
use backtesting_engine_cpp.Search.{Outcome, found, absent, stuck, search, Answers, search-Answers}
use backtesting_engine_cpp.SymbolScale.{Entry, text_order, get, k_unknown, get-Lookup}
use backtesting_engine_cpp.SymbolScale
use backtesting_engine_cpp.Trading.Models.{TimePoint}
use backtesting_engine_cpp.MarketHours.Calendar.{floor_div, floor_mod, weekday}
use backtesting_engine_cpp.MarketHours.{
  hours, Session, asia, europe, new_york, unknown, k_table, k_table_sorted, session_for,
  session_permits, trade_permitted,
}

abbrev pub is_known : Session → Bool
is_known asia = true
is_known europe = true
is_known new_york = true
is_known unknown = false

same_keys :
    map (λ (r : String × Session). r.0) k_table
    ≡ map (λ (r : String × Entry). r.0) SymbolScale.k_table
same_keys = refl

all_known : All (λ (r : String × Session). is_known r.1 ≡ true) k_table
all_known = ground arith

positive_known : (n : ℕ) → 0 < n → true ≡ not (eqb_ℤ (pos n) k_unknown)
positive_known n h = ground arith

-- A symbol has a session exactly if it has a scale.
pub session_for-get :
    (symbol : String) → is_known (session_for symbol) ≡ not (eqb_ℤ (get symbol) k_unknown)
unfolding session_for
session_for-get symbol =
    answer (search text_order k_table symbol) refl
      (search-Answers text_order k_table symbol k_table_sorted)
  where
    answer :
        (r : Outcome Session)
        → search text_order k_table symbol ≡ r
        → Answers text_order k_table symbol r
        → is_known (session_for symbol) ≡ not (eqb_ℤ (get symbol) k_unknown)
    answer (found s) q (i, at) =
        let (e, there) = same_keys-get_elem? k_table SymbolScale.k_table i symbol s same_keys at in
        let known =
          All-get_elem? (λ (r : String × Session). is_known r.1 ≡ true) k_table i (symbol, s)
            all_known at in
        elim (get-Lookup symbol) [
          | inl l ↦ rw (session_for, q) (rw (known, l.3) (positive_known l.0.scale l.5))
          | inr l ↦ absurd (l.0 i e there)
        ]
    answer absent q none_there = elim (get-Lookup symbol) [
      | inl l ↦
          let (s, there) =
            same_keys-get_elem? SymbolScale.k_table k_table l.1 symbol l.0 (sym same_keys) l.2 in
          absurd (none_there l.1 s there)
      | inr l ↦ rw (session_for, q) (rw l.1 refl)
    ]
    answer stuck q h = elim h [ ]

not_known : (s : Session) → is_known s ≡ false → s ≡ unknown
not_known unknown h = refl
not_known asia h = absurd (ground arith)
not_known europe h = absurd (ground arith)
not_known new_york h = absurd (ground arith)

all_shut :
    (a b c : Bool) → (if a then false else if b then false else if c then false else false) ≡ false
all_shut a b c = ground arith

-- Whatever the time, the filter lets no entry through for a symbol without a scale.
pub trade_permitted-get :
    (symbol : String) (time : TimePoint)
    → eqb_ℤ (get symbol) k_unknown ≡ true
    → trade_permitted symbol time ≡ false
unfolding trade_permitted session_permits
trade_permitted-get symbol time h =
    let no_session = not_known (session_for symbol) (session_for-get symbol ∙ ap not h) in
    let day = floor_div time 86400000000 in
    let since = floor_mod time 86400000000 in
    rw no_session (
      all_shut (weekday day == 0) (weekday day == 5 && leb (hours 16) since)
        (weekday day == 1 && ltb since (hours 2)))
