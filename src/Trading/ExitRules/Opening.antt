-- ===== src/Trading/ExitRules/Opening.antt =====
-- A fresh trade against the tick that opened it, and the effect of the two exits on the books.
use backtesting_engine_cpp.Prelude.{
  ℕ, zero, suc, ◌≡◌, refl, inl, inr, Option, none, some, String, arith, Bool, true, false, ◌&&◌,
  Bool-cases,
}
use backtesting_engine_cpp.Prelude.{
  ℤ, pos, negsuc, ◌+ℤ◌, ◌-ℤ◌, ◌*ℤ◌, ◌≤ℤ◌, ◌<ℤ◌, leb_ℤ, eqb_ℤ, int_laws,
}
use backtesting_engine_cpp.SymbolScale
use backtesting_engine_cpp.SymbolScale.{get-Lookup}
use backtesting_engine_cpp.Trading.Models.{
  Direction, long, short, PriceData, Trade, by_side, minutes,
}
use backtesting_engine_cpp.Trading.TradeManager.{
  TradeManager, build_trade, close_trade, find_active_trade,
}
use backtesting_engine_cpp.Trading.ExitRules.{
  check_exit, exit_price, review_stop_and_limit, close_if_past_cap, armed,
}

get_nonneg : (s : String) → (n : ℕ) × (SymbolScale.get s ≡ pos n)
get_nonneg s = elim (get-Lookup s) [ inl r ↦ (r.0.scale, r.3) | inr r ↦ (0, r.1) ]

-- What a distance adds: nothing if it is 0, and points if it and the scale are positive.
offset_pos :
    (d : ℤ) (n : ℕ)
    → pos 0 ≤ℤ d
    → eqb_ℤ (pos n) (pos 0) ≡ false
    → armed d ≡ true
    → pos 0 <ℤ d *ℤ pos n
unfolding ◌*ℤ◌
offset_pos (pos zero) n h k a = ground arith
offset_pos (pos (suc d)) n h k a = grind arith
offset_pos (negsuc d) n h k a = ground arith

lt→leb_ℤ : (a b : ℤ) → b <ℤ a → leb_ℤ a b ≡ false
lt→leb_ℤ a b h = ground arith

module _ (r d : ℤ) (n : ℕ) (h : pos 0 ≤ℤ d) (known : eqb_ℤ (pos n) (pos 0) ≡ false)
    (a : armed d ≡ true) where
  not_below : leb_ℤ r (r -ℤ d *ℤ pos n) ≡ false
  not_below = lt→leb_ℤ r (r -ℤ d *ℤ pos n) (omega (int_laws, offset_pos d n h known a))

  not_above : leb_ℤ (r +ℤ d *ℤ pos n) r ≡ false
  not_above = lt→leb_ℤ (r +ℤ d *ℤ pos n) r (omega (int_laws, offset_pos d n h known a))

if_armed : (d : ℤ) (b : Bool) → (armed d ≡ true → b ≡ false) → (armed d && b) ≡ false
if_armed d b h = elim (Bool-cases (armed d)) [ inl on ↦ rw (on, h on) | inr off ↦ rw off ]

module _ (slippage : ℤ) (counter : ℕ) (tick : PriceData) (size stop limit : ℤ) (hs : pos 0 ≤ℤ stop)
    (hl : pos 0 ≤ℤ limit) where
  opening_exit :
      (d : Direction) (n : ℕ)
      → SymbolScale.get tick.symbol ≡ pos n
      → eqb_ℤ (pos n) (pos 0) ≡ false
      → exit_price (build_trade slippage counter tick size d stop limit) tick d ≡ none
  unfolding exit_price build_trade
  opening_exit long n g known = rw g (
      rw (
        if_armed stop _ (not_below tick.bid stop n hs known),
        if_armed limit _ (not_above tick.bid limit n hl known),
      ))
  opening_exit short n g known = rw g (
      rw (
        if_armed stop _ (not_above tick.ask stop n hs known),
        if_armed limit _ (not_below tick.ask limit n hl known),
      ))

  -- With distances that are not negative, a trade is never closed by the tick that opened it: the
  -- spread, the slippage and the direction do not matter.
  pub check_exit-build_trade :
      (d : Direction) → check_exit (build_trade slippage counter tick size d stop limit) tick ≡ none
  unfolding check_exit build_trade
  check_exit-build_trade d =
      let (n, g) = get_nonneg tick.symbol in
      elim (Bool-cases (eqb_ℤ (pos n) (pos 0))) [
        | inl unknown ↦ rw g (rw unknown)
        | inr known ↦ rw g (rw known (opening_exit d n g known))
      ]

-- Both exits go through `close_trade`, so what that keeps they keep.
pub review_keeps :
    (P : TradeManager → Type 0)
    → ((m : TradeManager) (s : String) (p : ℤ) (tick : PriceData) (l : Bool)
        → P m
        → P (close_trade m s p tick l).0)
    → (m : TradeManager) (tick : PriceData) → P m
    → P (review_stop_and_limit m tick)
unfolding review_stop_and_limit
review_keeps P keep m tick v = held (find_active_trade m tick.symbol) refl
  where
    fired :
        (t : Trade) (o : Option ℤ)
        → find_active_trade m tick.symbol ≡ some t
        → check_exit t tick ≡ o
        → P (review_stop_and_limit m tick)
    fired t none e f = rw (e, review_stop_and_limit) (rw f v)
    fired t (some p) e f = rw (e, review_stop_and_limit) (rw f (keep m tick.symbol p tick false v))

    held :
        (o : Option Trade) → find_active_trade m tick.symbol ≡ o → P (review_stop_and_limit m tick)
    held none e = rw (e, review_stop_and_limit) v
    held (some t) e = fired t (check_exit t tick) e refl

pub close_if_past_cap_keeps :
    (P : TradeManager → Type 0)
    → ((m : TradeManager) (s : String) (p : ℤ) (tick : PriceData) (l : Bool)
        → P m
        → P (close_trade m s p tick l).0)
    → (m : TradeManager) (tick : PriceData) (cap : ℤ) → P m
    → P (close_if_past_cap tick m cap).0
unfolding close_if_past_cap
close_if_past_cap_keeps P keep m tick cap v = capped (leb_ℤ cap (pos 0)) refl
  where
    aged :
        (t : Trade) (b : Bool)
        → find_active_trade m tick.symbol ≡ some t
        → leb_ℤ cap (pos 0) ≡ false
        → leb_ℤ (tick.timestamp -ℤ t.open_time) (minutes cap) ≡ b
        → P (close_if_past_cap tick m cap).0
    aged t true e c h = rw (c, close_if_past_cap) (rw e (rw h v))
    aged t false e c h =
        rw (c, close_if_past_cap)
          (rw e (rw h (keep m tick.symbol (by_side t.direction tick.bid tick.ask) tick false v)))

    held :
        (o : Option Trade)
        → find_active_trade m tick.symbol ≡ o
        → leb_ℤ cap (pos 0) ≡ false
        → P (close_if_past_cap tick m cap).0
    held none e c = rw (c, close_if_past_cap) (rw e v)
    held (some t) e c = aged t (leb_ℤ (tick.timestamp -ℤ t.open_time) (minutes cap)) e c refl

    capped : (b : Bool) → leb_ℤ cap (pos 0) ≡ b → P (close_if_past_cap tick m cap).0
    capped true c = rw (c, close_if_past_cap) v
    capped false c = held (find_active_trade m tick.symbol) refl c
