-- ===== src/Bars/RangeBar/Measure.antt =====
-- The measure of a range series (source/shared/utilities/rangeBarBuilder.cppm) against its ticks.
use mathlib.Core.List.{append_assoc, append-nil}
use backtesting_engine_cpp.Prelude.{
  ℕ, ◌+◌, ◌-◌, ◌^◌, ◌<◌, ◌≡◌, refl, subst, inl, inr, List, [], ◌∷◌, ◌++◌, ltb, ok, arith, length,
  length-append, length-drop, map, All, Bool-cases,
}
use backtesting_engine_cpp.Prelude.{ℤ, pos_part, ◌-ℤ◌, ◌≤ℤ◌, wrap64}
use backtesting_engine_cpp.Trading.Models.{PriceData}
use backtesting_engine_cpp.Bars.Ohlc.{OhlcObject}
use backtesting_engine_cpp.Bars.Window.{Entry}
use backtesting_engine_cpp.Bars.Window.Extreme.{Passes, unpassed, unpassed-Front, Front, IsExtreme}
use backtesting_engine_cpp.Bars.RangeBar.{
  RangeSeries, RangeBarSpec, window, window_range, deque_range, advance_window, advance_bars,
  trim_bars, apply_tick, apply_ticks, warm, new_series, initial_series, needs_bar,
}
use backtesting_engine_cpp.Bars.RangeBar.Slide.{
  highest_first, lowest_first, numbered, last_of, Holds, feed_deque-Holds, Holds-nil, numbered-Has,
  numbered-above, numbered-below, Occurs,
}

-- The measure of the series `r`, with a window of `w` ticks, of which it has seen those at the
-- prices `xs`.
pub record HasSeen (w : ℕ) (xs : List ℤ) (r : RangeSeries) : Type 0 where
  sized : window r ≡ w
  counts : r.tick_index ≡ length xs
  highs : Holds highest_first w xs r.max_deque
  lows : Holds lowest_first w xs r.min_deque

initial_series-HasSeen :
    (spec : RangeBarSpec) (w : ℕ)
    → pos_part spec.atr_tick_window ≡ w
    → HasSeen w [] (initial_series spec)
unfolding initial_series
initial_series-HasSeen spec w e = record {
  sized = e;
  counts = refl;
  highs = Holds-nil highest_first w;
  lows = Holds-nil lowest_first w;
}

-- A constructed series has a positive window, and starts from the member initializers.
pub new_series-ok :
    (spec : RangeBarSpec) (r : RangeSeries)
    → new_series spec ≡ ok r
    → (0 < pos_part spec.atr_tick_window) × (initial_series spec ≡ r)
unfolding new_series
new_series-ok spec r e = (ground arith, ground arith)

abbrev pub asks : List PriceData → List ℤ
asks = map (λ (t : PriceData). t.ask)

module _ (w : ℕ) (hw : 0 < w) where
  advance_window-HasSeen :
      (xs : List ℤ) (r : RangeSeries) (tick : PriceData)
      → length xs + w + 3 < 2 ^ 64
      → HasSeen w xs r
      → HasSeen w (xs ++ tick.ask ∷ []) (advance_window r tick)
  unfolding advance_window
  advance_window-HasSeen xs r tick bound h =
      rw (index_is, h.sized)
        (record {
          sized = h.sized;
          counts = omega (arith, length-append xs (tick.ask ∷ []));
          highs = feed_deque-Holds highest_first w xs tick.ask r.max_deque hw bound h.highs;
          lows = feed_deque-Holds lowest_first w xs tick.ask r.min_deque hw bound h.lows;
        })
    where
      index_is : wrap64 (r.tick_index + 1) ≡ length xs + 1
      index_is = omega (arith, h.counts)

  -- The bars do not touch the measure.
  with_bars :
      (xs : List ℤ) (r : RangeSeries) (bs : List OhlcObject) (locked : ℤ)
      → HasSeen w xs r
      → HasSeen w xs (record r { bars = bs; locked_threshold = locked })
  with_bars xs r bs locked h = record {
    sized = h.sized;
    counts = h.counts;
    highs = h.highs;
    lows = h.lows;
  }

  advance_bars-HasSeen :
      (xs : List ℤ) (r : RangeSeries) (tick : PriceData)
      → HasSeen w xs r
      → HasSeen w xs (advance_bars r tick)
  unfolding advance_bars
  advance_bars-HasSeen xs r tick h = elim (Bool-cases (needs_bar r.bars)) [
    | inl e ↦ rw e (with_bars xs r _ _ h)
    | inr e ↦ rw e (with_bars xs r _ _ h)
  ]

  trim_bars-HasSeen : (xs : List ℤ) (r : RangeSeries) → HasSeen w xs r → HasSeen w xs (trim_bars r)
  unfolding trim_bars
  trim_bars-HasSeen xs r h = elim (Bool-cases (ltb (pos_part r.spec.count) (length r.bars))) [
    | inl e ↦ rw e (with_bars xs r _ _ h)
    | inr e ↦ rw e h
  ]

  apply_tick-HasSeen :
      (xs : List ℤ) (r : RangeSeries) (tick : PriceData)
      → length xs + w + 3 < 2 ^ 64
      → HasSeen w xs r
      → HasSeen w (xs ++ tick.ask ∷ []) (apply_tick r tick)
  unfolding apply_tick
  apply_tick-HasSeen xs r tick bound h =
      let advanced = advance_window-HasSeen xs r tick bound h in
      let ys = xs ++ tick.ask ∷ [] in
      elim (Bool-cases (warm (advance_window r tick))) [
        | inl e ↦ rw e (trim_bars-HasSeen ys _ (advance_bars-HasSeen ys _ tick advanced))
        | inr e ↦ rw e advanced
      ]

  apply_ticks-HasSeen :
      (ts : List PriceData) (xs : List ℤ) (r : RangeSeries)
      → length xs + length ts + w + 3 < 2 ^ 64
      → HasSeen w xs r
      → HasSeen w (xs ++ asks ts) (apply_ticks r ts)
  unfolding apply_ticks
  apply_ticks-HasSeen [] xs r bound h = rw append-nil h
  apply_ticks-HasSeen (t ∷ ts) xs r bound h = rw (← append_assoc xs (t.ask ∷ []) (asks ts)) (
      apply_ticks-HasSeen ts (xs ++ t.ask ∷ []) (apply_tick r t)
        (omega (arith, length-append xs (t.ask ∷ []))) (apply_tick-HasSeen xs r t (omega arith) h))

-- The range of a list of prices: two of them, all others between, and the difference.
pub record IsRange (ps : List ℤ) (z : ℤ) : Type 0 where
  pub high : ℤ
  pub low : ℤ
  pub high_in : Occurs high ps
  pub low_in : Occurs low ps
  pub highest : All (λ x. x ≤ℤ high) ps
  pub lowest : All (λ x. low ≤ℤ x) ps
  pub apart : z ≡ high -ℤ low

Front-IsRange :
    (k : ℕ) (ps : List ℤ) (his los : List (Entry ℕ))
    → Front (IsExtreme highest_first (numbered k ps)) his
    → Front (IsExtreme lowest_first (numbered k ps)) los
    → IsRange ps (deque_range his los)
unfolding deque_range
Front-IsRange k ps [] los h l = absurd h
Front-IsRange k ps (hi ∷ his) [] h l = absurd l
Front-IsRange k ps (hi ∷ his) (lo ∷ los) h l = record {
  high = hi.price;
  low = lo.price;
  high_in = numbered-Has k ps hi.price h.1;
  low_in = numbered-Has k ps lo.price l.1;
  highest = numbered-above k ps hi.price h.0;
  lowest = numbered-below k ps lo.price l.0;
  apart = refl;
}

Holds-IsRange :
    (w : ℕ) (xs : List ℤ) (his los : List (Entry ℕ))
    → 0 < w
    → 0 < length xs
    → Holds highest_first w xs his
    → Holds lowest_first w xs los
    → IsRange (last_of w xs) (deque_range his los)
Holds-IsRange w xs his los hw hx h l =
    rw (h.held, l.held)
      (Front-IsRange h.from (last_of w xs) _ _
        (nonempty highest_first h.from (last_of w xs) some_left)
        (rw same_from (nonempty lowest_first h.from (last_of w xs) some_left)))
  where
    some_left : 0 < length (last_of w xs)
    some_left = omega (arith, length-drop (length xs - w) xs)

    same_from : l.from ≡ h.from
    same_from = omega (arith, h.ends, l.ends)

    nonempty :
        (o : Passes) (k : ℕ) (ps : List ℤ)
        → 0 < length ps
        → Front (IsExtreme o (numbered k ps)) (unpassed o (numbered k ps))
    nonempty o k [] pos_length = absurd (omega arith)
    nonempty o k (p ∷ ps) pos_length = unfold numbered in unpassed-Front o _ _

-- After any ticks that the index can count, the measure of a constructed series is the highest
-- less the lowest ask of the last window of them.
pub window_range-IsRange :
    (spec : RangeBarSpec) (r : RangeSeries) (t : PriceData) (ts : List PriceData)
    → new_series spec ≡ ok r
    → length ts + pos_part spec.atr_tick_window + 4 < 2 ^ 64
    → IsRange
        (last_of (pos_part spec.atr_tick_window) (asks (t ∷ ts)))
        (window_range (apply_ticks r (t ∷ ts)))
unfolding window_range
window_range-IsRange spec r t ts made bound =
    let (hw, start) = new_series-ok spec r made in
    let w = pos_part spec.atr_tick_window in
    let seen =
      apply_ticks-HasSeen w hw (t ∷ ts) [] r (omega arith)
        (subst (HasSeen w []) start (initial_series-HasSeen spec w refl)) in
    Holds-IsRange w (asks (t ∷ ts)) _ _ hw (omega arith) seen.highs seen.lows
