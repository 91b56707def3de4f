-- ===== src/Bars/Conditions/Admission.antt =====
-- What the ATR gate lets through, and with which distances.
use backtesting_engine_cpp.Prelude.{
  ℕ, ◌+◌, String, ◌*◌, ◌/◌, ◌^◌, ◌≤◌, ◌<◌, ◌≡◌, refl, ◌⊎◌, inl, inr, ◌↔◌, sym, ◌∙◌, List,
  Bool-cases, true, false, Option, none, some, Result, ok, invalid_argument, arith,
}
use backtesting_engine_cpp.Prelude.{
  ℤ, pos, negsuc, pos_part, ◌-ℤ◌, ◌*ℤ◌, ◌/ℤ◌, ◌≤ℤ◌, ◌<ℤ◌, ltb_ℤ, eqb_ℤ, clamp_ℤ, to_int32,
}
use native.Mathlib.Nat.{le-div_iff_mul-le, div-lt_iff_lt-mul, div-le_self}
use backtesting_engine_cpp.Prelude.Int.{to_int32-fits}
use backtesting_engine_cpp.SymbolScale
use backtesting_engine_cpp.Trading.Models.{PriceData}
use backtesting_engine_cpp.Bars.Store.{BarStore, SeriesSpec}
use backtesting_engine_cpp.Bars.Store
use backtesting_engine_cpp.Bars.Ohlc.{OhlcObject}
use backtesting_engine_cpp.Bars.Atr
use backtesting_engine_cpp.Bars.Conditions.{Distances, k_atr_period, distances_for, check}

-- `raw` points, at `n` points to the pip, are at least `low` pips, and `pips` is the greatest whole
-- number of pips in them, or `high` where there are more.
abbrev pub IsDistance : ℕ → ℤ → ℕ → ℕ → ℤ → Type 0
IsDistance n raw low high pips =
    (k : ℕ) × (pips ≡ pos k)
    × (pos (low * n) ≤ℤ raw)
    × (k ≤ high)
    × (pos (k * n) ≤ℤ raw)
    × ((k ≡ high) ⊎ (raw <ℤ pos ((k + 1) * n)))

-- A positive ATR, a spread of at most 3/10 of it, and for the distances the ATR times the multipliers,
-- within 10 and 80 pips for the stop, 3 and 300 for the limit.
abbrev pub IsAdmitted : ℕ → ℤ → PriceData → ℤ → ℤ → Distances → Type 0
IsAdmitted n atr_points tick stop_multiplier limit_multiplier d =
    (pos 0 <ℤ atr_points)
    × ((tick.ask -ℤ tick.bid) *ℤ pos 10 ≤ℤ atr_points *ℤ pos 3)
    × IsDistance n (atr_points *ℤ stop_multiplier) 10 80 d.stop_pips
    × IsDistance n (atr_points *ℤ limit_multiplier) 3 300 d.limit_pips

pos-*ℤ-pos : (a b : ℕ) → pos a *ℤ pos b ≡ pos (a * b)
unfolding ◌*ℤ◌
pos-*ℤ-pos a b = ground arith

abbrev in_pips : ℕ → ℤ → ℕ → ℕ → ℤ
in_pips n raw low high = clamp_ℤ (to_int32 (raw /ℤ n)) (pos low) (pos high)

clamped :
    (n r low high k : ℕ)
    → 0 < n
    → low ≤ high
    → r < 2 ^ 31
    → low * n ≤ r
    → (in_pips n (pos r) low high ≡ pos k)
      ↔ ((k ≤ high) × (k * n ≤ r) × ((k ≡ high) ⊎ (r < (k + 1) * n)))
unfolding clamp_ℤ ◌/ℤ◌
clamped n r low high k positive order small floor =
    let q = r / n in
    let fits : q < 2 ^ 31 = omega (arith, div-le_self r n) in
    let below : (k ≤ q) ↔ (k * n ≤ r) = le-div_iff_mul-le positive in
    let floored : (low ≤ q) ↔ (low * n ≤ r) = le-div_iff_mul-le positive in
    let above : (q < k + 1) ↔ (r < (k + 1) * n) = div-lt_iff_lt-mul positive in
    rw (to_int32-fits q fits) (ground (arith, below, floored, above))

in_pips-pos :
    (n r low high : ℕ) → 0 < n → r < 2 ^ 31 → (k : ℕ) × (in_pips n (pos r) low high ≡ pos k)
unfolding clamp_ℤ ◌/ℤ◌
in_pips-pos n r low high positive small =
    let q = r / n in
    let fits : q < 2 ^ 31 = omega (arith, div-le_self r n) in
    rw (to_int32-fits q fits) (elim (Bool-cases (ltb_ℤ (pos q) (pos low))) [
      | inl under ↦ (low, rw under)
      | inr over ↦ rw over (elim (Bool-cases (ltb_ℤ (pos high) (pos q))) [
        | inl more ↦ (high, rw more)
        | inr less ↦ (q, rw less)
      ])
    ])

distance_lem :
    (n : ℕ) (raw : ℤ) (low high : ℕ) (pips : ℤ)
    → 0 < n
    → low ≤ high
    → raw <ℤ pos (2 ^ 31)
    → ltb_ℤ raw (pos low *ℤ pos n) ≡ false
    → (in_pips n raw low high ≡ pips) ↔ IsDistance n raw low high pips
distance_lem n (negsuc m) low high pips positive order small floor =
    absurd (let q = rw (pos-*ℤ-pos low n) at floor in ground arith)
distance_lem n (pos r) low high pips positive order small floor =
    let least : low * n ≤ r = let q = rw (pos-*ℤ-pos low n) at floor in ground arith in
    let is = λ (k : ℕ). clamped n r low high k positive order (omega arith) least in
    (
      λ e.
          let (k, f) = in_pips-pos n r low high positive (omega arith) in
          let (bound, under, reach) = (is k).0 f in
          (k, sym e ∙ f, omega arith, bound, omega arith, ground arith),
      λ (k, e, l, bound, under, reach). (is k).1 (bound, omega arith, ground arith) ∙ sym e,
    )

too_little :
    (n : ℕ) (raw : ℤ) (low high : ℕ) (pips : ℤ)
    → ltb_ℤ raw (pos low *ℤ pos n) ≡ true
    → ¬ IsDistance n raw low high pips
too_little n raw low high pips short (k, e, least, bound, under, reach) =
    let q = rw (pos-*ℤ-pos low n) at short in ground arith

-- A pair of distances is given by its two fields.
given :
    (stop limit : ℤ) (d : Distances)
    → (◌≡◌ {A = Option Distances} (some (record { stop_pips = stop; limit_pips = limit })) (some d))
      ↔ ((stop ≡ d.stop_pips) × (limit ≡ d.limit_pips))
given stop limit d = (
  λ e. (
    let h : stop ≡ d.stop_pips = ground arith in h,
    let h : limit ≡ d.limit_pips = ground arith in h,
  ),
  λ (e, f). ground arith,
)

nothing : (d : Distances) → ¬ (none ≡ some d)
nothing d e = cc

distances_for-IsAdmitted :
    (n : ℕ) (atr_points : ℤ) (tick : PriceData) (sm lm : ℤ) (d : Distances)
    → 0 < n
    → atr_points *ℤ sm <ℤ pos (2 ^ 31)
    → atr_points *ℤ lm <ℤ pos (2 ^ 31)
    → (distances_for n atr_points tick sm lm ≡ some d) ↔ IsAdmitted n atr_points tick sm lm d
unfolding distances_for
distances_for-IsAdmitted n atr_points tick sm lm d positive small small' =
    let stop = ltb_ℤ (atr_points *ℤ sm) (pos 10 *ℤ pos n) in
    let limit = ltb_ℤ (atr_points *ℤ lm) (pos 3 *ℤ pos n) in
    elim (Bool-cases stop) [
      | inl t ↦
          rw t (ground (arith, nothing d, too_little n (atr_points *ℤ sm) 10 80 d.stop_pips t))
      | inr f ↦ rw f (elim (Bool-cases limit) [
        | inl t ↦
            rw t (ground (arith, nothing d, too_little n (atr_points *ℤ lm) 3 300 d.limit_pips t))
        | inr g ↦ rw g (
            ground (
              arith,
              nothing d,
              given (in_pips n (atr_points *ℤ sm) 10 80) (in_pips n (atr_points *ℤ lm) 3 300) d,
              distance_lem n (atr_points *ℤ sm) 10 80 d.stop_pips positive (omega arith) small f,
              distance_lem n (atr_points *ℤ lm) 3 300 d.limit_pips positive (omega arith) small' g,
            ))
      ])
    ]

-- What the gate reads lets an entry through with these distances: the symbol has a scale, the store
-- has the history of the gate's timeframe, and the history's ATR admits.
abbrev pub Admits : BarStore → SeriesSpec → PriceData → ℤ → ℤ → Distances → Type 0
Admits store gate tick sm lm d =
    (n : ℕ) × (candles : List OhlcObject) × (atr_points : ℤ) × (SymbolScale.get tick.symbol ≡ pos n)
    × (0 < n)
    × (Store.find store tick.symbol gate.minutes_per_bar ≡ some candles)
    × (Atr.calculate candles k_atr_period ≡ ok atr_points)
    × IsAdmitted n atr_points tick sm lm d

scaled :
    (symbol : String)
    → eqb_ℤ (SymbolScale.get symbol) SymbolScale.k_unknown ≡ false
    → (n : ℕ) × (SymbolScale.get symbol ≡ pos n) × (0 < n)
scaled symbol known = elim (SymbolScale.get-Lookup symbol) [
  | inl (e, i, at, scale, price, positive, tens, more) ↦ (e.scale, scale, positive)
  | inr (absent, e, f) ↦ absurd (let q = rw e at known in ground arith)
]

module _ (store : BarStore) (gate : SeriesSpec) (tick : PriceData) (sm lm : ℤ) (d : Distances) where
  abbrev IsSmall : Type 0
  IsSmall =
      (candles : List OhlcObject) (atr_points : ℤ)
      → Store.find store tick.symbol gate.minutes_per_bar ≡ some candles
      → Atr.calculate candles k_atr_period ≡ ok atr_points
      → (atr_points *ℤ sm <ℤ pos (2 ^ 31)) × (atr_points *ℤ lm <ℤ pos (2 ^ 31))

  let_in : IsSmall → check store gate tick sm lm ≡ some d → Admits store gate tick sm lm d
  unfolding check
  let_in small e = elim (Bool-cases (eqb_ℤ (SymbolScale.get tick.symbol) SymbolScale.k_unknown)) [
    | inl unknown ↦ absurd (let q = rw unknown at e in cc)
    | inr known ↦
        searched known (Store.find store tick.symbol gate.minutes_per_bar) refl
          (let q = rw known at e in q)
  ]
    where
      measured :
          eqb_ℤ (SymbolScale.get tick.symbol) SymbolScale.k_unknown ≡ false
          → (candles : List OhlcObject) (r : Result ℤ)
          → Store.find store tick.symbol gate.minutes_per_bar ≡ some candles
          → Atr.calculate candles k_atr_period ≡ r
          → (elim r as (λ x. Option Distances) [
            | invalid_argument ↦ none
            | ok atr_points ↦
                distances_for (pos_part (SymbolScale.get tick.symbol)) atr_points tick sm lm
          ])
            ≡ some d
          → Admits store gate tick sm lm d
      measured known candles invalid_argument f g e = absurd (nothing d e)
      measured known candles (ok a) f g e =
          let (n, scale, positive) = scaled tick.symbol known in
          let (s, l) = small candles a f g in
          (
            n,
            candles,
            a,
            scale,
            positive,
            f,
            g,
            (distances_for-IsAdmitted n a tick sm lm d positive s l).0 (let q = rw scale at e in q),
          )

      searched :
          eqb_ℤ (SymbolScale.get tick.symbol) SymbolScale.k_unknown ≡ false
          → (o : Option (List OhlcObject)) → Store.find store tick.symbol gate.minutes_per_bar ≡ o
          → (elim o as (λ x. Option Distances) [
            | none ↦ none
            | some candles ↦ elim (Atr.calculate candles k_atr_period) [
              | invalid_argument ↦ none
              | ok atr_points ↦
                  distances_for (pos_part (SymbolScale.get tick.symbol)) atr_points tick sm lm
            ]
          ])
            ≡ some d
          → Admits store gate tick sm lm d
      searched known none f e = absurd (nothing d e)
      searched known (some candles) f e =
          measured known candles (Atr.calculate candles k_atr_period) f refl e

  admitted : IsSmall → Admits store gate tick sm lm d → check store gate tick sm lm ≡ some d
  unfolding check
  admitted small (n, candles, a, scale, positive, f, g, admits) =
      let (s, l) = small candles a f g in
      let known : eqb_ℤ (SymbolScale.get tick.symbol) SymbolScale.k_unknown ≡ false =
        rw scale (ground arith) in
      let fits : distances_for (pos_part (SymbolScale.get tick.symbol)) a tick sm lm ≡ some d =
        rw scale ((distances_for-IsAdmitted n a tick sm lm d positive s l).1 admits) in
      rw (known, f, g) fits

  -- The gate lets an entry through with some distances exactly if the symbol has a scale, the store
  -- has the history of the gate's timeframe, its ATR is positive and the spread at most 3/10 of it,
  -- and each distance is the ATR times its multiplier in whole pips, which is at least 10 pips for the
  -- stop, 3 for the limit, and is cut off at 80 and 300. The ATR times each multiplier is taken to be
  -- below 2^31 points.
  pub check-Admits :
      ((candles : List OhlcObject) (atr_points : ℤ)
        → Store.find store tick.symbol gate.minutes_per_bar ≡ some candles
        → Atr.calculate candles k_atr_period ≡ ok atr_points
        → (atr_points *ℤ sm <ℤ pos (2 ^ 31)) × (atr_points *ℤ lm <ℤ pos (2 ^ 31)))
      → (check store gate tick sm lm ≡ some d) ↔ Admits store gate tick sm lm d
  check-Admits small = (let_in small, admitted small)
