-- ===== src/Bars/Ohlc/Groups.antt =====
-- The bars of source/shared/utilities/ohlcBuilder.cppm against the groups of ticks that they stand
-- for.
use mathlib.Core.List.{append_assoc}
use backtesting_engine_cpp.Prelude.{
  ◌≡◌, refl, sym, ap, ◌∙◌, Bool, true, false, List, [], ◌∷◌, ◌++◌, if◌then◌else◌, Result, ok, ◌>>=◌,
  arith, Bool-cases, inl, inr,
}
use backtesting_engine_cpp.Prelude.{ℤ, pos, ◌-ℤ◌, ◌<ℤ◌, ltb_ℤ, leb_ℤ, min_ℤ, max_ℤ, int_laws}
use backtesting_engine_cpp.Trading.Models.{PriceData}
use backtesting_engine_cpp.Bars.Ohlc.{
  OhlcObject, Database, calculate_ohlc, fresh_bar, absorb, roll, over_last, seed_bars,
}

-- A group of ticks: the first, and those after it. `split` starts a new group at the first tick
-- that lies further than the duration behind the first of the current group.
pub record Group : Type 0 where
  pub first : PriceData
  pub later : List PriceData

split : ℤ → PriceData → List PriceData → List PriceData → List Group
split duration t taken [] = record { first = t; later = taken } ∷ []
split duration t taken (u ∷ us) =
    if ltb_ℤ duration (u.timestamp -ℤ t.timestamp)
    then record { first = t; later = taken } ∷ split duration u [] us
    else split duration t (taken ++ u ∷ []) us

pub groups : ℤ → List PriceData → List Group
groups duration [] = []
groups duration (t ∷ ts) = split duration t [] ts

-- The asks of a group, and their greatest, least and last.
pub top : ℤ → List PriceData → ℤ
top x [] = x
top x (u ∷ us) = top (max_ℤ x u.ask) us

pub bottom : ℤ → List PriceData → ℤ
bottom x [] = x
bottom x (u ∷ us) = bottom (min_ℤ x u.ask) us

pub last_ask : ℤ → List PriceData → ℤ
last_ask x [] = x
last_ask x (u ∷ us) = last_ask u.ask us

pub summary : Bool → Group → OhlcObject
summary complete g = record {
  date = g.first.timestamp;
  open_price = g.first.ask;
  close = last_ask g.first.ask g.later;
  high = top g.first.ask g.later;
  low = bottom g.first.ask g.later;
  complete = complete;
}

-- All groups but the last are complete bars.
pub summaries : List Group → List OhlcObject
summaries [] = []
summaries (g ∷ []) = summary false g ∷ []
summaries (g ∷ h ∷ gs) = summary true g ∷ summaries (h ∷ gs)

-- The stream of one symbol through the builder, fed with the ask and no warm-up.
pub build : Database → ℤ → List OhlcObject → List PriceData → Result (List OhlcObject)
build db duration bars [] = ok bars
build db duration bars (t ∷ ts) =
    calculate_ohlc db t t.ask duration bars (pos 0) >>= λ next. build db duration next ts

top-snoc :
    (x : ℤ) (us : List PriceData) (u : PriceData) → top x (us ++ u ∷ []) ≡ max_ℤ (top x us) u.ask
unfolding top
top-snoc x [] u = refl
top-snoc x (v ∷ us) u = top-snoc (max_ℤ x v.ask) us u

bottom-snoc :
    (x : ℤ) (us : List PriceData) (u : PriceData)
    → bottom x (us ++ u ∷ []) ≡ min_ℤ (bottom x us) u.ask
unfolding bottom
bottom-snoc x [] u = refl
bottom-snoc x (v ∷ us) u = bottom-snoc (min_ℤ x v.ask) us u

last_ask-snoc : (x : ℤ) (us : List PriceData) (u : PriceData) → last_ask x (us ++ u ∷ []) ≡ u.ask
unfolding last_ask
last_ask-snoc x [] u = refl
last_ask-snoc x (v ∷ us) u = last_ask-snoc v.ask us u

abbrev group : PriceData → List PriceData → Group
group t us = record { first = t; later = us }

absorb-summary :
    (t : PriceData) (us : List PriceData) (u : PriceData)
    → absorb u.ask (summary false (group t us)) ≡ summary false (group t (us ++ u ∷ []))
unfolding absorb summary
absorb-summary t us u =
    rw (top-snoc t.ask us u, bottom-snoc t.ask us u, last_ask-snoc t.ask us u)
      (unfold max_ℤ min_ℤ in refl)

irrefl : (x : ℤ) → ltb_ℤ x x ≡ false
irrefl x = ground arith

absorb-fresh_bar : (u : PriceData) → absorb u.ask (fresh_bar u u.ask) ≡ summary false (group u [])
unfolding absorb fresh_bar summary top bottom last_ask
absorb-fresh_bar u = rw (irrefl u.ask)

over_last-snoc :
    (f : OhlcObject → List OhlcObject) (bs : List OhlcObject) (b : OhlcObject)
    → over_last f (bs ++ b ∷ []) ≡ bs ++ f b
unfolding over_last
over_last-snoc f [] b = refl
over_last-snoc f (c ∷ []) b = refl
over_last-snoc f (c ∷ d ∷ bs) b = ap (λ r. c ∷ r) (over_last-snoc f (d ∷ bs) b)

seed_bars-snoc :
    (db : Database) (t : PriceData) (p d n : ℤ) (bs : List OhlcObject) (b : OhlcObject)
    → seed_bars db t p d n (bs ++ b ∷ []) ≡ bs ++ b ∷ []
unfolding seed_bars
seed_bars-snoc db t p d n [] b = refl
seed_bars-snoc db t p d n (c ∷ bs) b = refl

summaries-cons :
    (t : PriceData) (us : List PriceData) (d : ℤ) (u : PriceData) (taken vs : List PriceData)
    → summaries (group t us ∷ split d u taken vs)
      ≡ summary true (group t us) ∷ summaries (split d u taken vs)
unfolding summaries split
summaries-cons t us d u taken [] = refl
summaries-cons t us d u taken (v ∷ vs) = elim (Bool-cases (ltb_ℤ d (v.timestamp -ℤ u.timestamp))) [
  | inl over ↦ rw over
  | inr within ↦ rw within (summaries-cons t us d u (taken ++ v ∷ []) vs)
]

roll_over :
    (t u : PriceData) (taken : List PriceData) (d : ℤ)
    → ltb_ℤ d (u.timestamp -ℤ t.timestamp) ≡ true
    → roll u u.ask d (summary false (group t taken))
      ≡ summary true (group t taken) ∷ summary false (group u []) ∷ []
unfolding roll summary
roll_over t u taken d over =
    rw over (ap (λ b. summary true (group t taken) ∷ b ∷ []) (absorb-fresh_bar u))

roll_within :
    (t u : PriceData) (taken : List PriceData) (d : ℤ)
    → ltb_ℤ d (u.timestamp -ℤ t.timestamp) ≡ false
    → roll u u.ask d (summary false (group t taken))
      ≡ summary false (group t (taken ++ u ∷ [])) ∷ []
unfolding roll summary
roll_within t u taken d within = rw within (ap (λ b. b ∷ []) (absorb-summary t taken u))

module _ (db : Database) (d : ℤ) (positive : pos 0 <ℤ d) where
  alive : leb_ℤ d (pos 0) ≡ false
  alive = ground arith

  calculate_ohlc-snoc :
      (bs : List OhlcObject) (b : OhlcObject) (u : PriceData)
      → calculate_ohlc db u u.ask d (bs ++ b ∷ []) (pos 0) ≡ ok (bs ++ roll u u.ask d b)
  unfolding calculate_ohlc
  calculate_ohlc-snoc bs b u = rw alive (
      ap ok (
        ap (over_last (roll u u.ask d)) (seed_bars-snoc db u u.ask d (pos 0) bs b)
        ∙ over_last-snoc (roll u u.ask d) bs b))

  build-split :
      (us : List PriceData) (bs : List OhlcObject) (t : PriceData) (taken : List PriceData)
      → build db d (bs ++ summary false (group t taken) ∷ []) us
        ≡ ok (bs ++ summaries (split d t taken us))
  unfolding build split
  build-split [] bs t taken = unfold summaries in refl
  build-split (u ∷ us) bs t taken =
      rw (calculate_ohlc-snoc bs (summary false (group t taken)) u)
        (elim (Bool-cases (ltb_ℤ d (u.timestamp -ℤ t.timestamp))) [
          | inl over ↦
              let head = bs ++ summary true (group t taken) ∷ [] in
              rw (roll_over t u taken d over) (
                ap (λ l. build db d l us)
                  (sym (
                    append_assoc bs (summary true (group t taken) ∷ [])
                      (summary false (group u []) ∷ [])))
                ∙ build-split us head u []
                ∙ ap ok (
                    append_assoc bs (summary true (group t taken) ∷ [])
                      (summaries (split d u [] us)))
                ∙ ap (λ l. ok (bs ++ l)) (sym (summaries-cons t taken d u [] us))
                ∙ rw over)
          | inr within ↦
              rw (roll_within t u taken d within)
                (build-split us bs t (taken ++ u ∷ []) ∙ rw within)
        ])

  no_gap : (x : ℤ) → ltb_ℤ d (x -ℤ x) ≡ false
  no_gap x = let e : x -ℤ x ≡ pos 0 = omega int_laws in rw e (ground arith)

  first_tick :
      (t : PriceData)
      → calculate_ohlc db t t.ask d [] (pos 0) ≡ ok (summary false (group t []) ∷ [])
  unfolding calculate_ohlc seed_bars over_last roll fresh_bar
  first_tick t = rw alive (rw (no_gap t.timestamp) (ap (λ b. ok (b ∷ [])) (absorb-fresh_bar t)))

  -- With a positive duration and no warm-up, the builder never throws, and its bars are the
  -- summaries of the groups of ticks: the first ask, the greatest, the least and the last, dated by
  -- the first tick, all complete but the last.
  pub build-groups : (ts : List PriceData) → build db d [] ts ≡ ok (summaries (groups d ts))
  unfolding build groups summaries
  build-groups [] = refl
  build-groups (t ∷ ts) = rw (first_tick t) (build-split ts [] t [])
