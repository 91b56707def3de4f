-- ===== src/Bars/Store/Registered.antt =====
-- Registered specs of source/shared/utilities/barStore.cppm, and what can throw in its updates.
use backtesting_engine_cpp.Prelude.{
  ◌≡◌, refl, ◌⊎◌, inl, inr, true, false, ◌||◌, List, [], ◌∷◌, map, String, All, Result, ok,
  invalid_argument, arith, Bool-cases,
}
use backtesting_engine_cpp.Prelude.{ℤ, pos, negsuc, ◌*ℤ◌, ltb_ℤ, leb_ℤ, eqb_ℤ, max_ℤ}
use backtesting_engine_cpp.Trading.Models.{PriceData, minutes}
use backtesting_engine_cpp.Bars.Ohlc.{OhlcObject, Database, calculate_ohlc}
use backtesting_engine_cpp.Bars.RangeBar.{
  RangeBarSpec, RangeSeries, is_malformed, new_series, same_identity, initial_series,
}
use backtesting_engine_cpp.Bars.RangeBar
use backtesting_engine_cpp.Bars.Store.{
  SeriesSpec, BarStore, empty_store, merge_spec, register_series, lookup_or, put_symbol,
  feed_series, feed_range_series, update_bars, update_range_bars, update, trim,
}

pub record IsTimeframe (s : SeriesSpec) : Type 0 where
  pub minutes_positive : ltb_ℤ s.minutes_per_bar (pos 1) ≡ false
  pub count_positive : ltb_ℤ s.count (pos 1) ≡ false

-- Every registered spec is one that the registration accepts.
pub record IsRegistered (store : BarStore) : Type 0 where
  pub timeframes : All IsTimeframe store.specs
  pub ranges : All (λ s. is_malformed s ≡ false) store.range_specs

-- The call does not throw.
abbrev pub Succeeds : {A : Type 0} → Result A → Type 0
Succeeds {A = A} r = (a : A) × (r ≡ ok a)

pub empty_store-IsRegistered : IsRegistered empty_store
unfolding empty_store
empty_store-IsRegistered = record { timeframes = tt; ranges = tt }

positive_minutes : (n : ℤ) → ltb_ℤ n (pos 1) ≡ false → leb_ℤ (minutes n) (pos 0) ≡ false
unfolding minutes ◌*ℤ◌
positive_minutes (pos n) h = ground arith
positive_minutes (negsuc n) h = ground arith

module _ (db : Database) (tick : PriceData) where
  calculate-Succeeds :
      (price n : ℤ) (bars : List OhlcObject) (count : ℤ)
      → ltb_ℤ n (pos 1) ≡ false
      → Succeeds (calculate_ohlc db tick price (minutes n) bars count)
  unfolding calculate_ohlc
  calculate-Succeeds price n bars count h = rw (positive_minutes n h) (_, refl)

  feed_series-Succeeds :
      (specs : List SeriesSpec) (hs : List (List OhlcObject))
      → All IsTimeframe specs
      → Succeeds (feed_series db tick specs hs)
  unfolding feed_series
  feed_series-Succeeds [] hs a = (hs, refl)
  feed_series-Succeeds (s ∷ specs) [] a =
      let (bars, e) =
        calculate-Succeeds tick.ask s.minutes_per_bar [] s.count a.0.minutes_positive in
      let (rest, f) = feed_series-Succeeds specs [] a.1 in
      (trim s.count bars ∷ rest, rw e (rw f refl))
  feed_series-Succeeds (s ∷ specs) (h ∷ hs) a =
      let (bars, e) =
        calculate-Succeeds tick.ask s.minutes_per_bar h s.count a.0.minutes_positive in
      let (rest, f) = feed_series-Succeeds specs hs a.1 in
      (trim s.count bars ∷ rest, rw e (rw f refl))

  feed_range_series-Succeeds :
      (specs : List RangeBarSpec) (rs : List RangeSeries)
      → All (λ s. is_malformed s ≡ false) specs
      → Succeeds (feed_range_series db tick specs rs)
  unfolding feed_range_series new_series
  feed_range_series-Succeeds [] rs a = (map (λ r. RangeBar.update db r tick) rs, refl)
  feed_range_series-Succeeds (s ∷ specs) [] a =
      let (rest, f) = feed_range_series-Succeeds specs [] a.1 in
      (RangeBar.update db (initial_series s) tick ∷ rest, rw a.0 (rw f refl))
  feed_range_series-Succeeds (s ∷ specs) (r ∷ rs) a =
      let (rest, f) = feed_range_series-Succeeds specs rs a.1 in
      (RangeBar.update db r tick ∷ rest, rw f refl)

  -- The outcome of an update: it does not throw, and keeps the specs.
  record IsFed (store : BarStore) (outcome : Result BarStore) : Type 0 where
    fed : BarStore
    returned : outcome ≡ ok fed
    same_specs : fed.specs ≡ store.specs
    same_ranges : fed.range_specs ≡ store.range_specs

  update_bars-IsFed :
      (store : BarStore) → IsRegistered store → IsFed store (update_bars db store tick)
  unfolding update_bars
  update_bars-IsFed store r =
      by_specs store.specs store.by_symbol store.range_specs store.range_by_symbol r.timeframes
    where
      by_specs :
          (l : List SeriesSpec) (m : List (String × List (List OhlcObject)))
          (rl : List RangeBarSpec) (rm : List (String × List RangeSeries))
          → All IsTimeframe l
          → let s : BarStore = record {
            specs = l;
            by_symbol = m;
            range_specs = rl;
            range_by_symbol = rm;
          } in
            IsFed s (update_bars db s tick)
      by_specs [] m rl rm a = record {
        fed = _;
        returned = refl;
        same_specs = refl;
        same_ranges = refl;
      }
      by_specs (x ∷ l) m rl rm a =
          let (hs, f) = feed_series-Succeeds (x ∷ l) (lookup_or [] tick.symbol m) a in
          let after : BarStore = record {
            specs = x ∷ l;
            by_symbol = put_symbol tick.symbol hs m;
            range_specs = rl;
            range_by_symbol = rm;
          } in
          record { fed = after; returned = rw f refl; same_specs = refl; same_ranges = refl }

  update_range_bars-IsFed :
      (store : BarStore) → IsRegistered store → IsFed store (update_range_bars db store tick)
  unfolding update_range_bars
  update_range_bars-IsFed store r =
      by_specs store.specs store.by_symbol store.range_specs store.range_by_symbol r.ranges
    where
      by_specs :
          (l : List SeriesSpec) (m : List (String × List (List OhlcObject)))
          (rl : List RangeBarSpec) (rm : List (String × List RangeSeries))
          → All (λ s. is_malformed s ≡ false) rl
          → let s : BarStore = record {
            specs = l;
            by_symbol = m;
            range_specs = rl;
            range_by_symbol = rm;
          } in
            IsFed s (update_range_bars db s tick)
      by_specs l m [] rm a = record {
        fed = _;
        returned = refl;
        same_specs = refl;
        same_ranges = refl;
      }
      by_specs l m (x ∷ rl) rm a =
          let (rs, f) = feed_range_series-Succeeds (x ∷ rl) (lookup_or [] tick.symbol rm) a in
          let after : BarStore = record {
            specs = l;
            by_symbol = m;
            range_specs = x ∷ rl;
            range_by_symbol = put_symbol tick.symbol rs rm;
          } in
          record { fed = after; returned = rw f refl; same_specs = refl; same_ranges = refl }

  fed-IsRegistered :
      (store : BarStore) (o : Result BarStore)
      → IsRegistered store
      → (f : IsFed store o) → IsRegistered f.fed
  fed-IsRegistered store o r f = record {
    timeframes = rw f.same_specs r.timeframes;
    ranges = rw f.same_ranges r.ranges;
  }

  -- An update of a store whose specs were all accepted by the registration returns a store whose
  -- specs are still such.
  pub update-IsRegistered :
      (store : BarStore)
      → IsRegistered store
      → (store' : BarStore) × ((update db store tick ≡ ok store') × IsRegistered store')
  unfolding update
  update-IsRegistered store r =
      let bars = update_bars-IsFed store r in
      let r' = fed-IsRegistered store _ r bars in
      let ranges = update_range_bars-IsFed bars.fed r' in
      (ranges.fed, (rw bars.returned ranges.returned, fed-IsRegistered bars.fed _ r' ranges))

merge_spec-timeframes :
    (mins count : ℤ) (specs : List SeriesSpec)
    → ltb_ℤ mins (pos 1) ≡ false
    → ltb_ℤ count (pos 1) ≡ false
    → All IsTimeframe specs
    → All IsTimeframe (merge_spec mins count specs)
unfolding merge_spec
merge_spec-timeframes mins count [] h k a =
    (record { minutes_positive = h; count_positive = k }, tt)
merge_spec-timeframes mins count (s ∷ specs) h k a =
    elim (Bool-cases (eqb_ℤ s.minutes_per_bar mins)) [
      | inl same ↦ rw same (
        record {
          minutes_positive = a.0.minutes_positive;
          count_positive = unfold max_ℤ in ground (arith, k, a.0.count_positive);
        },
        a.1,
      )
      | inr other ↦ rw other (a.0, merge_spec-timeframes mins count specs h k a.1)
    ]

-- A registration either throws, on a count or a duration below 1, or leaves the specs in order.
pub register_series-IsRegistered :
    (store : BarStore) (mins count : ℤ)
    → IsRegistered store
    → ((register_series store mins count ≡ invalid_argument)
        × ((ltb_ℤ mins (pos 1) || ltb_ℤ count (pos 1)) ≡ true))
      ⊎ ((store' : BarStore) × ((register_series store mins count ≡ ok store')
            × IsRegistered store'))
unfolding register_series
register_series-IsRegistered store mins count r =
    elim (Bool-cases (ltb_ℤ mins (pos 1) || ltb_ℤ count (pos 1))) [
      | inl bad ↦ inl (rw bad refl, bad)
      | inr good ↦ inr (
        record store { specs = merge_spec mins count store.specs },
        (
          rw good refl,
          record {
            timeframes =
                merge_spec-timeframes mins count store.specs (ground (arith, good))
                  (ground (arith, good)) r.timeframes;
            ranges = r.ranges;
          },
        ),
      )
    ]
