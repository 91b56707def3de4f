-- ===== src/SymbolScale.antt =====
-- source/shared/utilities/symbolScale.cppm: the constant table of tradable symbols, its lookup, and
-- the two factors read from it.
use backtesting_engine_cpp.Prelude.{
  ℕ, ◌%◌, ◌<◌, ◌≡◌, refl, ◌≢◌, true, List, [], ◌∷◌, ◌⊎◌, inl, inr, String, some, get_elem?,
  All-get_elem?, All, arith,
}
use backtesting_engine_cpp.Prelude.{ℤ, pos}
use backtesting_engine_cpp.Search.{Order, Outcome, found, absent, stuck, search, is_sorted, Answers}
use backtesting_engine_cpp.Search.{search-Answers}
use backtesting_engine_cpp.Search.Texts.{str_lt, str_lt_irrefl, str_lt_trans, str_lt_connex}

-- `scale` is points per pip; `price_scale` turns a decimal price into stored points.
pub record Entry : Type 0 where
  pub scale : ℕ
  pub price_scale : ℕ

abbrev pub text_order : Order String
text_order = record {
  lt = str_lt;
  lt_irrefl = str_lt_irrefl;
  lt_trans = str_lt_trans;
  lt_connex = str_lt_connex;
}

abbrev entry : ℕ → ℕ → Entry
entry s p = record { scale = s; price_scale = p }

abbrev pub k_table : List (String × Entry)
k_table =
    ("AUDNZD", entry 10 100000)
    ∷ ("AUDUSD", entry 10 100000)
    ∷ ("AUSIDXAUD", entry 100 100)
    ∷ ("BRENTCMDUSD", entry 100 100)
    ∷ ("COPPERCMDUSD", entry 100 100)
    ∷ ("DEUIDXEUR", entry 100 100)
    ∷ ("EURAUD", entry 10 100000)
    ∷ ("EURCHF", entry 10 100000)
    ∷ ("EURGBP", entry 10 100000)
    ∷ ("EURJPY", entry 10 1000)
    ∷ ("EURNOK", entry 10 100000)
    ∷ ("EURUSD", entry 10 100000)
    ∷ ("FRAIDXEUR", entry 100 100)
    ∷ ("GBPJPY", entry 10 1000)
    ∷ ("GBPUSD", entry 10 100000)
    ∷ ("GBRIDXGBP", entry 100 100)
    ∷ ("HKGIDXHKD", entry 100 100)
    ∷ ("JPNIDXJPY", entry 100 100)
    ∷ ("LIGHTCMDUSD", entry 100 100)
    ∷ ("NZDUSD", entry 10 100000)
    ∷ ("USA30IDXUSD", entry 100 100)
    ∷ ("USA500IDXUSD", entry 100 100)
    ∷ ("USATECHIDXUSD", entry 100 100)
    ∷ ("USDCAD", entry 10 100000)
    ∷ ("USDCHF", entry 10 100000)
    ∷ ("USDJPY", entry 10 1000)
    ∷ ("USDSEK", entry 10 100000)
    ∷ ("XAGUSD", entry 1000 1000)
    ∷ ("XAUUSD", entry 1000 1000)
    ∷ []

k_table_sorted : is_sorted text_order k_table ≡ true
unfolding str_lt
k_table_sorted = refl

-- The factor for an unknown symbol.
abbrev pub k_unknown : ℤ
k_unknown = pos 0

unfoldable pub find_entry : String → Outcome Entry
unfolding search
find_entry symbol = search text_order k_table symbol

-- Points per pip, or `k_unknown`.
unfoldable pub get : String → ℤ
unfolding find_entry str_lt
get symbol = elim (find_entry symbol) [ found e ↦ pos e.scale | _ ↦ k_unknown ]

-- The multiplier from a decimal price to stored points, or `k_unknown`.
unfoldable pub get_price_scale : String → ℤ
unfolding find_entry str_lt
get_price_scale symbol = elim (find_entry symbol) [ found e ↦ pos e.price_scale | _ ↦ k_unknown ]

abbrev IsFactor : Entry → Type 0
IsFactor e = (0 < e.scale) × (e.scale % 10 ≡ 0) × (0 < e.price_scale)

k_table-IsFactor : All (λ (r : String × Entry). IsFactor r.1) k_table
k_table-IsFactor = omega arith

-- What `get` and `get_price_scale` say of a symbol.
abbrev pub Lookup : String → Type 0
Lookup symbol =
    ((e : Entry) × (i : ℕ) × (get_elem? k_table i ≡ some (symbol, e))
      × (get symbol ≡ pos e.scale)
      × (get_price_scale symbol ≡ pos e.price_scale)
      × (0 < e.scale)
      × (e.scale % 10 ≡ 0)
      × (0 < e.price_scale))
    ⊎ (((i : ℕ) (e : Entry) → get_elem? k_table i ≢ some (symbol, e))
        × (get symbol ≡ k_unknown)
        × (get_price_scale symbol ≡ k_unknown))

-- For every symbol, the binary search behind `get` and `get_price_scale` ends, and either the
-- table has an entry under the symbol and both return its two factors, which are positive, the
-- points per pip a multiple of 10, or the table has none and both return `k_unknown`.
pub get-Lookup : (symbol : String) → Lookup symbol
unfolding get get_price_scale find_entry
get-Lookup symbol =
    answer (search text_order k_table symbol) refl
      (search-Answers text_order k_table symbol k_table_sorted)
  where
    answer :
        (r : Outcome Entry)
        → search text_order k_table symbol ≡ r
        → Answers text_order k_table symbol r
        → Lookup symbol
    answer (found e) q (i, at) =
        let f =
          All-get_elem? (λ (r : String × Entry). IsFactor r.1) k_table i (symbol, e)
            k_table-IsFactor at in
        inl (e, i, at, rw (q, get), rw (q, get_price_scale), f.0, f.1, f.2)
    answer absent q none_there = inr (λ i e. none_there i e, rw (q, get), rw (q, get_price_scale))
    answer stuck q h = elim h [ ]
