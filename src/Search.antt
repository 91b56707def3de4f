-- ===== src/Search.antt =====
-- The binary search that the static symbol tables share: `symbol_scale::findEntry` and
-- `market_hours::sessionFor` are this loop over their own table, with the sortedness check of the
-- tables' `static_assert`.
pub mod Texts
use backtesting_engine_cpp.Prelude.{
  ℕ, zero, suc, ◌+◌, ◌-◌, ◌/◌, ◌≤◌, ◌<◌, ◌≡◌, refl, ◌≢◌, ◌⊎◌, inl, inr, Bool, true, false, ◌&&◌,
  Option, none, some, List, [], ◌∷◌, arith, ltb, if◌then◌else◌, length, get_elem?, Bool-cases,
}

-- A strict linear order on keys, as a Boolean test.
pub record Order (K : Type 0) : Type 0 where
  pub lt : K → K → Bool
  pub lt_irrefl : (a : K) → lt a a ≡ false
  pub lt_trans : (a b c : K) → lt a b ≡ true → lt b c ≡ true → lt a c ≡ true
  pub lt_connex : (a b : K) → lt a b ≡ false → lt b a ≡ false → a ≡ b

-- `stuck`: a read outside the table, or a loop of the model that ran out of fuel.
pub data Outcome (V : Type 0) : Type 0 where
  found : V → Outcome V
  absent stuck : Outcome V

module _ {K V : Type 0} (o : Order K) where
  open o use {lt, lt_irrefl, lt_trans, lt_connex}

  -- The loop over [lo, hi), on fuel.
  unfoldable pub search_from : List (K × V) → K → ℕ → ℕ → ℕ → Outcome V
  search_from table key zero lo hi = stuck
  search_from table key (suc fuel) lo hi =
      let mid = lo + (hi - lo) / 2 in
      let upper = search_from table key fuel (mid + 1) hi in
      let lower = search_from table key fuel lo mid in
      let probe : Outcome V = elim (get_elem? table mid) [
        | none ↦ stuck
        | some (k, v) ↦ if lt k key then upper else if lt key k then lower else found v
      ] in
      if ltb lo hi then probe else absent

  unfoldable pub search : List (K × V) → K → Outcome V
  unfolding search_from
  search table key = search_from table key (suc (length table)) 0 (length table)

  -- The adjacent comparisons of the tables' `static_assert`.
  abbrev pub sorted_after : K → List (K × V) → Bool
  sorted_after j [] = true
  sorted_after j ((k, v) ∷ rest) = lt j k && sorted_after k rest

  abbrev pub is_sorted : List (K × V) → Bool
  is_sorted [] = true
  is_sorted ((k, v) ∷ rest) = sorted_after k rest

  -- What a search of a table may answer: an entry under the key, or that there is none.
  abbrev pub Answers : List (K × V) → K → Outcome V → Type 0
  Answers table key (found v) = (i : ℕ) × (get_elem? table i ≡ some (key, v))
  Answers table key absent = (i : ℕ) (v : V) → get_elem? table i ≢ some (key, v)
  Answers table key stuck = ⊥

  sorted_after-lt :
      (j : K) (table : List (K × V))
      → sorted_after j table ≡ true
      → (i : ℕ) (k : K) (v : V) → get_elem? table i ≡ some (k, v)
      → lt j k ≡ true
  sorted_after-lt j [] s i k v e = absurd (ground arith)
  sorted_after-lt j ((k', v') ∷ rest) s zero k v e = ground arith
  sorted_after-lt j ((k', v') ∷ rest) s (suc i) k v e =
      ground (arith, sorted_after-lt k' rest (ground arith) i k v e, lt_trans j k' k)

  -- Adjacent order gives order at any distance.
  is_sorted-lt :
      (table : List (K × V))
      → is_sorted table ≡ true
      → (i j : ℕ) (k l : K) (v w : V) → i < j
      → get_elem? table i ≡ some (k, v)
      → get_elem? table j ≡ some (l, w)
      → lt k l ≡ true
  is_sorted-lt [] s i j k l v w h e f = absurd (ground arith)
  is_sorted-lt ((k', v') ∷ rest) s i zero k l v w h e f = absurd (omega arith)
  is_sorted-lt ((k', v') ∷ rest) s zero (suc j) k l v w h e f =
      ground (arith, sorted_after-lt k' rest s j l w f)
  is_sorted-lt ((k', v') ∷ rest) s (suc i) (suc j) k l v w h e f =
      is_sorted-lt rest (tail_sorted rest s) i j k l v w (omega arith) e f
    where
      tail_sorted : (r : List (K × V)) → sorted_after k' r ≡ true → is_sorted r ≡ true
      tail_sorted [] s = refl
      tail_sorted ((k₂, v₂) ∷ r) s = ground arith

  -- Outside [lo, hi) the keys lie on their side of `key`.
  record Bracket (table : List (K × V)) (key : K) (lo hi : ℕ) : Type 0 where
    below : (i : ℕ) (k : K) (v : V) → i < lo → get_elem? table i ≡ some (k, v) → lt k key ≡ true
    above : (i : ℕ) (k : K) (v : V) → hi ≤ i → get_elem? table i ≡ some (k, v) → lt key k ≡ true

  nothing_left :
      (table : List (K × V)) (key : K) (lo hi : ℕ)
      → Bracket table key lo hi
      → hi ≤ lo
      → (i : ℕ) (v : V) → get_elem? table i ≢ some (key, v)
  nothing_left table key lo hi b h i v e = elim (Bool-cases (ltb i lo)) [
    | inl t ↦ ground (arith, b.below i key v (ground arith) e, lt_irrefl key)
    | inr f ↦ ground (arith, b.above i key v (ground arith) e, lt_irrefl key)
  ]

  elem_at :
      (table : List (K × V)) (i : ℕ)
      → i < length table
      → (k : K) × (v : V) × (get_elem? table i ≡ some (k, v))
  elem_at [] i h = absurd (omega arith)
  elem_at ((k, v) ∷ rest) zero h = (k, v, refl)
  elem_at ((k, v) ∷ rest) (suc i) h = elem_at rest i (omega arith)

  raise_lower :
      (table : List (K × V)) (key : K) (lo hi mid : ℕ) (k : K) (v : V)
      → is_sorted table ≡ true
      → get_elem? table mid ≡ some (k, v)
      → lt k key ≡ true
      → Bracket table key lo hi
      → Bracket table key (mid + 1) hi
  raise_lower table key lo hi mid k v s e h b = record {
    below = λ i l w lti f. elim (Bool-cases (ltb i mid)) [
      | inl t ↦ lt_trans l k key (is_sorted-lt table s i mid l k w v (ground arith) f e) h
      | inr t ↦ same i l w (ground arith) f
    ];
    above = b.above;
  }
    where
      same : (i : ℕ) (l : K) (w : V) → i ≡ mid → get_elem? table i ≡ some (l, w) → lt l key ≡ true
      same i l w q f = ground arith

  drop_upper :
      (table : List (K × V)) (key : K) (lo hi mid : ℕ) (k : K) (v : V)
      → is_sorted table ≡ true
      → get_elem? table mid ≡ some (k, v)
      → lt key k ≡ true
      → Bracket table key lo hi
      → Bracket table key lo mid
  drop_upper table key lo hi mid k v s e h b = record {
    below = b.below;
    above = λ i l w lei f. elim (Bool-cases (ltb mid i)) [
      | inl t ↦ lt_trans key k l h (is_sorted-lt table s mid i k l v w (ground arith) e f)
      | inr t ↦ same i l w (ground arith) f
    ];
  }
    where
      same : (i : ℕ) (l : K) (w : V) → i ≡ mid → get_elem? table i ≡ some (l, w) → lt key l ≡ true
      same i l w q f = ground arith

  search_from-Answers :
      (table : List (K × V)) (key : K)
      → is_sorted table ≡ true
      → (fuel lo hi : ℕ) → hi - lo < fuel
      → hi ≤ length table
      → Bracket table key lo hi
      → Answers table key (search_from table key fuel lo hi)
  unfolding search_from
  search_from-Answers table key s zero lo hi hf hl b = absurd (omega arith)
  search_from-Answers table key s (suc fuel) lo hi hf hl b = elim (Bool-cases (ltb lo hi)) [
    | inr out ↦ rw out (nothing_left table key lo hi b (ground arith))
    | inl inside ↦
        let mid = lo + (hi - lo) / 2 in
        let (k, v, e) = elem_at table mid (ground arith) in
        rw (inside, e)
          (elim (Bool-cases (lt k key)) [
            | inl up ↦ rw up (
                search_from-Answers table key s fuel (mid + 1) hi (ground arith) hl
                  (raise_lower table key lo hi mid k v s e up b))
            | inr not_up ↦ rw not_up (elim (Bool-cases (lt key k)) [
              | inl down ↦ rw down (
                  search_from-Answers table key s fuel lo mid (ground arith) (ground arith)
                    (drop_upper table key lo hi mid k v s e down b))
              | inr not_down ↦ rw not_down (mid, rw (← lt_connex k key not_up not_down) e)
            ])
          ])
  ]

  start : (table : List (K × V)) (key : K) → Bracket table key 0 (length table)
  start table key = record {
    below = λ i k v h e. absurd (omega arith);
    above = λ i k v h e. absurd (beyond table i k v h e);
  }
    where
      beyond :
          (t : List (K × V)) (i : ℕ) (k : K) (v : V) → length t ≤ i → get_elem? t i ≢ some (k, v)
      beyond [] i k v h e = ground arith
      beyond (x ∷ t) zero k v h e = omega arith
      beyond (x ∷ t) (suc i) k v h e = beyond t i k v (omega arith) e

  -- On a sorted table the search ends, and answers the entry under the key or that there is none.
  pub search-Answers :
      (table : List (K × V)) (key : K)
      → is_sorted table ≡ true
      → Answers table key (search table key)
  unfolding search
  search-Answers table key s =
      search_from-Answers table key s (suc (length table)) 0 (length table) (omega arith)
        (omega arith) (start table key)
