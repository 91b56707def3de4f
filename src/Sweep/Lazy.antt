-- ===== src/Sweep/Lazy.antt =====
-- The lazy decoding of an index against the eager expansion of the grid, in
-- source/load/sweep/parameterGenerator.cppm.
use native.Mathlib.Nat.{mod-eq_of_lt, div-eq_of_lt, mod-eq-sub-mod, div-eq-sub-div}
use backtesting_engine_cpp.Prelude.{
  ℕ, zero, suc, ◌-◌, ◌/◌, ◌%◌, ◌<◌, ◌≤◌, ◌≡◌, refl, sym, ap, ◌∙◌, subst, false, Option, none, some,
  List, [], ◌∷◌, ◌++◌, map, String, str_eq, eq_iff, length, get_elem?, All, length-append,
  length-map, ltb, arith, Bool-cases, inl, inr,
}
use backtesting_engine_cpp.Sweep.{
  Combination, Ranges, get, set, expand, expand_all, generate_all_combinations, reverse_onto,
  decode, combination_at,
}

module _ {A : Type 0} where
  get-set_self : (n : String) (v : A) (c : Combination A) → get n (set n v c) ≡ some v
  unfolding get set
  get-set_self n v [] = rw ((eq_iff n n).1 refl)
  get-set_self n v ((k, w) ∷ c) = elim (Bool-cases (str_eq k n)) [
    | inl hit ↦ rw hit (rw hit refl)
    | inr miss ↦ rw miss (rw miss (get-set_self n v c))
  ]

  get-set_ne :
      (m n : String) (v : A) (c : Combination A) → str_eq n m ≡ false → get m (set n v c) ≡ get m c
  unfolding get set
  get-set_ne m n v [] h = rw h refl
  get-set_ne m n v ((k, w) ∷ c) h =
      ground (arith, get-set_ne m n v c h, eq_iff k n, eq_iff k m, eq_iff n m)

module _ {ℓ} {A : Type ℓ} where
  get_elem?-left :
      (xs ys : List A) (i : ℕ) → i < length xs → get_elem? (xs ++ ys) i ≡ get_elem? xs i
  get_elem?-left [] ys i h = absurd (omega arith)
  get_elem?-left (x ∷ xs) ys zero h = refl
  get_elem?-left (x ∷ xs) ys (suc i) h = get_elem?-left xs ys i (omega arith)

  get_elem?-right :
      (xs ys : List A) (i : ℕ)
      → length xs ≤ i
      → get_elem? (xs ++ ys) i ≡ get_elem? ys (i - length xs)
  get_elem?-right [] ys i h = let z : i ≡ i - 0 = omega arith in ap (get_elem? ys) z
  get_elem?-right (x ∷ xs) ys zero h = absurd (omega arith)
  get_elem?-right (x ∷ xs) ys (suc i) h =
      let z : i - length xs ≡ suc i - suc (length xs) = omega arith in
      get_elem?-right xs ys i (omega arith) ∙ ap (get_elem? ys) z

  get_elem?-bound : (xs : List A) (i : ℕ) (x : A) → get_elem? xs i ≡ some x → i < length xs
  get_elem?-bound [] i x h = absurd (ground arith)
  get_elem?-bound (y ∷ xs) zero x h = omega arith
  get_elem?-bound (y ∷ xs) (suc i) x h = omega (arith, get_elem?-bound xs i x h)

  get_elem?-unique :
      (xs : List A) (i : ℕ) (x y : A) → get_elem? xs i ≡ some x → get_elem? xs i ≡ some y → x ≡ y
  get_elem?-unique xs i x y h k = cc

  get_elem?-within : (xs : List A) (i : ℕ) → i < length xs → (x : A) × (get_elem? xs i ≡ some x)
  get_elem?-within [] i h = absurd (omega arith)
  get_elem?-within (x ∷ xs) zero h = (x, refl)
  get_elem?-within (x ∷ xs) (suc i) h = get_elem?-within xs i (omega arith)

get_elem?-map :
    {A B : Type 0} (f : A → B) (xs : List A) (i : ℕ) (x : A)
    → get_elem? xs i ≡ some x
    → get_elem? (map f xs) i ≡ some (f x)
get_elem?-map f [] i x h = absurd (ground arith)
get_elem?-map f (y ∷ xs) zero x h = let q : y ≡ x = cc in ap (λ z. some (f z)) q
get_elem?-map f (y ∷ xs) (suc i) x h = get_elem?-map f xs i x h

module _ {A : Type 0} where
  -- The grid over ranges that are listed from the last registered.
  grid : Ranges A → List (Combination A)
  grid [] = [] ∷ []
  grid ((n, vs) ∷ rest) = expand n vs (grid rest)

  expand_all-grid :
      (rs passed : Ranges A) → expand_all rs (grid passed) ≡ grid (reverse_onto rs passed)
  unfolding expand_all reverse_onto grid
  expand_all-grid [] passed = refl
  expand_all-grid ((n, vs) ∷ rs) passed = expand_all-grid rs ((n, vs) ∷ passed)

  -- What stands at an index of an expansion.
  record IsAt (n : String) (vs : List A) (bases : List (Combination A)) (i : ℕ) : Type 0 where
    value : A
    base : Combination A
    value_at : get_elem? vs (i % length vs) ≡ some value
    base_at : get_elem? bases (i / length vs) ≡ some base
    both_at : get_elem? (expand n vs bases) i ≡ some (set n value base)

  expand-empty : (n : String) (bases : List (Combination A)) → length (expand n [] bases) ≡ 0
  unfolding expand
  expand-empty n [] = refl
  expand-empty n (b ∷ bases) = expand-empty n bases

  expand-IsAt :
      (n : String) (vs : List A) (bases : List (Combination A)) (i : ℕ)
      → 0 < length vs
      → i < length (expand n vs bases)
      → IsAt n vs bases i
  unfolding expand
  expand-IsAt n vs [] i p h = absurd (omega arith)
  expand-IsAt n vs (b ∷ bases) i p h = elim (Bool-cases (ltb i (length vs))) [
    | inl low ↦
        let small : i < length vs = ground arith in
        let (v, at) = get_elem?-within vs i small in
        record {
          value = v;
          base = b;
          value_at = rw (mod-eq_of_lt small) at;
          base_at = rw (div-eq_of_lt small) refl;
          both_at =
              get_elem?-left (map (λ v. set n v b) vs) (expand n vs bases) i
                (omega (arith, small, length-map (λ v. set n v b) vs))
              ∙ get_elem?-map (λ v. set n v b) vs i v at;
        }
    | inr high ↦
        let big : length vs ≤ i = ground arith in
        let first = map (λ v. set n v b) vs in
        let counted = length-map (λ v. set n v b) vs in
        let rest =
          expand-IsAt n vs bases (i - length vs) p
            (omega (arith, h, big, counted, length-append first (expand n vs bases))) in
        let one_more : i / length vs ≡ suc ((i - length vs) / length vs) =
          omega (arith, div-eq-sub-div p big) in
        let shifted : i - length first ≡ i - length vs = omega (arith, counted) in
        record {
          value = rest.value;
          base = rest.base;
          value_at = rw (mod-eq-sub-mod big) rest.value_at;
          base_at = ap (get_elem? (b ∷ bases)) one_more ∙ rest.base_at;
          both_at =
              get_elem?-right first (expand n vs bases) i (omega (arith, big, counted))
              ∙ ap (get_elem? (expand n vs bases)) shifted
              ∙ rest.both_at;
        }
  ]

  -- No range has the name.
  abbrev pub Lacks : String → Ranges A → Type 0
  Lacks n rs = All (λ (r : String × List A). str_eq r.0 n ≡ false) rs

  -- No two ranges share a name.
  abbrev pub HasDistinctNames : Ranges A → Type 0
  HasDistinctNames [] = Unit
  HasDistinctNames ((n, vs) ∷ rest) = Lacks n rest × HasDistinctNames rest

  -- The value of the second where the first has none.
  abbrev or_else : Option A → Option A → Option A
  or_else none o = o
  or_else (some v) o = some v

  none_behind : (o : Option A) → or_else o none ≡ o
  none_behind none = refl
  none_behind (some v) = refl

  -- A value set before the rest is decoded, or after.
  set_before :
      (n m : String) (v : A) (base combo lazy : Combination A)
      → (n ≡ m → get m base ≡ none)
      → get m lazy ≡ or_else (get m base) (get m (set n v combo))
      → get m lazy ≡ or_else (get m (set n v base)) (get m combo)
  set_before n m v base combo lazy fresh h = elim (Bool-cases (str_eq n m)) [
    | inl hit ↦
        let same = (eq_iff n m).0 hit in
        let self : (c : Combination A) → get m (set n v c) ≡ some v =
          λ c. subst (λ k. get k (set n v c) ≡ some v) same (get-set_self n v c) in
        h ∙ rw (fresh same, self combo, self base) refl
    | inr miss ↦ h ∙ rw (get-set_ne m n v combo miss, get-set_ne m n v base miss) refl
  ]

  -- A decoded combination against that of the grid.
  record IsDecoded (rs : Ranges A) (combo : Combination A) (i : ℕ) : Type 0 where
    lazy : Combination A
    eager : Combination A
    lazy_at : decode rs combo i ≡ some lazy
    eager_at : get_elem? (grid rs) i ≡ some eager
    agrees : (m : String) → get m lazy ≡ or_else (get m eager) (get m combo)
    lacks : (m : String) → Lacks m rs → get m eager ≡ none

  decode-step :
      (n : String) (vs : List A) (rs : Ranges A) (combo : Combination A) (i : ℕ) (v : A)
      → get_elem? vs (i % length vs) ≡ some v
      → decode ((n, vs) ∷ rs) combo i ≡ decode rs (set n v combo) (i / length vs)
  unfolding decode
  decode-step n vs rs combo i v h = rw (decode, h) refl

  decode-IsDecoded :
      (rs : Ranges A) (combo : Combination A) (i : ℕ)
      → HasDistinctNames rs
      → i < length (grid rs)
      → IsDecoded rs combo i
  unfolding decode grid
  decode-IsDecoded [] combo zero d h = record {
    lazy = combo;
    eager = [];
    lazy_at = refl;
    eager_at = refl;
    agrees = λ m. unfold get in refl;
    lacks = λ m l. unfold get in refl;
  }
  decode-IsDecoded [] combo (suc i) d h = absurd (omega arith)
  decode-IsDecoded ((n, []) ∷ rs) combo i d h = absurd (omega (arith, h, expand-empty n (grid rs)))
  decode-IsDecoded ((n, w ∷ ws) ∷ rs) combo i d h =
      let vs = w ∷ ws in
      let at = expand-IsAt n vs (grid rs) i (omega arith) h in
      let rest =
        decode-IsDecoded rs (set n at.value combo) (i / length vs) d.1
          (get_elem?-bound (grid rs) (i / length vs) at.base at.base_at) in
      let same =
        get_elem?-unique (grid rs) (i / length vs) rest.eager at.base rest.eager_at at.base_at in
      record {
        lazy = rest.lazy;
        eager = set n at.value at.base;
        lazy_at = decode-step n vs rs combo i at.value at.value_at ∙ rest.lazy_at;
        eager_at = at.both_at;
        agrees = λ m.
            set_before n m at.value at.base combo rest.lazy
              (λ e. ap (get m) (sym same) ∙ rest.lacks m (subst (λ k. Lacks k rs) e d.0))
              (rest.agrees m ∙ ap (λ b. or_else (get m b) (get m (set n at.value combo))) same);
        lacks =
            λ m l. get-set_ne m n at.value at.base l.0 ∙ ap (get m) (sym same) ∙ rest.lacks m l.1;
      }

  -- The two ways to an index of the grid.
  pub record IsMirrored (rs : Ranges A) (i : ℕ) : Type 0 where
    pub at_index : Combination A
    pub expanded : Combination A
    pub lazily : combination_at rs i ≡ some at_index
    pub eagerly : get_elem? (generate_all_combinations rs) i ≡ some expanded
    pub same_values : (name : String) → get name at_index ≡ get name expanded

  -- For ranges without a shared name (listed in reverse) and an index of the expansion, decoding the
  -- index gives a combination, with the same value under every name as the one that the expansion
  -- has at the index.
  pub combination_at-IsMirrored :
      (rs : Ranges A) (i : ℕ)
      → HasDistinctNames (reverse_onto rs [])
      → i < length (generate_all_combinations rs)
      → IsMirrored rs i
  unfolding combination_at generate_all_combinations grid get
  combination_at-IsMirrored rs i d h =
      let eager = expand_all-grid rs [] in
      let r = decode-IsDecoded (reverse_onto rs []) [] i d (subst (λ l. i < length l) eager h) in
      record {
        at_index = r.lazy;
        expanded = r.eager;
        lazily = r.lazy_at;
        eagerly = rw eager r.eager_at;
        same_values = λ m. r.agrees m ∙ none_behind (get m r.eager);
      }
