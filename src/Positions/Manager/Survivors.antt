-- ===== src/Positions/Manager/Survivors.antt =====
-- The deals that a refresh leaves in the book.
use backtesting_engine_cpp.Prelude.{
  ◌≡◌, ◌⊎◌, inl, inr, refl, Bool, true, false, List, [], ◌∷◌, map, String, Option, none, some,
  str_eq, eq_iff, Dict, lookup, ◌∙◌, sym, subst, arith, Bool-cases, Option-cases, ℤ, pos, ltb_ℤ, ap,
  if◌then◌else◌, All,
}
use backtesting_engine_cpp.Redis.{Server, Op, done, co_return}
use backtesting_engine_cpp.Redis.Bind.{>>=-eq-done}
use backtesting_engine_cpp.Redis.Client.{SyncRedisClient, Ran, run}
use backtesting_engine_cpp.Redis.Client.Breaker.{run-value}
use backtesting_engine_cpp.Redis.Operations.{get_multiple, delete_key, zip_present}
use backtesting_engine_cpp.Positions.Codec.{
  Json, encode_position_list, position_list_key, position_key,
}
use backtesting_engine_cpp.Positions.Manager.{
  ListState, ok, missing, failed, list_state, fetch_list, got_through, refresh_position_list,
  refreshed, kept, rewrite_list, survivors, keep_live,
}
use backtesting_engine_cpp.Positions.Manager.Book.{BookServer, Among, book, fetched, stored}

-- A zipped reply has under a key its value or nothing.
zip_lookup :
    (value_of : String → Option String) (k : String) (keys : List String)
    → (lookup k (zip_present keys (map value_of keys)) ≡ none)
      ⊎ (lookup k (zip_present keys (map value_of keys)) ≡ value_of k)
unfolding zip_present lookup
zip_lookup value_of k [] = inl refl
zip_lookup value_of k (x ∷ xs) = elim (Option-cases (value_of x)) [
  | inl gone ↦ rw gone (zip_lookup value_of k xs)
  | inr (v, there) ↦ rw there (elim (Bool-cases (str_eq x k)) [
    | inl t ↦ rw t (inr (let same : x ≡ k = (eq_iff x k).0 t in rw (← same) (sym there)))
    | inr f ↦ rw f (zip_lookup value_of k xs)
  ])
]

-- A key that was asked for has its value.
zip_lookup_asked :
    (value_of : String → Option String) (k : String) (keys : List String)
    → Among k keys
    → lookup k (zip_present keys (map value_of keys)) ≡ value_of k
unfolding zip_present lookup
zip_lookup_asked value_of k [] h = elim h [ ]
zip_lookup_asked value_of k (x ∷ xs) h = elim (Option-cases (value_of x)) [
  | inl gone ↦ rw gone (elim h [
    | inl same ↦ elim (zip_lookup value_of k xs) [
      | inl e ↦ e ∙ (let q : value_of k ≡ none = rw (← same) gone in sym q)
      | inr e ↦ e
    ]
    | inr later ↦ zip_lookup_asked value_of k xs later
  ])
  | inr (v, there) ↦ rw there (elim (Bool-cases (str_eq x k)) [
    | inl t ↦ rw t (let same : x ≡ k = (eq_iff x k).0 t in rw (← same) (sym there))
    | inr f ↦ rw f (elim h [
      | inl same ↦ absurd (ground (arith, eq_iff x k))
      | inr later ↦ zip_lookup_asked value_of k xs later
    ])
  ])
]

is_there : Option String → Bool
is_there none = false
is_there (some v) = true

keep_live_lem :
    (deal_id : String) (value : Option String) (rest : List String)
    → keep_live deal_id value rest ≡ (if is_there value then deal_id ∷ rest else rest)
unfolding keep_live is_there
keep_live_lem deal_id none rest = refl
keep_live_lem deal_id (some v) rest = refl

module _ {W J D : Type 0} ⦃s : Server W⦄ (json : Json J D) (d : BookServer s) where
  open d use {value_at}

  -- The deals whose payload is there, in the list's order.
  pub live : W → List String → List String
  unfolding is_there
  live w [] = []
  live w (deal_id ∷ deal_ids) =
      let rest = live w deal_ids in
      if is_there (value_at w (position_key deal_id)) then deal_id ∷ rest else rest

  survivors-live :
      (w : W) (m : Dict String) (deal_ids : List String)
      → All (λ i. lookup (position_key i) m ≡ value_at w (position_key i)) deal_ids
      → survivors deal_ids m ≡ live w deal_ids
  unfolding survivors live
  survivors-live w m [] h = refl
  survivors-live w m (i ∷ deal_ids) h =
      rw (h.0, survivors-live w m deal_ids h.1)
        (keep_live_lem i (value_at w (position_key i)) (live w deal_ids))

  all_asked :
      (w : W) (all deal_ids : List String)
      → ((k : String) → Among k (map position_key deal_ids) → Among k all)
      → All
          (λ i.
            lookup (position_key i) (zip_present all (map (value_at w) all))
            ≡ value_at w (position_key i))
          deal_ids
  all_asked w all [] sub = tt
  all_asked w all (i ∷ deal_ids) sub = (
    zip_lookup_asked (value_at w) (position_key i) all (sub (position_key i) (inl refl)),
    all_asked w all deal_ids (λ k h. sub k (inr h)),
  )

  -- The reply of the MGET keeps exactly the deals that are there.
  multiple_live :
      (w w' : W) (m : Dict String) (deal_id : String) (deal_ids : List String)
      → get_multiple (map position_key (deal_id ∷ deal_ids)) w ≡ (done m, w')
      → survivors (deal_id ∷ deal_ids) m ≡ live w (deal_id ∷ deal_ids)
  unfolding get_multiple
  multiple_live w w' m deal_id deal_ids h =
      let keys = map position_key (deal_id ∷ deal_ids) in
      let (vs, e, f) =
        >>=-eq-done (s.exec_optionals (("MGET" ∷ keys) ∷ []))
          (λ (vs : List (Option String)). co_return (zip_present keys vs)) w m w' h in
      let zipped : zip_present keys vs ≡ m = cc in
      survivors-live w m (deal_id ∷ deal_ids) (
        subst
          (λ m'.
            All (λ i. lookup (position_key i) m' ≡ value_at w (position_key i))
              (deal_id ∷ deal_ids))
          (ap (λ (v : List (Option String)). zip_present keys v) (sym (d.mget_reads keys w vs e))
            ∙ zipped)
          (all_asked w keys (deal_id ∷ deal_ids) (λ k a. a)))

  -- What is written for a list of deals: an empty one is deleted.
  abbrev pub rewritten : List String → Option String
  rewritten [] = none
  rewritten (deal_id ∷ deal_ids) = some (encode_position_list json (deal_id ∷ deal_ids))

  rewrite-rewritten :
      (c : SyncRedisClient) (strategy_id : String) (deal_ids : List String) (w : W)
      → (rewrite_list json strategy_id deal_ids c w).0 ≡ true
      → book json d (rewrite_list json strategy_id deal_ids c w).2 strategy_id ≡ rewritten deal_ids
  unfolding rewrite_list got_through delete_key
  rewrite-rewritten c strategy_id (x ∷ xs) w = stored json d c strategy_id (x ∷ xs) w
  rewrite-rewritten c strategy_id [] w = by_value (run c (delete_key key) "" w).0.value refl
    where
      key : String
      key = position_list_key strategy_id

      raw : Op W ℤ
      raw = s.exec_number (("DEL" ∷ key ∷ []) ∷ [])

      by_value :
          (v : Option Bool)
          → (run c (delete_key key) "" w).0.value ≡ v
          → got_through v ≡ true
          → value_at (run c (delete_key key) "" w).2 key ≡ none
      by_value none e h = absurd (ground arith)
      by_value (some b) e h =
          let o = run-value c (delete_key key) "" w b e in
          let (n, q, f) =
            >>=-eq-done raw (λ (x : ℤ). co_return (ltb_ℤ (pos 0) x)) w b
              (run c (delete_key key) "" w).2 o in
          let same : (raw w).1 ≡ (run c (delete_key key) "" w).2 = cc in
          rw (← same) (d.del_removes key w n q)

  -- What a refresh that reports success left, by the state of the list before.
  abbrev pub Refreshed : W → W → String → ListState → Type 0
  Refreshed w w' strategy_id failed = ⊥
  Refreshed w w' strategy_id missing = book json d w' strategy_id ≡ book json d w strategy_id
  Refreshed w w' strategy_id (ok deal_ids) =
      book json d w' strategy_id ≡ rewritten (live w deal_ids)

  live-same :
      (w w' : W) (deal_ids : List String)
      → ((k : String) → value_at w k ≡ value_at w' k)
      → live w deal_ids ≡ live w' deal_ids
  unfolding live
  live-same w w' [] same = refl
  live-same w w' (i ∷ deal_ids) same = rw (same (position_key i), live-same w w' deal_ids same)

  refreshed-Refreshed :
      (strategy_id : String) (state : ListState) (c : SyncRedisClient) (w w₁ : W)
      → ((k : String) → value_at w₁ k ≡ value_at w k)
      → (refreshed json strategy_id state c w₁).0 ≡ true
      → Refreshed w (refreshed json strategy_id state c w₁).2 strategy_id state
  unfolding refreshed kept live
  refreshed-Refreshed strategy_id failed c w w₁ same = λ h. absurd (ground arith)
  refreshed-Refreshed strategy_id missing c w w₁ same = λ h. same (position_list_key strategy_id)
  refreshed-Refreshed strategy_id (ok []) c w w₁ same = rewrite-rewritten c strategy_id [] w₁
  refreshed-Refreshed strategy_id (ok (i ∷ deal_ids)) c w w₁ same = by_value r.0.value refl
    where
      r : Ran (Dict String) × SyncRedisClient × W
      r = run c (get_multiple (map position_key (i ∷ deal_ids))) "" w₁

      by_value :
          (v : Option (Dict String))
          → r.0.value ≡ v
          → (kept json strategy_id (i ∷ deal_ids) v r.1 r.2).0 ≡ true
          → book json d (kept json strategy_id (i ∷ deal_ids) v r.1 r.2).2 strategy_id
            ≡ rewritten (live w (i ∷ deal_ids))
      by_value none e h = absurd (ground arith)
      by_value (some m) e h =
          rewrite-rewritten r.1 strategy_id (survivors (i ∷ deal_ids) m) r.2 h
          ∙ ap rewritten (
              multiple_live w₁ r.2 m i deal_ids
                (run-value c (get_multiple (map position_key (i ∷ deal_ids))) "" w₁ m e)
              ∙ live-same w₁ w (i ∷ deal_ids) same)

  -- A refresh that reports success found the list in a known state. A missing one is still missing.
  -- Else the list is now the deals of it whose payloads are there, in the same order, and is deleted
  -- when there are none.
  pub refresh_position_list-Refreshed :
      (c : SyncRedisClient) (strategy_id : String) (w : W)
      → (refresh_position_list json c strategy_id w).0 ≡ true
      → Refreshed w
          (refresh_position_list json c strategy_id w).2
          strategy_id
          (list_state json (some (book json d w strategy_id)))
  unfolding refresh_position_list
  refresh_position_list-Refreshed c strategy_id w h = elim (fetched json d c strategy_id w) [
    | inl unknown ↦ absurd (let q = rw unknown at h in ground arith)
    | inr (e, same) ↦ rw (← e) (
        refreshed-Refreshed strategy_id (fetch_list json c strategy_id w).0
          (fetch_list json c strategy_id w).1 w (fetch_list json c strategy_id w).2 same h)
  ]
