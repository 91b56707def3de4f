-- ===== src/Positions/Manager/Book.antt =====
-- The book that the operations leave.
use backtesting_engine_cpp.Prelude.{
  ◌≡◌, ◌⊎◌, inl, inr, refl, Bool, true, false, List, [], ◌∷◌, ◌++◌, map, String, Option, none, some,
  eq_iff, arith, Bool-cases, ℤ, ap,
}
use backtesting_engine_cpp.Redis.{Server, Attempt, Op, done, co_return}
use backtesting_engine_cpp.Redis.Bind.{>>=-eq-done}
use backtesting_engine_cpp.Redis.KeyValues.{get_value}
use backtesting_engine_cpp.Redis.Client.{SyncRedisClient, run}
use backtesting_engine_cpp.Redis.Client.Breaker.{run-value}
use backtesting_engine_cpp.Redis.Operations.{always, get_string, set_string, has_value}
use backtesting_engine_cpp.Positions.Codec.{Json, encode_position_list, position_list_key}
use backtesting_engine_cpp.Positions.Manager.{
  ListState, ok, missing, failed, list_state, fetch_list, store_list, was_stored, contains,
  add_position, added,
}

-- What Redis documents of GET, MGET, SET with no options and DEL.
pub record BookServer {W : Type 0} (s : Server W) : Type 0 where
  pub value_at : W → String → Option String
  pub get_reads :
      (key : String) (w : W) (v : Option String)
      → (get_value s key w).0 ≡ done v
      → v ≡ value_at w key
  pub get_keeps : (key k : String) (w : W) → value_at (get_value s key w).1 k ≡ value_at w k
  pub mget_reads :
      (keys : List String) (w : W) (vs : List (Option String))
      → (s.exec_optionals (("MGET" ∷ keys) ∷ []) w).0 ≡ done vs
      → vs ≡ map (value_at w) keys
  pub set_stores :
      (key value : String) (w : W) (v : String)
      → (s.exec_optional (("SET" ∷ key ∷ value ∷ []) ∷ []) w).0 ≡ done (some v)
      → value_at (s.exec_optional (("SET" ∷ key ∷ value ∷ []) ∷ []) w).1 key ≡ some value
  pub del_removes :
      (key : String) (w : W) (n : ℤ)
      → (s.exec_number (("DEL" ∷ key ∷ []) ∷ []) w).0 ≡ done n
      → value_at (s.exec_number (("DEL" ∷ key ∷ []) ∷ []) w).1 key ≡ none

-- Some key of the list is this one.
abbrev pub Among : String → List String → Type 0
Among k [] = ⊥
Among k (x ∷ xs) = (x ≡ k) ⊎ Among k xs

contains-Among :
    (k : String) (xs : List String)
    → (contains k xs ≡ true → Among k xs) × (contains k xs ≡ false → ¬ Among k xs)
unfolding contains
contains-Among k [] = (λ h. absurd (ground arith), λ h a. a)
contains-Among k (x ∷ xs) = ground (arith, eq_iff x k, contains-Among k xs)

module _ {W J D : Type 0} ⦃s : Server W⦄ (json : Json J D) (d : BookServer s) where
  open d use {value_at}

  -- The list as GET would find it.
  abbrev pub book : W → String → Option String
  book w strategy_id = value_at w (position_list_key strategy_id)

  -- A fetch gives the state of the list, or that it is unknown.
  pub fetched :
      (c : SyncRedisClient) (strategy_id : String) (w : W)
      → ((fetch_list json c strategy_id w).0 ≡ failed)
        ⊎ (((fetch_list json c strategy_id w).0 ≡ list_state json (some (book w strategy_id)))
            × ((k : String) → value_at (fetch_list json c strategy_id w).2 k ≡ value_at w k))
  unfolding fetch_list list_state get_string
  fetched c strategy_id w = by_value (run c (get_value s key) "" w).0.value refl
    where
      key : String
      key = position_list_key strategy_id

      by_value :
          (v : Option (Option String))
          → (run c (get_value s key) "" w).0.value ≡ v
          → (list_state json v ≡ failed)
            ⊎ ((list_state json v ≡ list_state json (some (book w strategy_id)))
                × ((k : String) → value_at (run c (get_value s key) "" w).2 k ≡ value_at w k))
      by_value none e = inl refl
      by_value (some v) e =
          let o = run-value c (get_value s key) "" w v e in
          inr (
            ap (λ (u : Option String). list_state json (some u))
                (d.get_reads key w v (ap (λ (p : Attempt (Option String) × W). p.0) o)),
            λ k. rw o at (d.get_keeps key k w),
          )

  -- A list that was stored is the book.
  pub stored :
      (c : SyncRedisClient) (strategy_id : String) (deal_ids : List String) (w : W)
      → (store_list json c strategy_id deal_ids w).0 ≡ true
      → book (store_list json c strategy_id deal_ids w).2 strategy_id
        ≡ some (encode_position_list json deal_ids)
  unfolding store_list was_stored set_string
  stored c strategy_id deal_ids w = by_value (run c set "" w).0.value refl
    where
      key : String
      key = position_list_key strategy_id

      text : String
      text = encode_position_list json deal_ids

      set : Op W Bool
      set = set_string key text always none

      raw : Op W (Option String)
      raw = s.exec_optional (("SET" ∷ key ∷ text ∷ []) ∷ [])

      by_reply :
          (o : Option String) (w' : W)
          → (raw w).0 ≡ done o
          → co_return (has_value o) (raw w).1 ≡ (done true, w')
          → value_at w' key ≡ some text
      by_reply none w' e f = absurd (ground arith)
      by_reply (some v) w' e f =
          let same : (raw w).1 ≡ w' = cc in rw (← same) (d.set_stores key text w v e)

      by_value :
          (v : Option Bool)
          → (run c set "" w).0.value ≡ v
          → was_stored v ≡ true
          → value_at (run c set "" w).2 key ≡ some text
      by_value none e h = absurd (ground arith)
      by_value (some false) e h = absurd (ground arith)
      by_value (some true) e h =
          let o = run-value c set "" w true e in
          let (r, q, f) =
            >>=-eq-done raw (λ (x : Option String). co_return (has_value x)) w true
              (run c set "" w).2 o in
          by_reply r (run c set "" w).2 q f

  -- What an addition that reports success left, by the state of the list before.
  abbrev pub Added : W → W → String → String → ListState → Type 0
  Added w w' strategy_id deal_id failed = ⊥
  Added w w' strategy_id deal_id missing =
      book w' strategy_id ≡ some (encode_position_list json (deal_id ∷ []))
  Added w w' strategy_id deal_id (ok deal_ids) =
      (Among deal_id deal_ids × (book w' strategy_id ≡ book w strategy_id))
      ⊎ ((¬ Among deal_id deal_ids)
          × (book w' strategy_id ≡ some (encode_position_list json (deal_ids ++ deal_id ∷ []))))

  added-Added :
      (strategy_id deal_id : String) (state : ListState) (c : SyncRedisClient) (w w₁ : W)
      → book w₁ strategy_id ≡ book w strategy_id
      → (added json strategy_id deal_id state c w₁).0 ≡ true
      → Added w (added json strategy_id deal_id state c w₁).2 strategy_id deal_id state
  unfolding added
  added-Added strategy_id deal_id failed c w w₁ same = λ h. absurd (ground arith)
  added-Added strategy_id deal_id missing c w w₁ same = stored c strategy_id (deal_id ∷ []) w₁
  added-Added strategy_id deal_id (ok deal_ids) c w w₁ same =
      elim (Bool-cases (contains deal_id deal_ids)) [
        | inl t ↦ rw t (λ h. inl ((contains-Among deal_id deal_ids).0 t, same))
        | inr f ↦ rw f (λ h. inr (
          (contains-Among deal_id deal_ids).1 f,
          stored c strategy_id (deal_ids ++ deal_id ∷ []) w₁ h,
        ))
      ]

  -- An addition that reports success found the list in a known state. If it was missing, the list is
  -- now the deal alone; if the deal stood in it, the list is as it was; else it is the list with the
  -- deal at its end.
  pub add_position-Added :
      (c : SyncRedisClient) (strategy_id deal_id : String) (w : W)
      → (add_position json c strategy_id deal_id w).0 ≡ true
      → Added w
          (add_position json c strategy_id deal_id w).2
          strategy_id
          deal_id
          (list_state json (some (book w strategy_id)))
  unfolding add_position
  add_position-Added c strategy_id deal_id w h = elim (fetched c strategy_id w) [
    | inl unknown ↦ absurd (let q = rw unknown at h in ground arith)
    | inr (e, same) ↦ rw (← e) (
        added-Added strategy_id deal_id (fetch_list json c strategy_id w).0
          (fetch_list json c strategy_id w).1 w (fetch_list json c strategy_id w).2
          (same (position_list_key strategy_id)) h)
  ]
