-- ===== src/Queue/RunQueue/Priority.antt =====
-- Which run a worker sees first.
use backtesting_engine_cpp.Prelude.{
  ◌≡◌, ◌⊎◌, inl, inr, refl, List, [], ◌∷◌, String, Option, none, some, negsuc, arith, sym,
}
use backtesting_engine_cpp.Redis.{Server, Attempt, Op, done, raised, co_return, resume}
use backtesting_engine_cpp.Redis.Bind.{>>=-eq-done, resume-co_return}
use backtesting_engine_cpp.Redis.Decimal.{to_string_ℤ}
use backtesting_engine_cpp.Redis.Operations.{list_index}
use backtesting_engine_cpp.Queue.Keys.{run_queues}
use backtesting_engine_cpp.Queue.RunQueue.{
  PeekedRun, peek_queue_tail, peek_queues, peek_run_tail, as_peeked, or_else,
}

abbrev pub last : List String → Option String
last [] = none
last (x ∷ []) = some x
last (x ∷ y ∷ xs) = last (y ∷ xs)

abbrev pub read_tail : {W : Type 0} → Server W → String → Op W (Option String)
read_tail s key = s.exec_optional (("LINDEX" ∷ key ∷ to_string_ℤ (negsuc 0) ∷ []) ∷ [])

-- What Redis documents of LINDEX with index -1: the last element of the list, which stays.
pub record RunLists {W : Type 0} (s : Server W) : Type 0 where
  pub list_at : W → String → List String
  pub tail_read :
      (key : String) (w : W) (v : Option String)
      → (read_tail s key w).0 ≡ done v
      → v ≡ last (list_at w key)
  pub tail_keeps : (key k : String) (w : W) → list_at (read_tail s key w).1 k ≡ list_at w k

last-none : (xs : List String) → none ≡ last xs → xs ≡ []
last-none [] h = refl
last-none (x ∷ []) h = absurd (ground arith)
last-none (x ∷ y ∷ xs) h = absurd (let q = last-none (y ∷ xs) h in ground arith)

module _ {W : Type 0} ⦃s : Server W⦄ (d : RunLists s) where
  open d use {list_at}

  -- What is peeked at the queues in this order: the tail of the first that is not empty, if there is
  -- one.
  abbrev pub Peeks : List String → W → Option PeekedRun → Type 0
  Peeks [] w r = r ≡ none
  Peeks (key ∷ keys) w r =
      ((descriptor : String) × (last (list_at w key) ≡ some descriptor)
        × (r ≡ some (record { queue_key = key; descriptor_b64 = descriptor })))
      ⊎ ((list_at w key ≡ []) × Peeks keys w r)

  Peeks-same :
      (keys : List String) (w w' : W) (r : Option PeekedRun)
      → ((k : String) → list_at w k ≡ list_at w' k)
      → Peeks keys w r
      → Peeks keys w' r
  Peeks-same [] w w' r same h = h
  Peeks-same (key ∷ keys) w w' r same (inl (x, e, q)) = inl (x, rw (← same key) e, q)
  Peeks-same (key ∷ keys) w w' r same (inr (e, h)) =
      inr (rw (← same key) e, Peeks-same keys w w' r same h)

  -- The tail of one queue, from the reply.
  tail_peeked :
      (key : String) (w : W) (p : Option PeekedRun)
      → (peek_queue_tail key w).0 ≡ done p
      → (v : Option String) × ((read_tail s key w).0 ≡ done v) × (p ≡ as_peeked key v)
  unfolding peek_queue_tail list_index
  tail_peeked key w p = answer (read_tail s key w)
    where
      answer :
          (r : Attempt (Option String) × W)
          → (resume (λ (v : Option String). co_return (as_peeked key v)) r.0 r.1).0 ≡ done p
          → (v : Option String) × (r.0 ≡ done v) × (p ≡ as_peeked key v)
      answer (done v, u) h = (v, refl, ground arith)
      answer (raised x, u) h = absurd (ground arith)

  tail_same : (key k : String) (w : W) → list_at (peek_queue_tail key w).1 k ≡ list_at w k
  unfolding peek_queue_tail list_index
  tail_same key k w =
      rw (resume-co_return (as_peeked key) (read_tail s key w).0 (read_tail s key w).1)
        (d.tail_keeps key k w)

  peek_queues-Peeks :
      (keys : List String) (w w' : W) (r : Option PeekedRun)
      → peek_queues keys w ≡ (done r, w')
      → Peeks keys w r
  unfolding peek_queues or_else
  peek_queues-Peeks [] w w' r h = ground arith
  peek_queues-Peeks (key ∷ keys) w w' r h =
      let (p, e, f) = >>=-eq-done (peek_queue_tail key) (or_else (peek_queues keys)) w r w' h in
      let (v, read, q) = tail_peeked key w p e in
      by_reply (peek_queues-Peeks keys (peek_queue_tail key w).1 w' r) v (d.tail_read key w v read)
        (rw q at f)
    where
      by_reply :
          (peek_queues keys (peek_queue_tail key w).1 ≡ (done r, w')
            → Peeks keys (peek_queue_tail key w).1 r)
          → (v : Option String) → v ≡ last (list_at w key)
          → or_else (peek_queues keys) (as_peeked key v) (peek_queue_tail key w).1 ≡ (done r, w')
          → Peeks (key ∷ keys) w r
      by_reply rest none e f = inr (
        last-none (list_at w key) e,
        Peeks-same keys (peek_queue_tail key w).1 w r (λ k. tail_same key k w) (rest f),
      )
      by_reply rest (some x) e f = inl (x, sym e, ground arith)

  -- A peek that returns gives the oldest run of the first queue, in the order of `RUN_QUEUES`, that
  -- has one, and nothing when all are empty.
  pub peek_run_tail-Peeks :
      (w w' : W) (r : Option PeekedRun) → peek_run_tail w ≡ (done r, w') → Peeks run_queues w r
  unfolding peek_run_tail
  peek_run_tail-Peeks w w' r h = peek_queues-Peeks run_queues w w' r h
