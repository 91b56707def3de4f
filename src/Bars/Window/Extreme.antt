-- ===== src/Bars/Window/Extreme.antt =====
-- What a monotonic deque is of its window (the deques of
-- source/shared/utilities/rangeBarBuilder.cppm): the entries that no later entry passes.
use backtesting_engine_cpp.Prelude.{
  ◌≡◌, refl, sym, ap, ◌∙◌, ◌⊎◌, inl, inr, Bool, true, false, List, [], ◌∷◌, ◌++◌, if◌then◌else◌,
  Bool-cases, arith, All,
}
use backtesting_engine_cpp.Prelude.{ℤ}
use backtesting_engine_cpp.Bars.Window.{Entry, pop_back_while, push_back, pop_front_while}

-- The order of a deque: `passes a b` if a newer price b takes the place of an older a.
pub record Passes : Type 0 where
  pub passes : ℤ → ℤ → Bool
  pub refl_passes : (a : ℤ) → passes a a ≡ true
  pub trans_passes : (a b c : ℤ) → passes a b ≡ true → passes b c ≡ true → passes a c ≡ true
  pub total_passes : (a b : ℤ) → passes a b ≡ false → passes b a ≡ true

-- Where no stamp expires before an older one.
module _ {ℓ} {S : Type ℓ} (expired : S → Bool) where
  abbrev pub Fresh : List (Entry S) → Type 0
  Fresh = All (λ (f : Entry S). expired f.stamp ≡ false)

  abbrev pub Ages : List (Entry S) → Type 0
  Ages [] = Unit
  Ages (e ∷ es) = ((expired e.stamp ≡ true) ⊎ Fresh (e ∷ es)) × Ages es

  pub pop_front-Fresh : (es : List (Entry S)) → Fresh es → pop_front_while expired es ≡ es
  unfolding pop_front_while
  pop_front-Fresh [] h = refl
  pop_front-Fresh (e ∷ es) h = rw h.0 refl

  pub pop_front-old :
      (e : Entry S) (es : List (Entry S))
      → expired e.stamp ≡ true
      → pop_front_while expired (e ∷ es) ≡ pop_front_while expired es
  unfolding pop_front_while
  pop_front-old e es h = rw h refl

module _ {ℓ} {S : Type ℓ} where
  -- The front entry has the property.
  abbrev pub Front : (Entry S → Type 0) → List (Entry S) → Type 0
  Front P [] = ⊥
  Front P (e ∷ es) = P e

  abbrev pub Has : ℤ → List (Entry S) → Type 0
  Has p [] = ⊥
  Has p (e ∷ es) = (e.price ≡ p) ⊎ Has p es

module _ {ℓ} {S : Type ℓ} (o : Passes) where
  open o use {passes, refl_passes, trans_passes, total_passes}

  -- An entry in front of those that no later one passes: it stays unless the first passes it.
  keep : Entry S → List (Entry S) → List (Entry S)
  keep e [] = e ∷ []
  keep e (f ∷ fs) = if passes e.price f.price then f ∷ fs else e ∷ f ∷ fs

  -- The entries that no later one passes.
  unfoldable pub unpassed : List (Entry S) → List (Entry S)
  unfolding keep
  unpassed [] = []
  unpassed (e ∷ es) = keep e (unpassed es)

  -- The price passes every price of the window.
  abbrev pub Bounds : ℤ → List (Entry S) → Type 0
  Bounds p [] = Unit
  Bounds p (e ∷ es) = (passes e.price p ≡ true) × Bounds p es

  pop_cases :
      (gone : ℤ → Bool) (f : Entry S) (fs : List (Entry S))
      → ((pop_back_while gone (f ∷ fs) ≡ []) × (gone f.price ≡ true))
        ⊎ ((gs : List (Entry S)) × (pop_back_while gone (f ∷ fs) ≡ f ∷ gs))
  unfolding pop_back_while
  pop_cases gone f fs = rest (pop_back_while gone fs) refl
    where
      rest :
          (r : List (Entry S))
          → pop_back_while gone fs ≡ r
          → ((pop_back_while gone (f ∷ fs) ≡ []) × (gone f.price ≡ true))
            ⊎ ((gs : List (Entry S)) × (pop_back_while gone (f ∷ fs) ≡ f ∷ gs))
      rest [] q = elim (Bool-cases (gone f.price)) [
        | inl t ↦ inl (rw q (rw t refl), t)
        | inr n ↦ inr ([], rw q (rw n refl))
      ]
      rest (h ∷ hs) q = inr (h ∷ hs, rw q refl)

  -- `keep-push_back` on entries, by what the pops leave of them.
  module _ (d e f : Entry S) (fs : List (Entry S)) where
    push_gone :
        pop_back_while (λ p. passes p e.price) (f ∷ fs) ≡ []
        → passes f.price e.price ≡ true
        → keep d (push_back passes e (f ∷ fs)) ≡ push_back passes e (keep d (f ∷ fs))
    unfolding keep push_back
    push_gone q gone = elim (Bool-cases (passes d.price f.price)) [
      | inl over ↦ rw (over, q) (rw (trans_passes d.price f.price e.price over gone))
      | inr under ↦ rw (under, q) (last (passes d.price e.price))
    ]
      where
        last :
            (b : Bool) → (if b then e ∷ [] else d ∷ e ∷ []) ≡ (if b then [] else d ∷ []) ++ e ∷ []
        last true = refl
        last false = refl

    push_kept :
        (gs : List (Entry S))
        → pop_back_while (λ p. passes p e.price) (f ∷ fs) ≡ f ∷ gs
        → keep d (push_back passes e (f ∷ fs)) ≡ push_back passes e (keep d (f ∷ fs))
    unfolding keep push_back
    push_kept gs q = elim (Bool-cases (passes d.price f.price)) [
      | inl over ↦ rw (over, q) (rw over refl)
      | inr under ↦ rw (under, q) (rw under refl)
    ]

  keep-push_back :
      (d e : Entry S) (r : List (Entry S))
      → keep d (push_back passes e r) ≡ push_back passes e (keep d r)
  keep-push_back d e [] = unfold keep push_back pop_back_while in ground arith
  keep-push_back d e (f ∷ fs) = elim (pop_cases (λ p. passes p e.price) f fs) [
    | inl (q, gone) ↦ push_gone d e f fs q gone
    | inr (gs, q) ↦ push_kept d e f fs gs q
  ]

  pub unpassed-snoc :
      (es : List (Entry S)) (e : Entry S)
      → unpassed (es ++ e ∷ []) ≡ push_back passes e (unpassed es)
  unfolding unpassed
  unpassed-snoc [] e = unfold keep push_back in refl
  unpassed-snoc (d ∷ es) e = ap (keep d) (unpassed-snoc es e) ∙ keep-push_back d e (unpassed es)

  keep-Fresh :
      (expired : S → Bool) (e : Entry S) (es : List (Entry S))
      → Fresh expired (e ∷ es)
      → Fresh expired (keep e es)
  unfolding keep
  keep-Fresh expired e [] h = h
  keep-Fresh expired e (f ∷ fs) h = elim (Bool-cases (passes e.price f.price)) [
    | inl over ↦ rw over h.1
    | inr under ↦ rw under h
  ]

  unpassed-Fresh :
      (expired : S → Bool) (es : List (Entry S)) → Fresh expired es → Fresh expired (unpassed es)
  unfolding unpassed
  unpassed-Fresh expired [] h = tt
  unpassed-Fresh expired (e ∷ es) h =
      keep-Fresh expired e (unpassed es) (h.0, unpassed-Fresh expired es h.1)

  pop_front-keep :
      (expired : S → Bool) (e : Entry S) (es : List (Entry S))
      → expired e.stamp ≡ true
      → pop_front_while expired (keep e es) ≡ pop_front_while expired es
  unfolding keep pop_front_while
  pop_front-keep expired e [] h = rw h refl
  pop_front-keep expired e (f ∷ fs) h = elim (Bool-cases (passes e.price f.price)) [
    | inl over ↦ rw over refl
    | inr under ↦ rw under (rw h refl)
  ]

  -- Expiry drops a prefix of the window, and those that no later one passes survive it.
  pub unpassed-pop_front :
      (expired : S → Bool) (es : List (Entry S))
      → Ages expired es
      → pop_front_while expired (unpassed es) ≡ unpassed (pop_front_while expired es)
  unfolding unpassed
  unpassed-pop_front expired [] a = unfold pop_front_while in refl
  unpassed-pop_front expired (e ∷ es) (inl old, a) =
      pop_front-keep expired e (unpassed es) old
      ∙ unpassed-pop_front expired es a
      ∙ ap unpassed (sym (pop_front-old expired e es old))
  unpassed-pop_front expired (e ∷ es) (inr fresh, a) =
      pop_front-Fresh expired (unpassed (e ∷ es)) (unpassed-Fresh expired (e ∷ es) fresh)
      ∙ ap unpassed (sym (pop_front-Fresh expired (e ∷ es) fresh))

  -- A price of the window that passes all of them.
  abbrev pub IsExtreme : List (Entry S) → Entry S → Type 0
  IsExtreme es e = Bounds e.price es × Has e.price es

  Bounds-trans : (p q : ℤ) (es : List (Entry S)) → passes p q ≡ true → Bounds p es → Bounds q es
  Bounds-trans p q [] h b = tt
  Bounds-trans p q (e ∷ es) h b = (trans_passes e.price p q b.0 h, Bounds-trans p q es h b.1)

  keep-Front :
      (e : Entry S) (es r : List (Entry S))
      → ((es ≡ []) × (r ≡ [])) ⊎ Front (IsExtreme es) r
      → Front (IsExtreme (e ∷ es)) (keep e r)
  unfolding keep
  keep-Front e es [] (inl (n, _)) = rw n ((refl_passes e.price, tt), inl refl)
  keep-Front e es [] (inr h) = absurd h
  keep-Front e es (f ∷ fs) (inl (_, n)) = absurd (ground arith)
  keep-Front e es (f ∷ fs) (inr (b, i)) = elim (Bool-cases (passes e.price f.price)) [
    | inl over ↦ rw over ((over, b), inr i)
    | inr under ↦ rw under (
      (refl_passes e.price, Bounds-trans f.price e.price es (total_passes e.price f.price under) b),
      inl refl,
    )
  ]

  -- The front of the entries that no later one passes is an extreme of the window.
  pub unpassed-Front :
      (e : Entry S) (es : List (Entry S)) → Front (IsExtreme (e ∷ es)) (unpassed (e ∷ es))
  unfolding unpassed
  unpassed-Front e [] = keep-Front e [] [] (inl (refl, refl))
  unpassed-Front e (f ∷ fs) = keep-Front e (f ∷ fs) (unpassed (f ∷ fs)) (inr (unpassed-Front f fs))
