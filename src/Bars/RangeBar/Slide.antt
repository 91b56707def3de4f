-- ===== src/Bars/RangeBar/Slide.antt =====
-- The deques of a range series (source/shared/utilities/rangeBarBuilder.cppm) as its ticks come in.
use backtesting_engine_cpp.Prelude.{
  ℕ, suc, ◌+◌, ◌-◌, ◌^◌, ◌≤◌, ◌<◌, ◌≡◌, refl, sym, ap, ◌∙◌, ◌⊎◌, inl, inr, Bool, true, false, List,
  [], ◌∷◌, ◌++◌, ltb, leb, arith, length, drop, length-append, length-drop, All, Bool-cases,
}
use backtesting_engine_cpp.Prelude.{ℤ, ◌≤ℤ◌, leb_ℤ, wrap64}
use backtesting_engine_cpp.Bars.Window.{Entry, push_back, pop_front_while}
use backtesting_engine_cpp.Bars.Window.Extreme.{
  Passes, unpassed, Ages, Fresh, pop_front-Fresh, unpassed-snoc, unpassed-pop_front, Bounds, Has,
}
use backtesting_engine_cpp.Bars.RangeBar.{max_passes, min_passes, feed_deque}

pub leb_ℤ_refl : (a : ℤ) → leb_ℤ a a ≡ true
leb_ℤ_refl a = ground arith

pub leb_ℤ_trans : (a b c : ℤ) → leb_ℤ a b ≡ true → leb_ℤ b c ≡ true → leb_ℤ a c ≡ true
leb_ℤ_trans a b c h k = ground arith

pub leb_ℤ_total : (a b : ℤ) → leb_ℤ a b ≡ false → leb_ℤ b a ≡ true
leb_ℤ_total a b h = ground arith

abbrev pub highest_first : Passes
highest_first = record {
  passes = max_passes;
  refl_passes = leb_ℤ_refl;
  trans_passes = leb_ℤ_trans;
  total_passes = leb_ℤ_total;
}

abbrev pub lowest_first : Passes
lowest_first = record {
  passes = min_passes;
  refl_passes = leb_ℤ_refl;
  trans_passes = λ a b c h k. leb_ℤ_trans c b a k h;
  total_passes = λ a b h. leb_ℤ_total b a h;
}

-- One of the prices.
abbrev pub Occurs : ℤ → List ℤ → Type 0
Occurs p [] = ⊥
Occurs p (x ∷ xs) = (x ≡ p) ⊎ Occurs p xs

-- Prices under consecutive indices.
unfoldable pub numbered : ℕ → List ℤ → List (Entry ℕ)
numbered k [] = []
numbered k (p ∷ ps) = record { stamp = k; price = p } ∷ numbered (suc k) ps

-- The last `w` of a list.
abbrev pub last_of {ℓ} : {A : Type ℓ} → ℕ → List A → List A
last_of w xs = drop (length xs - w) xs

numbered-snoc :
    (k : ℕ) (ps : List ℤ) (p : ℤ)
    → numbered k (ps ++ p ∷ []) ≡ numbered k ps ++ record { stamp = k + length ps; price = p } ∷ []
unfolding numbered
numbered-snoc k [] p =
    let e : k ≡ k + 0 = omega arith in ap (λ n. record { stamp = n; price = p } ∷ []) e
numbered-snoc k (q ∷ ps) p =
    let e : suc k + length ps ≡ k + suc (length ps) = omega arith in
    ap (λ l. record { stamp = k; price = q } ∷ l)
      (numbered-snoc (suc k) ps p
        ∙ ap (λ n. numbered (suc k) ps ++ record { stamp = n; price = p } ∷ []) e)

abbrev gone : ℕ → ℕ → ℕ → Bool
gone w index i = leb (wrap64 (i + w)) index

-- Entries of later stamps than the last that expires.
numbered-Fresh :
    (w index k : ℕ) (ps : List ℤ)
    → k + length ps + w < 2 ^ 64
    → index < k + w
    → Fresh (gone w index) (numbered k ps)
unfolding numbered
numbered-Fresh w index k [] bound h = tt
numbered-Fresh w index k (p ∷ ps) bound h =
    (ground arith, numbered-Fresh w index (suc k) ps (omega arith) (omega arith))

numbered-Ages :
    (w index k : ℕ) (ps : List ℤ) → k + length ps + w < 2 ^ 64 → Ages (gone w index) (numbered k ps)
unfolding numbered
numbered-Ages w index k [] bound = tt
numbered-Ages w index k (p ∷ ps) bound = (
  elim (Bool-cases (gone w index k)) [
    | inl old ↦ inl old
    | inr fresh ↦ inr (fresh, numbered-Fresh w index (suc k) ps (omega arith) (ground arith))
  ],
  numbered-Ages w index (suc k) ps (omega arith),
)

last_of-short {ℓ} : {A : Type ℓ} (w : ℕ) (xs : List A) → length xs ≤ w → last_of w xs ≡ xs
last_of-short w xs h = let e : length xs - w ≡ 0 = omega arith in rw e refl

last_of-drop {ℓ} :
    {A : Type ℓ} (w : ℕ) (x : A) (xs : List A) → w ≤ length xs → last_of w (x ∷ xs) ≡ last_of w xs
last_of-drop w x xs h = let e : suc (length xs) - w ≡ suc (length xs - w) = omega arith in rw e refl

-- What expiry leaves of the entries `es` at `index`: the prices `l`, under consecutive indices.
record SlidesTo (w index : ℕ) (es : List (Entry ℕ)) (l : List ℤ) : Type 0 where
  from : ℕ
  ends : from + length l ≡ index + 1
  short : length l ≤ w
  popped : pop_front_while (gone w index) es ≡ numbered from l

module _ (w index k : ℕ) (p : ℤ) (hw : 0 < w) (bound : index + w + 2 < 2 ^ 64) where
  slide_room :
      (ps : List ℤ)
      → k + length ps ≡ index
      → length ps < w
      → SlidesTo w index (numbered k (ps ++ p ∷ [])) (ps ++ p ∷ [])
  slide_room ps ends room = record {
    from = k;
    ends = omega (arith, length-append ps (p ∷ []));
    short = omega (arith, length-append ps (p ∷ []));
    popped = pop_front-Fresh (gone w index) (numbered k (ps ++ p ∷ [])) (
        numbered-Fresh w index k (ps ++ p ∷ []) (omega (arith, length-append ps (p ∷ [])))
          (omega arith));
  }

  slide_full :
      (q : ℤ) (qs : List ℤ)
      → k + suc (length qs) ≡ index
      → suc (length qs) ≡ w
      → SlidesTo w index (numbered k (q ∷ qs ++ p ∷ [])) (qs ++ p ∷ [])
  unfolding numbered pop_front_while
  slide_full q qs ends full = record {
    from = suc k;
    ends = omega (arith, length-append qs (p ∷ []));
    short = omega (arith, length-append qs (p ∷ []));
    popped = rw head_gone (
        pop_front-Fresh (gone w index) (numbered (suc k) (qs ++ p ∷ [])) (
          numbered-Fresh w index (suc k) (qs ++ p ∷ []) (omega (arith, length-append qs (p ∷ [])))
            (omega arith)));
  }
    where
      head_gone : gone w index k ≡ true
      head_gone = ground arith

  -- A tick slides the window on by one price.
  slide :
      (ps : List ℤ)
      → k + length ps ≡ index
      → length ps ≤ w
      → SlidesTo w index (numbered k (ps ++ p ∷ [])) (last_of w (ps ++ p ∷ []))
  slide [] ends short = rw (last_of-short w (p ∷ []) (omega arith)) (slide_room [] ends hw)
  slide (q ∷ qs) ends short = elim (Bool-cases (ltb (suc (length qs)) w)) [
    | inl room ↦
        rw (last_of-short w (q ∷ qs ++ p ∷ []) (ground (arith, length-append qs (p ∷ []))))
          (slide_room (q ∷ qs) ends (ground arith))
    | inr full ↦
        rw
          (
            last_of-drop w q (qs ++ p ∷ []) (ground (arith, length-append qs (p ∷ []))),
            last_of-short w (qs ++ p ∷ []) (ground (arith, length-append qs (p ∷ []))),
          )
          (slide_full q qs ends (ground arith))
  ]

-- A deque of a series that has seen the prices `xs`.
pub record Holds (o : Passes) (w : ℕ) (xs : List ℤ) (deque : List (Entry ℕ)) : Type 0 where
  pub from : ℕ
  pub ends : from + length (last_of w xs) ≡ length xs + 1
  pub held : deque ≡ unpassed o (numbered from (last_of w xs))

last_of-snoc :
    (w : ℕ) (xs : List ℤ) (p : ℤ)
    → 0 < w
    → last_of w (last_of w xs ++ p ∷ []) ≡ last_of w (xs ++ p ∷ [])
last_of-snoc w [] p hw = rw (last_of-short {A = ℤ} w [] (omega arith))
last_of-snoc w (x ∷ xs) p hw = elim (Bool-cases (leb (suc (length xs)) w)) [
  | inl fits ↦ rw (last_of-short w (x ∷ xs) (ground arith))
  | inr over ↦
      rw
        (
          last_of-drop w x xs (ground arith),
          last_of-drop w x (xs ++ p ∷ []) (ground (arith, length-append xs (p ∷ []))),
        )
        (last_of-snoc w xs p hw)
]

pub feed_deque-Holds :
    (o : Passes) (w : ℕ) (xs : List ℤ) (p : ℤ) (deque : List (Entry ℕ))
    → 0 < w
    → length xs + w + 3 < 2 ^ 64
    → Holds o w xs deque
    → Holds o w (xs ++ p ∷ []) (feed_deque o.passes w (length xs + 1) p deque)
unfolding feed_deque
feed_deque-Holds o w xs p deque hw bound h =
    let ps = last_of w xs in
    let index = length xs + 1 in
    let s =
      slide w index h.from p hw (omega arith) ps h.ends
        (omega (arith, length-drop (length xs - w) xs)) in
    record {
      from = s.from;
      ends = rw (← last_of-snoc w xs p hw) (omega (arith, s.ends, length-append xs (p ∷ [])));
      held =
          ap
            (λ d.
              pop_front_while (gone w index)
                (push_back o.passes (record { stamp = index; price = p }) d))
            h.held
          ∙ ap (pop_front_while (gone w index))
              (sym (unpassed-snoc o (numbered h.from ps) (record { stamp = index; price = p })))
          ∙ ap
              (λ n.
                pop_front_while (gone w index)
                  (unpassed o (numbered h.from ps ++ record { stamp = n; price = p } ∷ [])))
              (sym h.ends)
          ∙ ap (λ l. pop_front_while (gone w index) (unpassed o l))
              (sym (numbered-snoc h.from ps p))
          ∙ unpassed-pop_front o (gone w index) (numbered h.from (ps ++ p ∷ [])) (
              numbered-Ages w index h.from (ps ++ p ∷ [])
                (omega (arith, length-append ps (p ∷ []), length-drop (length xs - w) xs, h.ends)))
          ∙ ap (unpassed o) s.popped
          ∙ ap (λ l. unpassed o (numbered s.from l)) (last_of-snoc w xs p hw);
    }

pub Holds-nil : (o : Passes) (w : ℕ) → Holds o w [] []
Holds-nil o w =
    let nothing : last_of {A = ℤ} w [] ≡ [] = last_of-short {A = ℤ} w [] (omega arith) in
    record {
      from = 1;
      ends = rw nothing refl;
      held = rw nothing (unfold numbered unpassed in refl);
    }

pub numbered-Has : (k : ℕ) (ps : List ℤ) (p : ℤ) → Has p (numbered k ps) → Occurs p ps
unfolding numbered
numbered-Has k [] p h = h
numbered-Has k (q ∷ ps) p (inl e) = inl e
numbered-Has k (q ∷ ps) p (inr h) = inr (numbered-Has (suc k) ps p h)

pub numbered-above :
    (k : ℕ) (ps : List ℤ) (p : ℤ) → Bounds highest_first p (numbered k ps) → All (λ x. x ≤ℤ p) ps
unfolding numbered
numbered-above k [] p h = tt
numbered-above k (q ∷ ps) p h = (ground arith, numbered-above (suc k) ps p h.1)

pub numbered-below :
    (k : ℕ) (ps : List ℤ) (p : ℤ) → Bounds lowest_first p (numbered k ps) → All (λ x. p ≤ℤ x) ps
unfolding numbered
numbered-below k [] p h = tt
numbered-below k (q ∷ ps) p h = (ground arith, numbered-below (suc k) ps p h.1)
