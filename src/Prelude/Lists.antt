-- ===== src/Prelude/Lists.antt =====
-- Lists measured and indexed by native numbers, under the library's names.
use Prim.Native.Nat.{ℕ, zero, suc, ◌+◌, ◌-◌}
use mathlib.Core.Path.{◌≡◌, refl, ap, subst}
use mathlib.Core.List.{List, [], ◌∷◌, ◌++◌, map}
use mathlib.Core.Option.{Option, none, some}
use native.Mathlib.Omega.{arith}

module _ {ℓ} {A : Type ℓ} where
  abbrev pub length : List A → ℕ
  length [] = 0
  length (x ∷ xs) = suc (length xs)

  abbrev pub get_elem? : List A → ℕ → Option A
  get_elem? [] i = none
  get_elem? (x ∷ xs) zero = some x
  get_elem? (x ∷ xs) (suc i) = get_elem? xs i

  abbrev pub drop : ℕ → List A → List A
  drop zero xs = xs
  drop (suc n) [] = []
  drop (suc n) (x ∷ xs) = drop n xs

  -- Every element has the property.
  abbrev pub All {κ} : (A → Type κ) → List A → Type κ
  All P [] = Unit
  All P (x ∷ xs) = P x × All P xs

  pub length-append : (xs ys : List A) → length (xs ++ ys) ≡ length xs + length ys
  length-append [] ys = omega arith
  length-append (x ∷ xs) ys = omega (arith, length-append xs ys)

  pub length-drop : (n : ℕ) (xs : List A) → length (drop n xs) ≡ length xs - n
  length-drop zero xs = omega arith
  length-drop (suc n) [] = omega arith
  length-drop (suc n) (x ∷ xs) = omega (arith, length-drop n xs)

module _ {ℓ} {A : Type ℓ} where
  pub length-map {κ} : {B : Type κ} (f : A → B) (xs : List A) → length (map f xs) ≡ length xs
  length-map f [] = refl
  length-map f (x ∷ xs) = ap suc (length-map f xs)

-- What holds of every element holds of the one at an index.
pub All-get_elem? {ℓ κ} :
    {A : Type ℓ} (P : A → Type κ) (xs : List A) (i : ℕ) (a : A)
    → All P xs
    → get_elem? xs i ≡ some a
    → P a
All-get_elem? P [] i a h e = absurd (ground arith)
All-get_elem? P (x ∷ xs) zero a h e = let q : x ≡ a = cc in subst P q h.0
All-get_elem? P (x ∷ xs) (suc i) a h e = All-get_elem? P xs i a h.1 e

-- Tables with the same keys have the same key at an index.
pub same_keys-get_elem? {ℓ κ μ} :
    {K : Type ℓ} {V : Type κ} {W : Type μ} (xs : List (K × V)) (ys : List (K × W)) (i : ℕ) (k : K)
    (v : V)
    → map (λ (r : K × V). r.0) xs ≡ map (λ (r : K × W). r.0) ys
    → get_elem? xs i ≡ some (k, v)
    → (w : W) × (get_elem? ys i ≡ some (k, w))
same_keys-get_elem? [] ys i k v e h = absurd (ground arith)
same_keys-get_elem? (x ∷ xs) [] i k v e h = absurd (ground arith)
same_keys-get_elem? ((k₁, v₁) ∷ xs) ((k₂, w) ∷ ys) zero k v e h =
    let same : k₂ ≡ k = cc in (w, ap (λ l. some (l, w)) same)
same_keys-get_elem? {K = K} {V = V} {W = W} ((k₁, v₁) ∷ xs) ((k₂, w) ∷ ys) (suc i) k v e h =
    let tails : map (λ (r : K × V). r.0) xs ≡ map (λ (r : K × W). r.0) ys = cc in
    same_keys-get_elem? xs ys i k v tails h
