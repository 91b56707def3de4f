-- ===== src/Search/Texts.antt =====
-- `std::string_view::operator<` on symbols: lexicographic, by the codes of the characters (for
-- UTF-8 the order of the bytes is the order of the code points).
use Prim.Native.Char.{code}
use text.Mathlib.TextEquality.{Char-path}
use backtesting_engine_cpp.Prelude.{
  ℕ, ◌≡◌, refl, Bool, true, false, List, [], ◌∷◌, arith, ltb, if◌then◌else◌, String,
}

abbrev pub codes : String → List ℕ
codes String.[] = []
codes (String.◌∷◌ c s) = code c ∷ codes s

-- Lexicographic order of code sequences.
unfoldable pub lex : List ℕ → List ℕ → Bool
lex xs [] = false
lex [] (y ∷ ys) = true
lex (x ∷ xs) (y ∷ ys) = if ltb x y then true else if ltb y x then false else lex xs ys

unfoldable pub str_lt : String → String → Bool
unfolding lex
str_lt s t = lex (codes s) (codes t)

lex_irrefl : (xs : List ℕ) → lex xs xs ≡ false
unfolding lex
lex_irrefl [] = refl
lex_irrefl (x ∷ xs) = ground (arith, lex_irrefl xs)

lex_trans : (xs ys zs : List ℕ) → lex xs ys ≡ true → lex ys zs ≡ true → lex xs zs ≡ true
unfolding lex
lex_trans xs ys [] p q = absurd (ground arith)
lex_trans xs [] (z ∷ zs) p q = absurd (ground arith)
lex_trans [] (y ∷ ys) (z ∷ zs) p q = refl
lex_trans (x ∷ xs) (y ∷ ys) (z ∷ zs) p q = ground (arith, lex_trans xs ys zs)

lex_connex : (xs ys : List ℕ) → lex xs ys ≡ false → lex ys xs ≡ false → xs ≡ ys
unfolding lex
lex_connex [] [] p q = refl
lex_connex [] (y ∷ ys) p q = absurd (ground arith)
lex_connex (x ∷ xs) [] p q = absurd (ground arith)
lex_connex (x ∷ xs) (y ∷ ys) p q = ground (arith, lex_connex xs ys)

codes_inj : (s t : String) → codes s ≡ codes t → s ≡ t
codes_inj String.[] String.[] e = refl
codes_inj String.[] (String.◌∷◌ d t) e = cc
codes_inj (String.◌∷◌ c s) String.[] e = cc
codes_inj (String.◌∷◌ c s) (String.◌∷◌ d t) e = ground (arith, Char-path c d, codes_inj s t)

pub str_lt_irrefl : (s : String) → str_lt s s ≡ false
unfolding str_lt
str_lt_irrefl s = lex_irrefl (codes s)

pub str_lt_trans : (s t u : String) → str_lt s t ≡ true → str_lt t u ≡ true → str_lt s u ≡ true
unfolding str_lt
str_lt_trans s t u = lex_trans (codes s) (codes t) (codes u)

pub str_lt_connex : (s t : String) → str_lt s t ≡ false → str_lt t s ≡ false → s ≡ t
unfolding str_lt
str_lt_connex s t p q = codes_inj s t (lex_connex (codes s) (codes t) p q)
