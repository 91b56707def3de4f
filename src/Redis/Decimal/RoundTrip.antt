-- ===== src/Redis/Decimal/RoundTrip.antt =====
-- Reading back the decimal text of a number.
use mathlib.Core.List.{append_assoc, append-nil}
use text.Mathlib.TextLemmas.{nil-append, cons-append}
use backtesting_engine_cpp.Prelude.{
  ℕ, zero, suc, ◌+◌, ◌*◌, ◌/◌, ◌%◌, ◌<◌, ◌^◌, ◌≡◌, refl, List, [], ◌∷◌, ◌++◌, String, some, none,
  arith, ltb, Bool-cases, inl, inr, ◌+s◌, pos, Option,
}
use backtesting_engine_cpp.Search.Texts.{codes}
use backtesting_engine_cpp.Redis.Decimal.{to_string, from_chars_int, digit, to_string_from}
use backtesting_engine_cpp.Redis.Decimal.{read_digits}

pub codes-append : (s t : String) → codes (s +s t) ≡ codes s ++ codes t
codes-append String.[] t = rw nil-append
codes-append (String.◌∷◌ c s) t = rw (cons-append, codes-append s t)

codes-digit : (d : ℕ) → d < 10 → codes (digit d) ≡ (b'0' + d) ∷ []
unfolding digit
codes-digit zero h = refl
codes-digit (suc zero) h = refl
codes-digit (suc (suc zero)) h = refl
codes-digit (suc (suc (suc zero))) h = refl
codes-digit (suc (suc (suc (suc zero)))) h = refl
codes-digit (suc (suc (suc (suc (suc zero))))) h = refl
codes-digit (suc (suc (suc (suc (suc (suc zero)))))) h = refl
codes-digit (suc (suc (suc (suc (suc (suc (suc zero))))))) h = refl
codes-digit (suc (suc (suc (suc (suc (suc (suc (suc zero)))))))) h = refl
codes-digit (suc (suc (suc (suc (suc (suc (suc (suc (suc zero))))))))) h = refl
codes-digit (suc (suc (suc (suc (suc (suc (suc (suc (suc (suc d)))))))))) h = absurd (omega arith)

-- What the digits read so far amount to.
abbrev so_far : Option ℕ → ℕ
so_far none = 0
so_far (some n) = n

read_digit :
    (d n : ℕ) (rest : List ℕ) (acc : Option ℕ)
    → d < 10
    → so_far acc * 10 + d ≡ n
    → read_digits ((b'0' + d) ∷ rest) acc ≡ read_digits rest (some n)
unfolding read_digits
read_digit d n rest none h e = ground arith
read_digit d n rest (some k) h e = ground arith

read_digits-to_string_from :
    (fuel n : ℕ) (rest : List ℕ)
    → n < fuel
    → read_digits (codes (to_string_from fuel n) ++ rest) none ≡ read_digits rest (some n)
unfolding to_string_from
read_digits-to_string_from zero n rest h = absurd (omega arith)
read_digits-to_string_from (suc fuel) n rest h = elim (Bool-cases (ltb n 10)) [
  | inl one ↦
      rw (one, codes-digit n (ground arith)) (read_digit n n rest none (ground arith) (omega arith))
  | inr more ↦
      rw
        (
          more,
          codes-append (to_string_from fuel (n / 10)) (digit (n % 10)),
          codes-digit (n % 10) (omega arith),
          append_assoc (codes (to_string_from fuel (n / 10))) ((b'0' + n % 10) ∷ []) rest,
          read_digits-to_string_from fuel (n / 10) ((b'0' + n % 10) ∷ rest) (ground arith),
        )
        (read_digit (n % 10) n rest (some (n / 10)) (omega arith) (omega arith))
]

pub read_digits-to_string : (n : ℕ) → read_digits (codes (to_string n)) none ≡ some n
unfolding to_string read_digits
read_digits-to_string n =
    rw (← append-nil (codes (to_string_from (suc n) n)))
      (read_digits-to_string_from (suc n) n [] (omega arith))

from_digits :
    (l : List ℕ) (n : ℕ)
    → read_digits l none ≡ some n
    → n < 2 ^ 31
    → from_chars_int l ≡ some (pos n)
unfolding from_chars_int
from_digits [] n e h = absurd (ground arith)
from_digits (c ∷ s) n e h = ground arith

-- A number that fits an `int` is read back from its decimal text.
pub from_chars_int-to_string :
    (n : ℕ) → n < 2 ^ 31 → from_chars_int (codes (to_string n)) ≡ some (pos n)
from_chars_int-to_string n h = from_digits (codes (to_string n)) n (read_digits-to_string n) h
