-- ===== src/Redis/Decimal.antt =====
-- `std::to_string` of integers and `std::from_chars` of an `int`, as the Redis code uses them.
use Prim.Native.Nat.{◌≤◌}
pub mod RoundTrip
use Prim.Native.String.{◌++◌ as ◌+s◌}
use backtesting_engine_cpp.Prelude.{
  ℕ, zero, suc, ◌+◌, ◌-◌, ◌*◌, ◌/◌, ◌%◌, ◌^◌, ◌<◌, ◌≡◌, refl, List, [], ◌∷◌, String, Bool, true,
  false, ◌&&◌, Option, none, some, arith, ltb, leb, ◌==◌, if◌then◌else◌, ℤ, pos, negsuc, get_elem?,
}
use backtesting_engine_cpp.Search.Texts.{codes}

abbrev digits : List String
digits = "0" ∷ "1" ∷ "2" ∷ "3" ∷ "4" ∷ "5" ∷ "6" ∷ "7" ∷ "8" ∷ "9" ∷ []

digit : ℕ → String
digit d = elim (get_elem? digits d) [ some s ↦ s | none ↦ "" ]

-- A number has fewer digits than its value plus one, so this fuel is enough.
to_string_from : ℕ → ℕ → String
unfolding digit
to_string_from zero n = ""
to_string_from (suc fuel) n =
    let front = to_string_from fuel (n / 10) in
    if ltb n 10 then digit n else front +s digit (n % 10)

unfoldable pub to_string : ℕ → String
unfolding to_string_from
to_string n = to_string_from (suc n) n

unfoldable pub to_string_ℤ : ℤ → String
unfolding to_string
to_string_ℤ (pos n) = to_string n
to_string_ℤ (negsuc n) = "-" +s to_string (suc n)

is_digit : ℕ → Bool
is_digit c = leb b'0' c && leb c b'9'

-- The digits at the front of a text; `none` when there is none.
unfoldable pub read_digits : List ℕ → Option ℕ → Option ℕ
unfolding is_digit
read_digits [] acc = acc
read_digits (c ∷ s) acc =
    let sofar : ℕ = elim acc [ none ↦ 0 | some n ↦ n ] in
    let more = read_digits s (some (sofar * 10 + (c - b'0'))) in if is_digit c then more else acc

-- The value of the optional sign and the digits at the front, when it fits an `int`.
unfoldable pub from_chars_int : List ℕ → Option ℤ
unfolding read_digits
from_chars_int [] = none
from_chars_int (c ∷ s) =
    let negative : Option ℤ = elim (read_digits s none) [
      | some zero ↦ some (pos 0)
      | some (suc n) ↦ if leb (suc n) (2 ^ 31) then some (negsuc n) else none
      | none ↦ none
    ] in
    let plain : Option ℤ = elim (read_digits (c ∷ s) none) [
      | some n ↦ if ltb n (2 ^ 31) then some (pos n) else none
      | none ↦ none
    ] in
    if c == b'-' then negative else plain

prints : to_string 4070 ≡ "4070"
unfolding to_string
prints = refl

reads : from_chars_int (codes "-12x") ≡ some (negsuc 11)
unfolding from_chars_int
reads = refl
