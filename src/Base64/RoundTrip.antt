-- ===== src/Base64/RoundTrip.antt =====
-- Decoding what was encoded.
use backtesting_engine_cpp.Prelude.{
  ℕ, zero, suc, ◌+◌, ◌-◌, ◌*◌, ◌/◌, ◌%◌, ◌^◌, ◌<◌, ◌≡◌, refl, Bool, true, false, ◌&&◌, [], ◌∷◌,
  ◌++◌, Option, none, some, ltb, ◌==◌, ==_iff, not, length, get_elem?, All, arith,
}
use mathlib.Core.List.{append_assoc}
use backtesting_engine_cpp.Base64.{
  Bytes, b64_encode, b64_decode, b64_char, b64_index, encode_three, encode_one, encode_two,
  decode_groups, decode_tail, decode_parts, group_bytes, behind, joined, with_tail, bit, is_pad,
}

-- Every value below a bound passes a test.
holds_below : ℕ → (ℕ → Bool) → Bool
holds_below zero test = true
holds_below (suc n) test = holds_below n test && test n

holds_below_lem :
    (n : ℕ) (test : ℕ → Bool) (x : ℕ) → x < n → holds_below n test ≡ true → test x ≡ true
unfolding holds_below
holds_below_lem zero test x l h = absurd (omega arith)
holds_below_lem (suc n) test x l h = ground (arith, holds_below_lem n test x)

b64_index-b64_char : (x : ℕ) → x < 64 → b64_index (b64_char x) ≡ x
unfolding b64_index b64_char holds_below
b64_index-b64_char x h =
    (==_iff (b64_index (b64_char x)) x).0
      (holds_below_lem 64 (λ y. b64_index (b64_char y) == y) x h refl)

-- No character of the alphabet pads.
b64_char-ne-pad : (x : ℕ) → x < 64 → (b64_char x == b'=') ≡ false
unfolding b64_char holds_below
b64_char-ne-pad x h = ground (arith, holds_below_lem 64 (λ y. not (b64_char y == b'=')) x h refl)

-- A number from its four digits to the base 64.
regroup :
    (n : ℕ) → n / 2 ^ 18 * 2 ^ 18 + n / 2 ^ 12 % 64 * 2 ^ 12 + n / 2 ^ 6 % 64 * 2 ^ 6 + n % 64 ≡ n
regroup n = omega arith

three_bytes :
    (a b c n : ℕ)
    → a < 256
    → b < 256
    → c < 256
    → n ≡ a * 2 ^ 16 + b * 2 ^ 8 + c
    → group_bytes
        (b64_char (n / 2 ^ 18))
        (b64_char (n / 2 ^ 12 % 64))
        (b64_char (n / 2 ^ 6 % 64))
        (b64_char (n % 64))
      ≡ a ∷ b ∷ c ∷ []
unfolding group_bytes
three_bytes a b c n ha hb hc e =
    let top : n / 2 ^ 16 ≡ a = omega arith in
    let middle : n / 2 ^ 8 % 256 ≡ b = omega arith in
    let low : n % 256 ≡ c = omega arith in
    rw (
      b64_index-b64_char (n / 2 ^ 18) (omega arith),
      b64_index-b64_char (n / 2 ^ 12 % 64) (omega arith),
      b64_index-b64_char (n / 2 ^ 6 % 64) (omega arith),
      b64_index-b64_char (n % 64) (omega arith),
      regroup n,
      top,
      middle,
      low,
    )

-- The tail of a text that ends in a padded group.
decode_one : (a : ℕ) → a < 256 → decode_tail true false (encode_one a) ≡ some (a ∷ [])
unfolding decode_tail encode_one
decode_one a h =
    let byte : (a / 4 * 2 ^ 18 + a * 16 % 64 * 2 ^ 12) / 2 ^ 16 ≡ a = omega arith in
    rw (
      b64_index-b64_char (a / 4) (omega arith),
      b64_index-b64_char (a * 16 % 64) (omega arith),
      byte,
    )

decode_two :
    (a b : ℕ) → a < 256 → b < 256 → decode_tail true true (encode_two a b) ≡ some (a ∷ b ∷ [])
unfolding decode_tail encode_two
decode_two a b ha hb =
    let n = a * 2 ^ 8 + b in
    let first : (n / 2 ^ 10 % 64 * 2 ^ 18 + n / 2 ^ 4 % 64 * 2 ^ 12) / 2 ^ 16 ≡ a = omega arith in
    let second : (n / 2 ^ 10 % 64 * 2 ^ 18 + n / 2 ^ 4 % 64 * 2 ^ 12 + n * 4 % 64 * 2 ^ 6)
          / 2 ^ 8
          % 256
        ≡ b =
      omega arith in
    rw (
      b64_index-b64_char (n / 2 ^ 10 % 64) (omega arith),
      b64_index-b64_char (n / 2 ^ 4 % 64) (omega arith),
      b64_index-b64_char (n * 4 % 64) (omega arith),
      first,
      second,
    )

-- The last characters of a text stay the last behind a whole group.
last_behind :
    (p q r t : ℕ) (text : Bytes)
    → 0 < length text
    → get_elem? (p ∷ q ∷ r ∷ t ∷ text) (suc (suc (suc (suc (length text)))) - 1)
      ≡ get_elem? text (length text - 1)
last_behind p q r t [] h = absurd (omega arith)
last_behind p q r t (x ∷ xs) h =
    let long : suc (suc (suc (suc (suc (length xs))))) - 1 ≡ suc (suc (suc (suc (length xs)))) =
      omega arith in
    let short : suc (length xs) - 1 ≡ length xs = omega arith in rw (long, short)

next_behind :
    (p q r t : ℕ) (text : Bytes)
    → 1 < length text
    → get_elem? (p ∷ q ∷ r ∷ t ∷ text) (suc (suc (suc (suc (length text)))) - 2)
      ≡ get_elem? text (length text - 2)
next_behind p q r t [] h = absurd (omega arith)
next_behind p q r t (x ∷ []) h = absurd (omega arith)
next_behind p q r t (x ∷ y ∷ xs) h =
    let long : suc (suc (suc (suc (suc (suc (length xs)))))) - 2
        ≡ suc (suc (suc (suc (length xs)))) =
      omega arith in
    let short : suc (suc (length xs)) - 2 ≡ length xs = omega arith in rw (long, short)

last_of_group :
    (p q r t : ℕ) (text : Bytes) (pad1 : Bool) (k : ℕ)
    → (t == b'=') ≡ false
    → length text ≡ 4 * (k + bit pad1)
    → (0 < length text → is_pad (get_elem? text (length text - 1)) ≡ pad1)
    → is_pad (get_elem? (p ∷ q ∷ r ∷ t ∷ text) (suc (suc (suc (suc (length text)))) - 1)) ≡ pad1
last_of_group p q r t [] true k plain size last = absurd (omega arith)
last_of_group p q r t [] false k plain size last = plain
last_of_group p q r t (x ∷ xs) pad1 k plain size last =
    rw (last_behind p q r t (x ∷ xs) (omega arith)) (last (omega arith))

long_enough :
    (text : Bytes) (pad1 : Bool) (k : ℕ)
    → pad1 ≡ true
    → length text ≡ 4 * (k + bit pad1)
    → 1 < length text
long_enough text true k p size = omega arith
long_enough text false k p size = absurd (cc)

-- How a text ends that decodes to `plain`: its whole groups and its padding, as the decoder tells
-- them apart.
record Ends (plain text : Bytes) : Type 0 where
  groups : ℕ
  pad1 : Bool
  pad2 : Bool
  size : length text ≡ 4 * (groups + bit pad1)
  last_pad : 0 < length text → is_pad (get_elem? text (length text - 1)) ≡ pad1
  next_pad : pad1 ≡ true → is_pad (get_elem? text (length text - 2)) ≡ not pad2
  parts_decode : decode_parts pad1 pad2 groups text ≡ some plain

with_tail-behind :
    (pad1 pad2 : Bool) (bytes plain : Bytes) (r : Option (Bytes × Bytes))
    → with_tail pad1 pad2 r ≡ some plain
    → with_tail pad1 pad2 (behind bytes r) ≡ some (bytes ++ plain)
with_tail-behind pad1 pad2 bytes plain none h = absurd (ground arith)
with_tail-behind pad1 pad2 bytes plain (some (out, after)) h =
    by_tail (decode_tail pad1 pad2 after) h
  where
    by_tail :
        (t : Option Bytes)
        → joined out t ≡ some plain
        → joined (bytes ++ out) t ≡ some (bytes ++ plain)
    by_tail none h = absurd (ground arith)
    by_tail (some more) h = let q : out ++ more ≡ plain = cc in rw (append_assoc bytes out more, q)

one_more :
    (pad1 pad2 : Bool) (k a b c : ℕ) (text plain : Bytes)
    → a < 256
    → b < 256
    → c < 256
    → decode_parts pad1 pad2 k text ≡ some plain
    → decode_parts pad1 pad2 (suc k) (encode_three a b c ++ text) ≡ some (a ∷ b ∷ c ∷ plain)
unfolding decode_parts encode_three
one_more pad1 pad2 k a b c text plain ha hb hc h =
    rw (three_bytes a b c (a * 2 ^ 16 + b * 2 ^ 8 + c) ha hb hc refl)
      (with_tail-behind pad1 pad2 (a ∷ b ∷ c ∷ []) plain (decode_groups k text) h)

ends : (plain : Bytes) → All (λ a. a < 256) plain → Ends plain (b64_encode plain)
unfolding b64_encode
ends [] h = record {
  groups = 0;
  pad1 = false;
  pad2 = false;
  size = omega arith;
  last_pad = λ l. absurd (omega arith);
  next_pad = λ l. absurd (cc);
  parts_decode = unfold decode_parts in refl;
}
ends (a ∷ []) h = record {
  groups = 0;
  pad1 = true;
  pad2 = false;
  size = unfold encode_one in omega arith;
  last_pad = λ l. unfold encode_one in refl;
  next_pad = λ l. unfold encode_one in refl;
  parts_decode = unfold decode_parts in rw (decode_one a h.0);
}
ends (a ∷ b ∷ []) h = record {
  groups = 0;
  pad1 = true;
  pad2 = true;
  size = unfold encode_two in omega arith;
  last_pad = λ l. unfold encode_two in refl;
  next_pad = λ l. unfold encode_two in b64_char-ne-pad ((a * 2 ^ 8 + b) * 4 % 64) (omega arith);
  parts_decode = unfold decode_parts in rw (decode_two a b h.0 h.1.0);
}
ends (a ∷ b ∷ c ∷ rest) h =
    let e = ends rest h.1.1.1 in
    let n = a * 2 ^ 16 + b * 2 ^ 8 + c in
    let text = b64_encode rest in
    record {
      groups = suc e.groups;
      pad1 = e.pad1;
      pad2 = e.pad2;
      size = unfold encode_three in omega (arith, e.size);
      last_pad = λ l.
          unfold encode_three in
          last_of_group (b64_char (n / 2 ^ 18)) (b64_char (n / 2 ^ 12 % 64))
            (b64_char (n / 2 ^ 6 % 64)) (b64_char (n % 64)) text e.pad1 e.groups
            (b64_char-ne-pad (n % 64) (omega arith)) e.size e.last_pad;
      next_pad = λ p.
          unfold encode_three in
          rw
            (next_behind (b64_char (n / 2 ^ 18)) (b64_char (n / 2 ^ 12 % 64))
              (b64_char (n / 2 ^ 6 % 64)) (b64_char (n % 64)) text
              (long_enough text e.pad1 e.groups p e.size))
            (e.next_pad p);
      parts_decode =
          one_more e.pad1 e.pad2 e.groups a b c text rest h.0 h.1.0 h.1.1.0 e.parts_decode;
    }

not-not : (b : Bool) → not (not b) ≡ b
not-not true = refl
not-not false = refl

no_tail :
    (pad2 : Bool) (plain : Bytes) (r : Option (Bytes × Bytes))
    → with_tail false pad2 r ≡ some plain
    → with_tail false false r ≡ some plain
unfolding decode_tail
no_tail pad2 plain none h = h
no_tail pad2 plain (some (out, after)) h = h

decodes :
    (plain text : Bytes) (pad1 pad2 : Bool) (k : ℕ)
    → length text ≡ 4 * (k + bit pad1)
    → (0 < length text → is_pad (get_elem? text (length text - 1)) ≡ pad1)
    → (pad1 ≡ true → is_pad (get_elem? text (length text - 2)) ≡ not pad2)
    → decode_parts pad1 pad2 k text ≡ some plain
    → b64_decode text ≡ some plain
unfolding b64_decode decode_parts
decodes plain [] true pad2 k size last next h = absurd (omega arith)
decodes plain [] false pad2 zero size last next h = h
decodes plain [] false pad2 (suc k) size last next h = absurd (omega arith)
decodes plain (c ∷ []) true pad2 k size last next h = absurd (omega arith)
decodes plain (c ∷ []) false pad2 k size last next h = absurd (omega arith)
decodes plain (c ∷ d ∷ text) true pad2 k size last next h =
    let m = suc (suc (length text)) in
    let whole : (m % 4 == 0) ≡ true = ground arith in
    let short : ltb 2 (m % 4) ≡ false = ground arith in
    let count : (m - 1) / 4 ≡ k = omega arith in
    rw (whole, last (omega arith), short, next refl, not-not pad2, count) h
decodes plain (c ∷ d ∷ text) false pad2 k size last next h =
    let m = suc (suc (length text)) in
    let whole : (m % 4 == 0) ≡ true = ground arith in
    let count : (m - 0) / 4 ≡ k = omega arith in
    rw (whole, last (omega arith), count) (no_tail pad2 plain (decode_groups k (c ∷ d ∷ text)) h)

-- Decoding the code of any bytes gives the bytes back, and reads nothing outside the text.
pub b64_decode-b64_encode :
    (bytes : Bytes) → All (λ a. a < 256) bytes → b64_decode (b64_encode bytes) ≡ some bytes
b64_decode-b64_encode bytes h =
    let e = ends bytes h in
    decodes bytes (b64_encode bytes) e.pad1 e.pad2 e.groups e.size e.last_pad e.next_pad
      e.parts_decode
