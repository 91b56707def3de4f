-- ===== src/Base64.antt =====
-- source/shared/utilities/base64.cpp: the coding of run descriptors and strategies on the queues.
-- A byte is a number below 256; the bit operations are written out as sums, quotients and remainders
-- of numbers whose bits are apart.
pub mod RoundTrip
use backtesting_engine_cpp.Prelude.{
  ℕ, zero, suc, ◌+◌, ◌-◌, ◌*◌, ◌/◌, ◌%◌, ◌^◌, ◌<◌, ◌≡◌, refl, Bool, true, false, ◌&&◌, ◌||◌, List,
  [], ◌∷◌, ◌++◌, Option, none, some, ltb, ◌==◌, not, if◌then◌else◌, length, get_elem?, drop,
}
use backtesting_engine_cpp.Search.Texts.{codes}

abbrev pub Bytes : Type 0
Bytes = List ℕ

abbrev b64_alphabet : Bytes
b64_alphabet = codes "ABCDEFGHIJKLMNOPQRSTUVWXYZabcdefghijklmnopqrstuvwxyz0123456789+/"

or_zero : Option ℕ → ℕ
or_zero none = 0
or_zero (some n) = n

-- `B64chars[x]` for x below 64.
b64_char : ℕ → ℕ
unfolding or_zero
b64_char x = or_zero (get_elem? b64_alphabet x)

abbrev b64_index_rows : List ℕ
b64_index_rows =
    0 ∷ 0 ∷ 0 ∷ 0 ∷ 0 ∷ 0 ∷ 0 ∷ 0 ∷ 0 ∷ 0 ∷ 0 ∷ 0 ∷ 0 ∷ 0 ∷ 0 ∷ 0 ∷ 0 ∷ 0 ∷ 0 ∷ 0 ∷ 0 ∷ 0 ∷ 0 ∷ 0
    ∷ 0 ∷ 0 ∷ 0 ∷ 0 ∷ 0 ∷ 0 ∷ 0 ∷ 0 ∷ 0 ∷ 0 ∷ 0 ∷ 0 ∷ 0 ∷ 0 ∷ 0 ∷ 0 ∷ 0 ∷ 0 ∷ 0 ∷ 62 ∷ 63 ∷ 62 ∷ 62
    ∷ 63 ∷ 52 ∷ 53 ∷ 54 ∷ 55 ∷ 56 ∷ 57 ∷ 58 ∷ 59 ∷ 60 ∷ 61 ∷ 0 ∷ 0 ∷ 0 ∷ 0 ∷ 0 ∷ 0 ∷ 0 ∷ 0 ∷ 1 ∷ 2
    ∷ 3 ∷ 4 ∷ 5 ∷ 6 ∷ 7 ∷ 8 ∷ 9 ∷ 10 ∷ 11 ∷ 12 ∷ 13 ∷ 14 ∷ 15 ∷ 16 ∷ 17 ∷ 18 ∷ 19 ∷ 20 ∷ 21 ∷ 22
    ∷ 23 ∷ 24 ∷ 25 ∷ 0 ∷ 0 ∷ 0 ∷ 0 ∷ 63 ∷ 0 ∷ 26 ∷ 27 ∷ 28 ∷ 29 ∷ 30 ∷ 31 ∷ 32 ∷ 33 ∷ 34 ∷ 35 ∷ 36
    ∷ 37 ∷ 38 ∷ 39 ∷ 40 ∷ 41 ∷ 42 ∷ 43 ∷ 44 ∷ 45 ∷ 46 ∷ 47 ∷ 48 ∷ 49 ∷ 50 ∷ 51 ∷ []

-- `B64index[c]`; the entries that the array leaves out are 0.
b64_index : ℕ → ℕ
unfolding or_zero
b64_index c = or_zero (get_elem? b64_index_rows c)

-- The four characters of three bytes, and the padded ones of one and of two.
encode_three : ℕ → ℕ → ℕ → Bytes
unfolding b64_char
encode_three a b c =
    let n = a * 2 ^ 16 + b * 2 ^ 8 + c in
    b64_char (n / 2 ^ 18)
    ∷ b64_char (n / 2 ^ 12 % 64)
    ∷ b64_char (n / 2 ^ 6 % 64)
    ∷ b64_char (n % 64)
    ∷ []

encode_one : ℕ → Bytes
unfolding b64_char
encode_one a = b64_char (a / 4) ∷ b64_char (a * 16 % 64) ∷ b'=' ∷ b'=' ∷ []

encode_two : ℕ → ℕ → Bytes
unfolding b64_char
encode_two a b =
    let n = a * 2 ^ 8 + b in
    b64_char (n / 2 ^ 10 % 64) ∷ b64_char (n / 2 ^ 4 % 64) ∷ b64_char (n * 4 % 64) ∷ b'=' ∷ []

unfoldable pub b64_encode : Bytes → Bytes
unfolding encode_three encode_one encode_two
b64_encode [] = []
b64_encode (a ∷ []) = encode_one a
b64_encode (a ∷ b ∷ []) = encode_two a b
b64_encode (a ∷ b ∷ c ∷ rest) = encode_three a b c ++ b64_encode rest

-- A character of the text: its terminator is read as 0, and past it there is none.
char_at : Bytes → ℕ → Option ℕ
char_at [] zero = some 0
char_at [] (suc i) = none
char_at (c ∷ cs) zero = some c
char_at (c ∷ cs) (suc i) = char_at cs i

-- The three bytes of four characters.
group_bytes : ℕ → ℕ → ℕ → ℕ → Bytes
unfolding b64_index
group_bytes p q r t =
    let n = b64_index p * 2 ^ 18 + b64_index q * 2 ^ 12 + b64_index r * 2 ^ 6 + b64_index t in
    n / 2 ^ 16 ∷ n / 2 ^ 8 % 256 ∷ n % 256 ∷ []

abbrev behind : Bytes → Option (Bytes × Bytes) → Option (Bytes × Bytes)
behind bytes none = none
behind bytes (some (out, after)) = some (bytes ++ out, after)

-- The loop over whole groups: the bytes, and the text after them.
decode_groups : ℕ → Bytes → Option (Bytes × Bytes)
unfolding group_bytes
decode_groups zero text = some ([], text)
decode_groups (suc k) (p ∷ q ∷ r ∷ t ∷ rest) = behind (group_bytes p q r t) (decode_groups k rest)
decode_groups (suc k) text = none

-- The bytes of a padded group.
decode_tail : Bool → Bool → Bytes → Option Bytes
unfolding b64_index char_at
decode_tail false pad2 text = some []
decode_tail true pad2 text = elim (char_at text 0) [
  | none ↦ none
  | some p ↦ elim (char_at text 1) [
    | none ↦ none
    | some q ↦
        let n = b64_index p * 2 ^ 18 + b64_index q * 2 ^ 12 in
        elim pad2 [
          | false ↦ some (n / 2 ^ 16 ∷ [])
          | true ↦ elim (char_at text 2) [
            | none ↦ none
            | some r ↦ some (n / 2 ^ 16 ∷ (n + b64_index r * 2 ^ 6) / 2 ^ 8 % 256 ∷ [])
          ]
        ]
  ]
]

abbrev joined : Bytes → Option Bytes → Option Bytes
joined out none = none
joined out (some more) = some (out ++ more)

abbrev with_tail : Bool → Bool → Option (Bytes × Bytes) → Option Bytes
with_tail pad1 pad2 none = none
with_tail pad1 pad2 (some (out, after)) = joined out (decode_tail pad1 pad2 after)

decode_parts : Bool → Bool → ℕ → Bytes → Option Bytes
unfolding decode_groups decode_tail
decode_parts pad1 pad2 groups text = with_tail pad1 pad2 (decode_groups groups text)

abbrev bit : Bool → ℕ
bit true = 1
bit false = 0

abbrev is_pad : Option ℕ → Bool
is_pad none = false
is_pad (some c) = c == b'='

-- `none` is a read outside the text. The second test of the padding reads before the text when it
-- has one character.
unfoldable pub b64_decode : Bytes → Option Bytes
unfolding decode_parts
b64_decode [] = some []
b64_decode (c ∷ []) = none
b64_decode (c ∷ d ∷ text) =
    let p : Bytes = c ∷ d ∷ text in
    let len = length p in
    let pad1 = not (len % 4 == 0) || is_pad (get_elem? p (len - 1)) in
    let pad2 = pad1 && (ltb 2 (len % 4) || not (is_pad (get_elem? p (len - 2)))) in
    decode_parts pad1 pad2 ((len - bit pad1) / 4) p

encodes : b64_encode (codes "light work.") ≡ codes "bGlnaHQgd29yay4="
unfolding b64_encode
encodes = refl

decodes : b64_decode (codes "bGlnaHQgd29yay4") ≡ some (codes "light work.")
unfolding b64_decode
decodes = refl
