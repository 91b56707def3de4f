-- ===== src/Examples/Documents.antt =====
-- A small document format in place of the JSON library: an array
-- of texts is each text's characters behind a mark, and a mark for its end.
use Prim.Native.Char.{Char, code}
use backtesting_engine_cpp.Prelude.{
  ℕ, false, List, [], ◌∷◌, map, String, Option, none, some, ◌==◌, if◌then◌else◌,
}
use backtesting_engine_cpp.Positions.Codec.{Json}

pub data Value : Type 0 where
  texts : List String → Value
  text : String → Value

abbrev pub marked : String → String → String
marked String.[] rest = String.◌∷◌ "e" rest
marked (String.◌∷◌ c t) rest = String.◌∷◌ "x" (String.◌∷◌ c (marked t rest))

abbrev pub dump : List String → String
dump [] = ""
dump (t ∷ ts) = marked t (dump ts)

abbrev pub next_text : Option (List String) → Option (List String)
next_text none = none
next_text (some ts) = some ("" ∷ ts)

abbrev pub next_char : Char → Option (List String) → Option (List String)
next_char c none = none
next_char c (some []) = none
next_char c (some (t ∷ ts)) = some (String.◌∷◌ c t ∷ ts)

abbrev pub load : String → Option (List String)
load String.[] = some []
load (String.◌∷◌ k String.[]) = if code k == b'e' then some ("" ∷ []) else none
load (String.◌∷◌ k (String.◌∷◌ c more)) =
    let ended = next_text (load (String.◌∷◌ c more)) in
    let goes_on = next_char c (load more) in if code k == b'e' then ended else goes_on

abbrev pub as_value : Option (List String) → Option Value
as_value none = none
as_value (some ts) = some (texts ts)

abbrev pub elements_of : Value → Option (List Value)
elements_of (texts ts) = some (map text ts)
elements_of (text t) = none

abbrev pub content : Value → Option String
content (texts ts) = none
content (text t) = some t

abbrev pub documents : Json Value ℕ
documents = record {
  parse = λ t. as_value (load t);
  elements = elements_of;
  is_object = λ j. false;
  find = λ j key. none;
  text_of = content;
  int32_of = λ j. none;
  int64_of = λ j. none;
  double_of = λ j. none;
  dump_texts = dump;
  format_double = λ n. "";
  zero_double = 0;
}
