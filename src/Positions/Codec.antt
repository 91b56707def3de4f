-- ===== src/Positions/Codec.antt =====
-- Keys and JSON of the book. nlohmann::json is a parameter: a type of parsed values and what the code
-- asks of them.
use backtesting_engine_cpp.Prelude.{
  Bool, ◌||◌, List, [], ◌∷◌, map, String, Option, none, some, ℤ, pos, str_eq, if◌then◌else◌, ◌+s◌,
}
use backtesting_engine_cpp.Redis.Decimal.{to_string_ℤ}

unfoldable pub position_list_key : String → String
position_list_key strategy_id = "PL#" +s strategy_id

unfoldable pub position_key : String → String
position_key deal_id = "PO#" +s deal_id

unfoldable pub history_position_key : String → String
history_position_key deal_id = "PH#" +s deal_id

unfoldable pub deal_receipt_key : String → String → String
deal_receipt_key deal_reference symbol = "DealId#" +s (deal_reference +s ("#" +s symbol))

-- `J` is a parsed value and `D` a double. `parse` gives `none` where the library throws; the readers
-- give `none` where the value is of another kind; `dump_texts` is `json(texts).dump()`.
pub record Json (J D : Type 0) : Type 0 where
  pub parse : String → Option J
  pub elements : J → Option (List J)
  pub is_object : J → Bool
  pub find : J → String → Option J
  pub text_of : J → Option String
  pub int32_of : J → Option ℤ
  pub int64_of : J → Option ℤ
  pub double_of : J → Option D
  pub dump_texts : List String → String
  pub format_double : D → String
  pub zero_double : D

pub record PositionRecord (D : Type 0) : Type 0 where
  pub deal_id : String
  pub deal_reference : String
  pub symbol : String
  pub epic : String
  pub direction : String
  pub size : D
  pub level : ℤ
  pub stop_level : ℤ
  pub limit_level : ℤ
  pub strategy_id : String
  pub strategy_name : String
  pub opened_at_micros : ℤ

pub record DealReceipt : Type 0 where
  pub strategy_id : String
  pub deal_id : String
  pub strategy_name : String

-- Every one, or nothing.
abbrev pub all_some : {A : Type 0} → List (Option A) → Option (List A)
all_some [] = some []
all_some (none ∷ xs) = none
all_some (some x ∷ xs) = elim (all_some xs) [ none ↦ none | some ys ↦ some (x ∷ ys) ]

module _ {J D : Type 0} (json : Json J D) where
  open json use {
    parse, elements, is_object, find, text_of, int32_of, int64_of, double_of, dump_texts,
    format_double, zero_double,
  }

  unfoldable pub encode_position_list : List String → String
  encode_position_list deal_ids = dump_texts deal_ids

  texts_of : Option (List J) → Option (List String)
  texts_of none = none
  texts_of (some items) = all_some (map text_of items)

  parsed_list : Option J → Option (List String)
  unfolding texts_of
  parsed_list none = none
  parsed_list (some j) = texts_of (elements j)

  -- A list of texts, and nothing else.
  unfoldable pub decode_position_list : String → Option (List String)
  unfolding parsed_list
  decode_position_list text = parsed_list (parse text)

  -- A member of the object that is of the kind wanted, or what stands in the record already.
  read : {A : Type 0} → (J → Option A) → J → String → A → A
  read of j key default = elim (find j key) [
    | none ↦ default
    | some item ↦ elim (of item) [ none ↦ default | some value ↦ value ]
  ]

  read_record : J → PositionRecord D
  unfolding read
  read_record j = record {
    deal_id = read text_of j "dealId" "";
    deal_reference = read text_of j "dealReference" "";
    symbol = read text_of j "symbol" "";
    epic = read text_of j "epic" "";
    direction = read text_of j "direction" "";
    size = read double_of j "size" zero_double;
    level = read int32_of j "level" (pos 0);
    stop_level = read int32_of j "stopLevel" (pos 0);
    limit_level = read int32_of j "limitLevel" (pos 0);
    strategy_id = read text_of j "strategyId" "";
    strategy_name = read text_of j "strategyName" "";
    opened_at_micros = read int64_of j "openedAt" (pos 0);
  }

  is_empty : String → Bool
  is_empty text = str_eq text ""

  -- A record needs a deal reference, a symbol and a direction.
  checked_record : PositionRecord D → Option (PositionRecord D)
  unfolding is_empty
  checked_record r =
      if (is_empty r.deal_reference || is_empty r.symbol) || is_empty r.direction
      then none
      else some r

  parsed_record : Option J → Option (PositionRecord D)
  unfolding read_record checked_record
  parsed_record none = none
  parsed_record (some j) = if is_object j then checked_record (read_record j) else none

  unfoldable pub decode_position_record : String → Option (PositionRecord D)
  unfolding parsed_record
  decode_position_record text = parsed_record (parse text)

  quoted : String → String → String
  quoted key value = "\"" +s (key +s ("\":\"" +s (value +s "\"")))

  plain : String → String → String
  plain key value = "\"" +s (key +s ("\":" +s value))

  abbrev comma : List String → String
  comma [] = ""
  comma (x ∷ []) = x
  comma (x ∷ y ∷ xs) = x +s ("," +s comma (y ∷ xs))

  -- The fields in the writer's order, with nothing escaped.
  unfoldable pub encode_position_record : PositionRecord D → String
  unfolding quoted plain to_string_ℤ
  encode_position_record r =
      "{"
      +s (comma (
            quoted "dealId" r.deal_id
            ∷ quoted "dealReference" r.deal_reference
            ∷ quoted "symbol" r.symbol
            ∷ quoted "epic" r.epic
            ∷ quoted "direction" r.direction
            ∷ plain "size" (format_double r.size)
            ∷ plain "level" (to_string_ℤ r.level)
            ∷ plain "stopLevel" (to_string_ℤ r.stop_level)
            ∷ plain "limitLevel" (to_string_ℤ r.limit_level)
            ∷ quoted "strategyId" r.strategy_id
            ∷ quoted "strategyName" r.strategy_name
            ∷ plain "openedAt" (to_string_ℤ r.opened_at_micros)
            ∷ [])
          +s "}")

  parsed_receipt : Option J → Option DealReceipt
  unfolding read
  parsed_receipt none = none
  parsed_receipt (some j) =
      let receipt : DealReceipt = record {
        strategy_id = read text_of j "strategyId" "";
        deal_id = read text_of j "dealId" "";
        strategy_name = read text_of j "strategyName" "";
      } in
      if is_object j then some receipt else none

  unfoldable pub decode_deal_receipt : String → Option DealReceipt
  unfolding parsed_receipt
  decode_deal_receipt text = parsed_receipt (parse text)
