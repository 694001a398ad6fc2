-- ===== src/Transcript.antt =====
-- gateway/domain/transcript.py: what a served transcript row may leave out. `json.dumps` and the decimal
-- text of a number are arguments.
pub mod Shown
mod Tests
use Prim.Native.String.{count}
use astation.Prelude.{
  ℕ, suc, String, Bool, true, false, Option, none, some, if◌then◌else◌, not, ◌&&◌, ◌||◌, ltb,
  is_none,
}
use astation.Prelude.Eq.{◌==◌, string_eq}
use astation.Prelude.Text.{strip}
use astation.Json.{ℤ, Json, Items, Fields, num, get, get_or_null, put}

-- The characters of `json.dumps(v, ensure_ascii=False, separators=(",", ":"))`, and `str` of an int.
pub record Texts : Type 0 where
  pub dumped_chars : Json → ℕ
  pub int_text : ℤ → String

abbrev pub items_length : Items → ℕ
items_length Items.nil = 0
items_length (Items.cons v l) = suc (items_length l)

-- `messages`, where None is the empty list
abbrev pub messages_of : Json → Json
messages_of Json.null = Json.arr Items.nil
messages_of messages = messages

abbrev pub list_length : Json → ℕ
list_length (Json.arr l) = items_length l
list_length _ = 0

-- the count, where it is an int and no bool
abbrev pub count_or : Json → Json → ℤ
count_or messages (Json.int n) = n
count_or messages _ = ℤ.pos (list_length messages)

abbrev pub body_of : Json → Fields
body_of (Json.obj body) = body
body_of _ = Fields.end

-- `_transcript`
unfoldable pub transcript : Json → String → ℤ × Json
transcript result count_key =
    let messages = messages_of (get_or_null "messages" (body_of result)) in
    (count_or messages (get_or_null count_key (body_of result)), messages)

-- `_measure_body`
unfoldable pub measure_body : Texts → Json → Bool × ℕ
measure_body texts Json.null = (false, 0)
measure_body texts (Json.str s) = if strip s == "" then (false, 0) else (true, count s)
measure_body texts (Json.arr Items.nil) = (false, 0)
measure_body texts (Json.obj Fields.end) = (false, 0)
measure_body texts v = (ltb 0 (texts.dumped_chars v), texts.dumped_chars v)

-- `_measure_reasoning`
unfoldable pub measure_reasoning : Texts → Fields → Bool × ℕ
unfolding measure_body
measure_reasoning texts row =
    if (measure_body texts (get_or_null "reasoning" row)).0
    then measure_body texts (get_or_null "reasoning" row)
    else measure_body texts (get_or_null "reasoning_content" row)

abbrev pub same_text : Option Json → Option Json → Bool
same_text (some (Json.str primary)) (some (Json.str secondary)) = primary == secondary
same_text _ _ = false

-- `_reasoning_content_is_duplicate`
unfoldable pub reasoning_content_is_duplicate : Fields → Bool
reasoning_content_is_duplicate row = same_text (get "reasoning" row) (get "reasoning_content" row)

-- `{key: value for key, value in row.items() if ...}`
unfoldable pub drop_keys : (String → Bool) → Fields → Fields
drop_keys is_dropped Fields.end = Fields.end
drop_keys is_dropped (Fields.field k v row) =
    let rest = drop_keys is_dropped row in if is_dropped k then rest else Fields.field k v rest

-- `key in _LIGHT_OMITTED_KEYS`
abbrev pub is_light_omitted : String → Bool
is_light_omitted key = key == "reasoning" || key == "reasoning_content"

-- `_project_message` of an object
unfoldable pub project_fields : Texts → Bool → Fields → Fields
unfolding drop_keys reasoning_content_is_duplicate measure_reasoning
project_fields texts false row =
    if reasoning_content_is_duplicate row
    then drop_keys (λ key. key == "reasoning_content") row
    else row
project_fields texts true row = put "reasoning_chars" (num (measure_reasoning texts row).1) (
    put "has_reasoning" (Json.bool (measure_reasoning texts row).0)
      (drop_keys is_light_omitted row))

-- `_project_message`
unfoldable pub project_message : Texts → Bool → Json → Json
unfolding project_fields
project_message texts light (Json.obj row) = Json.obj (project_fields texts light row)
project_message texts light row = row

unfoldable pub project_items : Texts → Bool → Items → Items
unfolding project_message
project_items texts light Items.nil = Items.nil
project_items texts light (Items.cons row l) =
    Items.cons (project_message texts light row) (project_items texts light l)

-- `_project_transcript`
unfoldable pub project_transcript : Texts → Bool → Json → Json
unfolding project_items
project_transcript texts light (Json.arr l) = Json.arr (project_items texts light l)
project_transcript texts light messages = messages

-- The row's id renders as this text.
abbrev pub is_row_id : Texts → String → Json → Bool
is_row_id texts row_id (Json.int n) = strip (texts.int_text n) == row_id
is_row_id texts row_id (Json.str s) = strip s == row_id
is_row_id texts row_id _ = false

abbrev pub row_matches : Texts → String → Json → Bool
row_matches texts row_id (Json.obj row) = is_row_id texts row_id (get_or_null "row_id" row)
row_matches texts row_id _ = false

unfoldable pub find_item : Texts → String → Items → Option Json
find_item texts row_id Items.nil = none
find_item texts row_id (Items.cons row l) =
    if row_matches texts row_id row then some row else find_item texts row_id l

-- `_find_transcript_row`
unfoldable pub find_transcript_row : Texts → Json → String → Option Json
unfolding find_item strip
find_transcript_row texts (Json.arr l) row_id = find_item texts row_id l
find_transcript_row texts _ row_id = none
