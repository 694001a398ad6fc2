-- ===== src/Transcript/Tests.antt =====
-- A row with a reasoning that stands twice.
use astation.Prelude.{◌≡◌, refl, true, false, some, none}
use astation.Prelude.Text.{strip}
use astation.Json.{ℤ, Json, Items, Fields, get}
use astation.Transcript.{
  Texts, project_fields, drop_keys, reasoning_content_is_duplicate, measure_reasoning, measure_body,
  find_transcript_row, find_item, transcript,
}
use astation.Transcript.Shown.{shown, get-project_fields}

abbrev texts : Texts
texts = record { dumped_chars = λ v. 4; int_text = λ n. "7" }

abbrev row : Fields
row = Fields.field "row_id" (Json.int (ℤ.pos 7)) (
    Fields.field "reasoning" (Json.str "why")
      (Fields.field "reasoning_content" (Json.str "why") Fields.end))

get-project_fields_example :
    get "reasoning_content" (project_fields texts false row)
    ≡ shown texts false "reasoning_content" row
get-project_fields_example = get-project_fields texts false "reasoning_content" row

dropped : get "reasoning_content" (project_fields texts false row) ≡ none
unfolding project_fields reasoning_content_is_duplicate drop_keys
dropped = refl

measured : get "reasoning_chars" (project_fields texts true row) ≡ some (Json.int (ℤ.pos 3))
unfolding project_fields measure_reasoning measure_body drop_keys strip
measured = refl

found :
    find_transcript_row texts
      (Json.arr (Items.cons Json.null (Items.cons (Json.obj row) Items.nil)))
      "7"
    ≡ some (Json.obj row)
unfolding find_transcript_row find_item strip
found = refl

counted_rows :
    transcript (Json.obj (Fields.field "messages" Json.null Fields.end)) "count"
    ≡ (ℤ.pos 0, Json.arr Items.nil)
unfolding transcript
counted_rows = refl
