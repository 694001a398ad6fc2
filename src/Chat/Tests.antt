-- ===== src/Chat/Tests.antt =====
-- A turn of one run, with deltas, a segment and another writer.
use astation.Prelude.{
  ◌≡◌, refl, String, true, false, Option, some, none, List, [], ◌∷◌, inl, inr, arith,
}
use astation.Prelude.Text.{strip, contains}
use astation.Json.{Json, Fields}
use astation.Watch
use astation.Chat.{
  ChatMessage, ChatStore, Host, BufferKey, new_row, insert_row, write, is_duplicate, write_keyed,
  write_bound, insert_attempts, with_others,
}
use astation.Chat.Reasoning.{final_reasoning, hold_reasoning, spend, flush_text}
use astation.Chat.Capture.{
  Canonical, Captured, capture, capture_type, capture_step_end, capture_event, capture_interim,
}
use astation.Chat.Apart.{bare, plain, bare_captured}
use astation.Chat.Rows.{IsUnclashing, insert_row-returns}
use astation.Chat.Independence.{capture_event-apart}
use astation.Chat.Bounds.{IsValid}
use astation.Chat.Calls.{Call, state_of, run_all, run_all-IsValid}
use astation.Chat.Streamed.{hold_all, newest, capture_interim-hold_all}

abbrev host : Host
host = record {
  available = true;
  archive_available = true;
  new_chat_id = "cm_1";
  new_archive_id = λ n. "ra_1";
  now = 5;
  monotonic = 100;
  is_zero = λ s. false;
  column_text = λ v. none;
  racing = [];
}

abbrev key : BufferKey
key = ("default", ("s1", some "run_1"))

abbrev empty : ChatStore
empty = record {
  chat_messages = [];
  reasoning_archive = [];
  archive_ids = 0;
  reasoning = [];
  spent = [];
  archive = [];
  steps = [];
  watched = Watch.new;
}

abbrev text_payload : String → Fields
text_payload text =
    Fields.field "_stored_session_id" (Json.str "s1")
      (Fields.field "text" (Json.str text) Fields.end)

abbrev envelope : String → Fields
envelope text =
    Fields.field "run_id" (Json.str "run_1")
      (Fields.field "payload" (Json.obj (text_payload text)) Fields.end)

abbrev canonical : String → Canonical
canonical type_name = record { type_name = type_name; payload = Json.null }

abbrev user_row : String → ChatMessage
user_row id =
    new_row (record host { new_chat_id = id }) none "default" "s1" none "user" (some "hi") "submit"

-- Another writer takes the number of the first attempt.
abbrev raced : Host
raced = record host { racing = (record (user_row "cm_9") { seq = 1 } ∷ []) ∷ [] }

abbrev calls : List Call
calls =
    Call.submitted raced "default" "s1" "hi" none
    ∷ Call.attached host "default" "s1" "run_1"
    ∷ Call.event host "default" (canonical "reasoning.delta") (envelope "a")
    ∷ Call.event (record host { new_chat_id = "cm_2"; archive_available = false }) "default"
        (canonical "message.interim") (envelope "b")
    ∷ Call.discarded host "cm_1"
    ∷ []

empty-IsValid : IsValid empty
empty-IsValid = record {
  unclashing = tt;
  unique_keys = tt;
  reasoning_fits = omega arith;
  spent_fits = omega arith;
}

run_all-IsValid_example : IsValid (run_all calls empty)
run_all-IsValid_example = run_all-IsValid calls empty empty-IsValid

insert_row-returns_example :
    ((insert_row raced (user_row "cm_1") []).0 ≡ some "cm_1")
    × IsUnclashing (insert_row raced (user_row "cm_1") []).1
insert_row-returns_example =
    insert_row-returns raced (user_row "cm_1") [] tt refl (refl, tt) (inr (inl refl))

capture_interim-hold_all_example :
    let s = hold_all key ((host, text_payload "a") ∷ (host, text_payload "b") ∷ []) empty in
    newest (capture_interim host none key (text_payload "c") s)
    ≡ some (some "cm_1", (some (some "ab"), s.chat_messages))
unfolding hold_all hold_reasoning
capture_interim-hold_all_example =
    capture_interim-hold_all host none key
      ((host, text_payload "a") ∷ (host, text_payload "b") ∷ []) (text_payload "c") (some "c") empty
      refl refl refl refl

capture_event-apart_example :
    bare_captured (capture_event host "default" (canonical "message.interim") (envelope "b") empty)
    ≡ bare_captured (
        capture_event
          (plain host)
          "default"
          (canonical "message.interim")
          (envelope "b")
          (bare empty))
capture_event-apart_example =
    capture_event-apart host "default" (canonical "message.interim") (envelope "b") empty

longer_wins : final_reasoning (some "one two") (some " two ") [] ≡ some "one two"
unfolding final_reasoning strip contains
longer_wins = refl

-- A durable `tool.started` writes the held reasoning and returns no id; when it comes again, the id of
-- this row is returned.
abbrev durable : Fields
durable = Fields.field "_durable_capture_id" (Json.str "cap_1") (envelope "x")

abbrev holding : ChatStore
holding = record empty { reasoning = (key, "why") ∷ [] }

abbrev id_of : Captured → Option String
id_of (Captured.returned s id told) = id
id_of (Captured.raised s) = none

step_end_first :
    id_of (capture_event host "default" (canonical "tool.started") durable holding) ≡ none
unfolding capture_event capture capture_type capture_step_end write write_keyed write_bound
    is_duplicate insert_row insert_attempts with_others spend flush_text strip Watch.is_watched
step_end_first = refl

step_end_again :
    id_of (
      capture_event host "default"
        (canonical "tool.started")
        durable
        (state_of (capture_event host "default" (canonical "tool.started") durable holding)))
    ≡ some "cap_1"
unfolding capture_event capture capture_type capture_step_end write write_keyed write_bound
    is_duplicate insert_row insert_attempts with_others spend flush_text strip Watch.is_watched
step_end_again = refl
