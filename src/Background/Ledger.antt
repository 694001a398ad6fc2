-- ===== src/Background/Ledger.antt =====
-- gateway/domain/background_ledger.py: a forwarded completion, and the results in a transcript.
-- `available` is whether the database answers: an exception of it is caught by each operation.
pub mod Served
use astation.Prelude.{
  ℕ, zero, String, Bool, true, false, Option, none, some, List, [], ◌∷◌, length, if◌then◌else◌, not,
  is_none, ◌&&◌, ◌||◌,
}
use astation.Prelude.Eq.{◌==◌, string_eq}
use astation.Json.{
  is_truthy, ℤ, Json, Items, Fields, num, get, get_or_null, put, nonempty_str, as_object, text_of,
  text_or_null,
}
use astation.Background.{
  BackgroundTask, Table, record_completed, orphan_all_running, finished_results_for_session,
}

-- What the operations take from the clock, the UUIDs and the `datetime` package: `isoformat` prints
-- a time in UTC, `is_zero` tells whether a float's literal denotes zero.
pub record Host : Type 0 where
  pub event_id : String
  pub utc_now : String
  pub isoformat : ℕ → String
  pub is_zero : String → Bool

-- `iso_z` of gateway/domain/timeutil.py
abbrev pub iso_z : Host → Option ℕ → Json
iso_z host none = Json.null
iso_z host (some t) = Json.str (host.isoformat t)

-- the parts of a completion's payload that `handle_completed` reads, where its id is usable
pub record Completion : Type 0 where
  pub task_id : String
  pub result_text : Option String
  pub hint : Option String

abbrev pub completion_of : Fields → Option String → Option Completion
completion_of payload none = none
completion_of payload (some id) = some (record {
  task_id = id;
  result_text = text_of (get_or_null "text" payload);
  hint = nonempty_str (get_or_null "_stored_session_id" payload);
})

-- `_synthesized_message_frame`
unfoldable pub synthesized_message_frame :
    Host → (envelope payload : Fields) (task_id result_text stored_id : String) → Fields
synthesized_message_frame host envelope payload task_id result_text stored_id =
    Fields.field "event_id" (Json.str host.event_id) (
      Fields.field "project_id" (get_or_null "project_id" envelope) (
        Fields.field "session_id" (get_or_null "session_id" envelope) (
          Fields.field "run_id" (get_or_null "run_id" envelope) (
            Fields.field "seq" (num 0) (
              Fields.field "type" (Json.str "message.interim") (
                Fields.field "timestamp"
                  (if is_truthy host.is_zero (get_or_null "timestamp" envelope)
                    then get_or_null "timestamp" envelope
                    else Json.str host.utc_now)
                  (Fields.field "payload"
                    (Json.obj (
                      Fields.field "role" (Json.str "assistant") (
                        Fields.field "text" (Json.str result_text) (
                          Fields.field "already_streamed" (Json.bool false) (
                            Fields.field "task_id" (Json.str task_id) (
                              Fields.field "_synthesized_from" (Json.str "background.complete") (
                                Fields.field "_stored_session_id" (Json.str stored_id) (
                                  Fields.field "_live_session_id"
                                    (get_or_null "_live_session_id" payload)
                                    (Fields.field "_connection_generation"
                                      (get_or_null "_connection_generation" payload)
                                      Fields.end)))))))))
                    Fields.end)))))))

-- The ledger and the frame after a completion, and the frame that is injected beside it.
pub record Handled : Type 0 where
  pub table : Table
  pub envelope : Fields
  pub synthesized : Option Fields

-- `if hint is None and stored_id: payload["_stored_session_id"] = stored_id`
abbrev pub stamped : Option String → Option String → Fields → Fields
stamped none (some stored_id) payload =
    if stored_id == "" then payload else put "_stored_session_id" (Json.str stored_id) payload
stamped _ _ payload = payload

-- `if not stored_id or result_text is None: return None`
abbrev pub injected :
    Host
    → (envelope payload : Fields) (task_id : String) → Option String
    → Option String
    → Option Fields
injected host envelope payload task_id (some result_text) (some stored_id) =
    if stored_id == ""
    then none
    else some (synthesized_message_frame host envelope payload task_id result_text stored_id)
injected _ _ _ _ _ _ = none

abbrev pub recorded : Host → ℕ → Table → (envelope payload : Fields) → Completion → Handled
recorded host now db envelope payload c =
    let r = record_completed c.task_id c.result_text c.hint now db in
    let stored_id = r.0.stored_session_id in
    let payload' = stamped c.hint stored_id payload in
    let envelope' = put "payload" (Json.obj payload') envelope in
    record {
      table = r.1;
      envelope = envelope';
      synthesized = injected host envelope' payload' c.task_id c.result_text stored_id;
    }

abbrev pub handle_completion :
    Bool → Host → ℕ → Table → (envelope payload : Fields) → Option Completion → Handled
handle_completion true host now db envelope payload (some c) =
    recorded host now db envelope payload c
handle_completion _ host now db envelope payload _ = record {
  table = db;
  envelope = envelope;
  synthesized = none;
}

abbrev pub handle_payload : Bool → Host → ℕ → Table → Fields → Option Fields → Handled
handle_payload available host now db envelope none = record {
  table = db;
  envelope = envelope;
  synthesized = none;
}
handle_payload available host now db envelope (some payload) =
    handle_completion available host now db envelope payload
      (completion_of payload (nonempty_str (get_or_null "task_id" payload)))

-- `handle_completed`
unfoldable pub handle_completed : Bool → Host → ℕ → Table → Fields → Handled
handle_completed available host now db envelope =
    handle_payload available host now db envelope (as_object (get_or_null "payload" envelope))

-- `orphan_on_startup`: how many rows were orphaned
unfoldable pub orphan_on_startup : Bool → Table → ℕ × Table
orphan_on_startup false db = (0, db)
orphan_on_startup true db = (length (orphan_all_running db).0, (orphan_all_running db).1)

-- `synthesized_transcript_row`
abbrev pub synthesized_transcript_row : Host → BackgroundTask → Json
synthesized_transcript_row host task = Json.obj (
    Fields.field "role" (Json.str "assistant") (
      Fields.field "text" (text_or_null task.result_text) (
        Fields.field "_synthesized_from" (Json.str "background.complete") (
          Fields.field "task_id" (Json.str task.task_id)
            (Fields.field "finished_at" (iso_z host task.finished_at) Fields.end)))))

abbrev pub append_rows : Host → Items → List BackgroundTask → Items
append_rows host Items.nil [] = Items.nil
append_rows host Items.nil (t ∷ ts) =
    Items.cons (synthesized_transcript_row host t) (append_rows host Items.nil ts)
append_rows host (Items.cons v l) ts = Items.cons v (append_rows host l ts)

-- `append_finished_background_results`: how many rows were appended, and the transcript
unfoldable pub append_finished_background_results : Host → Bool → Table → String → Json → ℕ × Json
append_finished_background_results host true db id (Json.arr messages) =
    let rows = finished_results_for_session id db in
    (length rows, Json.arr (append_rows host messages rows))
append_finished_background_results host _ db id messages = (0, messages)
