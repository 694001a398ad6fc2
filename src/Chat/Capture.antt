-- ===== src/Chat/Capture.antt =====
-- chat_store.py: `capture_event`, from a forwarded frame to a row.
use Prim.Native.String.{◌++◌ as text_append}
use astation.Prelude.{
  String, Bool, true, false, Option, none, some, List, [], ◌∷◌, if◌then◌else◌, ◌&&◌, ◌||◌, any,
  find_first,
}
use astation.Prelude.Eq.{◌==◌, string_eq, option_eq, pair_eq}
use astation.Prelude.Dict.{lookup}
use astation.Prelude.Text.{strip, contains, starts_with}
use astation.Json.{Json, Fields, get_or_null, nonempty_str, text_of, is_truthy}
use astation.Watch.{WatchedSessions, is_watched}
use astation.Chat.{
  ChatStore, ChatMessage, Host, BufferKey, Written, NewMessage, with_text, new_row, write,
}
use astation.Chat.Reasoning.{
  final_reasoning, text_contains, hold_reasoning, spend, end_turn, archive_text, or_empty,
  or_none_spent, unless_blank,
}

-- `canonical.type` and `canonical.payload`
pub record Canonical : Type 0 where
  pub type_name : String
  pub payload : Json

-- `capture_event` returns the row's id, and the turn of which it told `on_turn_completed`, or raises.
pub data Captured : Type 0 where
  returned : ChatStore → Option String → Option (String × String) → Captured
  raised : ChatStore → Captured

-- `f"{kind}"` of a subagent's row
abbrev pub stripped : Json → String
stripped (Json.str s) = strip s
stripped _ = ""

abbrev pub after_colon : String → String → String
after_colon line goal = if goal == "" then line else text_append line (text_append ": " goal)

-- `subagent_row_text`
unfoldable pub subagent_row_text : String → Fields → String
unfolding strip
subagent_row_text event_type payload =
    let goal = stripped (get_or_null "goal" payload) in
    let given = stripped (get_or_null "status" payload) in
    let status = if given == "" then "finished" else given in
    let line = after_colon (text_append "Subagent " status) goal in
    let summary = stripped (get_or_null "summary" payload) in
    if event_type == "subagent.started"
    then after_colon "Subagent started" goal
    else if summary == ""
    then line
    else text_append line (text_append " — " summary)

-- `_is_captured_notice`; `none` is the `TypeError` of a kind that is a list or an object
unfoldable pub is_captured_notice : Json → Json → Option Bool
is_captured_notice (Json.arr items) text = none
is_captured_notice (Json.obj fields) text = none
is_captured_notice (Json.str kind) (Json.str text) = some (
    kind == "compacted"
    || (kind == "process" || (kind == "lifecycle" && contains "Hindsight" text)))
is_captured_notice (Json.str kind) text = some (kind == "compacted" || kind == "process")
is_captured_notice kind text = some false

-- `{k: v for k, v in payload.items() if not str(k).startswith("_")}`
abbrev pub public_fields : Fields → Fields
public_fields Fields.end = Fields.end
public_fields (Fields.field k v d) =
    if starts_with "_" k then public_fields d else Fields.field k v (public_fields d)

-- What a write leaves; an exception goes on.
abbrev pub captured : ChatStore → Written × List ChatMessage → Captured
captured s (Written.raised, rows) = Captured.raised (record s { chat_messages = rows })
captured s (Written.duplicate, rows) =
    Captured.returned (record s { chat_messages = rows }) none none
captured s (Written.wrote id, rows) =
    Captured.returned (record s { chat_messages = rows }) (some id) none

abbrev pub then_spend : Host → BufferKey → Captured → Captured
then_spend host key (Captured.raised s) = Captured.raised s
then_spend host key (Captured.returned s id told) = Captured.returned (spend host key id s) id told

abbrev pub without_id : Captured → Captured
without_id (Captured.raised s) = Captured.raised s
without_id (Captured.returned s id told) = Captured.returned s none told

-- A live row of the session of a buffer.
abbrev pub live_row : Host → Option String → BufferKey → (role : String) → ChatMessage
live_row host identity (profile, (stored_id, turn_id)) role =
    new_row host identity profile stored_id turn_id role none "live"

abbrev pub assistant_row : Host → Option String → BufferKey → Json → Option String → NewMessage
assistant_row host identity key text reasoning =
    with_text (record (live_row host identity key "assistant") { reasoning = reasoning }) text

-- `tool.started`
unfoldable pub capture_step_end : Host → Option String → BufferKey → ChatStore → Captured
unfolding write spend
capture_step_end host identity key s = elim (unless_blank (lookup key s.reasoning)) [
  | none ↦ Captured.returned s none none
  | some held ↦ without_id (
      then_spend host key (
        captured s
          (write host (assistant_row host identity key (Json.str "") (some held)) s.chat_messages)))
]

-- `message.interim`
unfoldable pub capture_interim : Host → Option String → BufferKey → Fields → ChatStore → Captured
unfolding write spend
capture_interim host identity key payload s = then_spend host key (
    captured s (
      write host
        (assistant_row host identity key (get_or_null "text" payload) (lookup key s.reasoning))
        s.chat_messages))

-- `tool.completed`
unfoldable pub capture_tool : Host → Option String → BufferKey → Fields → ChatStore → Captured
unfolding write
capture_tool host identity key payload s = captured s (
    write host
      (record {
        row = record (live_row host identity key "tool") {
          tool_args_json = get_or_null "args" payload;
          tool_result_json = get_or_null "result" payload;
        };
        text = Json.null;
        tool_name = get_or_null "name" payload;
        tool_call_id = get_or_null "tool_id" payload;
      })
      s.chat_messages)

-- the payload's own reasoning, where it is a text
abbrev pub claimed_reasoning : Host → Fields → Option String
claimed_reasoning host payload = text_of (
    if is_truthy host.is_zero (get_or_null "reasoning" payload)
    then get_or_null "reasoning" payload
    else get_or_null "reasoning_content" payload)

-- The payload's text is kept apart where the stream does not have it and no earlier row does.
abbrev pub archive_claimed :
    Host
    → BufferKey
    → (streamed : String) → (spent : List String) → Option String
    → Option String
    → ChatStore
    → ChatStore
archive_claimed host key streamed spent row_id none s = s
archive_claimed host key streamed spent row_id (some claimed) s =
    if text_contains streamed claimed || any (λ text. strip text == strip claimed) spent
    then s
    else archive_text host key claimed "payload" row_id s

abbrev pub completed_turn :
    Host
    → BufferKey
    → (streamed claimed : Option String) → (spent : List String) → Captured
    → Captured
completed_turn host key streamed claimed spent (Captured.raised s) = Captured.raised s
completed_turn host key streamed claimed spent (Captured.returned s row_id told) =
    Captured.returned
      (end_turn key (
        archive_claimed host key (or_empty streamed) spent row_id (unless_blank claimed)
          (spend host key row_id s)))
      row_id (some (key.0, key.1.0))

-- `message.completed`
unfoldable pub capture_completed : Host → Option String → BufferKey → Fields → ChatStore → Captured
unfolding write spend archive_text final_reasoning
capture_completed host identity key payload s =
    let streamed = lookup key s.reasoning in
    let claimed = claimed_reasoning host payload in
    let spent = or_none_spent (lookup key s.spent) in
    completed_turn host key streamed claimed spent (
      captured s (
        write host
          (assistant_row host identity key (get_or_null "text" payload)
            (final_reasoning streamed claimed spent))
          s.chat_messages))

abbrev pub capture_notice :
    Host → Option String → BufferKey → (kind text : Json) → ChatStore → Option Bool → Captured
capture_notice host identity key kind text s none = Captured.raised s
capture_notice host identity key kind text s (some false) = Captured.returned s none none
capture_notice host identity key kind text s (some true) = captured s (
    write host
      (with_text
        (record (live_row host identity key "marker") {
          compacted = text_of kind == some "compacted";
        })
        text)
      s.chat_messages)

-- `status.update`
unfoldable pub capture_status : Host → Option String → BufferKey → Fields → ChatStore → Captured
unfolding write is_captured_notice
capture_status host identity key payload s =
    let kind = get_or_null "kind" payload in
    let text = get_or_null "text" payload in
    capture_notice host identity key kind text s (is_captured_notice kind text)

-- `subagent.started` and `subagent.completed`
unfoldable pub capture_subagent :
    Host → Option String → BufferKey → (event_type : String) → Fields → ChatStore → Captured
unfolding write subagent_row_text
capture_subagent host identity key event_type payload s =
    elim (nonempty_str (get_or_null "subagent_id" payload)) [
      | none ↦ Captured.returned s none none
      | some subagent_id ↦ captured s (
          write host
            (record {
              row = record (live_row host identity key "subagent") {
                tool_args_json = Json.obj (public_fields payload);
              };
              text = Json.str (subagent_row_text event_type payload);
              tool_name = Json.str "delegate_task";
              tool_call_id = Json.str (
                  text_append subagent_id
                    (if event_type == "subagent.started" then "#start" else "#complete"));
            })
            s.chat_messages)
    ]

-- the branches of `_capture` on the type of the event
unfoldable pub capture_type :
    Host → Option String → BufferKey → (event_type : String) → Fields → ChatStore → Captured
unfolding hold_reasoning capture_step_end capture_interim capture_tool capture_completed
    capture_status capture_subagent
capture_type host identity key event_type payload s =
    if event_type == "reasoning.delta"
    then Captured.returned (hold_reasoning host key payload s) none none
    else if event_type == "tool.started"
    then capture_step_end host identity key s
    else if event_type == "message.interim"
    then capture_interim host identity key payload s
    else if event_type == "tool.completed"
    then capture_tool host identity key payload s
    else if event_type == "message.completed"
    then capture_completed host identity key payload s
    else if event_type == "status.update"
    then capture_status host identity key payload s
    else capture_subagent host identity key event_type payload s

-- `CAPTURED_EVENT_TYPES`, `_REASONING_EVENT_TYPES` and `_STEP_END_EVENT_TYPES`
abbrev pub read_event_types : List String
read_event_types =
    "message.interim" ∷ "tool.completed" ∷ "message.completed" ∷ "status.update"
    ∷ "subagent.started" ∷ "subagent.completed" ∷ "reasoning.delta" ∷ "tool.started" ∷ []

-- the payload of the envelope, or else of the event
abbrev pub payload_of : Json → Json → Option Fields
payload_of (Json.obj payload) _ = some payload
payload_of _ (Json.obj payload) = some payload
payload_of _ _ = none

abbrev pub stored_id_of : Option Fields → Option (String × Fields)
stored_id_of none = none
stored_id_of (some payload) = elim (nonempty_str (get_or_null "_stored_session_id" payload)) [
  | none ↦ none
  | some stored_id ↦ some (stored_id, payload)
]

abbrev pub capture_watched :
    Bool × WatchedSessions
    → Host
    → Option String
    → BufferKey
    → (event_type : String) → Fields
    → ChatStore
    → Captured
capture_watched (true, w) host identity key event_type payload s =
    Captured.returned (record s { watched = w }) none none
capture_watched (false, w) host identity key event_type payload s =
    capture_type host identity key event_type payload (record s { watched = w })

abbrev pub capture_stored :
    Host
    → Option String
    → (profile event_type : String) → (turn_id : Option String) → Option (String × Fields)
    → ChatStore
    → Captured
capture_stored host identity profile event_type turn_id none s = Captured.returned s none none
capture_stored host identity profile event_type turn_id (some (stored_id, payload)) s =
    capture_watched (is_watched host.now (some stored_id) profile s.watched) host identity
      (profile, (stored_id, turn_id)) event_type payload s

-- `_capture`
unfoldable pub capture : Host → Option String → String → Canonical → Fields → ChatStore → Captured
unfolding capture_type
capture host identity profile canonical envelope s =
    if any (λ t. t == canonical.type_name) read_event_types
    then capture_stored host identity profile canonical.type_name
        (nonempty_str (get_or_null "run_id" envelope))
        (stored_id_of (payload_of (get_or_null "payload" envelope) canonical.payload)) s
    else Captured.returned s none none

-- Without an identity an exception is logged and the call returns None.
abbrev pub logged : Captured → Captured
logged (Captured.raised s) = Captured.returned s none none
logged (Captured.returned s id told) = Captured.returned s id told

-- The row that a durable frame has written is of this frame's session.
abbrev pub is_owned : String → Json → ChatMessage → Bool
is_owned profile (Json.obj payload) row =
    row.profile == profile
    && text_of (get_or_null "_stored_session_id" payload) == some row.stored_session_id
is_owned profile _ row = false

abbrev pub capture_or_existing :
    String → Json → ChatStore → Option ChatMessage → Captured → Captured
capture_or_existing profile payload s none otherwise = otherwise
capture_or_existing profile payload s (some row) otherwise =
    if is_owned profile payload row
    then Captured.returned s (some row.id) none
    else Captured.raised s

-- `db.get(ChatMessage, id)`
abbrev pub row_of : String → List ChatMessage → Option ChatMessage
row_of id rows = find_first (λ (row : ChatMessage). row.id == id) rows

-- `capture_event`, where `_durable_capture_id` is a text or missing
unfoldable pub capture_event : Host → String → Canonical → Fields → ChatStore → Captured
unfolding capture
capture_event host profile canonical envelope s =
    elim (nonempty_str (get_or_null "_durable_capture_id" envelope)) [
      | none ↦ logged (capture host none profile canonical envelope s)
      | some identity ↦
          if host.available
          then capture_or_existing profile (get_or_null "payload" envelope) s
              (row_of identity s.chat_messages)
              (capture host (some identity) profile canonical envelope s)
          else Captured.raised s
    ]
