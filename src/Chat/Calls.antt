-- ===== src/Chat/Calls.antt =====
-- Any calls of the chat store, in any order.
use astation.Prelude.{
  ℕ, String, Bool, true, false, Option, none, some, List, [], ◌∷◌, if◌then◌else◌, any, Bool-cases,
  inl, inr, keep_if, not, ◌&&◌,
}
use Prim.Native.String.{◌++◌ as text_append}
use astation.Prelude.Eq.{◌==◌, string_eq, option_eq, pair_eq}
use astation.Prelude.Sort.{sort_by}
use astation.Prelude.Dict.{lookup}
use astation.Json.{Json, Fields, get_or_null, nonempty_str, text_of}
use astation.Watch.{WatchedSessions, is_watched}
use astation.Chat
use astation.Chat.{
  ChatStore, ChatMessage, Host, BufferKey, Written, NewMessage, with_text, insert_row, write,
  new_row, with_inserted, is_unattached, later_seq, first_row, with_turn, is_in_session,
}
use astation.Chat.Reasoning.{
  unless_blank, or_none_spent, final_reasoning, hold_reasoning, spend, or_empty,
}
use astation.Chat.Capture.{
  Canonical, Captured, captured, archive_claimed, then_spend, without_id, capture_step_end,
  capture_interim, capture_tool, capture_completed, completed_turn, capture_notice, capture_status,
  capture_subagent, capture_type, is_captured_notice, subagent_row_text, assistant_row,
  claimed_reasoning, live_row, payload_of, stored_id_of, capture_watched, capture_stored, capture,
  logged, capture_or_existing, row_of, is_owned, read_event_types, capture_event, public_fields,
}
use astation.Chat.Apart.{archive_claimed-bare}
use astation.Chat.Rows.{
  IsUnclashing, insert_row-IsUnclashing, write-IsUnclashing, keep_if-IsUnclashing,
  with_turn-IsUnclashing,
}
use astation.Chat.Bounds.{
  IsValid, bare-IsValid, hold_reasoning-IsValid, spend-IsValid, end_turn-IsValid,
}

abbrev pub state_of : Captured → ChatStore
state_of (Captured.returned s id told) = s
state_of (Captured.raised s) = s

-- A valid store after a call.
abbrev Keeps : Captured → Type 0
Keeps x = IsValid (state_of x)

Keeps-if : (b : Bool) (x y : Captured) → Keeps x → Keeps y → Keeps (if b then x else y)
Keeps-if true x y p q = p
Keeps-if false x y p q = q

with_rows-IsValid :
    (rows : List ChatMessage) (s : ChatStore)
    → IsUnclashing rows
    → IsValid s
    → IsValid (record s { chat_messages = rows })
with_rows-IsValid rows s u v = record {
  unclashing = u;
  unique_keys = v.unique_keys;
  reasoning_fits = v.reasoning_fits;
  spent_fits = v.spent_fits;
}

captured-Keeps :
    (s : ChatStore) (x : Written × List ChatMessage)
    → IsUnclashing x.1
    → IsValid s
    → Keeps (captured s x)
captured-Keeps s (Written.wrote id, rows) u v = with_rows-IsValid rows s u v
captured-Keeps s (Written.duplicate, rows) u v = with_rows-IsValid rows s u v
captured-Keeps s (Written.raised, rows) u v = with_rows-IsValid rows s u v

write-Keeps :
    (host : Host) (new : NewMessage) (s : ChatStore)
    → IsValid s
    → Keeps (captured s (write host new s.chat_messages))
write-Keeps host new s v =
    captured-Keeps s (write host new s.chat_messages)
      (write-IsUnclashing host new s.chat_messages v.unclashing) v

then_spend-Keeps :
    (host : Host) (key : BufferKey) (x : Captured) → Keeps x → Keeps (then_spend host key x)
then_spend-Keeps host key (Captured.returned s id told) v = spend-IsValid host key id s v
then_spend-Keeps host key (Captured.raised s) v = v

without_id-Keeps : (x : Captured) → Keeps x → Keeps (without_id x)
without_id-Keeps (Captured.returned s id told) v = v
without_id-Keeps (Captured.raised s) v = v

completed_turn-Keeps :
    (host : Host) (key : BufferKey) (streamed claimed : Option String) (spent : List String)
    (x : Captured)
    → Keeps x
    → Keeps (completed_turn host key streamed claimed spent x)
completed_turn-Keeps host key streamed claimed spent (Captured.returned s id told) v =
    let spent_store = spend host key id s in
    let kept =
      archive_claimed host key (or_empty streamed) spent id (unless_blank claimed) spent_store in
    end_turn-IsValid key kept (
      bare-IsValid kept spent_store
        (archive_claimed-bare host key (or_empty streamed) spent id (unless_blank claimed)
          spent_store)
        (spend-IsValid host key id s v))
completed_turn-Keeps host key streamed claimed spent (Captured.raised s) v = v

capture_step_end-Keeps :
    (host : Host) (identity : Option String) (key : BufferKey) (s : ChatStore)
    → IsValid s
    → Keeps (capture_step_end host identity key s)
unfolding capture_step_end
capture_step_end-Keeps host identity key s v = go (unless_blank (lookup key s.reasoning))
  where
    go :
        (o : Option String)
        → Keeps (elim o [
          | none ↦ Captured.returned s none none
          | some held ↦ without_id (
              then_spend host key (
                captured s (
                  write host
                    (assistant_row host identity key (Json.str "") (some held))
                    s.chat_messages)))
        ])
    go none = v
    go (some held) =
        let row = assistant_row host identity key (Json.str "") (some held) in
        let x = captured s (write host row s.chat_messages) in
        without_id-Keeps (then_spend host key x)
          (then_spend-Keeps host key x (write-Keeps host row s v))

capture_notice-Keeps :
    (host : Host) (identity : Option String) (key : BufferKey) (kind text : Json) (s : ChatStore)
    (o : Option Bool)
    → IsValid s
    → Keeps (capture_notice host identity key kind text s o)
capture_notice-Keeps host identity key kind text s none v = v
capture_notice-Keeps host identity key kind text s (some false) v = v
capture_notice-Keeps host identity key kind text s (some true) v =
    write-Keeps host
      (with_text
        (record (live_row host identity key "marker") {
          compacted = text_of kind == some "compacted";
        })
        text)
      s v

capture_subagent-Keeps :
    (host : Host) (identity : Option String) (key : BufferKey) (event_type : String)
    (payload : Fields) (s : ChatStore)
    → IsValid s
    → Keeps (capture_subagent host identity key event_type payload s)
unfolding capture_subagent
capture_subagent-Keeps host identity key event_type payload s v =
    go (nonempty_str (get_or_null "subagent_id" payload))
  where
    row : String → NewMessage
    row subagent_id = record {
      row = record (live_row host identity key "subagent") {
        tool_args_json = Json.obj (public_fields payload);
      };
      text = Json.str (subagent_row_text event_type payload);
      tool_name = Json.str "delegate_task";
      tool_call_id = Json.str (
          text_append subagent_id
            (if event_type == "subagent.started" then "#start" else "#complete"));
    }

    go :
        (o : Option String)
        → Keeps (elim o [
          | none ↦ Captured.returned s none none
          | some subagent_id ↦ captured s (write host (row subagent_id) s.chat_messages)
        ])
    go none = v
    go (some subagent_id) = write-Keeps host (row subagent_id) s v

capture_type-Keeps :
    (host : Host) (identity : Option String) (key : BufferKey) (event_type : String)
    (payload : Fields) (s : ChatStore)
    → IsValid s
    → Keeps (capture_type host identity key event_type payload s)
unfolding capture_type capture_interim capture_tool capture_completed capture_status
capture_type-Keeps host identity key event_type payload s v =
    by_type "reasoning.delta" (Captured.returned (hold_reasoning host key payload s) none none)
      from_step_end (hold_reasoning-IsValid host key payload s v)
      (by_type "tool.started" (capture_step_end host identity key s) from_interim
        (capture_step_end-Keeps host identity key s v)
        (by_type "message.interim" (capture_interim host identity key payload s) from_tool interim (
          by_type "tool.completed" (capture_tool host identity key payload s) from_completed
            (write-Keeps host tool_row s v)
            (by_type "message.completed" (capture_completed host identity key payload s) from_status
              completed
              (by_type "status.update" (capture_status host identity key payload s)
                (capture_subagent host identity key event_type payload s)
                (capture_notice-Keeps host identity key kind text s (is_captured_notice kind text)
                  v)
                (capture_subagent-Keeps host identity key event_type payload s v))))))
  where
    by_type :
        (name : String) (x y : Captured)
        → Keeps x
        → Keeps y
        → Keeps (if event_type == name then x else y)
    by_type name x y p q = Keeps-if (event_type == name) x y p q

    kind : Json
    kind = get_or_null "kind" payload

    text : Json
    text = get_or_null "text" payload

    from_status : Captured
    from_status =
        if event_type == "status.update"
        then capture_status host identity key payload s
        else capture_subagent host identity key event_type payload s

    from_completed : Captured
    from_completed =
        if event_type == "message.completed"
        then capture_completed host identity key payload s
        else from_status

    from_tool : Captured
    from_tool =
        if event_type == "tool.completed"
        then capture_tool host identity key payload s
        else from_completed

    from_interim : Captured
    from_interim =
        if event_type == "message.interim"
        then capture_interim host identity key payload s
        else from_tool

    from_step_end : Captured
    from_step_end =
        if event_type == "tool.started" then capture_step_end host identity key s else from_interim

    interim_row : NewMessage
    interim_row = assistant_row host identity key text (lookup key s.reasoning)

    interim : Keeps (then_spend host key (captured s (write host interim_row s.chat_messages)))
    interim =
        then_spend-Keeps host key (captured s (write host interim_row s.chat_messages))
          (write-Keeps host interim_row s v)

    tool_row : NewMessage
    tool_row = record {
      row = record (live_row host identity key "tool") {
        tool_args_json = get_or_null "args" payload;
        tool_result_json = get_or_null "result" payload;
      };
      text = Json.null;
      tool_name = get_or_null "name" payload;
      tool_call_id = get_or_null "tool_id" payload;
    }

    streamed : Option String
    streamed = lookup key s.reasoning

    claimed : Option String
    claimed = claimed_reasoning host payload

    spent : List String
    spent = or_none_spent (lookup key s.spent)

    final_row : NewMessage
    final_row = assistant_row host identity key text (final_reasoning streamed claimed spent)

    completed : Keeps (
        completed_turn host key streamed claimed spent
          (captured s (write host final_row s.chat_messages)))
    completed =
        completed_turn-Keeps host key streamed claimed spent
          (captured s (write host final_row s.chat_messages)) (write-Keeps host final_row s v)

capture_watched-Keeps :
    (found : Bool × WatchedSessions) (host : Host) (identity : Option String) (key : BufferKey)
    (event_type : String) (payload : Fields) (s : ChatStore)
    → IsValid s
    → Keeps (capture_watched found host identity key event_type payload s)
capture_watched-Keeps (true, w) host identity key event_type payload s v = v
capture_watched-Keeps (false, w) host identity key event_type payload s v =
    capture_type-Keeps host identity key event_type payload (record s { watched = w }) v

capture_stored-Keeps :
    (host : Host) (identity : Option String) (profile event_type : String) (turn_id : Option String)
    (o : Option (String × Fields)) (s : ChatStore)
    → IsValid s
    → Keeps (capture_stored host identity profile event_type turn_id o s)
capture_stored-Keeps host identity profile event_type turn_id none s v = v
capture_stored-Keeps host identity profile event_type turn_id (some (stored_id, payload)) s v =
    capture_watched-Keeps (is_watched host.now (some stored_id) profile s.watched) host identity
      (profile, (stored_id, turn_id)) event_type payload s v

capture-Keeps :
    (host : Host) (identity : Option String) (profile : String) (canonical : Canonical)
    (envelope : Fields) (s : ChatStore)
    → IsValid s
    → Keeps (capture host identity profile canonical envelope s)
unfolding capture
capture-Keeps host identity profile canonical envelope s v =
    let turn_id = nonempty_str (get_or_null "run_id" envelope) in
    let o = stored_id_of (payload_of (get_or_null "payload" envelope) canonical.payload) in
    Keeps-if (any (λ t. t == canonical.type_name) read_event_types)
      (capture_stored host identity profile canonical.type_name turn_id o s)
      (Captured.returned s none none)
      (capture_stored-Keeps host identity profile canonical.type_name turn_id o s v) v

logged-Keeps : (x : Captured) → Keeps x → Keeps (logged x)
logged-Keeps (Captured.returned s id told) v = v
logged-Keeps (Captured.raised s) v = v

existing-Keeps :
    (profile : String) (payload : Json) (s : ChatStore) (o : Option ChatMessage) (x : Captured)
    → IsValid s
    → Keeps x
    → Keeps (capture_or_existing profile payload s o x)
existing-Keeps profile payload s none x v k = k
existing-Keeps profile payload s (some row) x v k =
    Keeps-if (is_owned profile payload row) (Captured.returned s (some row.id) none)
      (Captured.raised s) v v

capture_event-Keeps :
    (host : Host) (profile : String) (canonical : Canonical) (envelope : Fields) (s : ChatStore)
    → IsValid s
    → Keeps (capture_event host profile canonical envelope s)
unfolding capture_event
capture_event-Keeps host profile canonical envelope s v =
    go (nonempty_str (get_or_null "_durable_capture_id" envelope))
  where
    otherwise : String → Captured
    otherwise identity = capture host (some identity) profile canonical envelope s

    existing : String → Captured
    existing identity =
        capture_or_existing profile (get_or_null "payload" envelope) s
          (row_of identity s.chat_messages) (otherwise identity)

    go :
        (o : Option String)
        → Keeps (elim o [
          | none ↦ logged (capture host none profile canonical envelope s)
          | some identity ↦ if host.available then existing identity else Captured.raised s
        ])
    go none =
        logged-Keeps (capture host none profile canonical envelope s)
          (capture-Keeps host none profile canonical envelope s v)
    go (some identity) =
        Keeps-if host.available (existing identity) (Captured.raised s)
          (existing-Keeps profile (get_or_null "payload" envelope) s
            (row_of identity s.chat_messages) (otherwise identity) v
            (capture-Keeps host (some identity) profile canonical envelope s v))
          v

-- The entry points that change the store.
pub data Call : Type 0 where
  event : Host → String → Canonical → Fields → Call
  submitted : Host → (profile stored_session_id text : String) → Option String → Call
  attached : Host → (profile stored_session_id turn_id : String) → Call
  backfilled : Host → (profile stored_session_id text : String) → ℕ → Option String → Call
  hooked : Host → (profile stored_session_id text turn_id : String) → Call
  discarded : Host → String → Call

unfoldable pub call : Call → ChatStore → ChatStore
call (event host profile canonical envelope) s =
    state_of (capture_event host profile canonical envelope s)
call (submitted host profile stored text turn_id) s =
    (Chat.capture_submitted_user_row host profile stored text turn_id s).1
call (attached host profile stored turn_id) s = (Chat.attach_turn host profile stored turn_id s).1
call (backfilled host profile stored text hermes_row_id turn_id) s =
    (Chat.capture_backfilled_user_row host profile stored text hermes_row_id turn_id s).1
call (hooked host profile stored text turn_id) s =
    (Chat.capture_hook_user_row host profile stored text turn_id s).1
call (discarded host id) s = Chat.discard_row host id s

unfoldable pub run_all : List Call → ChatStore → ChatStore
unfolding call
run_all [] s = s
run_all (c ∷ cs) s = run_all cs (call c s)

inserted-IsValid :
    (host : Host) (new : ChatMessage) (s : ChatStore)
    → IsValid s
    → IsValid (with_inserted s (insert_row host new s.chat_messages)).1
inserted-IsValid host new s v =
    with_rows-IsValid (insert_row host new s.chat_messages).1 s
      (insert_row-IsUnclashing host new s.chat_messages v.unclashing) v

IsValid-if :
    (b : Bool) (x y : Written × ChatStore)
    → IsValid x.1
    → IsValid y.1
    → IsValid (if b then x else y).1
IsValid-if true x y p q = p
IsValid-if false x y p q = q

call-IsValid : (c : Call) (s : ChatStore) → IsValid s → IsValid (call c s)
unfolding call Chat.capture_submitted_user_row Chat.attach_turn Chat.capture_backfilled_user_row
    Chat.capture_hook_user_row Chat.discard_row
call-IsValid (event host profile canonical envelope) s v =
    capture_event-Keeps host profile canonical envelope s v
call-IsValid (submitted host profile stored text turn_id) s v =
    let new = new_row host none profile stored turn_id "user" (some text) "submit" in
    IsValid-if host.available (with_inserted s (insert_row host new s.chat_messages))
      (Written.raised, s) (inserted-IsValid host new s v) v
call-IsValid (attached host profile stored turn_id) s v = elim (Bool-cases host.available) [
  | inr down ↦ rw down v
  | inl up ↦
      rw up (
        go (first_row (sort_by later_seq (keep_if (is_unattached profile stored) s.chat_messages))))
]
  where
    go :
        (o : Option ChatMessage)
        → IsValid
            (elim o as (λ x. ℕ × ChatStore) [
              | none ↦ (0, s)
              | some row ↦
                  (1, record s { chat_messages = with_turn row.id turn_id s.chat_messages })
            ]).1
    go none = v
    go (some row) =
        with_rows-IsValid (with_turn row.id turn_id s.chat_messages) s
          (with_turn-IsUnclashing row.id turn_id s.chat_messages v.unclashing) v
call-IsValid (backfilled host profile stored text hermes_row_id turn_id) s v =
    let new =
      with_text
        (record (new_row host none profile stored turn_id "user" none "backfill") {
          hermes_row_id = some hermes_row_id;
        })
        (Json.str text) in
    with_rows-IsValid (write host new s.chat_messages).1 s
      (write-IsUnclashing host new s.chat_messages v.unclashing) v
call-IsValid (hooked host profile stored text turn_id) s v =
    let new = new_row host none profile stored (some turn_id) "user" (some text) "hook" in
    let inserted = with_inserted s (insert_row host new s.chat_messages) in
    let there =
      any
        (λ row.
          is_in_session profile stored row && (row.turn_id == some turn_id && row.role == "user"))
        s.chat_messages in
    IsValid-if host.available (if there then (Written.duplicate, s) else inserted)
      (Written.raised, s)
      (IsValid-if there (Written.duplicate, s) inserted v (inserted-IsValid host new s v)) v
call-IsValid (discarded host id) s v = elim (Bool-cases host.available) [
  | inr down ↦ rw down v
  | inl up ↦ rw up (
      with_rows-IsValid (keep_if (λ row. not (row.id == id)) s.chat_messages) s
        (keep_if-IsUnclashing (λ row. not (row.id == id)) s.chat_messages v.unclashing) v)
]

-- Whatever entry points are called in any order, whatever other writers commit during an insert, and
-- whether the two tables answer or not: no two rows have one id, nor one number in one session, and at
-- most 64 runs have held reasoning and at most 64 have spent reasoning.
pub run_all-IsValid : (cs : List Call) (s : ChatStore) → IsValid s → IsValid (run_all cs s)
unfolding run_all
run_all-IsValid [] s v = v
run_all-IsValid (c ∷ cs) s v = run_all-IsValid cs (call c s) (call-IsValid c s v)
