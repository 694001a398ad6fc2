-- ===== src/Chat/Independence.antt =====
-- `capture_event` does to the chat history the same whether the archive answers or not.
use Prim.Native.String.{◌++◌ as text_append}
use astation.Prelude.{
  ◌≡◌, refl, ap, sym, ◌∙◌, String, Bool, true, false, Option, none, some, any, if◌then◌else◌,
}
use astation.Prelude.Eq.{◌==◌, string_eq, option_eq, pair_eq}
use astation.Prelude.Dict.{lookup}
use astation.Json.{Json, Fields, get_or_null, nonempty_str, text_of}
use astation.Watch.{WatchedSessions, is_watched}
use astation.Chat.{
  ChatStore, ChatMessage, Host, BufferKey, NewMessage, with_text, insert_row, write,
}
use astation.Chat.Reasoning.{unless_blank, or_none_spent, final_reasoning, hold_reasoning}
use astation.Chat.Capture.{
  Canonical, Captured, captured, then_spend, without_id, capture_step_end, capture_interim,
  capture_tool, capture_completed, capture_notice, capture_status, capture_subagent, capture_type,
  is_captured_notice, subagent_row_text, assistant_row, claimed_reasoning, live_row, payload_of,
  stored_id_of, capture_watched, capture_stored, capture, logged, capture_or_existing, row_of,
  is_owned, read_event_types, capture_event, public_fields,
}
use astation.Chat.Apart.{
  bare, plain, bare_captured, hold_reasoning-IsApart, captured-IsApart, then_spend-IsApart,
  completed_turn-IsApart,
}

abbrev IsApartCapture : (Host → ChatStore → Captured) → Type 0
IsApartCapture f =
    (host : Host) (s : ChatStore)
    → bare_captured (f host s) ≡ bare_captured (f (plain host) (bare s))

bare_captured-if :
    (b : Bool) (x y x' y' : Captured)
    → bare_captured x ≡ bare_captured x'
    → bare_captured y ≡ bare_captured y'
    → bare_captured (if b then x else y) ≡ bare_captured (if b then x' else y')
bare_captured-if true x y x' y' p q = p
bare_captured-if false x y x' y' p q = q

without_id-bare : (x : Captured) → bare_captured (without_id x) ≡ without_id (bare_captured x)
without_id-bare (Captured.returned s id told) = refl
without_id-bare (Captured.raised s) = refl

without_id-IsApart :
    (x y : Captured)
    → bare_captured x ≡ bare_captured y
    → bare_captured (without_id x) ≡ bare_captured (without_id y)
without_id-IsApart x y p = without_id-bare x ∙ ap without_id p ∙ sym (without_id-bare y)

capture_step_end-IsApart :
    (identity : Option String) (key : BufferKey)
    → IsApartCapture (λ host s. capture_step_end host identity key s)
unfolding capture_step_end write insert_row
capture_step_end-IsApart identity key host s = go (unless_blank (lookup key s.reasoning))
  where
    at : Host → ChatStore → Option String → Captured
    at h t none = Captured.returned t none none
    at h t (some held) = without_id (
        then_spend h key (
          captured t
            (write h (assistant_row h identity key (Json.str "") (some held)) t.chat_messages)))

    go :
        (o : Option String)
        → bare_captured (at host s o) ≡ bare_captured (at (plain host) (bare s) o)
    go none = refl
    go (some held) =
        let x =
          write host (assistant_row host identity key (Json.str "") (some held)) s.chat_messages in
        without_id-IsApart (then_spend host key (captured s x))
          (then_spend (plain host) key (captured (bare s) x)) (then_spend-IsApart host key s x)

capture_interim-IsApart :
    (identity : Option String) (key : BufferKey) (payload : Fields)
    → IsApartCapture (λ host s. capture_interim host identity key payload s)
unfolding capture_interim write insert_row
capture_interim-IsApart identity key payload host s = then_spend-IsApart host key s (
    write host
      (assistant_row host identity key (get_or_null "text" payload) (lookup key s.reasoning))
      s.chat_messages)

capture_tool-IsApart :
    (identity : Option String) (key : BufferKey) (payload : Fields)
    → IsApartCapture (λ host s. capture_tool host identity key payload s)
unfolding capture_tool write insert_row
capture_tool-IsApart identity key payload host s = captured-IsApart s (
    write host
      (record {
        row = record (live_row host identity key "tool") {
          tool_args_json = get_or_null "args" payload;
          tool_result_json = get_or_null "result" payload;
        };
        text = Json.null;
        tool_name = get_or_null "name" payload;
        tool_call_id = get_or_null "tool_id" payload;
      })
      s.chat_messages)

capture_completed-IsApart :
    (identity : Option String) (key : BufferKey) (payload : Fields)
    → IsApartCapture (λ host s. capture_completed host identity key payload s)
unfolding capture_completed write insert_row
capture_completed-IsApart identity key payload host s =
    let streamed = lookup key s.reasoning in
    let claimed = claimed_reasoning host payload in
    let spent = or_none_spent (lookup key s.spent) in
    completed_turn-IsApart host key streamed claimed spent s (
      write host
        (assistant_row host identity key (get_or_null "text" payload)
          (final_reasoning streamed claimed spent))
        s.chat_messages)

capture_notice-IsApart :
    (identity : Option String) (key : BufferKey) (kind text : Json) (o : Option Bool)
    → IsApartCapture (λ host s. capture_notice host identity key kind text s o)
unfolding write insert_row
capture_notice-IsApart identity key kind text none host s = refl
capture_notice-IsApart identity key kind text (some false) host s = refl
capture_notice-IsApart identity key kind text (some true) host s = captured-IsApart s (
    write host
      (with_text
        (record (live_row host identity key "marker") {
          compacted = text_of kind == some "compacted";
        })
        text)
      s.chat_messages)

capture_status-IsApart :
    (identity : Option String) (key : BufferKey) (payload : Fields)
    → IsApartCapture (λ host s. capture_status host identity key payload s)
unfolding capture_status
capture_status-IsApart identity key payload =
    capture_notice-IsApart identity key (get_or_null "kind" payload) (get_or_null "text" payload)
      (is_captured_notice (get_or_null "kind" payload) (get_or_null "text" payload))

capture_subagent-IsApart :
    (identity : Option String) (key : BufferKey) (event_type : String) (payload : Fields)
    → IsApartCapture (λ host s. capture_subagent host identity key event_type payload s)
unfolding capture_subagent write insert_row
capture_subagent-IsApart identity key event_type payload host s =
    go (nonempty_str (get_or_null "subagent_id" payload))
  where
    row : Host → String → NewMessage
    row h subagent_id = record {
      row = record (live_row h identity key "subagent") {
        tool_args_json = Json.obj (public_fields payload);
      };
      text = Json.str (subagent_row_text event_type payload);
      tool_name = Json.str "delegate_task";
      tool_call_id = Json.str (
          text_append subagent_id
            (if event_type == "subagent.started" then "#start" else "#complete"));
    }

    at : Host → ChatStore → Option String → Captured
    at h t none = Captured.returned t none none
    at h t (some subagent_id) = captured t (write h (row h subagent_id) t.chat_messages)

    go :
        (o : Option String)
        → bare_captured (at host s o) ≡ bare_captured (at (plain host) (bare s) o)
    go none = refl
    go (some subagent_id) = captured-IsApart s (write host (row host subagent_id) s.chat_messages)

abbrev if_type :
    (event_type name : String) → (f g : Host → ChatStore → Captured) → Host → ChatStore → Captured
if_type event_type name f g h t = if event_type == name then f h t else g h t

if_type-IsApart :
    (event_type name : String) (f g : Host → ChatStore → Captured)
    → IsApartCapture f
    → IsApartCapture g
    → IsApartCapture (if_type event_type name f g)
if_type-IsApart event_type name f g p q host s =
    bare_captured-if (event_type == name) (f host s) (g host s) (f (plain host) (bare s))
      (g (plain host) (bare s)) (p host s) (q host s)

capture_type-IsApart :
    (identity : Option String) (key : BufferKey) (event_type : String) (payload : Fields)
    → IsApartCapture (λ host s. capture_type host identity key event_type payload s)
unfolding capture_type
capture_type-IsApart identity key event_type payload =
    if_type-IsApart event_type "reasoning.delta" held from_step_end
      (λ host s.
        ap (λ t. Captured.returned t none none) (hold_reasoning-IsApart key payload host s))
      (if_type-IsApart event_type "tool.started" step_end from_interim
        (capture_step_end-IsApart identity key)
        (if_type-IsApart event_type "message.interim" interim from_tool
          (capture_interim-IsApart identity key payload)
          (if_type-IsApart event_type "tool.completed" tool from_completed
            (capture_tool-IsApart identity key payload)
            (if_type-IsApart event_type "message.completed" completed from_status
              (capture_completed-IsApart identity key payload)
              (if_type-IsApart event_type "status.update" status subagent
                (capture_status-IsApart identity key payload)
                (capture_subagent-IsApart identity key event_type payload))))))
  where
    subagent : Host → ChatStore → Captured
    subagent h t = capture_subagent h identity key event_type payload t

    held : Host → ChatStore → Captured
    held h t = Captured.returned (hold_reasoning h key payload t) none none

    step_end : Host → ChatStore → Captured
    step_end h t = capture_step_end h identity key t

    interim : Host → ChatStore → Captured
    interim h t = capture_interim h identity key payload t

    tool : Host → ChatStore → Captured
    tool h t = capture_tool h identity key payload t

    completed : Host → ChatStore → Captured
    completed h t = capture_completed h identity key payload t

    status : Host → ChatStore → Captured
    status h t = capture_status h identity key payload t

    from_status : Host → ChatStore → Captured
    from_status = if_type event_type "status.update" status subagent

    from_completed : Host → ChatStore → Captured
    from_completed = if_type event_type "message.completed" completed from_status

    from_tool : Host → ChatStore → Captured
    from_tool = if_type event_type "tool.completed" tool from_completed

    from_interim : Host → ChatStore → Captured
    from_interim = if_type event_type "message.interim" interim from_tool

    from_step_end : Host → ChatStore → Captured
    from_step_end = if_type event_type "tool.started" step_end from_interim

capture_watched-IsApart :
    (found : Bool × WatchedSessions) (identity : Option String) (key : BufferKey)
    (event_type : String) (payload : Fields)
    → IsApartCapture (λ host s. capture_watched found host identity key event_type payload s)
capture_watched-IsApart (true, w) identity key event_type payload host s = refl
capture_watched-IsApart (false, w) identity key event_type payload host s =
    capture_type-IsApart identity key event_type payload host (record s { watched = w })

capture_stored-IsApart :
    (identity : Option String) (profile event_type : String) (turn_id : Option String)
    (o : Option (String × Fields))
    → IsApartCapture (λ host s. capture_stored host identity profile event_type turn_id o s)
capture_stored-IsApart identity profile event_type turn_id none host s = refl
capture_stored-IsApart identity profile event_type turn_id (some (stored_id, payload)) host s =
    capture_watched-IsApart (is_watched host.now (some stored_id) profile s.watched) identity
      (profile, (stored_id, turn_id)) event_type payload host s

capture-IsApart :
    (identity : Option String) (profile : String) (canonical : Canonical) (envelope : Fields)
    → IsApartCapture (λ host s. capture host identity profile canonical envelope s)
unfolding capture
capture-IsApart identity profile canonical envelope host s =
    let turn_id = nonempty_str (get_or_null "run_id" envelope) in
    let o = stored_id_of (payload_of (get_or_null "payload" envelope) canonical.payload) in
    bare_captured-if (any (λ t. t == canonical.type_name) read_event_types)
      (capture_stored host identity profile canonical.type_name turn_id o s)
      (Captured.returned s none none)
      (capture_stored (plain host) identity profile canonical.type_name turn_id o (bare s))
      (Captured.returned (bare s) none none)
      (capture_stored-IsApart identity profile canonical.type_name turn_id o host s) refl

logged-IsApart :
    (x y : Captured)
    → bare_captured x ≡ bare_captured y
    → bare_captured (logged x) ≡ bare_captured (logged y)
logged-IsApart x y p = commutes x ∙ ap logged p ∙ sym (commutes y)
  where
    commutes : (z : Captured) → bare_captured (logged z) ≡ logged (bare_captured z)
    commutes (Captured.returned s id told) = refl
    commutes (Captured.raised s) = refl

existing-IsApart :
    (profile : String) (payload : Json) (s : ChatStore) (o : Option ChatMessage) (x y : Captured)
    → bare_captured x ≡ bare_captured y
    → bare_captured (capture_or_existing profile payload s o x)
      ≡ bare_captured (capture_or_existing profile payload (bare s) o y)
existing-IsApart profile payload s none x y p = p
existing-IsApart profile payload s (some row) x y p =
    bare_captured-if (is_owned profile payload row) (Captured.returned s (some row.id) none)
      (Captured.raised s) (Captured.returned (bare s) (some row.id) none) (Captured.raised (bare s))
      refl refl

-- Whatever the archive holds and whether it answers: a call captures the same row with the same id, tells
-- of the same turn, raises in the same cases, and leaves the same rows, held reasoning and watches, as a
-- call on the store whose archive is empty and does not answer.
pub capture_event-apart :
    (host : Host) (profile : String) (canonical : Canonical) (envelope : Fields) (s : ChatStore)
    → bare_captured (capture_event host profile canonical envelope s)
      ≡ bare_captured (capture_event (plain host) profile canonical envelope (bare s))
unfolding capture_event
capture_event-apart host profile canonical envelope s =
    go (nonempty_str (get_or_null "_durable_capture_id" envelope))
  where
    at : Host → ChatStore → Option String → Captured
    at h t none = logged (capture h none profile canonical envelope t)
    at h t (some identity) =
        if h.available
        then capture_or_existing profile (get_or_null "payload" envelope) t
            (row_of identity t.chat_messages)
            (capture h (some identity) profile canonical envelope t)
        else Captured.raised t

    go :
        (o : Option String)
        → bare_captured (at host s o) ≡ bare_captured (at (plain host) (bare s) o)
    go none =
        logged-IsApart (capture host none profile canonical envelope s)
          (capture (plain host) none profile canonical envelope (bare s))
          (capture-IsApart none profile canonical envelope host s)
    go (some identity) =
        let x = capture host (some identity) profile canonical envelope s in
        let y = capture (plain host) (some identity) profile canonical envelope (bare s) in
        let o = row_of identity s.chat_messages in
        let payload = get_or_null "payload" envelope in
        bare_captured-if host.available (capture_or_existing profile payload s o x)
          (Captured.raised s) (capture_or_existing profile payload (bare s) o y)
          (Captured.raised (bare s))
          (existing-IsApart profile payload s o x y
            (capture-IsApart (some identity) profile canonical envelope host s))
          refl
