-- ===== src/Stream/Broadcaster/Pump.antt =====
-- gateway/domain/event_stream.py: the entry points of `EventBroadcaster`: one upstream event
-- (`_forward_one` under `_run`), the generation watch, `inject`, and `subscribe`.
use Prim.Native.String.{◌++◌ as str_append}
use astation.Prelude.{
  ℕ, ◌+◌, ◌-◌, String, Bool, true, false, Option, none, some, List, [], ◌∷◌, ◌++◌, if◌then◌else◌,
  leb, not, ◌||◌,
}
use astation.Prelude.Eq.{◌==◌, nat_eq, string_eq, option_eq}
use astation.Json.{Json, bool, str, obj, Fields, end, get_or_null, put, without}
use astation.Stream.Wire.{Wire, profile_field}
use astation.Stream.Frame.{
  bounded_client_frame_with_size, resync_required_frame, stream_reset_frame,
}
use astation.Stream.Subscriber
use astation.Stream.Subscriber.{Subscriber, offer}
use astation.Stream.History.{replay}
use astation.Inbox.{
  Row, EventInbox, bind_event, pending, acknowledge, event_id_of, bound_identity_field,
}
use astation.Stream.Broadcaster.{
  Held, Broadcaster, Oracle, Outcome, returned, raised, ◌>>=◌, catch, fan_out, identity_resync,
  hold, put_in_inbox, Stamped, stamped, stamp_session_identity, publish, deliver,
  durable_capture_id_field,
}

-- `_note_connection_generation`; what the generation hook raises is logged
unfoldable pub note_connection_generation : Wire → Oracle → Broadcaster → Outcome
note_connection_generation w o b = elim o.generation [
  | none ↦ returned b
  | some g ↦
      if b.generation_seen == some g
      then returned b
      else fan_out w o (resync_required_frame o.stamp (some g) b.generation_seen) (some g)
          (record b { generation_seen = some g })
]

abbrev pub with_capture_id : Fields → Fields
with_capture_id envelope =
    put durable_capture_id_field (str (str_append "cm_" (event_id_of envelope))) envelope

abbrev pub with_inbox : (EventInbox → EventInbox) → Option EventInbox → Broadcaster → Broadcaster
with_inbox f none b = b
with_inbox f (some inbox) b = record b { inbox = some (f inbox) }

abbrev pub on_inbox : (EventInbox → EventInbox) → Broadcaster → Broadcaster
on_inbox f b = with_inbox f b.inbox b

-- `self._inbox.acknowledge(...)`
abbrev pub acknowledged : Bool → Fields → Broadcaster → Outcome
acknowledged true envelope b = returned (on_inbox (acknowledge (event_id_of envelope)) b)
acknowledged false envelope b = raised b

-- `self._inbox.bind(...)`
abbrev pub bound_in_inbox : Bool → Fields → Broadcaster → Outcome
bound_in_inbox true envelope b = returned (on_inbox (bind_event envelope) b)
bound_in_inbox false envelope b = raised b

-- `try: _deliver(...); acknowledge(...)  except: _identity_resync('identity_capture_failed')`
unfoldable pub capture : Wire → Oracle → Fields → Option ℕ → Broadcaster → Outcome
capture w o envelope generation b =
    catch
      (deliver w o (with_capture_id envelope) generation b
        >>= acknowledged (o.inbox_acknowledges (event_id_of envelope)) envelope)
      (identity_resync w o "identity_capture_failed")

-- the flag that `envelope.pop('_bound_identity', False)` answers; the program writes only True there
abbrev pub is_flag_set : Json → Bool
is_flag_set (bool b) = b
is_flag_set _ = false

-- the capture of a frame once its owner is written to the inbox; `reason` is where that fails
abbrev pub capture_bound : Wire → Oracle → String → Fields → Outcome → Outcome
capture_bound w o reason envelope (returned b) = capture w o envelope o.generation b
capture_bound w o reason envelope (raised b) = identity_resync w o reason b

-- a row whose owner is not yet bound: the outcome of its stamp
unfoldable pub bind_row : Wire → Oracle → Stamped → Broadcaster → Outcome
bind_row w o (stamped envelope) b =
    capture_bound w o "identity_resolution_failed" envelope
      (bound_in_inbox (o.inbox_binds (event_id_of envelope)) envelope b)
bind_row w o Stamped.unbound b = returned b
bind_row w o Stamped.conflicting b = identity_resync w o "identity_conflict" b
bind_row w o Stamped.failed b = identity_resync w o "identity_resolution_failed" b

abbrev pub optional_text : Json → Option String
optional_text (str s) = some s
optional_text _ = none

-- one row of the inbox's page
unfoldable pub replay_row : Wire → Oracle → Row → Broadcaster → Outcome
replay_row w o r b =
    let envelope = without bound_identity_field r.envelope in
    if is_flag_set (get_or_null bound_identity_field r.envelope)
    then capture w o envelope o.generation b
    else bind_row w o
        (stamp_session_identity o r.raw_type o.generation
          (optional_text (get_or_null "timestamp" envelope)) envelope)
        b

unfoldable pub replay_rows : Wire → Oracle → List Row → Broadcaster → Outcome
replay_rows w o [] b = returned b
replay_rows w o (r ∷ rows) b = replay_row w o r b >>= replay_rows w o rows

abbrev pub last_id : List Row → Option String
last_id [] = none
last_id (r ∷ []) = some (event_id_of r.envelope)
last_id (r ∷ s ∷ rows) = last_id (s ∷ rows)

-- the page, where it can be read
abbrev pub replay_read : Wire → Oracle → Bool → List Row → Broadcaster → Outcome
replay_read w o true page b = replay_rows w o page (record b { inbox_cursor = last_id page })
replay_read w o false page b = identity_resync w o "identity_inbox_unavailable" b

abbrev pub replay_page : Wire → Oracle → Option EventInbox → Broadcaster → Outcome
replay_page w o none b = returned b
replay_page w o (some inbox) b =
    replay_read w o o.inbox_reads (pending b.identity_epoch b.inbox_cursor none inbox) b

-- the first part of `_replay_quarantine`
unfoldable pub replay_inbox : Wire → Oracle → Broadcaster → Outcome
replay_inbox w o b = replay_page w o b.inbox b

abbrev pub requeue : Held → Broadcaster → Broadcaster
requeue h b = record b {
  quarantine = b.quarantine ++ h ∷ [];
  quarantine_bytes = b.quarantine_bytes + h.size;
}

-- a held frame of this connection in time: the outcome of its stamp; no other exception is caught
unfoldable pub replay_stamped : Wire → Oracle → Held → Stamped → Broadcaster → Outcome
replay_stamped w o h (stamped envelope) b = deliver w o envelope h.generation b
replay_stamped w o h Stamped.unbound b = returned (requeue h b)
replay_stamped w o h Stamped.conflicting b = identity_resync w o "identity_conflict" b
replay_stamped w o h Stamped.failed b = raised b

unfoldable pub replay_held : Wire → Oracle → Held → Broadcaster → Outcome
replay_held w o h b =
    if not (h.generation == o.generation)
    then identity_resync w o "identity_quarantine_generation_changed" b
    else if leb b.quarantine_max_age (o.now - h.arrived)
    then identity_resync w o "identity_quarantine_expired" b
    else replay_stamped w o h (stamp_session_identity o h.raw_type h.generation none h.envelope) b

unfoldable pub replay_all_held : Wire → Oracle → List Held → Broadcaster → Outcome
replay_all_held w o [] b = returned b
replay_all_held w o (h ∷ held) b = replay_held w o h b >>= replay_all_held w o held

-- the second part of `_replay_quarantine`
unfoldable pub replay_memory : Wire → Oracle → Broadcaster → Outcome
replay_memory w o b =
    replay_all_held w o b.quarantine (record b { quarantine = []; quarantine_bytes = 0 })

unfoldable pub replay_quarantine : Wire → Oracle → Broadcaster → Outcome
replay_quarantine w o b = replay_inbox w o b >>= replay_memory w o

-- What `_forward_one` reads of a raw event: `_adapter_generation` where it is given, the type, and the
-- result of `normalize_event(...).to_dict()`.
pub record RawEvent : Type 0 where
  pub adapter_generation : Option (Option ℕ)
  pub raw_type : Option String
  pub normalized : Option Fields

abbrev pub generation_or : Option ℕ → Option (Option ℕ) → Option ℕ
generation_or generation none = generation
generation_or generation (some g) = g

abbrev pub forward_bound : Wire → Oracle → Fields → Option EventInbox → Broadcaster → Outcome
forward_bound w o bound none b = deliver w o bound o.generation b
forward_bound w o bound (some inbox) b =
    capture_bound w o "identity_capture_failed" bound
      (bound_in_inbox (o.inbox_binds (event_id_of bound)) bound b)

-- `_forward_one` from the result of the stamp
unfoldable pub forward_stamped :
    Wire → Oracle → Fields → Option String → Stamped → Broadcaster → Outcome
forward_stamped w o envelope raw_type (stamped bound) b = forward_bound w o bound b.inbox b
forward_stamped w o envelope raw_type Stamped.unbound b = hold w o o.generation envelope raw_type b
forward_stamped w o envelope raw_type Stamped.conflicting b =
    identity_resync w o "identity_conflict" b
forward_stamped w o envelope raw_type Stamped.failed b =
    hold w o o.generation envelope raw_type b >>= identity_resync w o "identity_resolution_failed"

-- the write to the inbox that goes before the stamp
abbrev pub record_first :
    Wire → Oracle → Fields → Option String → Option EventInbox → Broadcaster → Option Broadcaster
record_first w o envelope raw_type none b = some b
record_first w o envelope raw_type (some inbox) b = put_in_inbox w o envelope raw_type inbox b

abbrev pub forward_recorded :
    Wire → Oracle → Option String → Fields → Broadcaster → Option Broadcaster → Outcome
forward_recorded w o raw_type envelope b none = identity_resync w o "identity_inbox_unavailable" b
forward_recorded w o raw_type envelope b (some b') =
    forward_stamped w o envelope raw_type
      (stamp_session_identity o raw_type o.generation
        (optional_text (get_or_null "timestamp" envelope)) envelope)
      b'

unfoldable pub forward_envelope : Wire → Oracle → Option String → Fields → Broadcaster → Outcome
forward_envelope w o raw_type envelope b =
    forward_recorded w o raw_type envelope b (record_first w o envelope raw_type b.inbox b)

abbrev pub forward_optional : Wire → Oracle → Option String → Option Fields → Broadcaster → Outcome
forward_optional w o raw_type none b = returned b
forward_optional w o raw_type (some envelope) b = forward_envelope w o raw_type envelope b

unfoldable pub forward_normalized : Wire → Oracle → RawEvent → Broadcaster → Outcome
forward_normalized w o e b =
    if not (generation_or o.generation e.adapter_generation == o.generation)
    then identity_resync w o "identity_event_generation_changed" b
    else forward_optional w o e.raw_type e.normalized b

-- `_forward_one`
unfoldable pub forward_one : Wire → Oracle → RawEvent → Broadcaster → Outcome
forward_one w o e b =
    note_connection_generation w o b >>= replay_quarantine w o >>= forward_normalized w o e

-- one round of `_watch_generation`
unfoldable pub watch_generation : Wire → Oracle → Broadcaster → Outcome
watch_generation w o b = note_connection_generation w o b >>= replay_quarantine w o

abbrev pub publish_optional : Wire → Oracle → Option Fields → Broadcaster → Outcome
publish_optional w o none b = returned b
publish_optional w o (some frame) b = publish w o frame b.generation_seen b

-- `inject`
unfoldable pub inject : Wire → Oracle → Fields → String → Broadcaster → Outcome
inject w o envelope profile b =
    let payload : Fields = elim (get_or_null "payload" envelope) [ obj d ↦ d | _ ↦ end ] in
    let owned = put "payload" (obj (put profile_field (str profile) payload)) envelope in
    publish_optional w o (bounded_client_frame_with_size w owned).0 b

abbrev pub then_offer :
    Option (Bool × Subscriber) → (Subscriber → Option Subscriber) → Option Subscriber
then_offer none f = none
then_offer (some (queued, s)) f = f s

abbrev pub offer_sized :
    Wire → Oracle → Fields → String → Option ℕ → Subscriber → Option (Bool × Subscriber)
offer_sized w o frame text none s = none
offer_sized w o frame text (some size) s = offer w o.stamp frame size o.generation (some text) s

-- the offers of `subscribe` to the new feed; `none` where one raises
unfoldable pub offer_replay :
    Wire → Oracle → List (Fields × String) → Subscriber → Option Subscriber
offer_replay w o [] s = some s
offer_replay w o ((frame, text) ∷ frames) s =
    then_offer (offer_sized w o frame text (w.utf8_size text) s) (offer_replay w o frames)

abbrev pub registered : Broadcaster → Option Subscriber → Outcome
registered b none = raised b
registered b (some s) = returned (record b { subscribers = b.subscribers ++ s ∷ [] })

-- `subscribe` up to its `yield`; a feed that raises is discarded
unfoldable pub subscribe : Wire → Oracle → Bool → Option ℕ → Broadcaster → Outcome
subscribe w o is_encoded after b =
    let answer = replay after b.history in
    let reset = stream_reset_frame o.stamp o.generation in
    let frames =
      if answer.1 || b.identity_gap then (reset, w.encode_frame reset) ∷ [] else answer.0 in
    registered b
      (offer_replay w o frames (Subscriber.new b.max_queued_frames b.max_queued_bytes is_encoded))
