-- ===== src/Stream/Broadcaster.antt =====
-- gateway/domain/event_stream.py: `EventBroadcaster`, with its history, subscribers, quarantine and
-- inbox. An operation is a function from the state to its outcome: it returns, or it raises and what
-- was written stays written. What the environment answers during one operation is an `Oracle`.
pub mod Pump
pub mod Preserve
pub mod Quarantine
pub mod Numbering
pub mod Feeds
pub mod Operations
use astation.Prelude.{
  ℕ, suc, ◌+◌, ◌-◌, String, Bool, true, false, Option, none, some, List, [], ◌∷◌, ◌++◌,
  if◌then◌else◌, leb, ltb, length, not, ◌||◌, is_none,
}
use astation.Prelude.Eq.{◌==◌, nat_eq, string_eq, option_eq}
use astation.Json.{
  ℤ, Json, null, bool, int, str, obj, num, Fields, end, get, get_or_null, put, without,
  nonempty_str,
}
use astation.Stream.Wire.{
  Wire, Stamp, stored_session_id_field, live_session_id_field, connection_generation_field,
  profile_field,
}
use astation.Stream.Frame.{
  bounded_client_frame_with_size, bounded_client_frame, resync_required_frame, stream_reset_frame,
  session_identity_from_payload, optional_num,
}
use astation.Stream.Subscriber
use astation.Stream.Subscriber.{Subscriber, offer}
use astation.Stream.History
use astation.Stream.History.{Entry, History, push, replay}
use astation.Inbox.{
  Row, EventInbox, put_event, bind_event, pending, acknowledge, event_id_of, bound_identity_field,
}

-- An entry of `_quarantine`; `canonical` is read for its type only, which stands in the envelope.
pub record Held : Type 0 where
  pub generation : Option ℕ
  pub envelope : Fields
  pub raw_type : Option String
  pub arrived : ℕ
  pub size : ℕ

-- `subscribers` is a set in the source; its order is left to the list.
pub record Broadcaster : Type 0 where
  pub subscribers : List Subscriber
  pub stream_epoch : String
  pub next_seq : ℕ
  pub history : History
  pub max_queued_frames : ℕ
  pub max_queued_bytes : ℕ
  pub profile : String
  pub generation_seen : Option ℕ
  pub quarantine : List Held
  pub quarantine_bytes : ℕ
  pub quarantine_max_frames : ℕ
  pub quarantine_max_bytes : ℕ
  pub quarantine_max_age : ℕ
  pub identity_gap : Bool
  pub inbox : Option EventInbox
  pub inbox_cursor : Option String
  pub identity_epoch : String

-- What the resolution of a session's identity comes to: stored id, live id and profile, or one of
-- the two named exceptions, or another exception.
pub data Resolution : Type 0 where
  resolved : Option String → Option String → String → Resolution
  unbound : Resolution
  conflicting : Resolution
  failed : Resolution

-- The adapter's generation, the clock, fresh ids, the identity resolver (given the ids, and the time
-- of observation where one is passed), the two hooks, which answer the envelope that they leave
-- behind, or raise, and whether the inbox's database answers: a write, the read of a page, and the
-- binding and the acknowledgement of an event by its id. Where it does not, the call raises.
pub record Oracle : Type 0 where
  pub generation : Option ℕ
  pub now : ℕ
  pub stamp : Stamp
  pub resolve : Option String → Option String → Option String → Resolution
  pub on_canonical_event : Fields → Option Fields
  pub on_background_complete : Fields → Option (Fields × Option Fields)
  pub inbox_writes : Bool
  pub inbox_reads : Bool
  pub inbox_binds : String → Bool
  pub inbox_acknowledges : String → Bool

pub data Outcome : Type 0 where
  returned : Broadcaster → Outcome
  raised : Broadcaster → Outcome

infixl 5 ◌>>=◌
abbrev pub ◌>>=◌ : Outcome → (Broadcaster → Outcome) → Outcome
returned b >>= f = f b
raised b >>= f = raised b

-- `try: m except Exception: handler`
abbrev pub catch : Outcome → (Broadcaster → Outcome) → Outcome
catch (returned b) handler = returned b
catch (raised b) handler = handler b

abbrev pub state_of : Outcome → Broadcaster
state_of (returned b) = b
state_of (raised b) = b

-- The offers of `_fan_out`; a subscriber whose `put_nowait` raises ends the loop.
unfoldable pub offer_all :
    Wire → Stamp → Fields → ℕ → Option ℕ → String → List Subscriber → List Subscriber × Bool
offer_all w stamp frame size generation text [] = ([], true)
offer_all w stamp frame size generation text (s ∷ subscribers) =
    let rest = offer_all w stamp frame size generation text subscribers in
    elim (offer w stamp frame size generation (some text) s) [
      | none ↦ (s ∷ subscribers, false)
      | some (queued, s') ↦ (s' ∷ rest.0, rest.1)
    ]

-- `seq` where it is an int above 0
abbrev pub numbered : Json → Option ℕ
numbered (int (ℤ.pos (suc n))) = some (suc n)
numbered (bool true) = some 1
numbered _ = none

abbrev pub remember_as : Option ℕ → Fields → String → History → History
remember_as none frame text h = h
remember_as (some seq) frame text h = push (record { seq = seq; frame = frame; text = text }) h

abbrev pub remember : Fields → String → History → History
remember frame text h = remember_as (numbered (get_or_null "seq" frame)) frame text h

abbrev pub ended : Bool → Broadcaster → Outcome
ended ok b = if ok then returned b else raised b

abbrev pub with_epoch : Fields → Broadcaster → Fields
with_epoch frame b = put "stream_epoch" (str b.stream_epoch) frame

abbrev pub fan_out_sized : Wire → Oracle → Fields → Option ℕ → Option ℕ → Broadcaster → Outcome
fan_out_sized w o frame generation none b = raised b
fan_out_sized w o frame generation (some size) b =
    let text = w.encode_frame frame in
    let offered = offer_all w o.stamp frame size generation text b.subscribers in
    ended offered.1 (record b { history = remember frame text b.history; subscribers = offered.0 })

-- `_fan_out`
unfoldable pub fan_out : Wire → Oracle → Fields → Option ℕ → Broadcaster → Outcome
fan_out w o frame generation b =
    fan_out_sized w o (with_epoch frame b) generation
      (w.utf8_size (w.encode_frame (with_epoch frame b))) b

abbrev pub updated_payload : (Fields → Fields) → Fields → Fields
updated_payload f frame = elim (get_or_null "payload" frame) [
  | obj body ↦ put "payload" (obj (f body)) frame
  | _ ↦ frame
]

-- `_identity_resync`
unfoldable pub identity_resync : Wire → Oracle → String → Broadcaster → Outcome
identity_resync w o reason b =
    fan_out w o
      (updated_payload (λ d. put "_must_resync" (bool true) (put "_reason" (str reason) d))
        (stream_reset_frame o.stamp o.generation))
      o.generation (record b { identity_gap = true })

-- `_hold` without an inbox
unfoldable pub hold_in_memory :
    Wire → Oracle → Option ℕ → Fields → Option String → Broadcaster → Outcome
hold_in_memory w o generation envelope raw_type b =
    let size = w.frame_size envelope in
    if leb b.quarantine_max_frames (length b.quarantine)
      || ltb b.quarantine_max_bytes (b.quarantine_bytes + size)
    then identity_resync w o "identity_quarantine_overflow" b
    else returned (record b {
      quarantine =
          b.quarantine
          ++ record {
            generation = generation;
            envelope = envelope;
            raw_type = raw_type;
            arrived = o.now;
            size = size;
          }
            ∷ [];
      quarantine_bytes = b.quarantine_bytes + size;
    })

-- an inbox write that may raise
abbrev pub stored : Broadcaster → Option EventInbox → Option Broadcaster
stored b none = none
stored b (some inbox) = some (record b { inbox = some inbox })

abbrev pub put_in_inbox :
    Wire → Oracle → Fields → Option String → EventInbox → Broadcaster → Option Broadcaster
put_in_inbox w o envelope raw_type inbox b =
    if o.inbox_writes then stored b (put_event w b.identity_epoch envelope raw_type inbox) else none

abbrev pub held_or_gap : Wire → Oracle → Broadcaster → Option Broadcaster → Outcome
held_or_gap w o b none = identity_resync w o "identity_inbox_unavailable" b
held_or_gap w o b (some b') = returned b'

abbrev pub hold_in :
    Wire → Oracle → Option ℕ → Fields → Option String → Option EventInbox → Broadcaster → Outcome
hold_in w o generation envelope raw_type none b = hold_in_memory w o generation envelope raw_type b
hold_in w o generation envelope raw_type (some inbox) b =
    held_or_gap w o b (put_in_inbox w o envelope raw_type inbox b)

-- `_hold`
unfoldable pub hold : Wire → Oracle → Option ℕ → Fields → Option String → Broadcaster → Outcome
hold w o generation envelope raw_type b = hold_in w o generation envelope raw_type b.inbox b

abbrev pub optional_str : Option String → Json
optional_str none = null
optional_str (some s) = str s

-- `_stamp_session_identity` on the envelope's payload: the frame with its owner, or the exception
pub data Stamped : Type 0 where
  stamped : Fields → Stamped
  unbound : Stamped
  conflicting : Stamped
  failed : Stamped

abbrev pub with_identity : Option String → Option String → String → Option ℕ → Fields → Fields
with_identity stored_id live_id profile generation payload = put profile_field (str profile) (
    put connection_generation_field (optional_num generation) (
      put live_session_id_field (optional_str live_id)
        (put stored_session_id_field (optional_str stored_id) payload)))

unfoldable pub stamp_session_identity :
    Oracle → Option String → Option ℕ → Option String → Fields → Stamped
stamp_session_identity o raw_type generation observed_at envelope =
    elim (get_or_null "payload" envelope) [
      | obj payload ↦
          let ids = session_identity_from_payload raw_type payload in
          elim (o.resolve ids.0 ids.1 observed_at) [
            | resolved stored_id live_id profile ↦ stamped (
                put "payload" (obj (with_identity stored_id live_id profile generation payload))
                  envelope)
            | unbound ↦ unbound
            | conflicting ↦ conflicting
            | failed ↦ failed
          ]
      | _ ↦ failed
    ]

-- `frame["seq"] = next(self._seq)`, then `_fan_out`
unfoldable pub publish : Wire → Oracle → Fields → Option ℕ → Broadcaster → Outcome
publish w o frame generation b =
    fan_out w o (put "seq" (num b.next_seq) frame) generation
      (record b { next_seq = suc b.next_seq })

abbrev pub durable_capture_id_field : String
durable_capture_id_field = "_durable_capture_id"

abbrev pub background_completed : String
background_completed = "background.completed"

-- the answer of the background hook: what it raises is logged, and the frame goes on
abbrev pub after_background : Fields → Option (Fields × Option Fields) → Fields × Option Fields
after_background envelope none = (envelope, none)
after_background envelope (some answer) = answer

unfoldable pub background_step : Oracle → Fields → Fields × Option Fields
background_step o envelope =
    if nonempty_str (get_or_null "type" envelope) == some background_completed
    then after_background envelope (o.on_background_complete envelope)
    else (envelope, none)

abbrev pub publish_injected : Wire → Oracle → Option Fields → Option ℕ → Broadcaster → Outcome
publish_injected w o none generation b = returned b
publish_injected w o (some injected) generation b = elim (bounded_client_frame w injected) [
  | none ↦ returned b
  | some frame ↦ fan_out w o (put "seq" (num 0) frame) generation b
]

-- `_deliver` after the canonical-event hook
unfoldable pub deliver_captured : Wire → Oracle → Fields → Option ℕ → Broadcaster → Outcome
deliver_captured w o envelope generation b =
    let answer = background_step o envelope in
    elim (bounded_client_frame_with_size w answer.0).0 [
      | none ↦ returned b
      | some frame ↦ publish w o frame generation b >>= publish_injected w o answer.1 generation
    ]

-- `_deliver`; the hook's exception is passed on for a durable capture, and else logged
unfoldable pub deliver : Wire → Oracle → Fields → Option ℕ → Broadcaster → Outcome
deliver w o envelope generation b = elim (o.on_canonical_event envelope) [
  | some envelope' ↦ deliver_captured w o envelope' generation b
  | none ↦
      if is_none (nonempty_str (get_or_null durable_capture_id_field envelope))
      then deliver_captured w o envelope generation b
      else raised b
]
