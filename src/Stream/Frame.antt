-- ===== src/Stream/Frame.antt =====
-- gateway/domain/event_stream.py: bounding a frame to what a client's socket accepts, and the frames
-- that the gateway makes itself.
pub mod Bounded
use Prim.Native.String.{count, ◌++◌}
use astation.Prelude.{
  ℕ, zero, suc, String, Bool, true, false, Option, none, some, List, [], ◌∷◌, map, if◌then◌else◌,
  leb, length, take, keep_if, not, is_none,
}
use astation.Prelude.Eq.{◌==◌, string_eq, option_eq}
use astation.Json.{
  ℤ, negsuc, Json, null, bool, int, str, arr, obj, num, Fields, end, field, get, get_or_null, put,
  keys, strings, sorted, nonempty_str,
}
use astation.Stream.Wire.{
  Wire, Stamp, max_client_frame_bytes, max_placeholder_dropped_keys, max_placeholder_key_chars,
  max_placeholder_envelope_chars, session_identity_fields, connection_generation_field,
  truncation_reason, desynchronized_message,
}

-- `text[:limit]`
abbrev pub take_chars : ℕ → String → String
take_chars zero s = String.[]
take_chars (suc n) String.[] = String.[]
take_chars (suc n) (String.◌∷◌ c s) = String.◌∷◌ c (take_chars n s)

abbrev pub text_of : Wire → Json → String
text_of w (str s) = s
text_of w v = w.repr v

unfoldable pub bounded_str : Wire → Json → ℕ → String
bounded_str w v limit =
    let text = text_of w v in
    if leb (count text) limit then text else take_chars limit text ++ "..."

unfoldable pub bounded_optional_str : Wire → Json → ℕ → Json
bounded_optional_str w null limit = null
bounded_optional_str w v limit = str (bounded_str w v limit)

-- the value under which `_kept_session_identity` keeps a field
unfoldable pub kept_value : Wire → Json → Json
kept_value w null = null
kept_value w (int n) = int n
kept_value w v = str (bounded_str w v max_placeholder_envelope_chars)

-- the loop of `_kept_session_identity` over the names of the fields
unfoldable pub kept_fields : Wire → List String → Fields → Fields → Fields
unfolding kept_value
kept_fields w [] body kept = kept
kept_fields w (name ∷ names) body kept =
    kept_fields w names body
      (elim (get name body) [ none ↦ kept | some v ↦ put name (kept_value w v) kept ])

unfoldable pub kept_session_identity : Wire → Fields → Fields
unfolding kept_fields
kept_session_identity w payload = elim (get_or_null "payload" payload) [
  | obj body ↦ kept_fields w session_identity_fields body end
  | _ ↦ end
]

-- `sorted(k for k in dropped if k not in kept)`
unfoldable pub dropped_keys : Json → Fields → List String
unfolding sorted
dropped_keys (obj body) kept = sorted (keep_if (λ k. is_none (get k kept)) (keys body))
dropped_keys _ kept = []

unfoldable pub oversized_event_placeholder : Wire → Fields → ℕ → Fields
unfolding kept_session_identity dropped_keys bounded_str
oversized_event_placeholder w payload size =
    let kept = kept_session_identity w payload in
    let dropped = dropped_keys (get_or_null "payload" payload) kept in
    put "payload"
      (obj (
        put "_dropped_keys"
          (arr (
            strings (
              map (λ (k : String). bounded_str w (str k) max_placeholder_key_chars)
                (take max_placeholder_dropped_keys dropped))))
          (put "_dropped_key_count" (num (length dropped)) (
            put "_limit_bytes" (num max_client_frame_bytes) (
              put "_original_bytes" (num size)
                (put "_reason" (str truncation_reason) (put "_truncated" (bool true) kept)))))))
      payload

-- `seq if isinstance(seq, int) else -1`; Python's booleans are ints
abbrev pub int_or_minus_one : Json → Json
int_or_minus_one (int n) = int n
int_or_minus_one (bool b) = bool b
int_or_minus_one _ = int (negsuc 0)

unfoldable pub minimal_event_placeholder : Wire → Fields → ℕ → Fields
unfolding kept_session_identity bounded_str bounded_optional_str
minimal_event_placeholder w payload size =
    let text =
      λ (k : String). str (bounded_str w (get_or_null k payload) max_placeholder_envelope_chars) in
    let optional = λ (k : String).
      bounded_optional_str w (get_or_null k payload) max_placeholder_envelope_chars in
    field "event_id" (text "event_id") (
      field "project_id" (optional "project_id") (
        field "session_id" (optional "session_id") (
          field "run_id" (optional "run_id") (
            field "seq" (int_or_minus_one (get_or_null "seq" payload)) (
              field "type" (text "type") (
                field "timestamp" (text "timestamp") (
                  field "payload"
                    (obj (
                      put "_limit_bytes" (num max_client_frame_bytes) (
                        put "_original_bytes" (num size) (
                          put "_reason" (str truncation_reason)
                            (put "_truncated" (bool true) (kept_session_identity w payload))))))
                    end)))))))

-- the loop over the two candidates
unfoldable pub first_fitting : Wire → List Fields → ℕ → Option Fields × ℕ
first_fitting w [] size = (none, size)
first_fitting w (candidate ∷ others) size =
    if leb (w.frame_size candidate) max_client_frame_bytes
    then (some candidate, w.frame_size candidate)
    else first_fitting w others size

unfoldable pub bounded_client_frame_with_size : Wire → Fields → Option Fields × ℕ
unfolding oversized_event_placeholder minimal_event_placeholder first_fitting
bounded_client_frame_with_size w payload =
    let size = w.frame_size payload in
    if leb size max_client_frame_bytes
    then (some payload, size)
    else first_fitting w
        (oversized_event_placeholder w payload size ∷ minimal_event_placeholder w payload size ∷ [])
        size

unfoldable pub bounded_client_frame : Wire → Fields → Option Fields
unfolding bounded_client_frame_with_size
bounded_client_frame w payload = (bounded_client_frame_with_size w payload).0

-- `int | None`
abbrev pub optional_num : Option ℕ → Json
optional_num none = null
optional_num (some n) = num n

-- `{**a, **b}`
abbrev pub updated : Fields → Fields → Fields
updated a end = a
updated a (field k v b) = updated (put k v a) b

unfoldable pub gateway_frame : Stamp → String → Fields → Option ℕ → Fields
gateway_frame stamp event_type payload generation = field "event_id" (str stamp.event_id) (
    field "project_id" null (
      field "session_id" null (
        field "run_id" null (
          field "seq" (num 0) (
            field "type" (str event_type) (
              field "timestamp" (str stamp.timestamp) (
                field "payload"
                  (obj (
                    updated
                      (field "_gateway_generated" (bool true)
                        (field connection_generation_field (optional_num generation) end))
                      payload))
                  end)))))))

unfoldable pub stream_ready_frame : Stamp → Option ℕ → Bool → Fields
unfolding gateway_frame
stream_ready_frame stamp generation replay =
    gateway_frame stamp "stream.ready" (field "replay" (bool replay) end) generation

unfoldable pub resync_required_frame : Stamp → Option ℕ → Option ℕ → Fields
unfolding gateway_frame
resync_required_frame stamp generation previous =
    gateway_frame stamp "stream.resync"
      (field "_reason" (str "hermes_connection_replaced") (
        field "_live_handles_invalid" (bool true)
          (field "_previous_connection_generation" (optional_num previous) end)))
      generation

unfoldable pub stream_reset_frame : Stamp → Option ℕ → Fields
unfolding gateway_frame
stream_reset_frame stamp generation = gateway_frame stamp "stream.reset" end generation

unfoldable pub desynchronized_frame : Stamp → Option ℕ → Json → Json → String → ℕ → ℕ → Fields
unfolding gateway_frame
desynchronized_frame stamp generation last_delivered first_dropped reason limit_frames limit_bytes =
    gateway_frame stamp "stream.desynchronized"
      (field "_reason" (str reason) (
        field "_message" (str desynchronized_message) (
          field "_must_resync" (bool true) (
            field "_last_delivered_seq" last_delivered (
              field "_first_dropped_seq" first_dropped (
                field "_limit_frames" (num limit_frames)
                  (field "_limit_bytes" (num limit_bytes) end)))))))
      generation

-- `raw_session` as a live handle, where it is a text that is not empty
abbrev pub live_of : Fields → Option String
live_of payload = nonempty_str (get_or_null "session_id" payload)

-- `(stored_id, live_id)`
unfoldable pub session_identity_from_payload :
    Option String → Fields → Option String × Option String
session_identity_from_payload raw_type payload =
    elim (nonempty_str (get_or_null "stored_session_id" payload)) [
      | some stored ↦ (some stored, live_of payload)
      | none ↦
          if raw_type == some "session.title"
          then (live_of payload, none)
          else (none, live_of payload)
    ]
