-- ===== src/Stream/Wire.antt =====
-- gateway/domain/event_stream.py: the names and limits of the frames, and what the gateway takes
-- from Python's `json`, `uuid` and `datetime`.
use astation.Prelude.{ℕ, ◌*◌, String, Option, List, [], ◌∷◌}
use astation.Json.{Json, Fields}

-- `json.dumps` is taken as it is: `frame_size` is `len(json.dumps(f).encode())`, `encode_frame` is
-- `_encode_frame`, and `utf8_size` is `len(text.encode("utf-8"))`, with `none` where `encode` raises
-- (a text with a lone surrogate). `repr` is Python's.
pub record Wire : Type 0 where
  pub frame_size : Fields → ℕ
  pub encode_frame : Fields → String
  pub utf8_size : String → Option ℕ
  pub repr : Json → String

-- A fresh event id, and the time.
pub record Stamp : Type 0 where
  pub event_id : String
  pub timestamp : String

abbrev pub max_client_frame_bytes : ℕ
max_client_frame_bytes = 900_000

abbrev pub max_placeholder_dropped_keys : ℕ
max_placeholder_dropped_keys = 32

abbrev pub max_placeholder_key_chars : ℕ
max_placeholder_key_chars = 64

abbrev pub max_placeholder_envelope_chars : ℕ
max_placeholder_envelope_chars = 128

abbrev pub max_subscriber_queued_frames : ℕ
max_subscriber_queued_frames = 2048

abbrev pub max_subscriber_queued_bytes : ℕ
max_subscriber_queued_bytes = 8 * 1024 * 1024

abbrev pub stored_session_id_field : String
stored_session_id_field = "_stored_session_id"

abbrev pub live_session_id_field : String
live_session_id_field = "_live_session_id"

abbrev pub connection_generation_field : String
connection_generation_field = "_connection_generation"

abbrev pub profile_field : String
profile_field = "_profile"

abbrev pub session_identity_fields : List String
session_identity_fields =
    stored_session_id_field ∷ live_session_id_field ∷ connection_generation_field ∷ profile_field
    ∷ []

abbrev pub truncation_reason : String
truncation_reason =
    "event payload exceeded the gateway->app WebSocket frame budget and was dropped; receiving it would have closed the event socket"

abbrev pub desynchronized_message : String
desynchronized_message =
    "this client fell too far behind the event stream; the gateway stopped buffering for it and the transcript must be reloaded"
