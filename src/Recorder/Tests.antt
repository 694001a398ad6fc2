-- ===== src/Recorder/Tests.antt =====
-- Frames of one session, from its first to its closing one.
use astation.Prelude.{
  ◌≡◌, refl, String, true, false, Bool-cases, inl, inr, some, List, [], ◌∷◌, length,
}
use astation.Prelude.Eq.{◌==◌, string_eq}
use astation.Json.{Json, Fields}
use astation.Runs.{open_run, close_run}
use astation.Watch
use astation.Recorder.{
  Host, Canonical, RunRecorder, completion_close, is_persisted_event_type, ends_with, handle_event,
  transaction, persist_run_event, remember_request, open_run_in, add_run, add_event,
  handle_generation_change, sweep,
}
use astation.Recorder.Calls.{IsValid, state_of}
use astation.Recorder.Histories.{Call, call, call_all, call_all-IsValid}
use astation.Recorder.Once.{ledger_of, handle_event-again}

abbrev host : String → String → Host
host run_id event_id = record {
  available = true;
  new_run_id = run_id;
  new_event_id = event_id;
  now = 5;
  persisted_event_id = λ id. id;
  strip = λ text. text;
}

abbrev down : Host
down = record (host "run_9" "e9") { available = false }

abbrev canonical : String → String → Canonical
canonical type_name event_id = record { type_name = type_name; event_id = event_id; timestamp = 5 }

abbrev empty : RunRecorder
empty = record {
  db = record { runs = []; run_events = []; sessions = [] };
  open_runs = [];
  watched = Watch.new;
}

abbrev payload : Json
payload = Json.obj (Fields.field "_stored_session_id" (Json.str "s1") Fields.end)

abbrev envelope : Fields
envelope =
    Fields.field "_durable_capture_id" (Json.str "c1") (Fields.field "payload" payload Fields.end)

abbrev calls : List Call
calls =
    Call.frame (host "run_1" "e1") (canonical "tool.started" "a") envelope "default"
    ∷ Call.frame (host "run_2" "e2") (canonical "tool.completed" "b") envelope "default"
    ∷ Call.frame (host "run_2" "e2") (canonical "tool.completed" "b") envelope "default"
    ∷ Call.frame down (canonical "tool.started" "c") envelope "default"
    ∷ Call.frame (host "run_3" "e3") (canonical "message.completed" "d") envelope "default"
    ∷ Call.frame (host "run_4" "e4") (canonical "tool.started" "e") envelope "default"
    ∷ Call.new_connection (host "run_5" "e5")
    ∷ []

nothing_watched :
    (stored_id : String) → (Watch.is_watched 5 (some stored_id) "default" Watch.new).0 ≡ false
unfolding Watch.is_watched
nothing_watched stored_id = elim (Bool-cases (stored_id == "")) [
  | inl none_given ↦ rw none_given refl
  | inr given ↦ rw given refl
]

empty-IsValid : IsValid empty
empty-IsValid = record { unique_keys = tt; open_valid = tt; numbered = tt; has_run = tt }

call_all-IsValid_example : IsValid (call_all calls empty)
call_all-IsValid_example = call_all-IsValid calls empty empty-IsValid

handle_event-again_example :
    let s =
      state_of (
        handle_event (host "run_1" "e1") (canonical "tool.started" "a") envelope "default" empty) in
    ledger_of (
      state_of
        (handle_event (host "run_2" "e2") (canonical "tool.started" "a") envelope "default" s))
    ≡ ledger_of s
unfolding transaction persist_run_event open_run_in add_run add_event is_persisted_event_type
    Watch.is_watched handle_event open_run remember_request ends_with
handle_event-again_example =
    handle_event-again (host "run_1" "e1") (host "run_2" "e2") (canonical "tool.started" "a")
      envelope "default" empty refl refl refl refl nothing_watched tt

four_events : length (call_all calls empty).db.run_events ≡ 4
unfolding transaction persist_run_event open_run_in add_run add_event is_persisted_event_type
    Watch.is_watched handle_event open_run remember_request ends_with call_all call
    handle_generation_change sweep completion_close close_run
four_events = refl

requested_suffix : ends_with ".requested" "approval.requested" ≡ true
unfolding ends_with
requested_suffix = refl
