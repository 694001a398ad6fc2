-- ===== src/Recorder/Histories.antt =====
-- Any sequence of frames, replaced connections, starts and answers.
use astation.Prelude.{String, List, [], ◌∷◌}
use astation.Prelude.Eq.{string_eq, pair_eq}
use astation.Json.{Fields}
use astation.Recorder
use astation.Recorder.{
  OpenRun, RunKey, Database, RunRecorder, Host, Canonical, Handled, run_of, event_of, transaction,
  is_persisted_event_type, run_closing_type, seq_for, after_transaction, record_frame, handle_found,
  is_opening, retried_or, handle_durable, handle_unwatched, handle_watched, handle_stored,
  stored_id_of, non_run_types, is_in, persisted, persist_run_event, add_event, opened,
  opened_or_made, closed, close_found, closed_by, completion_close, replaced, then_do, if_available,
  row_id, object_or_null,
}
use astation.Recorder.Requests
use astation.Recorder.Calls.{
  IsValid, state_of, handle_event-IsValid, sweep-IsValid, handle_generation_change-IsValid,
}
use astation.Recorder.Answers.{record_synthetic-IsValid}

-- What may be called: a frame, a replaced connection, the sweep of a start, and an answer.
pub data Call : Type 0 where
  frame : Host → Canonical → Fields → String → Call
  new_connection : Host → Call
  start : Host → Call
  answer : Host → String → String → Fields → String → Call

unfoldable pub call : Call → RunRecorder → RunRecorder
call (frame host canonical envelope profile) s =
    state_of (Recorder.handle_event host canonical envelope profile s)
call (new_connection host) s = Recorder.handle_generation_change host s
call (start host) s = (Recorder.sweep host s).1
call (answer host stored_id event_type payload profile) s =
    (Requests.record_synthetic host stored_id event_type payload profile s).1

unfoldable pub call_all : List Call → RunRecorder → RunRecorder
call_all [] s = s
call_all (c ∷ cs) s = call_all cs (call c s)

call-IsValid : (c : Call) (s : RunRecorder) → IsValid s → IsValid (call c s)
unfolding call
call-IsValid (frame host canonical envelope profile) s v =
    handle_event-IsValid host canonical envelope profile s v
call-IsValid (new_connection host) s v = handle_generation_change-IsValid host s v
call-IsValid (start host) s v = sweep-IsValid host s v
call-IsValid (answer host stored_id event_type payload profile) s v =
    record_synthetic-IsValid host stored_id event_type payload profile s v

-- Whatever frames, replaced connections, starts and answers come, in any order, with a database that
-- fails or not: the events of every run are numbered from 1 without a gap or a repetition, each event's
-- run has a row, and each session has at most one open run, which knows its row and its last number.
pub call_all-IsValid : (cs : List Call) (s : RunRecorder) → IsValid s → IsValid (call_all cs s)
unfolding call_all
call_all-IsValid [] s v = v
call_all-IsValid (c ∷ cs) s v = call_all-IsValid cs (call c s) (call-IsValid c s v)
