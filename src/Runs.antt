-- ===== src/Runs.antt =====
-- gateway/domain/runs.py: the tables `runs` and `run_events`, as lists of their rows. Times are
-- numbers; a fresh id and the time are arguments.
pub mod Closing
pub mod Cursor
mod Tests
use astation.Prelude.{
  ℕ, String, Bool, true, false, Option, none, some, List, [], ◌∷◌, ◌++◌, map, if◌then◌else◌, not,
  ◌&&◌, ◌||◌, is_none, is_some, keep_if, ltb, leb, eqb, take,
}
use astation.Prelude.Eq.{◌==◌, nat_eq, string_eq, option_eq}
use astation.Prelude.Dict.{Dict, insert}
use astation.Prelude.Sort.{sort_by}
use astation.Json.{Json, Fields, get_or_null, put, str_leb, text_of}

-- The columns that the operations use.
pub record Run : Type 0 where
  pub id : String
  pub project_id : Option String
  pub session_id : Option String
  pub runtime_session_id : Option String
  pub profile : String
  pub kind : String
  pub status : String
  pub command_json : Json
  pub started_at : Option ℕ
  pub ended_at : Option ℕ

pub record RunEvent : Type 0 where
  pub id : String
  pub run_id : String
  pub seq : ℕ
  pub event_type : String
  pub payload_json : Json
  pub timestamp : ℕ

abbrev pub status_running : String
status_running = "running"

abbrev pub status_completed : String
status_completed = "completed"

abbrev pub status_interrupted : String
status_interrupted = "interrupted"

abbrev pub status_failed : String
status_failed = "failed"

-- `open_run`: the new row, and the table with it
unfoldable pub open_run :
    (id runtime_session_id : String) (workspace_session_id project_id : Option String)
    (profile : String) (now : ℕ)
    → List Run
    → Run × List Run
open_run id runtime_session_id workspace_session_id project_id profile now db =
    let run : Run = record {
      id = id;
      project_id = project_id;
      session_id = workspace_session_id;
      runtime_session_id = some runtime_session_id;
      profile = profile;
      kind = "turn";
      status = status_running;
      command_json = Json.null;
      started_at = some now;
      ended_at = none;
    } in
    (run, db ++ run ∷ [])

-- `close_run`
unfoldable pub close_run : ℕ → Run → Run
close_run now run = record run { status = status_completed; ended_at = some now }

abbrev pub stale_close_note_key : String
stale_close_note_key = "stale_close_note"

abbrev pub close_note_key : String
close_note_key = "close_note"

-- `dict(run.command_json) if isinstance(run.command_json, dict) else {}`
abbrev pub detail_of : Json → Fields
detail_of (Json.obj d) = d
detail_of _ = Fields.end

abbrev pub with_note : String → String → Json → Json
with_note key note command = Json.obj (put key (Json.str note) (detail_of command))

-- `close_run_stale`
unfoldable pub close_run_stale : String → ℕ → Run → Run
close_run_stale note now run = record run {
  status = status_completed;
  ended_at = some now;
  command_json = with_note stale_close_note_key note run.command_json;
}

-- `close_run_abnormal`; `none` is `ValueError`
unfoldable pub close_run_abnormal : (status note : String) → ℕ → Run → Option Run
close_run_abnormal status note now run =
    if status == status_failed || status == status_interrupted
    then some (record run {
      status = status;
      ended_at = some now;
      command_json = with_note close_note_key note run.command_json;
    })
    else none

-- `_note`
abbrev pub note_of : String → Json → Option String
note_of key (Json.obj d) = text_of (get_or_null key d)
note_of key _ = none

-- `stale_close_note`
unfoldable pub stale_close_note : Run → Option String
stale_close_note run = note_of stale_close_note_key run.command_json

-- `close_note`
unfoldable pub close_note : Run → Option String
close_note run = note_of close_note_key run.command_json

abbrev pub is_running : Run → Bool
is_running run = run.status == status_running

abbrev pub interrupt : ℕ → Run → Run
interrupt ended_at run =
    if is_running run
    then record run { status = status_interrupted; ended_at = some ended_at }
    else run

-- `interrupt_all_running`: the rows touched, and the table
unfoldable pub interrupt_all_running : ℕ → List Run → List Run × List Run
interrupt_all_running ended_at db =
    (map (interrupt ended_at) (keep_if is_running db), map (interrupt ended_at) db)

-- SQLite puts a null last in a descending order; ties go by the id, descending.
abbrev pub later_start : Option ℕ → Option ℕ → Bool
later_start none b = false
later_start (some a) none = true
later_start (some a) (some b) = ltb b a

abbrev pub newest_first : Run → Run → Bool
newest_first a b =
    later_start a.started_at b.started_at || (a.started_at == b.started_at && str_leb b.id a.id)

-- a filter that is not given lets every row through
abbrev pub matches : Option String → Option String → Bool
matches none value = true
matches (some wanted) value = value == some wanted

-- `list_runs`
unfoldable pub list_runs : (runtime_session_id project_id : Option String) → ℕ → List Run → List Run
unfolding sort_by
list_runs runtime_session_id project_id limit db = take limit (
    sort_by newest_first (
      keep_if
        (λ (r : Run).
          matches runtime_session_id r.runtime_session_id && matches project_id r.project_id)
        db))

abbrev pub is_after : String → ℕ → RunEvent → Bool
is_after run_id after_seq e = e.run_id == run_id && ltb after_seq e.seq

abbrev pub in_order : RunEvent → RunEvent → Bool
in_order a b = leb a.seq b.seq

-- `events_after`
unfoldable pub events_after : String → ℕ → ℕ → List RunEvent → List RunEvent
unfolding sort_by
events_after run_id after_seq limit db =
    take limit (sort_by in_order (keep_if (is_after run_id after_seq) db))

abbrev pub max_option : ℕ → Option ℕ → Option ℕ
max_option n none = some n
max_option n (some m) = some (if ltb n m then m else n)

-- `func.max(RunEvent.seq)` of one run
unfoldable pub max_seq : String → List RunEvent → Option ℕ
max_seq run_id [] = none
max_seq run_id (e ∷ db) =
    let rest = max_seq run_id db in if e.run_id == run_id then max_option e.seq rest else rest

abbrev pub insert_some : String → Option ℕ → Dict String ℕ → Dict String ℕ
insert_some run_id none d = d
insert_some run_id (some n) d = insert run_id n d

-- `last_seq_by_run`; a run without events has no entry
unfoldable pub last_seq_by_run : List String → List RunEvent → Dict String ℕ
unfolding max_seq
last_seq_by_run [] db = []
last_seq_by_run (run_id ∷ run_ids) db =
    insert_some run_id (max_seq run_id db) (last_seq_by_run run_ids db)

-- `payload_dict`
abbrev pub payload_dict : RunEvent → Fields
payload_dict event = detail_of event.payload_json
