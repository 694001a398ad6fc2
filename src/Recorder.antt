-- ===== src/Recorder.antt =====
-- gateway/domain/run_recorder.py and gateway/events/persistence.py: the run that each forwarded frame
-- belongs to, and its persisted events. New rows stand first in their tables. A call's transaction is
-- rolled back where the database fails or a primary key is taken.
pub mod Requests
pub mod Numbering
pub mod Steps
pub mod Calls
pub mod Answers
pub mod Histories
pub mod Once
mod Tests
use astation.Prelude.{
  ℕ, zero, suc, String, Bool, true, false, Option, none, some, List, [], ◌∷◌, map, if◌then◌else◌,
  not, ◌&&◌, ◌||◌, any, find_first, is_none, is_some, length, keep_if, take, ltb, eqb,
}
use astation.Prelude.Eq.{Eq, ◌==◌, string_eq, pair_eq, option_eq}
use astation.Prelude.Dict.{Dict, lookup, insert, erase}
use astation.Prelude.Sort.{sort_by}
use astation.Json.{Json, Fields, get_or_null, put, nonempty_str, as_object, text_of, text_or_null}
use astation.Runs.{
  Run, RunEvent, open_run, close_run, close_run_abnormal, interrupt_all_running, status_completed,
  status_failed, status_interrupted, last_seq_by_run,
}
use astation.Watch.{WatchedSessions, is_watched}

-- `PERSISTED_RUN_EVENT_TYPES`
abbrev pub persisted_run_event_types : List String
persisted_run_event_types =
    "message.started" ∷ "message.interim" ∷ "message.completed" ∷ "tool.generating" ∷ "tool.started"
    ∷ "tool.progress" ∷ "tool.completed" ∷ "approval.requested" ∷ "approval.resolved"
    ∷ "clarify.requested" ∷ "clarify.resolved" ∷ "sudo.requested" ∷ "sudo.resolved"
    ∷ "secret.requested" ∷ "secret.resolved" ∷ "status.update" ∷ "session.usage"
    ∷ "subagent.started" ∷ "subagent.tool" ∷ "subagent.completed" ∷ []

abbrev pub run_attach_only_types : List String
run_attach_only_types = "status.update" ∷ []

abbrev pub run_opening_types : List String
run_opening_types =
    "message.started" ∷ "message.delta" ∷ "message.interim" ∷ "message.completed"
    ∷ "reasoning.delta" ∷ "thinking.status" ∷ "status.update" ∷ "tool.generating" ∷ "tool.started"
    ∷ "tool.progress" ∷ "tool.completed" ∷ "approval.requested" ∷ "clarify.requested"
    ∷ "sudo.requested" ∷ "secret.requested" ∷ "subagent.started" ∷ "subagent.tool"
    ∷ "subagent.progress" ∷ "subagent.thinking" ∷ "subagent.completed" ∷ []

abbrev pub non_run_types : List String
non_run_types =
    "session.updated" ∷ "background.completed" ∷ "process.output" ∷ "process.closed" ∷ []

abbrev pub run_closing_type : String
run_closing_type = "message.completed"

-- `s in names`
abbrev pub is_in : String → List String → Bool
is_in s names = any (λ t. t == s) names

-- `is_persisted_event_type`
unfoldable pub is_persisted_event_type : String → Bool
is_persisted_event_type event_type = is_in event_type persisted_run_event_types

-- `_OpenRun`
pub record OpenRun : Type 0 where
  pub run_id : String
  pub runtime_session_id : String
  pub workspace_session_id : Option String
  pub project_id : Option String
  pub last_seq : ℕ
  pub profile : String
  pub pending_requests : Dict String String

-- The columns of `sessions` that the filing lookup reads.
pub record SessionRow : Type 0 where
  pub id : String
  pub project_id : String
  pub runtime : String
  pub profile : String
  pub runtime_session_id : Option String

-- a profile and a stored id
abbrev pub RunKey : Type 0
RunKey = String × String

pub record Database : Type 0 where
  pub runs : List Run
  pub run_events : List RunEvent
  pub sessions : List SessionRow

-- `_db_failure_logged` only keeps a log line from repeating, and is left out.
pub record RunRecorder : Type 0 where
  pub db : Database
  pub open_runs : Dict RunKey OpenRun
  pub watched : WatchedSessions

-- What one call takes from its surroundings: whether the database answers, fresh ids for a run and
-- for an event, the clock, `persisted_event_id` (a SHA-256) and `str.strip`.
pub record Host : Type 0 where
  pub available : Bool
  pub new_run_id : String
  pub new_event_id : String
  pub now : ℕ
  pub persisted_event_id : String → String
  pub strip : String → String

-- `canonical.type`, `canonical.event_id` and `canonical.timestamp`
pub record Canonical : Type 0 where
  pub type_name : String
  pub event_id : String
  pub timestamp : ℕ

abbrev pub run_of : String → List Run → Option Run
run_of id runs = find_first (λ (r : Run). r.id == id) runs

abbrev pub event_of : String → List RunEvent → Option RunEvent
event_of id events = find_first (λ (e : RunEvent). e.id == id) events

-- the failure of a completion, which says why or not
abbrev pub failure_text : String → String
failure_text text =
    if text == "" then "Hermes reported this turn failed but did not say why" else text

abbrev pub stripped_text : (String → String) → Json → String
stripped_text strip (Json.str s) = strip s
stripped_text strip _ = ""

abbrev pub status_close : (String → String) → Fields → Json → String × Option String
status_close strip payload (Json.str status) =
    if status == "error"
    then (status_failed, some (failure_text (stripped_text strip (get_or_null "error" payload))))
    else if status == "interrupted"
    then (
      status_interrupted,
      some
          "Hermes reported this turn interrupted before it finished (stopped by a user or by the agent); the transcript holds whatever it had produced",
    )
    else (status_completed, none)
status_close strip payload _ = (status_completed, none)

-- `completion_close`
unfoldable pub completion_close : (String → String) → Json → String × Option String
completion_close strip (Json.obj payload) =
    status_close strip payload (get_or_null "status" payload)
completion_close strip _ = (status_completed, none)

-- The run row after its closing frame; `none` is the `ValueError` of `close_run_abnormal`.
abbrev pub closed_by : String × Option String → ℕ → Run → Option Run
closed_by (status, none) now run = some (close_run now run)
closed_by (status, some note) now run = close_run_abnormal status note now run

-- the row with an id, replaced
abbrev pub replace_run : Run → List Run → List Run
replace_run new [] = []
replace_run new (r ∷ runs) = if r.id == new.id then new ∷ runs else r ∷ replace_run new runs

-- a new row of `runs` or of `run_events`, unless its key is taken
unfoldable pub add_run : Run → Database → Option Database
add_run run db =
    if is_some (run_of run.id db.runs) then none else some (record db { runs = run ∷ db.runs })

unfoldable pub add_event : RunEvent → Database → Option Database
add_event e db =
    if is_some (event_of e.id db.run_events)
    then none
    else some (record db { run_events = e ∷ db.run_events })

-- the id of the new row: of the event where it has one
abbrev pub row_id : Host → String → String
row_id host event_id =
    if event_id == "" then host.new_event_id else host.persisted_event_id event_id

-- `persist_run_event`
unfoldable pub persist_run_event :
    (id run_id : String) (seq : ℕ) (event_type : String) (payload : Json) (timestamp : ℕ)
    → Database
    → Option Database
unfolding add_event
persist_run_event id run_id seq event_type payload timestamp db =
    add_event
      (record {
        id = id;
        run_id = run_id;
        seq = seq;
        event_type = event_type;
        payload_json = payload;
        timestamp = timestamp;
      })
      db

abbrev pub is_filed : String → String → SessionRow → Bool
is_filed stored_id profile s =
    s.runtime == "hermes" && (s.profile == profile && s.runtime_session_id == some stored_id)

abbrev pub filed_id : Option SessionRow → Option String
filed_id none = none
filed_id (some s) = some s.id

abbrev pub filed_project : Option SessionRow → Option String
filed_project none = none
filed_project (some s) = some s.project_id

abbrev pub opened : OpenRun → Option Database → Option (OpenRun × Database)
opened record' none = none
opened record' (some db) = some (record', db)

-- `_open_run_in`
unfoldable pub open_run_in :
    Host
    → (stored_id : String) → (now : ℕ) → (profile : String) → Database
    → Option (OpenRun × Database)
unfolding add_run
open_run_in host stored_id now profile db =
    let filing = find_first (is_filed stored_id profile) db.sessions in
    let run =
      (open_run host.new_run_id stored_id (filed_id filing) (filed_project filing) profile now
        []).0 in
    opened
      (record {
        run_id = run.id;
        runtime_session_id = stored_id;
        workspace_session_id = filed_id filing;
        project_id = filed_project filing;
        last_seq = 0;
        profile = profile;
        pending_requests = [];
      })
      (add_run run db)

-- `_stamp`
unfoldable pub stamp : Fields → OpenRun → Fields
stamp envelope r = put "run_id" (Json.str r.run_id) (
    put "session_id" (text_or_null r.workspace_session_id)
      (put "project_id" (text_or_null r.project_id) envelope))

-- `str.endswith`
unfoldable pub ends_with : String → String → Bool
ends_with suffix String.[] = suffix == ""
ends_with suffix (String.◌∷◌ c s) =
    let rest = ends_with suffix s in String.◌∷◌ c s == suffix || rest

abbrev pub with_request : String → Option String → OpenRun → OpenRun
with_request event_type none r = r
with_request event_type (some request_id) r = record r {
  pending_requests = insert request_id event_type r.pending_requests;
}

abbrev pub request_id_of : Json → Option String
request_id_of (Json.obj payload) = nonempty_str (get_or_null "request_id" payload)
request_id_of _ = none

-- `_remember_request`
unfoldable pub remember_request : String → Json → OpenRun → OpenRun
remember_request event_type payload r =
    if ends_with ".requested" event_type
    then with_request event_type (request_id_of payload) r
    else r

-- The frame's text of the stored id, not empty.
abbrev pub stored_id_of : Json → Option String
stored_id_of (Json.obj payload) = nonempty_str (get_or_null "_stored_session_id" payload)
stored_id_of _ = none

abbrev pub object_or_null : Json → Json
object_or_null (Json.obj d) = Json.obj d
object_or_null _ = Json.null

-- the steps of the transaction of `_handle`
abbrev pub opened_or_made :
    Host → String → ℕ → String → Database → Option OpenRun → Option (OpenRun × Database)
opened_or_made host stored_id now profile db (some r) = some (r, db)
opened_or_made host stored_id now profile db none = open_run_in host stored_id now profile db

abbrev pub persisted :
    Bool → Host → Canonical → ℕ → Json → OpenRun × Database → Option (OpenRun × Database)
persisted false host canonical seq payload (r, db) = some (r, db)
persisted true host canonical seq payload (r, db) = opened r (
    persist_run_event (row_id host canonical.event_id) r.run_id seq canonical.type_name
      (object_or_null payload) canonical.timestamp db)

abbrev pub replaced : OpenRun → Database → Option Run → Option (OpenRun × Database)
replaced r db none = none
replaced r db (some run) = some (r, record db { runs = replace_run run db.runs })

abbrev pub close_found :
    (String → String)
    → Canonical
    → Json
    → OpenRun
    → Database
    → Option Run
    → Option (OpenRun × Database)
close_found strip canonical payload r db none = some (r, db)
close_found strip canonical payload r db (some run) =
    replaced r db (closed_by (completion_close strip payload) canonical.timestamp run)

abbrev pub closed :
    Bool → Host → Canonical → Json → OpenRun × Database → Option (OpenRun × Database)
closed false host canonical payload (r, db) = some (r, db)
closed true host canonical payload (r, db) =
    close_found host.strip canonical payload r db (run_of r.run_id db.runs)

abbrev pub then_do {ℓ} : {A B : Type ℓ} → Option A → (A → Option B) → Option B
then_do none f = none
then_do (some a) f = f a

abbrev pub if_available {ℓ} : {A : Type ℓ} → Bool → Option A → Option A
if_available true x = x
if_available false x = none

-- `with self._session_factory() as db: ... db.commit()`
unfoldable pub transaction :
    Host
    → Canonical
    → (stored_id profile : String) → (payload : Json) → (seq : ℕ) → Option OpenRun
    → Database
    → Option (OpenRun × Database)
unfolding persist_run_event open_run_in
transaction host canonical stored_id profile payload seq found db = if_available host.available (
    then_do (opened_or_made host stored_id canonical.timestamp profile db found) (λ x.
      then_do (persisted (is_persisted_event_type canonical.type_name) host canonical seq payload x)
        (λ y. closed (canonical.type_name == run_closing_type) host canonical payload y)))

-- A call returns, with the frame that it leaves and the run that it told `on_run_opened` of, or
-- raises.
pub data Handled : Type 0 where
  returned : RunRecorder → Fields → Option String → Handled
  raised : RunRecorder → Handled

abbrev pub keep_open : Bool → RunKey → OpenRun → Dict RunKey OpenRun → Dict RunKey OpenRun
keep_open true key r d = erase key d
keep_open false key r d = insert key r d

abbrev pub counted : Bool → ℕ → String → Json → OpenRun → OpenRun
counted false seq event_type payload r = r
counted true seq event_type payload r =
    remember_request event_type payload (record r { last_seq = seq })

abbrev pub opened_now : Option OpenRun → OpenRun → Option String
opened_now none r = some r.run_id
opened_now (some old) r = none

-- what follows a transaction that failed
abbrev pub after_failure : Bool → Fields → Option OpenRun → RunRecorder → Handled
after_failure true envelope found s = raised s
after_failure false envelope none s = returned s envelope none
after_failure false envelope (some r) s = returned s (stamp envelope r) none

abbrev pub after_transaction :
    (is_durable : Bool)
    → Canonical
    → RunKey
    → Fields
    → (payload : Json) → (seq : ℕ) → Option OpenRun
    → RunRecorder
    → Option (OpenRun × Database)
    → Handled
after_transaction is_durable canonical key envelope payload seq found s none =
    after_failure is_durable envelope found s
after_transaction is_durable canonical key envelope payload seq found s (some (r, db)) =
    let r' =
      counted (is_persisted_event_type canonical.type_name) seq canonical.type_name payload r in
    returned
      (record s {
        db = db;
        open_runs = keep_open (canonical.type_name == run_closing_type) key r' s.open_runs;
      })
      (stamp envelope r') (opened_now found r')

-- `record.last_seq + 1 if (record is not None and persists) else 1`
abbrev pub seq_for : Bool → Option OpenRun → ℕ
seq_for true (some r) = suc r.last_seq
seq_for _ _ = 1

-- `record is None and event_type in RUN_OPENING_TYPES and event_type not in RUN_ATTACH_ONLY_TYPES`
abbrev pub is_opening : String → Bool
is_opening event_type =
    is_in event_type run_opening_types && not (is_in event_type run_attach_only_types)

abbrev pub record_frame :
    (is_durable : Bool)
    → Host
    → Canonical
    → (stored_id profile : String) → Fields
    → (payload : Json) → RunRecorder
    → Option OpenRun
    → Handled
record_frame is_durable host canonical stored_id profile envelope payload s found =
    let seq = seq_for (is_persisted_event_type canonical.type_name) found in
    after_transaction is_durable canonical (profile, stored_id) envelope payload seq found s
      (transaction host canonical stored_id profile payload seq found s.db)

-- the branches on the open run
abbrev pub handle_found :
    (is_durable : Bool)
    → Host
    → Canonical
    → (stored_id profile : String) → Fields
    → (payload : Json) → RunRecorder
    → Option OpenRun
    → Handled
handle_found is_durable host canonical stored_id profile envelope payload s none =
    if is_opening canonical.type_name
    then record_frame is_durable host canonical stored_id profile envelope payload s none
    else returned s envelope none
handle_found is_durable host canonical stored_id profile envelope payload s (some r) =
    if is_persisted_event_type canonical.type_name || canonical.type_name == run_closing_type
    then record_frame is_durable host canonical stored_id profile envelope payload s (some r)
    else returned s (stamp envelope r) none

abbrev pub is_run_of : String → String → Run → Bool
is_run_of stored_id profile run = run.profile == profile && run.runtime_session_id == some stored_id

-- `envelope.update(...)` from the row of the run
unfoldable pub stamp_row : Fields → Run → Fields
stamp_row envelope run = put "run_id" (Json.str run.id) (
    put "session_id" (text_or_null run.session_id)
      (put "project_id" (text_or_null run.project_id) envelope))

abbrev pub retried_run : (stored_id profile : String) → Fields → RunRecorder → Option Run → Handled
retried_run stored_id profile envelope s none = raised s
retried_run stored_id profile envelope s (some run) =
    if is_run_of stored_id profile run then returned s (stamp_row envelope run) none else raised s

abbrev pub retried_or :
    (stored_id profile : String) → Fields → RunRecorder → Option RunEvent → Handled → Handled
retried_or stored_id profile envelope s none otherwise = otherwise
retried_or stored_id profile envelope s (some e) otherwise =
    retried_run stored_id profile envelope s (run_of e.run_id s.db.runs)

-- a frame with a durable capture id, whose event may be committed already
abbrev pub handle_durable :
    (is_durable : Bool)
    → Host
    → Canonical
    → (stored_id profile : String) → Fields
    → RunRecorder
    → Handled
    → Handled
handle_durable false host canonical stored_id profile envelope s otherwise = otherwise
handle_durable true host canonical stored_id profile envelope s otherwise =
    if host.available
    then retried_or stored_id profile envelope s
        (event_of (host.persisted_event_id canonical.event_id) s.db.run_events) otherwise
    else raised s

abbrev pub handle_unwatched :
    (is_durable : Bool)
    → Host
    → Canonical
    → (stored_id profile : String) → Fields
    → (payload : Json) → RunRecorder
    → Handled
handle_unwatched is_durable host canonical stored_id profile envelope payload s =
    handle_durable is_durable host canonical stored_id profile envelope s (
      handle_found is_durable host canonical stored_id profile envelope payload s
        (lookup (profile, stored_id) s.open_runs))

-- `watched.is_watched`, which may drop an expired entry
abbrev pub handle_watched :
    Bool × WatchedSessions
    → (is_durable : Bool) → Host
    → Canonical
    → (stored_id profile : String) → Fields
    → (payload : Json) → RunRecorder
    → Handled
handle_watched (true, w) is_durable host canonical stored_id profile envelope payload s =
    returned (record s { watched = w }) envelope none
handle_watched (false, w) is_durable host canonical stored_id profile envelope payload s =
    handle_unwatched is_durable host canonical stored_id profile envelope payload
      (record s { watched = w })

abbrev pub handle_stored :
    Host
    → Canonical
    → Fields
    → (profile : String) → (payload : Json) → RunRecorder
    → Option String
    → Handled
handle_stored host canonical envelope profile payload s none = returned s envelope none
handle_stored host canonical envelope profile payload s (some stored_id) =
    if is_in canonical.type_name non_run_types
    then returned s envelope none
    else handle_watched (is_watched host.now (some stored_id) profile s.watched)
        (is_some (nonempty_str (get_or_null "_durable_capture_id" envelope))) host canonical
        stored_id profile envelope payload s

-- `handle_event`: only a durable frame's exception leaves it, and `_handle` raises for no other
unfoldable pub handle_event : Host → Canonical → Fields → String → RunRecorder → Handled
unfolding transaction
handle_event host canonical envelope profile s =
    let payload = get_or_null "payload" envelope in
    handle_stored host canonical envelope profile payload s (stored_id_of payload)

-- `_sweep`: how many runs were interrupted
unfoldable pub sweep : Host → RunRecorder → ℕ × RunRecorder
sweep host s =
    if host.available
    then (
      length (interrupt_all_running host.now s.db.runs).0,
      record s { db = record s.db { runs = (interrupt_all_running host.now s.db.runs).1 } },
    )
    else (0, s)

-- `handle_generation_change`
unfoldable pub handle_generation_change : Host → RunRecorder → RunRecorder
unfolding sweep
handle_generation_change host s = (sweep host (record s { open_runs = [] })).1

-- `has_open_run`
abbrev pub has_open_run : String → String → RunRecorder → Bool
has_open_run stored_id profile s = is_some (lookup (profile, stored_id) s.open_runs)
