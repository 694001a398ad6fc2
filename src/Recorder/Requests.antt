-- ===== src/Recorder/Requests.antt =====
-- gateway/domain/run_recorder.py: which session asked for an approval or an answer, and the row that
-- the gateway writes itself when it is given.
use astation.Prelude.{
  ℕ, suc, String, Bool, true, false, Option, none, some, List, [], ◌∷◌, if◌then◌else◌, ◌&&◌, ◌||◌,
  find_first, is_some, take, ltb, eqb,
}
use astation.Prelude.Eq.{◌==◌, string_eq, pair_eq, option_eq}
use astation.Prelude.Dict.{lookup, insert, erase}
use astation.Prelude.Sort.{sort_by}
use astation.Json.{Json, Fields, get_or_null, put, nonempty_str, text_of}
use astation.Runs.{Run, RunEvent, last_seq_by_run, payload_dict}
use astation.Recorder.{
  OpenRun, RunKey, Database, RunRecorder, Host, is_in, run_of, persist_run_event, ends_with,
  then_do, if_available,
}

abbrev pub synthetic_resolved_types : List String
synthetic_resolved_types =
    "approval.resolved" ∷ "clarify.resolved" ∷ "sudo.resolved" ∷ "secret.resolved" ∷ []

abbrev pub request_lookup_types : List String
request_lookup_types =
    "approval.requested" ∷ "clarify.requested" ∷ "sudo.requested" ∷ "secret.requested"
    ∷ synthetic_resolved_types

abbrev pub request_lookup_limit : ℕ
request_lookup_limit = 200

-- newest first
abbrev pub newest_event_first : Run × RunEvent → Run × RunEvent → Bool
newest_event_first (r, a) (q, b) =
    ltb b.timestamp a.timestamp || (eqb a.timestamp b.timestamp && ltb b.seq a.seq)

abbrev pub is_session : Option String → Run → Bool
is_session none run = true
is_session (some stored_id) run = run.runtime_session_id == some stored_id

abbrev pub joined_row :
    String → Option String → RunEvent → Option Run → List (Run × RunEvent) → List (Run × RunEvent)
joined_row profile stored_id e none rows = rows
joined_row profile stored_id e (some run) rows =
    if run.profile == profile && is_session stored_id run then (run, e) ∷ rows else rows

-- the join of `run_events` with `runs`, with the conditions of the query
unfoldable pub joined_rows :
    String → Option String → List Run → List RunEvent → List (Run × RunEvent)
joined_rows profile stored_id runs [] = []
joined_rows profile stored_id runs (e ∷ events) =
    let rest = joined_rows profile stored_id runs events in
    if is_in e.event_type request_lookup_types
    then joined_row profile stored_id e (run_of e.run_id runs) rest
    else rest

abbrev pub carries : String → RunEvent → Bool
carries request_id e = text_of (get_or_null "request_id" (payload_dict e)) == some request_id

abbrev pub unresolved : Option (Run × RunEvent) → Option (Run × RunEvent)
unresolved none = none
unresolved (some (run, e)) = if ends_with ".resolved" e.event_type then none else some (run, e)

-- `_find_requested_row`: the first row that carries the id, unless that is an answer
unfoldable pub find_requested_row :
    (request_id profile : String) (stored_id : Option String) → Database → Option (Run × RunEvent)
unfolding joined_rows sort_by
find_requested_row request_id profile stored_id db = unresolved (
    find_first (λ (x : Run × RunEvent). carries request_id x.1)
      (take request_lookup_limit
        (sort_by newest_event_first (joined_rows profile stored_id db.runs db.run_events))))

abbrev pub is_pending : String → String → RunKey × OpenRun → Bool
is_pending request_id profile x =
    x.1.profile == profile && is_some (lookup request_id x.1.pending_requests)

abbrev pub session_of : Option (Run × RunEvent) → Option String
session_of none = none
session_of (some (run, e)) = run.runtime_session_id

abbrev pub stored_or_looked_up : Option (RunKey × OpenRun) → Option String → Option String
stored_or_looked_up (some x) looked_up = some x.0.1
stored_or_looked_up none looked_up = looked_up

-- `stored_id_for_request`
unfoldable pub stored_id_for_request :
    Host → (request_id profile : String) → RunRecorder → Option String
stored_id_for_request host request_id profile s =
    stored_or_looked_up (find_first (is_pending request_id profile) s.open_runs)
      (if_available host.available (session_of (find_requested_row request_id profile none s.db)))

abbrev pub with_db : RunRecorder → Option Database → Bool × RunRecorder
with_db s none = (false, s)
with_db s (some db) = (true, record s { db = db })

-- `pending_requests.pop(request_id, None)`
abbrev pub without_request : Option String → OpenRun → OpenRun
without_request none r = r
without_request (some request_id) r = record r {
  pending_requests = erase request_id r.pending_requests;
}

abbrev pub answered_open :
    RunKey → Fields → ℕ → OpenRun → RunRecorder → Option Database → Bool × RunRecorder
answered_open key payload seq r s none = (false, s)
answered_open key payload seq r s (some db) = (
  true,
  record s {
    db = db;
    open_runs =
        insert key
          (without_request (text_of (get_or_null "request_id" payload))
            (record r { last_seq = seq }))
          s.open_runs;
  },
)

-- the branch of `_record_synthetic` for an open run
unfoldable pub record_on_open :
    Host
    → (stored_id event_type : String) → Fields
    → (profile : String) → OpenRun
    → RunRecorder
    → Bool × RunRecorder
record_on_open host stored_id event_type payload profile r s =
    answered_open (profile, stored_id) payload (suc r.last_seq) r s
      (if_available host.available (
        persist_run_event host.new_event_id r.run_id (suc r.last_seq) event_type
          (Json.obj (put "_stored_session_id" (Json.str stored_id) payload)) host.now s.db))

-- `a if a else run.runtime_session_id or stored_id`
abbrev pub first_stored : Option String → Option String → String → String
first_stored (some requested) runtime stored_id = requested
first_stored none (some runtime) stored_id = if runtime == "" then stored_id else runtime
first_stored none none stored_id = stored_id

abbrev pub or_zero : Option ℕ → ℕ
or_zero none = 0
or_zero (some n) = n

abbrev pub append_to_found :
    Host → (stored_id event_type : String) → Fields → Database → Run × RunEvent → Option Database
append_to_found host stored_id event_type payload db (run, requested) =
    persist_run_event host.new_event_id run.id
      (suc (or_zero (lookup run.id (last_seq_by_run (run.id ∷ []) db.run_events)))) event_type
      (Json.obj (
        put "_stored_session_id"
          (Json.str (
            first_stored (nonempty_str (get_or_null "_stored_session_id" (payload_dict requested)))
              run.runtime_session_id stored_id))
          payload))
      host.now db

abbrev pub record_for_request :
    Host
    → (stored_id event_type : String) → Fields
    → (profile : String) → RunRecorder
    → Option String
    → Bool × RunRecorder
record_for_request host stored_id event_type payload profile s none = (false, s)
record_for_request host stored_id event_type payload profile s (some request_id) = with_db s (
    if_available host.available (
      then_do (find_requested_row request_id profile (some stored_id) s.db)
        (append_to_found host stored_id event_type payload s.db)))

-- `_record_synthetic_durable`
unfoldable pub record_synthetic_durable :
    Host
    → (stored_id event_type : String) → Fields
    → (profile : String) → RunRecorder
    → Bool × RunRecorder
unfolding find_requested_row persist_run_event
record_synthetic_durable host stored_id event_type payload profile s =
    record_for_request host stored_id event_type payload profile s
      (nonempty_str (get_or_null "request_id" payload))

abbrev pub record_found :
    Host
    → (stored_id event_type : String) → Fields
    → (profile : String) → RunRecorder
    → Option OpenRun
    → Bool × RunRecorder
record_found host stored_id event_type payload profile s none =
    record_synthetic_durable host stored_id event_type payload profile s
record_found host stored_id event_type payload profile s (some r) =
    if r.profile == profile
    then record_on_open host stored_id event_type payload profile r s
    else record_synthetic_durable host stored_id event_type payload profile s

-- `record_synthetic`
unfoldable pub record_synthetic :
    Host
    → (stored_id event_type : String) → Fields
    → (profile : String) → RunRecorder
    → Bool × RunRecorder
unfolding record_synthetic_durable record_on_open
record_synthetic host stored_id event_type payload profile s =
    if is_in event_type synthetic_resolved_types
    then record_found host stored_id event_type payload profile s
        (lookup (profile, stored_id) s.open_runs)
    else (false, s)
