-- ===== src/Recorder/Answers.antt =====
-- The rows that the gateway writes itself, for an open run or for one that is found in the tables.
use astation.Prelude.{
  ℕ, suc, ◌≡◌, refl, ap, sym, ◌∙◌, subst, String, true, Option, none, some, List, [], ◌∷◌, ◌&&◌,
  is_some, All, All-take, All-find_first, OfSome, take, arith, Bool-cases, inl, inr,
}
use astation.Prelude.Eq.{◌==◌, string_eq, pair_eq, option_eq, option_beq_iff}
use astation.Prelude.Dict.{lookup, lookup-All, insert-HasUniqueKeys}
use astation.Prelude.Sort.{sort_by, sort_by-All}
use astation.Json.{Json, Fields, get_or_null, put, nonempty_str, text_of}
use astation.Runs.{Run, RunEvent, max_seq, insert_some, last_seq_by_run, payload_dict}
use astation.Recorder.{
  OpenRun, RunKey, Database, RunRecorder, Host, run_of, event_of, persist_run_event, add_event,
  opened, ends_with, is_in, then_do,
}
use astation.Recorder.Requests
use astation.Recorder.Requests.{
  joined_row, joined_rows, is_session, request_lookup_types, request_lookup_limit,
  newest_event_first, carries, unresolved, find_requested_row, with_db, without_request,
  answered_open, record_on_open, or_zero, append_to_found, first_stored, record_for_request,
  record_synthetic_durable, record_found, synthetic_resolved_types,
}
use astation.Recorder.Numbering.{
  count_of, max_seq-count_of, IsRowOf, IsOpen, IsOpen-But, with_event, with_event-All,
  All-IsOpenBut_absent, insert-IsOpen,
}
use astation.Recorder.Steps.{IsStage, Ensures, found-id, persist-IsStage}
use astation.Recorder.Calls.{IsValid}

-- A row of the join: the run is the one of its own id, and belongs to the session that is asked for.
record IsJoined (profile stored_id : String) (runs : List Run) (x : Run × RunEvent) : Type 0 where
  found : run_of x.0.id runs ≡ some x.0
  same_profile : x.0.profile ≡ profile
  same_session : x.0.runtime_session_id ≡ some stored_id

joined_row-All :
    (profile stored_id : String) (runs : List Run) (e : RunEvent) (o : Option Run)
    (rows : List (Run × RunEvent))
    → run_of e.run_id runs ≡ o
    → All (IsJoined profile stored_id runs) rows
    → All (IsJoined profile stored_id runs) (joined_row profile (some stored_id) e o rows)
joined_row-All profile stored_id runs e none rows f h = h
joined_row-All profile stored_id runs e (some run) rows f h =
    elim (Bool-cases (run.profile == profile && run.runtime_session_id == some stored_id)) [
      | inr other ↦ rw other h
      | inl mine ↦
          let id = found-id e.run_id runs run f in
          let p : (run.profile == profile) ≡ true = ground arith in
          let q : (run.runtime_session_id == some stored_id) ≡ true = ground arith in
          rw mine (
            record {
              found = subst (λ i. run_of i runs ≡ some run) (sym id) f;
              same_profile = (string_eq.beq_iff run.profile profile).0 p;
              same_session = (option_beq_iff run.runtime_session_id (some stored_id)).0 q;
            },
            h,
          )
    ]

joined_rows-All :
    (profile stored_id : String) (runs : List Run) (es : List RunEvent)
    → All (IsJoined profile stored_id runs) (joined_rows profile (some stored_id) runs es)
unfolding joined_rows
joined_rows-All profile stored_id runs [] = tt
joined_rows-All profile stored_id runs (e ∷ es) =
    elim (Bool-cases (is_in e.event_type request_lookup_types)) [
      | inl kind ↦ rw kind (
          joined_row-All profile stored_id runs e (run_of e.run_id runs)
            (joined_rows profile (some stored_id) runs es) refl
            (joined_rows-All profile stored_id runs es))
      | inr other ↦ rw other (joined_rows-All profile stored_id runs es)
    ]

unresolved-OfSome :
    (P : Run × RunEvent → Type 0) (o : Option (Run × RunEvent))
    → OfSome P o
    → OfSome P (unresolved o)
unresolved-OfSome P none h = tt
unresolved-OfSome P (some (run, e)) h = elim (Bool-cases (ends_with ".resolved" e.event_type)) [
  | inl done ↦ rw done tt
  | inr asked ↦ rw asked h
]

find_requested_row-OfSome :
    (request_id profile stored_id : String) (db : Database)
    → OfSome
        (IsJoined profile stored_id db.runs)
        (find_requested_row request_id profile (some stored_id) db)
unfolding find_requested_row
find_requested_row-OfSome request_id profile stored_id db =
    let P = IsJoined profile stored_id db.runs in
    let rows = joined_rows profile (some stored_id) db.runs db.run_events in
    unresolved-OfSome P _ (
      All-find_first P (λ (x : Run × RunEvent). carries request_id x.1)
        (take request_lookup_limit (sort_by newest_event_first rows))
        (All-take P request_lookup_limit (sort_by newest_event_first rows) (
          sort_by-All P newest_event_first rows
            (joined_rows-All profile stored_id db.runs db.run_events))))

lookup-last_seq :
    (id : String) (es : List RunEvent) → lookup id (last_seq_by_run (id ∷ []) es) ≡ max_seq id es
unfolding last_seq_by_run
lookup-last_seq id es = go (max_seq id es)
  where
    go : (o : Option ℕ) → lookup id (insert_some id o []) ≡ o
    go none = refl
    go (some n) = rw ((string_eq.beq_iff id id).1 refl) refl

-- A row appended to the run of a session without an open run.
append-IsValid :
    (id : String) (run : Run) (seq : ℕ) (event_type : String) (payload : Json) (timestamp : ℕ)
    (key : RunKey) (s : RunRecorder)
    → IsValid s
    → lookup key s.open_runs ≡ none
    → IsRowOf key (run_of run.id s.db.runs)
    → is_some (run_of run.id s.db.runs) ≡ true
    → seq ≡ suc (count_of run.id s.db.run_events)
    → IsValid (with_db s (persist_run_event id run.id seq event_type payload timestamp s.db)).1
unfolding persist_run_event add_event
append-IsValid id run seq event_type payload timestamp key s v absent row has next =
    elim (Bool-cases (is_some (event_of id s.db.run_events))) [
      | inl taken ↦ rw taken v
      | inr free ↦
          let e : RunEvent = record {
            id = id;
            run_id = run.id;
            seq = seq;
            event_type = event_type;
            payload_json = payload;
            timestamp = timestamp;
          } in
          rw free (record {
            unique_keys = v.unique_keys;
            open_valid = All-IsOpenBut_absent key (with_event e s.db) s.open_runs absent (
                with_event-All key e s.db s.open_runs row
                  (IsOpen-But key s.db s.open_runs v.open_valid));
            numbered = (next, v.numbered);
            has_run = (has, v.has_run);
          })
    ]

append_to_found-IsValid :
    (host : Host) (stored_id event_type : String) (payload : Fields) (profile : String)
    (s : RunRecorder) (o : Option (Run × RunEvent))
    → IsValid s
    → lookup (profile, stored_id) s.open_runs ≡ none
    → OfSome (IsJoined profile stored_id s.db.runs) o
    → IsValid (with_db s (then_do o (append_to_found host stored_id event_type payload s.db))).1
append_to_found-IsValid host stored_id event_type payload profile s none v absent j = v
append_to_found-IsValid host stored_id event_type payload profile s (some (run, requested)) v absent
      j =
    append-IsValid host.new_event_id run
      (suc (or_zero (lookup run.id (last_seq_by_run (run.id ∷ []) s.db.run_events)))) event_type
      (Json.obj (
        put "_stored_session_id"
          (Json.str (
            first_stored (nonempty_str (get_or_null "_stored_session_id" (payload_dict requested)))
              run.runtime_session_id stored_id))
          payload))
      host.now (profile, stored_id) s v absent (rw j.found (j.same_profile, j.same_session))
      (rw j.found refl)
      (ap (λ o. suc (or_zero o)) (lookup-last_seq run.id s.db.run_events)
        ∙ ap suc (max_seq-count_of run.id s.db.run_events v.numbered))

record_synthetic_durable-IsValid :
    (host : Host) (stored_id event_type : String) (payload : Fields) (profile : String)
    (s : RunRecorder)
    → IsValid s
    → lookup (profile, stored_id) s.open_runs ≡ none
    → IsValid (record_synthetic_durable host stored_id event_type payload profile s).1
unfolding record_synthetic_durable
record_synthetic_durable-IsValid host stored_id event_type payload profile s v absent =
    go (nonempty_str (get_or_null "request_id" payload))
  where
    go :
        (o : Option String)
        → IsValid (record_for_request host stored_id event_type payload profile s o).1
    go none = v
    go (some request_id) = elim (Bool-cases host.available) [
      | inr down ↦ rw down v
      | inl up ↦ rw up (
          append_to_found-IsValid host stored_id event_type payload profile s
            (find_requested_row request_id profile (some stored_id) s.db) v absent
            (find_requested_row-OfSome request_id profile stored_id s.db))
    ]

without_request-same :
    (o : Option String) (r : OpenRun)
    → let r' = without_request o r in
      (r'.run_id ≡ r.run_id) × (r'.profile ≡ r.profile) × (r'.last_seq ≡ r.last_seq)
without_request-same none r = (refl, refl, refl)
without_request-same (some id) r = (refl, refl, refl)

answered_open-IsValid :
    (key : RunKey) (payload : Fields) (r : OpenRun) (s : RunRecorder) (o : Option Database)
    → IsValid s
    → Ensures (IsStage key s.open_runs r.last_seq (suc r.last_seq)) (opened r o)
    → IsValid (answered_open key payload (suc r.last_seq) r s o).1
answered_open-IsValid key payload r s none v g = v
answered_open-IsValid key payload r s (some db) v g =
    let same =
      without_request-same (text_of (get_or_null "request_id" payload))
        (record r { last_seq = suc r.last_seq }) in
    let r' =
      without_request (text_of (get_or_null "request_id" payload))
        (record r { last_seq = suc r.last_seq }) in
    record {
      unique_keys = insert-HasUniqueKeys key r' s.open_runs v.unique_keys;
      open_valid =
          insert-IsOpen key r' db s.open_runs v.unique_keys
            (record {
              same_profile = same.1 ∙ g.same_profile;
              own_row = subst (λ id. IsRowOf key (run_of id db.runs)) (sym same.0) g.own_row;
              last_number =
                  same.2 ∙ (g.last_number ∙ ap (λ id. count_of id db.run_events) (sym same.0));
            })
            g.others;
      numbered = g.numbered;
      has_run = g.has_run;
    }

record_on_open-IsValid :
    (host : Host) (stored_id event_type : String) (payload : Fields) (profile : String)
    (r : OpenRun) (s : RunRecorder)
    → IsValid s
    → lookup (profile, stored_id) s.open_runs ≡ some r
    → IsValid (record_on_open host stored_id event_type payload profile r s).1
unfolding record_on_open
record_on_open-IsValid host stored_id event_type payload profile r s v e =
    let key : RunKey = (profile, stored_id) in
    let own : IsOpen s.db (key, r) = lookup-All (IsOpen s.db) key s.open_runs v.open_valid e in
    let stage : IsStage key s.open_runs r.last_seq r.last_seq r s.db = record {
      same_profile = own.same_profile;
      old_number = refl;
      own_row = own.own_row;
      last_number = own.last_number;
      others = IsOpen-But key s.db s.open_runs v.open_valid;
      numbered = v.numbered;
      has_run = v.has_run;
    } in
    let row = Json.obj (put "_stored_session_id" (Json.str stored_id) payload) in
    elim (Bool-cases host.available) [
      | inr down ↦ rw down v
      | inl up ↦ rw up (
          answered_open-IsValid key payload r s
            (persist_run_event host.new_event_id r.run_id (suc r.last_seq) event_type row host.now
              s.db)
            v
            (persist-IsStage key s.open_runs r.last_seq host.new_event_id r r.last_seq event_type
              row host.now s.db stage))
    ]

pub record_synthetic-IsValid :
    (host : Host) (stored_id event_type : String) (payload : Fields) (profile : String)
    (s : RunRecorder)
    → IsValid s
    → IsValid (Requests.record_synthetic host stored_id event_type payload profile s).1
unfolding Requests.record_synthetic
record_synthetic-IsValid host stored_id event_type payload profile s v =
    elim (Bool-cases (is_in event_type synthetic_resolved_types)) [
      | inr refused ↦ rw refused v
      | inl own ↦ rw own (go (lookup (profile, stored_id) s.open_runs) refl)
    ]
  where
    go :
        (o : Option OpenRun)
        → lookup (profile, stored_id) s.open_runs ≡ o
        → IsValid (record_found host stored_id event_type payload profile s o).1
    go none e = record_synthetic_durable-IsValid host stored_id event_type payload profile s v e
    go (some r) e =
        let own : IsOpen s.db ((profile, stored_id), r) =
          lookup-All (IsOpen s.db) (profile, stored_id) s.open_runs v.open_valid e in
        rw ((string_eq.beq_iff r.profile profile).1 own.same_profile)
          (record_on_open-IsValid host stored_id event_type payload profile r s v e)
