-- ===== src/Recorder/Calls.antt =====
-- Any calls of the recorder, in any order, with any failures, keep the ledger of events in order.
use astation.Prelude.{
  suc, ◌≡◌, refl, ap, sym, ◌∙◌, subst, String, Bool, true, false, Option, none, some, [], map, ◌||◌,
  is_some, All, Bool-cases, inl, inr,
}
use astation.Prelude.Eq.{◌==◌, string_eq, pair_eq}
use astation.Prelude.Dict.{Dict, lookup, HasUniqueKeys, insert-HasUniqueKeys, erase-HasUniqueKeys}
use astation.Json.{Json, Fields, get_or_null, nonempty_str}
use astation.Runs.{Run, RunEvent, interrupt, interrupt_all_running}
use astation.Watch.{WatchedSessions, is_watched}
use astation.Recorder
use astation.Recorder.{
  OpenRun, RunKey, Database, RunRecorder, Host, Canonical, Handled, run_of, event_of, transaction,
  is_persisted_event_type, run_closing_type, seq_for, keep_open, counted, remember_request,
  with_request, request_id_of, ends_with, after_transaction, after_failure, record_frame,
  handle_found, is_opening, retried_run, retried_or, handle_durable, handle_unwatched,
  handle_watched, handle_stored, stored_id_of, non_run_types, is_in, is_run_of,
}
use astation.Recorder.Numbering.{
  count_of, IsNumbered, HasRun, IsRowOf, IsOpen, IsOpenBut, insert-IsOpen, erase-IsOpen,
  KeepsRows-HasRun, interrupt_all-KeepsRows, KeepsRows-IsOpen,
}
use astation.Recorder.Steps.{IsStage, Ensures, number_after, number_of, transaction-IsStage}

-- One record for a session. Each open run has its row and knows its last number; the events of every
-- run are numbered from 1 without a gap, and their runs have rows.
pub record IsValid (s : RunRecorder) : Type 0 where
  pub unique_keys : HasUniqueKeys s.open_runs
  pub open_valid : All (IsOpen s.db) s.open_runs
  pub numbered : IsNumbered s.db.run_events
  pub has_run : All (HasRun s.db.runs) s.db.run_events

abbrev pub state_of : Handled → RunRecorder
state_of (Handled.returned s envelope told) = s
state_of (Handled.raised s) = s

remember_request-same :
    (event_type : String) (payload : Json) (r : OpenRun)
    → let r' = remember_request event_type payload r in
      (r'.run_id ≡ r.run_id) × (r'.profile ≡ r.profile) × (r'.last_seq ≡ r.last_seq)
unfolding remember_request
remember_request-same event_type payload r = elim (Bool-cases (ends_with ".requested" event_type)) [
  | inr other ↦ rw other (refl, refl, refl)
  | inl asks ↦ rw asks (go (request_id_of payload))
]
  where
    go :
        (id : Option String)
        → let r' = with_request event_type id r in
          (r'.run_id ≡ r.run_id) × (r'.profile ≡ r.profile) × (r'.last_seq ≡ r.last_seq)
    go none = (refl, refl, refl)
    go (some id) = (refl, refl, refl)

-- The record that is kept after a committed transaction.
counted-IsOpen :
    (persists : Bool) (found : Option OpenRun) (event_type : String) (payload : Json) (key : RunKey)
    (d : Dict RunKey OpenRun) (r : OpenRun) (db : Database)
    → IsStage key d (number_of found) (number_after persists (number_of found)) r db
    → IsOpen db (key, counted persists (seq_for persists found) event_type payload r)
counted-IsOpen false found event_type payload key d r db g = record {
  same_profile = g.same_profile;
  own_row = g.own_row;
  last_number = g.old_number ∙ g.last_number;
}
counted-IsOpen true found event_type payload key d r db g =
    let q = record r { last_seq = seq_for true found } in
    let s = remember_request-same event_type payload q in
    record {
      same_profile = s.1 ∙ g.same_profile;
      own_row = subst (λ id. IsRowOf key (run_of id db.runs)) (sym s.0) g.own_row;
      last_number =
          s.2 ∙ (next found ∙ (g.last_number ∙ ap (λ id. count_of id db.run_events) (sym s.0)));
    }
  where
    next : (found : Option OpenRun) → seq_for true found ≡ suc (number_of found)
    next none = refl
    next (some r) = refl

keep_open-IsValid :
    (closes : Bool) (key : RunKey) (r : OpenRun) (s : RunRecorder) (db : Database)
    → HasUniqueKeys s.open_runs
    → IsOpen db (key, r)
    → All (IsOpenBut key db) s.open_runs
    → IsNumbered db.run_events
    → All (HasRun db.runs) db.run_events
    → IsValid (record s { db = db; open_runs = keep_open closes key r s.open_runs })
keep_open-IsValid true key r s db u o others numbered has_run = record {
  unique_keys = erase-HasUniqueKeys key s.open_runs u;
  open_valid = erase-IsOpen key db s.open_runs u others;
  numbered = numbered;
  has_run = has_run;
}
keep_open-IsValid false key r s db u o others numbered has_run = record {
  unique_keys = insert-HasUniqueKeys key r s.open_runs u;
  open_valid = insert-IsOpen key r db s.open_runs u o others;
  numbered = numbered;
  has_run = has_run;
}

after_transaction-IsValid :
    (is_durable : Bool) (canonical : Canonical) (key : RunKey) (envelope : Fields) (payload : Json)
    (found : Option OpenRun) (s : RunRecorder) (t : Option (OpenRun × Database))
    → IsValid s
    → let persists = is_persisted_event_type canonical.type_name in
      Ensures
        (IsStage key s.open_runs (number_of found) (number_after persists (number_of found)))
        t
      → IsValid (
          state_of (
            after_transaction is_durable canonical key envelope payload
              (seq_for persists found)
              found
              s
              t))
after_transaction-IsValid true canonical key envelope payload found s none v g = v
after_transaction-IsValid false canonical key envelope payload none s none v g = v
after_transaction-IsValid false canonical key envelope payload (some r) s none v g = v
after_transaction-IsValid is_durable canonical key envelope payload found s (some (r, db)) v g =
    let persists = is_persisted_event_type canonical.type_name in
    keep_open-IsValid (canonical.type_name == run_closing_type) key
      (counted persists (seq_for persists found) canonical.type_name payload r) s db v.unique_keys
      (counted-IsOpen persists found canonical.type_name payload key s.open_runs r db g) g.others
      g.numbered g.has_run

record_frame-IsValid :
    (is_durable : Bool) (host : Host) (canonical : Canonical) (stored_id profile : String)
    (envelope : Fields) (payload : Json) (s : RunRecorder) (found : Option OpenRun)
    → IsValid s
    → lookup (profile, stored_id) s.open_runs ≡ found
    → IsValid (
        state_of
          (record_frame is_durable host canonical stored_id profile envelope payload s found))
record_frame-IsValid is_durable host canonical stored_id profile envelope payload s found v e =
    let persists = is_persisted_event_type canonical.type_name in
    after_transaction-IsValid is_durable canonical (profile, stored_id) envelope payload found s
      (transaction host canonical stored_id profile payload (seq_for persists found) found s.db) v
      (transaction-IsStage host canonical (profile, stored_id) payload s.open_runs found s.db e
        v.open_valid v.numbered v.has_run)

handle_found-IsValid :
    (is_durable : Bool) (host : Host) (canonical : Canonical) (stored_id profile : String)
    (envelope : Fields) (payload : Json) (s : RunRecorder) (found : Option OpenRun)
    → IsValid s
    → lookup (profile, stored_id) s.open_runs ≡ found
    → IsValid (
        state_of
          (handle_found is_durable host canonical stored_id profile envelope payload s found))
handle_found-IsValid is_durable host canonical stored_id profile envelope payload s none v e =
    elim (Bool-cases (is_opening canonical.type_name)) [
      | inl opens ↦ rw opens (
          record_frame-IsValid is_durable host canonical stored_id profile envelope payload s none v
            e)
      | inr other ↦ rw other v
    ]
handle_found-IsValid is_durable host canonical stored_id profile envelope payload s (some r) v e =
    elim (Bool-cases
      (is_persisted_event_type canonical.type_name || canonical.type_name == run_closing_type)) [
        | inl writes ↦ rw writes (
            record_frame-IsValid is_durable host canonical stored_id profile envelope payload s
              (some r) v e)
        | inr only ↦ rw only v
      ]

pub retried_run-state :
    (stored_id profile : String) (envelope : Fields) (s : RunRecorder) (o : Option Run)
    → state_of (retried_run stored_id profile envelope s o) ≡ s
retried_run-state stored_id profile envelope s none = refl
retried_run-state stored_id profile envelope s (some run) =
    elim (Bool-cases (is_run_of stored_id profile run)) [ inl h ↦ rw h refl | inr h ↦ rw h refl ]

retried_or-IsValid :
    (stored_id profile : String) (envelope : Fields) (s : RunRecorder) (o : Option RunEvent)
    (otherwise : Handled)
    → IsValid s
    → IsValid (state_of otherwise)
    → IsValid (state_of (retried_or stored_id profile envelope s o otherwise))
retried_or-IsValid stored_id profile envelope s none otherwise v w = w
retried_or-IsValid stored_id profile envelope s (some e) otherwise v w =
    subst IsValid (sym (retried_run-state stored_id profile envelope s (run_of e.run_id s.db.runs)))
      v

handle_durable-IsValid :
    (is_durable : Bool) (host : Host) (canonical : Canonical) (stored_id profile : String)
    (envelope : Fields) (s : RunRecorder) (otherwise : Handled)
    → IsValid s
    → IsValid (state_of otherwise)
    → IsValid
        (state_of (handle_durable is_durable host canonical stored_id profile envelope s otherwise))
handle_durable-IsValid false host canonical stored_id profile envelope s otherwise v w = w
handle_durable-IsValid true host canonical stored_id profile envelope s otherwise v w =
    elim (Bool-cases host.available) [
      | inl up ↦ rw up (
          retried_or-IsValid stored_id profile envelope s
            (event_of (host.persisted_event_id canonical.event_id) s.db.run_events) otherwise v w)
      | inr down ↦ rw down v
    ]

handle_watched-IsValid :
    (x : Bool × WatchedSessions) (is_durable : Bool) (host : Host) (canonical : Canonical)
    (stored_id profile : String) (envelope : Fields) (payload : Json) (s : RunRecorder)
    → IsValid s
    → IsValid
        (state_of (handle_watched x is_durable host canonical stored_id profile envelope payload s))
handle_watched-IsValid (true, w) is_durable host canonical stored_id profile envelope payload s v =
    record {
      unique_keys = v.unique_keys;
      open_valid = v.open_valid;
      numbered = v.numbered;
      has_run = v.has_run;
    }
handle_watched-IsValid (false, w) is_durable host canonical stored_id profile envelope payload s v =
    let s' = record s { watched = w } in
    let v' : IsValid s' = record {
      unique_keys = v.unique_keys;
      open_valid = v.open_valid;
      numbered = v.numbered;
      has_run = v.has_run;
    } in
    handle_durable-IsValid is_durable host canonical stored_id profile envelope s'
      (handle_found is_durable host canonical stored_id profile envelope payload s'
        (lookup (profile, stored_id) s.open_runs))
      v'
      (handle_found-IsValid is_durable host canonical stored_id profile envelope payload s'
        (lookup (profile, stored_id) s.open_runs) v' refl)

pub handle_event-IsValid :
    (host : Host) (canonical : Canonical) (envelope : Fields) (profile : String) (s : RunRecorder)
    → IsValid s
    → IsValid (state_of (Recorder.handle_event host canonical envelope profile s))
unfolding Recorder.handle_event
handle_event-IsValid host canonical envelope profile s v =
    go (stored_id_of (get_or_null "payload" envelope))
  where
    payload : Json
    payload = get_or_null "payload" envelope

    go :
        (o : Option String)
        → IsValid (state_of (handle_stored host canonical envelope profile payload s o))
    go none = v
    go (some stored_id) = elim (Bool-cases (is_in canonical.type_name non_run_types)) [
      | inl not_run ↦ rw not_run v
      | inr run ↦ rw run (
          handle_watched-IsValid (is_watched host.now (some stored_id) profile s.watched)
            (is_some (nonempty_str (get_or_null "_durable_capture_id" envelope))) host canonical
            stored_id profile envelope payload s v)
    ]

pub sweep-IsValid : (host : Host) (s : RunRecorder) → IsValid s → IsValid (Recorder.sweep host s).1
unfolding Recorder.sweep interrupt_all_running
sweep-IsValid host s v = elim (Bool-cases host.available) [
  | inr down ↦ rw down v
  | inl up ↦
      let runs = map (interrupt host.now) s.db.runs in
      let k = interrupt_all-KeepsRows host.now s.db.runs in
      rw up (record {
        unique_keys = v.unique_keys;
        open_valid = KeepsRows-IsOpen s.db runs s.open_runs k v.open_valid;
        numbered = v.numbered;
        has_run = KeepsRows-HasRun s.db.runs runs s.db.run_events k v.has_run;
      })
]

pub handle_generation_change-IsValid :
    (host : Host) (s : RunRecorder) → IsValid s → IsValid (Recorder.handle_generation_change host s)
unfolding Recorder.handle_generation_change
handle_generation_change-IsValid host s v =
    sweep-IsValid host (record s { open_runs = [] })
      (record { unique_keys = tt; open_valid = tt; numbered = v.numbered; has_run = v.has_run })
