-- ===== src/Recorder/Once.antt =====
-- A durable frame that comes again is recorded once.
use astation.Prelude.{
  ℕ, ◌≡◌, refl, ap, sym, subst, String, Bool, true, false, Option, none, some, if◌then◌else◌, ◌||◌,
  is_some, Bool-cases, inl, inr, ◌⊎◌,
}
use astation.Prelude.Eq.{◌==◌, string_eq, pair_eq}
use astation.Prelude.Dict.{Dict, lookup}
use astation.Json.{Json, Fields, get_or_null, nonempty_str}
use astation.Runs.{Run, RunEvent}
use astation.Watch.{WatchedSessions, is_watched}
use astation.Recorder
use astation.Recorder.{
  OpenRun, RunKey, Database, RunRecorder, Host, Canonical, Handled, run_of, event_of, transaction,
  is_persisted_event_type, run_closing_type, seq_for, after_transaction, record_frame, handle_found,
  is_opening, retried_or, handle_durable, handle_unwatched, handle_watched, handle_stored,
  stored_id_of, non_run_types, is_in, persisted, persist_run_event, add_event, opened,
  opened_or_made, closed, close_found, closed_by, completion_close, replaced, then_do, if_available,
  row_id, object_or_null,
}
use astation.Recorder.Steps.{Ensures, Ensures-then_do}
use astation.Recorder.Calls.{state_of, retried_run-state}

-- The row of an event is there.
abbrev IsStored : String → OpenRun → Database → Type 0
IsStored id r db = is_some (event_of id db.run_events) ≡ true

persisted-IsStored :
    (host : Host) (canonical : Canonical) (seq : ℕ) (payload : Json) (x : OpenRun × Database)
    → Ensures
        (IsStored (row_id host canonical.event_id))
        (persisted true host canonical seq payload x)
unfolding persist_run_event add_event
persisted-IsStored host canonical seq payload (r, db) =
    let id = row_id host canonical.event_id in
    elim (Bool-cases (is_some (event_of id db.run_events))) [
      | inl taken ↦ rw taken tt
      | inr free ↦ rw free (rw ((string_eq.beq_iff id id).1 refl) refl)
    ]

closed-IsStored :
    (closes : Bool) (host : Host) (canonical : Canonical) (payload : Json) (id : String)
    (r : OpenRun) (db : Database)
    → IsStored id r db
    → Ensures (IsStored id) (closed closes host canonical payload (r, db))
closed-IsStored false host canonical payload id r db h = h
closed-IsStored true host canonical payload id r db h = go (run_of r.run_id db.runs)
  where
    at_row : (c : Option Run) → Ensures (IsStored id) (replaced r db c)
    at_row none = tt
    at_row (some new) = h

    go : (o : Option Run) → Ensures (IsStored id) (close_found host.strip canonical payload r db o)
    go none = h
    go (some old) = at_row (closed_by (completion_close host.strip payload) canonical.timestamp old)

-- A committed transaction of a persisted type has stored its event.
transaction-IsStored :
    (host : Host) (canonical : Canonical) (stored_id profile : String) (payload : Json) (seq : ℕ)
    (found : Option OpenRun) (db : Database)
    → is_persisted_event_type canonical.type_name ≡ true
    → Ensures
        (IsStored (row_id host canonical.event_id))
        (transaction host canonical stored_id profile payload seq found db)
unfolding transaction
transaction-IsStored host canonical stored_id profile payload seq found db p =
    rw p (go host.available)
  where
    stored : OpenRun → Database → Type 0
    stored = IsStored (row_id host canonical.event_id)

    closes : Bool
    closes = canonical.type_name == run_closing_type

    rest :
        (x : OpenRun × Database)
        → Ensures stored (
            then_do
              (persisted true host canonical seq payload x)
              (λ y. closed closes host canonical payload y))
    rest x =
        Ensures-then_do stored stored (persisted true host canonical seq payload x)
          (λ y. closed closes host canonical payload y)
          (persisted-IsStored host canonical seq payload x)
          (λ r db' h.
            closed-IsStored closes host canonical payload (row_id host canonical.event_id) r db' h)

    body :
        (o : Option (OpenRun × Database))
        → Ensures stored (
            then_do o (λ x.
              then_do
                (persisted true host canonical seq payload x)
                (λ y. closed closes host canonical payload y)))
    body none = tt
    body (some x) = rest x

    go :
        (b : Bool)
        → Ensures stored (
            if_available b (
              then_do (opened_or_made host stored_id canonical.timestamp profile db found) (λ x.
                then_do
                  (persisted true host canonical seq payload x)
                  (λ y. closed closes host canonical payload y))))
    go false = tt
    go true = body (opened_or_made host stored_id canonical.timestamp profile db found)

-- The tables and the open runs, without the watches.
abbrev pub ledger_of : RunRecorder → Database × Dict RunKey OpenRun
ledger_of s = (s.db, s.open_runs)

-- The ledger after a call is the same.
retried_or-ledger :
    (stored_id profile : String) (envelope : Fields) (s : RunRecorder) (o : Option RunEvent)
    (otherwise : Handled)
    → is_some o ≡ true
    → state_of (retried_or stored_id profile envelope s o otherwise) ≡ s
retried_or-ledger stored_id profile envelope s none otherwise h = cc
retried_or-ledger stored_id profile envelope s (some e) otherwise h =
    retried_run-state stored_id profile envelope s (run_of e.run_id s.db.runs)

handle_durable-stored :
    (host : Host) (canonical : Canonical) (stored_id profile : String) (envelope : Fields)
    (s : RunRecorder) (otherwise : Handled)
    → is_some (event_of (host.persisted_event_id canonical.event_id) s.db.run_events) ≡ true
    → state_of (handle_durable true host canonical stored_id profile envelope s otherwise) ≡ s
handle_durable-stored host canonical stored_id profile envelope s otherwise h =
    elim (Bool-cases host.available) [
      | inr down ↦ rw down refl
      | inl up ↦ rw up (
          retried_or-ledger stored_id profile envelope s
            (event_of (host.persisted_event_id canonical.event_id) s.db.run_events) otherwise h)
    ]

-- A durable frame whose event is stored, or which would record nothing, keeps the state.
handle_durable-kept :
    (host : Host) (canonical : Canonical) (stored_id profile : String) (envelope : Fields)
    (s : RunRecorder) (otherwise : Handled)
    → state_of otherwise ≡ s
    → state_of (handle_durable true host canonical stored_id profile envelope s otherwise) ≡ s
handle_durable-kept host canonical stored_id profile envelope s otherwise h =
    elim (Bool-cases host.available) [
      | inr down ↦ rw down refl
      | inl up ↦ rw up (go (event_of (host.persisted_event_id canonical.event_id) s.db.run_events))
    ]
  where
    go : (o : Option RunEvent) → state_of (retried_or stored_id profile envelope s o otherwise) ≡ s
    go none = h
    go (some e) = retried_run-state stored_id profile envelope s (run_of e.run_id s.db.runs)

-- A frame that is handled again, where its event is stored or where no run is open for it and it
-- opens none.
IsDone : Host → Canonical → RunKey → RunRecorder → Type 0
IsDone host canonical key s =
    (is_some (event_of (host.persisted_event_id canonical.event_id) s.db.run_events) ≡ true)
    ⊎ (lookup key s.open_runs ≡ none) × (is_opening canonical.type_name ≡ false)

handle_watched-IsDone :
    (found : Bool × WatchedSessions) (host : Host) (canonical : Canonical)
    (stored_id profile : String) (envelope : Fields) (payload : Json) (s : RunRecorder)
    → IsDone host canonical (profile, stored_id) s
    → ledger_of
        (state_of (handle_watched found true host canonical stored_id profile envelope payload s))
      ≡ ledger_of s
unfolding IsDone
handle_watched-IsDone (true, w) host canonical stored_id profile envelope payload s d = refl
handle_watched-IsDone (false, w) host canonical stored_id profile envelope payload s (inl h) =
    ap ledger_of (
      handle_durable-stored host canonical stored_id profile envelope (record s { watched = w })
        (handle_found true host canonical stored_id profile envelope payload
          (record s { watched = w }) (lookup (profile, stored_id) s.open_runs))
        h)
handle_watched-IsDone (false, w) host canonical stored_id profile envelope payload s
      (inr (free, shut)) =
    ap ledger_of (
      handle_durable-kept host canonical stored_id profile envelope (record s { watched = w })
        (handle_found true host canonical stored_id profile envelope payload
          (record s { watched = w }) (lookup (profile, stored_id) s.open_runs))
        (rw free (rw shut refl)))

-- The call has not raised.
abbrev pub HasReturned : Handled → Type 0
HasReturned (Handled.returned s envelope told) = Unit
HasReturned (Handled.raised s) = ⊥

abbrev DoneAfter : Host → Canonical → RunKey → Handled → Type 0
DoneAfter host canonical key x = HasReturned x → IsDone host canonical key (state_of x)

after_transaction-IsDone :
    (host : Host) (canonical : Canonical) (stored_id profile : String) (envelope : Fields)
    (payload : Json) (seq : ℕ) (found : Option OpenRun) (s : RunRecorder)
    (o : Option (OpenRun × Database))
    → Ensures (IsStored (host.persisted_event_id canonical.event_id)) o
    → DoneAfter host canonical
        (profile, stored_id)
        (after_transaction true canonical (profile, stored_id) envelope payload seq found s o)
unfolding IsDone
after_transaction-IsDone host canonical stored_id profile envelope payload seq found s none h i =
    elim i [ ]
after_transaction-IsDone host canonical stored_id profile envelope payload seq found s
      (some (r, db)) h _ =
    inl h

record_frame-IsDone :
    (host : Host) (canonical : Canonical) (stored_id profile : String) (envelope : Fields)
    (payload : Json) (s : RunRecorder) (found : Option OpenRun)
    → is_persisted_event_type canonical.type_name ≡ true
    → (canonical.event_id == "") ≡ false
    → DoneAfter host canonical
        (profile, stored_id)
        (record_frame true host canonical stored_id profile envelope payload s found)
record_frame-IsDone host canonical stored_id profile envelope payload s found p named =
    let seq = seq_for (is_persisted_event_type canonical.type_name) found in
    let o = transaction host canonical stored_id profile payload seq found s.db in
    after_transaction-IsDone host canonical stored_id profile envelope payload seq found s o (
      subst (λ id. Ensures (IsStored id) o) (row_id-named host canonical.event_id named)
        (transaction-IsStored host canonical stored_id profile payload seq found s.db p))
  where
    row_id-named :
        (host : Host) (id : String)
        → (id == "") ≡ false
        → row_id host id ≡ host.persisted_event_id id
    row_id-named host id named = rw named refl

DoneAfter-if_true :
    (host : Host) (canonical : Canonical) (key : RunKey) (b : Bool) (x y : Handled)
    → b ≡ true
    → DoneAfter host canonical key x
    → DoneAfter host canonical key (if b then x else y)
DoneAfter-if_true host canonical key true x y h d = d
DoneAfter-if_true host canonical key false x y h d = cc

handle_found-IsDone :
    (host : Host) (canonical : Canonical) (stored_id profile : String) (envelope : Fields)
    (payload : Json) (s : RunRecorder) (found : Option OpenRun)
    → lookup (profile, stored_id) s.open_runs ≡ found
    → is_persisted_event_type canonical.type_name ≡ true
    → (canonical.event_id == "") ≡ false
    → DoneAfter host canonical
        (profile, stored_id)
        (handle_found true host canonical stored_id profile envelope payload s found)
unfolding IsDone
handle_found-IsDone host canonical stored_id profile envelope payload s (some r) l p named =
    let test =
      is_persisted_event_type canonical.type_name || canonical.type_name == run_closing_type in
    DoneAfter-if_true host canonical (profile, stored_id) test
      (record_frame true host canonical stored_id profile envelope payload s (some r))
      (Handled.returned s (Recorder.stamp envelope r) none)
      (or_left (is_persisted_event_type canonical.type_name)
        (canonical.type_name == run_closing_type) p)
      (record_frame-IsDone host canonical stored_id profile envelope payload s (some r) p named)
  where
    or_left : (b c : Bool) → b ≡ true → b || c ≡ true
    or_left b c h = rw h refl
handle_found-IsDone host canonical stored_id profile envelope payload s none l p named =
    go (is_opening canonical.type_name) refl
  where
    go :
        (b : Bool)
        → is_opening canonical.type_name ≡ b
        → DoneAfter host canonical
            (profile, stored_id)
            (if b
              then record_frame true host canonical stored_id profile envelope payload s none
              else Handled.returned s envelope none)
    go true e i =
        record_frame-IsDone host canonical stored_id profile envelope payload s none p named i
    go false e _ = inr (l, e)

retried_run-IsDone :
    (host : Host) (canonical : Canonical) (stored_id profile : String) (envelope : Fields)
    (s : RunRecorder) (o : Option Run)
    → is_some (event_of (host.persisted_event_id canonical.event_id) s.db.run_events) ≡ true
    → IsDone host canonical
        (profile, stored_id)
        (state_of (Recorder.retried_run stored_id profile envelope s o))
unfolding IsDone
retried_run-IsDone host canonical stored_id profile envelope s o h =
    subst (IsDone host canonical (profile, stored_id))
      (sym (retried_run-state stored_id profile envelope s o)) (inl h)

handle_unwatched-IsDone :
    (host : Host) (canonical : Canonical) (stored_id profile : String) (envelope : Fields)
    (payload : Json) (s : RunRecorder)
    → is_persisted_event_type canonical.type_name ≡ true
    → (canonical.event_id == "") ≡ false
    → DoneAfter host canonical
        (profile, stored_id)
        (handle_unwatched true host canonical stored_id profile envelope payload s)
handle_unwatched-IsDone host canonical stored_id profile envelope payload s p named =
    go host.available
  where
    otherwise : Handled
    otherwise =
        handle_found true host canonical stored_id profile envelope payload s
          (lookup (profile, stored_id) s.open_runs)

    at_event :
        (o : Option RunEvent)
        → event_of (host.persisted_event_id canonical.event_id) s.db.run_events ≡ o
        → DoneAfter host canonical
            (profile, stored_id)
            (retried_or stored_id profile envelope s o otherwise)
    at_event none e i =
        handle_found-IsDone host canonical stored_id profile envelope payload s
          (lookup (profile, stored_id) s.open_runs) refl p named i
    at_event (some x) e _ =
        retried_run-IsDone host canonical stored_id profile envelope s (run_of x.run_id s.db.runs)
          (ap is_some e)

    go :
        (b : Bool)
        → DoneAfter host canonical
            (profile, stored_id)
            (if b
              then retried_or stored_id profile envelope s
                  (event_of (host.persisted_event_id canonical.event_id) s.db.run_events)
                  otherwise
              else Handled.raised s)
    go true i =
        at_event (event_of (host.persisted_event_id canonical.event_id) s.db.run_events) refl i
    go false i = elim i [ ]

handle_watched-DoneAfter :
    (found : Bool × WatchedSessions) (host : Host) (canonical : Canonical)
    (stored_id profile : String) (envelope : Fields) (payload : Json) (s : RunRecorder)
    → found.0 ≡ false
    → is_persisted_event_type canonical.type_name ≡ true
    → (canonical.event_id == "") ≡ false
    → DoneAfter host canonical
        (profile, stored_id)
        (handle_watched found true host canonical stored_id profile envelope payload s)
handle_watched-DoneAfter (true, w) host canonical stored_id profile envelope payload s h p named =
    cc
handle_watched-DoneAfter (false, w) host canonical stored_id profile envelope payload s h p named =
    handle_unwatched-IsDone host canonical stored_id profile envelope payload
      (record s { watched = w }) p named

handle_watched-again :
    (host host' : Host) (canonical : Canonical) (stored_id profile : String) (envelope : Fields)
    (payload : Json) (s : RunRecorder)
    → host'.persisted_event_id canonical.event_id ≡ host.persisted_event_id canonical.event_id
    → IsDone host canonical (profile, stored_id) s
    → ledger_of (
        state_of (
          handle_watched
            (is_watched host'.now (some stored_id) profile s.watched)
            true
            host'
            canonical
            stored_id
            profile
            envelope
            payload
            s))
      ≡ ledger_of s
unfolding IsDone
handle_watched-again host host' canonical stored_id profile envelope payload s same d =
    handle_watched-IsDone (is_watched host'.now (some stored_id) profile s.watched) host' canonical
      stored_id profile envelope payload s (rw same d)

-- A frame with a durable capture id, of a persisted type and with an event id, for a session that is
-- not watched: once a call with it has returned, a further call with the same frame leaves the tables
-- and the open runs as they are, whether the database answers that call or not, whatever its clock
-- and its fresh ids.
pub handle_event-again :
    (host host' : Host) (canonical : Canonical) (envelope : Fields) (profile : String)
    (s : RunRecorder)
    → is_some (nonempty_str (get_or_null "_durable_capture_id" envelope)) ≡ true
    → is_persisted_event_type canonical.type_name ≡ true
    → (canonical.event_id == "") ≡ false
    → host'.persisted_event_id canonical.event_id ≡ host.persisted_event_id canonical.event_id
    → ((stored_id : String) → (is_watched host.now (some stored_id) profile s.watched).0 ≡ false)
    → HasReturned (Recorder.handle_event host canonical envelope profile s)
    → ledger_of (
        state_of (
          Recorder.handle_event host' canonical envelope profile
            (state_of (Recorder.handle_event host canonical envelope profile s))))
      ≡ ledger_of (state_of (Recorder.handle_event host canonical envelope profile s))
unfolding Recorder.handle_event
handle_event-again host host' canonical envelope profile s durable p named same unwatched =
    go (stored_id_of payload)
  where
    payload : Json
    payload = get_or_null "payload" envelope

    first : Option String → Handled
    first o = handle_stored host canonical envelope profile payload s o

    go :
        (o : Option String)
        → HasReturned (first o)
        → ledger_of (
            state_of
              (handle_stored host' canonical envelope profile payload (state_of (first o)) o))
          ≡ ledger_of (state_of (first o))
    go none h = refl
    go (some stored_id) h =
        at_type (is_in canonical.type_name non_run_types)
          (is_watched host.now (some stored_id) profile s.watched) (unwatched stored_id)
          (is_some (nonempty_str (get_or_null "_durable_capture_id" envelope))) durable h
      where
        at_type :
            (b : Bool) (found : Bool × WatchedSessions)
            → found.0 ≡ false
            → (d : Bool) → d ≡ true
            → HasReturned (
                if b
                then Handled.returned s envelope none
                else handle_watched found d host canonical stored_id profile envelope payload s)
            → let s' = state_of (
                if b
                then Handled.returned s envelope none
                else handle_watched found d host canonical stored_id profile envelope payload s) in
              ledger_of (
                state_of (
                  if b
                  then Handled.returned s' envelope none
                  else handle_watched
                      (is_watched host'.now (some stored_id) profile s'.watched)
                      d
                      host'
                      canonical
                      stored_id
                      profile
                      envelope
                      payload
                      s'))
              ≡ ledger_of s'
        at_type true found u d e h = refl
        at_type false found u true e h =
            handle_watched-again host host' canonical stored_id profile envelope payload
              (state_of
                (handle_watched found true host canonical stored_id profile envelope payload s))
              same
              (handle_watched-DoneAfter found host canonical stored_id profile envelope payload s u
                p named h)
        at_type false found u false e h = cc
