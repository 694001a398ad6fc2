-- ===== src/Recorder/Steps.antt =====
-- The transaction of a frame, step by step, and what it leaves.
use astation.Prelude.{
  ℕ, suc, ◌≡◌, refl, ap, sym, ◌∙◌, subst, String, Bool, true, false, Option, none, some, List, [],
  ◌∷◌, if◌then◌else◌, find_first, is_some, All, arith, Bool-cases, Option-cases, inl, inr,
}
use astation.Prelude.Eq.{◌==◌, string_eq, pair_eq}
use astation.Prelude.Dict.{Dict, lookup, lookup-All}
use astation.Json.{Json}
use astation.Runs.{Run, RunEvent, open_run, close_run, close_run_abnormal}
use astation.Recorder.{
  OpenRun, RunKey, Database, Host, Canonical, run_of, event_of, add_run, add_event,
  persist_run_event, open_run_in, opened, opened_or_made, persisted, closed, close_found, closed_by,
  completion_close, replaced, replace_run, then_do, if_available, transaction,
  is_persisted_event_type, run_closing_type, row_id, object_or_null, seq_for, filed_id,
  filed_project, is_filed,
}
use astation.Recorder.Numbering.{
  count_of, count_of_new, IsNumbered, HasRun, IsRowOf, IsOpen, IsOpenBut, IsOpen-But,
  with_event-All, KeepsRows-IsOpenBut, KeepsRows-HasRun, cons-KeepsRows, replace_run-KeepsRows,
}

-- The tables and the record of the run of one session, with the last number `n`, during a call;
-- the record still has the number `m`, and the other open runs are as they should be.
pub record IsStage (key : RunKey) (d : Dict RunKey OpenRun) (m n : ℕ) (r : OpenRun) (db : Database)
    : Type 0 where
  pub same_profile : r.profile ≡ key.0
  pub old_number : r.last_seq ≡ m
  pub own_row : IsRowOf key (run_of r.run_id db.runs)
  pub last_number : n ≡ count_of r.run_id db.run_events
  pub others : All (IsOpenBut key db) d
  pub numbered : IsNumbered db.run_events
  pub has_run : All (HasRun db.runs) db.run_events

-- What holds of the result of a step that did not fail.
abbrev pub Ensures : (OpenRun → Database → Type 0) → Option (OpenRun × Database) → Type 0
Ensures P none = Unit
Ensures P (some (r, db)) = P r db

pub Ensures-then_do :
    (P Q : OpenRun → Database → Type 0) (o : Option (OpenRun × Database))
    (f : OpenRun × Database → Option (OpenRun × Database))
    → Ensures P o
    → ((r : OpenRun) (db : Database) → P r db → Ensures Q (f (r, db)))
    → Ensures Q (then_do o f)
Ensures-then_do P Q none f h k = tt
Ensures-then_do P Q (some (r, db)) f h k = k r db h

pub found-id : (id : String) (runs : List Run) (run : Run) → run_of id runs ≡ some run → run.id ≡ id
found-id id [] run e = cc
found-id id (r ∷ runs) run e = elim (Bool-cases (r.id == id)) [
  | inl same ↦ ground (arith, string_eq.beq_iff r.id id)
  | inr other ↦ found-id id runs run (ground arith)
]

-- The last number after a step that persists, or does not.
abbrev pub number_after : Bool → ℕ → ℕ
number_after true n = suc n
number_after false n = n

module _ (key : RunKey) (d : Dict RunKey OpenRun) (m : ℕ) where
  -- A new event with the next number.
  pub persist-IsStage :
      (id : String) (r : OpenRun) (n : ℕ) (event_type : String) (payload : Json) (timestamp : ℕ)
      (db : Database)
      → IsStage key d m n r db
      → Ensures
          (IsStage key d m (suc n))
          (opened r (persist_run_event id r.run_id (suc n) event_type payload timestamp db))
  unfolding persist_run_event add_event
  persist-IsStage id r n event_type payload timestamp db g =
      elim (Bool-cases (is_some (event_of id db.run_events))) [
        | inl taken ↦ rw taken tt
        | inr free ↦
            let e : RunEvent = record {
              id = id;
              run_id = r.run_id;
              seq = suc n;
              event_type = event_type;
              payload_json = payload;
              timestamp = timestamp;
            } in
            rw free (record {
              same_profile = g.same_profile;
              old_number = g.old_number;
              own_row = g.own_row;
              last_number =
                  rw ((string_eq.beq_iff r.run_id r.run_id).1 refl) (ap suc g.last_number);
              others = with_event-All key e db d g.own_row g.others;
              numbered = (ap suc g.last_number, g.numbered);
              has_run = (IsRowOf-is_some (run_of r.run_id db.runs) g.own_row, g.has_run);
            })
      ]
    where
      IsRowOf-is_some : (o : Option Run) → IsRowOf key o → is_some o ≡ true
      IsRowOf-is_some none h = elim h [ ]
      IsRowOf-is_some (some run) h = refl

  closed_by-same :
      (c : String × Option String) (now : ℕ) (run new : Run)
      → closed_by c now run ≡ some new
      → (new.id ≡ run.id)
        × (new.profile ≡ run.profile)
        × (new.runtime_session_id ≡ run.runtime_session_id)
  unfolding close_run close_run_abnormal
  closed_by-same (status, none) now run new e = ground arith
  closed_by-same (status, some note) now run new e = ground arith

  replaced-IsStage :
      (r : OpenRun) (n : ℕ) (db : Database) (old : Run) (c : Option Run)
      → IsStage key d m n r db
      → run_of r.run_id db.runs ≡ some old
      → ((new : Run)
          → c ≡ some new
          → (new.id ≡ old.id)
            × (new.profile ≡ old.profile)
            × (new.runtime_session_id ≡ old.runtime_session_id))
      → Ensures (IsStage key d m n) (replaced r db c)
  replaced-IsStage r n db old none g found same = tt
  replaced-IsStage r n db old (some new) g found same =
      let s = same new refl in
      let id : new.id ≡ r.run_id = s.0 ∙ found-id r.run_id db.runs old found in
      let here : run_of new.id db.runs ≡ some old =
        subst (λ i. run_of i db.runs ≡ some old) (sym id) found in
      let k = replace_run-KeepsRows new old db.runs here s.1 s.2 in
      record {
        same_profile = g.same_profile;
        old_number = g.old_number;
        own_row = k.of_session r.run_id key g.own_row;
        last_number = g.last_number;
        others = KeepsRows-IsOpenBut key db (replace_run new db.runs) d k g.others;
        numbered = g.numbered;
        has_run = KeepsRows-HasRun db.runs (replace_run new db.runs) db.run_events k g.has_run;
      }

  close_found-IsStage :
      (strip : String → String) (canonical : Canonical) (payload : Json) (r : OpenRun) (n : ℕ)
      (db : Database) (found : Option Run)
      → IsStage key d m n r db
      → run_of r.run_id db.runs ≡ found
      → Ensures (IsStage key d m n) (close_found strip canonical payload r db found)
  close_found-IsStage strip canonical payload r n db none g e = g
  close_found-IsStage strip canonical payload r n db (some old) g e =
      replaced-IsStage r n db old
        (closed_by (completion_close strip payload) canonical.timestamp old) g e
        (closed_by-same (completion_close strip payload) canonical.timestamp old)

  closed-IsStage :
      (closes : Bool) (host : Host) (canonical : Canonical) (payload : Json) (r : OpenRun) (n : ℕ)
      (db : Database)
      → IsStage key d m n r db
      → Ensures (IsStage key d m n) (closed closes host canonical payload (r, db))
  closed-IsStage false host canonical payload r n db g = g
  closed-IsStage true host canonical payload r n db g =
      close_found-IsStage host.strip canonical payload r n db (run_of r.run_id db.runs) g refl

  persisted-IsStage :
      (persists : Bool) (host : Host) (canonical : Canonical) (payload : Json) (r : OpenRun) (n : ℕ)
      (db : Database)
      → IsStage key d m n r db
      → Ensures
          (IsStage key d m (number_after persists n))
          (persisted persists host canonical (suc n) payload (r, db))
  persisted-IsStage false host canonical payload r n db g = g
  persisted-IsStage true host canonical payload r n db g =
      persist-IsStage (row_id host canonical.event_id) r n canonical.type_name
        (object_or_null payload) canonical.timestamp db g

  -- What follows the opening: the event, if the type is persisted, and the close.
  pub rest-IsStage :
      (persists closes : Bool) (host : Host) (canonical : Canonical) (payload : Json) (n seq : ℕ)
      (r : OpenRun) (db : Database)
      → (if persists then seq else suc n) ≡ suc n
      → IsStage key d m n r db
      → Ensures (IsStage key d m (number_after persists n)) (
          then_do
            (persisted persists host canonical seq payload (r, db))
            (λ y. closed closes host canonical payload y))
  rest-IsStage persists closes host canonical payload n seq r db e g =
      Ensures-then_do (IsStage key d m (number_after persists n))
        (IsStage key d m (number_after persists n))
        (persisted persists host canonical seq payload (r, db))
        (λ y. closed closes host canonical payload y) (first persists e)
        (λ r' db' h.
          closed-IsStage closes host canonical payload r' (number_after persists n) db' h)
    where
      first :
          (persists : Bool)
          → (if persists then seq else suc n) ≡ suc n
          → Ensures
              (IsStage key d m (number_after persists n))
              (persisted persists host canonical seq payload (r, db))
      first false e = g
      first true e =
          subst
            (λ q.
              Ensures (IsStage key d m (suc n)) (persisted true host canonical q payload (r, db)))
            (sym e) (persisted-IsStage true host canonical payload r n db g)

open_run_in-IsStage :
    (key : RunKey) (d : Dict RunKey OpenRun) (host : Host) (now : ℕ) (db : Database)
    → All (IsOpen db) d
    → IsNumbered db.run_events
    → All (HasRun db.runs) db.run_events
    → Ensures (IsStage key d 0 0) (open_run_in host key.1 now key.0 db)
unfolding open_run_in add_run open_run
open_run_in-IsStage key d host now db o numbered has_run =
    elim (Option-cases (run_of host.new_run_id db.runs)) [
      | inr (old, taken) ↦ rw taken tt
      | inl free ↦
          let run =
            (open_run host.new_run_id key.1
              (filed_id (find_first (is_filed key.1 key.0) db.sessions))
              (filed_project (find_first (is_filed key.1 key.0) db.sessions)) key.0 now []).0 in
          let k = cons-KeepsRows run db.runs free in
          rw free (record {
            same_profile = refl;
            old_number = refl;
            own_row = rw ((string_eq.beq_iff host.new_run_id host.new_run_id).1 refl) (refl, refl);
            last_number = sym (count_of_new host.new_run_id db.runs db.run_events free has_run);
            others = KeepsRows-IsOpenBut key db (run ∷ db.runs) d k (IsOpen-But key db d o);
            numbered = numbered;
            has_run = KeepsRows-HasRun db.runs (run ∷ db.runs) db.run_events k has_run;
          })
    ]

if_available-Ensures :
    (P : OpenRun → Database → Type 0) (b : Bool) (o : Option (OpenRun × Database))
    → Ensures P o
    → Ensures P (if_available b o)
if_available-Ensures P true o h = h
if_available-Ensures P false o h = tt

-- The number that the record of a session has; none before its run is opened.
abbrev pub number_of : Option OpenRun → ℕ
number_of none = 0
number_of (some r) = r.last_seq

seq_for-number_of :
    (persists : Bool) (found : Option OpenRun)
    → (if persists then seq_for persists found else suc (number_of found)) ≡ suc (number_of found)
seq_for-number_of false found = refl
seq_for-number_of true none = refl
seq_for-number_of true (some r) = refl

pub start-IsStage :
    (host : Host) (now : ℕ) (key : RunKey) (db : Database) (d : Dict RunKey OpenRun)
    (found : Option OpenRun)
    → lookup key d ≡ found
    → All (IsOpen db) d
    → IsNumbered db.run_events
    → All (HasRun db.runs) db.run_events
    → Ensures
        (IsStage key d (number_of found) (number_of found))
        (opened_or_made host key.1 now key.0 db found)
start-IsStage host now key db d none e o numbered has_run =
    open_run_in-IsStage key d host now db o numbered has_run
start-IsStage host now key db d (some r) e o numbered has_run =
    let own : IsOpen db (key, r) = lookup-All (IsOpen db) key d o e in
    record {
      same_profile = own.same_profile;
      old_number = refl;
      own_row = own.own_row;
      last_number = own.last_number;
      others = IsOpen-But key db d o;
      numbered = numbered;
      has_run = has_run;
    }

-- A transaction that is committed leaves the tables and the record of its run in order.
pub transaction-IsStage :
    (host : Host) (canonical : Canonical) (key : RunKey) (payload : Json) (d : Dict RunKey OpenRun)
    (found : Option OpenRun) (db : Database)
    → lookup key d ≡ found
    → All (IsOpen db) d
    → IsNumbered db.run_events
    → All (HasRun db.runs) db.run_events
    → let persists = is_persisted_event_type canonical.type_name in
      Ensures
        (IsStage key d (number_of found) (number_after persists (number_of found)))
        (transaction host canonical key.1 key.0 payload (seq_for persists found) found db)
unfolding transaction
transaction-IsStage host canonical key payload d found db e o numbered has_run =
    let persists = is_persisted_event_type canonical.type_name in
    let n = number_of found in
    let seq = seq_for persists found in
    let after = IsStage key d n (number_after persists n) in
    let rest = λ (x : OpenRun × Database).
      then_do (persisted persists host canonical seq payload x)
        (λ y. closed (canonical.type_name == run_closing_type) host canonical payload y) in
    if_available-Ensures after host.available
      (then_do (opened_or_made host key.1 canonical.timestamp key.0 db found) rest)
      (Ensures-then_do (IsStage key d n n) after
        (opened_or_made host key.1 canonical.timestamp key.0 db found) rest
        (start-IsStage host canonical.timestamp key db d found e o numbered has_run)
        (λ r db' g.
          rest-IsStage key d n persists (canonical.type_name == run_closing_type) host canonical
            payload n seq r db' (seq_for-number_of persists found) g))
