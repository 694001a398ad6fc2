-- ===== src/Background/Transitions.antt =====
-- The states of a task: a result is recorded once and never lost to a later event.
use astation.Prelude.{
  ℕ, ◌≡◌, refl, sym, ap, ◌∙◌, subst, String, Bool, true, false, Option, none, some, List, [], ◌∷◌,
  if◌then◌else◌, keep_if, any, arith, Bool-cases, inl, inr,
}
use astation.Prelude.Eq.{◌==◌, string_eq, option_eq}
use astation.Prelude.Dict.{lookup, insert, lookup-insert, lookup-insert_self}
use astation.Prelude.Sort.{any-sort_by}
use astation.Background.{
  State, BackgroundTask, Table, is_running, is_finished, completed_row, record_completed, orphan,
  orphan_all_running, finished_results_for_session, has_result, rows_of, oldest_first,
  unfinished_sessions, stored_session_ids_with_unfinished_tasks, nonempty, distinct,
}

-- An event of a ledger after a task's submission.
pub data Event : Type 0 where
  complete : String → Option String → Option String → ℕ → Event
  orphan_all : Event

pub apply : Event → Table → Table
apply (complete id result hint now) db = (record_completed id result hint now db).1
apply orphan_all db = (orphan_all_running db).1

pub apply_all : List Event → Table → Table
apply_all [] db = db
apply_all (e ∷ es) db = apply_all es (apply e db)

orphan_option : Option BackgroundTask → Option BackgroundTask
orphan_option none = none
orphan_option (some row) = some (orphan row)

lookup-orphan_all_running :
    (id : String) (db : Table) → lookup id (orphan_all_running db).1 ≡ orphan_option (lookup id db)
unfolding orphan_all_running orphan_option
lookup-orphan_all_running id [] = refl
lookup-orphan_all_running id (x ∷ db) = ground (arith, lookup-orphan_all_running id db)

is_finished_refl :
    (row : BackgroundTask) → row.state ≡ State.finished → is_finished row.state ≡ true
is_finished_refl row f = rw f refl

orphan-finished : (row : BackgroundTask) → row.state ≡ State.finished → orphan row ≡ row
orphan-finished row f = rw f refl

lookup-complete_finished :
    (id : String) (row : BackgroundTask) (id' : String) (result hint : Option String) (now : ℕ)
    (db : Table)
    → lookup id db ≡ some row
    → row.state ≡ State.finished
    → lookup id (record_completed id' result hint now db).1 ≡ some row
unfolding record_completed
lookup-complete_finished id row id' result hint now db h f =
    let v = completed_row id' result hint now (lookup id' db) in
    lookup-insert id' id v db ∙ found v refl
  where
    found :
        (v : BackgroundTask)
        → v ≡ completed_row id' result hint now (lookup id' db)
        → (if id' == id then some v else lookup id db) ≡ some row
    found v p = elim (Bool-cases (id' == id)) [
      | inl same ↦
          let e = (string_eq.beq_iff id' id).0 same in
          let q : lookup id' db ≡ some row = subst (λ x. lookup x db ≡ some row) (sym e) h in
          let v_row : v ≡ row = p ∙ rw q (rw (is_finished_refl row f) refl) in
          rw same (ap some v_row)
      | inr other ↦ rw other h
    ]

lookup-apply-finished :
    (id : String) (row : BackgroundTask) (e : Event) (db : Table)
    → lookup id db ≡ some row
    → row.state ≡ State.finished
    → lookup id (apply e db) ≡ some row
unfolding apply orphan_option
lookup-apply-finished id row (complete id' result hint now) db h f =
    lookup-complete_finished id row id' result hint now db h f
lookup-apply-finished id row orphan_all db h f =
    lookup-orphan_all_running id db ∙ ap orphan_option h ∙ ap some (orphan-finished row f)

lookup-apply_all-finished :
    (id : String) (row : BackgroundTask) (es : List Event) (db : Table)
    → lookup id db ≡ some row
    → row.state ≡ State.finished
    → lookup id (apply_all es db) ≡ some row
unfolding apply_all
lookup-apply_all-finished id row [] db h f = h
lookup-apply_all-finished id row (e ∷ es) db h f =
    lookup-apply_all-finished id row es (apply e db) (lookup-apply-finished id row e db h f) f

-- The row that a completion leaves is a finished one.
completed_row-is_finished :
    (id : String) (result hint : Option String) (now : ℕ) (r : Option BackgroundTask)
    → (completed_row id result hint now r).state ≡ State.finished
completed_row-is_finished id result hint now none = refl
completed_row-is_finished id result hint now (some row) =
    elim (Bool-cases (is_finished row.state)) [
      | inl done ↦ rw done (is_finished-state row.state done)
      | inr later ↦ rw later refl
    ]
  where
    is_finished-state : (s : State) → is_finished s ≡ true → s ≡ State.finished
    is_finished-state State.running h = cc
    is_finished-state State.finished h = refl
    is_finished-state State.orphaned h = cc

-- A completion returns a finished row, and the ledger holds exactly this row after any further
-- completions, of this task or of others, and any sweeps that orphan running tasks.
pub record_completed-stays :
    (id : String) (result hint : Option String) (now : ℕ) (es : List Event) (db : Table)
    → let r = record_completed id result hint now db in
      (r.0.state ≡ State.finished) × (lookup id (apply_all es r.1) ≡ some r.0)
record_completed-stays id result hint now es db =
    unfold record_completed in
    let row = completed_row id result hint now (lookup id db) in
    let done = completed_row-is_finished id result hint now (lookup id db) in
    (
      done,
      lookup-apply_all-finished id row es (insert id row db) (lookup-insert_self id row db) done,
    )

any-rows_of :
    (id : String) (row : BackgroundTask) (p q : BackgroundTask → Bool) (db : Table)
    → lookup id db ≡ some row
    → q row ≡ true
    → p row ≡ true
    → any p (keep_if q (rows_of db)) ≡ true
any-rows_of id row p q [] h hq hp = cc
any-rows_of id row p q (x ∷ db) h hq hp = elim (Bool-cases (x.0 == id)) [
  | inl here ↦ let e : x.1 ≡ row = ground arith in rw e (rw hq (rw hp refl))
  | inr later ↦ let rest = any-rows_of id row p q db (ground arith) hq hp in ground arith
]

-- A finished row with a result for a session is in the list that `finished_results_for_session`
-- serves, whatever completions and sweeps came after its completion: each test that the row passes,
-- an element of the list passes.
pub finished_results-serve :
    (id : String) (result hint : Option String) (now : ℕ) (es : List Event) (db : Table)
    (session : String) (p : BackgroundTask → Bool)
    → has_result session (record_completed id result hint now db).0 ≡ true
    → p (record_completed id result hint now db).0 ≡ true
    → any p (
        finished_results_for_session session
          (apply_all es (record_completed id result hint now db).1))
      ≡ true
unfolding finished_results_for_session
finished_results-serve id result hint now es db session p hq hp =
    let r = record_completed id result hint now db in
    any-sort_by p oldest_first (keep_if (has_result session) (rows_of (apply_all es r.1)))
    ∙ any-rows_of id r.0 p (has_result session) (apply_all es r.1)
        (record_completed-stays id result hint now es db).1 hq hp

orphan-not_running : (row : BackgroundTask) → is_running (orphan row).state ≡ false
orphan-not_running row = elim (Bool-cases (is_running row.state)) [
  | inl h ↦ rw h refl
  | inr h ↦ rw h h
]

running_rows : Table → Bool
running_rows db = any (λ t. is_running t.state) (rows_of db)

sweep-running : (db : Table) → running_rows (orphan_all_running db).1 ≡ false
unfolding orphan_all_running running_rows
sweep-running [] = refl
sweep-running (x ∷ db) = rw (orphan-not_running x.1) (sweep-running db)

orphan-is_finished : (row : BackgroundTask) → is_finished (orphan row).state ≡ is_finished row.state
orphan-is_finished row = elim (Bool-cases (is_running row.state)) [
  | inl h ↦ rw h (not_finished row.state h)
  | inr h ↦ rw h refl
]
  where
    not_finished : (s : State) → is_running s ≡ true → false ≡ is_finished s
    not_finished State.running h = refl
    not_finished State.finished h = cc
    not_finished State.orphaned h = refl

orphan-session : (row : BackgroundTask) → (orphan row).stored_session_id ≡ row.stored_session_id
orphan-session row = elim (Bool-cases (is_running row.state)) [
  | inl h ↦ rw h refl
  | inr h ↦ rw h refl
]

sweep-unfinished :
    (db : Table) → unfinished_sessions (orphan_all_running db).1 ≡ unfinished_sessions db
unfolding orphan_all_running
sweep-unfinished [] = refl
sweep-unfinished (x ∷ db) = rw (orphan-is_finished x.1) (
    rw (orphan-session x.1) (
      ap
        (λ rest.
          if is_finished x.1.state
          then rest
          else elim x.1.stored_session_id [ none ↦ rest | some id ↦ id ∷ rest ])
        (sweep-unfinished db)))

-- The sweep of a restart or a reconnect leaves no task running, and the sessions that the rescue
-- then re-resumes are those that had an unfinished task before it.
pub orphan_all_running-rescues :
    (db : Table)
    → (any (λ t. is_running t.state) (rows_of (orphan_all_running db).1) ≡ false)
      × (stored_session_ids_with_unfinished_tasks (orphan_all_running db).1
          ≡ stored_session_ids_with_unfinished_tasks db)
unfolding stored_session_ids_with_unfinished_tasks running_rows
orphan_all_running-rescues db =
    (sweep-running db, ap (λ l. nonempty (distinct l)) (sweep-unfinished db))
