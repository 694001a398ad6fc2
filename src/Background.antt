-- ===== src/Background.antt =====
-- gateway/domain/background_tasks.py: the ledger of background tasks. The table is a dictionary by its
-- primary key, in insertion order; times are numbers.
pub mod Transitions
pub mod Ledger
mod Tests
use astation.Prelude.{
  ℕ, ◌≤◌, String, Bool, true, false, Option, none, some, List, [], ◌∷◌, map, if◌then◌else◌, is_none,
  is_some, keep_if, any, not, ◌&&◌, ◌||◌, ltb, eqb, take, leb,
}
use astation.Prelude.Eq.{◌==◌, nat_eq, string_eq, option_eq}
use astation.Prelude.Dict.{Dict, lookup, insert, erase}
use astation.Prelude.Sort.{sort_by}
use astation.Json.{str_leb}

pub data State : Type 0 where
  running finished orphaned : State

-- The columns that the ledger reads or writes.
pub record BackgroundTask : Type 0 where
  pub task_id : String
  pub stored_session_id : Option String
  pub prompt_text : Option String
  pub submitted_at : ℕ
  pub state : State
  pub result_text : Option String
  pub finished_at : Option ℕ
  pub connection_generation : Option ℕ

abbrev pub Table : Type 0
Table = Dict String BackgroundTask

abbrev pub is_running : State → Bool
is_running State.running = true
is_running _ = false

abbrev pub is_finished : State → Bool
is_finished State.finished = true
is_finished _ = false

-- `record_submitted`: a row of the same id is deleted first
unfoldable pub record_submitted :
    (task_id stored_session_id prompt_text : String) (generation : Option ℕ) (now : ℕ)
    → Table
    → Table
record_submitted task_id stored_session_id prompt_text generation now db =
    insert task_id
      (record {
        task_id = task_id;
        stored_session_id = some stored_session_id;
        prompt_text = some prompt_text;
        submitted_at = now;
        state = State.running;
        result_text = none;
        finished_at = none;
        connection_generation = generation;
      })
      (erase task_id db)

-- the row of a completion that no submit row belongs to
abbrev pub unsubmitted : String → Option String → Option String → ℕ → BackgroundTask
unsubmitted task_id result_text hint now = record {
  task_id = task_id;
  stored_session_id = hint;
  prompt_text = none;
  submitted_at = now;
  state = State.finished;
  result_text = result_text;
  finished_at = some now;
  connection_generation = none;
}

-- `if row.stored_session_id is None and hint`
abbrev pub session_or_hint : Option String → Option String → Option String
session_or_hint none none = none
session_or_hint none (some hint) = if hint == "" then none else some hint
session_or_hint (some id) hint = some id

abbrev pub completed : Option String → Option String → ℕ → BackgroundTask → BackgroundTask
completed result_text hint now row = record row {
  state = State.finished;
  result_text = result_text;
  finished_at = some now;
  stored_session_id = session_or_hint row.stored_session_id hint;
}

abbrev pub completed_row :
    String → Option String → Option String → ℕ → Option BackgroundTask → BackgroundTask
completed_row task_id result_text hint now none = unsubmitted task_id result_text hint now
completed_row task_id result_text hint now (some row) =
    if is_finished row.state then row else completed result_text hint now row

-- `record_completed`: the row, and the table with it
unfoldable pub record_completed :
    (task_id : String) (result_text hint : Option String) (now : ℕ) → Table → BackgroundTask × Table
record_completed task_id result_text hint now db =
    let row = completed_row task_id result_text hint now (lookup task_id db) in
    (row, insert task_id row db)

abbrev pub orphan : BackgroundTask → BackgroundTask
orphan row = if is_running row.state then record row { state = State.orphaned } else row

-- `orphan_all_running`: the rows touched, and the table
unfoldable pub orphan_all_running : Table → List BackgroundTask × Table
orphan_all_running db = (
  map (λ (x : String × BackgroundTask). orphan x.1)
      (keep_if (λ (x : String × BackgroundTask). is_running x.1.state) db),
  map (λ (x : String × BackgroundTask). (x.0, orphan x.1)) db,
)

abbrev pub distinct : List String → List String
distinct [] = []
distinct (s ∷ l) = s ∷ keep_if (λ t. not (t == s)) (distinct l)

abbrev pub nonempty : List String → List String
nonempty l = keep_if (λ s. not (s == "")) l

abbrev pub unfinished_sessions : Table → List String
unfinished_sessions [] = []
unfinished_sessions (x ∷ db) =
    let rest = unfinished_sessions db in
    if is_finished x.1.state
    then rest
    else elim x.1.stored_session_id [ none ↦ rest | some id ↦ id ∷ rest ]

-- `stored_session_ids_with_unfinished_tasks`
unfoldable pub stored_session_ids_with_unfinished_tasks : Table → List String
stored_session_ids_with_unfinished_tasks db = nonempty (distinct (unfinished_sessions db))

-- newest submit first, ties by the id
abbrev pub newest_first : BackgroundTask → BackgroundTask → Bool
newest_first a b =
    ltb b.submitted_at a.submitted_at
    || (eqb a.submitted_at b.submitted_at && str_leb a.task_id b.task_id)

abbrev pub rows_of : Table → List BackgroundTask
rows_of db = map (λ (x : String × BackgroundTask). x.1) db

-- `tasks_for_session`
unfoldable pub tasks_for_session : String → Table → List BackgroundTask
unfolding sort_by
tasks_for_session id db =
    sort_by newest_first
      (keep_if (λ (t : BackgroundTask). t.stored_session_id == some id) (rows_of db))

-- `all_tasks`
unfoldable pub all_tasks : ℕ → Table → List BackgroundTask
unfolding sort_by
all_tasks limit db = take limit (sort_by newest_first (rows_of db))

abbrev pub finished_before : Option ℕ → Option ℕ → Bool
finished_before none b = true
finished_before (some a) none = false
finished_before (some a) (some b) = ltb a b

-- oldest first; SQLite puts a null first
abbrev pub oldest_first : BackgroundTask → BackgroundTask → Bool
oldest_first a b =
    if a.finished_at == b.finished_at
    then str_leb a.task_id b.task_id
    else finished_before a.finished_at b.finished_at

abbrev pub has_result : String → BackgroundTask → Bool
has_result id t = t.stored_session_id == some id && is_finished t.state && is_some t.result_text

-- `finished_results_for_session`
unfoldable pub finished_results_for_session : String → Table → List BackgroundTask
unfolding sort_by
finished_results_for_session id db = sort_by oldest_first (keep_if (has_result id) (rows_of db))
