-- ===== src/Background/Tests.antt =====
-- A task's completion on a small ledger.
use astation.Prelude.{◌≡◌, refl, Bool, true, false, none, some, List, [], ◌∷◌, any}
use astation.Prelude.Eq.{◌==◌, string_eq}
use astation.Prelude.Dict.{lookup}
use astation.Json.{Json, Items, Fields}
use astation.Background.{
  State, BackgroundTask, Table, record_completed, orphan_all_running, rows_of, is_running,
  has_result, finished_results_for_session, stored_session_ids_with_unfinished_tasks,
}
use astation.Background.Transitions.{
  Event, apply_all, record_completed-stays, finished_results-serve, orphan_all_running-rescues,
}
use astation.Background.Ledger.{
  Host, Completion, handle_completed, append_finished_background_results,
}
use astation.Background.Ledger.Served.{
  handle_completed-serves, handle_completed-duplicate, in_payload, any_message, is_text,
}

abbrev submitted : BackgroundTask
submitted = record {
  task_id = "t1";
  stored_session_id = some "s1";
  prompt_text = some "p";
  submitted_at = 1;
  state = State.orphaned;
  result_text = none;
  finished_at = none;
  connection_generation = some 1;
}

abbrev finished : BackgroundTask
finished = record submitted {
  state = State.finished;
  result_text = some "first";
  finished_at = some 2;
}

abbrev open_table : Table
open_table = ("t1", submitted) ∷ []

abbrev done_table : Table
done_table = ("t1", finished) ∷ []

abbrev later : List Event
later = Event.orphan_all ∷ Event.complete "t1" (some "again") none 9 ∷ []

record_completed-stays_example :
    let r = record_completed "t1" (some "done") none 3 open_table in
    (r.0.state ≡ State.finished) × (lookup "t1" (apply_all later r.1) ≡ some r.0)
record_completed-stays_example = record_completed-stays "t1" (some "done") none 3 later open_table

abbrev has_session : BackgroundTask → Bool
has_session t = has_result "s1" t

completed_has_session : has_session (record_completed "t1" (some "done") none 3 open_table).0 ≡ true
unfolding record_completed
completed_has_session = refl

finished_results-serve_example :
    any has_session (
      finished_results_for_session "s1"
        (apply_all later (record_completed "t1" (some "done") none 3 open_table).1))
    ≡ true
finished_results-serve_example =
    finished_results-serve "t1" (some "done") none 3 later open_table "s1" has_session
      completed_has_session completed_has_session

orphan_all_running-rescues_example :
    (any (λ t. is_running t.state) (rows_of (orphan_all_running open_table).1) ≡ false)
    × (stored_session_ids_with_unfinished_tasks (orphan_all_running open_table).1
        ≡ stored_session_ids_with_unfinished_tasks open_table)
orphan_all_running-rescues_example = orphan_all_running-rescues open_table

abbrev host : Host
host = record {
  event_id = "evt_1";
  utc_now = "2024-01-01T00:00:00Z";
  isoformat = λ t. "2024-01-01T00:00:00Z";
  is_zero = λ s. s == "0.0";
}

abbrev payload : Fields
payload = Fields.field "task_id" (Json.str "t1") (Fields.field "text" (Json.str "done") Fields.end)

abbrev envelope : Fields
envelope = Fields.field "payload" (Json.obj payload) Fields.end

abbrev completion : Completion
completion = record { task_id = "t1"; result_text = some "done"; hint = none }

open_session :
    (record_completed "t1" (some "done") none 3 open_table).0.stored_session_id ≡ some "s1"
unfolding record_completed
open_session = refl

done_session :
    (record_completed "t1" (some "done") none 3 done_table).0.stored_session_id ≡ some "s1"
unfolding record_completed
done_session = refl

handle_completed-serves_example :
    let h = handle_completed true host 3 open_table envelope in
    (in_payload "text" h.synthesized ≡ some (Json.str "done"))
    × (in_payload "_stored_session_id" h.synthesized ≡ some (Json.str "s1"))
    × (any_message
          (is_text "done")
          (append_finished_background_results host true
            (apply_all later h.table)
            "s1"
            (Json.arr Items.nil)).1
        ≡ true)
handle_completed-serves_example =
    handle_completed-serves host 3 open_table envelope payload completion "done" "s1" later
      Items.nil refl refl refl refl open_session refl

handle_completed-duplicate_example :
    let h = handle_completed true host 3 done_table envelope in
    (lookup "t1" h.table ≡ lookup "t1" done_table)
    × (in_payload "text" h.synthesized ≡ some (Json.str "done"))
handle_completed-duplicate_example =
    handle_completed-duplicate host 3 done_table envelope payload completion "done" "s1" "t1" refl
      refl refl refl done_session refl
