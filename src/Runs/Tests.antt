-- ===== src/Runs/Tests.antt =====
-- A small table of runs and one of events.
use astation.Prelude.{
  ℕ, ◌≡◌, refl, true, false, none, some, List, [], ◌∷◌, ◌++◌, any, All, arith, take, keep_if,
}
use astation.Prelude.Eq.{◌==◌, string_eq}
use astation.Prelude.Dict.{lookup}
use astation.Prelude.Sort.{sort_by}
use astation.Json.{Json, Fields}
use astation.Runs.{
  Run, RunEvent, is_running, interrupt_all_running, events_after, in_order, last_seq_by_run,
}
use astation.Runs.Closing.{interrupt_all_running-settles}
use astation.Runs.Cursor.{Follows, is_numbered, events_after-last_seq_by_run}

abbrev running : Run
running = record {
  id = "run_1";
  project_id = none;
  session_id = none;
  runtime_session_id = some "s1";
  profile = "default";
  kind = "turn";
  status = "running";
  command_json = Json.obj (Fields.field "close_note" (Json.str "old") Fields.end);
  started_at = some 1;
  ended_at = none;
}

interrupt_all_running-settles_example :
    let once = interrupt_all_running 7 (running ∷ []) in
    (any is_running once.1 ≡ false) × (interrupt_all_running 9 once.1 ≡ ([], once.1))
interrupt_all_running-settles_example = interrupt_all_running-settles 7 9 (running ∷ [])

abbrev event : ℕ → RunEvent
event n = record {
  id = "revt_1";
  run_id = "run_1";
  seq = n;
  event_type = "message.delta";
  payload_json = Json.null;
  timestamp = n;
}

abbrev events : List RunEvent
events = event 2 ∷ event 1 ∷ []

last_is_two : lookup "run_1" (last_seq_by_run ("run_1" ∷ []) events) ≡ some 2
unfolding last_seq_by_run
last_is_two = refl

later-Follows : All (λ e. All (Follows "run_1" e) events) (event 3 ∷ [])
later-Follows = (((λ p q. omega arith), ((λ p q. omega arith), tt)), tt)

events_after-last_seq_by_run_example :
    (any (is_numbered "run_1" 2) events ≡ true)
    × (events_after "run_1" 2 10 (event 3 ∷ [] ++ events)
        ≡ take 10 (sort_by in_order (keep_if (λ e. e.run_id == "run_1") (event 3 ∷ []))))
events_after-last_seq_by_run_example =
    events_after-last_seq_by_run "run_1" ("run_1" ∷ []) events (event 3 ∷ []) 2 10 last_is_two
      later-Follows
