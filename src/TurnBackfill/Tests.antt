-- ===== src/TurnBackfill/Tests.antt =====
-- One run, a prompt just before it, a row within it and a row of another session.
use astation.Prelude.{◌≡◌, refl, String, false, some, none, List, [], ◌∷◌, map}
use astation.Prelude.Sort.{sort_by}
use astation.Json.{Json}
use astation.Runs.{Run}
use astation.Chat.{ChatMessage}
use astation.TurnBackfill.{
  backfill_turn_ids, backfill_all, backfill_session, sessions_to_backfill, distinct, assigned_in,
  assign_turn_ids, assign_from, group_by_profile, windows_of, spans_of, spans_from, run_for,
  link_rows,
}
use astation.TurnBackfill.Links.{AreLinked, backfill_turn_ids-AreLinked}

abbrev run : Run
run = record {
  id = "run_1";
  project_id = none;
  session_id = none;
  runtime_session_id = some "s1";
  profile = "default";
  kind = "turn";
  status = "completed";
  command_json = Json.null;
  started_at = some 10;
  ended_at = some 20;
}

abbrev row : String → String → String → ChatMessage
row id session role = record {
  id = id;
  profile = "default";
  stored_session_id = session;
  turn_id = none;
  seq = 1;
  role = role;
  text = none;
  reasoning = none;
  tool_name = none;
  tool_call_id = none;
  tool_args_json = Json.null;
  tool_result_json = Json.null;
  hermes_row_id = none;
  source = "submit";
  compacted = false;
  created_at = 5;
}

abbrev rows : List ChatMessage
rows =
    row "cm_1" "s1" "user"
    ∷ record (row "cm_2" "s1" "assistant") { created_at = 15; seq = 2 }
    ∷ record (row "cm_3" "s1" "assistant") { created_at = 30; seq = 3 }
    ∷ row "cm_4" "s2" "user"
    ∷ []

backfill_turn_ids-AreLinked_example :
    AreLinked (run ∷ []) rows (backfill_turn_ids (λ key. false) none (run ∷ []) rows).1
backfill_turn_ids-AreLinked_example =
    backfill_turn_ids-AreLinked (λ key. false) none (run ∷ []) rows

two_linked :
    map (λ (r : ChatMessage). r.turn_id) (backfill_turn_ids (λ key. false) none (run ∷ []) rows).1
    ≡ some "run_1" ∷ some "run_1" ∷ none ∷ none ∷ []
unfolding backfill_turn_ids backfill_all backfill_session sessions_to_backfill distinct assigned_in
    assign_turn_ids assign_from group_by_profile windows_of spans_of spans_from run_for link_rows
    sort_by
two_linked = refl
