-- ===== src/TurnBackfill.antt =====
-- gateway/domain/turn_backfill.py: the chat rows without a run get one by their times, in seconds.
pub mod Links
mod Tests
use astation.Prelude.{
  ℕ, zero, suc, ◌+◌, ◌-◌, String, Bool, true, false, Option, none, some, List, [], ◌∷◌, ◌++◌,
  if◌then◌else◌, not, ◌&&◌, ◌||◌, any, find_first, keep_if, is_none, length, ltb, leb, eqb, map,
  take,
}
use astation.Prelude.Eq.{Eq, ◌==◌, string_eq, option_eq, pair_eq}
use astation.Prelude.Dict.{Dict, lookup, insert}
use astation.Prelude.Sort.{sort_by}
use astation.Json.{str_leb}
use astation.Runs.{Run}
use astation.Chat.{ChatMessage, is_in_session, earlier_seq}

abbrev pub slack : ℕ
slack = 2

pub record RunWindow : Type 0 where
  pub id : String
  pub profile : String
  pub started_at : ℕ
  pub ended_at : Option ℕ

-- `RunWindow.from_run`
abbrev pub window_of : Run → Option ℕ → Option RunWindow
window_of run none = none
window_of run (some started_at) = some (record {
  id = run.id;
  profile = if run.profile == "" then "default" else run.profile;
  started_at = started_at;
  ended_at = run.ended_at;
})

-- `_Span`
pub record Span : Type 0 where
  pub run_id : String
  pub start : ℕ
  pub end : Option ℕ

abbrev pub is_at_most : ℕ → ℕ → Option ℕ → Bool
is_at_most by when none = true
is_at_most by when (some end) = leb when (end + by)

-- `_Span.holds`
abbrev pub holds : ℕ → ℕ → Span → Bool
holds by when span = not (ltb (when + by) span.start) && is_at_most by when span.end

abbrev pub starts_before : RunWindow → RunWindow → Bool
starts_before a b =
    ltb a.started_at b.started_at || (eqb a.started_at b.started_at && str_leb a.id b.id)

abbrev pub first_start : List RunWindow → Option ℕ
first_start [] = none
first_start (run ∷ runs) = some run.started_at

abbrev pub or_else : Option ℕ → Option ℕ → Option ℕ
or_else none b = b
or_else (some a) b = some a

-- the loop of `_spans` over the ordered runs
unfoldable pub spans_from : List RunWindow → List Span
spans_from [] = []
spans_from (run ∷ runs) =
    record {
      run_id = run.id;
      start = run.started_at;
      end = or_else run.ended_at (first_start runs);
    }
    ∷ spans_from runs

-- `_spans`
unfoldable pub spans_of : List RunWindow → List Span
unfolding spans_from
spans_of runs = spans_from (sort_by starts_before runs)

abbrev pub id_of : Option Span → Option String
id_of none = none
id_of (some span) = some span.run_id

abbrev pub first_some : Option String → Option String → Option String
first_some none b = b
first_some (some a) b = some a

-- `_containing`
abbrev pub containing : List Span → ℕ → ℕ → Option String
containing spans when by =
    first_some (id_of (find_first (holds 0 when) spans)) (id_of (find_first (holds by when) spans))

-- `_next_starting_at_or_after`
abbrev pub next_starting_at_or_after : List Span → ℕ → Option String
next_starting_at_or_after spans when = id_of (find_first (λ span. leb when span.start) spans)

-- the run of one row, by the spans of its profile; a difference below 0 is before every start, as 0 is
unfoldable pub run_for : ℕ → List Span → ChatMessage → Option String
run_for by spans row = first_some (containing spans row.created_at by) (
    if not (row.role == "user")
    then none
    else if row.source == "submit"
    then next_starting_at_or_after spans (row.created_at - by)
    else if row.source == "backfill"
    then next_starting_at_or_after spans row.created_at
    else none)

abbrev pub or_no_windows : Option (List RunWindow) → List RunWindow
or_no_windows none = []
or_no_windows (some l) = l

-- `by_profile`
unfoldable pub group_by_profile :
    List RunWindow → Dict String (List RunWindow) → Dict String (List RunWindow)
group_by_profile [] groups = groups
group_by_profile (run ∷ runs) groups =
    group_by_profile runs
      (insert run.profile (or_no_windows (lookup run.profile groups) ++ run ∷ []) groups)

abbrev pub assign_one : Option String → String → Dict String String → Dict String String
assign_one none id assigned = assigned
assign_one (some run_id) id assigned = insert id run_id assigned

-- the loop of `assign_turn_ids` over the rows
unfoldable pub assign_from :
    ℕ → Dict String (List RunWindow) → List ChatMessage → Dict String String → Dict String String
unfolding spans_of run_for
assign_from by groups [] assigned = assigned
assign_from by groups (row ∷ rows) assigned = assign_from by groups rows (
    assign_one (run_for by (spans_of (or_no_windows (lookup row.profile groups))) row) row.id
      assigned)

-- `assign_turn_ids`: row ids to run ids
unfoldable pub assign_turn_ids : ℕ → List RunWindow → List ChatMessage → Dict String String
unfolding group_by_profile assign_from
assign_turn_ids by runs rows = assign_from by (group_by_profile runs []) rows []

abbrev pub is_run_of : String → String → Run → Bool
is_run_of profile stored_id run = run.runtime_session_id == some stored_id && run.profile == profile

abbrev pub with_window : Option RunWindow → List RunWindow → List RunWindow
with_window none windows = windows
with_window (some window) windows = window ∷ windows

unfoldable pub windows_of : List Run → List RunWindow
windows_of [] = []
windows_of (run ∷ runs) = with_window (window_of run run.started_at) (windows_of runs)

abbrev pub is_unlinked : String → String → ChatMessage → Bool
is_unlinked profile stored_id row = is_in_session profile stored_id row && is_none row.turn_id

abbrev pub linked : Option String → ChatMessage → ChatMessage
linked none row = row
linked (some run_id) row = record row { turn_id = some run_id }

-- `row.turn_id = run_id` for the rows that were read
unfoldable pub link_rows :
    String → String → Dict String String → List ChatMessage → List ChatMessage
link_rows profile stored_id assigned [] = []
link_rows profile stored_id assigned (row ∷ rows) =
    (if is_unlinked profile stored_id row then linked (lookup row.id assigned) row else row)
    ∷ link_rows profile stored_id assigned rows

-- What one session's pass assigns.
unfoldable pub assigned_in : List Run → String → String → List ChatMessage → Dict String String
unfolding assign_turn_ids windows_of
assigned_in runs profile stored_id rows =
    assign_turn_ids slack (windows_of (keep_if (is_run_of profile stored_id) runs))
      (sort_by earlier_seq (keep_if (is_unlinked profile stored_id) rows))

-- `BackfillReport`
pub record BackfillReport : Type 0 where
  pub sessions_scanned : ℕ
  pub rows_assigned : ℕ
  pub rows_left_null : ℕ
  pub sessions_failed : ℕ

-- a profile and a stored id
abbrev pub SessionKey : Type 0
SessionKey = String × String

-- `_backfill_session`, its commit and the counts; the changes of a session that fails are rolled back
unfoldable pub backfill_session :
    Bool
    → List Run
    → SessionKey
    → BackfillReport × List ChatMessage
    → BackfillReport × List ChatMessage
unfolding assigned_in link_rows
backfill_session fails runs (profile, stored_id) (report, rows) =
    let assigned = assigned_in runs profile stored_id rows in
    let read = length (keep_if (is_unlinked profile stored_id) rows) in
    if fails then (record report { sessions_failed = suc report.sessions_failed }, rows) else (
      record report {
        sessions_scanned = suc report.sessions_scanned;
        rows_assigned = report.rows_assigned + length assigned;
        rows_left_null = report.rows_left_null + (read - length assigned);
      },
      link_rows profile stored_id assigned rows,
    )

abbrev pub key_before : SessionKey → SessionKey → Bool
key_before a b = if a.0 == b.0 then str_leb a.1 b.1 else str_leb a.0 b.0

-- the distinct keys
unfoldable pub distinct : List SessionKey → List SessionKey
distinct [] = []
distinct (k ∷ ks) = let rest = distinct ks in if any (λ j. j == k) rest then rest else k ∷ rest

abbrev pub key_of : ChatMessage → SessionKey
key_of row = (row.profile, row.stored_session_id)

-- `_sessions_to_backfill`
unfoldable pub sessions_to_backfill : List Run → List ChatMessage → List SessionKey
unfolding distinct
sessions_to_backfill runs rows = sort_by key_before (
    distinct (
      map key_of (
        keep_if
          (λ row. is_none row.turn_id && any (is_run_of row.profile row.stored_session_id) runs)
          rows)))

abbrev pub up_to : Option ℕ → List SessionKey → List SessionKey
up_to none sessions = sessions
up_to (some limit) sessions = take limit sessions

unfoldable pub backfill_all :
    (SessionKey → Bool)
    → List Run
    → List SessionKey
    → BackfillReport × List ChatMessage
    → BackfillReport × List ChatMessage
unfolding backfill_session
backfill_all fails runs [] x = x
backfill_all fails runs (key ∷ keys) x =
    backfill_all fails runs keys (backfill_session (fails key) runs key x)

-- `backfill_turn_ids`, with the sessions whose pass fails
unfoldable pub backfill_turn_ids :
    (SessionKey → Bool)
    → (limit_sessions : Option ℕ) → List Run
    → List ChatMessage
    → BackfillReport × List ChatMessage
unfolding sessions_to_backfill backfill_all
backfill_turn_ids fails limit_sessions runs rows =
    backfill_all fails runs (up_to limit_sessions (sessions_to_backfill runs rows)) (
      record { sessions_scanned = 0; rows_assigned = 0; rows_left_null = 0; sessions_failed = 0 },
      rows,
    )
