-- ===== src/Chat.antt =====
-- gateway/domain/chat_store.py: the durable chat history. New rows stand first in their tables. A value
-- of a payload becomes a text where it is bound to a text column, or the binding raises.
pub mod Reasoning
pub mod Capture
pub mod Rows
pub mod Apart
pub mod Independence
pub mod Bounds
pub mod Calls
pub mod Streamed
mod Tests
use astation.Prelude.{
  ℕ, zero, suc, max, String, Bool, true, false, Option, none, some, List, [], ◌∷◌, if◌then◌else◌,
  not, ◌&&◌, ◌||◌, any, find_first, is_some, keep_if, take, ltb, leb, eqb, tail,
}
use astation.Prelude.Eq.{◌==◌, string_eq, option_eq, pair_eq}
use astation.Prelude.Dict.{Dict}
use astation.Prelude.Sort.{sort_by}
use astation.Prelude.Text.{contains}
use astation.Json.{Json}
use astation.Watch.{WatchedSessions}

-- `ChatMessage`
pub record ChatMessage : Type 0 where
  pub id : String
  pub profile : String
  pub stored_session_id : String
  pub turn_id : Option String
  pub seq : ℕ
  pub role : String
  pub text : Option String
  pub reasoning : Option String
  pub tool_name : Option String
  pub tool_call_id : Option String
  pub tool_args_json : Json
  pub tool_result_json : Json
  pub hermes_row_id : Option ℕ
  pub source : String
  pub compacted : Bool
  pub created_at : ℕ

-- `ReasoningArchive`
pub record ReasoningArchive : Type 0 where
  pub id : String
  pub profile : String
  pub stored_session_id : String
  pub turn_id : Option String
  pub step : Option ℕ
  pub source : String
  pub chat_message_id : Option String
  pub text : String
  pub sealed : Bool
  pub created_at : ℕ
  pub updated_at : ℕ

-- `_BufferKey`: profile, stored session, run
abbrev pub BufferKey : Type 0
BufferKey = String × (String × Option String)

-- `_ArchiveCursor`
pub record ArchiveCursor : Type 0 where
  pub step : ℕ
  pub row_id : Option String
  pub flushed_chars : ℕ
  pub flushed_at : ℕ

-- The store with its two tables. `archive_ids` counts the ids drawn for the archive;
-- `_archive_failed_logged` only keeps a log line from repeating, and is left out.
pub record ChatStore : Type 0 where
  pub chat_messages : List ChatMessage
  pub reasoning_archive : List ReasoningArchive
  pub archive_ids : ℕ
  pub reasoning : Dict BufferKey String
  pub spent : Dict BufferKey (List String)
  pub archive : Dict BufferKey ArchiveCursor
  pub steps : Dict BufferKey ℕ
  pub watched : WatchedSessions

-- What one call takes from its surroundings: whether the database answers for the chat and for the
-- archive, fresh ids, the wall clock and the monotonic one (in milliseconds), whether a float's
-- literal is zero, the text that the database keeps in a text column for a number or a truth value
-- (`none` where the value cannot be bound), and the rows that other writers commit just before each
-- attempt of an insert.
pub record Host : Type 0 where
  pub available : Bool
  pub archive_available : Bool
  pub new_chat_id : String
  pub new_archive_id : ℕ → String
  pub now : ℕ
  pub monotonic : ℕ
  pub is_zero : String → Bool
  pub column_text : Json → Option String
  pub racing : List (List ChatMessage)

abbrev pub max_seq_retries : ℕ
max_seq_retries = 5

abbrev pub is_in_session : String → String → ChatMessage → Bool
is_in_session profile stored_session_id row =
    row.profile == profile && row.stored_session_id == stored_session_id

-- `max(seq)` of a session, 0 where it has no row
unfoldable pub highest_seq : String → String → List ChatMessage → ℕ
highest_seq profile stored_session_id [] = 0
highest_seq profile stored_session_id (row ∷ rows) =
    let rest = highest_seq profile stored_session_id rows in
    if is_in_session profile stored_session_id row then max row.seq rest else rest

-- `_next_seq`
unfoldable pub next_seq : String → String → List ChatMessage → ℕ
unfolding highest_seq
next_seq profile stored_session_id rows = suc (highest_seq profile stored_session_id rows)

-- The two rows break the primary key or the unique constraint.
abbrev pub clashes : ChatMessage → ChatMessage → Bool
clashes new row =
    row.id == new.id || (is_in_session new.profile new.stored_session_id row && eqb row.seq new.seq)

-- What other writers commit: a row that breaks a constraint is refused.
unfoldable pub with_others : List ChatMessage → List ChatMessage → List ChatMessage
with_others [] rows = rows
with_others (new ∷ others) rows =
    with_others others (if any (clashes new) rows then rows else new ∷ rows)

-- the rows of other writers before the first attempt
abbrev pub first_others : List (List ChatMessage) → List ChatMessage
first_others [] = []
first_others (others ∷ racing) = others

abbrev pub reseq : ChatMessage → List ChatMessage → ChatMessage
reseq new rows = record new { seq = next_seq new.profile new.stored_session_id rows }

-- The loop of `_insert`, with the attempts that are left; `none` is the `RuntimeError`.
unfoldable pub insert_attempts :
    ℕ → List (List ChatMessage) → ChatMessage → List ChatMessage → Option String × List ChatMessage
unfolding with_others
insert_attempts zero racing new rows = (none, rows)
insert_attempts (suc n) racing new rows =
    let rows' = with_others (first_others racing) rows in
    let again = insert_attempts n (tail racing) (reseq new rows') rows' in
    if any (clashes new) rows' then again else (some new.id, new ∷ rows')

-- `_insert` of the row, whose `seq` is given here
unfoldable pub insert_row : Host → ChatMessage → List ChatMessage → Option String × List ChatMessage
unfolding insert_attempts
insert_row host new rows = insert_attempts max_seq_retries host.racing (reseq new rows) rows

-- `_capture_row_id.get() or new_id("cm")`
abbrev pub row_id : Host → Option String → String
row_id host none = host.new_chat_id
row_id host (some identity) = identity

-- A write returns an id, returns None for a duplicate, or raises.
pub data Written : Type 0 where
  wrote : String → Written
  duplicate : Written
  raised : Written

abbrev pub written : Option String → Written
written none = raised
written (some id) = wrote id

-- A row that is not flushed yet: `row` with three values as the payload has them, which are bound to
-- its text columns of these names.
pub record NewMessage : Type 0 where
  pub row : ChatMessage
  pub text : Json
  pub tool_name : Json
  pub tool_call_id : Json

abbrev pub in_column : Option String → Option (Option String)
in_column none = none
in_column (some text) = some (some text)

-- A value bound to a text column: None stays NULL, a list or an object raises, which is `none` here.
abbrev pub bound_value : (Json → Option String) → Json → Option (Option String)
bound_value column_text Json.null = some none
bound_value column_text (Json.str text) = some (some text)
bound_value column_text (Json.arr items) = none
bound_value column_text (Json.obj fields) = none
bound_value column_text value = in_column (column_text value)

abbrev pub with_columns :
    ChatMessage → (text tool_name tool_call_id : Option (Option String)) → Option ChatMessage
with_columns row (some text) (some tool_name) (some tool_call_id) =
    some (record row { text = text; tool_name = tool_name; tool_call_id = tool_call_id })
with_columns row _ _ _ = none

-- the row with its text columns, or `none` where the `INSERT` cannot bind one of them
abbrev pub bound_row : (Json → Option String) → NewMessage → Option ChatMessage
bound_row column_text new =
    with_columns new.row (bound_value column_text new.text) (bound_value column_text new.tool_name)
      (bound_value column_text new.tool_call_id)

abbrev pub same_call : String → Option String → Bool
same_call id none = false
same_call id (some other) = other == id

abbrev pub same_hermes_row : ℕ → Option ℕ → Bool
same_hermes_row n none = false
same_hermes_row n (some m) = eqb m n

-- the lookup of a duplicate in `_write`, with the call's id as the query binds it
unfoldable pub is_duplicate : ChatMessage → List ChatMessage → Bool
is_duplicate new rows = elim new.hermes_row_id [
  | some n ↦
      any
        (λ row.
          is_in_session new.profile new.stored_session_id row
          && same_hermes_row n row.hermes_row_id)
        rows
  | none ↦ elim new.tool_call_id [
    | none ↦ false
    | some id ↦
        any
          (λ row.
            is_in_session new.profile new.stored_session_id row && same_call id row.tool_call_id)
          rows
  ]
]

-- `_insert`, as a function of the row and the table
abbrev pub Insert : Type 0
Insert = ChatMessage → List ChatMessage → Option String × List ChatMessage

-- the insert of a row whose columns are bound
unfoldable pub write_bound :
    Insert → Option ChatMessage → List ChatMessage → Written × List ChatMessage
write_bound insert none rows = (raised, rows)
write_bound insert (some new) rows = (written (insert new rows).0, (insert new rows).1)

-- `_write` from the call's id as the query binds it, with the row as the `INSERT` binds it
unfoldable pub write_keyed :
    Insert
    → (row : ChatMessage) → (bound : Option ChatMessage) → Option (Option String)
    → List ChatMessage
    → Written × List ChatMessage
unfolding is_duplicate write_bound
write_keyed insert row bound none rows = (raised, rows)
write_keyed insert row bound (some id) rows =
    if is_duplicate (record row { tool_call_id = id }) rows
    then (duplicate, rows)
    else write_bound insert bound rows

-- `_write`
unfoldable pub write : Host → NewMessage → List ChatMessage → Written × List ChatMessage
unfolding write_keyed insert_row
write host new rows =
    if host.available
    then write_keyed (insert_row host) new.row (bound_row host.column_text new)
        (bound_value host.column_text new.tool_call_id) rows
    else (raised, rows)

-- A row before its `seq` is given, with the columns that default to None.
abbrev pub new_row :
    Host
    → Option String
    → (profile stored_session_id : String) → (turn_id : Option String) → (role : String)
    → Option String
    → (source : String) → ChatMessage
new_row host identity profile stored_session_id turn_id role text source = record {
  id = row_id host identity;
  profile = profile;
  stored_session_id = stored_session_id;
  turn_id = turn_id;
  seq = 0;
  role = role;
  text = text;
  reasoning = none;
  tool_name = none;
  tool_call_id = none;
  tool_args_json = Json.null;
  tool_result_json = Json.null;
  hermes_row_id = none;
  source = source;
  compacted = false;
  created_at = host.now;
}

-- A row with a value for its text, and none for the tool columns.
abbrev pub with_text : ChatMessage → Json → NewMessage
with_text row text = record {
  row = row;
  text = text;
  tool_name = Json.null;
  tool_call_id = Json.null;
}

abbrev pub with_inserted : ChatStore → Option String × List ChatMessage → Written × ChatStore
with_inserted s (id, rows) = (written id, record s { chat_messages = rows })

-- `capture_submitted_user_row`
unfoldable pub capture_submitted_user_row :
    Host
    → (profile stored_session_id text : String) → (turn_id : Option String) → ChatStore
    → Written × ChatStore
unfolding insert_row
capture_submitted_user_row host profile stored_session_id text turn_id s =
    if host.available
    then with_inserted s (
        insert_row host
          (new_row host none profile stored_session_id turn_id "user" (some text) "submit")
          s.chat_messages)
    else (raised, s)

-- Whether the row is a user's without a run.
abbrev pub is_unattached : String → String → ChatMessage → Bool
is_unattached profile stored_session_id row =
    is_in_session profile stored_session_id row && (row.role == "user" && row.turn_id == none)

-- newest row first, by `seq`
abbrev pub later_seq : ChatMessage → ChatMessage → Bool
later_seq a b = leb b.seq a.seq

abbrev pub with_turn : String → String → List ChatMessage → List ChatMessage
with_turn id turn_id [] = []
with_turn id turn_id (row ∷ rows) =
    if row.id == id
    then record row { turn_id = some turn_id } ∷ rows
    else row ∷ with_turn id turn_id rows

abbrev pub first_row : List ChatMessage → Option ChatMessage
first_row [] = none
first_row (row ∷ rows) = some row

-- `attach_turn`
unfoldable pub attach_turn :
    Host → (profile stored_session_id turn_id : String) → ChatStore → ℕ × ChatStore
attach_turn host profile stored_session_id turn_id s =
    if host.available
    then elim (first_row
        (sort_by later_seq (keep_if (is_unattached profile stored_session_id) s.chat_messages))) [
          | none ↦ (0, s)
          | some row ↦ (1, record s { chat_messages = with_turn row.id turn_id s.chat_messages })
        ]
    else (0, s)

-- `capture_backfilled_user_row`
unfoldable pub capture_backfilled_user_row :
    Host
    → (profile stored_session_id text : String) → (hermes_row_id : ℕ) → (turn_id : Option String)
    → ChatStore
    → Written × ChatStore
unfolding write
capture_backfilled_user_row host profile stored_session_id text hermes_row_id turn_id s =
    let new =
      with_text
        (record (new_row host none profile stored_session_id turn_id "user" none "backfill") {
          hermes_row_id = some hermes_row_id;
        })
        (Json.str text) in
    (
      (write host new s.chat_messages).0,
      record s { chat_messages = (write host new s.chat_messages).1 },
    )

-- `capture_hook_user_row`
unfoldable pub capture_hook_user_row :
    Host → (profile stored_session_id text turn_id : String) → ChatStore → Written × ChatStore
unfolding insert_row
capture_hook_user_row host profile stored_session_id text turn_id s =
    if host.available
    then if any
        (λ row.
          is_in_session profile stored_session_id row
          && (row.turn_id == some turn_id && row.role == "user"))
        s.chat_messages
      then (duplicate, s)
      else with_inserted s (
          insert_row host
            (new_row host none profile stored_session_id (some turn_id) "user" (some text) "hook")
            s.chat_messages)
    else (raised, s)

-- `discard_row`
unfoldable pub discard_row : Host → String → ChatStore → ChatStore
discard_row host id s =
    if host.available
    then record s { chat_messages = keep_if (λ row. not (row.id == id)) s.chat_messages }
    else s

-- `notice_kind`
unfoldable pub notice_kind : ChatMessage → Option String
notice_kind row =
    if row.role == "subagent"
    then some "subagent"
    else if not (row.role == "marker")
    then none
    else if row.compacted
    then some "compacted"
    else elim row.text [
      | some text ↦ some (if contains "Hindsight" text then "memory" else "process")
      | none ↦ some "process"
    ]

abbrev pub is_before : Option ℕ → ChatMessage → Bool
is_before none row = true
is_before (some seq) row = ltb row.seq seq

abbrev pub earlier_seq : ChatMessage → ChatMessage → Bool
earlier_seq a b = leb a.seq b.seq

-- `list.reverse()`
unfoldable pub reverse_onto {ℓ} : {A : Type ℓ} → List A → List A → List A
reverse_onto [] out = out
reverse_onto (a ∷ l) out = reverse_onto l (a ∷ out)

-- `page`, before each row is written as JSON
unfoldable pub page :
    (profile stored_session_id : String)
    → (before_seq : Option ℕ) → (limit : ℕ) → ChatStore
    → List ChatMessage
unfolding reverse_onto
page profile stored_session_id before_seq limit s =
    reverse_onto
      (take limit (
        sort_by later_seq (
          keep_if (λ row. is_in_session profile stored_session_id row && is_before before_seq row)
            s.chat_messages)))
      []

-- `tool_rows`, before each row is written as JSON
unfoldable pub tool_rows : (profile stored_session_id : String) → ChatStore → List ChatMessage
tool_rows profile stored_session_id s = sort_by earlier_seq (
    keep_if (λ row. is_in_session profile stored_session_id row && row.role == "tool")
      s.chat_messages)
