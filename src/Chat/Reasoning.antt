-- ===== src/Chat/Reasoning.antt =====
-- chat_store.py: the reasoning that streams before a row, and its archive.
use Prim.Native.String.{count, ◌++◌ as text_append}
use astation.Prelude.{
  ℕ, suc, ◌+◌, String, Bool, true, false, Option, none, some, List, [], ◌∷◌, ◌++◌, if◌then◌else◌,
  not, ◌&&◌, ◌||◌, any, find_first, is_some, is_none, ltb, leb, eqb, length, keep_if,
}
use astation.Prelude.Eq.{◌==◌, string_eq, option_eq, pair_eq}
use astation.Prelude.Dict.{Dict, lookup, insert, erase}
use astation.Prelude.Sort.{sort_by}
use astation.Prelude.Text.{strip, contains}
use astation.Json.{Fields, get_or_null, nonempty_str}
use astation.Chat.{ChatStore, Host, BufferKey, ArchiveCursor, ReasoningArchive}

abbrev pub reasoning_text_keys : List String
reasoning_text_keys = "text" ∷ "delta" ∷ "reasoning" ∷ "content" ∷ "chunk" ∷ []

abbrev pub max_reasoning_buffers : ℕ
max_reasoning_buffers = 64

abbrev pub archive_flush_interval : ℕ
archive_flush_interval = 2000

abbrev pub archive_flush_chars : ℕ
archive_flush_chars = 8192

-- `s and s.strip()`
abbrev pub is_blank : String → Bool
is_blank s = strip s == ""

-- `_contains`
unfoldable pub text_contains : String → String → Bool
unfolding contains strip
text_contains outer inner = contains (strip inner) outer

abbrev pub unless_blank : Option String → Option String
unless_blank none = none
unless_blank (some s) = if is_blank s then none else some s

-- the choice of `final_reasoning` between texts that are not blank
abbrev pub chosen : List String → Option String → Option String → Option String
chosen spent streamed none = streamed
chosen spent none (some payload) =
    if any (λ text. strip text == strip payload) spent then none else some payload
chosen spent (some streamed) (some payload) =
    if text_contains streamed payload then some streamed else some payload

-- `final_reasoning`
unfoldable pub final_reasoning :
    (streamed payload : Option String) → (spent : List String) → Option String
unfolding text_contains strip
final_reasoning streamed payload spent = chosen spent (unless_blank streamed) (unless_blank payload)

-- A new row of a step, and what every write sets.
abbrev pub archive_row : Host → BufferKey → ArchiveCursor → String → ℕ → ReasoningArchive
archive_row host (profile, (stored_id, turn_id)) cursor text ids = record {
  id = host.new_archive_id ids;
  profile = profile;
  stored_session_id = stored_id;
  turn_id = turn_id;
  step = some cursor.step;
  source = "stream";
  chat_message_id = none;
  text = text;
  sealed = false;
  created_at = host.now;
  updated_at = host.now;
}

abbrev pub first_some {ℓ} : {A : Type ℓ} → Option A → Option A → Option A
first_some none b = b
first_some (some a) b = some a

abbrev pub rewritten : Host → String → Bool → Option String → ReasoningArchive → ReasoningArchive
rewritten host text sealed chat_message_id row = record row {
  text = text;
  sealed = sealed;
  chat_message_id = first_some chat_message_id row.chat_message_id;
  updated_at = host.now;
}

abbrev pub archived : Option String → List ReasoningArchive → Option ReasoningArchive
archived none rows = none
archived (some id) rows = find_first (λ (row : ReasoningArchive). row.id == id) rows

abbrev pub replace_row : ReasoningArchive → List ReasoningArchive → List ReasoningArchive
replace_row new [] = []
replace_row new (row ∷ rows) = if row.id == new.id then new ∷ rows else row ∷ replace_row new rows

abbrev pub with_cursor : BufferKey → ArchiveCursor → ChatStore → ChatStore
with_cursor key cursor s = record s { archive = insert key cursor s.archive }

-- the write of `_flush_archive`
abbrev pub flush_row :
    Host
    → BufferKey
    → ArchiveCursor
    → String
    → Bool
    → Option String
    → Option ReasoningArchive
    → ChatStore
    → ChatStore
flush_row host key cursor text sealed chat_message_id none s =
    let row = archive_row host key cursor text s.archive_ids in
    with_cursor key
      (record cursor {
        row_id = some row.id;
        flushed_chars = count text;
        flushed_at = host.monotonic;
      })
      (record s {
        reasoning_archive = rewritten host text sealed chat_message_id row ∷ s.reasoning_archive;
        archive_ids = suc s.archive_ids;
      })
flush_row host key cursor text sealed chat_message_id (some row) s =
    with_cursor key
      (record cursor {
        row_id = some row.id;
        flushed_chars = count text;
        flushed_at = host.monotonic;
      })
      (record s {
        reasoning_archive =
            replace_row (rewritten host text sealed chat_message_id row) s.reasoning_archive;
      })

-- Little is unwritten and the last write is recent.
abbrev pub may_wait : Host → ArchiveCursor → String → Bool
may_wait host cursor text =
    ltb (count text) (cursor.flushed_chars + archive_flush_chars)
    && (is_some cursor.row_id && ltb host.monotonic (cursor.flushed_at + archive_flush_interval))

-- `_flush_archive` with the cursor of the step; a failed write leaves the new cursor
unfoldable pub flush_at :
    Host
    → BufferKey
    → (force : Bool) → String
    → (sealed : Bool) → Option String
    → ArchiveCursor
    → ChatStore
    → ChatStore
flush_at host key force text sealed chat_message_id cursor s =
    if not force && may_wait host cursor text
    then with_cursor key cursor s
    else if eqb (count text) cursor.flushed_chars && not sealed
    then with_cursor key cursor s
    else if host.archive_available
    then flush_row host key cursor text sealed chat_message_id
        (archived cursor.row_id s.reasoning_archive) s
    else with_cursor key cursor s

abbrev pub or_new_cursor : ℕ → Option ArchiveCursor → ArchiveCursor
or_new_cursor step none = record { step = step; row_id = none; flushed_chars = 0; flushed_at = 0 }
or_new_cursor step (some cursor) = cursor

abbrev pub or_zero : Option ℕ → ℕ
or_zero none = 0
or_zero (some n) = n

-- `_flush_archive` of a text
unfoldable pub flush_text :
    Host
    → BufferKey
    → (force : Bool) → String
    → (sealed : Bool) → Option String
    → ChatStore
    → ChatStore
unfolding flush_at
flush_text host key force text sealed chat_message_id s =
    if text == ""
    then s
    else flush_at host key force text sealed chat_message_id
        (or_new_cursor (or_zero (lookup key s.steps)) (lookup key s.archive)) s

abbrev pub or_empty : Option String → String
or_empty none = ""
or_empty (some s) = s

-- `_flush_archive` of what is held
abbrev pub flush_held : Host → BufferKey → (force : Bool) → ChatStore → ChatStore
flush_held host key force s =
    flush_text host key force (or_empty (lookup key s.reasoning)) false none s

-- `_end_turn`
abbrev pub end_turn : BufferKey → ChatStore → ChatStore
end_turn key s = record s { spent = erase key s.spent; steps = erase key s.steps }

-- `_forget`
abbrev pub forget : BufferKey → ChatStore → ChatStore
forget key s =
    end_turn key (record s { reasoning = erase key s.reasoning; archive = erase key s.archive })

-- the loop of `_hold_reasoning`, over the buffers that are left, oldest first
unfoldable pub make_room : Host → Dict BufferKey String → ChatStore → ChatStore
unfolding flush_text
make_room host [] s = s
make_room host (x ∷ left) s =
    let rest = make_room host left (forget x.0 (flush_held host x.0 true s)) in
    if leb max_reasoning_buffers (length (x ∷ left)) then rest else s

-- a buffer for the run, empty where there was none
unfoldable pub with_buffer : Host → BufferKey → ChatStore → ChatStore
unfolding make_room
with_buffer host key s =
    if is_some (lookup key s.reasoning)
    then s
    else let roomy = make_room host s.reasoning s in
      record roomy { reasoning = insert key "" roomy.reasoning }

abbrev pub first_text : List String → Fields → Option String
first_text [] payload = none
first_text (k ∷ ks) payload =
    first_some (nonempty_str (get_or_null k payload)) (first_text ks payload)

abbrev pub hold_text : Host → BufferKey → Option String → ChatStore → ChatStore
hold_text host key none s = s
hold_text host key (some text) s =
    let s' = with_buffer host key s in
    let held = text_append (or_empty (lookup key s'.reasoning)) text in
    flush_held host key false (record s' { reasoning = insert key held s'.reasoning })

-- `_hold_reasoning`
unfoldable pub hold_reasoning : Host → BufferKey → Fields → ChatStore → ChatStore
unfolding with_buffer
hold_reasoning host key payload s = hold_text host key (first_text reasoning_text_keys payload) s

abbrev pub or_none_spent : Option (List String) → List String
or_none_spent none = []
or_none_spent (some l) = l

-- the loop of `_spend`: the oldest go while there are too many
unfoldable pub drop_oldest : Dict BufferKey (List String) → Dict BufferKey (List String)
drop_oldest [] = []
drop_oldest (x ∷ d) =
    let rest = drop_oldest d in if ltb max_reasoning_buffers (length (x ∷ d)) then rest else x ∷ d

abbrev pub spend_text :
    BufferKey → String → Dict BufferKey (List String) → Dict BufferKey (List String)
spend_text key held spent =
    if is_blank held
    then spent
    else drop_oldest (insert key (or_none_spent (lookup key spent) ++ held ∷ []) spent)

abbrev pub spend_held : Host → BufferKey → Option String → Option String → ChatStore → ChatStore
spend_held host key row_id none s = s
spend_held host key row_id (some held) s =
    let s' =
      flush_text host key true held true row_id (record s { reasoning = erase key s.reasoning }) in
    record s' {
      archive = erase key s'.archive;
      steps = insert key (suc (or_zero (lookup key s'.steps))) s'.steps;
      spent = spend_text key held s'.spent;
    }

-- `_spend`
unfoldable pub spend : Host → BufferKey → Option String → ChatStore → ChatStore
unfolding flush_text drop_oldest
spend host key row_id s = spend_held host key row_id (lookup key s.reasoning) s

-- `_archive_text`
unfoldable pub archive_text :
    Host → BufferKey → String → (source : String) → Option String → ChatStore → ChatStore
archive_text host (profile, (stored_id, turn_id)) text source chat_message_id s =
    if host.archive_available
    then record s {
      archive_ids = suc s.archive_ids;
      reasoning_archive =
          (record {
            id = host.new_archive_id s.archive_ids;
            profile = profile;
            stored_session_id = stored_id;
            turn_id = turn_id;
            step = none;
            source = source;
            chat_message_id = chat_message_id;
            text = text;
            sealed = true;
            created_at = host.now;
            updated_at = host.now;
          })
          ∷ s.reasoning_archive;
    }
    else s

abbrev pub step_or_zero : ReasoningArchive → ℕ
step_or_zero row = or_zero row.step

-- oldest first; a row without a step comes first, as NULL does
abbrev pub archived_before : ReasoningArchive → ReasoningArchive → Bool
archived_before a b =
    ltb a.created_at b.created_at
    || (eqb a.created_at b.created_at
        && (is_none a.step || (is_some b.step && leb (step_or_zero a) (step_or_zero b))))

-- `reasoning_archive`, before each row is written as JSON
unfoldable pub reasoning_archive :
    (profile stored_session_id : String) → ChatStore → List ReasoningArchive
reasoning_archive profile stored_session_id s = sort_by archived_before (
    keep_if
      (λ (row : ReasoningArchive).
        row.profile == profile && row.stored_session_id == stored_session_id)
      s.reasoning_archive)
