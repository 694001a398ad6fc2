-- ===== src/Chat/Streamed.antt =====
-- The reasoning that streams before a segment is on the segment's row.
use astation.Prelude.{
  ◌≡◌, refl, ap, sym, ◌∙◌, String, true, false, Option, none, some, List, [], ◌∷◌, is_some,
  Bool-cases, inl, inr,
}
use Prim.Native.String.{◌++◌ as text_append}
use astation.Prelude.Eq.{string_eq, option_eq, pair_eq}
use astation.Prelude.Dict.{lookup, insert, lookup-insert_self}
use astation.Json.{Fields, get_or_null}
use astation.Chat.{
  ChatStore, ChatMessage, Host, BufferKey, Written, row_id, reseq, bound_value, write_keyed,
  write_bound, write, is_duplicate,
}
use astation.Chat.Reasoning.{
  or_empty, first_text, reasoning_text_keys, make_room, with_buffer, hold_text, hold_reasoning,
  spend, spend_held,
}
use astation.Chat.Capture.{Captured, assistant_row, live_row, capture_interim}
use astation.Chat.Apart.{flush_text-bare, spend_held-bare, spent_part}
use astation.Chat.Rows.{IsFreshId, insert_row-alone}

-- The deltas of one run, each with the answers of its surroundings.
unfoldable pub hold_all : BufferKey → List (Host × Fields) → ChatStore → ChatStore
hold_all key [] s = s
hold_all key (x ∷ deltas) s = hold_all key deltas (hold_reasoning x.0 key x.1 s)

-- What is held after a delta.
abbrev pub with_delta : Option String → Option String → Option String
with_delta held none = held
with_delta held (some text) = some (text_append (or_empty held) text)

-- What is held after the deltas: their texts in order, after what was held.
abbrev pub held_after : Option String → List (Host × Fields) → Option String
held_after held [] = held
held_after held (x ∷ deltas) =
    held_after (with_delta held (first_text reasoning_text_keys x.1)) deltas

with_buffer-held :
    (host : Host) (key : BufferKey) (s : ChatStore)
    → or_empty (lookup key (with_buffer host key s).reasoning) ≡ or_empty (lookup key s.reasoning)
unfolding with_buffer
with_buffer-held host key s = elim (Bool-cases (is_some (lookup key s.reasoning))) [
  | inl there ↦ rw there refl
  | inr new ↦ rw new (
      ap or_empty (lookup-insert_self key "" (make_room host s.reasoning s).reasoning)
      ∙ sym (empty_of_none (lookup key s.reasoning) new))
]
  where
    empty_of_none : (o : Option String) → is_some o ≡ false → or_empty o ≡ ""
    empty_of_none none h = refl
    empty_of_none (some text) h = cc

hold_text-held :
    (host : Host) (key : BufferKey) (o : Option String) (s : ChatStore)
    → lookup key (hold_text host key o s).reasoning ≡ with_delta (lookup key s.reasoning) o
hold_text-held host key none s = refl
hold_text-held host key (some text) s =
    let s' = with_buffer host key s in
    let held = text_append (or_empty (lookup key s'.reasoning)) text in
    let s'' = record s' { reasoning = insert key held s'.reasoning } in
    ap (λ (t : ChatStore). lookup key t.reasoning)
      (flush_text-bare host key false (or_empty (lookup key s''.reasoning)) false none s'')
    ∙ lookup-insert_self key held s'.reasoning
    ∙ ap (λ before. some (text_append before text)) (with_buffer-held host key s)

hold_all-held :
    (key : BufferKey) (deltas : List (Host × Fields)) (s : ChatStore)
    → lookup key (hold_all key deltas s).reasoning ≡ held_after (lookup key s.reasoning) deltas
unfolding hold_all hold_reasoning
hold_all-held key [] s = refl
hold_all-held key (x ∷ deltas) s =
    hold_all-held key deltas (hold_reasoning x.0 key x.1 s)
    ∙ ap (λ held. held_after held deltas)
        (hold_text-held x.0 key (first_text reasoning_text_keys x.1) s)

spend_held-rows :
    (host : Host) (key : BufferKey) (id o : Option String) (s : ChatStore)
    → (spend_held host key id o s).chat_messages ≡ s.chat_messages
unfolding spent_part
spend_held-rows host key id none s = refl
spend_held-rows host key id (some held) s =
    ap (λ (t : ChatStore). t.chat_messages) (spend_held-bare host key id held s)

-- The reasoning of the newest row, and the rows before it.
abbrev pub newest_row : List ChatMessage → Option (Option String) × List ChatMessage
newest_row [] = (none, [])
newest_row (row ∷ rows) = (some row.reasoning, rows)

-- The id that a call returned, the reasoning of the newest row and what was there before it.
abbrev pub newest : Captured → Option (Option String × (Option (Option String) × List ChatMessage))
newest (Captured.raised s) = none
newest (Captured.returned s id told) = some (id, newest_row s.chat_messages)

-- The row of a segment, once its text is bound.
abbrev written_row :
    Host → Option String → BufferKey → (text reasoning : Option String) → ChatMessage
written_row host identity key text reasoning = record (live_row host identity key "assistant") {
  text = text;
  reasoning = reasoning;
}

write-alone :
    (host : Host) (identity : Option String) (key : BufferKey) (payload : Fields)
    (text reasoning : Option String) (rows : List ChatMessage)
    → host.available ≡ true
    → host.racing ≡ []
    → bound_value host.column_text (get_or_null "text" payload) ≡ some text
    → IsFreshId (row_id host identity) rows
    → write host (assistant_row host identity key (get_or_null "text" payload) reasoning) rows ≡ (
      Written.wrote (row_id host identity),
      reseq (written_row host identity key text reasoning) rows ∷ rows,
    )
unfolding write write_keyed write_bound is_duplicate
write-alone host identity key payload text reasoning rows up alone fits f =
    let new = written_row host identity key text reasoning in
    rw (up, fits) (rw (insert_row-alone host new rows alone f) refl)

-- Whatever was held and however the archive answers: the row that a `message.interim` of a run writes,
-- with a text that can be bound to its column, a fresh id and no other writer, has as its reasoning what was held and then the texts of all the
-- deltas of the run, in order; it stands before the rows that were there, and its id is returned.
pub capture_interim-hold_all :
    (host : Host) (identity : Option String) (key : BufferKey) (deltas : List (Host × Fields))
    (payload : Fields) (text : Option String) (s : ChatStore)
    → host.available ≡ true
    → host.racing ≡ []
    → bound_value host.column_text (get_or_null "text" payload) ≡ some text
    → IsFreshId (row_id host identity) (hold_all key deltas s).chat_messages
    → newest (capture_interim host identity key payload (hold_all key deltas s))
      ≡ some (
        some (row_id host identity),
        (some (held_after (lookup key s.reasoning) deltas), (hold_all key deltas s).chat_messages),
      )
unfolding capture_interim spend
capture_interim-hold_all host identity key deltas payload text s up alone fits f =
    let t = hold_all key deltas s in
    let held = lookup key t.reasoning in
    rw (write-alone host identity key payload text held t.chat_messages up alone fits f) (
      ap (λ rows. some (some (row_id host identity), newest_row rows))
        (spend_held-rows host key (some (row_id host identity)) held (record t {
          chat_messages =
              reseq (written_row host identity key text held) t.chat_messages ∷ t.chat_messages;
        }))
      ∙ ap (λ h. some (some (row_id host identity), (some h, t.chat_messages)))
          (hold_all-held key deltas s))
