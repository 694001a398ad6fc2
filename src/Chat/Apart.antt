-- ===== src/Chat/Apart.antt =====
-- The chat history does not depend on the reasoning archive.
use astation.Prelude.{
  ◌≡◌, refl, ap, sym, ◌∙◌, String, Bool, true, false, Option, none, some, List, [], ◌∷◌,
  if◌then◌else◌, not, ◌&&◌, ◌||◌, any, is_some, leb, eqb, length, Bool-cases, inl, inr,
}
use Prim.Native.String.{count, ◌++◌ as text_append}
use astation.Prelude.Eq.{◌==◌, string_eq, option_eq, pair_eq}
use astation.Prelude.Dict.{Dict, lookup, insert, erase}
use astation.Prelude.Text.{strip}
use astation.Json.{Fields}
use astation.Chat.{
  ChatStore, ChatMessage, Host, BufferKey, ArchiveCursor, ReasoningArchive, Written,
}
use astation.Chat.Reasoning.{
  archived, flush_row, flush_at, may_wait, flush_text, or_new_cursor, or_zero, or_empty, flush_held,
  forget, make_room, max_reasoning_buffers, with_buffer, hold_text, hold_reasoning, first_text,
  reasoning_text_keys, spend_held, spend, spend_text, archive_text, end_turn, unless_blank,
  text_contains,
}
use astation.Chat.Capture.{Captured, captured, then_spend, archive_claimed, completed_turn}

-- The store without its archive, and a host whose archive does not answer.
abbrev pub bare : ChatStore → ChatStore
bare s = record s { reasoning_archive = []; archive_ids = 0; archive = []; steps = [] }

abbrev pub plain : Host → Host
plain host = record host { archive_available = false; new_archive_id = λ n. "" }

flush_row-bare :
    (host : Host) (key : BufferKey) (cursor : ArchiveCursor) (text : String) (sealed : Bool)
    (id : Option String) (o : Option ReasoningArchive) (s : ChatStore)
    → bare (flush_row host key cursor text sealed id o s) ≡ bare s
flush_row-bare host key cursor text sealed id none s = refl
flush_row-bare host key cursor text sealed id (some row) s = refl

bare-if :
    (b : Bool) (s t u : ChatStore)
    → bare s ≡ bare u
    → bare t ≡ bare u
    → bare (if b then s else t) ≡ bare u
bare-if true s t u p q = p
bare-if false s t u p q = q

flush_at-bare :
    (host : Host) (key : BufferKey) (force : Bool) (text : String) (sealed : Bool)
    (id : Option String) (cursor : ArchiveCursor) (s : ChatStore)
    → bare (flush_at host key force text sealed id cursor s) ≡ bare s
unfolding flush_at
flush_at-bare host key force text sealed id cursor s =
    let kept = record s { archive = insert key cursor s.archive } in
    let row =
      flush_row host key cursor text sealed id (archived cursor.row_id s.reasoning_archive) s in
    let last = if host.archive_available then row else kept in
    let rest = if eqb (count text) cursor.flushed_chars && not sealed then kept else last in
    bare-if (not force && may_wait host cursor text) kept rest s refl (
      bare-if (eqb (count text) cursor.flushed_chars && not sealed) kept last s refl (
        bare-if host.archive_available row kept s
          (flush_row-bare host key cursor text sealed id
            (archived cursor.row_id s.reasoning_archive) s)
          refl))

pub flush_text-bare :
    (host : Host) (key : BufferKey) (force : Bool) (text : String) (sealed : Bool)
    (id : Option String) (s : ChatStore)
    → bare (flush_text host key force text sealed id s) ≡ bare s
unfolding flush_text
flush_text-bare host key force text sealed id s =
    let cursor = or_new_cursor (or_zero (lookup key s.steps)) (lookup key s.archive) in
    bare-if (text == "") s (flush_at host key force text sealed id cursor s) s refl
      (flush_at-bare host key force text sealed id cursor s)

-- An operation whose effect on the chat is the same without the archive.
abbrev IsApart : (Host → ChatStore → ChatStore) → Type 0
IsApart f = (host : Host) (s : ChatStore) → bare (f host s) ≡ bare (f (plain host) (bare s))

then-IsApart :
    (f g : Host → ChatStore → ChatStore)
    → IsApart f
    → IsApart g
    → IsApart (λ host s. g host (f host s))
then-IsApart f g p q host s =
    q host (f host s)
    ∙ ap (λ t. bare (g (plain host) t)) (p host s)
    ∙ sym (q (plain host) (f (plain host) (bare s)))

flush_text-IsApart :
    (key : BufferKey) (force : Bool) (text : String) (sealed : Bool) (id : Option String)
    → IsApart (λ host s. flush_text host key force text sealed id s)
flush_text-IsApart key force text sealed id host s =
    flush_text-bare host key force text sealed id s
    ∙ sym (flush_text-bare (plain host) key force text sealed id (bare s))

forget-IsApart : (key : BufferKey) → IsApart (λ host s. forget key (flush_held host key true s))
forget-IsApart key host s =
    ap (λ t. bare (forget key t))
      (flush_text-bare host key true (or_empty (lookup key s.reasoning)) false none s)
    ∙ sym (
        ap (λ t. bare (forget key t))
          (flush_text-bare (plain host) key true (or_empty (lookup key s.reasoning)) false none
            (bare s)))

make_room-IsApart : (left : Dict BufferKey String) → IsApart (λ host s. make_room host left s)
unfolding make_room
make_room-IsApart [] host s = refl
make_room-IsApart (x ∷ left) host s =
    let next =
      then-IsApart (λ h t. forget x.0 (flush_held h x.0 true t)) (λ h t. make_room h left t)
        (forget-IsApart x.0) (make_room-IsApart left) host s in
    elim (Bool-cases (leb max_reasoning_buffers (length (x ∷ left)))) [
      | inl full ↦ rw full next
      | inr roomy ↦ rw roomy refl
    ]

with_buffer-IsApart : (key : BufferKey) → IsApart (λ host s. with_buffer host key s)
unfolding with_buffer
with_buffer-IsApart key host s = elim (Bool-cases (is_some (lookup key s.reasoning))) [
  | inl there ↦ rw there refl
  | inr new ↦ rw new (
      ap (λ t. bare (record t { reasoning = insert key "" t.reasoning }))
        (make_room-IsApart s.reasoning host s))
]

hold_text-IsApart :
    (key : BufferKey) (o : Option String) → IsApart (λ host s. hold_text host key o s)
hold_text-IsApart key none host s = refl
hold_text-IsApart key (some text) host s =
    held host s
    ∙ ap (λ t. bare (with_text t)) (with_buffer-IsApart key host s)
    ∙ sym (held (plain host) (bare s))
  where
    with_text : ChatStore → ChatStore
    with_text t = record t {
      reasoning = insert key (text_append (or_empty (lookup key t.reasoning)) text) t.reasoning;
    }

    held :
        (h : Host) (t : ChatStore)
        → bare (hold_text h key (some text) t) ≡ bare (with_text (with_buffer h key t))
    held h t =
        let t' = with_text (with_buffer h key t) in
        flush_text-bare h key false (or_empty (lookup key t'.reasoning)) false none t'

pub hold_reasoning-IsApart :
    (key : BufferKey) (payload : Fields) → IsApart (λ host s. hold_reasoning host key payload s)
unfolding hold_reasoning
hold_reasoning-IsApart key payload = hold_text-IsApart key (first_text reasoning_text_keys payload)

-- What `_spend` does to the chat's part of the store.
unfoldable pub spent_part : BufferKey → String → ChatStore → ChatStore
spent_part key held s = record s {
  reasoning = erase key s.reasoning;
  spent = spend_text key held s.spent;
}

pub spend_held-bare :
    (host : Host) (key : BufferKey) (id : Option String) (held : String) (s : ChatStore)
    → bare (spend_held host key id (some held) s) ≡ bare (spent_part key held s)
unfolding spent_part
spend_held-bare host key id held s =
    ap (λ t. bare (record t { spent = spend_text key held t.spent }))
      (flush_text-bare host key true held true id (record s { reasoning = erase key s.reasoning }))

spend_held-IsApart :
    (key : BufferKey) (id : Option String) (o : Option String)
    → IsApart (λ host s. spend_held host key id o s)
unfolding spent_part
spend_held-IsApart key id none host s = refl
spend_held-IsApart key id (some held) host s =
    spend_held-bare host key id held s ∙ sym (spend_held-bare (plain host) key id held (bare s))

spend-IsApart : (key : BufferKey) (id : Option String) → IsApart (λ host s. spend host key id s)
unfolding spend
spend-IsApart key id host s = spend_held-IsApart key id (lookup key s.reasoning) host s

archive_text-bare :
    (host : Host) (key : BufferKey) (text source : String) (id : Option String) (s : ChatStore)
    → bare (archive_text host key text source id s) ≡ bare s
unfolding archive_text
archive_text-bare host key text source id s = elim (Bool-cases host.archive_available) [
  | inl up ↦ rw up refl
  | inr down ↦ rw down refl
]

pub archive_claimed-bare :
    (host : Host) (key : BufferKey) (streamed : String) (spent : List String)
    (id claimed : Option String) (s : ChatStore)
    → bare (archive_claimed host key streamed spent id claimed s) ≡ bare s
archive_claimed-bare host key streamed spent id none s = refl
archive_claimed-bare host key streamed spent id (some text) s =
    bare-if (text_contains streamed text || any (λ t. strip t == strip text) spent) s
      (archive_text host key text "payload" id s) s refl
      (archive_text-bare host key text "payload" id s)

-- What a call returns, or where it stops, without the archive.
abbrev pub bare_captured : Captured → Captured
bare_captured (Captured.returned s id told) = Captured.returned (bare s) id told
bare_captured (Captured.raised s) = Captured.raised (bare s)

pub captured-IsApart :
    (s : ChatStore) (x : Written × List ChatMessage)
    → bare_captured (captured s x) ≡ bare_captured (captured (bare s) x)
captured-IsApart s (Written.wrote id, rows) = refl
captured-IsApart s (Written.duplicate, rows) = refl
captured-IsApart s (Written.raised, rows) = refl

pub then_spend-IsApart :
    (host : Host) (key : BufferKey) (s : ChatStore) (x : Written × List ChatMessage)
    → bare_captured (then_spend host key (captured s x))
      ≡ bare_captured (then_spend (plain host) key (captured (bare s) x))
then_spend-IsApart host key s (Written.wrote id, rows) =
    ap (λ t. Captured.returned t (some id) none)
      (spend-IsApart key (some id) host (record s { chat_messages = rows }))
then_spend-IsApart host key s (Written.duplicate, rows) =
    ap (λ t. Captured.returned t none none)
      (spend-IsApart key none host (record s { chat_messages = rows }))
then_spend-IsApart host key s (Written.raised, rows) = refl

completed_turn-bare :
    (host : Host) (key : BufferKey) (streamed claimed : Option String) (spent : List String)
    (id : Option String) (s : ChatStore)
    → bare (
        end_turn key (
          archive_claimed host key
            (or_empty streamed)
            spent
            id
            (unless_blank claimed)
            (spend host key id s)))
      ≡ bare (end_turn key (spend host key id s))
completed_turn-bare host key streamed claimed spent id s =
    ap (λ t. bare (end_turn key t))
      (archive_claimed-bare host key (or_empty streamed) spent id (unless_blank claimed)
        (spend host key id s))

pub completed_turn-IsApart :
    (host : Host) (key : BufferKey) (streamed claimed : Option String) (spent : List String)
    (s : ChatStore) (x : Written × List ChatMessage)
    → bare_captured (completed_turn host key streamed claimed spent (captured s x))
      ≡ bare_captured (completed_turn (plain host) key streamed claimed spent (captured (bare s) x))
completed_turn-IsApart host key streamed claimed spent s (Written.wrote id, rows) =
    let t = record s { chat_messages = rows } in
    ap (λ u. Captured.returned u (some id) (some (key.0, key.1.0)))
      (completed_turn-bare host key streamed claimed spent (some id) t
        ∙ ap (λ u. bare (end_turn key u)) (spend-IsApart key (some id) host t)
        ∙ sym (completed_turn-bare (plain host) key streamed claimed spent (some id) (bare t)))
completed_turn-IsApart host key streamed claimed spent s (Written.duplicate, rows) =
    let t = record s { chat_messages = rows } in
    ap (λ u. Captured.returned u none (some (key.0, key.1.0)))
      (completed_turn-bare host key streamed claimed spent none t
        ∙ ap (λ u. bare (end_turn key u)) (spend-IsApart key none host t)
        ∙ sym (completed_turn-bare (plain host) key streamed claimed spent none (bare t)))
completed_turn-IsApart host key streamed claimed spent s (Written.raised, rows) = refl
