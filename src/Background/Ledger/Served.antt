-- ===== src/Background/Ledger/Served.antt =====
-- A result that the live stream injects is also served by the transcript, from then on.
use astation.Prelude.{
  ℕ, ◌≡◌, refl, ◌∙◌, String, Bool, true, false, Option, none, some, List, [], ◌∷◌, if◌then◌else◌,
  any, ◌||◌, Bool-cases, inl, inr, arith,
}
use astation.Prelude.Eq.{◌==◌, string_eq, option_eq}
use astation.Prelude.Dict.{lookup, lookup-insert}
use astation.Json.{Json, Items, Fields, get, get_or_null, put, as_object, nonempty_str}
use astation.Background.{
  State, BackgroundTask, Table, record_completed, completed_row, has_result, is_finished,
  finished_results_for_session,
}
use astation.Background.Transitions.{
  Event, apply_all, record_completed-stays, finished_results-serve,
}
use astation.Background.Ledger.{
  Host, Completion, completion_of, injected, recorded, handle_completed, append_rows,
  append_finished_background_results, synthesized_transcript_row, stamped,
  synthesized_message_frame,
}

-- An assistant's row with this text.
abbrev pub is_text : String → Json → Bool
is_text text (Json.obj d) = is_str (get_or_null "text" d)
  where
    is_str : Json → Bool
    is_str (Json.str s) = s == text
    is_str _ = false
is_text text _ = false

abbrev pub any_item : (Json → Bool) → Items → Bool
any_item p Items.nil = false
any_item p (Items.cons v l) = p v || any_item p l

abbrev pub any_message : (Json → Bool) → Json → Bool
any_message p (Json.arr l) = any_item p l
any_message p _ = false

any_item-append_rows :
    (p : Json → Bool) (host : Host) (l : Items) (ts : List BackgroundTask)
    → any (λ t. p (synthesized_transcript_row host t)) ts ≡ true
    → any_item p (append_rows host l ts) ≡ true
any_item-append_rows p host Items.nil [] h = cc
any_item-append_rows p host Items.nil (t ∷ ts) h =
    elim (Bool-cases (p (synthesized_transcript_row host t))) [
      | inl e ↦ rw e refl
      | inr e ↦ let rest = any_item-append_rows p host Items.nil ts (ground arith) in rw e rest
    ]
any_item-append_rows p host (Items.cons v l) ts h =
    let rest = any_item-append_rows p host l ts h in ground arith

-- The ledger has a first result already.
abbrev pub is_recorded : Option BackgroundTask → Bool
is_recorded none = false
is_recorded (some row) = is_finished row.state

-- A field of the payload of an injected frame.
abbrev pub in_payload : String → Option Fields → Option Json
in_payload key none = none
in_payload key (some frame) = in_object (get_or_null "payload" frame)
  where
    in_object : Json → Option Json
    in_object (Json.obj d) = get key d
    in_object _ = none

completed_row-result_text :
    (id : String) (result hint : Option String) (now : ℕ) (r : Option BackgroundTask)
    → is_recorded r ≡ false
    → (completed_row id result hint now r).result_text ≡ result
completed_row-result_text id result hint now none h = refl
completed_row-result_text id result hint now (some row) h = rw h refl

injected-payload :
    (host : Host) (envelope payload : Fields) (id text session : String)
    → (session == "") ≡ false
    → let frame = injected host envelope payload id (some text) (some session) in
      (in_payload "text" frame ≡ some (Json.str text))
      × (in_payload "_stored_session_id" frame ≡ some (Json.str session))
unfolding synthesized_message_frame
injected-payload host envelope payload id text session h = rw h (refl, refl)

has_result-row :
    (row : BackgroundTask) (text session : String)
    → row.state ≡ State.finished
    → row.result_text ≡ some text
    → row.stored_session_id ≡ some session
    → has_result session row ≡ true
has_result-row row text session f t s =
    rw f (rw t (rw s (rw ((string_eq.beq_iff session session).1 refl) refl)))

is_text-row :
    (host : Host) (row : BackgroundTask) (text : String)
    → row.result_text ≡ some text
    → is_text text (synthesized_transcript_row host row) ≡ true
is_text-row host row text t = rw t ((string_eq.beq_iff text text).1 refl)

recorded-serve :
    (host : Host) (now : ℕ) (db : Table) (envelope payload : Fields) (c : Completion)
    (text session : String) (es : List Event) (messages : Items)
    → is_recorded (lookup c.task_id db) ≡ false
    → c.result_text ≡ some text
    → (record_completed c.task_id c.result_text c.hint now db).0.stored_session_id ≡ some session
    → any_item (is_text text) (
        append_rows host messages (
          finished_results_for_session session
            (apply_all es (record_completed c.task_id c.result_text c.hint now db).1)))
      ≡ true
recorded-serve host now db envelope payload c text session es messages new t s =
    let r = record_completed c.task_id c.result_text c.hint now db in
    let row_text : r.0.result_text ≡ some text =
      unfold record_completed in
      completed_row-result_text c.task_id c.result_text c.hint now (lookup c.task_id db) new ∙ t in
    let row_state = (record_completed-stays c.task_id c.result_text c.hint now es db).0 in
    any_item-append_rows (is_text text) host messages
      (finished_results_for_session session (apply_all es r.1))
      (finished_results-serve c.task_id c.result_text c.hint now es db session
        (λ t. is_text text (synthesized_transcript_row host t))
        (has_result-row r.0 text session row_state row_text s) (is_text-row host r.0 text row_text))

recorded-injects :
    (host : Host) (now : ℕ) (db : Table) (envelope payload : Fields) (c : Completion)
    (text session : String)
    → c.result_text ≡ some text
    → (record_completed c.task_id c.result_text c.hint now db).0.stored_session_id ≡ some session
    → (session == "") ≡ false
    → let h = recorded host now db envelope payload c in
      (in_payload "text" h.synthesized ≡ some (Json.str text))
      × (in_payload "_stored_session_id" h.synthesized ≡ some (Json.str session))
recorded-injects host now db envelope payload c text session t s ne =
    let payload' = stamped c.hint (some session) payload in
    rw s (
      rw t (
        injected-payload host (put "payload" (Json.obj payload') envelope) payload' c.task_id text
          session ne))

-- A completion with a text, for a task without a recorded result whose row names a session: the
-- frame that is injected carries this text for this session, and from then on, whatever completions
-- and sweeps follow, the session's transcript has a row with this text.
pub handle_completed-serves :
    (host : Host) (now : ℕ) (db : Table) (envelope payload : Fields) (c : Completion)
    (text session : String) (es : List Event) (messages : Items)
    → as_object (get_or_null "payload" envelope) ≡ some payload
    → completion_of payload (nonempty_str (get_or_null "task_id" payload)) ≡ some c
    → is_recorded (lookup c.task_id db) ≡ false
    → c.result_text ≡ some text
    → (record_completed c.task_id c.result_text c.hint now db).0.stored_session_id ≡ some session
    → (session == "") ≡ false
    → let h = handle_completed true host now db envelope in
      (in_payload "text" h.synthesized ≡ some (Json.str text))
      × (in_payload "_stored_session_id" h.synthesized ≡ some (Json.str session))
      × (any_message
            (is_text text)
            (append_finished_background_results host true
              (apply_all es h.table)
              session
              (Json.arr messages)).1
          ≡ true)
unfolding handle_completed append_finished_background_results
handle_completed-serves host now db envelope payload c text session es messages p q new t s ne =
    rw p (
      rw q (
        let shown = recorded-injects host now db envelope payload c text session t s ne in
        (
          shown.0,
          shown.1,
          recorded-serve host now db envelope payload c text session es messages new t s,
        )))

completed_row_recorded :
    (id : String) (result hint : Option String) (now : ℕ) (r : Option BackgroundTask)
    → is_recorded r ≡ true
    → some (completed_row id result hint now r) ≡ r
completed_row_recorded id result hint now none h = cc
completed_row_recorded id result hint now (some row) h = rw h refl

-- A second completion of a task changes no row of the ledger, and the frame that is injected for it
-- still carries the text of the second completion, which the ledger does not keep.
pub handle_completed-duplicate :
    (host : Host) (now : ℕ) (db : Table) (envelope payload : Fields) (c : Completion)
    (text session id : String)
    → as_object (get_or_null "payload" envelope) ≡ some payload
    → completion_of payload (nonempty_str (get_or_null "task_id" payload)) ≡ some c
    → is_recorded (lookup c.task_id db) ≡ true
    → c.result_text ≡ some text
    → (record_completed c.task_id c.result_text c.hint now db).0.stored_session_id ≡ some session
    → (session == "") ≡ false
    → let h = handle_completed true host now db envelope in
      (lookup id h.table ≡ lookup id db) × (in_payload "text" h.synthesized ≡ some (Json.str text))
unfolding handle_completed record_completed
handle_completed-duplicate host now db envelope payload c text session id p q old t s ne =
    let row = completed_row c.task_id c.result_text c.hint now (lookup c.task_id db) in
    let same =
      completed_row_recorded c.task_id c.result_text c.hint now (lookup c.task_id db) old in
    rw p (
      rw q (
        lookup-insert c.task_id id row db ∙ kept row same,
        (recorded-injects host now db envelope payload c text session t s ne).0,
      ))
  where
    kept :
        (row : BackgroundTask)
        → some row ≡ lookup c.task_id db
        → (if c.task_id == id then some row else lookup id db) ≡ lookup id db
    kept row same = ground (arith, string_eq.beq_iff c.task_id id)
