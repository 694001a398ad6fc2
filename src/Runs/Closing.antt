-- ===== src/Runs/Closing.antt =====
-- The closes of a run: what they record, and that a sweep settles every run.
use astation.Prelude.{
  ℕ, ◌≡◌, refl, ap, ◌∙◌, String, true, false, Option, none, some, List, [], ◌∷◌, map, keep_if, any,
  arith, Bool-cases, inl, inr, ◌||◌, ◌⊎◌,
}
use astation.Prelude.Eq.{◌==◌, string_eq}
use astation.Json.{text_of, Json}
use astation.Json.Laws.{get_or_null-put, get_or_null-put_self}
use astation.Runs.{
  Run, status_failed, status_interrupted, status_completed, close_run_stale, close_run_abnormal,
  stale_close_note, close_note, is_running, interrupt, interrupt_all_running, with_note, note_of,
  detail_of, stale_close_note_key, close_note_key,
}

note_of-with_note_self :
    (key note : String) (command : Json) → note_of key (with_note key note command) ≡ some note
note_of-with_note_self key note command =
    ap text_of (get_or_null-put_self key (Json.str note) (detail_of command))

note_of-with_note_stale :
    (note : String) (command : Json)
    → note_of close_note_key (with_note stale_close_note_key note command)
      ≡ note_of close_note_key command
note_of-with_note_stale note (Json.obj d) =
    ap text_of (get_or_null-put stale_close_note_key close_note_key (Json.str note) d)
note_of-with_note_stale note _ = refl

note_of-with_note_close :
    (note : String) (command : Json)
    → note_of stale_close_note_key (with_note close_note_key note command)
      ≡ note_of stale_close_note_key command
note_of-with_note_close note (Json.obj d) =
    ap text_of (get_or_null-put close_note_key stale_close_note_key (Json.str note) d)
note_of-with_note_close note _ = refl

-- A stale close completes a run at its time, its note is read back, and the note of an abnormal close
-- is the one that it was.
pub close_run_stale-notes :
    (note : String) (now : ℕ) (run : Run)
    → let closed = close_run_stale note now run in
      (closed.status ≡ status_completed)
      × (closed.ended_at ≡ some now)
      × (stale_close_note closed ≡ some note)
      × (close_note closed ≡ close_note run)
unfolding close_run_stale stale_close_note close_note
close_run_stale-notes note now run = (
  refl,
  refl,
  note_of-with_note_self stale_close_note_key note run.command_json,
  note_of-with_note_stale note run.command_json,
)

-- An abnormal close is refused, or its status is failed or interrupted.
abbrev pub Closed : (status note : String) → ℕ → Run → Option Run → Type 0
Closed status note now run none =
    ((status == status_failed) || (status == status_interrupted)) ≡ false
Closed status note now run (some closed) =
    ((closed.status ≡ status_failed) ⊎ (closed.status ≡ status_interrupted))
    × (closed.status ≡ status)
    × (close_note closed ≡ some note)
    × (stale_close_note closed ≡ stale_close_note run)
    × (is_running closed ≡ false)

-- An abnormal close is refused exactly where the status is neither failed nor interrupted; otherwise
-- the run has this status and is not running, its note is read back, and the note of a stale close is
-- the one that it was.
pub close_run_abnormal-Closed :
    (status note : String) (now : ℕ) (run : Run)
    → Closed status note now run (close_run_abnormal status note now run)
unfolding close_run_abnormal stale_close_note close_note
close_run_abnormal-Closed status note now run =
    elim (Bool-cases (status == status_failed || status == status_interrupted)) [
      | inr bad ↦ rw bad bad
      | inl good ↦ rw good (
        reason good,
        refl,
        note_of-with_note_self close_note_key note run.command_json,
        note_of-with_note_close note run.command_json,
        stopped (reason good),
      )
    ]
  where
    reason :
        (status == status_failed || status == status_interrupted) ≡ true
        → (status ≡ status_failed) ⊎ (status ≡ status_interrupted)
    reason good = elim (Bool-cases (status == status_failed)) [
      | inl f ↦ inl ((string_eq.beq_iff status status_failed).0 f)
      | inr g ↦ inr ((string_eq.beq_iff status status_interrupted).0 (ground arith))
    ]

    stopped :
        (status ≡ status_failed) ⊎ (status ≡ status_interrupted) → (status == "running") ≡ false
    stopped (inl f) = rw f refl
    stopped (inr i) = rw i refl

interrupt-not_running : (now : ℕ) (run : Run) → is_running (interrupt now run) ≡ false
interrupt-not_running now run = elim (Bool-cases (is_running run)) [
  | inl h ↦ rw h refl
  | inr h ↦ rw h h
]

interrupt-interrupt : (t u : ℕ) (run : Run) → interrupt u (interrupt t run) ≡ interrupt t run
interrupt-interrupt t u run = rw (interrupt-not_running t run) refl

abbrev pair : List Run → List Run → List Run × List Run
pair a b = (a, b)

-- After a sweep no run is running, and a second sweep touches no row and leaves every row as it is,
-- with the time of its end.
pub interrupt_all_running-settles :
    (t u : ℕ) (db : List Run)
    → let once = interrupt_all_running t db in
      (any is_running once.1 ≡ false) × (interrupt_all_running u once.1 ≡ ([], once.1))
unfolding interrupt_all_running
interrupt_all_running-settles t u db = (settled db, ap2 (touched db) (same db))
  where
    settled : (db : List Run) → any is_running (map (interrupt t) db) ≡ false
    settled [] = refl
    settled (r ∷ db) = rw (interrupt-not_running t r) (settled db)

    touched : (db : List Run) → map (interrupt u) (keep_if is_running (map (interrupt t) db)) ≡ []
    touched [] = refl
    touched (r ∷ db) = rw (interrupt-not_running t r) (touched db)

    same : (db : List Run) → map (interrupt u) (map (interrupt t) db) ≡ map (interrupt t) db
    same [] = refl
    same (r ∷ db) =
        ap (λ x. x ∷ map (interrupt u) (map (interrupt t) db)) (interrupt-interrupt t u r)
        ∙ ap (λ l. interrupt t r ∷ l) (same db)

    ap2 : {a b c d : List Run} → a ≡ b → c ≡ d → pair a c ≡ pair b d
    ap2 p q = cc
