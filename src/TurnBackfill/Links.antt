-- ===== src/TurnBackfill/Links.antt =====
-- What the backfill changes: a row without a run gets a run of its own session, and nothing else.
use astation.Prelude.{
  ℕ, ◌-◌, ◌≡◌, refl, ap, sym, ◌∙◌, subst, String, Bool, true, false, Option, none, some, List, [],
  ◌∷◌, ◌++◌, if◌then◌else◌, not, ◌&&◌, any, find_first, keep_if, is_none, All, OfSome, All-append,
  All-find_first, leb, arith, Bool-cases, inl, inr, ◌⊎◌,
}
use astation.Prelude.Eq.{◌==◌, string_eq, option_eq, pair_eq}
use astation.Prelude.Dict.{Dict, lookup, insert, insert-All, lookup-All}
use astation.Prelude.Sort.{sort_by, sort_by-All}
use astation.Runs.{Run}
use astation.Chat.{ChatMessage, earlier_seq}
use astation.TurnBackfill.{
  RunWindow, Span, window_of, with_window, windows_of, holds, starts_before, spans_from, spans_of,
  id_of, first_some, containing, next_starting_at_or_after, run_for, or_no_windows,
  group_by_profile, assign_one, assign_from, assign_turn_ids, is_run_of, is_unlinked, linked,
  link_rows, assigned_in, slack, SessionKey, BackfillReport, backfill_session, backfill_all,
  backfill_turn_ids, sessions_to_backfill, up_to,
}

-- A run with this id is in the table.
abbrev HasId : List Run → String → Type 0
HasId runs id = any (λ (run : Run). run.id == id) runs ≡ true

HasId-later : (run : Run) (runs : List Run) (id : String) → HasId runs id → HasId (run ∷ runs) id
HasId-later run runs id h = elim (Bool-cases (run.id == id)) [
  | inl here ↦ rw here refl
  | inr other ↦ rw other h
]

All-HasId-later :
    (run : Run) (runs : List Run) (windows : List RunWindow)
    → All (λ w. HasId runs w.id) windows
    → All (λ w. HasId (run ∷ runs) w.id) windows
All-HasId-later run runs [] a = tt
All-HasId-later run runs (w ∷ windows) a =
    (HasId-later run runs w.id a.0, All-HasId-later run runs windows a.1)

with_window-HasId :
    (run : Run) (runs : List Run) (o : Option ℕ)
    → All (λ w. HasId runs w.id) (windows_of runs)
    → All (λ w. HasId (run ∷ runs) w.id) (with_window (window_of run o) (windows_of runs))
with_window-HasId run runs none a = All-HasId-later run runs (windows_of runs) a
with_window-HasId run runs (some started_at) a = (
  rw ((string_eq.beq_iff run.id run.id).1 refl) refl,
  All-HasId-later run runs (windows_of runs) a,
)

windows_of-HasId : (runs : List Run) → All (λ w. HasId runs w.id) (windows_of runs)
unfolding windows_of
windows_of-HasId [] = tt
windows_of-HasId (run ∷ runs) = with_window-HasId run runs run.started_at (windows_of-HasId runs)

-- What the ids of all windows satisfy, every id that is assigned satisfies.
module _ (Q : String → Type 0) where
  abbrev HasQ : RunWindow → Type 0
  HasQ w = Q w.id

  abbrev GroupHasQ : String × List RunWindow → Type 0
  GroupHasQ x = All HasQ x.1

  found_group :
      (profile : String) (groups : Dict String (List RunWindow)) (o : Option (List RunWindow))
      → lookup profile groups ≡ o
      → All GroupHasQ groups
      → All HasQ (or_no_windows o)
  found_group profile groups none e a = tt
  found_group profile groups (some l) e a = lookup-All GroupHasQ profile groups a e

  group_by_profile-HasQ :
      (runs : List RunWindow) (groups : Dict String (List RunWindow))
      → All HasQ runs
      → All GroupHasQ groups
      → All GroupHasQ (group_by_profile runs groups)
  unfolding group_by_profile
  group_by_profile-HasQ [] groups a b = b
  group_by_profile-HasQ (run ∷ runs) groups a b =
      let old = or_no_windows (lookup run.profile groups) in
      group_by_profile-HasQ runs (insert run.profile (old ++ run ∷ []) groups) a.1 (
        insert-All GroupHasQ run.profile (old ++ run ∷ []) groups
          (All-append HasQ old (run ∷ [])
            (found_group run.profile groups (lookup run.profile groups) refl b) (a.0, tt))
          b)

  abbrev SpanHasQ : Span → Type 0
  SpanHasQ span = Q span.run_id

  spans_from-HasQ : (runs : List RunWindow) → All HasQ runs → All SpanHasQ (spans_from runs)
  unfolding spans_from
  spans_from-HasQ [] a = tt
  spans_from-HasQ (run ∷ runs) a = (a.0, spans_from-HasQ runs a.1)

  found_span : (o : Option Span) → OfSome SpanHasQ o → OfSome Q (id_of o)
  found_span none a = tt
  found_span (some span) a = a

  first_some-HasQ : (a b : Option String) → OfSome Q a → OfSome Q b → OfSome Q (first_some a b)
  first_some-HasQ none b p q = q
  first_some-HasQ (some a) b p q = p

  find-HasQ :
      (p : Span → Bool) (spans : List Span)
      → All SpanHasQ spans
      → OfSome Q (id_of (find_first p spans))
  find-HasQ p spans a = found_span (find_first p spans) (All-find_first SpanHasQ p spans a)

  if-HasQ :
      (b : Bool) (x y : Option String) → OfSome Q x → OfSome Q y → OfSome Q (if b then x else y)
  if-HasQ true x y p q = p
  if-HasQ false x y p q = q

  run_for-HasQ :
      (by : ℕ) (spans : List Span) (row : ChatMessage)
      → All SpanHasQ spans
      → OfSome Q (run_for by spans row)
  unfolding run_for
  run_for-HasQ by spans row a =
      let submit = next_starting_at_or_after spans (row.created_at - by) in
      let backfill = next_starting_at_or_after spans row.created_at in
      let last = if row.source == "backfill" then backfill else none in
      let prompt = if row.source == "submit" then submit else last in
      first_some-HasQ (containing spans row.created_at by)
        (if not (row.role == "user") then none else prompt)
        (first_some-HasQ (id_of (find_first (holds 0 row.created_at) spans))
          (id_of (find_first (holds by row.created_at) spans))
          (find-HasQ (holds 0 row.created_at) spans a)
          (find-HasQ (holds by row.created_at) spans a))
        (if-HasQ (not (row.role == "user")) none prompt tt (
          if-HasQ (row.source == "submit") submit last
            (find-HasQ (λ span. leb (row.created_at - by) span.start) spans a)
            (if-HasQ (row.source == "backfill") backfill none
              (find-HasQ (λ span. leb row.created_at span.start) spans a) tt)))

  abbrev EntryHasQ : String × String → Type 0
  EntryHasQ x = Q x.1

  assign_one-HasQ :
      (o : Option String) (id : String) (assigned : Dict String String)
      → OfSome Q o
      → All EntryHasQ assigned
      → All EntryHasQ (assign_one o id assigned)
  assign_one-HasQ none id assigned p a = a
  assign_one-HasQ (some run_id) id assigned p a = insert-All EntryHasQ id run_id assigned p a

  assign_from-HasQ :
      (by : ℕ) (groups : Dict String (List RunWindow)) (rows : List ChatMessage)
      (assigned : Dict String String)
      → All GroupHasQ groups
      → All EntryHasQ assigned
      → All EntryHasQ (assign_from by groups rows assigned)
  unfolding assign_from spans_of
  assign_from-HasQ by groups [] assigned g a = a
  assign_from-HasQ by groups (row ∷ rows) assigned g a =
      let windows = or_no_windows (lookup row.profile groups) in
      let spans = spans_of windows in
      let known = found_group row.profile groups (lookup row.profile groups) refl g in
      assign_from-HasQ by groups rows (assign_one (run_for by spans row) row.id assigned) g (
        assign_one-HasQ (run_for by spans row) row.id assigned
          (run_for-HasQ by spans row (
            spans_from-HasQ (sort_by starts_before windows)
              (sort_by-All HasQ starts_before windows known)))
          a)

  assign_turn_ids-HasQ :
      (by : ℕ) (runs : List RunWindow) (rows : List ChatMessage)
      → All HasQ runs
      → All EntryHasQ (assign_turn_ids by runs rows)
  unfolding assign_turn_ids
  assign_turn_ids-HasQ by runs rows a =
      assign_from-HasQ by (group_by_profile runs []) rows [] (group_by_profile-HasQ runs [] a tt) tt

-- A run of the row's session and profile with this id is in the table.
abbrev HasRun : List Run → ChatMessage → String → Type 0
HasRun runs row run_id =
    any (λ (run : Run). run.id == run_id && is_run_of row.profile row.stored_session_id run) runs
    ≡ true

-- A row is as it was, or it had no run and now has one of its session, and nothing else changed.
abbrev pub IsLinked : List Run → ChatMessage → ChatMessage → Type 0
IsLinked runs row row' =
    (row' ≡ row)
    ⊎ (row.turn_id ≡ none)
      × ((run_id : String) × ((row' ≡ record row { turn_id = some run_id })
            × HasRun runs row run_id))

-- Row by row.
abbrev pub AreLinked : List Run → List ChatMessage → List ChatMessage → Type 0
AreLinked runs [] [] = Unit
AreLinked runs [] (row' ∷ rows') = ⊥
AreLinked runs (row ∷ rows) [] = ⊥
AreLinked runs (row ∷ rows) (row' ∷ rows') = IsLinked runs row row' × AreLinked runs rows rows'

AreLinked-refl : (runs : List Run) (rows : List ChatMessage) → AreLinked runs rows rows
AreLinked-refl runs [] = tt
AreLinked-refl runs (row ∷ rows) = (inl refl, AreLinked-refl runs rows)

IsLinked-trans :
    (runs : List Run) (a b c : ChatMessage)
    → IsLinked runs a b
    → IsLinked runs b c
    → IsLinked runs a c
IsLinked-trans runs a b c (inl e) q = subst (λ r. IsLinked runs r c) e q
IsLinked-trans runs a b c (inr (free, (run_id, (e, h)))) (inl f) = inr (free, (run_id, (f ∙ e, h)))
IsLinked-trans runs a b c (inr (free, (run_id, (e, h)))) (inr (still_free, rest)) =
    let has : b.turn_id ≡ some run_id = ap (λ (r : ChatMessage). r.turn_id) e in cc

AreLinked-trans :
    (runs : List Run) (xs ys cs : List ChatMessage)
    → AreLinked runs xs ys
    → AreLinked runs ys cs
    → AreLinked runs xs cs
AreLinked-trans runs [] [] cs p q = q
AreLinked-trans runs [] (b ∷ ys) cs p q = elim p [ ]
AreLinked-trans runs (a ∷ xs) [] cs p q = elim p [ ]
AreLinked-trans runs (a ∷ xs) (b ∷ ys) [] p q = elim q [ ]
AreLinked-trans runs (a ∷ xs) (b ∷ ys) (c ∷ cs) p q =
    (IsLinked-trans runs a b c p.0 q.0, AreLinked-trans runs xs ys cs p.1 q.1)

kept_any :
    (p q : Run → Bool) (runs : List Run)
    → any p (keep_if q runs) ≡ true
    → any (λ run. p run && q run) runs ≡ true
kept_any p q [] h = cc
kept_any p q (run ∷ runs) h = ground (arith, kept_any p q runs)

unlinked_session :
    (profile stored_id : String) (row : ChatMessage)
    → is_unlinked profile stored_id row ≡ true
    → (row.profile ≡ profile) × ((row.stored_session_id ≡ stored_id) × (row.turn_id ≡ none))
unlinked_session profile stored_id row h = (
  (string_eq.beq_iff row.profile profile).0 parts.0,
  ((string_eq.beq_iff row.stored_session_id stored_id).0 parts.1.0, none_of row.turn_id parts.1.1),
)
  where
    three : (a b c : Bool) → (a && b) && c ≡ true → (a ≡ true) × ((b ≡ true) × (c ≡ true))
    three a b c h = ground arith

    parts :
        ((row.profile == profile) ≡ true)
        × (((row.stored_session_id == stored_id) ≡ true) × (is_none row.turn_id ≡ true))
    parts =
        three (row.profile == profile) (row.stored_session_id == stored_id) (is_none row.turn_id) h

    none_of : (o : Option String) → is_none o ≡ true → o ≡ none
    none_of none h = refl
    none_of (some a) h = cc

linked-IsLinked :
    (runs : List Run) (profile stored_id : String) (assigned : Dict String String)
    (row : ChatMessage)
    → All (λ x. HasId (keep_if (is_run_of profile stored_id) runs) x.1) assigned
    → is_unlinked profile stored_id row ≡ true
    → IsLinked runs row (linked (lookup row.id assigned) row)
linked-IsLinked runs profile stored_id assigned row known h = go (lookup row.id assigned) refl
  where
    here : (row.profile ≡ profile) × ((row.stored_session_id ≡ stored_id) × (row.turn_id ≡ none))
    here = unlinked_session profile stored_id row h

    go : (o : Option String) → lookup row.id assigned ≡ o → IsLinked runs row (linked o row)
    go none e = inl refl
    go (some run_id) e =
        let found =
          kept_any (λ (run : Run). run.id == run_id) (is_run_of profile stored_id) runs
            (lookup-All
              (λ (x : String × String). HasId (keep_if (is_run_of profile stored_id) runs) x.1)
              row.id assigned known e) in
        inr (
          here.1.1,
          (
            run_id,
            (
              refl,
              subst
                  (λ p.
                    any (λ (run : Run). run.id == run_id && is_run_of p row.stored_session_id run)
                      runs
                    ≡ true)
                  (sym here.0)
                  (subst
                    (λ s.
                      any (λ (run : Run). run.id == run_id && is_run_of profile s run) runs ≡ true)
                    (sym here.1.0) found),
            ),
          ),
        )

link_rows-AreLinked :
    (runs : List Run) (profile stored_id : String) (assigned : Dict String String)
    (rows : List ChatMessage)
    → All (λ x. HasId (keep_if (is_run_of profile stored_id) runs) x.1) assigned
    → AreLinked runs rows (link_rows profile stored_id assigned rows)
unfolding link_rows
link_rows-AreLinked runs profile stored_id assigned [] known = tt
link_rows-AreLinked runs profile stored_id assigned (row ∷ rows) known = (
  go (is_unlinked profile stored_id row) refl,
  link_rows-AreLinked runs profile stored_id assigned rows known,
)
  where
    go :
        (b : Bool)
        → is_unlinked profile stored_id row ≡ b
        → IsLinked runs row (if b then linked (lookup row.id assigned) row else row)
    go true e = linked-IsLinked runs profile stored_id assigned row known e
    go false e = inl refl

backfill_session-AreLinked :
    (fails : Bool) (runs : List Run) (key : SessionKey) (report : BackfillReport)
    (rows : List ChatMessage)
    → AreLinked runs rows (backfill_session fails runs key (report, rows)).1
unfolding backfill_session assigned_in
backfill_session-AreLinked true runs (profile, stored_id) report rows = AreLinked-refl runs rows
backfill_session-AreLinked false runs (profile, stored_id) report rows =
    let session_runs = keep_if (is_run_of profile stored_id) runs in
    let read = sort_by earlier_seq (keep_if (is_unlinked profile stored_id) rows) in
    link_rows-AreLinked runs profile stored_id
      (assign_turn_ids slack (windows_of session_runs) read) rows
      (assign_turn_ids-HasQ (HasId session_runs) slack (windows_of session_runs) read
        (windows_of-HasId session_runs))

backfill_all-AreLinked :
    (fails : SessionKey → Bool) (runs : List Run) (keys : List SessionKey)
    (x : BackfillReport × List ChatMessage)
    → AreLinked runs x.1 (backfill_all fails runs keys x).1
unfolding backfill_all
backfill_all-AreLinked fails runs [] x = AreLinked-refl runs x.1
backfill_all-AreLinked fails runs (key ∷ keys) x =
    let y = backfill_session (fails key) runs key x in
    AreLinked-trans runs x.1 y.1 (backfill_all fails runs keys y).1
      (backfill_session-AreLinked (fails key) runs key x.0 x.1)
      (backfill_all-AreLinked fails runs keys y)

-- Whatever sessions fail and whatever the limit: the backfill keeps the rows in their order; each row
-- is as it was, or it had no run and now has the id of a run of its own session and profile, and none
-- of its other columns has changed.
pub backfill_turn_ids-AreLinked :
    (fails : SessionKey → Bool) (limit_sessions : Option ℕ) (runs : List Run)
    (rows : List ChatMessage)
    → AreLinked runs rows (backfill_turn_ids fails limit_sessions runs rows).1
unfolding backfill_turn_ids
backfill_turn_ids-AreLinked fails limit_sessions runs rows =
    backfill_all-AreLinked fails runs (up_to limit_sessions (sessions_to_backfill runs rows)) (
      record { sessions_scanned = 0; rows_assigned = 0; rows_left_null = 0; sessions_failed = 0 },
      rows,
    )
