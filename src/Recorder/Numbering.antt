-- ===== src/Recorder/Numbering.antt =====
-- The events of every run are numbered from 1 without a gap or a repetition, and the record of an open
-- run knows its run's row and the last number: what an event and a new row do to this.
use astation.Prelude.{
  ℕ, suc, ◌≤◌, ◌≡◌, refl, ◌∙◌, subst, String, true, false, Option, none, some, List, [], ◌∷◌, map,
  if◌then◌else◌, is_some, All, arith, Bool-cases, inl, inr,
}
use astation.Prelude.Eq.{◌==◌, string_eq, pair_eq, pair_beq_iff}
use astation.Prelude.Dict.{Dict, lookup, insert, erase, HasUniqueKeys}
use astation.Runs.{Run, RunEvent, max_seq, max_option, interrupt}
use astation.Recorder.{OpenRun, RunKey, Database, run_of, replace_run}
use astation.Recorder.Requests.{or_zero}

-- How many events a run has.
abbrev pub count_of : String → List RunEvent → ℕ
count_of run_id [] = 0
count_of run_id (e ∷ es) =
    if e.run_id == run_id then suc (count_of run_id es) else count_of run_id es

-- Each event has the number after those of its run that were there when it was added.
abbrev pub IsNumbered : List RunEvent → Type 0
IsNumbered [] = Unit
IsNumbered (e ∷ es) = (e.seq ≡ suc (count_of e.run_id es)) × IsNumbered es

-- Each event's run has a row.
abbrev pub HasRun : List Run → RunEvent → Type 0
HasRun runs e = is_some (run_of e.run_id runs) ≡ true

-- The row of the run of a session.
abbrev pub IsRowOf : RunKey → Option Run → Type 0
IsRowOf key none = ⊥
IsRowOf key (some run) = (run.profile ≡ key.0) × (run.runtime_session_id ≡ some key.1)

-- An open run: its record stands under its own key, its row is this session's, and its number is the
-- last one given.
pub record IsOpen (db : Database) (x : RunKey × OpenRun) : Type 0 where
  pub same_profile : x.1.profile ≡ x.0.0
  pub own_row : IsRowOf x.0 (run_of x.1.run_id db.runs)
  pub last_number : x.1.last_seq ≡ count_of x.1.run_id db.run_events

-- The maximum that the cursor reports is the count.
or_zero-max_option : (n : ℕ) (o : Option ℕ) → or_zero o ≤ n → or_zero (max_option n o) ≡ n
or_zero-max_option n none h = refl
or_zero-max_option n (some m) h = ground arith

pub max_seq-count_of :
    (run_id : String) (es : List RunEvent)
    → IsNumbered es
    → or_zero (max_seq run_id es) ≡ count_of run_id es
unfolding max_seq
max_seq-count_of run_id [] h = refl
max_seq-count_of run_id (e ∷ es) h = elim (Bool-cases (e.run_id == run_id)) [
  | inl mine ↦
      let same = (string_eq.beq_iff e.run_id run_id).0 mine in
      let seq : e.seq ≡ suc (count_of run_id es) =
        subst (λ r. e.seq ≡ suc (count_of r es)) same h.0 in
      let rest = max_seq-count_of run_id es h.1 in
      rw mine (or_zero-max_option e.seq (max_seq run_id es) (omega arith) ∙ seq)
  | inr other ↦ rw other (max_seq-count_of run_id es h.1)
]

-- An id without a row has no events.
pub count_of_new :
    (run_id : String) (runs : List Run) (es : List RunEvent)
    → run_of run_id runs ≡ none
    → All (HasRun runs) es
    → count_of run_id es ≡ 0
count_of_new run_id runs [] n h = refl
count_of_new run_id runs (e ∷ es) n h = elim (Bool-cases (e.run_id == run_id)) [
  | inl mine ↦
      let same = (string_eq.beq_iff e.run_id run_id).0 mine in
      let found : is_some (run_of run_id runs) ≡ true =
        subst (λ r. is_some (run_of r runs) ≡ true) same h.0 in
      let bad : false ≡ true = subst (λ o. is_some o ≡ true) n found in cc
  | inr other ↦ rw other (count_of_new run_id runs es n h.1)
]

-- One row is the row of one session.
IsRowOf-same : (j k : RunKey) (o : Option Run) → IsRowOf j o → IsRowOf k o → j ≡ k
IsRowOf-same j k none h i = elim h [ ]
IsRowOf-same j k (some run) h i = ground arith

-- `IsOpen` of every entry under another key.
abbrev pub IsOpenBut : RunKey → Database → RunKey × OpenRun → Type 0
IsOpenBut key db x = if x.0 == key then Unit {0} else IsOpen db x

abbrev pub with_event : RunEvent → Database → Database
with_event e db = record db { run_events = e ∷ db.run_events }

-- An event of the run of one session leaves the other sessions' open runs as they are.
with_event-IsOpen :
    (key : RunKey) (e : RunEvent) (db : Database) (x : RunKey × OpenRun)
    → IsRowOf key (run_of e.run_id db.runs)
    → (x.0 == key) ≡ false
    → IsOpen db x
    → IsOpen (with_event e db) x
with_event-IsOpen key e db x row other o = record {
  same_profile = o.same_profile;
  own_row = o.own_row;
  last_number = elim (Bool-cases (e.run_id == x.1.run_id)) [
    | inl same ↦
        let r = (string_eq.beq_iff e.run_id x.1.run_id).0 same in
        let row' : IsRowOf key (run_of x.1.run_id db.runs) =
          subst (λ i. IsRowOf key (run_of i db.runs)) r row in
        let k = IsRowOf-same x.0 key (run_of x.1.run_id db.runs) o.own_row row' in
        let t : (x.0 == key) ≡ true = (pair_beq_iff x.0 key).1 k in cc
    | inr differs ↦ rw differs o.last_number
  ];
}

pub with_event-All :
    (key : RunKey) (e : RunEvent) (db : Database) (d : Dict RunKey OpenRun)
    → IsRowOf key (run_of e.run_id db.runs)
    → All (IsOpenBut key db) d
    → All (IsOpenBut key (with_event e db)) d
with_event-All key e db [] row h = tt
with_event-All key e db (x ∷ d) row h = (at_head, with_event-All key e db d row h.1)
  where
    at_head : IsOpenBut key (with_event e db) x
    at_head = elim (Bool-cases (x.0 == key)) [
      | inl same ↦ rw same tt
      | inr other ↦
          let o : IsOpen db x = subst (λ b. if b then Unit {0} else IsOpen db x) other h.0 in
          rw other (with_event-IsOpen key e db x row other o)
    ]

-- Where no record stands under the key, nothing is left out.
pub All-IsOpenBut_absent :
    (key : RunKey) (db : Database) (d : Dict RunKey OpenRun)
    → lookup key d ≡ none
    → All (IsOpenBut key db) d
    → All (IsOpen db) d
All-IsOpenBut_absent key db [] n h = tt
All-IsOpenBut_absent key db (x ∷ d) n h = elim (Bool-cases (x.0 == key)) [
  | inl same ↦ let bad : some x.1 ≡ none = ground arith in cc
  | inr other ↦ (
    subst (λ b. if b then Unit {0} else IsOpen db x) other h.0,
    All-IsOpenBut_absent key db d (ground arith) h.1,
  )
]

pub insert-IsOpen :
    (key : RunKey) (r : OpenRun) (db : Database) (d : Dict RunKey OpenRun)
    → HasUniqueKeys d
    → IsOpen db (key, r)
    → All (IsOpenBut key db) d
    → All (IsOpen db) (insert key r d)
insert-IsOpen key r db [] u o h = (o, tt)
insert-IsOpen key r db (x ∷ d) u o h = elim (Bool-cases (x.0 == key)) [
  | inl same ↦
      let k = (pair_beq_iff x.0 key).0 same in
      rw same (o, All-IsOpenBut_absent key db d (subst (λ j. lookup j d ≡ none) k u.0) h.1)
  | inr other ↦ rw other (
    subst (λ b. if b then Unit {0} else IsOpen db x) other h.0,
    insert-IsOpen key r db d u.1 o h.1,
  )
]

pub erase-IsOpen :
    (key : RunKey) (db : Database) (d : Dict RunKey OpenRun)
    → HasUniqueKeys d
    → All (IsOpenBut key db) d
    → All (IsOpen db) (erase key d)
erase-IsOpen key db [] u h = tt
erase-IsOpen key db (x ∷ d) u h = elim (Bool-cases (x.0 == key)) [
  | inl same ↦
      let k = (pair_beq_iff x.0 key).0 same in
      rw same (All-IsOpenBut_absent key db d (subst (λ j. lookup j d ≡ none) k u.0) h.1)
  | inr other ↦
      rw other
        (subst (λ b. if b then Unit {0} else IsOpen db x) other h.0, erase-IsOpen key db d u.1 h.1)
]

-- What holds of all entries holds of all but one.
pub IsOpen-But :
    (key : RunKey) (db : Database) (d : Dict RunKey OpenRun)
    → All (IsOpen db) d
    → All (IsOpenBut key db) d
IsOpen-But key db [] h = tt
IsOpen-But key db (x ∷ d) h = (at_head, IsOpen-But key db d h.1)
  where
    at_head : IsOpenBut key db x
    at_head = elim (Bool-cases (x.0 == key)) [ inl same ↦ rw same tt | inr other ↦ rw other h.0 ]

-- A change of the rows that keeps every id, and its session, keeps the open runs and the events' rows.
pub record KeepsRows (runs runs' : List Run) : Type 0 where
  pub of_session :
      (id : String) (key : RunKey) → IsRowOf key (run_of id runs) → IsRowOf key (run_of id runs')
  pub of_id : (id : String) → is_some (run_of id runs) ≡ true → is_some (run_of id runs') ≡ true

pub KeepsRows-IsOpenBut :
    (key : RunKey) (db : Database) (runs : List Run) (d : Dict RunKey OpenRun)
    → KeepsRows db.runs runs
    → All (IsOpenBut key db) d
    → All (IsOpenBut key (record db { runs = runs })) d
KeepsRows-IsOpenBut key db runs [] k h = tt
KeepsRows-IsOpenBut key db runs (x ∷ d) k h = (at_head, KeepsRows-IsOpenBut key db runs d k h.1)
  where
    at_head : IsOpenBut key (record db { runs = runs }) x
    at_head = elim (Bool-cases (x.0 == key)) [
      | inl same ↦ rw same tt
      | inr other ↦
          let o : IsOpen db x = subst (λ b. if b then Unit {0} else IsOpen db x) other h.0 in
          rw other (record {
            same_profile = o.same_profile;
            own_row = k.of_session x.1.run_id x.0 o.own_row;
            last_number = o.last_number;
          })
    ]

pub KeepsRows-HasRun :
    (runs runs' : List Run) (es : List RunEvent)
    → KeepsRows runs runs'
    → All (HasRun runs) es
    → All (HasRun runs') es
KeepsRows-HasRun runs runs' [] k h = tt
KeepsRows-HasRun runs runs' (e ∷ es) k h =
    (k.of_id e.run_id h.0, KeepsRows-HasRun runs runs' es k h.1)

pub cons-KeepsRows :
    (run : Run) (runs : List Run) → run_of run.id runs ≡ none → KeepsRows runs (run ∷ runs)
cons-KeepsRows run runs n = record {
  of_session = λ id key h. elim (Bool-cases (run.id == id)) [
    | inl same ↦
        let i = (string_eq.beq_iff run.id id).0 same in
        let absent : run_of id runs ≡ none = subst (λ j. run_of j runs ≡ none) i n in
        let no : IsRowOf key none = subst (IsRowOf key) absent h in elim no [ ]
    | inr other ↦ rw other h
  ];
  of_id =
      λ id h. elim (Bool-cases (run.id == id)) [ inl same ↦ rw same refl | inr other ↦ rw other h ];
}

-- The row with an id after a replacement.
abbrev other_row : Run → Option Run → Option Run
other_row new none = none
other_row new (some old) = some new

run_of-replace_run :
    (new : Run) (id : String) (runs : List Run)
    → run_of id (replace_run new runs)
      ≡ (if new.id == id then other_row new (run_of id runs) else run_of id runs)
run_of-replace_run new id [] = ground arith
run_of-replace_run new id (r ∷ runs) = ground (
  arith,
  run_of-replace_run new id runs,
  string_eq.beq_iff r.id new.id,
  string_eq.beq_iff new.id id,
  string_eq.beq_iff r.id id,
)

-- The replacement of a row by one of the same session.
pub replace_run-KeepsRows :
    (new old : Run) (runs : List Run)
    → run_of new.id runs ≡ some old
    → new.profile ≡ old.profile
    → new.runtime_session_id ≡ old.runtime_session_id
    → KeepsRows runs (replace_run new runs)
replace_run-KeepsRows new old runs found same_profile same_session = record {
  of_session = λ id key h. elim (Bool-cases (new.id == id)) [
    | inl same ↦
        let i = (string_eq.beq_iff new.id id).0 same in
        let here : run_of id runs ≡ some old = subst (λ j. run_of j runs ≡ some old) i found in
        let was : IsRowOf key (some old) = subst (IsRowOf key) here h in
        rw (run_of-replace_run, same, here) (same_profile ∙ was.0, same_session ∙ was.1)
    | inr other ↦ rw (run_of-replace_run, other) h
  ];
  of_id = λ id h. elim (Bool-cases (new.id == id)) [
    | inl same ↦
        let i = (string_eq.beq_iff new.id id).0 same in
        let here : run_of id runs ≡ some old = subst (λ j. run_of j runs ≡ some old) i found in
        rw (run_of-replace_run, same, here) refl
    | inr other ↦ rw (run_of-replace_run, other) h
  ];
}

abbrev interrupted_option : ℕ → Option Run → Option Run
interrupted_option t none = none
interrupted_option t (some run) = some (interrupt t run)

run_of-interrupt :
    (t : ℕ) (id : String) (runs : List Run)
    → run_of id (map (interrupt t) runs) ≡ interrupted_option t (run_of id runs)
run_of-interrupt t id [] = refl
run_of-interrupt t id (r ∷ runs) = ground (arith, run_of-interrupt t id runs)

interrupt-IsRowOf :
    (t : ℕ) (key : RunKey) (o : Option Run) → IsRowOf key o → IsRowOf key (interrupted_option t o)
interrupt-IsRowOf t key none h = h
interrupt-IsRowOf t key (some run) h = ground arith

interrupt-is_some :
    (t : ℕ) (o : Option Run) → is_some o ≡ true → is_some (interrupted_option t o) ≡ true
interrupt-is_some t none h = h
interrupt-is_some t (some run) h = refl

-- The sweep changes the status and the end of rows only.
pub interrupt_all-KeepsRows : (t : ℕ) (runs : List Run) → KeepsRows runs (map (interrupt t) runs)
interrupt_all-KeepsRows t runs = record {
  of_session = λ id key h. rw run_of-interrupt (interrupt-IsRowOf t key (run_of id runs) h);
  of_id = λ id h. rw run_of-interrupt (interrupt-is_some t (run_of id runs) h);
}

pub KeepsRows-IsOpen :
    (db : Database) (runs : List Run) (d : Dict RunKey OpenRun)
    → KeepsRows db.runs runs
    → All (IsOpen db) d
    → All (IsOpen (record db { runs = runs })) d
KeepsRows-IsOpen db runs [] k h = tt
KeepsRows-IsOpen db runs (x ∷ d) k h = (
  record {
    same_profile = h.0.same_profile;
    own_row = k.of_session x.1.run_id x.0 h.0.own_row;
    last_number = h.0.last_number;
  },
  KeepsRows-IsOpen db runs d k h.1,
)
