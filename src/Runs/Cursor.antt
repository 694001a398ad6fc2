-- ===== src/Runs/Cursor.antt =====
-- What the cursor read of a run's events returns.
use astation.Prelude.{
  ℕ, zero, suc, ◌≤◌, ◌≡◌, refl, ap, ◌∙◌, sym, subst, String, Bool, true, false, Option, none, some,
  List, [], ◌∷◌, if◌then◌else◌, keep_if, any, arith, Bool-cases, inl, inr, take, ltb, length,
  length-keep_if, keep_if-append, append-nil, All, ◌++◌, ◌<◌, eqb, ◌&&◌, ◌||◌,
}
use astation.Prelude.Eq.{◌==◌, string_eq}
use astation.Prelude.Dict.{Dict, lookup, lookup-insert}
use astation.Prelude.Sort.{sort_by, any-sort_by, length-sort_by}
use astation.Runs.{
  RunEvent, is_after, in_order, events_after, max_option, max_seq, insert_some, last_seq_by_run,
}

-- A maximum, where there is one, is at most `m`.
abbrev IsBelow : Option ℕ → ℕ → Type 0
IsBelow none m = Unit
IsBelow (some n) m = n ≤ m

IsBelow-max_option : (a m : ℕ) (o : Option ℕ) → IsBelow (max_option a o) m → (a ≤ m) × IsBelow o m
IsBelow-max_option a m none h = (h, tt)
IsBelow-max_option a m (some n) h = elim (Bool-cases (ltb a n)) [
  | inl less ↦ (ground arith, ground arith)
  | inr more ↦ (ground arith, ground arith)
]

keep_if-is_after :
    (run_id : String) (m : ℕ) (db : List RunEvent)
    → IsBelow (max_seq run_id db) m
    → keep_if (is_after run_id m) db ≡ []
unfolding max_seq
keep_if-is_after run_id m [] h = refl
keep_if-is_after run_id m (e ∷ db) h = elim (Bool-cases (e.run_id == run_id)) [
  | inl mine ↦
      let h' : IsBelow (max_option e.seq (max_seq run_id db)) m =
        subst
          (λ b. IsBelow (if b then max_option e.seq (max_seq run_id db) else max_seq run_id db) m)
          mine h in
      let both = IsBelow-max_option e.seq m (max_seq run_id db) h' in
      let old : ltb m e.seq ≡ false = let le = both.0 in ground arith in
      rw mine (rw old (keep_if-is_after run_id m db both.1))
  | inr other ↦
      let h' : IsBelow (max_seq run_id db) m =
        subst
          (λ b. IsBelow (if b then max_option e.seq (max_seq run_id db) else max_seq run_id db) m)
          other h in
      rw other (keep_if-is_after run_id m db h')
]

-- One more run's maximum in a dictionary of maxima.
lookup-insert_some :
    (run_id j : String) (db : List RunEvent) (n : ℕ) (d : Dict String ℕ)
    → (lookup run_id d ≡ some n → max_seq run_id db ≡ some n)
    → (o : Option ℕ) → max_seq j db ≡ o
    → lookup run_id (insert_some j o d) ≡ some n
    → max_seq run_id db ≡ some n
lookup-insert_some run_id j db n d rest none e f = rest f
lookup-insert_some run_id j db n d rest (some k) e f = elim (Bool-cases (j == run_id)) [
  | inl same ↦
      let i = (string_eq.beq_iff j run_id).0 same in
      let found = sym (lookup-insert j run_id k d) ∙ f in
      let k_n : some k ≡ some n =
        subst (λ b. (if b then some k else lookup run_id d) ≡ some n) same found in
      subst (λ x. max_seq x db ≡ some n) i (e ∙ k_n)
  | inr other ↦
      let found = sym (lookup-insert j run_id k d) ∙ f in
      rest (subst (λ b. (if b then some k else lookup run_id d) ≡ some n) other found)
]

lookup-last_seq_by_run :
    (run_id : String) (run_ids : List String) (db : List RunEvent) (n : ℕ)
    → lookup run_id (last_seq_by_run run_ids db) ≡ some n
    → max_seq run_id db ≡ some n
unfolding last_seq_by_run
lookup-last_seq_by_run run_id [] db n h = cc
lookup-last_seq_by_run run_id (j ∷ js) db n h =
    lookup-insert_some run_id j db n (last_seq_by_run js db) (lookup-last_seq_by_run run_id js db n)
      (max_seq j db) refl h

-- The event is the run's and has this number.
abbrev pub is_numbered : String → ℕ → RunEvent → Bool
is_numbered run_id n e = e.run_id == run_id && eqb e.seq n

any-max_option :
    (run_id : String) (n : ℕ) (e : RunEvent) (db : List RunEvent)
    → e.run_id == run_id ≡ true
    → (o : Option ℕ) → ((m : ℕ) → o ≡ some m → any (is_numbered run_id m) db ≡ true)
    → max_option e.seq o ≡ some n
    → any (is_numbered run_id n) (e ∷ db) ≡ true
any-max_option run_id n e db mine none rest h = let same : e.seq ≡ n = cc h in ground arith
any-max_option run_id n e db mine (some m) rest h = elim (Bool-cases (ltb e.seq m)) [
  | inl less ↦
      let same : m ≡ n = ground arith in
      let found : any (is_numbered run_id n) db ≡ true = rest n (ap some same) in ground arith
  | inr more ↦ let same : e.seq ≡ n = ground arith in ground arith
]

-- The greatest number of a run is the number of one of its events.
any-max_seq :
    (run_id : String) (db : List RunEvent) (n : ℕ)
    → max_seq run_id db ≡ some n
    → any (is_numbered run_id n) db ≡ true
unfolding max_seq
any-max_seq run_id [] n h = cc h
any-max_seq run_id (e ∷ db) n h = elim (Bool-cases (e.run_id == run_id)) [
  | inl mine ↦ any-max_option run_id n e db mine (max_seq run_id db) (any-max_seq run_id db) (
      subst (λ b. (if b then max_option e.seq (max_seq run_id db) else max_seq run_id db) ≡ some n)
        mine h)
  | inr other ↦
      let found : any (is_numbered run_id n) db ≡ true = any-max_seq run_id db n (
        subst
          (λ b. (if b then max_option e.seq (max_seq run_id db) else max_seq run_id db) ≡ some n)
          other h) in
      ground arith
]

-- If both are events of the run, `e` has the greater number.
abbrev pub Follows : String → RunEvent → RunEvent → Type 0
Follows run_id e f = e.run_id ≡ run_id → f.run_id ≡ run_id → f.seq < e.seq

above_number :
    (run_id : String) (n : ℕ) (e : RunEvent) (db : List RunEvent)
    → All (Follows run_id e) db
    → e.run_id ≡ run_id
    → any (is_numbered run_id n) db ≡ true
    → n < e.seq
above_number run_id n e [] f mine h = cc h
above_number run_id n e (x ∷ db) f mine h = elim (Bool-cases (is_numbered run_id n x)) [
  | inl here ↦
      let r : x.run_id ≡ run_id = ground (arith, string_eq.beq_iff x.run_id run_id) in
      let same : x.seq ≡ n = ground arith in let below = f.0 mine r in omega arith
  | inr later ↦ above_number run_id n e db f.1 mine (ground arith)
]

-- Of events that all follow the stored ones, those of the run are after its last number.
keep_if-later :
    (run_id : String) (n : ℕ) (db later : List RunEvent)
    → any (is_numbered run_id n) db ≡ true
    → All (λ e. All (Follows run_id e) db) later
    → keep_if (is_after run_id n) later ≡ keep_if (λ e. e.run_id == run_id) later
keep_if-later run_id n db [] h f = refl
keep_if-later run_id n db (e ∷ later) h f = elim (Bool-cases (e.run_id == run_id)) [
  | inl mine ↦
      let above : n < e.seq =
        above_number run_id n e db f.0 ((string_eq.beq_iff e.run_id run_id).0 mine) h in
      let new : ltb n e.seq ≡ true = ground arith in
      rw mine (rw new (ap (λ l. e ∷ l) (keep_if-later run_id n db later h f.1)))
  | inr other ↦ rw other (keep_if-later run_id n db later h f.1)
]

-- The last number reported for a run is the number of a stored event of the run. Whatever events are
-- stored later, those of this run with numbers above its stored ones: a client that continues from
-- the reported number reads the later events of this run, all of them up to the limit in the order of
-- their numbers, and no event that was stored before.
pub events_after-last_seq_by_run :
    (run_id : String) (run_ids : List String) (db later : List RunEvent) (n limit : ℕ)
    → lookup run_id (last_seq_by_run run_ids db) ≡ some n
    → All (λ e. All (Follows run_id e) db) later
    → (any (is_numbered run_id n) db ≡ true)
      × (events_after run_id n limit (later ++ db)
          ≡ take limit (sort_by in_order (keep_if (λ e. e.run_id == run_id) later)))
unfolding events_after
events_after-last_seq_by_run run_id run_ids db later n limit h f =
    let top = lookup-last_seq_by_run run_id run_ids db n h in
    let most : IsBelow (max_seq run_id db) n = subst (λ o. IsBelow o n) (sym top) (omega arith) in
    let stored = any-max_seq run_id db n top in
    let read : keep_if (is_after run_id n) (later ++ db) ≡ keep_if (λ e. e.run_id == run_id) later =
      keep_if-append (is_after run_id n) later db
      ∙ ap (λ l. keep_if (is_after run_id n) later ++ l) (keep_if-is_after run_id n db most)
      ∙ append-nil (keep_if (is_after run_id n) later)
      ∙ keep_if-later run_id n db later stored f in
    (stored, ap (λ l. take limit (sort_by in_order l)) read)

any-take_all :
    (p : RunEvent → Bool) (l : List RunEvent) (k : ℕ) → length l ≤ k → any p (take k l) ≡ any p l
any-take_all p [] zero h = refl
any-take_all p [] (suc k) h = refl
any-take_all p (x ∷ l) zero h = elim h [ ]
any-take_all p (x ∷ l) (suc k) h = ap (λ b. p x || b) (any-take_all p l k (omega arith))

any-keep_if :
    (p q : RunEvent → Bool) (l : List RunEvent) → any p (keep_if q l) ≡ any (λ e. q e && p e) l
any-keep_if p q [] = refl
any-keep_if p q (x ∷ l) = ground (arith, any-keep_if p q l)

-- With a limit that is no less than the number of stored events, the cursor read has exactly the run's
-- events after the cursor: a test holds of one of these exactly if it holds of an element of the list.
pub events_after-all :
    (run_id : String) (after_seq limit : ℕ) (db : List RunEvent) (p : RunEvent → Bool)
    → length db ≤ limit
    → any p (events_after run_id after_seq limit db)
      ≡ any (λ e. is_after run_id after_seq e && p e) db
unfolding events_after
events_after-all run_id after_seq limit db p h =
    let few : length (sort_by in_order (keep_if (is_after run_id after_seq) db)) ≤ limit = omega (
      arith,
      length-sort_by in_order (keep_if (is_after run_id after_seq) db),
      length-keep_if (is_after run_id after_seq) db,
    ) in
    any-take_all p (sort_by in_order (keep_if (is_after run_id after_seq) db)) limit few
    ∙ any-sort_by p in_order (keep_if (is_after run_id after_seq) db)
    ∙ any-keep_if p (is_after run_id after_seq) db
