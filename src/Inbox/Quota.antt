-- ===== src/Inbox/Quota.antt =====
-- What the inbox stores and drops: ids stay unique, the quota holds at each insertion, and no row
-- is lost but by its acknowledgement.
use astation.Prelude.{
  suc, ◌+◌, ◌≤◌, ◌≡◌, refl, sym, ap, ◌∙◌, subst, String, Bool, true, false, Option, none, some,
  List, [], ◌∷◌, ◌++◌, if◌then◌else◌, length, length-append, ◌⊎◌, keep_if, length-keep_if, ◌||◌,
  arith, Bool-cases, inl, inr, find_first,
}
use astation.Prelude.Eq.{◌==◌, string_eq}
use astation.Json.{Fields}
use astation.Stream.Wire.{Wire}
use astation.Inbox.{Row, EventInbox, event_id_of, used_bytes, has_id, put_event, acknowledge}

-- No two rows have one id.
abbrev pub HasUniqueIds : List Row → Type 0
HasUniqueIds [] = Unit
HasUniqueIds (r ∷ rows) = (has_id r.id rows ≡ false) × HasUniqueIds rows

pub record IsValid (b : EventInbox) : Type 0 where
  pub unique_ids : HasUniqueIds b.rows
  pub rows_bounded : length b.rows ≤ b.max_rows

-- The row with an id.
abbrev pub row_of : String → EventInbox → Option Row
row_of id b = find_first (λ (r : Row). r.id == id) b.rows

has_id-append :
    (id : String) (rows more : List Row)
    → has_id id (rows ++ more) ≡ has_id id rows || has_id id more
has_id-append id [] more = refl
has_id-append id (r ∷ rows) more = ground (arith, has_id-append id rows more)

append-HasUniqueIds :
    (rows : List Row) (r : Row)
    → HasUniqueIds rows
    → has_id r.id rows ≡ false
    → HasUniqueIds (rows ++ r ∷ [])
append-HasUniqueIds [] r u h = (refl, tt)
append-HasUniqueIds (x ∷ rows) r u h = ground (
  arith,
  append-HasUniqueIds rows r u.1,
  has_id-append x.id rows (r ∷ []),
  string_eq.beq_iff r.id x.id,
  string_eq.beq_iff x.id r.id,
)

used_bytes-append :
    (w : Wire) (rows more : List Row)
    → used_bytes w (rows ++ more) ≡ used_bytes w rows + used_bytes w more
used_bytes-append w [] more = omega arith
used_bytes-append w (r ∷ rows) more = omega (arith, used_bytes-append w rows more)

abbrev pub or_else : Option Row → Option Row → Option Row
or_else none o = o
or_else (some r) o = some r

find-append :
    (id : String) (rows : List Row) (r : Row)
    → find_first (λ (x : Row). x.id == id) (rows ++ r ∷ [])
      ≡ or_else (find_first (λ (x : Row). x.id == id) rows) (if r.id == id then some r else none)
find-append id [] r = refl
find-append id (x ∷ rows) r = ground (arith, find-append id rows r)

find-has_id :
    (id new : String) (rows : List Row) (r : Row)
    → has_id new rows ≡ true
    → find_first (λ (x : Row). x.id == id) rows
      ≡ or_else (find_first (λ (x : Row). x.id == id) rows) (if new == id then some r else none)
find-has_id id new [] r h = cc h
find-has_id id new (x ∷ rows) r h = ground (
  arith,
  find-has_id id new rows r,
  string_eq.beq_iff x.id id,
  string_eq.beq_iff new id,
  string_eq.beq_iff x.id new,
)

abbrev pub new_row : String → Fields → Option String → Row
new_row epoch envelope raw_type = record {
  id = event_id_of envelope;
  epoch = epoch;
  envelope = envelope;
  raw_type = raw_type;
}

module _ (w : Wire) (epoch : String) (envelope : Fields) (raw_type : Option String)
    (b b' : EventInbox) where
  put_event-IsValid : IsValid b → put_event w epoch envelope raw_type b ≡ some b' → IsValid b'
  unfolding put_event
  put_event-IsValid v e = elim (Bool-cases (has_id (event_id_of envelope) b.rows)) [
    | inl old ↦ let same : b ≡ b' = ground arith in subst IsValid same v
    | inr fresh ↦
        let grown : b' ≡ record b { rows = b.rows ++ new_row epoch envelope raw_type ∷ [] } =
          ground arith in
        let free : suc (length b.rows) ≤ b.max_rows = ground arith in
        subst IsValid (sym grown) (record {
          unique_ids =
              append-HasUniqueIds b.rows (new_row epoch envelope raw_type) v.unique_ids fresh;
          rows_bounded = omega (arith, length-append b.rows (new_row epoch envelope raw_type ∷ []));
        })
  ]

  put_event-row :
      (id : String)
      → put_event w epoch envelope raw_type b ≡ some b'
      → row_of id b'
        ≡ or_else
            (row_of id b)
            (if event_id_of envelope == id then some (new_row epoch envelope raw_type) else none)
  unfolding put_event
  put_event-row id e = elim (Bool-cases (has_id (event_id_of envelope) b.rows)) [
    | inl old ↦
        let same : b' ≡ b = ground arith in
        ap (row_of id) same
        ∙ find-has_id id (event_id_of envelope) b.rows (new_row epoch envelope raw_type) old
    | inr fresh ↦
        let grown : b' ≡ record b { rows = b.rows ++ new_row epoch envelope raw_type ∷ [] } =
          ground arith in
        ap (row_of id) grown ∙ find-append id b.rows (new_row epoch envelope raw_type)
  ]

  put_event-bytes :
      put_event w epoch envelope raw_type b ≡ some b'
      → (b' ≡ b) ⊎ (used_bytes w b'.rows ≤ b'.max_bytes)
  unfolding put_event
  put_event-bytes e = elim (Bool-cases (has_id (event_id_of envelope) b.rows)) [
    | inl old ↦ inl (ground arith)
    | inr fresh ↦ inr (
        let r = new_row epoch envelope raw_type in
        let grown : b' ≡ record b { rows = b.rows ++ r ∷ [] } = ground arith in
        let fits : used_bytes w b.rows + w.frame_size envelope ≤ b.max_bytes = ground arith in
        subst (λ (x : EventInbox). used_bytes w x.rows ≤ x.max_bytes) (sym grown)
          (omega (arith, used_bytes-append w b.rows (r ∷ []))))
  ]

-- A `put` that does not raise keeps the ids unique and the number of rows within its quota, and the
-- table is as it was, or the stored bytes fit their quota. Afterwards every id has the row that it had,
-- and an id that had none has one exactly if it is the event's: the event as it was given.
pub put_event-stores :
    (w : Wire) (epoch : String) (envelope : Fields) (raw_type : Option String) (b b' : EventInbox)
    (id : String)
    → IsValid b
    → put_event w epoch envelope raw_type b ≡ some b'
    → IsValid b'
      × ((b' ≡ b) ⊎ (used_bytes w b'.rows ≤ b'.max_bytes))
      × (row_of id b'
          ≡ or_else
              (row_of id b)
              (if event_id_of envelope == id then some (new_row epoch envelope raw_type) else none))
put_event-stores w epoch envelope raw_type b b' id v e = (
  put_event-IsValid w epoch envelope raw_type b b' v e,
  put_event-bytes w epoch envelope raw_type b b' e,
  put_event-row w epoch envelope raw_type b b' id e,
)

find-keep_other :
    (gone id : String) (rows : List Row)
    → find_first
        (λ (x : Row). x.id == id)
        (keep_if (λ (r : Row). if r.id == gone then false else true) rows)
      ≡ (if gone == id then none else find_first (λ (x : Row). x.id == id) rows)
find-keep_other gone id [] = ground arith
find-keep_other gone id (r ∷ rows) = ground (
  arith,
  find-keep_other gone id rows,
  string_eq.beq_iff r.id gone,
  string_eq.beq_iff r.id id,
  string_eq.beq_iff gone id,
)

-- An acknowledgement drops the row of its event, and no other.
pub row_of-acknowledge :
    (gone id : String) (b : EventInbox)
    → row_of id (acknowledge gone b) ≡ (if gone == id then none else row_of id b)
unfolding acknowledge
row_of-acknowledge gone id b = find-keep_other gone id b.rows

has_id-keep_if :
    (p : Row → Bool) (id : String) (rows : List Row)
    → has_id id rows ≡ false
    → has_id id (keep_if p rows) ≡ false
has_id-keep_if p id [] h = refl
has_id-keep_if p id (r ∷ rows) h = ground (arith, has_id-keep_if p id rows)

keep_if-HasUniqueIds :
    (p : Row → Bool) (rows : List Row) → HasUniqueIds rows → HasUniqueIds (keep_if p rows)
keep_if-HasUniqueIds p [] u = tt
keep_if-HasUniqueIds p (r ∷ rows) u =
    ground (arith, keep_if-HasUniqueIds p rows u.1, has_id-keep_if p r.id rows u.0)

pub acknowledge-IsValid : (id : String) (b : EventInbox) → IsValid b → IsValid (acknowledge id b)
unfolding acknowledge
acknowledge-IsValid id b v = record {
  unique_ids =
      keep_if-HasUniqueIds (λ (r : Row). if r.id == id then false else true) b.rows v.unique_ids;
  rows_bounded =
      let fits = v.rows_bounded in
      omega (arith, length-keep_if (λ (r : Row). if r.id == id then false else true) b.rows);
}
