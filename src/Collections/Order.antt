-- ===== src/Collections/Order.antt =====
-- What is added to a collection, and where it stands.
use astation.Prelude.{
  ℕ, suc, ◌≤◌, ◌≡◌, refl, String, true, false, List, [], ◌∷◌, ◌++◌, map, if◌then◌else◌, not, ◌&&◌,
  ◌||◌, none, some, sym, ap, ◌∙◌, append-nil, append_assoc, Bool, keep_if, any, All, arith,
  Bool-cases, inl, inr, length, ltb, ◌⊎◌,
}
use astation.Prelude.Eq.{◌==◌, nat_eq, string_eq}
use astation.Collections.{
  CollectionArtifact, Tables, is_of, is_row, has, highest, next_position, new_rows, insert_rows,
  added, touched, add, remove,
}

-- The rows have the positions from `position` on, and the artifacts were no members before.
abbrev pub IsPlaced : String → List CollectionArtifact → ℕ → List CollectionArtifact → Type 0
IsPlaced id present position [] = Unit
IsPlaced id present position (m ∷ ms) =
    (m.collection_id ≡ id)
    × (m.position ≡ position)
    × (any (is_row id m.artifact_id) present ≡ false)
    × IsPlaced id present (suc position) ms

-- A member of the collection stands before `position`.
abbrev pub IsBefore : String → ℕ → CollectionArtifact → Type 0
IsBefore id position m = if is_of id m then ltb m.position position ≡ true else Unit

new_rows-IsPlaced :
    (id : String) (present : List CollectionArtifact) (now position : ℕ) (ids : List String)
    → IsPlaced id present position (new_rows id present now position ids)
unfolding new_rows
new_rows-IsPlaced id present now position [] = tt
new_rows-IsPlaced id present now position (a ∷ ids) =
    elim (Bool-cases (any (is_row id a) present)) [
      | inl old ↦ rw old (new_rows-IsPlaced id present now position ids)
      | inr new ↦ rw new (refl, refl, new, new_rows-IsPlaced id present now (suc position) ids)
    ]

new_rows-ids :
    (id : String) (present : List CollectionArtifact) (now position : ℕ) (ids : List String)
    → map (λ (m : CollectionArtifact). m.artifact_id) (new_rows id present now position ids)
      ≡ keep_if (λ a. not (any (is_row id a) present)) ids
unfolding new_rows
new_rows-ids id present now position [] = refl
new_rows-ids id present now position (a ∷ ids) = elim (Bool-cases (any (is_row id a) present)) [
  | inl old ↦ rw (old, new_rows-ids id present now position ids) refl
  | inr new ↦ rw (new, new_rows-ids id present now (suc position) ids) refl
]

IsBefore-highest :
    (id : String) (n : ℕ) (ms : List CollectionArtifact)
    → highest id ms ≤ n
    → All (IsBefore id (suc n)) ms
unfolding highest
IsBefore-highest id n [] h = tt
IsBefore-highest id n (m ∷ ms) h = elim (Bool-cases (is_of id m)) [
  | inl mine ↦
      let top : (if ltb (highest id ms) m.position then m.position else highest id ms) ≤ n =
        ground arith in
      let below : ltb m.position (suc n) ≡ true = ground arith in
      let rest : highest id ms ≤ n = ground arith in (rw mine below, IsBefore-highest id n ms rest)
  | inr other ↦
      let rest : highest id ms ≤ n = ground arith in (rw other tt, IsBefore-highest id n ms rest)
]

-- An id occurs twice.
abbrev pub has_repeat : List String → Bool
has_repeat [] = false
has_repeat (s ∷ l) = has s l || has_repeat l

-- One of the ids is a member.
abbrev any_member : String → List String → List CollectionArtifact → Bool
any_member id [] ms = false
any_member id (a ∷ ids) ms = any (is_row id a) ms || any_member id ids ms

any-is_row-append :
    (id b : String) (ms : List CollectionArtifact) (m : CollectionArtifact)
    → m.collection_id ≡ id
    → any (is_row id b) (ms ++ m ∷ []) ≡ any (is_row id b) ms || b == m.artifact_id
any-is_row-append id b [] m e = ground (
  arith,
  string_eq.beq_iff m.collection_id id,
  string_eq.beq_iff m.artifact_id b,
  string_eq.beq_iff b m.artifact_id,
)
any-is_row-append id b (x ∷ ms) m e = ground (arith, any-is_row-append id b ms m e)

any_member-append :
    (id : String) (ids : List String) (ms : List CollectionArtifact) (m : CollectionArtifact)
    → m.collection_id ≡ id
    → any_member id ids (ms ++ m ∷ []) ≡ any_member id ids ms || has m.artifact_id ids
any_member-append id [] ms m e = refl
any_member-append id (b ∷ ids) ms m e =
    ground (arith, any-is_row-append id b ms m e, any_member-append id ids ms m e)

abbrev pub ids_of : List CollectionArtifact → List String
ids_of rows = map (λ (m : CollectionArtifact). m.artifact_id) rows

insert_rows_iff :
    (id : String) (rows ms : List CollectionArtifact)
    → All (λ (m : CollectionArtifact). m.collection_id ≡ id) rows
    → insert_rows rows ms ≡ (
        if any_member id (ids_of rows) ms || has_repeat (ids_of rows)
        then none
        else some (ms ++ rows))
unfolding insert_rows
insert_rows_iff id [] ms h = ap some (sym (append-nil ms))
insert_rows_iff id (m ∷ rows) ms h =
    let own : any (is_row m.collection_id m.artifact_id) ms ≡ any (is_row id m.artifact_id) ms =
      ap (λ i. any (is_row i m.artifact_id) ms) h.0 in
    let rest = insert_rows_iff id rows (ms ++ m ∷ []) h.1 in
    let more = any_member-append id (ids_of rows) ms m h.0 in
    let moved : (ms ++ m ∷ []) ++ rows ≡ ms ++ m ∷ rows = append_assoc ms (m ∷ []) rows in
    ground arith

pub length-map {ℓ κ} :
    {A : Type ℓ} {B : Type κ} (f : A → B) (l : List A) → length (map f l) ≡ length l
length-map f [] = refl
length-map f (x ∷ l) = ap suc (length-map f l)

IsPlaced-own :
    (id : String) (present : List CollectionArtifact) (n : ℕ) (rows : List CollectionArtifact)
    → IsPlaced id present n rows
    → All (λ (m : CollectionArtifact). m.collection_id ≡ id) rows
IsPlaced-own id present n [] p = tt
IsPlaced-own id present n (m ∷ rows) p = (p.0, IsPlaced-own id present (suc n) rows p.3)

IsPlaced-new :
    (id : String) (present : List CollectionArtifact) (n : ℕ) (rows : List CollectionArtifact)
    → IsPlaced id present n rows
    → any_member id (ids_of rows) present ≡ false
IsPlaced-new id present n [] p = refl
IsPlaced-new id present n (m ∷ rows) p =
    let rest = IsPlaced-new id present (suc n) rows p.3 in let new = p.2 in ground arith

-- Of the given ids, the new ones are those of artifacts that exist and are no members. Where a new id
-- is given twice, `add` fails and nothing is committed. Else it leaves every row that is there as it is
-- and appends one row for each new id, in the order given, at the positions from the next one on,
-- which lie behind every member's, and it answers how many.
pub add-appends :
    (id : String) (artifact_ids : List String) (now : ℕ) (db : Tables)
    → let known = keep_if (λ a. has a db.artifacts) artifact_ids in
      let fresh = keep_if (λ a. not (any (is_row id a) db.members)) known in
      let next = next_position id db.members in
      ((has_repeat fresh ≡ true) × (add id artifact_ids now db ≡ none))
      ⊎ ((has_repeat fresh ≡ false)
          × (rows : List CollectionArtifact) × (db' : Tables) × (add id artifact_ids now db
              ≡ some (length fresh, db'))
          × (db'.members ≡ db.members ++ rows)
          × (db'.artifacts ≡ db.artifacts)
          × IsPlaced id db.members next rows
          × (map (λ (m : CollectionArtifact). m.artifact_id) rows ≡ fresh)
          × All (IsBefore id next) db.members)
unfolding add
add-appends id artifact_ids now db =
    let known = keep_if (λ a. has a db.artifacts) artifact_ids in
    let fresh = keep_if (λ a. not (any (is_row id a) db.members)) known in
    let next = next_position id db.members in
    let rows = new_rows id db.members now next known in
    let placed = new_rows-IsPlaced id db.members now next known in
    let ids : ids_of rows ≡ fresh = new_rows-ids id db.members now next known in
    let many : length rows ≡ length fresh =
      sym (length-map (λ (m : CollectionArtifact). m.artifact_id) rows) ∙ ap length ids in
    let free = IsPlaced-new id db.members next rows placed in
    let flushed : insert_rows rows db.members
        ≡ (if has_repeat fresh then none else some (db.members ++ rows)) =
      insert_rows_iff id rows db.members (IsPlaced-own id db.members next rows placed)
      ∙ ap (λ b. if b || has_repeat (ids_of rows) then none else some (db.members ++ rows)) free
      ∙ ap (λ l. if has_repeat l then none else some (db.members ++ rows)) ids in
    elim (Bool-cases (has_repeat fresh)) [
      | inl twice ↦ inl (
        twice,
        ap (added id (length rows) now db)
            (flushed ∙ ap (λ b. if b then none else some (db.members ++ rows)) twice),
      )
      | inr once ↦ inr (
        once,
        rows,
        record db {
          members = db.members ++ rows;
          collections = touched (ltb 0 (length rows)) id now db.collections;
        },
        ap (added id (length rows) now db)
              (flushed ∙ ap (λ b. if b then none else some (db.members ++ rows)) once)
            ∙ ap
                (λ n. some (
                  n,
                  record db {
                    members = db.members ++ rows;
                    collections = touched (ltb 0 (length rows)) id now db.collections;
                  },
                ))
                many,
        refl,
        refl,
        placed,
        ids,
        IsBefore-highest id (highest id db.members) db.members (omega arith),
      )
    ]

any-is_row-removed :
    (id a j b : String) (ms : List CollectionArtifact)
    → any (is_row j b) (keep_if (λ m. not (is_row id a m)) ms)
      ≡ (if id == j && a == b then false else any (is_row j b) ms)
any-is_row-removed id a j b [] = ground arith
any-is_row-removed id a j b (m ∷ ms) = ground (
  arith,
  any-is_row-removed id a j b ms,
  string_eq.beq_iff m.collection_id id,
  string_eq.beq_iff m.collection_id j,
  string_eq.beq_iff m.artifact_id a,
  string_eq.beq_iff m.artifact_id b,
  string_eq.beq_iff id j,
  string_eq.beq_iff a b,
)

-- `remove` answers whether the artifact was a member; afterwards it is none, every other membership, of
-- this collection or of another, is as it was, and no artifact is deleted.
pub remove-members :
    (id a j b : String) (now : ℕ) (db : Tables)
    → ((remove id a now db).0 ≡ any (is_row id a) db.members)
      × (any (is_row j b) (remove id a now db).1.members
          ≡ (if id == j && a == b then false else any (is_row j b) db.members))
      × ((remove id a now db).1.artifacts ≡ db.artifacts)
unfolding remove
remove-members id a j b now db = (refl, any-is_row-removed id a j b db.members, refl)
