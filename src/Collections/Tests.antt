-- ===== src/Collections/Tests.antt =====
-- A collection with one member.
use astation.Prelude.{
  String, ◌≡◌, refl, Bool, true, false, none, some, List, [], ◌∷◌, ◌++◌, map, keep_if, not, any,
  All, length, ◌⊎◌,
}
use astation.Prelude.Eq.{string_eq}
use astation.Collections.{
  CollectionArtifact, Tables, has, is_row, next_position, new_rows, highest, insert_rows, add,
  reorder,
}
use astation.Collections.Order.{has_repeat, IsPlaced, IsBefore, add-appends}
use astation.Collections.Reorder.{IsWholeOrder, IsAt, reorder-IsAt}

abbrev tables : Tables
tables = record {
  collections =
      record { id = "c1"; name = "n"; description = none; created_at = 1; updated_at = 1 } ∷ [];
  members = record { collection_id = "c1"; artifact_id = "a1"; position = 4; added_at = 1 } ∷ [];
  artifacts = "a1" ∷ "a2" ∷ [];
}

abbrev given : List String
given = "a2" ∷ "a1" ∷ "missing" ∷ []

abbrev known : List String
known = keep_if (λ a. has a tables.artifacts) given

abbrev fresh : List String
fresh = keep_if (λ a. not (any (is_row "c1" a) tables.members)) known

add-appends_example :
    ((has_repeat fresh ≡ true) × (add "c1" given 9 tables ≡ none))
    ⊎ ((has_repeat fresh ≡ false)
        × (rows : List CollectionArtifact) × (db' : Tables) × (add "c1" given 9 tables
            ≡ some (length fresh, db'))
        × (db'.members ≡ tables.members ++ rows)
        × (db'.artifacts ≡ tables.artifacts)
        × IsPlaced "c1" tables.members (next_position "c1" tables.members) rows
        × (map (λ (m : CollectionArtifact). m.artifact_id) rows ≡ fresh)
        × All (IsBefore "c1" (next_position "c1" tables.members)) tables.members)
add-appends_example = add-appends "c1" given 9 tables

-- An id that is new and given twice makes the call fail.
add_repeated : add "c1" ("a2" ∷ "a2" ∷ []) 9 tables ≡ none
unfolding add new_rows insert_rows highest
add_repeated = refl

abbrev c1 : String
c1 = "c1"

abbrev a1 : String
a1 = "a1"

abbrev reordered : Bool × Tables
reordered = reorder c1 (a1 ∷ []) 9 tables

reorder-IsAt_example :
    ((¬ IsWholeOrder c1 (a1 ∷ []) tables.members) × (reordered.0 ≡ false) × (reordered.1 ≡ tables))
    ⊎ (IsWholeOrder c1 (a1 ∷ []) tables.members
        × (reordered.0 ≡ true)
        × All (IsAt c1 a1 1) reordered.1.members)
reorder-IsAt_example = reorder-IsAt c1 a1 [] [] 9 tables refl
