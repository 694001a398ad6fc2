-- ===== src/Collections.antt =====
-- gateway/domain/collection_store.py: the tables `collections` and `collection_artifacts` as lists of
-- their rows, and the ids of the table of artifacts. Times are numbers; a fresh id, the time, and
-- Python's `str.split` and `str.strip` are arguments.
pub mod Order
pub mod Reorder
mod Tests
use Prim.Native.String.{count}
use astation.Prelude.{
  ℕ, suc, String, Bool, true, false, Option, none, some, List, [], ◌∷◌, ◌++◌, map, if◌then◌else◌,
  not, ◌&&◌, ◌||◌, keep_if, any, ltb, leb, eqb, length, find_first,
}
use astation.Prelude.Eq.{◌==◌, string_eq}
use astation.Prelude.Dict.{Dict, insert}
use astation.Prelude.Sort.{sort_by}

pub record Collection : Type 0 where
  pub id : String
  pub name : String
  pub description : Option String
  pub created_at : ℕ
  pub updated_at : ℕ

pub record CollectionArtifact : Type 0 where
  pub collection_id : String
  pub artifact_id : String
  pub position : ℕ
  pub added_at : ℕ

pub record Tables : Type 0 where
  pub collections : List Collection
  pub members : List CollectionArtifact
  pub artifacts : List String

abbrev pub max_collection_name_chars : ℕ
max_collection_name_chars = 64

-- `normalize_collection_name` of a text; `collapse s` is `" ".join(s.split())`, and `none` is
-- `CollectionNameError`
unfoldable pub normalize_collection_name : (String → String) → String → Option String
normalize_collection_name collapse raw =
    if collapse raw == ""
    then none
    else if ltb max_collection_name_chars (count (collapse raw))
    then none
    else some (collapse raw)

-- `(description or "").strip() or None`
abbrev pub stripped : (String → String) → Option String → Option String
stripped strip none = none
stripped strip (some s) = if strip s == "" then none else some (strip s)

abbrev pub created_or_found :
    (id name : String) (description : Option String) (now : ℕ)
    → Tables
    → Option Collection
    → Collection × Tables
created_or_found id name description now db (some existing) = (existing, db)
created_or_found id name description now db none =
    let c : Collection = record {
      id = id;
      name = name;
      description = description;
      created_at = now;
      updated_at = now;
    } in
    (c, record db { collections = db.collections ++ c ∷ [] })

abbrev pub create_named :
    (id : String) (description : Option String) (now : ℕ)
    → Tables
    → Option String
    → Option (Collection × Tables)
create_named id description now db none = none
create_named id description now db (some name) = some (
    created_or_found id name description now db
      (find_first (λ (c : Collection). c.name == name) db.collections))

-- `create`
unfoldable pub create :
    (collapse strip : String → String) (id name : String) (description : Option String) (now : ℕ)
    → Tables
    → Option (Collection × Tables)
create collapse strip id name description now db =
    create_named id (stripped strip description) now db (normalize_collection_name collapse name)

abbrev pub is_of : String → CollectionArtifact → Bool
is_of id m = m.collection_id == id

abbrev pub is_row : String → String → CollectionArtifact → Bool
is_row id artifact_id m = m.collection_id == id && m.artifact_id == artifact_id

abbrev pub has : String → List String → Bool
has s l = any (λ t. t == s) l

-- `func.max(CollectionArtifact.position) or 0`
unfoldable pub highest : String → List CollectionArtifact → ℕ
highest id [] = 0
highest id (m ∷ ms) =
    let rest = highest id ms in
    if is_of id m then (if ltb rest m.position then m.position else rest) else rest

-- `_next_position`
abbrev pub next_position : String → List CollectionArtifact → ℕ
next_position id ms = suc (highest id ms)

-- the loop of `add`
unfoldable pub new_rows :
    String → List CollectionArtifact → ℕ → ℕ → List String → List CollectionArtifact
new_rows id present now position [] = []
new_rows id present now position (a ∷ ids) =
    let skipped = new_rows id present now position ids in
    let more = new_rows id present now (suc position) ids in
    if any (is_row id a) present
    then skipped
    else record { collection_id = id; artifact_id = a; position = position; added_at = now } ∷ more

abbrev pub touch : String → ℕ → List Collection → List Collection
touch id now cs =
    map (λ (c : Collection). if c.id == id then record c { updated_at = now } else c) cs

-- `updated_at` is set only if something was done
abbrev pub touched : Bool → String → ℕ → List Collection → List Collection
touched true id now cs = touch id now cs
touched false id now cs = cs

-- The rows in the table, one after the other; `none` is the `IntegrityError` of a row whose primary key
-- (collection_id, artifact_id) the table has.
unfoldable pub insert_rows :
    List CollectionArtifact → List CollectionArtifact → Option (List CollectionArtifact)
insert_rows [] ms = some ms
insert_rows (m ∷ rows) ms =
    let rest = insert_rows rows (ms ++ m ∷ []) in
    if any (is_row m.collection_id m.artifact_id) ms then none else rest

abbrev pub added : String → ℕ → ℕ → Tables → Option (List CollectionArtifact) → Option (ℕ × Tables)
added id n now db none = none
added id n now db (some ms) =
    some (n, record db { members = ms; collections = touched (ltb 0 n) id now db.collections })

-- `add` with the flush of its rows: how many were added; where the flush fails, nothing is committed
unfoldable pub add : String → List String → ℕ → Tables → Option (ℕ × Tables)
add id artifact_ids now db =
    let ordered = keep_if (λ a. has a db.artifacts) artifact_ids in
    let rows = new_rows id db.members now (next_position id db.members) ordered in
    added id (length rows) now db (insert_rows rows db.members)

-- `remove`
unfoldable pub remove : String → String → ℕ → Tables → Bool × Tables
remove id artifact_id now db =
    let found = any (is_row id artifact_id) db.members in
    (
      found,
      record db {
        members = keep_if (λ m. not (is_row id artifact_id m)) db.members;
        collections = touched found id now db.collections;
      },
    )

abbrev pub in_order : CollectionArtifact → CollectionArtifact → Bool
in_order a b = ltb a.position b.position || (eqb a.position b.position && leb a.added_at b.added_at)

-- `member_ids`
unfoldable pub member_ids : String → List CollectionArtifact → List String
unfolding sort_by
member_ids id ms =
    map (λ (m : CollectionArtifact). m.artifact_id) (sort_by in_order (keep_if (is_of id) ms))

abbrev pub all_in : List String → List String → Bool
all_in [] l = true
all_in (s ∷ xs) l = has s l && all_in xs l

-- The ids are exactly the members, each once.
abbrev pub is_membership : List String → List String → Bool
is_membership ids current =
    all_in ids current && all_in current ids && eqb (length ids) (length current)

abbrev pub place : String → String → ℕ → CollectionArtifact → CollectionArtifact
place id a position m = if is_row id a m then record m { position = position } else m

-- the loop of `reorder` over `enumerate(artifact_ids, start=1)`
unfoldable pub place_all :
    String → ℕ → List String → List CollectionArtifact → List CollectionArtifact
place_all id position [] ms = ms
place_all id position (a ∷ ids) ms = place_all id (suc position) ids (map (place id a position) ms)

-- `reorder`; the table's key makes the members of a collection distinct
unfoldable pub reorder : String → List String → ℕ → Tables → Bool × Tables
unfolding member_ids place_all
reorder id artifact_ids now db =
    if is_membership artifact_ids (member_ids id db.members)
    then (
      true,
      record db {
        members = place_all id 1 artifact_ids db.members;
        collections = touch id now db.collections;
      },
    )
    else (false, db)

-- `delete_collection`
unfoldable pub delete_collection : String → Tables → (Bool × ℕ) × Tables
delete_collection id db =
    if any (λ (c : Collection). c.id == id) db.collections
    then (
      (true, length (keep_if (is_of id) db.members)),
      record db {
        members = keep_if (λ m. not (is_of id m)) db.members;
        collections = keep_if (λ (c : Collection). not (c.id == id)) db.collections;
      },
    )
    else ((false, 0), db)

abbrev pub counted : String → ℕ → Dict String ℕ → Dict String ℕ
counted id n d = if eqb n 0 then d else insert id n d

-- `_counts`: a collection without members has no entry
unfoldable pub counts_of : List CollectionArtifact → List String → Dict String ℕ
counts_of ms [] = []
counts_of ms (id ∷ ids) = counted id (length (keep_if (is_of id) ms)) (counts_of ms ids)
