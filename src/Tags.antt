-- ===== src/Tags.antt =====
-- gateway/domain/tags.py and gateway/domain/tag_store.py: the names of tags, and who carries which.
-- The tables are lists of rows; one table of carriers stands for both join tables, with the kind of
-- the owner in the row. A fresh id and what `re.sub`, `strip` and `lower` make of a text are arguments.
pub mod Carried
pub mod Merged
mod Tests
use Prim.Native.String.{count}
use astation.Prelude.{
  ℕ, String, Bool, true, false, Option, none, some, List, [], ◌∷◌, ◌++◌, map, if◌then◌else◌, not,
  ◌&&◌, ◌||◌, keep_if, any, ltb, length, find_first, is_some,
}
use astation.Prelude.Eq.{◌==◌, string_eq, option_eq}

abbrev pub max_tag_chars : ℕ
max_tag_chars = 32

abbrev pub first_chars : String
first_chars = "abcdefghijklmnopqrstuvwxyz0123456789"

abbrev pub other_chars : String
other_chars = "abcdefghijklmnopqrstuvwxyz0123456789 _-"

-- The text of one character is in the other text.
unfoldable pub has_char : String → String → Bool
has_char c String.[] = false
has_char c (String.◌∷◌ d s) = String.◌∷◌ d String.[] == c || has_char c s

unfoldable pub all_chars : String → String → Bool
unfolding has_char
all_chars allowed String.[] = true
all_chars allowed (String.◌∷◌ c s) =
    has_char (String.◌∷◌ c String.[]) allowed && all_chars allowed s

-- `TAG_PATTERN.match`
unfoldable pub is_tag : String → Bool
unfolding all_chars
is_tag String.[] = false
is_tag (String.◌∷◌ c s) = has_char (String.◌∷◌ c String.[]) first_chars && all_chars other_chars s

-- `normalize_tag_name` of a text; `canonical` is `_WHITESPACE.sub(" ", raw).strip().lower()`, and
-- `none` is `TagNameError`
unfoldable pub normalize_tag_name : (String → String) → String → Option String
normalize_tag_name canonical raw =
    if canonical raw == ""
    then none
    else if ltb max_tag_chars (count (canonical raw))
    then none
    else if is_tag (canonical raw)
    then some (canonical raw)
    else none

-- the loop of `normalize_tag_names`; `seen` has the elements of `out`
unfoldable pub normalize_from : (String → String) → List String → List String → Option (List String)
normalize_from canonical out [] = some out
normalize_from canonical out (name ∷ names) = elim (normalize_tag_name canonical name) [
  | none ↦ none
  | some t ↦ normalize_from canonical (if any (λ s. s == t) out then out else out ++ t ∷ []) names
]

-- `normalize_tag_names`; `None` is the empty list
unfoldable pub normalize_tag_names : (String → String) → List String → Option (List String)
unfolding normalize_from
normalize_tag_names canonical raw = normalize_from canonical [] raw

pub data Owner : Type 0 where
  artifact project : Owner

abbrev pub same_owner : Owner → Owner → Bool
same_owner artifact artifact = true
same_owner project project = true
same_owner _ _ = false

pub record Tag : Type 0 where
  pub id : String
  pub name : String

-- a row of `artifact_tags` or of `project_tags`
pub record Carrier : Type 0 where
  pub kind : Owner
  pub owner_id : String
  pub tag_id : String

pub record TagTables : Type 0 where
  pub tags : List Tag
  pub carriers : List Carrier

abbrev pub by_name : String → List Tag → Option Tag
by_name name tags = find_first (λ (t : Tag). t.name == name) tags

abbrev pub is_carrier : Owner → String → String → Carrier → Bool
is_carrier kind owner_id tag_id c =
    same_owner c.kind kind && (c.owner_id == owner_id && c.tag_id == tag_id)

abbrev pub found_or_new : String → String → TagTables → Option Tag → Tag × TagTables
found_or_new id name db (some tag) = (tag, db)
found_or_new id name db none =
    let tag : Tag = record { id = id; name = name } in
    (tag, record db { tags = db.tags ++ tag ∷ [] })

-- `get_or_create` of a normalized name
unfoldable pub get_or_create : (id name : String) → TagTables → Tag × TagTables
get_or_create id name db = found_or_new id name db (by_name name db.tags)

abbrev pub attach_tag : Owner → String → Tag × TagTables → Bool × TagTables
attach_tag kind owner_id (tag, db) =
    if any (is_carrier kind owner_id tag.id) db.carriers then (false, db) else (
      true,
      record db {
        carriers = db.carriers ++ record { kind = kind; owner_id = owner_id; tag_id = tag.id } ∷ [];
      },
    )

abbrev pub attach_named :
    String → Owner → String → TagTables → Option String → Option (Bool × TagTables)
attach_named id kind owner_id db none = none
attach_named id kind owner_id db (some name) =
    some (attach_tag kind owner_id (get_or_create id name db))

-- `attach`; `none` is `TagNameError`
unfoldable pub attach :
    (String → String)
    → (id : String) → Owner
    → (owner_id name : String) → TagTables
    → Option (Bool × TagTables)
unfolding get_or_create
attach canonical id kind owner_id name db =
    attach_named id kind owner_id db (normalize_tag_name canonical name)

abbrev pub detach_tag : Owner → String → TagTables → Option Tag → Bool × TagTables
detach_tag kind owner_id db none = (false, db)
detach_tag kind owner_id db (some tag) = (
  any (is_carrier kind owner_id tag.id) db.carriers,
  record db { carriers = keep_if (λ c. not (is_carrier kind owner_id tag.id c)) db.carriers },
)

abbrev pub detach_named : Owner → String → TagTables → Option String → Option (Bool × TagTables)
detach_named kind owner_id db none = none
detach_named kind owner_id db (some name) =
    some (detach_tag kind owner_id db (by_name name db.tags))

-- `detach`
unfoldable pub detach :
    (String → String) → Owner → (owner_id name : String) → TagTables → Option (Bool × TagTables)
detach canonical kind owner_id name db =
    detach_named kind owner_id db (normalize_tag_name canonical name)

-- `delete_tag`: whether it was there, and how many owners lost it
unfoldable pub delete_tag : String → TagTables → (Bool × ℕ) × TagTables
delete_tag tag_id db =
    if any (λ (t : Tag). t.id == tag_id) db.tags
    then (
      (true, length (keep_if (λ (c : Carrier). c.tag_id == tag_id) db.carriers)),
      record {
        tags = keep_if (λ (t : Tag). not (t.id == tag_id)) db.tags;
        carriers = keep_if (λ (c : Carrier). not (c.tag_id == tag_id)) db.carriers;
      },
    )
    else ((false, 0), db)

-- the loops of `apply_bulk` over the names, for one owner: whether it has changed; a fresh id for each
-- name that is added
unfoldable pub add_all :
    (String → String)
    → List (String × String)
    → Owner
    → String
    → Bool × TagTables
    → Option (Bool × TagTables)
unfolding attach
add_all canonical [] kind owner_id (changed, db) = some (changed, db)
add_all canonical (x ∷ names) kind owner_id (changed, db) =
    elim (attach canonical x.0 kind owner_id x.1 db) [
      | none ↦ none
      | some r ↦ add_all canonical names kind owner_id (changed || r.0, r.1)
    ]

unfoldable pub remove_all :
    (String → String) → List String → Owner → String → Bool × TagTables → Option (Bool × TagTables)
unfolding detach
remove_all canonical [] kind owner_id (changed, db) = some (changed, db)
remove_all canonical (name ∷ names) kind owner_id (changed, db) =
    elim (detach canonical kind owner_id name db) [
      | none ↦ none
      | some r ↦ remove_all canonical names kind owner_id (changed || r.0, r.1)
    ]

-- `tag.name = normalized`
abbrev pub with_name : String → String → List Tag → List Tag
with_name id name [] = []
with_name id name (t ∷ tags) =
    (if t.id == id then record { id = id; name = name } else t) ∷ with_name id name tags

-- the new rows of one join table in `rename`
abbrev pub moved : Owner → Tag → Tag → List Carrier → List Carrier → List Carrier
moved kind tag target all [] = []
moved kind tag target all (c ∷ cs) =
    if (same_owner c.kind kind && c.tag_id == tag.id)
      && not (any (is_carrier kind c.owner_id target.id) all)
    then record { kind = kind; owner_id = c.owner_id; tag_id = target.id }
      ∷ moved kind tag target all cs
    else moved kind tag target all cs

-- the merge of a tag into the one that has its new name
unfoldable pub merge : Tag → Tag → TagTables → TagTables
merge tag target db = record {
  tags = keep_if (λ (t : Tag). not (t.id == tag.id)) db.tags;
  carriers =
      keep_if (λ (c : Carrier). not (c.tag_id == tag.id))
        (db.carriers
          ++ (moved artifact tag target db.carriers db.carriers
              ++ moved project tag target db.carriers db.carriers));
}

abbrev pub rename_to : Tag → String → TagTables → Option Tag → Option Tag × TagTables
rename_to tag name db none =
    (some (record { id = tag.id; name = name }), record db { tags = with_name tag.id name db.tags })
rename_to tag name db (some target) = (some target, merge tag target db)

abbrev pub rename_tag :
    (String → String) → String → TagTables → Tag → Option (Option Tag × TagTables)
rename_tag canonical raw db tag = elim (normalize_tag_name canonical raw) [
  | none ↦ none
  | some name ↦
      some
        (if name == tag.name then (some tag, db) else rename_to tag name db (by_name name db.tags))
]

-- `rename`; the outer `none` is `TagNameError`
unfoldable pub rename :
    (String → String) → (tag_id name : String) → TagTables → Option (Option Tag × TagTables)
unfolding merge
rename canonical tag_id name db = elim (find_first (λ (t : Tag). t.id == tag_id) db.tags) [
  | none ↦ some (none, db)
  | some tag ↦ rename_tag canonical name db tag
]

abbrev pub with_changed : Bool → String → List String → List String
with_changed changed owner_id ids =
    if changed && not (any (λ id. id == owner_id) ids) then owner_id ∷ ids else ids

abbrev pub change_owner :
    (String → String)
    → Owner
    → (add : List (String × String)) → (remove : List String) → String
    → TagTables
    → Option (Bool × TagTables)
change_owner canonical kind add remove owner_id db =
    elim (add_all canonical add kind owner_id (false, db)) [
      | none ↦ none
      | some r ↦ remove_all canonical remove kind owner_id r
    ]

-- the loop of `apply_bulk` over the owners, with the owners that have changed
unfoldable pub bulk_from :
    (String → String)
    → Owner
    → (owner_ids : List String) → (add : List (String × String)) → (remove : List String)
    → List String × TagTables
    → Option (List String × TagTables)
unfolding add_all remove_all
bulk_from canonical kind [] add remove (ids, db) = some (ids, db)
bulk_from canonical kind (owner_id ∷ owner_ids) add remove (ids, db) =
    elim (change_owner canonical kind add remove owner_id db) [
      | none ↦ none
      | some r ↦ bulk_from canonical kind owner_ids add remove (with_changed r.0 owner_id ids, r.1)
    ]

-- `apply_bulk`: how many owners have changed
unfoldable pub apply_bulk :
    (String → String)
    → Owner
    → (owner_ids : List String) → (add : List (String × String)) → (remove : List String)
    → TagTables
    → Option (ℕ × TagTables)
unfolding bulk_from
apply_bulk canonical kind owner_ids add remove db =
    elim (bulk_from canonical kind owner_ids add remove ([], db)) [
      | none ↦ none
      | some r ↦ some (length r.0, r.1)
    ]
