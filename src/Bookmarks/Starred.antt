-- ===== src/Bookmarks/Starred.antt =====
-- The list of a scope has exactly the artifacts that are starred in it.
use astation.Prelude.{
  ℕ, ◌≡◌, refl, ap, ◌∙◌, String, Bool, true, false, some, List, [], ◌∷◌, map, if◌then◌else◌, ◌&&◌,
  ◌||◌, any, keep_if, is_some, arith, Bool-cases, inl, inr,
}
use astation.Prelude.Eq.{◌==◌, string_eq, pair_eq}
use astation.Prelude.Dict.{Dict, lookup, insert, erase, HasUniqueKeys, lookup-insert, lookup-erase}
use astation.Prelude.Sort.{sort_by, any-sort_by}
use astation.Bookmarks.{
  BookmarkKey, Bookmarks, set_bookmark, is_bookmarked, is_in_scope, is_newer, newest_from,
  newer_first, scoped_ids,
}

-- The artifact has an entry.
abbrev is_listed : String → Dict String ℕ → Bool
is_listed id newest = any (λ (x : String × ℕ). x.0 == id) newest

is_listed-insert :
    (id key : String) (at : ℕ) (newest : Dict String ℕ)
    → is_listed id (insert key at newest) ≡ (key == id) || is_listed id newest
is_listed-insert id key at [] = refl
is_listed-insert id key at (x ∷ newest) = ground (
  arith,
  string_eq.beq_iff x.0 key,
  string_eq.beq_iff x.0 id,
  string_eq.beq_iff key id,
  is_listed-insert id key at newest,
)

-- An entry that is not replaced is there.
is_listed-lookup :
    (id key : String) (at : ℕ) (newest : Dict String ℕ)
    → is_newer at (lookup key newest) ≡ false
    → is_listed id newest ≡ (key == id) || is_listed id newest
is_listed-lookup id key at [] h = cc
is_listed-lookup id key at (x ∷ newest) h = ground (
  arith,
  string_eq.beq_iff x.0 key,
  string_eq.beq_iff x.0 id,
  string_eq.beq_iff key id,
  is_listed-lookup id key at newest,
)

is_listed-newest_from :
    (id : String) (db : Bookmarks) (newest : Dict String ℕ)
    → is_listed id (newest_from db newest)
      ≡ any (λ (x : BookmarkKey × ℕ). x.0.0 == id) db || is_listed id newest
unfolding newest_from
is_listed-newest_from id [] newest = refl
is_listed-newest_from id (x ∷ db) newest =
    is_listed-newest_from id db
      (if is_newer x.1 (lookup x.0.0 newest) then insert x.0.0 x.1 newest else newest)
    ∙ ap (λ b. any (λ (y : BookmarkKey × ℕ). y.0.0 == id) db || b) step
    ∙ swap (any (λ (y : BookmarkKey × ℕ). y.0.0 == id) db) (x.0.0 == id) (is_listed id newest)
  where
    step :
        is_listed id
          (if is_newer x.1 (lookup x.0.0 newest) then insert x.0.0 x.1 newest else newest)
        ≡ (x.0.0 == id) || is_listed id newest
    step = elim (Bool-cases (is_newer x.1 (lookup x.0.0 newest))) [
      | inl newer ↦ rw newer (is_listed-insert id x.0.0 x.1 newest)
      | inr older ↦ rw older (is_listed-lookup id x.0.0 x.1 newest older)
    ]

    swap : (a b c : Bool) → a || (b || c) ≡ (b || a) || c
    swap a b c = ground arith

any-map_id :
    (id : String) (l : List (String × ℕ))
    → any (λ i. i == id) (map (λ (x : String × ℕ). x.0) l) ≡ is_listed id l
any-map_id id [] = refl
any-map_id id (x ∷ l) = ap (λ b. (x.0 == id) || b) (any-map_id id l)

any-scope :
    (id scope : String) (db : Bookmarks)
    → any (λ (x : BookmarkKey × ℕ). x.0.0 == id) (keep_if (is_in_scope (some scope)) db)
      ≡ is_bookmarked id scope db
any-scope id scope [] = refl
any-scope id scope (x ∷ db) = ground (arith, any-scope id scope db)

or_false : (a : Bool) → a || false ≡ a
or_false true = refl
or_false false = refl

scoped_ids-is_bookmarked :
    (id scope : String) (db : Bookmarks)
    → any (λ i. i == id) (scoped_ids (some scope) db) ≡ is_bookmarked id scope db
unfolding scoped_ids
scoped_ids-is_bookmarked id scope db =
    let kept = keep_if (is_in_scope (some scope)) db in
    any-map_id id (sort_by newer_first (newest_from kept []))
    ∙ any-sort_by (λ (x : String × ℕ). x.0 == id) newer_first (newest_from kept [])
    ∙ is_listed-newest_from id kept []
    ∙ or_false (any (λ (x : BookmarkKey × ℕ). x.0.0 == id) kept)
    ∙ any-scope id scope db

-- After a star is set or taken off, where no key stands twice, the list of a scope has an artifact
-- exactly if this is the artifact and the scope of the call and the star was set, or it is another one
-- and was starred there before.
pub scoped_ids-set_bookmark :
    (now : ℕ) (artifact_id scope : String) (starred : Bool) (id in_scope : String) (db : Bookmarks)
    → HasUniqueKeys db
    → any
        (λ i. i == id)
        (scoped_ids (some in_scope) (set_bookmark now artifact_id scope starred db).1)
      ≡ (if artifact_id == id && scope == in_scope then starred else is_bookmarked id in_scope db)
unfolding set_bookmark
scoped_ids-set_bookmark now artifact_id scope true id in_scope db u =
    scoped_ids-is_bookmarked id in_scope (insert (artifact_id, scope) now db)
    ∙ ap is_some (lookup-insert (artifact_id, scope) (id, in_scope) now db)
    ∙ ground arith
scoped_ids-set_bookmark now artifact_id scope false id in_scope db u =
    scoped_ids-is_bookmarked id in_scope (erase (artifact_id, scope) db)
    ∙ ap is_some (lookup-erase (artifact_id, scope) (id, in_scope) db u)
    ∙ ground arith
