-- ===== src/Bookmarks.antt =====
-- gateway/domain/bookmark_store.py: the stars of artifacts in scopes. The table `artifact_bookmarks` is
-- a dictionary by its primary key; the time is an argument.
pub mod Starred
mod Tests
use astation.Prelude.{
  ℕ, String, Bool, true, false, Option, none, some, List, [], ◌∷◌, map, if◌then◌else◌, ◌&&◌, ◌||◌,
  any, keep_if, ltb, leb, eqb, is_some,
}
use astation.Prelude.Eq.{Eq, ◌==◌, string_eq, pair_eq}
use astation.Prelude.Dict.{Dict, lookup, insert, erase}
use astation.Prelude.Sort.{sort_by}
use astation.Json.{str_leb}

-- an artifact and a scope
abbrev pub BookmarkKey : Type 0
BookmarkKey = String × String

-- `ArtifactBookmark`
abbrev pub Bookmarks : Type 0
Bookmarks = Dict BookmarkKey ℕ

abbrev pub unfiled_scope : String
unfiled_scope = ""

-- `scope_of`
abbrev pub scope_of : Option String → String
scope_of none = unfiled_scope
scope_of (some project_id) = project_id

-- `set_bookmark`
unfoldable pub set_bookmark :
    (now : ℕ) (artifact_id scope : String) → Bool → Bookmarks → Option ℕ × Bookmarks
set_bookmark now artifact_id scope starred db =
    if starred
    then (some now, insert (artifact_id, scope) now db)
    else (none, erase (artifact_id, scope) db)

-- `is_bookmarked`
abbrev pub is_bookmarked : (artifact_id scope : String) → Bookmarks → Bool
is_bookmarked artifact_id scope db = is_some (lookup (artifact_id, scope) db)

abbrev pub is_in_scope : Option String → BookmarkKey × ℕ → Bool
is_in_scope none x = true
is_in_scope (some scope) x = x.0.1 == scope

abbrev pub is_newer : ℕ → Option ℕ → Bool
is_newer at none = true
is_newer at (some old) = ltb old at

-- the loop that keeps the newest star of each artifact
unfoldable pub newest_from : Bookmarks → Dict String ℕ → Dict String ℕ
newest_from [] newest = newest
newest_from (x ∷ db) newest =
    newest_from db (if is_newer x.1 (lookup x.0.0 newest) then insert x.0.0 x.1 newest else newest)

-- `starred_at`
unfoldable pub starred_at :
    (artifact_ids : List String) → (scope : Option String) → Bookmarks → Dict String ℕ
unfolding newest_from
starred_at artifact_ids scope db =
    newest_from
      (keep_if
        (λ (x : BookmarkKey × ℕ). any (λ id. id == x.0.0) artifact_ids && is_in_scope scope x) db)
      []

abbrev pub newer_first : String × ℕ → String × ℕ → Bool
newer_first a b = ltb b.1 a.1 || (eqb a.1 b.1 && str_leb a.0 b.0)

-- `scoped_ids`
unfoldable pub scoped_ids : (scope : Option String) → Bookmarks → List String
unfolding newest_from
scoped_ids scope db =
    map (λ (x : String × ℕ). x.0)
      (sort_by newer_first (newest_from (keep_if (is_in_scope scope) db) []))

abbrev pub project_of : String → Option String
project_of scope = if scope == "" then none else some scope

abbrev pub later_star : BookmarkKey × ℕ → BookmarkKey × ℕ → Bool
later_star a b = leb b.1 a.1

-- `scopes_of`, before the time is written as a text
unfoldable pub scopes_of : String → Bookmarks → List (Option String × ℕ)
scopes_of artifact_id db =
    map (λ (x : BookmarkKey × ℕ). (project_of x.0.1, x.1))
      (sort_by later_star (keep_if (λ (x : BookmarkKey × ℕ). x.0.0 == artifact_id) db))
