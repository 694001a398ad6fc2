-- ===== src/Bookmarks/Tests.antt =====
-- Two artifacts in two scopes.
use astation.Prelude.{◌≡◌, refl, String, false, some, none, [], ◌∷◌, any, if◌then◌else◌, ◌&&◌}
use astation.Prelude.Eq.{◌==◌, string_eq}
use astation.Prelude.Sort.{sort_by}
use astation.Bookmarks.{
  Bookmarks, set_bookmark, is_bookmarked, scoped_ids, scopes_of, starred_at, newest_from,
}
use astation.Bookmarks.Starred.{scoped_ids-set_bookmark}

abbrev a2 : String
a2 = "a2"

abbrev p1 : String
p1 = "p1"

abbrev stars : Bookmarks
stars = (("a1", "p1"), 3) ∷ (("a2", "p1"), 5) ∷ (("a1", ""), 7) ∷ []

scoped_ids-set_bookmark_example :
    any (λ i. i == "a2") (scoped_ids (some "p1") (set_bookmark 9 "a2" "p1" false stars).1)
    ≡ (if a2 == a2 && p1 == p1 then false else is_bookmarked "a2" "p1" stars)
scoped_ids-set_bookmark_example =
    scoped_ids-set_bookmark 9 "a2" "p1" false "a2" "p1" stars (refl, (refl, (refl, tt)))

newest_everywhere : scoped_ids none stars ≡ "a1" ∷ "a2" ∷ []
unfolding scoped_ids newest_from sort_by
newest_everywhere = refl

newest_in_project : scoped_ids (some "p1") stars ≡ "a2" ∷ "a1" ∷ []
unfolding scoped_ids newest_from sort_by
newest_in_project = refl

both_scopes : scopes_of "a1" stars ≡ (none, 7) ∷ (some "p1", 3) ∷ []
unfolding scopes_of sort_by
both_scopes = refl

newest_star : starred_at ("a1" ∷ []) none stars ≡ ("a1", 7) ∷ []
unfolding starred_at newest_from
newest_star = refl
