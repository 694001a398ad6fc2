-- ===== src/Tags/Tests.antt =====
-- One artifact and one tag.
use astation.Prelude.{String, ◌≡◌, refl, true, false, some, [], ◌∷◌, any, ◌||◌}
use astation.Prelude.Eq.{◌==◌, string_eq}
use astation.Tags.{
  Owner, Tag, TagTables, normalize_tag_name, attach, detach, is_tag, rename, merge, apply_bulk,
  bulk_from, add_all, remove_all,
}
use astation.Tags.Merged.{has_tag, merge-has_tag}
use astation.Tags.Carried.{carries, attach-carries}

abbrev empty : TagTables
empty = record { tags = []; carriers = [] }

abbrev tagged : TagTables
tagged = record {
  tags = record { id = "tag_1"; name = "ml" } ∷ [];
  carriers = record { kind = Owner.artifact; owner_id = "a1"; tag_id = "tag_1" } ∷ [];
}

abbrev untagged : TagTables
untagged = record tagged { carriers = [] }

abbrev canonical : String → String
canonical s = s

name_is_valid : normalize_tag_name canonical "ml" ≡ some "ml"
unfolding normalize_tag_name is_tag
name_is_valid = refl

attached : attach canonical "tag_1" Owner.artifact "a1" "ml" empty ≡ some (true, tagged)
unfolding attach normalize_tag_name is_tag
attached = refl

attach-carries_example : carries Owner.artifact "a1" "ml" tagged ≡ true
attach-carries_example =
    attach-carries canonical "tag_1" Owner.artifact "a1" "ml" "ml" empty tagged true name_is_valid
      attached

detached : detach canonical Owner.artifact "a1" "ml" tagged ≡ some (true, untagged)
unfolding detach normalize_tag_name is_tag
detached = refl

-- One project carries the tag that is merged, and an artifact the other.
abbrev two_tags : TagTables
two_tags = record {
  tags = record { id = "tag_1"; name = "ml" } ∷ record { id = "tag_2"; name = "ai" } ∷ [];
  carriers =
      record { kind = Owner.project; owner_id = "p1"; tag_id = "tag_1" }
      ∷ record { kind = Owner.artifact; owner_id = "a1"; tag_id = "tag_2" }
      ∷ [];
}

merge-has_tag_example :
    let ml : Tag = record { id = "tag_1"; name = "ml" } in
    let ai : Tag = record { id = "tag_2"; name = "ai" } in
    (has_tag Owner.project "p1" "tag_2" (merge ml ai two_tags)
      ≡ has_tag Owner.project "p1" "tag_2" two_tags || has_tag Owner.project "p1" "tag_1" two_tags)
    × ((has_tag Owner.project "p1" "tag_3" (merge ml ai two_tags)
          ≡ has_tag Owner.project "p1" "tag_3" two_tags)
        × (any (λ (t : Tag). t.id == "tag_1") (merge ml ai two_tags).tags ≡ false))
merge-has_tag_example =
    merge-has_tag Owner.project "p1" "tag_3" (record { id = "tag_1"; name = "ml" })
      (record { id = "tag_2"; name = "ai" }) two_tags refl refl refl

renamed :
    rename canonical "tag_1" "ai" two_tags
    ≡ some (
      some (record { id = "tag_2"; name = "ai" }),
      merge (record { id = "tag_1"; name = "ml" }) (record { id = "tag_2"; name = "ai" }) two_tags,
    )
unfolding rename normalize_tag_name is_tag
renamed = refl

bulk :
    apply_bulk canonical Owner.artifact ("a1" ∷ "a1" ∷ []) (("tag_1", "ml") ∷ []) [] empty
    ≡ some (1, tagged)
unfolding apply_bulk bulk_from add_all remove_all attach normalize_tag_name is_tag
bulk = refl
