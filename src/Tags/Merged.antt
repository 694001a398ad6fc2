-- ===== src/Tags/Merged.antt =====
-- Who carries which tag after a tag was merged into another.
use astation.Prelude.{
  ◌≡◌, refl, ap, ◌∙◌, String, Bool, false, List, [], ◌∷◌, ◌++◌, not, ◌&&◌, ◌||◌, keep_if, any,
  arith, Bool-cases, inl, inr,
}
use astation.Prelude.Eq.{◌==◌, string_eq}
use astation.Tags.Carried.{any-append, same_owner_refl}
use astation.Tags.{
  Owner, Tag, Carrier, TagTables, artifact, project, same_owner, is_carrier, moved, merge,
}

-- Dropping the rows of a tag leaves every other tag's.
any-other :
    (kind : Owner) (owner_id tag_id gone : String) (cs : List Carrier)
    → (tag_id == gone) ≡ false
    → any (is_carrier kind owner_id tag_id) (keep_if (λ (c : Carrier). not (c.tag_id == gone)) cs)
      ≡ any (is_carrier kind owner_id tag_id) cs
any-other kind owner_id tag_id gone [] h = refl
any-other kind owner_id tag_id gone (c ∷ cs) h = ground (
  arith,
  string_eq.beq_iff c.tag_id gone,
  string_eq.beq_iff c.tag_id tag_id,
  string_eq.beq_iff tag_id gone,
  any-other kind owner_id tag_id gone cs h,
)

-- The new rows are of owners that carried the tag and not yet the target.
any-moved :
    (kind : Owner) (owner_id : String) (tag target : Tag) (all cs : List Carrier)
    → any (is_carrier kind owner_id target.id) (moved kind tag target all cs)
      ≡ any (is_carrier kind owner_id tag.id) cs
        && not (any (is_carrier kind owner_id target.id) all)
any-moved kind owner_id tag target all [] = refl
any-moved kind owner_id tag target all (c ∷ cs) = elim (Bool-cases (c.owner_id == owner_id)) [
  | inl own ↦
      let same : any (is_carrier kind c.owner_id target.id) all
          ≡ any (is_carrier kind owner_id target.id) all =
        ap (λ o. any (is_carrier kind o target.id) all)
          ((string_eq.beq_iff c.owner_id owner_id).0 own) in
      ground (
        arith,
        same,
        same_owner_refl kind,
        (string_eq.beq_iff target.id target.id).1 refl,
        any-moved kind owner_id tag target all cs,
      )
  | inr foreign ↦ ground (arith, any-moved kind owner_id tag target all cs)
]

-- The rows of the other join table are of other owners.
any-moved_other :
    (kind other : Owner) (owner_id tag_id : String) (tag target : Tag) (all cs : List Carrier)
    → same_owner other kind ≡ false
    → any (is_carrier kind owner_id tag_id) (moved other tag target all cs) ≡ false
any-moved_other kind other owner_id tag_id tag target all [] h = refl
any-moved_other kind other owner_id tag_id tag target all (c ∷ cs) h =
    ground (arith, any-moved_other kind other owner_id tag_id tag target all cs h)

-- A tag that is not the target gets no new row.
any-moved_untouched :
    (kind other : Owner) (owner_id tag_id : String) (tag target : Tag) (all cs : List Carrier)
    → (tag_id == target.id) ≡ false
    → any (is_carrier kind owner_id tag_id) (moved other tag target all cs) ≡ false
any-moved_untouched kind other owner_id tag_id tag target all [] h = refl
any-moved_untouched kind other owner_id tag_id tag target all (c ∷ cs) h = ground (
  arith,
  string_eq.beq_iff target.id tag_id,
  string_eq.beq_iff tag_id target.id,
  any-moved_untouched kind other owner_id tag_id tag target all cs h,
)

-- The owner carries the tag with this id.
abbrev pub has_tag : Owner → String → String → TagTables → Bool
has_tag kind owner_id tag_id db = any (is_carrier kind owner_id tag_id) db.carriers

new_rows-target :
    (kind : Owner) (owner_id : String) (tag target : Tag) (cs : List Carrier)
    → any
        (is_carrier kind owner_id target.id)
        (moved artifact tag target cs cs ++ moved project tag target cs cs)
      ≡ any (is_carrier kind owner_id tag.id) cs
        && not (any (is_carrier kind owner_id target.id) cs)
new_rows-target artifact owner_id tag target cs =
    any-append (is_carrier artifact owner_id target.id) (moved artifact tag target cs cs)
      (moved project tag target cs cs)
    ∙ rw (any-moved_other artifact project owner_id target.id tag target cs cs refl)
        (rw (any-moved artifact owner_id tag target cs cs) (ground arith))
new_rows-target project owner_id tag target cs =
    any-append (is_carrier project owner_id target.id) (moved artifact tag target cs cs)
      (moved project tag target cs cs)
    ∙ rw (any-moved_other project artifact owner_id target.id tag target cs cs refl)
        (rw (any-moved project owner_id tag target cs cs) refl)

-- A merge of a tag into another one: an owner of either kind carries the target exactly if it carried
-- the target or the merged tag, every third tag is carried by the owners that carried it, and the
-- merged tag is gone from the vocabulary.
pub merge-has_tag :
    (kind : Owner) (owner_id tag_id : String) (tag target : Tag) (db : TagTables)
    → (target.id == tag.id) ≡ false
    → (tag_id == tag.id) ≡ false
    → (tag_id == target.id) ≡ false
    → (has_tag kind owner_id target.id (merge tag target db)
        ≡ has_tag kind owner_id target.id db || has_tag kind owner_id tag.id db)
      × ((has_tag kind owner_id tag_id (merge tag target db) ≡ has_tag kind owner_id tag_id db)
          × (any (λ (t : Tag). t.id == tag.id) (merge tag target db).tags ≡ false))
unfolding merge
merge-has_tag kind owner_id tag_id tag target db h third other = (
  any-other kind owner_id target.id tag.id (db.carriers ++ new) h
      ∙ any-append (is_carrier kind owner_id target.id) db.carriers new
      ∙ rw (new_rows-target kind owner_id tag target db.carriers) (ground arith),
  (
    any-other kind owner_id tag_id tag.id (db.carriers ++ new) third
        ∙ any-append (is_carrier kind owner_id tag_id) db.carriers new
        ∙ rw (untouched) (ground arith),
    gone db.tags,
  ),
)
  where
    new : List Carrier
    new =
        moved artifact tag target db.carriers db.carriers
        ++ moved project tag target db.carriers db.carriers

    untouched : any (is_carrier kind owner_id tag_id) new ≡ false
    untouched =
        any-append (is_carrier kind owner_id tag_id)
          (moved artifact tag target db.carriers db.carriers)
          (moved project tag target db.carriers db.carriers)
        ∙ rw
            (any-moved_untouched kind artifact owner_id tag_id tag target db.carriers db.carriers
              other)
            (any-moved_untouched kind project owner_id tag_id tag target db.carriers db.carriers
              other)

    gone :
        (tags : List Tag)
        → any (λ (t : Tag). t.id == tag.id) (keep_if (λ (t : Tag). not (t.id == tag.id)) tags)
          ≡ false
    gone [] = refl
    gone (t ∷ tags) = ground (arith, gone tags)
